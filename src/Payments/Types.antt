-- ===== src/Payments/Types.antt =====
-- The rows and the results of apps/api/internal/payments/repository.go and dto.go. An instant is
-- the number of nanoseconds since the zero time; `now` is the transaction's timestamp.
use lapangan_go.Base.{ℕ, Bool, Option, List, ℤ, Text}

pub data AttemptState : Type 0 where
  created pending captured failed expired cancelled : AttemptState

pub data PaymentError : Type 0 where
  invalid_capture invalid_transition attempt_not_found booking_not_found : PaymentError
  state_conflict payment_integrity capture_conflict already_captured : PaymentError

-- The columns that no operation here reads are left out: the method and mode names, the local
-- reference, the request hash and the checkout address.
pub record PaymentAttempt : Type 0 where
  pub id : Text
  pub booking_id : Text
  pub attempt_no : ℕ
  pub provider : Text
  pub provider_environment : Text
  pub state : AttemptState
  pub currency : Text
  pub amount_rupiah : ℤ
  pub provider_session_id : Option Text
  pub provider_payment_req_id : Option Text
  pub provider_payment_id : Option Text
  pub provider_status_code : Option Text
  pub expires_at : ℕ
  pub captured_at : Option ℕ
  pub created_at : ℕ
  pub updated_at : ℕ

pub record CaptureParams : Type 0 where
  pub attempt_id : Text
  pub provider : Text
  pub provider_environment : Text
  pub provider_payment_id : Text
  pub provider_payment_req_id : Option Text
  pub amount_rupiah : ℤ
  pub currency : Text
  pub captured_at : ℕ
  pub observed_at : ℕ
  pub authority : Text
  pub source_reference : Text
  pub payload_hash : Text

pub record PaymentCaptureFact : Type 0 where
  pub id : Text
  pub payment_attempt_id : Text
  pub provider : Text
  pub provider_environment : Text
  pub provider_payment_id : Text
  pub provider_payment_req_id : Option Text
  pub amount_rupiah : ℤ
  pub currency : Text
  pub captured_at : ℕ
  pub observed_at : ℕ
  pub authority : Text
  pub source_reference : Text
  pub payload_hash : Text
  pub created_at : ℕ

pub record CaptureResult : Type 0 where
  pub attempt : PaymentAttempt
  pub fact : PaymentCaptureFact
  pub duplicate : Bool
  pub late_capture : Bool
  pub booking_paid : Bool

-- The statuses that the bookings table allows.
pub data BookingStatus : Type 0 where
  pending_payment waiting_verification confirmed paid cancelled_booking completed : BookingStatus

pub record BookingRow : Type 0 where
  pub id : Text
  pub status : BookingStatus
  pub expires_at : Option ℕ
  pub updated_at : ℕ

-- What writePaymentAudit is told of a transition.
pub record PaymentAudit : Type 0 where
  pub entity_id : Text
  pub from_state : AttemptState
  pub to_state : AttemptState
  pub late_capture : Bool

-- What a transaction sees.
pub record Store : Type 0 where
  pub attempts : List PaymentAttempt
  pub facts : List PaymentCaptureFact
  pub bookings : List BookingRow
  pub audits : List PaymentAudit
  pub now : ℕ
