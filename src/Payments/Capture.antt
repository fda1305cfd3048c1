-- ===== src/Payments/Capture.antt =====
-- The operations of apps/api/internal/payments/repository.go that move an attempt or record a
-- capture. A result carries the store that the transaction commits; an error rolls it back.
-- `none` for the store is a nil transaction. `parse_uuid` is uuid.Parse, giving the canonical
-- spelling, by which the database compares identifiers too.
use lapangan_go.Base.{
  ℕ, Bool, true, false, not, ◌&&◌, ◌||◌, List, [], ◌∷◌, Option, none, some, leb, ◌==◌, all, Text,
  text, text_eq, trim_space, byte_len, eqb_ℤ, Result, ok, err, select_where, length, is_some,
}
use lapangan_go.Payments.Types.{
  AttemptState, created, pending, captured, failed, expired, cancelled, PaymentError,
  invalid_transition, payment_integrity, PaymentAttempt, CaptureParams, PaymentCaptureFact,
  BookingStatus, cancelled_booking, BookingRow,
}
use lapangan_go.Payments.Identity.{Unicode, valid, is_lower_hex}

abbrev pub state_eq : AttemptState → AttemptState → Bool
state_eq created created = true
state_eq pending pending = true
state_eq captured captured = true
state_eq failed failed = true
state_eq expired expired = true
state_eq cancelled cancelled = true
state_eq _ _ = false

unfoldable pub allowed_state_transition : AttemptState → AttemptState → Bool
allowed_state_transition created to = state_eq to pending || state_eq to cancelled
allowed_state_transition pending to =
    state_eq to failed || state_eq to expired || state_eq to cancelled
allowed_state_transition _ _ = false

abbrev pub found : {A : Type 0} → PaymentError → Option A → Result PaymentError A
found e none = err e
found e (some a) = ok a

unfoldable pub same_optional_string : Option Text → Option Text → Bool
same_optional_string none none = true
same_optional_string (some s) (some t) = text_eq s t
same_optional_string _ _ = false

unfoldable pub is_bounded_reference : Text → ℕ → Bool
is_bounded_reference value max =
    not (text_eq value []) && text_eq value (trim_space value) && leb (byte_len value) max

unfoldable pub is_lower_sha256 : Text → Bool
is_lower_sha256 value = (length value == 64) && all is_lower_hex value

abbrev pub valid_optional_provider_identity : Unicode → Option Text → Bool
valid_optional_provider_identity u none = true
valid_optional_provider_identity u (some v) = valid u v true

-- The UPDATE of TransitionStateTx.
unfoldable pub set_state : AttemptState → ℕ → PaymentAttempt → PaymentAttempt
set_state next now a = record a { state = next; updated_at = now }

-- The UPDATE of RecordCaptureTx.
unfoldable pub set_captured : CaptureParams → ℕ → PaymentAttempt → PaymentAttempt
set_captured p now a = record a {
  state = captured;
  captured_at = some p.captured_at;
  provider_payment_id = some p.provider_payment_id;
  provider_payment_req_id = p.provider_payment_req_id;
  provider_status_code = some (text "CAPTURED");
  updated_at = now;
}

abbrev pub has_attempt_id : Text → PaymentAttempt → Bool
has_attempt_id id a = text_eq id a.id

abbrev pub has_booking_id : Text → BookingRow → Bool
has_booking_id id b = text_eq id b.id

-- The row that the INSERT of RecordCaptureTx returns: the database draws the id.
unfoldable pub fact_of : Text → ℕ → Text → CaptureParams → PaymentCaptureFact
fact_of fact_id now attempt_id p = record {
  id = fact_id;
  payment_attempt_id = attempt_id;
  provider = p.provider;
  provider_environment = p.provider_environment;
  provider_payment_id = p.provider_payment_id;
  provider_payment_req_id = p.provider_payment_req_id;
  amount_rupiah = p.amount_rupiah;
  currency = p.currency;
  captured_at = p.captured_at;
  observed_at = p.observed_at;
  authority = p.authority;
  source_reference = p.source_reference;
  payload_hash = p.payload_hash;
  created_at = now;
}

unfoldable pub same_capture : PaymentCaptureFact → CaptureParams → Bool
same_capture existing p =
    text_eq existing.provider p.provider
    && text_eq existing.provider_environment p.provider_environment
    && text_eq existing.provider_payment_id p.provider_payment_id
    && same_optional_string existing.provider_payment_req_id p.provider_payment_req_id
    && eqb_ℤ existing.amount_rupiah p.amount_rupiah
    && text_eq existing.currency p.currency
    && (existing.captured_at == p.captured_at)

abbrev pub is_capture_of : Text → CaptureParams → PaymentCaptureFact → Bool
is_capture_of attempt_id p f =
    text_eq f.payment_attempt_id attempt_id
    || (text_eq f.provider p.provider
        && text_eq f.provider_environment p.provider_environment
        && text_eq f.provider_payment_id p.provider_payment_id)

abbrev pub at_most_one : List PaymentCaptureFact → Result PaymentError (Option PaymentCaptureFact)
at_most_one [] = ok none
at_most_one (f ∷ []) = ok (some f)
at_most_one (_ ∷ _ ∷ _) = err payment_integrity

unfoldable pub find_capture_by_attempt_or_provider_id :
    Text → CaptureParams → List PaymentCaptureFact → Result PaymentError (Option PaymentCaptureFact)
find_capture_by_attempt_or_provider_id attempt_id p facts =
    at_most_one (select_where (is_capture_of attempt_id p) facts)

-- `COALESCE(expires_at <= transaction_timestamp(), false)`
abbrev pub booking_expired : Option ℕ → ℕ → Bool
booking_expired none now = false
booking_expired (some t) now = leb t now

abbrev pub is_cancelled_booking : BookingStatus → Bool
is_cancelled_booking cancelled_booking = true
is_cancelled_booking _ = false

-- The comparison of the capture with the attempt that it claims.
unfoldable pub capture_disagrees : PaymentAttempt → CaptureParams → Bool
capture_disagrees a p =
    not (text_eq a.provider p.provider)
    || not (text_eq a.provider_environment p.provider_environment)
    || not (text_eq a.currency p.currency)
    || not (eqb_ℤ a.amount_rupiah p.amount_rupiah)
    || (is_some a.provider_payment_id
        && not (same_optional_string a.provider_payment_id (some p.provider_payment_id)))
    || (is_some a.provider_payment_req_id
        && not (same_optional_string a.provider_payment_req_id p.provider_payment_req_id))

-- Is a capture in this state late, and may it be recorded at all.
unfoldable pub late_for_state : AttemptState → Bool → Result PaymentError Bool
late_for_state pending late = ok late
late_for_state failed late = ok true
late_for_state expired late = ok true
late_for_state cancelled late = ok true
late_for_state captured late = err payment_integrity
late_for_state created late = err invalid_transition
