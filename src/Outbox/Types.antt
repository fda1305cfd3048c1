-- ===== src/Outbox/Types.antt =====
-- The commands and the validators of apps/api/internal/paymentoutbox/model.go. A duration is an
-- int64 number of nanoseconds; the payload of a command is left out, as nothing here reads it.
use lapangan_go.Base.{ℕ, Bool, ◌&&◌, ◌||◌, Option, Text, text, text_eq, ℤ, pos, leb_ℤ, eqb_ℤ, rem}

pub data CommandType : Type 0 where
  payment_create payment_inquiry refund_create refund_inquiry : CommandType
  other_command : Text → CommandType

pub data CommandState : Type 0 where
  pending leased retryable succeeded terminal : CommandState

pub data OutboxError : Type 0 where
  invalid_command command_not_found idempotency_conflict no_command_available : OutboxError
  lease_conflict refund_outbox_not_ready : OutboxError

pub record Command : Type 0 where
  pub id : Text
  pub command_type : CommandType
  pub aggregate_id : Text
  pub payment_attempt_id : Option Text
  pub idempotency_key : Text
  pub request_hash : Text
  pub state : CommandState
  pub attempt_count : ℕ
  pub malformed_response_count : ℕ
  pub available_at : ℕ
  pub lease_owner : Option Text
  pub lease_token : Option Text
  pub lease_expires_at : Option ℕ
  pub last_error_code : Option Text
  pub provider_reference : Option Text
  pub created_at : ℕ
  pub updated_at : ℕ
  pub completed_at : Option ℕ

-- 24 * time.Hour
abbrev pub max_lease_duration : ℕ
max_lease_duration = 86400000000000

unfoldable pub validate_lease_duration : ℤ → Bool
validate_lease_duration value =
    leb_ℤ (pos 1000) value && leb_ℤ value (pos max_lease_duration) && eqb_ℤ (rem value 1000) (pos 0)

unfoldable pub validate_retry_delay : ℤ → Bool
validate_retry_delay value =
    leb_ℤ (pos 0) value && leb_ℤ value (pos 86400000000000) && eqb_ℤ (rem value 1000) (pos 0)

unfoldable pub validate_retryable_error_code : Text → Bool
validate_retryable_error_code code =
    text_eq code (text "RETRYABLE_TIMEOUT")
    || text_eq code (text "RETRYABLE_PROVIDER")
    || text_eq code (text "RATE_LIMITED")
    || text_eq code (text "MALFORMED_RESPONSE")

unfoldable pub validate_terminal_error_code : Text → Bool
validate_terminal_error_code code =
    text_eq code (text "AUTHENTICATION_FAILED")
    || text_eq code (text "INVALID_REQUEST")
    || text_eq code (text "IDEMPOTENCY_CONFLICT")
    || text_eq code (text "REFERENCE_MISMATCH")
    || text_eq code (text "AMOUNT_MISMATCH")
    || text_eq code (text "CURRENCY_MISMATCH")
    || text_eq code (text "TERMINAL_PROVIDER")
