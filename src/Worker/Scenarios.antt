-- ===== src/Worker/Scenarios.antt =====
-- Runs of the worker's decision and of its retry policy.
use lapangan_go.Base.{
  ◌≡◌, refl, ◌↔◌, ℕ, ◌+◌, ◌*◌, ◌/◌, ◌^◌, ◌≤◌, ◌<◌, min, max, arith, Bool, true, false, Option, none,
  some, ℤ, pos, text, Text, ok, ◌&&◌, leb,
}
use lapangan_go.Base
use lapangan_go.Payments.Types.{PaymentAttempt, pending}
use lapangan_go.Payments.Identity.{Unicode}
use lapangan_go.Outbox.Types.{Command, leased, payment_create, validate_retry_delay}
use lapangan_go.Worker.Decision
use lapangan_go.Worker.Decision.{
  call_create, call_inquiry, decide_command_execution, command_lease_active,
  classify_provider_identity,
}
use lapangan_go.Worker.Decision.Authorised.{
  CreateIsDue, InquiryIsDue, decide_command_execution-authorised,
}
use lapangan_go.Worker.Retry
use lapangan_go.Worker.Retry.{
  RetryPolicy, base_delay, effective_max, effective_initial, rounds_of, nanoseconds,
  deterministic_jitter, default_retry_policy, processor_policy, delay, max_delay_of,
}
use lapangan_go.Worker.Retry.Exponential.{base_delay-exponential}
use lapangan_go.Worker.Retry.Bounds.{IsBetween, delay-IsBetween}
use lapangan_go.Worker.Retry.Jitter.{deterministic_jitter-bounds}

abbrev ascii : Unicode
ascii = record {
  is_print = λ c. leb 32 c && leb c 126;
  is_letter = λ c. leb 97 c && leb c 122;
  to_lower = λ c. c;
}

abbrev create_command : Command
create_command = record {
  id = text "c1";
  command_type = payment_create;
  aggregate_id = text "a1";
  payment_attempt_id = some (text "a1");
  idempotency_key = text "payment:create:1";
  request_hash = text "h";
  state = leased;
  attempt_count = 1;
  malformed_response_count = 0;
  available_at = 1000;
  lease_owner = some (text "worker");
  lease_token = some (text "token");
  lease_expires_at = some 9000;
  last_error_code = none;
  provider_reference = none;
  created_at = 1000;
  updated_at = 1000;
  completed_at = none;
}

abbrev pending_attempt : PaymentAttempt
pending_attempt = record {
  id = text "a1";
  booking_id = text "b1";
  attempt_no = 1;
  provider = text "XENDIT";
  provider_environment = text "TEST";
  state = pending;
  currency = text "IDR";
  amount_rupiah = pos 150000;
  provider_session_id = none;
  provider_payment_req_id = none;
  provider_payment_id = none;
  provider_status_code = none;
  expires_at = 9000;
  captured_at = none;
  created_at = 1000;
  updated_at = 1000;
}

decide_command_execution-authorised_example :
    (((decide_command_execution ascii create_command pending_attempt 5000).action ≡ call_create)
      ↔ CreateIsDue create_command pending_attempt 5000)
    × (((decide_command_execution ascii create_command pending_attempt 5000).action ≡ call_inquiry)
        ↔ InquiryIsDue ascii create_command pending_attempt 5000)
decide_command_execution-authorised_example =
    decide_command_execution-authorised ascii create_command pending_attempt 5000

-- The command is sent, and after its lease it is not.
create_is_sent :
    (decide_command_execution ascii create_command pending_attempt 5000).action ≡ call_create
unfolding decide_command_execution command_lease_active classify_provider_identity
    Decision.decide_by_type
create_is_sent = refl

abbrev constant_hash : Text → ℤ → ℕ
constant_hash key attempt = 500

abbrev two_to_sixty : RetryPolicy
two_to_sixty = default_retry_policy constant_hash

-- The third delay of the default policy is 8 seconds.
base_delay-exponential_example : base_delay two_to_sixty (pos 3) (pos 0) ≡ 8000000000
unfolding effective_max effective_initial
base_delay-exponential_example = base_delay-exponential two_to_sixty (pos 3) (pos 0) refl

default_policy_kept : processor_policy constant_hash two_to_sixty ≡ ok two_to_sixty
unfolding processor_policy Retry.are_refused_delays validate_retry_delay Base.rem
default_policy_kept = refl

delay-IsBetween_example :
    (validate_retry_delay (pos (delay two_to_sixty (text "k") (pos 3) (pos 0))) ≡ true)
    × (0 < base_delay two_to_sixty (pos 3) (pos 0))
    × IsBetween
        (base_delay two_to_sixty (pos 3) (pos 0))
        (max_delay_of two_to_sixty)
        (delay two_to_sixty (text "k") (pos 3) (pos 0))
delay-IsBetween_example =
    delay-IsBetween constant_hash two_to_sixty two_to_sixty (text "k") (pos 3) (pos 0)
      default_policy_kept

deterministic_jitter-bounds_example :
    (d : ℕ) × (deterministic_jitter constant_hash (text "k") (pos 3) 8000000000 ≡ pos d)
    × (8000000000 ≤ d)
    × (d ≤ 8000000000 + 8000000000 / 10)
deterministic_jitter-bounds_example =
    deterministic_jitter-bounds constant_hash (text "k") (pos 3) 8000000000 (omega arith)
