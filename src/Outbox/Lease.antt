-- ===== src/Outbox/Lease.antt =====
-- The lease of a command in apps/api/internal/paymentoutbox/repository.go: the conditions and the
-- SET clauses of the statement that claims a command and of those that finish a lease.
use lapangan_go.Base.{
  ℕ, ◌+◌, Bool, true, false, not, ◌&&◌, ◌||◌, List, Option, none, some, leb, ltb, ◌==◌,
  if◌then◌else◌, Text, text, text_eq, option_text_eq, ℤ, pos, negsuc, Result, ok, err, ◌>>◌,
  fail_if, is_some, all, any, length,
}
use lapangan_go.Payments.Types.{
  AttemptState, created, captured, failed, expired, cancelled, BookingStatus, pending_payment,
}
use lapangan_go.Payments.Types as Attempt
use lapangan_go.Payments.Capture.{state_eq}
use lapangan_go.Outbox.Types.{
  Command, CommandState, pending, leased, retryable, succeeded, terminal, CommandType,
  payment_create, payment_inquiry, OutboxError, invalid_command,
}

-- The commands and the transaction's timestamp.
pub record Outbox : Type 0 where
  pub commands : List Command
  pub now : ℕ

abbrev pub is_leased_state : CommandState → Bool
is_leased_state leased = true
is_leased_state _ = false

abbrev pub expires_after : ℕ → Option ℕ → Bool
expires_after now none = false
expires_after now (some t) = ltb now t

abbrev pub duration_of : ℤ → ℕ
duration_of (pos n) = n
duration_of (negsuc _) = 0

abbrev pub has_command_id : Text → Command → Bool
has_command_id id c = text_eq id c.id

-- The WHERE of finishLeaseTx.
unfoldable pub holds_lease : Text → Text → Text → ℕ → Command → Bool
holds_lease id owner token now c =
    text_eq id c.id
    && is_leased_state c.state
    && option_text_eq c.lease_owner (some owner)
    && option_text_eq c.lease_token (some token)
    && expires_after now c.lease_expires_at

-- The columns that every SET clause clears.
abbrev pub without_lease : ℕ → Command → Command
without_lease now c = record c {
  lease_owner = none;
  lease_token = none;
  lease_expires_at = none;
  updated_at = now;
}

unfoldable pub set_succeeded : Text → ℕ → Command → Command
set_succeeded reference now c = record (without_lease now c) {
  state = succeeded;
  provider_reference = some reference;
  completed_at = some now;
  last_error_code = none;
}

unfoldable pub set_terminal : Text → ℕ → Command → Command
set_terminal code now c = record (without_lease now c) {
  state = terminal;
  last_error_code = some code;
  completed_at = some now;
}

unfoldable pub set_retryable : Text → ℕ → ℕ → Command → Command
set_retryable code delay now c = record (without_lease now c) {
  state = retryable;
  available_at = now + delay;
  last_error_code = some code;
  completed_at = none;
}

-- A response that cannot be read is retried once.
unfoldable pub set_malformed : Text → ℕ → ℕ → Command → Command
set_malformed code delay now c = record (without_lease now c) {
  state = if leb 1 c.malformed_response_count then terminal else retryable;
  available_at = if leb 1 c.malformed_response_count then c.available_at else now + delay;
  last_error_code = some code;
  malformed_response_count = c.malformed_response_count + 1;
  completed_at = if leb 1 c.malformed_response_count then some now else none;
}

unfoldable pub retry_update : Text → ℕ → ℕ → Command → Command
retry_update code delay now c =
    if text_eq code (text "MALFORMED_RESPONSE")
    then set_malformed code delay now c
    else set_retryable code delay now c

abbrev pub leased_row : OutboxError → Option Command → Result OutboxError Command
leased_row e none = err e
leased_row e (some c) = ok c

-- The UPDATE of the claim: `token` is what gen_random_uuid draws. One instant stands for the
-- transaction's and the statement's timestamp.
abbrev pub error_of_claim : Command → Option Text
error_of_claim c =
    if is_leased_state c.state then some (text "LEASE_EXPIRED") else c.last_error_code

unfoldable pub set_leased : Text → Text → ℕ → ℕ → Command → Command
set_leased owner token duration now c = record c {
  state = leased;
  attempt_count = c.attempt_count + 1;
  lease_owner = some owner;
  lease_token = some token;
  lease_expires_at = some (now + duration);
  last_error_code = error_of_claim c;
  updated_at = now;
}

-- May the command be claimed, as far as its own row says: it waits and its time has come, or its
-- lease has run out.
abbrev pub is_due_in : CommandState → ℕ → Option ℕ → ℕ → Bool
is_due_in pending available expires now = leb available now
is_due_in retryable available expires now = leb available now
is_due_in leased available expires now = is_some expires && not (expires_after now expires)
is_due_in _ available expires now = false

unfoldable pub is_due : ℕ → Command → Bool
is_due now c = is_due_in c.state c.available_at c.lease_expires_at now

-- What the joins of the claim find for a command: the state of its attempt, the status of the
-- booking, and whether the creation was cancelled.
pub record Aggregate : Type 0 where
  pub attempt_state : AttemptState
  pub booking_status : BookingStatus
  pub create_cancelled : Bool

abbrev is_create : CommandType → Bool
is_create payment_create = true
is_create _ = false

abbrev is_inquiry : CommandType → Bool
is_inquiry payment_inquiry = true
is_inquiry _ = false

abbrev is_pending_booking : BookingStatus → Bool
is_pending_booking pending_payment = true
is_pending_booking _ = false

-- claimablePaymentCommandPredicate
unfoldable pub is_claimable : ℕ → Command → Option Aggregate → Bool
is_claimable now c none = false
is_claimable now c (some g) =
    (is_create c.command_type
      && not g.create_cancelled
      && ((state_eq g.attempt_state created && is_pending_booking g.booking_status)
          || state_eq g.attempt_state Attempt.pending))
    || (is_inquiry c.command_type && state_eq g.attempt_state Attempt.pending)
    || (is_leased_state c.state
        && is_some c.lease_expires_at
        && not (expires_after now c.lease_expires_at)
        && (is_create c.command_type || is_inquiry c.command_type)
        && (state_eq g.attempt_state captured
            || state_eq g.attempt_state failed
            || state_eq g.attempt_state expired
            || state_eq g.attempt_state cancelled))

-- The filter that the types give, if each is one of the two that can be claimed.
unfoldable pub command_type_filter : List CommandType → Result OutboxError (CommandType → Bool)
command_type_filter types =
    fail_if (not (all (λ t. is_create t || is_inquiry t) types) || (length types == 0))
      invalid_command
    >> ok (λ t. (is_create t && any is_create types) || (is_inquiry t && any is_inquiry types))

-- The rest of the WHERE of the claim.
abbrev pub is_candidate :
    Text → (Command → Option Aggregate) → (CommandType → Bool) → ℕ → Command → Bool
is_candidate id joined allowed now c =
    has_command_id id c && is_claimable now c (joined c) && allowed c.command_type
