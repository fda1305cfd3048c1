-- ===== src/Outbox/Trace.antt =====
-- The lives of the commands of the outbox: the steps that
-- apps/api/internal/paymentoutbox/repository.go can make, in any order.
use lapangan_go.Base.{
  ◌≡◌, Bool, true, false, ℕ, ◌≤◌, Option, some, Text, ℤ, ok, bind_ok, fail_if, ◌&&◌,
}
use lapangan_go.Outbox.Types.{
  Command, CommandType, CommandState, succeeded, terminal, invalid_command,
  validate_terminal_error_code, validate_retryable_error_code, validate_retry_delay,
}
use lapangan_go.Outbox.Lease.{
  Outbox, set_succeeded, set_terminal, retry_update, Aggregate, duration_of,
}
use lapangan_go.Outbox.Operations.{
  finish_lease, finish_named, named, is_refused_end, mark_succeeded, mark_terminal, mark_retryable,
  lease_command, validate_provider_reference,
}
use lapangan_go.Outbox.Invariant.{
  IsWellFormed, finish_lease-good, lease_command-good, set_succeeded-good, set_terminal-good,
  retry_update-good,
}

abbrev pub is_final : CommandState → Bool
is_final succeeded = true
is_final terminal = true
is_final _ = false

module _ (parse_uuid : Text → Option Text) where
  -- A claim of a command, an end of a lease by a worker, or time that goes by.
  pub data Step : Outbox → Outbox → Type 0 where
    claims :
        (joined : Command → Option Aggregate) (allowed : CommandType → Bool) (id owner token : Text)
        (duration : ℤ) (st : Outbox) (r : Option Command × Outbox)
        → lease_command joined allowed id owner token duration st ≡ ok r
        → Step st r.1
    succeeds :
        (id owner token reference : Text) (st : Outbox) (r : Command × Outbox)
        → mark_succeeded parse_uuid id owner token reference (some st) ≡ ok r
        → Step st r.1
    ends :
        (id owner token code : Text) (st : Outbox) (r : Command × Outbox)
        → mark_terminal parse_uuid id owner token code (some st) ≡ ok r
        → Step st r.1
    retries :
        (id owner token code : Text) (delay : ℤ) (st : Outbox) (r : Command × Outbox)
        → mark_retryable parse_uuid id owner token code delay (some st) ≡ ok r
        → Step st r.1
    waits : (st : Outbox) (later : ℕ) → st.now ≤ later → Step st (record st { now = later })

  pub data Trace : Outbox → Outbox → Type 0 where
    here : (st : Outbox) → Trace st st
    step_on : (st mid end : Outbox) → Step st mid → Trace mid end → Trace st end

  -- Every end of a lease is the UPDATE of finishLeaseTx.
  pub finish_named-run :
      (id owner token : Text) (set : ℕ → Command → Command) (st : Outbox) (r : Command × Outbox)
      → finish_named parse_uuid id owner token set st ≡ ok r
      → (canonical : Text) × (finish_lease canonical owner token set st ≡ ok r)
  unfolding finish_named
  finish_named-run id owner token set st r h =
      bind_ok (named (parse_uuid id)) h λ canonical _ k. (canonical, k)

  pub mark_succeeded-run :
      (id owner token reference : Text) (st : Outbox) (r : Command × Outbox)
      → mark_succeeded parse_uuid id owner token reference (some st) ≡ ok r
      → (c : Text) × (finish_lease c owner token (set_succeeded reference) st ≡ ok r)
  unfolding mark_succeeded
  mark_succeeded-run id owner token reference st r h =
      bind_ok
        (fail_if (is_refused_end parse_uuid owner token (validate_provider_reference reference))
          invalid_command)
        h λ _ _ k. finish_named-run id owner token (set_succeeded reference) st r k

  pub mark_terminal-run :
      (id owner token code : Text) (st : Outbox) (r : Command × Outbox)
      → mark_terminal parse_uuid id owner token code (some st) ≡ ok r
      → (c : Text) × (finish_lease c owner token (set_terminal code) st ≡ ok r)
  unfolding mark_terminal
  mark_terminal-run id owner token code st r h =
      bind_ok
        (fail_if (is_refused_end parse_uuid owner token (validate_terminal_error_code code))
          invalid_command)
        h λ _ _ k. finish_named-run id owner token (set_terminal code) st r k

  pub mark_retryable-run :
      (id owner token code : Text) (delay : ℤ) (st : Outbox) (r : Command × Outbox)
      → mark_retryable parse_uuid id owner token code delay (some st) ≡ ok r
      → (c : Text) × (finish_lease c owner token (retry_update code (duration_of delay)) st ≡ ok r)
  unfolding mark_retryable
  mark_retryable-run id owner token code delay st r h =
      bind_ok
        (fail_if
          (is_refused_end parse_uuid owner token
            (validate_retryable_error_code code && validate_retry_delay delay))
          invalid_command)
        h λ _ _ k. finish_named-run id owner token (retry_update code (duration_of delay)) st r k

  Step-IsWellFormed : (st end : Outbox) → Step st end → IsWellFormed st → IsWellFormed end
  Step-IsWellFormed st end (claims joined allowed id owner token d _ r h) wf =
      lease_command-good joined allowed id owner token d st r wf h
  Step-IsWellFormed st end (succeeds id owner token ref _ r h) wf =
      let (c, k) = mark_succeeded-run id owner token ref st r h in
      finish_lease-good c owner token (set_succeeded ref) st r (set_succeeded-good ref st.now) wf k
  Step-IsWellFormed st end (ends id owner token code _ r h) wf =
      let (c, k) = mark_terminal-run id owner token code st r h in
      finish_lease-good c owner token (set_terminal code) st r (set_terminal-good code st.now) wf k
  Step-IsWellFormed st end (retries id owner token code delay _ r h) wf =
      let (c, k) = mark_retryable-run id owner token code delay st r h in
      finish_lease-good c owner token (retry_update code (duration_of delay)) st r
        (retry_update-good code (duration_of delay) st.now) wf k
  Step-IsWellFormed st end (waits _ later _) wf = wf

  -- In every outbox that the steps reach from a well-formed one, a command has an owner, a token and
  -- an expiry exactly while it is leased, and it is completed exactly when it has succeeded or ended.
  pub Trace-IsWellFormed : (st end : Outbox) → Trace st end → IsWellFormed st → IsWellFormed end
  Trace-IsWellFormed st end (here _) wf = wf
  Trace-IsWellFormed st end (step_on _ mid _ step rest) wf =
      Trace-IsWellFormed mid end rest (Step-IsWellFormed st mid step wf)
