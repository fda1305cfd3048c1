-- ===== src/Outbox/Operations.antt =====
-- MarkSucceeded(Tx), MarkTerminal(Tx), MarkRetryable(Tx) and the UPDATE of claimNextOnce, of
-- apps/api/internal/paymentoutbox/repository.go. `none` for the store is a nil transaction; a call
-- without one runs in a transaction of its own. `parse_uuid` is uuid.Parse with String.
use lapangan_go.Base.{
  ℕ, Bool, false, not, ◌&&◌, ◌||◌, [], ◌∷◌, Option, none, some, ◌==◌, if◌then◌else◌, Text, all,
  text, length, text_eq, ℤ, Result, ok, err, ◌>>=◌, ◌>>◌, fail_if, find_first, update_where,
}
use lapangan_go.Payments.Identity.{is_canonical_uuid, is_lower_hex}
use lapangan_go.Outbox.Types.{
  Command, CommandType, OutboxError, invalid_command, lease_conflict, validate_retry_delay,
  validate_retryable_error_code, validate_terminal_error_code,
}
use lapangan_go.Outbox.Lease.{
  Outbox, holds_lease, set_succeeded, set_terminal, retry_update, set_leased, leased_row, is_due,
  duration_of, is_candidate, Aggregate,
}

-- What follows a prefix that the text must have.
unfoldable pub after_prefix : Text → Text → Option Text
after_prefix [] value = some value
after_prefix (p ∷ ps) [] = none
after_prefix (p ∷ ps) (c ∷ cs) = if p == c then after_prefix ps cs else none

abbrev follows : (Text → Bool) → Option Text → Bool
follows test none = false
follows test (some rest) = test rest

unfoldable pub validate_lease_owner : Text → Bool
validate_lease_owner owner = follows is_canonical_uuid (after_prefix (text "worker:") owner)

unfoldable pub validate_provider_reference : Text → Bool
validate_provider_reference value =
    follows (λ digest. (length digest == 64) && all is_lower_hex digest)
      (after_prefix (text "sha256:") value)

-- The UPDATE of finishLeaseTx with one of its SET clauses, and the row that it returns.
unfoldable pub finish_lease :
    Text → Text → Text → (ℕ → Command → Command) → Outbox → Result OutboxError (Command × Outbox)
finish_lease id owner token set st =
    leased_row lease_conflict (find_first (holds_lease id owner token st.now) st.commands) >>= λ c.
    ok (
      set st.now c,
      record st {
        commands = update_where (holds_lease id owner token st.now) (set st.now) st.commands;
      },
    )

-- The row that the claim updates, by its identifier, and the lease that it gets.
unfoldable pub lease_command :
    (Command → Option Aggregate)
    → (CommandType → Bool)
    → Text
    → Text
    → Text
    → ℤ
    → Outbox
    → Result OutboxError (Option Command × Outbox)
lease_command joined allowed id owner token duration st = ok (
  claimed
      (find_first (λ c. is_candidate id joined allowed st.now c && is_due st.now c) st.commands),
  record st {
    commands =
        update_where (λ c. is_candidate id joined allowed st.now c && is_due st.now c)
          (set_leased owner token (duration_of duration) st.now) st.commands;
  },
)
  where
    claimed : Option Command → Option Command
    claimed none = none
    claimed (some c) = some (set_leased owner token (duration_of duration) st.now c)

abbrev pub named : Option Text → Result OutboxError Text
named none = err invalid_command
named (some canonical) = ok canonical

module _ (parse_uuid : Text → Option Text) where
  abbrev is_canonical : Option Text → Text → Bool
  is_canonical none token = false
  is_canonical (some c) token = text_eq c token

  unfoldable pub validate_lease_token : Text → Bool
  validate_lease_token token = is_canonical (parse_uuid token) token

  -- finishLease, on the identifier in its canonical spelling.
  unfoldable pub finish_named :
      Text → Text → Text → (ℕ → Command → Command) → Outbox → Result OutboxError (Command × Outbox)
  finish_named id owner token set st =
      named (parse_uuid id) >>= λ canonical. finish_lease canonical owner token set st

  -- The test in front of each end of a lease; `accepted` is the one of the last argument.
  abbrev pub is_refused_end : Text → Text → Bool → Bool
  is_refused_end owner token accepted =
      not (validate_lease_owner owner) || not (validate_lease_token token) || not accepted

  unfoldable pub mark_succeeded :
      Text → Text → Text → Text → Option Outbox → Result OutboxError (Command × Outbox)
  mark_succeeded id owner token reference none = err invalid_command
  mark_succeeded id owner token reference (some st) =
      fail_if (is_refused_end owner token (validate_provider_reference reference)) invalid_command
      >> finish_named id owner token (set_succeeded reference) st

  unfoldable pub mark_terminal :
      Text → Text → Text → Text → Option Outbox → Result OutboxError (Command × Outbox)
  mark_terminal id owner token code none = err invalid_command
  mark_terminal id owner token code (some st) =
      fail_if (is_refused_end owner token (validate_terminal_error_code code)) invalid_command
      >> finish_named id owner token (set_terminal code) st

  unfoldable pub mark_retryable :
      Text → Text → Text → Text → ℤ → Option Outbox → Result OutboxError (Command × Outbox)
  mark_retryable id owner token code delay none = err invalid_command
  mark_retryable id owner token code delay (some st) =
      fail_if
        (is_refused_end owner token
          (validate_retryable_error_code code && validate_retry_delay delay))
        invalid_command
      >> finish_named id owner token (retry_update code (duration_of delay)) st
