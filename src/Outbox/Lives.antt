-- ===== src/Outbox/Lives.antt =====
-- The history of every command over any sequence of steps of
-- apps/api/internal/paymentoutbox/repository.go.
use lapangan_go.Base.{Option, ◌≡◌, refl, Bool, true, false, ℕ, Text, text, text_eq, if◌then◌else◌}
use lapangan_go.Outbox.Types.{Command}
use lapangan_go.Outbox.Lease.{
  Outbox, set_succeeded, set_terminal, set_retryable, set_malformed, retry_update, duration_of,
}
use lapangan_go.Outbox.Trace.{
  Step, Trace, claims, succeeds, ends, retries, waits, here, step_on, mark_succeeded-run,
  mark_terminal-run, mark_retryable-run,
}
use lapangan_go.Outbox.History.{
  IsEnd, AreLater, AreLater-refl, AreLater-trans, finish_lease-later, lease_command-later,
}

set_succeeded-IsEnd : (r : Text) → IsEnd (set_succeeded r)
unfolding set_succeeded
set_succeeded-IsEnd r = record {
  id_kept = λ now c. refl;
  request_kept = λ now c. refl;
  count_kept = λ now c. refl;
}

set_terminal-IsEnd : (r : Text) → IsEnd (set_terminal r)
unfolding set_terminal
set_terminal-IsEnd r = record {
  id_kept = λ now c. refl;
  request_kept = λ now c. refl;
  count_kept = λ now c. refl;
}

-- Both branches of a retry leave a column alone.
kept_by_either :
    {A : Type 0} (column : Command → A) (b : Bool) (c x y : Command)
    → column c ≡ column x
    → column c ≡ column y
    → column c ≡ column (if b then x else y)
kept_by_either column true c x y h k = h
kept_by_either column false c x y h k = k

retry_update-IsEnd : (code : Text) (d : ℕ) → IsEnd (retry_update code d)
unfolding retry_update set_malformed set_retryable
retry_update-IsEnd code d = record {
  id_kept = λ now c.
      kept_by_either (λ x. x.id) malformed c (set_malformed code d now c)
        (set_retryable code d now c) refl refl;
  request_kept = λ now c.
      kept_by_either (λ x. x.request_hash) malformed c (set_malformed code d now c)
        (set_retryable code d now c) refl refl;
  count_kept = λ now c.
      kept_by_either (λ x. x.attempt_count) malformed c (set_malformed code d now c)
        (set_retryable code d now c) refl refl;
}
  where
    malformed : Bool
    malformed = text_eq code (text "MALFORMED_RESPONSE")

module _ (parse_uuid : Text → Option Text) where
  Step-later : (st end : Outbox) → Step parse_uuid st end → AreLater st.commands end.commands
  Step-later st end (claims joined allowed id owner token d _ r h) =
      lease_command-later joined allowed id owner token d st r h
  Step-later st end (succeeds id owner token ref _ r h) =
      let (c, k) = mark_succeeded-run parse_uuid id owner token ref st r h in
      finish_lease-later c owner token (set_succeeded ref) st r (set_succeeded-IsEnd ref) k
  Step-later st end (ends id owner token code _ r h) =
      let (c, k) = mark_terminal-run parse_uuid id owner token code st r h in
      finish_lease-later c owner token (set_terminal code) st r (set_terminal-IsEnd code) k
  Step-later st end (retries id owner token code delay _ r h) =
      let (c, k) = mark_retryable-run parse_uuid id owner token code delay st r h in
      finish_lease-later c owner token (retry_update code (duration_of delay)) st r
        (retry_update-IsEnd code (duration_of delay)) k
  Step-later st end (waits _ later _) = AreLater-refl st.commands

  -- Over any sequence of steps no command is lost or reordered, each keeps its identity and its
  -- request and never counts fewer claims than before, and one that has succeeded or ended stays as
  -- it is.
  pub Trace-later : (st end : Outbox) → Trace parse_uuid st end → AreLater st.commands end.commands
  Trace-later st end (here _) = AreLater-refl st.commands
  Trace-later st end (step_on _ mid _ step rest) =
      AreLater-trans st.commands mid.commands end.commands (Step-later st mid step)
        (Trace-later mid end rest)
