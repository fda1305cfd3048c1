-- ===== src/Outbox/Invariant.antt =====
-- The rows of payment_provider_commands under the operations of
-- apps/api/internal/paymentoutbox/repository.go.
use lapangan_go.Base.{
  ◌≡◌, refl, subst, Bool, true, false, ℕ, leb, List, [], ◌∷◌, Option, is_some, not, ◌&&◌, Text,
  text, text_eq, ℤ, ok, bind_ok, ok-injective, find_first, update_where, Bool-cases, inl, inr, All,
  if◌then◌else◌, arith, both-true,
}
use lapangan_go.Outbox.Types.{
  Command, CommandType, CommandState, pending, leased, retryable, succeeded, terminal,
  lease_conflict,
}
use lapangan_go.Outbox.Lease.{
  Outbox, holds_lease, set_succeeded, set_terminal, set_retryable, set_malformed, retry_update,
  set_leased, is_due, is_candidate, Aggregate, duration_of, is_due_in, leased_row,
}
use lapangan_go.Outbox.Operations.{finish_lease, lease_command}

-- A leased command has an owner, a token and an expiry, and no other command has any of them; a
-- command is completed exactly in its two final states.
abbrev pub fits_state : CommandState → Bool → Bool → Bool → Bool → Bool
fits_state leased owner token expiry completed = owner && token && expiry && not completed
fits_state pending owner token expiry completed =
    not owner && not token && not expiry && not completed
fits_state retryable owner token expiry completed =
    not owner && not token && not expiry && not completed
fits_state _ owner token expiry completed = not owner && not token && not expiry && completed

abbrev pub is_well_formed : Command → Bool
is_well_formed c =
    fits_state c.state (is_some c.lease_owner) (is_some c.lease_token) (is_some c.lease_expires_at)
      (is_some c.completed_at)

abbrev pub IsWellFormed : Outbox → Type 0
IsWellFormed st = All (λ c. is_well_formed c ≡ true) st.commands

-- An update whose rows come out well formed.
All-update_where :
    (p : Command → Bool) (f : Command → Command) (cs : List Command)
    → ((c : Command) → is_well_formed c ≡ true → p c ≡ true → is_well_formed (f c) ≡ true)
    → All (λ c. is_well_formed c ≡ true) cs
    → All (λ c. is_well_formed c ≡ true) (update_where p f cs)
All-update_where p f [] good h = tt
All-update_where p f (c ∷ cs) good h = elim (Bool-cases (p c)) [
  | inl e ↦ (rw e (good c h.0 e), All-update_where p f cs good h.1)
  | inr e ↦ (rw e h.0, All-update_where p f cs good h.1)
]

pub set_succeeded-good :
    (r : Text) (now : ℕ) (c : Command) → is_well_formed (set_succeeded r now c) ≡ true
unfolding set_succeeded
set_succeeded-good r now c = refl

pub set_terminal-good :
    (r : Text) (now : ℕ) (c : Command) → is_well_formed (set_terminal r now c) ≡ true
unfolding set_terminal
set_terminal-good r now c = refl

set_retryable-good :
    (code : Text) (d now : ℕ) (c : Command) → is_well_formed (set_retryable code d now c) ≡ true
unfolding set_retryable
set_retryable-good code d now c = refl

set_malformed-good :
    (code : Text) (d now : ℕ) (c : Command) → is_well_formed (set_malformed code d now c) ≡ true
unfolding set_malformed
set_malformed-good code d now c = elim (Bool-cases (leb 1 c.malformed_response_count)) [
  | inl e ↦ rw e refl
  | inr e ↦ rw e refl
]

either-good :
    (b : Bool) (x y : Command)
    → is_well_formed x ≡ true
    → is_well_formed y ≡ true
    → is_well_formed (if b then x else y) ≡ true
either-good true x y h k = h
either-good false x y h k = k

pub retry_update-good :
    (code : Text) (d now : ℕ) (c : Command) → is_well_formed (retry_update code d now c) ≡ true
unfolding retry_update
retry_update-good code d now c =
    either-good (text_eq code (text "MALFORMED_RESPONSE")) (set_malformed code d now c)
      (set_retryable code d now c) (set_malformed-good code d now c)
      (set_retryable-good code d now c)

due-open :
    (s : CommandState) (owner token completed : Bool) (available now : ℕ) (expires : Option ℕ)
    → fits_state s owner token (is_some expires) completed ≡ true
    → is_due_in s available expires now ≡ true
    → not completed ≡ true
due-open leased owner token completed available now expires h k = ground arith
due-open pending owner token completed available now expires h k = ground arith
due-open retryable owner token completed available now expires h k = ground arith
due-open succeeded owner token completed available now expires h k = cc
due-open terminal owner token completed available now expires h k = cc

set_leased-good :
    (o t : Text) (d now : ℕ) (c : Command)
    → is_well_formed c ≡ true
    → is_due now c ≡ true
    → is_well_formed (set_leased o t d now c) ≡ true
unfolding set_leased is_due
set_leased-good o t d now c h due =
    due-open c.state (is_some c.lease_owner) (is_some c.lease_token) (is_some c.completed_at)
      c.available_at now c.lease_expires_at h due

pub finish_lease-good :
    (id owner token : Text) (set : ℕ → Command → Command) (st : Outbox) (r : Command × Outbox)
    → ((c : Command) → is_well_formed (set st.now c) ≡ true)
    → IsWellFormed st
    → finish_lease id owner token set st ≡ ok r
    → IsWellFormed r.1
unfolding finish_lease
finish_lease-good id owner token set st r good wf h =
    bind_ok (leased_row lease_conflict (find_first (holds_lease id owner token st.now) st.commands))
      h
      λ c _ k.
        subst (λ (s : Command × Outbox). IsWellFormed s.1) (ok-injective k)
          (All-update_where (holds_lease id owner token st.now) (set st.now) st.commands
            (λ c _ _. good c) wf)

pub lease_command-good :
    (joined : Command → Option Aggregate) (allowed : CommandType → Bool) (id owner token : Text)
    (d : ℤ) (st : Outbox) (r : Option Command × Outbox)
    → IsWellFormed st
    → lease_command joined allowed id owner token d st ≡ ok r
    → IsWellFormed r.1
unfolding lease_command
lease_command-good joined allowed id owner token d st r wf h =
    subst (λ (s : Option Command × Outbox). IsWellFormed s.1) (ok-injective h)
      (All-update_where (λ c. is_candidate id joined allowed st.now c && is_due st.now c)
        (set_leased owner token (duration_of d) st.now) st.commands
        (λ c good e.
          set_leased-good owner token (duration_of d) st.now c good
            (both-true (is_candidate id joined allowed st.now c) (is_due st.now c) e).1)
        wf)
