-- ===== src/Payments/Transition.antt =====
-- TransitionStateTx of apps/api/internal/payments/repository.go.
use lapangan_go.Base.{
  some-injective, ◌≡◌, ◌≢◌, refl, sym, ap, subst, ◌∙◌, inl, inr, Bool, true, false, not, Option,
  some, Text, text_eq, text_eq→eq, ok, bind_ok, ok-injective, fail_if, fail_if-eq-ok, find_first,
  find_first-update_where-other, update_where, Bool-cases, true-ne-false, not-eq-false,
}
use lapangan_go.Payments.Types.{
  AttemptState, created, pending, captured, failed, expired, cancelled, PaymentAttempt, Store,
  attempt_not_found, invalid_transition, state_conflict,
}
use lapangan_go.Payments.Capture.{
  found, has_attempt_id, set_state, state_eq, allowed_state_transition,
}
use lapangan_go.Payments.Operations.{transition_state_tx}
use lapangan_go.Payments.Runs.{found-eq-ok}

-- The states that no transition leaves.
abbrev pub is_final : AttemptState → Bool
is_final created = false
is_final pending = false
is_final _ = true

pub state_eq→eq : (s t : AttemptState) → state_eq s t ≡ true → s ≡ t
state_eq→eq created created h = refl
state_eq→eq pending pending h = refl
state_eq→eq captured captured h = refl
state_eq→eq failed failed h = refl
state_eq→eq expired expired h = refl
state_eq→eq cancelled cancelled h = refl
state_eq→eq created pending h = cc
state_eq→eq created captured h = cc
state_eq→eq created failed h = cc
state_eq→eq created expired h = cc
state_eq→eq created cancelled h = cc
state_eq→eq pending created h = cc
state_eq→eq pending captured h = cc
state_eq→eq pending failed h = cc
state_eq→eq pending expired h = cc
state_eq→eq pending cancelled h = cc
state_eq→eq captured created h = cc
state_eq→eq captured pending h = cc
state_eq→eq captured failed h = cc
state_eq→eq captured expired h = cc
state_eq→eq captured cancelled h = cc
state_eq→eq failed created h = cc
state_eq→eq failed pending h = cc
state_eq→eq failed captured h = cc
state_eq→eq failed expired h = cc
state_eq→eq failed cancelled h = cc
state_eq→eq expired created h = cc
state_eq→eq expired pending h = cc
state_eq→eq expired captured h = cc
state_eq→eq expired failed h = cc
state_eq→eq expired cancelled h = cc
state_eq→eq cancelled created h = cc
state_eq→eq cancelled pending h = cc
state_eq→eq cancelled captured h = cc
state_eq→eq cancelled failed h = cc
state_eq→eq cancelled expired h = cc

allowed-not_final : (s t : AttemptState) → allowed_state_transition s t ≡ true → is_final s ≡ false
unfolding allowed_state_transition
allowed-not_final created t h = refl
allowed-not_final pending t h = refl
allowed-not_final captured t h = cc
allowed-not_final failed t h = cc
allowed-not_final expired t h = cc
allowed-not_final cancelled t h = cc

allowed-not_captured : (s t : AttemptState) → allowed_state_transition s t ≡ true → t ≢ captured
unfolding allowed_state_transition
allowed-not_captured s t h q = not_allowed s (subst (λ x. allowed_state_transition s x ≡ true) q h)
  where
    not_allowed : (x : AttemptState) → allowed_state_transition x captured ≡ true → ⊥
    not_allowed created k = absurd (true-ne-false (sym k))
    not_allowed pending k = absurd (true-ne-false (sym k))
    not_allowed captured k = absurd (true-ne-false (sym k))
    not_allowed failed k = absurd (true-ne-false (sym k))
    not_allowed expired k = absurd (true-ne-false (sym k))
    not_allowed cancelled k = absurd (true-ne-false (sym k))

-- A transition that took place, from the row `old`.
pub record IsTransition (id : Text) (expected next : AttemptState) (st : Store)
    (r : PaymentAttempt × Store) : Type 0 where
  pub old : PaymentAttempt
  pub read : find_first (has_attempt_id id) st.attempts ≡ some old
  pub was_expected : old.state ≡ expected
  pub allowed : allowed_state_transition expected next ≡ true
  pub result : set_state next st.now old ≡ r.0
  pub attempts : update_where (has_attempt_id id) (set_state next st.now) st.attempts ≡ r.1.attempts
  pub same_facts : st.facts ≡ r.1.facts
  pub same_bookings : st.bookings ≡ r.1.bookings

module _ (parse_uuid : Text → Option Text) where
  pub transition_state_tx-run :
      (id : Text) (expected next : AttemptState) (st : Store) (r : PaymentAttempt × Store)
      → transition_state_tx parse_uuid id expected next (some st) ≡ ok r
      → (canonical : Text) × (parse_uuid id ≡ some canonical)
        × IsTransition canonical expected next st r
  unfolding transition_state_tx
  transition_state_tx-run id expected next st r h =
      bind_ok (found attempt_not_found (parse_uuid id)) h λ canonical h₀ k₀.
        bind_ok (fail_if (not (allowed_state_transition expected next)) invalid_transition) k₀
          λ _ h₁ k₁.
            bind_ok (found attempt_not_found (find_first (has_attempt_id canonical) st.attempts)) k₁
              λ old h₂ k₂.
                bind_ok (fail_if (not (state_eq old.state expected)) state_conflict) k₂ λ _ h₃ k₃. (
                  canonical,
                  found-eq-ok attempt_not_found (parse_uuid id) h₀,
                  subst (IsTransition canonical expected next st) (ok-injective k₃) (record {
                    old = old;
                    read = found-eq-ok attempt_not_found _ h₂;
                    was_expected =
                        state_eq→eq old.state expected (not-eq-false (fail_if-eq-ok _ _ h₃));
                    allowed = not-eq-false (fail_if-eq-ok _ _ h₁);
                    result = refl;
                    attempts = refl;
                    same_facts = refl;
                    same_bookings = refl;
                  }),
                )

  -- A transition that succeeds never reaches CAPTURED, and it leaves alone every attempt that is
  -- CAPTURED, FAILED, EXPIRED or CANCELLED, every capture fact and every booking.
  pub transition_state_tx-keeps_final :
      (id : Text) (expected next : AttemptState) (st : Store) (r : PaymentAttempt × Store)
      → transition_state_tx parse_uuid id expected next (some st) ≡ ok r
      → (r.0.state ≢ captured)
        × ((other : Text) (b : PaymentAttempt)
            → find_first (has_attempt_id other) st.attempts ≡ some b
            → is_final b.state ≡ true
            → find_first (has_attempt_id other) r.1.attempts ≡ some b)
        × (st.facts ≡ r.1.facts)
        × (st.bookings ≡ r.1.bookings)
  unfolding set_state
  transition_state_tx-keeps_final id expected next st r h =
      let (canonical, _, t) = transition_state_tx-run id expected next st r h in
      (
        (λ q. allowed-not_captured expected next t.allowed (ap (λ a. a.state) t.result ∙ q)),
        kept canonical t,
        t.same_facts,
        t.same_bookings,
      )
    where
      not_same :
          (canonical other : Text) (b : PaymentAttempt)
          → IsTransition canonical expected next st r
          → find_first (has_attempt_id other) st.attempts ≡ some b
          → is_final b.state ≡ true
          → canonical ≢ other
      not_same canonical other b t found_b final e =
          let same_row =
            some-injective
              (sym t.read ∙ ap (λ x. find_first (has_attempt_id x) st.attempts) e ∙ found_b) in
          true-ne-false (
            sym final
            ∙ ap (λ a. is_final a.state) (sym same_row)
            ∙ ap is_final t.was_expected
            ∙ allowed-not_final expected next t.allowed)

      apart :
          (canonical other : Text)
          → canonical ≢ other
          → (c : PaymentAttempt) → has_attempt_id canonical c ≡ true
          → has_attempt_id other c ≡ false
      apart canonical other ne c e = elim (Bool-cases (text_eq other c.id)) [
        | inl q ↦ absurd (ne (text_eq→eq canonical c.id e ∙ sym (text_eq→eq other c.id q)))
        | inr q ↦ q
      ]

      kept :
          (canonical : Text)
          → IsTransition canonical expected next st r
          → (other : Text) (b : PaymentAttempt)
          → find_first (has_attempt_id other) st.attempts ≡ some b
          → is_final b.state ≡ true
          → find_first (has_attempt_id other) r.1.attempts ≡ some b
      kept canonical t other b found_b final =
          subst (λ rows. find_first (has_attempt_id other) rows ≡ some b) t.attempts
            (find_first-update_where-other (has_attempt_id other) (has_attempt_id canonical)
                (set_state next st.now) st.attempts
                (apart canonical other (not_same canonical other b t found_b final)) (λ c. refl)
              ∙ found_b)
