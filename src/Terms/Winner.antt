-- ===== src/Terms/Winner.antt =====
-- What ResolveEffectiveTerm of apps/api/internal/platformfinance/commercial_term_resolver.go answers.
use lapangan_go.Base.{
  ℕ, ◌≤◌, ◌<◌, ◌≡◌, refl, sym, ap, subst, ◌∙◌, arith, Bool, true, false, not, ◌||◌, List, [], ◌∷◌,
  All, length, ltb, ◌==◌, Option, none, some, is_some, ok, bind_ok, fail_if, ok-injective,
  err-ne-ok, Text, text, text_eq, text_eq→eq, option_text_eq, select_where, Bool-cases, ◌⊎◌, inl,
  inr, ℤ, pos, ◌≤ℤ◌,
}
use lapangan_go.Terms.Resolver.{
  CommercialTerm, duplicate_term, invalid_timestamp, is_effective, is_open_at, effective_terms,
  owner_terms, global_terms, winner_of, check_term, canonical_owner, choose_term,
  resolve_effective_term, is_bad_rate,
}

select_where-holds :
    {A : Type 0} (p q : A → Bool) (rows : List A)
    → All (λ a. q a ≡ true) rows
    → All (λ a. (p a ≡ true) × (q a ≡ true)) (select_where p rows)
select_where-holds p q [] h = tt
select_where-holds p q (a ∷ rows) h = elim (Bool-cases (p a)) [
  | inl e ↦ rw e ((e, h.0), select_where-holds p q rows h.1)
  | inr e ↦ rw e (select_where-holds p q rows h.1)
]

select_where-all :
    {A : Type 0} (p : A → Bool) (rows : List A) → All (λ a. p a ≡ true) (select_where p rows)
select_where-all p [] = tt
select_where-all p (a ∷ rows) = elim (Bool-cases (p a)) [
  | inl e ↦ rw e (e, select_where-all p rows)
  | inr e ↦ rw e (select_where-all p rows)
]

-- The term is in force, from its start and before its end if it has one, its rate is one that the fee calculator takes, and it is the owner's own or,
-- where the owner has none in force, a global one.
pub record IsWinner (owner : Text) (at : ℕ) (terms : List CommercialTerm) (t : CommercialTerm)
    : Type 0 where
  pub in_force : is_effective owner at t ≡ true
  pub begun : t.valid_from ≤ at
  pub not_over :
      (t.valid_until ≡ none) ⊎ ((until : ℕ) × (t.valid_until ≡ some until) × (at < until))
  pub rate_low : pos 0 ≤ℤ t.commission_bps
  pub rate_high : t.commission_bps ≤ℤ pos 3000
  pub simulation : t.finance_mode ≡ text "SIMULATION"
  pub whose :
      (t.owner_profile_id ≡ some owner)
      ⊎ ((t.owner_profile_id ≡ none) × (owner_terms owner (effective_terms owner at terms) ≡ []))

effective_period :
    (owner : Text) (at : ℕ) (t : CommercialTerm)
    → is_effective owner at t ≡ true
    → (t.valid_from ≤ at) × (is_open_at at t.valid_until ≡ true)
effective_period owner at t h = (ground (arith, h), ground (arith, h))

open_until :
    (at : ℕ) (o : Option ℕ)
    → is_open_at at o ≡ true
    → (o ≡ none) ⊎ ((until : ℕ) × (o ≡ some until) × (at < until))
open_until at none h = inl refl
open_until at (some until) h = inr (until, refl, ground (arith, h))

own_name : (o : Option Text) (owner : Text) → option_text_eq o (some owner) ≡ true → o ≡ some owner
own_name none owner h = cc
own_name (some p) owner h = ap some (text_eq→eq p owner h)

no_name : (o : Option Text) → not (is_some o) ≡ true → o ≡ none
no_name none h = refl
no_name (some p) h = cc

-- The checks of the winner.
checked :
    (t : CommercialTerm)
    → check_term t ≡ ok tt
    → (text_eq t.finance_mode (text "SIMULATION") ≡ true) × (is_bad_rate t.commission_bps ≡ false)
unfolding check_term
checked t h = ground (arith, h)

rate_of : (bps : ℤ) → is_bad_rate bps ≡ false → (pos 0 ≤ℤ bps) × (bps ≤ℤ pos 3000)
rate_of bps h = ground (arith, h)

chosen :
    (P Q : CommercialTerm → Type 0) (own global : List CommercialTerm) (t : CommercialTerm)
    → All P own
    → All Q global
    → winner_of own global ≡ ok t
    → P t ⊎ (Q t × (own ≡ []))
chosen P Q (s ∷ own) global t hp hq h = inl (subst P (ok-injective h) hp.0)
chosen P Q [] (s ∷ global) t hp hq h = inr (subst Q (ok-injective h) hq.0, refl)
chosen P Q [] [] t hp hq h = absurd (err-ne-ok h)

abbrev IsOwn : Text → Text → ℕ → CommercialTerm → Type 0
IsOwn owner_profile_id owner at t =
    (option_text_eq t.owner_profile_id (some owner_profile_id) ≡ true)
    × (is_effective owner at t ≡ true)

abbrev IsGlobal : Text → ℕ → CommercialTerm → Type 0
IsGlobal owner at t = (not (is_some t.owner_profile_id) ≡ true) × (is_effective owner at t ≡ true)

-- The winner that the rows of a query give.
choose_term-chosen :
    (owner_profile_id owner : Text) (at : ℕ) (terms : List CommercialTerm) (t : CommercialTerm)
    → choose_term owner_profile_id (effective_terms owner at terms) ≡ ok t
    → (check_term t ≡ ok tt)
      × (IsOwn owner_profile_id owner at t
          ⊎ (IsGlobal owner at t
              × (owner_terms owner_profile_id (effective_terms owner at terms) ≡ [])))
unfolding choose_term effective_terms owner_terms global_terms
choose_term-chosen owner_profile_id owner at terms t h =
    let rows = effective_terms owner at terms in
    let effective = select_where-all (is_effective owner at) terms in
    bind_ok
      (fail_if
        (ltb 1 (length (owner_terms owner_profile_id rows)) || ltb 1 (length (global_terms rows)))
        duplicate_term)
      h
      λ _ h₀ k₀.
        bind_ok (winner_of (owner_terms owner_profile_id rows) (global_terms rows)) k₀ λ w h₁ k₁.
          bind_ok (check_term w) k₁ λ _ h₂ k₂.
            let won =
              chosen (IsOwn owner_profile_id owner at) (IsGlobal owner at)
                (owner_terms owner_profile_id rows) (global_terms rows) w
                (select_where-holds _ (is_effective owner at) rows effective)
                (select_where-holds _ (is_effective owner at) rows effective) h₁ in
            subst
              (λ (u : CommercialTerm).
                (check_term u ≡ ok tt)
                × (IsOwn owner_profile_id owner at u
                    ⊎ (IsGlobal owner at u
                        × (owner_terms owner_profile_id (effective_terms owner at terms) ≡ []))))
              (ok-injective k₂) (h₂, won)

resolved :
    (parse_uuid : Text → Option Text) (owner_profile_id owner : Text) (at : ℕ)
    (terms : List CommercialTerm) (t : CommercialTerm)
    → parse_uuid owner_profile_id ≡ some owner
    → resolve_effective_term parse_uuid owner_profile_id at terms ≡ ok t
    → choose_term owner_profile_id (effective_terms owner at terms) ≡ ok t
unfolding resolve_effective_term
resolved parse_uuid owner_profile_id owner at terms t parsed h =
    bind_ok (canonical_owner (parse_uuid owner_profile_id)) h λ c h₀ k₀.
      bind_ok (fail_if (at == 0) invalid_timestamp) k₀ λ _ h₁ k₁.
        subst (λ (o : Text). choose_term owner_profile_id (effective_terms o at terms) ≡ ok t)
          (sym (ok-injective (ap canonical_owner (sym parsed) ∙ h₀))) k₁

-- For an owner in canonical spelling the term that is answered is in force at the instant, which is
-- not before its start and before its end if it has one, its rate lies between 0 and 3000 basis points, it is a simulation, and it is the owner's own or, when none of
-- the owner's is in force, a global one.
pub resolve_effective_term-IsWinner :
    (parse_uuid : Text → Option Text) (owner_profile_id : Text) (at : ℕ)
    (terms : List CommercialTerm) (t : CommercialTerm)
    → parse_uuid owner_profile_id ≡ some owner_profile_id
    → resolve_effective_term parse_uuid owner_profile_id at terms ≡ ok t
    → IsWinner owner_profile_id at terms t
resolve_effective_term-IsWinner parse_uuid owner at terms t parsed h =
    let won =
      choose_term-chosen owner owner at terms t
        (resolved parse_uuid owner owner at terms t parsed h) in
    let checks = checked t won.0 in
    let rate = rate_of t.commission_bps checks.1 in
    let in_force : is_effective owner at t ≡ true = elim won.1 [
      | inl own ↦ own.1
      | inr (global, _) ↦ global.1
    ] in
    let period = effective_period owner at t in_force in
    record {
      in_force = in_force;
      begun = period.0;
      not_over = open_until at t.valid_until period.1;
      rate_low = rate.0;
      rate_high = rate.1;
      simulation = text_eq→eq _ _ checks.0;
      whose = elim won.1 [
        | inl own ↦ inl (own_name t.owner_profile_id owner own.0)
        | inr (global, nothing) ↦ inr (no_name t.owner_profile_id global.0, nothing)
      ];
    }

-- For an owner whose identity is spelled in another way than the canonical one, every term of the
-- owner is passed over, and only a global term is ever answered.
pub resolve_effective_term-other_spelling :
    (parse_uuid : Text → Option Text) (owner_profile_id owner : Text) (at : ℕ)
    (terms : List CommercialTerm) (t : CommercialTerm)
    → parse_uuid owner_profile_id ≡ some owner
    → text_eq owner_profile_id owner ≡ false
    → resolve_effective_term parse_uuid owner_profile_id at terms ≡ ok t
    → t.owner_profile_id ≡ none
resolve_effective_term-other_spelling parse_uuid owner_profile_id owner at terms t parsed other h =
    let won =
      choose_term-chosen owner_profile_id owner at terms t
        (resolved parse_uuid owner_profile_id owner at terms t parsed h) in
    elim won.1 [
      | inl own ↦ absurd (clash (own_name t.owner_profile_id owner_profile_id own.0) own.1)
      | inr (global, _) ↦ no_name t.owner_profile_id global.0
    ]
  where
    clash : t.owner_profile_id ≡ some owner_profile_id → is_effective owner at t ≡ true → ⊥
    clash named effective = ground (arith, named, effective, other)
