-- ===== src/Terms/Resolver.antt =====
-- ResolveEffectiveTerm of apps/api/internal/platformfinance/commercial_term_resolver.go.
use lapangan_go.Base.{
  ℕ, Bool, true, false, not, ◌&&◌, ◌||◌, List, [], ◌∷◌, length, ltb, leb, ◌==◌, Option, none, some,
  is_some, Result, ok, err, ◌>>=◌, ◌>>◌, fail_if, Text, text, text_eq, option_text_eq, select_where,
  ℤ, pos, ltb_ℤ,
}

pub record CommercialTerm : Type 0 where
  pub id : Text
  pub owner_profile_id : Option Text
  pub label : Text
  pub phase : Text
  pub finance_mode : Text
  pub collection_method : Text
  pub commission_bps : ℤ
  pub valid_from : ℕ
  pub valid_until : Option ℕ

pub data TermError : Type 0 where
  invalid_owner invalid_timestamp missing_term duplicate_term unsupported_mode invalid_term :
      TermError

-- `valid_until IS NULL OR valid_until > $2`
abbrev pub is_open_at : ℕ → Option ℕ → Bool
is_open_at at none = true
is_open_at at (some until) = ltb at until

-- The WHERE clause: the database compares the owner as a UUID, `owner` in its canonical form.
abbrev pub is_effective : Text → ℕ → CommercialTerm → Bool
is_effective owner at t =
    (option_text_eq t.owner_profile_id (some owner) || not (is_some t.owner_profile_id))
    && leb t.valid_from at
    && is_open_at at t.valid_until

-- The rows of the query. Their order does not matter: more than one of a kind is refused.
unfoldable pub effective_terms : Text → ℕ → List CommercialTerm → List CommercialTerm
effective_terms owner at = select_where (is_effective owner at)

-- The code compares the owner of a row, which is in canonical form, with the text that it was given.
unfoldable pub owner_terms : Text → List CommercialTerm → List CommercialTerm
owner_terms owner_profile_id =
    select_where (λ (t : CommercialTerm). option_text_eq t.owner_profile_id (some owner_profile_id))

unfoldable pub global_terms : List CommercialTerm → List CommercialTerm
global_terms = select_where (λ (t : CommercialTerm). not (is_some t.owner_profile_id))

abbrev pub winner_of : List CommercialTerm → List CommercialTerm → Result TermError CommercialTerm
winner_of (t ∷ _) _ = ok t
winner_of [] (t ∷ _) = ok t
winner_of [] [] = err missing_term

abbrev pub is_known_phase : Text → Bool
is_known_phase phase =
    text_eq phase (text "TRIAL")
    || text_eq phase (text "INTRODUCTORY")
    || text_eq phase (text "STANDARD")
    || text_eq phase (text "CUSTOM")

-- `!ValidUntil.After(ValidFrom)`
abbrev pub ends_early : ℕ → Option ℕ → Bool
ends_early from none = false
ends_early from (some until) = leb until from

abbrev pub is_bad_rate : ℤ → Bool
is_bad_rate bps = ltb_ℤ bps (pos 0) || ltb_ℤ (pos 3000) bps

unfoldable pub check_term : CommercialTerm → Result TermError (Unit {0})
check_term t = do
  fail_if (not (text_eq t.finance_mode (text "SIMULATION"))) unsupported_mode
  fail_if (not (text_eq t.collection_method (text "NONE"))) invalid_term
  fail_if (not (is_known_phase t.phase)) invalid_term
  fail_if (is_bad_rate t.commission_bps) invalid_term
  fail_if (ends_early t.valid_from t.valid_until) invalid_term

abbrev pub canonical_owner : Option Text → Result TermError Text
canonical_owner none = err invalid_owner
canonical_owner (some owner) = ok owner

-- The term among the rows of the query.
unfoldable pub choose_term : Text → List CommercialTerm → Result TermError CommercialTerm
unfolding owner_terms global_terms check_term
choose_term owner_profile_id rows = do
  fail_if (ltb 1 (length (owner_terms owner_profile_id rows)) || ltb 1 (length (global_terms rows)))
      duplicate_term
  winner ← winner_of (owner_terms owner_profile_id rows) (global_terms rows)
  check_term winner
  ok winner

unfoldable pub resolve_effective_term :
    (Text → Option Text) → Text → ℕ → List CommercialTerm → Result TermError CommercialTerm
unfolding effective_terms choose_term
resolve_effective_term parse_uuid owner_profile_id booking_at terms = do
  owner ← canonical_owner (parse_uuid owner_profile_id)
  fail_if (booking_at == 0) invalid_timestamp
  choose_term owner_profile_id (effective_terms owner booking_at terms)
