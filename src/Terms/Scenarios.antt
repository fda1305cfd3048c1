-- ===== src/Terms/Scenarios.antt =====
-- An owner with a term of its own, under two spellings of its identity.
use lapangan_go.Base.{
  ◌≡◌, refl, if◌then◌else◌, List, [], ◌∷◌, Option, none, some, ok, Text, text, text_eq, pos,
}
use lapangan_go.Base
use lapangan_go.Terms.Resolver.{CommercialTerm, resolve_effective_term}
use lapangan_go.Terms.Resolver
use lapangan_go.Terms.Winner.{
  IsWinner, resolve_effective_term-IsWinner, resolve_effective_term-other_spelling,
}

-- Reads the identity `a`, which may be written as a capital.
abbrev parse : Text → Option Text
parse s =
    if text_eq s (text "a")
    then some (text "a")
    else if text_eq s (text "A")
    then some (text "a")
    else none

abbrev global : CommercialTerm
global = record {
  id = text "g";
  owner_profile_id = none;
  label = text "standard";
  phase = text "STANDARD";
  finance_mode = text "SIMULATION";
  collection_method = text "NONE";
  commission_bps = pos 1000;
  valid_from = 10;
  valid_until = none;
}

abbrev own : CommercialTerm
own = record global {
  id = text "o";
  owner_profile_id = some (text "a");
  phase = text "TRIAL";
  commission_bps = pos 0;
  valid_until = some 90;
}

abbrev terms : List CommercialTerm
terms = global ∷ own ∷ []

resolved_own : resolve_effective_term parse (text "a") 50 terms ≡ ok own
unfolding Resolver.resolve_effective_term Resolver.effective_terms Resolver.choose_term
    Resolver.owner_terms Resolver.global_terms Resolver.check_term Base.text_eq
resolved_own = refl

resolved_global : resolve_effective_term parse (text "A") 50 terms ≡ ok global
unfolding Resolver.resolve_effective_term Resolver.effective_terms Resolver.choose_term
    Resolver.owner_terms Resolver.global_terms Resolver.check_term Base.text_eq
resolved_global = refl

parsed_own : parse (text "a") ≡ some (text "a")
unfolding Base.text_eq
parsed_own = refl

parsed_capital : parse (text "A") ≡ some (text "a")
unfolding Base.text_eq
parsed_capital = refl

capital : text_eq (text "A") (text "a") ≡ Base.false
unfolding Base.text_eq
capital = refl

resolve_effective_term-IsWinner_example : IsWinner (text "a") 50 terms own
resolve_effective_term-IsWinner_example =
    resolve_effective_term-IsWinner parse (text "a") 50 terms own parsed_own resolved_own

resolve_effective_term-other_spelling_example : global.owner_profile_id ≡ none
resolve_effective_term-other_spelling_example =
    resolve_effective_term-other_spelling parse (text "A") (text "a") 50 terms global parsed_capital
      capital resolved_global
