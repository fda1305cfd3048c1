-- ===== src/Payments/Identity.antt =====
-- The rule for a provider's identifiers: apps/api/internal/provideridentity/policy.go. A text is
-- its code points, so it is valid UTF-8. The tables of Go's package unicode are parameters.
use lapangan_go.Base.{
  ℕ, Bool, true, false, not, ◌&&◌, ◌||◌, List, [], ◌∷◌, map, Option, none, some, leb, ◌==◌,
  if◌then◌else◌, all, any, Text, text, text_eq, trim_space, byte_len, has_prefix, is_space,
}

pub record Unicode : Type 0 where
  pub is_print : ℕ → Bool
  pub is_letter : ℕ → Bool
  pub to_lower : ℕ → ℕ

abbrev between : ℕ → ℕ → ℕ → Bool
between low high c = leb low c && leb c high

abbrev pub is_lower_hex : ℕ → Bool
is_lower_hex c = between 48 57 c || between 97 102 c

-- One test for each character of the pattern.
abbrev uuid_pattern : List (ℕ → Bool)
uuid_pattern =
    is_lower_hex
    ∷ is_lower_hex
    ∷ is_lower_hex
    ∷ is_lower_hex
    ∷ is_lower_hex
    ∷ is_lower_hex
    ∷ is_lower_hex
    ∷ is_lower_hex
    ∷ (λ c. c == 45)
    ∷ is_lower_hex
    ∷ is_lower_hex
    ∷ is_lower_hex
    ∷ is_lower_hex
    ∷ (λ c. c == 45)
    ∷ between 49 53
    ∷ is_lower_hex
    ∷ is_lower_hex
    ∷ is_lower_hex
    ∷ (λ c. c == 45)
    ∷ (λ c. between 56 57 c || between 97 98 c)
    ∷ is_lower_hex
    ∷ is_lower_hex
    ∷ is_lower_hex
    ∷ (λ c. c == 45)
    ∷ is_lower_hex
    ∷ is_lower_hex
    ∷ is_lower_hex
    ∷ is_lower_hex
    ∷ is_lower_hex
    ∷ is_lower_hex
    ∷ is_lower_hex
    ∷ is_lower_hex
    ∷ is_lower_hex
    ∷ is_lower_hex
    ∷ is_lower_hex
    ∷ is_lower_hex
    ∷ []

abbrev match_each : List (ℕ → Bool) → Text → Bool
match_each [] [] = true
match_each (p ∷ ps) (c ∷ cs) = p c && match_each ps cs
match_each _ _ = false

unfoldable pub is_canonical_uuid : Text → Bool
is_canonical_uuid = match_each uuid_pattern

abbrev pub forbidden_prefixes : List Text
forbidden_prefixes =
    text "acct"
    ∷ text "account"
    ∷ text "api"
    ∷ text "authorization"
    ∷ text "bank"
    ∷ text "bearer"
    ∷ text "card"
    ∷ text "cvc"
    ∷ text "cvv"
    ∷ text "iban"
    ∷ text "key"
    ∷ text "pan"
    ∷ text "password"
    ∷ text "payload"
    ∷ text "pk"
    ∷ text "raw"
    ∷ text "secret"
    ∷ text "sk"
    ∷ text "token"
    ∷ text "xnd"
    ∷ text "provider"
    ∷ text "ref"
    ∷ []

abbrev contains : Text → Text → Bool
contains [] sub = has_prefix [] sub
contains (c ∷ cs) sub = has_prefix (c ∷ cs) sub || contains cs sub

abbrev is_separator : ℕ → Bool
is_separator c = c == 45 || c == 95 || c == 58

-- What stands before the first separator and after it.
unfoldable pub split_prefix : Text → Option (Text × Text)
split_prefix [] = none
split_prefix (c ∷ cs) = if is_separator c then some ([], cs) else after c (split_prefix cs)
  where
    after : ℕ → Option (Text × Text) → Option (Text × Text)
    after c none = none
    after c (some (prefix, suffix)) = some (c ∷ prefix, suffix)

unfoldable pub has_known_shape : Unicode → Text → Text → Bool
has_known_shape u prefix suffix =
    leb 2 (byte_len prefix)
    && all (between 97 122) (map u.to_lower prefix)
    && not (any (text_eq (map u.to_lower prefix)) forbidden_prefixes)
    && (is_canonical_uuid (map u.to_lower suffix) || any u.is_letter suffix)

abbrev shape_of : Unicode → Option (Text × Text) → Bool
shape_of u none = false
shape_of u (some (prefix, suffix)) = has_known_shape u prefix suffix

unfoldable pub valid_non_empty : Unicode → Text → Bool
valid_non_empty u value =
    leb (byte_len value) 191
    && text_eq value (trim_space value)
    && not (contains value (text "://"))
    && all (λ c. u.is_print c && not (is_space c)) value
    && (is_canonical_uuid value || shape_of u (split_prefix value))

unfoldable pub valid : Unicode → Text → Bool → Bool
valid u [] required = not required
valid u (c ∷ cs) required = valid_non_empty u (c ∷ cs)
