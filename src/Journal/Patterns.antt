-- ===== src/Journal/Patterns.antt =====
-- The patterns that journal_service.go tests by regular expressions, and its metadata rules.
use lapangan_go.Base.{
  ℕ, ◌+◌, map, Bool, false, not, ◌&&◌, ◌||◌, List, [], ◌∷◌, if◌then◌else◌, leb, ltb, ◌==◌, all, any,
  length, Result, ok, ◌>>◌, fail_if, Text, text, text_eq, has_prefix, split_on, trim_space,
  byte_len,
}
use lapangan_go.Journal.Types.{JournalError, invalid_metadata, Metadata}

abbrev pub is_lower_alnum : ℕ → Bool
is_lower_alnum c = (leb b'a' c && leb c b'z') || (leb b'0' c && leb c b'9')

abbrev is_segment_char : ℕ → Bool
is_segment_char c = is_lower_alnum c || (c == b'_') || (c == b'-')

-- [a-z0-9][a-z0-9_-]*
abbrev is_segment : Text → Bool
is_segment [] = false
is_segment (c ∷ s) = is_lower_alnum c && all is_segment_char s

-- [a-z0-9][a-z0-9._-]*
abbrev is_dotted_segment : Text → Bool
is_dotted_segment [] = false
is_dotted_segment (c ∷ s) = is_lower_alnum c && all (λ d. is_segment_char d || (d == b'.')) s

abbrev is_two_segments : List Text → Bool
is_two_segments (a ∷ b ∷ []) = is_segment a && is_segment b
is_two_segments _ = false

abbrev is_event_key_parts : List Text → Bool
is_event_key_parts (name ∷ a ∷ []) = is_two_segments (split_on b'.' name) && is_dotted_segment a
is_event_key_parts (name ∷ a ∷ b ∷ []) =
    is_two_segments (split_on b'.' name) && is_dotted_segment a && is_dotted_segment b
is_event_key_parts _ = false

-- journalEventKeyPattern: no part can hold a colon, and the two names in front no dot.
unfoldable pub matches_event_key : Text → Bool
unfolding split_on
matches_event_key s = is_event_key_parts (split_on b':' s)

-- journalEventTypePattern: ^[A-Z][A-Z0-9_]{0,79}$
unfoldable pub matches_event_type : Text → Bool
matches_event_type [] = false
matches_event_type (c ∷ s) =
    leb b'A' c
    && leb c b'Z'
    && all (λ d. (leb b'A' d && leb d b'Z') || (leb b'0' d && leb d b'9') || (d == b'_')) s
    && leb (length s) 79

-- `(?i)` folds the ASCII letters, and the two letters outside ASCII that fold to s and k.
abbrev fold_case : ℕ → ℕ
fold_case c =
    if leb b'A' c && leb c b'Z'
    then c + 32
    else if c == 383
    then b's'
    else if c == 8490
    then b'k'
    else c

unfoldable pub contains : Text → Text → Bool
unfolding has_prefix
contains word [] = has_prefix [] word
contains word (c ∷ s) = has_prefix (c ∷ s) word || contains word s

abbrev sensitive_words : List Text
sensitive_words =
    text "secret"
    ∷ text "token"
    ∷ text "password"
    ∷ text "authorization"
    ∷ text "credential"
    ∷ text "payload"
    ∷ text "pii"
    ∷ text "bearer"
    ∷ []

-- journalSensitiveMetadataPattern
unfoldable pub is_sensitive : Text → Bool
unfolding contains
is_sensitive s = any (λ word. contains word (map fold_case s)) sensitive_words

-- journalMetadataAllowlist
abbrev metadata_allowlist : List Text
metadata_allowlist =
    text "source_type"
    ∷ text "source_reference"
    ∷ text "reason_code"
    ∷ text "calculation_version"
    ∷ []

-- Is a metadata value refused.
unfoldable pub is_bad_value : Text → Bool
unfolding is_sensitive text_eq trim_space
is_bad_value value =
    text_eq value []
    || not (text_eq (trim_space value) value)
    || ltb 191 (byte_len value)
    || is_sensitive value

unfoldable pub validate_journal_metadata : Metadata → Result JournalError (Unit {0})
validate_journal_metadata [] = ok tt
validate_journal_metadata ((key, value) ∷ rest) = do
  fail_if (not (any (text_eq key) metadata_allowlist)) invalid_metadata
  fail_if (is_bad_value value) invalid_metadata
  validate_journal_metadata rest
