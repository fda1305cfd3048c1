-- ===== src/Journal/Validate.antt =====
-- validateAndNormalizeJournalInternal and validateJournalAccountDimensions of
-- apps/api/internal/platformfinance/journal_service.go. `parse_uuid` stands for uuid.Parse followed
-- by String: the canonical form of a UUID, if the text is one.
pub mod Totals
pub mod Normal
pub mod Complete
pub mod Stable
pub mod Unordered
use lapangan_go.Base.{
  ℕ, ◌+◌, ◌-◌, ◌*◌, ◌%◌, Bool, true, false, not, ◌&&◌, ◌||◌, List, [], ◌∷◌, if◌then◌else◌, leb, ltb,
  ◌==◌, length, Option, none, some, Result, ok, err, ◌>>=◌, ◌>>◌, fail_if, Text, text, text_eq,
  text_lt, byte_len, has_prefix, ℤ, pos, leb_ℤ, ltb_ℤ, eqb_ℤ, add64, sub64, max_int64,
  option_text_eq, truncate_us,
}
use lapangan_go.Journal.Types.{
  JournalSide, debit, credit, other, JournalError, invalid_request, requires_two_entries,
  invalid_amount, amount_overflow, unbalanced, unknown_account, invalid_owner_dimension,
  invalid_reference, PostJournalEntry, PostJournalParams, JournalAccountDefinition,
}
use lapangan_go.Journal.Patterns.{matches_event_key, matches_event_type, validate_journal_metadata}

unfoldable pub checked_journal_add : ℤ → ℤ → Result JournalError ℤ
checked_journal_add total amount =
    if leb_ℤ amount (pos 0)
    then err invalid_amount
    else if ltb_ℤ (sub64 max_int64 amount) total
    then err amount_overflow
    else ok (add64 total amount)

abbrev pub is_known_side : JournalSide → Bool
is_known_side debit = true
is_known_side credit = true
is_known_side (other _) = false

-- The two running totals after an entry: any side but a debit adds to the credits.
unfoldable pub add_to_side : JournalSide → ℤ → ℤ × ℤ → Result JournalError (ℤ × ℤ)
add_to_side debit amount (d, c) = do d' ← checked_journal_add d amount; ok (d', c)
add_to_side _ amount (d, c) = do c' ← checked_journal_add c amount; ok (d, c')

abbrev pub is_code_length : Text → Bool
is_code_length code = not (byte_len code == 0) && leb (byte_len code) 80

-- The set of account codes, sorted: a map's keys handed to sort.Strings.
unfoldable pub insert_code : Text → List Text → List Text
insert_code c [] = c ∷ []
insert_code c (d ∷ ds) =
    if text_eq c d then d ∷ ds else if text_lt c d then c ∷ d ∷ ds else d ∷ insert_code c ds

unfoldable pub account_codes : List PostJournalEntry → List Text
unfolding insert_code
account_codes [] = []
account_codes (e ∷ es) = insert_code e.account_code (account_codes es)

-- The tests in front of the normalisation.
unfoldable pub validate_header : Bool → PostJournalParams → Result JournalError (Unit {0})
validate_header allow_reversal p = do
  fail_if
      ((byte_len p.event_key == 0)
        || ltb 191 (byte_len p.event_key)
        || not (matches_event_key p.event_key)
        || (not allow_reversal && has_prefix p.event_key (text "journal.reversed:")))
      invalid_request
  fail_if (not (matches_event_type p.event_type)) invalid_request
  fail_if (p.effective_at == 0) invalid_request
  fail_if (ltb (length p.entries) 2) requires_two_entries
  validate_journal_metadata p.metadata

module _ (parse_uuid : Text → Option Text) where
  unfoldable pub canonical_optional_uuid : Option Text → Result JournalError (Option Text)
  canonical_optional_uuid none = ok none
  canonical_optional_uuid (some s) = elim (parse_uuid s) [
    | none ↦ err invalid_reference
    | some c ↦ ok (some c)
  ]

  -- The checks of one entry, and the entry with its owner's canonical name.
  unfoldable pub normalize_entry : PostJournalEntry → Result JournalError PostJournalEntry
  normalize_entry e = do
    fail_if (not (is_code_length e.account_code)) unknown_account
    fail_if (not (is_known_side e.side)) invalid_request
    fail_if (leb_ℤ e.amount_rupiah (pos 0)) invalid_amount
    owner ← canonical_optional_uuid e.owner_profile_id
    ok (record e { owner_profile_id = owner })

  -- The loop over the entries, with the two totals.
  unfoldable pub collect_entries :
      List PostJournalEntry → ℤ × ℤ → Result JournalError (List PostJournalEntry × ℤ × ℤ)
  collect_entries [] (d, c) = ok ([], d, c)
  collect_entries (e ∷ es) totals = do
    e' ← normalize_entry e
    totals' ← add_to_side e.side e.amount_rupiah totals
    (rest, d, c) ← collect_entries es totals'
    ok (e' ∷ rest, d, c)

  -- validateAndNormalizeJournalInternal: the normalised parameters and the codes of the accounts.
  unfoldable pub validate_and_normalize_journal_internal :
      Bool → PostJournalParams → Result JournalError (PostJournalParams × List Text)
  validate_and_normalize_journal_internal allow_reversal p = do
    validate_header allow_reversal p
    booking ← canonical_optional_uuid p.booking_id
    owner ← canonical_optional_uuid p.owner_profile_id
    venue ← canonical_optional_uuid p.venue_id
    creator ← canonical_optional_uuid p.created_by_user_id
    (entries, d, c) ← collect_entries p.entries (pos 0, pos 0)
    fail_if (not (eqb_ℤ d c)) unbalanced
    ok (
      record p {
        booking_id = booking;
        owner_profile_id = owner;
        venue_id = venue;
        effective_at = truncate_us p.effective_at;
        created_by_user_id = creator;
        entries = entries;
      },
      account_codes entries,
    )

  abbrev pub validate_and_normalize_journal :
      PostJournalParams → Result JournalError (PostJournalParams × List Text)
  validate_and_normalize_journal = validate_and_normalize_journal_internal false

  abbrev pub validate_and_normalize_reversal_journal :
      PostJournalParams → Result JournalError (PostJournalParams × List Text)
  validate_and_normalize_reversal_journal = validate_and_normalize_journal_internal true

-- definitions[code]
unfoldable pub find_definition :
    Text → List JournalAccountDefinition → Option JournalAccountDefinition
find_definition code [] = none
find_definition code (d ∷ ds) = if text_eq d.code code then some d else find_definition code ds

abbrev is_same_owner : Option Text → Option Text → Bool
is_same_owner (some a) (some b) = text_eq a b
is_same_owner _ _ = false

-- The rule of one account about the owner of an entry.
unfoldable pub check_dimension :
    Option Text → PostJournalEntry → JournalAccountDefinition → Result JournalError (Unit {0})
check_dimension owner e definition =
    if text_eq definition.owner_dimension (text "REQUIRED")
    then fail_if (not (is_same_owner e.owner_profile_id owner)) invalid_owner_dimension
    else if text_eq definition.owner_dimension (text "FORBIDDEN")
    then fail_if (not (option_text_eq e.owner_profile_id none)) invalid_owner_dimension
    else err invalid_owner_dimension

unfoldable pub validate_dimensions :
    Option Text
    → List PostJournalEntry
    → List JournalAccountDefinition
    → Result JournalError (Unit {0})
unfolding find_definition check_dimension
validate_dimensions owner [] definitions = ok tt
validate_dimensions owner (e ∷ es) definitions = do
  elim (find_definition e.account_code definitions) [
    | none ↦ err unknown_account
    | some definition ↦ check_dimension owner e definition
  ]
  validate_dimensions owner es definitions

abbrev pub validate_journal_account_dimensions :
    PostJournalParams → List JournalAccountDefinition → Result JournalError (Unit {0})
validate_journal_account_dimensions p = validate_dimensions p.owner_profile_id p.entries
