-- ===== src/Journal/Posting/Replay.antt =====
-- The answer to a journal that was posted before: apps/api/internal/platformfinance/journal_replay.go,
-- with the answer to a reversal that was posted before, of journal_reversal.go.
use lapangan_go.Base.{
  Bool, false, not, ◌&&◌, ◌||◌, List, ◌++◌, all, Option, none, some, is_some, Result, ok, ◌>>=◌,
  ◌>>◌, fail_if, map_err, Text, text, text_eq, trim_space, byte_len, ltb, ◌==◌, option_text_eq,
  eqb_ℤ, ltb_ℤ, less_by, less_by_text, sort_by, text_lt,
}
use lapangan_go.Journal.Types.{
  PostedJournal, PostedJournalEntry, PostJournalParams, JournalAccountDefinition, JournalError,
  event_key_conflict, integrity,
}
use lapangan_go.Journal.Validate.{
  validate_and_normalize_journal, validate_and_normalize_reversal_journal,
  validate_journal_account_dimensions,
}
use lapangan_go.Journal.Reversal.{exact_reversal_entry_multiset_matches}
use lapangan_go.Journal.Reversal.Request.{post_journal_params_from_posted_journal}
use lapangan_go.Journal.Posting.Hash.{
  JournalRuntime, hash_journal_payload_v1, hash_journal_payload_v1_with_reversal,
  optional_canonical_value, side_text, journal_currency_idr, journal_payload_hash_version_v1,
}
use lapangan_go.Journal.Posting.Store.{LoadedJournal}

-- The order of the entries of an answer.
abbrev pub posted_entry_less : PostedJournalEntry → PostedJournalEntry → Bool
posted_entry_less =
    less_by_text (λ e. e.account_code)
      (less_by_text (λ e. optional_canonical_value e.owner_profile_id)
        (less_by_text (λ e. side_text e.side)
          (less_by eqb_ℤ ltb_ℤ (λ e. e.amount_rupiah) (λ e f. text_lt e.id f.id))))

unfoldable pub sort_posted_journal_entries : List PostedJournalEntry → List PostedJournalEntry
sort_posted_journal_entries = sort_by posted_entry_less

abbrev pub with_sorted_entries : PostedJournal → PostedJournal
with_sorted_entries j = record j { entries = sort_posted_journal_entries j.entries }

-- `if err != nil { return nil, ErrJournalIntegrity }`
abbrev pub or_integrity : {A : Type 0} → Result JournalError A → Result JournalError A
or_integrity = map_err (λ _. integrity)

-- A stored journal that is no reversal, and is written in this version and currency.
unfoldable pub is_plain : LoadedJournal → Bool
is_plain existing =
    text_eq existing.journal.payload_hash_version journal_payload_hash_version_v1
    && not (is_some existing.reverses_journal_id)
    && not (is_some existing.reversal_reason)
    && text_eq existing.journal.currency journal_currency_idr

-- `sameJournalValue`
abbrev pub same_journal_value : Option Text → Option Text → Bool
same_journal_value = option_text_eq

abbrev pub journal_reversal_event_type : Text
journal_reversal_event_type = text "JOURNAL_REVERSED"

abbrev pub reversal_event_key : Text → Text
reversal_event_key source_id = text "journal.reversed:" ++ source_id

-- A stored reversal of `source`, dated before it was posted.
unfoldable pub is_reversal_of : LoadedJournal → LoadedJournal → Bool
is_reversal_of existing source =
    text_eq existing.journal.payload_hash_version journal_payload_hash_version_v1
    && text_eq existing.journal.currency journal_currency_idr
    && not (existing.journal.posted_at == 0)
    && not (ltb existing.journal.posted_at existing.journal.effective_at)
    && same_journal_value existing.journal.reverses_journal_id (some source.journal.id)
    && text_eq existing.journal.event_key (reversal_event_key source.journal.id)
    && text_eq existing.journal.event_type journal_reversal_event_type
    && not (is_some existing.journal.description)
    && same_journal_value existing.journal.booking_id source.journal.booking_id
    && same_journal_value existing.journal.owner_profile_id source.journal.owner_profile_id
    && same_journal_value existing.journal.venue_id source.journal.venue_id

abbrev pub is_stored_reason : Option Text → Bool
is_stored_reason none = false
is_stored_reason (some reason) =
    text_eq (trim_space reason) reason && not (ltb 500 (byte_len reason))

module _ (runtime : JournalRuntime) where
  -- The identities of a stored journal are UUIDs, and its entries are its own.
  unfoldable pub has_own_entries : PostedJournal → Bool
  has_own_entries j =
      is_some (runtime.parse_uuid j.id)
      && all
          (λ (e : PostedJournalEntry).
            text_eq e.journal_id j.id && is_some (runtime.parse_uuid e.id))
          j.entries

  unfoldable pub replay_existing_journal :
      LoadedJournal
      → PostJournalParams
      → Text
      → List JournalAccountDefinition
      → Result JournalError PostedJournal
  unfolding is_plain has_own_entries post_journal_params_from_posted_journal hash_journal_payload_v1
  replay_existing_journal existing requested requested_hash definitions = do
    fail_if (not (text_eq existing.journal.payload_hash requested_hash)) event_key_conflict
    fail_if (not (is_plain existing)) integrity
    fail_if (not (has_own_entries existing.journal)) integrity
    normalized ← or_integrity (
        validate_and_normalize_journal runtime.parse_uuid
          (post_journal_params_from_posted_journal existing.journal))
    fail_if
        (not (text_eq normalized.0.event_key requested.event_key)
          || not (text_eq normalized.0.event_type requested.event_type))
        integrity
    or_integrity (validate_journal_account_dimensions normalized.0 definitions)
    stored_hash ← or_integrity (hash_journal_payload_v1 runtime normalized.0)
    fail_if (not (text_eq stored_hash existing.journal.payload_hash)) integrity
    ok (with_sorted_entries existing.journal)

  unfoldable pub replay_existing_reversal :
      LoadedJournal
      → LoadedJournal
      → PostJournalParams
      → Text
      → List JournalAccountDefinition
      → Result JournalError PostedJournal
  unfolding is_reversal_of post_journal_params_from_posted_journal
      hash_journal_payload_v1_with_reversal exact_reversal_entry_multiset_matches
  replay_existing_reversal existing source requested requested_hash definitions = do
    fail_if (not (text_eq existing.journal.payload_hash requested_hash)) event_key_conflict
    fail_if (not (is_reversal_of existing source)) integrity
    fail_if (not (is_stored_reason existing.journal.reversal_reason)) integrity
    normalized ← or_integrity (
        validate_and_normalize_reversal_journal runtime.parse_uuid
          (post_journal_params_from_posted_journal existing.journal))
    or_integrity (validate_journal_account_dimensions normalized.0 definitions)
    stored_hash ← or_integrity (
        hash_journal_payload_v1_with_reversal runtime normalized.0 (some source.journal.id)
          existing.journal.reversal_reason)
    fail_if (not (text_eq stored_hash existing.journal.payload_hash)) integrity
    fail_if
        (not
          (exact_reversal_entry_multiset_matches source.journal.entries existing.journal.entries))
        integrity
    fail_if
        (not (text_eq normalized.0.event_key requested.event_key)
          || not (text_eq normalized.0.event_type requested.event_type))
        integrity
    ok (with_sorted_entries existing.journal)
