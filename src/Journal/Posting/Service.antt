-- ===== src/Journal/Posting/Service.antt =====
-- PostJournal of apps/api/internal/platformfinance/journal_service.go and ReverseJournal of
-- journal_reversal.go, as functions from the store to an answer and the store after it.
use lapangan_go.Base.{
  ℕ, suc, Bool, ◌||◌, List, [], ◌∷◌, Option, none, some, is_some, Result, ok, err, ◌>>=◌, ◌>>◌,
  fail_if, map_err, Text,
}
use lapangan_go.Journal.Types.{
  PostedJournal, PostJournalEntry, PostJournalParams, ReverseJournalParams,
  JournalAccountDefinition, JournalError, transaction_required, invalid_request, integrity,
  persistence,
}
use lapangan_go.Journal.Validate.{
  validate_and_normalize_journal, validate_and_normalize_reversal_journal,
  validate_journal_account_dimensions,
}
use lapangan_go.Journal.Reversal.{invert_posted_journal_entries}
use lapangan_go.Journal.Reversal.Request.{
  normalize_reverse_journal_params, post_journal_params_from_posted_journal,
  journal_account_codes_from_posted_entries,
}
use lapangan_go.Journal.Posting.Hash.{
  JournalRuntime, hash_journal_payload_v1, hash_journal_payload_v1_with_reversal,
  journal_currency_idr, journal_payload_hash_version_v1,
}
use lapangan_go.Journal.Posting.Store.{
  PreparedJournal, PreparedJournalEntry, LoadedJournal, JournalStore, JournalTx, Database,
}
use lapangan_go.Journal.Posting.Repository.{
  get_account_definitions, try_insert_journal, insert_entries, get_journal_by_event_key,
  get_journal_by_id_for_reversal, get_reversal_by_source_id,
}
use lapangan_go.Journal.Posting.Replay.{
  replay_existing_journal, replay_existing_reversal, with_sorted_entries, reversal_event_key,
  journal_reversal_event_type,
}

-- Any error that is not of the journal's own list is a failure to persist.
unfoldable pub normalize_journal_service_error : JournalError → JournalError
normalize_journal_service_error transaction_required = persistence
normalize_journal_service_error e = e

abbrev pub normalized_error : {A : Type 0} → Result JournalError A → Result JournalError A
normalized_error r = map_err normalize_journal_service_error r

-- The entries, with the identities drawn from the n-th on.
unfoldable pub prepare_entries : (ℕ → Text) → ℕ → List PostJournalEntry → List PreparedJournalEntry
prepare_entries new_uuid n [] = []
prepare_entries new_uuid n (e ∷ es) =
    record {
      id = new_uuid n;
      account_code = e.account_code;
      owner_profile_id = e.owner_profile_id;
      side = e.side;
      amount_rupiah = e.amount_rupiah;
    }
    ∷ prepare_entries new_uuid (suc n) es

unfoldable pub prepare_journal :
    JournalTx → PostJournalParams → Text → Option Text → Option Text → PreparedJournal
unfolding prepare_entries
prepare_journal tx p hash reverses_journal_id reversal_reason = record {
  id = tx.new_uuid 0;
  event_key = p.event_key;
  event_type = p.event_type;
  payload_hash = hash;
  payload_hash_version = journal_payload_hash_version_v1;
  booking_id = p.booking_id;
  owner_profile_id = p.owner_profile_id;
  venue_id = p.venue_id;
  currency = journal_currency_idr;
  effective_at = p.effective_at;
  reverses_journal_id = reverses_journal_id;
  reversal_reason = reversal_reason;
  created_by_user_id = p.created_by_user_id;
  description = p.description;
  metadata = p.metadata;
  entries = prepare_entries tx.new_uuid 1 p.entries;
}

abbrev pub given_tx : Option JournalTx → Result JournalError JournalTx
given_tx none = err transaction_required
given_tx (some tx) = ok tx

abbrev pub reversal_params : ReverseJournalParams → PostedJournal → PostJournalParams
reversal_params r source = record {
  event_key = reversal_event_key source.id;
  event_type = journal_reversal_event_type;
  booking_id = source.booking_id;
  owner_profile_id = source.owner_profile_id;
  venue_id = source.venue_id;
  effective_at = r.effective_at;
  created_by_user_id = r.created_by_user_id;
  description = none;
  metadata = r.metadata;
  entries = invert_posted_journal_entries source.entries;
}

-- A journal of this transaction and a reversal cannot be reversed.
abbrev pub is_irreversible : LoadedJournal → Bool
is_irreversible source =
    source.created_in_current_tx
    || is_some source.journal.reverses_journal_id
    || is_some source.reverses_journal_id

module _ (runtime : JournalRuntime) (db : Database) where
  -- The entries of a journal that went in, and the answer.
  unfoldable pub insert_and_answer :
      JournalTx
      → PreparedJournal
      → PostedJournal
      → JournalStore
      → Result JournalError (PostedJournal × JournalStore)
  unfolding insert_entries
  insert_and_answer tx j posted s = do
    (entries, s') ← normalized_error (insert_entries db tx j.id j.entries s)
    ok (with_sorted_entries (record posted { entries = entries }), s')

  -- A journal whose key is taken is answered from the store.
  unfoldable pub answer_existing :
      JournalTx
      → PostJournalParams
      → Text
      → List JournalAccountDefinition
      → JournalStore
      → Result JournalError (PostedJournal × JournalStore)
  unfolding get_journal_by_event_key replay_existing_journal
  answer_existing tx p hash definitions s = do
    existing ← normalized_error (get_journal_by_event_key db tx p.event_key s)
    journal ← replay_existing_journal runtime existing p hash definitions
    ok (journal, s)

  unfoldable pub post_journal :
      Option JournalTx
      → PostJournalParams
      → JournalStore
      → Result JournalError (PostedJournal × JournalStore)
  unfolding get_account_definitions hash_journal_payload_v1 prepare_journal try_insert_journal
      insert_and_answer answer_existing
  post_journal given params s = do
    (normalized, codes) ← validate_and_normalize_journal runtime.parse_uuid params
    tx ← given_tx given
    definitions ← normalized_error (get_account_definitions db codes s)
    validate_journal_account_dimensions normalized definitions
    hash ← normalized_error (hash_journal_payload_v1 runtime normalized)
    (inserted, s') ←
        normalized_error (try_insert_journal db tx (prepare_journal tx normalized hash none none) s)
    elim inserted [
      | none ↦ answer_existing tx normalized hash definitions s'
      | some posted ↦ insert_and_answer tx (prepare_journal tx normalized hash none none) posted s'
    ]

  -- The source as it was posted. Its replay sorts the entries in place.
  unfoldable pub load_source :
      JournalTx
      → Text
      → JournalStore
      → Result JournalError (LoadedJournal × List JournalAccountDefinition)
  unfolding get_journal_by_id_for_reversal get_account_definitions replay_existing_journal
      journal_account_codes_from_posted_entries post_journal_params_from_posted_journal
  load_source tx id s = do
    source ← normalized_error (get_journal_by_id_for_reversal db tx id s)
    fail_if (is_irreversible source) invalid_request
    definitions ← normalized_error (
        get_account_definitions db
          (journal_account_codes_from_posted_entries source.journal.entries) s)
    replayed ← normalized_error (
        replay_existing_journal runtime source
          (post_journal_params_from_posted_journal source.journal) source.journal.payload_hash
          definitions)
    ok (record source { journal = replayed }, definitions)

  -- The row of the reversal, or the answer to one that came first.
  unfoldable pub insert_reversal :
      JournalTx
      → LoadedJournal
      → PostJournalParams
      → Text
      → Text
      → List JournalAccountDefinition
      → JournalStore
      → Result JournalError (PostedJournal × JournalStore)
  unfolding try_insert_journal prepare_journal insert_and_answer get_reversal_by_source_id
      replay_existing_reversal
  insert_reversal tx source p reason hash definitions s = do
    (inserted, s') ← normalized_error (
        try_insert_journal db tx (prepare_journal tx p hash (some source.journal.id) (some reason))
          s)
    elim inserted [
      | some posted ↦
          insert_and_answer tx (prepare_journal tx p hash (some source.journal.id) (some reason))
            posted s'
      | none ↦ do
        found ← normalized_error (get_reversal_by_source_id db tx source.journal.id s')
        elim found [
          | none ↦ err integrity
          | some existing ↦ do
            journal ← replay_existing_reversal runtime existing source p hash definitions
            ok (journal, s')
        ]
    ]

  unfoldable pub reverse_journal :
      Option JournalTx
      → ReverseJournalParams
      → JournalStore
      → Result JournalError (PostedJournal × JournalStore)
  unfolding normalize_reverse_journal_params load_source insert_reversal
      hash_journal_payload_v1_with_reversal get_reversal_by_source_id replay_existing_reversal
  reverse_journal given params s = do
    r ← normalize_reverse_journal_params runtime.parse_uuid params
    tx ← given_tx given
    (source, definitions) ← load_source tx r.journal_id s
    (normalized, _) ←
        validate_and_normalize_reversal_journal runtime.parse_uuid
          (reversal_params r source.journal)
    validate_journal_account_dimensions normalized definitions
    hash ← normalized_error (
        hash_journal_payload_v1_with_reversal runtime normalized (some source.journal.id)
          (some r.reason))
    found ← normalized_error (get_reversal_by_source_id db tx source.journal.id s)
    elim found [
      | some existing ↦ do
        journal ← replay_existing_reversal runtime existing source normalized hash definitions
        ok (journal, s)
      | none ↦ insert_reversal tx source normalized r.reason hash definitions s
    ]
