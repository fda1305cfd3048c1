-- ===== src/Journal/Posting/Repository.antt =====
-- The statements of apps/api/internal/platformfinance/journal_repository.go, inside one
-- transaction: an error ends it, and nothing of it is kept.
use lapangan_go.Base.{
  Bool, List, [], ◌∷◌, ◌++◌, Option, none, some, Result, ok, err, ◌>>=◌, ◌>>◌, Text, text_eq,
  find_first, select_where, any, ◌==◌,
}
use lapangan_go.Journal.Types.{
  PostedJournal, PostedJournalEntry, JournalAccountDefinition, JournalError, invalid_reference,
  integrity,
}
use lapangan_go.Journal.Posting.Store.{
  PreparedJournal, PreparedJournalEntry, LoadedJournal, JournalRow, JournalStore, JournalTx,
  Database, report, has_id, has_event_key, reverses, reversal_source_fault, effective_time_fault,
  index_fault, ledger_entry_fault,
}

-- The row that an insert leaves, and what the service answers before its entries.
abbrev pub posted_of : JournalTx → PreparedJournal → PostedJournal
posted_of tx j = record {
  id = j.id;
  event_key = j.event_key;
  event_type = j.event_type;
  payload_hash = j.payload_hash;
  payload_hash_version = j.payload_hash_version;
  booking_id = j.booking_id;
  owner_profile_id = j.owner_profile_id;
  venue_id = j.venue_id;
  currency = j.currency;
  effective_at = j.effective_at;
  posted_at = tx.posting_time;
  reverses_journal_id = j.reverses_journal_id;
  reversal_reason = j.reversal_reason;
  created_by_user_id = j.created_by_user_id;
  description = j.description;
  metadata = j.metadata;
  created_at = tx.posting_time;
  entries = [];
}

abbrev pub posted_entry : JournalTx → Text → PreparedJournalEntry → PostedJournalEntry
posted_entry tx journal_id e = record {
  id = e.id;
  journal_id = journal_id;
  account_code = e.account_code;
  owner_profile_id = e.owner_profile_id;
  side = e.side;
  amount_rupiah = e.amount_rupiah;
  created_at = tx.transaction_time;
}

module _ (db : Database) where
  unfoldable pub get_account_definitions :
      List Text → JournalStore → Result JournalError (List JournalAccountDefinition)
  get_account_definitions codes s = do
    report (db.account_fault s)
    ok (select_where (λ (d : JournalAccountDefinition). any (text_eq d.code) codes) s.accounts)

  abbrev pub with_row : JournalTx → PreparedJournal → JournalStore → JournalStore
  with_row tx j s = record s {
    journals = s.journals ++ record { journal = posted_of tx j; created_txid = tx.txid } ∷ [];
  }

  -- The row goes in where the unique indexes and the references allow it.
  unfoldable pub insert_row :
      JournalTx
      → PreparedJournal
      → JournalStore
      → Result JournalError (Option PostedJournal × JournalStore)
  insert_row tx j s = do
    report (index_fault j s)
    report (db.reference_fault s j)
    ok (some (posted_of tx j), with_row tx j s)

  -- ON CONFLICT (event_key) DO NOTHING: the answer is none when a journal has the event key.
  unfoldable pub try_insert_journal :
      JournalTx
      → PreparedJournal
      → JournalStore
      → Result JournalError (Option PostedJournal × JournalStore)
  unfolding insert_row
  try_insert_journal tx j s = do
    report (reversal_source_fault tx j.reverses_journal_id s)
    report (effective_time_fault tx j)
    report (db.row_fault s j)
    elim (find_first (has_event_key j.event_key) s.journals) [
      | some _ ↦ ok (none, s)
      | none ↦ insert_row tx j s
    ]

  -- One INSERT per entry.
  unfoldable pub insert_entries :
      JournalTx
      → Text
      → List PreparedJournalEntry
      → JournalStore
      → Result JournalError (List PostedJournalEntry × JournalStore)
  insert_entries tx journal_id [] s = ok ([], s)
  insert_entries tx journal_id (e ∷ es) s = do
    report (ledger_entry_fault tx (posted_entry tx journal_id e) s)
    report (db.entry_fault s (posted_entry tx journal_id e))
    (posted, s') ←
        insert_entries tx journal_id es
          (record s { ledger = s.ledger ++ posted_entry tx journal_id e ∷ [] })
    ok (posted_entry tx journal_id e ∷ posted, s')

  abbrev pub entries_of : Text → JournalStore → List PostedJournalEntry
  entries_of id s =
      db.order_entries (select_where (λ (e : PostedJournalEntry). text_eq e.journal_id id) s.ledger)

  -- The row as it is read, with its entries.
  unfoldable pub load_row :
      JournalTx → JournalStore → JournalRow → Result JournalError LoadedJournal
  load_row tx s row = elim (db.read_metadata row.journal.metadata) [
    | none ↦ err integrity
    | some metadata ↦ do
      report (db.ledger_fault s)
      ok (record {
        journal = record (row.journal) {
          metadata = metadata;
          entries = entries_of row.journal.id s;
        };
        reverses_journal_id = row.journal.reverses_journal_id;
        reversal_reason = row.journal.reversal_reason;
        created_in_current_tx = row.created_txid == tx.txid;
      })
  ]

  unfoldable pub load_journal_optional :
      JournalTx → (JournalRow → Bool) → JournalStore → Result JournalError (Option LoadedJournal)
  unfolding load_row
  load_journal_optional tx query s = do
    report (db.journal_fault s)
    elim (find_first query s.journals) [
      | none ↦ ok none
      | some row ↦ do loaded ← load_row tx s row; ok (some loaded)
    ]

  unfoldable pub load_journal :
      JournalTx → (JournalRow → Bool) → JournalStore → Result JournalError LoadedJournal
  unfolding load_journal_optional
  load_journal tx query s = do
    loaded ← load_journal_optional tx query s
    elim loaded [ none ↦ err integrity | some j ↦ ok j ]

  unfoldable pub get_journal_by_event_key :
      JournalTx → Text → JournalStore → Result JournalError LoadedJournal
  unfolding load_journal
  get_journal_by_event_key tx key s = load_journal tx (has_event_key key) s

  unfoldable pub get_journal_by_id_for_reversal :
      JournalTx → Text → JournalStore → Result JournalError LoadedJournal
  unfolding load_journal_optional
  get_journal_by_id_for_reversal tx id s = do
    loaded ← load_journal_optional tx (has_id id) s
    elim loaded [ none ↦ err invalid_reference | some j ↦ ok j ]

  unfoldable pub get_reversal_by_source_id :
      JournalTx → Text → JournalStore → Result JournalError (Option LoadedJournal)
  unfolding load_journal_optional
  get_reversal_by_source_id tx id s = load_journal_optional tx (reverses id) s
