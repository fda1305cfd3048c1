-- ===== src/Journal/Posting/Store.antt =====
-- The tables that a journal is posted to, the transaction, and the rows as the service prepares and
-- loads them: apps/api/internal/platformfinance/journal.go, with the triggers and the constraints of
-- db/migrations/022_platform_double_entry_ledger.up.sql that the service relies on.
use lapangan_go.Base.{
  ℕ, Bool, false, not, List, [], Option, none, some, is_some, Result, ok, err, Text, text, text_eq,
  option_text_eq, find_first, ltb, ◌==◌, if◌then◌else◌, ℤ,
}
use lapangan_go.Journal.Types.{
  JournalSide, Metadata, PostedJournal, PostedJournalEntry, JournalAccountDefinition, JournalError,
  event_key_conflict, invalid_reference, invalid_request, amount_overflow, unbalanced, integrity,
  persistence, canceled, deadline_exceeded,
}
use lapangan_go.Journal.Validate.{find_definition}

pub record PreparedJournalEntry : Type 0 where
  pub id : Text
  pub account_code : Text
  pub owner_profile_id : Option Text
  pub side : JournalSide
  pub amount_rupiah : ℤ

pub record PreparedJournal : Type 0 where
  pub id : Text
  pub event_key : Text
  pub event_type : Text
  pub payload_hash : Text
  pub payload_hash_version : Text
  pub booking_id : Option Text
  pub owner_profile_id : Option Text
  pub venue_id : Option Text
  pub currency : Text
  pub effective_at : ℕ
  pub reverses_journal_id : Option Text
  pub reversal_reason : Option Text
  pub created_by_user_id : Option Text
  pub description : Option Text
  pub metadata : Metadata
  pub entries : List PreparedJournalEntry

pub record LoadedJournal : Type 0 where
  pub journal : PostedJournal
  pub reverses_journal_id : Option Text
  pub reversal_reason : Option Text
  pub created_in_current_tx : Bool

-- A row of platform_journals; its `journal` has no entries.
pub record JournalRow : Type 0 where
  pub journal : PostedJournal
  pub created_txid : ℕ

pub record JournalStore : Type 0 where
  pub accounts : List JournalAccountDefinition
  pub journals : List JournalRow
  pub ledger : List PostedJournalEntry

-- A transaction: its identity and its start, the clock at an insert, and the results of
-- uuid.NewString in the order of the calls.
pub record JournalTx : Type 0 where
  pub txid : ℕ
  pub transaction_time : ℕ
  pub posting_time : ℕ
  pub new_uuid : ℕ → Text

-- What the driver reports: a PostgreSQL error has a code and the name of a constraint.
pub data DatabaseError : Type 0 where
  context_canceled context_deadline no_rows other_failure : DatabaseError
  pg : Text → Text → DatabaseError

-- The rules that the model does not spell out: failures of a query, the constraints that refuse a
-- journal before its key is compared and after, those that refuse an entry, the order in which
-- the entries of a journal come, and the reading of stored metadata.
pub record Database : Type 0 where
  pub account_fault : JournalStore → Option DatabaseError
  pub journal_fault : JournalStore → Option DatabaseError
  pub ledger_fault : JournalStore → Option DatabaseError
  pub row_fault : JournalStore → PreparedJournal → Option DatabaseError
  pub reference_fault : JournalStore → PreparedJournal → Option DatabaseError
  pub entry_fault : JournalStore → PostedJournalEntry → Option DatabaseError
  pub order_entries : List PostedJournalEntry → List PostedJournalEntry
  pub read_metadata : Metadata → Option Metadata

unfoldable pub map_journal_repository_error : DatabaseError → JournalError
map_journal_repository_error context_canceled = canceled
map_journal_repository_error context_deadline = deadline_exceeded
map_journal_repository_error no_rows = integrity
map_journal_repository_error other_failure = persistence
map_journal_repository_error (pg code constraint) =
    if text_eq code (text "23505")
    then if text_eq constraint (text "platform_journals_event_key_key")
      then event_key_conflict
      else if text_eq constraint (text "platform_journals_reverses_journal_id_key")
      then event_key_conflict
      else persistence
    else if text_eq code (text "23503")
    then invalid_reference
    else if text_eq code (text "22003")
    then amount_overflow
    else if text_eq code (text "23514")
    then if text_eq constraint (text "platform_journal_balance_guard")
      then unbalanced
      else invalid_request
    else persistence

-- A failure of the database, as the repository reports it.
abbrev pub report : Option DatabaseError → Result JournalError (Unit {0})
report none = ok tt
report (some failure) = err (map_journal_repository_error failure)

abbrev pub has_id : Text → JournalRow → Bool
has_id id row = text_eq row.journal.id id

abbrev pub has_event_key : Text → JournalRow → Bool
has_event_key key row = text_eq row.journal.event_key key

abbrev pub reverses : Text → JournalRow → Bool
reverses source row = option_text_eq row.journal.reverses_journal_id (some source)

-- validate_platform_journal_reversal_source: what may be reversed.
unfoldable pub reversal_source_fault : JournalTx → Option Text → JournalStore → Option DatabaseError
reversal_source_fault tx none s = none
reversal_source_fault tx (some source) s = elim (find_first (has_id source) s.journals) [
  | none ↦ some (pg (text "23503") [])
  | some row ↦
      if is_some row.journal.reverses_journal_id
      then some (pg (text "23514") [])
      else if row.created_txid == tx.txid
      then some (pg (text "23514") [])
      else none
]

-- chk_platform_journal_effective_time
abbrev pub effective_time_fault : JournalTx → PreparedJournal → Option DatabaseError
effective_time_fault tx j =
    if ltb tx.posting_time j.effective_at
    then some (pg (text "23514") (text "chk_platform_journal_effective_time"))
    else none

-- The unique indexes on the identity and on the source of a reversal.
unfoldable pub index_fault : PreparedJournal → JournalStore → Option DatabaseError
index_fault j s =
    if is_some (find_first (has_id j.id) s.journals)
    then some (pg (text "23505") (text "platform_journals_pkey"))
    else elim j.reverses_journal_id [
      | none ↦ none
      | some source ↦
          if is_some (find_first (reverses source) s.journals)
          then some (pg (text "23505") (text "platform_journals_reverses_journal_id_key"))
          else none
    ]

abbrev is_owner : Option Text → Option Text → Bool
is_owner (some a) (some b) = text_eq a b
is_owner _ _ = false

-- validate_platform_ledger_entry_insert: the journal is of this transaction, and the account has
-- the owner that it wants.
unfoldable pub ledger_entry_fault :
    JournalTx → PostedJournalEntry → JournalStore → Option DatabaseError
ledger_entry_fault tx e s = elim (find_first (has_id e.journal_id) s.journals) [
  | none ↦ some (pg (text "23503") [])
  | some row ↦
      if not (row.created_txid == tx.txid)
      then some (pg (text "23514") [])
      else elim (find_definition e.account_code s.accounts) [
        | none ↦ some (pg (text "23503") [])
        | some definition ↦
            if text_eq definition.owner_dimension (text "REQUIRED")
            then if is_owner e.owner_profile_id row.journal.owner_profile_id
              then none
              else some (pg (text "23514") [])
            else if is_some e.owner_profile_id
            then some (pg (text "23514") [])
            else none
      ]
]
