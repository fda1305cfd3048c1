-- ===== src/Journal/Types.antt =====
-- The data of apps/api/internal/platformfinance/journal.go. A `*string` is an optional text, an
-- instant is the number of nanoseconds since the zero time, and a metadata map is its list of
-- entries.
use lapangan_go.Base.{ℕ, Option, List, ℤ, Text}

pub data JournalSide : Type 0 where
  debit credit : JournalSide
  other : Text → JournalSide

pub data JournalError : Type 0 where
  transaction_required invalid_request requires_two_entries invalid_amount : JournalError
  amount_overflow unbalanced unknown_account invalid_owner_dimension : JournalError
  invalid_metadata invalid_reference event_key_conflict integrity payload_hash : JournalError
  persistence canceled deadline_exceeded : JournalError

pub record PostJournalEntry : Type 0 where
  pub account_code : Text
  pub owner_profile_id : Option Text
  pub side : JournalSide
  pub amount_rupiah : ℤ

abbrev pub Metadata : Type 0
Metadata = List (Text × Text)

pub record PostJournalParams : Type 0 where
  pub event_key : Text
  pub event_type : Text
  pub booking_id : Option Text
  pub owner_profile_id : Option Text
  pub venue_id : Option Text
  pub effective_at : ℕ
  pub created_by_user_id : Option Text
  pub description : Option Text
  pub metadata : Metadata
  pub entries : List PostJournalEntry

pub record ReverseJournalParams : Type 0 where
  pub journal_id : Text
  pub reason : Text
  pub effective_at : ℕ
  pub created_by_user_id : Option Text
  pub metadata : Metadata

pub record PostedJournalEntry : Type 0 where
  pub id : Text
  pub journal_id : Text
  pub account_code : Text
  pub owner_profile_id : Option Text
  pub side : JournalSide
  pub amount_rupiah : ℤ
  pub created_at : ℕ

pub record PostedJournal : Type 0 where
  pub id : Text
  pub event_key : Text
  pub event_type : Text
  pub payload_hash : Text
  pub payload_hash_version : Text
  pub booking_id : Option Text
  pub owner_profile_id : Option Text
  pub venue_id : Option Text
  pub currency : Text
  pub effective_at : ℕ
  pub posted_at : ℕ
  pub reverses_journal_id : Option Text
  pub reversal_reason : Option Text
  pub created_by_user_id : Option Text
  pub description : Option Text
  pub metadata : Metadata
  pub created_at : ℕ
  pub entries : List PostedJournalEntry

pub record JournalAccountDefinition : Type 0 where
  pub code : Text
  pub owner_dimension : Text
