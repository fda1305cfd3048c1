-- ===== src/Journal/Posting/Scenarios.antt =====
-- Runs of PostJournal and ReverseJournal on a small store.
use lapangan_go.Base.{
  ℕ, zero, suc, ◌≡◌, refl, sym, arith, Bool, true, false, List, [], ◌∷◌, ◌++◌, Option, none, some,
  ok, err, Text, text, map, none-ne-some, Bool-cases, inl, inr, true-ne-false, ap, ◌∙◌,
  Permuted-same, perm_swap, perm_nil,
}
use lapangan_go.Base
use lapangan_go.Journal.Types.{
  PostedJournal, PostJournalParams, ReverseJournalParams, debit, credit, JournalAccountDefinition,
}
use lapangan_go.Journal.Patterns
use lapangan_go.Journal.Validate
use lapangan_go.Journal.Reversal
use lapangan_go.Journal.Reversal.Request
use lapangan_go.Payments.Identity
use lapangan_go.Journal.Scenarios.{parse, cash, fee, posting, posted, parse-IsCanonicaliser}
use lapangan_go.Journal.Posting.Hash.{JournalRuntime}
use lapangan_go.Journal.Posting.Hash.{
  hash_journal_payload_v1_with_reversal, hash_journal_payload_v1_with_reversal-unordered,
}
use lapangan_go.Journal.Posting.Hash
use lapangan_go.Journal.Validate.Totals.{HasInt64Amounts}
use lapangan_go.Journal.Posting.Ledger.{IsLedger}
use lapangan_go.Journal.Posting.Books.{
  IsOrdering, start, more, step_post, step_reverse, JournalTrace-IsLedger,
}
use lapangan_go.Journal.Posting.Again.{IsQuiet, IsNaming, HasUuids}
use lapangan_go.Journal.Posting.Idempotent.{IsReliable, IsAnsweredAgain, post_journal-again}
use lapangan_go.Journal.Posting.Answers.{
  IsPosted, IsReversed, post_journal-IsPosted, reverse_journal-IsReversed,
}
use lapangan_go.Journal.Posting.Store.{JournalStore, JournalTx, Database, PreparedJournal}
use lapangan_go.Journal.Posting.Store
use lapangan_go.Journal.Posting.Repository
use lapangan_go.Journal.Posting.Repository.{posted_of, posted_entry}
use lapangan_go.Journal.Posting.Replay.{with_sorted_entries}
use lapangan_go.Journal.Posting.Appended.{with_journal}
use lapangan_go.Journal.Posting.Replay
use lapangan_go.Journal.Posting.Service.{post_journal, reverse_journal}
use lapangan_go.Journal.Posting.Service

-- A hash that keeps the event key.
abbrev runtime : JournalRuntime
runtime = record {
  parse_uuid = parse;
  format_instant = λ _. [];
  digest = λ payload. some payload.event_key;
}

-- A database that refuses nothing and gives the entries as they were inserted.
abbrev quiet : Database
quiet = record {
  account_fault = λ _. none;
  journal_fault = λ _. none;
  ledger_fault = λ _. none;
  row_fault = λ _ _. none;
  reference_fault = λ _ _. none;
  entry_fault = λ _ _. none;
  order_entries = λ es. es;
  read_metadata = λ m. some m;
}

abbrev ids : ℕ → Text
ids zero = text "11111111-1111-4111-8111-111111111111"
ids (suc zero) = text "22222222-2222-4222-8222-222222222222"
ids (suc (suc n)) = text "33333333-3333-4333-8333-333333333333"

abbrev other_ids : ℕ → Text
other_ids zero = text "44444444-4444-4444-8444-444444444444"
other_ids (suc zero) = text "55555555-5555-4555-8555-555555555555"
other_ids (suc (suc n)) = text "66666666-6666-4666-8666-666666666666"

abbrev first_tx : JournalTx
first_tx = record { txid = 7; transaction_time = 2000000; posting_time = 2000001; new_uuid = ids }

abbrev later_tx : JournalTx
later_tx = record {
  txid = 8;
  transaction_time = 3000000;
  posting_time = 3000001;
  new_uuid = other_ids;
}

abbrev account : Text → JournalAccountDefinition
account code = record { code = code; owner_dimension = text "FORBIDDEN" }

abbrev chart : JournalStore
chart = record {
  accounts = account (text "1000") ∷ account (text "4000") ∷ [];
  journals = [];
  ledger = [];
}

abbrev prepared : PreparedJournal
unfolding Service.prepare_journal
prepared = Service.prepare_journal first_tx posted.0 (text "commission.earned:1") none none

abbrev answer : PostedJournal × JournalStore
answer = (
  with_sorted_entries (record (posted_of first_tx prepared) {
    entries = map (posted_entry first_tx prepared.id) prepared.entries;
  }),
  with_journal quiet first_tx prepared chart,
)

post : post_journal runtime quiet (some first_tx) posting chart ≡ ok answer
unfolding Service.post_journal Service.prepare_journal Service.prepare_entries
    Service.insert_and_answer Service.answer_existing Replay.replay_existing_journal Replay.is_plain
    Replay.has_own_entries Replay.sort_posted_journal_entries Repository.get_account_definitions
    Repository.try_insert_journal Repository.insert_row Repository.insert_entries
    Repository.get_journal_by_event_key Repository.load_journal Repository.load_journal_optional
    Repository.load_row Store.reversal_source_fault Store.index_fault Store.ledger_entry_fault
    Hash.hash_journal_payload_v1 Hash.hash_journal_payload_v1_with_reversal Hash.canonical_payload
    Hash.format_int Hash.digits Request.post_journal_params_from_posted_journal
    Validate.validate_and_normalize_journal_internal Validate.validate_header
    Patterns.matches_event_key Base.has_prefix Patterns.matches_event_type
    Patterns.validate_journal_metadata Validate.canonical_optional_uuid Validate.collect_entries
    Validate.normalize_entry Validate.add_to_side Validate.checked_journal_add Base.sub64
    Base.wrap64 Base.◌-ℤ◌ Base.add64 Base.◌+ℤ◌ Validate.account_codes Base.text_eq Base.text_lt
    Validate.insert_code Validate.find_definition Validate.check_dimension
    Validate.validate_dimensions Base.sort_by Base.insert_by Identity.is_canonical_uuid
post = refl

-- The same request again, in a later transaction.
again : post_journal runtime quiet (some later_tx) posting answer.1 ≡ ok answer
unfolding Service.post_journal Service.prepare_journal Service.prepare_entries
    Service.insert_and_answer Service.answer_existing Replay.replay_existing_journal Replay.is_plain
    Replay.has_own_entries Replay.sort_posted_journal_entries Repository.get_account_definitions
    Repository.try_insert_journal Repository.insert_row Repository.insert_entries
    Repository.get_journal_by_event_key Repository.load_journal Repository.load_journal_optional
    Repository.load_row Store.reversal_source_fault Store.index_fault Store.ledger_entry_fault
    Hash.hash_journal_payload_v1 Hash.hash_journal_payload_v1_with_reversal Hash.canonical_payload
    Hash.format_int Hash.digits Request.post_journal_params_from_posted_journal
    Validate.validate_and_normalize_journal_internal Validate.validate_header
    Patterns.matches_event_key Base.has_prefix Patterns.matches_event_type
    Patterns.validate_journal_metadata Validate.canonical_optional_uuid Validate.collect_entries
    Validate.normalize_entry Validate.add_to_side Validate.checked_journal_add Base.sub64
    Base.wrap64 Base.◌-ℤ◌ Base.add64 Base.◌+ℤ◌ Validate.account_codes Base.text_eq Base.text_lt
    Validate.insert_code Validate.find_definition Validate.check_dimension
    Validate.validate_dimensions Base.sort_by Base.insert_by Identity.is_canonical_uuid
again = refl

abbrev reversal : ReverseJournalParams
reversal = record {
  journal_id = ids 0;
  reason = text "entered twice";
  effective_at = 2500000;
  created_by_user_id = none;
  metadata = [];
}

abbrev reversal_normal : PostJournalParams
reversal_normal = record posting {
  event_key = text "journal.reversed:11111111-1111-4111-8111-111111111111";
  event_type = text "JOURNAL_REVERSED";
  effective_at = 2500000;
  entries = record cash { side = credit } ∷ record fee { side = debit } ∷ [];
}

abbrev prepared_reversal : PreparedJournal
unfolding Service.prepare_journal
prepared_reversal =
    Service.prepare_journal later_tx reversal_normal reversal_normal.event_key (some (ids 0))
      (some (text "entered twice"))

abbrev reversed : PostedJournal × JournalStore
reversed = (
  with_sorted_entries (record (posted_of later_tx prepared_reversal) {
    entries = map (posted_entry later_tx prepared_reversal.id) prepared_reversal.entries;
  }),
  with_journal quiet later_tx prepared_reversal answer.1,
)

reverse : reverse_journal runtime quiet (some later_tx) reversal answer.1 ≡ ok reversed
unfolding Service.reverse_journal Service.load_source Service.insert_reversal
    Request.normalize_reverse_journal_params Request.journal_account_codes_from_posted_entries
    Reversal.invert_posted_journal_entries Reversal.invert_entry Reversal.invert_journal_side
    Repository.get_journal_by_id_for_reversal Repository.get_reversal_by_source_id Base.trim_space
    Base.trim_left Base.trim_right Service.post_journal Service.prepare_journal
    Service.prepare_entries Service.insert_and_answer Service.answer_existing
    Replay.replay_existing_journal Replay.is_plain Replay.has_own_entries
    Replay.sort_posted_journal_entries Repository.get_account_definitions
    Repository.try_insert_journal Repository.insert_row Repository.insert_entries
    Repository.get_journal_by_event_key Repository.load_journal Repository.load_journal_optional
    Repository.load_row Store.reversal_source_fault Store.index_fault Store.ledger_entry_fault
    Hash.hash_journal_payload_v1 Hash.hash_journal_payload_v1_with_reversal Hash.canonical_payload
    Hash.format_int Hash.digits Request.post_journal_params_from_posted_journal
    Validate.validate_and_normalize_journal_internal Validate.validate_header
    Patterns.matches_event_key Base.has_prefix Patterns.matches_event_type
    Patterns.validate_journal_metadata Validate.canonical_optional_uuid Validate.collect_entries
    Validate.normalize_entry Validate.add_to_side Validate.checked_journal_add Base.sub64
    Base.wrap64 Base.◌-ℤ◌ Base.add64 Base.◌+ℤ◌ Validate.account_codes Base.text_eq Base.text_lt
    Validate.insert_code Validate.find_definition Validate.check_dimension
    Validate.validate_dimensions Base.sort_by Base.insert_by Identity.is_canonical_uuid
reverse = refl

chart-IsLedger : IsLedger chart
chart-IsLedger = record {
  ids = tt;
  keys = tt;
  sources = tt;
  balanced = tt;
  owned = tt;
  int64 = tt;
  trial_balance = refl;
}

quiet-IsOrdering : IsOrdering quiet
quiet-IsOrdering = record { ordered = Permuted-same }

posting_int64 : HasInt64Amounts posting.entries
posting_int64 = (omega arith, (omega arith, tt))

hash_journal_payload_v1_with_reversal-unordered_example :
    hash_journal_payload_v1_with_reversal runtime
      (record posting { entries = fee ∷ cash ∷ [] })
      none
      none
    ≡ hash_journal_payload_v1_with_reversal runtime posting none none
hash_journal_payload_v1_with_reversal-unordered_example =
    hash_journal_payload_v1_with_reversal-unordered runtime posting (fee ∷ cash ∷ []) none none
      (none-ne-some, (none-ne-some, tt)) (perm_swap perm_nil)

post_journal-IsPosted_example : IsPosted runtime quiet posting chart answer
post_journal-IsPosted_example =
    post_journal-IsPosted runtime quiet (some first_tx) posting chart answer post

reverse_journal-IsReversed_example :
    IsReversed runtime quiet (some later_tx) reversal answer.1 reversed
reverse_journal-IsReversed_example =
    reverse_journal-IsReversed runtime quiet (some later_tx) reversal answer.1 reversed reverse

JournalTrace-IsLedger_example : IsLedger reversed.1
JournalTrace-IsLedger_example =
    JournalTrace-IsLedger runtime quiet quiet-IsOrdering chart-IsLedger (
      more (more start (step_post (some first_tx) posting answer posting_int64 post))
        (step_reverse (some later_tx) reversal reversed reverse))

quiet-IsQuiet : IsQuiet quiet
quiet-IsQuiet = record {
  accounts_read = λ _. refl;
  journals_read = λ _. refl;
  ledger_read = λ _. refl;
  rows_allowed = λ _ _. refl;
  metadata_read = λ _. refl;
}

empty_id : Identity.is_canonical_uuid [] ≡ false
unfolding Identity.is_canonical_uuid
empty_id = refl

parse-IsNaming : IsNaming parse
parse-IsNaming s h = elim (Bool-cases (Identity.is_canonical_uuid s)) [
  | inl y ↦ absurd (true-ne-false (sym y ∙ ap Identity.is_canonical_uuid (empty y) ∙ empty_id))
  | inr n ↦ absurd (missing n)
]
  where
    empty : Identity.is_canonical_uuid s ≡ true → s ≡ []
    empty y = ground (arith, h, y)

    missing : Identity.is_canonical_uuid s ≡ false → ⊥
    missing n = ground (arith, h, n)

ids-HasUuids : HasUuids parse first_tx
unfolding Identity.is_canonical_uuid
ids-HasUuids zero = refl
ids-HasUuids (suc zero) = refl
ids-HasUuids (suc (suc n)) = refl

reliable : IsReliable runtime quiet first_tx
reliable = record {
  quiet = quiet-IsQuiet;
  ordering = quiet-IsOrdering;
  canonical = parse-IsCanonicaliser;
  naming = parse-IsNaming;
  ids = ids-HasUuids;
}

post_journal-again_example : IsAnsweredAgain runtime quiet later_tx posting answer
post_journal-again_example =
    post_journal-again runtime quiet first_tx later_tx posting chart answer reliable chart-IsLedger
      refl (omega arith) posting_int64 (omega arith) post
