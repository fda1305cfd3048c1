-- ===== src/Journal/Posting/Idempotent.antt =====
-- PostJournal of apps/api/internal/platformfinance/journal_service.go, called again with the same
-- parameters.
use lapangan_go.Base.{
  ◌≤◌, ◌≡◌, refl, sym, ap, subst, ◌∙◌, arith, false, List, any, Option, none, some, ok, Text,
  text_eq, text_eq_refl, find_first, find_first-append, select_where, some-injective, none-ne-some,
  inl, inr,
}
use lapangan_go.Journal.Types.{PostedJournal, PostJournalParams, JournalAccountDefinition}
use lapangan_go.Journal.Validate.{validate_and_normalize_journal, validate_dimensions}
use lapangan_go.Journal.Validate.Totals.{HasInt64Amounts}
use lapangan_go.Journal.Validate.Stable.{IsCanonicaliser}
use lapangan_go.Journal.Validate.Normal.{validate_and_normalize_journal_internal-IsRun}
use lapangan_go.Journal.Posting.Hash.{JournalRuntime, hash_journal_payload_v1}
use lapangan_go.Journal.Posting.Store.{
  JournalStore, JournalTx, Database, has_event_key, effective_time_fault, reversal_source_fault,
}
use lapangan_go.Journal.Posting.Repository.{try_insert_journal, get_account_definitions}
use lapangan_go.Journal.Posting.Replay.{replay_existing_journal, with_sorted_entries}
use lapangan_go.Journal.Posting.Service.{prepare_journal, post_journal, answer_existing}
use lapangan_go.Journal.Posting.Appended.{IsAppended}
use lapangan_go.Journal.Posting.Outcome.{IsPostRun, post_journal-IsPostRun}
use lapangan_go.Journal.Posting.Loading.{get_journal_by_event_key-IsLoaded}
use lapangan_go.Journal.Posting.Ledger.{IsLedger, index_fault-id}
use lapangan_go.Journal.Posting.Books.{IsOrdering, valid-IsPosting}
use lapangan_go.Journal.Posting.Again.{
  IsQuiet, IsNaming, HasUuids, posted_row, after, again, loaded_again, replayed_again,
}

module _ (runtime : JournalRuntime) (db : Database) (quiet : IsQuiet db) (ordering : IsOrdering db)
    (tx later : JournalTx) (n : PostJournalParams) (hash : Text) (s : JournalStore) where
  abbrev stored : JournalStore
  stored = after runtime db quiet ordering tx later n hash s

  abbrev shown : PostedJournal
  shown = with_sorted_entries (again runtime db quiet ordering tx later n hash s).journal

  defined_eq :
      (codes : List Text) (t : JournalStore)
      → get_account_definitions db codes t
        ≡ ok
            (select_where (λ (d : JournalAccountDefinition). any (text_eq d.code) codes) t.accounts)
  unfolding get_account_definitions
  defined_eq codes t = rw (quiet.accounts_read t) refl

  -- The key is taken.
  taken_again :
      find_first (has_event_key n.event_key) s.journals ≡ none
      → effective_time_fault later (prepare_journal later n hash none none) ≡ none
      → try_insert_journal db later (prepare_journal later n hash none none) stored
        ≡ ok (none, stored)
  unfolding try_insert_journal reversal_source_fault prepare_journal
  taken_again free in_time =
      rw
        (
          in_time,
          quiet.rows_allowed stored (prepare_journal later n hash none none),
          find_first-append (has_event_key n.event_key) s.journals
              (posted_row runtime db quiet ordering tx later n hash s) free
              (text_eq_refl n.event_key),
        )
        refl

  answered_again :
      (definitions : List JournalAccountDefinition)
      → find_first (has_event_key n.event_key) s.journals ≡ none
      → replay_existing_journal runtime
          (again runtime db quiet ordering tx later n hash s)
          n
          hash
          definitions
        ≡ ok shown
      → answer_existing runtime db later n hash definitions stored ≡ ok (shown, stored)
  unfolding answer_existing
  answered_again definitions free replayed =
      rw (loaded_again runtime db quiet ordering tx later n hash s free, replayed) refl

  posted_again :
      (p : PostJournalParams) (codes : List Text) (definitions : List JournalAccountDefinition)
      → validate_and_normalize_journal runtime.parse_uuid p ≡ ok (n, codes)
      → get_account_definitions db codes stored ≡ ok definitions
      → validate_dimensions n.owner_profile_id n.entries definitions ≡ ok tt
      → hash_journal_payload_v1 runtime n ≡ ok hash
      → try_insert_journal db later (prepare_journal later n hash none none) stored
        ≡ ok (none, stored)
      → answer_existing runtime db later n hash definitions stored ≡ ok (shown, stored)
      → post_journal runtime db (some later) p stored ≡ ok (shown, stored)
  unfolding post_journal
  posted_again p codes definitions valid defined dimensions hashed taken answered =
      rw (valid, defined, dimensions, hashed, taken, answered) refl

effective_time_fault-later :
    (tx later : JournalTx) (n : PostJournalParams) (hash : Text)
    → tx.posting_time ≤ later.posting_time
    → effective_time_fault tx (prepare_journal tx n hash none none) ≡ none
    → effective_time_fault later (prepare_journal later n hash none none) ≡ none
unfolding prepare_journal
effective_time_fault-later tx later n hash h k = ground (arith, h, k)

-- What a posting rests on outside the journal: a database that answers, in whatever order the
-- entries come, a parser of UUIDs that gives canonical names, and identities that are UUIDs.
pub record IsReliable (runtime : JournalRuntime) (db : Database) (tx : JournalTx) : Type 0 where
  pub quiet : IsQuiet db
  pub ordering : IsOrdering db
  pub canonical : IsCanonicaliser runtime.parse_uuid
  pub naming : IsNaming runtime.parse_uuid
  pub ids : HasUuids runtime.parse_uuid tx

-- The same request is answered, with the same identity, and the store stays as it is.
abbrev pub IsAnsweredAgain :
    JournalRuntime
    → Database
    → JournalTx
    → PostJournalParams
    → PostedJournal × JournalStore
    → Type 0
IsAnsweredAgain runtime db later p r =
    (answer : PostedJournal) × (post_journal runtime db (some later) p r.1 ≡ ok (answer, r.1))
    × (answer.id ≡ r.0.id)

appended_again :
    (runtime : JournalRuntime) (db : Database) (given : Option JournalTx) (later : JournalTx)
    (p : PostJournalParams) (s : JournalStore) (r : PostedJournal × JournalStore)
    (run : IsPostRun runtime db given p s r)
    → IsReliable runtime db run.tx
    → IsLedger s
    → 1000 ≤ p.effective_at
    → HasInt64Amounts p.entries
    → run.tx.posting_time ≤ later.posting_time
    → IsAppended db run.tx (prepare_journal run.tx run.normalized.0 run.hash none none) s r.1 r.0
    → IsAnsweredAgain runtime db later p r
unfolding prepare_journal
appended_again runtime db given later p s r run reliable ledger late hs order a =
    let t = run.tx in
    let n = run.normalized.0 in
    let q = reliable.quiet in
    let o = reliable.ordering in
    let posting =
      valid-IsPosting runtime false t p run.normalized run.hash none none hs run.valid in
    let replayed =
      replayed_again runtime db q o t later n run.hash s ledger posting
        (index_fault-id _ s a.new_index) reliable.canonical reliable.naming p run.normalized.1
        run.definitions reliable.ids late hs run.valid run.dimensions run.hashed in
    let defined =
      defined_eq runtime db q o t later n run.hash s run.normalized.1
        (stored runtime db q o t later n run.hash s)
      ∙ sym (defined_eq runtime db q o t later n run.hash s run.normalized.1 s)
      ∙ run.defined in
    let taken =
      taken_again runtime db q o t later n run.hash s a.new_key
        (effective_time_fault-later t later n run.hash order a.in_time) in
    let answered =
      answered_again runtime db q o t later n run.hash s run.definitions a.new_key replayed in
    (
      shown runtime db q o t later n run.hash s,
      subst
          (λ (u : JournalStore).
            post_journal runtime db (some later) p u
            ≡ ok (shown runtime db q o t later n run.hash s, u))
          (sym a.store)
          (posted_again runtime db q o t later n run.hash s p run.normalized.1 run.definitions
            run.valid defined run.dimensions run.hashed taken answered),
      sym (ap (λ (j : PostedJournal). j.id) a.answered),
    )

-- A journal whose event key was free, and that was posted at an instant of a microsecond or more after
-- the zero time, can be posted again in any transaction whose clock has not gone back, on a database
-- that refuses no statement: it is answered with the same identity, and the store stays as it is.
pub post_journal-again :
    (runtime : JournalRuntime) (db : Database) (tx later : JournalTx) (p : PostJournalParams)
    (s : JournalStore) (r : PostedJournal × JournalStore)
    → IsReliable runtime db tx
    → IsLedger s
    → find_first (has_event_key p.event_key) s.journals ≡ none
    → 1000 ≤ p.effective_at
    → HasInt64Amounts p.entries
    → tx.posting_time ≤ later.posting_time
    → post_journal runtime db (some tx) p s ≡ ok r
    → IsAnsweredAgain runtime db later p r
post_journal-again runtime db tx later p s r reliable ledger free late hs order h =
    replay (post_journal-IsPostRun runtime db (some tx) p s r h)
  where
    replay : IsPostRun runtime db (some tx) p s r → IsAnsweredAgain runtime db later p r
    replay run =
        let valid =
          validate_and_normalize_journal_internal-IsRun runtime.parse_uuid false p run.normalized
            run.valid in
        let key = ap (λ (q : PostJournalParams). q.event_key) valid.result in
        elim run.outcome [
          | inl a ↦
              let same = some-injective run.given_is in
              appended_again runtime db (some tx) later p s r run
                (subst (IsReliable runtime db) same reliable) ledger late hs
                (subst (λ (t : JournalTx). t.posting_time ≤ later.posting_time) same order) a
          | inr e ↦
              let loaded =
                get_journal_by_event_key-IsLoaded db run.tx run.normalized.0.event_key s e.existing
                  e.found in
              absurd (
                none-ne-some (
                  sym free
                  ∙ ap (λ k. find_first (has_event_key k) s.journals) (sym key)
                  ∙ loaded.found))
        ]
