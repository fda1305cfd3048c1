-- ===== src/Journal/Posting/Answers.antt =====
-- What the answers of PostJournal and ReverseJournal (journal_service.go and journal_reversal.go) say
-- of the store.
use lapangan_go.Base.{
  ◌≡◌, refl, sym, ap, subst, ◌∙◌, arith, false, List, [], ◌∷◌, ◌++◌, map, Option, none, some,
  is_some, ok, Text, text_eq_refl, text_eq→eq, find_first, find_first-append, inl, inr, append-nil,
  ◌==◌, bind_ok, fail_if, ok-injective,
}
use lapangan_go.Journal.Types.{
  PostedJournal, PostedJournalEntry, PostJournalParams, ReverseJournalParams, Metadata,
  invalid_request,
}
use lapangan_go.Journal.Patterns.{validate_journal_metadata}
use lapangan_go.Journal.Validate.{validate_and_normalize_journal, canonical_optional_uuid}
use lapangan_go.Journal.Reversal.Request.{
  normalize_reverse_journal_params, referenced, referenced-eq-ok, is_bad_reason,
}
use lapangan_go.Journal.Posting.Hash.{JournalRuntime, hash_journal_payload_v1}
use lapangan_go.Journal.Posting.Store.{
  LoadedJournal, PreparedJournal, JournalRow, JournalStore, JournalTx, Database, has_id,
  has_event_key, reverses,
}
use lapangan_go.Journal.Posting.Repository.{posted_of, posted_entry, get_reversal_by_source_id}
use lapangan_go.Journal.Posting.Service.{
  prepare_journal, post_journal, reverse_journal, is_irreversible,
}
use lapangan_go.Journal.Posting.Appended.{IsAppended}
use lapangan_go.Journal.Posting.Outcome.{post_journal-IsPostRun}
use lapangan_go.Journal.Posting.Reversing.{IsReverseRun, reverse_journal-IsReverseRun}
use lapangan_go.Journal.Posting.Loading.{
  get_journal_by_id_for_reversal-IsLoaded, get_journal_by_event_key-IsLoaded,
  replay_existing_journal-IsReplay, load_journal_optional-IsLoaded, loaded_of, replayed_reversal,
}
use lapangan_go.Journal.Posting.Ledger.{index_fault-source}

-- Nothing of the old store is changed or removed.
pub record IsExtended (s s' : JournalStore) : Type 0 where
  pub more_journals : List JournalRow
  pub more_entries : List PostedJournalEntry
  pub journals : s'.journals ≡ s.journals ++ more_journals
  pub ledger : s'.ledger ≡ s.ledger ++ more_entries
  pub accounts : s'.accounts ≡ s.accounts

IsExtended-same : (s s' : JournalStore) → s' ≡ s → IsExtended s s'
IsExtended-same s s' e = record {
  more_journals = [];
  more_entries = [];
  journals = ap (λ (t : JournalStore). t.journals) e ∙ sym (append-nil s.journals);
  ledger = ap (λ (t : JournalStore). t.ledger) e ∙ sym (append-nil s.ledger);
  accounts = ap (λ (t : JournalStore). t.accounts) e;
}

IsAppended-IsExtended :
    (db : Database) (tx : JournalTx) (j : PreparedJournal) (s s' : JournalStore)
    (answer : PostedJournal)
    → IsAppended db tx j s s' answer
    → IsExtended s s'
IsAppended-IsExtended db tx j s s' answer a = record {
  more_journals = record { journal = posted_of tx j; created_txid = tx.txid } ∷ [];
  more_entries = map (posted_entry tx j.id) j.entries;
  journals = ap (λ (t : JournalStore). t.journals) a.store;
  ledger = ap (λ (t : JournalStore). t.ledger) a.store;
  accounts = ap (λ (t : JournalStore). t.accounts) a.store;
}

module _ (runtime : JournalRuntime) (db : Database) where
  -- The journal of the key, after it was posted.
  pub record IsPosted (p : PostJournalParams) (s : JournalStore) (r : PostedJournal × JournalStore)
      : Type 0 where
    pub normalized : PostJournalParams × List Text
    pub valid : validate_and_normalize_journal runtime.parse_uuid p ≡ ok normalized
    pub hash : Text
    pub hashed : hash_journal_payload_v1 runtime normalized.0 ≡ ok hash
    pub row : JournalRow
    pub found : find_first (has_event_key normalized.0.event_key) r.1.journals ≡ some row
    pub same_hash : row.journal.payload_hash ≡ hash
    pub same_id : r.0.id ≡ row.journal.id
    pub extended : IsExtended s r.1

  -- A successful posting answers with the journal that holds the event key in the store, the hash
  -- of that journal is the one of the request, whether it went in now or before, and no row of the
  -- store is changed or removed.
  pub post_journal-IsPosted :
      (given : Option JournalTx) (p : PostJournalParams) (s : JournalStore)
      (r : PostedJournal × JournalStore)
      → post_journal runtime db given p s ≡ ok r
      → IsPosted p s r
  unfolding prepare_journal
  post_journal-IsPosted given p s r h =
      let run = post_journal-IsPostRun runtime db given p s r h in
      elim run.outcome [
        | inl a ↦ record {
          normalized = run.normalized;
          valid = run.valid;
          hash = run.hash;
          hashed = run.hashed;
          row = record {
            journal = posted_of run.tx (prepare_journal run.tx run.normalized.0 run.hash none none);
            created_txid = run.tx.txid;
          };
          found =
              ap
                (λ (t : JournalStore).
                  find_first (has_event_key run.normalized.0.event_key) t.journals)
                a.store
              ∙ find_first-append (has_event_key run.normalized.0.event_key) s.journals _ a.new_key
                  (text_eq_refl run.normalized.0.event_key);
          same_hash = refl;
          same_id = ap (λ (j : PostedJournal). j.id) a.answered;
          extended = IsAppended-IsExtended db run.tx _ s r.1 r.0 a;
        }
        | inr e ↦
            let loaded =
              get_journal_by_event_key-IsLoaded db run.tx run.normalized.0.event_key s e.existing
                e.found in
            let replay = replay_existing_journal-IsReplay runtime e.existing _ _ _ r.0 e.replayed in
            record {
              normalized = run.normalized;
              valid = run.valid;
              hash = run.hash;
              hashed = run.hashed;
              row = loaded.row;
              found =
                  ap
                    (λ (t : JournalStore).
                      find_first (has_event_key run.normalized.0.event_key) t.journals)
                    e.same
                  ∙ loaded.found;
              same_hash =
                  sym (ap (λ (l : LoadedJournal). l.journal.payload_hash) loaded.shown)
                  ∙ text_eq→eq e.existing.journal.payload_hash run.hash replay.same_hash;
              same_id =
                  ap (λ (j : PostedJournal). j.id) replay.answered
                  ∙ ap (λ (l : LoadedJournal). l.journal.id) loaded.shown;
              extended = IsExtended-same s r.1 e.same;
            }
      ]

  -- The source of a reversal and the reversal itself.
  pub record IsReversed (given : Option JournalTx) (p : ReverseJournalParams) (s : JournalStore)
      (r : PostedJournal × JournalStore) : Type 0 where
    pub tx : JournalTx
    pub given_is : given ≡ some tx
    pub id : Text
    pub canonical : runtime.parse_uuid p.journal_id ≡ some id
    pub source : JournalRow
    pub found : find_first (has_id id) s.journals ≡ some source
    pub no_reversal : is_some source.journal.reverses_journal_id ≡ false
    pub committed : (source.created_txid == tx.txid) ≡ false
    pub reversal : JournalRow
    pub reversed : find_first (reverses source.journal.id) r.1.journals ≡ some reversal
    pub same_id : r.0.id ≡ reversal.journal.id
    pub extended : IsExtended s r.1

  -- What a source that can be reversed is.
  source_facts :
      (tx : JournalTx) (q : JournalStore) (row : JournalRow) (l : LoadedJournal) (m : Metadata)
      → l ≡ loaded_of db tx q row m
      → is_irreversible l ≡ false
      → (is_some row.journal.reverses_journal_id ≡ false) × ((row.created_txid == tx.txid) ≡ false)
  source_facts tx q row l m e h = facts (ap is_irreversible (sym e) ∙ h)
    where
      facts :
          is_irreversible (loaded_of db tx q row m) ≡ false
          → (is_some row.journal.reverses_journal_id ≡ false)
            × ((row.created_txid == tx.txid) ≡ false)
      facts k = ground (arith, k)

  requested_id :
      (p n : ReverseJournalParams)
      → normalize_reverse_journal_params runtime.parse_uuid p ≡ ok n
      → runtime.parse_uuid p.journal_id ≡ some n.journal_id
  unfolding normalize_reverse_journal_params
  requested_id p n h = bind_ok (referenced (runtime.parse_uuid p.journal_id)) h λ id h₀ k₀.
      bind_ok (fail_if (p.effective_at == 0) invalid_request) k₀ λ _ h₁ k₁.
        bind_ok (fail_if (is_bad_reason p.reason) invalid_request) k₁ λ _ h₂ k₂.
          bind_ok (validate_journal_metadata p.metadata) k₂ λ u h₃ k₃.
            bind_ok (canonical_optional_uuid runtime.parse_uuid p.created_by_user_id) k₃ λ c h₄ k₄.
              referenced-eq-ok _ id h₀
              ∙ ap (λ (q : ReverseJournalParams). some q.journal_id) (ok-injective k₄)

  -- A successful reversal names a journal of the store that is no reversal and was written by an
  -- earlier transaction, it answers with the one journal that reverses it, which is in the store
  -- now, and no row of the store is changed or removed.
  pub reverse_journal-IsReversed :
      (given : Option JournalTx) (p : ReverseJournalParams) (s : JournalStore)
      (r : PostedJournal × JournalStore)
      → reverse_journal runtime db given p s ≡ ok r
      → IsReversed given p s r
  unfolding prepare_journal
  reverse_journal-IsReversed given p s r h =
      let run = reverse_journal-IsReverseRun runtime db given p s r h in
      let src = run.source_of in
      let loaded =
        get_journal_by_id_for_reversal-IsLoaded db run.tx run.request.journal_id s src.loaded
          src.found in
      let facts =
        source_facts run.tx s loaded.row src.loaded loaded.metadata loaded.shown src.reversible in
      let replay =
        replay_existing_journal-IsReplay runtime src.loaded _ _ run.source.1 src.replayed
          src.intact in
      let same : run.source.0.journal.id ≡ loaded.row.journal.id =
        ap (λ (l : LoadedJournal). l.journal.id) src.source
        ∙ ap (λ (j : PostedJournal). j.id) replay.answered
        ∙ ap (λ (l : LoadedJournal). l.journal.id) loaded.shown in
      let (reversal, reversed, same_id, extended) = ended run in
      record {
        tx = run.tx;
        given_is = run.given_is;
        id = run.request.journal_id;
        canonical = requested_id p run.request run.requested;
        source = loaded.row;
        found = loaded.found;
        no_reversal = facts.0;
        committed = facts.1;
        reversal = reversal;
        reversed =
            subst (λ id. find_first (reverses id) r.1.journals ≡ some reversal) same reversed;
        same_id = same_id;
        extended = extended;
      }
    where
      ended :
          (run : IsReverseRun runtime db given p s r)
          → (reversal : JournalRow) × (find_first (reverses run.source.0.journal.id) r.1.journals
              ≡ some reversal)
            × (r.0.id ≡ reversal.journal.id)
            × IsExtended s r.1
      ended run = elim run.outcome [
        | inl a ↦ (
          record {
            journal = posted_of run.tx (
                prepare_journal run.tx run.normalized.0 run.hash (some run.source.0.journal.id)
                  (some run.request.reason));
            created_txid = run.tx.txid;
          },
          ap (λ (t : JournalStore). find_first (reverses run.source.0.journal.id) t.journals)
                a.store
              ∙ find_first-append (reverses run.source.0.journal.id) s.journals _
                  (index_fault-source _ s run.source.0.journal.id a.new_index refl)
                  (text_eq_refl run.source.0.journal.id),
          ap (λ (j : PostedJournal). j.id) a.answered,
          IsAppended-IsExtended db run.tx _ s r.1 r.0 a,
        )
        | inr e ↦
            let loaded =
              load_journal_optional-IsLoaded db run.tx (reverses run.source.0.journal.id) s
                e.existing (unfold get_reversal_by_source_id in e.found) in
            (
              loaded.row,
              ap (λ (t : JournalStore). find_first (reverses run.source.0.journal.id) t.journals)
                    e.same
                  ∙ loaded.found,
              ap (λ (j : PostedJournal). j.id)
                    (replayed_reversal runtime e.existing run.source.0 run.normalized.0 run.hash
                      run.source.1 r.0 e.replayed)
                  ∙ ap (λ (l : LoadedJournal). l.journal.id) loaded.shown,
              IsExtended-same s r.1 e.same,
            )
      ]
