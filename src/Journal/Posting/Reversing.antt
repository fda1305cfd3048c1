-- ===== src/Journal/Posting/Reversing.antt =====
-- The successful runs of ReverseJournal (apps/api/internal/platformfinance/journal_reversal.go), taken
-- apart.
use lapangan_go.Base.{
  ◌≡◌, refl, sym, ap, subst, ◌∙◌, false, List, Option, none, some, Result, ok, err, ok-injective,
  err-ne-ok, bind_ok, fail_if, fail_if-eq-ok, Option-eq-ok, ◌>>=◌, ◌⊎◌, inl, inr, Text,
}
use lapangan_go.Journal.Types.{
  PostedJournal, PostJournalParams, ReverseJournalParams, JournalAccountDefinition, JournalError,
  invalid_request, integrity,
}
use lapangan_go.Journal.Validate.{
  validate_and_normalize_reversal_journal, validate_journal_account_dimensions,
}
use lapangan_go.Journal.Reversal.Request.{
  normalize_reverse_journal_params, post_journal_params_from_posted_journal,
  journal_account_codes_from_posted_entries,
}
use lapangan_go.Journal.Posting.Hash.{JournalRuntime, hash_journal_payload_v1_with_reversal}
use lapangan_go.Journal.Posting.Store.{LoadedJournal, JournalStore, JournalTx, Database}
use lapangan_go.Journal.Posting.Repository.{
  try_insert_journal, get_account_definitions, get_journal_by_id_for_reversal,
  get_reversal_by_source_id,
}
use lapangan_go.Journal.Posting.Replay.{replay_existing_journal, replay_existing_reversal}
use lapangan_go.Journal.Posting.Service.{
  normalized_error, given_tx, prepare_journal, is_irreversible, load_source, insert_reversal,
  reversal_params, reverse_journal,
}
use lapangan_go.Journal.Posting.Appended.{IsAppended, normalized_error-eq-ok, given_tx-eq-ok}
use lapangan_go.Journal.Posting.Outcome.{outcome_of}

module _ (runtime : JournalRuntime) (db : Database) where
  -- The source, which is committed, is no reversal and has passed its own replay.
  pub record IsSource (tx : JournalTx) (id : Text) (s : JournalStore)
      (q : LoadedJournal × List JournalAccountDefinition) : Type 0 where
    pub loaded : LoadedJournal
    pub replayed : PostedJournal
    pub found : get_journal_by_id_for_reversal db tx id s ≡ ok loaded
    pub reversible : is_irreversible loaded ≡ false
    pub defined :
        get_account_definitions db
          (journal_account_codes_from_posted_entries loaded.journal.entries)
          s
        ≡ ok q.1
    pub intact :
        replay_existing_journal runtime loaded
          (post_journal_params_from_posted_journal loaded.journal)
          loaded.journal.payload_hash
          q.1
        ≡ ok replayed
    pub source : q.0 ≡ record loaded { journal = replayed }

  load_source-IsSource :
      (tx : JournalTx) (id : Text) (s : JournalStore)
      (q : LoadedJournal × List JournalAccountDefinition)
      → load_source runtime db tx id s ≡ ok q
      → IsSource tx id s q
  unfolding load_source
  load_source-IsSource tx id s q h =
      bind_ok (normalized_error (get_journal_by_id_for_reversal db tx id s)) h λ l h₀ k₀.
        bind_ok (fail_if (is_irreversible l) invalid_request) k₀ λ _ h₁ k₁.
          bind_ok
            (normalized_error (
              get_account_definitions db
                (journal_account_codes_from_posted_entries l.journal.entries) s))
            k₁
            λ ds h₂ k₂.
              bind_ok
                (normalized_error (
                  replay_existing_journal runtime l
                    (post_journal_params_from_posted_journal l.journal) l.journal.payload_hash ds))
                k₂
                λ j h₃ k₃. subst (IsSource tx id s) (ok-injective k₃) (record {
                  loaded = l;
                  replayed = j;
                  found = normalized_error-eq-ok _ h₀;
                  reversible = fail_if-eq-ok _ _ h₁;
                  defined = normalized_error-eq-ok _ h₂;
                  intact = normalized_error-eq-ok _ h₃;
                  source = refl;
                })

  -- The answer of a reversal that was there.
  pub record IsReplayed (tx : JournalTx) (source : LoadedJournal) (n : PostJournalParams)
      (hash : Text) (ds : List JournalAccountDefinition) (s : JournalStore)
      (r : PostedJournal × JournalStore) : Type 0 where
    pub existing : LoadedJournal
    pub found : get_reversal_by_source_id db tx source.journal.id s ≡ ok (some existing)
    pub replayed : replay_existing_reversal runtime existing source n hash ds ≡ ok r.0
    pub same : r.1 ≡ s

  abbrev answer_reversal :
      LoadedJournal
      → LoadedJournal
      → PostJournalParams
      → Text
      → List JournalAccountDefinition
      → JournalStore
      → Result JournalError (PostedJournal × JournalStore)
  answer_reversal existing source n hash ds s =
      replay_existing_reversal runtime existing source n hash ds >>= (λ j. ok (j, s))

  answered :
      (tx : JournalTx) (existing source : LoadedJournal) (n : PostJournalParams) (hash : Text)
      (ds : List JournalAccountDefinition) (s : JournalStore) (r : PostedJournal × JournalStore)
      → get_reversal_by_source_id db tx source.journal.id s ≡ ok (some existing)
      → answer_reversal existing source n hash ds s ≡ ok r
      → IsReplayed tx source n hash ds s r
  answered tx existing source n hash ds s r found h =
      bind_ok (replay_existing_reversal runtime existing source n hash ds) h λ journal h₁ k₁.
        record {
          existing = existing;
          found = found;
          replayed = h₁ ∙ ap (λ (x : PostedJournal × JournalStore). ok x.0) (ok-injective k₁);
          same = sym (ap (λ (x : PostedJournal × JournalStore). x.1) (ok-injective k₁));
        }

  abbrev taken :
      JournalTx
      → LoadedJournal
      → PostJournalParams
      → Text
      → List JournalAccountDefinition
      → JournalStore
      → Result JournalError (PostedJournal × JournalStore)
  taken tx source n hash ds s =
      normalized_error (get_reversal_by_source_id db tx source.journal.id s) >>= (λ found.
        elim found [
          | none ↦ err integrity
          | some existing ↦ answer_reversal existing source n hash ds s
        ])

  taken-IsReplayed :
      (tx : JournalTx) (source : LoadedJournal) (n : PostJournalParams) (hash : Text)
      (ds : List JournalAccountDefinition) (s : JournalStore) (r : PostedJournal × JournalStore)
      → taken tx source n hash ds s ≡ ok r
      → IsReplayed tx source n hash ds s r
  taken-IsReplayed tx source n hash ds s r h =
      bind_ok (normalized_error (get_reversal_by_source_id db tx source.journal.id s)) h
        λ found h₀ k₀.
          elim (Option-eq-ok found (err integrity) (λ e. answer_reversal e source n hash ds s) k₀) [
            | inl (_, k) ↦ absurd (err-ne-ok k)
            | inr (e, is, k) ↦
                answered tx e source n hash ds s r (normalized_error-eq-ok _ h₀ ∙ ap ok is) k
          ]

  -- A successful run of ReverseJournal: the reversal went in, or the one of its source answers it.
  pub record IsReverseRun (given : Option JournalTx) (p : ReverseJournalParams) (s : JournalStore)
      (r : PostedJournal × JournalStore) : Type 0 where
    pub tx : JournalTx
    pub request : ReverseJournalParams
    pub source : LoadedJournal × List JournalAccountDefinition
    pub normalized : PostJournalParams × List Text
    pub hash : Text
    pub given_is : given ≡ some tx
    pub requested : normalize_reverse_journal_params runtime.parse_uuid p ≡ ok request
    pub source_of : IsSource tx request.journal_id s source
    pub valid :
        validate_and_normalize_reversal_journal runtime.parse_uuid
          (reversal_params request source.0.journal)
        ≡ ok normalized
    pub hashed :
        hash_journal_payload_v1_with_reversal runtime normalized.0
          (some source.0.journal.id)
          (some request.reason)
        ≡ ok hash
    pub outcome :
        IsAppended db tx
          (prepare_journal tx normalized.0 hash (some source.0.journal.id) (some request.reason))
          s
          r.1
          r.0
        ⊎ IsReplayed tx source.0 normalized.0 hash source.1 s r

  insert_reversal-outcome :
      (tx : JournalTx) (source : LoadedJournal) (n : PostJournalParams) (reason hash : Text)
      (ds : List JournalAccountDefinition) (s : JournalStore) (r : PostedJournal × JournalStore)
      → insert_reversal runtime db tx source n reason hash ds s ≡ ok r
      → IsAppended db tx
          (prepare_journal tx n hash (some source.journal.id) (some reason))
          s
          r.1
          r.0
        ⊎ IsReplayed tx source n hash ds s r
  unfolding insert_reversal
  insert_reversal-outcome tx source n reason hash ds s r h =
      bind_ok
        (normalized_error (
          try_insert_journal db tx
            (prepare_journal tx n hash (some source.journal.id) (some reason)) s))
        h
        λ q h₀ k₀.
          elim (outcome_of runtime db tx
            (prepare_journal tx n hash (some source.journal.id) (some reason))
            (taken tx source n hash ds) s r q (normalized_error-eq-ok _ h₀) k₀) [
              | inl a ↦ inl a
              | inr k ↦ inr (taken-IsReplayed tx source n hash ds s r k)
            ]

  pub reverse_journal-IsReverseRun :
      (given : Option JournalTx) (p : ReverseJournalParams) (s : JournalStore)
      (r : PostedJournal × JournalStore)
      → reverse_journal runtime db given p s ≡ ok r
      → IsReverseRun given p s r
  unfolding reverse_journal
  reverse_journal-IsReverseRun given p s r h =
      bind_ok (normalize_reverse_journal_params runtime.parse_uuid p) h λ request h₀ k₀.
        bind_ok (given_tx given) k₀ λ tx h₁ k₁.
          bind_ok (load_source runtime db tx request.journal_id s) k₁ λ q h₂ k₂.
            bind_ok
              (validate_and_normalize_reversal_journal runtime.parse_uuid
                (reversal_params request q.0.journal))
              k₂
              λ n h₃ k₃. bind_ok (validate_journal_account_dimensions n.0 q.1) k₃ λ _ h₄ k₄.
                bind_ok
                  (normalized_error (
                    hash_journal_payload_v1_with_reversal runtime n.0 (some q.0.journal.id)
                      (some request.reason)))
                  k₄
                  λ hash h₅ k₅.
                    bind_ok (normalized_error (get_reversal_by_source_id db tx q.0.journal.id s)) k₅
                      λ found h₆ k₆. record {
                        tx = tx;
                        request = request;
                        source = q;
                        normalized = n;
                        hash = hash;
                        given_is = given_tx-eq-ok given tx h₁;
                        requested = h₀;
                        source_of = load_source-IsSource tx request.journal_id s q h₂;
                        valid = h₃;
                        hashed = normalized_error-eq-ok _ h₅;
                        outcome =
                            elim (Option-eq-ok found
                              (insert_reversal runtime db tx q.0 n.0 request.reason hash q.1 s)
                              (λ e. answer_reversal e q.0 n.0 hash q.1 s) k₆) [
                                | inl (_, k) ↦
                                    insert_reversal-outcome tx q.0 n.0 request.reason hash q.1 s r k
                                | inr (e, is, k) ↦ inr (
                                    answered tx e q.0 n.0 hash q.1 s r
                                      (normalized_error-eq-ok _ h₆ ∙ ap ok is) k)
                              ];
                      }
