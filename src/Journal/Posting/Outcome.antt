-- ===== src/Journal/Posting/Outcome.antt =====
-- What PostJournal of apps/api/internal/platformfinance/journal_service.go does to the store when it
-- succeeds: it appends one journal with its entries, or it answers with one that is there.
use lapangan_go.Base.{
  ◌≡◌, sym, ap, subst, ◌∙◌, List, Option, none, some, Result, ok, ok-injective, bind_ok, Text, ◌⊎◌,
  inl, inr, none-ne-some, some-injective,
}
use lapangan_go.Journal.Types.{
  PostedJournal, PostJournalParams, JournalError, JournalAccountDefinition,
}
use lapangan_go.Journal.Validate.{
  validate_and_normalize_journal, validate_journal_account_dimensions,
}
use lapangan_go.Journal.Posting.Hash.{JournalRuntime, hash_journal_payload_v1}
use lapangan_go.Journal.Posting.Store.{
  LoadedJournal, PreparedJournal, JournalStore, JournalTx, Database,
}
use lapangan_go.Journal.Posting.Repository.{
  try_insert_journal, get_account_definitions, get_journal_by_event_key,
}
use lapangan_go.Journal.Posting.Replay.{replay_existing_journal}
use lapangan_go.Journal.Posting.Service.{
  normalized_error, given_tx, prepare_journal, insert_and_answer, answer_existing, post_journal,
}
use lapangan_go.Journal.Posting.Appended.{
  IsAppended, try_insert_journal-cases, insert_and_answer-IsAppended, normalized_error-eq-ok,
  given_tx-eq-ok,
}

module _ (runtime : JournalRuntime) (db : Database) where
  pub outcome_of :
      (tx : JournalTx) (j : PreparedJournal)
      (taken : JournalStore → Result JournalError (PostedJournal × JournalStore)) (s : JournalStore)
      (r : PostedJournal × JournalStore) (q : Option PostedJournal × JournalStore)
      → try_insert_journal db tx j s ≡ ok q
      → elim q.0 [ none ↦ taken q.1 | some posted ↦ insert_and_answer runtime db tx j posted q.1 ]
        ≡ ok r
      → IsAppended db tx j s r.1 r.0 ⊎ (taken s ≡ ok r)
  outcome_of tx j taken s r (none, s₁) h k =
      elim (try_insert_journal-cases db tx j s (none, s₁) h) [
        | inl (_, e) ↦ inr (subst (λ t. taken t ≡ ok r) e k)
        | inr (_, e) ↦ absurd (none-ne-some e)
      ]
  outcome_of tx j taken s r (some posted, s₁) h k =
      elim (try_insert_journal-cases db tx j s (some posted, s₁) h) [
        | inl (e, _) ↦ absurd (none-ne-some (sym e))
        | inr (i, e) ↦ inl (
            insert_and_answer-IsAppended db tx runtime j s s₁ r i (
              subst (λ (o : PostedJournal). insert_and_answer runtime db tx j o s₁ ≡ ok r)
                (some-injective e) k))
      ]

  -- The answer of a journal that was there.
  pub record IsAnswered (tx : JournalTx) (n : PostJournalParams) (hash : Text)
      (ds : List JournalAccountDefinition) (s : JournalStore) (r : PostedJournal × JournalStore)
      : Type 0 where
    pub existing : LoadedJournal
    pub found : get_journal_by_event_key db tx n.event_key s ≡ ok existing
    pub replayed : replay_existing_journal runtime existing n hash ds ≡ ok r.0
    pub same : r.1 ≡ s

  answer_existing-IsAnswered :
      (tx : JournalTx) (n : PostJournalParams) (hash : Text) (ds : List JournalAccountDefinition)
      (s : JournalStore) (r : PostedJournal × JournalStore)
      → answer_existing runtime db tx n hash ds s ≡ ok r
      → IsAnswered tx n hash ds s r
  unfolding answer_existing
  answer_existing-IsAnswered tx n hash ds s r h =
      bind_ok (normalized_error (get_journal_by_event_key db tx n.event_key s)) h λ existing h₀ k₀.
        bind_ok (replay_existing_journal runtime existing n hash ds) k₀ λ journal h₁ k₁. record {
          existing = existing;
          found = normalized_error-eq-ok _ h₀;
          replayed = h₁ ∙ ap (λ (x : PostedJournal × JournalStore). ok x.0) (ok-injective k₁);
          same = sym (ap (λ (x : PostedJournal × JournalStore). x.1) (ok-injective k₁));
        }

  -- A successful run of PostJournal: the journal went in, or one with its key answers it.
  pub record IsPostRun (given : Option JournalTx) (p : PostJournalParams) (s : JournalStore)
      (r : PostedJournal × JournalStore) : Type 0 where
    pub tx : JournalTx
    pub normalized : PostJournalParams × List Text
    pub definitions : List JournalAccountDefinition
    pub hash : Text
    pub given_is : given ≡ some tx
    pub valid : validate_and_normalize_journal runtime.parse_uuid p ≡ ok normalized
    pub defined : get_account_definitions db normalized.1 s ≡ ok definitions
    pub dimensions : validate_journal_account_dimensions normalized.0 definitions ≡ ok tt
    pub hashed : hash_journal_payload_v1 runtime normalized.0 ≡ ok hash
    pub outcome :
        IsAppended db tx (prepare_journal tx normalized.0 hash none none) s r.1 r.0
        ⊎ IsAnswered tx normalized.0 hash definitions s r

  pub post_journal-IsPostRun :
      (given : Option JournalTx) (p : PostJournalParams) (s : JournalStore)
      (r : PostedJournal × JournalStore)
      → post_journal runtime db given p s ≡ ok r
      → IsPostRun given p s r
  unfolding post_journal
  post_journal-IsPostRun given p s r h =
      bind_ok (validate_and_normalize_journal runtime.parse_uuid p) h λ n h₀ k₀.
        bind_ok (given_tx given) k₀ λ tx h₁ k₁.
          bind_ok (normalized_error (get_account_definitions db n.1 s)) k₁ λ ds h₂ k₂.
            bind_ok (validate_journal_account_dimensions n.0 ds) k₂ λ _ h₃ k₃.
              bind_ok (normalized_error (hash_journal_payload_v1 runtime n.0)) k₃ λ hash h₄ k₄.
                bind_ok
                  (normalized_error
                    (try_insert_journal db tx (prepare_journal tx n.0 hash none none) s))
                  k₄
                  λ q h₅ k₅. record {
                    tx = tx;
                    normalized = n;
                    definitions = ds;
                    hash = hash;
                    given_is = given_tx-eq-ok given tx h₁;
                    valid = h₀;
                    defined = normalized_error-eq-ok _ h₂;
                    dimensions = h₃;
                    hashed = normalized_error-eq-ok _ h₄;
                    outcome =
                        elim (outcome_of tx (prepare_journal tx n.0 hash none none)
                          (answer_existing runtime db tx n.0 hash ds) s r q
                          (normalized_error-eq-ok _ h₅) k₅) [
                            | inl a ↦ inl a
                            | inr e ↦ inr (answer_existing-IsAnswered tx n.0 hash ds s r e)
                          ];
                  }
