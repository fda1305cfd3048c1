-- ===== src/Journal/Posting/Appended.antt =====
-- The insertion of a journal with its entries, which journal_service.go and journal_reversal.go share.
use lapangan_go.Base.{
  ◌≡◌, refl, sym, ap, subst, ◌∙◌, List, [], ◌∷◌, ◌++◌, map, Option, none, some, Result, ok,
  ok-injective, err-ne-ok, bind_ok, Text, find_first, ◌⊎◌, inl, inr, map_err-eq-ok, Option-eq-ok,
  append-nil, append_assoc,
}
use lapangan_go.Journal.Types.{PostedJournal, PostedJournalEntry, JournalError}
use lapangan_go.Journal.Posting.Hash.{JournalRuntime}
use lapangan_go.Journal.Posting.Store.{
  PreparedJournal, PreparedJournalEntry, JournalStore, JournalTx, Database, report, DatabaseError,
  has_event_key, index_fault, reversal_source_fault, effective_time_fault, ledger_entry_fault,
}
use lapangan_go.Journal.Posting.Repository.{
  posted_of, posted_entry, insert_row, try_insert_journal, insert_entries, with_row,
}
use lapangan_go.Journal.Posting.Replay.{with_sorted_entries}
use lapangan_go.Journal.Posting.Service.{normalized_error, given_tx, insert_and_answer}

pub normalized_error-eq-ok :
    {A : Type 0} (r : Result JournalError A) {a : A} → normalized_error r ≡ ok a → r ≡ ok a
normalized_error-eq-ok r h = map_err-eq-ok _ r h

pub given_tx-eq-ok :
    (given : Option JournalTx) (tx : JournalTx) → given_tx given ≡ ok tx → given ≡ some tx
given_tx-eq-ok none tx h = absurd (err-ne-ok h)
given_tx-eq-ok (some t) tx h = ap some (ok-injective h)

report-eq-ok : (o : Option DatabaseError) {u : Unit {0}} → report o ≡ ok u → o ≡ none
report-eq-ok none h = refl
report-eq-ok (some e) h = absurd (err-ne-ok h)

abbrev with_ledger : JournalStore → List PostedJournalEntry → JournalStore
with_ledger s l = record s { ledger = l }

module _ (db : Database) (tx : JournalTx) where
  -- The store with a journal and its entries.
  abbrev pub with_journal : PreparedJournal → JournalStore → JournalStore
  with_journal j s = record s {
    journals = s.journals ++ record { journal = posted_of tx j; created_txid = tx.txid } ∷ [];
    ledger = s.ledger ++ map (posted_entry tx j.id) j.entries;
  }

  -- A row went in: no journal had its key or its identity, and its source could be reversed.
  pub record IsInserted (j : PreparedJournal) (s s' : JournalStore) : Type 0 where
    pub new_key : find_first (has_event_key j.event_key) s.journals ≡ none
    pub new_index : index_fault j s ≡ none
    pub source_allowed : reversal_source_fault tx j.reverses_journal_id s ≡ none
    pub in_time : effective_time_fault tx j ≡ none
    pub store : s' ≡ with_row db tx j s

  insert_row-some :
      (j : PreparedJournal) (s : JournalStore) (r : Option PostedJournal × JournalStore)
      → insert_row db tx j s ≡ ok r
      → (index_fault j s ≡ none) × (r ≡ (some (posted_of tx j), with_row db tx j s))
  unfolding insert_row
  insert_row-some j s r h = bind_ok (report (index_fault j s)) h λ _ h₀ k₀.
      bind_ok (report (db.reference_fault s j)) k₀
        λ _ h₁ k₁. (report-eq-ok _ h₀, sym (ok-injective k₁))

  pub try_insert_journal-cases :
      (j : PreparedJournal) (s : JournalStore) (r : Option PostedJournal × JournalStore)
      → try_insert_journal db tx j s ≡ ok r
      → ((r.0 ≡ none) × (r.1 ≡ s)) ⊎ (IsInserted j s r.1 × (r.0 ≡ some (posted_of tx j)))
  unfolding try_insert_journal
  try_insert_journal-cases j s r h =
      bind_ok (report (reversal_source_fault tx j.reverses_journal_id s)) h λ _ h₀ k₀.
        bind_ok (report (effective_time_fault tx j)) k₀ λ _ h₁ k₁.
          bind_ok (report (db.row_fault s j)) k₁ λ _ h₂ k₂.
            elim (Option-eq-ok (find_first (has_event_key j.event_key) s.journals)
              (insert_row db tx j s) (λ _. ok (none, s)) k₂) [
                | inr (row, e, k) ↦ inl (
                  ap (λ (q : Option PostedJournal × JournalStore). q.0) (sym (ok-injective k)),
                  ap (λ (q : Option PostedJournal × JournalStore). q.1) (sym (ok-injective k)),
                )
                | inl (e, k) ↦
                    let (index, end) = insert_row-some j s r k in
                    inr (
                      record {
                        new_key = e;
                        new_index = index;
                        source_allowed = report-eq-ok _ h₀;
                        in_time = report-eq-ok _ h₁;
                        store = ap (λ (q : Option PostedJournal × JournalStore). q.1) end;
                      },
                      ap (λ (q : Option PostedJournal × JournalStore). q.0) end,
                    )
              ]

  -- The entries go in one after the other.
  insert_entries-appends :
      (id : Text) (es : List PreparedJournalEntry) (s : JournalStore)
      (r : List PostedJournalEntry × JournalStore)
      → insert_entries db tx id es s ≡ ok r
      → (r.0 ≡ map (posted_entry tx id) es)
        × (r.1 ≡ record s { ledger = s.ledger ++ map (posted_entry tx id) es })
  unfolding insert_entries
  insert_entries-appends id [] s r h =
      subst
        (λ (q : List PostedJournalEntry × JournalStore).
          (q.0 ≡ []) × (q.1 ≡ record s { ledger = s.ledger ++ [] }))
        (ok-injective h) (refl, ap (with_ledger s) (sym (append-nil s.ledger)))
  insert_entries-appends id (e ∷ es) s r h =
      bind_ok (report (ledger_entry_fault tx (posted_entry tx id e) s)) h λ _ h₀ k₀.
        bind_ok (report (db.entry_fault s (posted_entry tx id e))) k₀ λ _ h₁ k₁.
          bind_ok
            (insert_entries db tx id es
              (record s { ledger = s.ledger ++ posted_entry tx id e ∷ [] }))
            k₁
            λ q h₂ k₂.
              let rest = insert_entries-appends id es _ q h₂ in
              subst
                (λ (q : List PostedJournalEntry × JournalStore).
                  (q.0 ≡ map (posted_entry tx id) (e ∷ es))
                  × (q.1 ≡ record s { ledger = s.ledger ++ map (posted_entry tx id) (e ∷ es) }))
                (ok-injective k₂)
                (
                  ap (λ l. posted_entry tx id e ∷ l) rest.0,
                  rest.1
                      ∙ ap (with_ledger s) (
                          append_assoc s.ledger (posted_entry tx id e ∷ [])
                            (map (posted_entry tx id) es)),
                )

  -- A journal went in with all its entries, and the answer shows it.
  pub record IsAppended (j : PreparedJournal) (s s' : JournalStore) (answer : PostedJournal)
      : Type 0 where
    pub new_key : find_first (has_event_key j.event_key) s.journals ≡ none
    pub new_index : index_fault j s ≡ none
    pub source_allowed : reversal_source_fault tx j.reverses_journal_id s ≡ none
    pub in_time : effective_time_fault tx j ≡ none
    pub store : s' ≡ with_journal j s
    pub answered :
        answer
        ≡ with_sorted_entries
            (record (posted_of tx j) { entries = map (posted_entry tx j.id) j.entries })

  pub insert_and_answer-IsAppended :
      (runtime : JournalRuntime) (j : PreparedJournal) (s s₁ : JournalStore)
      (r : PostedJournal × JournalStore)
      → IsInserted j s s₁
      → insert_and_answer runtime db tx j (posted_of tx j) s₁ ≡ ok r
      → IsAppended j s r.1 r.0
  unfolding insert_and_answer
  insert_and_answer-IsAppended runtime j s s₁ r inserted h =
      bind_ok (normalized_error (insert_entries db tx j.id j.entries s₁)) h λ q h₀ k₀.
        let appended = insert_entries-appends j.id j.entries s₁ q (normalized_error-eq-ok _ h₀) in
        record {
          new_key = inserted.new_key;
          new_index = inserted.new_index;
          source_allowed = inserted.source_allowed;
          in_time = inserted.in_time;
          store =
              sym (ap (λ (x : PostedJournal × JournalStore). x.1) (ok-injective k₀))
              ∙ appended.1
              ∙ ap
                  (λ (t : JournalStore).
                    with_ledger t (t.ledger ++ map (posted_entry tx j.id) j.entries))
                  inserted.store;
          answered =
              sym (ap (λ (x : PostedJournal × JournalStore). x.0) (ok-injective k₀))
              ∙ ap (λ es. with_sorted_entries (record (posted_of tx j) { entries = es }))
                  appended.0;
        }
