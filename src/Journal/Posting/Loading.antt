-- ===== src/Journal/Posting/Loading.antt =====
-- What journal_repository.go loads, and what the replay of journal_replay.go lets through, taken apart.
use lapangan_go.Base.{
  ◌≡◌, sym, ap, ◌∙◌, Bool, true, not, ◌||◌, List, none, some, ok, err, ok-injective, err-ne-ok,
  bind_ok, fail_if, fail_if-eq-ok, not-eq-false, Option-eq-ok, some-injective, none-ne-some, inl,
  inr, ◌>>=◌, ◌>>◌, ◌==◌, Text, text_eq, find_first,
}
use lapangan_go.Journal.Types.{
  PostedJournal, PostJournalParams, JournalAccountDefinition, Metadata, event_key_conflict,
  integrity, invalid_reference,
}
use lapangan_go.Journal.Validate.{
  validate_and_normalize_journal, validate_and_normalize_reversal_journal,
  validate_journal_account_dimensions,
}
use lapangan_go.Journal.Reversal.Request.{post_journal_params_from_posted_journal}
use lapangan_go.Journal.Reversal.{exact_reversal_entry_multiset_matches}
use lapangan_go.Journal.Posting.Hash.{
  JournalRuntime, hash_journal_payload_v1, hash_journal_payload_v1_with_reversal,
}
use lapangan_go.Journal.Posting.Store.{
  LoadedJournal, JournalRow, JournalStore, JournalTx, Database, report, has_id, has_event_key,
}
use lapangan_go.Journal.Posting.Repository.{
  entries_of, load_row, load_journal_optional, load_journal, get_journal_by_id_for_reversal,
  get_journal_by_event_key,
}
use lapangan_go.Journal.Posting.Replay.{
  replay_existing_journal, is_plain, has_own_entries, or_integrity, with_sorted_entries,
  replay_existing_reversal, is_reversal_of, is_stored_reason,
}

module _ (db : Database) (tx : JournalTx) where
  abbrev pub loaded_of : JournalStore → JournalRow → Metadata → LoadedJournal
  loaded_of s row metadata = record {
    journal = record (row.journal) {
      metadata = metadata;
      entries = entries_of db row.journal.id s;
    };
    reverses_journal_id = row.journal.reverses_journal_id;
    reversal_reason = row.journal.reversal_reason;
    created_in_current_tx = row.created_txid == tx.txid;
  }

  -- A journal that was read, with the row it stands in.
  pub record IsLoaded (query : JournalRow → Bool) (s : JournalStore) (l : LoadedJournal)
      : Type 0 where
    pub row : JournalRow
    pub metadata : Metadata
    pub found : find_first query s.journals ≡ some row
    pub read : db.read_metadata row.journal.metadata ≡ some metadata
    pub shown : l ≡ loaded_of s row metadata

  load_row-IsLoaded :
      (query : JournalRow → Bool) (s : JournalStore) (row : JournalRow) (l : LoadedJournal)
      → find_first query s.journals ≡ some row
      → load_row db tx s row ≡ ok l
      → IsLoaded query s l
  unfolding load_row
  load_row-IsLoaded query s row l found h =
      elim (Option-eq-ok (db.read_metadata row.journal.metadata) (err integrity)
        (λ m. report (db.ledger_fault s) >> ok (loaded_of s row m)) h) [
          | inl (_, k) ↦ absurd (err-ne-ok k)
          | inr (m, e, k) ↦ bind_ok (report (db.ledger_fault s)) k λ _ h₁ k₁. record {
            row = row;
            metadata = m;
            found = found;
            read = e;
            shown = sym (ok-injective k₁);
          }
        ]

  pub load_journal_optional-IsLoaded :
      (query : JournalRow → Bool) (s : JournalStore) (l : LoadedJournal)
      → load_journal_optional db tx query s ≡ ok (some l)
      → IsLoaded query s l
  unfolding load_journal_optional
  load_journal_optional-IsLoaded query s l h = bind_ok (report (db.journal_fault s)) h λ _ h₀ k₀.
      elim (Option-eq-ok (find_first query s.journals) (ok none)
        (λ row. load_row db tx s row >>= (λ loaded. ok (some loaded))) k₀) [
          | inl (_, k) ↦ absurd (none-ne-some (ok-injective k))
          | inr (row, e, k) ↦ bind_ok (load_row db tx s row) k λ loaded h₁ k₁.
              load_row-IsLoaded query s row l e (h₁ ∙ ap ok (some-injective (ok-injective k₁)))
        ]

  pub get_journal_by_id_for_reversal-IsLoaded :
      (id : Text) (s : JournalStore) (l : LoadedJournal)
      → get_journal_by_id_for_reversal db tx id s ≡ ok l
      → IsLoaded (has_id id) s l
  unfolding get_journal_by_id_for_reversal
  get_journal_by_id_for_reversal-IsLoaded id s l h =
      bind_ok (load_journal_optional db tx (has_id id) s) h λ found h₀ k₀.
        elim (Option-eq-ok found (err invalid_reference) (λ j. ok j) k₀) [
          | inl (_, k) ↦ absurd (err-ne-ok k)
          | inr (j, e, k) ↦
              load_journal_optional-IsLoaded (has_id id) s l
                (h₀ ∙ ap ok (e ∙ ap some (ok-injective k)))
        ]

module _ (runtime : JournalRuntime) where
  -- A replay that succeeds: the stored journal has the hash of the request, is intact and is
  -- answered with its entries in order.
  pub record IsReplay (existing : LoadedJournal) (hash : Text) (ds : List JournalAccountDefinition)
      (answer : PostedJournal) : Type 0 where
    pub same_hash : text_eq existing.journal.payload_hash hash ≡ true
    pub plain : is_plain existing ≡ true
    pub own : has_own_entries runtime existing.journal ≡ true
    pub answered : answer ≡ with_sorted_entries existing.journal

  pub replay_existing_journal-IsReplay :
      (existing : LoadedJournal) (requested : PostJournalParams) (hash : Text)
      (ds : List JournalAccountDefinition) (answer : PostedJournal)
      → replay_existing_journal runtime existing requested hash ds ≡ ok answer
      → IsReplay existing hash ds answer
  unfolding replay_existing_journal
  replay_existing_journal-IsReplay existing requested hash ds answer h =
      bind_ok (fail_if (not (text_eq existing.journal.payload_hash hash)) event_key_conflict) h
        λ _ h₀ k₀. bind_ok (fail_if (not (is_plain existing)) integrity) k₀ λ _ h₁ k₁.
          bind_ok (fail_if (not (has_own_entries runtime existing.journal)) integrity) k₁ λ _ h₂ k₂.
            bind_ok
              (or_integrity (
                validate_and_normalize_journal runtime.parse_uuid
                  (post_journal_params_from_posted_journal existing.journal)))
              k₂
              λ n h₃ k₃.
                bind_ok
                  (fail_if
                    (not (text_eq n.0.event_key requested.event_key)
                      || not (text_eq n.0.event_type requested.event_type))
                    integrity)
                  k₃
                  λ _ h₄ k₄.
                    bind_ok (or_integrity (validate_journal_account_dimensions n.0 ds)) k₄
                      λ _ h₅ k₅.
                        bind_ok (or_integrity (hash_journal_payload_v1 runtime n.0)) k₅
                          λ stored h₆ k₆.
                            bind_ok
                              (fail_if (not (text_eq stored existing.journal.payload_hash))
                                integrity)
                              k₆
                              λ _ h₇ k₇. record {
                                same_hash = not-eq-false (fail_if-eq-ok _ _ h₀);
                                plain = not-eq-false (fail_if-eq-ok _ _ h₁);
                                own = not-eq-false (fail_if-eq-ok _ _ h₂);
                                answered = sym (ok-injective k₇);
                              }

module _ (db : Database) (tx : JournalTx) where
  pub get_journal_by_event_key-IsLoaded :
      (key : Text) (s : JournalStore) (l : LoadedJournal)
      → get_journal_by_event_key db tx key s ≡ ok l
      → IsLoaded db tx (has_event_key key) s l
  unfolding get_journal_by_event_key load_journal
  get_journal_by_event_key-IsLoaded key s l h =
      bind_ok (load_journal_optional db tx (has_event_key key) s) h λ found h₀ k₀.
        elim (Option-eq-ok found (err integrity) (λ j. ok j) k₀) [
          | inl (_, k) ↦ absurd (err-ne-ok k)
          | inr (j, e, k) ↦
              load_journal_optional-IsLoaded db tx (has_event_key key) s l
                (h₀ ∙ ap ok (e ∙ ap some (ok-injective k)))
        ]

-- A replayed reversal is answered as it is stored.
pub replayed_reversal :
    (runtime : JournalRuntime) (existing source : LoadedJournal) (n : PostJournalParams)
    (hash : Text) (ds : List JournalAccountDefinition) (answer : PostedJournal)
    → replay_existing_reversal runtime existing source n hash ds ≡ ok answer
    → answer ≡ with_sorted_entries existing.journal
unfolding replay_existing_reversal
replayed_reversal runtime existing source n hash ds answer h =
    bind_ok (fail_if (not (text_eq existing.journal.payload_hash hash)) event_key_conflict) h
      λ _ h₀ k₀. bind_ok (fail_if (not (is_reversal_of existing source)) integrity) k₀ λ _ h₁ k₁.
        bind_ok (fail_if (not (is_stored_reason existing.journal.reversal_reason)) integrity) k₁
          λ _ h₂ k₂.
            bind_ok
              (or_integrity (
                validate_and_normalize_reversal_journal runtime.parse_uuid
                  (post_journal_params_from_posted_journal existing.journal)))
              k₂
              λ m h₃ k₃.
                bind_ok (or_integrity (validate_journal_account_dimensions m.0 ds)) k₃ λ _ h₄ k₄.
                  bind_ok
                    (or_integrity (
                      hash_journal_payload_v1_with_reversal runtime m.0 (some source.journal.id)
                        existing.journal.reversal_reason))
                    k₄
                    λ stored h₅ k₅.
                      bind_ok
                        (fail_if (not (text_eq stored existing.journal.payload_hash)) integrity) k₅
                        λ _ h₆ k₆.
                          bind_ok
                            (fail_if
                              (not (
                                exact_reversal_entry_multiset_matches source.journal.entries
                                  existing.journal.entries))
                              integrity)
                            k₆
                            λ _ h₇ k₇.
                              bind_ok
                                (fail_if
                                  (not (text_eq m.0.event_key n.event_key)
                                    || not (text_eq m.0.event_type n.event_type))
                                  integrity)
                                k₇ λ _ h₈ k₈. sym (ok-injective k₈)
