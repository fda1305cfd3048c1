-- ===== src/Journal/Posting/Books.antt =====
-- Sequences of PostJournal and ReverseJournal (journal_service.go and journal_reversal.go), each in a
-- transaction that commits.
use lapangan_go.Base.{
  ◌≡◌, refl, sym, ap, subst, ◌∙◌, Bool, List, [], ◌∷◌, All, Option, none, ok, bind_ok, ok-injective,
  Text, ℤ, pos, IsInt64, Permuted, All-Permuted, sort_by-Permuted, inl, inr, select_where,
  Bool-cases,
}
use lapangan_go.Journal.Types.{
  PostedJournal, PostedJournalEntry, PostJournalEntry, PostJournalParams, ReverseJournalParams,
  JournalAccountDefinition,
}
use lapangan_go.Journal.Validate.{
  normalize_entry, add_to_side, collect_entries, validate_and_normalize_journal_internal,
}
use lapangan_go.Journal.Validate.Totals.{HasInt64Amounts, normalize_entry-IsNormalized}
use lapangan_go.Journal.Validate.Normal.{
  validate_and_normalize_journal_internal-IsRun, validate_and_normalize_journal_internal-IsBalanced,
}
use lapangan_go.Journal.Reversal.{invert_entry, invert_posted_journal_entries}
use lapangan_go.Journal.Posting.Hash.{JournalRuntime}
use lapangan_go.Journal.Posting.Store.{LoadedJournal, JournalStore, JournalTx, Database}
use lapangan_go.Journal.Posting.Repository.{entries_of}
use lapangan_go.Journal.Posting.Replay.{sort_posted_journal_entries, posted_entry_less}
use lapangan_go.Journal.Posting.Service.{
  prepare_journal, post_journal, reverse_journal, reversal_params,
}
use lapangan_go.Journal.Posting.Outcome.{post_journal-IsPostRun}
use lapangan_go.Journal.Posting.Reversing.{IsSource, reverse_journal-IsReverseRun}
use lapangan_go.Journal.Posting.Loading.{
  get_journal_by_id_for_reversal-IsLoaded, replay_existing_journal-IsReplay,
}
use lapangan_go.Journal.Posting.Ledger.{IsLedger, IsPosting}
use lapangan_go.Journal.Posting.Preserved.{IsAppended-IsLedger}

-- A query gives the entries of a journal in some order.
pub record IsOrdering (db : Database) : Type 0 where
  pub ordered : (es : List PostedJournalEntry) → Permuted es (db.order_entries es)

pub collected_int64 :
    (parse_uuid : Text → Option Text) (es : List PostJournalEntry) (t : ℤ × ℤ)
    (r : List PostJournalEntry × ℤ × ℤ)
    → HasInt64Amounts es
    → collect_entries parse_uuid es t ≡ ok r
    → HasInt64Amounts r.0
unfolding collect_entries
collected_int64 parse_uuid [] t r hs h =
    subst (λ (q : List PostJournalEntry × ℤ × ℤ). HasInt64Amounts q.0) (ok-injective h) tt
collected_int64 parse_uuid (e ∷ es) t r hs h = bind_ok (normalize_entry parse_uuid e) h λ e' h₀ k₀.
    bind_ok (add_to_side e.side e.amount_rupiah t) k₀ λ t' h₁ k₁.
      bind_ok (collect_entries parse_uuid es t') k₁ λ q h₂ k₂.
        subst (λ (q : List PostJournalEntry × ℤ × ℤ). HasInt64Amounts q.0) (ok-injective k₂)
          (
            subst IsInt64 (sym (normalize_entry-IsNormalized parse_uuid e e' h₀).same_amount) hs.0,
            collected_int64 parse_uuid es t' q hs.1 h₂,
          )

-- What the service lets through is a posting.
pub valid-IsPosting :
    (runtime : JournalRuntime) (allow : Bool) (tx : JournalTx) (p : PostJournalParams)
    (n : PostJournalParams × List Text) (hash : Text) (reversed reason : Option Text)
    → HasInt64Amounts p.entries
    → validate_and_normalize_journal_internal runtime.parse_uuid allow p ≡ ok n
    → IsPosting (prepare_journal tx n.0 hash reversed reason) tx.new_uuid n.0.entries
unfolding prepare_journal
valid-IsPosting runtime allow tx p n hash reversed reason hs h =
    let balanced =
      validate_and_normalize_journal_internal-IsBalanced runtime.parse_uuid allow p n hs h in
    let run = validate_and_normalize_journal_internal-IsRun runtime.parse_uuid allow p n h in
    record {
      prepared = refl;
      two_entries = balanced.0.two_entries;
      sides_agree = balanced.0.sides_agree;
      int64 =
          collected_int64 runtime.parse_uuid p.entries (pos 0, pos 0)
            (n.0.entries, run.debits, run.credits) hs run.collected;
    }

invert_int64 :
    (es : List PostedJournalEntry)
    → All (λ e. IsInt64 e.amount_rupiah) es
    → HasInt64Amounts (invert_posted_journal_entries es)
unfolding invert_posted_journal_entries invert_entry
invert_int64 [] h = tt
invert_int64 (e ∷ es) h = (h.0, invert_int64 es h.1)

select_where-IsInt64 :
    (p : PostedJournalEntry → Bool) (es : List PostedJournalEntry)
    → All (λ e. IsInt64 e.amount_rupiah) es
    → All (λ e. IsInt64 e.amount_rupiah) (select_where p es)
select_where-IsInt64 p [] h = tt
select_where-IsInt64 p (e ∷ es) h = elim (Bool-cases (p e)) [
  | inl y ↦ rw y (h.0, select_where-IsInt64 p es h.1)
  | inr n ↦ rw n (select_where-IsInt64 p es h.1)
]

abbrev HasInt64Rows : List PostedJournalEntry → Type 0
HasInt64Rows = All (λ e. IsInt64 e.amount_rupiah)

sorted_int64 :
    (es : List PostedJournalEntry) → HasInt64Rows es → HasInt64Rows (sort_posted_journal_entries es)
unfolding sort_posted_journal_entries
sorted_int64 es h = All-Permuted _ (sort_by-Permuted posted_entry_less es) h

module _ (runtime : JournalRuntime) (db : Database) where
  pub data JournalStep : JournalStore → JournalStore → Type 0 where
    step_post :
        {s : JournalStore} (given : Option JournalTx) (p : PostJournalParams)
        (r : PostedJournal × JournalStore)
        → HasInt64Amounts p.entries
        → post_journal runtime db given p s ≡ ok r
        → JournalStep s r.1
    step_reverse :
        {s : JournalStore} (given : Option JournalTx) (p : ReverseJournalParams)
        (r : PostedJournal × JournalStore)
        → reverse_journal runtime db given p s ≡ ok r
        → JournalStep s r.1

  pub data JournalTrace (s : JournalStore) : JournalStore → Type 0 where
    start : JournalTrace s s
    more : {t u : JournalStore} → JournalTrace s t → JournalStep t u → JournalTrace s u

  module _ (ordering : IsOrdering db) where
    load_source-IsInt64 :
        (tx : JournalTx) (id : Text) (s : JournalStore)
        (q : LoadedJournal × List JournalAccountDefinition)
        → IsLedger s
        → IsSource runtime db tx id s q
        → All (λ (e : PostedJournalEntry). IsInt64 e.amount_rupiah) q.0.journal.entries
    load_source-IsInt64 tx id s q ledger source =
        let loaded =
          get_journal_by_id_for_reversal-IsLoaded db tx id s source.loaded source.found in
        let replay =
          replay_existing_journal-IsReplay runtime source.loaded _ _ q.1 source.replayed
            source.intact in
        let shown : source.loaded.journal.entries ≡ entries_of db loaded.row.journal.id s =
          ap (λ (l : LoadedJournal). l.journal.entries) loaded.shown in
        let sorted : q.0.journal.entries
            ≡ sort_posted_journal_entries source.loaded.journal.entries =
          ap (λ (l : LoadedJournal). l.journal.entries) source.source
          ∙ ap (λ (j : PostedJournal). j.entries) replay.answered in
        subst HasInt64Rows (sym (sorted ∙ ap sort_posted_journal_entries shown)) (
          sorted_int64 (entries_of db loaded.row.journal.id s)
            (All-Permuted _ (ordering.ordered _) (select_where-IsInt64 _ s.ledger ledger.int64)))

    pub JournalStep-IsLedger : {s t : JournalStore} → JournalStep s t → IsLedger s → IsLedger t
    JournalStep-IsLedger (step_post {s = s} given p r hs h) ledger =
        let run = post_journal-IsPostRun runtime db given p s r h in
        elim run.outcome [
          | inl a ↦
              IsAppended-IsLedger run.tx _ run.normalized.0.entries
                (valid-IsPosting runtime _ run.tx p run.normalized run.hash none none hs run.valid)
                db s r.1 r.0 ledger a
          | inr e ↦ subst IsLedger (sym e.same) ledger
        ]
    JournalStep-IsLedger (step_reverse {s = s} given p r h) ledger =
        let run = reverse_journal-IsReverseRun runtime db given p s r h in
        elim run.outcome [
          | inl a ↦
              IsAppended-IsLedger run.tx _ run.normalized.0.entries
                (valid-IsPosting runtime _ run.tx (reversal_params run.request run.source.0.journal)
                  run.normalized run.hash _ _
                  (invert_int64 run.source.0.journal.entries
                    (load_source-IsInt64 run.tx _ s run.source ledger run.source_of))
                  run.valid)
                db s r.1 r.0 ledger a
          | inr e ↦ subst IsLedger (sym e.same) ledger
        ]

    -- After any sequence of postings and reversals from a store in order, no identity, event key or
    -- source of a reversal is taken twice, every journal has two entries at least, its debits and
    -- credits agree, and so do those of the whole ledger.
    pub JournalTrace-IsLedger : {s t : JournalStore} → IsLedger s → JournalTrace s t → IsLedger t
    JournalTrace-IsLedger h start = h
    JournalTrace-IsLedger h (more trace step) =
        JournalStep-IsLedger step (JournalTrace-IsLedger h trace)
