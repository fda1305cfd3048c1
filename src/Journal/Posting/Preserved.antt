-- ===== src/Journal/Posting/Preserved.antt =====
-- A journal that goes in (journal_service.go and journal_reversal.go) keeps the store in order.
use lapangan_go.Base.{
  ◌≤◌, ◌≡◌, sym, ap, ap₂, subst, ◌∙◌, arith, true, false, List, [], ◌∷◌, ◌++◌, map, length, All,
  Option, none, some, is_some, Text, text_eq, text_eq_refl, text_eq→eq, find_first, find_first-none,
  select_where-append, select_where-nothing, select_where-everything, All-append, All-map,
  Pairwise-append, Bool-cases, inl, inr, append-nil, IsInt64,
}
use lapangan_go.Journal.Types.{PostedJournal, PostedJournalEntry, PostJournalEntry}
use lapangan_go.Journal.Validate.Totals.{debit_total, credit_total}
use lapangan_go.Journal.Reversal.{to_post_entry}
use lapangan_go.Journal.Posting.Store.{
  PreparedJournal, JournalRow, JournalStore, JournalTx, Database, has_id, has_event_key, reverses,
}
use lapangan_go.Journal.Posting.Repository.{posted_of, posted_entry}
use lapangan_go.Journal.Posting.Appended.{IsAppended}
use lapangan_go.Journal.Posting.Ledger.{
  IsLedger, IsPosting, IsBalancedLedger, HasOtherId, HasOtherKey, HasOtherSource, ledger_of,
  append-debits, append-credits, posted_back, posted_length, posted_entry-IsInt64, posted_id,
  index_fault-id, index_fault-source, owned_append, owned_last, not_owned,
}

text_eq-false_sym : (s t : Text) → text_eq s t ≡ false → text_eq t s ≡ false
text_eq-false_sym s t h = elim (Bool-cases (text_eq t s)) [
  | inl e ↦ absurd (clash (text_eq→eq t s e))
  | inr e ↦ e
]
  where
    clash : t ≡ s → ⊥
    clash e = ground (arith, h, text_eq_refl s)

-- One fact of each row for every source, from one fact of all rows.
other_sources :
    (rows : List JournalRow) (o : Option Text)
    → ((source : Text) → o ≡ some source → All (λ row. reverses source row ≡ false) rows)
    → All (λ row. (source : Text) → o ≡ some source → reverses source row ≡ false) rows
other_sources [] o h = tt
other_sources (row ∷ rows) o h =
    ((λ source e. (h source e).0), other_sources rows o (λ source e. (h source e).1))

module _ (tx : JournalTx) (j : PreparedJournal) (es : List PostJournalEntry)
    (posting : IsPosting j tx.new_uuid es) where
  abbrev pub new_entries : List PostedJournalEntry
  new_entries = map (posted_entry tx j.id) j.entries

  pub new_back : map to_post_entry new_entries ≡ es
  new_back =
      ap (λ l. map to_post_entry (map (posted_entry tx j.id) l)) posting.prepared
      ∙ posted_back tx j.id tx.new_uuid 1 es

  new_length : length new_entries ≡ length es
  new_length =
      ap (λ l. length (map (posted_entry tx j.id) l)) posting.prepared
      ∙ posted_length tx j.id tx.new_uuid 1 es

  old_balanced :
      (rows : List JournalRow) (ledger : List PostedJournalEntry)
      → All (λ row. has_id j.id row ≡ false) rows
      → All (λ row. IsBalancedLedger (ledger_of row.journal.id ledger)) rows
      → All (λ row. IsBalancedLedger (ledger_of row.journal.id (ledger ++ new_entries))) rows
  old_balanced [] ledger h k = tt
  old_balanced (row ∷ rows) ledger h k = (
    subst IsBalancedLedger
        (sym (
          select_where-append _ ledger new_entries
          ∙ ap (λ l. ledger_of row.journal.id ledger ++ l)
              (select_where-nothing _ new_entries (
                posted_id (λ id. text_eq id row.journal.id ≡ false) tx j.id j.entries
                  (text_eq-false_sym row.journal.id j.id h.0)))
          ∙ append-nil (ledger_of row.journal.id ledger)))
        k.0,
    old_balanced rows ledger h.1 k.1,
  )

  pub new_ledger :
      (s : JournalStore)
      → IsLedger s
      → find_first (has_id j.id) s.journals ≡ none
      → ledger_of j.id (s.ledger ++ new_entries) ≡ new_entries
  new_ledger s h free =
      select_where-append _ s.ledger new_entries
      ∙ ap₂ (λ (k l : List PostedJournalEntry). k ++ l)
          (select_where-nothing _ s.ledger (
            All-map (λ e. is_some (find_first (has_id e.journal_id) s.journals) ≡ true)
              (λ e. text_eq e.journal_id j.id ≡ false) s.ledger (λ e k. not_owned j.id s e free k)
              h.owned))
          (select_where-everything _ new_entries
            (posted_id (λ id. text_eq id j.id ≡ true) tx j.id j.entries (text_eq_refl j.id)))

  new_balanced : IsBalancedLedger new_entries
  new_balanced = (
    subst (λ n. 2 ≤ n) (sym new_length) posting.two_entries,
    ap debit_total new_back ∙ posting.sides_agree ∙ ap credit_total (sym new_back),
  )

  module _ (db : Database) where
    abbrev new_row : JournalRow
    new_row = record { journal = posted_of tx j; created_txid = tx.txid }

    -- A journal that goes in keeps the store in order.
    pub IsAppended-IsLedger :
        (s s' : JournalStore) (answer : PostedJournal)
        → IsLedger s
        → IsAppended db tx j s s' answer
        → IsLedger s'
    IsAppended-IsLedger s s' answer h a =
        let free = index_fault-id j s a.new_index in
        let others = find_first-none (has_id j.id) s.journals free in
        subst IsLedger (sym a.store) (record {
          ids = Pairwise-append HasOtherId s.journals new_row h.ids others;
          keys =
              Pairwise-append HasOtherKey s.journals new_row h.keys
                (find_first-none (has_event_key j.event_key) s.journals a.new_key);
          sources = Pairwise-append HasOtherSource s.journals new_row h.sources (
              other_sources s.journals j.reverses_journal_id (λ source e.
                find_first-none (reverses source) s.journals
                  (index_fault-source j s source a.new_index e)));
          balanced =
              All-append _ s.journals (new_row ∷ [])
                (old_balanced s.journals s.ledger others h.balanced)
                (subst IsBalancedLedger (sym (new_ledger s h free)) new_balanced, tt);
          owned =
              All-append _ s.ledger new_entries
                (All-map (λ e. is_some (find_first (has_id e.journal_id) s.journals) ≡ true)
                  (λ e.
                    is_some (find_first (has_id e.journal_id) (s.journals ++ new_row ∷ [])) ≡ true)
                  s.ledger (λ e k. owned_append e.journal_id s.journals new_row k) h.owned)
                (posted_id
                  (λ id. is_some (find_first (has_id id) (s.journals ++ new_row ∷ [])) ≡ true) tx
                  j.id j.entries (owned_last s.journals new_row));
          int64 = All-append _ s.ledger new_entries h.int64 (
              subst
                (λ l.
                  All (λ (e : PostedJournalEntry). IsInt64 e.amount_rupiah)
                    (map (posted_entry tx j.id) l))
                (sym posting.prepared)
                (posted_entry-IsInt64 tx j.id tx.new_uuid 1 es posting.int64));
          trial_balance = omega (
            arith,
            append-debits s.ledger new_entries,
            append-credits s.ledger new_entries,
            h.trial_balance,
            new_balanced.1,
          );
        })
