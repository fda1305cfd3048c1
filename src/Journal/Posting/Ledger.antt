-- ===== src/Journal/Posting/Ledger.antt =====
-- The journals of the store: PostJournal and ReverseJournal (journal_service.go and
-- journal_reversal.go) as steps, and what holds after any number of them.
use lapangan_go.Base.{
  ℕ, suc, ◌+◌, ◌≤◌, ◌≡◌, refl, ap, arith, true, false, List, [], ◌∷◌, ◌++◌, map, length, All, none,
  some, is_some, Text, text_eq, text_eq_refl, text_eq→eq, find_first, select_where, Pairwise,
  IsInt64, inl, inr, Option-cases, Bool-cases,
}
use lapangan_go.Journal.Types.{PostedJournalEntry, PostJournalEntry}
use lapangan_go.Journal.Validate.Totals.{debit_total, credit_total, HasInt64Amounts}
use lapangan_go.Journal.Reversal.{to_post_entry}
use lapangan_go.Journal.Posting.Store.{
  PreparedJournal, PreparedJournalEntry, JournalRow, JournalStore, JournalTx, has_id, reverses,
  index_fault,
}
use lapangan_go.Journal.Posting.Repository.{posted_entry}
use lapangan_go.Journal.Posting.Service.{prepare_entries}

-- The entries of a row.
abbrev pub ledger_of : Text → List PostedJournalEntry → List PostedJournalEntry
ledger_of id = select_where (λ e. text_eq e.journal_id id)

-- At least two entries, whose debits and credits agree.
abbrev pub IsBalancedLedger : List PostedJournalEntry → Type 0
IsBalancedLedger es =
    (2 ≤ length es) × (debit_total (map to_post_entry es) ≡ credit_total (map to_post_entry es))

abbrev pub HasOtherId : JournalRow → JournalRow → Type 0
HasOtherId r t = text_eq r.journal.id t.journal.id ≡ false

abbrev pub HasOtherKey : JournalRow → JournalRow → Type 0
HasOtherKey r t = text_eq r.journal.event_key t.journal.event_key ≡ false

-- Two journals do not reverse the same one.
abbrev pub HasOtherSource : JournalRow → JournalRow → Type 0
HasOtherSource r t =
    (source : Text) → t.journal.reverses_journal_id ≡ some source → reverses source r ≡ false

-- The store of the journals: identities, event keys and sources of reversals are never taken twice,
-- and the entries of every journal balance.
pub record IsLedger (s : JournalStore) : Type 0 where
  pub ids : Pairwise HasOtherId s.journals
  pub keys : Pairwise HasOtherKey s.journals
  pub sources : Pairwise HasOtherSource s.journals
  pub balanced : All (λ row. IsBalancedLedger (ledger_of row.journal.id s.ledger)) s.journals
  pub owned : All (λ e. is_some (find_first (has_id e.journal_id) s.journals) ≡ true) s.ledger
  pub int64 : All (λ e. IsInt64 e.amount_rupiah) s.ledger
  pub trial_balance :
      debit_total (map to_post_entry s.ledger) ≡ credit_total (map to_post_entry s.ledger)

-- What was asked to be posted.
pub record IsPosting (j : PreparedJournal) (new_uuid : ℕ → Text) (es : List PostJournalEntry)
    : Type 0 where
  pub prepared : j.entries ≡ prepare_entries new_uuid 1 es
  pub two_entries : 2 ≤ length es
  pub sides_agree : debit_total es ≡ credit_total es
  pub int64 : HasInt64Amounts es

pub append-debits :
    (xs ys : List PostedJournalEntry)
    → debit_total (map to_post_entry (xs ++ ys))
      ≡ debit_total (map to_post_entry xs) + debit_total (map to_post_entry ys)
append-debits [] ys = omega arith
append-debits (x ∷ xs) ys = omega (arith, append-debits xs ys)

pub append-credits :
    (xs ys : List PostedJournalEntry)
    → credit_total (map to_post_entry (xs ++ ys))
      ≡ credit_total (map to_post_entry xs) + credit_total (map to_post_entry ys)
append-credits [] ys = omega arith
append-credits (x ∷ xs) ys = omega (arith, append-credits xs ys)

-- The entries as they were requested.
pub posted_back :
    (tx : JournalTx) (id : Text) (new_uuid : ℕ → Text) (n : ℕ) (es : List PostJournalEntry)
    → map to_post_entry (map (posted_entry tx id) (prepare_entries new_uuid n es)) ≡ es
unfolding prepare_entries
posted_back tx id new_uuid n [] = refl
posted_back tx id new_uuid n (e ∷ es) = ap (λ l. e ∷ l) (posted_back tx id new_uuid (suc n) es)

pub posted_length :
    (tx : JournalTx) (id : Text) (new_uuid : ℕ → Text) (n : ℕ) (es : List PostJournalEntry)
    → length (map (posted_entry tx id) (prepare_entries new_uuid n es)) ≡ length es
unfolding prepare_entries
posted_length tx id new_uuid n [] = refl
posted_length tx id new_uuid n (e ∷ es) = ap suc (posted_length tx id new_uuid (suc n) es)

pub posted_entry-IsInt64 :
    (tx : JournalTx) (id : Text) (new_uuid : ℕ → Text) (n : ℕ) (es : List PostJournalEntry)
    → HasInt64Amounts es
    → All
        (λ (e : PostedJournalEntry). IsInt64 e.amount_rupiah)
        (map (posted_entry tx id) (prepare_entries new_uuid n es))
unfolding prepare_entries
posted_entry-IsInt64 tx id new_uuid n [] h = tt
posted_entry-IsInt64 tx id new_uuid n (e ∷ es) h =
    (h.0, posted_entry-IsInt64 tx id new_uuid (suc n) es h.1)

pub posted_id :
    (P : Text → Type 0) (tx : JournalTx) (id : Text) (es : List PreparedJournalEntry)
    → P id
    → All (λ (e : PostedJournalEntry). P e.journal_id) (map (posted_entry tx id) es)
posted_id P tx id [] h = tt
posted_id P tx id (e ∷ es) h = (h, posted_id P tx id es h)

-- What the unique indexes let through.
pub index_fault-id :
    (j : PreparedJournal) (s : JournalStore)
    → index_fault j s ≡ none
    → find_first (has_id j.id) s.journals ≡ none
unfolding index_fault
index_fault-id j s h = elim (Option-cases (find_first (has_id j.id) s.journals)) [
  | inl e ↦ e
  | inr (row, e) ↦ absurd (clash row e)
]
  where
    clash : (row : JournalRow) → find_first (has_id j.id) s.journals ≡ some row → ⊥
    clash row e = ground (arith, h, e)

pub index_fault-source :
    (j : PreparedJournal) (s : JournalStore) (source : Text)
    → index_fault j s ≡ none
    → j.reverses_journal_id ≡ some source
    → find_first (reverses source) s.journals ≡ none
unfolding index_fault
index_fault-source j s source h is = elim (Option-cases (find_first (reverses source) s.journals)) [
  | inl e ↦ e
  | inr (row, e) ↦ absurd (clash row e)
]
  where
    clash : (row : JournalRow) → find_first (reverses source) s.journals ≡ some row → ⊥
    clash row e = ground (arith, h, e, is)

pub owned_append :
    (id : Text) (rows : List JournalRow) (row : JournalRow)
    → is_some (find_first (has_id id) rows) ≡ true
    → is_some (find_first (has_id id) (rows ++ row ∷ [])) ≡ true
owned_append id [] row h = cc
owned_append id (r ∷ rows) row h = ground (arith, owned_append id rows row)

pub owned_last :
    (rows : List JournalRow) (row : JournalRow)
    → is_some (find_first (has_id row.journal.id) (rows ++ row ∷ [])) ≡ true
owned_last [] row = ground (arith, text_eq_refl row.journal.id)
owned_last (r ∷ rows) row = ground (arith, owned_last rows row)

-- An entry of a journal of the store is not one of a journal that is new.
pub not_owned :
    (id : Text) (s : JournalStore) (e : PostedJournalEntry)
    → find_first (has_id id) s.journals ≡ none
    → is_some (find_first (has_id e.journal_id) s.journals) ≡ true
    → text_eq e.journal_id id ≡ false
not_owned id s e h k = elim (Bool-cases (text_eq e.journal_id id)) [
  | inl same ↦ absurd (clash (text_eq→eq e.journal_id id same))
  | inr other ↦ other
]
  where
    clash : e.journal_id ≡ id → ⊥
    clash same = ground (arith, h, k)
