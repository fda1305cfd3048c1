-- ===== src/Journal/Reversal/Multiset.antt =====
-- exactReversalEntryMultisetMatches of journal_reversal.go compares multisets.
use lapangan_go.Base.{ℕ, suc, List, [], ◌∷◌, map, if◌then◌else◌}
use lapangan_go.Journal.Types.{PostedJournalEntry}
use lapangan_go.Journal.Reversal.{
  invert_journal_side, JournalEntryTuple, tuple_of, tuple_eq, tuple_Eq,
}

-- How often a key is in a list.
abbrev pub count : JournalEntryTuple → List JournalEntryTuple → ℕ
count k [] = 0
count k (x ∷ xs) = if tuple_eq x k then suc (count k xs) else count k xs

abbrev pub inverse_keys : List PostedJournalEntry → List JournalEntryTuple
inverse_keys = map (λ e. tuple_of (invert_journal_side e.side) e)

abbrev pub keys : List PostedJournalEntry → List JournalEntryTuple
keys = map (λ e. tuple_of e.side e)
