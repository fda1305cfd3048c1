-- ===== src/Journal/Reversal/Netting.antt =====
-- A journal and its inverse (journal_reversal.go) leave every account where it was.
use lapangan_go.Base.{
  ◌≡◌, refl, Bool, true, List, [], ◌∷◌, Option, Text, map, if◌then◌else◌, Bool-cases, inl, inr, ℤ,
}
use lapangan_go.Journal.Types.{
  JournalSide, debit, credit, other, PostJournalEntry, PostedJournalEntry,
}
use lapangan_go.Journal.Validate.{is_known_side}
use lapangan_go.Journal.Validate.Totals.{debit_of, credit_of, debit_total, credit_total}
use lapangan_go.Journal.Reversal.{
  invert_journal_side, invert_entry, invert_posted_journal_entries, to_post_entry,
}

-- The entries on the accounts and owners that `on` picks.
abbrev pub select : (Text → Option Text → Bool) → List PostJournalEntry → List PostJournalEntry
select on [] = []
select on (e ∷ es) = if on e.account_code e.owner_profile_id then e ∷ select on es else select on es

debit_of-invert :
    (side : JournalSide) (a : ℤ) → debit_of (invert_journal_side side) a ≡ credit_of side a
unfolding invert_journal_side
debit_of-invert debit a = refl
debit_of-invert credit a = refl
debit_of-invert (other t) a = refl

credit_of-invert :
    (side : JournalSide) (a : ℤ) → credit_of (invert_journal_side side) a ≡ debit_of side a
unfolding invert_journal_side
credit_of-invert debit a = refl
credit_of-invert credit a = refl
credit_of-invert (other t) a = refl

-- On any choice of accounts and owners the inverse debits what the journal credits, and credits
-- what it debits, so that the two together change no balance.
pub invert_posted_journal_entries-nets :
    (on : Text → Option Text → Bool) (es : List PostedJournalEntry)
    → (debit_total (select on (invert_posted_journal_entries es))
        ≡ credit_total (select on (map to_post_entry es)))
      × (credit_total (select on (invert_posted_journal_entries es))
          ≡ debit_total (select on (map to_post_entry es)))
unfolding invert_posted_journal_entries invert_entry
invert_posted_journal_entries-nets on [] = (refl, refl)
invert_posted_journal_entries-nets on (e ∷ es) =
    let rest = invert_posted_journal_entries-nets on es in
    elim (Bool-cases (on e.account_code e.owner_profile_id)) [
      | inl picked ↦ (rw (picked, debit_of-invert, rest.0), rw (picked, credit_of-invert, rest.1))
      | inr passed ↦ (rw (passed, rest.0), rw (passed, rest.1))
    ]

-- The inverse of the inverse.
invert_journal_side-invert :
    (side : JournalSide)
    → is_known_side side ≡ true
    → invert_journal_side (invert_journal_side side) ≡ side
unfolding invert_journal_side
invert_journal_side-invert debit h = refl
invert_journal_side-invert credit h = refl
invert_journal_side-invert (other t) h = cc
