-- ===== src/Journal/Reversal.antt =====
-- The inverse of a journal, and the test that a stored reversal is that inverse:
-- apps/api/internal/platformfinance/journal_reversal.go.
pub mod Multiset
pub mod Request
pub mod Netting
use lapangan_go.Base.{
  ◌≡◌, refl, sym, ap, Bool, true, false, ◌&&◌, List, [], ◌∷◌, Option, none, some, Text, text_eq,
  text_eq_refl, text_eq→eq, ℤ, pos, negsuc, eqb_ℤ, eqb_ℤ_refl, eqb_ℤ→eq, Eq, tally, all_zero, map,
  arith,
}
use lapangan_go.Journal.Types.{
  JournalSide, debit, credit, other, PostJournalEntry, PostedJournalEntry,
}

unfoldable pub invert_journal_side : JournalSide → JournalSide
invert_journal_side debit = credit
invert_journal_side _ = debit

-- The entry of a posted journal as it would be requested.
abbrev pub to_post_entry : PostedJournalEntry → PostJournalEntry
to_post_entry e = record {
  account_code = e.account_code;
  owner_profile_id = e.owner_profile_id;
  side = e.side;
  amount_rupiah = e.amount_rupiah;
}

unfoldable pub invert_entry : PostedJournalEntry → PostJournalEntry
invert_entry e = record {
  account_code = e.account_code;
  owner_profile_id = e.owner_profile_id;
  side = invert_journal_side e.side;
  amount_rupiah = e.amount_rupiah;
}

unfoldable pub invert_posted_journal_entries : List PostedJournalEntry → List PostJournalEntry
invert_posted_journal_entries = map invert_entry

-- The key of the map that counts entries.
pub record JournalEntryTuple : Type 0 where
  pub account_code : Text
  pub owner_profile_id : Text
  pub has_owner : Bool
  pub side : JournalSide
  pub amount_rupiah : ℤ

abbrev pub owner_text : Option Text → Text
owner_text none = []
owner_text (some o) = o

abbrev pub has_owner_of : Option Text → Bool
has_owner_of none = false
has_owner_of (some _) = true

unfoldable pub tuple_of : JournalSide → PostedJournalEntry → JournalEntryTuple
tuple_of side e = record {
  account_code = e.account_code;
  owner_profile_id = owner_text e.owner_profile_id;
  has_owner = has_owner_of e.owner_profile_id;
  side = side;
  amount_rupiah = e.amount_rupiah;
}

abbrev pub side_eq : JournalSide → JournalSide → Bool
side_eq debit debit = true
side_eq credit credit = true
side_eq (other s) (other t) = text_eq s t
side_eq _ _ = false

abbrev bool_eq : Bool → Bool → Bool
bool_eq true b = b
bool_eq false true = false
bool_eq false false = true

-- Go's `==` on the key.
unfoldable pub tuple_eq : JournalEntryTuple → JournalEntryTuple → Bool
tuple_eq s t =
    text_eq s.account_code t.account_code
    && text_eq s.owner_profile_id t.owner_profile_id
    && bool_eq s.has_owner t.has_owner
    && side_eq s.side t.side
    && eqb_ℤ s.amount_rupiah t.amount_rupiah

side_eq_refl : (s : JournalSide) → side_eq s s ≡ true
side_eq_refl debit = refl
side_eq_refl credit = refl
side_eq_refl (other t) = text_eq_refl t

side_eq→eq : (s t : JournalSide) → side_eq s t ≡ true → s ≡ t
side_eq→eq debit debit h = refl
side_eq→eq credit credit h = refl
side_eq→eq (other s) (other t) h = ap other (text_eq→eq s t h)
side_eq→eq debit credit h = cc
side_eq→eq debit (other t) h = cc
side_eq→eq credit debit h = cc
side_eq→eq credit (other t) h = cc
side_eq→eq (other s) debit h = cc
side_eq→eq (other s) credit h = cc

pub tuple_eq_refl : (t : JournalEntryTuple) → tuple_eq t t ≡ true
unfolding tuple_eq
tuple_eq_refl t = ground (
  arith,
  text_eq_refl t.account_code,
  text_eq_refl t.owner_profile_id,
  side_eq_refl t.side,
  eqb_ℤ_refl t.amount_rupiah,
)

pub tuple_eq→eq : (s t : JournalEntryTuple) → tuple_eq s t ≡ true → s ≡ t
unfolding tuple_eq
tuple_eq→eq s t h = ground (
  arith,
  text_eq→eq s.account_code t.account_code,
  text_eq→eq s.owner_profile_id t.owner_profile_id,
  side_eq→eq s.side t.side,
  eqb_ℤ→eq s.amount_rupiah t.amount_rupiah,
)

instance abbrev pub tuple_Eq : Eq JournalEntryTuple
tuple_Eq = record { beq = tuple_eq; beq_refl = tuple_eq_refl; eq_of_beq = tuple_eq→eq }

-- The first loop counts up the inverses of the source's entries.
unfoldable pub count_source :
    List PostedJournalEntry → List (JournalEntryTuple × ℤ) → List (JournalEntryTuple × ℤ)
count_source [] m = m
count_source (e ∷ es) m =
    count_source es (tally (tuple_of (invert_journal_side e.side) e) (pos 1) m)

-- The second counts down the entries of the reversal.
unfoldable pub count_reversal :
    List PostedJournalEntry → List (JournalEntryTuple × ℤ) → List (JournalEntryTuple × ℤ)
count_reversal [] m = m
count_reversal (e ∷ es) m = count_reversal es (tally (tuple_of e.side e) (negsuc 0) m)

unfoldable pub exact_reversal_entry_multiset_matches :
    List PostedJournalEntry → List PostedJournalEntry → Bool
exact_reversal_entry_multiset_matches source reversal =
    all_zero (count_reversal reversal (count_source source []))
