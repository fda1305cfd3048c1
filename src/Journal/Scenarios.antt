-- ===== src/Journal/Scenarios.antt =====
-- Runs of the journal's validation and of its reversal.
use lapangan_go.Base.{
  ◌≡◌, refl, ◌↔◌, arith, Bool, false, Option, none, some, [], ◌∷◌, List, ok, err, pos, negsuc, text,
  Text, if◌then◌else◌, Bool-cases, inl, inr, subst, sym, ap, ◌∙◌, map, text_eq, some-injective,
  none-ne-some,
}
use lapangan_go.Base
use lapangan_go.Payments.Identity.{is_canonical_uuid}
use lapangan_go.Journal.Types.{
  PostJournalEntry, PostJournalParams, PostedJournalEntry, ReverseJournalParams, debit, credit,
}
use lapangan_go.Journal.Patterns
use lapangan_go.Journal.Validate.{validate_and_normalize_journal_internal}
use lapangan_go.Journal.Validate
use lapangan_go.Journal.Validate.Totals.{
  AreSameMovements, HasInt64Amounts, debit_total, credit_total,
}
use lapangan_go.Journal.Validate.Normal.{
  IsBalanced, validate_and_normalize_journal_internal-IsBalanced,
}
use lapangan_go.Journal.Validate.Complete.{
  IsPostable, validate_and_normalize_journal_internal-ok_iff,
}
use lapangan_go.Journal.Validate.Stable.{
  IsCanonicaliser, validate_and_normalize_journal_internal-stable,
}
use lapangan_go.Journal.Reversal.{invert_posted_journal_entries, to_post_entry}
use lapangan_go.Journal.Reversal.Request.{
  normalize_reverse_journal_params, normalize_reverse_journal_params-stable,
}
use lapangan_go.Journal.Reversal.Netting.{select, invert_posted_journal_entries-nets}

abbrev pub parse : Text → Option Text
parse s = if is_canonical_uuid s then some s else none

abbrev pub cash : PostJournalEntry
cash = record {
  account_code = text "1000";
  owner_profile_id = none;
  side = debit;
  amount_rupiah = pos 5000;
}

abbrev pub fee : PostJournalEntry
fee = record cash { account_code = text "4000"; side = credit }

abbrev pub posting : PostJournalParams
posting = record {
  event_key = text "commission.earned:1";
  event_type = text "COMMISSION_EARNED";
  booking_id = none;
  owner_profile_id = none;
  venue_id = none;
  effective_at = 1000500;
  created_by_user_id = none;
  description = none;
  metadata = [];
  entries = cash ∷ fee ∷ [];
}

abbrev pub posted : PostJournalParams × List Text
posted = (record posting { effective_at = 1000000 }, text "1000" ∷ text "4000" ∷ [])

posting_run : validate_and_normalize_journal_internal parse false posting ≡ ok posted
unfolding validate_and_normalize_journal_internal Validate.validate_header
    Patterns.matches_event_key Base.has_prefix Patterns.matches_event_type
    Patterns.validate_journal_metadata Validate.canonical_optional_uuid Validate.collect_entries
    Validate.normalize_entry Validate.add_to_side Validate.checked_journal_add Base.sub64
    Base.wrap64 Base.◌-ℤ◌ Base.add64 Base.◌+ℤ◌ Validate.account_codes Base.text_eq Base.text_lt
    Validate.insert_code
posting_run = refl

-- The parser that stands for uuid.Parse here keeps the texts that are canonical already.
pub parse-IsCanonicaliser : IsCanonicaliser parse
parse-IsCanonicaliser = record { stable = stable }
  where
    stable : (s c : Text) → parse s ≡ some c → parse c ≡ some c
    stable s c h = elim (Bool-cases (is_canonical_uuid s)) [
      | inl e ↦ subst (λ t. parse t ≡ some c) (some-injective (sym (rw e refl) ∙ h)) h
      | inr e ↦ absurd (none-ne-some (sym (rw e refl) ∙ h))
    ]

amounts : HasInt64Amounts posting.entries
amounts = ((omega arith, omega arith), ((omega arith, omega arith), tt))

validate_and_normalize_journal_internal-IsBalanced_example :
    IsBalanced posted.0
    × AreSameMovements parse posting.entries posted.0.entries
    × (debit_total posted.0.entries ≡ debit_total posting.entries)
    × (credit_total posted.0.entries ≡ credit_total posting.entries)
validate_and_normalize_journal_internal-IsBalanced_example =
    validate_and_normalize_journal_internal-IsBalanced parse false posting posted amounts
      posting_run

validate_and_normalize_journal_internal-ok_iff_example :
    ((r : PostJournalParams × List Text) × (validate_and_normalize_journal_internal parse false
          posting
        ≡ ok r))
    ↔ IsPostable parse false posting
validate_and_normalize_journal_internal-ok_iff_example =
    validate_and_normalize_journal_internal-ok_iff parse false posting amounts

validate_and_normalize_journal_internal-stable_example :
    validate_and_normalize_journal_internal parse false posted.0 ≡ ok posted
validate_and_normalize_journal_internal-stable_example =
    validate_and_normalize_journal_internal-stable parse parse-IsCanonicaliser false posting posted
      (omega arith) amounts posting_run

abbrev posted_cash : PostedJournalEntry
posted_cash = record {
  id = text "e1";
  journal_id = text "j1";
  account_code = text "1000";
  owner_profile_id = none;
  side = debit;
  amount_rupiah = pos 5000;
  created_at = 7;
}

abbrev posted_fee : PostedJournalEntry
posted_fee = record posted_cash { account_code = text "4000"; side = credit }

-- The stored reversal lists the same accounts the other way about.
abbrev reversal : List PostedJournalEntry
reversal = record posted_fee { side = debit } ∷ record posted_cash { side = credit } ∷ []

invert_posted_journal_entries-nets_example :
    (debit_total (
        select
          (λ a o. text_eq a (text "1000"))
          (invert_posted_journal_entries (posted_cash ∷ posted_fee ∷ [])))
      ≡ credit_total (
          select
            (λ a o. text_eq a (text "1000"))
            (map to_post_entry (posted_cash ∷ posted_fee ∷ []))))
    × (credit_total (
          select
            (λ a o. text_eq a (text "1000"))
            (invert_posted_journal_entries (posted_cash ∷ posted_fee ∷ [])))
        ≡ debit_total (
            select
              (λ a o. text_eq a (text "1000"))
              (map to_post_entry (posted_cash ∷ posted_fee ∷ []))))
invert_posted_journal_entries-nets_example =
    invert_posted_journal_entries-nets (λ a o. text_eq a (text "1000"))
      (posted_cash ∷ posted_fee ∷ [])

abbrev request : ReverseJournalParams
request = record {
  journal_id = text "0b6d5f2e-1c3a-4d5e-8f90-a1b2c3d4e5f6";
  reason = text "double entry";
  effective_at = 1000500;
  created_by_user_id = none;
  metadata = [];
}

abbrev normal_request : ReverseJournalParams
normal_request = record request { effective_at = 1000000 }

request_run : normalize_reverse_journal_params parse request ≡ ok normal_request
unfolding normalize_reverse_journal_params is_canonical_uuid Base.text_eq Base.trim_space
    Base.trim_left Base.trim_right Patterns.validate_journal_metadata
    Validate.canonical_optional_uuid
request_run = refl

normalize_reverse_journal_params-stable_example :
    normalize_reverse_journal_params parse normal_request ≡ ok normal_request
normalize_reverse_journal_params-stable_example =
    normalize_reverse_journal_params-stable parse parse-IsCanonicaliser request normal_request
      (omega arith) request_run
