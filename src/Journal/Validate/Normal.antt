-- ===== src/Journal/Validate/Normal.antt =====
-- What validateAndNormalizeJournalInternal of journal_service.go lets through: balanced journals,
-- and all that are well formed; a second run changes nothing.
use lapangan_go.Base.{
  ℕ, ◌+◌, ◌≤◌, ◌≡◌, refl, sym, subst, ◌∙◌, arith, Bool, true, not, List, Option, length, ok,
  ok-injective, bind_ok, fail_if-eq-ok, not-eq-false, fail_if, Text, ℤ, pos, eqb_ℤ,
}
use lapangan_go.Journal.Types.{unbalanced, PostJournalParams}
use lapangan_go.Journal.Validate.{
  canonical_optional_uuid, collect_entries, validate_header,
  validate_and_normalize_journal_internal, account_codes, truncate_us,
}
use lapangan_go.Journal.Validate.Totals.{
  debit_total, credit_total, HasInt64Amounts, AreSameMovements, collect_entries-IsCollected,
}

-- A journal whose sides agree, over unbounded sums.
pub record IsBalanced (p : PostJournalParams) : Type 0 where
  pub two_entries : 2 ≤ length p.entries
  pub sides_agree : debit_total p.entries ≡ credit_total p.entries
  pub fits : debit_total p.entries ≤ 9223372036854775807

pub eqb_ℤ-pos : (a b : ℤ) {m n : ℕ} → a ≡ pos (0 + m) → b ≡ pos (0 + n) → eqb_ℤ a b ≡ true → m ≡ n
eqb_ℤ-pos a b p q h = ground arith

header-two_entries :
    (allow : Bool) (p : PostJournalParams) → validate_header allow p ≡ ok tt → 2 ≤ length p.entries
unfolding validate_header
header-two_entries allow p h = ground arith

module _ (parse_uuid : Text → Option Text) where
  -- The parts of a run that ended well.
  pub record IsRun (allow : Bool) (p n : PostJournalParams) (codes : List Text) : Type 0 where
    pub header : validate_header allow p ≡ ok tt
    pub booking : canonical_optional_uuid parse_uuid p.booking_id ≡ ok n.booking_id
    pub owner : canonical_optional_uuid parse_uuid p.owner_profile_id ≡ ok n.owner_profile_id
    pub venue : canonical_optional_uuid parse_uuid p.venue_id ≡ ok n.venue_id
    pub creator : canonical_optional_uuid parse_uuid p.created_by_user_id ≡ ok n.created_by_user_id
    pub debits : ℤ
    pub credits : ℤ
    pub collected :
        collect_entries parse_uuid p.entries (pos 0, pos 0) ≡ ok (n.entries, debits, credits)
    pub agree : eqb_ℤ debits credits ≡ true
    pub result : n ≡ record p {
      booking_id = n.booking_id;
      owner_profile_id = n.owner_profile_id;
      venue_id = n.venue_id;
      effective_at = truncate_us p.effective_at;
      created_by_user_id = n.created_by_user_id;
      entries = n.entries;
    }
    pub codes_of : codes ≡ account_codes n.entries

  pub validate_and_normalize_journal_internal-IsRun :
      (allow : Bool) (p : PostJournalParams) (r : PostJournalParams × List Text)
      → validate_and_normalize_journal_internal parse_uuid allow p ≡ ok r
      → IsRun allow p r.0 r.1
  unfolding validate_and_normalize_journal_internal
  validate_and_normalize_journal_internal-IsRun allow p r h =
      bind_ok (validate_header allow p) h λ _ h₀ k₀.
        bind_ok (canonical_optional_uuid parse_uuid p.booking_id) k₀ λ b h₁ k₁.
          bind_ok (canonical_optional_uuid parse_uuid p.owner_profile_id) k₁ λ o h₂ k₂.
            bind_ok (canonical_optional_uuid parse_uuid p.venue_id) k₂ λ v h₃ k₃.
              bind_ok (canonical_optional_uuid parse_uuid p.created_by_user_id) k₃ λ u h₄ k₄.
                bind_ok (collect_entries parse_uuid p.entries (pos 0, pos 0)) k₄ λ q h₅ k₅.
                  bind_ok (fail_if (not (eqb_ℤ q.1 q.2)) unbalanced) k₅ λ _ h₆ k₆.
                    subst (λ (s : PostJournalParams × List Text). IsRun allow p s.0 s.1)
                      (ok-injective k₆)
                      (record {
                        header = h₀;
                        booking = h₁;
                        owner = h₂;
                        venue = h₃;
                        creator = h₄;
                        debits = q.1;
                        credits = q.2;
                        collected = h₅;
                        agree = not-eq-false (fail_if-eq-ok _ _ h₆);
                        result = refl;
                        codes_of = refl;
                      })

  -- What the service lets through is balanced over unbounded sums that fit in 64 bits, has two
  -- entries at least, and moves what was asked for: entry by entry the same amount on the same
  -- side of the same account, for the owner that was named, in canonical spelling; so the total of
  -- each side is the one that was asked for.
  pub validate_and_normalize_journal_internal-IsBalanced :
      (allow : Bool) (p : PostJournalParams) (r : PostJournalParams × List Text)
      → HasInt64Amounts p.entries
      → validate_and_normalize_journal_internal parse_uuid allow p ≡ ok r
      → IsBalanced r.0
        × AreSameMovements parse_uuid p.entries r.0.entries
        × (debit_total r.0.entries ≡ debit_total p.entries)
        × (credit_total r.0.entries ≡ credit_total p.entries)
  validate_and_normalize_journal_internal-IsBalanced allow p r hs h =
      balanced (validate_and_normalize_journal_internal-IsRun allow p r h)
    where
      balanced :
          IsRun allow p r.0 r.1
          → IsBalanced r.0
            × AreSameMovements parse_uuid p.entries r.0.entries
            × (debit_total r.0.entries ≡ debit_total p.entries)
            × (credit_total r.0.entries ≡ credit_total p.entries)
      balanced run =
          let totals =
            collect_entries-IsCollected parse_uuid p.entries 0 0
              (r.0.entries, run.debits, run.credits) hs (omega arith) (omega arith) run.collected in
          let agree = eqb_ℤ-pos run.debits run.credits totals.debits totals.credits run.agree in
          (
            record {
              two_entries = rw totals.same_length (header-two_entries allow p run.header);
              sides_agree = totals.same_debits ∙ agree ∙ sym totals.same_credits;
              fits = omega (arith, totals.same_debits, totals.debits_fit);
            },
            totals.same_movements,
            totals.same_debits,
            totals.same_credits,
          )
