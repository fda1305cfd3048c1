-- ===== src/Journal/Validate/Stable.antt =====
-- A journal that validateAndNormalizeJournalInternal of journal_service.go has normalised passes
-- it again and stays as it is: what a replay of a stored journal rests on.
use lapangan_go.Base.{
  truncate_us, ◌≤◌, ◌≡◌, refl, ap, subst, arith, Bool, false, List, [], ◌∷◌, Option, none, some,
  length, ok, ok-injective, bind_ok, Text, ◌==◌, ℤ, pos, Option-cases, inl, inr,
}
use lapangan_go.Journal.Types.{PostJournalEntry, PostJournalParams}
use lapangan_go.Journal.Validate.{
  add_to_side, canonical_optional_uuid, normalize_entry, collect_entries, validate_header,
  validate_and_normalize_journal_internal,
}
use lapangan_go.Journal.Validate.Totals.{
  normalize_entry-IsNormalized, HasInt64Amounts, collect_entries-IsCollected,
}
use lapangan_go.Journal.Validate.Normal.{IsRun, validate_and_normalize_journal_internal-IsRun}

-- What uuid.Parse and String promise: the canonical form is its own.
pub record IsCanonicaliser (parse_uuid : Text → Option Text) : Type 0 where
  pub stable : (s c : Text) → parse_uuid s ≡ some c → parse_uuid c ≡ some c

module _ (parse_uuid : Text → Option Text) (canonical : IsCanonicaliser parse_uuid) where
  pub reference_stable :
      (o c : Option Text)
      → canonical_optional_uuid parse_uuid o ≡ ok c
      → canonical_optional_uuid parse_uuid c ≡ ok c
  unfolding canonical_optional_uuid
  reference_stable none none h = refl
  reference_stable none (some c) h = cc
  reference_stable (some s) none h = elim (Option-cases (parse_uuid s)) [
    | inl e ↦ ground arith
    | inr (c, e) ↦ ground arith
  ]
  reference_stable (some s) (some c) h = elim (Option-cases (parse_uuid s)) [
    | inl e ↦ ground arith
    | inr (d, e) ↦ ground (arith, canonical.stable s d e)
  ]

  pub entry_stable :
      (e e' : PostJournalEntry)
      → normalize_entry parse_uuid e ≡ ok e'
      → normalize_entry parse_uuid e' ≡ ok e'
  unfolding normalize_entry
  entry_stable e e' h =
      let n = normalize_entry-IsNormalized parse_uuid e e' h in
      let o = reference_stable e.owner_profile_id e'.owner_profile_id n.owner_canonical in
      rw (o, n.same_code, n.same_side, n.same_amount)
        (ground (
          arith, n.code_length, n.side_known, n.amount_positive, n.same_code, n.same_side,
          n.same_amount,
        ))

  entries_stable :
      (es : List PostJournalEntry) (t : ℤ × ℤ) (r : List PostJournalEntry × ℤ × ℤ)
      → collect_entries parse_uuid es t ≡ ok r
      → collect_entries parse_uuid r.0 t ≡ ok r
  unfolding collect_entries
  entries_stable [] t r h =
      subst (λ (s : List PostJournalEntry × ℤ × ℤ). collect_entries parse_uuid s.0 t ≡ ok s)
        (ok-injective h) refl
  entries_stable (e ∷ es) t r h = bind_ok (normalize_entry parse_uuid e) h λ e' h₀ k₀.
      bind_ok (add_to_side e.side e.amount_rupiah t) k₀ λ t' h₁ k₁.
        bind_ok (collect_entries parse_uuid es t') k₁ λ q h₂ k₂.
          let n = normalize_entry-IsNormalized parse_uuid e e' h₀ in
          subst (λ (s : List PostJournalEntry × ℤ × ℤ). collect_entries parse_uuid s.0 t ≡ ok s)
            (ok-injective k₂)
            (rw (entry_stable e e' h₀, n.same_side, n.same_amount, h₁, entries_stable es t' q h₂))

  header_stable :
      (allow : Bool) (p n : PostJournalParams)
      → n.event_key ≡ p.event_key
      → n.event_type ≡ p.event_type
      → n.metadata ≡ p.metadata
      → (n.effective_at == 0) ≡ false
      → (p.effective_at == 0) ≡ false
      → length n.entries ≡ length p.entries
      → validate_header allow p ≡ ok tt
      → validate_header allow n ≡ ok tt
  unfolding validate_header
  header_stable allow p n k t m at at' l h = rw (k, t, m, at, l) (rw at' at h)

  stable_run :
      (allow : Bool) (p n : PostJournalParams) (codes : List Text)
      → 1000 ≤ p.effective_at
      → HasInt64Amounts p.entries
      → IsRun parse_uuid allow p n codes
      → validate_and_normalize_journal_internal parse_uuid allow n ≡ ok (n, codes)
  stable_run allow p n codes late hs run =
      let totals =
        collect_entries-IsCollected parse_uuid p.entries 0 0 (n.entries, run.debits, run.credits) hs
          (omega arith) (omega arith) run.collected in
      let at : n.effective_at ≡ truncate_us p.effective_at =
        ap (λ (q : PostJournalParams). q.effective_at) run.result in
      let header =
        header_stable allow p n (ap (λ (q : PostJournalParams). q.event_key) run.result)
          (ap (λ (q : PostJournalParams). q.event_type) run.result)
          (ap (λ (q : PostJournalParams). q.metadata) run.result) (rw at (ground arith))
          (ground arith) totals.same_length run.header in
      let same : truncate_us n.effective_at ≡ n.effective_at = omega arith in
      unfold validate_and_normalize_journal_internal in
      rw (
        header,
        reference_stable p.booking_id n.booking_id run.booking,
        reference_stable p.owner_profile_id n.owner_profile_id run.owner,
        reference_stable p.venue_id n.venue_id run.venue,
        reference_stable p.created_by_user_id n.created_by_user_id run.creator,
        entries_stable p.entries (pos 0, pos 0) (n.entries, run.debits, run.credits) run.collected,
        run.agree,
        same,
        ← run.codes_of,
      )

  -- For an instant of a microsecond or more after the zero time, a journal that was let through is
  -- let through again, with itself as its normal form and with the same account codes.
  pub validate_and_normalize_journal_internal-stable :
      (allow : Bool) (p : PostJournalParams) (r : PostJournalParams × List Text)
      → 1000 ≤ p.effective_at
      → HasInt64Amounts p.entries
      → validate_and_normalize_journal_internal parse_uuid allow p ≡ ok r
      → validate_and_normalize_journal_internal parse_uuid allow r.0 ≡ ok r
  validate_and_normalize_journal_internal-stable allow p r late hs h =
      stable_run allow p r.0 r.1 late hs
        (validate_and_normalize_journal_internal-IsRun parse_uuid allow p r h)
