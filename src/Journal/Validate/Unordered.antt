-- ===== src/Journal/Validate/Unordered.antt =====
-- The order of the entries does not matter to validateAndNormalizeJournalInternal and to
-- validateJournalAccountDimensions of journal_service.go.
use lapangan_go.Base.{
  ℕ, ◌+◌, ◌≤◌, ◌≡◌, refl, sym, ap, ap₂, subst, ◌∙◌, arith, Bool, List, [], ◌∷◌, length, All, Option,
  none, some, ok, err, Result, ok-injective, bind_ok, >>-eq-ok, Text, ℤ, pos, truncate_us, Permuted,
  All-Permuted, perm_nil, perm_cons, perm_swap, perm_trans, ◌>>◌,
}
use lapangan_go.Journal.Types.{
  PostJournalEntry, PostJournalParams, JournalAccountDefinition, JournalError, unknown_account,
}
use lapangan_go.Journal.Validate.{
  add_to_side, normalize_entry, collect_entries, validate_header, account_codes,
  validate_and_normalize_journal_internal, find_definition, check_dimension, validate_dimensions,
}
use lapangan_go.Journal.Validate.Totals.{
  debit_of, credit_of, debit_total, credit_total, HasInt64Amounts, normalize_entry-IsNormalized,
}
use lapangan_go.Journal.Validate.Normal.{
  validate_and_normalize_journal_internal-IsRun, validate_and_normalize_journal_internal-IsBalanced,
}
use lapangan_go.Journal.Validate.Complete.{add_to_side-fits, eqb_ℤ-self}
use lapangan_go.Journal.Validate.Stable.{
  IsCanonicaliser, entry_stable, validate_and_normalize_journal_internal-stable,
}

debit_total-Permuted :
    {xs ys : List PostJournalEntry} → Permuted xs ys → debit_total xs ≡ debit_total ys
debit_total-Permuted perm_nil = refl
debit_total-Permuted (perm_cons p) = omega (arith, debit_total-Permuted p)
debit_total-Permuted (perm_swap p) = omega (arith, debit_total-Permuted p)
debit_total-Permuted (perm_trans p q) = debit_total-Permuted p ∙ debit_total-Permuted q

credit_total-Permuted :
    {xs ys : List PostJournalEntry} → Permuted xs ys → credit_total xs ≡ credit_total ys
credit_total-Permuted perm_nil = refl
credit_total-Permuted (perm_cons p) = omega (arith, credit_total-Permuted p)
credit_total-Permuted (perm_swap p) = omega (arith, credit_total-Permuted p)
credit_total-Permuted (perm_trans p q) = credit_total-Permuted p ∙ credit_total-Permuted q

length-Permuted : {xs ys : List PostJournalEntry} → Permuted xs ys → length xs ≡ length ys
length-Permuted perm_nil = refl
length-Permuted (perm_cons p) = omega (arith, length-Permuted p)
length-Permuted (perm_swap p) = omega (arith, length-Permuted p)
length-Permuted (perm_trans p q) = length-Permuted p ∙ length-Permuted q

module _ (parse_uuid : Text → Option Text) where
  -- An entry in its normal form.
  abbrev pub IsNormal : PostJournalEntry → Type 0
  IsNormal e = normalize_entry parse_uuid e ≡ ok e

  pub collected-IsNormal :
      (canonical : IsCanonicaliser parse_uuid) (es : List PostJournalEntry) (t : ℤ × ℤ)
      (r : List PostJournalEntry × ℤ × ℤ)
      → collect_entries parse_uuid es t ≡ ok r
      → All IsNormal r.0
  unfolding collect_entries
  collected-IsNormal canonical [] t r h =
      subst (λ (q : List PostJournalEntry × ℤ × ℤ). All IsNormal q.0) (ok-injective h) tt
  collected-IsNormal canonical (e ∷ es) t r h = bind_ok (normalize_entry parse_uuid e) h λ e' h₀ k₀.
      bind_ok (add_to_side e.side e.amount_rupiah t) k₀ λ t' h₁ k₁.
        bind_ok (collect_entries parse_uuid es t') k₁ λ q h₂ k₂.
          subst (λ (q : List PostJournalEntry × ℤ × ℤ). All IsNormal q.0) (ok-injective k₂)
            (entry_stable parse_uuid canonical e e' h₀, collected-IsNormal canonical es t' q h₂)

  collect_entries-IsNormal :
      (es : List PostJournalEntry) (d c : ℕ)
      → All IsNormal es
      → d + debit_total es ≤ 9223372036854775807
      → c + credit_total es ≤ 9223372036854775807
      → collect_entries parse_uuid es (pos d, pos c)
        ≡ ok (es, pos (d + debit_total es), pos (c + credit_total es))
  unfolding collect_entries
  collect_entries-IsNormal [] d c gs hd hc = ground arith
  collect_entries-IsNormal (e ∷ es) d c gs hd hc =
      rw
        (
          gs.0,
          add_to_side-fits e.side e.amount_rupiah d c
              (normalize_entry-IsNormalized parse_uuid e e gs.0).amount_positive (omega arith)
              (omega arith),
          collect_entries-IsNormal es (d + debit_of e.side e.amount_rupiah)
              (c + credit_of e.side e.amount_rupiah) gs.1 (omega arith) (omega arith),
        )
        (ap₂ (λ (m n : ℕ). ok (e ∷ es, pos m, pos n)) (omega arith) (omega arith))

  header_unordered :
      (allow : Bool) (n : PostJournalParams) (es : List PostJournalEntry)
      → length es ≡ length n.entries
      → validate_header allow n ≡ ok tt
      → validate_header allow (record n { entries = es }) ≡ ok tt
  unfolding validate_header
  header_unordered allow n es e h = rw e h

  -- A normal form with its entries in another order is a normal form, with the same accounts up to
  -- their listing.
  pub validate_and_normalize_journal_internal-unordered :
      (canonical : IsCanonicaliser parse_uuid) (allow : Bool) (p n : PostJournalParams)
      (codes : List Text) (es : List PostJournalEntry)
      → 1000 ≤ p.effective_at
      → HasInt64Amounts p.entries
      → HasInt64Amounts n.entries
      → validate_and_normalize_journal_internal parse_uuid allow p ≡ ok (n, codes)
      → Permuted n.entries es
      → validate_and_normalize_journal_internal parse_uuid allow (record n { entries = es })
        ≡ ok (record n { entries = es }, account_codes es)
  validate_and_normalize_journal_internal-unordered canonical allow p n codes es late hs ns h
        permuted =
      let stable =
        validate_and_normalize_journal_internal-stable parse_uuid canonical allow p (n, codes) late
          hs h in
      let first = validate_and_normalize_journal_internal-IsRun parse_uuid allow p (n, codes) h in
      let run =
        validate_and_normalize_journal_internal-IsRun parse_uuid allow n (n, codes) stable in
      let balanced =
        (validate_and_normalize_journal_internal-IsBalanced parse_uuid allow n (n, codes) ns
          stable).0 in
      let debits = debit_total-Permuted permuted in
      let credits = credit_total-Permuted permuted in
      let normal =
        All-Permuted IsNormal permuted
          (collected-IsNormal canonical p.entries _ _ first.collected) in
      let at : n.effective_at ≡ truncate_us n.effective_at =
        ap (λ (q : PostJournalParams). q.effective_at) run.result in
      let agree =
        eqb_ℤ-self (debit_total es) (credit_total es)
          (sym debits ∙ balanced.sides_agree ∙ credits) in
      unfold validate_and_normalize_journal_internal in
      rw
        (
          header_unordered allow n es (sym (length-Permuted permuted)) run.header,
          run.booking,
          run.owner,
          run.venue,
          run.creator,
          collect_entries-IsNormal es 0 0 normal (omega (arith, debits, balanced.fits))
              (omega (arith, debits, credits, balanced.sides_agree, balanced.fits)),
          agree,
          ← at,
        )
        refl

-- The rule of the account about one entry.
abbrev account_rule :
    Option Text → List JournalAccountDefinition → PostJournalEntry → Result JournalError (Unit {0})
account_rule owner definitions e = elim (find_definition e.account_code definitions) [
  | none ↦ err unknown_account
  | some definition ↦ check_dimension owner e definition
]

ruled :
    (owner : Option Text) (es : List PostJournalEntry) (definitions : List JournalAccountDefinition)
    → validate_dimensions owner es definitions ≡ ok tt
    → All (λ e. account_rule owner definitions e ≡ ok tt) es
unfolding validate_dimensions
ruled owner [] definitions h = tt
ruled owner (e ∷ es) definitions h =
    let parts =
      >>-eq-ok (account_rule owner definitions e) (validate_dimensions owner es definitions) h in
    (parts.0, ruled owner es definitions parts.1)

ruling :
    (owner : Option Text) (es : List PostJournalEntry) (definitions : List JournalAccountDefinition)
    → All (λ e. account_rule owner definitions e ≡ ok tt) es
    → validate_dimensions owner es definitions ≡ ok tt
unfolding validate_dimensions
ruling owner [] definitions h = refl
ruling owner (e ∷ es) definitions h =
    ap (λ (r : Result JournalError (Unit {0})). r >> validate_dimensions owner es definitions) h.0
    ∙ ruling owner es definitions h.1

pub validate_dimensions-unordered :
    (owner : Option Text) (xs ys : List PostJournalEntry)
    (definitions : List JournalAccountDefinition)
    → Permuted xs ys
    → validate_dimensions owner xs definitions ≡ ok tt
    → validate_dimensions owner ys definitions ≡ ok tt
validate_dimensions-unordered owner xs ys definitions p h =
    ruling owner ys definitions (All-Permuted _ p (ruled owner xs definitions h))
