-- ===== src/Journal/Validate/Totals.antt =====
-- The totals that the loop of journal_service.go keeps, against sums over unbounded numbers.
use lapangan_go.Base.{
  ℕ, zero, suc, ◌+◌, ◌≤◌, ◌<◌, ◌≡◌, refl, sym, ap, subst, ◌∙◌, arith, true, List, [], ◌∷◌, Option,
  none, some, length, All, ok, err, ok-injective, Result-cases, >>=-eq-ok, Text, inl, inr,
  if◌then◌else◌, ℤ, pos, negsuc, pos_part, ◌+ℤ◌, ◌-ℤ◌, ltb_ℤ, IsInt64, max_int64, add64-eq,
  sub64-eq,
}
use lapangan_go.Journal.Types.{JournalSide, debit, credit, other, amount_overflow, PostJournalEntry}
use lapangan_go.Journal.Validate.{
  checked_journal_add, add_to_side, is_known_side, is_code_length, canonical_optional_uuid,
  normalize_entry, collect_entries,
}

-- What an entry adds to each side.
abbrev pub debit_of : JournalSide → ℤ → ℕ
debit_of debit a = pos_part a
debit_of _ a = 0

abbrev pub credit_of : JournalSide → ℤ → ℕ
credit_of debit a = 0
credit_of _ a = pos_part a

abbrev pub debit_total : List PostJournalEntry → ℕ
debit_total [] = 0
debit_total (e ∷ es) = debit_of e.side e.amount_rupiah + debit_total es

abbrev pub credit_total : List PostJournalEntry → ℕ
credit_total [] = 0
credit_total (e ∷ es) = credit_of e.side e.amount_rupiah + credit_total es

-- The amount of a Go entry is an int64.
abbrev pub HasInt64Amounts : List PostJournalEntry → Type 0
HasInt64Amounts = All (λ e. IsInt64 e.amount_rupiah)

-- The sum as the code checks it.
pub checked_journal_add-exact :
    (t n : ℕ)
    → t ≤ 9223372036854775807
    → n < 9223372036854775807
    → checked_journal_add (pos t) (pos (suc n)) ≡ (
        if ltb_ℤ (pos 9223372036854775807) (pos (t + suc n))
        then err amount_overflow
        else ok (pos (t + suc n)))
unfolding checked_journal_add ◌+ℤ◌ ◌-ℤ◌
checked_journal_add-exact t n ht hn =
    ground (arith, sub64-eq max_int64 (pos (suc n)), add64-eq (pos t) (pos (suc n)))

-- A step of the loop that succeeds.
pub record IsAdded (side : JournalSide) (amount : ℤ) (d c : ℕ) (r : ℤ × ℤ) : Type 0 where
  pub positive : 0 < pos_part amount
  pub debits : r.0 ≡ pos (d + debit_of side amount)
  pub credits : r.1 ≡ pos (c + credit_of side amount)
  pub debits_fit : d + debit_of side amount ≤ 9223372036854775807
  pub credits_fit : c + credit_of side amount ≤ 9223372036854775807

pub add_to_side-IsAdded :
    (side : JournalSide) (amount : ℤ) (d c : ℕ) (r : ℤ × ℤ)
    → IsInt64 amount
    → d ≤ 9223372036854775807
    → c ≤ 9223372036854775807
    → add_to_side side amount (pos d, pos c) ≡ ok r
    → IsAdded side amount d c r
unfolding add_to_side
add_to_side-IsAdded debit (pos (suc n)) d c r ha hd hc h =
    ground (arith, checked_journal_add-exact d n)
add_to_side-IsAdded credit (pos (suc n)) d c r ha hd hc h =
    ground (arith, checked_journal_add-exact c n)
add_to_side-IsAdded (other t) (pos (suc n)) d c r ha hd hc h =
    ground (arith, checked_journal_add-exact c n)
add_to_side-IsAdded debit (pos zero) d c r ha hd hc h = unfold checked_journal_add in cc
add_to_side-IsAdded credit (pos zero) d c r ha hd hc h = unfold checked_journal_add in cc
add_to_side-IsAdded (other t) (pos zero) d c r ha hd hc h = unfold checked_journal_add in cc
add_to_side-IsAdded debit (negsuc n) d c r ha hd hc h = unfold checked_journal_add in ground arith
add_to_side-IsAdded credit (negsuc n) d c r ha hd hc h = unfold checked_journal_add in ground arith
add_to_side-IsAdded (other t) (negsuc n) d c r ha hd hc h =
    unfold checked_journal_add in ground arith

module _ (parse_uuid : Text → Option Text) where
  -- What an entry that is let through has, and what it becomes.
  pub record IsNormalized (e e' : PostJournalEntry) : Type 0 where
    pub code_length : is_code_length e.account_code ≡ true
    pub side_known : is_known_side e.side ≡ true
    pub amount_positive : 0 < pos_part e.amount_rupiah
    pub owner_canonical :
        canonical_optional_uuid parse_uuid e.owner_profile_id ≡ ok e'.owner_profile_id
    pub same_code : e'.account_code ≡ e.account_code
    pub same_side : e'.side ≡ e.side
    pub same_amount : e'.amount_rupiah ≡ e.amount_rupiah

  pub normalize_entry-IsNormalized :
      (e e' : PostJournalEntry) → normalize_entry parse_uuid e ≡ ok e' → IsNormalized e e'
  unfolding normalize_entry
  normalize_entry-IsNormalized e e' h =
      elim (Result-cases (canonical_optional_uuid parse_uuid e.owner_profile_id)) [
        | inl (x, refused) ↦ ground arith
        | inr (owner, found) ↦ ground arith
      ]

  -- The canonical spelling of an owner: nobody stays nobody.
  abbrev pub IsCanonicalOwner : Option Text → Option Text → Type 0
  IsCanonicalOwner none none = Unit {0}
  IsCanonicalOwner (some s) (some c) = parse_uuid s ≡ some c
  IsCanonicalOwner _ _ = ⊥

  -- Two entries move the same amount, on the same side of the same account, for one owner.
  pub record IsSameMovement (e e' : PostJournalEntry) : Type 0 where
    pub code : e'.account_code ≡ e.account_code
    pub side : e'.side ≡ e.side
    pub amount : e'.amount_rupiah ≡ e.amount_rupiah
    pub owner : IsCanonicalOwner e.owner_profile_id e'.owner_profile_id

  -- Two lists of entries, one by one.
  abbrev pub AreSameMovements : List PostJournalEntry → List PostJournalEntry → Type 0
  AreSameMovements [] [] = Unit {0}
  AreSameMovements (e ∷ es) (e' ∷ es') = IsSameMovement e e' × AreSameMovements es es'
  AreSameMovements _ _ = ⊥

  canonical_optional_uuid-IsCanonicalOwner :
      (s c : Option Text) → canonical_optional_uuid parse_uuid s ≡ ok c → IsCanonicalOwner s c
  unfolding canonical_optional_uuid
  canonical_optional_uuid-IsCanonicalOwner none none h = tt
  canonical_optional_uuid-IsCanonicalOwner none (some c) h = ground arith
  canonical_optional_uuid-IsCanonicalOwner (some s) none h = ground arith
  canonical_optional_uuid-IsCanonicalOwner (some s) (some c) h = ground arith

  -- The entries and totals of a loop that ran through.
  pub record IsCollected (es : List PostJournalEntry) (d c : ℕ) (r : List PostJournalEntry × ℤ × ℤ)
      : Type 0 where
    pub debits : r.1 ≡ pos (d + debit_total es)
    pub credits : r.2 ≡ pos (c + credit_total es)
    pub debits_fit : d + debit_total es ≤ 9223372036854775807
    pub credits_fit : c + credit_total es ≤ 9223372036854775807
    pub same_debits : debit_total r.0 ≡ debit_total es
    pub same_credits : credit_total r.0 ≡ credit_total es
    pub same_length : length r.0 ≡ length es
    pub same_movements : AreSameMovements es r.0

  IsCollected-cons :
      (e e' : PostJournalEntry) (es : List PostJournalEntry) (d c : ℕ) (t : ℤ × ℤ)
      (q r : List PostJournalEntry × ℤ × ℤ)
      → IsAdded e.side e.amount_rupiah d c t
      → IsNormalized e e'
      → IsCollected es
          (d + debit_of e.side e.amount_rupiah)
          (c + credit_of e.side e.amount_rupiah)
          q
      → (e' ∷ q.0, q.1, q.2) ≡ r
      → IsCollected (e ∷ es) d c r
  IsCollected-cons e e' es d c t q r added same rest p =
      subst (IsCollected (e ∷ es) d c) p (record {
        debits = rest.debits ∙ ap pos (omega arith);
        credits = rest.credits ∙ ap pos (omega arith);
        debits_fit = omega (arith, rest.debits_fit);
        credits_fit = omega (arith, rest.credits_fit);
        same_debits = rw (same.same_side, same.same_amount, rest.same_debits);
        same_credits = rw (same.same_side, same.same_amount, rest.same_credits);
        same_length = ap suc rest.same_length;
        same_movements = (
          record {
            code = same.same_code;
            side = same.same_side;
            amount = same.same_amount;
            owner = canonical_optional_uuid-IsCanonicalOwner _ _ same.owner_canonical;
          },
          rest.same_movements,
        );
      })

  pub collect_entries-IsCollected :
      (es : List PostJournalEntry) (d c : ℕ) (r : List PostJournalEntry × ℤ × ℤ)
      → HasInt64Amounts es
      → d ≤ 9223372036854775807
      → c ≤ 9223372036854775807
      → collect_entries parse_uuid es (pos d, pos c) ≡ ok r
      → IsCollected es d c r
  unfolding collect_entries
  collect_entries-IsCollected [] d c r hs hd hc h =
      subst (IsCollected [] d c) (ok-injective h) (record {
        debits = ground arith;
        credits = ground arith;
        debits_fit = ground arith;
        credits_fit = ground arith;
        same_debits = refl;
        same_credits = refl;
        same_length = refl;
        same_movements = tt;
      })
  collect_entries-IsCollected (e ∷ es) d c r hs hd hc h =
      let (e', he, h₁) = >>=-eq-ok (normalize_entry parse_uuid e) _ h in
      let (t, ht, h₂) = >>=-eq-ok (add_to_side e.side e.amount_rupiah (pos d, pos c)) _ h₁ in
      let (q, hq, h₃) = >>=-eq-ok (collect_entries parse_uuid es t) _ h₂ in
      let added = add_to_side-IsAdded e.side e.amount_rupiah d c t hs.0 hd hc ht in
      let at : t ≡ (
        pos (d + debit_of e.side e.amount_rupiah),
        pos (c + credit_of e.side e.amount_rupiah),
      ) =
        λ i. (added.debits i, added.credits i) in
      IsCollected-cons e e' es d c t q r added (normalize_entry-IsNormalized e e' he)
        (collect_entries-IsCollected es (d + debit_of e.side e.amount_rupiah)
          (c + credit_of e.side e.amount_rupiah) q hs.1 added.debits_fit added.credits_fit
          (ap (collect_entries parse_uuid es) (sym at) ∙ hq))
        (ok-injective h₃)
