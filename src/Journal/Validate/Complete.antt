-- ===== src/Journal/Validate/Complete.antt =====
-- Which journals validateAndNormalizeJournalInternal of journal_service.go lets through.
use lapangan_go.Base.{
  ℕ, zero, suc, ◌+◌, ◌≤◌, ◌<◌, ◌≡◌, ◌↔◌, ap₂, arith, Bool, true, List, [], ◌∷◌, Option, All, ok,
  bind_ok, Text, ℤ, pos, negsuc, pos_part, eqb_ℤ,
}
use lapangan_go.Journal.Types.{
  JournalSide, debit, credit, other, PostJournalEntry, PostJournalParams,
}
use lapangan_go.Journal.Validate.{
  add_to_side, is_known_side, is_code_length, canonical_optional_uuid, normalize_entry,
  collect_entries, validate_header, validate_and_normalize_journal_internal, account_codes,
  truncate_us,
}
use lapangan_go.Journal.Validate.Totals.{
  debit_of, credit_of, debit_total, credit_total, HasInt64Amounts, checked_journal_add-exact,
  IsNormalized, normalize_entry-IsNormalized, collect_entries-IsCollected,
}
use lapangan_go.Journal.Validate.Normal.{validate_and_normalize_journal_internal-IsRun, eqb_ℤ-pos}

pub add_to_side-fits :
    (side : JournalSide) (a : ℤ) (d c : ℕ)
    → 0 < pos_part a
    → d + debit_of side a ≤ 9223372036854775807
    → c + credit_of side a ≤ 9223372036854775807
    → add_to_side side a (pos d, pos c) ≡ ok (pos (d + debit_of side a), pos (c + credit_of side a))
unfolding add_to_side
add_to_side-fits debit (pos (suc n)) d c ha hd hc = ground (arith, checked_journal_add-exact d n)
add_to_side-fits credit (pos (suc n)) d c ha hd hc = ground (arith, checked_journal_add-exact c n)
add_to_side-fits (other t) (pos (suc n)) d c ha hd hc =
    ground (arith, checked_journal_add-exact c n)
add_to_side-fits side (pos zero) d c ha hd hc = absurd (omega arith)
add_to_side-fits side (negsuc n) d c ha hd hc = absurd (omega arith)

pub eqb_ℤ-self : (m n : ℕ) → m ≡ n → eqb_ℤ (pos (0 + m)) (pos (0 + n)) ≡ true
eqb_ℤ-self m n h = ground arith

module _ (parse_uuid : Text → Option Text) where
  -- A reference that is absent or has a canonical form.
  abbrev pub IsReference : Option Text → Type 0
  IsReference o = (c : Option Text) × (canonical_optional_uuid parse_uuid o ≡ ok c)

  pub record IsGoodEntry (e : PostJournalEntry) : Type 0 where
    pub code_length : is_code_length e.account_code ≡ true
    pub side_known : is_known_side e.side ≡ true
    pub amount_positive : 0 < pos_part e.amount_rupiah
    pub owner : IsReference e.owner_profile_id

  normalize_entry-good :
      (e : PostJournalEntry) (g : IsGoodEntry e)
      → normalize_entry parse_uuid e ≡ ok (record e { owner_profile_id = g.owner.0 })
  unfolding normalize_entry
  normalize_entry-good e g = ground (arith, g.owner.1)

  collect_entries-good :
      (es : List PostJournalEntry) (d c : ℕ)
      → All IsGoodEntry es
      → d + debit_total es ≤ 9223372036854775807
      → c + credit_total es ≤ 9223372036854775807
      → (ns : List PostJournalEntry) × (collect_entries parse_uuid es (pos d, pos c)
          ≡ ok (ns, pos (d + debit_total es), pos (c + credit_total es)))
  unfolding collect_entries
  collect_entries-good [] d c gs hd hc = ([], ground arith)
  collect_entries-good (e ∷ es) d c gs hd hc =
      let d' = d + debit_of e.side e.amount_rupiah in
      let c' = c + credit_of e.side e.amount_rupiah in
      let (ns, rest) = collect_entries-good es d' c' gs.1 (omega arith) (omega arith) in
      (
        record e { owner_profile_id = gs.0.owner.0 } ∷ ns,
        rw
            (
              normalize_entry-good e gs.0,
              add_to_side-fits e.side e.amount_rupiah d c gs.0.amount_positive (omega arith)
                  (omega arith),
              rest,
            )
            (ap₂ (λ (m n : ℕ). ok (record e { owner_profile_id = gs.0.owner.0 } ∷ ns, pos m, pos n))
              (omega arith) (omega arith)),
      )

  collected-good :
      (es : List PostJournalEntry) (t : ℤ × ℤ) (r : List PostJournalEntry × ℤ × ℤ)
      → collect_entries parse_uuid es t ≡ ok r
      → All IsGoodEntry es
  unfolding collect_entries
  collected-good [] t r h = tt
  collected-good (e ∷ es) t r h = bind_ok (normalize_entry parse_uuid e) h λ e' h₀ k₀.
      bind_ok (add_to_side e.side e.amount_rupiah t) k₀ λ t' h₁ k₁.
        bind_ok (collect_entries parse_uuid es t') k₁ λ q h₂ k₂.
          (good (normalize_entry-IsNormalized parse_uuid e e' h₀), collected-good es t' q h₂)
    where
      good : {e' : PostJournalEntry} → IsNormalized parse_uuid e e' → IsGoodEntry e
      good {e'} n = record {
        code_length = n.code_length;
        side_known = n.side_known;
        amount_positive = n.amount_positive;
        owner = (e'.owner_profile_id, n.owner_canonical);
      }

  -- The journals that can be posted, over unbounded sums.
  pub record IsPostable (allow : Bool) (p : PostJournalParams) : Type 0 where
    pub header : validate_header allow p ≡ ok tt
    pub booking : IsReference p.booking_id
    pub owner : IsReference p.owner_profile_id
    pub venue : IsReference p.venue_id
    pub creator : IsReference p.created_by_user_id
    pub entries_good : All IsGoodEntry p.entries
    pub sides_agree : debit_total p.entries ≡ credit_total p.entries
    pub fits : debit_total p.entries ≤ 9223372036854775807

  postable_run :
      (allow : Bool) (p : PostJournalParams)
      → IsPostable allow p
      → (r : PostJournalParams × List Text) × (validate_and_normalize_journal_internal parse_uuid
            allow p
          ≡ ok r)
  postable_run allow p g =
      let (ns, collected) =
        collect_entries-good p.entries 0 0 g.entries_good (omega (arith, g.fits))
          (omega (arith, g.fits, g.sides_agree)) in
      let agree = eqb_ℤ-self (debit_total p.entries) (credit_total p.entries) g.sides_agree in
      (
        (
          record p {
            booking_id = g.booking.0;
            owner_profile_id = g.owner.0;
            venue_id = g.venue.0;
            effective_at = truncate_us p.effective_at;
            created_by_user_id = g.creator.0;
            entries = ns;
          },
          account_codes ns,
        ),
        unfold validate_and_normalize_journal_internal in
            rw (g.header, g.booking.1, g.owner.1, g.venue.1, g.creator.1, collected, agree),
      )

  -- The service lets a journal through exactly when its header is in order, its references have a
  -- canonical form, each entry has an account code of 1 to 80 bytes, a known side, a positive
  -- amount and such an owner, and the debits and credits, summed without bound, agree and fit in
  -- 64 bits.
  pub validate_and_normalize_journal_internal-ok_iff :
      (allow : Bool) (p : PostJournalParams)
      → HasInt64Amounts p.entries
      → ((r : PostJournalParams × List Text) × (validate_and_normalize_journal_internal parse_uuid
              allow p
            ≡ ok r))
        ↔ IsPostable allow p
  validate_and_normalize_journal_internal-ok_iff allow p hs = (sound, complete)
    where
      sound :
          (r : PostJournalParams × List Text) × (validate_and_normalize_journal_internal parse_uuid
                allow p
              ≡ ok r)
          → IsPostable allow p
      sound (r, h) =
          let run = validate_and_normalize_journal_internal-IsRun parse_uuid allow p r h in
          let totals =
            collect_entries-IsCollected parse_uuid p.entries 0 0
              (r.0.entries, run.debits, run.credits) hs (omega arith) (omega arith) run.collected in
          record {
            header = run.header;
            booking = (r.0.booking_id, run.booking);
            owner = (r.0.owner_profile_id, run.owner);
            venue = (r.0.venue_id, run.venue);
            creator = (r.0.created_by_user_id, run.creator);
            entries_good = collected-good p.entries (pos 0, pos 0) _ run.collected;
            sides_agree = eqb_ℤ-pos run.debits run.credits totals.debits totals.credits run.agree;
            fits = omega (arith, totals.debits_fit);
          }

      complete :
          IsPostable allow p
          → (r : PostJournalParams × List Text) × (validate_and_normalize_journal_internal
                parse_uuid allow p
              ≡ ok r)
      complete g = postable_run allow p g
