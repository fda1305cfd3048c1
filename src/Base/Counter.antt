-- ===== src/Base/Counter.antt =====
-- A Go `map[K]int` that counts: an association list that `m[k] += d` updates, and the zero value
-- for a key that is absent.
use lapangan_go.Base.Tests.{if◌then◌else◌, Bool-cases, true-ne-false}
use lapangan_go.Base.Int.{ℤ, pos, ◌+ℤ◌, eqb_ℤ}
use lapangan_go.Base.Equality.{Eq, eqb_ℤ→eq}
use mathlib.Core.Path.{◌≡◌, refl, sym, ap, ◌∙◌}
use mathlib.Core.Logic.{inl, inr}
use mathlib.Core.Bool.{Bool, true, false, ◌&&◌}
use mathlib.Core.List.{List, [], ◌∷◌}
use native.Mathlib.Omega.{arith}

module _ {ℓ} {K : Type ℓ} ⦃e : Eq K⦄ where
  -- m[k] += d
  unfoldable pub tally : K → ℤ → List (K × ℤ) → List (K × ℤ)
  tally k d [] = (k, pos 0 +ℤ d) ∷ []
  tally k d ((j, v) ∷ m) = if e.beq j k then (j, v +ℤ d) ∷ m else (j, v) ∷ tally k d m

  -- m[k]
  unfoldable pub value : K → List (K × ℤ) → ℤ
  value k [] = pos 0
  value k ((j, v) ∷ m) = if e.beq j k then v else value k m

  -- `for _, count := range m { if count != 0 { return false } }; return true`
  unfoldable pub all_zero : List (K × ℤ) → Bool
  all_zero [] = true
  all_zero ((j, v) ∷ m) = eqb_ℤ v (pos 0) && all_zero m

  abbrev pub has_key : K → List (K × ℤ) → Bool
  has_key k [] = false
  has_key k ((j, v) ∷ m) = if e.beq j k then true else has_key k m

  -- A map holds a key once.
  abbrev pub HasDistinctKeys : List (K × ℤ) → Type 0
  HasDistinctKeys [] = Unit
  HasDistinctKeys ((j, v) ∷ m) = (has_key j m ≡ false) × HasDistinctKeys m

  same_as : (i j k : K) → e.beq i j ≡ true → e.beq i k ≡ e.beq j k
  same_as i j k h = ap (λ x. e.beq x k) (e.eq_of_beq i j h)

  clash : (i j k : K) → e.beq i j ≡ false → e.beq i k ≡ true → e.beq j k ≡ false
  clash i j k differ h = elim (Bool-cases (e.beq j k)) [
    | inl h' ↦ absurd (
        true-ne-false (
          sym (e.beq_refl j)
          ∙ ap (λ x. e.beq x j) (e.eq_of_beq j k h' ∙ sym (e.eq_of_beq i k h))
          ∙ differ))
    | inr h' ↦ h'
  ]

  pub value-tally :
      (k j : K) (d : ℤ) (m : List (K × ℤ))
      → value k (tally j d m) ≡ (if e.beq j k then value k m +ℤ d else value k m)
  unfolding value tally
  value-tally k j d [] = refl
  value-tally k j d ((i, v) ∷ m) = elim (Bool-cases (e.beq i j)) [
    | inl same ↦ rw same (ground (arith, same_as i j k same))
    | inr differ ↦ rw differ (ground (arith, value-tally k j d m, clash i j k differ))
  ]

  has_key-tally :
      (k j : K) (d : ℤ) (m : List (K × ℤ))
      → e.beq j k ≡ false
      → has_key k (tally j d m) ≡ has_key k m
  unfolding tally
  has_key-tally k j d [] h = rw h
  has_key-tally k j d ((i, v) ∷ m) h = elim (Bool-cases (e.beq i j)) [
    | inl same ↦ rw same
    | inr differ ↦ rw differ (ground (arith, has_key-tally k j d m h))
  ]

  beq_comm : (i j : K) → e.beq i j ≡ false → e.beq j i ≡ false
  beq_comm i j h = elim (Bool-cases (e.beq j i)) [
    | inl h' ↦
        absurd (true-ne-false (sym (e.beq_refl j) ∙ ap (λ x. e.beq x j) (e.eq_of_beq j i h') ∙ h))
    | inr h' ↦ h'
  ]

  pub tally-HasDistinctKeys :
      (j : K) (d : ℤ) (m : List (K × ℤ)) → HasDistinctKeys m → HasDistinctKeys (tally j d m)
  unfolding tally
  tally-HasDistinctKeys j d [] h = (refl, tt)
  tally-HasDistinctKeys j d ((i, v) ∷ m) h = elim (Bool-cases (e.beq i j)) [
    | inl same ↦ rw same h
    | inr differ ↦
        rw differ
          (rw (has_key-tally i j d m (beq_comm i j differ)) h.0, tally-HasDistinctKeys j d m h.1)
  ]

  value-absent : (k : K) (m : List (K × ℤ)) → has_key k m ≡ false → value k m ≡ pos 0
  unfolding value
  value-absent k [] h = refl
  value-absent k ((j, v) ∷ m) h = ground (arith, value-absent k m)

  -- All counts are zero exactly when every key reads zero.
  pub all_zero_sound : (m : List (K × ℤ)) (k : K) → all_zero m ≡ true → value k m ≡ pos 0
  unfolding all_zero value
  all_zero_sound [] k h = refl
  all_zero_sound ((j, v) ∷ m) k h = ground (arith, all_zero_sound m k, eqb_ℤ→eq v (pos 0))

  pub all_zero_complete :
      (m : List (K × ℤ)) → HasDistinctKeys m → ((k : K) → value k m ≡ pos 0) → all_zero m ≡ true
  unfolding all_zero
  all_zero_complete [] d h = refl
  all_zero_complete ((j, v) ∷ m) d h = rw (zero_here, all_zero_complete m d.1 rest)
    where
      here : v ≡ pos 0
      here = unfold value in (rw (e.beq_refl j) at (h j))

      zero_here : eqb_ℤ v (pos 0) ≡ true
      zero_here = rw here

      rest : (k : K) → value k m ≡ pos 0
      rest k = elim (Bool-cases (e.beq j k)) [
        | inl same ↦ value-absent k m (sym (ap (λ x. has_key x m) (e.eq_of_beq j k same)) ∙ d.0)
        | inr differ ↦ unfold value in (rw differ at (h k))
      ]
