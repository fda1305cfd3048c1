-- ===== src/Base/Tables.antt =====
-- Tables of the database as lists of rows: a query that takes the first row, and an UPDATE.
use native.Mathlib.Omega.{arith}
use mathlib.Core.Path.{◌≡◌, refl, ap}
use mathlib.Core.Bool.{Bool, true, false}
use mathlib.Core.Logic.{inl, inr}
use mathlib.Core.Option.{Option, none, some}
use mathlib.Core.List.{List, [], ◌∷◌, ◌++◌}
use lapangan_go.Base.Lists.{All}
use lapangan_go.Base.Tests.{if◌then◌else◌, Bool-cases}

module _ {ℓ} {A : Type ℓ} where
  abbrev pub find_first : (A → Bool) → List A → Option A
  find_first p [] = none
  find_first p (a ∷ rows) = if p a then some a else find_first p rows

  -- `UPDATE ... SET f WHERE p`
  abbrev pub update_where : (A → Bool) → (A → A) → List A → List A
  update_where p f [] = []
  update_where p f (a ∷ rows) = (if p a then f a else a) ∷ update_where p f rows

  -- `SELECT ... WHERE p`
  abbrev pub select_where : (A → Bool) → List A → List A
  select_where p [] = []
  select_where p (a ∷ rows) = if p a then a ∷ select_where p rows else select_where p rows

  pub find_first-test :
      (p : A → Bool) (rows : List A) (a : A) → find_first p rows ≡ some a → p a ≡ true
  find_first-test p [] a h = cc
  find_first-test p (b ∷ bs) a h = elim (Bool-cases (p b)) [
    | inl e ↦ found e
    | inr e ↦ find_first-test p bs a (missed e)
  ]
    where
      found : p b ≡ true → p a ≡ true
      found e = ground arith

      missed : p b ≡ false → find_first p bs ≡ some a
      missed e = ground arith

  pub find_first-update_where :
      (p : A → Bool) (f : A → A) (rows : List A) (a : A)
      → ((b : A) → p (f b) ≡ p b)
      → find_first p rows ≡ some a
      → find_first p (update_where p f rows) ≡ some (f a)
  find_first-update_where p f [] a kept h = cc
  find_first-update_where p f (b ∷ bs) a kept h =
      ground (arith, kept b, find_first-update_where p f bs a kept)

  pub find_first-update_where-other :
      (p q : A → Bool) (f : A → A) (rows : List A)
      → ((b : A) → q b ≡ true → p b ≡ false)
      → ((b : A) → p (f b) ≡ p b)
      → find_first p (update_where q f rows) ≡ find_first p rows
  find_first-update_where-other p q f [] apart kept = refl
  find_first-update_where-other p q f (b ∷ bs) apart kept =
      let rest = find_first-update_where-other p q f bs apart kept in
      elim (Bool-cases (q b)) [ inl e ↦ rw (e, kept b, apart b e) rest | inr e ↦ rw (e, rest) refl ]

  pub find_first-none :
      (p : A → Bool) (rows : List A) → find_first p rows ≡ none → All (λ a. p a ≡ false) rows
  find_first-none p [] h = tt
  find_first-none p (a ∷ rows) h = elim (Bool-cases (p a)) [
    | inl e ↦ absurd (clash e)
    | inr e ↦ (e, find_first-none p rows (missed e))
  ]
    where
      clash : p a ≡ true → ⊥
      clash e = ground arith

      missed : p a ≡ false → find_first p rows ≡ none
      missed e = ground arith

  pub select_where-append :
      (p : A → Bool) (xs ys : List A)
      → select_where p (xs ++ ys) ≡ select_where p xs ++ select_where p ys
  select_where-append p [] ys = refl
  select_where-append p (x ∷ xs) ys = elim (Bool-cases (p x)) [
    | inl e ↦ rw e (ap (λ l. x ∷ l) (select_where-append p xs ys))
    | inr e ↦ rw e (select_where-append p xs ys)
  ]

  pub select_where-nothing :
      (p : A → Bool) (xs : List A) → All (λ a. p a ≡ false) xs → select_where p xs ≡ []
  select_where-nothing p [] h = refl
  select_where-nothing p (x ∷ xs) h = rw h.0 (select_where-nothing p xs h.1)

  pub select_where-everything :
      (p : A → Bool) (xs : List A) → All (λ a. p a ≡ true) xs → select_where p xs ≡ xs
  select_where-everything p [] h = refl
  select_where-everything p (x ∷ xs) h = rw h.0 (ap (λ l. x ∷ l) (select_where-everything p xs h.1))

  pub All-append {κ} : (P : A → Type κ) (xs ys : List A) → All P xs → All P ys → All P (xs ++ ys)
  All-append P [] ys h k = k
  All-append P (x ∷ xs) ys h k = (h.0, All-append P xs ys h.1 k)

  pub All-map {κ μ} :
      (P : A → Type κ) (Q : A → Type μ) (xs : List A) → ((a : A) → P a → Q a) → All P xs → All Q xs
  All-map P Q [] f h = tt
  All-map P Q (x ∷ xs) f h = (f x h.0, All-map P Q xs f h.1)

  -- Any two rows, the earlier first.
  abbrev pub Pairwise {κ} : (A → A → Type κ) → List A → Type κ
  Pairwise R [] = Unit
  Pairwise R (a ∷ rows) = All (R a) rows × Pairwise R rows

  pub Pairwise-append {κ} :
      (R : A → A → Type κ) (rows : List A) (b : A)
      → Pairwise R rows
      → All (λ a. R a b) rows
      → Pairwise R (rows ++ b ∷ [])
  Pairwise-append R [] b h k = (tt, tt)
  Pairwise-append R (a ∷ rows) b h k =
      (All-append (R a) rows (b ∷ []) h.0 (k.0, tt), Pairwise-append R rows b h.1 k.1)

  pub find_first-append :
      (p : A → Bool) (rows : List A) (a : A)
      → find_first p rows ≡ none
      → p a ≡ true
      → find_first p (rows ++ a ∷ []) ≡ some a
  find_first-append p [] a h k = rw k refl
  find_first-append p (b ∷ rows) a h k = ground (arith, h, k, find_first-append p rows a)
