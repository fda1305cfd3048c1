-- ===== src/Base/Sorting.antt =====
-- sort.SliceStable: a stable sort by a comparison, the orders that a chain of keys gives, and the
-- lists that differ in their order only.
use mathlib.Core.Path.{◌≡◌, refl, ap, ◌∙◌}
use mathlib.Core.Logic.{inl, inr}
use mathlib.Core.Bool.{Bool, true, false, not}
use mathlib.Core.List.{List, [], ◌∷◌}
use native.Mathlib.Omega.{arith}
use lapangan_go.Base.Tests.{if◌then◌else◌, Bool-cases}
use lapangan_go.Base.Lists.{All}
use lapangan_go.Base.Texts.{Text, text_eq, text_eq_refl, text_eq→eq, text_lt}

-- `if k(a) != k(b) { return k(a) < k(b) }; return rest(a, b)`
abbrev pub less_by {ℓ κ} :
    {A : Type ℓ} {K : Type κ}
    → (K → K → Bool)
    → (K → K → Bool)
    → (A → K)
    → (A → A → Bool)
    → A
    → A
    → Bool
less_by eq lt k rest a b = if not (eq (k a) (k b)) then lt (k a) (k b) else rest a b

abbrev pub less_by_text {ℓ} : {A : Type ℓ} → (A → Text) → (A → A → Bool) → A → A → Bool
less_by_text = less_by text_eq text_lt

module _ {ℓ} {A : Type ℓ} where
  -- The element goes behind those that are less, and in front of its equals.
  unfoldable pub insert_by : (A → A → Bool) → A → List A → List A
  insert_by less x [] = x ∷ []
  insert_by less x (y ∷ ys) = if less y x then y ∷ insert_by less x ys else x ∷ y ∷ ys

  unfoldable pub sort_by : (A → A → Bool) → List A → List A
  unfolding insert_by
  sort_by less [] = []
  sort_by less (x ∷ xs) = insert_by less x (sort_by less xs)

  pub data Permuted : List A → List A → Type ℓ where
    perm_nil : Permuted [] []
    perm_cons : {x : A} {xs ys : List A} → Permuted xs ys → Permuted (x ∷ xs) (x ∷ ys)
    perm_swap : {x y : A} {xs ys : List A} → Permuted xs ys → Permuted (x ∷ y ∷ xs) (y ∷ x ∷ ys)
    perm_trans : {xs ys zs : List A} → Permuted xs ys → Permuted ys zs → Permuted xs zs

  pub Permuted-same : (xs : List A) → Permuted xs xs
  Permuted-same [] = perm_nil
  Permuted-same (x ∷ xs) = perm_cons (Permuted-same xs)

  pub All-Permuted {κ} : (P : A → Type κ) {xs ys : List A} → Permuted xs ys → All P xs → All P ys
  All-Permuted P perm_nil h = h
  All-Permuted P (perm_cons p) h = (h.0, All-Permuted P p h.1)
  All-Permuted P (perm_swap p) h = (h.1.0, (h.0, All-Permuted P p h.1.1))
  All-Permuted P (perm_trans p q) h = All-Permuted P q (All-Permuted P p h)

  insert_by-Permuted :
      (less : A → A → Bool) (x : A) (ys : List A) → Permuted (x ∷ ys) (insert_by less x ys)
  unfolding insert_by
  insert_by-Permuted less x [] = Permuted-same (x ∷ [])
  insert_by-Permuted less x (y ∷ ys) = elim (Bool-cases (less y x)) [
    | inl e ↦
        rw e (perm_trans (perm_swap (Permuted-same ys)) (perm_cons (insert_by-Permuted less x ys)))
    | inr e ↦ rw e (Permuted-same (x ∷ y ∷ ys))
  ]

  pub sort_by-Permuted : (less : A → A → Bool) (xs : List A) → Permuted xs (sort_by less xs)
  unfolding sort_by
  sort_by-Permuted less [] = perm_nil
  sort_by-Permuted less (x ∷ xs) =
      perm_trans (perm_cons (sort_by-Permuted less xs))
        (insert_by-Permuted less x (sort_by less xs))

  -- A strict weak order.
  pub record IsWeakOrder (less : A → A → Bool) : Type ℓ where
    pub asym : (a b : A) → less a b ≡ true → less b a ≡ false
    pub cotrans : (a b c : A) → less a c ≡ true → less a b ≡ false → less b c ≡ true

  -- Elements of P that the order does not tell apart are one.
  abbrev pub IsConnectedOn {κ} : (P : A → Type κ) → (A → A → Bool) → Type (ℓ ⊔ κ)
  IsConnectedOn P less = (a b : A) → P a → P b → less a b ≡ false → less b a ≡ false → a ≡ b

  module _ {κ} (P : A → Type κ) (less : A → A → Bool) (order : IsWeakOrder less)
      (connected : IsConnectedOn P less) where
    insert_by-swap :
        (a b : A) (ys : List A)
        → P a
        → P b
        → All P ys
        → insert_by less a (insert_by less b ys) ≡ insert_by less b (insert_by less a ys)
    unfolding insert_by
    insert_by-swap a b [] pa pb h = elim (Bool-cases (less b a)) [
      | inl e ↦ rw (e, order.asym b a e) refl
      | inr e ↦ elim (Bool-cases (less a b)) [
        | inl f ↦ rw (e, f) refl
        | inr f ↦ rw (connected a b pa pb f e) refl
      ]
    ]
    insert_by-swap a b (y ∷ ys) pa pb h =
        let rest = insert_by-swap a b ys pa pb h.1 in
        ground
          (arith, rest, below a b, below b a, order.asym a b, order.asym b a, connected a b pa pb)
      where
        below : (c d : A) → less y d ≡ true → less y c ≡ false → less c d ≡ true
        below c d yd yc = order.cotrans y c d yd yc

    pub sort_by-invariant :
        {xs ys : List A} → Permuted xs ys → All P xs → sort_by less xs ≡ sort_by less ys
    unfolding sort_by
    sort_by-invariant perm_nil h = refl
    sort_by-invariant (perm_cons p) h = ap (insert_by less _) (sort_by-invariant p h.1)
    sort_by-invariant (perm_swap {x = x} {y = y} {xs = xs} {ys = ys} p) h =
        insert_by-swap x y (sort_by less xs) h.0 h.1.0
          (All-Permuted P (sort_by-Permuted less xs) h.1.1)
        ∙ ap (λ l. insert_by less y (insert_by less x l)) (sort_by-invariant p h.1.1)
    sort_by-invariant (perm_trans p q) h =
        sort_by-invariant p h ∙ sort_by-invariant q (All-Permuted P p h)

pub text_lt-asym : (s t : Text) → text_lt s t ≡ true → text_lt t s ≡ false
unfolding text_lt
text_lt-asym s [] h = cc
text_lt-asym [] (b ∷ t) h = refl
text_lt-asym (a ∷ s) (b ∷ t) h = ground (arith, text_lt-asym s t)

pub text_lt-cotrans : (s t u : Text) → text_lt s u ≡ true → text_lt s t ≡ false → text_lt t u ≡ true
unfolding text_lt
text_lt-cotrans s t [] h k = cc
text_lt-cotrans s [] (c ∷ u) h k = refl
text_lt-cotrans [] (b ∷ t) (c ∷ u) h k = cc
text_lt-cotrans (a ∷ s) (b ∷ t) (c ∷ u) h k = ground (arith, text_lt-cotrans s t u)

pub text_lt-connected : (s t : Text) → text_lt s t ≡ false → text_lt t s ≡ false → s ≡ t
unfolding text_lt
text_lt-connected [] [] h k = refl
text_lt-connected [] (b ∷ t) h k = cc
text_lt-connected (a ∷ s) [] h k = cc
text_lt-connected (a ∷ s) (b ∷ t) h k = ground (arith, text_lt-connected s t)

-- A key in front of an order gives an order.
pub less_by_text-IsWeakOrder {ℓ} :
    {A : Type ℓ} (k : A → Text) (rest : A → A → Bool)
    → IsWeakOrder rest
    → IsWeakOrder (less_by_text k rest)
less_by_text-IsWeakOrder {A = A} k rest order = record {
  asym = λ a b h. less_asym a b h;
  cotrans = λ a b c h l. less_cotrans a b c h l;
}
  where
    less_asym : (a b : A) → less_by_text k rest a b ≡ true → less_by_text k rest b a ≡ false
    less_asym a b h = ground (
      arith,
      order.asym a b,
      text_lt-asym (k a) (k b),
      text_eq→eq (k a) (k b),
      text_eq→eq (k b) (k a),
      text_eq_refl (k a),
    )

    less_cotrans :
        (a b c : A)
        → less_by_text k rest a c ≡ true
        → less_by_text k rest a b ≡ false
        → less_by_text k rest b c ≡ true
    less_cotrans a b c h l = ground (
      arith,
      order.cotrans a b c,
      text_lt-cotrans (k a) (k b) (k c),
      text_eq→eq (k a) (k b),
      text_eq→eq (k b) (k c),
      text_eq→eq (k a) (k c),
      text_eq_refl (k a),
      text_lt-connected (k a) (k b),
      text_lt-asym (k a) (k b),
    )

pub less_by_text-connected {ℓ} :
    {A : Type ℓ} (k : A → Text) (rest : A → A → Bool) (a b : A)
    → less_by_text k rest a b ≡ false
    → less_by_text k rest b a ≡ false
    → (k a ≡ k b) × (rest a b ≡ false) × (rest b a ≡ false)
less_by_text-connected k rest a b h l = ground (
  arith,
  text_eq→eq (k a) (k b),
  text_eq→eq (k b) (k a),
  text_eq_refl (k a),
  text_lt-connected (k a) (k b),
)
