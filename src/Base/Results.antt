-- ===== src/Base/Results.antt =====
-- The pair `(T, error)` that a fallible Go function returns: a value or an error, never both.
use mathlib.Core.Path.{◌≡◌, refl, sym, ap}
use lapangan_go.Base.Tests.{if◌then◌else◌, true-ne-false}
use mathlib.Core.Option.{Option, none, some}
use mathlib.Core.Logic.{◌⊎◌, inl, inr}
use mathlib.Core.Bool.{Bool, true, false, ◌&&◌}

pub data Result (E A : Type 0) : Type 0 where
  err : E → Result E A
  ok : A → Result E A

-- `if c { return err }`
abbrev pub fail_if : {E : Type 0} → Bool → E → Result E (Unit {0})
fail_if false _ = ok tt
fail_if true failure = err failure

-- The next step takes the value of the one before, and an error ends the chain.
infixl 5 ◌>>=◌ ◌>>◌
abbrev pub ◌>>=◌ : {E A B : Type 0} → Result E A → (A → Result E B) → Result E B
err failure >>= next = err failure
ok value >>= next = next value

abbrev pub ◌>>◌ : {E B : Type 0} → Result E (Unit {0}) → Result E B → Result E B
first >> next = first >>= (λ (_ : Unit {0}). next)

-- The error of a call, replaced by the caller's own.
abbrev pub map_err : {E F A : Type 0} → (E → F) → Result E A → Result F A
map_err f (ok a) = ok a
map_err f (err e) = err (f e)

-- A chain that ends well had a first step that did.
pub >>=-eq-ok :
    {E A B : Type 0} (first : Result E A) (next : A → Result E B) {end : B}
    → (first >>= next) ≡ ok end
    → (value : A) × (first ≡ ok value) × (next value ≡ ok end)
>>=-eq-ok (err failure) next h = cc
>>=-eq-ok (ok value) next h = (value, refl, h)

abbrev value_or : {E A : Type 0} → A → Result E A → A
value_or d (ok a) = a
value_or d (err _) = d

pub ok-injective : {E A : Type 0} {a b : A} → ◌≡◌ {A = Result E A} (ok a) (ok b) → a ≡ b
ok-injective {a = a} p = ap (value_or a) p

pub err-ne-ok : {E A : Type 0} {e : E} {a : A} → ◌≡◌ {A = Result E A} (err e) (ok a) → ⊥
err-ne-ok p = cc

pub Result-cases :
    {E A : Type 0} (r : Result E A) → ((e : E) × (r ≡ err e)) ⊎ ((a : A) × (r ≡ ok a))
Result-cases (ok a) = inr (a, refl)
Result-cases (err e) = inl (e, refl)

-- The same, handed on: a chain of steps is taken apart without pairs.
pub bind_ok {ℓ} :
    {E A B : Type 0} {P : Type ℓ} (m : Result E A) {f : A → Result E B} {b : B}
    → (m >>= f) ≡ ok b
    → ((a : A) → m ≡ ok a → f a ≡ ok b → P)
    → P
bind_ok (ok a) h k = k a refl h
bind_ok (err e) h k = absurd (err-ne-ok h)

pub fail_if-eq-ok : {E : Type 0} (b : Bool) (e : E) {u : Unit {0}} → fail_if b e ≡ ok u → b ≡ false
fail_if-eq-ok true e h = cc
fail_if-eq-ok false e h = refl

-- `if c { return a, nil }; return err`
pub if-eq-ok :
    {E A : Type 0} (c : Bool) (a : A) (e : E) {b : A}
    → (if c then ok a else err e) ≡ ok b
    → (c ≡ true) × (a ≡ b)
if-eq-ok true a e h = (refl, ok-injective h)
if-eq-ok false a e h = absurd (err-ne-ok h)

pub both-true : (a b : Bool) → (a && b) ≡ true → (a ≡ true) × (b ≡ true)
both-true true true h = (refl, refl)
both-true true false h = absurd (true-ne-false (sym h))
both-true false b h = absurd (true-ne-false (sym h))

pub if-eq-ok-cases :
    {E A : Type 0} (c : Bool) (x y : Result E A) {b : A}
    → (if c then x else y) ≡ ok b
    → ((c ≡ true) × (x ≡ ok b)) ⊎ ((c ≡ false) × (y ≡ ok b))
if-eq-ok-cases true x y h = inl (refl, h)
if-eq-ok-cases false x y h = inr (refl, h)

pub some-injective : {A : Type 0} {a b : A} → some a ≡ some b → a ≡ b
some-injective {a = a} q = ap (elim [ some x ↦ x | none ↦ a ]) q

pub none-ne-some : {A : Type 0} {a : A} → ◌≡◌ {A = Option A} none (some a) → ⊥
none-ne-some p = cc

pub >>-eq-ok :
    {E B : Type 0} (first : Result E (Unit {0})) (second : Result E B) {b : B}
    → (first >> second) ≡ ok b
    → (first ≡ ok tt) × (second ≡ ok b)
>>-eq-ok (ok u) second h = (refl, h)
>>-eq-ok (err e) second h = absurd (err-ne-ok h)

pub map_err-eq-ok :
    {E F A : Type 0} (f : E → F) (r : Result E A) {a : A} → map_err f r ≡ ok a → r ≡ ok a
map_err-eq-ok f (ok b) h = ap ok (ok-injective h)
map_err-eq-ok f (err e) h = absurd (err-ne-ok h)

pub Option-eq-ok :
    {E A B : Type 0} (o : Option A) (x : Result E B) (y : A → Result E B) {b : B}
    → elim o [ none ↦ x | some a ↦ y a ] ≡ ok b
    → ((o ≡ none) × (x ≡ ok b)) ⊎ ((a : A) × (o ≡ some a) × (y a ≡ ok b))
Option-eq-ok none x y h = inl (refl, h)
Option-eq-ok (some a) x y h = inr (a, refl, h)
