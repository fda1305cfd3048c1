-- ===== src/Base/Equality.antt =====
-- Decidable equality as an interface, with the types of keys that the components share.
use lapangan_go.Base.Texts.{Text, text_eq, text_eq_refl, text_eq→eq}
use lapangan_go.Base.Int.{ℤ, pos, negsuc, eqb_ℤ}
use mathlib.Core.Path.{◌≡◌}
use mathlib.Core.Bool.{Bool, true}
use native.Mathlib.Omega.{arith}

pub record Eq {ℓ} (A : Type ℓ) : Type ℓ where
  pub beq : A → A → Bool
  pub beq_refl : (a : A) → beq a a ≡ true
  pub eq_of_beq : (a b : A) → beq a b ≡ true → a ≡ b

pub eqb_ℤ_refl : (a : ℤ) → eqb_ℤ a a ≡ true
eqb_ℤ_refl (pos n) = ground arith
eqb_ℤ_refl (negsuc n) = ground arith

pub eqb_ℤ→eq : (a b : ℤ) → eqb_ℤ a b ≡ true → a ≡ b
eqb_ℤ→eq (pos a) (pos b) h = ground arith
eqb_ℤ→eq (negsuc a) (negsuc b) h = ground arith
eqb_ℤ→eq (pos a) (negsuc b) h = cc
eqb_ℤ→eq (negsuc a) (pos b) h = cc

instance abbrev pub text_Eq : Eq Text
text_Eq = record { beq = text_eq; beq_refl = text_eq_refl; eq_of_beq = text_eq→eq }
