-- ===== src/Finance/Money.antt =====
-- The checked 64-bit arithmetic of apps/api/internal/platformfinance/calculator.go.
use lapangan_go.Base.{
  ℕ, zero, suc, ◌+◌, ◌*◌, ◌/◌, ◌<◌, ◌≤◌, ◌≡◌, refl, ap, ◌⊎◌, inl, inr, Bool, true, false, ◌&&◌,
  ◌||◌, arith, Bool-cases, ltb, leb, if◌then◌else◌, Result, ok, err, ℤ, pos, negsuc, pos_part,
  neg_part, ◌+ℤ◌, ◌-ℤ◌, ◌*ℤ◌, ltb_ℤ, leb_ℤ, eqb_ℤ, +ℤ_parts, -ℤ_parts, IsInt64, max_int64,
  min_int64, add64, sub64, neg64, mul64,
}
use lapangan_go.Base

-- The errors of the calculator: its own, the overflow of the checked operations, and the two that
-- the code makes on the spot.
pub data FeeError : Type 0 where
  invalid_original_price invalid_final_booking_price invalid_commission_bps : FeeError
  invalid_booking_channel invalid_customer_service_fee price_adjustment_reason_required : FeeError
  overflow_detected negative_operand negative_owner_net : FeeError

unfoldable pub checked_add_int64 : ℤ → ℤ → Result FeeError ℤ
checked_add_int64 a b =
    if ltb_ℤ (pos 0) b && ltb_ℤ (sub64 max_int64 b) a
    then err overflow_detected
    else if ltb_ℤ b (pos 0) && ltb_ℤ a (sub64 min_int64 b)
    then err overflow_detected
    else ok (add64 a b)

unfoldable pub checked_sub_int64 : ℤ → ℤ → Result FeeError ℤ
checked_sub_int64 a b =
    if eqb_ℤ b min_int64
    then (if leb_ℤ (pos 0) a then err overflow_detected else ok (sub64 a b))
    else checked_add_int64 a (neg64 b)

-- `math.MaxInt64/b` is reached only with both operands positive.
unfoldable pub checked_mul_non_negative_int64 : ℤ → ℤ → Result FeeError ℤ
checked_mul_non_negative_int64 a b =
    if ltb_ℤ a (pos 0) || ltb_ℤ b (pos 0)
    then err negative_operand
    else if eqb_ℤ a (pos 0) || eqb_ℤ b (pos 0)
    then ok (pos 0)
    else if ltb_ℤ (Base.quot max_int64 (pos_part b)) a
    then err overflow_detected
    else ok (mul64 a b)

-- Does an integer fit in 64 bits: the reference for the three operations.
abbrev pub fits_int64 : ℤ → Bool
fits_int64 z = leb_ℤ min_int64 z && leb_ℤ z max_int64

abbrev pub exact : ℤ → Result FeeError ℤ
exact z = if fits_int64 z then ok z else err overflow_detected

-- For 64-bit operands the checked sum is the exact sum where that fits, and an overflow
-- otherwise.
pub checked_add_int64-exact :
    (a b : ℤ) → IsInt64 a → IsInt64 b → checked_add_int64 a b ≡ exact (a +ℤ b)
unfolding checked_add_int64 ◌+ℤ◌ ◌-ℤ◌
checked_add_int64-exact (pos a) (pos b) ha hb =
    ground (arith, Base.sub64-eq max_int64 (pos b), Base.add64-eq (pos a) (pos b))
checked_add_int64-exact (pos a) (negsuc b) ha hb =
    ground (arith, Base.sub64-eq min_int64 (negsuc b), Base.add64-eq (pos a) (negsuc b))
checked_add_int64-exact (negsuc a) (pos b) ha hb =
    ground (arith, Base.sub64-eq max_int64 (pos b), Base.add64-eq (negsuc a) (pos b))
checked_add_int64-exact (negsuc a) (negsuc b) ha hb =
    ground (arith, Base.sub64-eq min_int64 (negsuc b), Base.add64-eq (negsuc a) (negsuc b))

neg64-eq : (b : ℤ) → IsInt64 b → eqb_ℤ b min_int64 ≡ false → neg64 b ≡ pos 0 -ℤ b
unfolding neg64 ◌-ℤ◌
neg64-eq (pos b) h e = Base.wrap64_of_IsInt64 (pos 0 -ℤ pos b) (ground arith)
neg64-eq (negsuc b) h e = Base.wrap64_of_IsInt64 (pos 0 -ℤ negsuc b) (ground arith)

minus-IsInt64 : (b : ℤ) → IsInt64 b → eqb_ℤ b min_int64 ≡ false → IsInt64 (pos 0 -ℤ b)
unfolding ◌-ℤ◌
minus-IsInt64 (pos b) h e = ground arith
minus-IsInt64 (negsuc b) h e = ground arith

+ℤ-minus : (a b : ℤ) → a +ℤ (pos 0 -ℤ b) ≡ a -ℤ b
+ℤ-minus a b = omega Base.int_laws

checked_sub_int64-min : (a : ℤ) → IsInt64 a → checked_sub_int64 a min_int64 ≡ exact (a -ℤ min_int64)
unfolding checked_sub_int64 ◌-ℤ◌
checked_sub_int64-min (pos a) h = ground arith
checked_sub_int64-min (negsuc a) h = ground (arith, Base.sub64-eq (negsuc a) min_int64)

eqb_ℤ→eq : (a b : ℤ) → eqb_ℤ a b ≡ true → a ≡ b
eqb_ℤ→eq (pos a) (pos b) h = ground arith
eqb_ℤ→eq (negsuc a) (negsuc b) h = ground arith
eqb_ℤ→eq (pos a) (negsuc b) h = cc
eqb_ℤ→eq (negsuc a) (pos b) h = cc

-- The checked difference is exact in the same sense, also where the subtrahend is the least
-- integer, which has no negative.
pub checked_sub_int64-exact :
    (a b : ℤ) → IsInt64 a → IsInt64 b → checked_sub_int64 a b ≡ exact (a -ℤ b)
checked_sub_int64-exact a b ha hb = elim (Bool-cases (eqb_ℤ b min_int64)) [
  | inl least ↦ rw (eqb_ℤ→eq b min_int64 least) (checked_sub_int64-min a ha)
  | inr e ↦ general e
]
  where
    general : eqb_ℤ b min_int64 ≡ false → checked_sub_int64 a b ≡ exact (a -ℤ b)
    general e =
        unfold checked_sub_int64 in
        rw (e, neg64-eq b hb e, checked_add_int64-exact a (pos 0 -ℤ b) ha (minus-IsInt64 b hb e))
          (ap exact (+ℤ-minus a b))

le-div : (a b m : ℕ) → 0 < b → a ≤ m / b → a * b ≤ m
le-div a b m h k = grind arith

lt-mul_of_div-lt : (a b m : ℕ) → 0 < b → m / b < a → m < a * b
lt-mul_of_div-lt a b m h k = grind arith

-- The checked product of operands that are not negative is exact in the same sense.
pub checked_mul_non_negative_int64-exact :
    (a b : ℕ)
    → IsInt64 (pos a)
    → IsInt64 (pos b)
    → checked_mul_non_negative_int64 (pos a) (pos b) ≡ exact (pos (a * b))
unfolding checked_mul_non_negative_int64 Base.quot ◌*ℤ◌
checked_mul_non_negative_int64-exact zero b ha hb = ground arith
checked_mul_non_negative_int64-exact (suc a) zero ha hb = ground arith
checked_mul_non_negative_int64-exact (suc a) (suc b) ha hb = ground (
  arith,
  le-div (suc a) (suc b) 9223372036854775807,
  lt-mul_of_div-lt (suc a) (suc b) 9223372036854775807,
  Base.mul64-eq (pos (suc a)) (pos (suc b)),
)
