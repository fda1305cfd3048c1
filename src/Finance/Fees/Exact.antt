-- ===== src/Finance/Fees/Exact.antt =====
-- CalculateBookingFees of calculator.go against exact arithmetic.
use lapangan_go.Base.{
  ℕ, ◌+◌, ◌*◌, ◌/◌, ◌%◌, ◌≤◌, ◌≡◌, ap, arith, if◌then◌else◌, ok, pos, ◌+ℤ◌, quot, rem, leb_ℤ,
}
use lapangan_go.Finance.Money.{
  checked_add_int64-exact, checked_mul_non_negative_int64-exact, checked_add_int64,
  checked_mul_non_negative_int64,
}
use lapangan_go.Finance.Fees.{commission_amount}
use lapangan_go.Finance.Fees.Rounding.{rounded, carry, carry-eq, split_product}

mul-ok :
    (a b : ℕ)
    → a ≤ 9223372036854775807
    → b ≤ 3000
    → a * b ≤ 9223372036854775807
    → checked_mul_non_negative_int64 (pos a) (pos b) ≡ ok (pos (a * b))
mul-ok a b ha hb h =
    rw (checked_mul_non_negative_int64-exact a b (omega arith) (omega arith)) (ground arith)

add-ok :
    (a b : ℕ) → a + b ≤ 9223372036854775807 → checked_add_int64 (pos a) (pos b) ≡ ok (pos (a + b))
unfolding ◌+ℤ◌
add-ok a b h =
    rw (checked_add_int64-exact (pos a) (pos b) (omega arith) (omega arith)) (ground arith)

quot-pos : (n : ℕ) → quot (pos n) 10000 ≡ pos (n / 10000)
unfolding quot
quot-pos n = ground arith

rem-pos : (n : ℕ) → rem (pos n) 10000 ≡ pos (n % 10000)
unfolding rem
rem-pos n = ground arith

-- The half that is added, as the code adds it.
add_carry :
    (n : ℕ)
    → n ≤ 30000000
    → (if leb_ℤ (pos 5000) (pos (n % 10000))
        then checked_add_int64 (pos (n / 10000)) (pos 1)
        else ok (pos (n / 10000)))
      ≡ ok (pos (carry n))
add_carry n h = ground (arith, add-ok (n / 10000) 1)

whole-le : (n b : ℕ) → b ≤ 3000 → n / 10000 * b ≤ n
whole-le n b h = grind arith

remainder-le : (n b : ℕ) → b ≤ 3000 → n % 10000 * b ≤ 30000000
remainder-le n b h = grind arith

product-le : (n b : ℕ) → b ≤ 3000 → n * b ≤ n * 3000
product-le n b h = grind arith

pub rounded-le : (n b : ℕ) → b ≤ 3000 → rounded n b ≤ n
rounded-le n b h = omega (arith, product-le n b h)

rounded-split : (n b : ℕ) → n / 10000 * b + carry (n % 10000 * b) ≡ rounded n b
rounded-split n b = rw (carry-eq, split_product) (ap (λ m. (m * b + 5000) / 10000) (omega arith))

-- For a basis of 64 bits and a rate of at most 30 percent the commission never overflows, and it
-- is the product over 10000 rounded half up.
pub commission_amount-rounded :
    (n b : ℕ)
    → n ≤ 9223372036854775807
    → b ≤ 3000
    → commission_amount (pos n) (pos b) ≡ ok (pos (rounded n b))
unfolding commission_amount
commission_amount-rounded n b hn hb = rw (
  quot-pos n,
  rem-pos n,
  mul-ok (n / 10000) b (omega arith) hb (omega (arith, whole-le n b hb)),
  mul-ok (n % 10000) b (omega arith) hb (omega (arith, remainder-le n b hb)),
  quot-pos,
  rem-pos,
  add_carry (n % 10000 * b) (remainder-le n b hb),
  add-ok (n / 10000 * b) (carry (n % 10000 * b))
      (omega (arith, rounded-split n b, rounded-le n b hb)),
  rounded-split n b,
)
