-- ===== src/Worker/Retry/Exponential.antt =====
-- The loop of baseDelay in apps/api/internal/paymentworker/policy.go against a closed form.
use lapangan_go.Base.{
  ◌≡◌, refl, sym, ◌∙◌, ap, ℕ, zero, suc, ◌*◌, ◌/◌, ◌%◌, ◌^◌, ◌≤◌, min, max, arith, Bool-cases, inl,
  inr, leb, leb→le, ℤ,
}
use native.Mathlib.Nat.{pow-succ'}
use lapangan_go.Worker.Retry.{
  RetryPolicy, double_delay, finish_delay, base_delay, effective_initial, effective_max, rounds_of,
  nanoseconds,
}

mul_one : (d : ℕ) → d * 2 ^ zero ≡ d
mul_one d = omega arith

le_mul_pow : (x n : ℕ) → x ≤ x * 2 ^ n
le_mul_pow x zero = omega arith
le_mul_pow x (suc n) = rw (pow-succ' 2 n) (omega (arith, le_mul_pow x n))

finish_delay-min-max : (x m r : ℕ) → finish_delay x m r ≡ max (min m x) (min m r)
unfolding finish_delay
finish_delay-min-max x m r = ground arith

finish_delay-capped : (x m r : ℕ) → m ≤ x → finish_delay x m r ≡ m
unfolding finish_delay
finish_delay-capped x m r h = ground arith

-- A round that stops early stops where the doubled delay would reach the cap.
double_delay-finish_delay :
    (n d m r : ℕ) → m % 2 ≡ 0 → double_delay n d m r ≡ finish_delay (d * 2 ^ n) m r
unfolding double_delay
double_delay-finish_delay zero d m r even = rw (mul_one d) refl
double_delay-finish_delay (suc n) d m r even = elim (Bool-cases (leb (m / 2) d)) [
  | inl e ↦ rw e (sym (finish_delay-capped (d * 2 ^ suc n) m r (reaches (leb→le (m / 2) d e))))
  | inr e ↦ rw e (double_delay-finish_delay n (d * 2) m r even ∙ ap (λ x. finish_delay x m r) same)
]
  where
    reaches : m / 2 ≤ d → m ≤ d * 2 ^ suc n
    reaches h = rw (pow-succ' 2 n) (omega (arith, le_mul_pow (d * 2) n))

    same : d * 2 * 2 ^ n ≡ d * 2 ^ suc n
    same = rw (pow-succ' 2 n) (omega arith)

-- For a cap that is an even number of nanoseconds, the delay after attempt n is the initial delay
-- times 2 ^ (n - 1), or the time that the provider asks for where that is longer, each cut at the
-- cap.
pub base_delay-exponential :
    (p : RetryPolicy) (attempt_count retry_after : ℤ)
    → effective_max p % 2 ≡ 0
    → base_delay p attempt_count retry_after
      ≡ max
          (min (effective_max p) (effective_initial p * 2 ^ rounds_of attempt_count))
          (min (effective_max p) (nanoseconds retry_after))
unfolding base_delay
base_delay-exponential p attempt_count retry_after even =
    double_delay-finish_delay (rounds_of attempt_count) (effective_initial p) (effective_max p)
      (nanoseconds retry_after) even
    ∙ finish_delay-min-max (effective_initial p * 2 ^ rounds_of attempt_count) (effective_max p)
        (nanoseconds retry_after)
