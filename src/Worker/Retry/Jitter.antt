-- ===== src/Worker/Retry/Jitter.antt =====
-- deterministicJitter of apps/api/internal/paymentworker/policy.go.
use lapangan_go.Base.{
  ◌≡◌, refl, ℕ, suc, zero, ◌+◌, ◌*◌, ◌/◌, ◌%◌, ◌≤◌, ◌<◌, arith, ℤ, pos, negsuc, Text, false, ◌==◌,
  ◌*ℤ◌, ◌+ℤ◌,
}
use lapangan_go.Base
use lapangan_go.Worker.Retry.{deterministic_jitter}

tenth : (b s : ℕ) → s ≤ 1000 → (b * s) / 10000 ≤ b / 10
tenth b s h = grind arith

product-small : (b s : ℕ) → b ≤ 86400000000000 → s ≤ 1000 → b * s ≤ 9223372036854775807
product-small b s h k = grind arith

mul64-small : (b s : ℕ) → b * s ≤ 9223372036854775807 → Base.mul64 (pos b) (pos s) ≡ pos (b * s)
unfolding Base.mul64 Base.wrap64 ◌*ℤ◌
mul64-small b s h = ground (arith, Base.mul64-eq (pos b) (pos s))

add64-small : (a b : ℕ) → a + b ≤ 9223372036854775807 → Base.add64 (pos a) (pos b) ≡ pos (a + b)
unfolding Base.add64 Base.wrap64 ◌+ℤ◌
add64-small a b h = ground (arith, Base.add64-eq (pos a) (pos b))

quot-pos : (n : ℕ) → Base.quot (pos n) 10000 ≡ pos (n / 10000)
unfolding Base.quot Base.◌-ℤ◌ ◌+ℤ◌
quot-pos n = ground arith

nonzero : (b : ℕ) → (suc b == 0) ≡ false
nonzero b = ground arith

module _ (hash16 : Text → ℤ → ℕ) where
  -- For a base of at most 24 hours the jitter neither overflows nor shortens the delay, and it adds
  -- at most a tenth.
  pub deterministic_jitter-bounds :
      (key : Text) (attempt : ℤ) (base : ℕ)
      → base ≤ 86400000000000
      → (d : ℕ) × (deterministic_jitter hash16 key attempt base ≡ pos d)
        × (base ≤ d)
        × (d ≤ base + base / 10)
  unfolding deterministic_jitter
  deterministic_jitter-bounds key attempt zero h = (0, refl, omega arith, omega arith)
  deterministic_jitter-bounds key attempt (suc b) h =
      let s = hash16 key attempt % 1001 in
      let small = product-small (suc b) s h (omega arith) in
      let extra = tenth (suc b) s (omega arith) in
      (
        suc b + (suc b * s) / 10000,
        rw (nonzero b, mul64-small (suc b) s small, quot-pos (suc b * s))
            (add64-small (suc b) ((suc b * s) / 10000) (omega (arith, extra, h))),
        omega arith,
        omega (arith, extra),
      )
