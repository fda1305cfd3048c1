-- ===== src/Base/Int64.antt =====
-- The 64-bit signed integers of Go (`int64`, `int`, `time.Duration`): a value is an integer in
-- range, and `+`, `-`, `*` wrap around.
use lapangan_go.Base.Int.{ℤ, pos, negsuc, pos_part, neg_part, sub_ℕ, ◌+ℤ◌, ◌-ℤ◌, ◌*ℤ◌}
use Prim.Native.Nat.{◌+◌, ◌-◌, ◌%◌, ◌^◌, ◌≤◌}
use mathlib.Core.Path.{◌≡◌}
use native.Mathlib.Omega.{arith}

abbrev pub max_int64 : ℤ
max_int64 = pos 9223372036854775807

abbrev pub min_int64 : ℤ
min_int64 = negsuc 9223372036854775807

-- A value that an `int64` can hold.
abbrev pub IsInt64 : ℤ → Type 0
IsInt64 z = (pos_part z ≤ 9223372036854775807) × (neg_part z ≤ 9223372036854775808)

-- The integer in range that differs by a multiple of 2^64.
unfoldable pub wrap64 : ℤ → ℤ
wrap64 z =
    sub_ℕ ((pos_part z + 9223372036854775808 + (2 ^ 64 - neg_part z % 2 ^ 64)) % 2 ^ 64)
      9223372036854775808

pub wrap64_of_IsInt64 : (z : ℤ) → IsInt64 z → wrap64 z ≡ z
unfolding wrap64
wrap64_of_IsInt64 z h = ground arith

pub wrap64-IsInt64 : (z : ℤ) → IsInt64 (wrap64 z)
unfolding wrap64
wrap64-IsInt64 z = ground arith

unfoldable pub add64 : ℤ → ℤ → ℤ
add64 a b = wrap64 (a +ℤ b)

unfoldable pub sub64 : ℤ → ℤ → ℤ
sub64 a b = wrap64 (a -ℤ b)

unfoldable pub neg64 : ℤ → ℤ
neg64 a = wrap64 (pos 0 -ℤ a)

unfoldable pub mul64 : ℤ → ℤ → ℤ
mul64 a b = wrap64 (a *ℤ b)

pub add64-eq : (a b : ℤ) → IsInt64 (a +ℤ b) → add64 a b ≡ a +ℤ b
unfolding add64
add64-eq a b h = wrap64_of_IsInt64 (a +ℤ b) h

pub sub64-eq : (a b : ℤ) → IsInt64 (a -ℤ b) → sub64 a b ≡ a -ℤ b
unfolding sub64
sub64-eq a b h = wrap64_of_IsInt64 (a -ℤ b) h

pub mul64-eq : (a b : ℤ) → IsInt64 (a *ℤ b) → mul64 a b ≡ a *ℤ b
unfolding mul64
mul64-eq a b h = wrap64_of_IsInt64 (a *ℤ b) h
