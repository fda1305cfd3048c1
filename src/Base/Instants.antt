-- ===== src/Base/Instants.antt =====
-- Instants as numbers of nanoseconds.
use Prim.Native.Nat.{ℕ, ◌-◌, ◌%◌}

-- Truncate(time.Microsecond)
abbrev pub truncate_us : ℕ → ℕ
truncate_us t = t - t % 1000
