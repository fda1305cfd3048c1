-- ===== src/Finance/Fees/Rounding.antt =====
-- The commission of calculator.go, step 10, against the exact product.
use lapangan_go.Base.{ℕ, ◌+◌, ◌*◌, ◌/◌, ◌%◌, ◌≡◌, arith, if◌then◌else◌, leb}

-- The commission rounded half up: the reference.
abbrev pub rounded : ℕ → ℕ → ℕ
rounded basis bps = (basis * bps + 5000) / 10000

-- The half that is rounded up, over the numbers.
abbrev pub carry : ℕ → ℕ
carry n = if leb 5000 (n % 10000) then n / 10000 + 1 else n / 10000

pub carry-eq : (n : ℕ) → carry n ≡ (n + 5000) / 10000
carry-eq n = ground arith

pub split_product :
    (w r b : ℕ) → (w * b) + (r * b + 5000) / 10000 ≡ ((w * 10000 + r) * b + 5000) / 10000
split_product w r b = grind arith
