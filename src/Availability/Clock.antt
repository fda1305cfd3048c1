-- ===== src/Availability/Clock.antt =====
-- The clock of the opening hours, parseClockMinutes of apps/api/internal/availability/service.go.
use lapangan_go.Base.{
  ℕ, ◌+◌, ◌*◌, ◌/◌, ◌%◌, ◌<◌, ◌≡◌, arith, [], ◌∷◌, ◌==◌, Option, none, some, ok, err-ne-ok,
  if-eq-ok-cases, inl, inr, Text, ℤ, pos, negsuc,
}
use lapangan_go.Availability.Slots.{
  parse_clock_minutes, atoi_two, clock_minutes, numbers_to_minutes, minutes_of,
}

clock_minutes-bounds : (hour minute : ℤ) (n : ℕ) → clock_minutes hour minute ≡ ok n → n < 1440
unfolding clock_minutes
clock_minutes-bounds (pos a) (pos b) n h = ground (arith, h)
clock_minutes-bounds (pos a) (negsuc b) n h = ground (arith, h)
clock_minutes-bounds (negsuc a) b n h = ground (arith, h)

numbers-bounds : (a b : Option ℤ) (n : ℕ) → numbers_to_minutes a b ≡ ok n → n < 1440
numbers-bounds (some hour) (some minute) n h = clock_minutes-bounds hour minute n h
numbers-bounds (some hour) none n h = cc
numbers-bounds none b n h = cc

pub parse_clock_minutes-bounds : (t : Text) (n : ℕ) → parse_clock_minutes t ≡ ok n → n < 1440
unfolding parse_clock_minutes
parse_clock_minutes-bounds (a ∷ b ∷ k ∷ c ∷ d ∷ []) n h =
    elim (if-eq-ok-cases (k == 58) (numbers_to_minutes (atoi_two a b) (atoi_two c d)) _ h) [
      | inl (_, e) ↦ numbers-bounds (atoi_two a b) (atoi_two c d) n e
      | inr (_, e) ↦ absurd (err-ne-ok e)
    ]
parse_clock_minutes-bounds [] n h = cc
parse_clock_minutes-bounds (a ∷ []) n h = cc
parse_clock_minutes-bounds (a ∷ b ∷ []) n h = cc
parse_clock_minutes-bounds (a ∷ b ∷ k ∷ []) n h = cc
parse_clock_minutes-bounds (a ∷ b ∷ k ∷ c ∷ []) n h = cc
parse_clock_minutes-bounds (a ∷ b ∷ k ∷ c ∷ d ∷ e ∷ t) n h = cc

pub minutes-bounds : (o : Option Text) (n : ℕ) → minutes_of o ≡ ok n → n < 1440
minutes-bounds none n h = cc
minutes-bounds (some t) n h = parse_clock_minutes-bounds t n h

-- to_char(t, 'HH24:MI')
abbrev pub clock_text : ℕ → ℕ → Text
clock_text hour minute =
    (48 + hour / 10) ∷ (48 + hour % 10) ∷ 58 ∷ (48 + minute / 10) ∷ (48 + minute % 10) ∷ []

atoi_two-digits : (n : ℕ) → n < 100 → atoi_two (48 + n / 10) (48 + n % 10) ≡ some (pos n)
unfolding atoi_two
atoi_two-digits n h = ground arith

-- Every time of the clock is read back from the text that the query writes it as.
pub parse_clock_minutes-clock_text :
    (hour minute : ℕ)
    → hour < 24
    → minute < 60
    → parse_clock_minutes (clock_text hour minute) ≡ ok (hour * 60 + minute)
unfolding parse_clock_minutes clock_minutes
parse_clock_minutes-clock_text hour minute h m =
    rw (atoi_two-digits hour (omega arith), atoi_two-digits minute (omega arith)) (ground arith)
