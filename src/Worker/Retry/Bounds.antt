-- ===== src/Worker/Retry/Bounds.antt =====
-- Every delay of the policy in apps/api/internal/paymentworker/policy.go is one that the outbox
-- takes.
use lapangan_go.Base.{
  ◌≡◌, refl, sym, ◌∙◌, ap, ℕ, zero, suc, ◌+◌, ◌*◌, ◌/◌, ◌%◌, ◌≤◌, ◌<◌, arith, Bool, true, false,
  true-ne-false, ok, err-ne-ok, ok-injective, if-eq-ok-cases, subst, eqb_ℤ, ◌&&◌, Bool-cases, inl,
  inr, leb, ltb, ℤ, pos, negsuc, Option, none, some, Text,
}
use lapangan_go.Base
use lapangan_go.Worker.Retry.{
  RetryPolicy, JitterFunc, normalize_retry_delay, clamp_jitter, delay_with, finish_delay,
  double_delay, are_refused_delays, processor_policy, default_retry_policy, delay, base_delay,
  max_delay_of, effective_initial, effective_max, rounds_of, nanoseconds,
}
use lapangan_go.Outbox.Types.{validate_retry_delay}

pub record IsBetween (low high value : ℕ) : Type 0 where
  pub at_least : low ≤ value
  pub at_most : value ≤ high
  pub whole : value % 1000 ≡ 0

normalize_retry_delay-IsBetween :
    (v m : ℕ) → 0 < v → v ≤ m → m % 1000 ≡ 0 → IsBetween v m (normalize_retry_delay v m)
unfolding normalize_retry_delay
normalize_retry_delay-IsBetween v m hv hm whole = record {
  at_least = ground arith;
  at_most = ground arith;
  whole = ground arith;
}

clamp_jitter-low : (j : ℤ) (b m : ℕ) → b ≤ m → b ≤ clamp_jitter j b m
unfolding clamp_jitter
clamp_jitter-low (pos n) b m h = ground arith
clamp_jitter-low (negsuc n) b m h = ground arith

clamp_jitter-high : (j : ℤ) (b m : ℕ) → clamp_jitter j b m ≤ m
unfolding clamp_jitter
clamp_jitter-high (pos n) b m = ground arith
clamp_jitter-high (negsuc n) b m = ground arith

finish_delay-low : (d m r : ℕ) → 0 < d → 0 < m → 0 < finish_delay d m r
unfolding finish_delay
finish_delay-low d m r hd hm = ground arith

finish_delay-high : (d m r : ℕ) → finish_delay d m r ≤ m
unfolding finish_delay
finish_delay-high d m r = ground arith

double_delay-low : (n d m r : ℕ) → 0 < d → 0 < m → 0 < double_delay n d m r
unfolding double_delay
double_delay-low zero d m r hd hm = finish_delay-low d m r hd hm
double_delay-low (suc n) d m r hd hm = elim (Bool-cases (leb (m / 2) d)) [
  | inl e ↦ rw e hm
  | inr e ↦ rw e (double_delay-low n (d * 2) m r (omega arith) hm)
]

double_delay-high : (n d m r : ℕ) → double_delay n d m r ≤ m
unfolding double_delay
double_delay-high zero d m r = finish_delay-high d m r
double_delay-high (suc n) d m r = elim (Bool-cases (leb (m / 2) d)) [
  | inl e ↦ rw e (omega arith)
  | inr e ↦ rw e (double_delay-high n (d * 2) m r)
]

delay_with-IsBetween :
    (j : Option JitterFunc) (key : Text) (n : ℤ) (b m : ℕ)
    → 0 < b
    → b ≤ m
    → m % 1000 ≡ 0
    → IsBetween b m (delay_with j key n b m)
unfolding delay_with
delay_with-IsBetween none key n b m hb hm whole = normalize_retry_delay-IsBetween b m hb hm whole
delay_with-IsBetween (some j) key n b m hb hm whole =
    let c = clamp_jitter (j key n b) b m in
    let low = clamp_jitter-low (j key n b) b m hm in
    let high = clamp_jitter-high (j key n b) b m in
    let norm = normalize_retry_delay-IsBetween c m (omega (arith, low)) high whole in
    record {
      at_least = omega (arith, norm.at_least, low);
      at_most = norm.at_most;
      whole = norm.whole;
    }

-- The two durations of a policy that the processor takes as it stands.
record IsTaken (p : RetryPolicy) : Type 0 where
  initial : ℕ
  cap : ℕ
  is_initial : p.initial_delay ≡ pos initial
  is_cap : p.max_delay ≡ pos cap
  positive : 0 < initial
  ordered : initial ≤ cap
  bounded : cap ≤ 86400000000000
  whole : cap % 1000 ≡ 0

delays_taken :
    (i m : ℕ)
    → are_refused_delays (pos i) (pos m) ≡ false
    → (0 < i) × (i ≤ m) × (m ≤ 86400000000000) × (m % 1000 ≡ 0)
unfolding are_refused_delays validate_retry_delay Base.rem
delays_taken i m h = (ground arith, ground arith, ground arith, ground arith)

refused_negative : (i : ℕ) (m : ℤ) → true ≡ are_refused_delays (negsuc i) m
unfolding are_refused_delays validate_retry_delay
refused_negative i (pos m) = ground arith
refused_negative i (negsuc m) = ground arith

refused : (i m : ℕ) → true ≡ are_refused_delays (pos i) (negsuc m)
unfolding are_refused_delays validate_retry_delay
refused i m = ground arith

IsTaken-delays :
    (p : RetryPolicy) → are_refused_delays p.initial_delay p.max_delay ≡ false → IsTaken p
unfolding are_refused_delays validate_retry_delay
IsTaken-delays p h = by_sign p.initial_delay p.max_delay refl refl h
  where
    by_sign :
        (i m : ℤ)
        → p.initial_delay ≡ i
        → p.max_delay ≡ m
        → are_refused_delays i m ≡ false
        → IsTaken p
    by_sign (pos i) (pos m) hi hm k =
        let (positive, ordered, bounded, whole) = delays_taken i m k in
        record {
          initial = i;
          cap = m;
          is_initial = hi;
          is_cap = hm;
          positive = positive;
          ordered = ordered;
          bounded = bounded;
          whole = whole;
        }
    by_sign (negsuc i) m hi hm k = absurd (true-ne-false (refused_negative i m ∙ k))
    by_sign (pos i) (negsuc m) hi hm k = absurd (true-ne-false (refused i m ∙ k))

effective_initial-pos :
    (q : RetryPolicy) (i : ℕ) → q.initial_delay ≡ pos i → 0 < i → effective_initial q ≡ i
unfolding effective_initial
effective_initial-pos q i e h = rw e (ground arith)

effective_max-pos :
    (q : RetryPolicy) (i m : ℕ)
    → q.max_delay ≡ pos m
    → effective_initial q ≡ i
    → i ≤ m
    → effective_max q ≡ m
unfolding effective_max
effective_max-pos q i m e f h = rw (f, e) (ground arith)

max_delay_of-pos :
    (q : RetryPolicy) (i m : ℕ)
    → q.initial_delay ≡ pos i
    → q.max_delay ≡ pos m
    → 0 < i
    → i ≤ m
    → max_delay_of q ≡ m
unfolding max_delay_of
max_delay_of-pos q i m e f g h = rw (e, f) (ground arith)

validate_retry_delay-of-bounds :
    (d : ℕ) → d ≤ 86400000000000 → d % 1000 ≡ 0 → validate_retry_delay (pos d) ≡ true
unfolding validate_retry_delay Base.rem
validate_retry_delay-of-bounds d h k = ground arith

-- The defaults of baseDelay and of maxDelay do not come in.
base_delay-taken :
    (q : RetryPolicy) (t : IsTaken q) (n r : ℤ)
    → (0 < base_delay q n r) × (base_delay q n r ≤ max_delay_of q) × (max_delay_of q ≡ t.cap)
unfolding base_delay
base_delay-taken q t n r = (
  double_delay-low (rounds_of n) (effective_initial q) (effective_max q) (nanoseconds r)
      (rw initial t.positive) (rw highest (omega (arith, t.positive, t.ordered))),
  rw (cap, highest) (double_delay-high (rounds_of n) (effective_initial q) t.cap (nanoseconds r)),
  cap,
)
  where
    initial : effective_initial q ≡ t.initial
    initial = effective_initial-pos q t.initial t.is_initial t.positive

    highest : effective_max q ≡ t.cap
    highest = effective_max-pos q t.initial t.cap t.is_cap initial t.ordered

    cap : max_delay_of q ≡ t.cap
    cap = max_delay_of-pos q t.initial t.cap t.is_initial t.is_cap t.positive t.ordered

module _ (hash16 : Text → ℤ → ℕ) where
  default-IsTaken : IsTaken (default_retry_policy hash16)
  default-IsTaken = record {
    initial = 2000000000;
    cap = 60000000000;
    is_initial = refl;
    is_cap = refl;
    positive = omega arith;
    ordered = omega arith;
    bounded = omega arith;
    whole = omega arith;
  }

  processor_policy-IsTaken : (p q : RetryPolicy) → processor_policy hash16 p ≡ ok q → IsTaken q
  unfolding processor_policy
  processor_policy-IsTaken p q h =
      elim (if-eq-ok-cases (eqb_ℤ p.initial_delay (pos 0) && eqb_ℤ p.max_delay (pos 0)) _ _ h) [
        | inl (_, k) ↦ subst IsTaken (ok-injective k) default-IsTaken
        | inr (_, k) ↦
            elim (if-eq-ok-cases (are_refused_delays p.initial_delay p.max_delay) _ _ k) [
              | inl (_, e) ↦ absurd (err-ne-ok e)
              | inr (kept, e) ↦ subst IsTaken (ok-injective e) (IsTaken-delays _ kept)
            ]
      ]

  -- Under the policy of a processor every delay, whatever the key, the attempt, the time that the
  -- provider asks for and the jitter, is one that the outbox takes, and it lies between the base
  -- delay, which is positive, and the policy's maximum.
  pub delay-IsBetween :
      (p q : RetryPolicy) (key : Text) (attempt_count retry_after : ℤ)
      → processor_policy hash16 p ≡ ok q
      → (validate_retry_delay (pos (delay q key attempt_count retry_after)) ≡ true)
        × (0 < base_delay q attempt_count retry_after)
        × IsBetween
            (base_delay q attempt_count retry_after)
            (max_delay_of q)
            (delay q key attempt_count retry_after)
  unfolding delay
  delay-IsBetween p q key attempt_count retry_after h =
      let t = processor_policy-IsTaken p q h in
      let (low, high, cap) = base_delay-taken q t attempt_count retry_after in
      let d =
        delay_with-IsBetween q.jitter key attempt_count (base_delay q attempt_count retry_after)
          (max_delay_of q) low high (rw cap t.whole) in
      (
        validate_retry_delay-of-bounds (delay q key attempt_count retry_after)
            (omega (arith, d.at_most, cap, t.bounded)) d.whole,
        low,
        d,
      )
