-- ===== src/Worker/Retry.antt =====
-- The delay before a command is tried again: apps/api/internal/paymentworker/policy.go. After the
-- defaults every duration here is positive, so the loop runs on natural numbers of nanoseconds; a
-- jitter function of the caller may return any int64.
pub mod Bounds
pub mod Exponential
pub mod Jitter
use lapangan_go.Base.{
  ℕ, ◌+◌, ◌-◌, ◌*◌, ◌/◌, ◌%◌, zero, suc, Bool, true, false, ◌||◌, Option, none, some, if◌then◌else◌,
  leb, ltb, ◌==◌, Text, ℤ, pos, negsuc, ltb_ℤ, leb_ℤ, truncate_us, mul64, add64, quot, not, ◌&&◌,
  eqb_ℤ, Result, ok, err,
}
use lapangan_go.Outbox.Types.{OutboxError, invalid_command, validate_retry_delay}

abbrev pub JitterFunc : Type 0
JitterFunc = Text → ℤ → ℕ → ℤ

-- At most ten percent more, by the first two bytes of a hash of the key and the attempt, which is
-- the parameter `hash16`.
unfoldable pub deterministic_jitter : (Text → ℤ → ℕ) → JitterFunc
deterministic_jitter hash16 key attempt base =
    if base == 0
    then pos 0
    else add64 (pos base) (quot (mul64 (pos base) (pos (hash16 key attempt % 1001))) 10000)

pub record RetryPolicy : Type 0 where
  pub initial_delay : ℤ
  pub max_delay : ℤ
  pub jitter : Option JitterFunc

-- A duration of which the code has ruled out the negative values.
abbrev pub nanoseconds : ℤ → ℕ
nanoseconds (pos n) = n
nanoseconds (negsuc _) = 0

-- InitialDelay and MaxDelay of baseDelay, after its defaults.
unfoldable pub effective_initial : RetryPolicy → ℕ
effective_initial p =
    if leb_ℤ p.initial_delay (pos 0) then 2000000000 else nanoseconds p.initial_delay

unfoldable pub effective_max : RetryPolicy → ℕ
effective_max p =
    if ltb_ℤ p.max_delay (pos (effective_initial p)) then 60000000000 else nanoseconds p.max_delay

-- `attemptCount - 1` rounds of the loop, once attempts below 1 count as 1.
abbrev pub rounds_of : ℤ → ℕ
rounds_of (pos n) = n - 1
rounds_of (negsuc _) = 0

-- What follows the loop.
unfoldable pub finish_delay : ℕ → ℕ → ℕ → ℕ
finish_delay delay max retry_after =
    let capped = if ltb max delay then max else delay in
    if ltb capped retry_after then if ltb max retry_after then max else retry_after else capped

unfoldable pub double_delay : ℕ → ℕ → ℕ → ℕ → ℕ
unfolding finish_delay
double_delay zero delay max retry_after = finish_delay delay max retry_after
double_delay (suc n) delay max retry_after =
    let rest = double_delay n (delay * 2) max retry_after in
    if leb (max / 2) delay then max else rest

unfoldable pub base_delay : RetryPolicy → ℤ → ℤ → ℕ
base_delay p attempt_count retry_after =
    double_delay (rounds_of attempt_count) (effective_initial p) (effective_max p)
      (nanoseconds retry_after)

-- maxDelay, the cap.
unfoldable pub max_delay_of : RetryPolicy → ℕ
max_delay_of p =
    if ltb_ℤ p.max_delay p.initial_delay || leb_ℤ p.max_delay (pos 0)
    then 60000000000
    else nanoseconds p.max_delay

unfoldable pub normalize_retry_delay : ℕ → ℕ → ℕ
normalize_retry_delay value max =
    let m = truncate_us max in
    let remainder = value % 1000 in
    let rounded = if remainder == 0 then value else value + (1000 - remainder) in
    if (value == 0) || (max == 0)
    then 0
    else if m == 0
    then 0
    else if leb m value
    then m
    else if ltb m rounded
    then m
    else rounded

-- A jittered delay between the base and the cap.
unfoldable pub clamp_jitter : ℤ → ℕ → ℕ → ℕ
clamp_jitter jittered base max =
    let delayed = if ltb_ℤ jittered (pos base) then base else nanoseconds jittered in
    if ltb max delayed then max else delayed

unfoldable pub delay_with : Option JitterFunc → Text → ℤ → ℕ → ℕ → ℕ
delay_with none key attempt_count base max = normalize_retry_delay base max
delay_with (some jitter) key attempt_count base max =
    normalize_retry_delay (clamp_jitter (jitter key attempt_count base) base max) max

-- Delay
unfoldable pub delay : RetryPolicy → Text → ℤ → ℤ → ℕ
delay p key attempt_count retry_after =
    delay_with p.jitter key attempt_count (base_delay p attempt_count retry_after) (max_delay_of p)

-- What NewProcessor makes of the policy it is given.
unfoldable pub are_refused_delays : ℤ → ℤ → Bool
are_refused_delays initial cap =
    leb_ℤ initial (pos 0)
    || not (validate_retry_delay initial)
    || not (validate_retry_delay cap)
    || ltb_ℤ cap initial

abbrev jitter_or : JitterFunc → Option JitterFunc → JitterFunc
jitter_or default none = default
jitter_or default (some j) = j

abbrev pub default_retry_policy : (Text → ℤ → ℕ) → RetryPolicy
default_retry_policy hash16 = record {
  initial_delay = pos 2000000000;
  max_delay = pos 60000000000;
  jitter = some (deterministic_jitter hash16);
}

unfoldable pub processor_policy : (Text → ℤ → ℕ) → RetryPolicy → Result OutboxError RetryPolicy
processor_policy hash16 p =
    if eqb_ℤ p.initial_delay (pos 0) && eqb_ℤ p.max_delay (pos 0)
    then ok (default_retry_policy hash16)
    else if are_refused_delays p.initial_delay p.max_delay
    then err invalid_command
    else ok (record p { jitter = some (jitter_or (deterministic_jitter hash16) p.jitter) })
