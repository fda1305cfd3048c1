-- ===== src/Limiter/Scenarios.antt =====
-- Two requests a minute for each of two clients.
use lapangan_go.Base.{ℕ, ◌≡◌, ◌≤◌, refl, arith, true, false, List, [], ◌∷◌, none, Text, text, max}
use lapangan_go.Base
use lapangan_go.Limiter.Memory.{MemoryRateLimiter}
use lapangan_go.Limiter.Memory
use lapangan_go.Limiter.Windows.{
  LimiterEvent, request, sweep, decisions, client_decisions, count_passed,
  decisions-client_decisions, decisions-limit,
}
use lapangan_go.Limiter.Windows

abbrev two_a_minute : MemoryRateLimiter
two_a_minute = record { limit = 2; window = 60; prefix = text "login" }

abbrev events : List LimiterEvent
events =
    request (text "b") 11
    ∷ request (text "a") 20
    ∷ request (text "a") 30
    ∷ sweep 40
    ∷ request (text "a") 69
    ∷ []

decided :
    decisions two_a_minute (text "a") (request (text "a") 10 ∷ events) (λ _. none)
    ≡ true ∷ true ∷ false ∷ false ∷ []
unfolding Windows.decisions Memory.handle Memory.count_request Memory.cleanup Base.text_eq
decided = refl

decisions-client_decisions_example :
    decisions two_a_minute (text "a") events (λ _. none)
    ≡ client_decisions two_a_minute (text "a") events none
decisions-client_decisions_example =
    decisions-client_decisions two_a_minute (text "a") events 11
      (omega arith, (omega arith, (omega arith, (omega arith, (omega arith, tt)))))

decisions-limit_example :
    count_passed (decisions two_a_minute (text "a") (request (text "a") 10 ∷ events) (λ _. none))
    ≤ max 2 1
decisions-limit_example =
    decisions-limit two_a_minute (text "a") events 10
      (omega arith, (omega arith, (omega arith, (omega arith, (omega arith, tt)))))
      (omega arith, (omega arith, (omega arith, (omega arith, (omega arith, tt)))))
