-- ===== src/Limiter/Windows.antt =====
-- Each client of the limiter (apps/api/internal/middleware/rate_limiter.go) has windows of its own, in
-- which no more than the limit is let through.
use lapangan_go.Base.{
  ℕ, suc, ◌+◌, ◌≤◌, ◌<◌, max, ◌≡◌, refl, sym, ap, ap₂, ◌∙◌, arith, Bool, true, false, List, [], ◌∷◌,
  if◌then◌else◌, leb, Option, none, some, Text, text_eq, text_eq→eq, Bool-cases, ◌⊎◌, inl, inr, All,
  none-ne-some, leb→le, text_eq_refl,
}
use lapangan_go.Limiter.Memory.{
  ClientInfo, Clients, MemoryRateLimiter, is_over, set_client, kept, cleanup, count_request, key_of,
  handle,
}

pub data LimiterEvent : Type 0 where
  request : Text → ℕ → LimiterEvent
  sweep : ℕ → LimiterEvent

-- What the requests of one address are answered, among all events.
unfoldable pub decisions : MemoryRateLimiter → Text → List LimiterEvent → Clients → List Bool
unfolding handle
decisions rl ip [] clients = []
decisions rl ip (request other now ∷ es) clients =
    let (passed, clients') = handle rl now other clients in
    let rest = decisions rl ip es clients' in
    if text_eq (key_of rl other) (key_of rl ip) then passed ∷ rest else rest
decisions rl ip (sweep now ∷ es) clients = decisions rl ip es (cleanup rl now clients)

-- The same for a client that is alone, and is never swept away.
unfoldable pub client_decisions :
    MemoryRateLimiter → Text → List LimiterEvent → Option ClientInfo → List Bool
unfolding count_request
client_decisions rl ip [] state = []
client_decisions rl ip (request other now ∷ es) state =
    let (passed, info) = count_request rl now state in
    let mine = client_decisions rl ip es (some info) in
    let rest = client_decisions rl ip es state in
    if text_eq (key_of rl other) (key_of rl ip) then passed ∷ mine else rest
client_decisions rl ip (sweep now ∷ es) state = client_decisions rl ip es state

abbrev pub time_of : LimiterEvent → ℕ
time_of (request _ now) = now
time_of (sweep now) = now

-- The clock does not go back.
abbrev pub IsChronological : ℕ → List LimiterEvent → Type 0
IsChronological now [] = Unit
IsChronological now (e ∷ es) = (now ≤ time_of e) × IsChronological (time_of e) es

-- A client that was swept away had a window that is over.
abbrev IsShadow : MemoryRateLimiter → ℕ → Option ClientInfo → Option ClientInfo → Type 0
IsShadow rl now known state =
    (known ≡ state)
    ⊎ ((known ≡ none)
        × (info : ClientInfo) × (state ≡ some info)
        × (info.window_start + rl.window ≤ now))

IsShadow-later :
    (rl : MemoryRateLimiter) (now then_ : ℕ) (known state : Option ClientInfo)
    → now ≤ then_
    → IsShadow rl now known state
    → IsShadow rl then_ known state
IsShadow-later rl now then_ known state h (inl e) = inl e
IsShadow-later rl now then_ known state h (inr (e, info, k, over)) = inr (e, info, k, omega arith)

-- The answer is the same, and what is then known too.
count_request-IsShadow :
    (rl : MemoryRateLimiter) (now : ℕ) (known state : Option ClientInfo)
    → IsShadow rl now known state
    → count_request rl now known ≡ count_request rl now state
unfolding count_request
count_request-IsShadow rl now known state (inl e) = ap (count_request rl now) e
count_request-IsShadow rl now known state (inr (e, info, k, over)) =
    rw (e, k) (ground (arith, over))

IsShadow-swept :
    (rl : MemoryRateLimiter) (now : ℕ) (known state : Option ClientInfo)
    → IsShadow rl now known state
    → IsShadow rl now (kept rl now known) state
IsShadow-swept rl now none state h = h
IsShadow-swept rl now (some info) state (inr (e, _, _, _)) = absurd (none-ne-some (sym e))
IsShadow-swept rl now (some info) state (inl e) = elim (Bool-cases (is_over rl now info)) [
  | inl over ↦ rw over (inr (refl, info, sym e, leb→le _ _ over))
  | inr fresh ↦ rw fresh (inl e)
]

set_client-same :
    (key : Text) (info : ClientInfo) (clients : Clients)
    → set_client key info clients key ≡ some info
set_client-same key info clients = rw (text_eq_refl key) refl

module _ (rl : MemoryRateLimiter) (ip : Text) where
  -- The decisions on an address, whatever the other clients do and whenever the sweeps come.
  decisions-alone :
      (es : List LimiterEvent) (now : ℕ) (clients : Clients) (state : Option ClientInfo)
      → IsShadow rl now (clients (key_of rl ip)) state
      → IsChronological now es
      → decisions rl ip es clients ≡ client_decisions rl ip es state
  unfolding decisions client_decisions handle cleanup
  decisions-alone [] now clients state shadow order = refl
  decisions-alone (sweep t ∷ es) now clients state shadow order =
      decisions-alone es t (cleanup rl t clients) state
        (IsShadow-swept rl t _ _ (IsShadow-later rl now t _ _ order.0 shadow)) order.1
  decisions-alone (request other t ∷ es) now clients state shadow order =
      elim (Bool-cases (text_eq (key_of rl other) (key_of rl ip))) [
        | inl same ↦
            let counted : count_request rl t (clients (key_of rl other))
                ≡ count_request rl t state =
              ap (λ k. count_request rl t (clients k)) (text_eq→eq _ _ same)
              ∙ count_request-IsShadow rl t _ _ (IsShadow-later rl now t _ _ order.0 shadow) in
            rw same (
              ap₂ (λ (b : Bool) (l : List Bool). b ∷ l)
                (ap (λ (q : Bool × ClientInfo). q.0) counted)
                (decisions-alone es t _ _
                  (inl (rw same (ap (λ (q : Bool × ClientInfo). some q.1) counted))) order.1))
        | inr differs ↦ rw differs (
            decisions-alone es t _ state (rw differs (IsShadow-later rl now t _ _ order.0 shadow))
              order.1)
      ]

-- Among any requests of other clients and any sweeps, in the order of the clock, a client without
-- requests before gets the answers that it would get alone and without sweeps.
pub decisions-client_decisions :
    (rl : MemoryRateLimiter) (ip : Text) (es : List LimiterEvent) (now : ℕ)
    → IsChronological now es
    → decisions rl ip es (λ _. none) ≡ client_decisions rl ip es none
decisions-client_decisions rl ip es now order =
    decisions-alone rl ip es now (λ _. none) none (inl refl) order

abbrev pub count_passed : List Bool → ℕ
count_passed [] = 0
count_passed (true ∷ bs) = suc (count_passed bs)
count_passed (false ∷ bs) = count_passed bs

-- The events of a window.
abbrev pub IsWithin : ℕ → List LimiterEvent → Type 0
IsWithin end = All (λ e. time_of e < end)

client_decisions-window :
    (rl : MemoryRateLimiter) (ip : Text) (es : List LimiterEvent) (info : ClientInfo)
    → IsWithin (info.window_start + rl.window) es
    → count_passed (client_decisions rl ip es (some info)) + info.count ≤ max rl.limit info.count
unfolding client_decisions count_request
client_decisions-window rl ip [] info h = omega arith
client_decisions-window rl ip (sweep t ∷ es) info h = client_decisions-window rl ip es info h.1
client_decisions-window rl ip (request other t ∷ es) info h =
    let mine = client_decisions-window rl ip es (record info { count = suc (info.count) }) h.1 in
    let rest = client_decisions-window rl ip es info h.1 in
    elim (Bool-cases (text_eq (key_of rl other) (key_of rl ip))) [
      | inr differs ↦ rw differs rest
      | inl same ↦
          let fresh : is_over rl t info ≡ false = ground (arith, h.0) in
          elim (Bool-cases (leb (suc (info.count)) rl.limit)) [
            | inl below ↦ rw (same, fresh, below) (ground (arith, mine, below))
            | inr above ↦ rw (same, fresh, above) (ground (arith, mine, above))
          ]
    ]

client_decisions-first :
    (rl : MemoryRateLimiter) (ip : Text) (es : List LimiterEvent) (now : ℕ)
    → client_decisions rl ip (request ip now ∷ es) none
      ≡ true ∷ client_decisions rl ip es (some (record { count = 1; window_start = now }))
unfolding client_decisions count_request
client_decisions-first rl ip es now = rw (text_eq_refl (key_of rl ip)) refl

-- From the first request of a client to the end of the window that it starts, no more of its requests
-- are let through than the limit, and the first one, whatever other clients ask and whenever the
-- sweeps come.
pub decisions-limit :
    (rl : MemoryRateLimiter) (ip : Text) (es : List LimiterEvent) (now : ℕ)
    → IsChronological now es
    → IsWithin (now + rl.window) es
    → count_passed (decisions rl ip (request ip now ∷ es) (λ _. none)) ≤ max rl.limit 1
decisions-limit rl ip es now order within =
    rw (decisions-client_decisions rl ip (request ip now ∷ es) now (omega arith, order))
      (first (client_decisions-window rl ip es (record { count = 1; window_start = now }) within))
  where
    first :
        count_passed (client_decisions rl ip es (some (record { count = 1; window_start = now })))
            + 1
          ≤ max rl.limit 1
        → count_passed (client_decisions rl ip (request ip now ∷ es) none) ≤ max rl.limit 1
    first h = rw (client_decisions-first rl ip es now) (omega arith)
