-- ===== src/Limiter/Memory.antt =====
-- MemoryRateLimiter of apps/api/internal/middleware/rate_limiter.go. The map of clients is a function.
-- The mutex makes every request and every sweep one step.
use lapangan_go.Base.{
  ℕ, suc, ◌+◌, Bool, true, ◌++◌, if◌then◌else◌, leb, Option, none, some, Text, text, text_eq,
}

pub record ClientInfo : Type 0 where
  pub count : ℕ
  pub window_start : ℕ

abbrev pub Clients : Type 0
Clients = Text → Option ClientInfo

pub record MemoryRateLimiter : Type 0 where
  pub limit : ℕ
  pub window : ℕ
  pub prefix : Text

-- `now.Sub(info.windowStart) >= rl.window`
abbrev pub is_over : MemoryRateLimiter → ℕ → ClientInfo → Bool
is_over rl now info = leb (info.window_start + rl.window) now

abbrev pub set_client : Text → ClientInfo → Clients → Clients
set_client key info clients k = if text_eq key k then some info else clients k

abbrev pub kept : MemoryRateLimiter → ℕ → Option ClientInfo → Option ClientInfo
kept rl now none = none
kept rl now (some info) = if is_over rl now info then none else some info

-- One tick of the goroutine that sweeps.
unfoldable pub cleanup : MemoryRateLimiter → ℕ → Clients → Clients
cleanup rl now clients key = kept rl now (clients key)

-- Is the request let through, and what is then known of its client.
unfoldable pub count_request : MemoryRateLimiter → ℕ → Option ClientInfo → Bool × ClientInfo
count_request rl now none = (true, record { count = 1; window_start = now })
count_request rl now (some info) =
    if is_over rl now info
    then (true, record { count = 1; window_start = now })
    else (leb (suc (info.count)) rl.limit, record info { count = suc (info.count) })

abbrev pub key_of : MemoryRateLimiter → Text → Text
key_of rl ip = rl.prefix ++ text ":" ++ ip

unfoldable pub handle : MemoryRateLimiter → ℕ → Text → Clients → Bool × Clients
unfolding count_request
handle rl now ip clients =
    let (passed, info) = count_request rl now (clients (key_of rl ip)) in
    (passed, set_client (key_of rl ip) info clients)
