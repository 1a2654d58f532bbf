-- ===== src/RateLimit/Limiter.antt =====
-- `IPRateLimiter`: a fixed window of hits for each key.
pub mod Bounds
use fin_arch.Base.{
  ℕ, suc, ◌+◌, ◌≡◌, Bool, true, false, ◌||◌, not, Option, none, some, List, [], ◌∷◌, ltb, leb,
  if◌then◌else◌, Text, update, retain,
}

pub record FixedWindow : Type 0 where
  pub count : ℕ
  pub window_end : ℕ

pub record IpRateLimiter : Type 0 where
  pub windows : Text → Option FixedWindow
  pub max : ℕ
  pub duration : ℕ

-- `NewIPRateLimiter`
pub new_ip_rate_limiter : ℕ → ℕ → IpRateLimiter
new_ip_rate_limiter max duration = record { windows = λ _. none; max = max; duration = duration }

open_window : IpRateLimiter → Text → ℕ → IpRateLimiter × Bool
open_window l key now = (record l { windows = update l.windows key fresh }, true)
  where
    fresh : FixedWindow
    fresh = record { count = 1; window_end = now + l.duration }

count_hit : IpRateLimiter → Text → FixedWindow → IpRateLimiter × Bool
count_hit l key w =
    if leb l.max w.count
    then (l, false)
    else (record l { windows = update l.windows key (record w { count = w.count + 1 }) }, true)

-- `Allow`
pub allow : IpRateLimiter → Text → ℕ → IpRateLimiter × Bool
unfolding open_window count_hit
allow l key now = elim (l.windows key) [
  | none ↦ open_window l key now
  | some w ↦ if ltb w.window_end now then open_window l key now else count_hit l key w
]

-- One tick of `cleanupLoop`.
pub cleanup : IpRateLimiter → ℕ → IpRateLimiter
cleanup l now = record l { windows = retain (λ w. not (ltb w.window_end now)) l.windows }

-- What happens to a limiter: a request of a key, or a tick of the cleaner.
pub data Event : Type 0 where
  request : Text → ℕ → Event
  tick : ℕ → Event

abbrev pub time_of : Event → ℕ
time_of (request k now) = now
time_of (tick now) = now

pub step : IpRateLimiter → Event → IpRateLimiter
unfolding allow cleanup
step l (request k now) = (allow l k now).0
step l (tick now) = cleanup l now
