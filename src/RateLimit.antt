-- ===== src/RateLimit.antt =====
-- internal/infrastructure/auth/ratelimit.go. A time is the number of nanoseconds since Go's zero
-- time, and `time.Now()` is an argument `now` of each call; durations are not negative. The mutex
-- makes each call one step. The counters are plain numbers, since an `int` takes 2^63 calls to wrap.
pub mod Limiter
pub mod Login
mod Tests
