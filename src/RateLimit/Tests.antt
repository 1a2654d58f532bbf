-- ===== src/RateLimit/Tests.antt =====
-- The theorems on rate limits at a few requests and logins.
use fin_arch.Base.{
  ◌+◌, ◌*◌, ◌≤◌, ◌≡◌, refl, ◌&&◌, none, List, [], ◌∷◌, arith, Text, text, text_eq, ascii_table, ltb,
  leb, trim_space, to_lower, lower_rune, trim_left, trim_right, is_space,
}
use fin_arch.RateLimit.Limiter.{IpRateLimiter, Event, request, tick}
use fin_arch.RateLimit.Limiter.Bounds.{allowed, allowed-le-twice}
use fin_arch.RateLimit.Login.{
  LoginAttemptTracker, is_locked, record_failure, run, fail, succeed, canonical_login_key,
}
use fin_arch.RateLimit.Login.{Event as LoginEvent}
use fin_arch.RateLimit.Login.Lockout.{IsTracker, is_locked_exactly, failures_in, last_failure_after}

abbrev home : Text
home = text "10.0.0.1"

abbrev limiter : IpRateLimiter
limiter = record { windows = λ k. none; max = 2; duration = 60 }

abbrev burst : List Event
burst =
    request home 100
    ∷ request (text "10.0.0.2") 101
    ∷ request home 102
    ∷ tick 110
    ∷ request home 120
    ∷ []

allowed-le-twice_example : allowed home limiter burst ≤ 2 * 2
allowed-le-twice_example = allowed-le-twice home 100 limiter burst (omega arith) (ground arith)

abbrev tracker : LoginAttemptTracker
tracker = record { entries = λ k. none; max_failures = 2; lockout = 900 }

abbrev ann : Text
ann = text "ann@x.org"

abbrev logins : List LoginEvent
logins = fail ann 1010 ∷ succeed (text "bob@x.org") ∷ fail ann 1020 ∷ []

tracker-IsTracker : IsTracker tracker
tracker-IsTracker k = tt

is_locked_exactly_example :
    is_locked ascii_table
      (run ascii_table (record_failure ascii_table tracker ann 1000) logins)
      ann
      1600
    ≡ (leb 2 (1 + failures_in ascii_table ann logins)
        && ltb 1600 (last_failure_after ascii_table ann 1000 logins + 900))
unfolding canonical_login_key trim_space to_lower lower_rune trim_left trim_right is_space text_eq
is_locked_exactly_example =
    is_locked_exactly ascii_table tracker ann 1000 logins 1600 tracker-IsTracker (omega arith) refl
      (omega arith, ((λ e. absurd (ground arith)), (omega arith, tt)))
