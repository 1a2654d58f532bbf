-- ===== src/RateLimit/Login.antt =====
-- `LoginAttemptTracker`: failed logins for each email, and the lockout.
pub mod Lockout
use fin_arch.Base.{
  ℕ, ◌+◌, Bool, true, false, ◌||◌, not, Option, none, some, List, [], ◌∷◌, ltb, leb, ◌==◌,
  if◌then◌else◌, max, Text, CaseTable, to_lower, trim_space, update, erase, retain,
}

pub record AttemptEntry : Type 0 where
  pub failures : ℕ
  pub locked_until : ℕ
  pub last_failure : ℕ

pub record LoginAttemptTracker : Type 0 where
  pub entries : Text → Option AttemptEntry
  pub max_failures : ℕ
  pub lockout : ℕ

-- `NewLoginAttemptTracker`
pub new_login_attempt_tracker : ℕ → ℕ → LoginAttemptTracker
new_login_attempt_tracker max_failures lockout = record {
  entries = λ _. none;
  max_failures = max_failures;
  lockout = lockout;
}

-- `time.Hour`
abbrev pub hour : ℕ
hour = 3_600_000_000_000

-- `e := &attemptEntry{}` for a key that has none.
abbrev pub entry_or_new : Option AttemptEntry → AttemptEntry
entry_or_new none = record { failures = 0; locked_until = 0; last_failure = 0 }
entry_or_new (some e) = e

pub count_failure : LoginAttemptTracker → AttemptEntry → ℕ → AttemptEntry
count_failure t e now =
    let failures = e.failures + 1 in
    record {
      failures = failures;
      locked_until = if leb t.max_failures failures then now + t.lockout else e.locked_until;
      last_failure = now;
    }

abbrev pub retention_base : AttemptEntry → ℕ
retention_base e = if ltb e.last_failure e.locked_until then e.locked_until else e.last_failure

-- The test under which `cleanupExpired` deletes an entry.
abbrev pub is_stale : ℕ → AttemptEntry → Bool
is_stale now e = (e.failures == 0) || (retention_base e == 0) || ltb (retention_base e + hour) now

-- `cleanupExpired`
pub cleanup_expired : LoginAttemptTracker → ℕ → LoginAttemptTracker
cleanup_expired t now = record t { entries = retain (λ e. not (is_stale now e)) t.entries }

module _ (u : CaseTable) where
  unfoldable pub canonical_login_key : Text → Text
  canonical_login_key email = to_lower u (trim_space email)

  -- `IsLocked`
  pub is_locked : LoginAttemptTracker → Text → ℕ → Bool
  is_locked t email now = elim (t.entries (canonical_login_key email)) [
    | none ↦ false
    | some e ↦ ltb now e.locked_until
  ]

  -- `RecordFailure`
  pub record_failure : LoginAttemptTracker → Text → ℕ → LoginAttemptTracker
  unfolding count_failure
  record_failure t email now =
      let key = canonical_login_key email in
      record t {
        entries = update t.entries key (count_failure t (entry_or_new (t.entries key)) now);
      }

  -- `RecordSuccess`
  pub record_success : LoginAttemptTracker → Text → LoginAttemptTracker
  record_success t email = record t { entries = erase t.entries (canonical_login_key email) }

-- What happens to a tracker. `succeed` is a login that succeeds, `tick` a tick of the cleaner.
pub data Event : Type 0 where
  fail : Text → ℕ → Event
  succeed : Text → Event
  tick : ℕ → Event

module _ (u : CaseTable) where
  pub step : LoginAttemptTracker → Event → LoginAttemptTracker
  unfolding record_failure record_success cleanup_expired
  step t (fail email now) = record_failure u t email now
  step t (succeed email) = record_success u t email
  step t (tick now) = cleanup_expired t now

  pub run : LoginAttemptTracker → List Event → LoginAttemptTracker
  unfolding step
  run t [] = t
  run t (e ∷ es) = run (step t e) es
