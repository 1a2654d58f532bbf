-- ===== src/RateLimit/Login/Lockout.antt =====
-- When a `LoginAttemptTracker` locks an account, and that its cleaner never unlocks one.
use native.Mathlib.Nat.{add-zero, add_assoc}
use fin_arch.Base.{
  ℕ, ◌+◌, ◌≤◌, ◌<◌, ◌≡◌, ◌≢◌, refl, ◌&&◌, Option, none, some, List, [], ◌∷◌, arith, ltb, leb,
  if◌then◌else◌, Text, text_eq, text_eq_iff, CaseTable, ◌∙◌,
}
use fin_arch.RateLimit.Login.{
  AttemptEntry, LoginAttemptTracker, Event, fail, succeed, tick, canonical_login_key, is_locked,
  record_failure, cleanup_expired, step, run, new_login_attempt_tracker, hour,
}

-- What holds of an entry between two calls: it counts at least one failure, and a lockout that it
-- has began with the last failure.
pub record IsEntry (t : LoginAttemptTracker) (e : AttemptEntry) : Type 0 where
  pub counted : 0 < e.failures
  pub below : e.failures < t.max_failures → e.locked_until ≡ 0
  pub reached : t.max_failures ≤ e.failures → e.locked_until ≡ e.last_failure + t.lockout

abbrev pub IsSlot : LoginAttemptTracker → Option AttemptEntry → Type 0
IsSlot t none = Unit
IsSlot t (some e) = IsEntry t e

abbrev pub IsTracker : LoginAttemptTracker → Type 0
IsTracker t = (k : Text) → IsSlot t (t.entries k)

-- A new tracker has no entry.
pub new-IsTracker : (max lockout : ℕ) → IsTracker (new_login_attempt_tracker max lockout)
unfolding new_login_attempt_tracker
new-IsTracker max lockout k = tt

module _ (u : CaseTable) where
  -- Every failure, success and tick of the cleaner keeps the entries of a tracker well formed.
  pub step-IsTracker : (t : LoginAttemptTracker) (e : Event) → IsTracker t → IsTracker (step u t e)
  unfolding step
  step-IsTracker t (fail email now) h k =
      ground
        (arith, h k, h (canonical_login_key u email), text_eq_iff (canonical_login_key u email) k)
  step-IsTracker t (succeed email) h k = ground (arith, h k)
  step-IsTracker t (tick now) h k = ground (arith, h k)

  -- Any failures, successes and ticks of the cleaner keep the entries of a tracker well formed: each
  -- counts at least one failure, and is locked exactly from the maximal number of failures on, until
  -- the lockout after the last one.
  pub run-IsTracker :
      (t : LoginAttemptTracker) (es : List Event) → IsTracker t → IsTracker (run u t es)
  unfolding run
  run-IsTracker t [] h = h
  run-IsTracker t (e ∷ es) h = run-IsTracker (step u t e) es (step-IsTracker t e h)

  -- A tick of the cleaner at a time not later than `now` leaves unchanged whether an account is
  -- locked at `now`, in a well-formed tracker.
  pub cleanup-is_locked :
      (t : LoginAttemptTracker) (email : Text) (ticked now : ℕ)
      → IsTracker t
      → ticked ≤ now
      → is_locked u (cleanup_expired t ticked) email now ≡ is_locked u t email now
  unfolding is_locked cleanup_expired
  cleanup-is_locked t email ticked now h le = ground (arith, h (canonical_login_key u email))

  -- Two spellings with one canonical form are one account.
  pub same_account :
      (t : LoginAttemptTracker) (a b : Text) (now : ℕ)
      → canonical_login_key u a ≡ canonical_login_key u b
      → record_failure u t a now ≡ record_failure u t b now
  unfolding record_failure
  same_account t a b now e = rw e

  -- An event after which the failures of `email` since the last success are still remembered: no
  -- success of the account, and no tick of the cleaner more than an hour after its last failure.
  abbrev Keeps : Text → ℕ → Event → Type 0
  Keeps email last (fail other now) = last ≤ now
  Keeps email last (succeed other) = canonical_login_key u other ≢ canonical_login_key u email
  Keeps email last (tick now) = now ≤ last + hour

  -- The time of the last failure of `email`, and how many failures of it there are.
  abbrev last_of : Text → ℕ → Event → ℕ
  last_of email last (fail other now) =
      if text_eq (canonical_login_key u other) (canonical_login_key u email) then now else last
  last_of email last (succeed other) = last
  last_of email last (tick now) = last

  abbrev failures_of : Text → Event → ℕ
  failures_of email (fail other now) =
      if text_eq (canonical_login_key u other) (canonical_login_key u email) then 1 else 0
  failures_of email (succeed other) = 0
  failures_of email (tick now) = 0

  abbrev pub KeepsAll : Text → ℕ → List Event → Type 0
  KeepsAll email last [] = Unit
  KeepsAll email last (e ∷ es) = Keeps email last e × KeepsAll email (last_of email last e) es

  abbrev pub last_failure_after : Text → ℕ → List Event → ℕ
  last_failure_after email last [] = last
  last_failure_after email last (e ∷ es) = last_failure_after email (last_of email last e) es

  abbrev pub failures_in : Text → List Event → ℕ
  failures_in email [] = 0
  failures_in email (e ∷ es) = failures_of email e + failures_in email es

  -- A slot that records `n` failures, the last of them at `last`.
  abbrev Records : ℕ → ℕ → Option AttemptEntry → Type 0
  Records n last none = ⊥
  Records n last (some e) = (e.failures ≡ n) × (e.last_failure ≡ last)

  step-Records :
      (t : LoginAttemptTracker) (ev : Event) (email : Text) (n last : ℕ)
      → 0 < last
      → 0 < n
      → Records n last (t.entries (canonical_login_key u email))
      → Keeps email last ev
      → Records
          (n + failures_of email ev)
          (last_of email last ev)
          ((step u t ev).entries (canonical_login_key u email))
  unfolding step
  step-Records t (fail other now) email n last pl pn r k =
      ground (arith, text_eq_iff (canonical_login_key u other) (canonical_login_key u email))
  step-Records t (succeed other) email n last pl pn r k =
      ground (arith, text_eq_iff (canonical_login_key u other) (canonical_login_key u email))
  step-Records t (tick now) email n last pl pn r k = ground arith

  last_of-pos :
      (email : Text) (last : ℕ) (e : Event)
      → 0 < last
      → Keeps email last e
      → 0 < last_of email last e
  last_of-pos email last (fail other now) p k = ground arith
  last_of-pos email last (succeed other) p k = p
  last_of-pos email last (tick now) p k = p

  run-Records :
      (t : LoginAttemptTracker) (es : List Event) (email : Text) (n last : ℕ)
      → 0 < last
      → 0 < n
      → Records n last (t.entries (canonical_login_key u email))
      → KeepsAll email last es
      → Records
          (n + failures_in email es)
          (last_failure_after email last es)
          ((run u t es).entries (canonical_login_key u email))
  unfolding run
  run-Records t [] email n last pl pn r k = rw add-zero r
  run-Records t (e ∷ es) email n last pl pn r k =
      rw (← add_assoc n (failures_of email e) (failures_in email es)) (
        run-Records (step u t e) es email (n + failures_of email e) (last_of email last e)
          (last_of-pos email last e pl k.0) (omega arith)
          (step-Records t e email n last pl pn r k.0) k.1)

  run-max_failures :
      (t : LoginAttemptTracker) (es : List Event)
      → ((run u t es).max_failures ≡ t.max_failures) × ((run u t es).lockout ≡ t.lockout)
  unfolding run step
  run-max_failures t [] = (refl, refl)
  run-max_failures t (fail email now ∷ es) = run-max_failures (step u t (fail email now)) es
  run-max_failures t (succeed email ∷ es) = run-max_failures (step u t (succeed email)) es
  run-max_failures t (tick now ∷ es) = run-max_failures (step u t (tick now)) es

  locked_of-Records :
      (t : LoginAttemptTracker) (email : Text) (n last now m d : ℕ)
      → t.max_failures ≡ m
      → t.lockout ≡ d
      → IsTracker t
      → Records n last (t.entries (canonical_login_key u email))
      → is_locked u t email now ≡ (leb m n && ltb now (last + d))
  unfolding is_locked
  locked_of-Records t email n last now m d em ed h r =
      ground (arith, h (canonical_login_key u email))

  record_failure-max_failures :
      (t : LoginAttemptTracker) (email : Text) (now : ℕ)
      → ((record_failure u t email now).max_failures ≡ t.max_failures)
        × ((record_failure u t email now).lockout ≡ t.lockout)
  unfolding record_failure
  record_failure-max_failures t email now = (refl, refl)

  record_failure-IsTracker :
      (t : LoginAttemptTracker) (email : Text) (now : ℕ)
      → IsTracker t
      → IsTracker (record_failure u t email now)
  unfolding step
  record_failure-IsTracker t email now h = step-IsTracker t (fail email now) h

  first_failure :
      (t : LoginAttemptTracker) (email : Text) (first : ℕ)
      → t.entries (canonical_login_key u email) ≡ none
      → Records 1 first ((record_failure u t email first).entries (canonical_login_key u email))
  unfolding record_failure
  first_failure t email first new =
      ground (arith, text_eq_iff (canonical_login_key u email) (canonical_login_key u email))

  -- An account that has no entry fails once, at a time after Go's zero time, and then any events
  -- happen that keep its failures remembered: no success of the account, and no tick of the cleaner
  -- more than an hour after its latest failure, with its failures in order of time. Then it is
  -- locked exactly if it has failed `max_failures` times or more, and until `lockout` after the
  -- latest failure. The tracker is well formed.
  pub is_locked_exactly :
      (t : LoginAttemptTracker) (email : Text) (first : ℕ) (es : List Event) (now : ℕ)
      → IsTracker t
      → 0 < first
      → t.entries (canonical_login_key u email) ≡ none
      → KeepsAll email first es
      → is_locked u (run u (record_failure u t email first) es) email now ≡ (
          leb t.max_failures (1 + failures_in email es)
          && ltb now (last_failure_after email first es + t.lockout))
  is_locked_exactly t email first es now h pf new k =
      let started = record_failure u t email first in
      let (same_max, same_lockout) = run-max_failures started es in
      let (start_max, start_lockout) = record_failure-max_failures t email first in
      locked_of-Records (run u started es) email (1 + failures_in email es)
        (last_failure_after email first es) now t.max_failures t.lockout (same_max ∙ start_max)
        (same_lockout ∙ start_lockout)
        (run-IsTracker started es (record_failure-IsTracker t email first h))
        (run-Records started es email 1 first pf (omega arith) (first_failure t email first new) k)
