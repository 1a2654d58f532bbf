-- ===== src/Guard.antt =====
-- internal/infrastructure/db/concurrency_guard.go, with the `sync.RWMutex` and the `sync.Mutex` that
-- it uses. Each access to a shared variable or lock is one step of one thread, so a concurrent run
-- is a list of turns; a turn that would block gives `none` and changes nothing.
pub mod Invariant
pub mod Exclusion
pub mod Drain
pub mod Deadlock
mod Tests
use fin_arch.Base.{
  ℕ, zero, suc, ◌+◌, ◌-◌, Bool, true, false, ◌&&◌, ◌||◌, not, Option, none, some, List, [], ◌∷◌,
  if◌then◌else◌, ◌==◌, get_elem?, set,
}

pub data SystemState : Type 0 where
  normal restore migration backup : SystemState

abbrev pub is_normal : SystemState → Bool
is_normal normal = true
is_normal restore = false
is_normal migration = false
is_normal backup = false

-- The write side of `sync.RWMutex`: free, announced by a `Lock` that waits for readers, or held.
pub data Writer : Type 0 where
  free waiting holding : Writer

abbrev pub is_free : Writer → Bool
is_free free = true
is_free waiting = false
is_free holding = false

-- `ConcurrencyGuard`. The barrier is the number of its readers and its write side; `is_maintained`
-- says whether `maintenanceMu` is locked.
pub record ConcurrencyGuard : Type 0 where
  pub state : SystemState
  pub readers : ℕ
  pub writer : Writer
  pub is_maintained : Bool

-- `writeBarrier.TryRLock`: no reader comes in from the moment that a writer waits.
unfoldable pub try_r_lock : ConcurrencyGuard → Option ConcurrencyGuard
try_r_lock g = if is_free g.writer then some (record g { readers = g.readers + 1 }) else none

-- `writeBarrier.RUnlock`
unfoldable pub r_unlock : ConcurrencyGuard → ConcurrencyGuard
r_unlock g = record g { readers = g.readers - 1 }

-- Where a thread stands. `leasing` holds a write lease. The stages of maintenance carry the state
-- that `BeginMaintenance` sets, and from when it is read the one that was there before.
pub data Pc : Type 0 where
  idle : Pc
  read_locked : Pc
  refused : Pc
  leasing : Pc
  serialized : (target : SystemState) → Pc
  captured : (target previous : SystemState) → Pc
  published : (target previous : SystemState) → Pc
  draining : (target previous : SystemState) → Pc
  maintaining : (target previous : SystemState) → Pc
  unlocking : (final : SystemState) → Pc
  leaving : (final : SystemState) → Pc

-- What a thread decides: what to begin when it is idle (`none` is a write), and the state that it
-- leaves after its maintenance.
pub record Choice : Type 0 where
  pub maintains : Option SystemState
  pub final : SystemState → SystemState

-- The next access of a thread: `TryBeginWrite` and the release function from `idle` through
-- `leasing`, `BeginMaintenance` from `serialized` through `draining`, then `EndMaintenance`. A
-- lease that was released is `idle`: a further call of its release function does nothing.
unfoldable pub act : Choice → ConcurrencyGuard → Pc → Option (ConcurrencyGuard × Pc)
unfolding try_r_lock r_unlock
act c g idle = elim c.maintains [
  | none ↦ elim (try_r_lock g) [ none ↦ some (g, idle) | some g' ↦ some (g', read_locked) ]
  | some target ↦
      if g.is_maintained then none else some (record g { is_maintained = true }, serialized target)
]
act c g read_locked = some (g, if is_normal g.state then leasing else refused)
act c g refused = some (r_unlock g, idle)
act c g leasing = some (r_unlock g, idle)
act c g (serialized target) = some (g, captured target g.state)
act c g (captured target previous) = some (record g { state = target }, published target previous)
act c g (published target previous) =
    if is_free g.writer
    then some (record g { writer = waiting }, draining target previous)
    else none
act c g (draining target previous) =
    if g.readers == 0
    then some (record g { writer = holding }, maintaining target previous)
    else none
act c g (maintaining target previous) =
    some (record g { state = c.final previous }, unlocking (c.final previous))
act c g (unlocking final) = some (record g { writer = free }, leaving final)
act c g (leaving final) = some (record g { is_maintained = false }, idle)

pub record System : Type 0 where
  pub guard : ConcurrencyGuard
  pub threads : List Pc

-- A turn of one thread.
pub record Turn : Type 0 where
  pub thread : ℕ
  pub choice : Choice

unfoldable pub step : System → Turn → Option System
unfolding act
step s t = elim (get_elem? s.threads t.thread) [
  | none ↦ none
  | some pc ↦ elim (act t.choice s.guard pc) [
    | none ↦ none
    | some (g, pc') ↦ some (record { guard = g; threads = set s.threads t.thread pc' })
  ]
]

-- The system after a turn; a blocked one waits.
unfoldable pub take_turn : System → Turn → System
unfolding step
take_turn s t = elim (step s t) [ none ↦ s | some s' ↦ s' ]

unfoldable pub schedule : System → List Turn → System
unfolding take_turn
schedule s [] = s
schedule s (t ∷ ts) = schedule (take_turn s t) ts

abbrev pub idle_threads : ℕ → List Pc
idle_threads zero = []
idle_threads (suc n) = idle ∷ idle_threads n

-- `n` threads over the guard as the program starts with it, `globalGuard`.
abbrev pub start : ℕ → System
start n = record {
  guard = record { state = normal; readers = 0; writer = free; is_maintained = false };
  threads = idle_threads n;
}
