-- ===== src/Guard/Deadlock.antt =====
-- No reachable state is stuck.
use fin_arch.Base.{
  ℕ, ◌+◌, ◌≤◌, ◌≡◌, ◌≢◌, refl, true, false, none, some, List, arith, get_elem?, inl, inr, ◌⊎◌, ◌∙◌,
  Bool-cases,
}
use fin_arch.Guard.{
  Writer, free, waiting, holding, Pc, idle, read_locked, refused, leasing, published, draining,
  Choice, act, System, Turn, step, schedule, start, is_free,
}
use fin_arch.Guard.Invariant.{
  reads, waits, holds, owns, total, IsGuard, schedule-IsGuard, start-IsGuard, count_of-le,
  holding_count, waiting_count,
}
use fin_arch.Guard.Exclusion.{total_unique}
use fin_arch.Guard.Drain.{zero_or_pos, find_weight}

-- The access of a thread that is not idle succeeds, whatever it chooses.
abbrev pub IsLive : System → Type 0
IsLive s =
    (i : ℕ) × (p : Pc) × (get_elem? s.threads i ≡ some p)
    × (p ≢ idle)
    × ((c : Choice) → step s (record { thread = i; choice = c }) ≢ none)

moves :
    (s : System) (i : ℕ) (p : Pc)
    → get_elem? s.threads i ≡ some p
    → p ≢ idle
    → ((c : Choice) → act c s.guard p ≢ none)
    → IsLive s
unfolding step
moves s i p at busy can = (i, p, at, busy, λ c e. can c (ground arith))

-- What keeps an access that is not the first from its turn.
blocked_cases :
    (s : System) (i : ℕ) (p : Pc)
    → get_elem? s.threads i ≡ some p
    → p ≢ idle
    → IsLive s
      ⊎ ((is_free s.guard.writer ≡ false) × (owns p ≡ 1) × (waits p + holds p ≡ 0))
      ⊎ (s.guard.readers ≢ 0)
unfolding act
blocked_cases s i (published t f) at busy = elim (Bool-cases (is_free s.guard.writer)) [
  | inl e ↦ inl (moves s i (published t f) at busy (λ c. ground arith))
  | inr e ↦ inr (inl (e, refl, refl))
]
blocked_cases s i (draining t f) at busy = elim (zero_or_pos s.guard.readers) [
  | inl e ↦ inl (moves s i (draining t f) at busy (λ c. ground arith))
  | inr e ↦ inr (inr (omega arith))
]
blocked_cases s i idle at busy = absurd (busy refl)
blocked_cases s i p at busy = inl (moves s i p at busy (λ c. ground arith))

-- A thread that reads moves.
reader_moves :
    (s : System) (j : ℕ) (q : Pc) → get_elem? s.threads j ≡ some q → 1 ≤ reads q → IsLive s
unfolding act
reader_moves s j idle at h = absurd (omega arith)
reader_moves s j read_locked at h = moves s j read_locked at (λ e. cc) (λ c. ground arith)
reader_moves s j refused at h = moves s j refused at (λ e. cc) (λ c. ground arith)
reader_moves s j leasing at h = moves s j leasing at (λ e. cc) (λ c. ground arith)
reader_moves s j q at h = absurd (ground arith)

owns_of_waits : (p : Pc) → 1 ≤ waits p + holds p → owns p ≡ 1
owns_of_waits idle h = absurd (omega arith)
owns_of_waits p h = ground arith

-- A second thread cannot want the barrier: both would own the maintenance.
module _ (s : System) (v : IsGuard s) (i : ℕ) (p : Pc) (at : get_elem? s.threads i ≡ some p)
    (owner : owns p ≡ 1) (apart : waits p + holds p ≡ 0) where
  not_another : (j : ℕ) (q : Pc) → get_elem? s.threads j ≡ some q → waits q + holds q ≡ 0
  not_another j q there = elim (zero_or_pos (waits q + holds q)) [
    | inl e ↦ e
    | inr big ↦
        let same : j ≡ i =
          total_unique owns s.threads j i q p
            (omega (arith, v.own_count, count_of-le s.guard.is_maintained)) there at
            (owns_of_waits q big) owner in
        absurd (ground arith)
  ]

  nobody_waits : total waits s.threads ≡ 0
  nobody_waits = elim (zero_or_pos (total waits s.threads)) [
    | inl e ↦ e
    | inr big ↦
        let (j, q, there, heavy) = find_weight waits s.threads big in
        absurd (omega (arith, not_another j q there))
  ]

  nobody_holds : total holds s.threads ≡ 0
  nobody_holds = elim (zero_or_pos (total holds s.threads)) [
    | inl e ↦ e
    | inr big ↦
        let (j, q, there, heavy) = find_weight holds s.threads big in
        absurd (omega (arith, not_another j q there))
  ]

is_free_of_counts : (w : Writer) → waiting_count w ≡ 0 → holding_count w ≡ 0 → is_free w ≡ true
is_free_of_counts free h k = refl
is_free_of_counts waiting h k = absurd (omega arith)
is_free_of_counts holding h k = absurd (omega arith)

-- In every state that `n` threads reach with a thread that is not idle, there is a thread that is
-- not idle and whose next access is not blocked, whatever it chooses.
pub no_deadlock :
    (n : ℕ) (ts : List Turn) (i : ℕ) (p : Pc)
    → get_elem? (schedule (start n) ts).threads i ≡ some p
    → p ≢ idle
    → IsLive (schedule (start n) ts)
no_deadlock n ts i p at busy =
    let s = schedule (start n) ts in
    let v = schedule-IsGuard (start n) ts (start-IsGuard n) in
    elim (blocked_cases s i p at busy) [
      | inl m ↦ m
      | inr (inl (shut, owner, apart)) ↦
          let opened =
            is_free_of_counts s.guard.writer (v.wait_count ∙ nobody_waits s v i p at owner apart)
              (v.hold_count ∙ nobody_holds s v i p at owner apart) in
          absurd (cc)
      | inr (inr some_reader) ↦
          let (j, q, there, heavy) = find_weight reads s.threads (omega (arith, v.read_count)) in
          reader_moves s j q there heavy
    ]
