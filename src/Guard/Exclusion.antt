-- ===== src/Guard/Exclusion.antt =====
-- Maintenance excludes writes, other maintenance and changes of the state.
use fin_arch.Base.{
  ℕ, zero, suc, ◌≤◌, ◌≡◌, ◌≢◌, refl, none, some, List, [], ◌∷◌, arith, get_elem?, All, Option-cases,
  inl, inr, sym, ap, ◌∙◌,
}
use fin_arch.Guard.{
  SystemState, normal, Writer, free, waiting, holding, ConcurrencyGuard, Pc, idle, read_locked,
  refused, leasing, maintaining, Choice, act, System, Turn, step, take_turn, schedule, start,
}
use fin_arch.Guard.Invariant.{
  reads, holds, owns, total, le-total, total-set, Agrees, schedule-IsGuard, start-IsGuard,
  step_cases, All-get_elem?, count_of-le, holding_count,
}

-- Two threads of weight one are the same thread if the weights add up to at most one.
pub total_unique :
    (w : Pc → ℕ) (ps : List Pc) (i j : ℕ) (p q : Pc)
    → total w ps ≤ 1
    → get_elem? ps i ≡ some p
    → get_elem? ps j ≡ some q
    → w p ≡ 1
    → w q ≡ 1
    → i ≡ j
unfolding total
total_unique w [] i j p q u hi hj a b = cc
total_unique w (r ∷ ps) zero zero p q u hi hj a b = refl
total_unique w (r ∷ ps) zero (suc j) p q u hi hj a b = absurd (ground (arith, le-total w ps j q hj))
total_unique w (r ∷ ps) (suc i) zero p q u hi hj a b = absurd (ground (arith, le-total w ps i p hi))
total_unique w (r ∷ ps) (suc i) (suc j) p q u hi hj a b =
    ap suc (total_unique w ps i j p q (omega arith) hi hj a b)

holding_of : (w : Writer) → 1 ≤ holding_count w → w ≡ holding
holding_of free h = absurd (omega arith)
holding_of waiting h = absurd (omega arith)
holding_of holding h = refl

-- In every state that `n` threads reach, under any schedule: while one of them is in maintenance,
-- the state is the one that it has published, no thread holds a write lease or the barrier for
-- reading, and no other thread is between taking and giving back `maintenanceMu`.
pub maintenance_excludes :
    (n : ℕ) (ts : List Turn) (i : ℕ) (target previous : SystemState)
    → get_elem? (schedule (start n) ts).threads i ≡ some (maintaining target previous)
    → ((schedule (start n) ts).guard.state ≡ target)
      × ((j : ℕ) (q : Pc) → get_elem? (schedule (start n) ts).threads j ≡ some q → reads q ≡ 0)
      × ((j : ℕ) (q : Pc)
          → get_elem? (schedule (start n) ts).threads j ≡ some q
          → owns q ≡ 1
          → j ≡ i)
maintenance_excludes n ts i target previous at =
    let s = schedule (start n) ts in
    let v = schedule-IsGuard (start n) ts (start-IsGuard n) in
    let held =
      holding_of s.guard.writer (
        omega (arith, v.hold_count, le-total holds s.threads i (maintaining target previous) at)) in
    (
      All-get_elem? (Agrees s.guard.state) s.threads i (maintaining target previous) v.agrees at,
      λ j q there.
          omega (arith, v.exclusive held, v.read_count, le-total reads s.threads j q there),
      λ j q there own.
          total_unique owns s.threads j i q (maintaining target previous)
            (omega (arith, v.own_count, count_of-le s.guard.is_maintained)) there at own refl,
    )

-- The threads that hold a write lease.
abbrev pub leases : Pc → ℕ
leases leasing = 1
leases _ = 0

-- A turn in which an idle thread attempts a write.
abbrev pub OnlyWrites : Turn → Type 0
OnlyWrites t = t.choice.maintains ≡ none

-- What an access does that belongs to no maintenance, while the state is not normal.
record Refuses (g g' : ConcurrencyGuard) (p q : Pc) : Type 0 where
  pub same_state : g'.state ≡ g.state
  pub no_owner : owns q ≡ 0
  pub no_lease : leases q ≤ leases p

refuses :
    (c : Choice) (g g' : ConcurrencyGuard) (p q : Pc)
    → c.maintains ≡ none
    → g.state ≢ normal
    → owns p ≡ 0
    → act c g p ≡ some (g', q)
    → Refuses g g' p q
unfolding act
refuses c g g' idle q m st o h = ground arith
refuses c g g' read_locked q m st o h = ground arith
refuses c g g' refused q m st o h = ground arith
refuses c g g' leasing q m st o h = ground arith
refuses c g g' p q m st o h = absurd (ground arith)

record IsReadOnly (s s' : System) : Type 0 where
  pub state_stays : s'.guard.state ≡ s.guard.state
  pub no_owner_after : total owns s'.threads ≡ 0
  pub leases_fall : total leases s'.threads ≤ total leases s.threads

take_turn-IsReadOnly :
    (s : System) (t : Turn)
    → OnlyWrites t
    → s.guard.state ≢ normal
    → total owns s.threads ≡ 0
    → IsReadOnly s (take_turn s t)
unfolding take_turn
take_turn-IsReadOnly s t m st o = elim (Option-cases (step s t)) [
  | inl blocked ↦
      rw (take_turn, blocked)
        (record { state_stays = refl; no_owner_after = o; leases_fall = omega arith })
  | inr (s', did) ↦
      let (p, q, g, at, acted, e) = step_cases s s' t did in
      let r =
        refuses t.choice s.guard g p q m st (omega (arith, le-total owns s.threads t.thread p at))
          acted in
      rw (take_turn, did, e)
        (record {
          state_stays = r.same_state;
          no_owner_after = omega (arith, r.no_owner, total-set owns s.threads t.thread p q at);
          leases_fall = omega (arith, r.no_lease, total-set leases s.threads t.thread p q at);
        })
]

-- When no thread is in maintenance and the state is not normal, as after a restore that could not
-- be rolled back, it stays so as long as no maintenance begins: no thread then gets a write lease,
-- so there are never more of them than before.
pub stays_read_only :
    (s : System) (ts : List Turn)
    → All OnlyWrites ts
    → s.guard.state ≢ normal
    → total owns s.threads ≡ 0
    → ((schedule s ts).guard.state ≡ s.guard.state)
      × (total leases (schedule s ts).threads ≤ total leases s.threads)
unfolding schedule
stays_read_only s [] a st o = (refl, omega arith)
stays_read_only s (t ∷ ts) a st o =
    let r = take_turn-IsReadOnly s t a.0 st o in
    let (same, few) =
      stays_read_only (take_turn s t) ts a.1 (λ e. st (sym r.state_stays ∙ e)) r.no_owner_after in
    (same ∙ r.state_stays, omega (arith, few, r.leases_fall))
