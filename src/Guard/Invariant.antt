-- ===== src/Guard/Invariant.antt =====
-- What the locks say of the threads: how many read, wait, hold and are serialized.
use fin_arch.Base.{
  ℕ, zero, suc, ◌+◌, ◌≤◌, ◌≡◌, refl, Bool, some, List, [], ◌∷◌, arith, if◌then◌else◌, get_elem?,
  set, All, Option-cases, inl, inr, subst, sym, All-set, ◌⊎◌,
}
use fin_arch.Guard.{
  SystemState, normal, Writer, waiting, holding, ConcurrencyGuard, Pc, idle, read_locked, refused,
  leasing, serialized, captured, published, draining, maintaining, unlocking, leaving, Choice, act,
  System, Turn, step, take_turn, schedule, idle_threads, start,
}

-- Holds the barrier for reading.
abbrev pub reads : Pc → ℕ
reads read_locked = 1
reads refused = 1
reads leasing = 1
reads _ = 0

-- Has announced that it wants the barrier for writing.
abbrev pub waits : Pc → ℕ
waits (draining _ _) = 1
waits _ = 0

-- Holds the barrier for writing.
abbrev pub holds : Pc → ℕ
holds (maintaining _ _) = 1
holds (unlocking _) = 1
holds _ = 0

-- Holds `maintenanceMu`.
abbrev pub owns : Pc → ℕ
owns (serialized _) = 1
owns (captured _ _) = 1
owns (published _ _) = 1
owns (draining _ _) = 1
owns (maintaining _ _) = 1
owns (unlocking _) = 1
owns (leaving _) = 1
owns _ = 0

abbrev pub waiting_count : Writer → ℕ
waiting_count waiting = 1
waiting_count _ = 0

abbrev pub holding_count : Writer → ℕ
holding_count holding = 1
holding_count _ = 0

abbrev pub count_of : Bool → ℕ
count_of b = if b then 1 else 0

unfoldable pub total : (Pc → ℕ) → List Pc → ℕ
total w [] = 0
total w (p ∷ ps) = w p + total w ps

module _ (w : Pc → ℕ) where
  pub total-set :
      (ps : List Pc) (i : ℕ) (p q : Pc)
      → get_elem? ps i ≡ some p
      → total w (set ps i q) + w p ≡ total w ps + w q
  unfolding total
  total-set [] i p q h = cc
  total-set (r ∷ ps) zero p q h = ground arith
  total-set (r ∷ ps) (suc i) p q h = omega (arith, total-set ps i p q h)

  pub le-total : (ps : List Pc) (i : ℕ) (p : Pc) → get_elem? ps i ≡ some p → w p ≤ total w ps
  unfolding total
  le-total [] i p h = cc
  le-total (r ∷ ps) zero p h = ground arith
  le-total (r ∷ ps) (suc i) p h = omega (arith, le-total ps i p h)

  pub total-idle : w idle ≡ 0 → (n : ℕ) → total w (idle_threads n) ≡ 0
  unfolding total
  total-idle h zero = refl
  total-idle h (suc n) = omega (arith, h, total-idle h n)

-- What a thread that owns the maintenance knows of the state.
abbrev pub Agrees : SystemState → Pc → Type 0
Agrees s (captured t previous) = s ≡ previous
Agrees s (published t previous) = s ≡ t
Agrees s (draining t previous) = s ≡ t
Agrees s (maintaining t previous) = s ≡ t
Agrees s (unlocking final) = s ≡ final
Agrees s (leaving final) = s ≡ final
Agrees s _ = Unit

pub record IsGuard (s : System) : Type 0 where
  pub read_count : s.guard.readers ≡ total reads s.threads
  pub wait_count : waiting_count s.guard.writer ≡ total waits s.threads
  pub hold_count : holding_count s.guard.writer ≡ total holds s.threads
  pub own_count : count_of s.guard.is_maintained ≡ total owns s.threads
  pub exclusive : s.guard.writer ≡ holding → s.guard.readers ≡ 0
  pub agrees : All (Agrees s.guard.state) s.threads

-- One access changes the counts of the guard as it changes the thread.
pub record Counts (g g' : ConcurrencyGuard) (p p' : Pc) : Type 0 where
  pub read_change : g'.readers + reads p ≡ g.readers + reads p'
  pub wait_change : waiting_count g'.writer + waits p ≡ waiting_count g.writer + waits p'
  pub hold_change : holding_count g'.writer + holds p ≡ holding_count g.writer + holds p'
  pub own_change : count_of g'.is_maintained + owns p ≡ count_of g.is_maintained + owns p'

pub record IsLocal (g : ConcurrencyGuard) (p : Pc) : Type 0 where
  pub reads_in : reads p ≤ g.readers
  pub waits_in : waits p ≤ waiting_count g.writer
  pub holds_in : holds p ≤ holding_count g.writer
  pub owns_in : owns p ≤ count_of g.is_maintained

pub act-Counts :
    (c : Choice) (g g' : ConcurrencyGuard) (p p' : Pc)
    → IsLocal g p
    → act c g p ≡ some (g', p')
    → Counts g g' p p'
unfolding act
act-Counts c g g' idle p' v h = ground arith
act-Counts c g g' p p' v h = ground arith

act-exclusive :
    (c : Choice) (g g' : ConcurrencyGuard) (p p' : Pc)
    → IsLocal g p
    → (g.writer ≡ holding → g.readers ≡ 0)
    → act c g p ≡ some (g', p')
    → g'.writer ≡ holding
    → g'.readers ≡ 0
unfolding act
act-exclusive c g g' idle p' v x h e = ground arith
act-exclusive c g g' p p' v x h e = ground arith

act-Agrees :
    (c : Choice) (g g' : ConcurrencyGuard) (p p' : Pc)
    → Agrees g.state p
    → act c g p ≡ some (g', p')
    → Agrees g'.state p'
unfolding act
act-Agrees c g g' idle p' a h = ground arith
act-Agrees c g g' p p' a h = ground arith

-- Only the owner of the maintenance changes the state.
pub act-state :
    (c : Choice) (g g' : ConcurrencyGuard) (p p' : Pc)
    → act c g p ≡ some (g', p')
    → (g'.state ≡ g.state) ⊎ (owns p ≡ 1)
unfolding act
act-state c g g' idle p' h = ground arith
act-state c g g' p p' h = ground arith

Agrees-unowned : (s : SystemState) (p : Pc) → owns p ≡ 0 → Agrees s p
Agrees-unowned s idle h = tt
Agrees-unowned s p h = ground arith

module _ (s : SystemState) where
  All-Agrees-unowned : (ps : List Pc) → total owns ps ≡ 0 → All (Agrees s) ps
  unfolding total
  All-Agrees-unowned [] h = tt
  All-Agrees-unowned (p ∷ ps) h =
      (Agrees-unowned s p (omega arith), All-Agrees-unowned ps (omega arith))

  -- When the owner steps, the others own nothing and so agree with any state.
  All-Agrees-set :
      (ps : List Pc) (i : ℕ) (p q : Pc)
      → get_elem? ps i ≡ some p
      → owns p ≡ 1
      → total owns ps ≤ 1
      → Agrees s q
      → All (Agrees s) (set ps i q)
  unfolding total
  All-Agrees-set [] i p q h o u a = tt
  All-Agrees-set (r ∷ ps) zero p q h o u a = (a, All-Agrees-unowned ps (ground arith))
  All-Agrees-set (r ∷ ps) (suc i) p q h o u a = (
    Agrees-unowned s r (omega (arith, le-total owns ps i p h)),
    All-Agrees-set ps i p q h o (omega arith) a,
  )

pub IsGuard-IsLocal :
    (s : System) (i : ℕ) (p : Pc) → IsGuard s → get_elem? s.threads i ≡ some p → IsLocal s.guard p
IsGuard-IsLocal s i p v h = record {
  reads_in = omega (arith, v.read_count, le-total reads s.threads i p h);
  waits_in = omega (arith, v.wait_count, le-total waits s.threads i p h);
  holds_in = omega (arith, v.hold_count, le-total holds s.threads i p h);
  owns_in = omega (arith, v.own_count, le-total owns s.threads i p h);
}

pub count_of-le : (b : Bool) → count_of b ≤ 1
count_of-le b = ground arith

pub All-get_elem? {ℓ κ} :
    {A : Type ℓ} (P : A → Type κ) (xs : List A) (i : ℕ) (x : A)
    → All P xs
    → get_elem? xs i ≡ some x
    → P x
All-get_elem? P [] i x a h = absurd (cc)
All-get_elem? P (y ∷ xs) zero x a h = subst P (cc) a.0
All-get_elem? P (y ∷ xs) (suc i) x a h = All-get_elem? P xs i x a.1 h

module _ (s : System) (t : Turn) (g : ConcurrencyGuard) (p q : Pc) (v : IsGuard s)
    (at : get_elem? s.threads t.thread ≡ some p) (did : act t.choice s.guard p ≡ some (g, q)) where
  access-Agrees : All (Agrees g.state) (set s.threads t.thread q)
  access-Agrees =
      let own : Agrees g.state q =
        act-Agrees t.choice s.guard g p q (All-get_elem? _ s.threads t.thread p v.agrees at) did in
      elim (act-state t.choice s.guard g p q did) [
        | inl same ↦
            All-set _ s.threads t.thread q
              (subst (λ st. All (Agrees st) s.threads) (sym same) v.agrees) own
        | inr owner ↦
            All-Agrees-set g.state s.threads t.thread p q at owner
              (omega (arith, v.own_count, count_of-le s.guard.is_maintained)) own
      ]

  access-IsGuard : IsGuard (record { guard = g; threads = set s.threads t.thread q })
  access-IsGuard =
      let here = IsGuard-IsLocal s t.thread p v at in
      let c = act-Counts t.choice s.guard g p q here did in
      record {
        read_count =
            omega (arith, c.read_change, v.read_count, total-set reads s.threads t.thread p q at);
        wait_count =
            omega (arith, c.wait_change, v.wait_count, total-set waits s.threads t.thread p q at);
        hold_count =
            omega (arith, c.hold_change, v.hold_count, total-set holds s.threads t.thread p q at);
        own_count =
            omega (arith, c.own_change, v.own_count, total-set owns s.threads t.thread p q at);
        exclusive = act-exclusive t.choice s.guard g p q here v.exclusive did;
        agrees = access-Agrees;
      }

-- A turn that is taken is an access of its thread.
pub step_cases :
    (s s' : System) (t : Turn)
    → step s t ≡ some s'
    → (p q : Pc) × (g : ConcurrencyGuard) × (get_elem? s.threads t.thread ≡ some p)
      × (act t.choice s.guard p ≡ some (g, q))
      × (s' ≡ record { guard = g; threads = set s.threads t.thread q })
unfolding step
step_cases s s' t h = elim (Option-cases (get_elem? s.threads t.thread)) [
  | inl gone ↦ absurd (ground arith)
  | inr (p, at) ↦ elim (Option-cases (act t.choice s.guard p)) [
    | inl blocked ↦ absurd (ground arith)
    | inr ((g, q), did) ↦ (p, q, g, at, did, ground arith)
  ]
]

pub step-IsGuard : (s s' : System) (t : Turn) → IsGuard s → step s t ≡ some s' → IsGuard s'
step-IsGuard s s' t v h =
    let (p, q, g, at, did, e) = step_cases s s' t h in
    subst IsGuard (sym e) (access-IsGuard s t g p q v at did)

pub take_turn-IsGuard : (s : System) (t : Turn) → IsGuard s → IsGuard (take_turn s t)
unfolding take_turn
take_turn-IsGuard s t v = elim (Option-cases (step s t)) [
  | inl blocked ↦ rw (take_turn, blocked) v
  | inr (s', did) ↦ rw (take_turn, did) (step-IsGuard s s' t v did)
]

-- In every state that a schedule reaches the locks count the threads at them, and the thread that
-- owns the maintenance finds the state that it has set.
pub schedule-IsGuard : (s : System) (ts : List Turn) → IsGuard s → IsGuard (schedule s ts)
unfolding schedule
schedule-IsGuard s [] v = v
schedule-IsGuard s (t ∷ ts) v = schedule-IsGuard (take_turn s t) ts (take_turn-IsGuard s t v)

pub start-IsGuard : (n : ℕ) → IsGuard (start n)
start-IsGuard n = record {
  read_count = omega (arith, total-idle reads refl n);
  wait_count = omega (arith, total-idle waits refl n);
  hold_count = omega (arith, total-idle holds refl n);
  own_count = omega (arith, total-idle owns refl n);
  exclusive = λ e. cc;
  agrees = All-Agrees-unowned normal (idle_threads n) (total-idle owns refl n);
}
