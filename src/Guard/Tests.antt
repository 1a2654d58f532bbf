-- ===== src/Guard/Tests.antt =====
-- The theorems on the guard for three threads: one that writes, one that restores, one that backs up.
use fin_arch.Base.{ℕ, zero, suc, ◌≤◌, ◌≡◌, refl, none, some, List, [], ◌∷◌, ◌++◌, get_elem?}
use fin_arch.Guard.{
  SystemState, normal, restore, backup, Pc, idle, leasing, draining, maintaining, System, Turn,
  schedule, start,
}
use fin_arch.Guard.Invariant.{reads, owns, total}
use fin_arch.Guard.Exclusion.{leases, maintenance_excludes, stays_read_only}
use fin_arch.Guard.Deadlock.{IsLive, no_deadlock}

abbrev write : ℕ → Turn
write i = record { thread = i; choice = record { maintains = none; final = λ previous. previous } }

-- Maintenance that ends with the state from before it.
abbrev maintain : SystemState → ℕ → Turn
maintain s i = record {
  thread = i;
  choice = record { maintains = some s; final = λ previous. previous };
}

-- A restore that cannot be rolled back.
abbrev fail_restore : ℕ → Turn
fail_restore i = record {
  thread = i;
  choice = record { maintains = some restore; final = λ _. restore };
}

abbrev repeat : ℕ → Turn → List Turn
repeat zero t = []
repeat (suc n) t = t ∷ repeat n t

-- Thread 0 has a lease, and thread 1 waits for it.
abbrev waiting_restore : List Turn
waiting_restore = repeat 2 (write 0) ++ repeat 4 (maintain restore 1)

waiting_runs :
    (schedule (start 3) waiting_restore).threads ≡ leasing ∷ draining restore normal ∷ idle ∷ []
unfolding schedule total
waiting_runs = refl

-- The lease is released, a further write is refused, and the restore runs.
abbrev running_restore : List Turn
running_restore = waiting_restore ++ write 0 ∷ write 0 ∷ maintain backup 2 ∷ maintain restore 1 ∷ []

running_runs :
    (schedule (start 3) running_restore).threads ≡ idle ∷ maintaining restore normal ∷ idle ∷ []
unfolding schedule
running_runs = refl

-- A whole maintenance leaves the guard as it was.
restore_runs : schedule (start 1) (repeat 8 (maintain restore 0)) ≡ start 1
unfolding schedule
restore_runs = refl

maintenance_excludes_example :
    ((schedule (start 3) running_restore).guard.state ≡ restore)
    × ((j : ℕ) (q : Pc)
        → get_elem? (schedule (start 3) running_restore).threads j ≡ some q
        → reads q ≡ 0)
    × ((j : ℕ) (q : Pc)
        → get_elem? (schedule (start 3) running_restore).threads j ≡ some q
        → owns q ≡ 1
        → j ≡ 1)
unfolding schedule
maintenance_excludes_example = maintenance_excludes 3 running_restore 1 restore normal refl

no_deadlock_example : IsLive (schedule (start 3) waiting_restore)
unfolding schedule
no_deadlock_example = no_deadlock 3 waiting_restore 1 (draining restore normal) refl (λ e. cc)

abbrev failed : System
failed = schedule (start 1) (repeat 8 (fail_restore 0))

stays_read_only_example :
    ((schedule failed (repeat 5 (write 0))).guard.state ≡ failed.guard.state)
    × (total leases (schedule failed (repeat 5 (write 0))).threads ≤ total leases failed.threads)
unfolding schedule total
stays_read_only_example =
    stays_read_only failed (repeat 5 (write 0)) (refl, (refl, (refl, (refl, (refl, tt))))) (λ e. cc)
      refl
