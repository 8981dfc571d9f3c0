-- ===== src/Barrier/Tests.antt =====
-- Runs of two threads through the barrier, and the theorems at the systems they come to.
use libuzi.Common.{
  ℕ, ◌≤◌, ◌≡◌, inl, inr, refl, Bool, true, false, Option, none, some, List, [], ◌∷◌, Option-cases,
  arith,
}
use libuzi.Common.Integers.{negsuc}
use libuzi.Common.Sums.{total}
use libuzi.Barrier.Defs.{
  Barrier, zeroed, Shared, idle, decrementing, spinning, waiting, Worker, worker, step, System,
  run_thread, Reachable, started, stepped, create_events, initialize_synchronization_barrier,
  delete_synchronization_barrier,
}
use libuzi.Barrier.Rounds.{entered, Awaited, together, waiting_lem, one_true_a_round}
use libuzi.Barrier.Spins.{is_spinning, spin_through, spin_loop_lem}

-- The steps of a schedule of threads, whose calls have the flag BLOCK_ONLY.
abbrev runs : List ℕ → System → Option System
runs [] sys = some sys
runs (i ∷ schedule) sys = elim (run_thread i 2 sys) [ none ↦ none | some sys' ↦ runs schedule sys' ]

runs-Reachable :
    (schedule : List ℕ) (sys sys' : System)
    → Reachable sys
    → runs schedule sys ≡ some sys'
    → Reachable sys'
runs-Reachable [] sys sys' reach h = let e : sys ≡ sys' = cc h in rw (← e) reach
runs-Reachable (i ∷ schedule) sys sys' reach h = elim (Option-cases (run_thread i 2 sys)) [
  | inl e ↦ absurd (cc (rw (e, runs) at h))
  | inr (mid, e) ↦
      runs-Reachable schedule mid sys' (stepped sys mid i 2 reach e) (rw (e, runs) at h)
]

abbrev barrier : (remaining current dormant : ℕ) → Barrier
barrier remaining current dormant = record {
  remaining = remaining;
  total_threads = 2;
  current = current;
  dormant = dormant;
  processors = 4;
  spin_count = 2000;
}

abbrev system : Barrier → (first second : Bool) → Worker → Worker → System
system b first second v w = record {
  shared = record { barrier = b; first = first; second = second };
  workers = v ∷ w ∷ [];
}

abbrev both_idle : System
both_idle = system (barrier 2 1 2) false false (worker 0 0 idle) (worker 0 0 idle)

both_idle-Reachable : Reachable both_idle
unfolding initialize_synchronization_barrier create_events
both_idle-Reachable = started 2 4 zeroed (negsuc 0) refl

-- The first thread waits, and the second is about to enter.
abbrev one_waits : System
one_waits =
    system (barrier 1 1 2) false false (worker 0 0 (waiting 1)) (worker 0 0 (decrementing 2 1 2))

one_waits-Reachable : Reachable one_waits
unfolding run_thread step
one_waits-Reachable =
    runs-Reachable (0 ∷ 0 ∷ 0 ∷ 0 ∷ 1 ∷ 1 ∷ 1 ∷ []) both_idle one_waits both_idle-Reachable refl

-- Both have returned, the second with TRUE.
abbrev both_returned : System
both_returned = system (barrier 2 2 1) true false (worker 1 0 idle) (worker 1 1 idle)

both_returned-Reachable : Reachable both_returned
unfolding run_thread step
both_returned-Reachable =
    runs-Reachable (1 ∷ 1 ∷ 1 ∷ 1 ∷ 1 ∷ 1 ∷ 0 ∷ []) one_waits both_returned one_waits-Reachable refl

-- The second thread has switched the events and not yet signalled: the barrier can be deleted
-- although the first thread waits for an event of it.
early_delete : delete_synchronization_barrier (barrier 2 2 1) ≡ some (zeroed, 2)
unfolding delete_synchronization_barrier
early_delete = refl

together_example : ◌≤◌ 0 (entered (worker 0 0 (waiting 1)))
together_example =
    together one_waits 1 0 (worker 0 0 (decrementing 2 1 2)) (worker 0 0 (waiting 1))
      one_waits-Reachable refl refl

waiting_lem_example : Awaited one_waits 0 1 2
waiting_lem_example = waiting_lem one_waits 0 0 0 1 2 one_waits-Reachable refl

one_true_a_round_example : total (λ w. w.trues) both_returned.workers ≡ 1
one_true_a_round_example =
    one_true_a_round both_returned 1 both_returned-Reachable ((refl, refl), ((refl, refl), tt))

-- The loop over reads that find the event still current, with a spin count of 2.
abbrev still : Shared
still = record {
  barrier = record (barrier 1 1 2) { spin_count = 2 };
  first = false;
  second = false;
}

spin_loop_lem_example :
    is_spinning (spin_through (still ∷ still ∷ still ∷ []) (worker 0 0 (spinning 0 1 0))) ≡ false
spin_loop_lem_example =
    spin_loop_lem (still ∷ still ∷ still ∷ []) 0 1 0 0 2 refl (refl, (refl, (refl, tt)))
      (omega arith)
