-- ===== src/Init/Tests.antt =====
-- Runs of two threads, and the theorems at the systems they come to.
use libuzi.Common.{
  ℕ, ◌+◌, ◌≤◌, ◌<◌, ◌≡◌, ◌≢◌, ◌⊎◌, inl, inr, refl, Bool, true, false, Option, none, some, List, [],
  ◌∷◌, Option-cases, get_elem?, arith,
}
use libuzi.Common.Sums.{total}
use libuzi.Init.Defs.{
  idle, testing, calling, sleeping, Worker, worker, step, System, run_thread, Reachable, started,
  stepped,
}
use libuzi.Init.Once.{busy, calls, successes, runs_once, true_after_success, sleeps_for_other}

-- The steps of a schedule of threads, with the results of InitFn.
abbrev runs : List (ℕ × Bool) → System → Option System
runs [] sys = some sys
runs ((i, outcome) ∷ schedule) sys = elim (run_thread i outcome sys) [
  | none ↦ none
  | some sys' ↦ runs schedule sys'
]

runs-Reachable :
    (schedule : List (ℕ × Bool)) (sys sys' : System)
    → Reachable sys
    → runs schedule sys ≡ some sys'
    → Reachable sys'
runs-Reachable [] sys sys' reach h = let e : sys ≡ sys' = cc h in rw (← e) reach
runs-Reachable ((i, outcome) ∷ schedule) sys sys' reach h =
    elim (Option-cases (run_thread i outcome sys)) [
      | inl e ↦ absurd (cc (rw (e, runs) at h))
      | inr (mid, e) ↦
          runs-Reachable schedule mid sys' (stepped sys mid i outcome reach e) (rw (e, runs) at h)
    ]

abbrev both_idle : System
both_idle = record { ptr = 0; workers = worker 0 0 0 idle ∷ worker 0 0 0 idle ∷ [] }

-- The first thread calls InitFn, and the second is about to test the word.
abbrev one_calls : System
one_calls = record { ptr = 1; workers = worker 0 0 0 calling ∷ worker 0 0 0 testing ∷ [] }

one_calls-Reachable : Reachable one_calls
unfolding run_thread step
one_calls-Reachable =
    runs-Reachable ((0, true) ∷ (0, true) ∷ (0, true) ∷ (1, true) ∷ []) both_idle one_calls
      (started 2) refl

-- InitFn fails once, is called again and succeeds, and then the second thread returns.
abbrev both_returned : System
both_returned = record { ptr = 2; workers = worker 1 1 1 idle ∷ worker 0 1 0 idle ∷ [] }

both_returned-Reachable : Reachable both_returned
unfolding run_thread step
both_returned-Reachable =
    runs-Reachable
      ((0, false)
        ∷ (0, true)
        ∷ (0, true)
        ∷ (0, true)
        ∷ (0, true)
        ∷ (0, true)
        ∷ (0, true)
        ∷ (1, true)
        ∷ [])
      one_calls both_returned one_calls-Reachable refl

runs_once_example : total calls one_calls.workers + total successes one_calls.workers ≤ 1
runs_once_example = runs_once one_calls one_calls-Reachable

true_after_success_example : total successes both_returned.workers ≡ 1
true_after_success_example =
    true_after_success both_returned 1 (worker 0 1 0 idle) both_returned-Reachable refl
      (omega arith)

sleeps_for_other_example :
    ((step true one_calls.ptr (worker 0 0 0 testing)).1.place ≢ sleeping)
    ⊎ ((j : ℕ) × (v : Worker) × (get_elem? one_calls.workers j ≡ some v) × (1 ≢ j) × (0 < busy v))
sleeps_for_other_example = sleeps_for_other one_calls 1 0 0 0 one_calls-Reachable refl
