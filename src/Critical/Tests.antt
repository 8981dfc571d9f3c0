-- ===== src/Critical/Tests.antt =====
-- Runs of two threads over the critical section, and the theorems at the systems they come to.
use libuzi.Common.{
  ℕ, ◌+◌, ◌<◌, ◌≡◌, ◌≢◌, ◌⊎◌, inl, inr, refl, Option, none, some, List, [], ◌∷◌, Option-cases,
  get_elem?, arith,
}
use libuzi.Critical.Defs.{
  idle, waiting, Worker, worker, Call, enter_critical_section, leave_critical_section, begin, step,
  System, run_thread, Reachable, started, stepped, initialize_critical_section_ex,
}
use libuzi.Critical.Invariant.{token}
use libuzi.Critical.Locking.{mutual_exclusion, owner_lem, no_lost_wake_up, left_unlocked}

-- The steps of a schedule, one thread and its next call after the other.
abbrev runs : List (ℕ × Call) → System → Option System
runs [] sys = some sys
runs ((i, call) ∷ schedule) sys = elim (run_thread i call sys) [
  | none ↦ none
  | some sys' ↦ runs schedule sys'
]

runs-Reachable :
    (schedule : List (ℕ × Call)) (sys sys' : System)
    → Reachable sys
    → runs schedule sys ≡ some sys'
    → Reachable sys'
runs-Reachable [] sys sys' reach h = let e : sys ≡ sys' = cc h in rw (← e) reach
runs-Reachable ((i, call) ∷ schedule) sys sys' reach h =
    elim (Option-cases (run_thread i call sys)) [
      | inl e ↦ absurd (cc (rw (e, runs) at h))
      | inr (mid, e) ↦
          runs-Reachable schedule mid sys' (stepped sys mid i call reach e) (rw (e, runs) at h)
    ]

abbrev system : (lock_count recursion_count owning_thread : ℕ) → Worker → Worker → System
system l r o v w = record {
  section = record {
    lock_count = l;
    recursion_count = r;
    owning_thread = o;
    semaphore = 0;
    spin_count = 0;
  };
  workers = v ∷ w ∷ [];
}

abbrev both_idle : System
both_idle = system 0 0 0 (worker 0 idle) (worker 0 idle)

both_idle-Reachable : Reachable both_idle
unfolding initialize_critical_section_ex
both_idle-Reachable = started 2 4 0 both_idle.section refl

abbrev enter : ℕ → List (ℕ × Call) → List (ℕ × Call)
enter i later =
    (i, enter_critical_section)
    ∷ (i, enter_critical_section)
    ∷ (i, enter_critical_section)
    ∷ (i, enter_critical_section)
    ∷ later

-- The first thread has entered, and the second waits.
abbrev one_waits : System
one_waits = system 2 1 1 (worker 1 idle) (worker 0 waiting)

one_waits-Reachable : Reachable one_waits
unfolding run_thread step begin
one_waits-Reachable =
    runs-Reachable
      (enter 0 (
        (1, enter_critical_section)
        ∷ (1, enter_critical_section)
        ∷ (1, enter_critical_section)
        ∷ []))
      both_idle one_waits both_idle-Reachable refl

-- The first thread leaves, which lets the second one in; then that one leaves too.
abbrev hand_over : List (ℕ × Call)
hand_over =
    (0, leave_critical_section)
    ∷ (0, leave_critical_section)
    ∷ (0, leave_critical_section)
    ∷ (0, leave_critical_section)
    ∷ (0, leave_critical_section)
    ∷ (1, leave_critical_section)
    ∷ (1, leave_critical_section)
    ∷ (1, leave_critical_section)
    ∷ (1, leave_critical_section)
    ∷ (1, leave_critical_section)
    ∷ (1, leave_critical_section)
    ∷ (1, leave_critical_section)
    ∷ []

abbrev all_done : System
all_done = system 0 0 0 (worker 0 idle) (worker 0 idle)

all_done-Reachable : Reachable all_done
unfolding run_thread step begin
all_done-Reachable = runs-Reachable hand_over one_waits all_done one_waits-Reachable refl

mutual_exclusion_example : (worker 0 waiting).depth ≡ 0
mutual_exclusion_example =
    mutual_exclusion one_waits 0 1 (worker 1 idle) (worker 0 waiting) one_waits-Reachable
      (ground arith) refl refl (omega arith)

owner_lem_example :
    (◌≡◌ {A = ℕ} 1 0 × (one_waits.section.owning_thread ≢ 0 + 1))
    ⊎ ((0 < 1)
        × (one_waits.section.owning_thread ≡ 0 + 1)
        × (one_waits.section.recursion_count ≡ 1))
owner_lem_example = owner_lem one_waits 0 1 one_waits-Reachable refl

no_lost_wake_up_example :
    (0 < one_waits.section.semaphore)
    ⊎ ((j : ℕ) × (v : Worker) × (get_elem? one_waits.workers j ≡ some v)
        × (token v ≡ 1)
        × (run_thread j leave_critical_section one_waits ≢ none))
no_lost_wake_up_example =
    no_lost_wake_up one_waits 1 (worker 0 waiting) one_waits-Reachable refl refl

left_unlocked_example : (all_done.section.lock_count ≡ 0) × (all_done.section.semaphore ≡ 0)
left_unlocked_example = left_unlocked all_done all_done-Reachable (refl, (refl, tt))
