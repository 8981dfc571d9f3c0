-- ===== src/Barrier/Rounds.antt =====
-- libuzi/barrier.c as a barrier: no thread passes alone, none is forgotten, and one call of each
-- round returns TRUE.
use libuzi.Common.{
  ℕ, ◌+◌, ◌-◌, ◌≤◌, ◌<◌, ◌≡◌, ◌≢◌, ◌⊎◌, inl, inr, refl, Bool, true, false, not, ◌||◌, none, some,
  List, [], ◌∷◌, ◌==◌, if◌then◌else◌, Bool-cases, Option-cases, length, get_elem?, All,
  All-get_elem?, arith,
}
use libuzi.Common.Integers.{ℤ, pos, negsuc, ltz}
use libuzi.Common.Sums.{total, total_full, total_find, total_gap}
use mathlib.Core.Path.{subst}
use libuzi.Barrier.Defs.{
  Barrier, zeroed, threads_of, spins_of, Shared, signalled, Place, idle, reading_current,
  reading_dormant, decrementing, waiting, Worker, worker, step, System, run_thread, Reachable,
  create_events, initialize_synchronization_barrier, delete_synchronization_barrier,
}
use libuzi.Barrier.Invariant.{ahead, lead, signals, Local, Released}
use libuzi.Barrier.Elsewhere.{ahead-small}
use libuzi.Barrier.Safety.{IsSound, Reachable-IsSound}

-- How often a thread has entered the barrier: its calls that are behind the decrement.
abbrev pub entered : Worker → ℕ
entered w = elim w.place [
  | idle ↦ w.returned
  | reading_current flags ↦ w.returned
  | reading_dormant flags current ↦ w.returned
  | decrementing flags current dormant ↦ w.returned
  | _ ↦ w.returned + 1
]

returned-below : (s : Shared) (round n t : ℕ) (p : Place) → Local s round (worker n t p) → n ≤ round
returned-below s round n t p loc = ground arith

entered-above :
    (s : Shared) (round n t : ℕ) (p : Place)
    → Local s round (worker n t p)
    → round ≤ entered (worker n t p)
entered-above s round n t p loc = ground arith

-- In every system that as many threads as the barrier is made for reach, however their steps are
-- ordered and with any flags: no thread has returned from EnterSynchronizationBarrier more often
-- than any other thread has entered it, where a call enters at its decrement of the counter.
pub together :
    (sys : System) (i j : ℕ) (v w : Worker)
    → Reachable sys
    → get_elem? sys.workers i ≡ some v
    → get_elem? sys.workers j ≡ some w
    → v.returned ≤ entered w
together sys i j v w reach at_i at_j =
    let (round, sound) = Reachable-IsSound sys reach in
    let low = returned-below sys.shared round v.returned v.trues v.place (sound.locals i v at_i) in
    let high = entered-above sys.shared round w.returned w.trues w.place (sound.locals j w at_j) in
    omega arith

-- A thread that is not ahead has not entered the round.
not_ahead :
    (s : Shared) (round n t : ℕ) (p : Place)
    → Local s round (worker n t p)
    → ahead round (worker n t p) ≡ 0
    → entered (worker n t p) ≤ round
not_ahead s round n t p loc a = ground arith

-- A thread that switches or signals the events can step.
switcher_steps :
    (next : ℕ) (s : Shared) (n t : ℕ) (p : Place)
    → 0 < lead (worker n t p) + signals (worker n t p)
    → step next s (worker n t p) ≢ none
unfolding step
switcher_steps next s n t p some_work h = ground arith

switcher_runs :
    (sys : System) (j next : ℕ) (v : Worker)
    → get_elem? sys.workers j ≡ some v
    → 0 < lead v + signals v
    → run_thread j next sys ≢ none
unfolding run_thread
switcher_runs sys j next v at some_work h = elim (Option-cases (step next sys.shared v)) [
  | inl e ↦ switcher_steps next sys.shared v.returned v.trues v.place some_work e
  | inr ((s', v'), went) ↦ absurd (cc (rw (at, went, run_thread) at h))
]

-- What a thread that waits in its call number `n` is waiting for.
abbrev pub Awaited : System → (n current next : ℕ) → Type 0
Awaited sys n current next =
    (signalled current sys.shared ≡ true)
    ⊎ ((j : ℕ) × (v : Worker) × (get_elem? sys.workers j ≡ some v) × (entered v ≤ n))
    ⊎ ((j : ℕ) × (v : Worker) × (get_elem? sys.workers j ≡ some v)
        × (0 < lead v + signals v)
        × (run_thread j next sys ≢ none))

module _ (sys : System) (round i n t current next : ℕ) (sound : IsSound sys round)
    (here : get_elem? sys.workers i ≡ some (worker n t (waiting current))) where
  by_leader : total lead sys.workers ≡ 1 → Awaited sys n current next
  by_leader one =
      let (j, v, at, leads) = total_find lead sys.workers (omega (arith, one)) in
      inr
        (inr (j, v, at, omega (arith, leads), switcher_runs sys j next v at (omega (arith, leads))))

  by_signal : total signals sys.workers ≡ 1 → Awaited sys n current next
  by_signal one =
      let (j, v, at, signs) = total_find signals sys.workers (omega (arith, one)) in
      inr
        (inr (j, v, at, omega (arith, signs), switcher_runs sys j next v at (omega (arith, signs))))

  by_late :
      n ≡ round → total (ahead round) sys.workers < length sys.workers → Awaited sys n current next
  by_late same some_behind =
      let (j, v, at, behind) = total_gap (ahead round) sys.workers some_behind in
      let late =
        not_ahead sys.shared round v.returned v.trues v.place (sound.locals j v at) behind in
      inr (inl (j, v, at, omega (arith, late, same)))

  -- Behind the round, and the events not being switched.
  by_release :
      n + 1 ≡ round
      → current + sys.shared.barrier.current ≡ 3
      → Released sys.shared round (total signals sys.workers)
      → Awaited sys n current next
  by_release late other (inl (first_round, e)) = absurd (omega (arith, late, first_round))
  by_release late other (inr (inl (h, one))) = by_signal one
  by_release late other (inr (inr (h, e, signal))) =
      let same : 3 - sys.shared.barrier.current ≡ current = omega (arith, other) in
      inl (subst (λ c. signalled c sys.shared ≡ true) same signal)

  abbrev me : Worker
  me = worker n t (waiting current)

  awaited_lem : Awaited sys n current next
  awaited_lem =
      let loc : Local sys.shared round me = sound.locals i me here in
      let size = sound.size in
      elim sound.counts.4 [
        | inl (e, some_left, sum, sides, released) ↦ elim loc [
          | inl (same, c) ↦ by_late same (omega (arith, some_left, sum, size))
          | inr (late, c) ↦ by_release late c released
        ]
        | inr (one, full) ↦ by_leader one
      ]

-- In every reachable system, for a thread that waits for an event in its call number n, counted
-- from 0: the event is signalled, or a thread has entered the barrier at most n times, or a thread
-- is switching or about to signal the events and can take its next step.
pub waiting_lem :
    (sys : System) (i n t current next : ℕ)
    → Reachable sys
    → get_elem? sys.workers i ≡ some (worker n t (waiting current))
    → Awaited sys n current next
waiting_lem sys i n t current next reach here =
    let (round, sound) = Reachable-IsSound sys reach in
    awaited_lem sys round i n t current next sound here

-- In every reachable system with a thread that is about to decrement the counter of remaining
-- threads: the counter is positive, so that it does not become negative, and the two events that
-- the thread has read differ.
pub remaining_lem :
    (sys : System) (i n t flags current dormant : ℕ)
    → Reachable sys
    → get_elem? sys.workers i ≡ some (worker n t (decrementing flags current dormant))
    → (0 < sys.shared.barrier.remaining) × (current ≢ dormant)
remaining_lem sys i n t flags current dormant reach here =
    let (round, sound) = Reachable-IsSound sys reach in
    let w : Worker = worker n t (decrementing flags current dormant) in
    let loc : Local sys.shared round (worker n t (decrementing flags current dormant)) =
      sound.locals i (worker n t (decrementing flags current dormant)) here in
    let full =
      total_full (ahead round) (ahead-small round) sys.workers i
        (worker n t (decrementing flags current dormant)) here in
    let counted = sound.counts in let size = sound.size in ground arith

-- The calls of a system in which every thread has returned equally often and is in no call.
nothing_to_switch :
    (k round : ℕ) (ws : List Worker)
    → All (λ w. (w.returned ≡ k) × (w.place ≡ idle)) ws
    → (total lead ws ≡ 0) × (total signals ws ≡ 0)
nothing_to_switch k round [] h = (refl, refl)
nothing_to_switch k round (w ∷ ws) h =
    let (e, f) = nothing_to_switch k round ws h.1 in
    let place_idle = h.0.1 in (rw place_idle (omega (arith, e)), rw place_idle (omega (arith, f)))

-- In every reachable system in which each thread has returned from exactly k calls and is in no
-- call: exactly k of all their calls have returned TRUE.
pub one_true_a_round :
    (sys : System) (k : ℕ)
    → Reachable sys
    → All (λ w. (w.returned ≡ k) × (w.place ≡ idle)) sys.workers
    → total (λ w. w.trues) sys.workers ≡ k
one_true_a_round sys k reach done =
    let (round, sound) = Reachable-IsSound sys reach in
    let (no_leader, no_signal) = nothing_to_switch k round sys.workers done in
    let size = sound.size in
    elim sound.counts.4 [
      | inl (e, some_left, sum, sides, released) ↦
          let (j, v, at, behind) =
            total_gap (ahead round) sys.workers (omega (arith, some_left, sum, size)) in
          let (k_times, place_idle) =
            All-get_elem? (λ w. (w.returned ≡ k) × (w.place ≡ idle)) sys.workers j v done at in
          let this_round : v.returned ≡ round =
            subst (λ p. Local sys.shared round (worker v.returned v.trues p)) place_idle
              (sound.locals j v at) in
          omega (arith, sound.counts.0, no_signal, this_round, k_times)
      | inr (one, full) ↦ absurd (omega (arith, no_leader, one))
    ]

create_lem :
    (event0 event1 : Bool) (processors threads spins : ℕ)
    → let made = create_events event0 event1 processors threads spins in
      ((made.result ≡ true)
        × (event0 ≡ true)
        × (event1 ≡ true)
        × (delete_synchronization_barrier made.barrier ≡ some (zeroed, made.open_events)))
      ⊎ ((made.result ≡ false) × (made.open_events ≡ 0) × (made.barrier ≡ zeroed))
unfolding create_events delete_synchronization_barrier
create_lem false event1 processors threads spins = inr (refl, refl, refl)
create_lem true false processors threads spins = inr (refl, refl, refl)
create_lem true true processors threads spins =
    let same : (threads == threads) ≡ true = ground arith in inl (refl, refl, refl, rw same refl)

-- InitializeSynchronizationBarrier returns TRUE only of a pointer that is not NULL, at least 1
-- thread, a spin count of at least -1, and when both events are created, and then
-- DeleteSynchronizationBarrier of the new barrier closes as many events as are open; or else it
-- returns FALSE, no event is left open, and the barrier is zero, or untouched if an argument is not
-- valid.
pub initialize_lem :
    (null event0 event1 : Bool) (processors : ℕ) (b : Barrier) (total_threads spin_count : ℤ)
    → let made =
        initialize_synchronization_barrier null event0 event1 processors b total_threads
          spin_count in
      let valid = not (null || ltz total_threads (pos 1) || ltz spin_count (negsuc 0)) in
      ((made.result ≡ true)
        × (valid ≡ true)
        × (event0 ≡ true)
        × (event1 ≡ true)
        × (delete_synchronization_barrier made.barrier ≡ some (zeroed, made.open_events)))
      ⊎ ((made.result ≡ false)
          × (made.open_events ≡ 0)
          × (made.barrier ≡ (if valid then zeroed else b)))
unfolding initialize_synchronization_barrier
initialize_lem null event0 event1 processors b total_threads spin_count =
    elim (Bool-cases (null || ltz total_threads (pos 1) || ltz spin_count (negsuc 0))) [
      | inl e ↦ rw e (inr (refl, refl, refl))
      | inr e ↦
          rw e
            (elim (create_lem event0 event1 processors (threads_of total_threads)
              (spins_of spin_count)) [ inl (a, c, d, f) ↦ inl (a, refl, c, d, f) | inr h ↦ inr h ])
    ]
