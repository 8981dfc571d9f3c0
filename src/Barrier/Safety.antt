-- ===== src/Barrier/Safety.antt =====
-- The invariant of libuzi/barrier.c, kept in every order of the steps of its threads.
use libuzi.Common.{
  ℕ, ◌+◌, ◌-◌, ◌≤◌, ◌<◌, ◌≡◌, ◌≢◌, inl, inr, refl, sym, ap, ◌∙◌, true, false, ltb, some, ◌==◌,
  Bool-cases, Option-cases, length, get_elem?, set_at, arith,
}
use libuzi.Common.Integers.{ℤ, pos, negsuc, ltz}
use libuzi.Common.Sums.{
  get_elem?-set_at, get_elem?-set_at_other, total, total-set_at, total_one, total_two, total_full,
  total_none, total_beside, total-replicate, get_elem?-replicate, length-set_at, length-replicate,
}
use mathlib.Core.Path.{subst}
use libuzi.Barrier.Defs.{
  Barrier, Shared, spins_of, Place, idle, switching_current, setting, Worker, worker, step, System,
  run_thread, Reachable, started, stepped, create_events, initialize_synchronization_barrier,
}
use libuzi.Barrier.Elsewhere.{
  ahead_or_signals, ahead-small, Local-elsewhere, Local-switched, ahead-behind, Place-cases,
}
use libuzi.Barrier.Invariant.{ahead, lead, signals, Local, Counts, Moved, step_moves, switch_moves}

-- The invariant in the given round.
pub record IsSound (sys : System) (round : ℕ) : Type 0 where
  pub size : length sys.workers ≡ sys.shared.barrier.total_threads
  pub locals : (i : ℕ) (w : Worker) → get_elem? sys.workers i ≡ some w → Local sys.shared round w
  pub counts :
      Counts sys.shared round
        (total (ahead round) sys.workers)
        (total lead sys.workers)
        (total signals sys.workers)
        (total (λ w. w.trues) sys.workers)

-- The invariant is kept by the step of a thread.
module _ (sys : System) (round i : ℕ) (w w' : Worker) (s' : Shared) (sound : IsSound sys round)
    (here : get_elem? sys.workers i ≡ some w) where
  abbrev after_step : System
  after_step = record { shared = s'; workers = set_at i w' sys.workers }

  abbrev others : (Worker → ℕ) → ℕ
  others weight = total weight sys.workers - weight w

  abbrev calls_true : Worker → ℕ
  calls_true v = v.trues

  -- The thread and its place after the step, from a fact on the new list of threads.
  same_worker : (v : Worker) → get_elem? (set_at i w' sys.workers) i ≡ some v → w' ≡ v
  same_worker v at =
      let mine : some w' ≡ some v = sym (get_elem?-set_at sys.workers i w w' here) ∙ at in cc mine

  others_kept :
      (weight : Worker → ℕ) → total weight (set_at i w' sys.workers) ≡ others weight + weight w'
  others_kept weight =
      omega
        (arith, total-set_at weight sys.workers i w w' here, total_one weight sys.workers i w here)

  own : (weight : Worker → ℕ) → others weight + weight w ≡ total weight sys.workers
  own weight = omega (arith, total_one weight sys.workers i w here)

  room : others (ahead round) + others signals + 1 ≤ sys.shared.barrier.total_threads
  room = omega (
    arith,
    sound.size,
    own (ahead round),
    own signals,
    total_beside (ahead round) signals (ahead_or_signals round) sys.workers i w here,
  )

  resized : length (set_at i w' sys.workers) ≡ sys.shared.barrier.total_threads
  resized = length-set_at sys.workers i w' ∙ sound.size

  -- The counts before the step, with those of the thread apart.
  fields_before :
      Counts sys.shared round
        (others (ahead round) + ahead round w)
        (others lead + lead w)
        (others signals + signals w)
        (others calls_true + calls_true w)
  fields_before = rw (own (ahead round), own lead, own signals, own calls_true) sound.counts

  -- Another thread, when this one leads.
  beside_leader :
      (j : ℕ) (v : Worker)
      → i ≢ j
      → get_elem? sys.workers j ≡ some v
      → lead w ≡ 1
      → (lead v ≡ 0) × (ahead round v ≡ 1)
  beside_leader j v apart at leads =
      let both = total_two lead sys.workers i j w v apart here at in
      let counted = sound.counts in
      let full : total (ahead round) sys.workers ≡ length sys.workers =
        ground (arith, sound.size, total_one lead sys.workers i w here) in
      (
        ground (arith, total_one lead sys.workers i w here),
        total_full (ahead round) (ahead-small round) sys.workers j v at full,
      )

  -- The step of a thread that does not switch the events.
  module _ (next : ℕ) where
    Moved-IsSound :
        Moved round
          (others (ahead round))
          (others lead)
          (others signals)
          (others calls_true)
          next
          sys.shared
          w
          room
          w
          s'
          w'
        → IsSound after_step round
    Moved-IsSound (loc, counted, quiet) = record {
      size = resized ∙ sym quiet.1;
      counts =
          rw
            (
              others_kept (ahead round),
              others_kept lead,
              others_kept signals,
              others_kept calls_true,
            )
            counted;
      locals = λ j v at. elim (Bool-cases (i == j)) [
        | inl e ↦
            let same : i ≡ j = ground arith in
            let there : get_elem? (set_at i w' sys.workers) i ≡ some v =
              ap (get_elem? (set_at i w' sys.workers)) same ∙ at in
            rw (← same_worker v there) loc
        | inr e ↦
            let apart : i ≢ j = ground arith in
            let there : get_elem? sys.workers j ≡ some v =
              sym (get_elem?-set_at_other sys.workers i j w' apart) ∙ at in
            elim (Bool-cases (lead w == 1)) [
              | inl f ↦
                  let both = beside_leader j v apart there (ground arith) in
                  Local-elsewhere sys.shared s' round v.returned v.trues v.place quiet.0 quiet.1
                    (inl both) (sound.locals j v there)
              | inr f ↦
                  let small = total_two lead sys.workers i j w v apart here there in
                  let mine = own lead in
                  Local-elsewhere sys.shared s' round v.returned v.trues v.place quiet.0 quiet.1
                    (ground arith) (sound.locals j v there)
            ]
      ];
    }

-- The switch of the events by the thread `i`, which begins the next round.
module _ (sys : System) (round i n t c d : ℕ) (sound : IsSound sys round)
    (here : get_elem? sys.workers i ≡ some (worker n t (switching_current c d))) where
  abbrev leader : Worker
  leader = worker n t (switching_current c d)

  abbrev done : Worker
  done = worker n t (setting c)

  abbrev switched : Shared
  switched = record sys.shared { barrier = record sys.shared.barrier { current = d } }

  abbrev next_round : System
  next_round = record { shared = switched; workers = set_at i done sys.workers }

  locals_switched :
      (j : ℕ) (v : Worker)
      → get_elem? (set_at i done sys.workers) j ≡ some v
      → Local switched (round + 1) v × (ahead (round + 1) v ≡ 0)
  locals_switched j v at =
      let loc : Local sys.shared round leader = sound.locals i leader here in
      elim (Bool-cases (i == j)) [
        | inl e ↦
            let same : i ≡ j = ground arith in
            let there : get_elem? (set_at i done sys.workers) i ≡ some v =
              ap (get_elem? (set_at i done sys.workers)) same ∙ at in
            rw (← same_worker sys round i leader done switched sound here v there) (ground arith)
        | inr e ↦
            let apart : i ≢ j = ground arith in
            let there : get_elem? sys.workers j ≡ some v =
              sym (get_elem?-set_at_other sys.workers i j done apart) ∙ at in
            let both =
              beside_leader sys round i leader done switched sound here j v apart there refl in
            let turned : Local switched (round + 1) v =
              Local-switched sys.shared round d v.returned v.trues v.place (omega (arith, loc))
                both.1 both.0 (sound.locals j v there) in
            (turned, ahead-behind round v.returned v.trues v.place both.1)
      ]

  switch-IsSound : IsSound next_round (round + 1)
  switch-IsSound =
      let moves =
        switch_moves round (others sys round i leader done switched sound here (ahead round))
          (others sys round i leader done switched sound here lead)
          (others sys round i leader done switched sound here signals)
          (others sys round i leader done switched sound here (λ w. w.trues)) 0 sys.shared leader
          (room sys round i leader done switched sound here) c d (sound.locals i leader here)
          (fields_before sys round i leader done switched sound here) in
      record {
        size = resized sys round i leader done switched sound here;
        locals = λ j v at. (locals_switched j v at).0;
        counts =
            rw
              (
                total_none (ahead (round + 1)) (set_at i done sys.workers)
                    (λ j v at. (locals_switched j v at).1),
                others_kept sys round i leader done switched sound here lead,
                others_kept sys round i leader done switched sound here signals,
                others_kept sys round i leader done switched sound here (λ w. w.trues),
              )
              (ground (arith, moves.1));
      }

switch_kept :
    (sys : System) (round i next n t c d : ℕ) (s' : Shared) (w' : Worker)
    → IsSound sys round
    → get_elem? sys.workers i ≡ some (worker n t (switching_current c d))
    → step next sys.shared (worker n t (switching_current c d)) ≡ some (s', w')
    → IsSound (record { shared = s'; workers = set_at i w' sys.workers }) (round + 1)
unfolding step
switch_kept sys round i next n t c d s' w' sound here went =
    let shared_same : switched sys round i n t c d sound here ≡ s' = cc went in
    let worker_same : done sys round i n t c d sound here ≡ w' = cc went in
    rw (← shared_same, ← worker_same) (switch-IsSound sys round i n t c d sound here)

step_kept :
    (sys : System) (round i next n t : ℕ) (p : Place) (s' : Shared) (w' : Worker)
    → IsSound sys round
    → get_elem? sys.workers i ≡ some (worker n t p)
    → step next sys.shared (worker n t p) ≡ some (s', w')
    → (round' : ℕ) × IsSound (record { shared = s'; workers = set_at i w' sys.workers }) round'
step_kept sys round i next n t p s' w' sound here went = elim (Place-cases p) [
  | inl apart ↦
      let moves =
        step_moves round (others sys round i (worker n t p) w' s' sound here (ahead round))
          (others sys round i (worker n t p) w' s' sound here lead)
          (others sys round i (worker n t p) w' s' sound here signals)
          (others sys round i (worker n t p) w' s' sound here (λ w. w.trues)) next sys.shared
          (worker n t p) (room sys round i (worker n t p) w' s' sound here) p apart
          (sound.locals i (worker n t p) here)
          (fields_before sys round i (worker n t p) w' s' sound here) in
      (round, Moved-IsSound sys round i (worker n t p) w' s' sound here next (rw went at moves))
  | inr (c, d, e) ↦ (
    round + 1,
    switch_kept sys round i next n t c d s' w' sound
        (subst (λ q. get_elem? sys.workers i ≡ some (worker n t q)) e here)
        (subst (λ q. step next sys.shared (worker n t q) ≡ some (s', w')) e went),
  )
]

run_thread-IsSound :
    (i next : ℕ) (sys sys' : System) (round : ℕ)
    → IsSound sys round
    → run_thread i next sys ≡ some sys'
    → (round' : ℕ) × IsSound sys' round'
unfolding run_thread
run_thread-IsSound i next sys sys' round sound h = elim (Option-cases (get_elem? sys.workers i)) [
  | inl e ↦ absurd (cc (rw (e, run_thread) at h))
  | inr (w, here) ↦ elim (Option-cases (step next sys.shared w)) [
    | inl e ↦ absurd (cc (rw (here, e, run_thread) at h))
    | inr ((s', w'), went) ↦
        let same : some (record { shared = s'; workers = set_at i w' sys.workers }) ≡ some sys' =
          rw (here, went, run_thread) at h in
        let (after, kept) =
          step_kept sys round i next w.returned w.trues w.place s' w' sound here went in
        (after, subst (λ x. IsSound x after) (cc same) kept)
  ]
]

-- What a successful initialization leaves.
initialized_lem :
    (threads processors : ℕ) (b : Barrier) (spin_count : ℤ)
    → (initialize_synchronization_barrier false true true processors b
        (pos threads)
        spin_count).result
      ≡ true
    → (0 < threads)
      × ((initialize_synchronization_barrier false true true processors b
            (pos threads)
            spin_count).barrier
          ≡ record {
            remaining = threads;
            total_threads = threads;
            current = 1;
            dormant = 2;
            processors = processors;
            spin_count = spins_of spin_count;
          })
unfolding initialize_synchronization_barrier create_events
initialized_lem threads processors b spin_count h = elim (Bool-cases (ltb threads 1)) [
  | inl e ↦ absurd (cc (rw e at h))
  | inr e ↦ elim (Bool-cases (ltz spin_count (negsuc 0))) [
    | inl f ↦ absurd (cc (rw (e, f) at h))
    | inr f ↦ rw (e, f) (ground arith, refl)
  ]
]

-- Every reachable system satisfies the invariant in some round.
pub Reachable-IsSound : (sys : System) → Reachable sys → (round : ℕ) × IsSound sys round
Reachable-IsSound sys (started threads processors b spin_count ok) =
    let (some_threads, same) = initialized_lem threads processors b spin_count ok in
    (
      0,
      rw same (record {
        size = length-replicate threads (worker 0 0 idle);
        locals = λ i w at.
            let fresh : w ≡ worker 0 0 idle =
              get_elem?-replicate threads i (worker 0 0 idle) w at in
            rw fresh (ground arith);
        counts = ground (
          arith,
          total-replicate (ahead 0) threads (worker 0 0 idle) refl,
          total-replicate lead threads (worker 0 0 idle) refl,
          total-replicate signals threads (worker 0 0 idle) refl,
          total-replicate (λ w. w.trues) threads (worker 0 0 idle) refl,
        );
      }),
    )
Reachable-IsSound sys (stepped before after i next reach went) =
    let (round, sound) = Reachable-IsSound before reach in
    run_thread-IsSound i next before sys round sound went
