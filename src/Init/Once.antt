-- ===== src/Init/Once.antt =====
-- libuzi/init.c: the function of the program runs in one thread at a time and succeeds once.
use libuzi.Common.{
  ℕ, ◌+◌, ◌-◌, ◌%◌, ◌≤◌, ◌<◌, ◌≡◌, ◌≢◌, ◌⊎◌, inl, inr, refl, sym, ap, ◌∙◌, Bool, true, false, some,
  List, [], ◌∷◌, ◌==◌, if◌then◌else◌, Bool-cases, Option-cases, get_elem?, set_at, arith,
}
use libuzi.Common.Sums.{
  get_elem?-set_at, get_elem?-set_at_other, total, total-set_at, total_one, total_find,
  total-replicate, get_elem?-replicate,
}
use mathlib.Core.Path.{subst}
use libuzi.Init.Defs.{
  Place, idle, testing, exchanging, calling, completing, failing, sleeping, Worker, worker, step,
  System, run_thread, Reachable, started, stepped,
}

-- 1 for a thread that calls InitFn or has its result in hand.
abbrev pub busy : Worker → ℕ
busy w = elim w.place [ calling ↦ 1 | completing ↦ 1 | failing ↦ 1 | _ ↦ 0 ]

-- 1 for a thread that has a success in hand that the word does not tell yet.
abbrev completes : Worker → ℕ
completes w = elim w.place [ completing ↦ 1 | _ ↦ 0 ]

abbrev pub successes : Worker → ℕ
successes w = w.successes

-- Of the sums of the threads that are busy or complete, and of the successes.
abbrev Counts : (ptr busies completions wins : ℕ) → Type 0
Counts ptr busies completions wins =
    (ptr < 3)
    × (busies ≡ (if ptr == 1 then 1 else 0))
    × (wins ≡ completions + (if ptr == 2 then 1 else 0))

abbrev Local : ℕ → Worker → Type 0
Local ptr w = (w.trues ≡ 0) ⊎ (ptr ≡ 2)

-- What a step keeps; the parameters are the sums of the other threads.
abbrev Moved : (busies completions wins ptr : ℕ) → ℕ × Worker → Type 0
Moved busies completions wins ptr (ptr', w') =
    Local ptr' w'
    × Counts ptr' (busies + busy w') (completions + completes w') (wins + successes w')
    × ((ptr ≡ 2) → (ptr' ≡ 2))

step_moves :
    (busies completions wins : ℕ) (outcome : Bool) (ptr n t f : ℕ) (p : Place)
    → Local ptr (worker n t f p)
    → Counts ptr
        (busies + busy (worker n t f p))
        (completions + completes (worker n t f p))
        (wins + n)
    → Moved busies completions wins ptr (step outcome ptr (worker n t f p))
unfolding step
step_moves busies completions wins outcome ptr n t f idle loc counts = ground arith
step_moves busies completions wins outcome ptr n t f testing loc counts =
    elim (Bool-cases (ptr % 4 == 2)) [
      | inl e ↦ rw e (ground arith)
      | inr e ↦ elim (Bool-cases (ptr % 4 == 0)) [
        | inl f ↦ rw (e, f) (ground arith)
        | inr f ↦ elim (Bool-cases (ptr % 4 == 1)) [
          | inl g ↦ rw (e, f, g) (ground arith)
          | inr g ↦ rw (e, f, g) (ground arith)
        ]
      ]
    ]
step_moves busies completions wins outcome ptr n t f exchanging loc counts =
    elim (Bool-cases (ptr == 0)) [ inl e ↦ rw e (ground arith) | inr e ↦ rw e (ground arith) ]
step_moves busies completions wins true ptr n t f calling loc counts = ground arith
step_moves busies completions wins false ptr n t f calling loc counts = ground arith
step_moves busies completions wins outcome ptr n t f completing loc counts = ground arith
step_moves busies completions wins outcome ptr n t f failing loc counts = ground arith
step_moves busies completions wins outcome ptr n t f sleeping loc counts = ground arith

record IsSound (sys : System) : Type 0 where
  locals : (i : ℕ) (w : Worker) → get_elem? sys.workers i ≡ some w → Local sys.ptr w
  counts :
      Counts sys.ptr
        (total busy sys.workers)
        (total completes sys.workers)
        (total successes sys.workers)

Local-elsewhere :
    (ptr ptr' : ℕ) (w : Worker) → ((ptr ≡ 2) → (ptr' ≡ 2)) → Local ptr w → Local ptr' w
Local-elsewhere ptr ptr' w stays (inl none_true) = inl none_true
Local-elsewhere ptr ptr' w stays (inr done) = inr (stays done)

module _ (sys : System) (i : ℕ) (w w' : Worker) (ptr' : ℕ) (sound : IsSound sys)
    (here : get_elem? sys.workers i ≡ some w) where
  abbrev others : (Worker → ℕ) → ℕ
  others weight = total weight sys.workers - weight w

  others_kept :
      (weight : Worker → ℕ) → total weight (set_at i w' sys.workers) ≡ others weight + weight w'
  others_kept weight =
      omega
        (arith, total-set_at weight sys.workers i w w' here, total_one weight sys.workers i w here)

  own : (weight : Worker → ℕ) → others weight + weight w ≡ total weight sys.workers
  own weight = omega (arith, total_one weight sys.workers i w here)

  fields_before :
      Counts sys.ptr
        (others busy + busy w)
        (others completes + completes w)
        (others successes + successes w)
  fields_before = rw (own busy, own completes, own successes) sound.counts

  Moved-IsSound :
      Moved (others busy) (others completes) (others successes) sys.ptr (ptr', w')
      → IsSound (record { ptr = ptr'; workers = set_at i w' sys.workers })
  Moved-IsSound (loc, counted, stays) = record {
    counts = rw (others_kept busy, others_kept completes, others_kept successes) counted;
    locals = λ j v at. elim (Bool-cases (i == j)) [
      | inl e ↦
          let same : i ≡ j = ground arith in
          let there : get_elem? (set_at i w' sys.workers) i ≡ some v =
            ap (get_elem? (set_at i w' sys.workers)) same ∙ at in
          let mine : some w' ≡ some v = sym (get_elem?-set_at sys.workers i w w' here) ∙ there in
          let is_mine : w' ≡ v = cc mine in subst (Local ptr') is_mine loc
      | inr e ↦
          let apart : i ≢ j = ground arith in
          let there : get_elem? sys.workers j ≡ some v =
            sym (get_elem?-set_at_other sys.workers i j w' apart) ∙ at in
          Local-elsewhere sys.ptr ptr' v stays (sound.locals j v there)
    ];
  }

run_thread-IsSound :
    (i : ℕ) (outcome : Bool) (sys sys' : System)
    → IsSound sys
    → run_thread i outcome sys ≡ some sys'
    → IsSound sys'
unfolding run_thread
run_thread-IsSound i outcome sys sys' sound h = elim (Option-cases (get_elem? sys.workers i)) [
  | inl e ↦ absurd (cc (rw (e, run_thread) at h))
  | inr (w, here) ↦
      let after : ℕ × Worker = step outcome sys.ptr w in
      let same : some (record { ptr = after.0; workers = set_at i after.1 sys.workers })
          ≡ some sys' =
        rw (here, run_thread) at h in
      let moves =
        step_moves (others sys i w after.1 after.0 sound here busy)
          (others sys i w after.1 after.0 sound here completes)
          (others sys i w after.1 after.0 sound here successes) outcome sys.ptr w.successes w.trues
          w.falses w.place (sound.locals i w here)
          (fields_before sys i w after.1 after.0 sound here) in
      subst IsSound (cc same) (Moved-IsSound sys i w after.1 after.0 sound here moves)
]

Reachable-IsSound : (sys : System) → Reachable sys → IsSound sys
Reachable-IsSound sys (started threads) = record {
  locals = λ i w at.
      let fresh : w ≡ worker 0 0 0 idle = get_elem?-replicate threads i (worker 0 0 0 idle) w at in
      rw fresh (inl refl);
  counts = ground (
    arith,
    total-replicate busy threads (worker 0 0 0 idle) refl,
    total-replicate completes threads (worker 0 0 0 idle) refl,
    total-replicate successes threads (worker 0 0 0 idle) refl,
  );
}
Reachable-IsSound sys (stepped before after i outcome reach went) =
    run_thread-IsSound i outcome before sys (Reachable-IsSound before reach) went

-- 1 for a thread that is about to call InitFn.
abbrev pub calls : Worker → ℕ
calls w = elim w.place [ calling ↦ 1 | _ ↦ 0 ]

calls-busy : (ws : List Worker) → total calls ws + total completes ws ≤ total busy ws
calls-busy [] = omega arith
calls-busy (w ∷ ws) =
    let later = calls-busy ws in
    let here : calls w + completes w ≤ busy w = ground arith in omega arith

-- In every system that any number of threads reach, however their steps are ordered and whatever
-- the function of the program returns: the threads that are about to call it and the calls of it
-- that have succeeded are together at most one.
pub runs_once :
    (sys : System) → Reachable sys → total calls sys.workers + total successes sys.workers ≤ 1
runs_once sys reach =
    let counted = (Reachable-IsSound sys reach).counts in ground (arith, calls-busy sys.workers)

-- In every reachable system in which a thread has returned TRUE from InitOnceExecuteOnce: the
-- function of the program has succeeded, in exactly one call.
pub true_after_success :
    (sys : System) (i : ℕ) (w : Worker)
    → Reachable sys
    → get_elem? sys.workers i ≡ some w
    → 0 < w.trues
    → total successes sys.workers ≡ 1
true_after_success sys i w reach at some_true =
    let sound = Reachable-IsSound sys reach in
    let counted = sound.counts in
    let loc = sound.locals i w at in ground (arith, calls-busy sys.workers)

not_busy :
    (ws : List Worker) (i j n t f : ℕ) (v : Worker)
    → get_elem? ws i ≡ some (worker n t f testing)
    → get_elem? ws j ≡ some v
    → 0 < busy v
    → i ≢ j
not_busy ws i j n t f v at there busy_there same =
    let moved : get_elem? ws i ≡ some v = ap (get_elem? ws) same ∙ there in
    let equal : some (worker n t f testing) ≡ some v = sym at ∙ moved in
    let is_v : worker n t f testing ≡ v = cc equal in
    let idle_now : 0 < busy (worker n t f testing) =
      subst (λ x. 0 < busy x) (sym is_v) busy_there in
    absurd (omega arith)

-- With the word neither 1 nor above 2, the test does not send the thread to sleep.
passes_test :
    (ptr n t f : ℕ)
    → ptr < 3
    → (ptr == 1) ≡ false
    → (step true ptr (worker n t f testing)).1.place ≢ sleeping
unfolding step
passes_test ptr n t f small apart = elim (Bool-cases (ptr % 4 == 2)) [
  | inl e ↦ rw e (λ h. cc h)
  | inr e ↦ elim (Bool-cases (ptr % 4 == 0)) [
    | inl g ↦ rw (e, g) (λ h. cc h)
    | inr g ↦ absurd (ground arith)
  ]
]

-- In every reachable system, for a thread that is about to test the word: the test does not send it
-- to sleep, or another thread is calling the function of the program or about to store its result.
pub sleeps_for_other :
    (sys : System) (i n t f : ℕ)
    → Reachable sys
    → get_elem? sys.workers i ≡ some (worker n t f testing)
    → ((step true sys.ptr (worker n t f testing)).1.place ≢ sleeping)
      ⊎ ((j : ℕ) × (v : Worker) × (get_elem? sys.workers j ≡ some v) × (i ≢ j) × (0 < busy v))
sleeps_for_other sys i n t f reach at =
    let counted = (Reachable-IsSound sys reach).counts in
    elim (Bool-cases (sys.ptr == 1)) [
      | inl e ↦
          let (j, v, there, busy_there) = total_find busy sys.workers (ground arith) in
          inr (
            j,
            v,
            there,
            (λ same. not_busy sys.workers i j n t f v at there busy_there same),
            busy_there,
          )
      | inr e ↦ inl (passes_test sys.ptr n t f counted.0 e)
    ]
