-- ===== src/Critical/Locking.antt =====
-- The critical section of libuzi/critical.c as a lock: exclusion, ownership, and that no thread waits
-- for nothing.
use libuzi.Common.{
  ℕ, ◌+◌, ◌≤◌, ◌<◌, ◌≡◌, ◌≢◌, ◌⊎◌, inl, inr, refl, none, some, List, [], ◌∷◌, ◌==◌, Bool-cases,
  Option-cases, get_elem?, All, arith,
}
use mathlib.Core.Path.{subst}
use libuzi.Critical.Defs.{
  Section, Place, idle, try_exchange, try_owner, try_increment, spin, spin_exchange, increment,
  check_owner, waiting, taking, owning, leaving, clearing, dropping, posting, dropping_one, Worker,
  worker, leave_critical_section, begin, step, System, run_thread, Reachable,
}
use libuzi.Common.Sums.{total, total_one, total_two, total_find}
use libuzi.Critical.Invariant.{share, token, Local, tokens_of}
use libuzi.Critical.Safety.{IsSound, Reachable-IsSound}

inside-token : (w : Worker) → 0 < w.depth → token w ≡ 1
inside-token w h = ground arith

-- In every system that threads reach from an initialized section, however their steps are ordered:
-- while a thread has entered the section and not left it, no other thread has.
pub mutual_exclusion :
    (sys : System) (i j : ℕ) (v w : Worker)
    → Reachable sys
    → i ≢ j
    → get_elem? sys.workers i ≡ some v
    → get_elem? sys.workers j ≡ some w
    → 0 < v.depth
    → w.depth ≡ 0
mutual_exclusion sys i j v w reach apart at_i at_j inside =
    let sound = Reachable-IsSound sys reach in
    let both = total_two token sys.workers i j v w apart at_i at_j in
    let few : tokens_of sys.section.lock_count ≤ 1 = ground arith in
    elim (Bool-cases (w.depth == 0)) [
      | inl e ↦ ground arith
      | inr e ↦
          let one = inside-token v inside in
          let other = inside-token w (ground arith) in
          absurd (omega (arith, sound.tokens, both, few, one, other))
    ]

-- In every reachable system, for a thread that is in no call and has entered the section d times
-- more than it has left it: if d is 0 it is not OwningThread, and otherwise it is, and
-- RecursionCount is d.
pub owner_lem :
    (sys : System) (i d : ℕ)
    → Reachable sys
    → get_elem? sys.workers i ≡ some (worker d idle)
    → ((d ≡ 0) × (sys.section.owning_thread ≢ i + 1))
      ⊎ ((0 < d) × (sys.section.owning_thread ≡ i + 1) × (sys.section.recursion_count ≡ d))
owner_lem sys i d reach at = (Reachable-IsSound sys reach).locals i (worker d idle) at

find_token :
    (ws : List Worker)
    → 0 < total token ws
    → (j : ℕ) × (v : Worker) × (get_elem? ws j ≡ some v) × (token v ≡ 1)
find_token ws h = let (j, v, at, some_token) = total_find token ws h in (j, v, at, ground arith)

-- The thread with the token can step, with the call that leaves if it is idle.
holder_steps :
    (me : ℕ) (s : Section) (d : ℕ) (p : Place)
    → token (worker d p) ≡ 1
    → (p ≡ waiting → d ≡ 0)
    → step me leave_critical_section s (worker d p) ≢ none
unfolding step begin
holder_steps me s d idle one out h = ground arith
holder_steps me s d (try_exchange caller) one out h = ground arith
holder_steps me s d (try_owner caller) one out h = ground arith
holder_steps me s d try_increment one out h = ground arith
holder_steps me s d (spin spins) one out h = ground arith
holder_steps me s d (spin_exchange spins) one out h = ground arith
holder_steps me s d increment one out h = ground arith
holder_steps me s d check_owner one out h = ground arith
holder_steps me s d waiting one out h = let none_left = out refl in ground arith
holder_steps me s d taking one out h = ground arith
holder_steps me s d owning one out h = ground arith
holder_steps me s d leaving one out h = ground arith
holder_steps me s d clearing one out h = ground arith
holder_steps me s d dropping one out h = ground arith
holder_steps me s d posting one out h = ground arith
holder_steps me s d dropping_one one out h = ground arith

waiting_out :
    (sys : System) (j : ℕ) (v : Worker)
    → IsSound sys
    → get_elem? sys.workers j ≡ some v
    → v.place ≡ waiting
    → v.depth ≡ 0
waiting_out sys j v sound at e =
    let here : Local sys.section (j + 1) (worker v.depth waiting) =
      subst (λ p. Local sys.section (j + 1) (worker v.depth p)) e (sound.locals j v at) in
    here.0

holder_runs :
    (sys : System) (j : ℕ) (v : Worker)
    → IsSound sys
    → get_elem? sys.workers j ≡ some v
    → token v ≡ 1
    → run_thread j leave_critical_section sys ≢ none
unfolding run_thread
holder_runs sys j v sound at one h =
    elim (Option-cases (step (j + 1) leave_critical_section sys.section v)) [
      | inl e ↦
          holder_steps (j + 1) sys.section v.depth v.place one (waiting_out sys j v sound at) e
      | inr ((s', v'), went) ↦ absurd (cc (rw (at, went, run_thread) at h))
    ]

-- In every reachable system with a thread that waits for the semaphore: the semaphore has a unit
-- for it, or another thread has the section or is about to post and can take a step, leaving the
-- section if it is in no call.
pub no_lost_wake_up :
    (sys : System) (i : ℕ) (w : Worker)
    → Reachable sys
    → get_elem? sys.workers i ≡ some w
    → w.place ≡ waiting
    → (0 < sys.section.semaphore)
      ⊎ ((j : ℕ) × (v : Worker) × (get_elem? sys.workers j ≡ some v)
          × (token v ≡ 1)
          × (run_thread j leave_critical_section sys ≢ none))
no_lost_wake_up sys i w reach at waits =
    let sound = Reachable-IsSound sys reach in
    let share_in = total_one share sys.workers i w at in
    let some_share : 0 < share w = rw waits (omega arith) in
    let locked : tokens_of sys.section.lock_count ≡ 1 = ground (arith, sound.counts) in
    elim (Bool-cases (sys.section.semaphore == 0)) [
      | inl e ↦
          let (j, v, there, one) = find_token sys.workers (ground (arith, sound.tokens)) in
          inr (j, v, there, one, holder_runs sys j v sound there one)
      | inr e ↦ inl (ground arith)
    ]

-- All threads outside and idle: the section is unlocked and no unit of the semaphore is left.
no_shares :
    (ws : List Worker)
    → All (λ w. w ≡ worker 0 idle) ws
    → (total share ws ≡ 0) × (total token ws ≡ 0)
no_shares [] h = (refl, refl)
no_shares (w ∷ ws) h =
    let (e, f) = no_shares ws h.1 in
    let here = h.0 in (rw here (omega (arith, e)), rw here (omega (arith, f)))

-- In every reachable system in which all threads are in no call and have left the section as often
-- as they have entered it: LockCount is that of an unlocked section, and the semaphore has no unit
-- that would let in a second thread.
pub left_unlocked :
    (sys : System)
    → Reachable sys
    → All (λ w. w ≡ worker 0 idle) sys.workers
    → (sys.section.lock_count ≡ 0) × (sys.section.semaphore ≡ 0)
left_unlocked sys reach outside =
    let sound = Reachable-IsSound sys reach in
    let (shares, tokens) = no_shares sys.workers outside in
    let unlocked : sys.section.lock_count ≡ 0 = omega (arith, sound.counts, shares) in
    let none_left : tokens_of sys.section.lock_count ≡ 0 = ground arith in
    (unlocked, omega (arith, sound.tokens, none_left, tokens))
