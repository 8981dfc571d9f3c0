-- ===== src/Critical/Invariant.antt =====
-- What every step of libuzi/critical.c keeps: LockCount counts the calls that have not left, one
-- token says who may take the section, and the owner's fields are those of the thread inside.
use libuzi.Common.{
  ℕ, ◌+◌, ◌-◌, ◌<◌, ◌≡◌, ◌≢◌, ◌⊎◌, inl, inr, Option, none, some, ltb, ◌==◌, if◌then◌else◌,
  Bool-cases, arith,
}
use libuzi.Critical.Defs.{
  Section, Caller, Place, idle, try_exchange, try_owner, try_increment, spin, spin_exchange,
  increment, check_owner, waiting, taking, owning, leaving, clearing, dropping, posting,
  dropping_one, Worker, worker, Call, enter_critical_section, try_enter_critical_section,
  leave_critical_section, begin, step,
}

-- How much of LockCount is the thread's.
abbrev pub share : Worker → ℕ
share w = elim w.place [
  | check_owner ↦ w.depth + 1
  | waiting ↦ w.depth + 1
  | taking ↦ w.depth + 1
  | owning ↦ w.depth + 1
  | _ ↦ w.depth
]

-- Whether the thread has the token: the section is its, or it is about to post the semaphore.
abbrev pub token : Worker → ℕ
token w = elim w.place [ taking ↦ 1 | owning ↦ 1 | posting ↦ 1 | _ ↦ if w.depth == 0 then 0 else 1 ]

-- Outside, the thread is not the owner; inside, it is, and RecursionCount is its depth.
abbrev Held : Section → ℕ → ℕ → Type 0
Held s me d =
    ((d ≡ 0) × (s.owning_thread ≢ me))
    ⊎ ((0 < d) × (s.owning_thread ≡ me) × (s.recursion_count ≡ d))

abbrev Outside : Section → ℕ → ℕ → Type 0
Outside s me d = (d ≡ 0) × (s.owning_thread ≢ me)

abbrev Inside : Section → ℕ → ℕ → ℕ → Type 0
Inside s me d r = (0 < d) × (s.owning_thread ≡ me) × (s.recursion_count ≡ r)

abbrev pub Local : Section → ℕ → Worker → Type 0
Local s me w = elim w.place [
  | idle ↦ Held s me w.depth
  | try_exchange caller ↦ Held s me w.depth
  | try_owner caller ↦ Held s me w.depth
  | try_increment ↦ Inside s me w.depth (w.depth + 1)
  | spin spins ↦ Outside s me w.depth
  | spin_exchange spins ↦ Outside s me w.depth
  | increment ↦ Held s me w.depth
  | check_owner ↦ Held s me w.depth
  | waiting ↦ Outside s me w.depth
  | taking ↦ Outside s me w.depth
  | owning ↦ Outside s me w.depth × (s.recursion_count ≡ 1)
  | leaving ↦ Inside s me w.depth w.depth
  | clearing ↦ Inside s me w.depth 0 × (w.depth ≡ 1)
  | dropping ↦ (w.depth ≡ 1) × (s.owning_thread ≢ me)
  | posting ↦ Outside s me w.depth
  | dropping_one ↦ Inside s me w.depth (w.depth - 1) × (1 < w.depth)
]

abbrev pub tokens_of : ℕ → ℕ
tokens_of lock_count = if lock_count == 0 then 0 else 1

-- What a step does to the section and its thread; `others` and `rest` are the sums of the shares and
-- tokens of the other threads.
abbrev pub Moved : (me others rest : ℕ) → Section → Section → Worker → Worker → Type 0
Moved me others rest s s' w w' =
    Local s' me w'
    × (others + share w' ≡ s'.lock_count)
    × (s'.semaphore + (rest + token w') ≡ tokens_of s'.lock_count)
    × (((s'.owning_thread ≡ s.owning_thread) × (s'.recursion_count ≡ s.recursion_count))
        ⊎ ((token w ≡ 1)
            × ((s'.owning_thread ≡ s.owning_thread)
                ⊎ (s'.owning_thread ≡ 0)
                ⊎ (s'.owning_thread ≡ me))))

abbrev pub After : (me others rest : ℕ) → Section → Worker → Option (Section × Worker) → Type 0
After me others rest s w none = Unit
After me others rest s w (some (s', w')) = Moved me others rest s s' w w'

module _ (me others rest : ℕ) (call : Call) (s : Section) (d : ℕ) (pos : 0 < me) where
  abbrev pub Keeps : Place → Type 0
  Keeps p =
      Local s me (worker d p)
      → others + share (worker d p) ≡ s.lock_count
      → s.semaphore + (rest + token (worker d p)) ≡ tokens_of s.lock_count
      → After me others rest s (worker d p) (step me call s (worker d p))

  from_try_exchange : (caller : Caller) → Keeps (try_exchange caller)
  unfolding step
  from_try_exchange caller loc count tok = elim (Bool-cases (s.lock_count == 0)) [
    | inl e ↦ rw e (ground arith)
    | inr e ↦ rw e (ground arith)
  ]

  from_try_owner : (caller : Caller) → Keeps (try_owner caller)
  unfolding step
  from_try_owner caller loc count tok = elim (Bool-cases (s.owning_thread == me)) [
    | inl e ↦ rw e (ground arith)
    | inr e ↦ rw e (ground arith)
  ]

  from_try_increment : Keeps try_increment
  unfolding step
  from_try_increment loc count tok = ground arith

  from_spin : (spins : ℕ) → Keeps (spin spins)
  unfolding step
  from_spin spins loc count tok = elim (Bool-cases (spins == 0)) [
    | inl e ↦ rw e (ground arith)
    | inr e ↦ rw e (ground arith)
  ]

  from_spin_exchange : (spins : ℕ) → Keeps (spin_exchange spins)
  unfolding step
  from_spin_exchange spins loc count tok = elim (Bool-cases (s.lock_count == 0)) [
    | inl e ↦ rw e (ground arith)
    | inr e ↦ rw e (ground arith)
  ]

  from_increment : Keeps increment
  unfolding step
  from_increment loc count tok = elim (Bool-cases (s.lock_count == 0)) [
    | inl e ↦ rw e (ground arith)
    | inr e ↦ rw e (ground arith)
  ]

  from_check_owner : Keeps check_owner
  unfolding step
  from_check_owner loc count tok = elim (Bool-cases (s.owning_thread == me)) [
    | inl e ↦ rw e (ground arith)
    | inr e ↦ rw e (ground arith)
  ]

  from_waiting : Keeps waiting
  unfolding step
  from_waiting loc count tok = elim (Bool-cases (s.semaphore == 0)) [
    | inl e ↦ rw e (ground arith)
    | inr e ↦ rw e (ground arith)
  ]

  from_taking : Keeps taking
  unfolding step
  from_taking loc count tok = ground arith

  from_owning : Keeps owning
  unfolding step
  from_owning loc count tok = ground arith

  from_leaving : Keeps leaving
  unfolding step
  from_leaving loc count tok = elim (Bool-cases (ltb (s.recursion_count - 1) 1)) [
    | inl e ↦ rw e (ground arith)
    | inr e ↦ rw e (ground arith)
  ]

  from_clearing : Keeps clearing
  unfolding step
  from_clearing loc count tok = ground arith

  from_dropping : Keeps dropping
  unfolding step
  from_dropping loc count tok = elim (Bool-cases (ltb 1 s.lock_count)) [
    | inl e ↦ rw e (ground arith)
    | inr e ↦ rw e (ground arith)
  ]

  from_posting : Keeps posting
  unfolding step
  from_posting loc count tok = ground arith

  from_dropping_one : Keeps dropping_one
  unfolding step
  from_dropping_one loc count tok = ground arith

  from_call :
      (c : Call)
      → Local s me (worker d idle)
      → others + share (worker d idle) ≡ s.lock_count
      → s.semaphore + (rest + token (worker d idle)) ≡ tokens_of s.lock_count
      → After me others rest s (worker d idle) (begin c s d)
  unfolding begin
  from_call enter_critical_section loc count tok = elim (Bool-cases (s.spin_count == 0)) [
    | inl e ↦ rw e (ground arith)
    | inr e ↦ rw e (ground arith)
  ]
  from_call try_enter_critical_section loc count tok = ground arith
  from_call leave_critical_section loc count tok = elim (Bool-cases (d == 0)) [
    | inl e ↦ rw e tt
    | inr e ↦ rw e (ground arith)
  ]

  from_idle : Keeps idle
  unfolding step
  from_idle loc count tok = from_call call loc count tok

  -- One step of a thread, wherever it is.
  pub step_moves : (p : Place) → Keeps p
  step_moves idle = from_idle
  step_moves (try_exchange caller) = from_try_exchange caller
  step_moves (try_owner caller) = from_try_owner caller
  step_moves try_increment = from_try_increment
  step_moves (spin spins) = from_spin spins
  step_moves (spin_exchange spins) = from_spin_exchange spins
  step_moves increment = from_increment
  step_moves check_owner = from_check_owner
  step_moves waiting = from_waiting
  step_moves taking = from_taking
  step_moves owning = from_owning
  step_moves leaving = from_leaving
  step_moves clearing = from_clearing
  step_moves dropping = from_dropping
  step_moves posting = from_posting
  step_moves dropping_one = from_dropping_one
