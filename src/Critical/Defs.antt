-- ===== src/Critical/Defs.antt =====
-- libuzi/critical.c: the shared fields, the place of a thread in a call, and one step of a thread.
-- Each access to a shared field is a step of its own. LockCount is kept with 1 added, so that the
-- unlocked section has 0 and the field counts the calls of EnterCriticalSection; it stays below 2^31.
-- A thread id is the number of the thread with 1 added, as OwningThread is NULL, which is 0, where no
-- thread is the owner.
use libuzi.Common.{
  ℕ, zero, suc, ◌+◌, ◌-◌, ◌≡◌, Bool, true, false, Option, none, some, List, ltb, ◌==◌,
  if◌then◌else◌, get_elem?, replicate, set_at,
}

-- The fields of CRITICAL_SECTION, with the number of units of LockSemaphore.
pub record Section : Type 0 where
  pub lock_count : ℕ
  pub recursion_count : ℕ
  pub owning_thread : ℕ
  pub semaphore : ℕ
  pub spin_count : ℕ

-- Who has called TryEnterCriticalSection: EnterCriticalSection, with the spins it has left, or
-- the program.
pub data Caller : Type 0 where
  from_enter : (spins : ℕ) → Caller
  alone : Caller

-- What a thread is about to do next.
pub data Place : Type 0 where
  -- it is in no call
  idle : Place
  -- TryEnterCriticalSection: the compare and exchange, the test of the owner, the second increment
  try_exchange : Caller → Place
  try_owner : Caller → Place
  try_increment : Place
  -- EnterCriticalSection: the condition of the loop, its compare and exchange, the increment, the
  -- test of the owner, and the wait
  spin : (spins : ℕ) → Place
  spin_exchange : (spins : ℕ) → Place
  increment : Place
  check_owner : Place
  waiting : Place
  -- the two assignments behind each success
  taking : Place
  owning : Place
  -- LeaveCriticalSection: the decrement of RecursionCount; then, of the last call, the reset of the
  -- owner, the decrement and the post; or else the decrement
  leaving : Place
  clearing : Place
  dropping : Place
  posting : Place
  dropping_one : Place

-- A thread: its place, and how many calls that entered the section it has not left yet.
pub record Worker : Type 0 where
  pub depth : ℕ
  pub place : Place

abbrev pub worker : ℕ → Place → Worker
worker d p = record { depth = d; place = p }

-- What the program of an idle thread calls next.
pub data Call : Type 0 where
  enter_critical_section : Call
  try_enter_critical_section : Call
  leave_critical_section : Call

-- SetCriticalSectionSpinCount: the previous value is returned, and there is no spinning on one
-- processor.
abbrev pub effective_spin_count : (processors spins : ℕ) → ℕ
effective_spin_count processors spins = if ltb processors 2 then 0 else spins

abbrev pub set_critical_section_spin_count : (processors : ℕ) → Section → ℕ → ℕ × Section
set_critical_section_spin_count processors s spins =
    (s.spin_count, record s { spin_count = effective_spin_count processors spins })

-- InitializeCriticalSectionEx; `malloc_ok` and `sem_ok` are whether the semaphore can be made
unfoldable pub initialize_critical_section_ex :
    (flags : ℕ) (malloc_ok sem_ok : Bool) (processors spin_count : ℕ) → Option Section
initialize_critical_section_ex (suc n) malloc_ok sem_ok processors spin_count = none
initialize_critical_section_ex zero false sem_ok processors spin_count = none
initialize_critical_section_ex zero true false processors spin_count = none
initialize_critical_section_ex zero true true processors spin_count = some (record {
  lock_count = 0;
  recursion_count = 0;
  owning_thread = 0;
  semaphore = 0;
  spin_count = effective_spin_count processors spin_count;
})

-- The call of an idle thread. It leaves only what it has entered.
unfoldable pub begin : Call → Section → ℕ → Option (Section × Worker)
begin enter_critical_section s d =
    some (
      s,
      worker d (if s.spin_count == 0 then increment else try_exchange (from_enter s.spin_count)),
    )
begin try_enter_critical_section s d = some (s, worker d (try_exchange alone))
begin leave_critical_section s d = if d == 0 then none else some (s, worker d leaving)

-- InitializeCriticalSection and InitializeCriticalSectionAndSpinCount
abbrev pub initialize_critical_section : (malloc_ok sem_ok : Bool) (processors : ℕ) → Option Section
initialize_critical_section malloc_ok sem_ok processors =
    initialize_critical_section_ex 0 malloc_ok sem_ok processors 0

abbrev pub initialize_critical_section_and_spin_count :
    (malloc_ok sem_ok : Bool) (processors spin_count : ℕ) → Option Section
initialize_critical_section_and_spin_count malloc_ok sem_ok processors spin_count =
    initialize_critical_section_ex 0 malloc_ok sem_ok processors spin_count

-- DeleteCriticalSection, which destroys the semaphore
abbrev pub delete_critical_section : Section → Section
delete_critical_section s = record {
  lock_count = 0;
  recursion_count = 0;
  owning_thread = 0;
  semaphore = 0;
  spin_count = 0;
}

-- `return FALSE` of TryEnterCriticalSection
abbrev pub refused : Caller → Place
refused (from_enter spins) = spin spins
refused alone = idle

-- One step of the thread with the id `me`, which calls `call` if it is idle. `none` is a thread that
-- cannot step: one that waits while the semaphore is 0.
unfoldable pub step : (me : ℕ) → Call → Section → Worker → Option (Section × Worker)
step me call s w = elim w.place [
  | idle ↦ begin call s w.depth
  | try_exchange caller ↦
      if s.lock_count == 0
      then some (record s { lock_count = 1 }, worker w.depth taking)
      else some (s, worker w.depth (try_owner caller))
  | try_owner caller ↦
      if s.owning_thread == me
      then some (record s { recursion_count = s.recursion_count + 1 }, worker w.depth try_increment)
      else some (s, worker w.depth (refused caller))
  | try_increment ↦ some (record s { lock_count = s.lock_count + 1 }, worker (w.depth + 1) idle)
  | spin spins ↦
      if spins == 0
      then some (s, worker w.depth increment)
      else if ltb s.lock_count 2
      then some (s, worker w.depth (spin_exchange (spins - 1)))
      else some (s, worker w.depth increment)
  | spin_exchange spins ↦
      if s.lock_count == 0
      then some (record s { lock_count = 1 }, worker w.depth taking)
      else some (s, worker w.depth (spin spins))
  | increment ↦
      if s.lock_count == 0
      then some (record s { lock_count = s.lock_count + 1 }, worker w.depth taking)
      else some (record s { lock_count = s.lock_count + 1 }, worker w.depth check_owner)
  | check_owner ↦
      if s.owning_thread == me
      then some (record s { recursion_count = s.recursion_count + 1 }, worker (w.depth + 1) idle)
      else some (s, worker w.depth waiting)
  | waiting ↦
      if s.semaphore == 0
      then none
      else some (record s { semaphore = s.semaphore - 1 }, worker w.depth taking)
  | taking ↦ some (record s { recursion_count = 1 }, worker w.depth owning)
  | owning ↦ some (record s { owning_thread = me }, worker (w.depth + 1) idle)
  | leaving ↦
      if ltb (s.recursion_count - 1) 1
      then some (record s { recursion_count = s.recursion_count - 1 }, worker w.depth clearing)
      else some (record s { recursion_count = s.recursion_count - 1 }, worker w.depth dropping_one)
  | clearing ↦ some (record s { owning_thread = 0 }, worker w.depth dropping)
  | dropping ↦
      if ltb 1 s.lock_count
      then some (record s { lock_count = s.lock_count - 1 }, worker (w.depth - 1) posting)
      else some (record s { lock_count = s.lock_count - 1 }, worker (w.depth - 1) idle)
  | posting ↦ some (record s { semaphore = s.semaphore + 1 }, worker w.depth idle)
  | dropping_one ↦ some (record s { lock_count = s.lock_count - 1 }, worker (w.depth - 1) idle)
]

-- The section and all threads, the thread 0 first.
pub record System : Type 0 where
  pub section : Section
  pub workers : List Worker

-- The step of the thread number `i`.
unfoldable pub run_thread : ℕ → Call → System → Option System
run_thread i call sys = elim (get_elem? sys.workers i) [
  | none ↦ none
  | some w ↦ elim (step (i + 1) call sys.section w) [
    | none ↦ none
    | some (s, w') ↦ some (record { section = s; workers = set_at i w' sys.workers })
  ]
]

-- The systems that any number of idle threads come to, in any order of their steps, where the spin
-- count may be set between any two.
pub data Reachable : System → Type 0 where
  started :
      (threads processors spins : ℕ) (s : Section)
      → initialize_critical_section_ex 0 true true processors spins ≡ some s
      → Reachable (record { section = s; workers = replicate threads (worker 0 idle) })
  stepped :
      (sys sys' : System) (i : ℕ) (call : Call)
      → Reachable sys
      → run_thread i call sys ≡ some sys'
      → Reachable sys'
  spin_count_set :
      (sys : System) (processors spins : ℕ)
      → Reachable sys
      → Reachable (record {
        section = record sys.section { spin_count = effective_spin_count processors spins };
        workers = sys.workers;
      })
