-- ===== src/Init/Defs.antt =====
-- libuzi/init.c: the word of INIT_ONCE, the place of a thread in InitOnceExecuteOnce, and one step.
-- Each access to the word is a step of its own, and so is the call of the program's function.
use libuzi.Common.{
  ℕ, ◌+◌, ◌%◌, ◌≡◌, Bool, Option, none, some, List, ◌==◌, if◌then◌else◌, get_elem?, replicate,
  set_at,
}

-- What a thread is about to do next.
pub data Place : Type 0 where
  idle : Place
  -- the test of `Ptr & 3`, the compare and exchange, and the call of InitFn
  testing : Place
  exchanging : Place
  calling : Place
  -- the assignments behind a success and a failure, and the sleep before the next test
  completing : Place
  failing : Place
  sleeping : Place

-- A thread: how many calls of InitFn it has seen succeed, and how many of its own calls returned
-- TRUE and FALSE.
pub record Worker : Type 0 where
  pub successes : ℕ
  pub trues : ℕ
  pub falses : ℕ
  pub place : Place

abbrev pub worker : (successes trues falses : ℕ) → Place → Worker
worker n t f p = record { successes = n; trues = t; falses = f; place = p }

abbrev pub go : Worker → Place → Worker
go w p = record w { place = p }

abbrev pub return_true : Worker → Worker
return_true w = record w { trues = w.trues + 1; place = idle }

abbrev pub return_false : Worker → Worker
return_false w = record w { falses = w.falses + 1; place = idle }

-- One step of a thread at the word `ptr`; `outcome` is what InitFn returns, if it is called.
unfoldable pub step : (outcome : Bool) → (ptr : ℕ) → Worker → ℕ × Worker
step outcome ptr w = elim w.place [
  | idle ↦ (ptr, go w testing)
  | testing ↦
      if ptr % 4 == 2
      then (ptr, return_true w)
      else if ptr % 4 == 0
      then (ptr, go w exchanging)
      else if ptr % 4 == 1
      then (ptr, go w sleeping)
      else (ptr, return_false w)
  | exchanging ↦ if ptr == 0 then (1, go w calling) else (ptr, go w sleeping)
  | calling ↦
      if outcome
      then (ptr, record w { successes = w.successes + 1; place = completing })
      else (ptr, go w failing)
  | completing ↦ (2, return_true w)
  | failing ↦ (0, return_false w)
  | sleeping ↦ (ptr, go w testing)
]

-- The word and all threads, the thread 0 first.
pub record System : Type 0 where
  pub ptr : ℕ
  pub workers : List Worker

-- The step of the thread number `i`.
unfoldable pub run_thread : ℕ → (outcome : Bool) → System → Option System
run_thread i outcome sys = elim (get_elem? sys.workers i) [
  | none ↦ none
  | some w ↦
      let (ptr, w') = step outcome sys.ptr w in
      some (record { ptr = ptr; workers = set_at i w' sys.workers })
]

-- The systems that any number of idle threads come to from INIT_ONCE_STATIC_INIT, in any order of
-- their steps and with any results of InitFn.
pub data Reachable : System → Type 0 where
  started :
      (threads : ℕ)
      → Reachable (record { ptr = 0; workers = replicate threads (worker 0 0 0 idle) })
  stepped :
      (sys sys' : System) (i : ℕ) (outcome : Bool)
      → Reachable sys
      → run_thread i outcome sys ≡ some sys'
      → Reachable sys'
