-- ===== src/Barrier/Defs.antt =====
-- libuzi/barrier.c: the shared fields, the place of a thread in a call, and one step of a thread.
-- Each access to a field that changes is a step of its own. The two events are the handles 1 and 2,
-- and a manual-reset event is whether it is signalled.
use libuzi.Common.{
  ℕ, ◌+◌, ◌-◌, ◌≡◌, Bool, true, false, not, ◌&&◌, ◌||◌, Option, none, some, List, ltb, ◌==◌,
  if◌then◌else◌, bit_and, get_elem?, replicate, set_at,
}
use libuzi.Common.Integers.{ℤ, pos, negsuc, ltz}

-- RTL_BARRIER: Reserved1, Reserved2, Reserved3[0], Reserved3[1], Reserved4 and Reserved5.
pub record Barrier : Type 0 where
  pub remaining : ℕ
  pub total_threads : ℕ
  pub current : ℕ
  pub dormant : ℕ
  pub processors : ℕ
  pub spin_count : ℕ

-- The barrier with the states of the events 1 and 2.
pub record Shared : Type 0 where
  pub barrier : Barrier
  pub first : Bool
  pub second : Bool

abbrev pub signalled : ℕ → Shared → Bool
signalled event s = if event == 1 then s.first else s.second

abbrev pub signal : ℕ → Bool → Shared → Shared
signal event value s =
    if event == 1 then record s { first = value } else record s { second = value }

abbrev pub spin_only : ℕ → Bool
spin_only flags = not (bit_and flags 1 == 0)

abbrev pub block_only : ℕ → Bool
block_only flags = not (bit_and flags 2 == 0)

-- What a thread is about to do next in EnterSynchronizationBarrier, with its local variables.
pub data Place : Type 0 where
  -- it is in no call
  idle : Place
  -- the reads of Reserved3[0] and Reserved3[1], and the decrement
  reading_current : (flags : ℕ) → Place
  reading_dormant : (flags current : ℕ) → Place
  decrementing : (flags current dormant : ℕ) → Place
  -- the loop that spins, and the wait
  spinning : (flags current spins : ℕ) → Place
  waiting : (current : ℕ) → Place
  -- the last thread: the reset of the dormant event, the three assignments, and the signal
  resetting : (current dormant : ℕ) → Place
  reloading : (current dormant : ℕ) → Place
  switching_dormant : (current dormant : ℕ) → Place
  switching_current : (current dormant : ℕ) → Place
  setting : (current : ℕ) → Place

-- A thread: how many of its calls have returned, how many of these TRUE, and its place.
pub record Worker : Type 0 where
  pub returned : ℕ
  pub trues : ℕ
  pub place : Place

abbrev pub worker : ℕ → ℕ → Place → Worker
worker n t p = record { returned = n; trues = t; place = p }

abbrev pub zeroed : Barrier
zeroed = record {
  remaining = 0;
  total_threads = 0;
  current = 0;
  dormant = 0;
  processors = 0;
  spin_count = 0;
}

-- What InitializeSynchronizationBarrier leaves: its result, whether it set
-- ERROR_INVALID_PARAMETER, the barrier, and the number of events that are open.
pub record Initialized : Type 0 where
  pub result : Bool
  pub invalid_parameter : Bool
  pub barrier : Barrier
  pub open_events : ℕ

abbrev pub spins_of : ℤ → ℕ
spins_of (pos n) = n
spins_of (negsuc n) = 2000

abbrev pub threads_of : ℤ → ℕ
threads_of (pos n) = n
threads_of (negsuc n) = 0

-- `event0` and `event1` are whether CreateEventA returns an event.
unfoldable pub create_events : (event0 event1 : Bool) (processors threads spins : ℕ) → Initialized
create_events false event1 processors threads spins = record {
  result = false;
  invalid_parameter = false;
  barrier = zeroed;
  open_events = 0;
}
create_events true false processors threads spins = record {
  result = false;
  invalid_parameter = false;
  barrier = zeroed;
  open_events = 1 - 1;
}
create_events true true processors threads spins = record {
  result = true;
  invalid_parameter = false;
  barrier = record {
    remaining = threads;
    total_threads = threads;
    current = 1;
    dormant = 2;
    processors = processors;
    spin_count = spins;
  };
  open_events = 2;
}

-- InitializeSynchronizationBarrier of the barrier `b`, or of NULL
unfoldable pub initialize_synchronization_barrier :
    (null event0 event1 : Bool) (processors : ℕ) (b : Barrier) (total_threads spin_count : ℤ)
    → Initialized
initialize_synchronization_barrier null event0 event1 processors b total_threads spin_count =
    if null || ltz total_threads (pos 1) || ltz spin_count (negsuc 0)
    then record { result = false; invalid_parameter = true; barrier = b; open_events = 0 }
    else create_events event0 event1 processors (threads_of total_threads) (spins_of spin_count)

-- DeleteSynchronizationBarrier: `none` while its loop waits for Reserved1 to be Reserved2; then the
-- barrier is zero, with the number of handles that it closed.
unfoldable pub delete_synchronization_barrier : Barrier → Option (Barrier × ℕ)
delete_synchronization_barrier b =
    if b.remaining == b.total_threads
    then some (zeroed, (if b.current == 0 then 0 else 1) + (if b.dormant == 0 then 0 else 1))
    else none

-- Whether a thread that is not the last one spins first.
abbrev pub spins_first : (flags remaining processors : ℕ) → Bool
spins_first flags remaining processors =
    spin_only flags || (ltb remaining processors && not (block_only flags))

-- One step of a thread, whose next call has the flags `next` if it is idle. `none` is a thread that
-- cannot step: one that waits for an event that is not signalled.
unfoldable pub step : (next : ℕ) → Shared → Worker → Option (Shared × Worker)
step next s w =
    let b = s.barrier in
    let at : Place → Worker = λ p. record w { place = p } in
    elim w.place [
      | idle ↦ some (s, at (reading_current next))
      | reading_current flags ↦ some (s, at (reading_dormant flags b.current))
      | reading_dormant flags current ↦ some (s, at (decrementing flags current b.dormant))
      | decrementing flags current dormant ↦
          let left = b.remaining - 1 in
          some (
            record s { barrier = record b { remaining = left } },
            at (
                if ltb 0 left
                then if spins_first flags left b.processors
                  then spinning flags current 0
                  else waiting current
                else resetting current dormant),
          )
      | spinning flags current spins ↦
          if b.current == current
          then if spin_only flags
            then some (s, at (spinning flags current spins))
            else if ltb b.spin_count (spins + 1)
            then some (s, at (waiting current))
            else some (s, at (spinning flags current (spins + 1)))
          else some (s, record w { returned = w.returned + 1; place = idle })
      | waiting current ↦
          if signalled current s
          then some (s, record w { returned = w.returned + 1; place = idle })
          else none
      | resetting current dormant ↦ some (signal dormant false s, at (reloading current dormant))
      | reloading current dormant ↦ some (
        record s { barrier = record b { remaining = b.total_threads } },
        at (switching_dormant current dormant),
      )
      | switching_dormant current dormant ↦ some (
        record s { barrier = record b { dormant = current } },
        at (switching_current current dormant),
      )
      | switching_current current dormant ↦
          some (record s { barrier = record b { current = dormant } }, at (setting current))
      | setting current ↦ some (
        signal current true s,
        record w { returned = w.returned + 1; trues = w.trues + 1; place = idle },
      )
    ]

-- The barrier and all threads, the thread 0 first.
pub record System : Type 0 where
  pub shared : Shared
  pub workers : List Worker

-- The step of the thread number `i`.
unfoldable pub run_thread : (i next : ℕ) → System → Option System
run_thread i next sys = elim (get_elem? sys.workers i) [
  | none ↦ none
  | some w ↦ elim (step next sys.shared w) [
    | none ↦ none
    | some (s, w') ↦ some (record { shared = s; workers = set_at i w' sys.workers })
  ]
]

-- The systems that as many idle threads as the barrier is made for come to, in any order of their
-- steps and with any flags.
pub data Reachable : System → Type 0 where
  started :
      (threads processors : ℕ) (b : Barrier) (spin_count : ℤ)
      → (initialize_synchronization_barrier false true true processors b
          (pos threads)
          spin_count).result
        ≡ true
      → Reachable (record {
        shared = record {
          barrier =
              (initialize_synchronization_barrier false true true processors b
                (pos threads)
                spin_count).barrier;
          first = false;
          second = false;
        };
        workers = replicate threads (worker 0 0 idle);
      })
  stepped :
      (sys sys' : System) (i next : ℕ)
      → Reachable sys
      → run_thread i next sys ≡ some sys'
      → Reachable sys'
