-- ===== src/Timer/Waitable.antt =====
-- libuzi/timer.c: the waitable timers, in the build for Linux with timerfd and POSIX timers, and the
-- thread of a timer queue. What the calls of the system return is a parameter.
use libuzi.Common.{
  ℕ, zero, suc, ◌+◌, ◌*◌, ◌/◌, ◌%◌, ◌^◌, ◌≡◌, ◌<◌, ◌⊎◌, inl, inr, refl, Bool, true, false, not,
  ◌&&◌, ◌||◌, Option, none, some, List, [], ◌∷◌, ltb, ◌==◌, if◌then◌else◌, bit_and, Bool-cases,
  arith,
}
use libuzi.Common.Integers.{ℤ, pos, negsuc}
use libuzi.Timer.Times.{
  Timespec, negative, null, positive, timespec_add_ms, timespec_compare, nanoseconds,
}
use libuzi.Timer.Queue.{Timer, TimerQueue, fire_expired_timer_queue_timers}

-- struct itimerspec
pub record Timeout : Type 0 where
  pub it_interval : Timespec
  pub it_value : Timespec

-- WINPR_TIMER, where 0 is a routine or argument that is NULL
pub record WaitableTimer : Type 0 where
  pub fd : ℤ
  pub is_init : Bool
  pub period : ℤ
  pub manual_reset : Bool
  pub completion_routine : ℕ
  pub argument : ℕ
  pub timeout : Timeout

-- What timerfd_create returns, and whether fcntl, timer_create and the setting of the timer return 0.
pub record SystemCalls : Type 0 where
  pub timerfd_create : ℤ
  pub fcntl : Bool
  pub timer_create : Bool
  pub settime : Bool

abbrev pub zero_time : Timespec
zero_time = record { tv_sec = 0; tv_nsec = 0 }

abbrev pub zero_timeout : Timeout
zero_timeout = record { it_interval = zero_time; it_value = zero_time }

-- CreateWaitableTimerA; `address` is what calloc returns
unfoldable pub create_waitable_timer : (manual_reset : Bool) (address : ℕ) → Option WaitableTimer
create_waitable_timer manual_reset zero = none
create_waitable_timer manual_reset (suc address) = some (record {
  fd = negsuc 0;
  is_init = false;
  period = pos 0;
  manual_reset = manual_reset;
  completion_routine = 0;
  argument = 0;
  timeout = zero_timeout;
})

-- CreateWaitableTimerExA, of the flag CREATE_WAITABLE_TIMER_MANUAL_RESET
abbrev pub create_waitable_timer_ex : (flags address : ℕ) → Option WaitableTimer
create_waitable_timer_ex flags address = create_waitable_timer (not (bit_and flags 1 == 0)) address

abbrev pub is_positive_fd : ℤ → Bool
is_positive_fd (pos n) = ltb 0 n
is_positive_fd (negsuc n) = false

-- InitializeWaitableTimer: whether it succeeds, and whether the timer has been freed.
unfoldable pub initialize_waitable_timer : SystemCalls → WaitableTimer → Bool × Bool × WaitableTimer
initialize_waitable_timer sys t =
    if t.argument == 0
    then if not (is_positive_fd sys.timerfd_create)
      then (false, true, record t { fd = sys.timerfd_create })
      else if sys.fcntl
      then (true, false, record t { fd = sys.timerfd_create; is_init = true })
      else (false, false, record t { fd = sys.timerfd_create })
    else if sys.timer_create
    then (true, false, record t { is_init = true })
    else (false, false, t)

abbrev pub interval_of : (period : ℕ) → Timespec
interval_of period = record { tv_sec = period / 1000; tv_nsec = period % 1000 * 1000000 }

-- A time of `due` units of 100 nanoseconds.
abbrev pub due_time : (due : ℕ) → Timespec
due_time due = record { tv_sec = due / 10000000; tv_nsec = due % 10000000 * 100 }

-- What SetWaitableTimer makes of the due time: it refuses one above 0, a due time of 0 is the period,
-- and one below 0 is relative, but for the least of 64 bits, whose negation is not defined in C.
pub data Due : Type 0 where
  absolute : Due
  overflow : Due
  due_in : Timeout → Due

unfoldable pub timeout_of : (due : ℤ) (period : ℕ) → Due
timeout_of (negsuc n) period =
    if n + 1 == 2 ^ 63
    then overflow
    else due_in (record { it_interval = interval_of period; it_value = due_time (n + 1) })
timeout_of (pos zero) period =
    due_in (record { it_interval = interval_of period; it_value = interval_of period })
timeout_of (pos (suc n)) period = absolute

-- SetWaitableTimer from the initialization on; `none` is the overflow
unfoldable pub start_timer :
    SystemCalls
    → (initialized : Bool × Bool × WaitableTimer) → (due : ℤ) (period : ℕ)
    → Option (Bool × WaitableTimer)
start_timer sys (false, freed, t) due period = some (false, t)
start_timer sys (true, freed, t) due period = elim (timeout_of due period) [
  | absolute ↦ some (false, record t { timeout = zero_timeout })
  | overflow ↦ none
  | due_in timeout ↦ some (sys.settime, record t { timeout = timeout })
]

abbrev pub with_arguments : WaitableTimer → (period : ℕ) (routine argument : ℕ) → WaitableTimer
with_arguments t period routine argument = record t {
  period = pos period;
  completion_routine = routine;
  argument = argument;
}

abbrev pub initialized : SystemCalls → WaitableTimer → Bool × Bool × WaitableTimer
initialized sys t = if t.is_init then (true, false, t) else initialize_waitable_timer sys t

-- SetWaitableTimer of the timer at a handle, `none` of another handle or none; `due` is `none` for
-- NULL, and the result is `none` where C does not define it.
unfoldable pub set_waitable_timer :
    SystemCalls
    → Option WaitableTimer
    → (due : Option ℤ) (period : ℤ) (routine argument : ℕ) → Option (Bool × Option WaitableTimer)
set_waitable_timer sys none due period routine argument = some (false, none)
set_waitable_timer sys (some t) none period routine argument = some (false, some t)
set_waitable_timer sys (some t) (some due) (negsuc n) routine argument = some (false, some t)
set_waitable_timer sys (some t) (some due) (pos period) routine argument =
    elim (start_timer sys (initialized sys (with_arguments t period routine argument)) due period) [
      | none ↦ none
      | some (result, t') ↦ some (result, some t')
    ]

-- SetWaitableTimerEx and CancelWaitableTimer, which do nothing
abbrev pub set_waitable_timer_ex : (handle_ok : Bool) → Bool
set_waitable_timer_ex handle_ok = if handle_ok then true else false

abbrev pub cancel_waitable_timer : Bool
cancel_waitable_timer = true

-- Until when TimerQueueThread waits
unfoldable pub wait_until : (now : Timespec) → TimerQueue → Timespec
wait_until now q = elim q.active [
  | [] ↦ timespec_add_ms now 50
  | node ∷ rest ↦ elim (timespec_compare now node.expiration_time) [
    | negative ↦ node.expiration_time
    | null ↦ now
    | positive ↦ now
  ]
]

-- How pthread_cond_timedwait ends: with 0, ETIMEDOUT, or an error.
pub data Woken : Type 0 where
  signalled : Woken
  timed_out : Woken
  wait_error : Woken

-- One round of TimerQueueThread after its wait: whether it goes on, the queue, and the timers fired.
unfoldable pub thread_round :
    ℕ
    → Woken
    → (cancelled : Bool) → (now : Timespec) → TimerQueue
    → Option (Bool × TimerQueue × List Timer)
thread_round fuel woken cancelled now q = elim (fire_expired_timer_queue_timers fuel now q) [
  | none ↦ none
  | some (q', fired) ↦ elim woken [
    | signalled ↦ some (not cancelled, q', fired)
    | timed_out ↦ some (not cancelled, q', fired)
    | wait_error ↦ some (false, q', fired)
  ]
]

-- A time-out with the nanoseconds of both parts below 10^9.
abbrev pub IsTimeout : Timeout → (value interval : ℕ) → Type 0
IsTimeout timeout value interval =
    (nanoseconds timeout.it_value ≡ value)
    × (timeout.it_value.tv_nsec < 1000000000)
    × (nanoseconds timeout.it_interval ≡ interval)
    × (timeout.it_interval.tv_nsec < 1000000000)

-- The nanoseconds of a due time that is not above 0.
abbrev pub delay : (due : ℤ) (period : ℕ) → ℕ
delay (pos n) period = period * 1000000
delay (negsuc n) period = (n + 1) * 100

abbrev pub is_above_zero : ℤ → Bool
is_above_zero (pos zero) = false
is_above_zero (pos (suc n)) = true
is_above_zero (negsuc n) = false

-- A LONGLONG but the least
abbrev pub InRange : ℤ → Type 0
InRange (pos n) = n < 2 ^ 63
InRange (negsuc n) = n + 1 < 2 ^ 63

timeout_lem :
    (due : ℤ) (period : ℕ)
    → InRange due
    → ((timeout_of due period ≡ absolute) × (is_above_zero due ≡ true))
      ⊎ ((timeout : Timeout) × (timeout_of due period ≡ due_in timeout)
          × (is_above_zero due ≡ false)
          × IsTimeout timeout (delay due period) (period * 1000000))
unfolding timeout_of
timeout_lem (negsuc n) period range =
    let small : (n + 1 == 2 ^ 63) ≡ false = ground arith in
    inr (
      record { it_interval = interval_of period; it_value = due_time (n + 1) },
      rw small refl,
      refl,
      (omega arith, omega arith, omega arith, omega arith),
    )
timeout_lem (pos zero) period range = inr (
  record { it_interval = interval_of period; it_value = interval_of period },
  refl,
  refl,
  (omega arith, omega arith, omega arith, omega arith),
)
timeout_lem (pos (suc n)) period range = inl (refl, refl)

-- Whether a timer with these results of the system is ready: it is already, or the calls that make
-- the timerfd or the POSIX timer succeed.
abbrev pub is_ready : SystemCalls → WaitableTimer → (argument : ℕ) → Bool
is_ready sys t argument =
    t.is_init
    || (if argument == 0 then is_positive_fd sys.timerfd_create && sys.fcntl else sys.timer_create)

initialized_lem :
    (sys : SystemCalls) (t : WaitableTimer)
    → ((is_ready sys t t.argument ≡ false) × ((initialized sys t).0 ≡ false))
      ⊎ ((is_ready sys t t.argument ≡ true)
          × ((initialized sys t).0 ≡ true)
          × ((initialized sys t).2.is_init ≡ true))
unfolding initialize_waitable_timer
initialized_lem sys t = elim (Bool-cases t.is_init) [
  | inl e ↦ rw e (inr (refl, refl, refl))
  | inr e ↦ elim (Bool-cases (t.argument == 0)) [
    | inl a ↦ elim (Bool-cases (is_positive_fd sys.timerfd_create)) [
      | inl b ↦ elim (Bool-cases sys.fcntl) [
        | inl c ↦ rw (e, a, b, c) (inr (refl, refl, refl))
        | inr c ↦ rw (e, a, b, c) (inl (refl, refl))
      ]
      | inr b ↦ rw (e, a, b) (inl (refl, refl))
    ]
    | inr a ↦ elim (Bool-cases sys.timer_create) [
      | inl b ↦ rw (e, a, b) (inr (refl, refl, refl))
      | inr b ↦ rw (e, a, b) (inl (refl, refl))
    ]
  ]
]

-- What SetWaitableTimer returns, and the timer that it leaves.
abbrev pub Outcome : (ready settime : Bool) (due : ℤ) (period : ℕ) → Bool → WaitableTimer → Type 0
Outcome ready settime due period result t =
    ((ready ≡ false) × (result ≡ false))
    ⊎ ((ready ≡ true) × (is_above_zero due ≡ true) × (result ≡ false) × IsTimeout t.timeout 0 0)
    ⊎ ((ready ≡ true)
        × (is_above_zero due ≡ false)
        × (result ≡ settime)
        × (t.is_init ≡ true)
        × IsTimeout t.timeout (delay due period) (period * 1000000))

started_lem :
    (sys : SystemCalls) (made_ready : Bool) (ready : Bool × Bool × WaitableTimer) (due : ℤ)
    (period : ℕ)
    → InRange due
    → ((made_ready ≡ false) × (ready.0 ≡ false))
      ⊎ ((made_ready ≡ true) × (ready.0 ≡ true) × (ready.2.is_init ≡ true))
    → (result : Bool) × (t : WaitableTimer) × (start_timer sys ready due period ≡ some (result, t))
      × Outcome made_ready sys.settime due period result t
unfolding start_timer
started_lem sys made_ready (false, freed, t) due period range (inl (h, failed)) =
    (false, t, refl, inl (h, refl))
started_lem sys made_ready (false, freed, t) due period range (inr (h, succeeded, init)) = cc
started_lem sys made_ready (true, freed, t) due period range (inl (h, failed)) = cc
started_lem sys made_ready (true, freed, t) due period range (inr (h, succeeded, init)) =
    elim (timeout_lem due period range) [
      | inl (e, above) ↦ (
        false,
        record t { timeout = zero_timeout },
        rw (e, start_timer) refl,
        inr (inl (h, above, refl, (refl, omega arith, refl, omega arith))),
      )
      | inr (timeout, e, below, exact) ↦ (
        sys.settime,
        record t { timeout = timeout },
        rw (e, start_timer) refl,
        inr (inr (h, below, refl, init, exact)),
      )
    ]

-- SetWaitableTimer with a due time of 64 bits that is not the least one, and a period that is not
-- negative, returns. If the timer is not initialized and the calls that make it fail, the result is
-- FALSE. If these do not fail and the due time is above 0, the result is FALSE, and the time-out is
-- all zero. Otherwise the result is that of setting the timer, which is initialized, and its
-- time-out is exactly the due time in units of 100 nanoseconds, or the period if the due time is 0,
-- and then every period, with less than 10^9 in each field of nanoseconds.
pub set_waitable_timer_lem :
    (sys : SystemCalls) (t : WaitableTimer) (due : ℤ) (period routine argument : ℕ)
    → InRange due
    → (result : Bool) × (t' : WaitableTimer) × (set_waitable_timer sys
          (some t)
          (some due)
          (pos period)
          routine
          argument
        ≡ some (result, some t'))
      × Outcome (is_ready sys t argument) sys.settime due period result t'
unfolding set_waitable_timer
set_waitable_timer_lem sys t due period routine argument range =
    let called : WaitableTimer = with_arguments t period routine argument in
    let (result, t', e, outcome) =
      started_lem sys (is_ready sys t argument) (initialized sys called) due period range
        (initialized_lem sys called) in
    (result, t', rw (e, set_waitable_timer) refl, outcome)
