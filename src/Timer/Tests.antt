-- ===== src/Timer/Tests.antt =====
-- The timer queue at concrete timers.
use libuzi.Common.Integers.{pos, negsuc}
use libuzi.Timer.Waitable.{
  WaitableTimer, SystemCalls, zero_timeout, set_waitable_timer, start_timer, timeout_of,
  initialize_waitable_timer, is_ready, Outcome, set_waitable_timer_lem,
}
use libuzi.Common.{
  ℕ, Bool, true, false, ◌+◌, ◌*◌, ◌<◌, ◌≡◌, ◌%◌, ◌^◌, refl, none, some, List, [], ◌∷◌, arith,
}
use libuzi.Timer.Times.{
  Timespec, timespec_add_ms, timespec_compare, nanoseconds, timespec_add_ms_lem,
}
use libuzi.Timer.Queue.{
  Timer, TimerQueue, queue, insert_behind, insert_timer_queue_timer,
  fire_expired_timer_queue_timers, delete_timer_queue_timer,
}
use libuzi.Timer.Lists.{
  Inserted, expired, pending, insert_timer_queue_timer_lem, fire_expired_lem, fired_then_deleted,
}

abbrev at : ℕ → ℕ → Timespec
at s n = record { tv_sec = s; tv_nsec = n }

-- A timer that expires once, after some seconds.
abbrev timer : (address sec : ℕ) → Timer
timer a s = record {
  address = a;
  start_time = at s 0;
  expiration_time = at s 0;
  flags = 0;
  due_time = 0;
  period = 0;
  callback = 0;
  parameter = 0;
  fire_count = 0;
}

timespec_add_ms_lem_example :
    ((timespec_add_ms (at 5 900000000) 5000).tv_nsec < 1000000000)
    × (nanoseconds (timespec_add_ms (at 5 900000000) 5000)
        ≡ nanoseconds (at 5 900000000) + 5000 * 1000000 % 2 ^ 32)
timespec_add_ms_lem_example = timespec_add_ms_lem (at 5 900000000) 5000 (omega arith)

insert_timer_queue_timer_lem_example :
    Inserted
      (timer 1 10 ∷ timer 2 20 ∷ timer 4 40 ∷ [])
      (timer 3 30)
      (insert_timer_queue_timer (timer 1 10 ∷ timer 2 20 ∷ timer 4 40 ∷ []) (timer 3 30))
insert_timer_queue_timer_lem_example =
    insert_timer_queue_timer_lem (timer 1 10 ∷ timer 2 20 ∷ timer 4 40 ∷ []) (timer 3 30)

-- The timer that expires at 40 is lost.
lost_timer :
    insert_timer_queue_timer (timer 1 10 ∷ timer 2 20 ∷ timer 4 40 ∷ []) (timer 3 30)
    ≡ timer 1 10 ∷ timer 2 20 ∷ timer 3 30 ∷ []
unfolding insert_timer_queue_timer insert_behind timespec_compare
lost_timer = refl

fire_expired_lem_example :
    (inactive' : List Timer) × (fire_expired_timer_queue_timers 3
        (at 15 0)
        (queue (timer 1 10 ∷ timer 2 20 ∷ []) [])
      ≡ some (
        queue (pending (at 15 0) (timer 1 10 ∷ timer 2 20 ∷ [])) inactive',
        expired (at 15 0) (timer 1 10 ∷ timer 2 20 ∷ []),
      ))
fire_expired_lem_example =
    fire_expired_lem (at 15 0) (timer 1 10 ∷ timer 2 20 ∷ []) [] 3 (refl, (refl, tt)) (omega arith)

fired_then_deleted_example :
    (q q' : TimerQueue) × (fire_expired_timer_queue_timers 2 (at 15 0) (queue (timer 1 10 ∷ []) [])
      ≡ some (q, timer 1 10 ∷ []))
    × (delete_timer_queue_timer (some q) 1 0
        ≡ record { result = true; timer_queue = some q'; freed = some 1; event_set = none })
    × (q'.inactive ≡ record (timer 1 10) { fire_count = 0 + 1 } ∷ [])
unfolding timespec_compare
fired_then_deleted_example =
    fired_then_deleted (at 15 0) (timer 1 10) 2 refl refl (omega arith) (omega arith)

-- A timer that is due in 1.5 seconds and then every 20 milliseconds.
abbrev new_timer : WaitableTimer
new_timer = record {
  fd = negsuc 0;
  is_init = false;
  period = pos 0;
  manual_reset = false;
  completion_routine = 0;
  argument = 0;
  timeout = zero_timeout;
}

abbrev working : SystemCalls
working = record { timerfd_create = pos 5; fcntl = true; timer_create = true; settime = true }

set_waitable_timer_lem_example :
    (result : Bool) × (t' : WaitableTimer) × (set_waitable_timer working
        (some new_timer)
        (some (negsuc 14999999))
        (pos 20)
        0
        0
      ≡ some (result, some t'))
    × Outcome (is_ready working new_timer 0) true (negsuc 14999999) 20 result t'
set_waitable_timer_lem_example =
    set_waitable_timer_lem working new_timer (negsuc 14999999) 20 0 0 (omega arith)

-- A timer that is due later than 0 is refused.
refused_due :
    set_waitable_timer working (some new_timer) (some (pos 1)) (pos 20) 0 0
    ≡ some (false, some (record new_timer { fd = pos 5; is_init = true; period = pos 20 }))
unfolding set_waitable_timer start_timer timeout_of initialize_waitable_timer
refused_due = refl
