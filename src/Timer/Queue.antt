-- ===== src/Timer/Queue.antt =====
-- libuzi/timer.c: the two lists of a timer queue and the functions on them. A list of timers that
-- are linked by `next` is a list, and a pointer to a timer its address. The functions run with the
-- mutex of the queue held, so that each is one step. gettimeofday is the parameter `now`.
use libuzi.Common.{
  ℕ, zero, suc, ◌+◌, Bool, true, false, not, ◌&&◌, Option, none, some, List, [], ◌∷◌, ◌==◌,
  if◌then◌else◌,
}
use libuzi.Synch.Handles.{invalid_handle_value}
use libuzi.Timer.Times.{Timespec, timespec_add_ms, timespec_compare, Sign, negative, positive}

-- WINPR_TIMER_QUEUE_TIMER
pub record Timer : Type 0 where
  pub address : ℕ
  pub start_time : Timespec
  pub expiration_time : Timespec
  pub flags : ℕ
  pub due_time : ℕ
  pub period : ℕ
  pub callback : ℕ
  pub parameter : ℕ
  pub fire_count : ℕ

-- WINPR_TIMER_QUEUE: its lists
pub record TimerQueue : Type 0 where
  pub active : List Timer
  pub inactive : List Timer

abbrev pub queue : List Timer → List Timer → TimerQueue
queue active inactive = record { active = active; inactive = inactive }

abbrev pub is_positive : Sign → Bool
is_positive positive = true
is_positive _ = false

abbrev pub is_negative : Sign → Bool
is_negative negative = true
is_negative _ = false

-- The test of the loop of InsertTimerQueueTimer, which stops it before the end.
abbrev pub fits_between : Timer → Timer → Timer → Bool
fits_between timer node next =
    is_positive (timespec_compare timer.expiration_time node.expiration_time)
    && is_negative (timespec_compare timer.expiration_time next.expiration_time)

-- The loop at `node`, with the timers behind it, and the assignments after it: inside the list
-- `timer->next = node->next->next; node->next = timer;`.
unfoldable pub insert_behind : Timer → List Timer → Timer → List Timer
insert_behind node [] timer = node ∷ timer ∷ []
insert_behind node (next ∷ rest) timer =
    let further = insert_behind next rest timer in
    if fits_between timer node next then node ∷ timer ∷ rest else node ∷ further

-- InsertTimerQueueTimer
unfoldable pub insert_timer_queue_timer : List Timer → Timer → List Timer
insert_timer_queue_timer [] timer = timer ∷ []
insert_timer_queue_timer (node ∷ rest) timer = insert_behind node rest timer

-- RemoveTimerQueueTimer, of the timer at an address
unfoldable pub remove_timer_queue_timer : List Timer → ℕ → List Timer
remove_timer_queue_timer [] timer = []
remove_timer_queue_timer (node ∷ rest) timer =
    if node.address == timer then rest else node ∷ remove_timer_queue_timer rest timer

-- The timer after its callback: `FireCount++`, and the next expiration if it has a period.
abbrev pub fired : Timer → Timer
fired node =
    if node.period == 0 then record node { fire_count = node.fire_count + 1 } else record node {
      fire_count = node.fire_count + 1;
      expiration_time = timespec_add_ms node.expiration_time node.period;
    }

-- What the loop of FireExpiredTimerQueueTimers does to the queue for its first active timer.
unfoldable pub fire_one : Timer → List Timer → List Timer → TimerQueue
fire_one node rest inactive =
    if node.period == 0
    then queue rest (insert_timer_queue_timer inactive (fired node))
    else queue (insert_timer_queue_timer rest (fired node)) inactive

-- FireExpiredTimerQueueTimers: the queue and the timers whose callbacks have been called.
unfoldable pub fire_expired_timer_queue_timers :
    ℕ → (now : Timespec) → TimerQueue → Option (TimerQueue × List Timer)
fire_expired_timer_queue_timers zero now q = none
fire_expired_timer_queue_timers (suc fuel) now q = elim q.active [
  | [] ↦ some (q, [])
  | node ∷ rest ↦
      if is_negative (timespec_compare now node.expiration_time)
      then some (q, [])
      else elim (fire_expired_timer_queue_timers fuel now (fire_one node rest q.inactive)) [
        | none ↦ none
        | some (q', later) ↦ some (q', node ∷ later)
      ]
]

-- CreateTimerQueueTimer; `address` is what malloc returns
unfoldable pub create_timer_queue_timer :
    (now : Timespec) (address : ℕ)
    → Option TimerQueue
    → (callback parameter due_time period flags : ℕ) → Bool × Option TimerQueue
create_timer_queue_timer now address none callback parameter due_time period flags = (false, none)
create_timer_queue_timer now address (some q) callback parameter due_time period flags =
    let start = timespec_add_ms now due_time in
    let timer : Timer = record {
      address = address;
      start_time = start;
      expiration_time = start;
      flags = flags;
      due_time = due_time;
      period = period;
      callback = callback;
      parameter = parameter;
      fire_count = 0;
    } in
    if address == 0
    then (false, some q)
    else (true, some (queue (insert_timer_queue_timer q.active timer) q.inactive))

-- ChangeTimerQueueTimer, of a timer with these fields; a NULL handle is `none`
unfoldable pub change_timer_queue_timer :
    (now : Timespec)
    → Option TimerQueue
    → Option Timer
    → (due_time period : ℕ) → Bool × Option TimerQueue
change_timer_queue_timer now none timer due_time period = (false, none)
change_timer_queue_timer now (some q) none due_time period = (false, some q)
change_timer_queue_timer now (some q) (some timer) due_time period =
    let start = timespec_add_ms now due_time in
    let changed : Timer = record timer {
      due_time = due_time;
      period = period;
      start_time = start;
      expiration_time = start;
    } in
    (
      true,
      some (
          queue (insert_timer_queue_timer (remove_timer_queue_timer q.active timer.address) changed)
            (remove_timer_queue_timer q.inactive timer.address)),
    )

-- What DeleteTimerQueueTimer returns and leaves: the memory that it has freed, and the event that it
-- has set, if any.
pub record Deleted : Type 0 where
  pub result : Bool
  pub timer_queue : Option TimerQueue
  pub freed : Option ℕ
  pub event_set : Option ℕ

abbrev not_deleted : Option TimerQueue → Deleted
not_deleted q = record { result = false; timer_queue = q; freed = none; event_set = none }

-- DeleteTimerQueueTimer
unfoldable pub delete_timer_queue_timer : Option TimerQueue → (timer completion_event : ℕ) → Deleted
delete_timer_queue_timer none timer completion_event = not_deleted none
delete_timer_queue_timer (some q) timer completion_event =
    if timer == 0 then not_deleted (some q) else record {
      result = true;
      timer_queue = some (queue (remove_timer_queue_timer q.active timer) q.inactive);
      freed = some timer;
      event_set =
          if not (completion_event == 0) && not (completion_event == invalid_handle_value)
          then some completion_event
          else none;
    }
