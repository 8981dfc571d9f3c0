-- ===== src/Synch/Handles.antt =====
-- libuzi/handle.h and handle.c: the objects behind a HANDLE and the calls that go by their type, with
-- the functions of event.c, semaphore.c, mutex.c and timer.c that the tables of operations name.
use libuzi.Common.{
  ℕ, ◌-◌, ◌^◌, Bool, true, false, not, ◌&&◌, ◌||◌, Option, none, some, ◌==◌, if◌then◌else◌,
}
use libuzi.Common.Integers.{ℤ, negsuc, is_minus_one}
use libuzi.Synch.Kernel.{Kernel, Expirations, expired, read_timed_out, read_failed}

abbrev pub wait_object_0 : ℕ
wait_object_0 = 0

abbrev pub wait_timeout : ℕ
wait_timeout = 258

abbrev pub wait_failed : ℕ
wait_failed = 2 ^ 32 - 1

abbrev pub infinite : ℕ
infinite = 2 ^ 32 - 1

abbrev pub invalid_handle_value : ℕ
invalid_handle_value = 2 ^ 64 - 1

-- WINPR_EVENT, WINPR_SEMAPHORE, WINPR_MUTEX and WINPR_TIMER, each with its table of operations, and
-- an object that has no table, as a timer queue.
pub data Object : Type 0 where
  event : (mode : ℕ) (fd0 fd1 : ℤ) (attached manual_reset : Bool) → Object
  semaphore : (mode : ℕ) (fd0 fd1 : ℤ) → Object
  mutex : (mode mutex : ℕ) → Object
  timer : (mode : ℕ) (fd : ℤ) → Object
  without_ops : (type mode : ℕ) → Object

abbrev pub handle_type_event : ℕ
handle_type_event = 3

abbrev pub handle_type_mutex : ℕ
handle_type_mutex = 4

abbrev pub handle_type_semaphore : ℕ
handle_type_semaphore = 5

abbrev pub handle_type_timer : ℕ
handle_type_timer = 6

abbrev pub handle_type : Object → ℕ
handle_type (event mode fd0 fd1 attached manual_reset) = handle_type_event
handle_type (semaphore mode fd0 fd1) = handle_type_semaphore
handle_type (mutex mode m) = handle_type_mutex
handle_type (timer mode fd) = handle_type_timer
handle_type (without_ops type mode) = type

abbrev pub handle_mode : Object → ℕ
handle_mode (event mode fd0 fd1 attached manual_reset) = mode
handle_mode (semaphore mode fd0 fd1) = mode
handle_mode (mutex mode m) = mode
handle_mode (timer mode fd) = mode
handle_mode (without_ops type mode) = mode

-- The objects by their addresses; `none` is an address without an object.
abbrev pub Heap : Type 0
Heap = ℕ → Option Object

abbrev pub store : ℕ → Option Object → Heap → Heap
store h object heap = λ a. if a == h then object else heap a

-- Whether winpr_Handle_GetInfo returns FALSE without a look at the object.
abbrev pub is_refused : ℕ → Bool
is_refused h = (h == 0) || (h == invalid_handle_value)

-- What winpr_Handle_GetInfo finds: FALSE, or an object, or an address without one.
pub data Info : Type 0 where
  refused : Info
  found : Object → Info
  fault : Info

abbrev pub present : Option Object → Info
present none = fault
present (some object) = found object

unfoldable pub winpr_handle_get_info : Heap → ℕ → Info
winpr_handle_get_info heap h = if is_refused h then refused else present (heap h)

-- The test of the functions below, by the type they ask for
abbrev pub is_handled : (type h : ℕ) → Object → Bool
is_handled type h object = not (h == 0) && (handle_type object == type)

abbrev pub event_is_handled : ℕ → Object → Bool
event_is_handled h object = is_handled handle_type_event h object

abbrev pub semaphore_is_handled : ℕ → Object → Bool
semaphore_is_handled h object = is_handled handle_type_semaphore h object

abbrev pub mutex_is_handled : ℕ → Object → Bool
mutex_is_handled h object = is_handled handle_type_mutex h object

abbrev pub timer_is_handled : ℕ → Object → Bool
timer_is_handled h object = is_handled handle_type_timer h object

abbrev pub event_get_fd : ℕ → Object → (fd0 : ℤ) → ℤ
event_get_fd h object fd0 = if event_is_handled h object then fd0 else negsuc 0

abbrev pub semaphore_get_fd : ℕ → Object → (fd0 : ℤ) → ℤ
semaphore_get_fd h object fd0 = if semaphore_is_handled h object then fd0 else negsuc 0

abbrev pub mutex_get_fd : ℕ → Object → ℤ
mutex_get_fd h object = if mutex_is_handled h object then negsuc 0 else negsuc 0

abbrev pub timer_get_fd : ℕ → Object → (fd : ℤ) → ℤ
timer_get_fd h object fd = if timer_is_handled h object then fd else negsuc 0

-- The operation GetFd of the table of the object
unfoldable pub get_fd : ℕ → Object → ℤ
get_fd h (event mode fd0 fd1 attached manual_reset) =
    event_get_fd h (event mode fd0 fd1 attached manual_reset) fd0
get_fd h (semaphore mode fd0 fd1) = semaphore_get_fd h (semaphore mode fd0 fd1) fd0
get_fd h (mutex mode m) = mutex_get_fd h (mutex mode m)
get_fd h (timer mode fd) = timer_get_fd h (timer mode fd) fd
get_fd h (without_ops type mode) = negsuc 0

unfoldable pub winpr_handle_get_fd : Heap → ℕ → Option ℤ
winpr_handle_get_fd heap h = elim (winpr_handle_get_info heap h) [
  | refused ↦ some (negsuc 0)
  | found object ↦ some (get_fd h object)
  | fault ↦ none
]

module _ {K : Type 0} (kernel : Kernel K) where
  -- SemaphoreCleanupHandle
  unfoldable pub semaphore_cleanup_handle : (h : ℕ) (mode : ℕ) (fd0 fd1 : ℤ) → K → ℕ × K
  semaphore_cleanup_handle h mode fd0 fd1 k =
      if semaphore_is_handled h (semaphore mode fd0 fd1)
      then if (kernel.read_byte fd0 k).0
        then (wait_object_0, (kernel.read_byte fd0 k).1)
        else (wait_failed, (kernel.read_byte fd0 k).1)
      else (wait_failed, k)

  abbrev pub expirations_result : Expirations → ℕ
  expirations_result expired = wait_object_0
  expirations_result read_timed_out = wait_timeout
  expirations_result read_failed = wait_failed

  -- TimerCleanupHandle
  unfoldable pub timer_cleanup_handle : (h : ℕ) (mode : ℕ) (fd : ℤ) → K → ℕ × K
  timer_cleanup_handle h mode fd k =
      if timer_is_handled h (timer mode fd)
      then (expirations_result (kernel.read_expirations fd k).0, (kernel.read_expirations fd k).1)
      else (wait_failed, k)

  -- The operation CleanupHandle of the table; where there is none, all is well.
  unfoldable pub cleanup_handle : ℕ → Object → K → ℕ × K
  cleanup_handle h (event mode fd0 fd1 attached manual_reset) k = (wait_object_0, k)
  cleanup_handle h (semaphore mode fd0 fd1) k = semaphore_cleanup_handle h mode fd0 fd1 k
  cleanup_handle h (mutex mode m) k = (wait_object_0, k)
  cleanup_handle h (timer mode fd) k = timer_cleanup_handle h mode fd k
  cleanup_handle h (without_ops type mode) k = (wait_failed, k)

  unfoldable pub winpr_handle_cleanup : Heap → ℕ → K → Option (ℕ × K)
  winpr_handle_cleanup heap h k = elim (winpr_handle_get_info heap h) [
    | refused ↦ some (wait_failed, k)
    | found object ↦ some (cleanup_handle h object k)
    | fault ↦ none
  ]

  abbrev pub close_unless : ℤ → K → K
  close_unless fd k = if is_minus_one fd then k else kernel.close fd k

  abbrev pub event_close_handle :
      ℕ → Object → (fd0 fd1 : ℤ) (attached : Bool) → Heap → K → Bool × Heap × K
  event_close_handle h object fd0 fd1 attached heap k =
      if event_is_handled h object
      then (
        true,
        store h none heap,
        (if attached then k else close_unless fd1 (close_unless fd0 k)),
      )
      else (false, heap, k)

  abbrev pub semaphore_close_handle : ℕ → Object → (fd0 fd1 : ℤ) → Heap → K → Bool × Heap × K
  semaphore_close_handle h object fd0 fd1 heap k =
      if semaphore_is_handled h object
      then (
        true,
        store h none heap,
        (if is_minus_one fd0 then k else close_unless fd1 (kernel.close fd0 k)),
      )
      else (false, heap, k)

  abbrev pub mutex_close_handle : ℕ → Object → (mutex : ℕ) → Heap → K → Bool × Heap × K
  mutex_close_handle h object m heap k =
      if mutex_is_handled h object
      then (true, store h none heap, (kernel.mutex_destroy m k).1)
      else (false, heap, k)

  abbrev pub timer_close_handle : ℕ → Object → (fd : ℤ) → Heap → K → Bool × Heap × K
  timer_close_handle h object fd heap k =
      if timer_is_handled h object
      then (true, store h none heap, close_unless fd k)
      else (false, heap, k)

  -- The operation CloseHandle of the table, which frees the object; an object without a table of
  -- operations is not closed.
  unfoldable pub close_object : ℕ → Object → Heap → K → Bool × Heap × K
  close_object h (event mode fd0 fd1 attached manual_reset) heap k =
      event_close_handle h (event mode fd0 fd1 attached manual_reset) fd0 fd1 attached heap k
  close_object h (semaphore mode fd0 fd1) heap k =
      semaphore_close_handle h (semaphore mode fd0 fd1) fd0 fd1 heap k
  close_object h (mutex mode m) heap k = mutex_close_handle h (mutex mode m) m heap k
  close_object h (timer mode fd) heap k = timer_close_handle h (timer mode fd) fd heap k
  close_object h (without_ops type mode) heap k = (false, heap, k)

  -- CloseHandle
  unfoldable pub close_handle : ℕ → Heap → K → Option (Bool × Heap × K)
  close_handle h heap k = elim (winpr_handle_get_info heap h) [
    | refused ↦ some (false, heap, k)
    | found object ↦ some (close_object h object heap k)
    | fault ↦ none
  ]

-- DuplicateHandle, which gives the handle itself
abbrev pub duplicate_handle : (source : ℕ) → Bool × ℕ
duplicate_handle source = (true, source)
