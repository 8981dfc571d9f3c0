-- ===== src/Synch/Event.antt =====
-- libuzi/event.c: events on an eventfd, in the build with HAVE_EVENTFD_H.
use libuzi.Common.{ℕ, zero, suc, Bool, true, false, not, Option, none, some, ◌==◌, if◌then◌else◌}
use libuzi.Common.Integers.{ℤ, pos, negsuc, is_negative}
use libuzi.Synch.Kernel.{Kernel, repeat_io}
use libuzi.Synch.Handles.{
  Object, event, semaphore, mutex, timer, without_ops, Heap, store, refused, found, fault,
  winpr_handle_get_info, wait_object_0,
}
use libuzi.Synch.Wait.{wait_for_single_object}

-- The field pipe_fd[0] of an object that is taken for a WINPR_EVENT. A semaphore has it, and a timer
-- has its descriptor at this place; what a mutex has there is not known.
abbrev pub event_pipe_fd : Object → Option ℤ
event_pipe_fd (event mode fd0 fd1 attached manual_reset) = some fd0
event_pipe_fd (semaphore mode fd0 fd1) = some fd0
event_pipe_fd (mutex mode m) = none
event_pipe_fd (timer mode fd) = some fd
event_pipe_fd (without_ops type mode) = none

module _ {K : Type 0} (kernel : Kernel K) (fuel : ℕ) where
  -- SetEvent
  unfoldable pub set_event_fd : Option ℤ → K → Option (Bool × K)
  set_event_fd none k = none
  set_event_fd (some fd) k = repeat_io fuel (kernel.eventfd_write fd) k

  unfoldable pub set_event : Heap → ℕ → K → Option (Bool × K)
  set_event heap h k = elim (winpr_handle_get_info heap h) [
    | refused ↦ some (false, k)
    | found object ↦ set_event_fd (event_pipe_fd object) k
    | fault ↦ none
  ]

  -- The loop of ResetEvent: while the event is signalled, it is read.
  unfoldable pub reset_loop : (rounds : ℕ) → Heap → (h : ℕ) → ℤ → K → Option (Bool × K)
  reset_loop zero heap h fd k = none
  reset_loop (suc rounds) heap h fd k = elim (wait_for_single_object kernel fuel heap h 0 k) [
    | none ↦ none
    | some (waited, k') ↦
        if waited == wait_object_0
        then elim (repeat_io fuel (kernel.eventfd_read fd) k') [
          | none ↦ none
          | some (true, k'') ↦ reset_loop rounds heap h fd k''
          | some (false, k'') ↦ some (false, k'')
        ]
        else some (true, k')
  ]

  unfoldable pub reset_event_fd : Heap → (h : ℕ) → Option ℤ → K → Option (Bool × K)
  reset_event_fd heap h none k = none
  reset_event_fd heap h (some fd) k = reset_loop fuel heap h fd k

  -- ResetEvent
  unfoldable pub reset_event : Heap → ℕ → K → Option (Bool × K)
  reset_event heap h k = elim (winpr_handle_get_info heap h) [
    | refused ↦ some (false, k)
    | found object ↦ reset_event_fd heap h (event_pipe_fd object) k
    | fault ↦ none
  ]

  -- What is left of a new event when its eventfd is made
  unfoldable pub create_with_fd :
      (bInitialState : Bool) (address : ℕ) → Heap → ℤ → K → Option (ℕ × Heap × K)
  create_with_fd initial_state address heap fd k =
      if is_negative fd
      then some (0, heap, k)
      else let heap' = store address (some (event 1 fd (negsuc 0) false true)) heap in
        if initial_state
        then elim (set_event heap' address k) [
          | none ↦ none
          | some (ok, k') ↦ some (address, heap', k')
        ]
        else some (address, heap', k)

  -- CreateEventW, whose name and attributes are not used; `address` is what calloc returns. Of an
  -- event that is not reset by hand the result is NULL, and the memory stays allocated.
  unfoldable pub create_event :
      (manual_reset initial_state : Bool) (address : ℕ) → Heap → K → Option (ℕ × Heap × K)
  create_event manual_reset initial_state address heap k =
      if address == 0
      then some (0, heap, k)
      else if manual_reset
      then create_with_fd initial_state address heap (kernel.eventfd k).0 (kernel.eventfd k).1
      else some (0, store address (some (event 1 (pos 0) (pos 0) false false)) heap, k)

  -- SetEventFileDescriptor: 0, or -1 of a handle that is refused
  unfoldable pub set_event_file_descriptor :
      Heap → (h : ℕ) → (fd : ℤ) (mode : ℕ) → K → Option (Bool × Heap × K)
  set_event_file_descriptor heap h fd mode k = elim (winpr_handle_get_info heap h) [
    | refused ↦ some (false, heap, k)
    | fault ↦ none
    | found (event old_mode fd0 fd1 attached manual_reset) ↦ some (
      true,
      store h (some (event mode fd fd1 true manual_reset)) heap,
      (if not attached then if is_negative fd0 then k else kernel.close fd0 k else k),
    )
    | found _ ↦ none
  ]

-- CreateFileDescriptorEventW
unfoldable pub create_file_descriptor_event :
    (manual_reset : Bool) (fd : ℤ) (mode address : ℕ) → Heap → ℕ × Heap
create_file_descriptor_event manual_reset fd mode address heap =
    if address == 0
    then (0, heap)
    else (address, store address (some (event mode fd (negsuc 0) true manual_reset)) heap)

-- CreateWaitObjectEvent, of a descriptor that GetEventWaitObject has given
abbrev pub create_wait_object_event :
    (manual_reset : Bool) (object : ℤ) (address : ℕ) → Heap → ℕ × Heap
create_wait_object_event manual_reset object address heap =
    create_file_descriptor_event manual_reset object 1 address heap

-- GetEventFileDescriptor and GetEventWaitObject
unfoldable pub get_event_file_descriptor : Heap → ℕ → Option ℤ
get_event_file_descriptor heap h = elim (winpr_handle_get_info heap h) [
  | refused ↦ some (negsuc 0)
  | found object ↦ event_pipe_fd object
  | fault ↦ none
]
