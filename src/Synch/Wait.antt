-- ===== src/Synch/Wait.antt =====
-- libuzi/wait.c: the time-outs, and WaitForSingleObject. In the build with poll, and with
-- pthread_mutex_timedlock from the system.
use libuzi.Common.{
  ℕ, ◌+◌, ◌*◌, ◌/◌, ◌%◌, ◌<◌, ◌≡◌, Option, none, some, [], ◌∷◌, ◌==◌, if◌then◌else◌, bit_and,
  bit_or, arith,
}
use libuzi.Common.Integers.{ℤ, is_negative}
use libuzi.Timer.Times.{Timespec, nanoseconds}
use libuzi.Synch.Kernel.{Kernel, Locked, locked, lock_timed_out, lock_failed, repeat_poll}
use libuzi.Synch.Handles.{
  Object, mutex, handle_mode, Heap, refused, found, fault, winpr_handle_get_info,
  winpr_handle_get_fd, winpr_handle_cleanup, wait_object_0, wait_timeout, wait_failed, infinite,
}

abbrev pub pollin : ℕ
pollin = 1

abbrev pub pollout : ℕ
pollout = 4

-- handle_mode_to_pollevent, of the bits UZI_FD_READ and UZI_FD_WRITE
unfoldable pub handle_mode_to_pollevent : ℕ → ℕ
handle_mode_to_pollevent mode =
    let events = if bit_and mode 1 == 0 then 0 else bit_or 0 pollin in
    if bit_and mode 2 == 0 then events else bit_or events pollout

-- ts_add_ms, in 64 bits
unfoldable pub ts_add_ms : Timespec → ℕ → Timespec
ts_add_ms t ms =
    let sec = t.tv_sec + ms / 1000 in
    let nsec = t.tv_nsec + ms % 1000 * 1000000 in
    record { tv_sec = sec + nsec / 1000000000; tv_nsec = nsec % 1000000000 }

module _ {K : Type 0} (kernel : Kernel K) (fuel : ℕ) where
  -- waitOnFd: `none` of the result is a negative status
  unfoldable pub wait_on_fd : ℤ → (mode milliseconds : ℕ) → K → Option (Option ℕ × K)
  wait_on_fd fd mode milliseconds k =
      elim (repeat_poll fuel (kernel.poll ((fd, handle_mode_to_pollevent mode) ∷ []) milliseconds)
        k) [
          | none ↦ none
          | some (none, k') ↦ some (none, k')
          | some (some (status, revents), k') ↦ some (some status, k')
        ]

  abbrev pub timedlock_result : Locked → ℕ
  timedlock_result locked = wait_object_0
  timedlock_result lock_timed_out = wait_timeout
  timedlock_result lock_failed = wait_object_0

  -- The branch of a mutex
  unfoldable pub wait_for_mutex : (mutex milliseconds : ℕ) → K → ℕ × K
  wait_for_mutex m milliseconds k =
      if milliseconds == infinite
      then (wait_object_0, (kernel.mutex_lock m k).1)
      else let now = kernel.clock_gettime k in
        let lock = kernel.mutex_timedlock m (ts_add_ms now.0 milliseconds) now.1 in
        (timedlock_result lock.0, lock.1)

  -- The branch of an object with a descriptor
  unfoldable pub wait_for_fd : Heap → (h : ℕ) → Object → ℤ → (milliseconds : ℕ) → K → Option (ℕ × K)
  wait_for_fd heap h object fd milliseconds k =
      if is_negative fd
      then some (wait_failed, k)
      else elim (wait_on_fd fd (handle_mode object) milliseconds k) [
        | none ↦ none
        | some (none, k') ↦ some (wait_failed, k')
        | some (some status, k') ↦
            if status == 1 then winpr_handle_cleanup kernel heap h k' else some (wait_timeout, k')
      ]

  unfoldable pub wait_for_object : Heap → (h : ℕ) → Object → (milliseconds : ℕ) → K → Option (ℕ × K)
  wait_for_object heap h (mutex mode m) milliseconds k = some (wait_for_mutex m milliseconds k)
  wait_for_object heap h object milliseconds k = elim (winpr_handle_get_fd heap h) [
    | none ↦ none
    | some fd ↦ wait_for_fd heap h object fd milliseconds k
  ]

  -- WaitForSingleObject
  unfoldable pub wait_for_single_object : Heap → (h milliseconds : ℕ) → K → Option (ℕ × K)
  wait_for_single_object heap h milliseconds k = elim (winpr_handle_get_info heap h) [
    | refused ↦ some (wait_failed, k)
    | found object ↦ wait_for_object heap h object milliseconds k
    | fault ↦ none
  ]

-- ts_add_ms gives a time with less than 10^9 nanoseconds that is later by exactly the milliseconds.
pub ts_add_ms_lem :
    (t : Timespec) (ms : ℕ)
    → ((ts_add_ms t ms).tv_nsec < 1000000000)
      × (nanoseconds (ts_add_ms t ms) ≡ nanoseconds t + ms * 1000000)
unfolding ts_add_ms
ts_add_ms_lem t ms = (omega arith, omega arith)
