-- ===== src/Synch/Mutex.antt =====
-- libuzi/mutex.c: mutexes, each around a recursive pthread mutex.
use libuzi.Common.{ℕ, Bool, false, Option, none, some, ◌==◌, if◌then◌else◌}
use libuzi.Synch.Kernel.{Kernel}
use libuzi.Synch.Handles.{Object, mutex, Heap, store, refused, found, fault, winpr_handle_get_info}

module _ {K : Type 0} (kernel : Kernel K) where
  -- CreateMutexW; `address` is what calloc returns
  unfoldable pub create_mutex : (initial_owner : Bool) (address : ℕ) → Heap → K → ℕ × Heap × K
  create_mutex initial_owner address heap k =
      if address == 0
      then (0, heap, k)
      else let made = kernel.mutex_init k in
        (
          address,
          store address (some (mutex 1 made.0)) heap,
          (if initial_owner then (kernel.mutex_lock made.0 made.1).1 else made.1),
        )

  unfoldable pub release_mutex_object : Object → K → Bool × K
  release_mutex_object (mutex mode m) k = kernel.mutex_unlock m k
  release_mutex_object object k = (false, k)

  -- ReleaseMutex
  unfoldable pub release_mutex : Heap → ℕ → K → Option (Bool × K)
  release_mutex heap h k = elim (winpr_handle_get_info heap h) [
    | refused ↦ some (false, k)
    | found object ↦ some (release_mutex_object object k)
    | fault ↦ none
  ]
