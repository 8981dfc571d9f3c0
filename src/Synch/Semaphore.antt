-- ===== src/Synch/Semaphore.antt =====
-- libuzi/semaphore.c: semaphores on a pipe, in the build with WINPR_PIPE_SEMAPHORE, which synch.h
-- defines.
use libuzi.Common.{ℕ, zero, suc, Bool, true, false, Option, none, some, ◌==◌, if◌then◌else◌}
use libuzi.Common.Integers.{ℤ, pos, negsuc, is_minus_one}
use libuzi.Synch.Kernel.{Kernel}
use libuzi.Synch.Handles.{
  Object, semaphore, Heap, store, refused, found, fault, winpr_handle_get_info,
}

-- The units of a count, of which a negative one has none.
abbrev pub units : ℤ → ℕ
units (pos n) = n
units (negsuc n) = 0

module _ {K : Type 0} (kernel : Kernel K) where
  -- The loops that write a byte for each unit, until a write fails
  unfoldable pub write_units : ℕ → ℤ → K → Bool × K
  write_units zero fd k = (true, k)
  write_units (suc n) fd k =
      let rest = write_units n fd (kernel.write_byte fd k).1 in
      if (kernel.write_byte fd k).0 then rest else (false, (kernel.write_byte fd k).1)

  -- CreateSemaphoreW on a pipe that is made: the maximum, the name and the attributes are not used.
  unfoldable pub create_on_pipe :
      (initial_count : ℤ) (address : ℕ) → Heap → (fd0 fd1 : ℤ) → K → ℕ × Heap × K
  create_on_pipe initial_count address heap fd0 fd1 k =
      let written = write_units (units initial_count) fd1 k in
      if written.0
      then (address, store address (some (semaphore 1 fd0 fd1)) heap, written.1)
      else (0, heap, kernel.close fd1 (kernel.close fd0 written.1))

  -- `address` is what calloc returns
  unfoldable pub create_semaphore : (initial_count : ℤ) (address : ℕ) → Heap → K → ℕ × Heap × K
  create_semaphore initial_count address heap k =
      if address == 0 then (0, heap, k) else elim (kernel.pipe k).0 [
        | none ↦ (0, heap, (kernel.pipe k).1)
        | some (fd0, fd1) ↦ create_on_pipe initial_count address heap fd0 fd1 (kernel.pipe k).1
      ]

  unfoldable pub release_object : Object → (release_count : ℤ) → K → Bool × K
  release_object (semaphore mode fd0 fd1) release_count k =
      if is_minus_one fd0 then (true, k) else write_units (units release_count) fd1 k
  release_object object release_count k = (false, k)

  -- ReleaseSemaphore, which stores no previous count
  unfoldable pub release_semaphore : Heap → ℕ → (release_count : ℤ) → K → Option (Bool × K)
  release_semaphore heap h release_count k = elim (winpr_handle_get_info heap h) [
    | refused ↦ some (false, k)
    | found object ↦ some (release_object object release_count k)
    | fault ↦ none
  ]
