-- ===== src/Synch/Tokens.antt =====
-- libuzi/semaphore.c and wait.c: a semaphore is a number of units.
use libuzi.Common.{
  ℕ, zero, suc, ◌+◌, ◌-◌, ◌≤◌, ◌<◌, ◌^◌, ◌⊎◌, ◌≡◌, inl, inr, refl, ◌∙◌, Bool, true, false, Option,
  none, some, List, [], ◌∷◌, ◌==◌, if◌then◌else◌, Bool-cases, arith,
}
use libuzi.Common.Integers.{ℤ, is_negative, is_minus_one, not_minus_one}
use libuzi.Synch.Kernel.{Kernel}
use libuzi.Synch.Handles.{
  semaphore, Heap, found, is_refused, winpr_handle_get_info, winpr_handle_get_fd, get_fd,
  semaphore_cleanup_handle, cleanup_handle, winpr_handle_cleanup, wait_object_0, wait_timeout,
}
use libuzi.Synch.Wait.{wait_for_fd, wait_for_object, wait_for_single_object, pollin}
use libuzi.Synch.Semaphore.{write_units, units, release_object, release_semaphore}
use libuzi.Synch.Repeat.{Answers, PollLaw}
use libuzi.Synch.Runs.{Each, perform_all, specified, perform_all_lem}
use libuzi.Synch.Waiting.{ready_lem}

-- The number of bytes that a pipe always takes.
abbrev pub room : ℕ
room = 65536

-- A pipe, as the kernel documents it: a write of a byte succeeds while there is room, a read while
-- there are bytes, and poll finds input while there are bytes.
pub record Pipe {K : Type 0} (kernel : Kernel K) (fd0 fd1 : ℤ) : Type 0 where
  pub bytes : K → ℕ
  pub patience : K → ℕ
  pub valid : is_negative fd0 ≡ false
  pub writes :
      (k : K)
      → bytes k < room
      → ((kernel.write_byte fd1 k).0 ≡ true)
        × (bytes (kernel.write_byte fd1 k).1 ≡ bytes k + 1)
        × (patience (kernel.write_byte fd1 k).1 ≤ patience k)
  pub reads :
      (k : K)
      → 0 < bytes k
      → ((kernel.read_byte fd0 k).0 ≡ true)
        × (bytes (kernel.read_byte fd0 k).1 ≡ bytes k - 1)
        × (patience (kernel.read_byte fd0 k).1 ≤ patience k)
  pub polls :
      (timeout : ℕ) (k : K)
      → Answers timeout (bytes k)
      → PollLaw
          (kernel.poll ((fd0, pollin) ∷ []) timeout k).0
          (bytes k)
          (bytes (kernel.poll ((fd0, pollin) ∷ []) timeout k).1)
          (patience k)
          (patience (kernel.poll ((fd0, pollin) ∷ []) timeout k).1)

-- A call of the program on one semaphore.
pub data SemaphoreCall : Type 0 where
  release : (release_count : ℤ) → SemaphoreCall
  acquire : (milliseconds : ℕ) → SemaphoreCall

-- The calls on a number of units.
abbrev pub units_after : SemaphoreCall → ℕ → ℕ
units_after (release n) count = count + units n
units_after (acquire milliseconds) count = count - 1

abbrev pub unit_result : SemaphoreCall → ℕ → ℕ
unit_result (release n) count = 1
unit_result (acquire milliseconds) count = if count == 0 then wait_timeout else wait_object_0

-- Whether a call returns: a wait with a time-out from 2^31 on, as INFINITE, for a unit that is not
-- there does not.
abbrev pub MayReturn : SemaphoreCall → ℕ → Type 0
MayReturn (release n) count = Unit
MayReturn (acquire milliseconds) count = (0 < count) ⊎ (milliseconds < 2 ^ 31)

-- The units that the calls release.
abbrev pub released : List SemaphoreCall → ℕ
released [] = 0
released (release n ∷ calls) = units n + released calls
released (acquire milliseconds ∷ calls) = released calls

module _ {K : Type 0} (kernel : Kernel K) (fuel : ℕ) (heap : Heap) (h : ℕ) where
  abbrev pub boolean : Option (Bool × K) → Option (ℕ × K)
  boolean none = none
  boolean (some (b, k)) = some ((if b then 1 else 0), k)

  abbrev pub call_semaphore : SemaphoreCall → K → Option (ℕ × K)
  call_semaphore (release n) k = boolean (release_semaphore kernel heap h n k)
  call_semaphore (acquire milliseconds) k = wait_for_single_object kernel fuel heap h milliseconds k

module _ {K : Type 0} (kernel : Kernel K) (fd0 fd1 : ℤ) (p : Pipe kernel fd0 fd1) where
  -- The loop of writes adds as many units as it writes.
  pub write_units_lem :
      (n : ℕ) (k : K)
      → p.bytes k + n ≤ room
      → ((write_units kernel n fd1 k).0 ≡ true)
        × (p.bytes (write_units kernel n fd1 k).1 ≡ p.bytes k + n)
        × (p.patience (write_units kernel n fd1 k).1 ≤ p.patience k)
  unfolding write_units
  write_units_lem zero k free = (refl, omega arith, omega arith)
  write_units_lem (suc n) k free =
      let (ok, c, less) = p.writes k (omega arith) in
      let (ok', c', less') =
        write_units_lem n (kernel.write_byte fd1 k).1 (omega (arith, c, free)) in
      rw (ok, write_units) (ok', omega (arith, c, c'), omega (arith, less, less'))

module _ {K : Type 0} (kernel : Kernel K) (fd0 fd1 : ℤ) (p : Pipe kernel fd0 fd1) (fuel : ℕ)
    (heap : Heap) (h : ℕ) (usable : is_refused h ≡ false)
    (object : heap h ≡ some (semaphore 1 fd0 fd1)) where
  info : winpr_handle_get_info heap h ≡ found (semaphore 1 fd0 fd1)
  unfolding winpr_handle_get_info
  info = rw (usable, object) refl

  nonzero : (h == 0) ≡ false
  nonzero = elim (Bool-cases (h == 0)) [
    | inl z ↦ let refused_now = usable in absurd (cc (rw z at usable))
    | inr z ↦ z
  ]

  to_descriptor :
      (milliseconds : ℕ) (k : K)
      → wait_for_object kernel fuel heap h (semaphore 1 fd0 fd1) milliseconds k
        ≡ wait_for_fd kernel fuel heap h (semaphore 1 fd0 fd1) fd0 milliseconds k
  unfolding wait_for_object winpr_handle_get_fd get_fd
  to_descriptor milliseconds k = rw (info, wait_for_object, winpr_handle_get_fd, nonzero) refl

  cleanup :
      (k : K)
      → 0 < p.bytes k
      → winpr_handle_cleanup kernel heap h k ≡ some (wait_object_0, (kernel.read_byte fd0 k).1)
  unfolding winpr_handle_cleanup cleanup_handle semaphore_cleanup_handle
  cleanup k some_bytes =
      let (ok, c, less) = p.reads k some_bytes in rw (info, winpr_handle_cleanup, nonzero, ok) refl

  abbrev Fits : List SemaphoreCall → K → Type 0
  Fits calls k = (p.patience k < fuel) × (p.bytes k + released calls ≤ room)

  valid_end : is_minus_one fd0 ≡ false
  valid_end = not_minus_one fd0 p.valid

  steps :
      (call : SemaphoreCall) (calls : List SemaphoreCall) (k : K)
      → MayReturn call (p.bytes k)
      → Fits (call ∷ calls) k
      → (k' : K) × (call_semaphore kernel fuel heap h call k
          ≡ some (unit_result call (p.bytes k), k'))
        × (p.bytes k' ≡ units_after call (p.bytes k))
        × Fits calls k'
  unfolding release_semaphore release_object
  steps (release n) calls k may (enough, free) =
      let (ok, c, less) = write_units_lem kernel fd0 fd1 p (units n) k (omega arith) in
      (
        (write_units kernel (units n) fd1 k).1,
        rw (info, release_semaphore, valid_end, ok) refl,
        c,
        (omega (arith, less), omega (arith, c)),
      )
  steps (acquire milliseconds) calls k may (enough, free) =
      let (k', waited, c, less) =
        ready_lem kernel fd0 p.bytes p.patience p.valid p.polls fuel heap h (semaphore 1 fd0 fd1)
          info to_descriptor refl milliseconds k enough may in
      elim (Bool-cases (p.bytes k == 0)) [
        | inl z ↦ (k', rw z (rw z at waited), ground arith, (omega arith, omega (arith, c)))
        | inr z ↦
            let some_bytes : 0 < p.bytes k' = ground arith in
            let (ok, c', less') = p.reads k' some_bytes in
            (
              (kernel.read_byte fd0 k').1,
              rw z (rw z at waited ∙ cleanup k' some_bytes),
              omega (arith, c, c'),
              (omega (arith, less, less'), omega (arith, c, c')),
            )
      ]

  -- For a semaphore that stands at a handle, on a pipe as the kernel documents it, with more fuel
  -- than the kernel has interruptions left, and when the pipe has room for all units that are
  -- released: a sequence of ReleaseSemaphore with any counts and WaitForSingleObject, in which
  -- every wait with a time-out from 2^31 on, as INFINITE, comes when there is a unit, returns, and
  -- its results are those of the same calls on a number of units without a maximum, of which a wait
  -- takes one or times out.
  pub semaphore_lem :
      (calls : List SemaphoreCall) (k : K)
      → p.patience k < fuel
      → p.bytes k + released calls ≤ room
      → Each units_after MayReturn calls (p.bytes k)
      → perform_all (call_semaphore kernel fuel heap h) calls k
        ≡ some (specified units_after unit_result calls (p.bytes k))
  semaphore_lem calls k enough free may =
      perform_all_lem (call_semaphore kernel fuel heap h) units_after unit_result p.bytes MayReturn
        Fits steps calls k may (enough, free)
