-- ===== src/Synch/Signals.antt =====
-- libuzi/event.c and wait.c: an event that is reset by hand is a Boolean.
use libuzi.Common.{
  ℕ, zero, suc, ◌+◌, ◌-◌, ◌^◌, ◌≤◌, ◌<◌, ◌≡◌, inl, inr, refl, ap, ◌∙◌, ◌⊎◌, Bool, true, false, not,
  Option, none, some, List, [], ◌∷◌, ltb, ◌==◌, if◌then◌else◌, Bool-cases, length, arith,
}
use libuzi.Common.Integers.{ℤ, is_negative}
use libuzi.Synch.Kernel.{Kernel}
use libuzi.Synch.Handles.{
  Object, event, Heap, found, is_refused, winpr_handle_get_info, winpr_handle_get_fd, get_fd,
  cleanup_handle, winpr_handle_cleanup, wait_object_0, wait_timeout,
}
use libuzi.Synch.Wait.{wait_for_fd, wait_for_object, wait_for_single_object, pollin}
use libuzi.Synch.Waiting.{ready_lem}
use libuzi.Synch.Runs.{Each, perform_all, specified, perform_all_lem}
use libuzi.Synch.Event.{set_event, set_event_fd, reset_event, reset_event_fd, reset_loop}
use libuzi.Synch.Repeat.{Answers, IoLaw, PollLaw, Ended, repeat_io_lem}

abbrev pub full : ℕ
full = 2 ^ 64 - 2

-- An eventfd, as the kernel documents it: a write adds 1 unless the counter is at its end, a read
-- takes all of a positive counter, and poll finds input while the counter is positive.
pub record EventFd {K : Type 0} (kernel : Kernel K) (fd : ℤ) : Type 0 where
  pub counter : K → ℕ
  pub patience : K → ℕ
  pub valid : is_negative fd ≡ false
  pub writes :
      (k : K)
      → IoLaw
          (λ c. c + 1)
          (λ c. ltb c full)
          (kernel.eventfd_write fd k).0
          (counter k)
          (counter (kernel.eventfd_write fd k).1)
          (patience k)
          (patience (kernel.eventfd_write fd k).1)
  pub reads :
      (k : K)
      → IoLaw
          (λ c. 0)
          (λ c. ltb 0 c)
          (kernel.eventfd_read fd k).0
          (counter k)
          (counter (kernel.eventfd_read fd k).1)
          (patience k)
          (patience (kernel.eventfd_read fd k).1)
  pub polls :
      (timeout : ℕ) (k : K)
      → Answers timeout (counter k)
      → PollLaw
          (kernel.poll ((fd, pollin) ∷ []) timeout k).0
          (counter k)
          (counter (kernel.poll ((fd, pollin) ∷ []) timeout k).1)
          (patience k)
          (patience (kernel.poll ((fd, pollin) ∷ []) timeout k).1)

-- A call of the program on one event.
pub data EventCall : Type 0 where
  set : EventCall
  reset : EventCall
  wait : (milliseconds : ℕ) → EventCall

-- The calls on the event that is a Boolean, and what they return: BOOL is 0 or 1.
abbrev pub after_call : EventCall → Bool → Bool
after_call set signalled = true
after_call reset signalled = false
after_call (wait milliseconds) signalled = signalled

abbrev pub result_of : EventCall → Bool → ℕ
result_of set signalled = 1
result_of reset signalled = 1
result_of (wait milliseconds) signalled = if signalled then wait_object_0 else wait_timeout

-- Whether a call returns: a wait with a time-out from 2^31 on, as INFINITE, for an event that is not
-- signalled does not.
abbrev pub MayReturn : EventCall → Bool → Type 0
MayReturn set signalled = Unit
MayReturn reset signalled = Unit
MayReturn (wait milliseconds) signalled = (signalled ≡ true) ⊎ (milliseconds < 2 ^ 31)

abbrev pub as_number : Bool → ℕ
as_number true = 1
as_number false = 0

-- The calls of the library, with more fuel than the kernel has interruptions left.
module _ {K : Type 0} (kernel : Kernel K) (fuel : ℕ) (heap : Heap) (h : ℕ) where
  abbrev pub boolean : Option (Bool × K) → Option (ℕ × K)
  boolean none = none
  boolean (some (b, k)) = some (as_number b, k)

  abbrev pub perform : EventCall → K → Option (ℕ × K)
  perform set k = boolean (set_event kernel fuel heap h k)
  perform reset k = boolean (reset_event kernel fuel heap h k)
  perform (wait milliseconds) k = wait_for_single_object kernel fuel heap h milliseconds k

module _ {K : Type 0} (kernel : Kernel K) (fd : ℤ) (e : EventFd kernel fd) (fuel : ℕ) (heap : Heap)
    (h : ℕ) (fd1 : ℤ) (attached manual_reset : Bool) (usable : is_refused h ≡ false)
    (object : heap h ≡ some (event 1 fd fd1 attached manual_reset)) where
  info : winpr_handle_get_info heap h ≡ found (event 1 fd fd1 attached manual_reset)
  unfolding winpr_handle_get_info
  info = rw (usable, object) refl

  nonzero : (h == 0) ≡ false
  nonzero = elim (Bool-cases (h == 0)) [
    | inl z ↦ let refused_now = usable in absurd (cc (rw z at usable))
    | inr z ↦ z
  ]

  descriptor : winpr_handle_get_fd heap h ≡ some fd
  unfolding winpr_handle_get_fd get_fd
  descriptor = rw (info, winpr_handle_get_fd, nonzero) refl

  cleanup : (k : K) → winpr_handle_cleanup kernel heap h k ≡ some (wait_object_0, k)
  unfolding winpr_handle_cleanup cleanup_handle
  cleanup k = rw (info, winpr_handle_cleanup) refl

  set_lem :
      (k : K)
      → e.patience k < fuel
      → e.counter k < full
      → Ended e.counter e.patience (set_event kernel fuel heap h k) true (e.counter k + 1) k
  unfolding set_event set_event_fd
  set_lem k enough free =
      rw (info, set_event)
        (repeat_io_lem e.counter e.patience (kernel.eventfd_write fd) (λ c. c + 1) (λ c. ltb c full)
          e.writes fuel k enough (ground arith))

  abbrev this : Object
  this = event 1 fd fd1 attached manual_reset

  to_descriptor :
      (milliseconds : ℕ) (k : K)
      → wait_for_object kernel fuel heap h this milliseconds k
        ≡ wait_for_fd kernel fuel heap h this fd milliseconds k
  unfolding wait_for_object
  to_descriptor milliseconds k = rw (descriptor, wait_for_object) refl

  wait_lem :
      (milliseconds : ℕ) (k : K)
      → e.patience k < fuel
      → Answers milliseconds (e.counter k)
      → Ended e.counter e.patience
          (wait_for_single_object kernel fuel heap h milliseconds k)
          (if e.counter k == 0 then wait_timeout else wait_object_0)
          (e.counter k)
          k
  wait_lem milliseconds k enough answers =
      let (k', waited, c, p) =
        ready_lem kernel fd e.counter e.patience e.valid e.polls fuel heap h this info to_descriptor
          refl milliseconds k enough answers in
      elim (Bool-cases (e.counter k == 0)) [
        | inl z ↦ (k', rw z (rw z at waited), c, p)
        | inr z ↦ (k', rw z (rw z at waited ∙ cleanup k'), c, p)
      ]

  -- The loop of ResetEvent at an event that is not signalled.
  idle_loop :
      (rounds : ℕ) (k : K)
      → e.patience k < fuel
      → e.counter k ≡ 0
      → 0 < rounds
      → Ended e.counter e.patience (reset_loop kernel fuel rounds heap h fd k) true 0 k
  unfolding reset_loop
  idle_loop zero k enough empty some_rounds = absurd (omega arith)
  idle_loop (suc rounds) k enough empty some_rounds =
      let (k', result, c, p) = wait_lem 0 k enough (inr (omega arith)) in
      (k', rw (rw empty at result, reset_loop) refl, c ∙ empty, p)

  -- At a signalled event it reads once.
  reading_loop :
      (rounds : ℕ) (k : K)
      → e.patience k < fuel
      → 0 < e.counter k
      → 1 < rounds
      → Ended e.counter e.patience (reset_loop kernel fuel rounds heap h fd k) true 0 k
  unfolding reset_loop
  reading_loop zero k enough signal some_rounds = absurd (omega arith)
  reading_loop (suc rounds) k enough signal some_rounds =
      let (k1, waited, c1, p1) = wait_lem 0 k enough (inr (omega arith)) in
      let (k2, read, c2, p2) =
        repeat_io_lem e.counter e.patience (kernel.eventfd_read fd) (λ c. 0) (λ c. ltb 0 c) e.reads
          fuel k1 (omega arith) (ground arith) in
      let (k3, rest, c3, p3) = idle_loop rounds k2 (omega arith) c2 (omega arith) in
      let nonempty : (e.counter k == 0) ≡ false = ground arith in
      (k3, rw (rw nonempty at waited, reset_loop, read) rest, c3, omega (arith, p1, p2, p3))

  reset_lem :
      (k : K)
      → e.patience k < fuel
      → 1 < fuel
      → Ended e.counter e.patience (reset_event kernel fuel heap h k) true 0 k
  unfolding reset_event reset_event_fd
  reset_lem k enough rounds = elim (Bool-cases (e.counter k == 0)) [
    | inl z ↦ rw (info, reset_event) (idle_loop fuel k enough (ground arith) (omega arith))
    | inr z ↦ rw (info, reset_event) (reading_loop fuel k enough (ground arith) rounds)
  ]

  abbrev signal : ℕ → Bool
  signal c = not (c == 0)

  answered :
      (milliseconds c : ℕ) → (signal c ≡ true) ⊎ (milliseconds < 2 ^ 31) → Answers milliseconds c
  answered milliseconds c (inl e) = inl (ground arith)
  answered milliseconds c (inr small) = inr small

  -- One call, and what it leaves of the counter.
  abbrev Stepped : EventCall → K → Type 0
  Stepped call k =
      (k' : K) × (perform kernel fuel heap h call k
        ≡ some (result_of call (signal (e.counter k)), k'))
      × (signal (e.counter k') ≡ after_call call (signal (e.counter k)))
      × (e.counter k' ≤ e.counter k + 1)
      × (e.patience k' ≤ e.patience k)

  perform_lem :
      (call : EventCall) (k : K)
      → e.patience k < fuel
      → 1 < fuel
      → e.counter k < full
      → MayReturn call (signal (e.counter k))
      → Stepped call k
  perform_lem set k enough rounds free may =
      let (k', result, c, p) = set_lem k enough free in
      (k', rw result refl, rw c (ground arith), omega (arith, c), p)
  perform_lem reset k enough rounds free may =
      let (k', result, c, p) = reset_lem k enough rounds in
      (k', rw result refl, rw c refl, omega (arith, c), p)
  perform_lem (wait milliseconds) k enough rounds free may =
      let (k', result, c, p) =
        wait_lem milliseconds k enough (answered milliseconds (e.counter k) may) in
      let same : (if e.counter k == 0 then wait_timeout else wait_object_0)
          ≡ (if signal (e.counter k) then wait_object_0 else wait_timeout) =
        ground arith in
      (k', result ∙ ap (λ r. some (r, k')) same, ap signal c, omega (arith, c), p)

  abbrev Fits : List EventCall → K → Type 0
  Fits calls k = (e.patience k < fuel) × (1 < fuel) × (e.counter k + length calls ≤ full)

  -- For an event that stands at a handle and is reset by hand, on an eventfd as the kernel
  -- documents it, with fuel of at least 2 and more than the kernel has interruptions left, and
  -- fewer calls than the counter has room for: a sequence of SetEvent, ResetEvent and
  -- WaitForSingleObject, in which every wait with a time-out from 2^31 on, as INFINITE, comes when
  -- the event is set, returns, and its results are those of the same calls on a Boolean, which a
  -- wait finds true or times out.
  pub event_lem :
      (calls : List EventCall) (k : K)
      → e.patience k < fuel
      → 1 < fuel
      → e.counter k + length calls ≤ full
      → Each after_call MayReturn calls (not (e.counter k == 0))
      → perform_all (perform kernel fuel heap h) calls k
        ≡ some (specified after_call result_of calls (not (e.counter k == 0)))
  event_lem calls k enough rounds free may =
      perform_all_lem (perform kernel fuel heap h) after_call result_of (λ k. signal (e.counter k))
        MayReturn Fits
        (λ call calls k may fits.
          let (k', result, s, c, p) =
            perform_lem call k fits.0 fits.1 (omega (arith, fits.2)) may in
          (k', result, s, (omega (arith, p, fits.0), fits.1, omega (arith, c, fits.2))))
        calls k may (enough, rounds, free)
