-- ===== src/Synch/Waiting.antt =====
-- libuzi/wait.c: WaitForSingleObject on an object with a descriptor that the kernel polls.
use libuzi.Common.{
  ℕ, ◌≤◌, ◌<◌, ◌≡◌, inl, inr, refl, ◌∙◌, false, some, List, [], ◌∷◌, ◌==◌, if◌then◌else◌,
  Bool-cases,
}
use libuzi.Common.Integers.{ℤ, is_negative}
use libuzi.Synch.Kernel.{Kernel, repeat_poll}
use libuzi.Synch.Handles.{
  Object, handle_mode, Heap, found, winpr_handle_get_info, winpr_handle_cleanup, wait_timeout,
}
use libuzi.Synch.Wait.{
  wait_on_fd, wait_for_fd, wait_for_object, wait_for_single_object, handle_mode_to_pollevent,
  pollin,
}
use libuzi.Synch.Repeat.{Answers, PollLaw, repeat_poll_lem}

module _ {K : Type 0} (kernel : Kernel K) (fd : ℤ) (counter patience : K → ℕ)
    (valid : is_negative fd ≡ false)
    (polls : (timeout : ℕ) (k : K)
      → Answers timeout (counter k)
      → PollLaw
          (kernel.poll ((fd, pollin) ∷ []) timeout k).0
          (counter k)
          (counter (kernel.poll ((fd, pollin) ∷ []) timeout k).1)
          (patience k)
          (patience (kernel.poll ((fd, pollin) ∷ []) timeout k).1))
    (fuel : ℕ) (heap : Heap) (h : ℕ) (object : Object)
    (info : winpr_handle_get_info heap h ≡ found object)
    (opens : (milliseconds : ℕ) (k : K)
      → wait_for_object kernel fuel heap h object milliseconds k
        ≡ wait_for_fd kernel fuel heap h object fd milliseconds k)
    (reading : handle_mode object ≡ 1) where
  to_object :
      (milliseconds : ℕ) (k : K)
      → wait_for_single_object kernel fuel heap h milliseconds k
        ≡ wait_for_object kernel fuel heap h object milliseconds k
  unfolding wait_for_single_object
  to_object milliseconds k = rw (info, wait_for_single_object) refl

  polled_lem :
      (milliseconds status : ℕ) (revents : List ℕ) (k k' : K)
      → repeat_poll fuel (kernel.poll ((fd, pollin) ∷ []) milliseconds) k
        ≡ some (some (status, revents), k')
      → wait_on_fd kernel fuel fd 1 milliseconds k ≡ some (some status, k')
  unfolding wait_on_fd handle_mode_to_pollevent
  polled_lem milliseconds status revents k k' result = rw (result, wait_on_fd) refl

  waited_lem :
      (milliseconds status : ℕ) (k k' : K)
      → wait_on_fd kernel fuel fd 1 milliseconds k ≡ some (some status, k')
      → wait_for_fd kernel fuel heap h object fd milliseconds k
        ≡ (if status == 1 then winpr_handle_cleanup kernel heap h k' else some (wait_timeout, k'))
  unfolding wait_for_fd
  waited_lem milliseconds status k k' result = rw (valid, wait_for_fd, reading, result) refl

  -- It waits for the poll, and cleans up if the descriptor has an event.
  pub ready_lem :
      (milliseconds : ℕ) (k : K)
      → patience k < fuel
      → Answers milliseconds (counter k)
      → (k' : K) × (wait_for_single_object kernel fuel heap h milliseconds k ≡ (
          if counter k == 0
          then some (wait_timeout, k')
          else winpr_handle_cleanup kernel heap h k'))
        × (counter k' ≡ counter k)
        × (patience k' ≤ patience k)
  ready_lem milliseconds k enough answers =
      let (revents, (k', result, c, p)) =
        repeat_poll_lem counter patience milliseconds (kernel.poll ((fd, pollin) ∷ []) milliseconds)
          (polls milliseconds) fuel k enough answers in
      let status : ℕ = if counter k == 0 then 0 else 1 in
      let waited =
        to_object milliseconds k
        ∙ opens milliseconds k
        ∙ waited_lem milliseconds status k k'
            (polled_lem milliseconds status revents k k' result) in
      elim (Bool-cases (counter k == 0)) [
        | inl z ↦ (k', rw z (rw z at waited), c, p)
        | inr z ↦ (k', rw z (rw z at waited), c, p)
      ]
