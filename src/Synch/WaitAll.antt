-- ===== src/Synch/WaitAll.antt =====
-- libuzi/wait.c: WaitForMultipleObjects with bWaitAll takes each object once.
use libuzi.Common.{
  ℕ, zero, suc, ◌+◌, ◌-◌, ◌<◌, ◌≡◌, ◌≢◌, inl, inr, refl, ◌∙◌, Bool, true, false, not, ◌||◌, Option,
  none, some, List, [], ◌∷◌, ltb, leb, ◌==◌, if◌then◌else◌, Bool-cases, Option-cases, bit_and,
  length, get_or, drop, set_at, replicate, arith,
}
use libuzi.Common.Integers.{ℤ, is_minus_one}
use libuzi.Common.Sums.{length-set_at, length-replicate}
use libuzi.Timer.Times.{Timespec}
use libuzi.Synch.Kernel.{Kernel, repeat_poll}
use libuzi.Synch.Handles.{
  Object, Heap, found, winpr_handle_get_info, get_fd, cleanup_handle, wait_object_0, infinite,
}
use libuzi.Synch.Multiple.{
  Entry, Handled, returned, handled, Round, ends, again, advance, collect, requests, time_left,
  mark_signal, take_signal, handle_signals, continue_loop, after_poll, poll_round, wait_round,
  wait_loop, wait_for_multiple_objects,
}
use libuzi.Synch.Repeat.{Polled-cases}
use libuzi.Synch.Marks.{
  get_or-set_at, get_or-set_at_other, get_or-replicate, Marked, advance-Marked, Fresh, weaken-Fresh,
  set_at-Fresh, collect-Collected, Info-cases,
}

-- Marking one more object keeps the marks.
set_at-Marked :
    (idxs : List Bool) (idx signalled : ℕ)
    → idx < length idxs
    → Marked idxs signalled
    → Marked (set_at idx true idxs) signalled
set_at-Marked idxs idx signalled small marked j below = elim (Bool-cases (idx == j)) [
  | inl same ↦ let is_j : idx ≡ j = ground arith in rw (← is_j) (get_or-set_at idxs idx small)
  | inr other ↦ get_or-set_at_other idxs idx j (ground arith) ∙ marked j below
]

-- How often the object at one place of the list was taken: its cleanup takes it once, and neither the
-- cleanups at other places nor the other calls do. An event is taken by no call, and an object that
-- stands in the list twice by both of its places, so that neither has such a number.
pub record Takes {K : Type 0} (kernel : Kernel K) (heap : Heap) (handles : List ℕ) (place : ℕ)
    : Type 0 where
  pub taken : K → ℕ
  pub cleanup_takes :
      (object : Object) (k : K)
      → winpr_handle_get_info heap (get_or handles place 0) ≡ found object
      → (cleanup_handle kernel (get_or handles place 0) object k).0 ≡ wait_object_0
      → taken (cleanup_handle kernel (get_or handles place 0) object k).1 ≡ taken k + 1
  pub cleanup_keeps :
      (i : ℕ) (object : Object) (k : K)
      → i < length handles
      → i ≢ place
      → winpr_handle_get_info heap (get_or handles i 0) ≡ found object
      → taken (cleanup_handle kernel (get_or handles i 0) object k).1 ≡ taken k
  pub poll_keeps :
      (fds : List (ℤ × ℕ)) (timeout : ℕ) (k : K) → taken (kernel.poll fds timeout k).1 ≡ taken k
  pub clock_keeps : (k : K) → taken (kernel.clock_gettime k).1 ≡ taken k

abbrev pub mark : List Bool → ℕ → ℕ
mark idxs i = if get_or idxs i false then 1 else 0

module _ {K : Type 0} (kernel : Kernel K) (fuel : ℕ) (heap : Heap) (handles : List ℕ) (place : ℕ)
    (here : place < length handles) (t : Takes kernel heap handles place) (k0 : K) where
  -- The mark of the object says whether it was taken since the state `k0`.
  abbrev Inv : List Bool → (signalled : ℕ) → K → Type 0
  Inv idxs signalled k =
      (length idxs ≡ length handles)
      × Marked idxs signalled
      × (t.taken k ≡ t.taken k0 + mark idxs place)

  abbrev pub AllTaken : ℕ → K → Type 0
  AllTaken result k = result ≡ wait_object_0 → t.taken k ≡ t.taken k0 + 1

  abbrev AfterHandled : Option (Handled × K) → Type 0
  AfterHandled none = Unit
  AfterHandled (some (returned result, k)) = AllTaken result k
  AfterHandled (some (handled signal_handled idxs signalled, k)) = Inv idxs signalled k

  -- What the rest of the loop is to do with the marks.
  abbrev GoesOn : (from : ℕ) → List Entry → (List Bool → ℕ → K → Option (Handled × K)) → Type 0
  GoesOn from es go_on =
      (idxs : List Bool) (signalled : ℕ) (k : K)
      → Inv idxs signalled k
      → Fresh (length handles) idxs from es
      → AfterHandled (go_on idxs signalled k)

  all_marked :
      (idxs : List Bool) (signalled : ℕ) (k : K)
      → Inv idxs signalled k
      → leb (length handles) signalled ≡ true
      → AllTaken wait_object_0 k
  all_marked idxs signalled k (size, marked, takes) reached zero_result =
      let is_marked = marked place (ground arith) in takes ∙ rw is_marked refl

  mark_lem :
      (idx : ℕ) (idxs : List Bool) (signalled : ℕ) (es : List Entry)
      (go_on : List Bool → ℕ → K → Option (Handled × K)) (k : K)
      → idx < length handles
      → length idxs ≡ length handles
      → Marked idxs signalled
      → t.taken k ≡ t.taken k0 + mark (set_at idx true idxs) place
      → Fresh (length handles) idxs (idx + 1) es
      → GoesOn (idx + 1) es go_on
      → AfterHandled (mark_signal kernel fuel heap handles true idx idxs signalled go_on k)
  unfolding mark_signal
  mark_lem idx idxs signalled es go_on k small size marked takes fresh later =
      let signalled' : ℕ = advance (length handles - signalled) (set_at idx true idxs) signalled in
      let inv : Inv (set_at idx true idxs) signalled' k = (
        length-set_at idxs idx true ∙ size,
        advance-Marked (length handles - signalled) (set_at idx true idxs) signalled
            (set_at-Marked idxs idx signalled (omega (arith, size, small)) marked),
        takes,
      ) in
      elim (Bool-cases (leb (length handles) signalled')) [
        | inl e ↦ rw (e, AfterHandled) (all_marked (set_at idx true idxs) signalled' k inv e)
        | inr e ↦
            rw (e, AfterHandled)
              (later (set_at idx true idxs) signalled' k inv
                (set_at-Fresh (length handles) idxs idx (idx + 1) es (omega arith) fresh))
      ]

  take_lem :
      (idx : ℕ) (object : Object) (idxs : List Bool) (signalled : ℕ) (es : List Entry)
      (go_on : List Bool → ℕ → K → Option (Handled × K)) (k : K)
      → winpr_handle_get_info heap (get_or handles idx 0) ≡ found object
      → idx < length handles
      → get_or idxs idx false ≡ false
      → Inv idxs signalled k
      → Fresh (length handles) idxs (idx + 1) es
      → GoesOn (idx + 1) es go_on
      → AfterHandled (
          take_signal kernel fuel heap handles true idx
            (cleanup_handle kernel (get_or handles idx 0) object k)
            idxs
            signalled
            go_on)
  unfolding take_signal
  take_lem idx object idxs signalled es go_on k info small unmarked (size, marked, takes) fresh
        later =
      let cleaned : ℕ × K = cleanup_handle kernel (get_or handles idx 0) object k in
      elim (Bool-cases (cleaned.0 == wait_object_0)) [
        | inl e ↦ rw e (
            mark_lem idx idxs signalled es go_on cleaned.1 small size marked
              (elim (Bool-cases (idx == place)) [
                | inl same ↦
                    let is_place : idx ≡ place = ground arith in
                    let took =
                      t.cleanup_takes object k (rw is_place at info) (ground (arith, is_place)) in
                    let unmarked_here = rw is_place at unmarked in
                    let before = rw unmarked_here at takes in
                    rw (is_place, get_or-set_at idxs place (omega (arith, size, here)))
                      (omega (arith, took, before))
                | inr other ↦
                    let apart : idx ≢ place = ground arith in
                    rw (get_or-set_at_other idxs idx place apart)
                      (t.cleanup_keeps idx object k small apart info ∙ takes)
              ])
              fresh later)
        | inr e ↦ rw e (λ zero_result. absurd (ground arith))
      ]

  handle_lem :
      (es : List Entry) (from : ℕ) (revents : List ℕ) (signal_handled : Bool) (idxs : List Bool)
      (signalled : ℕ) (k : K)
      → Inv idxs signalled k
      → Fresh (length handles) idxs from es
      → AfterHandled
          (handle_signals kernel fuel heap handles true es revents signal_handled idxs signalled k)
  unfolding handle_signals
  handle_lem [] from revents signal_handled idxs signalled k inv fresh = inv
  handle_lem (e ∷ es) from revents signal_handled idxs signalled k inv
        (above, small, unmarked, fresh) =
      elim (Info-cases (winpr_handle_get_info heap (get_or handles e.idx 0))) [
        | inl i ↦ rw (i, AfterHandled) (λ zero_result. absurd (omega (arith, zero_result)))
        | inr (inl i) ↦ rw (i, AfterHandled) tt
        | inr (inr (object, i)) ↦
            elim (Bool-cases (is_minus_one (get_fd (get_or handles e.idx 0) object))) [
              | inl f ↦ rw (i, AfterHandled, f) (λ zero_result. absurd (omega (arith, zero_result)))
              | inr f ↦ elim (Bool-cases (bit_and (get_or revents 0 0) e.events == 0)) [
                | inl g ↦
                    rw (i, AfterHandled, f, g)
                      (handle_lem es from (drop 1 revents) signal_handled idxs signalled k inv (
                        weaken-Fresh (length handles) idxs (e.idx + 1) from es (omega arith) fresh))
                | inr g ↦
                    rw (i, AfterHandled, f, g)
                      (take_lem e.idx object idxs signalled es
                        (handle_signals kernel fuel heap handles true es (drop 1 revents) true) k i
                        small unmarked inv fresh
                        (λ idxs' signalled' k' inv' fresh'.
                          handle_lem es (e.idx + 1) (drop 1 revents) true idxs' signalled' k' inv'
                            fresh'))
              ]
            ]
      ]

  abbrev AfterRound : Option (Round × K) → Type 0
  AfterRound none = Unit
  AfterRound (some (ends result, k)) = AllTaken result k
  AfterRound (some (again idxs signalled milliseconds, k)) = Inv idxs signalled k

  abbrev Kept : K → K → Type 0
  Kept k k' = t.taken k' ≡ t.taken k

  keep-Inv :
      (idxs : List Bool) (signalled : ℕ) (k k' : K)
      → Kept k k'
      → Inv idxs signalled k
      → Inv idxs signalled k'
  keep-Inv idxs signalled k k' kept (size, marked, takes) = (size, marked, kept ∙ takes)

  continue_lem :
      (milliseconds : ℕ) (result : Option (Handled × K))
      → AfterHandled result
      → AfterRound (continue_loop kernel fuel heap handles true milliseconds result)
  continue_lem milliseconds none h = tt
  continue_lem milliseconds (some (returned result, k)) h = h
  continue_lem milliseconds (some (handled signal_handled idxs signalled, k)) h = h

  after_poll_lem :
      (start : Timespec) (es : List Entry) (revents : List ℕ) (idxs : List Bool)
      (signalled milliseconds : ℕ) (k : K)
      → Inv idxs signalled k
      → Fresh (length handles) idxs 0 es
      → AfterRound
          (after_poll kernel fuel heap handles true start es revents idxs signalled milliseconds k)
  unfolding after_poll
  after_poll_lem start es revents idxs signalled milliseconds k inv fresh =
      let k' : K = (kernel.clock_gettime k).1 in
      let inv' = keep-Inv idxs signalled k k' (t.clock_keeps k) inv in
      elim (Bool-cases (milliseconds == infinite)) [
        | inl e ↦
            rw (e, AfterRound)
              (continue_lem milliseconds
                (handle_signals kernel fuel heap handles true es revents false idxs signalled k)
                (handle_lem es 0 revents false idxs signalled k inv fresh))
        | inr e ↦ elim (Option-cases (time_left start (kernel.clock_gettime k).0 milliseconds)) [
          | inl f ↦ rw (e, AfterRound, f) (λ zero_result. absurd (omega (arith, zero_result)))
          | inr (left, f) ↦
              rw (e, AfterRound, f)
                (continue_lem left
                  (handle_signals kernel fuel heap handles true es revents false idxs signalled k')
                  (handle_lem es 0 revents false idxs signalled k' inv' fresh))
        ]
      ]

  -- The repeated poll takes no object.
  abbrev AfterPoll : K → Option (Option (ℕ × List ℕ) × K) → Type 0
  AfterPoll k none = Unit
  AfterPoll k (some (result, k')) = Kept k k'

  keep-AfterPoll :
      (k k' : K) (result : Option (Option (ℕ × List ℕ) × K))
      → Kept k k'
      → AfterPoll k' result
      → AfterPoll k result
  keep-AfterPoll k k' none kept h = tt
  keep-AfterPoll k k' (some (result, k'')) kept h = h ∙ kept

  repeat_poll_keeps :
      (fds : List (ℤ × ℕ)) (timeout rounds : ℕ) (k : K)
      → AfterPoll k (repeat_poll rounds (kernel.poll fds timeout) k)
  unfolding repeat_poll
  repeat_poll_keeps fds timeout zero k = tt
  repeat_poll_keeps fds timeout (suc rounds) k =
      let kept : Kept k (kernel.poll fds timeout k).1 = t.poll_keeps fds timeout k in
      elim (Polled-cases (kernel.poll fds timeout k).0) [
        | inl e ↦
            rw (e, AfterPoll)
              (keep-AfterPoll k (kernel.poll fds timeout k).1
                (repeat_poll rounds (kernel.poll fds timeout) (kernel.poll fds timeout k).1) kept
                (repeat_poll_keeps fds timeout rounds (kernel.poll fds timeout k).1))
        | inr (inl e) ↦ rw (e, AfterPoll) kept
        | inr (inr (status, revents, e)) ↦ rw (e, AfterPoll) kept
      ]

  poll_round_lem :
      (start : Timespec) (es : List Entry) (idxs : List Bool) (signalled milliseconds : ℕ) (k : K)
      → Inv idxs signalled k
      → Fresh (length handles) idxs 0 es
      → AfterRound (poll_round kernel fuel heap handles true start es idxs signalled milliseconds k)
  unfolding poll_round
  poll_round_lem start es idxs signalled milliseconds k inv fresh =
      let kept = repeat_poll_keeps (requests es) milliseconds fuel k in
      elim (Option-cases (repeat_poll fuel (kernel.poll (requests es) milliseconds) k)) [
        | inl e ↦ rw (e, AfterRound) tt
        | inr ((none, k'), e) ↦
            rw (e, AfterRound) (λ zero_result. absurd (omega (arith, zero_result)))
        | inr ((some (status, revents), k'), e) ↦
            let inv' = keep-Inv idxs signalled k k' (rw e at kept) inv in
            elim (Bool-cases (status == 0)) [
              | inl f ↦ rw (e, AfterRound, f) (λ zero_result. absurd (omega (arith, zero_result)))
              | inr f ↦
                  rw (e, AfterRound, f)
                    (after_poll_lem start es revents idxs signalled milliseconds k' inv' fresh)
            ]
      ]

  -- The time that a round with a time-out begins at is read first.
  begun_lem :
      (idxs : List Bool) (signalled milliseconds : ℕ) (k : K)
      → Inv idxs signalled k
      → Inv idxs signalled
          (if not (milliseconds == infinite) then (kernel.clock_gettime k).1 else k)
  begun_lem idxs signalled milliseconds k inv = elim (Bool-cases (milliseconds == infinite)) [
    | inl e ↦ rw e inv
    | inr e ↦ rw e (keep-Inv idxs signalled k (kernel.clock_gettime k).1 (t.clock_keeps k) inv)
  ]

  wait_round_lem :
      (idxs : List Bool) (signalled milliseconds : ℕ) (k : K)
      → Inv idxs signalled k
      → AfterRound (wait_round kernel fuel heap handles true idxs signalled milliseconds k)
  unfolding wait_round
  wait_round_lem idxs signalled milliseconds k inv =
      let zero_more : 0 + length handles ≡ length handles = omega arith in
      let fresh = collect-Collected heap idxs 0 handles in
      let k' : K = if not (milliseconds == infinite) then (kernel.clock_gettime k).1 else k in
      let inv' : Inv idxs signalled k' = begun_lem idxs signalled milliseconds k inv in
      elim (Option-cases (collect heap true idxs 0 handles)) [
        | inl e ↦ rw (e, AfterRound) tt
        | inr (none, e) ↦ rw (e, AfterRound) (λ zero_result. absurd (omega (arith, zero_result)))
        | inr (some es, e) ↦
            rw (e, AfterRound)
              (poll_round_lem (kernel.clock_gettime k).0 es idxs signalled milliseconds k' inv'
                (rw (e, zero_more) at fresh))
      ]

  abbrev AfterLoop : Option (ℕ × K) → Type 0
  AfterLoop none = Unit
  AfterLoop (some (result, k)) = AllTaken result k

  wait_loop_lem :
      (rounds : ℕ) (idxs : List Bool) (signalled milliseconds : ℕ) (k : K)
      → Inv idxs signalled k
      → AfterLoop (wait_loop kernel fuel heap handles true rounds idxs signalled milliseconds k)
  unfolding wait_loop
  wait_loop_lem zero idxs signalled milliseconds k inv = tt
  wait_loop_lem (suc rounds) idxs signalled milliseconds k inv =
      let after = wait_round_lem idxs signalled milliseconds k inv in
      elim (Option-cases (wait_round kernel fuel heap handles true idxs signalled milliseconds k)) [
        | inl e ↦ rw (e, AfterLoop) tt
        | inr ((ends result, k'), e) ↦ rw (e, AfterLoop) (rw e at after)
        | inr ((again idxs' signalled' left, k'), e) ↦
            rw (e, AfterLoop) (wait_loop_lem rounds idxs' signalled' left k' (rw e at after))
      ]

-- The whole call, from the state it begins at.
wait_all_takes :
    {K : Type 0} (kernel : Kernel K) (fuel : ℕ) (heap : Heap) (handles : List ℕ) (place : ℕ)
    (here : place < length handles) (t : Takes kernel heap handles place) (milliseconds : ℕ) (k : K)
    → AfterLoop kernel fuel heap handles place here t k
        (wait_for_multiple_objects kernel fuel heap handles true milliseconds k)
unfolding wait_for_multiple_objects
wait_all_takes kernel fuel heap handles place here t milliseconds k =
    elim (Bool-cases ((length handles == 0) || ltb 64 (length handles))) [
      | inl e ↦ rw (e, AfterLoop) (λ zero_result. absurd (omega (arith, zero_result)))
      | inr e ↦
          rw (e, AfterLoop)
            (wait_loop_lem kernel fuel heap handles place here t k fuel
              (replicate (length handles) false) 0 milliseconds k
              (
                length-replicate (length handles) false,
                (λ j h. absurd (omega (arith, h))),
                rw (get_or-replicate (length handles) place) (omega arith),
              ))
    ]

-- When WaitForMultipleObjects with bWaitAll returns WAIT_OBJECT_0, the object at a place of the
-- list has been taken once and not more often than that, for an object and a kernel with a number
-- that the cleanup at this place raises by one where it succeeds, and that the cleanups at other
-- places, poll and the clock keep, as with the units of a semaphore that stands in the list once.
-- The other objects can be of any kind.
pub wait_all_lem :
    {K : Type 0} (kernel : Kernel K) (fuel : ℕ) (heap : Heap) (handles : List ℕ) (place : ℕ)
    (t : Takes kernel heap handles place) (milliseconds : ℕ) (k k' : K)
    → place < length handles
    → wait_for_multiple_objects kernel fuel heap handles true milliseconds k
      ≡ some (wait_object_0, k')
    → t.taken k' ≡ t.taken k + 1
wait_all_lem kernel fuel heap handles place t milliseconds k k' here result =
    let takes = wait_all_takes kernel fuel heap handles place here t milliseconds k in
    (rw result at takes) refl
