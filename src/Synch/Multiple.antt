-- ===== src/Synch/Multiple.antt =====
-- libuzi/wait.c: WaitForMultipleObjects, in the build with poll. An entry of the poll has the index of
-- its handle, which is poll_map with bWaitAll, and the place of the entry without.
use libuzi.Common.{
  ℕ, zero, suc, ◌+◌, ◌-◌, ◌/◌, ◌%◌, ◌^◌, Bool, true, false, not, ◌&&◌, ◌||◌, Option, none, some,
  List, [], ◌∷◌, ltb, leb, ◌==◌, if◌then◌else◌, bit_and, length, get_or, drop, set_at, replicate,
}
use libuzi.Common.Integers.{ℤ, is_minus_one}
use libuzi.Timer.Times.{Timespec, nanoseconds}
use libuzi.Synch.Kernel.{Kernel, repeat_poll}
use libuzi.Synch.Handles.{
  handle_mode, Heap, refused, found, fault, winpr_handle_get_info, get_fd, cleanup_handle,
  wait_object_0, wait_timeout, wait_failed, infinite,
}
use libuzi.Synch.Wait.{handle_mode_to_pollevent}

pub record Entry : Type 0 where
  pub idx : ℕ
  pub fd : ℤ
  pub events : ℕ

-- ts_difftime: the difference of the times, as the 64 bits that `diff` has
unfoldable pub ts_difftime : (o n : Timespec) → ℕ
ts_difftime o n = (nanoseconds n + (2 ^ 64 - nanoseconds o % 2 ^ 64)) % 2 ^ 64

-- The time-out after a poll that began at `start` and ended at `now`; `none` is WAIT_TIMEOUT.
unfoldable pub time_left : (start now : Timespec) → (milliseconds : ℕ) → Option ℕ
time_left start now milliseconds =
    let diff = ts_difftime now start in
    if ltb milliseconds (diff / 1000) then none else some (milliseconds - diff / 1000)

abbrev pub add_entry : Entry → Option (Option (List Entry)) → Option (Option (List Entry))
add_entry e none = none
add_entry e (some none) = some none
add_entry e (some (some es)) = some (some (e ∷ es))

-- What the loop that marks objects as signalled, and the round around it, end with.
pub data Handled : Type 0 where
  returned : (result : ℕ) → Handled
  handled : (signal_handled : Bool) (signalled_idx : List Bool) (signalled : ℕ) → Handled

pub data Round : Type 0 where
  ends : (result : ℕ) → Round
  again : (signalled_idx : List Bool) (signalled milliseconds : ℕ) → Round

-- The loop `for (; signalled < nCount; signalled++)`, with `left` steps to nCount.
abbrev pub advance : (left : ℕ) → List Bool → (signalled : ℕ) → ℕ
advance zero signalled_idx signalled = signalled
advance (suc left) signalled_idx signalled =
    let rest = advance left signalled_idx (signalled + 1) in
    if get_or signalled_idx signalled false then rest else signalled

-- The first loop over the handles: `none` of the result is a handle that is not valid.
unfoldable pub collect :
    Heap
    → (wait_all : Bool) → List Bool
    → (index : ℕ) → (handles : List ℕ) → Option (Option (List Entry))
collect heap wait_all signalled_idx index [] = some (some [])
collect heap wait_all signalled_idx index (h ∷ handles) =
    let rest = collect heap wait_all signalled_idx (index + 1) handles in
    if wait_all && get_or signalled_idx index false
    then rest
    else elim (winpr_handle_get_info heap h) [
      | refused ↦ some none
      | found object ↦
          if is_minus_one (get_fd h object)
          then some none
          else add_entry
              (record {
                idx = index;
                fd = get_fd h object;
                events = handle_mode_to_pollevent (handle_mode object);
              })
              rest
      | fault ↦ none
    ]

abbrev pub requests : List Entry → List (ℤ × ℕ)
requests [] = []
requests (e ∷ es) = (e.fd, e.events) ∷ requests es

module _ {K : Type 0} (kernel : Kernel K) (fuel : ℕ) (heap : Heap) (handles : List ℕ)
    (wait_all : Bool) where
  -- With bWaitAll the object is marked; the rest of the loop is `go_on`.
  unfoldable pub mark_signal :
      (idx : ℕ)
      → List Bool
      → (signalled : ℕ) → (go_on : List Bool → ℕ → K → Option (Handled × K)) → K
      → Option (Handled × K)
  mark_signal idx signalled_idx signalled go_on k =
      let marked = set_at idx true signalled_idx in
      let signalled' = advance (length handles - signalled) marked signalled in
      elim (leb (length handles) signalled') [
        | true ↦ some (returned wait_object_0, k)
        | false ↦ go_on marked signalled' k
      ]

  -- One signalled object and its cleanup
  unfoldable pub take_signal :
      (idx : ℕ)
      → (cleaned : ℕ × K) → List Bool
      → (signalled : ℕ) → (go_on : List Bool → ℕ → K → Option (Handled × K)) → Option (Handled × K)
  take_signal idx cleaned signalled_idx signalled go_on =
      if not (cleaned.0 == wait_object_0)
      then some (returned cleaned.0, cleaned.1)
      else if wait_all
      then mark_signal idx signalled_idx signalled go_on cleaned.1
      else some (returned (wait_object_0 + idx), cleaned.1)

  -- The second loop, over the entries that were polled.
  unfoldable pub handle_signals :
      List Entry
      → (revents : List ℕ) → (signal_handled : Bool) → List Bool
      → (signalled : ℕ) → K
      → Option (Handled × K)
  handle_signals [] revents signal_handled signalled_idx signalled k =
      some (handled signal_handled signalled_idx signalled, k)
  handle_signals (e ∷ es) revents signal_handled signalled_idx signalled k =
      let h = get_or handles e.idx 0 in
      elim (winpr_handle_get_info heap h) [
        | refused ↦ some (returned wait_failed, k)
        | found object ↦ elim (is_minus_one (get_fd h object)) [
          | true ↦ some (returned wait_failed, k)
          | false ↦ elim (bit_and (get_or revents 0 0) e.events == 0) [
            | true ↦ handle_signals es (drop 1 revents) signal_handled signalled_idx signalled k
            | false ↦
                take_signal e.idx (cleanup_handle kernel h object k) signalled_idx signalled
                  (handle_signals es (drop 1 revents) true)
          ]
        ]
        | fault ↦ none
      ]

  abbrev pub continue_loop : (milliseconds : ℕ) → Option (Handled × K) → Option (Round × K)
  continue_loop milliseconds none = none
  continue_loop milliseconds (some (returned result, k)) = some (ends result, k)
  continue_loop milliseconds (some (handled signal_handled signalled_idx signalled, k)) =
      if wait_all || not signal_handled
      then some (again signalled_idx signalled milliseconds, k)
      else some (ends wait_failed, k)

  -- What follows a poll that has found events.
  unfoldable pub after_poll :
      (start : Timespec)
      → List Entry
      → (revents : List ℕ) → List Bool
      → (signalled milliseconds : ℕ) → K
      → Option (Round × K)
  after_poll start es revents signalled_idx signalled milliseconds k =
      if wait_all && not (milliseconds == infinite)
      then elim (time_left start (kernel.clock_gettime k).0 milliseconds) [
        | none ↦ some (ends wait_timeout, (kernel.clock_gettime k).1)
        | some left ↦
            continue_loop left
              (handle_signals es revents false signalled_idx signalled (kernel.clock_gettime k).1)
      ]
      else continue_loop milliseconds (handle_signals es revents false signalled_idx signalled k)

  -- One round of the loop, from a poll of the entries on.
  unfoldable pub poll_round :
      (start : Timespec)
      → List Entry
      → List Bool
      → (signalled milliseconds : ℕ) → K
      → Option (Round × K)
  poll_round start es signalled_idx signalled milliseconds k =
      elim (repeat_poll fuel (kernel.poll (requests es) milliseconds) k) [
        | none ↦ none
        | some (none, k') ↦ some (ends wait_failed, k')
        | some (some (status, revents), k') ↦
            if status == 0
            then some (ends wait_timeout, k')
            else after_poll start es revents signalled_idx signalled milliseconds k'
      ]

  unfoldable pub wait_round : List Bool → (signalled milliseconds : ℕ) → K → Option (Round × K)
  wait_round signalled_idx signalled milliseconds k =
      let timed = wait_all && not (milliseconds == infinite) in
      let start = (kernel.clock_gettime k).0 in
      let k' = if timed then (kernel.clock_gettime k).1 else k in
      elim (collect heap wait_all signalled_idx 0 handles) [
        | none ↦ none
        | some none ↦ some (ends wait_failed, k')
        | some (some es) ↦ poll_round start es signalled_idx signalled milliseconds k'
      ]

  unfoldable pub wait_loop :
      (rounds : ℕ) → List Bool → (signalled milliseconds : ℕ) → K → Option (ℕ × K)
  wait_loop zero signalled_idx signalled milliseconds k = none
  wait_loop (suc rounds) signalled_idx signalled milliseconds k =
      elim (wait_round signalled_idx signalled milliseconds k) [
        | none ↦ none
        | some (ends result, k') ↦ some (result, k')
        | some (again idx' signalled' left, k') ↦ wait_loop rounds idx' signalled' left k'
      ]

  -- WaitForMultipleObjects
  unfoldable pub wait_for_multiple_objects : (milliseconds : ℕ) → K → Option (ℕ × K)
  wait_for_multiple_objects milliseconds k =
      if (length handles == 0) || ltb 64 (length handles)
      then some (wait_failed, k)
      else wait_loop fuel (replicate (length handles) false) 0 milliseconds k
