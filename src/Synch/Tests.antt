-- ===== src/Synch/Tests.antt =====
-- Kernels that keep the laws, runs of the objects over them, and the theorems at these.
use libuzi.Common.{
  ℕ, zero, suc, ◌+◌, ◌-◌, ◌<◌, ◌≡◌, ◌≢◌, inl, inr, refl, Bool, true, false, not, none, some, List,
  [], ◌∷◌, ltb, ◌==◌, if◌then◌else◌, Bool-cases, get_or, arith,
}
use libuzi.Common.Integers.{ℤ, pos, negsuc}
use libuzi.Timer.Times.{Timespec}
use libuzi.Synch.Kernel.{done, failed, polled, locked, expired, Kernel, repeat_poll}
use libuzi.Synch.Handles.{
  Object, event, semaphore, Heap, found, winpr_handle_get_info, get_fd, cleanup_handle,
  semaphore_cleanup_handle, wait_object_0, infinite,
}
use libuzi.Synch.Wait.{handle_mode_to_pollevent}
use libuzi.Synch.Signals.{
  full, EventFd, set, reset, wait, after_call, result_of, perform, event_lem,
}
use libuzi.Synch.Tokens.{
  room, Pipe, release, acquire, units_after, unit_result, call_semaphore, semaphore_lem,
}
use libuzi.Synch.Runs.{perform_all, specified}
use libuzi.Synch.Multiple.{
  collect, mark_signal, take_signal, handle_signals, after_poll, poll_round, wait_round, wait_loop,
  wait_for_multiple_objects,
}
use libuzi.Synch.WaitAll.{Takes, wait_all_lem}

-- A kernel with one counter behind all descriptors.
abbrev number : ℕ → ℕ
number k = if k == 0 then 0 else 1

abbrev counting : Kernel ℕ
counting = record {
  eventfd = λ k. (pos 3, 0);
  eventfd_write = λ fd k. if ltb k full then (done, k + 1) else (failed, k);
  eventfd_read = λ fd k. if ltb 0 k then (done, 0) else (failed, k);
  pipe = λ k. (some (pos 3, pos 4), 0);
  write_byte = λ fd k. if ltb k room then (true, k + 1) else (false, k);
  read_byte = λ fd k. if ltb 0 k then (true, k - 1) else (false, k);
  read_expirations = λ fd k. (expired, k);
  close = λ fd k. k;
  poll = λ fds timeout k. (polled (number k) (number k ∷ []), k);
  clock_gettime = λ k. (record { tv_sec = 0; tv_nsec = 0 }, k);
  mutex_init = λ k. (7, k);
  mutex_destroy = λ m k. (true, k);
  mutex_lock = λ m k. (true, k);
  mutex_timedlock = λ m t k. (locked, k);
  mutex_unlock = λ m k. (true, k);
}

counting-EventFd : EventFd counting (pos 3)
counting-EventFd = record {
  counter = λ k. k;
  patience = λ k. 0;
  valid = refl;
  writes =
      λ k. elim (Bool-cases (ltb k full)) [ inl e ↦ rw e (refl, omega arith) | inr e ↦ rw e e ];
  reads = λ k. elim (Bool-cases (ltb 0 k)) [ inl e ↦ rw e (refl, omega arith) | inr e ↦ rw e e ];
  polls = λ timeout k answers. (refl, omega arith, refl);
}

counting-Pipe : Pipe counting (pos 3) (pos 4)
counting-Pipe = record {
  bytes = λ k. k;
  patience = λ k. 0;
  valid = refl;
  writes = λ k free.
      let some_room : ltb k room ≡ true = ground arith in rw some_room (refl, refl, omega arith);
  reads = λ k some_bytes.
      let some_left : ltb 0 k ≡ true = ground arith in rw some_left (refl, refl, omega arith);
  polls = λ timeout k answers. (refl, omega arith, refl);
}

abbrev event_heap : Heap
event_heap a = if a == 16 then some (event 1 (pos 3) (negsuc 0) false true) else none

abbrev semaphore_heap : Heap
semaphore_heap a = if a == 16 then some (semaphore 1 (pos 3) (pos 4)) else none

event_lem_example :
    perform_all (perform counting 2 event_heap 16) (set ∷ wait infinite ∷ reset ∷ wait 5 ∷ []) 0
    ≡ some
        (specified after_call result_of (set ∷ wait infinite ∷ reset ∷ wait 5 ∷ []) (not (0 == 0)))
unfolding counting-EventFd
event_lem_example =
    event_lem counting (pos 3) counting-EventFd 2 event_heap 16 (negsuc 0) false true refl refl
      (set ∷ wait infinite ∷ reset ∷ wait 5 ∷ []) 0 (omega arith) (omega arith) (omega arith)
      (tt, (inl refl, (tt, (inr (omega arith), tt))))

semaphore_lem_example :
    perform_all
      (call_semaphore counting 1 semaphore_heap 16)
      (release (pos 2) ∷ acquire infinite ∷ acquire 0 ∷ acquire 0 ∷ [])
      0
    ≡ some (
        specified units_after unit_result
          (release (pos 2) ∷ acquire infinite ∷ acquire 0 ∷ acquire 0 ∷ [])
          0)
unfolding counting-Pipe
semaphore_lem_example =
    semaphore_lem counting (pos 3) (pos 4) counting-Pipe 1 semaphore_heap 16 refl refl
      (release (pos 2) ∷ acquire infinite ∷ acquire 0 ∷ acquire 0 ∷ []) 0 (omega arith)
      (omega arith) (tt, (inl (omega arith), (inr (omega arith), (inr (omega arith), tt))))

abbrev time : ℕ → ℕ → Timespec
time s n = record { tv_sec = s; tv_nsec = n }

-- A kernel that counts the bytes read from each descriptor, of which all always have some.
abbrev Reads : Type 0
Reads = ℕ → ℕ

abbrev read_once : ℤ → Reads → Bool × Reads
read_once (pos n) k = (true, (λ m. if m == n then k m + 1 else k m))
read_once (negsuc n) k = (false, k)

abbrev generous : Kernel Reads
generous = record {
  eventfd = λ k. (pos 3, k);
  eventfd_write = λ fd k. (done, k);
  eventfd_read = λ fd k. (done, k);
  pipe = λ k. (none, k);
  write_byte = λ fd k. (true, k);
  read_byte = read_once;
  read_expirations = λ fd k. (expired, k);
  close = λ fd k. k;
  poll = λ fds timeout k. (polled 3 (1 ∷ 1 ∷ 1 ∷ []), k);
  clock_gettime = λ k. (record { tv_sec = 0; tv_nsec = 0 }, k);
  mutex_init = λ k. (7, k);
  mutex_destroy = λ m k. (true, k);
  mutex_lock = λ m k. (true, k);
  mutex_timedlock = λ m t k. (locked, k);
  mutex_unlock = λ m k. (true, k);
}

abbrev three_objects : Heap
three_objects a =
    if a == 16
    then some (semaphore 1 (pos 3) (pos 4))
    else if a == 32
    then some (semaphore 1 (pos 5) (pos 6))
    else if a == 48
    then some (event 1 (pos 7) (negsuc 0) false true)
    else none

abbrev three_handles : List ℕ
three_handles = 48 ∷ 16 ∷ 32 ∷ []

abbrev reads_of_last : Reads → ℕ
reads_of_last k = k 5

takes_last :
    (object : Object) (k : Reads)
    → winpr_handle_get_info three_objects 32 ≡ found object
    → (cleanup_handle generous 32 object k).0 ≡ wait_object_0
    → reads_of_last (cleanup_handle generous 32 object k).1 ≡ reads_of_last k + 1
unfolding winpr_handle_get_info cleanup_handle semaphore_cleanup_handle
takes_last object k info ok =
    let is_this : semaphore 1 (pos 5) (pos 6) ≡ object = cc info in rw (← is_this) refl

keeps_last :
    (i : ℕ) (object : Object) (k : Reads)
    → i < 3
    → i ≢ 2
    → winpr_handle_get_info three_objects (get_or three_handles i 0) ≡ found object
    → reads_of_last (cleanup_handle generous (get_or three_handles i 0) object k).1
      ≡ reads_of_last k
unfolding winpr_handle_get_info cleanup_handle semaphore_cleanup_handle
keeps_last zero object k small apart info =
    let is_this : event 1 (pos 7) (negsuc 0) false true ≡ object = cc info in rw (← is_this) refl
keeps_last (suc zero) object k small apart info =
    let is_this : semaphore 1 (pos 3) (pos 4) ≡ object = cc info in rw (← is_this) refl
keeps_last (suc (suc zero)) object k small apart info = absurd (apart refl)
keeps_last (suc (suc (suc i))) object k small apart info = absurd (omega arith)

generous-Takes : Takes generous three_objects three_handles 2
generous-Takes = record {
  taken = reads_of_last;
  cleanup_takes = takes_last;
  cleanup_keeps = keeps_last;
  poll_keeps = λ fds timeout k. refl;
  clock_keeps = λ k. refl;
}

abbrev nothing_read : Reads
nothing_read m = 0

abbrev both_read : Reads
both_read = (read_once (pos 5) (read_once (pos 3) nothing_read).1).1

wait_all_run :
    wait_for_multiple_objects generous 1 three_objects three_handles true infinite nothing_read
    ≡ some (wait_object_0, both_read)
unfolding wait_for_multiple_objects wait_loop wait_round poll_round after_poll handle_signals
    take_signal mark_signal collect winpr_handle_get_info get_fd cleanup_handle
    semaphore_cleanup_handle repeat_poll handle_mode_to_pollevent
wait_all_run = refl

wait_all_lem_example : reads_of_last both_read ≡ reads_of_last nothing_read + 1
unfolding generous-Takes
wait_all_lem_example =
    wait_all_lem generous 1 three_objects three_handles 2 generous-Takes infinite nothing_read
      both_read (omega arith) wait_all_run
