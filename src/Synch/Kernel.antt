-- ===== src/Synch/Kernel.antt =====
-- The calls of the operating system that libuzi/event.c, semaphore.c, mutex.c, wait.c and timer.c
-- make, on a state of the kernel that is a parameter, and the loops that repeat a call on EINTR.
use libuzi.Common.{ℕ, zero, suc, Bool, true, false, Option, none, some, List}
use libuzi.Common.Integers.{ℤ}
use libuzi.Timer.Times.{Timespec}

-- How a read or write of an eventfd ends: with no error, with EINTR, or with another error.
pub data Io : Type 0 where
  done : Io
  interrupted : Io
  failed : Io

-- How poll ends: with EINTR, another error, or the number of descriptors that have an event and the
-- events of each.
pub data Polled : Type 0 where
  poll_interrupted : Polled
  poll_failed : Polled
  polled : (status : ℕ) (revents : List ℕ) → Polled

-- How pthread_mutex_timedlock ends: with 0, ETIMEDOUT, or another error.
pub data Locked : Type 0 where
  locked : Locked
  lock_timed_out : Locked
  lock_failed : Locked

-- How the read of a timerfd ends: with 8 bytes, ETIMEDOUT, or another error or length.
pub data Expirations : Type 0 where
  expired : Expirations
  read_timed_out : Expirations
  read_failed : Expirations

pub record Kernel (K : Type 0) : Type 0 where
  -- a negative descriptor is an error
  pub eventfd : K → ℤ × K
  pub eventfd_write : ℤ → K → Io × K
  pub eventfd_read : ℤ → K → Io × K
  -- the read end and the write end, and one byte to and from a pipe
  pub pipe : K → Option (ℤ × ℤ) × K
  pub write_byte : ℤ → K → Bool × K
  pub read_byte : ℤ → K → Bool × K
  pub read_expirations : ℤ → K → Expirations × K
  pub close : ℤ → K → K
  -- the descriptors with the events asked for, and the time-out in milliseconds
  pub poll : List (ℤ × ℕ) → ℕ → K → Polled × K
  pub clock_gettime : K → Timespec × K
  -- a recursive pthread mutex: creation, and whether the calls return 0
  pub mutex_init : K → ℕ × K
  pub mutex_destroy : ℕ → K → Bool × K
  pub mutex_lock : ℕ → K → Bool × K
  pub mutex_timedlock : ℕ → Timespec → K → Locked × K
  pub mutex_unlock : ℕ → K → Bool × K

module _ {K : Type 0} where
  -- A read or write of an eventfd, again as long as it is interrupted; whether it succeeds.
  unfoldable pub repeat_io : (fuel : ℕ) → (K → Io × K) → K → Option (Bool × K)
  repeat_io zero call k = none
  repeat_io (suc fuel) call k = elim (call k).0 [
    | done ↦ some (true, (call k).1)
    | interrupted ↦ repeat_io fuel call (call k).1
    | failed ↦ some (false, (call k).1)
  ]

  -- poll, again as long as it is interrupted: `none` of the result is an error.
  unfoldable pub repeat_poll : (fuel : ℕ) → (K → Polled × K) → K → Option (Option (ℕ × List ℕ) × K)
  repeat_poll zero call k = none
  repeat_poll (suc fuel) call k = elim (call k).0 [
    | poll_interrupted ↦ repeat_poll fuel call (call k).1
    | poll_failed ↦ some (none, (call k).1)
    | polled status revents ↦ some (some (status, revents), (call k).1)
  ]
