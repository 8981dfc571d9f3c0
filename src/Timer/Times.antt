-- ===== src/Timer/Times.antt =====
-- libuzi/timer.c: the arithmetic on struct timespec, whose fields are not negative here. The
-- difference that timespec_compare returns is an int; only its sign is used, and it is the sign of
-- the whole difference, as times further apart than 2^31 seconds are not considered.
use libuzi.Common.{ℕ, ◌+◌, ◌*◌, ◌/◌, ◌%◌, ◌^◌, ◌<◌, ◌≡◌, ltb, ◌==◌, if◌then◌else◌, arith}

pub record Timespec : Type 0 where
  pub tv_sec : ℕ
  pub tv_nsec : ℕ

-- `(ms * 1000000)` is a product of 32 bits, the sum has 64.
unfoldable pub timespec_add_ms : Timespec → ℕ → Timespec
timespec_add_ms t ms =
    let ns = (t.tv_nsec + ms * 1000000 % 2 ^ 32) % 2 ^ 64 in
    record { tv_sec = t.tv_sec + ns / 1000000000; tv_nsec = ns % 1000000000 }

abbrev pub timespec_to_ms : Timespec → ℕ
timespec_to_ms t = (t.tv_sec * 1000 % 2 ^ 64 + t.tv_nsec / 1000000) % 2 ^ 64

-- timespec_gettimeofday, of the seconds and microseconds that gettimeofday returns
abbrev pub timespec_gettimeofday : (sec usec : ℕ) → Timespec
timespec_gettimeofday sec usec = record { tv_sec = sec; tv_nsec = usec * 1000 }

-- The sign of a number.
pub data Sign : Type 0 where
  negative : Sign
  null : Sign
  positive : Sign

abbrev pub sign_of_difference : ℕ → ℕ → Sign
sign_of_difference a b = if ltb a b then negative else if a == b then null else positive

unfoldable pub timespec_compare : Timespec → Timespec → Sign
timespec_compare a b =
    if a.tv_sec == b.tv_sec
    then sign_of_difference a.tv_nsec b.tv_nsec
    else sign_of_difference a.tv_sec b.tv_sec

-- A time in nanoseconds.
abbrev pub nanoseconds : Timespec → ℕ
nanoseconds t = t.tv_sec * 1000000000 + t.tv_nsec

-- For a time with less than 10^9 nanoseconds, timespec_add_ms gives a time with less than 10^9
-- nanoseconds, later by the milliseconds times 10^6 nanoseconds, taken modulo 2^32.
pub timespec_add_ms_lem :
    (t : Timespec) (ms : ℕ)
    → t.tv_nsec < 1000000000
    → ((timespec_add_ms t ms).tv_nsec < 1000000000)
      × (nanoseconds (timespec_add_ms t ms) ≡ nanoseconds t + ms * 1000000 % 2 ^ 32)
unfolding timespec_add_ms
timespec_add_ms_lem t ms normal =
    let small : ms * 1000000 % 2 ^ 32 < 2 ^ 32 = omega arith in (omega arith, omega arith)

-- For two times with less than 10^9 nanoseconds each, the sign of timespec_compare is that of the
-- difference of the two in nanoseconds.
pub timespec_compare_lem :
    (a b : Timespec)
    → a.tv_nsec < 1000000000
    → b.tv_nsec < 1000000000
    → timespec_compare a b ≡ sign_of_difference (nanoseconds a) (nanoseconds b)
unfolding timespec_compare
timespec_compare_lem a b ha hb = ground arith
