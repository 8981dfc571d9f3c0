-- ===== src/Synch/Repeat.antt =====
-- The loops on EINTR of libuzi/event.c and wait.c, over a kernel that interrupts a call a bounded
-- number of times.
use libuzi.Common.{
  ℕ, zero, suc, ◌^◌, ◌≤◌, ◌<◌, ◌≡◌, ◌⊎◌, inl, inr, refl, Bool, true, false, Option, some, List,
  ◌==◌, if◌then◌else◌, arith,
}
use libuzi.Synch.Kernel.{
  Io, done, interrupted, failed, Polled, poll_interrupted, poll_failed, polled, repeat_io,
  repeat_poll,
}

-- What the kernel documents of a call on a counter: `effect` when it is done, which it is in the end
-- if the counter has `room`, and no effect of an interruption. `p` bounds the interruptions left.
abbrev pub IoLaw : (effect : ℕ → ℕ) (room : ℕ → Bool) → Io → (c c' p p' : ℕ) → Type 0
IoLaw effect room done c c' p p' = (c' ≡ effect c) × (p' ≤ p)
IoLaw effect room interrupted c c' p p' = (c' ≡ c) × (p' < p)
IoLaw effect room failed c c' p p' = room c ≡ false

-- Whether a poll on one descriptor comes to an end if it is not interrupted: the descriptor has an
-- event if the counter is positive, and a time-out from 2^31 on is a negative int, which has no end.
abbrev pub Answers : (timeout c : ℕ) → Type 0
Answers timeout c = (0 < c) ⊎ (timeout < 2 ^ 31)

-- Of such a poll: without an event it returns 0 when the time is over.
abbrev pub PollLaw : Polled → (c c' p p' : ℕ) → Type 0
PollLaw poll_interrupted c c' p p' = (c' ≡ c) × (p' < p)
PollLaw poll_failed c c' p p' = 0 < 0
PollLaw (polled status revents) c c' p p' =
    (c' ≡ c) × (p' ≤ p) × (status ≡ (if c == 0 then 0 else 1))

Io-cases : (io : Io) → (io ≡ done) ⊎ (io ≡ interrupted) ⊎ (io ≡ failed)
Io-cases done = inl refl
Io-cases interrupted = inr (inl refl)
Io-cases failed = inr (inr refl)

pub Polled-cases :
    (r : Polled)
    → (r ≡ poll_interrupted)
      ⊎ (r ≡ poll_failed)
      ⊎ ((status : ℕ) × (revents : List ℕ) × (r ≡ polled status revents))
Polled-cases poll_interrupted = inl refl
Polled-cases poll_failed = inr (inl refl)
Polled-cases (polled status revents) = inr (inr (status, revents, refl))

module _ {K : Type 0} (counter patience : K → ℕ) where
  -- How a repeated call ends.
  abbrev pub Ended : {R : Type 0} → Option (R × K) → R → (c : ℕ) → K → Type 0
  Ended {R} result value c k =
      (k' : K) × (result ≡ some (value, k')) × (counter k' ≡ c) × (patience k' ≤ patience k)

  pub repeat_io_lem :
      (call : K → Io × K) (effect : ℕ → ℕ) (room : ℕ → Bool)
      → ((k : K)
          → IoLaw effect room
              (call k).0
              (counter k)
              (counter (call k).1)
              (patience k)
              (patience (call k).1))
      → (fuel : ℕ) (k : K) → patience k < fuel
      → room (counter k) ≡ true
      → Ended (repeat_io fuel call k) true (effect (counter k)) k
  unfolding repeat_io
  repeat_io_lem call effect room law zero k enough free = absurd (omega arith)
  repeat_io_lem call effect room law (suc fuel) k enough free = elim (Io-cases (call k).0) [
    | inl e ↦ let (c, p) = rw e at (law k) in ((call k).1, rw (e, repeat_io) refl, c, p)
    | inr (inl e) ↦
        let (c, p) = rw e at (law k) in
        let (k', result, c', p') =
          repeat_io_lem call effect room law fuel (call k).1 (omega (arith, p, enough))
            (rw c free) in
        (k', rw (e, repeat_io) result, rw (← c) c', omega (arith, p, p'))
    | inr (inr e) ↦ let full = rw e at (law k) in absurd (cc (free, full))
  ]

  pub repeat_poll_lem :
      (timeout : ℕ) (call : K → Polled × K)
      → ((k : K)
          → Answers timeout (counter k)
          → PollLaw (call k).0 (counter k) (counter (call k).1) (patience k) (patience (call k).1))
      → (fuel : ℕ) (k : K) → patience k < fuel
      → Answers timeout (counter k)
      → (revents : List ℕ) × Ended
          (repeat_poll fuel call k)
          (some ((if counter k == 0 then 0 else 1), revents))
          (counter k)
          k
  unfolding repeat_poll
  repeat_poll_lem timeout call law zero k enough answers = absurd (omega arith)
  repeat_poll_lem timeout call law (suc fuel) k enough answers = elim (Polled-cases (call k).0) [
    | inl e ↦
        let (c, p) = rw e at (law k answers) in
        let (revents, (k', result, c', p')) =
          repeat_poll_lem timeout call law fuel (call k).1 (omega (arith, p, enough))
            (rw c answers) in
        (revents, (k', rw (e, repeat_poll) (rw c at result), rw (← c) c', omega (arith, p, p')))
    | inr (inl e) ↦ let never = rw e at (law k answers) in absurd (omega (arith, never))
    | inr (inr (status, revents, e)) ↦
        let (c, p, s) = rw e at (law k answers) in
        (revents, ((call k).1, rw (e, repeat_poll, s) refl, c, p))
  ]
