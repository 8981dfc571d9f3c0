-- ===== src/Barrier/Elsewhere.antt =====
-- libuzi/barrier.c: what a thread does not notice of the steps of the others.
use libuzi.Common.{ℕ, ◌+◌, ◌≤◌, ◌≡◌, ◌≢◌, ◌⊎◌, inl, inr, refl, arith}
use libuzi.Barrier.Defs.{
  Shared, Place, idle, reading_current, reading_dormant, decrementing, spinning, waiting, resetting,
  reloading, switching_dormant, switching_current, setting, Worker, worker,
}
use libuzi.Barrier.Invariant.{ahead, lead, signals, Local}

pub ahead_or_signals : (round : ℕ) (w : Worker) → ahead round w + signals w ≤ 1
ahead_or_signals round w = ground arith

pub ahead-small : (round : ℕ) (w : Worker) → ahead round w ≤ 1
ahead-small round w = ground arith

-- A thread does not notice what the others do, except for the switch.
pub Local-elsewhere :
    (s s' : Shared) (round n t : ℕ) (p : Place)
    → (s'.barrier.current ≡ s.barrier.current)
    → (s'.barrier.total_threads ≡ s.barrier.total_threads)
    → ((lead (worker n t p) ≡ 0) × (ahead round (worker n t p) ≡ 1))
      ⊎ ((lead (worker n t p) ≡ 0) × (s'.barrier.dormant ≡ s.barrier.dormant))
      ⊎ ((s'.barrier.dormant ≡ s.barrier.dormant)
          × (s'.barrier.remaining ≡ s.barrier.remaining)
          × (s'.first ≡ s.first)
          × (s'.second ≡ s.second))
    → Local s round (worker n t p)
    → Local s' round (worker n t p)
Local-elsewhere s s' round n t idle c e quiet loc = ground arith
Local-elsewhere s s' round n t (reading_current flags) c e quiet loc = ground arith
Local-elsewhere s s' round n t (reading_dormant flags current) c e quiet loc = ground arith
Local-elsewhere s s' round n t (decrementing flags current dormant) c e quiet loc = ground arith
Local-elsewhere s s' round n t (spinning flags current spins) c e quiet loc = ground arith
Local-elsewhere s s' round n t (waiting current) c e quiet loc = ground arith
Local-elsewhere s s' round n t (resetting current dormant) c e quiet loc = ground arith
Local-elsewhere s s' round n t (reloading current dormant) c e quiet loc = ground arith
Local-elsewhere s s' round n t (switching_dormant current dormant) c e quiet loc = ground arith
Local-elsewhere s s' round n t (switching_current current dormant) c e quiet loc = ground arith
Local-elsewhere s s' round n t (setting current) c e quiet loc = ground arith

-- A thread that is ahead and does not lead is in the round before after the switch.
pub Local-switched :
    (s : Shared) (round dormant n t : ℕ) (p : Place)
    → s.barrier.current + dormant ≡ 3
    → ahead round (worker n t p) ≡ 1
    → lead (worker n t p) ≡ 0
    → Local s round (worker n t p)
    → Local
        (record s { barrier = record s.barrier { current = dormant } })
        (round + 1)
        (worker n t p)
Local-switched s round dormant n t idle e a l loc = ground arith
Local-switched s round dormant n t (reading_current flags) e a l loc = ground arith
Local-switched s round dormant n t (reading_dormant flags current) e a l loc = ground arith
Local-switched s round dormant n t (decrementing flags current dorm) e a l loc = ground arith
Local-switched s round dormant n t (spinning flags current spins) e a l loc = ground arith
Local-switched s round dormant n t (waiting current) e a l loc = ground arith
Local-switched s round dormant n t (resetting current dorm) e a l loc = ground arith
Local-switched s round dormant n t (reloading current dorm) e a l loc = ground arith
Local-switched s round dormant n t (switching_dormant current dorm) e a l loc = ground arith
Local-switched s round dormant n t (switching_current current dorm) e a l loc = ground arith
Local-switched s round dormant n t (setting current) e a l loc = ground arith

-- Who is ahead in a round is not ahead in the next one.
pub ahead-behind :
    (round n t : ℕ) (p : Place)
    → ahead round (worker n t p) ≡ 1
    → ahead (round + 1) (worker n t p) ≡ 0
ahead-behind round n t p a = ground arith

pub Place-cases :
    (p : Place)
    → ((c d : ℕ) → p ≢ switching_current c d) ⊎ ((c d : ℕ) × (p ≡ switching_current c d))
Place-cases idle = inl (λ c d e. cc e)
Place-cases (reading_current flags) = inl (λ c d e. cc e)
Place-cases (reading_dormant flags current) = inl (λ c d e. cc e)
Place-cases (decrementing flags current dormant) = inl (λ c d e. cc e)
Place-cases (spinning flags current spins) = inl (λ c d e. cc e)
Place-cases (waiting current) = inl (λ c d e. cc e)
Place-cases (resetting current dormant) = inl (λ c d e. cc e)
Place-cases (reloading current dormant) = inl (λ c d e. cc e)
Place-cases (switching_dormant current dormant) = inl (λ c d e. cc e)
Place-cases (switching_current current dormant) = inr (current, dormant, refl)
Place-cases (setting current) = inl (λ c d e. cc e)
