-- ===== src/Barrier/Invariant.antt =====
-- What every step of libuzi/barrier.c keeps. The round is the number of times that the events were
-- switched; each thread is before or behind the decrement of the round, or has yet to return from
-- the one before.
use libuzi.Common.{
  ℕ, ◌+◌, ◌-◌, ◌≤◌, ◌<◌, ◌≡◌, ◌≢◌, ◌⊎◌, inl, inr, refl, true, false, Option, none, some, ltb, ◌==◌,
  if◌then◌else◌, Bool-cases, arith,
}
use libuzi.Barrier.Defs.{
  Shared, signalled, spin_only, spins_first, Place, idle, reading_current, reading_dormant,
  decrementing, spinning, waiting, resetting, reloading, switching_dormant, switching_current,
  setting, Worker, step,
}

-- 1 for a thread that is behind the decrement of the round.
abbrev pub ahead : ℕ → Worker → ℕ
ahead round w = elim w.place [
  | idle ↦ 0
  | reading_current flags ↦ 0
  | reading_dormant flags current ↦ 0
  | decrementing flags current dormant ↦ 0
  | setting current ↦ 0
  | _ ↦ if w.returned == round then 1 else 0
]

-- 1 for the thread that is switching the events.
abbrev pub lead : Worker → ℕ
lead w = elim w.place [
  | resetting current dormant ↦ 1
  | reloading current dormant ↦ 1
  | switching_dormant current dormant ↦ 1
  | switching_current current dormant ↦ 1
  | _ ↦ 0
]

-- 1 for the thread that is about to signal the event of the round before.
abbrev pub signals : Worker → ℕ
signals w = elim w.place [ setting current ↦ 1 | _ ↦ 0 ]

abbrev Switching : Shared → (round returned current dormant remaining : ℕ) → Type 0
Switching s round returned current dormant remaining =
    (returned ≡ round)
    × (current ≡ s.barrier.current)
    × (dormant ≡ s.barrier.dormant)
    × (current + dormant ≡ 3)
    × (s.barrier.remaining ≡ remaining)

-- The thread has read the event of the round, or that of the round before.
abbrev Entered : Shared → (round returned current : ℕ) → Type 0
Entered s round returned current =
    ((returned ≡ round) × (current ≡ s.barrier.current))
    ⊎ ((returned + 1 ≡ round) × (current + s.barrier.current ≡ 3))

-- What holds of one thread.
abbrev pub Local : Shared → (round : ℕ) → Worker → Type 0
Local s round w = elim w.place [
  | idle ↦ w.returned ≡ round
  | reading_current flags ↦ w.returned ≡ round
  | reading_dormant flags current ↦ (w.returned ≡ round) × (current ≡ s.barrier.current)
  | decrementing flags current dormant ↦
      (w.returned ≡ round) × (current ≡ s.barrier.current) × (dormant ≡ s.barrier.dormant)
  | spinning flags current spins ↦ Entered s round w.returned current
  | waiting current ↦ Entered s round w.returned current
  | resetting current dormant ↦ Switching s round w.returned current dormant 0
  | reloading current dormant ↦
      Switching s round w.returned current dormant 0 × (signalled dormant s ≡ false)
  | switching_dormant current dormant ↦
      Switching s round w.returned current dormant s.barrier.total_threads
      × (signalled dormant s ≡ false)
  | switching_current current dormant ↦
      (w.returned ≡ round)
      × (current ≡ s.barrier.current)
      × (current ≡ s.barrier.dormant)
      × (current + dormant ≡ 3)
      × (s.barrier.remaining ≡ s.barrier.total_threads)
      × (signalled dormant s ≡ false)
  | setting current ↦ (w.returned + 1 ≡ round) × (current + s.barrier.current ≡ 3)
]

-- The event of the round before is signalled, or about to be.
abbrev pub Released : Shared → (round setters : ℕ) → Type 0
Released s round setters =
    ((round ≡ 0) × (setters ≡ 0))
    ⊎ ((0 < round) × (setters ≡ 1))
    ⊎ ((0 < round) × (setters ≡ 0) × (signalled (3 - s.barrier.current) s ≡ true))

-- What holds of the fields and the numbers of threads that are ahead, lead, or are about to signal,
-- and the number of calls that returned TRUE.
abbrev pub Counts : Shared → (round aheads leads setters trues : ℕ) → Type 0
Counts s round aheads leads setters trues =
    (trues + setters ≡ round)
    × (0 < s.barrier.current)
    × (s.barrier.current < 3)
    × (signalled s.barrier.current s ≡ false)
    × (((leads ≡ 0)
          × (0 < s.barrier.remaining)
          × (s.barrier.remaining + aheads ≡ s.barrier.total_threads)
          × (s.barrier.current + s.barrier.dormant ≡ 3)
          × Released s round setters)
        ⊎ ((leads ≡ 1) × (aheads ≡ s.barrier.total_threads)))

-- What the other threads can notice of a step.
abbrev pub Quiet : (leads : ℕ) → Shared → Shared → Worker → Type 0
Quiet leads s s' w =
    (s'.barrier.current ≡ s.barrier.current)
    × (s'.barrier.total_threads ≡ s.barrier.total_threads)
    × ((lead w ≡ 1)
        ⊎ ((s'.barrier.dormant ≡ s.barrier.dormant) × (leads ≡ 0))
        ⊎ ((s'.barrier.dormant ≡ s.barrier.dormant)
            × (s'.barrier.remaining ≡ s.barrier.remaining)
            × (s'.first ≡ s.first)
            × (s'.second ≡ s.second)))

-- The parameters are the numbers of the other threads.
module _ (round aheads leads setters trues : ℕ) (next : ℕ) (s : Shared) (w : Worker)
    (room : aheads + setters + 1 ≤ s.barrier.total_threads) where
  abbrev at : Place → Worker
  at p = record w { place = p }

  abbrev pub CountsWith : Shared → Worker → Type 0
  CountsWith s' w' =
      Counts s' round (aheads + ahead round w') (leads + lead w') (setters + signals w')
        (trues + w'.trues)

  abbrev pub Moved : Worker → Shared → Worker → Type 0
  Moved v s' w' = Local s' round w' × CountsWith s' w' × Quiet leads s s' v

  abbrev pub After : Worker → Option (Shared × Worker) → Type 0
  After v none = Unit
  After v (some (s', w')) = Moved v s' w'

  abbrev pub Keeps : Place → Type 0
  Keeps p = Local s round (at p) → CountsWith s (at p) → After (at p) (step next s (at p))

  from_idle : Keeps idle
  unfolding step
  from_idle loc counts = ground arith

  from_reading_current : (flags : ℕ) → Keeps (reading_current flags)
  unfolding step
  from_reading_current flags loc counts = ground arith

  from_reading_dormant : (flags current : ℕ) → Keeps (reading_dormant flags current)
  unfolding step
  from_reading_dormant flags current loc counts = ground arith

  from_decrementing : (flags current dormant : ℕ) → Keeps (decrementing flags current dormant)
  unfolding step
  from_decrementing flags current dormant loc counts =
      let left = s.barrier.remaining - 1 in
      elim (Bool-cases (ltb 0 left)) [
        | inl e ↦ elim (Bool-cases (spins_first flags left s.barrier.processors)) [
          | inl f ↦ rw (e, f) (ground arith)
          | inr f ↦ rw (e, f) (ground arith)
        ]
        | inr e ↦ rw e (ground arith)
      ]

  from_spinning : (flags current spins : ℕ) → Keeps (spinning flags current spins)
  unfolding step
  from_spinning flags current spins loc counts = elim (Bool-cases (s.barrier.current == current)) [
    | inl e ↦ elim (Bool-cases (spin_only flags)) [
      | inl f ↦ rw (e, f) (ground arith)
      | inr f ↦ elim (Bool-cases (ltb s.barrier.spin_count (spins + 1))) [
        | inl g ↦ rw (e, f, g) (ground arith)
        | inr g ↦ rw (e, f, g) (ground arith)
      ]
    ]
    | inr e ↦ rw e (ground arith)
  ]

  from_waiting : (current : ℕ) → Keeps (waiting current)
  unfolding step
  from_waiting current loc counts = elim (Bool-cases (signalled current s)) [
    | inl e ↦ rw e (ground arith)
    | inr e ↦ rw e tt
  ]

  from_resetting : (current dormant : ℕ) → Keeps (resetting current dormant)
  unfolding step
  from_resetting current dormant loc counts = elim (Bool-cases (dormant == 1)) [
    | inl e ↦ rw e (ground arith)
    | inr e ↦ rw e (ground arith)
  ]

  from_reloading : (current dormant : ℕ) → Keeps (reloading current dormant)
  unfolding step
  from_reloading current dormant loc counts = ground arith

  from_switching_dormant : (current dormant : ℕ) → Keeps (switching_dormant current dormant)
  unfolding step
  from_switching_dormant current dormant loc counts = ground arith

  from_setting : (current : ℕ) → Keeps (setting current)
  unfolding step
  from_setting current loc counts = elim (Bool-cases (current == 1)) [
    | inl e ↦ rw e (ground arith)
    | inr e ↦ rw e (ground arith)
  ]

  -- One step of a thread, wherever it is, except for the switch of the events.
  pub step_moves : (p : Place) → ((c d : ℕ) → p ≢ switching_current c d) → Keeps p
  step_moves idle apart = from_idle
  step_moves (reading_current flags) apart = from_reading_current flags
  step_moves (reading_dormant flags current) apart = from_reading_dormant flags current
  step_moves (decrementing flags current dormant) apart = from_decrementing flags current dormant
  step_moves (spinning flags current spins) apart = from_spinning flags current spins
  step_moves (waiting current) apart = from_waiting current
  step_moves (resetting current dormant) apart = from_resetting current dormant
  step_moves (reloading current dormant) apart = from_reloading current dormant
  step_moves (switching_dormant current dormant) apart = from_switching_dormant current dormant
  step_moves (switching_current current dormant) apart = absurd (apart current dormant refl)
  step_moves (setting current) apart = from_setting current

  -- The switch: the next round, in which no thread is ahead.
  pub switch_moves :
      (current dormant : ℕ)
      → Local s round (at (switching_current current dormant))
      → CountsWith s (at (switching_current current dormant))
      → Local
          (record s { barrier = record s.barrier { current = dormant } })
          (round + 1)
          (at (setting current))
        × Counts
            (record s { barrier = record s.barrier { current = dormant } })
            (round + 1)
            0
            leads
            (setters + 1)
            (trues + w.trues)
  switch_moves current dormant loc counts = ground arith
