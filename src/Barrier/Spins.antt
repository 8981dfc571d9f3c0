-- ===== src/Barrier/Spins.antt =====
-- libuzi/barrier.c: the loop in which a thread spins, while the other threads change the barrier.
use libuzi.Common.{
  ℕ, ◌+◌, ◌≤◌, ◌<◌, ◌≡◌, inl, inr, refl, ap, Bool, true, false, none, some, List, [], ◌∷◌, ltb,
  ◌==◌, if◌then◌else◌, Bool-cases, length, All, arith,
}
use libuzi.Barrier.Defs.{Shared, spin_only, idle, spinning, waiting, Worker, worker, step}

abbrev pub is_spinning : Worker → Bool
is_spinning w = elim w.place [ spinning flags current spins ↦ true | _ ↦ false ]

-- The thread at the shared fields that its reads find one after the other, as long as it spins.
unfoldable pub spin_through : List Shared → Worker → Worker
spin_through [] w = w
spin_through (s ∷ later) w =
    if is_spinning w
    then elim (step 0 s w) [ none ↦ w | some (s', w') ↦ spin_through later w' ]
    else w

stays_out : (later : List Shared) (w : Worker) → is_spinning w ≡ false → spin_through later w ≡ w
unfolding spin_through
stays_out [] w out = refl
stays_out (s ∷ later) w out = rw out refl

spins_end :
    (later : List Shared) (flags current spins n t count : ℕ)
    → spin_only flags ≡ false
    → All (λ s. s.barrier.spin_count ≡ count) later
    → spins ≤ count
    → count < spins + length later
    → is_spinning (spin_through later (worker n t (spinning flags current spins))) ≡ false
unfolding spin_through step
spins_end [] flags current spins n t count blocks same few many = absurd (omega arith)
spins_end (s ∷ later) flags current spins n t count blocks same few many =
    let count_here = same.0 in
    elim (Bool-cases (s.barrier.current == current)) [
      | inl e ↦ elim (Bool-cases (ltb s.barrier.spin_count (spins + 1))) [
        | inl f ↦
            rw (e, blocks, f) (ap is_spinning (stays_out later (worker n t (waiting current)) refl))
        | inr f ↦
            rw (e, blocks, f)
              (spins_end later flags current (spins + 1) n t count blocks same.1 (ground arith)
                (omega arith))
      ]
      | inr e ↦ rw e (ap is_spinning (stays_out later (worker (n + 1) t idle) refl))
    ]

-- A thread that begins to spin without the flag SPIN_ONLY has left the loop, to wait or to return,
-- after at most one more read of the current event than the spin count, whatever the other threads
-- make its reads find, as long as the spin count stays.
pub spin_loop_lem :
    (later : List Shared) (flags current n t count : ℕ)
    → spin_only flags ≡ false
    → All (λ s. s.barrier.spin_count ≡ count) later
    → count < length later
    → is_spinning (spin_through later (worker n t (spinning flags current 0))) ≡ false
spin_loop_lem later flags current n t count blocks same many =
    spins_end later flags current 0 n t count blocks same (omega arith) (omega arith)
