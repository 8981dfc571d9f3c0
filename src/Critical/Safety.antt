-- ===== src/Critical/Safety.antt =====
-- What holds of libuzi/critical.c at every moment, however the steps of its threads are ordered.
use libuzi.Common.{
  ℕ, ◌+◌, ◌-◌, ◌≤◌, ◌<◌, ◌≡◌, ◌≢◌, ◌⊎◌, inl, inr, refl, sym, ap, ◌∙◌, some, ◌==◌, Bool-cases,
  Option-cases, get_elem?, set_at, arith,
}
use mathlib.Core.Path.{subst}
use libuzi.Critical.Defs.{
  Section, Place, idle, try_exchange, try_owner, try_increment, spin, spin_exchange, increment,
  check_owner, waiting, taking, owning, leaving, clearing, dropping, posting, dropping_one, Worker,
  worker, Call, step, System, run_thread, Reachable, started, stepped, spin_count_set,
  initialize_critical_section_ex,
}
use libuzi.Common.Sums.{
  get_elem?-set_at, get_elem?-set_at_other, total, total-set_at, total_one, total_two,
  total-replicate, get_elem?-replicate,
}
use libuzi.Critical.Invariant.{share, token, Local, tokens_of, Moved, step_moves}

-- The invariant of a section and its threads.
pub record IsSound (sys : System) : Type 0 where
  pub locals : (i : ℕ) (w : Worker) → get_elem? sys.workers i ≡ some w → Local sys.section (i + 1) w
  pub counts : total share sys.workers ≡ sys.section.lock_count
  pub tokens : sys.section.semaphore + total token sys.workers ≡ tokens_of sys.section.lock_count

-- A thread without the token does not notice that another one sets or clears the owner.
Local-elsewhere :
    (s s' : Section) (me other : ℕ) (d : ℕ) (p : Place)
    → 0 < me
    → me ≢ other
    → ((s'.owning_thread ≡ s.owning_thread) × (s'.recursion_count ≡ s.recursion_count))
      ⊎ ((token (worker d p) ≡ 0)
          × ((s'.owning_thread ≡ s.owning_thread)
              ⊎ (s'.owning_thread ≡ 0)
              ⊎ (s'.owning_thread ≡ other)))
    → Local s me (worker d p)
    → Local s' me (worker d p)
Local-elsewhere s s' me other d idle pos ne change loc = ground arith
Local-elsewhere s s' me other d (try_exchange caller) pos ne change loc = ground arith
Local-elsewhere s s' me other d (try_owner caller) pos ne change loc = ground arith
Local-elsewhere s s' me other d try_increment pos ne change loc = ground arith
Local-elsewhere s s' me other d (spin spins) pos ne change loc = ground arith
Local-elsewhere s s' me other d (spin_exchange spins) pos ne change loc = ground arith
Local-elsewhere s s' me other d increment pos ne change loc = ground arith
Local-elsewhere s s' me other d check_owner pos ne change loc = ground arith
Local-elsewhere s s' me other d waiting pos ne change loc = ground arith
Local-elsewhere s s' me other d taking pos ne change loc = ground arith
Local-elsewhere s s' me other d owning pos ne change loc = ground arith
Local-elsewhere s s' me other d leaving pos ne change loc = ground arith
Local-elsewhere s s' me other d clearing pos ne change loc = ground arith
Local-elsewhere s s' me other d dropping pos ne change loc = ground arith
Local-elsewhere s s' me other d posting pos ne change loc = ground arith
Local-elsewhere s s' me other d dropping_one pos ne change loc = ground arith

tokens_of-small : (n : ℕ) → tokens_of n ≤ 1
tokens_of-small n = ground arith

without_token :
    (s s' : Section) (other a b : ℕ)
    → a + b ≤ 1
    → ((s'.owning_thread ≡ s.owning_thread) × (s'.recursion_count ≡ s.recursion_count))
      ⊎ ((a ≡ 1)
          × ((s'.owning_thread ≡ s.owning_thread)
              ⊎ (s'.owning_thread ≡ 0)
              ⊎ (s'.owning_thread ≡ other)))
    → ((s'.owning_thread ≡ s.owning_thread) × (s'.recursion_count ≡ s.recursion_count))
      ⊎ ((b ≡ 0)
          × ((s'.owning_thread ≡ s.owning_thread)
              ⊎ (s'.owning_thread ≡ 0)
              ⊎ (s'.owning_thread ≡ other)))
without_token s s' other a b few quiet = ground arith

-- The invariant is kept by the step of a thread.
module _ (sys : System) (i : ℕ) (w w' : Worker) (s' : Section) (sound : IsSound sys)
    (here : get_elem? sys.workers i ≡ some w) where
  abbrev after_step : System
  after_step = record { section = s'; workers = set_at i w' sys.workers }

  abbrev others : ℕ
  others = total share sys.workers - share w

  abbrev rest : ℕ
  rest = total token sys.workers - token w

  step-IsSound : Moved (i + 1) others rest sys.section s' w w' → IsSound after_step
  step-IsSound (loc, count, tok, quiet) =
      let share_in = total_one share sys.workers i w here in
      let token_in = total_one token sys.workers i w here in
      let shares = total-set_at share sys.workers i w w' here in
      let tokens = total-set_at token sys.workers i w w' here in
      record {
        counts = omega (arith, count, shares, share_in);
        tokens = omega (arith, tok, tokens, token_in);
        locals = λ j v at. elim (Bool-cases (i == j)) [
          | inl e ↦
              let same : i ≡ j = ground arith in
              let there : get_elem? (set_at i w' sys.workers) i ≡ some v =
                ap (get_elem? (set_at i w' sys.workers)) same ∙ at in
              let mine : some w' ≡ some v =
                sym (get_elem?-set_at sys.workers i w w' here) ∙ there in
              let is_mine : w' ≡ v = cc mine in
              subst (λ k. Local s' (k + 1) v) same (subst (λ x. Local s' (i + 1) x) is_mine loc)
          | inr e ↦
              let apart : i ≢ j = ground arith in
              let there : get_elem? sys.workers j ≡ some v =
                sym (get_elem?-set_at_other sys.workers i j w' apart) ∙ at in
              let both = total_two token sys.workers i j w v apart here there in
              let few = tokens_of-small sys.section.lock_count in
              Local-elsewhere sys.section s' (j + 1) (i + 1) v.depth v.place (omega arith)
                (ground arith)
                (without_token sys.section s' (i + 1) (token w) (token v)
                  (omega (arith, both, few, sound.tokens)) quiet)
                (sound.locals j v there)
        ];
      }

  step_kept : (call : Call) → step (i + 1) call sys.section w ≡ some (s', w') → IsSound after_step
  step_kept call went =
      let share_in = total_one share sys.workers i w here in
      let token_in = total_one token sys.workers i w here in
      let moves =
        step_moves (i + 1) others rest call sys.section w.depth (omega arith) w.place
          (sound.locals i w here) (omega (arith, sound.counts)) (omega (arith, sound.tokens)) in
      step-IsSound (rw went at moves)

run_thread-IsSound :
    (i : ℕ) (call : Call) (sys sys' : System)
    → IsSound sys
    → run_thread i call sys ≡ some sys'
    → IsSound sys'
unfolding run_thread
run_thread-IsSound i call sys sys' sound h = elim (Option-cases (get_elem? sys.workers i)) [
  | inl e ↦ absurd (cc (rw (e, run_thread) at h))
  | inr (w, here) ↦ elim (Option-cases (step (i + 1) call sys.section w)) [
    | inl e ↦ absurd (cc (rw (here, e, run_thread) at h))
    | inr ((s', w'), went) ↦
        let same : some (after_step sys i w w' s' sound here) ≡ some sys' =
          rw (here, went, run_thread) at h in
        subst IsSound (cc same) (step_kept sys i w w' s' sound here call went)
  ]
]

-- Every reachable system satisfies the invariant.
pub Reachable-IsSound : (sys : System) → Reachable sys → IsSound sys
unfolding initialize_critical_section_ex
Reachable-IsSound sys (started threads processors spins s init) = record {
  locals = λ i w at.
      let fresh : w ≡ worker 0 idle = get_elem?-replicate threads i (worker 0 idle) w at in
      rw fresh (ground arith);
  counts = ground (arith, total-replicate share threads (worker 0 idle) refl);
  tokens = ground (arith, total-replicate token threads (worker 0 idle) refl);
}
Reachable-IsSound sys (stepped before after i call reach went) =
    run_thread-IsSound i call before sys (Reachable-IsSound before reach) went
Reachable-IsSound sys (spin_count_set before processors spins reach) =
    let sound = Reachable-IsSound before reach in
    record { locals = λ i w at. sound.locals i w at; counts = sound.counts; tokens = sound.tokens }
