-- ===== src/Synch/Runs.antt =====
-- Sequences of calls on an object, and on its specification.
use libuzi.Common.{ℕ, ◌≡◌, refl, ap, ◌∙◌, Option, none, some, List, [], ◌∷◌}

module _ {K C : Type 0} (perform : C → K → Option (ℕ × K)) where
  -- What the calls return, one after the other.
  abbrev pub perform_all : List C → K → Option (List ℕ)
  perform_all [] k = some []
  perform_all (call ∷ calls) k = elim (perform call k) [
    | none ↦ none
    | some (r, k') ↦ elim (perform_all calls k') [ none ↦ none | some rs ↦ some (r ∷ rs) ]
  ]

module _ {C S : Type 0} (after : C → S → S) (result : C → S → ℕ) where
  -- What they return by the specification.
  abbrev pub specified : List C → S → List ℕ
  specified [] s = []
  specified (call ∷ calls) s = result call s ∷ specified calls (after call s)

module _ {C S : Type 0} (after : C → S → S) (May : C → S → Type 0) where
  -- Whether each call may be made where it is.
  abbrev pub Each : List C → S → Type 0
  Each [] s = Unit
  Each (call ∷ calls) s = May call s × Each calls (after call s)

-- Calls that may be made and step as specified, as long as `Fits` holds, return what is specified.
module _ {K C S : Type 0} (perform : C → K → Option (ℕ × K)) (after : C → S → S)
    (result : C → S → ℕ) (view : K → S) (May : C → S → Type 0) (Fits : List C → K → Type 0)
    (steps : (call : C) (calls : List C) (k : K)
      → May call (view k)
      → Fits (call ∷ calls) k
      → (k' : K) × (perform call k ≡ some (result call (view k), k'))
        × (view k' ≡ after call (view k))
        × Fits calls k') where
  pub perform_all_lem :
      (calls : List C) (k : K)
      → Each after May calls (view k)
      → Fits calls k
      → perform_all perform calls k ≡ some (specified after result calls (view k))
  perform_all_lem [] k may fits = refl
  perform_all_lem (call ∷ calls) k may fits =
      let (k', returned, viewed, later) = steps call calls k may.0 fits in
      let rest = perform_all_lem calls k' (rw viewed may.1) later in
      rw (returned, perform_all, rest ∙ ap (λ s. some (specified after result calls s)) viewed) refl
