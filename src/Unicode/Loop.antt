-- ===== src/Unicode/Loop.antt =====
-- What a converter's loop does, from the laws of one round.
use libuzi.Common.{
  ℕ, zero, suc, ◌+◌, ◌<◌, ◌≡◌, refl, sym, ap, ◌∙◌, ◌≢◌, ◌⊎◌, inl, inr, true, Option, none, some,
  List, [], ◌∷◌, ◌++◌, append_assoc, append-nil, if◌then◌else◌, Bool-cases, length, length-append,
  All, arith,
}
use mathlib.Core.List.{flat_map}
use mathlib.Core.Path.{subst}
use libuzi.Unicode.Cursor.{
  ConversionResult, conversion_ok, target_exhausted, Cursor, at_start, overflows, emit, Round, stop,
  next, run,
}
use libuzi.Unicode.Scalar.{IsScalar}

abbrev pub cursor : List ℕ → ℕ → List ℕ → Cursor
cursor source target written = record { source = source; target = target; written = written }

-- The units that are stored: none where only the length is computed.
abbrev pub stored : Option ℕ → List ℕ → List ℕ
stored none units = []
stored (some _) units = units

pub emit-source :
    (cap : Option ℕ) (c : Cursor) (units rest : List ℕ) → (emit cap c units rest).source ≡ rest
emit-source none c units rest = refl
emit-source (some n) c units rest = refl

-- What one round promises: it takes a scalar value from the source and puts it to the target, or
-- stops where it does not fit; in a clean source it goes on only behind a scalar value, and it stops
-- only with an error.
pub record Codec (cap : Option ℕ) : Type 1 where
  pub IsClean : List ℕ → Type 0
  pub round : Cursor → Round
  pub enc_in : ℕ → List ℕ
  pub enc_out : ℕ → List ℕ
  pub enc_in-pos : (x : ℕ) → 0 < length (enc_in x)
  pub clean-drop : (us rest : List ℕ) → IsClean (us ++ rest) → IsClean rest
  pub takes :
      (x : ℕ)
      → IsScalar x
      → (rest : List ℕ) (t : ℕ) (w : List ℕ)
      → round (cursor (enc_in x ++ rest) t w) ≡ (
          if overflows cap t (length (enc_out x))
          then stop target_exhausted
          else next (emit cap (cursor (enc_in x ++ rest) t w) (enc_out x) rest))
  pub only_scalars :
      (c c' : Cursor)
      → IsClean c.source
      → round c ≡ next c'
      → (x : ℕ) × IsScalar x × (c.source ≡ enc_in x ++ c'.source)
  pub no_false_ok : (c : Cursor) → round c ≢ stop conversion_ok

-- A conversion of the scalar values `xs`: a first part of them is converted, and the rest is left
-- in the source. It is left because its first scalar value does not fit, or it is empty.
pub record Converts (cap : Option ℕ) (enc_in enc_out : ℕ → List ℕ) (xs : List ℕ)
    (r : ConversionResult) (c : Cursor) : Type 0 where
  pub done : List ℕ
  pub left : List ℕ
  pub splits : done ++ left ≡ xs
  pub source : c.source ≡ flat_map enc_in left
  pub target : c.target ≡ length (flat_map enc_out done)
  pub written : c.written ≡ stored cap (flat_map enc_out done)
  pub finish :
      ((r ≡ conversion_ok) × (left ≡ []))
      ⊎ ((r ≡ target_exhausted)
          × ((x : ℕ) × (later : List ℕ) × (left ≡ x ∷ later)
              × (overflows cap (length (flat_map enc_out done)) (length (enc_out x)) ≡ true)))

pub run_step :
    (f : ℕ) (step : Cursor → Round) (us : List ℕ) (t : ℕ) (w : List ℕ)
    → 0 < length us
    → run (suc f) step (cursor us t w)
      ≡ elim (step (cursor us t w)) [ stop r ↦ some (r, cursor us t w) | next c' ↦ run f step c' ]
unfolding run
run_step f step [] t w h = absurd (omega arith)
run_step f step (u ∷ us) t w h = refl

pub flat_map_snoc :
    (f : ℕ → List ℕ) (xs : List ℕ) (x : ℕ) → flat_map f (xs ++ x ∷ []) ≡ flat_map f xs ++ f x
unfolding flat_map
flat_map_snoc f [] x = append-nil (f x)
flat_map_snoc f (y ∷ ys) x = rw (flat_map_snoc f ys x) (sym (append_assoc (f y) _ _))

-- The cursor between two rounds.
abbrev reached : Option ℕ → (ℕ → List ℕ) → List ℕ → List ℕ → Cursor
reached cap enc_out done source =
    cursor source (length (flat_map enc_out done)) (stored cap (flat_map enc_out done))

emit-reached :
    (cap : Option ℕ) (enc_out : ℕ → List ℕ) (done source rest : List ℕ) (x : ℕ)
    → emit cap (reached cap enc_out done source) (enc_out x) rest
      ≡ reached cap enc_out (done ++ x ∷ []) rest
emit-reached none enc_out done source rest x =
    rw flat_map_snoc
      (λ i. cursor rest (sym (length-append (flat_map enc_out done) (enc_out x)) i) [])
emit-reached (some n) enc_out done source rest x = rw flat_map_snoc (λ i.
    cursor rest (sym (length-append (flat_map enc_out done) (enc_out x)) i)
      (flat_map enc_out done ++ enc_out x))

stored-nil : (cap : Option ℕ) → stored cap [] ≡ []
stored-nil none = refl
stored-nil (some n) = refl

pub All-drop : (P : ℕ → Type 0) (us vs : List ℕ) → All P (us ++ vs) → All P vs
All-drop P [] vs h = h
All-drop P (u ∷ us) vs h = All-drop P us vs h.1

pub Round-cases :
    (r : Round) → ((e : ConversionResult) × (r ≡ stop e)) ⊎ ((c : Cursor) × (r ≡ next c))
Round-cases (stop e) = inl (e, refl)
Round-cases (next c) = inr (c, refl)

module _ {cap : Option ℕ} (codec : Codec cap) where
  open codec use {
    IsClean, clean-drop, round, enc_in, enc_out, enc_in-pos, takes, only_scalars, no_false_ok,
  }

  pour :
      (fuel : ℕ) (xs done : List ℕ)
      → All IsScalar xs
      → length (flat_map enc_in xs) < fuel
      → (r : ConversionResult) × (c : Cursor) × (run fuel round
            (reached cap enc_out done (flat_map enc_in xs))
          ≡ some (r, c))
        × Converts cap enc_in enc_out (done ++ xs) r c
  unfolding run flat_map
  pour zero xs done scalars h = absurd (omega arith)
  pour (suc fuel) [] done scalars h = (
    conversion_ok,
    reached cap enc_out done [],
    refl,
    record {
      done = done;
      left = [];
      splits = refl;
      source = refl;
      target = refl;
      written = refl;
      finish = inl (refl, refl);
    },
  )
  pour (suc fuel) (x ∷ xs) done scalars h =
      let source = enc_in x ++ flat_map enc_in xs in
      let size = length-append (enc_in x) (flat_map enc_in xs) in
      let full = overflows cap (length (flat_map enc_out done)) (length (enc_out x)) in
      let t = length (flat_map enc_out done) in
      let w = stored cap (flat_map enc_out done) in
      let ran = run_step fuel round source t w (omega (arith, enc_in-pos x)) in
      let taken = takes x scalars.0 (flat_map enc_in xs) t w in
      elim (Bool-cases full) [
        | inl e ↦ (
          target_exhausted,
          reached cap enc_out done source,
          ran ∙ rw (taken, e),
          record {
            done = done;
            left = x ∷ xs;
            splits = refl;
            source = refl;
            target = refl;
            written = refl;
            finish = inr (refl, (x, xs, refl, e));
          },
        )
        | inr e ↦
            let (r, c, went, after) =
              pour fuel xs (done ++ x ∷ []) scalars.1 (omega (arith, enc_in-pos x)) in
            (
              r,
              c,
              ran
                  ∙ rw (taken, e)
                      (ap (run fuel round) (emit-reached cap enc_out done source _ x) ∙ went),
              subst (λ l. Converts cap enc_in enc_out l r c) (append_assoc done (x ∷ []) xs) after,
            )
      ]

  narrow : (x : ℕ) (us : List ℕ) (rest : List ℕ) → us ≡ enc_in x ++ rest → IsClean us → IsClean rest
  narrow x us rest e units = clean-drop (enc_in x) rest (subst IsClean e units)

  -- Success means that the source was made of scalar values.
  run_sound :
      (fuel : ℕ) (us : List ℕ) (t : ℕ) (w : List ℕ) (c : Cursor)
      → IsClean us
      → run fuel round (cursor us t w) ≡ some (conversion_ok, c)
      → (xs : List ℕ) × All IsScalar xs × (us ≡ flat_map enc_in xs)
  unfolding run flat_map
  run_sound zero us t w c units h = cc
  run_sound (suc fuel) [] t w c units h = ([], tt, refl)
  run_sound (suc fuel) (u ∷ us) t w c units h = elim (Round-cases (round (cursor (u ∷ us) t w))) [
    | inl (e, stops) ↦ absurd (no_false_ok _ (stops ∙ ap stop (ground arith)))
    | inr (c', goes) ↦
        let (x, scalar, source) = only_scalars _ c' units goes in
        let (xs, scalars, rest) =
          run_sound fuel c'.source c'.target c'.written c (narrow x _ _ source units)
            (rw goes at h) in
        (x ∷ xs, (scalar, scalars), source ∙ ap (λ l. enc_in x ++ l) rest)
  ]

  -- The whole conversion: of scalar values, whatever the capacity.
  pub convert_scalars :
      (xs : List ℕ)
      → All IsScalar xs
      → let us = flat_map enc_in xs in
        (r : ConversionResult) × (c : Cursor) × (run (length us + 1) round (at_start us)
          ≡ some (r, c))
        × Converts cap enc_in enc_out xs r c
  unfolding flat_map
  convert_scalars xs scalars =
      let us = flat_map enc_in xs in
      subst
        (λ w.
          (r : ConversionResult) × (c : Cursor) × (run (length us + 1) round (cursor us 0 w)
            ≡ some (r, c))
          × Converts cap enc_in enc_out xs r c)
        (stored-nil cap) (pour (length us + 1) xs [] scalars (omega arith))

  -- A conversion that succeeds has converted scalar values, all of them.
  pub convert_ok :
      (us : List ℕ) (c : Cursor)
      → IsClean us
      → run (length us + 1) round (at_start us) ≡ some (conversion_ok, c)
      → (xs : List ℕ) × All IsScalar xs
        × (us ≡ flat_map enc_in xs)
        × (c.source ≡ [])
        × (c.target ≡ length (flat_map enc_out xs))
        × (c.written ≡ stored cap (flat_map enc_out xs))
  unfolding flat_map
  convert_ok us c units h =
      let (xs, scalars, source) = run_sound _ us 0 [] c units h in
      let (r, c', went, conv) = convert_scalars xs scalars in
      let same : some (conversion_ok, c) ≡ some (r, c') =
        sym h ∙ ap (λ l. run (length l + 1) round (at_start l)) source ∙ went in
      let all : conv.left ≡ [] = elim conv.finish [
        | inl f ↦ f.1
        | inr f ↦ absurd (cc (same, f.0))
      ] in
      let whole : conv.done ≡ xs =
        sym (append-nil conv.done) ∙ ap (λ l. conv.done ++ l) (sym all) ∙ conv.splits in
      let there : c ≡ c' = cc same in
      (
        xs,
        scalars,
        source,
        ap (λ (k : Cursor). k.source) there ∙ conv.source ∙ ap (flat_map enc_in) all,
        ap (λ (k : Cursor). k.target) there
            ∙ conv.target
            ∙ ap (λ l. length (flat_map enc_out l)) whole,
        ap (λ (k : Cursor). k.written) there
            ∙ conv.written
            ∙ ap (λ l. stored cap (flat_map enc_out l)) whole,
      )
