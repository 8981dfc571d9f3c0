-- ===== src/Unicode/Safety.antt =====
-- Both converters end on every source and write inside the target, in either mode.
use libuzi.Common.{
  ℕ, zero, suc, ◌+◌, ◌*◌, ◌%◌, ◌^◌, ◌≤◌, ◌<◌, ◌≡◌, refl, sym, ap, inl, inr, ◌&&◌, false, Option,
  none, some, List, [], ◌∷◌, ltb, leb, Bool-cases, length, length-append, arith, get_or,
}
use libuzi.Unicode.Cursor.{
  ConversionResult, conversion_ok, ConversionFlags, strict_conversion, lenient_conversion, Cursor,
  at_start, overflows, emit, Round, next, run, Fetch, fail, got,
}
use libuzi.Unicode.Loop.{cursor, emit-source, Round-cases}
use libuzi.Unicode.Utf16.{
  fetch, bytes_to_write, char_bytes, put_bytes, utf16_round, convert_utf16_to_utf8,
}
use libuzi.Unicode.Utf8.{
  trailing_bytes, gather, decode, fetch_utf8, replace_or_fail, surrogates, put_char, put_fetched,
  utf8_round, convert_utf8_to_utf16,
}

-- The units stored are as many as the target pointer has moved, which is within the capacity.
abbrev pub InTarget : Option ℕ → Cursor → Type 0
InTarget none c = Unit
InTarget (some cap) c = (length c.written ≡ c.target) × (c.target ≤ cap)

-- A run of rounds that each consume the source and stay in the target.
record Steady (cap : Option ℕ) (step : Cursor → Round) : Type 0 where
  shrinks : (c c' : Cursor) → step c ≡ next c' → length c'.source < length c.source
  keeps : (c c' : Cursor) → InTarget cap c → step c ≡ next c' → InTarget cap c'

run-Steady :
    (cap : Option ℕ) (step : Cursor → Round)
    → Steady cap step
    → (fuel : ℕ) (us : List ℕ) (t : ℕ) (w : List ℕ) → length us < fuel
    → InTarget cap (cursor us t w)
    → (r : ConversionResult) × (c : Cursor) × (run fuel step (cursor us t w) ≡ some (r, c))
      × InTarget cap c
unfolding run
run-Steady cap step steady zero us t w h safe = absurd (omega arith)
run-Steady cap step steady (suc fuel) [] t w h safe = (conversion_ok, cursor [] t w, refl, safe)
run-Steady cap step steady (suc fuel) (u ∷ us) t w h safe =
    elim (Round-cases (step (cursor (u ∷ us) t w))) [
      | inl (e, stops) ↦ (e, cursor (u ∷ us) t w, rw stops, safe)
      | inr (c, goes) ↦
          let shorter = steady.shrinks _ c goes in
          let (r, c', went, safe') =
            run-Steady cap step steady fuel c.source c.target c.written (omega arith)
              (steady.keeps _ c safe goes) in
          (r, c', rw goes went, safe')
    ]

-- Storing units for which there is room stays in the target.
emit-InTarget :
    (cap : Option ℕ) (c : Cursor) (units rest : List ℕ)
    → InTarget cap c
    → overflows cap c.target (length units) ≡ false
    → InTarget cap (emit cap c units rest)
emit-InTarget none c units rest safe h = tt
emit-InTarget (some cap) c units rest safe h = ground (arith, length-append c.written units)

length-char_bytes : (ch : ℕ) → length (char_bytes ch) ≡ (bytes_to_write ch).0
unfolding char_bytes
length-char_bytes ch = ground arith

fetch_shrinks :
    (flags : ConversionFlags) (us : List ℕ) (x : ℕ) (rest : List ℕ)
    → fetch flags us ≡ got x rest
    → length rest < length us
unfolding fetch
fetch_shrinks flags [] x rest h = cc
fetch_shrinks strict_conversion (u ∷ []) x rest h = ground arith
fetch_shrinks lenient_conversion (u ∷ []) x rest h = ground arith
fetch_shrinks strict_conversion (u ∷ v ∷ us) x rest h = ground arith
fetch_shrinks lenient_conversion (u ∷ v ∷ us) x rest h = ground arith

put_bytes_steady :
    (cap : Option ℕ) (c c' : Cursor) (f : Fetch)
    → put_bytes cap c f ≡ next c'
    → (x : ℕ) × (f ≡ got x c'.source) × (InTarget cap c → InTarget cap c')
unfolding put_bytes
put_bytes_steady cap c c' (fail r) h = cc
put_bytes_steady cap c c' (got x rest) h =
    elim (Bool-cases (overflows cap c.target (bytes_to_write x).0)) [
      | inl e ↦ absurd (cc (rw (e, put_bytes) at h))
      | inr e ↦
          let made : c' ≡ emit cap c (char_bytes x) rest = ground arith in
          (
            x,
            ground (arith, emit-source cap c (char_bytes x) rest),
            λ safe. rw made (emit-InTarget cap c (char_bytes x) rest safe (rw length-char_bytes e)),
          )
    ]

utf16-Steady : (flags : ConversionFlags) (cap : Option ℕ) → Steady cap (utf16_round flags cap)
unfolding utf16_round
utf16-Steady flags cap = record {
  shrinks = λ c c' h.
      let (x, read, _) = put_bytes_steady cap c c' (fetch flags c.source) h in
      fetch_shrinks flags c.source x c'.source read;
  keeps = λ c c' safe h.
      let (x, read, kept) = put_bytes_steady cap c c' (fetch flags c.source) h in kept safe;
}

InTarget-start : (cap : Option ℕ) (us : List ℕ) → InTarget cap (at_start us)
InTarget-start none us = tt
InTarget-start (some n) us = omega arith

-- ConvertUTF16toUTF8 returns on every source, in either mode and at every capacity; where there is
-- a target, it has stored as many bytes as it has moved the target pointer, and no more than there
-- was room for.
pub convert_utf16_to_utf8-InTarget :
    (us : List ℕ) (cap : Option ℕ) (flags : ConversionFlags)
    → (r : ConversionResult) × (c : Cursor) × (convert_utf16_to_utf8 us cap flags ≡ some (r, c))
      × InTarget cap c
unfolding convert_utf16_to_utf8
convert_utf16_to_utf8-InTarget us cap flags =
    run-Steady cap (utf16_round flags cap) (utf16-Steady flags cap) (length us + 1) us 0 []
      (omega arith) (InTarget-start cap us)

gather_shrinks :
    (extra ch : ℕ) (us : List ℕ) → 0 < length us → length (gather extra ch us).1 < length us
unfolding gather
gather_shrinks extra ch [] h = absurd (omega arith)
gather_shrinks zero ch (u ∷ us) h = omega arith
gather_shrinks (suc n) ch (u ∷ []) h = omega arith
gather_shrinks (suc n) ch (u ∷ v ∷ us) h =
    omega (arith, gather_shrinks n ((ch + u) % 2 ^ 32 * 2 ^ 6 % 2 ^ 32) (v ∷ us))

fetch_utf8_shrinks :
    (us : List ℕ) (x : ℕ) (rest : List ℕ) → fetch_utf8 us ≡ got x rest → length rest < length us
unfolding fetch_utf8 decode
fetch_utf8_shrinks us x rest h =
    let extra = trailing_bytes (get_or us 0 0) in ground (arith, gather_shrinks extra 0 us)

-- A round that stores units for which there is room.
emitted :
    (cap : Option ℕ) (c c' : Cursor) (units rest : List ℕ)
    → overflows cap c.target (length units) ≡ false
    → next (emit cap c units rest) ≡ next c'
    → (c'.source ≡ rest) × (InTarget cap c → InTarget cap c')
emitted cap c c' units rest room h =
    let made : c' ≡ emit cap c units rest = cc h in
    (
      rw made (emit-source cap c units rest),
      λ safe. rw made (emit-InTarget cap c units rest safe room),
    )

replace_steady :
    (flags : ConversionFlags) (cap : Option ℕ) (c c' : Cursor) (rest : List ℕ)
    → overflows cap c.target 1 ≡ false
    → replace_or_fail flags cap c rest ≡ next c'
    → (c'.source ≡ rest) × (InTarget cap c → InTarget cap c')
unfolding replace_or_fail
replace_steady strict_conversion cap c c' rest room h = cc
replace_steady lenient_conversion cap c c' rest room h = emitted cap c c' (0xfffd ∷ []) rest room h

put_char_steady :
    (flags : ConversionFlags) (cap : Option ℕ) (c c' : Cursor) (x : ℕ) (rest : List ℕ)
    → put_char flags cap c x rest ≡ next c'
    → (c'.source ≡ rest) × (InTarget cap c → InTarget cap c')
unfolding put_char
put_char_steady flags cap c c' x rest h = elim (Bool-cases (overflows cap c.target 1)) [
  | inl e ↦ absurd (cc (rw (e, put_char) at h))
  | inr room ↦ elim (Bool-cases (leb x 0xffff)) [
    | inl low ↦ elim (Bool-cases (leb 0xd800 x && leb x 0xdfff)) [
      | inl sur ↦ replace_steady flags cap c c' rest room (rw (room, low, sur, put_char) at h)
      | inr sur ↦ emitted cap c c' (x % 2 ^ 16 ∷ []) rest room (rw (room, low, sur, put_char) at h)
    ]
    | inr high ↦ elim (Bool-cases (ltb 0x10ffff x)) [
      | inl out ↦ replace_steady flags cap c c' rest room (rw (room, high, out, put_char) at h)
      | inr fits ↦ elim (Bool-cases (overflows cap c.target 2)) [
        | inl e ↦ absurd (cc (rw (room, high, fits, e, put_char) at h))
        | inr pair ↦
            emitted cap c c' (surrogates x) rest (unfold surrogates in pair)
              (rw (room, high, fits, pair, put_char) at h)
      ]
    ]
  ]
]

put_fetched_steady :
    (flags : ConversionFlags) (cap : Option ℕ) (c c' : Cursor) (f : Fetch)
    → put_fetched flags cap c f ≡ next c'
    → (x : ℕ) × (f ≡ got x c'.source) × (InTarget cap c → InTarget cap c')
unfolding put_fetched
put_fetched_steady flags cap c c' (fail r) h = cc
put_fetched_steady flags cap c c' (got x rest) h =
    let (source, kept) = put_char_steady flags cap c c' x rest h in
    (x, ap (got x) (sym source), kept)

utf8-Steady : (flags : ConversionFlags) (cap : Option ℕ) → Steady cap (utf8_round flags cap)
unfolding utf8_round
utf8-Steady flags cap = record {
  shrinks = λ c c' h.
      let (x, read, _) = put_fetched_steady flags cap c c' (fetch_utf8 c.source) h in
      fetch_utf8_shrinks c.source x c'.source read;
  keeps = λ c c' safe h.
      let (x, read, kept) = put_fetched_steady flags cap c c' (fetch_utf8 c.source) h in kept safe;
}

-- ConvertUTF8toUTF16 returns on every source, in either mode and at every capacity; where there is
-- a target, it has stored as many units as it has moved the target pointer, and no more than there
-- was room for.
pub convert_utf8_to_utf16-InTarget :
    (us : List ℕ) (cap : Option ℕ) (flags : ConversionFlags)
    → (r : ConversionResult) × (c : Cursor) × (convert_utf8_to_utf16 us cap flags ≡ some (r, c))
      × InTarget cap c
unfolding convert_utf8_to_utf16
convert_utf8_to_utf16-InTarget us cap flags =
    run-Steady cap (utf8_round flags cap) (utf8-Steady flags cap) (length us + 1) us 0 []
      (omega arith) (InTarget-start cap us)
