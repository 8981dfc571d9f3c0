-- ===== src/Unicode/Strings.antt =====
-- The calls on zero-terminated strings.
use libuzi.Common.{
  ℕ, suc, ◌<◌, ◌≡◌, refl, sym, ap, ◌∙◌, inl, false, Option, none, some, List, [], ◌∷◌, ◌++◌, length,
  length-append, All, arith, take,
}
use mathlib.Core.List.{flat_map}
use mathlib.Core.Option
use mathlib.Core.Path.{ap₂}
use native.Mathlib.Numerals.{add-one}
use libuzi.Unicode.Cursor.{conversion_ok, strict_conversion, overflows}
use libuzi.Unicode.Scalar.{IsScalar, utf8, utf16}
use libuzi.Unicode.RoundTrip.{convert_utf8_to_utf16-Converts, all_converted}
use libuzi.Unicode.Loop.{stored, cursor, flat_map_snoc}
use libuzi.Unicode.Utf8.{convert_utf8_to_utf16}
use libuzi.Unicode.Api.{string_length, source_units, returned, capacity, uzi_utf8_to_utf16}

-- A scalar value of a zero-terminated string: any but 0.
abbrev pub IsText : ℕ → Type 0
IsText x = (0 < x) × IsScalar x

abbrev NonZero : List ℕ → Type 0
NonZero us = All (λ u. 0 < u) us

utf8-NonZero : (x : ℕ) → 0 < x → NonZero (utf8 x)
unfolding utf8
utf8-NonZero x h = ground arith

string_length-append :
    (us vs : List ℕ) → NonZero us → string_length (us ++ 0 ∷ vs) ≡ some (length us)
unfolding string_length
string_length-append [] vs h = refl
string_length-append (u ∷ us) vs h = rw (string_length-append us vs h.1) (ground arith)

All-append : (P : ℕ → Type 0) (us vs : List ℕ) → All P us → All P vs → All P (us ++ vs)
All-append P [] vs h k = k
All-append P (u ∷ us) vs h k = (h.0, All-append P us vs h.1 k)

flat_map-NonZero : (xs : List ℕ) → All IsText xs → NonZero (flat_map utf8 xs)
unfolding flat_map
flat_map-NonZero [] h = tt
flat_map-NonZero (x ∷ xs) h =
    All-append (λ u. 0 < u) (utf8 x) (flat_map utf8 xs) (utf8-NonZero x h.0.0)
      (flat_map-NonZero xs h.1)

IsText-IsScalar : (xs : List ℕ) → All IsText xs → All IsScalar xs
IsText-IsScalar [] h = tt
IsText-IsScalar (x ∷ xs) h = (h.0.1, IsText-IsScalar xs h.1)

take-append : (us vs : List ℕ) → take (suc (length us)) (us ++ 0 ∷ vs) ≡ us ++ 0 ∷ []
take-append [] vs = refl
take-append (u ∷ us) vs = ap (λ l. u ∷ l) (take-append us vs)

-- The units up to the terminator, which belongs to them.
source_units-terminated :
    (us vs : List ℕ) → NonZero us → source_units (us ++ 0 ∷ vs) none ≡ some (us ++ 0 ∷ [])
unfolding source_units
source_units-terminated us vs h =
    rw (string_length-append us vs h, add-one) (ap some (take-append us vs))

-- With text before the terminator: a conversion for which there is room.
convert_text :
    (cap : Option ℕ) (xs : List ℕ)
    → All IsText xs
    → let out = flat_map utf16 xs ++ 0 ∷ [] in
      overflows cap 0 (length out) ≡ false
      → convert_utf8_to_utf16 (flat_map utf8 xs ++ 0 ∷ []) cap strict_conversion
        ≡ some (conversion_ok, cursor [] (length out) (stored cap out))
unfolding utf8 utf16
convert_text cap xs text room =
    let scalars =
      All-append IsScalar xs (0 ∷ []) (IsText-IsScalar xs text) (inl (omega arith), tt) in
    let (r, c, went, conv) = convert_utf8_to_utf16-Converts cap (xs ++ 0 ∷ []) scalars in
    let out : flat_map utf16 (xs ++ 0 ∷ []) ≡ flat_map utf16 xs ++ 0 ∷ [] =
      flat_map_snoc utf16 xs 0 in
    let (ok, there) = all_converted conv (rw out room) in
    ap (λ l. convert_utf8_to_utf16 l cap strict_conversion) (sym (flat_map_snoc utf8 xs 0))
    ∙ went
    ∙ ap₂ (λ r c. some (r, c)) ok (there ∙ ap (λ l. cursor [] (length l) (stored cap l)) out)

-- On the zero-terminated UTF-8 of scalar values other than 0, UziUtf8toUtf16 with the length -1 and
-- no target returns the length of the UTF-16 with its terminator; called again with a target of
-- that length it returns it again and has stored that UTF-16 and its terminator.
pub uzi_utf8_to_utf16_two_calls :
    (xs rest : List ℕ)
    → All IsText xs
    → let src = flat_map utf8 xs ++ 0 ∷ rest in
      let out = flat_map utf16 xs ++ 0 ∷ [] in
      (uzi_utf8_to_utf16 src none 0 ≡ some (length out, []))
      × (uzi_utf8_to_utf16 src none (length out) ≡ some (length out, out))
unfolding uzi_utf8_to_utf16 Option.bind returned
uzi_utf8_to_utf16_two_calls xs rest text =
    let read = source_units-terminated (flat_map utf8 xs) rest (flat_map-NonZero xs text) in
    let out = flat_map utf16 xs ++ 0 ∷ [] in
    let sized : capacity (length out) ≡ some (length out) =
      ground (arith, length-append (flat_map utf16 xs) (0 ∷ [])) in
    (
      rw (read, convert_text none xs text refl),
      rw (read, sized, convert_text (some (length out)) xs text (ground arith)),
    )
