-- ===== src/Unicode/RoundTrip.antt =====
-- The two converters between them, in strict mode.
use libuzi.Common.{
  ℕ, ◌^◌, ◌≤◌, ◌<◌, ◌≡◌, refl, sym, ap, ◌∙◌, inl, inr, true, false, Option, none, some, List, [],
  ◌∷◌, ◌++◌, append-nil, append_assoc, leb, if◌then◌else◌, Bool-cases, length, length-append, All,
  arith,
}
use mathlib.Core.List.{flat_map}
use libuzi.Unicode.Cursor.{
  ConversionResult, conversion_ok, target_exhausted, strict_conversion, Cursor, overflows,
}
use libuzi.Unicode.Scalar.{IsScalar, utf8, utf16}
use libuzi.Unicode.Loop.{Converts, stored, cursor, convert_scalars, convert_ok}
use libuzi.Unicode.Encode.{utf16_codec}
use libuzi.Unicode.Decode.{IsClean, utf8_codec}
use libuzi.Unicode.Safety.{convert_utf8_to_utf16-InTarget}
use libuzi.Unicode.Utf16.{convert_utf16_to_utf8}
use libuzi.Unicode.Utf8.{convert_utf8_to_utf16}

-- On the UTF-16 of scalar values, at any capacity and in strict mode, ConvertUTF16toUTF8 returns:
-- it has stored the UTF-8 of the first of them, succeeds if these are all and otherwise reports
-- that the target is exhausted, where the next one would not fit, and leaves the source at the
-- rest.
pub convert_utf16_to_utf8-Converts :
    (cap : Option ℕ) (xs : List ℕ)
    → All IsScalar xs
    → (r : ConversionResult) × (c : Cursor) × (convert_utf16_to_utf8
          (flat_map utf16 xs)
          cap
          strict_conversion
        ≡ some (r, c))
      × Converts cap utf16 utf8 xs r c
unfolding convert_utf16_to_utf8
convert_utf16_to_utf8-Converts cap xs scalars = convert_scalars (utf16_codec cap) xs scalars

-- On the UTF-8 of scalar values, at any capacity and in strict mode, ConvertUTF8toUTF16 returns: it
-- has stored the UTF-16 of the first of them, succeeds if these are all and otherwise reports that
-- the target is exhausted, where the next one would not fit, and leaves the source at the rest.
pub convert_utf8_to_utf16-Converts :
    (cap : Option ℕ) (xs : List ℕ)
    → All IsScalar xs
    → (r : ConversionResult) × (c : Cursor) × (convert_utf8_to_utf16
          (flat_map utf8 xs)
          cap
          strict_conversion
        ≡ some (r, c))
      × Converts cap utf8 utf16 xs r c
unfolding convert_utf8_to_utf16
convert_utf8_to_utf16-Converts cap xs scalars = convert_scalars (utf8_codec cap) xs scalars

-- Where ConvertUTF16toUTF8 succeeds in strict mode, on any units below 2^16, the units were the
-- UTF-16 of scalar values; all of them have been read, and the UTF-8 of the scalar values has been
-- stored, or only counted if there is no target.
pub convert_utf16_to_utf8_sound :
    (cap : Option ℕ) (us : List ℕ) (c : Cursor)
    → All (λ u. u < 2 ^ 16) us
    → convert_utf16_to_utf8 us cap strict_conversion ≡ some (conversion_ok, c)
    → (xs : List ℕ) × All IsScalar xs
      × (us ≡ flat_map utf16 xs)
      × (c.source ≡ [])
      × (c.target ≡ length (flat_map utf8 xs))
      × (c.written ≡ stored cap (flat_map utf8 xs))
unfolding convert_utf16_to_utf8
convert_utf16_to_utf8_sound cap us c units h = convert_ok (utf16_codec cap) us c units h

-- Where ConvertUTF8toUTF16 succeeds in strict mode, on any bytes in which no 0xed or 0xf4 has a
-- byte below 0x80 behind it, the bytes were the UTF-8 of scalar values; all of them have been read,
-- and the UTF-16 of the scalar values has been stored, or only counted if there is no target.
pub convert_utf8_to_utf16_sound :
    (cap : Option ℕ) (us : List ℕ) (c : Cursor)
    → IsClean us
    → convert_utf8_to_utf16 us cap strict_conversion ≡ some (conversion_ok, c)
    → (xs : List ℕ) × All IsScalar xs
      × (us ≡ flat_map utf8 xs)
      × (c.source ≡ [])
      × (c.target ≡ length (flat_map utf16 xs))
      × (c.written ≡ stored cap (flat_map utf16 xs))
unfolding convert_utf8_to_utf16
convert_utf8_to_utf16_sound cap us c clean h = convert_ok (utf8_codec cap) us c clean h

flat_map_middle :
    (f : ℕ → List ℕ) (ys : List ℕ) (x : ℕ) (zs : List ℕ)
    → flat_map f (ys ++ x ∷ zs) ≡ flat_map f ys ++ f x ++ flat_map f zs
unfolding flat_map
flat_map_middle f [] x zs = refl
flat_map_middle f (y ∷ ys) x zs = simp (flat_map_middle f ys x zs, append_assoc)

no_room :
    (cap : Option ℕ) (done new later : List ℕ)
    → overflows cap (length done) (length new) ≡ true
    → overflows cap 0 (length (done ++ new ++ later)) ≡ false
    → ⊥
no_room none done new later full room = cc
no_room (some n) done new later full room =
    ground (arith, length-append (done ++ new) later, length-append done new)

-- A conversion for which there is room is complete.
module _ {cap : Option ℕ} {enc_in enc_out : ℕ → List ℕ} {xs : List ℕ} {r : ConversionResult}
    {c : Cursor} where
  pub all_converted :
      Converts cap enc_in enc_out xs r c
      → overflows cap 0 (length (flat_map enc_out xs)) ≡ false
      → (r ≡ conversion_ok)
        × (c ≡ cursor [] (length (flat_map enc_out xs)) (stored cap (flat_map enc_out xs)))
  unfolding flat_map
  all_converted conv room =
      let all : (r ≡ conversion_ok) × (conv.left ≡ []) = elim conv.finish [
        | inl f ↦ f
        | inr (_, (x, later, left, full)) ↦
            let whole : flat_map enc_out xs
                ≡ flat_map enc_out conv.done ++ enc_out x ++ flat_map enc_out later =
              ap (flat_map enc_out) (sym conv.splits ∙ ap (λ l. conv.done ++ l) left)
              ∙ flat_map_middle enc_out conv.done x later in
            absurd (no_room cap _ (enc_out x) _ full (rw whole at room))
      ] in
      let done : conv.done ≡ xs =
        sym (append-nil conv.done) ∙ ap (λ l. conv.done ++ l) (sym all.1) ∙ conv.splits in
      let source : c.source ≡ [] = conv.source ∙ ap (flat_map enc_in) all.1 in
      let target : c.target ≡ length (flat_map enc_out xs) =
        conv.target ∙ ap (λ l. length (flat_map enc_out l)) done in
      let written : c.written ≡ stored cap (flat_map enc_out xs) =
        conv.written ∙ ap (λ l. stored cap (flat_map enc_out l)) done in
      (all.0, λ i. record { source = source i; target = target i; written = written i })

-- A conversion for which there is no room is cut short.
pub cut_short :
    {n : ℕ} {enc_in enc_out : ℕ → List ℕ} {xs : List ℕ} {r : ConversionResult} {c : Cursor}
    → Converts (some n) enc_in enc_out xs r c
    → n < length (flat_map enc_out xs)
    → c.target ≤ n
    → r ≡ target_exhausted
cut_short {enc_out} {xs} conv tight safe = elim conv.finish [
  | inl (_, left) ↦
      let done : conv.done ≡ xs =
        sym (append-nil conv.done) ∙ ap (λ l. conv.done ++ l) (sym left) ∙ conv.splits in
      absurd (omega (arith, conv.target, ap (λ l. length (flat_map enc_out l)) done))
  | inr (e, _) ↦ e
]

second :
    {r r' : ConversionResult} {c c' : Cursor}
    → ◌≡◌ {A = Option (ConversionResult × Cursor)} (some (r, c)) (some (r', c'))
    → c ≡ c'
second h = cc h

-- With at least as much room as the encodings take, the UTF-16 of scalar values is converted to
-- UTF-8 by ConvertUTF16toUTF8, and what it has stored is converted by ConvertUTF8toUTF16 to the
-- UTF-16 again, both in strict mode and successfully.
pub utf16-utf8-utf16 :
    (xs : List ℕ) (m n : ℕ)
    → All IsScalar xs
    → length (flat_map utf8 xs) ≤ m
    → length (flat_map utf16 xs) ≤ n
    → (b c : Cursor) × (convert_utf16_to_utf8 (flat_map utf16 xs) (some m) strict_conversion
        ≡ some (conversion_ok, b))
      × (convert_utf8_to_utf16 b.written (some n) strict_conversion ≡ some (conversion_ok, c))
      × (c.written ≡ flat_map utf16 xs)
utf16-utf8-utf16 xs m n scalars hm hn =
    let (r, b, there, conv) = convert_utf16_to_utf8-Converts (some m) xs scalars in
    let (r', c, back, conv') = convert_utf8_to_utf16-Converts (some n) xs scalars in
    let (ok, bytes) = all_converted conv (ground arith) in
    let (ok', units) = all_converted conv' (ground arith) in
    let source : b.written ≡ flat_map utf8 xs = ap (λ (k : Cursor). k.written) bytes in
    (b, c, rw (← ok) there, rw (source, ← ok') back, ap (λ (k : Cursor). k.written) units)

-- On the UTF-8 of scalar values, in strict mode, ConvertUTF8toUTF16 with no target succeeds and
-- counts the units of their UTF-16; with a target it succeeds if there is room for that many units,
-- and otherwise reports that the target is exhausted.
pub length_first :
    (xs : List ℕ) (n : ℕ)
    → All IsScalar xs
    → (c d : Cursor) × (convert_utf8_to_utf16 (flat_map utf8 xs) none strict_conversion
        ≡ some (conversion_ok, c))
      × (c.target ≡ length (flat_map utf16 xs))
      × (convert_utf8_to_utf16 (flat_map utf8 xs) (some n) strict_conversion
          ≡ some ((if leb c.target n then conversion_ok else target_exhausted), d))
length_first xs n scalars =
    let (r, c, went, conv) = convert_utf8_to_utf16-Converts none xs scalars in
    let (ok, there) = all_converted conv refl in
    let size : c.target ≡ length (flat_map utf16 xs) = ap (λ (k : Cursor). k.target) there in
    let (r', d, went', conv') = convert_utf8_to_utf16-Converts (some n) xs scalars in
    let (r'', d', went'', inside) =
      convert_utf8_to_utf16-InTarget (flat_map utf8 xs) (some n) strict_conversion in
    let same : some (r', d) ≡ some (r'', d') = sym went' ∙ went'' in
    let here : d ≡ d' = second same in
    let safe : d.target ≤ n = omega (arith, ap (λ (k : Cursor). k.target) here, inside.1) in
    (
      c,
      d,
      rw (← ok) went,
      size,
      elim (Bool-cases (leb c.target n)) [
        | inl room ↦
            let (ok', there') = all_converted conv' (ground arith) in rw room (rw (← ok') went')
        | inr tight ↦
            let cut : r' ≡ target_exhausted = cut_short conv' (ground arith) safe in
            rw tight (rw (← cut) went')
      ],
    )
