-- ===== src/Unicode/Tests.antt =====
-- Tests of the converters, and the theorems at concrete inputs.
use libuzi.Common.{
  ℕ, ◌≡◌, ◌↔◌, refl, inl, inr, true, none, some, List, [], ◌∷◌, ◌++◌, length, All, arith, flat_map,
}
use libuzi.Unicode.Cursor.{
  ConversionResult, Cursor, conversion_ok, target_exhausted, source_illegal, strict_conversion,
  lenient_conversion, run,
}
use libuzi.Unicode.Scalar.{IsScalar, utf8, utf16}
use libuzi.Unicode.Loop.{cursor, Converts}
use libuzi.Unicode.Utf16.{convert_utf16_to_utf8, utf16_round, put_bytes, fetch, char_bytes}
use libuzi.Unicode.Utf8.{
  convert_utf8_to_utf16, utf8_round, put_fetched, put_char, fetch_utf8, decode, is_legal_utf8,
  is_legal_utf8_sequence, surrogates, replace_or_fail, trailing_bytes,
}
use libuzi.Unicode.Decode.{IsClean, StartsWithScalar}
use libuzi.Unicode.Sequence.{is_legal_utf8_sequence_lem}
use libuzi.Unicode.Safety.{InTarget, convert_utf16_to_utf8-InTarget, convert_utf8_to_utf16-InTarget}
use libuzi.Unicode.RoundTrip.{
  convert_utf16_to_utf8-Converts, convert_utf8_to_utf16-Converts, utf16-utf8-utf16,
}
use libuzi.Unicode.Lax.{lax_converts}
use libuzi.Unicode.Api.{uzi_utf8_to_utf16}
use libuzi.Unicode.Strings.{IsText, uzi_utf8_to_utf16_two_calls}

letter_and_emoji :
    convert_utf16_to_utf8 (0x41 ∷ 0xd83d ∷ 0xde00 ∷ []) (some 9) strict_conversion
    ≡ some (
      conversion_ok,
      record { source = []; target = 5; written = 0x41 ∷ 0xf0 ∷ 0x9f ∷ 0x98 ∷ 0x80 ∷ [] },
    )
unfolding convert_utf16_to_utf8 run utf16_round put_bytes fetch char_bytes
letter_and_emoji = refl

emoji_and_letter :
    convert_utf8_to_utf16 (0xf0 ∷ 0x9f ∷ 0x98 ∷ 0x80 ∷ 0x41 ∷ []) (some 3) strict_conversion
    ≡ some
        (conversion_ok, record { source = []; target = 3; written = 0xd83d ∷ 0xde00 ∷ 0x41 ∷ [] })
unfolding convert_utf8_to_utf16 run utf8_round put_fetched put_char fetch_utf8 decode is_legal_utf8
    surrogates replace_or_fail trailing_bytes
emoji_and_letter = refl

too_short :
    convert_utf8_to_utf16 (0xf0 ∷ 0x9f ∷ 0x98 ∷ 0x80 ∷ []) (some 1) strict_conversion
    ≡ some (
      target_exhausted,
      record { source = 0xf0 ∷ 0x9f ∷ 0x98 ∷ 0x80 ∷ []; target = 0; written = [] },
    )
unfolding convert_utf8_to_utf16 run utf8_round put_fetched put_char fetch_utf8 decode is_legal_utf8
    surrogates replace_or_fail trailing_bytes
too_short = refl

encoded_surrogate :
    convert_utf8_to_utf16 (0xed ∷ 0xa0 ∷ 0x80 ∷ []) none strict_conversion
    ≡ some (source_illegal, record { source = 0xed ∷ 0xa0 ∷ 0x80 ∷ []; target = 0; written = [] })
unfolding convert_utf8_to_utf16 run utf8_round put_fetched put_char fetch_utf8 decode is_legal_utf8
    surrogates replace_or_fail trailing_bytes
encoded_surrogate = refl

-- The letter A and an emoji: the scalar values, the UTF-16 and the UTF-8.
abbrev text : List ℕ
text = 0x41 ∷ 0x1f600 ∷ []

abbrev text_units : List ℕ
text_units = 0x41 ∷ 0xd83d ∷ 0xde00 ∷ []

abbrev text_bytes : List ℕ
text_bytes = 0xf0 ∷ 0x9f ∷ 0x98 ∷ 0x80 ∷ 0x41 ∷ []

text_scalars : All IsScalar text
text_scalars = (inl (omega arith), (inr (omega arith, omega arith), tt))

text_bytes-IsClean : IsClean text_bytes
text_bytes-IsClean = ground arith

text_nonzero : All IsText text
text_nonzero =
    ((omega arith, inl (omega arith)), ((omega arith, inr (omega arith, omega arith)), tt))

convert_utf16_to_utf8-Converts_example :
    (r : ConversionResult) × (c : Cursor) × (convert_utf16_to_utf8
        (flat_map utf16 text)
        (some 3)
        strict_conversion
      ≡ some (r, c))
    × Converts (some 3) utf16 utf8 text r c
convert_utf16_to_utf8-Converts_example = convert_utf16_to_utf8-Converts (some 3) text text_scalars

convert_utf8_to_utf16-Converts_example :
    (r : ConversionResult) × (c : Cursor) × (convert_utf8_to_utf16
        (flat_map utf8 text)
        (some 2)
        strict_conversion
      ≡ some (r, c))
    × Converts (some 2) utf8 utf16 text r c
convert_utf8_to_utf16-Converts_example = convert_utf8_to_utf16-Converts (some 2) text text_scalars

convert_utf16_to_utf8-InTarget_example :
    (r : ConversionResult) × (c : Cursor) × (convert_utf16_to_utf8
        (0xdc00 ∷ 0x41 ∷ [])
        (some 3)
        lenient_conversion
      ≡ some (r, c))
    × InTarget (some 3) c
convert_utf16_to_utf8-InTarget_example =
    convert_utf16_to_utf8-InTarget (0xdc00 ∷ 0x41 ∷ []) (some 3) lenient_conversion

convert_utf8_to_utf16-InTarget_example :
    (r : ConversionResult) × (c : Cursor) × (convert_utf8_to_utf16
        (0xed ∷ 0xa0 ∷ 0x80 ∷ [])
        (some 3)
        lenient_conversion
      ≡ some (r, c))
    × InTarget (some 3) c
convert_utf8_to_utf16-InTarget_example =
    convert_utf8_to_utf16-InTarget (0xed ∷ 0xa0 ∷ 0x80 ∷ []) (some 3) lenient_conversion

utf16-utf8-utf16_example :
    (b c : Cursor) × (convert_utf16_to_utf8 (flat_map utf16 text) (some 5) strict_conversion
      ≡ some (conversion_ok, b))
    × (convert_utf8_to_utf16 b.written (some 3) strict_conversion ≡ some (conversion_ok, c))
    × (c.written ≡ flat_map utf16 text)
unfolding utf8 utf16 flat_map
utf16-utf8-utf16_example = utf16-utf8-utf16 text 5 3 text_scalars (omega arith) (omega arith)

uzi_utf8_to_utf16_two_calls_example :
    let src = flat_map utf8 text ++ 0 ∷ 7 ∷ [] in
    let out = flat_map utf16 text ++ 0 ∷ [] in
    (uzi_utf8_to_utf16 src none 0 ≡ some (length out, []))
    × (uzi_utf8_to_utf16 src none (length out) ≡ some (length out, out))
uzi_utf8_to_utf16_two_calls_example = uzi_utf8_to_utf16_two_calls text (7 ∷ []) text_nonzero

is_legal_utf8_sequence_lem_example :
    is_legal_utf8_sequence text_bytes ≡ true ↔ StartsWithScalar text_bytes
is_legal_utf8_sequence_lem_example = is_legal_utf8_sequence_lem text_bytes text_bytes-IsClean

lax_converts_example :
    (convert_utf8_to_utf16 (0xed ∷ 0x41 ∷ 0x80 ∷ []) (some 1) strict_conversion
      ≡ some (conversion_ok, cursor [] 1 (0xc040 ∷ [])))
    × ¬ StartsWithScalar (0xed ∷ 0x41 ∷ 0x80 ∷ [])
lax_converts_example = lax_converts 0x41 0x80 (omega arith) (omega arith, omega arith)
