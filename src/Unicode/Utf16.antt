-- ===== src/Unicode/Utf16.antt =====
-- libuzi/unicode.c: ConvertUTF16toUTF8.
use libuzi.Common.{
  ℕ, zero, suc, ◌+◌, ◌-◌, ◌*◌, ◌/◌, ◌%◌, ◌^◌, Bool, ◌&&◌, Option, List, [], ◌∷◌, ltb, leb,
  if◌then◌else◌, length, get_or, bit_and, bit_or,
}
use libuzi.Unicode.Cursor.{
  ConversionResult, source_exhausted, target_exhausted, source_illegal, ConversionFlags,
  strict_conversion, lenient_conversion, uni_replacement_char, half_base, uni_sur_high_start,
  uni_sur_high_end, uni_sur_low_start, uni_sur_low_end, Cursor, at_start, overflows, emit, Round,
  stop, next, run, Fetch, fail, got,
}

abbrev pub first_byte_mark : List ℕ
first_byte_mark = 0x00 ∷ 0x00 ∷ 0xc0 ∷ 0xe0 ∷ 0xf0 ∷ 0xf8 ∷ 0xfc ∷ []

abbrev is_high : ℕ → Bool
is_high ch = leb uni_sur_high_start ch && leb ch uni_sur_high_end

abbrev is_low : ℕ → Bool
is_low ch = leb uni_sur_low_start ch && leb ch uni_sur_low_end

-- A high surrogate `ch` whose successor is looked at.
unfoldable pub fetch_pair : ConversionFlags → ℕ → List ℕ → Fetch
fetch_pair flags ch [] = fail source_exhausted
fetch_pair strict_conversion ch (ch2 ∷ rest) =
    if is_low ch2
    then got ((ch - uni_sur_high_start) * 2 ^ 10 + (ch2 - uni_sur_low_start) + half_base) rest
    else fail source_illegal
fetch_pair lenient_conversion ch (ch2 ∷ rest) =
    if is_low ch2
    then got ((ch - uni_sur_high_start) * 2 ^ 10 + (ch2 - uni_sur_low_start) + half_base) rest
    else got ch (ch2 ∷ rest)

-- Any other unit.
unfoldable pub fetch_single : ConversionFlags → ℕ → List ℕ → Fetch
fetch_single strict_conversion ch rest = if is_low ch then fail source_illegal else got ch rest
fetch_single lenient_conversion ch rest = got ch rest

unfoldable pub fetch : ConversionFlags → List ℕ → Fetch
unfolding fetch_pair fetch_single
fetch flags [] = fail source_exhausted
fetch flags (ch ∷ rest) =
    if is_high ch then fetch_pair flags ch rest else fetch_single flags ch rest

-- How many bytes the result will require, with the character, replaced if it is out of range.
unfoldable pub bytes_to_write : ℕ → ℕ × ℕ
bytes_to_write ch =
    if ltb ch 0x80
    then (1, ch)
    else if ltb ch 0x800
    then (2, ch)
    else if ltb ch 0x10000
    then (3, ch)
    else if ltb ch 0x110000
    then (4, ch)
    else (3, uni_replacement_char)

-- `(uint8_t)((ch | byteMark) & byteMask)`
unfoldable pub trail_byte : ℕ → ℕ
trail_byte ch = bit_and (bit_or ch 0x80) 0xbf % 256

-- The `switch` whose cases fall through: `fall` more trail bytes are stored in front of `stored`,
-- and then the first byte, with the mark for `n` bytes.
unfoldable pub store_bytes : (n fall : ℕ) → ℕ → List ℕ → List ℕ
unfolding trail_byte
store_bytes n zero ch stored = bit_or ch (get_or first_byte_mark n 0) % 256 ∷ stored
store_bytes n (suc fall) ch stored = store_bytes n fall (ch / 2 ^ 6) (trail_byte ch ∷ stored)

unfoldable pub char_bytes : ℕ → List ℕ
unfolding bytes_to_write store_bytes
char_bytes ch = let (n, ch') = bytes_to_write ch in store_bytes n (n - 1) ch' []

-- The rest of a round: `break`, or the bytes of the character if there is room for them.
unfoldable pub put_bytes : Option ℕ → Cursor → Fetch → Round
put_bytes cap c (fail r) = stop r
put_bytes cap c (got ch rest) =
    if overflows cap c.target (bytes_to_write ch).0
    then stop target_exhausted
    else next (emit cap c (char_bytes ch) rest)

-- One round of the loop of ConvertUTF16toUTF8.
unfoldable pub utf16_round : ConversionFlags → Option ℕ → Cursor → Round
utf16_round flags cap c = put_bytes cap c (fetch flags c.source)

unfoldable pub convert_utf16_to_utf8 :
    List ℕ → Option ℕ → ConversionFlags → Option (ConversionResult × Cursor)
convert_utf16_to_utf8 source cap flags =
    run (length source + 1) (utf16_round flags cap) (at_start source)
