-- ===== src/Unicode/Utf8.antt =====
-- libuzi/unicode.c: isLegalUTF8, isLegalUTF8Sequence and ConvertUTF8toUTF16.
use libuzi.Common.{
  ℕ, zero, suc, ◌+◌, ◌-◌, ◌*◌, ◌/◌, ◌%◌, ◌^◌, Bool, true, false, ◌&&◌, ◌||◌, Option, List, [], ◌∷◌,
  ◌++◌, ltb, leb, ◌==◌, if◌then◌else◌, length, get_or, replicate, bit_and,
}
use libuzi.Unicode.Cursor.{
  ConversionResult, source_exhausted, target_exhausted, source_illegal, ConversionFlags,
  strict_conversion, lenient_conversion, uni_replacement_char, uni_max_bmp, uni_max_utf16,
  half_base, uni_sur_high_start, uni_sur_low_start, uni_sur_low_end, Cursor, at_start, overflows,
  emit, Round, stop, next, run, Fetch, fail, got,
}

-- trailingBytesForUTF8: six rows of 0, a row of 1, and a row of 2, 3, 4 and 5.
unfoldable pub trailing_bytes_for_utf8 : List ℕ
trailing_bytes_for_utf8 =
    replicate 192 0
    ++ replicate 32 1
    ++ replicate 16 2
    ++ replicate 8 3
    ++ replicate 4 4
    ++ replicate 4 5

unfoldable pub trailing_bytes : ℕ → ℕ
unfolding trailing_bytes_for_utf8
trailing_bytes b = get_or trailing_bytes_for_utf8 b 0

abbrev pub offsets_from_utf8 : List ℕ
offsets_from_utf8 = 0x00000000 ∷ 0x00003080 ∷ 0x000e2080 ∷ 0x03c82080 ∷ 0xfa082080 ∷ 0x82082080 ∷ []

-- The cases of the `switch` of isLegalUTF8 on `*source`: whether `a` is refused as second byte.
unfoldable pub refuses_second : ℕ → ℕ → Bool
refuses_second first a =
    if first == 0xe0
    then ltb a 0xa0
    else if first == 0xed
    then ltb 0x9f a
    else if first == 0xf0
    then ltb a 0x90
    else if first == 0xf4
    then ltb 0x8f a
    else ltb a 0x80

-- `case 1` of isLegalUTF8, and the test behind the `switch`.
unfoldable pub is_legal_1 : List ℕ → Bool
is_legal_1 source =
    let first = get_or source 0 0 in
    if leb 0x80 first && ltb first 0xc2 then false else if ltb 0xf4 first then false else true

unfoldable pub is_legal_2 : List ℕ → Bool
unfolding refuses_second is_legal_1
is_legal_2 source =
    let a = get_or source 1 0 in
    if ltb 0xbf a
    then false
    else if refuses_second (get_or source 0 0) a
    then false
    else is_legal_1 source

unfoldable pub is_legal_3 : List ℕ → Bool
unfolding is_legal_2
is_legal_3 source =
    let a = get_or source 2 0 in if ltb a 0x80 || ltb 0xbf a then false else is_legal_2 source

unfoldable pub is_legal_4 : List ℕ → Bool
unfolding is_legal_3
is_legal_4 source =
    let a = get_or source 3 0 in if ltb a 0x80 || ltb 0xbf a then false else is_legal_3 source

-- isLegalUTF8: the bytes from `source` on, `length` of which are looked at.
unfoldable pub is_legal_utf8 : List ℕ → ℕ → Bool
unfolding is_legal_4
is_legal_utf8 source length =
    if length == 4
    then is_legal_4 source
    else if length == 3
    then is_legal_3 source
    else if length == 2
    then is_legal_2 source
    else if length == 1
    then is_legal_1 source
    else false

-- isLegalUTF8Sequence: `source` lists the bytes up to `sourceEnd`. The first byte is read, so an
-- empty list is outside of what the function may be called with; the model says false.
unfoldable pub is_legal_utf8_sequence : List ℕ → Bool
is_legal_utf8_sequence [] = false
is_legal_utf8_sequence (b ∷ source) =
    let n = trailing_bytes b + 1 in
    if ltb (length source + 1) n then false else is_legal_utf8 (b ∷ source) n

-- The `switch` whose cases fall through: `ch += *source++; ch <<= 6;` for each of `extra` bytes,
-- and `ch += *source++;` for the last. The source holds them all.
unfoldable pub gather : (extra : ℕ) → ℕ → List ℕ → ℕ × List ℕ
gather extra ch [] = (ch, [])
gather zero ch (b ∷ rest) = ((ch + b) % 2 ^ 32, rest)
gather (suc extra) ch (b ∷ rest) = gather extra ((ch + b) % 2 ^ 32 * 2 ^ 6 % 2 ^ 32) rest

-- The decoded character, and the source behind it.
unfoldable pub decode : (extra : ℕ) → List ℕ → ℕ × List ℕ
unfolding gather
decode extra source =
    let (ch, rest) = gather extra 0 source in
    ((ch + 2 ^ 32 - get_or offsets_from_utf8 extra 0) % 2 ^ 32, rest)

-- What a round reads from its source, which holds at least one byte.
unfoldable pub fetch_utf8 : List ℕ → Fetch
fetch_utf8 source =
    let extra = trailing_bytes (get_or source 0 0) in
    if leb (length source) extra
    then fail source_exhausted
    else if is_legal_utf8 source (extra + 1)
    then (let (ch, rest) = decode extra source in got ch rest)
    else fail source_illegal

-- A character that UTF-16 cannot hold: a `break` in strict mode, replaced in lenient mode.
unfoldable pub replace_or_fail : ConversionFlags → Option ℕ → Cursor → List ℕ → Round
replace_or_fail strict_conversion cap c rest = stop source_illegal
replace_or_fail lenient_conversion cap c rest = next (emit cap c (uni_replacement_char ∷ []) rest)

-- The code units of a character above the BMP.
unfoldable pub surrogates : ℕ → List ℕ
surrogates ch =
    let ch' = ch - half_base in
    (ch' / 2 ^ 10 + uni_sur_high_start) % 2 ^ 16
    ∷ (bit_and ch' 0x3ff + uni_sur_low_start) % 2 ^ 16
    ∷ []

-- The tests on the decoded character `ch`, with `rest` behind it.
unfoldable pub put_char : ConversionFlags → Option ℕ → Cursor → ℕ → List ℕ → Round
put_char flags cap c ch rest =
    if overflows cap c.target 1
    then stop target_exhausted
    else if leb ch uni_max_bmp
    then (if leb uni_sur_high_start ch && leb ch uni_sur_low_end
        then replace_or_fail flags cap c rest
        else next (emit cap c (ch % 2 ^ 16 ∷ []) rest))
    else if ltb uni_max_utf16 ch
    then replace_or_fail flags cap c rest
    else if overflows cap c.target 2
    then stop target_exhausted
    else next (emit cap c (surrogates ch) rest)

unfoldable pub put_fetched : ConversionFlags → Option ℕ → Cursor → Fetch → Round
put_fetched flags cap c (fail r) = stop r
put_fetched flags cap c (got ch rest) = put_char flags cap c ch rest

-- One round of the loop of ConvertUTF8toUTF16.
unfoldable pub utf8_round : ConversionFlags → Option ℕ → Cursor → Round
utf8_round flags cap c = put_fetched flags cap c (fetch_utf8 c.source)

unfoldable pub convert_utf8_to_utf16 :
    List ℕ → Option ℕ → ConversionFlags → Option (ConversionResult × Cursor)
convert_utf8_to_utf16 source cap flags =
    run (length source + 1) (utf8_round flags cap) (at_start source)
