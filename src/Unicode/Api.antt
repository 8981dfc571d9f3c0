-- ===== src/Unicode/Api.antt =====
-- libuzi/unicode.c: uzi_wcslen, UziUtf8toUtf16 and UziUtf16toUtf8.
-- A buffer is the list of its units. The length -1 is `none`. A read behind the buffer is `none`.
-- A length is a C int; it is kept a number, as buffers of 2^31 units are not considered.
use libuzi.Common.{
  ℕ, suc, ◌+◌, Option, none, some, List, [], ◌∷◌, leb, ◌==◌, if◌then◌else◌, length, take,
}
use mathlib.Core.Option
use libuzi.Unicode.Cursor.{ConversionResult, conversion_ok, strict_conversion, Cursor}
use libuzi.Unicode.Utf16.{convert_utf16_to_utf8}
use libuzi.Unicode.Utf8.{convert_utf8_to_utf16}

-- The loop of uzi_wcslen on a string that is not null, and strlen: the units before the first 0.
unfoldable pub string_length : List ℕ → Option ℕ
string_length [] = none
string_length (u ∷ us) = if u == 0 then some 0 else Option.map suc (string_length us)

-- uzi_wcslen; a null string is `none`
unfoldable pub uzi_wcslen : Option (List ℕ) → Option ℕ
uzi_wcslen none = some 0
uzi_wcslen (some str) = string_length str

-- `srcBeg` to `srcEnd`, after the test for -1
unfoldable pub source_units : List ℕ → Option ℕ → Option (List ℕ)
source_units src (some n) = if leb n (length src) then some (take n src) else none
source_units src none = Option.map (λ n. take (n + 1) src) (string_length src)

-- `targetEnd`: null where `cchDst` is 0
abbrev pub capacity : ℕ → Option ℕ
capacity cch_dst = if cch_dst == 0 then none else some cch_dst

-- The returned length, with the units stored in `dst`.
unfoldable pub returned : ConversionResult × Cursor → ℕ × List ℕ
returned (conversion_ok, c) = (c.target, c.written)
returned (_, c) = (0, c.written)

unfoldable pub uzi_utf8_to_utf16 : List ℕ → Option ℕ → ℕ → Option (ℕ × List ℕ)
uzi_utf8_to_utf16 src cch_src cch_dst =
    Option.bind (source_units src cch_src)
      λ us. Option.map returned (convert_utf8_to_utf16 us (capacity cch_dst) strict_conversion)

unfoldable pub uzi_utf16_to_utf8 : List ℕ → Option ℕ → ℕ → Option (ℕ × List ℕ)
uzi_utf16_to_utf8 src cch_src cch_dst =
    Option.bind (source_units src cch_src)
      λ us. Option.map returned (convert_utf16_to_utf8 us (capacity cch_dst) strict_conversion)
