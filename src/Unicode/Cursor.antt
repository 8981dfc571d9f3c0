-- ===== src/Unicode/Cursor.antt =====
-- libuzi/unicode.c: the types that both converters share, and their loop.
-- A source pointer is the list of the units that lie between it and the end of the source. A target
-- pointer is its distance from the start of the target, beside the units stored so far. A null
-- target end, which asks for the length only, is the capacity `none`.
use libuzi.Common.{
  ℕ, zero, suc, ◌+◌, Bool, false, Option, none, some, List, [], ◌∷◌, ◌++◌, ltb, length,
}

pub data ConversionResult : Type 0 where
  conversion_ok : ConversionResult
  source_exhausted : ConversionResult
  target_exhausted : ConversionResult
  source_illegal : ConversionResult

pub data ConversionFlags : Type 0 where
  strict_conversion : ConversionFlags
  lenient_conversion : ConversionFlags

abbrev pub uni_replacement_char : ℕ
uni_replacement_char = 0xfffd

abbrev pub uni_max_bmp : ℕ
uni_max_bmp = 0xffff

abbrev pub uni_max_utf16 : ℕ
uni_max_utf16 = 0x10ffff

abbrev pub half_base : ℕ
half_base = 0x10000

abbrev pub uni_sur_high_start : ℕ
uni_sur_high_start = 0xd800

abbrev pub uni_sur_high_end : ℕ
uni_sur_high_end = 0xdbff

abbrev pub uni_sur_low_start : ℕ
uni_sur_low_start = 0xdc00

abbrev pub uni_sur_low_end : ℕ
uni_sur_low_end = 0xdfff

pub record Cursor : Type 0 where
  pub source : List ℕ
  pub target : ℕ
  pub written : List ℕ

-- `*sourceStart` and `*targetStart` as the caller gives them
abbrev pub at_start : List ℕ → Cursor
at_start source = record { source = source; target = 0; written = [] }

-- `target + n > targetEnd`, unless only the length is computed
abbrev pub overflows : Option ℕ → ℕ → ℕ → Bool
overflows none target n = false
overflows (some cap) target n = ltb cap (target + n)

-- Stores the units, or only moves the target pointer, and leaves the source at `rest`.
abbrev pub emit : Option ℕ → Cursor → List ℕ → List ℕ → Cursor
emit none c units rest = record {
  source = rest;
  target = c.target + length units;
  written = c.written;
}
emit (some cap) c units rest = record {
  source = rest;
  target = c.target + length units;
  written = c.written ++ units;
}

-- One round of the loop of a converter: `break` with a result, or the pointers that it has reached.
-- Every `break` has put both pointers back to where the round began.
pub data Round : Type 0 where
  stop : ConversionResult → Round
  next : Cursor → Round

-- `while (source < sourceEnd)`; `none` means that the fuel ran out.
unfoldable pub run : ℕ → (Cursor → Round) → Cursor → Option (ConversionResult × Cursor)
run zero step c = none
run (suc fuel) step c = elim c.source [
  | [] ↦ some (conversion_ok, c)
  | u ∷ us ↦ elim (step c) [ stop r ↦ some (r, c) | next c' ↦ run fuel step c' ]
]

-- What the head of a round reads: a character with the source behind it, or a `break`.
pub data Fetch : Type 0 where
  fail : ConversionResult → Fetch
  got : (ch : ℕ) (rest : List ℕ) → Fetch
