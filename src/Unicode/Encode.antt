-- ===== src/Unicode/Encode.antt =====
-- The rounds of ConvertUTF16toUTF8 in strict mode decode UTF-16 and encode UTF-8.
use libuzi.Common.{
  ℕ, ◌+◌, ◌/◌, ◌%◌, ◌^◌, ◌<◌, ◌≡◌, refl, ◌≢◌, inl, inr, ◌&&◌, true, Option, List, [], ◌∷◌, ◌++◌,
  ltb, ◌==◌, ==_iff, if◌then◌else◌, Bool-cases, length, All, arith, bit_or,
}
use libuzi.Common.Bits.{holds_below, holds_below_sound, bit_and_mark, bit_or_flag, bit_or-zero}
use libuzi.Unicode.Cursor.{
  conversion_ok, target_exhausted, strict_conversion, Cursor, overflows, emit, stop, next, Fetch,
  fail, got,
}
use libuzi.Unicode.Scalar.{IsScalar, utf8, utf16, utf16-pos}
use libuzi.Unicode.Loop.{All-drop, Codec, cursor, emit-source}
use libuzi.Unicode.Utf16.{fetch, put_bytes, bytes_to_write, trail_byte, char_bytes, utf16_round}

trail_byte_lem : (ch : ℕ) → trail_byte ch ≡ 0x80 + ch % 64
unfolding trail_byte
trail_byte_lem ch = omega (arith, bit_and_mark (bit_or ch 0x80), bit_or_flag ch)

first_table :
    holds_below (λ c. bit_or c 0xc0 % 256 == 0xc0 + c) 32
      && holds_below (λ c. bit_or c 0xe0 % 256 == 0xe0 + c) 16
      && holds_below (λ c. bit_or c 0xf0 % 256 == 0xf0 + c) 8
    ≡ true
unfolding holds_below
first_table = refl

first_2 : (c : ℕ) → c < 32 → bit_or c 0xc0 % 256 ≡ 0xc0 + c
first_2 c h =
    (==_iff _ _).0 (
      holds_below_sound (λ c. bit_or c 0xc0 % 256 == 0xc0 + c) 32 c h (ground (arith, first_table)))

first_3 : (c : ℕ) → c < 16 → bit_or c 0xe0 % 256 ≡ 0xe0 + c
first_3 c h =
    (==_iff _ _).0 (
      holds_below_sound (λ c. bit_or c 0xe0 % 256 == 0xe0 + c) 16 c h (ground (arith, first_table)))

first_4 : (c : ℕ) → c < 8 → bit_or c 0xf0 % 256 ≡ 0xf0 + c
first_4 c h =
    (==_iff _ _).0
      (holds_below_sound (λ c. bit_or c 0xf0 % 256 == 0xf0 + c) 8 c h (ground (arith, first_table)))

-- The bytes stored for a character are its UTF-8 encoding, the surrogates included.
pub char_bytes-utf8 : (ch : ℕ) → ch < 0x110000 → char_bytes ch ≡ utf8 ch
unfolding char_bytes utf8
char_bytes-utf8 ch h = ground (
  arith,
  trail_byte_lem ch,
  trail_byte_lem (ch / 2 ^ 6),
  trail_byte_lem (ch / 2 ^ 6 / 2 ^ 6),
  bit_or-zero ch,
  first_2 (ch / 2 ^ 6),
  first_3 (ch / 2 ^ 6 / 2 ^ 6),
  first_4 (ch / 2 ^ 6 / 2 ^ 6 / 2 ^ 6),
)

pub bytes_to_write-utf8 : (ch : ℕ) → ch < 0x110000 → (bytes_to_write ch).0 ≡ length (utf8 ch)
unfolding bytes_to_write utf8
bytes_to_write-utf8 ch h = ground arith

-- Reading one scalar value off its UTF-16 encoding.
fetch-utf16 :
    (x : ℕ) (rest : List ℕ) → IsScalar x → fetch strict_conversion (utf16 x ++ rest) ≡ got x rest
unfolding fetch utf16
fetch-utf16 x rest h = elim (Bool-cases (ltb x 0x10000)) [
  | inl e ↦ rw e (ground arith)
  | inr e ↦ rw e (ground arith)
]

-- What a successful read has read.
fetch_sound :
    (us : List ℕ) (x : ℕ) (rest : List ℕ)
    → All (λ u. u < 2 ^ 16) us
    → fetch strict_conversion us ≡ got x rest
    → IsScalar x × (us ≡ utf16 x ++ rest)
unfolding fetch utf16
fetch_sound [] x rest units h = cc
fetch_sound (u ∷ []) x rest units h = ground arith
fetch_sound (u ∷ v ∷ us) x rest units h = ground arith

IsScalar-lt : (x : ℕ) → IsScalar x → x < 0x110000
IsScalar-lt x h = omega arith

fetch-ne-ok : (us : List ℕ) → fetch strict_conversion us ≢ fail conversion_ok
unfolding fetch
fetch-ne-ok [] h = cc
fetch-ne-ok (u ∷ []) h = ground arith
fetch-ne-ok (u ∷ v ∷ us) h = ground arith

module _ (cap : Option ℕ) where
  pub round_takes :
      (x : ℕ)
      → IsScalar x
      → (rest : List ℕ) (t : ℕ) (w : List ℕ)
      → utf16_round strict_conversion cap (cursor (utf16 x ++ rest) t w) ≡ (
          if overflows cap t (length (utf8 x))
          then stop target_exhausted
          else next (emit cap (cursor (utf16 x ++ rest) t w) (utf8 x) rest))
  unfolding utf16_round put_bytes
  round_takes x h rest t w =
      let small = IsScalar-lt x h in
      rw (fetch-utf16 x rest h, bytes_to_write-utf8 x small, char_bytes-utf8 x small)

  put_bytes_next :
      (c c' : Cursor) (f : Fetch) → put_bytes cap c f ≡ next c' → (x : ℕ) × (f ≡ got x c'.source)
  unfolding put_bytes
  put_bytes_next c c' (fail r) h = cc
  put_bytes_next c c' (got x rest) h = (x, ground (arith, emit-source cap c (char_bytes x) rest))

  pub round_only :
      (c c' : Cursor)
      → All (λ u. u < 2 ^ 16) c.source
      → utf16_round strict_conversion cap c ≡ next c'
      → (x : ℕ) × IsScalar x × (c.source ≡ utf16 x ++ c'.source)
  unfolding utf16_round
  round_only c c' units h =
      let (x, read) = put_bytes_next c c' (fetch strict_conversion c.source) h in
      let (scalar, source) = fetch_sound c.source x c'.source units read in (x, scalar, source)

  put_bytes_no_ok :
      (c : Cursor) (f : Fetch) → f ≢ fail conversion_ok → put_bytes cap c f ≢ stop conversion_ok
  unfolding put_bytes
  put_bytes_no_ok c (fail r) ne h = ne (cc)
  put_bytes_no_ok c (got x rest) ne h = ground arith

  pub round_no_ok : (c : Cursor) → utf16_round strict_conversion cap c ≢ stop conversion_ok
  unfolding utf16_round
  round_no_ok c = put_bytes_no_ok c (fetch strict_conversion c.source) (fetch-ne-ok c.source)

  abbrev pub utf16_codec : Codec cap
  utf16_codec = record {
    IsClean = All (λ u. u < 2 ^ 16);
    clean-drop = All-drop (λ u. u < 2 ^ 16);
    round = utf16_round strict_conversion cap;
    enc_in = utf16;
    enc_out = utf8;
    enc_in-pos = utf16-pos;
    takes = round_takes;
    only_scalars = round_only;
    no_false_ok = round_no_ok;
  }
