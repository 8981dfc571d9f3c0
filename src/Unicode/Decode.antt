-- ===== src/Unicode/Decode.antt =====
-- The rounds of ConvertUTF8toUTF16 in strict mode decode UTF-8 and encode UTF-16.
use libuzi.Common.{
  ℕ, ◌+◌, ◌-◌, ◌/◌, ◌%◌, ◌≤◌, ◌<◌, ◌≡◌, refl, sym, ap, ◌∙◌, ◌≢◌, inl, inr, true, false, Option,
  none, some, List, [], ◌∷◌, ◌++◌, ltb, leb, if◌then◌else◌, Bool-cases, length, length-append,
  arith, get_or,
}
use libuzi.Common.Bits.{bit_and_ten_ones}
use libuzi.Unicode.Cursor.{
  conversion_ok, target_exhausted, strict_conversion, Cursor, overflows, emit, stop, next, Fetch,
  fail, got,
}
use libuzi.Unicode.Scalar.{IsScalar, utf8, utf16, utf8-pos}
use libuzi.Unicode.Loop.{Codec, cursor, emit-source}
use libuzi.Unicode.Legal.{trailing_bytes_lem, extra_of, sound_1, sound_2, sound_3, sound_4}
use libuzi.Unicode.Utf8.{
  trailing_bytes, is_legal_utf8, decode, fetch_utf8, put_char, put_fetched, surrogates, utf8_round,
  replace_or_fail,
}

pub extra-utf8 :
    (x : ℕ) (rest : List ℕ)
    → x < 0x110000
    → trailing_bytes (get_or (utf8 x ++ rest) 0 0) + 1 ≡ length (utf8 x)
unfolding utf8
extra-utf8 x rest h =
    let byte : get_or (utf8 x ++ rest) 0 0 < 256 = ground arith in
    rw (trailing_bytes_lem _ byte) (ground arith)

decode-utf8 :
    (x : ℕ) (rest : List ℕ)
    → x < 0x110000
    → decode (length (utf8 x) - 1) (utf8 x ++ rest) ≡ (x, rest)
unfolding decode utf8
decode-utf8 x rest h = elim (Bool-cases (ltb x 0x80)) [
  | inl e ↦ rw e (ground arith)
  | inr e ↦ rw e (elim (Bool-cases (ltb x 0x800)) [
    | inl f ↦ rw f (ground arith)
    | inr f ↦ rw f (elim (Bool-cases (ltb x 0x10000)) [
      | inl g ↦ rw g (ground arith)
      | inr g ↦ rw g (ground arith)
    ])
  ])
]

legal_4 :
    (a b c d : ℕ) (rest : List ℕ)
    → (0xf0 ≤ a) × (a ≤ 0xf4) × (0x80 ≤ b) × (b ≤ 0xbf)
    → (0x80 ≤ c) × (c ≤ 0xbf) × (0x80 ≤ d) × (d ≤ 0xbf)
    → (a ≡ 0xf0 → 0x90 ≤ b) × (a ≡ 0xf4 → b ≤ 0x8f)
    → is_legal_utf8 (a ∷ b ∷ c ∷ d ∷ rest) 4 ≡ true
unfolding is_legal_utf8
legal_4 a b c d rest h k second = ground arith

legal_3 :
    (a b c : ℕ) (rest : List ℕ)
    → (0xe0 ≤ a) × (a ≤ 0xef) × (0x80 ≤ b) × (b ≤ 0xbf) × (0x80 ≤ c) × (c ≤ 0xbf)
    → (a ≡ 0xe0 → 0xa0 ≤ b) × (a ≡ 0xed → b ≤ 0x9f)
    → is_legal_utf8 (a ∷ b ∷ c ∷ rest) 3 ≡ true
unfolding is_legal_utf8
legal_3 a b c rest h second = ground arith

pub legal-utf8 :
    (x : ℕ) (rest : List ℕ) → IsScalar x → is_legal_utf8 (utf8 x ++ rest) (length (utf8 x)) ≡ true
unfolding is_legal_utf8 utf8
legal-utf8 x rest h = elim (Bool-cases (ltb x 0x80)) [
  | inl e ↦ rw e (ground arith)
  | inr e ↦ rw e (elim (Bool-cases (ltb x 0x800)) [
    | inl f ↦ rw f (ground arith)
    | inr f ↦ rw f (elim (Bool-cases (ltb x 0x10000)) [
      | inl g ↦ rw g (
          legal_3 (0xe0 + x / 4096) (0x80 + x / 64 % 64) (0x80 + x % 64) rest (ground arith)
            (ground arith))
      | inr g ↦ rw g (
          legal_4 (0xf0 + x / 262144) (0x80 + x / 4096 % 64) (0x80 + x / 64 % 64) (0x80 + x % 64)
            rest (ground arith) (omega arith) (ground arith))
    ])
  ])
]

-- Reading one scalar value off its UTF-8 encoding.
fetch-utf8 : (x : ℕ) (rest : List ℕ) → IsScalar x → fetch_utf8 (utf8 x ++ rest) ≡ got x rest
unfolding fetch_utf8
fetch-utf8 x rest h =
    let small : x < 0x110000 = omega arith in
    let extra : trailing_bytes (get_or (utf8 x ++ rest) 0 0) ≡ length (utf8 x) - 1 =
      omega (arith, extra-utf8 x rest small) in
    let whole : length (utf8 x) - 1 + 1 ≡ length (utf8 x) = omega (arith, utf8-pos x) in
    let room : leb (length (utf8 x ++ rest)) (length (utf8 x) - 1) ≡ false =
      ground (arith, utf8-pos x, length-append (utf8 x) rest) in
    rw (extra, room, whole, legal-utf8 x rest h, decode-utf8 x rest small)

-- What a successful read has found.
fetch_legal :
    (us : List ℕ) (x : ℕ) (rest : List ℕ)
    → fetch_utf8 us ≡ got x rest
    → let extra = trailing_bytes (get_or us 0 0) in
      (extra < length us) × (is_legal_utf8 us (extra + 1) ≡ true)
unfolding fetch_utf8
fetch_legal us x rest h = ground arith

-- A byte 0xed or 0xf4 is followed by a byte of at least 0x80, if it is not the last one.
abbrev pub SecondInRange : ℕ → List ℕ → Type 0
SecondInRange a [] = Unit
SecondInRange a (b ∷ us) = ((a ≡ 0xed → 0x80 ≤ b) × (a ≡ 0xf4 → 0x80 ≤ b))

abbrev pub IsClean : List ℕ → Type 0
IsClean [] = Unit
IsClean (a ∷ us) = (a < 256) × SecondInRange a us × IsClean us

pub IsClean-drop : (us rest : List ℕ) → IsClean (us ++ rest) → IsClean rest
IsClean-drop [] rest h = h
IsClean-drop (u ∷ us) rest h = IsClean-drop us rest h.2

abbrev pub StartsWithScalar : List ℕ → Type 0
StartsWithScalar us = (x : ℕ) × (rest : List ℕ) × IsScalar x × (us ≡ utf8 x ++ rest)

starts_2 :
    (a : ℕ) (us : List ℕ)
    → a < 0xe0
    → 0xc0 ≤ a
    → 0 < length us
    → is_legal_utf8 (a ∷ us) 2 ≡ true
    → StartsWithScalar (a ∷ us)
starts_2 a [] h k size legal = absurd (omega arith)
starts_2 a (b ∷ us) h k size legal =
    let (x, scalar, source) = sound_2 us a b h k legal in (x, us, scalar, source)

starts_3 :
    (a : ℕ) (us : List ℕ)
    → IsClean (a ∷ us)
    → a < 0xf0
    → 0xe0 ≤ a
    → 1 < length us
    → is_legal_utf8 (a ∷ us) 3 ≡ true
    → StartsWithScalar (a ∷ us)
starts_3 a [] clean h k size legal = absurd (omega arith)
starts_3 a (b ∷ []) clean h k size legal = absurd (omega arith)
starts_3 a (b ∷ c ∷ us) clean h k size legal =
    let (x, scalar, source) = sound_3 us a b c h k clean.1.0 legal in (x, us, scalar, source)

starts_4 :
    (a : ℕ) (us : List ℕ)
    → IsClean (a ∷ us)
    → 0xf0 ≤ a
    → 2 < length us
    → is_legal_utf8 (a ∷ us) 4 ≡ true
    → StartsWithScalar (a ∷ us)
starts_4 a [] clean k size legal = absurd (omega arith)
starts_4 a (b ∷ []) clean k size legal = absurd (omega arith)
starts_4 a (b ∷ c ∷ []) clean k size legal = absurd (omega arith)
starts_4 a (b ∷ c ∷ d ∷ us) clean k size legal =
    let (x, scalar, source) = sound_4 us a b c d k clean.1.1 legal in (x, us, scalar, source)

pub legal_scalar :
    (a : ℕ) (us : List ℕ) (n : ℕ)
    → IsClean (a ∷ us)
    → n ≡ extra_of a
    → n < length (a ∷ us)
    → is_legal_utf8 (a ∷ us) (n + 1) ≡ true
    → StartsWithScalar (a ∷ us)
legal_scalar a us n clean e size legal = elim (Bool-cases (ltb a 0xc0)) [
  | inl p ↦
      let zero : n ≡ 0 = ground arith in
      let (scalar, source) = sound_1 us a (ground arith) (rw zero at legal) in
      (a, us, scalar, source)
  | inr p ↦ elim (Bool-cases (ltb a 0xe0)) [
    | inl q ↦
        let one : n ≡ 1 = ground arith in
        starts_2 a us (ground arith) (ground arith) (omega arith) (rw one at legal)
    | inr q ↦ elim (Bool-cases (ltb a 0xf0)) [
      | inl r ↦
          let two : n ≡ 2 = ground arith in
          starts_3 a us clean (ground arith) (ground arith) (omega arith) (rw two at legal)
      | inr r ↦
          let three : n ≡ 3 = unfold is_legal_utf8 in ground arith in
          starts_4 a us clean (ground arith) (omega arith) (rw three at legal)
    ]
  ]
]

fetch_sound :
    (us : List ℕ) (x : ℕ) (rest : List ℕ)
    → IsClean us
    → fetch_utf8 us ≡ got x rest
    → IsScalar x × (us ≡ utf8 x ++ rest)
fetch_sound [] x rest clean h = absurd (omega (arith, fetch_legal [] x rest h))
fetch_sound (a ∷ us) x rest clean h =
    let (size, legal) = fetch_legal (a ∷ us) x rest h in
    let (y, after, scalar, source) =
      legal_scalar a us (trailing_bytes a) clean (trailing_bytes_lem a clean.0) size legal in
    let same : got x rest ≡ got y after =
      sym h ∙ ap fetch_utf8 source ∙ fetch-utf8 y after scalar in
    let value : x ≡ y = cc same in
    let behind : rest ≡ after = cc same in (rw value scalar, rw (value, behind) source)

surrogates-utf16 : (x : ℕ) → 0x10000 ≤ x → x < 0x110000 → surrogates x ≡ utf16 x
unfolding surrogates utf16
surrogates-utf16 x h k = ground (arith, bit_and_ten_ones (x - 0x10000))

put_char-utf16 :
    (cap : Option ℕ) (c : Cursor) (x : ℕ) (rest : List ℕ)
    → IsScalar x
    → put_char strict_conversion cap c x rest ≡ (
        if overflows cap c.target (length (utf16 x))
        then stop target_exhausted
        else next (emit cap c (utf16 x) rest))
unfolding put_char
put_char-utf16 none c x rest h = elim (Bool-cases (ltb x 0x10000)) [
  | inl e ↦ unfold utf16 in ground arith
  | inr e ↦ rw (← surrogates-utf16 x (ground arith) (omega arith)) (ground arith)
]
put_char-utf16 (some n) c x rest h = elim (Bool-cases (ltb x 0x10000)) [
  | inl e ↦ unfold utf16 in ground arith
  | inr e ↦
      rw (← surrogates-utf16 x (ground arith) (omega arith)) (unfold surrogates in ground arith)
]

put_char_next :
    (cap : Option ℕ) (c c' : Cursor) (x : ℕ) (rest : List ℕ)
    → IsScalar x
    → put_char strict_conversion cap c x rest ≡ next c'
    → c'.source ≡ rest
put_char_next cap c c' x rest scalar h =
    let went = sym (put_char-utf16 cap c x rest scalar) ∙ h in
    ground (arith, emit-source cap c (utf16 x) rest)

module _ (cap : Option ℕ) where
  pub round_takes :
      (x : ℕ)
      → IsScalar x
      → (rest : List ℕ) (t : ℕ) (w : List ℕ)
      → utf8_round strict_conversion cap (cursor (utf8 x ++ rest) t w) ≡ (
          if overflows cap t (length (utf16 x))
          then stop target_exhausted
          else next (emit cap (cursor (utf8 x ++ rest) t w) (utf16 x) rest))
  unfolding utf8_round put_fetched
  round_takes x h rest t w = rw (fetch-utf8 x rest h) (put_char-utf16 cap _ x rest h)

  put_fetched_next :
      (c c' : Cursor) (f : Fetch)
      → put_fetched strict_conversion cap c f ≡ next c'
      → (x : ℕ) × (rest : List ℕ) × (f ≡ got x rest)
        × (put_char strict_conversion cap c x rest ≡ next c')
  unfolding put_fetched
  put_fetched_next c c' (fail r) h = cc
  put_fetched_next c c' (got x rest) h = (x, rest, refl, h)

  pub round_only :
      (c c' : Cursor)
      → IsClean c.source
      → utf8_round strict_conversion cap c ≡ next c'
      → (x : ℕ) × IsScalar x × (c.source ≡ utf8 x ++ c'.source)
  unfolding utf8_round
  round_only c c' clean h =
      let (x, rest, read, put) = put_fetched_next c c' (fetch_utf8 c.source) h in
      let (scalar, source) = fetch_sound c.source x rest clean read in
      (x, scalar, rw (put_char_next cap c c' x rest scalar put) source)

  pub round_no_ok : (c : Cursor) → utf8_round strict_conversion cap c ≢ stop conversion_ok
  unfolding utf8_round put_fetched fetch_utf8 put_char replace_or_fail
  round_no_ok c h = ground arith

  abbrev pub utf8_codec : Codec cap
  utf8_codec = record {
    IsClean = IsClean;
    round = utf8_round strict_conversion cap;
    enc_in = utf8;
    enc_out = utf16;
    enc_in-pos = utf8-pos;
    clean-drop = IsClean-drop;
    takes = round_takes;
    only_scalars = round_only;
    no_false_ok = round_no_ok;
  }
