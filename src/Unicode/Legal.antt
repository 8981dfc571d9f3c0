-- ===== src/Unicode/Legal.antt =====
-- isLegalUTF8 accepts exactly the encodings of the scalar values, and the decoding inverts them.
use libuzi.Common.{
  ℕ, ◌+◌, ◌-◌, ◌*◌, ◌/◌, ◌%◌, ◌≤◌, ◌<◌, ◌≡◌, refl, inr, true, List, [], ◌∷◌, ◌++◌, ltb, ◌==◌,
  ==_iff, if◌then◌else◌, arith,
}
use libuzi.Common.Bits.{holds_below, holds_below_sound}
use libuzi.Unicode.Scalar.{IsScalar, utf8}
use libuzi.Unicode.Utf8.{trailing_bytes, is_legal_utf8, is_legal_2}

-- The table of the trailing bytes, by ranges of the first byte.
abbrev pub extra_of : ℕ → ℕ
extra_of b =
    if ltb b 0xc0
    then 0
    else if ltb b 0xe0
    then 1
    else if ltb b 0xf0
    then 2
    else if ltb b 0xf8
    then 3
    else if ltb b 0xfc
    then 4
    else 5

trailing_table : holds_below (λ b. trailing_bytes b == extra_of b) 256 ≡ true
unfolding holds_below trailing_bytes
trailing_table = refl

pub trailing_bytes_lem : (b : ℕ) → b < 256 → trailing_bytes b ≡ extra_of b
trailing_bytes_lem b h =
    (==_iff _ _).0 (holds_below_sound (λ b. trailing_bytes b == extra_of b) 256 b h trailing_table)

-- The digits of a character in base 64 are its bytes.
utf8_digits_3 :
    (p q r : ℕ)
    → p < 16
    → q < 64
    → r < 64
    → 0x800 ≤ p * 4096 + q * 64 + r
    → utf8 (p * 4096 + q * 64 + r) ≡ (0xe0 + p) ∷ (0x80 + q) ∷ (0x80 + r) ∷ []
unfolding utf8
utf8_digits_3 p q r hp hq hr h =
    let x = p * 4096 + q * 64 + r in
    let high : x / 4096 ≡ p = omega arith in
    let mid : x / 64 % 64 ≡ q = omega arith in let low : x % 64 ≡ r = omega arith in ground arith

utf8_digits_4 :
    (p q r t : ℕ)
    → p < 8
    → q < 64
    → r < 64
    → t < 64
    → 0x10000 ≤ p * 262144 + q * 4096 + r * 64 + t
    → utf8 (p * 262144 + q * 4096 + r * 64 + t)
      ≡ (0xf0 + p) ∷ (0x80 + q) ∷ (0x80 + r) ∷ (0x80 + t) ∷ []
unfolding utf8
utf8_digits_4 p q r t hp hq hr ht h =
    let x = p * 262144 + q * 4096 + r * 64 + t in
    let high : x / 262144 ≡ p = omega arith in
    let second : x / 4096 % 64 ≡ q = omega arith in
    let third : x / 64 % 64 ≡ r = omega arith in let low : x % 64 ≡ t = omega arith in ground arith

module _ (rest : List ℕ) where
  pub sound_1 :
      (a : ℕ)
      → a < 0xc0
      → is_legal_utf8 (a ∷ rest) 1 ≡ true
      → IsScalar a × (a ∷ rest ≡ utf8 a ++ rest)
  unfolding is_legal_utf8 utf8
  sound_1 a h legal = ground arith

  pub sound_2 :
      (a b : ℕ)
      → a < 0xe0
      → 0xc0 ≤ a
      → is_legal_utf8 (a ∷ b ∷ rest) 2 ≡ true
      → (x : ℕ) × IsScalar x × (a ∷ b ∷ rest ≡ utf8 x ++ rest)
  unfolding is_legal_utf8 utf8
  sound_2 a b h k legal = ((a - 0xc0) * 64 + (b - 0x80), ground arith, ground arith)

  pub sound_3 :
      (a b c : ℕ)
      → a < 0xf0
      → 0xe0 ≤ a
      → (a ≡ 0xed → 0x80 ≤ b)
      → is_legal_utf8 (a ∷ b ∷ c ∷ rest) 3 ≡ true
      → (x : ℕ) × IsScalar x × (a ∷ b ∷ c ∷ rest ≡ utf8 x ++ rest)
  unfolding is_legal_utf8
  sound_3 a b c h k second legal =
      let bound : (0x80 ≤ b) × (b ≤ 0xbf) × (0x80 ≤ c) × (c ≤ 0xbf) = ground arith in
      let scalar : IsScalar ((a - 0xe0) * 4096 + (b - 0x80) * 64 + (c - 0x80)) = ground arith in
      let big : 0x800 ≤ (a - 0xe0) * 4096 + (b - 0x80) * 64 + (c - 0x80) = ground arith in
      (
        (a - 0xe0) * 4096 + (b - 0x80) * 64 + (c - 0x80),
        scalar,
        rw
            (utf8_digits_3 (a - 0xe0) (b - 0x80) (c - 0x80) (omega arith) (omega arith)
              (omega arith) big)
            (ground arith),
      )

  trail_4 :
      (a b c d : ℕ)
      → is_legal_utf8 (a ∷ b ∷ c ∷ d ∷ rest) 4 ≡ true
      → (0x80 ≤ c)
        × (c ≤ 0xbf)
        × (0x80 ≤ d)
        × (d ≤ 0xbf)
        × (is_legal_2 (a ∷ b ∷ c ∷ d ∷ rest) ≡ true)
  unfolding is_legal_utf8
  trail_4 a b c d legal = ground arith

  second_4 :
      (a b : ℕ) (more : List ℕ)
      → 0xf0 ≤ a
      → (a ≡ 0xf4 → 0x80 ≤ b)
      → is_legal_2 (a ∷ b ∷ more) ≡ true
      → (0x80 ≤ b)
        × (b ≤ 0xbf)
        × (a ≤ 0xf4)
        × (0x10 ≤ (a - 0xf0) * 0x40 + (b - 0x80))
        × ((a - 0xf0) * 0x40 + (b - 0x80) < 0x110)
  unfolding is_legal_2
  second_4 a b more k above legal = ground arith

  four :
      (a b c d : ℕ)
      → 0xf0 ≤ a
      → a ≤ 0xf4
      → 0x80 ≤ b
      → b ≤ 0xbf
      → 0x80 ≤ c
      → c ≤ 0xbf
      → 0x80 ≤ d
      → d ≤ 0xbf
      → 0x10 ≤ (a - 0xf0) * 0x40 + (b - 0x80)
      → (a - 0xf0) * 0x40 + (b - 0x80) < 0x110
      → (x : ℕ) × IsScalar x × (a ∷ b ∷ c ∷ d ∷ rest ≡ utf8 x ++ rest)
  four a b c d k1 k2 b1 b2 c1 c2 d1 d2 low high = (
    (a - 0xf0) * 262144 + (b - 0x80) * 4096 + (c - 0x80) * 64 + (d - 0x80),
    inr (omega arith),
    rw
        (utf8_digits_4 (a - 0xf0) (b - 0x80) (c - 0x80) (d - 0x80) (omega arith) (omega arith)
          (omega arith) (omega arith) (omega arith))
        (ground arith),
  )

  pub sound_4 :
      (a b c d : ℕ)
      → 0xf0 ≤ a
      → (a ≡ 0xf4 → 0x80 ≤ b)
      → is_legal_utf8 (a ∷ b ∷ c ∷ d ∷ rest) 4 ≡ true
      → (x : ℕ) × IsScalar x × (a ∷ b ∷ c ∷ d ∷ rest ≡ utf8 x ++ rest)
  sound_4 a b c d k above legal =
      let (c_low, c_high, d_low, d_high, start) = trail_4 a b c d legal in
      let (b_low, b_high, a_high, low, high) = second_4 a b (c ∷ d ∷ rest) k above start in
      four a b c d k a_high b_low b_high c_low c_high d_low d_high low high
