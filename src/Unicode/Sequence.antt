-- ===== src/Unicode/Sequence.antt =====
-- libuzi/unicode.c: isLegalUTF8Sequence.
use libuzi.Common.{
  ℕ, ◌+◌, ◌<◌, ◌≡◌, ap, ◌∙◌, ◌↔◌, true, false, List, [], ◌∷◌, ◌++◌, ltb, length, length-append,
  arith, get_or,
}
use libuzi.Unicode.Scalar.{IsScalar, utf8, utf8-pos}
use libuzi.Unicode.Legal.{trailing_bytes_lem}
use libuzi.Unicode.Utf8.{trailing_bytes, is_legal_utf8, is_legal_utf8_sequence}
use libuzi.Unicode.Decode.{IsClean, StartsWithScalar, legal_scalar, legal-utf8, extra-utf8}

starts_legal :
    (us : List ℕ) (x : ℕ) (rest : List ℕ)
    → IsScalar x
    → us ≡ utf8 x ++ rest
    → is_legal_utf8_sequence us ≡ true
unfolding is_legal_utf8_sequence
starts_legal [] x rest scalar source =
    absurd (omega (arith, ap length source, length-append (utf8 x) rest, utf8-pos x))
starts_legal (a ∷ us) x rest scalar source =
    let small : x < 0x110000 = omega arith in
    let extra : trailing_bytes a + 1 ≡ length (utf8 x) =
      ap (λ l. trailing_bytes (get_or l 0 0) + 1) source ∙ extra-utf8 x rest small in
    let room : ltb (length us + 1) (length (utf8 x)) ≡ false =
      ground (arith, ap length source, length-append (utf8 x) rest) in
    let legal : is_legal_utf8 (a ∷ us) (length (utf8 x)) ≡ true =
      ap (λ l. is_legal_utf8 l (length (utf8 x))) source ∙ legal-utf8 x rest scalar in
    rw (extra, room) legal

-- isLegalUTF8Sequence accepts a sequence of bytes, in which no 0xed or 0xf4 has a byte below 0x80
-- behind it, exactly when it starts with the UTF-8 of a scalar value.
pub is_legal_utf8_sequence_lem :
    (us : List ℕ) → IsClean us → is_legal_utf8_sequence us ≡ true ↔ StartsWithScalar us
unfolding is_legal_utf8_sequence
is_legal_utf8_sequence_lem [] clean =
    (λ h. absurd (cc h), λ (x, rest, scalar, source). starts_legal [] x rest scalar source)
is_legal_utf8_sequence_lem (a ∷ us) clean = (
  λ h.
      let (size, legal) : (trailing_bytes a < length (a ∷ us))
          × (is_legal_utf8 (a ∷ us) (trailing_bytes a + 1) ≡ true) =
        ground arith in
      legal_scalar a us (trailing_bytes a) clean (trailing_bytes_lem a clean.0) size legal,
  λ (x, rest, scalar, source). starts_legal (a ∷ us) x rest scalar source,
)
