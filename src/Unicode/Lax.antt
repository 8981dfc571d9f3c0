-- ===== src/Unicode/Lax.antt =====
-- Sequences that isLegalUTF8 accepts and that are no UTF-8: behind 0xed and 0xf4 the lower end of
-- the second byte is not looked at.
use libuzi.Common.{ℕ, ◌+◌, ◌-◌, ◌*◌, ◌≤◌, ◌<◌, ◌≡◌, ◌≢◌, ◌∙◌, true, some, [], ◌∷◌, arith}
use libuzi.Unicode.Cursor.{conversion_ok, strict_conversion, next, run, got}
use libuzi.Unicode.Decode.{StartsWithScalar}
use libuzi.Unicode.Loop.{cursor, run_step}
use libuzi.Unicode.Scalar.{utf8}
use libuzi.Unicode.Utf8.{
  is_legal_utf8, convert_utf8_to_utf16, utf8_round, put_fetched, fetch_utf8, put_char,
  trailing_bytes, decode,
}

module _ (b c : ℕ) (low : b < 0x80) (trail : (0x80 ≤ c) × (c ≤ 0xbf)) where
  no_scalar : ¬ StartsWithScalar (0xed ∷ b ∷ c ∷ [])
  unfolding utf8
  no_scalar (x, rest, scalar, source) = ground arith

  -- 0xed, a byte below 0x80 and a trail byte are accepted, and encode no scalar value.
  pub lax_legal :
      (is_legal_utf8 (0xed ∷ b ∷ c ∷ []) 3 ≡ true) × ((x : ℕ) → utf8 x ≢ 0xed ∷ b ∷ c ∷ [])
  unfolding is_legal_utf8 utf8
  lax_legal = (ground arith, λ x h. ground arith)

  abbrev taken : ℕ
  taken = 0xb000 + b * 64 + (c - 0x80)

  lax_fetch : fetch_utf8 (0xed ∷ b ∷ c ∷ []) ≡ got taken []
  unfolding fetch_utf8 trailing_bytes decode
  lax_fetch = rw lax_legal.0 (ground arith)

  lax_put :
      put_char strict_conversion (some 1) (cursor (0xed ∷ b ∷ c ∷ []) 0 []) taken []
      ≡ next (cursor [] 1 (taken ∷ []))
  unfolding put_char
  lax_put = ground arith

  lax_round :
      utf8_round strict_conversion (some 1) (cursor (0xed ∷ b ∷ c ∷ []) 0 [])
      ≡ next (cursor [] 1 (taken ∷ []))
  unfolding utf8_round put_fetched
  lax_round = rw lax_fetch lax_put

  -- ConvertUTF8toUTF16 in strict mode succeeds on the three bytes 0xed, one below 0x80 and one from
  -- 0x80 to 0xbf, with room for one unit, and stores one unit for them, although they do not start
  -- with the UTF-8 of a scalar value.
  pub lax_converts :
      (convert_utf8_to_utf16 (0xed ∷ b ∷ c ∷ []) (some 1) strict_conversion
        ≡ some (conversion_ok, cursor [] 1 (taken ∷ [])))
      × ¬ StartsWithScalar (0xed ∷ b ∷ c ∷ [])
  unfolding convert_utf8_to_utf16 run
  lax_converts = (
    run_step 3 (utf8_round strict_conversion (some 1)) (0xed ∷ b ∷ c ∷ []) 0 [] (omega arith)
        ∙ rw lax_round,
    no_scalar,
  )
