-- ===== src/Common/Integers.antt =====
-- The integers that C's signed types hold, with the tests the parts use.
use libuzi.Common.{ℕ, Bool, true, false, ltb, ◌==◌, ◌≡◌, refl}

pub data ℤ : Type 0 where
  pos : ℕ → ℤ
  -- The number below 0 by one more.
  negsuc : ℕ → ℤ

-- Whether an integer is less than a natural number, and than one below zero, given as `negsuc n`.
abbrev pub ltz : ℤ → ℤ → Bool
ltz (pos a) (pos b) = ltb a b
ltz (pos a) (negsuc b) = false
ltz (negsuc a) (pos b) = true
ltz (negsuc a) (negsuc b) = ltb b a

abbrev pub is_minus_one : ℤ → Bool
is_minus_one (pos a) = false
is_minus_one (negsuc a) = a == 0

abbrev pub is_negative : ℤ → Bool
is_negative (pos a) = false
is_negative (negsuc a) = true

pub not_minus_one : (a : ℤ) → is_negative a ≡ false → is_minus_one a ≡ false
not_minus_one (pos a) h = refl
not_minus_one (negsuc a) h = cc
