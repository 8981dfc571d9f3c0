-- ===== src/Common/Bits/Masks.antt =====
-- Masks and flag bits at variables, from the law of the lowest digit.
use Prim.Native.Nat.{ℕ, zero, suc, ◌+◌, ◌*◌, ◌/◌, ◌%◌, ◌≤◌, bit_and, bit_or}
use mathlib.Core.Path.{◌≡◌, refl, ◌∙◌}
use native.Mathlib.Omega.{arith}
use libuzi.Common.Bits.Digits.{bit_and_step, bit_or_step}

zero_right : (bound a : ℕ) → a ≤ bound → (bit_and a 0 ≡ 0) × (bit_or a 0 ≡ a)
zero_right bound zero le = (refl, refl)
zero_right zero (suc a) le = absurd (omega arith)
zero_right (suc bound) (suc a) le =
    let half = zero_right bound (suc a / 2) (omega arith) in
    (omega (arith, bit_and_step (suc a) 0, half.0), omega (arith, bit_or_step (suc a) 0, half.1))

pub bit_and-zero : (a : ℕ) → bit_and a 0 ≡ 0
bit_and-zero a = (zero_right a a (omega arith)).0

pub bit_or-zero : (a : ℕ) → bit_or a 0 ≡ a
bit_or-zero a = (zero_right a a (omega arith)).1

pub bit_and-one : (a : ℕ) → bit_and a 1 ≡ a % 2
bit_and-one a = omega (arith, bit_and_step a 1, bit_and-zero (a / 2))

-- One digit of the right operand at a time.
pub bit_and_odd : (a m : ℕ) → bit_and a (m * 2 + 1) ≡ bit_and (a / 2) m * 2 + a % 2
bit_and_odd a m =
    let half : (m * 2 + 1) / 2 ≡ m = omega arith in
    bit_and_step a (m * 2 + 1) ∙ rw half (omega arith)

pub bit_and_even : (a m : ℕ) → bit_and a (m * 2) ≡ bit_and (a / 2) m * 2
bit_and_even a m =
    let half : m * 2 / 2 ≡ m = omega arith in bit_and_step a (m * 2) ∙ rw half (omega arith)

pub bit_or_even : (a m : ℕ) → bit_or a (m * 2) ≡ bit_or (a / 2) m * 2 + a % 2
bit_or_even a m =
    let half : m * 2 / 2 ≡ m = omega arith in bit_or_step a (m * 2) ∙ rw half (omega arith)

pub bit_or-one : (a : ℕ) → bit_or a 1 ≡ a / 2 * 2 + 1
bit_or-one a = omega (arith, bit_or_step a 1, bit_or-zero (a / 2))

-- A mask of ones takes the remainder.
bit_and-three : (a : ℕ) → bit_and a 3 ≡ a % 4
bit_and-three a = omega (arith, bit_and_odd a 1, bit_and-one (a / 2))

bit_and_31 : (a : ℕ) → bit_and a 31 ≡ a % 32
bit_and_31 a = omega (
  arith,
  bit_and_odd a 15,
  bit_and_odd (a / 2) 7,
  bit_and_odd (a / 2 / 2) 3,
  bit_and-three (a / 2 / 2 / 2),
)

pub bit_and_ten_ones : (a : ℕ) → bit_and a 0x3ff ≡ a % 1024
bit_and_ten_ones a = omega (
  arith,
  bit_and_odd a 511,
  bit_and_odd (a / 2) 255,
  bit_and_odd (a / 2 / 2) 127,
  bit_and_odd (a / 2 / 2 / 2) 63,
  bit_and_odd (a / 2 / 2 / 2 / 2) 31,
  bit_and_31 (a / 2 / 2 / 2 / 2 / 2),
)

-- The flag 0x80: the digits below it stay.
pub bit_or_flag : (a : ℕ) → bit_or a 0x80 % 256 ≡ a % 128 + 128
bit_or_flag a = omega (
  arith,
  bit_or_even a 64,
  bit_or_even (a / 2) 32,
  bit_or_even (a / 2 / 2) 16,
  bit_or_even (a / 2 / 2 / 2) 8,
  bit_or_even (a / 2 / 2 / 2 / 2) 4,
  bit_or_even (a / 2 / 2 / 2 / 2 / 2) 2,
  bit_or_even (a / 2 / 2 / 2 / 2 / 2 / 2) 1,
  bit_or-one (a / 2 / 2 / 2 / 2 / 2 / 2 / 2),
)

-- The mask 0xbf clears one digit of a byte.
pub bit_and_mark : (a : ℕ) → bit_and a 0xbf % 256 ≡ a % 64 + a / 128 % 2 * 128
bit_and_mark a = omega (
  arith,
  bit_and_odd a 95,
  bit_and_odd (a / 2) 47,
  bit_and_odd (a / 2 / 2) 23,
  bit_and_odd (a / 2 / 2 / 2) 11,
  bit_and_odd (a / 2 / 2 / 2 / 2) 5,
  bit_and_odd (a / 2 / 2 / 2 / 2 / 2) 2,
  bit_and_even (a / 2 / 2 / 2 / 2 / 2 / 2) 1,
  bit_and-one (a / 2 / 2 / 2 / 2 / 2 / 2 / 2),
)
