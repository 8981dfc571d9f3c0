-- ===== src/Common/Bits/Digits.antt =====
-- Binary digits: the law that a bitwise operation has at its lowest digit, for any operation that the
-- native one is an instance of, and a test of a predicate on all numbers below a bound.
use Prim.Native.Nat.{
  ℕ, zero, suc, ◌+◌, ◌*◌, ◌/◌, ◌%◌, ◌≤◌, ◌<◌, min, max, bit_and, bit_or, digits, bitwise,
  bit_and-bitwise, bit_or-bitwise,
}
use mathlib.Core.Path.{◌≡◌, refl, sym, ◌∙◌}
use mathlib.Core.Bool.{Bool, true, ◌&&◌}
use native.Mathlib.Omega.{arith}

-- Whether `p` is true at every number below the bound.
unfoldable pub holds_below : (ℕ → Bool) → ℕ → Bool
holds_below p zero = true
holds_below p (suc bound) = p bound && holds_below p bound

pub holds_below_sound :
    (p : ℕ → Bool) (bound x : ℕ) → x < bound → holds_below p bound ≡ true → p x ≡ true
unfolding holds_below
holds_below_sound p zero x below all = absurd (omega arith)
holds_below_sound p (suc bound) x below all = ground (arith, holds_below_sound p bound x)

-- `tail` says what an operation leaves of the right operand once the left one is used up.
module _ (tail : ℕ → ℕ) (op : ℕ → ℕ → ℕ) where
  used_up : (fuel b : ℕ) → digits tail op fuel 0 b ≡ tail b
  used_up zero b = refl
  used_up (suc fuel) b = refl

  -- The digits do not depend on the fuel, as long as there is as much as the left operand.
  any_fuel :
      (more less : ℕ)
      → less ≤ more
      → (a b : ℕ) → a ≤ less
      → digits tail op more a b ≡ digits tail op less a b
  any_fuel more less le zero b fits = used_up more b ∙ sym (used_up less b)
  any_fuel more zero le (suc a) b fits = absurd (omega arith)
  any_fuel zero (suc less) le (suc a) b fits = absurd (omega arith)
  any_fuel (suc more) (suc less) le (suc a) b fits =
      omega (arith, any_fuel more less (omega arith) (suc a / 2) (b / 2) (omega arith))

  lowest_digit :
      ((b : ℕ) → tail b ≡ tail (b / 2) * 2 + op 0 (b % 2))
      → (a b : ℕ) → bitwise tail op a b ≡ bitwise tail op (a / 2) (b / 2) * 2 + op (a % 2) (b % 2)
  lowest_digit rest zero b = rest b
  lowest_digit rest (suc a) b =
      omega (arith, any_fuel a (suc a / 2) (omega arith) (suc a / 2) (b / 2) (omega arith))

pub bit_and_step : (x y : ℕ) → bit_and x y ≡ bit_and (x / 2) (y / 2) * 2 + min (x % 2) (y % 2)
bit_and_step x y =
    rw (bit_and-bitwise x y, bit_and-bitwise (x / 2) (y / 2))
      (lowest_digit (λ b. zero) min (λ b. ground arith) x y)

pub bit_or_step : (x y : ℕ) → bit_or x y ≡ bit_or (x / 2) (y / 2) * 2 + max (x % 2) (y % 2)
bit_or_step x y =
    rw (bit_or-bitwise x y, bit_or-bitwise (x / 2) (y / 2))
      (lowest_digit (λ b. b) max (λ b. ground arith) x y)
