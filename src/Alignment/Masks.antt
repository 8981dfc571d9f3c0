-- ===== src/Alignment/Masks.antt =====
-- The mask `~(alignment - 1)` of a power of two clears the low digits of a number.
use libuzi.Common.{ℕ, zero, suc, ◌+◌, ◌-◌, ◌*◌, ◌/◌, ◌^◌, ◌≤◌, ◌<◌, ◌≡◌, ap, ◌∙◌, bit_and, arith}
use libuzi.Common.Bits.{bit_and_odd, bit_and_even, bit_and-zero}
use native.Mathlib.Nat.{pow-suc}

pub pow-two_pos : (k : ℕ) → 0 < 2 ^ k
pow-two_pos zero = omega arith
pow-two_pos (suc k) = omega (arith, pow-suc 2 k, pow-two_pos k)

-- A mask of ones above the number keeps it.
bit_and_ones : (j x : ℕ) → x < 2 ^ j → bit_and x (2 ^ j - 1) ≡ x
bit_and_ones zero x small = let none : x ≡ 0 = omega arith in rw none (bit_and-zero 0)
bit_and_ones (suc j) x small =
    let twice = pow-suc 2 j in
    let ones : 2 ^ suc j - 1 ≡ (2 ^ j - 1) * 2 + 1 = omega (arith, twice, pow-two_pos j) in
    let half : x / 2 < 2 ^ j = omega (arith, twice) in
    rw ones (omega (arith, bit_and_odd x (2 ^ j - 1), bit_and_ones j (x / 2) half))

half_below : (k j x : ℕ) → x < 2 ^ j * 2 ^ suc k → x / 2 < 2 ^ j * 2 ^ k
half_below k j x small =
    let bound : 2 ^ j * 2 ^ suc k ≡ 2 ^ j * 2 ^ k * 2 = rw (pow-suc 2 k) (omega arith) in
    omega (arith, small, bound)

high_step :
    (k j x q : ℕ)
    → bit_and (x / 2) ((2 ^ j - 1) * 2 ^ k) ≡ q * 2 ^ k
    → q * 2 ^ k ≤ x / 2
    → x / 2 < q * 2 ^ k + 2 ^ k
    → (bit_and x ((2 ^ j - 1) * 2 ^ suc k) ≡ q * 2 ^ suc k)
      × (q * 2 ^ suc k ≤ x)
      × (x < q * 2 ^ suc k + 2 ^ suc k)
high_step k j x q found low high =
    let twice = pow-suc 2 k in
    let even : (2 ^ j - 1) * 2 ^ suc k ≡ (2 ^ j - 1) * 2 ^ k * 2 = rw twice (omega arith) in
    let shifted : q * 2 ^ suc k ≡ q * 2 ^ k * 2 = rw twice (omega arith) in
    let split : bit_and x ((2 ^ j - 1) * 2 ^ k * 2) ≡ bit_and (x / 2) ((2 ^ j - 1) * 2 ^ k) * 2 =
      bit_and_even x ((2 ^ j - 1) * 2 ^ k) in
    (
      ap (bit_and x) even ∙ split ∙ omega (arith, found, shifted),
      omega (arith, shifted, low),
      omega (arith, shifted, high, twice),
    )

-- What is left is the greatest multiple of 2^k that is not above the number.
bit_and_high :
    (k j x : ℕ)
    → x < 2 ^ j * 2 ^ k
    → (q : ℕ) × (bit_and x ((2 ^ j - 1) * 2 ^ k) ≡ q * 2 ^ k)
      × (q * 2 ^ k ≤ x)
      × (x < q * 2 ^ k + 2 ^ k)
bit_and_high zero j x small =
    let whole : (2 ^ j - 1) * 2 ^ 0 ≡ 2 ^ j - 1 = omega arith in
    (x, rw whole (omega (arith, bit_and_ones j x (omega arith))), omega arith, omega arith)
bit_and_high (suc k) j x small =
    let (q, found, low, high) = bit_and_high k j (x / 2) (half_below k j x small) in
    let (found', low', high') = high_step k j x q found low high in (q, found', low', high')

pow-two_add : (j k : ℕ) → 2 ^ j * 2 ^ k ≡ 2 ^ (j + k)
pow-two_add j zero = let same : j + 0 ≡ j = omega arith in rw same (omega arith)
pow-two_add j (suc k) =
    let next : j + suc k ≡ suc (j + k) = omega arith in
    rw next (omega (arith, pow-suc 2 k, pow-suc 2 (j + k), pow-two_add j k, bigger j k))
  where
    bigger : (j k : ℕ) → 2 ^ j * 2 ^ suc k ≡ 2 ^ j * 2 ^ k * 2
    bigger j k = rw (pow-suc 2 k) (omega arith)

pub pow-two_le : (k : ℕ) → k < 64 → 2 ^ k ≤ 2 ^ 63
pow-two_le k small =
    let whole : (63 - k) + k ≡ 63 = omega arith in
    let product : 2 ^ (63 - k) * 2 ^ k ≡ 2 ^ 63 = pow-two_add (63 - k) k ∙ ap (λ n. 2 ^ n) whole in
    omega (arith, product, mul-le (2 ^ (63 - k)) (2 ^ k) (pow-two_pos (63 - k)))
  where
    mul-le : (a b : ℕ) → 0 < a → b ≤ a * b
    mul-le zero b pos = absurd (omega arith)
    mul-le (suc a) b pos = omega (arith)

pred-mul : (a b : ℕ) → 0 < a → (a - 1) * b + b ≡ a * b
pred-mul zero b pos = absurd (omega arith)
pred-mul (suc a) b pos = let less : suc a - 1 ≡ a = omega arith in rw less (omega arith)

-- In 64 bits: x & ~(2^k - 1) is the greatest multiple of 2^k that is not above x.
pub bit_and_not_below :
    (k x : ℕ)
    → k < 64
    → x < 2 ^ 64
    → (q : ℕ) × (bit_and x (2 ^ 64 - 1 - (2 ^ k - 1)) ≡ q * 2 ^ k)
      × (q * 2 ^ k ≤ x)
      × (x < q * 2 ^ k + 2 ^ k)
bit_and_not_below k x small fits =
    let whole : (64 - k) + k ≡ 64 = omega arith in
    let product : 2 ^ (64 - k) * 2 ^ k ≡ 2 ^ 64 = pow-two_add (64 - k) k ∙ ap (λ n. 2 ^ n) whole in
    let pos = pow-two_pos (64 - k) in
    let mask : 2 ^ 64 - 1 - (2 ^ k - 1) ≡ (2 ^ (64 - k) - 1) * 2 ^ k =
      omega (arith, product, pow-two_pos k, pred-mul (2 ^ (64 - k)) (2 ^ k) pos) in
    rw mask (bit_and_high k (64 - k) x (omega (arith, product)))
