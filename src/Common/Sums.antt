-- ===== src/Common/Sums.antt =====
-- Sums of a weight over the elements of a list, when one of them is replaced or all have it.
use libuzi.Common.{
  ℕ, zero, suc, ◌+◌, ◌≤◌, ◌<◌, ◌≡◌, ◌≢◌, inl, inr, refl, ap, some, List, [], ◌∷◌, ◌==◌, Bool-cases,
  length, get_elem?, set_at, replicate, arith,
}

module _ {ℓ} {A : Type ℓ} where
  pub get_elem?-set_at :
      (xs : List A) (i : ℕ) (x y : A)
      → get_elem? xs i ≡ some x
      → get_elem? (set_at i y xs) i ≡ some y
  get_elem?-set_at [] i x y h = cc
  get_elem?-set_at (z ∷ xs) zero x y h = refl
  get_elem?-set_at (z ∷ xs) (suc i) x y h = get_elem?-set_at xs i x y h

  pub get_elem?-set_at_other :
      (xs : List A) (i j : ℕ) (y : A) → i ≢ j → get_elem? (set_at i y xs) j ≡ get_elem? xs j
  get_elem?-set_at_other [] i j y ne = refl
  get_elem?-set_at_other (z ∷ xs) zero zero y ne = absurd (ne refl)
  get_elem?-set_at_other (z ∷ xs) zero (suc j) y ne = refl
  get_elem?-set_at_other (z ∷ xs) (suc i) zero y ne = refl
  get_elem?-set_at_other (z ∷ xs) (suc i) (suc j) y ne =
      get_elem?-set_at_other xs i j y (λ e. ne (ap suc e))

  pub length-set_at : (xs : List A) (i : ℕ) (y : A) → length (set_at i y xs) ≡ length xs
  length-set_at [] i y = refl
  length-set_at (z ∷ xs) zero y = refl
  length-set_at (z ∷ xs) (suc i) y = ap suc (length-set_at xs i y)

  pub length-replicate : (n : ℕ) (x : A) → length (replicate n x) ≡ n
  length-replicate zero x = refl
  length-replicate (suc n) x = ap suc (length-replicate n x)

  module _ (weight : A → ℕ) where
    abbrev pub total : List A → ℕ
    total [] = 0
    total (x ∷ xs) = weight x + total xs

    pub total-set_at :
        (xs : List A) (i : ℕ) (x y : A)
        → get_elem? xs i ≡ some x
        → total (set_at i y xs) + weight x ≡ total xs + weight y
    total-set_at [] i x y h = cc
    total-set_at (z ∷ xs) zero x y h = ground arith
    total-set_at (z ∷ xs) (suc i) x y h = omega (arith, total-set_at xs i x y h)

    pub total_one : (xs : List A) (i : ℕ) (x : A) → get_elem? xs i ≡ some x → weight x ≤ total xs
    total_one [] i x h = cc
    total_one (z ∷ xs) zero x h = ground arith
    total_one (z ∷ xs) (suc i) x h = omega (arith, total_one xs i x h)

    pub total_two :
        (xs : List A) (i j : ℕ) (x y : A)
        → i ≢ j
        → get_elem? xs i ≡ some x
        → get_elem? xs j ≡ some y
        → weight x + weight y ≤ total xs
    total_two [] i j x y ne h k = cc
    total_two (z ∷ xs) zero zero x y ne h k = absurd (ne refl)
    total_two (z ∷ xs) zero (suc j) x y ne h k = ground (arith, total_one xs j y k)
    total_two (z ∷ xs) (suc i) zero x y ne h k = ground (arith, total_one xs i x h)
    total_two (z ∷ xs) (suc i) (suc j) x y ne h k =
        omega (arith, total_two xs i j x y (λ e. ne (ap suc e)) h k)

    pub total_bound : ((x : A) → weight x ≤ 1) → (xs : List A) → total xs ≤ length xs
    total_bound small [] = omega arith
    total_bound small (z ∷ xs) = omega (arith, small z, total_bound small xs)

    -- Where the weight is at most 1 and the sum is the length, each element has the weight 1.
    pub total_full :
        ((x : A) → weight x ≤ 1)
        → (xs : List A) (i : ℕ) (x : A) → get_elem? xs i ≡ some x
        → total xs ≡ length xs
        → weight x ≡ 1
    total_full small [] i x h full = cc
    total_full small (z ∷ xs) zero x h full =
        let same : z ≡ x = cc h in rw (← same) (omega (arith, full, small z, total_bound small xs))
    total_full small (z ∷ xs) (suc i) x h full =
        total_full small xs i x h (omega (arith, full, small z, total_bound small xs))

    pub total-replicate : (n : ℕ) (x : A) → weight x ≡ 0 → total (replicate n x) ≡ 0
    total-replicate zero x h = refl
    total-replicate (suc n) x h = omega (arith, total-replicate n x h)

  pub get_elem?-replicate : (n i : ℕ) (x y : A) → get_elem? (replicate n x) i ≡ some y → y ≡ x
  get_elem?-replicate zero i x y h = cc
  get_elem?-replicate (suc n) zero x y h = cc h
  get_elem?-replicate (suc n) (suc i) x y h = get_elem?-replicate n i x y h

  pub total_none :
      (weight : A → ℕ) (xs : List A)
      → ((i : ℕ) (x : A) → get_elem? xs i ≡ some x → weight x ≡ 0)
      → total weight xs ≡ 0
  total_none weight [] h = refl
  total_none weight (z ∷ xs) h =
      omega (arith, h 0 z refl, total_none weight xs (λ i x e. h (suc i) x e))

  both_bound :
      (f g : A → ℕ)
      → ((x : A) → f x + g x ≤ 1)
      → (xs : List A) → total f xs + total g xs ≤ length xs
  both_bound f g small [] = omega arith
  both_bound f g small (z ∷ xs) = omega (arith, small z, both_bound f g small xs)

  -- Two weights that no element has both of: without one element, they fit into the length less 1.
  pub total_beside :
      (f g : A → ℕ)
      → ((x : A) → f x + g x ≤ 1)
      → (xs : List A) (i : ℕ) (x : A) → get_elem? xs i ≡ some x
      → total f xs + total g xs + 1 ≤ length xs + f x + g x
  total_beside f g small [] i x h = cc
  total_beside f g small (z ∷ xs) zero x h =
      let same : z ≡ x = cc h in rw same (omega (arith, both_bound f g small xs))
  total_beside f g small (z ∷ xs) (suc i) x h =
      omega (arith, small z, total_beside f g small xs i x h)

  -- A positive sum has an element of positive weight, one below the length an element of weight 0.
  pub total_find :
      (weight : A → ℕ) (xs : List A)
      → 0 < total weight xs
      → (i : ℕ) × (x : A) × (get_elem? xs i ≡ some x) × (0 < weight x)
  total_find weight [] h = absurd (omega arith)
  total_find weight (z ∷ xs) h = elim (Bool-cases (weight z == 0)) [
    | inl e ↦
        let (i, x, at, some_weight) = total_find weight xs (ground arith) in
        (suc i, x, at, some_weight)
    | inr e ↦ (0, z, refl, ground arith)
  ]

  pub total_gap :
      (weight : A → ℕ) (xs : List A)
      → total weight xs < length xs
      → (i : ℕ) × (x : A) × (get_elem? xs i ≡ some x) × (weight x ≡ 0)
  total_gap weight [] h = absurd (omega arith)
  total_gap weight (z ∷ xs) h = elim (Bool-cases (weight z == 0)) [
    | inl e ↦ (0, z, refl, ground arith)
    | inr e ↦
        let (i, x, at, none_left) = total_gap weight xs (ground arith) in (suc i, x, at, none_left)
  ]
