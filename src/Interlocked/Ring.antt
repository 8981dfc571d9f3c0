-- ===== src/Interlocked/Ring.antt =====
-- Entries that are linked in both directions, and what a write elsewhere leaves of them.
use libuzi.Common.{ℕ, ◌≡◌, ◌≢◌, sym, List, [], ◌∷◌, ◌++◌, All, arith}
use libuzi.Interlocked.Entries.{Links, set_flink, set_blink}

abbrev pub Absent : ℕ → List ℕ → Type 0
Absent a xs = All (λ x. a ≢ x) xs

abbrev pub Distinct : List ℕ → Type 0
Distinct [] = Unit
Distinct (x ∷ xs) = Absent x xs × Distinct xs

-- From `p` over the entries `xs` to `q`: each one points forward to the next, and that one back.
abbrev pub Linked : Links → ℕ → List ℕ → ℕ → Type 0
Linked m p [] q = (m.flink p ≡ q) × (m.blink q ≡ p)
Linked m p (x ∷ xs) q = ((m.flink p ≡ x) × (m.blink x ≡ p)) × Linked m x xs q

-- The entries `xs` in a ring through `head`, all different.
abbrev pub Ring : Links → ℕ → List ℕ → Type 0
Ring m head xs = Linked m head xs head × Distinct (head ∷ xs)

-- Two memories with the same links forward from `p` and `xs`, and back from `xs` and `q`.
pub Linked-set_flink :
    (m : Links) (a b p q : ℕ) (xs : List ℕ)
    → a ≢ p
    → Absent a xs
    → Linked m p xs q
    → Linked (set_flink a b m) p xs q
Linked-set_flink m a b p q [] ne absent linked = ground arith
Linked-set_flink m a b p q (x ∷ xs) ne absent linked =
    let (here, rest) = linked in
    (ground arith, Linked-set_flink m a b x q xs absent.0 absent.1 rest)

pub Linked-set_blink :
    (m : Links) (a b p q : ℕ) (xs : List ℕ)
    → a ≢ q
    → Absent a xs
    → Linked m p xs q
    → Linked (set_blink a b m) p xs q
Linked-set_blink m a b p q [] ne absent linked = ground arith
Linked-set_blink m a b p q (x ∷ xs) ne absent linked =
    let (here, rest) = linked in
    (ground (arith, absent.0), Linked-set_blink m a b x q xs ne absent.1 rest)

-- Two linked parts that meet are linked, and a linked list falls into two at each of its entries.
pub Linked-join :
    (m : Links) (p y q : ℕ) (xs ys : List ℕ)
    → Linked m p xs y
    → Linked m y ys q
    → Linked m p (xs ++ y ∷ ys) q
Linked-join m p y q [] ys before behind = (before, behind)
Linked-join m p y q (x ∷ xs) ys before behind =
    (before.0, Linked-join m x y q xs ys before.1 behind)

pub Linked-part :
    (m : Links) (p y q : ℕ) (xs ys : List ℕ)
    → Linked m p (xs ++ y ∷ ys) q
    → Linked m p xs y × Linked m y ys q
Linked-part m p y q [] ys linked = linked
Linked-part m p y q (x ∷ xs) ys linked =
    let (before, behind) = Linked-part m x y q xs ys linked.1 in ((linked.0, before), behind)

pub Absent-append : (a : ℕ) (xs ys : List ℕ) → Absent a xs → Absent a ys → Absent a (xs ++ ys)
Absent-append a [] ys h k = k
Absent-append a (x ∷ xs) ys h k = (h.0, Absent-append a xs ys h.1 k)

pub Absent-part : (a : ℕ) (xs ys : List ℕ) → Absent a (xs ++ ys) → Absent a xs × Absent a ys
Absent-part a [] ys h = (tt, h)
Absent-part a (x ∷ xs) ys h = let (k, l) = Absent-part a xs ys h.1 in ((h.0, k), l)

-- An entry in the middle of different ones.
pub Distinct-middle :
    (xs : List ℕ) (e : ℕ) (ys : List ℕ)
    → Distinct (xs ++ e ∷ ys)
    → Absent e xs × Absent e ys × Distinct (xs ++ ys)
Distinct-middle [] e ys d = (tt, d.0, d.1)
Distinct-middle (x ∷ xs) e ys d =
    let (before, behind, rest) = Distinct-middle xs e ys d.1 in
    let (apart, more) = Absent-part x xs (e ∷ ys) d.0 in
    ((λ same. more.0 (sym same), before), behind, (Absent-append x xs ys apart more.1, rest))

pub Distinct-insert :
    (xs : List ℕ) (e : ℕ) (ys : List ℕ)
    → Absent e (xs ++ ys)
    → Distinct (xs ++ ys)
    → Distinct (xs ++ e ∷ ys)
Distinct-insert [] e ys h d = (h, d)
Distinct-insert (x ∷ xs) e ys h d =
    let (apart, more) = Absent-part x xs ys d.0 in
    (
      Absent-append x xs (e ∷ ys) apart (λ same. h.0 (sym same), more),
      Distinct-insert xs e ys h.1 d.1,
    )
