-- ===== src/Synch/Marks.antt =====
-- libuzi/wait.c: the list signalled_idx of WaitForMultipleObjects, and the entries of one poll.
use libuzi.Common.{
  ℕ, zero, suc, ◌+◌, ◌≤◌, ◌<◌, ◌≡◌, ◌≢◌, ◌⊎◌, inl, inr, refl, ap, Bool, true, false, Option, none,
  some, List, [], ◌∷◌, ◌==◌, Bool-cases, length, get_or, set_at, replicate, arith,
}
use libuzi.Common.Integers.{is_minus_one}
use libuzi.Synch.Handles.{Object, Heap, Info, refused, found, fault, winpr_handle_get_info, get_fd}
use libuzi.Synch.Multiple.{Entry, add_entry, advance, collect}

pub get_or-set_at :
    (xs : List Bool) (i : ℕ) → i < length xs → get_or (set_at i true xs) i false ≡ true
get_or-set_at [] i h = absurd (omega arith)
get_or-set_at (x ∷ xs) zero h = refl
get_or-set_at (x ∷ xs) (suc i) h = get_or-set_at xs i (omega arith)

pub get_or-set_at_other :
    (xs : List Bool) (i j : ℕ) → i ≢ j → get_or (set_at i true xs) j false ≡ get_or xs j false
get_or-set_at_other [] i j apart = refl
get_or-set_at_other (x ∷ xs) zero zero apart = absurd (apart refl)
get_or-set_at_other (x ∷ xs) zero (suc j) apart = refl
get_or-set_at_other (x ∷ xs) (suc i) zero apart = refl
get_or-set_at_other (x ∷ xs) (suc i) (suc j) apart =
    get_or-set_at_other xs i j (λ e. apart (ap suc e))

pub get_or-replicate : (n i : ℕ) → get_or (replicate n false) i false ≡ false
get_or-replicate zero i = refl
get_or-replicate (suc n) zero = refl
get_or-replicate (suc n) (suc i) = get_or-replicate n i

-- All objects before `signalled` are marked.
abbrev pub Marked : List Bool → (signalled : ℕ) → Type 0
Marked idxs signalled = (j : ℕ) → j < signalled → get_or idxs j false ≡ true

pub advance-Marked :
    (left : ℕ) (idxs : List Bool) (signalled : ℕ)
    → Marked idxs signalled
    → Marked idxs (advance left idxs signalled)
advance-Marked zero idxs signalled marked = marked
advance-Marked (suc left) idxs signalled marked = elim (Bool-cases (get_or idxs signalled false)) [
  | inl e ↦ rw e (
      advance-Marked left idxs (signalled + 1) (λ j h. elim (Bool-cases (j == signalled)) [
        | inl same ↦ let is_j : j ≡ signalled = ground arith in rw is_j e
        | inr other ↦ marked j (ground arith)
      ]))
  | inr e ↦ rw e marked
]

-- The entries have increasing indices below `n`, of objects that are not marked.
abbrev pub Fresh : (n : ℕ) → List Bool → (from : ℕ) → List Entry → Type 0
Fresh n idxs from [] = Unit
Fresh n idxs from (e ∷ es) =
    (from ≤ e.idx) × (e.idx < n) × (get_or idxs e.idx false ≡ false) × Fresh n idxs (e.idx + 1) es

pub weaken-Fresh :
    (n : ℕ) (idxs : List Bool) (from from' : ℕ) (es : List Entry)
    → from' ≤ from
    → Fresh n idxs from es
    → Fresh n idxs from' es
weaken-Fresh n idxs from from' [] below fresh = tt
weaken-Fresh n idxs from from' (e ∷ es) below (a, b, c, d) = (omega arith, b, c, d)

-- The mark of an object before all entries leaves them fresh.
pub set_at-Fresh :
    (n : ℕ) (idxs : List Bool) (i from : ℕ) (es : List Entry)
    → i < from
    → Fresh n idxs from es
    → Fresh n (set_at i true idxs) from es
set_at-Fresh n idxs i from [] below fresh = tt
set_at-Fresh n idxs i from (e ∷ es) below (a, b, c, d) =
    let apart : i ≢ e.idx = ground arith in
    (
      a,
      b,
      rw (get_or-set_at_other idxs i e.idx apart) c,
      set_at-Fresh n idxs i (e.idx + 1) es (omega arith) d,
    )

abbrev pub Collected : (n : ℕ) → List Bool → (from : ℕ) → Option (Option (List Entry)) → Type 0
Collected n idxs from none = Unit
Collected n idxs from (some none) = Unit
Collected n idxs from (some (some es)) = Fresh n idxs from es

add_entry-Collected :
    (n : ℕ) (idxs : List Bool) (from : ℕ) (e : Entry) (rest : Option (Option (List Entry)))
    → e.idx ≡ from
    → from < n
    → get_or idxs from false ≡ false
    → Collected n idxs (from + 1) rest
    → Collected n idxs from (add_entry e rest)
add_entry-Collected n idxs from e none same small unmarked fresh = tt
add_entry-Collected n idxs from e (some none) same small unmarked fresh = tt
add_entry-Collected n idxs from e (some (some es)) same small unmarked fresh =
    (omega (arith, same), omega (arith, same), rw same unmarked, rw same fresh)

weaken-Collected :
    (n : ℕ) (idxs : List Bool) (from : ℕ) (rest : Option (Option (List Entry)))
    → Collected n idxs (from + 1) rest
    → Collected n idxs from rest
weaken-Collected n idxs from none fresh = tt
weaken-Collected n idxs from (some none) fresh = tt
weaken-Collected n idxs from (some (some es)) fresh =
    weaken-Fresh n idxs (from + 1) from es (omega arith) fresh

pub Info-cases : (i : Info) → (i ≡ refused) ⊎ (i ≡ fault) ⊎ ((object : Object) × (i ≡ found object))
Info-cases refused = inl refl
Info-cases fault = inr (inl refl)
Info-cases (found object) = inr (inr (object, refl))

-- With bWaitAll, the first loop polls the objects that are not marked.
pub collect-Collected :
    (heap : Heap) (idxs : List Bool) (from : ℕ) (handles : List ℕ)
    → Collected (from + length handles) idxs from (collect heap true idxs from handles)
unfolding collect
collect-Collected heap idxs from [] = tt
collect-Collected heap idxs from (h ∷ handles) =
    let rest : Collected (from + 1 + length handles) idxs (from + 1)
        (collect heap true idxs (from + 1) handles) =
      collect-Collected heap idxs (from + 1) handles in
    let sizes : from + 1 + length handles ≡ from + suc (length handles) = omega arith in
    let later = rw sizes at rest in
    elim (Bool-cases (get_or idxs from false)) [
      | inl m ↦ rw m (
          weaken-Collected (from + suc (length handles)) idxs from
            (collect heap true idxs (from + 1) handles) later)
      | inr m ↦ elim (Info-cases (winpr_handle_get_info heap h)) [
        | inl e ↦ rw (m, e) tt
        | inr (inl e) ↦ rw (m, e) tt
        | inr (inr (object, e)) ↦ elim (Bool-cases (is_minus_one (get_fd h object))) [
          | inl f ↦ rw (m, e, f) tt
          | inr f ↦
              rw (m, e, f)
                (add_entry-Collected (from + suc (length handles)) idxs from _
                  (collect heap true idxs (from + 1) handles) refl (omega arith) m later)
        ]
      ]
    ]
