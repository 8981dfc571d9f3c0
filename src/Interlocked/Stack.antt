-- ===== src/Interlocked/Stack.antt =====
-- libuzi/interlocked.c: the singly linked lists against the plain list of their entries.
use libuzi.Common.{
  ℕ, ◌≡◌, ◌≢◌, ◌⊎◌, inl, inr, refl, ◌∙◌, Bool, true, false, Option, none, some, List, [], ◌∷◌, ◌==◌,
  Bool-cases, arith,
}
use libuzi.Interlocked.Ring.{Absent}
use libuzi.Interlocked.Single.{
  SlistHeader, Slist, slist, set_next, with_alignment, same_alignment, compare_exchange_64, pushed,
  popped, push_round, pop_round, query_depth_slist, flush_round,
}

-- From the pointer `p` over the entries `xs` to NULL.
abbrev pub Chain : (ℕ → ℕ) → ℕ → List ℕ → Type 0
Chain links p [] = p ≡ 0
Chain links p (x ∷ xs) = (p ≡ x) × (x ≢ 0) × Chain links (links x) xs

pub Chain-set_next :
    (links : ℕ → ℕ) (a b p : ℕ) (xs : List ℕ)
    → Absent a xs
    → Chain links p xs
    → Chain (set_next a b links) p xs
Chain-set_next links a b p [] absent chain = chain
Chain-set_next links a b p (x ∷ xs) absent (here, nonzero, rest) =
    let apart : (x == a) ≡ false = ground (arith, absent.0) in
    (here, nonzero, rw apart (Chain-set_next links a b (links x) xs absent.1 rest))

same_next : (wide : Bool) (a b : SlistHeader) → same_alignment wide a b ≡ true → a.next ≡ b.next
same_next true a b h = ground arith
same_next false a b h = ground arith

entry_next :
    (wide : Bool) (new current : SlistHeader) → (with_alignment wide new current).next ≡ new.next
entry_next true new current = refl
entry_next false new current = refl

set_next_here : (p q : ℕ) (links : ℕ → ℕ) → set_next p q links p ≡ q
set_next_here p q links = let same : (p == p) ≡ true = ground arith in rw same refl

-- For a list of entries that the compare and exchange of a round of InterlockedPushEntrySList
-- finds, whatever header the round has read before, and an entry that is not NULL and not in the
-- list: either the header that was read is no longer that of the list and there is another round,
-- or the call returns the first entry and the new entry stands before all others.
pub push_round_lem :
    (wide : Bool) (entry : ℕ) (old : SlistHeader) (s : Slist) (xs : List ℕ)
    → Chain s.links s.header.next xs
    → entry ≢ 0
    → Absent entry xs
    → ((push_round wide entry old s ≡ none) × (same_alignment wide s.header old ≡ false))
      ⊎ ((s' : Slist) × (push_round wide entry old s ≡ some (s.header.next, s'))
          × Chain s'.links s'.header.next (entry ∷ xs))
unfolding push_round compare_exchange_64
push_round_lem wide entry old s xs chain nonzero absent =
    elim (Bool-cases (same_alignment wide s.header old)) [
      | inl e ↦
          let same : s.header.next ≡ old.next = same_next wide s.header old e in
          let kept = Chain-set_next s.links entry old.next s.header.next xs absent chain in
          inr (
            slist (with_alignment wide (pushed entry old) s.header)
                (set_next entry old.next s.links),
            rw (e, push_round, same) refl,
            (
              entry_next wide (pushed entry old) s.header,
              nonzero,
              rw (set_next_here entry old.next s.links) (rw same at kept),
            ),
          )
      | inr e ↦ inl (rw (e, push_round) refl, e)
    ]

self_alignment : (wide : Bool) (a : SlistHeader) → same_alignment wide a a ≡ true
self_alignment true a = ground arith
self_alignment false a = ground arith

-- The first entry, NULL of none, and the others.
abbrev pub head_of : List ℕ → ℕ
head_of [] = 0
head_of (x ∷ xs) = x

abbrev pub tail_of : List ℕ → List ℕ
tail_of [] = []
tail_of (x ∷ xs) = xs

pub pop_round_lem :
    (wide : Bool) (s : Slist) (xs : List ℕ)
    → Chain s.links s.header.next xs
    → (s' : Slist) × (pop_round wide s.header s ≡ some (head_of xs, s'))
      × Chain s'.links s'.header.next (tail_of xs)
unfolding pop_round compare_exchange_64
pop_round_lem wide s [] chain = (s, rw (chain, pop_round) refl, chain)
pop_round_lem wide s (x ∷ xs) (here, nonzero, rest) =
    let same = self_alignment wide s.header in
    let apart : (s.header.next == 0) ≡ false = ground arith in
    (
      slist (with_alignment wide (popped (s.links s.header.next) s.header) s.header) s.links,
      rw (apart, pop_round, same, here) refl,
      rw (entry_next wide (popped (s.links s.header.next) s.header) s.header, here) rest,
    )

-- A sequence of calls, each without another thread in between.
pub data Call : Type 0 where
  push : (entry : ℕ) → Call
  pop : Call

abbrev pub call_slist : (wide : Bool) → Call → Slist → Option Slist
call_slist wide (push entry) s = elim (push_round wide entry s.header s) [
  | none ↦ none
  | some (r, s') ↦ some s'
]
call_slist wide pop s = elim (pop_round wide s.header s) [ none ↦ none | some (r, s') ↦ some s' ]

abbrev pub call_all : (wide : Bool) → List Call → Slist → Option Slist
call_all wide [] s = some s
call_all wide (call ∷ calls) s = elim (call_slist wide call s) [
  | none ↦ none
  | some s' ↦ call_all wide calls s'
]

call_depth :
    (call : Call) (s : Slist)
    → (s' : Slist) × (call_slist true call s ≡ some s') × (s'.header.depth ≡ s.header.depth)
unfolding push_round pop_round compare_exchange_64
call_depth (push entry) s =
    let same = self_alignment true s.header in
    (
      slist (with_alignment true (pushed entry s.header) s.header)
          (set_next entry s.header.next s.links),
      rw (same, call_slist) refl,
      refl,
    )
call_depth pop s =
    let same = self_alignment true s.header in
    elim (Bool-cases (s.header.next == 0)) [
      | inl e ↦ (s, rw (e, call_slist) refl, refl)
      | inr e ↦ (
        slist (with_alignment true (popped (s.links s.header.next) s.header) s.header) s.links,
        rw (e, call_slist, same) refl,
        refl,
      )
    ]

-- Where a pointer has 8 bytes and the depth of a header is 0, as in a header of zeros: after any
-- pushes and pops without other threads in between, InterlockedFlushSList returns NULL and leaves
-- the list as it is, whatever entries it has.
pub wide_flush_lem :
    (calls : List Call) (s : Slist)
    → s.header.depth ≡ 0
    → (s' : Slist) × (call_all true calls s ≡ some s')
      × (flush_round true s'.header s' ≡ some (0, s'))
unfolding flush_round query_depth_slist
wide_flush_lem [] s empty = (s, refl, rw empty refl)
wide_flush_lem (call ∷ calls) s empty =
    let (s1, called, depth1) = call_depth call s in
    let (s', rest, flush) = wide_flush_lem calls s1 (depth1 ∙ empty) in
    (s', rw (called, call_all) rest, flush)
