-- ===== src/Interlocked/Lists.antt =====
-- Each function of the doubly linked list of libuzi/interlocked.c against the plain list of the
-- entries that the ring goes through.
use mathlib.Core.Path.{subst}
use libuzi.Common.{
  ℕ, ◌≡◌, refl, sym, Bool, true, false, List, [], ◌∷◌, ◌++◌, append-nil, All, arith,
}
use libuzi.Interlocked.Entries.{
  Links, set_flink, set_blink, initialize_list_head, is_list_empty, remove_entry_list,
  insert_head_list, remove_head_list, insert_tail_list, remove_tail_list,
}
use libuzi.Interlocked.Ring.{
  Absent, Distinct, Linked, Ring, Linked-set_flink, Linked-set_blink, Linked-join, Linked-part,
  Absent-append, Absent-part, Distinct-middle, Distinct-insert,
}

-- After InitializeListHead the ring through the head has no entry.
pub initialize_list_head-Ring : (m : Links) (head : ℕ) → Ring (initialize_list_head head m) head []
unfolding initialize_list_head
initialize_list_head-Ring m head = ground arith

abbrev pub is_nil : List ℕ → Bool
is_nil [] = true
is_nil (x ∷ xs) = false

-- In a ring of different entries through the head: IsListEmpty says whether there is no entry.
pub is_list_empty_lem :
    (m : Links) (head : ℕ) (xs : List ℕ) → Ring m head xs → is_list_empty head m ≡ is_nil xs
unfolding is_list_empty
is_list_empty_lem m head [] ring = ground arith
is_list_empty_lem m head (x ∷ xs) ring = ground arith

-- In a ring of different entries through the head, and for an entry that is neither the head nor in
-- it: after InsertHeadList the ring goes through that entry first and then through the others as
-- before.
pub insert_head_list-Ring :
    (m : Links) (head entry : ℕ) (xs : List ℕ)
    → Ring m head xs
    → Absent entry (head ∷ xs)
    → Ring (insert_head_list head entry m) head (entry ∷ xs)
unfolding insert_head_list
insert_head_list-Ring m head entry [] ring new = ground arith
insert_head_list-Ring m head entry (x ∷ xs) ring new =
    let ((first, rest), (apart, distinct)) = ring in
    let start : m.flink head ≡ x = first.0 in
    let m1 = set_flink entry (m.flink head) m in
    let m2 = set_blink entry head m1 in
    let m3 = set_blink (m.flink head) entry m2 in
    let linked1 = Linked-set_flink m entry (m.flink head) x head xs new.1.0 new.1.1 rest in
    let linked2 = Linked-set_blink m1 entry head x head xs new.0 new.1.1 linked1 in
    let linked3 =
      Linked-set_blink m2 (m.flink head) entry x head xs (ground arith) (rw start distinct.0)
        linked2 in
    let linked4 = Linked-set_flink m3 head entry x head xs apart.0 apart.1 linked3 in
    (
      (ground arith, (ground arith, linked4)),
      ((λ same. new.0 (sym same), apart), (new.1, distinct)),
    )

-- In a ring of different entries through the head that has a first entry: RemoveHeadList returns
-- that entry, and the ring then goes through the others as before.
pub remove_head_list-Ring :
    (m : Links) (head x : ℕ) (xs : List ℕ)
    → Ring m head (x ∷ xs)
    → (m' : Links) × (remove_head_list head m ≡ (x, m')) × Ring m' head xs
unfolding remove_head_list
remove_head_list-Ring m head x [] ring = (
  set_blink (m.flink (m.flink head)) head (set_flink head (m.flink (m.flink head)) m),
  ground arith,
  ground arith,
)
remove_head_list-Ring m head x (y ∷ ys) ring =
    let ((first, (second, rest)), ((apart_x, (apart_y, apart)), (apart', (apart'', distinct)))) =
      ring in
    let m1 = set_flink head (m.flink (m.flink head)) m in
    let start : m.flink head ≡ x = first.0 in
    let next : m.flink (m.flink head) ≡ y = rw start second.0 in
    let linked1 = Linked-set_flink m head (m.flink (m.flink head)) y head ys apart_y apart rest in
    let linked2 =
      Linked-set_blink m1 (m.flink (m.flink head)) head y head ys (ground arith) (rw next apart'')
        linked1 in
    (
      set_blink (m.flink (m.flink head)) head m1,
      ground arith,
      (((ground arith, ground arith), linked2), ((apart_y, apart), (apart'', distinct))),
    )

-- The entry before the end of a linked list is the start or one of the list.
blink-Absent :
    (m : Links) (p q : ℕ) (xs zs : List ℕ)
    → Linked m p xs q
    → Absent p zs
    → All (λ x. Absent x zs) xs
    → Absent (m.blink q) zs
blink-Absent m p q [] zs linked apart all = rw (linked.1) apart
blink-Absent m p q (x ∷ xs) zs linked apart all = blink-Absent m x q xs zs linked.1 all.0 all.1

Distinct-apart : (xs zs : List ℕ) → Distinct (xs ++ zs) → All (λ x. Absent x zs) xs
Distinct-apart [] zs d = tt
Distinct-apart (x ∷ xs) zs d = ((Absent-part x xs zs d.0).1, Distinct-apart xs zs d.1)

Absent-flip : (a : ℕ) (ys : List ℕ) → Absent a ys → All (λ y. Absent y (a ∷ [])) ys
Absent-flip a [] h = tt
Absent-flip a (y ∷ ys) h = (((λ same. h.0 (sym same)), tt), Absent-flip a ys h.1)

Distinct-front : (xs zs : List ℕ) → Distinct (xs ++ zs) → Distinct xs
Distinct-front [] zs d = tt
Distinct-front (x ∷ xs) zs d = ((Absent-part x xs zs d.0).0, Distinct-front xs zs d.1)

is_nil-middle : (xs : List ℕ) (y : ℕ) (ys : List ℕ) → is_nil (xs ++ y ∷ ys) ≡ false
is_nil-middle [] y ys = refl
is_nil-middle (x ∷ xs) y ys = refl

-- A linked list gets another end.
relinked :
    (m : Links) (p e q : ℕ) (xs : List ℕ)
    → Linked m p xs e
    → Distinct (p ∷ xs)
    → Absent q xs
    → Linked (set_flink (m.blink e) q (set_blink q (m.blink e) m)) p xs q
relinked m p e q [] linked d new = ground arith
relinked m p e q (x ∷ xs) linked d new =
    let (here, rest) = linked in
    let ((apart, more), (first, distinct)) = d in
    let other =
      blink-Absent m x e xs (p ∷ []) rest ((λ same. apart (sym same)), tt)
        (Absent-flip p xs more) in
    (
      (ground (arith, other.0), ground (arith, new.0)),
      relinked m x e q xs rest (first, distinct) new.1,
    )

-- In a ring of different entries through the head, for any entry of it: after RemoveEntryList the
-- ring goes through the others as before, and it has returned whether there is none.
pub remove_entry_list-Ring :
    (m : Links) (head e : ℕ) (xs ys : List ℕ)
    → Ring m head (xs ++ e ∷ ys)
    → (m' : Links) × (remove_entry_list e m ≡ (is_nil (xs ++ ys), m')) × Ring m' head (xs ++ ys)
unfolding remove_entry_list
remove_entry_list-Ring m head e [] [] ring = (
  set_flink (m.blink e) (m.flink e) (set_blink (m.flink e) (m.blink e) m),
  ground arith,
  ground arith,
)
remove_entry_list-Ring m head e (x ∷ xs) [] ring =
    let (before, behind) = Linked-part m head e head (x ∷ xs) [] ring.0 in
    let (apart, d) = ring.1 in
    let (apart_xs, apart_e) = Absent-part head (x ∷ xs) (e ∷ []) apart in
    let (_, _, distinct) = Distinct-middle (x ∷ xs) e [] d in
    let distinct' : Distinct (x ∷ xs) = subst Distinct (append-nil (x ∷ xs)) distinct in
    let next : m.flink e ≡ head = behind.0 in
    let other : Absent (m.blink e) (head ∷ []) =
      blink-Absent m x e xs (head ∷ []) before.1 ((λ same. apart_xs.0 (sym same)), tt)
        (Absent-flip head xs apart_xs.1) in
    let ring' : Ring (set_flink (m.blink e) head (set_blink head (m.blink e) m)) head (x ∷ xs) = (
      relinked m head e head (x ∷ xs) before (apart_xs, distinct') apart_xs,
      (apart_xs, distinct'),
    ) in
    (
      set_flink (m.blink e) head (set_blink head (m.blink e) m),
      rw next (ground (arith, other.0)),
      subst (Ring (set_flink (m.blink e) head (set_blink head (m.blink e) m)) head)
          (sym (append-nil (x ∷ xs))) ring',
    )
remove_entry_list-Ring m head e xs (y ∷ ys) ring =
    let (before, behind) = Linked-part m head e head xs (y ∷ ys) ring.0 in
    let (apart, d) = ring.1 in
    let (apart_xs, (apart_e, apart_ys)) = Absent-part head xs (e ∷ y ∷ ys) apart in
    let (_, _, distinct) = Distinct-middle xs e (y ∷ ys) d in
    let (y_xs, y_ys, distinct') = Distinct-middle xs y ys distinct in
    let other : Absent (m.blink e) (y ∷ ys) =
      blink-Absent m head e xs (y ∷ ys) before apart_ys (Distinct-apart xs (y ∷ ys) distinct) in
    let next : m.flink e ≡ y = behind.0.0 in
    let m1 = set_blink y (m.blink e) m in
    let m2 = set_flink (m.blink e) y m1 in
    let front =
      relinked m head e y xs before (apart_xs, Distinct-front xs (y ∷ ys) distinct) y_xs in
    let back1 =
      Linked-set_blink m y (m.blink e) y head ys (λ same. apart_ys.0 (sym same)) y_ys behind.1 in
    let back2 = Linked-set_flink m1 (m.blink e) y y head ys other.0 other.1 back1 in
    (
      m2,
      rw next (ground (arith, other.0, is_nil-middle xs y ys)),
      (
        Linked-join m2 head y head xs ys front back2,
        (Absent-append head xs (y ∷ ys) apart_xs apart_ys, distinct),
      ),
    )

-- In a ring of different entries through the head that has a last entry: RemoveTailList returns
-- that entry, and the ring then goes through the others as before.
pub remove_tail_list-Ring :
    (m : Links) (head x : ℕ) (xs : List ℕ)
    → Ring m head (xs ++ x ∷ [])
    → (m' : Links) × (remove_tail_list head m ≡ (x, m')) × Ring m' head xs
unfolding remove_tail_list
remove_tail_list-Ring m head x xs ring =
    let (before, behind) = Linked-part m head x head xs [] ring.0 in
    let (apart, d) = ring.1 in
    let (apart_xs, apart_x) = Absent-part head xs (x ∷ []) apart in
    let (_, _, distinct) = Distinct-middle xs x [] d in
    let distinct' : Distinct xs = subst Distinct (append-nil xs) distinct in
    let last : m.blink head ≡ x = behind.1 in
    (
      set_flink (m.blink x) head (set_blink head (m.blink x) m),
      rw last refl,
      (relinked m head x head xs before (apart_xs, distinct') apart_xs, (apart_xs, distinct')),
    )

-- In a ring of different entries through the head, and for an entry that is neither the head nor in
-- it: after InsertTailList the ring goes through the others as before and then through that entry.
pub insert_tail_list-Ring :
    (m : Links) (head entry : ℕ) (xs : List ℕ)
    → Ring m head xs
    → Absent entry (head ∷ xs)
    → Ring (insert_tail_list head entry m) head (xs ++ entry ∷ [])
unfolding insert_tail_list
insert_tail_list-Ring m head entry xs ring new =
    let (linked, (apart, distinct)) = ring in
    let m1 = set_flink entry head m in
    let m3 = set_flink (m.blink head) entry (set_blink entry (m.blink head) m1) in
    let linked1 = Linked-set_flink m entry head head head xs new.0 new.1 linked in
    let linked3 = relinked m1 head head entry xs linked1 (apart, distinct) new.1 in
    let linked4 =
      Linked-set_blink m3 head entry head entry xs (ground (arith, new.0)) apart linked3 in
    let m4 = set_blink head entry m3 in
    let other : Absent (m.blink head) (entry ∷ []) =
      blink-Absent m head head xs (entry ∷ []) linked ((λ same. new.0 (sym same)), tt)
        (Absent-flip entry xs new.1) in
    (
      Linked-join m4 head entry head xs [] linked4 (ground (arith, other.0, new.0), ground arith),
      (
        Absent-append head xs (entry ∷ []) apart ((λ same. new.0 (sym same)), tt),
        Distinct-insert xs entry [] (subst (Absent entry) (sym (append-nil xs)) new.1)
            (subst Distinct (sym (append-nil xs)) distinct),
      ),
    )
