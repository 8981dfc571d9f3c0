-- ===== src/Dictionary/Loops.antt =====
-- The loops of libuzi/dictionary.c on a list of cells: with more fuel than cells they return.
use libuzi.Common.{
  ℕ, zero, suc, ◌+◌, ◌<◌, ◌≡◌, refl, sym, ◌≢◌, Bool, Option, some, List, [], ◌∷◌, ◌++◌, length,
  arith, map,
}
use libuzi.Dictionary.Store.{Item, item, Event, world, update, load}
use libuzi.Dictionary.Chain.{Cell, cell, Absent, Chain, Absent-append}
use libuzi.Dictionary.Spec.{find_cell, addr_of}
use libuzi.Dictionary.Defs.{count_loop, keys_loop, last_loop, find_loop}

-- What a load of a cell reads.
pub load_cell :
    (h : ℕ → Option Item) (t : List Event) (a : ℕ) (n : Item)
    → 0 < a
    → h a ≡ some n
    → load a (world h t) ≡ some (n, world h t)
unfolding load
load_cell h t a n pos here = ground arith

pub count_loop_lem :
    (fuel p acc : ℕ) (h : ℕ → Option Item) (t : List Event) (cs : List Cell)
    → length cs < fuel
    → Chain h p cs
    → count_loop fuel p acc (world h t) ≡ some (acc + length cs, world h t)
unfolding count_loop
count_loop_lem zero p acc h t cs f chain = absurd (omega arith)
count_loop_lem (suc fuel) p acc h t [] f chain = ground arith
count_loop_lem (suc fuel) p acc h t (c ∷ cs) f (e, pos, apart, (q, here, rest)) =
    let next = count_loop_lem fuel q (acc + 1) h t cs (omega arith) rest in
    let loaded = load_cell h t p (item c.key c.value q) pos (rw e here) in ground arith

pub keys_loop_lem :
    (fuel p : ℕ) (h : ℕ → Option Item) (t : List Event) (cs : List Cell)
    → length cs < fuel
    → Chain h p cs
    → keys_loop fuel p (world h t) ≡ some (map (λ (c : Cell). c.key) cs, world h t)
unfolding keys_loop
keys_loop_lem zero p h t cs f chain = absurd (omega arith)
keys_loop_lem (suc fuel) p h t [] f chain = ground arith
keys_loop_lem (suc fuel) p h t (c ∷ cs) f (e, pos, apart, (q, here, rest)) =
    let next = keys_loop_lem fuel q h t cs (omega arith) rest in
    let loaded = load_cell h t p (item c.key c.value q) pos (rw e here) in ground arith

pub find_loop_lem :
    (fuel : ℕ) (equals : ℕ → ℕ → Bool) (key p : ℕ) (h : ℕ → Option Item) (t : List Event)
    (cs : List Cell)
    → length cs < fuel
    → Chain h p cs
    → find_loop fuel equals key p (world h t) ≡ some (addr_of (find_cell equals key cs), world h t)
unfolding find_loop
find_loop_lem zero equals key p h t cs f chain = absurd (omega arith)
find_loop_lem (suc fuel) equals key p h t [] f chain = ground arith
find_loop_lem (suc fuel) equals key p h t (c ∷ cs) f (e, pos, apart, (q, here, rest)) =
    let next = find_loop_lem fuel equals key q h t cs (omega arith) rest in
    let loaded = load_cell h t p (item c.key c.value q) pos (rw e here) in ground arith

-- The last address of a list that is not empty.
abbrev pub last_addr : Cell → List Cell → ℕ
last_addr c [] = c.addr
last_addr c (d ∷ ds) = last_addr d ds

pub last_addr-ne : (a : ℕ) (d : Cell) (ds : List Cell) → Absent a (d ∷ ds) → a ≢ last_addr d ds
last_addr-ne a d [] h = h.0
last_addr-ne a d (e ∷ ds) h = last_addr-ne a e ds h.1

-- Linking a new item behind the last one.
pub last_loop_link :
    (fuel p fresh k v : ℕ) (h : ℕ → Option Item) (t : List Event) (c : Cell) (cs : List Cell)
    → length cs < fuel
    → 0 < fresh
    → h fresh ≡ some (item k v 0)
    → Absent fresh (c ∷ cs)
    → Chain h p (c ∷ cs)
    → (n : Item) × (last_loop fuel p (world h t) ≡ some (last_addr c cs, world h t))
      × (0 < last_addr c cs)
      × (h (last_addr c cs) ≡ some n)
      × Chain
          (update h (last_addr c cs) (some (record n { next = fresh })))
          p
          (c ∷ cs ++ cell fresh k v ∷ [])
unfolding last_loop
last_loop_link zero p fresh k v h t c cs f new made absent chain = absurd (omega arith)
last_loop_link (suc fuel) p fresh k v h t c [] f new made absent (e, pos, apart, (q, here, rest)) =
    let loaded = load_cell h t p (item c.key c.value q) pos (rw e here) in
    let apart : c.addr ≢ fresh = λ same. absent.0 (sym same) in
    (
      item c.key c.value q,
      ground arith,
      omega arith,
      here,
      (e, pos, (apart, tt), (fresh, ground arith, (refl, new, tt, (0, ground arith, refl)))),
    )
last_loop_link (suc fuel) p fresh k v h t c (d ∷ ds) f new made absent
      (e, pos, apart, (q, here, rest)) =
    let loaded = load_cell h t p (item c.key c.value q) pos (rw e here) in
    let (n, went, high, last, chain) =
      last_loop_link fuel q fresh k v h t d ds (omega arith) new made absent.1 rest in
    let other = last_addr-ne c.addr d ds apart in
    (
      n,
      ground (arith, rest.1),
      high,
      last,
      (
        e,
        pos,
        Absent-append c.addr (d ∷ ds) _ apart ((λ same. absent.0 (sym same)), tt),
        (q, ground arith, chain),
      ),
    )
