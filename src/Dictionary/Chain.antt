-- ===== src/Dictionary/Chain.antt =====
-- Lists of items in memory, and what a write elsewhere leaves of them.
use libuzi.Common.{ℕ, ◌<◌, ◌≡◌, ◌≢◌, Option, some, List, [], ◌∷◌, ◌++◌, All, arith}
use libuzi.Dictionary.Store.{Item, item, update}

-- An item at its address.
pub record Cell : Type 0 where
  pub addr : ℕ
  pub key : ℕ
  pub value : ℕ

abbrev pub cell : ℕ → ℕ → ℕ → Cell
cell a k v = record { addr = a; key = k; value = v }

abbrev pub Absent : ℕ → List Cell → Type 0
Absent a cs = All (λ (c : Cell). a ≢ c.addr) cs

-- `p` points to the first of the cells `cs`, each of which points to the next, the last one to
-- `stop`; the addresses are different and not NULL.
abbrev pub Segment : (ℕ → Option Item) → (stop : ℕ) → ℕ → List Cell → Type 0
Segment h stop p [] = p ≡ stop
Segment h stop p (c ∷ cs) =
    (p ≡ c.addr)
    × (0 < p)
    × Absent c.addr cs
    × ((q : ℕ) × (h c.addr ≡ some (item c.key c.value q)) × Segment h stop q cs)

abbrev pub Chain : (ℕ → Option Item) → ℕ → List Cell → Type 0
Chain h p cs = Segment h 0 p cs

-- A write at an address that is not in the list leaves the list.
pub Segment-update :
    (h : ℕ → Option Item) (a : ℕ) (n : Option Item) (stop p : ℕ) (cs : List Cell)
    → Absent a cs
    → Segment h stop p cs
    → Segment (update h a n) stop p cs
Segment-update h a n stop p [] absent seg = seg
Segment-update h a n stop p (c ∷ cs) absent (e, pos, apart, (q, here, rest)) =
    (e, pos, apart, (q, ground (arith, absent.0), Segment-update h a n stop q cs absent.1 rest))

pub Absent-append : (a : ℕ) (cs ds : List Cell) → Absent a cs → Absent a ds → Absent a (cs ++ ds)
Absent-append a [] ds h k = k
Absent-append a (c ∷ cs) ds h k = (h.0, Absent-append a cs ds h.1 k)
