-- ===== src/Dictionary/Spec.antt =====
-- What the ListDictionary promises, on a plain list of its entries, the oldest first.
use libuzi.Common.{ℕ, ◌≡◌, ◌≢◌, Bool, Option, none, some, List, [], ◌∷◌, if◌then◌else◌, arith}
use libuzi.Dictionary.Chain.{Cell, cell, Absent}

module _ (equals : ℕ → ℕ → Bool) (key : ℕ) where
  -- The first entry with an equal key.
  abbrev pub find_cell : List Cell → Option Cell
  find_cell [] = none
  find_cell (c ∷ cs) = if equals c.key key then some c else find_cell cs

  -- The entries without the first one that has an equal key.
  unfoldable pub without : List Cell → List Cell
  without [] = []
  without (c ∷ cs) = if equals c.key key then cs else c ∷ without cs

  -- The entries with the value of the first one that has an equal key replaced.
  unfoldable pub replaced : ℕ → List Cell → List Cell
  replaced v [] = []
  replaced v (c ∷ cs) = if equals c.key key then cell c.addr c.key v ∷ cs else c ∷ replaced v cs

  pub Absent-without : (a : ℕ) (cs : List Cell) → Absent a cs → Absent a (without cs)
  unfolding without
  Absent-without a [] h = h
  Absent-without a (c ∷ cs) h = ground (arith, Absent-without a cs)

  pub Absent-replaced : (a v : ℕ) (cs : List Cell) → Absent a cs → Absent a (replaced v cs)
  unfolding replaced
  Absent-replaced a v [] h = h
  Absent-replaced a v (c ∷ cs) h = ground (arith, Absent-replaced a v cs)

  pub find_cell-apart :
      (a : ℕ) (cs : List Cell) (c : Cell) → Absent a cs → find_cell cs ≡ some c → a ≢ c.addr
  find_cell-apart a [] c absent found = cc
  find_cell-apart a (d ∷ cs) c absent found = ground (arith, find_cell-apart a cs c)

abbrev pub addr_of : Option Cell → ℕ
addr_of none = 0
addr_of (some c) = c.addr

abbrev pub value_of : Option Cell → ℕ
value_of none = 0
value_of (some c) = c.value
