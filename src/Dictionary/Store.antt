-- ===== src/Dictionary/Store.antt =====
-- The memory that libuzi/dictionary.c works on: the items by address, and the record of the calls
-- that leave the file (the lock, the callbacks that free keys and values, and the free of the struct).
-- A pointer is a number, and 0 is NULL. A load or store at an address with no item is a fault.
use mathlib.Core.Option
use libuzi.Common.{ℕ, Bool, Option, none, some, List, [], ◌∷◌, ◌++◌, ◌==◌, if◌then◌else◌}

-- struct _wListDictionaryItem
pub record Item : Type 0 where
  pub key : ℕ
  pub value : ℕ
  pub next : ℕ

abbrev pub item : ℕ → ℕ → ℕ → Item
item k v q = record { key = k; value = v; next = q }

pub data Event : Type 0 where
  enter_lock : Event
  leave_lock : Event
  free_key : ℕ → Event
  free_value : ℕ → Event
  delete_lock : Event
  free_dictionary : Event

pub record World : Type 0 where
  pub cells : ℕ → Option Item
  pub trace : List Event

abbrev pub world : (ℕ → Option Item) → List Event → World
world h t = record { cells = h; trace = t }

abbrev pub M : Type 0 → Type 0
M A = World → Option (A × World)

abbrev pub pure : {A : Type 0} → A → M A
pure a w = some (a, w)

infixl 5 ◌>>=◌ ◌>>◌
abbrev pub ◌>>=◌ : {A B : Type 0} → M A → (A → M B) → M B
◌>>=◌ m f w = elim (m w) [ none ↦ none | some (a, w') ↦ f a w' ]

abbrev pub ◌>>◌ : {A B : Type 0} → M A → M B → M B
m >> k = m >>= λ _. k

abbrev pub update : (ℕ → Option Item) → ℕ → Option Item → ℕ → Option Item
update h a c b = if a == b then c else h b

-- `*p`
unfoldable pub load : ℕ → M Item
load p w = Option.map (λ n. (n, w)) (if p == 0 then none else w.cells p)

-- `p->next = q` and `p->value = v`
unfoldable pub set_next : ℕ → ℕ → M (Unit {0})
set_next p q w =
    Option.map (λ n. (tt, world (update w.cells p (some (record n { next = q }))) w.trace))
      (if p == 0 then none else w.cells p)

unfoldable pub set_value : ℕ → ℕ → M (Unit {0})
set_value p v w =
    Option.map (λ n. (tt, world (update w.cells p (some (record n { value = v }))) w.trace))
      (if p == 0 then none else w.cells p)

-- `free(p)` of an item
unfoldable pub free_item : ℕ → M (Unit {0})
free_item p w =
    Option.map (λ n. (tt, world (update w.cells p none) w.trace))
      (if p == 0 then none else w.cells p)

-- The item that `malloc` has returned at `p`, filled in.
unfoldable pub new_item : ℕ → Item → M (Unit {0})
new_item p n w = some (tt, world (update w.cells p (some n)) w.trace)

abbrev pub emit : Event → M (Unit {0})
emit e w = some (tt, world w.cells (w.trace ++ e ∷ []))

abbrev pub when : Bool → Event → M (Unit {0})
when b e = if b then emit e else pure tt
