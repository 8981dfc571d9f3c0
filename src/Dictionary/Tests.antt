-- ===== src/Dictionary/Tests.antt =====
-- Tests of the ListDictionary, and the theorems at concrete inputs.
use libuzi.Common.{
  ℕ, ◌≡◌, ◌≢◌, refl, true, false, not, Option, none, some, List, [], ◌∷◌, ◌++◌, ◌==◌, if◌then◌else◌,
  arith,
}
use libuzi.Dictionary.Store.{
  Item, item, enter_lock, leave_lock, World, world, update, load, set_next, free_item,
}
use libuzi.Dictionary.Chain.{Cell, cell, Absent, Chain}
use libuzi.Dictionary.Spec.{find_cell, without, value_of}
use libuzi.Dictionary.Removal.{Elsewhere}
use libuzi.Dictionary.Defs.{
  ListDictionary, default_equal, add, contains, remove, get_item_value, unlink, remove_loop,
  find_loop,
}
use libuzi.Dictionary.Queries.{called}
use libuzi.Dictionary.Updates.{add_lem, remove_lem}
use libuzi.Dictionary.Lookup.{add_then_get}

-- Two entries, at 16 and 32, of a synchronized dictionary that frees its values.
abbrev heap : ℕ → Option Item
heap = update (update (λ a. none) 32 (some (item 2 20 0))) 16 (some (item 1 10 32))

abbrev dictionary : ListDictionary
dictionary = record {
  synchronized = true;
  head = 16;
  key_equals = default_equal;
  key_free = false;
  value_free = true;
}

abbrev entries : List Cell
entries = cell 16 1 10 ∷ cell 32 2 20 ∷ []

entries-Chain : Chain heap dictionary.head entries
entries-Chain =
    (refl, omega arith, (ground arith, tt), (32, refl, (refl, omega arith, tt, (0, refl, refl))))

-- An address that no entry has.
spare : Absent 48 entries
spare = (ground arith, (ground arith, tt))

remove_second :
    (w : World) × (remove 3 (some dictionary) 2 (world heap []) ≡ some ((20, some dictionary), w))
    × (w.trace ≡ enter_lock ∷ leave_lock ∷ [])
    × (w.cells 16 ≡ some (item 1 10 0))
    × (w.cells 32 ≡ none)
unfolding remove remove_loop unlink load set_next free_item
remove_second = (_, refl, refl, refl, refl)

missing_key :
    contains 3 (some dictionary) 7 (world heap [])
    ≡ some (false, world heap (enter_lock ∷ leave_lock ∷ []))
unfolding contains find_loop load
missing_key = refl

remove_lem_example :
    (h' : ℕ → Option Item) × (p : ℕ) × (remove 3 (some dictionary) 2 (world heap [])
      ≡ some (
        (value_of (find_cell default_equal 2 entries), some (record dictionary { head = p })),
        world h' (called dictionary [] []),
      ))
    × Chain h' p (without default_equal 2 entries)
    × Elsewhere heap h' entries
    × ((c : Cell) → find_cell default_equal 2 entries ≡ some c → h' c.addr ≡ none)
remove_lem_example = remove_lem dictionary heap [] entries 3 (omega arith) entries-Chain 2

add_lem_example :
    (h' : ℕ → Option Item) × (p : ℕ) × (add 3 48 (some dictionary) 7 70 (world heap [])
      ≡ some (
        (not (48 == 0), some (record dictionary { head = p })),
        world h' (called dictionary [] []),
      ))
    × Chain h' p (if 48 == 0 then entries else entries ++ cell 48 7 70 ∷ [])
    × ((a : ℕ) → a ≢ 48 → Absent a entries → h' a ≡ heap a)
add_lem_example = add_lem dictionary heap [] entries 3 (omega arith) entries-Chain 48 7 70 spare

add_then_get_example :
    (d' : ListDictionary) × (w u u' : World) × (add 4 48 (some dictionary) 7 70 (world heap [])
      ≡ some ((true, some d'), w))
    × (get_item_value 4 (some d') 7 w ≡ some (70, u))
    × (contains 4 (some d') 7 w ≡ some (true, u'))
add_then_get_example =
    add_then_get dictionary heap [] entries 4 (omega arith) entries-Chain 48 7 70 (omega arith)
      spare refl refl
