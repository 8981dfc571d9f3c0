-- ===== src/Dictionary/Queries.antt =====
-- The functions of libuzi/dictionary.c that only read, against the plain list of the entries. With
-- more fuel than entries each returns; a synchronized dictionary enters its lock first and leaves
-- it last.
use libuzi.Common.{
  ℕ, suc, ◌<◌, ◌≡◌, refl, inl, inr, Bool, true, false, not, ◌||◌, Option, none, some, List, [], ◌∷◌,
  ◌++◌, append-nil, ◌==◌, if◌then◌else◌, Option-cases, length, arith, map,
}
use libuzi.Dictionary.Store.{Item, Event, enter_lock, leave_lock, world}
use libuzi.Dictionary.Chain.{Cell, Chain}
use libuzi.Dictionary.Spec.{find_cell, addr_of, value_of}
use libuzi.Dictionary.Loops.{load_cell, count_loop_lem, keys_loop_lem, find_loop_lem}
use libuzi.Dictionary.Removal.{replaced-Chain, when_lem}
use libuzi.Dictionary.Defs.{ListDictionary, enter, leave, count, get_keys, contains, get_item_value}

-- The events of a call: those in `mid`, between the lock's if the dictionary is synchronized.
abbrev pub entered : ListDictionary → List Event
entered d = if d.synchronized then enter_lock ∷ [] else []

abbrev pub left : ListDictionary → List Event
left d = if d.synchronized then leave_lock ∷ [] else []

abbrev pub called : ListDictionary → List Event → List Event → List Event
called d t mid = ((t ++ entered d) ++ mid) ++ left d

abbrev pub is_found : Option Cell → Bool
is_found none = false
is_found (some c) = true

map-nil : (cs : List Cell) → length cs ≡ 0 → map (λ (c : Cell). c.key) cs ≡ []
map-nil [] h = refl
map-nil (c ∷ cs) h = absurd (omega arith)

-- The item of an entry that a search has found.
pub find_cell_item :
    (equals : ℕ → ℕ → Bool) (key p : ℕ) (h : ℕ → Option Item) (cs : List Cell) (c : Cell)
    → Chain h p cs
    → find_cell equals key cs ≡ some c
    → (0 < c.addr) × ((n : Item) × (h c.addr ≡ some n) × (n.value ≡ c.value))
find_cell_item equals key p h cs c chain found =
    let (n, pos, here, value, _) = replaced-Chain equals key 0 p h cs c chain found in
    (pos, (n, here, value))

module _ (d : ListDictionary) (h : ℕ → Option Item) (t : List Event) (cs : List Cell) (fuel : ℕ)
    (enough : length cs < fuel) (chain : Chain h d.head cs) where
  abbrev pub t1 : List Event
  t1 = t ++ entered d

  pub went_in : enter d (world h t) ≡ some (tt, world h (t ++ entered d))
  went_in = when_lem d.synchronized enter_lock h t

  pub went_out :
      (h' : ℕ → Option Item) (u : List Event)
      → leave d (world h' u) ≡ some (tt, world h' (u ++ left d))
  went_out h' u = when_lem d.synchronized leave_lock h' u

  -- If the entries are linked from the head and there is more fuel than entries:
  -- ListDictionary_Count returns the number of entries, changes nothing in memory, and enters and
  -- leaves the lock if the dictionary is synchronized.
  pub count_lem : count fuel (some d) (world h t) ≡ some (some (length cs), world h (called d t []))
  unfolding count
  count_lem =
      let counted = count_loop_lem fuel d.head 0 h t1 cs enough chain in
      rw append-nil (ground (arith, went_in, counted, went_out h t1))

  -- If the entries are linked from the head, the pointer to the array is not NULL and there is more
  -- fuel than entries: ListDictionary_GetKeys returns the keys in order if calloc has returned
  -- memory or there are no entries, and fails otherwise; it changes nothing in memory, and enters
  -- and leaves the lock if the dictionary is synchronized.
  pub get_keys_lem :
      (calloc_ok : Bool) (pp_keys : ℕ)
      → get_keys fuel calloc_ok (suc pp_keys) (some d) (world h t)
        ≡ some (
          (if calloc_ok || (length cs == 0) then some (map (λ (c : Cell). c.key) cs) else none),
          world h (called d t []),
        )
  unfolding get_keys
  get_keys_lem calloc_ok pp_keys =
      let counted = count_loop_lem fuel d.head 0 h t1 cs enough chain in
      let listed = keys_loop_lem fuel d.head h t1 cs enough chain in
      rw append-nil (ground (arith, went_in, counted, listed, went_out h t1, map-nil cs))

  found_pos :
      (key : ℕ)
      → (addr_of (find_cell d.key_equals key cs) == 0)
        ≡ not (is_found (find_cell d.key_equals key cs))
  found_pos key = elim (Option-cases (find_cell d.key_equals key cs)) [
    | inl e ↦ rw e
    | inr (c, e) ↦
        let (pos, _) = find_cell_item d.key_equals key d.head h cs c chain e in rw e (ground arith)
  ]

  -- If the entries are linked from the head and there is more fuel than entries:
  -- ListDictionary_Contains returns whether an entry has an equal key, changes nothing in memory,
  -- and enters and leaves the lock if the dictionary is synchronized.
  pub contains_lem :
      (key : ℕ)
      → contains fuel (some d) key (world h t)
        ≡ some (is_found (find_cell d.key_equals key cs), world h (called d t []))
  unfolding contains
  contains_lem key =
      let found = find_loop_lem fuel d.key_equals key d.head h t1 cs enough chain in
      rw append-nil (ground (arith, went_in, found, went_out h t1, found_pos key))

  -- If the entries are linked from the head and there is more fuel than entries:
  -- ListDictionary_GetItemValue returns the value of the first entry with an equal key, or NULL,
  -- changes nothing in memory, and enters and leaves the lock if the dictionary is synchronized.
  pub get_item_value_lem :
      (key : ℕ)
      → get_item_value fuel (some d) key (world h t)
        ≡ some (value_of (find_cell d.key_equals key cs), world h (called d t []))
  unfolding get_item_value
  get_item_value_lem key =
      let found = find_loop_lem fuel d.key_equals key d.head h t1 cs enough chain in
      elim (Option-cases (find_cell d.key_equals key cs)) [
        | inl e ↦ rw append-nil (ground (arith, e, went_in, found, went_out h t1))
        | inr (c, e) ↦
            let (pos, (n, here, value)) = find_cell_item d.key_equals key d.head h cs c chain e in
            let loaded = load_cell h t1 c.addr n pos here in
            rw append-nil (ground (arith, e, went_in, found, loaded, went_out h t1))
      ]
