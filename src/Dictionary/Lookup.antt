-- ===== src/Dictionary/Lookup.antt =====
-- Calls of libuzi/dictionary.c one behind the other: what a search finds after a change.
use libuzi.Common.{
  ℕ, suc, ◌<◌, ◌≡◌, refl, inl, inr, Bool, true, false, Option, none, some, List, [], ◌∷◌, ◌++◌,
  ◌==◌, Bool-cases, length, length-append, arith,
}
use libuzi.Dictionary.Store.{Item, Event, World, world}
use libuzi.Dictionary.Chain.{Cell, cell, Absent, Chain}
use libuzi.Dictionary.Spec.{find_cell, replaced, value_of}
use libuzi.Dictionary.Defs.{ListDictionary, add, get_item_value, set_item_value, contains}
use libuzi.Dictionary.Queries.{called, is_found, get_item_value_lem, contains_lem}
use libuzi.Dictionary.Updates.{freed_value, add_lem, set_item_value_lem}

module _ (equals : ℕ → ℕ → Bool) (key : ℕ) where
  find_cell-append :
      (c : Cell) (cs : List Cell)
      → find_cell equals key cs ≡ none
      → equals c.key key ≡ true
      → find_cell equals key (cs ++ c ∷ []) ≡ some c
  find_cell-append c [] fails eq = ground arith
  find_cell-append c (d ∷ cs) fails eq = ground (arith, find_cell-append c cs)

  find_cell-replaced :
      (v : ℕ) (cs : List Cell)
      → is_found (find_cell equals key cs) ≡ true
      → value_of (find_cell equals key (replaced equals key v cs)) ≡ v
  unfolding replaced
  find_cell-replaced v [] found = cc found
  find_cell-replaced v (c ∷ cs) found = elim (Bool-cases (equals c.key key)) [
    | inl e ↦ rw (e, e) refl
    | inr e ↦ rw (e, e) (find_cell-replaced v cs (rw e at found))
  ]

  length-replaced : (v : ℕ) (cs : List Cell) → length (replaced equals key v cs) ≡ length cs
  unfolding replaced
  length-replaced v [] = refl
  length-replaced v (c ∷ cs) = ground (arith, length-replaced v cs)

module _ (d : ListDictionary) (h : ℕ → Option Item) (t : List Event) (cs : List Cell) (fuel : ℕ)
    (enough : suc (length cs) < fuel) (chain : Chain h d.head cs) where
  -- If the entries are linked from the head, there is fuel for one entry more, malloc returns an
  -- address that is not NULL and that no entry has, the key is equal to itself and no entry has an
  -- equal key: ListDictionary_Add succeeds, and ListDictionary_GetItemValue for the key then
  -- returns the added value, and ListDictionary_Contains TRUE.
  pub add_then_get :
      (fresh key v : ℕ)
      → 0 < fresh
      → Absent fresh cs
      → d.key_equals key key ≡ true
      → find_cell d.key_equals key cs ≡ none
      → (d' : ListDictionary) × (w u u' : World) × (add fuel fresh (some d) key v (world h t)
          ≡ some ((true, some d'), w))
        × (get_item_value fuel (some d') key w ≡ some (v, u))
        × (contains fuel (some d') key w ≡ some (true, u'))
  add_then_get fresh key v new absent eq fails =
      let (h', p, went, chain', _) = add_lem d h t cs fuel (omega arith) chain fresh key v absent in
      let some_new : (fresh == 0) ≡ false = ground arith in
      let d' : ListDictionary = record d { head = p } in
      let t' = called d t [] in
      let ds = cs ++ cell fresh key v ∷ [] in
      let longer : length ds < fuel = omega (arith, length-append cs (cell fresh key v ∷ [])) in
      let chain'' : Chain h' p ds = rw some_new at chain' in
      let found : find_cell d.key_equals key ds ≡ some (cell fresh key v) =
        find_cell-append d.key_equals key (cell fresh key v) cs fails eq in
      (
        d',
        world h' t',
        world h' (called d' t' []),
        world h' (called d' t' []),
        rw some_new at went,
        rw found at (get_item_value_lem d' h' t' ds fuel longer chain'' key),
        rw found at (contains_lem d' h' t' ds fuel longer chain'' key),
      )

  -- If the entries are linked from the head, there is fuel for one entry more, and an entry has an
  -- equal key: ListDictionary_SetItemValue succeeds, and ListDictionary_GetItemValue for the key
  -- then returns the stored value.
  pub set_then_get :
      (key v : ℕ)
      → is_found (find_cell d.key_equals key cs) ≡ true
      → (w u : World) × (set_item_value fuel (some d) key v (world h t) ≡ some (true, w))
        × (get_item_value fuel (some d) key w ≡ some (v, u))
  set_then_get key v found =
      let (h', went, chain', _) = set_item_value_lem d h t cs fuel (omega arith) chain key v in
      let t' = called d t (freed_value d (find_cell d.key_equals key cs)) in
      let ds = replaced d.key_equals key v cs in
      let same : length ds < fuel = omega (arith, length-replaced d.key_equals key v cs) in
      (
        world h' t',
        world h' (called d t' []),
        rw found at went,
        rw (find_cell-replaced d.key_equals key v cs found) at
            (get_item_value_lem d h' t' ds fuel same chain' key),
      )
