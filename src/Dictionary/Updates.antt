-- ===== src/Dictionary/Updates.antt =====
-- The functions of libuzi/dictionary.c that change it, against the plain list of the entries. With
-- more fuel than entries each returns.
use mathlib.Core.Path.{subst}
use mathlib.Core.List.{head?, tail}
use libuzi.Common.{
  ℕ, ◌<◌, ◌≡◌, refl, sym, ◌≢◌, inl, inr, Bool, true, false, not, Option, none, some, List, [], ◌∷◌,
  ◌++◌, append-nil, ◌==◌, if◌then◌else◌, Bool-cases, Option-cases, length, All, arith,
}
use libuzi.Dictionary.Store.{
  Item, item, Event, enter_lock, leave_lock, free_value, delete_lock, free_dictionary, world,
  update, new_item, set_next, set_value, free_item,
}
use libuzi.Dictionary.Chain.{Cell, cell, Absent, Chain, Segment-update}
use libuzi.Dictionary.Spec.{find_cell, find_cell-apart, without, replaced, value_of}
use libuzi.Dictionary.Loops.{load_cell, find_loop_lem, last_addr, last_addr-ne, last_loop_link}
use libuzi.Dictionary.Removal.{
  Elsewhere, remove_loop_lem, replaced-Chain, frees, clear_loop_lem, when_lem,
}
use libuzi.Dictionary.Defs.{
  ListDictionary, enter, leave, add, clear, free, remove, remove_head, set_item_value,
}
use libuzi.Dictionary.Queries.{entered, left, called, is_found}

stored_value :
    (p v : ℕ) (n : Item) (h : ℕ → Option Item) (t : List Event)
    → 0 < p
    → h p ≡ some n
    → set_value p v (world h t) ≡ some (tt, world (update h p (some (record n { value = v }))) t)
unfolding set_value
stored_value p v n h t pos here = ground arith

freed_item :
    (p : ℕ) (n : Item) (h : ℕ → Option Item) (t : List Event)
    → 0 < p
    → h p ≡ some n
    → free_item p (world h t) ≡ some (tt, world (update h p none) t)
unfolding free_item
freed_item p n h t pos here = ground arith

-- What ListDictionary_SetItemValue frees.
abbrev pub freed_value : ListDictionary → Option Cell → List Event
freed_value d none = []
freed_value d (some c) = if d.value_free then free_value c.value ∷ [] else []

replaced-none :
    (equals : ℕ → ℕ → Bool) (key v : ℕ) (cs : List Cell)
    → find_cell equals key cs ≡ none
    → replaced equals key v cs ≡ cs
unfolding replaced
replaced-none equals key v [] e = refl
replaced-none equals key v (c ∷ cs) e = ground (arith, replaced-none equals key v cs)

linked_item :
    (p q : ℕ) (n : Item) (h : ℕ → Option Item) (t : List Event)
    → 0 < p
    → h p ≡ some n
    → set_next p q (world h t) ≡ some (tt, world (update h p (some (record n { next = q }))) t)
unfolding set_next
linked_item p q n h t pos here = ground arith

made_item :
    (p : ℕ) (n : Item) (h : ℕ → Option Item) (t : List Event)
    → new_item p n (world h t) ≡ some (tt, world (update h p (some n)) t)
unfolding new_item
made_item p n h t = refl

-- ListDictionary_Add where there is memory, on an empty list and on another.
added_lem :
    (d : ListDictionary) (h : ℕ → Option Item) (t : List Event) (cs : List Cell) (fuel : ℕ)
    → length cs < fuel
    → Chain h d.head cs
    → (fresh key v : ℕ) → 0 < fresh
    → Absent fresh cs
    → (h' : ℕ → Option Item) × (p : ℕ) × (add fuel fresh (some d) key v (world h t)
        ≡ some ((true, some (record d { head = p })), world h' (called d t [])))
      × Chain h' p (cs ++ cell fresh key v ∷ [])
      × ((a : ℕ) → a ≢ fresh → Absent a cs → h' a ≡ h a)
unfolding add
added_lem d h t [] fuel enough null fresh key v new absent =
    let t1 = t ++ entered d in
    let h1 = update h fresh (some (item key v 0)) in
    (
      h1,
      fresh,
      rw append-nil (
          ground (
            arith,
            when_lem d.synchronized enter_lock h t,
            made_item fresh (item key v 0) h t1,
            when_lem d.synchronized leave_lock h1 t1,
          )),
      (refl, new, tt, (0, ground arith, refl)),
      λ a ne off. ground arith,
    )
added_lem d h t (c ∷ cs) fuel enough chain fresh key v new absent =
    let t1 = t ++ entered d in
    let h1 = update h fresh (some (item key v 0)) in
    let chain1 = Segment-update h fresh (some (item key v 0)) 0 d.head (c ∷ cs) absent chain in
    let (n, went, pos, here, chain') =
      last_loop_link fuel d.head fresh key v h1 t1 c cs (omega arith) new (ground arith) absent
        chain1 in
    let last = last_addr c cs in
    let h' = update h1 last (some (record n { next = fresh })) in
    (
      h',
      d.head,
      rw append-nil (
          ground (
            arith,
            chain.1,
            when_lem d.synchronized enter_lock h t,
            made_item fresh (item key v 0) h t1,
            went,
            linked_item last fresh n h1 t1 pos here,
            when_lem d.synchronized leave_lock h' t1,
          )),
      chain',
      λ a ne off. let other = last_addr-ne a c cs off in ground arith,
    )

module _ (d : ListDictionary) (h : ℕ → Option Item) (t : List Event) (cs : List Cell) (fuel : ℕ)
    (enough : length cs < fuel) (chain : Chain h d.head cs) where
  abbrev t1 : List Event
  t1 = t ++ entered d

  went_in : enter d (world h t) ≡ some (tt, world h (t ++ entered d))
  went_in = when_lem d.synchronized enter_lock h t

  went_out :
      (h' : ℕ → Option Item) (u : List Event)
      → leave d (world h' u) ≡ some (tt, world h' (u ++ left d))
  went_out h' u = when_lem d.synchronized leave_lock h' u

  -- If the entries are linked from the head and there is more fuel than entries:
  -- ListDictionary_SetItemValue stores the value in the first entry with an equal key, whose old
  -- value it frees if a callback is set, and returns whether there is one; the other entries, their
  -- order and all other memory stay, and between lock and unlock nothing else is called.
  pub set_item_value_lem :
      (key v : ℕ)
      → (h' : ℕ → Option Item) × (set_item_value fuel (some d) key v (world h t)
          ≡ some (
            is_found (find_cell d.key_equals key cs),
            world h' (called d t (freed_value d (find_cell d.key_equals key cs))),
          ))
        × Chain h' d.head (replaced d.key_equals key v cs)
        × Elsewhere h h' cs
  unfolding set_item_value
  set_item_value_lem key v =
      let found = find_loop_lem fuel d.key_equals key d.head h t1 cs enough chain in
      elim (Option-cases (find_cell d.key_equals key cs)) [
        | inl e ↦ (
          h,
          rw e (rw append-nil (ground (arith, e, went_in, found, went_out h t1))),
          rw (replaced-none d.key_equals key v cs e) chain,
          λ a off. refl,
        )
        | inr (c, e) ↦
            let (n, pos, here, value, chain') =
              replaced-Chain d.key_equals key v d.head h cs c chain e in
            let loaded = load_cell h t1 c.addr n pos here in
            let h' = update h c.addr (some (record n { value = v })) in
            let t2 = t1 ++ freed_value d (some c) in
            (
              h',
              rw e (
                  ground (
                    arith,
                    e,
                    went_in,
                    found,
                    loaded,
                    when_lem d.value_free (free_value n.value) h t1,
                    stored_value c.addr v n h
                        (t1 ++ (if d.value_free then free_value n.value ∷ [] else [])) pos here,
                    went_out h' t2,
                  )),
              chain',
              λ a off. let ne = find_cell-apart d.key_equals key a cs c off e in ground arith,
            )
      ]

  -- If the entries are linked from the head and there is more fuel than entries:
  -- ListDictionary_Remove returns the value of the first entry with an equal key, or NULL, and
  -- frees that entry; the others are then linked from the head in their order, other memory stays,
  -- and only the lock is entered and left, if the dictionary is synchronized.
  pub remove_lem :
      (key : ℕ)
      → (h' : ℕ → Option Item) × (p : ℕ) × (remove fuel (some d) key (world h t)
          ≡ some (
            (value_of (find_cell d.key_equals key cs), some (record d { head = p })),
            world h' (called d t []),
          ))
        × Chain h' p (without d.key_equals key cs)
        × Elsewhere h h' cs
        × ((c : Cell) → find_cell d.key_equals key cs ≡ some c → h' c.addr ≡ none)
  unfolding remove
  remove_lem key =
      let (h', p, went, chain', elsewhere, freed) =
        remove_loop_lem d.key_equals key fuel d.head h t1 cs enough chain in
      (
        h',
        p,
        rw append-nil (ground (arith, went_in, went, went_out h' t1)),
        chain',
        elsewhere,
        freed,
      )

  -- If the entries are linked from the head and there is more fuel than entries:
  -- ListDictionary_Clear frees every entry, in order, after the callbacks for its key and value
  -- that are set, sets the head to NULL, and touches no other memory, all of it between entering
  -- and leaving the lock if the dictionary is synchronized.
  pub clear_lem :
      (h' : ℕ → Option Item) × (clear fuel (some d) (world h t)
        ≡ some (some (record d { head = 0 }), world h' (called d t (frees d cs))))
      × All (λ (c : Cell). h' c.addr ≡ none) cs
      × Elsewhere h h' cs
  unfolding clear
  clear_lem =
      let (h', went, freed, elsewhere) = clear_loop_lem fuel d.head d h t1 cs enough chain in
      (h', ground (arith, went_in, went, went_out h' (t1 ++ frees d cs)), freed, elsewhere)

  -- If the entries are linked from the head and there is more fuel than entries:
  -- ListDictionary_Free clears the dictionary as ListDictionary_Clear does, and then deletes the
  -- lock and frees the struct; every entry is freed and no other memory touched.
  pub free_lem :
      (h' : ℕ → Option Item) × (free fuel (some d) (world h t)
        ≡ some
            (tt, world h' ((called d t (frees d cs) ++ delete_lock ∷ []) ++ free_dictionary ∷ [])))
      × All (λ (c : Cell). h' c.addr ≡ none) cs
      × Elsewhere h h' cs
  unfolding free
  free_lem =
      let (h', went, freed, elsewhere) = clear_lem in (h', ground (arith, went), freed, elsewhere)

  -- If the entries are linked from the head (and the fuel of the other functions, which this one
  -- does not use, is more than there are entries): ListDictionary_Remove_Head returns the value of
  -- the first entry, or NULL where there is none, and frees that entry; the others are then linked
  -- from the head, and other memory stays.
  pub remove_head_lem :
      (h' : ℕ → Option Item) × (p : ℕ) × (remove_head (some d) (world h t)
        ≡ some ((value_of (head? cs), some (record d { head = p })), world h' (called d t [])))
      × Chain h' p (tail cs)
      × Elsewhere h h' cs
  unfolding remove_head
  remove_head_lem = first cs chain
    where
      first :
          (ds : List Cell)
          → Chain h d.head ds
          → (h' : ℕ → Option Item) × (p : ℕ) × (remove_head (some d) (world h t)
              ≡ some
                  ((value_of (head? ds), some (record d { head = p })), world h' (called d t [])))
            × Chain h' p (tail ds)
            × Elsewhere h h' ds
      first [] null =
          (h, d.head, rw append-nil (ground (arith, went_in, went_out h t1)), null, λ a off. refl)
      first (c ∷ ds) (e, pos, apart, (q, here, rest)) =
          let here' : h d.head ≡ some (item c.key c.value q) = rw e here in
          let apart' : Absent d.head ds = subst (λ a. Absent a ds) (sym e) apart in
          let loaded = load_cell h t1 d.head (item c.key c.value q) pos here' in
          let gone = freed_item d.head (item c.key c.value q) h t1 pos here' in
          let h' = update h d.head none in
          (
            h',
            q,
            rw append-nil (ground (arith, went_in, loaded, gone, went_out h' t1)),
            Segment-update h d.head none 0 q ds apart' rest,
            λ a off. ground arith,
          )

  added_null :
      (fresh key v : ℕ)
      → fresh ≡ 0
      → add fuel fresh (some d) key v (world h t) ≡ some ((false, some d), world h (called d t []))
  unfolding add
  added_null fresh key v null = rw append-nil (ground (arith, went_in, went_out h t1))

  -- If the entries are linked from the head, there is more fuel than entries, and no entry is at
  -- the address that malloc returns: ListDictionary_Add puts an entry with the key and the value
  -- behind the others, or returns FALSE and changes nothing if that address is NULL; it touches no
  -- other memory than the new entry and the entries.
  pub add_lem :
      (fresh key v : ℕ)
      → Absent fresh cs
      → (h' : ℕ → Option Item) × (p : ℕ) × (add fuel fresh (some d) key v (world h t)
          ≡ some ((not (fresh == 0), some (record d { head = p })), world h' (called d t [])))
        × Chain h' p (if fresh == 0 then cs else cs ++ cell fresh key v ∷ [])
        × ((a : ℕ) → a ≢ fresh → Absent a cs → h' a ≡ h a)
  add_lem fresh key v absent = elim (Bool-cases (fresh == 0)) [
    | inl null ↦
        let none_left = added_null fresh key v (ground arith) in
        (h, d.head, rw null none_left, rw null chain, λ a ne off. refl)
    | inr new ↦
        let (h', p, went, chain', elsewhere) =
          added_lem d h t cs fuel enough chain fresh key v (ground arith) absent in
        (h', p, rw new went, rw new chain', elsewhere)
  ]
