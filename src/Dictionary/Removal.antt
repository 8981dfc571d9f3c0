-- ===== src/Dictionary/Removal.antt =====
-- The loops of libuzi/dictionary.c that change the list.
use libuzi.Common.{
  ℕ, zero, suc, ◌<◌, ◌≡◌, refl, sym, ◌∙◌, ◌≢◌, inl, inr, Bool, true, false, Option, none, some,
  List, [], ◌∷◌, ◌++◌, append_assoc, append-nil, if◌then◌else◌, Bool-cases, length, All, arith,
}
use mathlib.Core.Path.{subst}
use libuzi.Dictionary.Store.{
  Item, item, Event, free_key, free_value, world, update, set_next, free_item, when,
}
use libuzi.Dictionary.Chain.{Cell, Absent, Chain, Segment-update}
use libuzi.Dictionary.Spec.{
  find_cell, without, replaced, value_of, Absent-without, Absent-replaced, find_cell-apart,
}
use libuzi.Dictionary.Loops.{load_cell}
use libuzi.Dictionary.Defs.{ListDictionary, unlink, remove_loop, clear_loop}

-- The addresses that are in no cell keep their items.
abbrev pub Elsewhere : (h h' : ℕ → Option Item) → List Cell → Type 0
Elsewhere h h' cs = (a : ℕ) → Absent a cs → h' a ≡ h a

update_other : (h : ℕ → Option Item) (a b : ℕ) (n : Option Item) → b ≢ a → update h a n b ≡ h b
update_other h a b n ne = ground arith

module _ (equals : ℕ → ℕ → Bool) (key : ℕ) where
  -- Unlinking an item behind another one.
  unlink_behind :
      (head b p q : ℕ) (n : Item) (h : ℕ → Option Item) (t : List Event)
      → 0 < b
      → 0 < p
      → b ≢ p
      → h b ≡ some n
      → (m : Item) → h p ≡ some m
      → unlink head b p q (world h t)
        ≡ some (head, world (update (update h b (some (record n { next = q }))) p none) t)
  unfolding unlink set_next free_item
  unlink_behind head b p q n h t bpos ppos apart here m there = ground arith

  unlink_head :
      (head p q : ℕ) (n : Item) (h : ℕ → Option Item) (t : List Event)
      → 0 < p
      → h p ≡ some n
      → unlink head 0 p q (world h t) ≡ some (q, world (update h p none) t)
  unfolding unlink free_item
  unlink_head head p q n h t ppos here = ground arith

  -- The loop of ListDictionary_Remove from the item behind the one at `b`.
  pub remove_behind :
      (fuel head b p : ℕ) (n : Item) (h : ℕ → Option Item) (t : List Event) (cs : List Cell)
      → length cs < fuel
      → 0 < b
      → h b ≡ some n
      → n.next ≡ p
      → Absent b cs
      → Chain h p cs
      → (h' : ℕ → Option Item) × (q : ℕ) × (remove_loop fuel equals key head b p (world h t)
          ≡ some ((head, value_of (find_cell equals key cs)), world h' t))
        × (h' b ≡ some (record n { next = q }))
        × Chain h' q (without equals key cs)
        × ((a : ℕ) → a ≢ b → Absent a cs → h' a ≡ h a)
        × ((c : Cell) → find_cell equals key cs ≡ some c → h' c.addr ≡ none)
  unfolding remove_loop without
  remove_behind zero head b p n h t cs f pos here next absent chain = absurd (omega arith)
  remove_behind (suc fuel) head b p n h t [] f pos here next absent chain =
      (h, p, ground arith, ground arith, chain, λ a ne off. refl, λ c found. cc)
  remove_behind (suc fuel) head b p n h t (c ∷ cs) f pos here next absent
        (e, ppos, apart, (q, there, rest)) =
      let loaded = load_cell h t p (item c.key c.value q) ppos (rw e there) in
      elim (Bool-cases (equals c.key key)) [
        | inl same ↦
            let gone =
              unlink_behind head b p q n h t pos ppos (ground arith) here (item c.key c.value q)
                (rw e there) in
            let apart' : Absent p cs = subst (λ a. Absent a cs) (sym e) apart in
            let linked = update h b (some (record n { next = q })) in
            (
              update linked p none,
              q,
              ground arith,
              ground arith,
              rw same (
                  Segment-update linked p none 0 q cs apart'
                    (Segment-update h b (some (record n { next = q })) 0 q cs absent.1 rest)),
              λ a ne off. ground arith,
              λ d found. ground arith,
            )
        | inr other ↦
            let (h', q', went, mine, chain, elsewhere, freed) =
              remove_behind fuel head p q (item c.key c.value q) h t cs (omega arith) ppos
                (rw e there) refl (rw e apart) rest in
            let kept : Absent c.addr (without equals key cs) =
              Absent-without equals key c.addr cs apart in
            let mine' : h' c.addr ≡ some (item c.key c.value q') =
              subst (λ a. h' a ≡ some (item c.key c.value q')) e mine in
            (
              h',
              p,
              ground arith,
              elsewhere b (ground arith) absent.1 ∙ here ∙ ground arith,
              rw other (e, ppos, kept, (q', mine', chain)),
              λ a ne off. elsewhere a (ground arith) off.1,
              λ d found. freed d (rw other at found),
            )
      ]

  -- The whole loop: the first entry with an equal key is unlinked and freed, and nothing else is
  -- written but the item before it.
  pub remove_loop_lem :
      (fuel p : ℕ) (h : ℕ → Option Item) (t : List Event) (cs : List Cell)
      → length cs < fuel
      → Chain h p cs
      → (h' : ℕ → Option Item) × (p' : ℕ) × (remove_loop fuel equals key p 0 p (world h t)
          ≡ some ((p', value_of (find_cell equals key cs)), world h' t))
        × Chain h' p' (without equals key cs)
        × Elsewhere h h' cs
        × ((c : Cell) → find_cell equals key cs ≡ some c → h' c.addr ≡ none)
  unfolding remove_loop without
  remove_loop_lem zero p h t cs f chain = absurd (omega arith)
  remove_loop_lem (suc fuel) p h t [] f chain =
      (h, p, ground arith, chain, λ a off. refl, λ c found. cc)
  remove_loop_lem (suc fuel) p h t (c ∷ cs) f (e, ppos, apart, (q, there, rest)) =
      let there' : h p ≡ some (item c.key c.value q) = rw e there in
      let loaded = load_cell h t p (item c.key c.value q) ppos there' in
      let apart' : Absent p cs = subst (λ a. Absent a cs) (sym e) apart in
      elim (Bool-cases (equals c.key key)) [
        | inl same ↦
            let gone = unlink_head p p q (item c.key c.value q) h t ppos there' in
            (
              update h p none,
              q,
              ground arith,
              rw same (Segment-update h p none 0 q cs apart' rest),
              λ a off. ground arith,
              λ d found. ground arith,
            )
        | inr other ↦
            let (h', q', went, mine, chain, elsewhere, freed) =
              remove_behind fuel p p q (item c.key c.value q) h t cs (omega arith) ppos there' refl
                apart' rest in
            let kept : Absent c.addr (without equals key cs) =
              Absent-without equals key c.addr cs apart in
            let mine' : h' c.addr ≡ some (item c.key c.value q') =
              subst (λ a. h' a ≡ some (item c.key c.value q')) e mine in
            (
              h',
              p,
              ground arith,
              rw other (e, ppos, kept, (q', mine', chain)),
              λ a off. elsewhere a (ground arith) off.1,
              λ d found. freed d (rw other at found),
            )
      ]

  -- Storing a value in the entry that the search has found.
  pub replaced-Chain :
      (v p : ℕ) (h : ℕ → Option Item) (cs : List Cell) (c : Cell)
      → Chain h p cs
      → find_cell equals key cs ≡ some c
      → (n : Item) × (0 < c.addr)
        × (h c.addr ≡ some n)
        × (n.value ≡ c.value)
        × Chain (update h c.addr (some (record n { value = v }))) p (replaced equals key v cs)
  unfolding replaced
  replaced-Chain v p h [] c chain found = cc
  replaced-Chain v p h (d ∷ cs) c (e, ppos, apart, (q, there, rest)) found =
      elim (Bool-cases (equals d.key key)) [
        | inl same ↦
            let it : d ≡ c = cc (rw same at found) in
            let there' : h d.addr ≡ some (item d.key d.value q) = there in
            subst
              (λ c.
                (n : Item) × (0 < c.addr)
                × (h c.addr ≡ some n)
                × (n.value ≡ c.value)
                × Chain (update h c.addr (some (record n { value = v }))) p
                    (replaced equals key v (d ∷ cs)))
              it
              (
                item d.key d.value q,
                omega arith,
                there,
                refl,
                rw same (
                  e,
                  ppos,
                  apart,
                  (q, ground arith, Segment-update h d.addr _ 0 q cs apart rest),
                ),
              )
        | inr other ↦
            let (n, pos, here, value, chain) = replaced-Chain v q h cs c rest (rw other at found) in
            let ne : d.addr ≢ c.addr =
              find_cell-apart equals key d.addr cs c apart (rw other at found) in
            (
              n,
              pos,
              here,
              value,
              rw other (
                e,
                ppos,
                Absent-replaced equals key d.addr v cs apart,
                (q, update_other h c.addr d.addr _ ne ∙ there, chain),
              ),
            )
      ]

abbrev pub keyed : ListDictionary → Cell → List Event
keyed d c = if d.key_free then free_key c.key ∷ [] else []

abbrev pub valued : ListDictionary → Cell → List Event
valued d c = if d.value_free then free_value c.value ∷ [] else []

-- The callbacks that ListDictionary_Clear makes for the entries, in order.
unfoldable pub frees : ListDictionary → List Cell → List Event
frees d [] = []
frees d (c ∷ cs) = keyed d c ++ (valued d c ++ frees d cs)

pub when_lem :
    (b : Bool) (e : Event) (h : ℕ → Option Item) (t : List Event)
    → when b e (world h t) ≡ some (tt, world h (t ++ (if b then e ∷ [] else [])))
when_lem true e h t = refl
when_lem false e h t = rw append-nil

clear_step :
    (fuel p q : ℕ) (d : ListDictionary) (h : ℕ → Option Item) (t : List Event) (c : Cell)
    → 0 < p
    → h p ≡ some (item c.key c.value q)
    → clear_loop (suc fuel) d p (world h t)
      ≡ clear_loop fuel d q (world (update h p none) ((t ++ keyed d c) ++ valued d c))
unfolding clear_loop free_item
clear_step fuel p q d h t c ppos here =
    let loaded = load_cell h t p (item c.key c.value q) ppos here in
    ground (
      arith,
      when_lem d.key_free (free_key c.key) h t,
      when_lem d.value_free (free_value c.value) h (t ++ keyed d c),
    )

pub clear_loop_lem :
    (fuel p : ℕ) (d : ListDictionary) (h : ℕ → Option Item) (t : List Event) (cs : List Cell)
    → length cs < fuel
    → Chain h p cs
    → (h' : ℕ → Option Item) × (clear_loop fuel d p (world h t)
        ≡ some (tt, world h' (t ++ frees d cs)))
      × All (λ (c : Cell). h' c.addr ≡ none) cs
      × Elsewhere h h' cs
unfolding clear_loop frees
clear_loop_lem zero p d h t cs f chain = absurd (omega arith)
clear_loop_lem (suc fuel) p d h t [] f chain = (h, rw append-nil (ground arith), tt, λ a off. refl)
clear_loop_lem (suc fuel) p d h t (c ∷ cs) f (e, ppos, apart, (q, there, rest)) =
    let there' : h p ≡ some (item c.key c.value q) = rw e there in
    let apart' : Absent p cs = subst (λ a. Absent a cs) (sym e) apart in
    let h1 = update h p none in
    let t1 = (t ++ keyed d c) ++ valued d c in
    let (h', went, freed, elsewhere) =
      clear_loop_lem fuel q d h1 t1 cs (omega arith) (Segment-update h p none 0 q cs apart' rest) in
    (
      h',
      clear_step fuel p q d h t c ppos there' ∙ went ∙ simp append_assoc,
      (elsewhere c.addr apart ∙ ground arith, freed),
      λ a off. elsewhere a off.1 ∙ ground arith,
    )
