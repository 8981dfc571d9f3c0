-- ===== src/Dictionary/Defs.antt =====
-- libuzi/dictionary.c: the functions. A function that changes the struct returns it; a NULL
-- dictionary is `none`. Each loop takes fuel, and runs out of it as into a fault.
use libuzi.Common.{
  ℕ, zero, suc, ◌+◌, Bool, true, false, Option, none, some, List, [], ◌∷◌, ◌==◌, if◌then◌else◌,
}
use libuzi.Dictionary.Store.{
  item, enter_lock, leave_lock, free_key, free_value, delete_lock, free_dictionary, M, pure, ◌>>=◌,
  ◌>>◌, load, set_next, set_value, free_item, new_item, emit, when,
}

-- struct _wListDictionary; of the callbacks, the test for equal keys, and whether the two that free
-- an object are set
pub record ListDictionary : Type 0 where
  pub synchronized : Bool
  pub head : ℕ
  pub key_equals : ℕ → ℕ → Bool
  pub key_free : Bool
  pub value_free : Bool

-- `if (listDictionary->synchronized) EnterCriticalSection(&listDictionary->lock);`
abbrev pub enter : ListDictionary → M (Unit {0})
enter d = when d.synchronized enter_lock

abbrev pub leave : ListDictionary → M (Unit {0})
leave d = when d.synchronized leave_lock

-- `while (item) { count++; item = item->next; }`
unfoldable pub count_loop : ℕ → ℕ → ℕ → M ℕ
count_loop zero p count = λ _. none
count_loop (suc fuel) p count =
    if p == 0 then pure count else do n ← load p; count_loop fuel n.next (count + 1)

-- ListDictionary_Count; -1 is `none`
unfoldable pub count : ℕ → Option ListDictionary → M (Option ℕ)
count fuel none = pure none
count fuel (some d) = do enter d; c ← count_loop fuel d.head 0; leave d; pure (some c)

-- ListDictionary_IsFixedSized, ListDictionary_IsReadOnly and ListDictionary_IsSynchronized
abbrev pub is_fixed_sized : Option ListDictionary → Bool
is_fixed_sized d = false

abbrev pub is_read_only : Option ListDictionary → Bool
is_read_only d = false

abbrev pub is_synchronized : ListDictionary → Bool
is_synchronized d = d.synchronized

-- ListDictionary_Lock and ListDictionary_Unlock: whether synchronized or not
unfoldable pub lock : Option ListDictionary → M (Unit {0})
lock none = pure tt
lock (some d) = emit enter_lock

unfoldable pub unlock : Option ListDictionary → M (Unit {0})
unlock none = pure tt
unlock (some d) = emit leave_lock

-- The loop of ListDictionary_GetKeys that fills the array.
unfoldable pub keys_loop : ℕ → ℕ → M (List ℕ)
keys_loop zero p = λ _. none
keys_loop (suc fuel) p =
    if p == 0 then pure [] else do n ← load p; ks ← keys_loop fuel n.next; pure (n.key ∷ ks)

-- ListDictionary_GetKeys: the array, whose length is the result, or -1, which it also is when the
-- pointer `ppKeys` to the array is NULL. `calloc_ok` is whether calloc has returned memory; it is
-- called unless there are no keys.
unfoldable pub get_keys :
    ℕ → (calloc_ok : Bool) → (ppKeys : ℕ) → Option ListDictionary → M (Option (List ℕ))
get_keys fuel calloc_ok zero dictionary = pure none
get_keys fuel calloc_ok (suc pp_keys) none = pure none
get_keys fuel calloc_ok (suc pp_keys) (some d) = do
  enter d
  c ← count_loop fuel d.head 0
  if c == 0
      then (do leave d; pure (some []))
      else if calloc_ok
      then (do ks ← keys_loop fuel d.head; leave d; pure (some ks))
      else do leave d; pure none

-- `while (lastItem->next) lastItem = lastItem->next;`
unfoldable pub last_loop : ℕ → ℕ → M ℕ
last_loop zero p = λ _. none
last_loop (suc fuel) p = do n ← load p; if n.next == 0 then pure p else last_loop fuel n.next

-- ListDictionary_Add; `fresh` is what malloc returns
unfoldable pub add :
    ℕ → (fresh : ℕ) → Option ListDictionary → ℕ → ℕ → M (Bool × Option ListDictionary)
add fuel fresh none key value = pure (false, none)
add fuel fresh (some d) key value = do
  enter d
  if fresh == 0 then (do leave d; pure (false, some d)) else do
    new_item fresh (item key value 0)
    if d.head == 0
        then (do leave d; pure (true, some (record d { head = fresh })))
        else do last ← last_loop fuel d.head; set_next last fresh; leave d; pure (true, some d)

-- The loop of ListDictionary_Clear.
unfoldable pub clear_loop : ℕ → ListDictionary → ℕ → M (Unit {0})
clear_loop zero d p = λ _. none
clear_loop (suc fuel) d p = if p == 0 then pure tt else do
  n ← load p
  when d.key_free (free_key n.key)
  when d.value_free (free_value n.value)
  free_item p
  clear_loop fuel d n.next

-- ListDictionary_Clear
unfoldable pub clear : ℕ → Option ListDictionary → M (Option ListDictionary)
clear fuel none = pure none
clear fuel (some d) = do
  enter d
  clear_loop fuel d d.head
  leave d
  pure (some (record d { head = 0 }))

-- `while (item) { if (keyEquals(item->key, key)) break; item = item->next; }`
unfoldable pub find_loop : ℕ → (ℕ → ℕ → Bool) → ℕ → ℕ → M ℕ
find_loop zero equals key p = λ _. none
find_loop (suc fuel) equals key p =
    if p == 0
    then pure 0
    else do n ← load p; if equals n.key key then pure p else find_loop fuel equals key n.next

-- ListDictionary_Contains
unfoldable pub contains : ℕ → Option ListDictionary → ℕ → M Bool
contains fuel none key = pure false
contains fuel (some d) key = do
  enter d
  p ← find_loop fuel d.key_equals key d.head
  leave d
  pure (if p == 0 then false else true)

-- Unlinks the item at `p` behind `prev`, which is NULL at the head; the new head.
unfoldable pub unlink : ℕ → ℕ → ℕ → ℕ → M ℕ
unlink head prev p next =
    if prev == 0 then (do free_item p; pure next) else do set_next prev next; free_item p; pure head

-- The loop of ListDictionary_Remove: the head and the value.
unfoldable pub remove_loop : ℕ → (ℕ → ℕ → Bool) → ℕ → ℕ → ℕ → ℕ → M (ℕ × ℕ)
remove_loop zero equals key head prev p = λ _. none
remove_loop (suc fuel) equals key head prev p = if p == 0 then pure (head, 0) else do
  n ← load p
  if equals n.key key
      then (do h ← unlink head prev p n.next; pure (h, n.value))
      else remove_loop fuel equals key head p n.next

-- ListDictionary_Remove; NULL is 0
unfoldable pub remove : ℕ → Option ListDictionary → ℕ → M (ℕ × Option ListDictionary)
remove fuel none key = pure (0, none)
remove fuel (some d) key = do
  enter d
  (h, v) ← remove_loop fuel d.key_equals key d.head 0 d.head
  leave d
  pure (v, some (record d { head = h }))

-- ListDictionary_Remove_Head
unfoldable pub remove_head : Option ListDictionary → M (ℕ × Option ListDictionary)
remove_head none = pure (0, none)
remove_head (some d) = do
  enter d
  if d.head == 0 then (do leave d; pure (0, some d)) else do
    n ← load d.head
    free_item d.head
    leave d
    pure (n.value, some (record d { head = n.next }))

-- ListDictionary_GetItemValue
unfoldable pub get_item_value : ℕ → Option ListDictionary → ℕ → M ℕ
get_item_value fuel none key = pure 0
get_item_value fuel (some d) key = do
  enter d
  p ← find_loop fuel d.key_equals key d.head
  v ← if p == 0 then pure 0 else (do n ← load p; pure n.value)
  leave d
  pure v

-- ListDictionary_SetItemValue
unfoldable pub set_item_value : ℕ → Option ListDictionary → ℕ → ℕ → M Bool
set_item_value fuel none key value = pure false
set_item_value fuel (some d) key value = do
  enter d
  p ← find_loop fuel d.key_equals key d.head
  done ←
      if p == 0
      then pure false
      else (do n ← load p; when d.value_free (free_value n.value); set_value p value; pure true)
  leave d
  pure done

-- default_equal_function
abbrev pub default_equal : ℕ → ℕ → Bool
default_equal a b = a == b

-- ListDictionary_New; `calloc_ok` and `lock_ok` are whether the two calls succeed
unfoldable pub new : (calloc_ok lock_ok synchronized : Bool) → Option ListDictionary
new false lock_ok synchronized = none
new true false synchronized = none
new true true synchronized = some (record {
  synchronized = synchronized;
  head = 0;
  key_equals = default_equal;
  key_free = false;
  value_free = false;
})

-- ListDictionary_Free
unfoldable pub free : ℕ → Option ListDictionary → M (Unit {0})
free fuel none = pure tt
free fuel (some d) = do clear fuel (some d); emit delete_lock; emit free_dictionary
