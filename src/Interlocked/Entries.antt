-- ===== src/Interlocked/Entries.antt =====
-- libuzi/interlocked.c: the functions of the doubly linked list, from InitializeListHead to
-- AppendTailList. A pointer is a number. The two links of all entries are two functions of it.
use libuzi.Common.{ℕ, Bool, ◌==◌, if◌then◌else◌}

-- UZI_LIST_ENTRY, for all entries
pub record Links : Type 0 where
  pub flink : ℕ → ℕ
  pub blink : ℕ → ℕ

-- `p->Flink = q` and `p->Blink = q`
abbrev pub set_flink : ℕ → ℕ → Links → Links
set_flink p q m = record m { flink = λ a. if a == p then q else m.flink a }

abbrev pub set_blink : ℕ → ℕ → Links → Links
set_blink p q m = record m { blink = λ a. if a == p then q else m.blink a }

unfoldable pub initialize_list_head : ℕ → Links → Links
initialize_list_head head m = set_flink head head (set_blink head head m)

unfoldable pub is_list_empty : ℕ → Links → Bool
is_list_empty head m = m.flink head == head

unfoldable pub remove_entry_list : ℕ → Links → Bool × Links
remove_entry_list entry m =
    let old_flink = m.flink entry in
    let old_blink = m.blink entry in
    (old_flink == old_blink, set_flink old_blink old_flink (set_blink old_flink old_blink m))

unfoldable pub insert_head_list : ℕ → ℕ → Links → Links
insert_head_list head entry m =
    let old_flink = m.flink head in
    let m1 = set_flink entry old_flink m in
    let m2 = set_blink entry head m1 in
    let m3 = set_blink old_flink entry m2 in set_flink head entry m3

unfoldable pub remove_head_list : ℕ → Links → ℕ × Links
remove_head_list head m =
    let entry = m.flink head in
    let next = m.flink entry in (entry, set_blink next head (set_flink head next m))

unfoldable pub insert_tail_list : ℕ → ℕ → Links → Links
insert_tail_list head entry m =
    let old_blink = m.blink head in
    let m1 = set_flink entry head m in
    let m2 = set_blink entry old_blink m1 in
    let m3 = set_flink old_blink entry m2 in set_blink head entry m3

unfoldable pub remove_tail_list : ℕ → Links → ℕ × Links
remove_tail_list head m =
    let entry = m.blink head in
    let previous = m.blink entry in (entry, set_flink previous head (set_blink head previous m))

unfoldable pub append_tail_list : ℕ → ℕ → Links → Links
append_tail_list head list m =
    let list_end = m.blink head in
    let m1 = set_flink (m.blink head) list m in
    let m2 = set_blink head (m1.blink list) m1 in
    let m3 = set_flink (m2.blink list) head m2 in set_blink list list_end m3
