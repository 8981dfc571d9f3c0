-- ===== src/Interlocked/Single.antt =====
-- libuzi/interlocked.c: the singly linked lists and the atomic operations, in the build without _WIN64.
-- Next of all entries is a function of their addresses, with 0 for NULL.
use libuzi.Common.{
  ℕ, ◌+◌, ◌-◌, ◌%◌, ◌^◌, Bool, true, false, ◌&&◌, Option, none, some, ◌==◌, if◌then◌else◌,
}

-- UZI_SLIST_HEADER: two fields of 16 bits behind the pointer
pub record SlistHeader : Type 0 where
  pub next : ℕ
  pub depth : ℕ
  pub sequence : ℕ

-- The header and the entries.
pub record Slist : Type 0 where
  pub header : SlistHeader
  pub links : ℕ → ℕ

abbrev pub slist : SlistHeader → (ℕ → ℕ) → Slist
slist header links = record { header = header; links = links }

abbrev pub set_next : ℕ → ℕ → (ℕ → ℕ) → ℕ → ℕ
set_next p q links = λ a. if a == p then q else links a

-- InitializeSListHead sets Alignment, the first 8 bytes of the header, to 0. Where a pointer has 8
-- bytes, which is `wide`, these are Next only; where it has 4, they are all fields.
abbrev pub with_alignment : (wide : Bool) → (new current : SlistHeader) → SlistHeader
with_alignment true new current = record current { next = new.next }
with_alignment false new current = new

abbrev pub zero_header : SlistHeader
zero_header = record { next = 0; depth = 0; sequence = 0 }

unfoldable pub initialize_slist_head : (wide : Bool) → SlistHeader → SlistHeader
initialize_slist_head wide header = with_alignment wide zero_header header

-- Whether two headers have the same Alignment.
abbrev pub same_alignment : (wide : Bool) → SlistHeader → SlistHeader → Bool
same_alignment true a b = a.next == b.next
same_alignment false a b = (a.next == b.next) && (a.depth == b.depth) && (a.sequence == b.sequence)

-- InterlockedCompareExchange64 of Alignment: whether it was the comperand, and the header after it.
unfoldable pub compare_exchange_64 :
    (wide : Bool) (destination exchange comperand : SlistHeader) → Bool × SlistHeader
compare_exchange_64 wide destination exchange comperand =
    if same_alignment wide destination comperand
    then (true, with_alignment wide exchange destination)
    else (false, destination)

-- The new headers of a push, a pop and a flush.
abbrev pub pushed : (entry : ℕ) → SlistHeader → SlistHeader
pushed entry old = record {
  next = entry;
  depth = (old.depth + 1) % 2 ^ 16;
  sequence = (old.sequence + 1) % 2 ^ 16;
}

abbrev pub popped : (next : ℕ) → SlistHeader → SlistHeader
popped next old = record {
  next = next;
  depth = (old.depth + (2 ^ 16 - 1)) % 2 ^ 16;
  sequence = (old.sequence + 1) % 2 ^ 16;
}

abbrev pub flushed : SlistHeader → SlistHeader
flushed old = record { next = 0; depth = 0; sequence = (old.sequence + 1) % 2 ^ 16 }

-- One round of the loop of InterlockedPushEntrySList: it has read the header `old`, and the compare and
-- exchange finds the list `s`, which other threads may have changed since. `none` is another round.
unfoldable pub push_round :
    (wide : Bool) (entry : ℕ) (old : SlistHeader) → Slist → Option (ℕ × Slist)
push_round wide entry old s =
    let links = set_next entry old.next s.links in
    let done = compare_exchange_64 wide s.header (pushed entry old) old in
    if done.0 then some (old.next, slist done.1 links) else none

-- InterlockedPushListSListEx, which does nothing
abbrev pub interlocked_push_list_slist_ex : Slist → ℕ × Slist
interlocked_push_list_slist_ex s = (0, s)

-- One round of the loop of InterlockedPopEntrySList, where no thread comes between.
unfoldable pub pop_round : (wide : Bool) (old : SlistHeader) → Slist → Option (ℕ × Slist)
pop_round wide old s =
    let done = compare_exchange_64 wide s.header (popped (s.links old.next) old) old in
    if old.next == 0
    then some (0, s)
    else if done.0
    then some (old.next, slist done.1 s.links)
    else none

unfoldable pub query_depth_slist : Slist → ℕ
query_depth_slist s = s.header.depth

-- InterlockedFlushSList, with one round of its loop
unfoldable pub flush_round : (wide : Bool) (old : SlistHeader) → Slist → Option (ℕ × Slist)
flush_round wide old s =
    let done = compare_exchange_64 wide s.header (flushed old) old in
    if query_depth_slist s == 0
    then some (0, s)
    else if done.0
    then some (old.next, slist done.1 s.links)
    else none

-- PushEntryList and PopEntryList; the head is an entry itself.
unfoldable pub push_entry_list : (head entry : ℕ) → (ℕ → ℕ) → ℕ → ℕ
push_entry_list head entry links = set_next head entry (set_next entry (links head) links)

unfoldable pub pop_entry_list : (head : ℕ) → (ℕ → ℕ) → ℕ × (ℕ → ℕ)
pop_entry_list head links =
    let first = links head in
    (first, (if first == 0 then links else set_next head (links first) links))

-- The operations on one word of `w` bits, each returning the result and the word after it:
-- InterlockedIncrement, InterlockedDecrement, InterlockedExchangeAdd, InterlockedCompareExchange and
-- InterlockedCompareExchangePointer.
abbrev pub interlocked_increment : (w addend : ℕ) → ℕ × ℕ
interlocked_increment w addend = ((addend + 1) % 2 ^ w, (addend + 1) % 2 ^ w)

abbrev pub interlocked_decrement : (w addend : ℕ) → ℕ × ℕ
interlocked_decrement w addend = ((addend + (2 ^ w - 1)) % 2 ^ w, (addend + (2 ^ w - 1)) % 2 ^ w)

abbrev pub interlocked_exchange_add : (w addend value : ℕ) → ℕ × ℕ
interlocked_exchange_add w addend value = (addend, (addend + value) % 2 ^ w)

unfoldable pub interlocked_compare_exchange : (destination exchange comperand : ℕ) → ℕ × ℕ
interlocked_compare_exchange destination exchange comperand =
    if destination == comperand then (destination, exchange) else (destination, destination)

-- InterlockedExchange: the target is read as the comperand, `seen`, before it is compared.
unfoldable pub interlocked_exchange : (seen target value : ℕ) → ℕ × ℕ
interlocked_exchange seen target value = interlocked_compare_exchange target value seen
