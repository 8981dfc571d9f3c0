-- ===== src/Alignment/Blocks.antt =====
-- What libuzi/alignment.c promises of a block, with a malloc that returns blocks inside the address
-- space.
use libuzi.Common.{
  ℕ, ◌+◌, ◌-◌, ◌*◌, ◌%◌, ◌^◌, ◌≤◌, ◌<◌, ◌≡◌, ◌≢◌, inl, inr, refl, true, false, [], ◌∷◌, ◌++◌, ltb,
  leb, ◌==◌, if◌then◌else◌, Bool-cases, arith,
}
use native.Mathlib.Nat.{mul-mod_left}
use libuzi.Alignment.Masks.{bit_and_not_below}
use libuzi.Alignment.Defs.{
  AlignedMem, aligned_mem_signature, aligned_mem_size, World, put_header, zero_memory, copy_memory,
  at_least_pointer, aligned_address, aligned_free, aligned_msize, aligned_offset_malloc,
  aligned_offset_realloc, zeroed, aligned_offset_recalloc,
}

-- The address, in a block of `size + 2^k` bytes and those of the header.
aligned_address_lem :
    (base k offset size : ℕ)
    → k < 64
    → offset < size
    → base + (size + 2 ^ k + aligned_mem_size) ≤ 2 ^ 64
    → let p = aligned_address base (2 ^ k) offset in
      ((p + offset) % 2 ^ k ≡ 0)
      × (base + aligned_mem_size ≤ p)
      × (p + size ≤ base + (size + 2 ^ k + aligned_mem_size))
unfolding aligned_address
aligned_address_lem base k offset size small less fits =
    let y = base + 2 ^ k + offset + aligned_mem_size in
    let inside : y < 2 ^ 64 = omega arith in
    let same : y % 2 ^ 64 ≡ y = omega arith in
    let (q, found, low, high) = bit_and_not_below k y small inside in
    let address : (q * 2 ^ k + (2 ^ 64 - offset)) % 2 ^ 64 ≡ q * 2 ^ k - offset = omega arith in
    let exact : q * 2 ^ k - offset + offset ≡ q * 2 ^ k = omega arith in
    rw (same, found, address) (rw exact (mul-mod_left q (2 ^ k)), omega arith, omega arith)

-- malloc gives the request a block that is not NULL and lies in the address space.
abbrev pub Served : (malloc : ℕ → ℕ) → ℕ → Type 0
Served malloc n = (0 < malloc n) × (malloc n + n ≤ 2 ^ 64)

module _ (malloc : ℕ → ℕ) (size alignment offset k : ℕ) (w : World) (small : k < 64)
    (power : at_least_pointer alignment ≡ 2 ^ k) (even : alignment % 2 ≡ 0) (less : offset < size)
    (served : Served malloc (size + 2 ^ k + aligned_mem_size)) where
  abbrev pub request : ℕ
  request = size + 2 ^ k + aligned_mem_size

  abbrev pub block : ℕ
  block = aligned_address (malloc request) (2 ^ k) offset

  abbrev pub head_of : AlignedMem
  head_of = record { sig = aligned_mem_signature; size = size; base_addr = malloc request }

  pub made_lem :
      aligned_offset_malloc malloc size alignment offset w ≡ (block, put_header w block head_of)
  unfolding aligned_offset_malloc
  made_lem =
      let whole : request % 2 ^ 64 ≡ request = omega arith in
      let odd : (alignment % 2 == 1) ≡ false = ground arith in
      let large : leb size offset ≡ false = ground arith in
      let full : (malloc request == 0) ≡ false = ground arith in
      rw (power, whole, odd, large, full) refl

  -- If the alignment is even and, raised to the size of a pointer, 2^k with k < 64, the offset is
  -- less than the size, and malloc serves size + 2^k + 24 bytes with a block that is not NULL and
  -- lies in the address space: _aligned_offset_malloc returns an address that together with the
  -- offset is a multiple of 2^k and that has the header in front of it and all its bytes behind it
  -- inside that block; _aligned_msize is then the size, and _aligned_free frees that block.
  pub aligned_offset_malloc_lem :
      (p : ℕ) × (w' : World) × (aligned_offset_malloc malloc size alignment offset w ≡ (p, w'))
      × ((p + offset) % 2 ^ k ≡ 0)
      × (malloc request + aligned_mem_size ≤ p)
      × (p + size ≤ malloc request + request)
      × (aligned_msize p w' ≡ size)
      × ((aligned_free p w').freed ≡ w.freed ++ malloc request ∷ [])
  unfolding aligned_msize aligned_free
  aligned_offset_malloc_lem =
      let (exact, behind, inside) =
        aligned_address_lem (malloc request) k offset size small less served.1 in
      let pos : (block == 0) ≡ false = ground arith in
      let mine : (block == block) ≡ true = ground arith in
      (
        block,
        put_header w block head_of,
        made_lem,
        exact,
        behind,
        inside,
        rw (pos, mine) refl,
        rw (pos, mine) refl,
      )

  -- Under the conditions of _aligned_offset_malloc, for a memblock that is not NULL, has the
  -- signature and is not where the new block is placed, and an index below both its old size and
  -- the new size: _aligned_offset_realloc returns the new block, with the old byte at that index,
  -- has freed the old block, and _aligned_msize of the new one is the new size.
  pub aligned_offset_realloc_lem :
      (memblock i : ℕ)
      → 0 < memblock
      → memblock ≢ block
      → (w.header memblock).sig ≡ aligned_mem_signature
      → i < size
      → i < (w.header memblock).size
      → (w' : World) × (aligned_offset_realloc malloc memblock size alignment offset w
          ≡ (block, w'))
        × (w'.bytes (block + i) ≡ w.bytes (memblock + i))
        × (w'.freed ≡ w.freed ++ (w.header memblock).base_addr ∷ [])
        × (aligned_msize block w' ≡ size)
  unfolding aligned_offset_realloc aligned_free aligned_msize
  aligned_offset_realloc_lem memblock i old_pos apart signed in_new in_old =
      let (exact, behind, inside) =
        aligned_address_lem (malloc request) k offset size small less served.1 in
      let pos : (block == 0) ≡ false = ground arith in
      let mine : (block == block) ≡ true = ground arith in
      let other : (memblock == block) ≡ false = ground arith in
      let old : (memblock == 0) ≡ false = ground arith in
      let sized : (size == 0) ≡ false = ground arith in
      let ok : ((w.header memblock).sig == aligned_mem_signature) ≡ true = ground arith in
      let start : leb block (block + i) ≡ true = ground arith in
      let there : block + i - block + memblock ≡ memblock + i = omega arith in
      let made = put_header w block head_of in
      let old_size = (w.header memblock).size in
      let n = if ltb size old_size then size else old_size in
      let end : ltb (block + i) (block + n) ≡ true = ground arith in
      (
        record (copy_memory made block memblock n) {
          freed = w.freed ++ (w.header memblock).base_addr ∷ [];
        },
        rw (made_lem, mine, other, old, ok, sized, pos) refl,
        rw (start, end, there) refl,
        refl,
        rw (pos, mine) refl,
      )

  -- Under the conditions of _aligned_offset_malloc, for a product of number and size, taken modulo
  -- 2^64, that is the size: _aligned_offset_recalloc of NULL makes a block with its header, frees
  -- nothing, and returns NULL.
  pub recalloc_null :
      (num unit : ℕ)
      → unit * num % 2 ^ 64 ≡ size
      → (w' : World) × (aligned_offset_recalloc malloc 0 num unit alignment offset w ≡ (0, w'))
        × (w'.header block ≡ head_of)
        × (w'.freed ≡ w.freed)
  unfolding aligned_offset_recalloc zeroed
  recalloc_null num unit product =
      let (exact, behind, inside) =
        aligned_address_lem (malloc request) k offset size small less served.1 in
      let pos : (block == 0) ≡ false = ground arith in
      let mine : (block == block) ≡ true = ground arith in
      (
        zero_memory (put_header w block head_of) block size,
        rw (product, made_lem, pos, mine) refl,
        rw mine refl,
        refl,
      )

malloc_refused :
    (malloc : ℕ → ℕ) (size alignment offset : ℕ) (w : World)
    → ((n : ℕ) → malloc n ≡ 0)
    → aligned_offset_malloc malloc size alignment offset w ≡ (0, w)
unfolding aligned_offset_malloc
malloc_refused malloc size alignment offset w out =
    let null : (malloc ((size + at_least_pointer alignment + aligned_mem_size) % 2 ^ 64) == 0)
        ≡ true =
      ground (arith, out ((size + at_least_pointer alignment + aligned_mem_size) % 2 ^ 64)) in
    rw null (ground arith)

-- If malloc returns NULL always, memblock is not NULL and the size is not 0:
-- _aligned_offset_realloc returns NULL and changes nothing.
pub realloc_refused :
    (malloc : ℕ → ℕ) (memblock size alignment offset : ℕ) (w : World)
    → ((n : ℕ) → malloc n ≡ 0)
    → 0 < memblock
    → 0 < size
    → aligned_offset_realloc malloc memblock size alignment offset w ≡ (0, w)
unfolding aligned_offset_realloc
realloc_refused malloc memblock size alignment offset w out pos sized =
    let none_made : aligned_offset_malloc malloc size alignment offset w ≡ (0, w) =
      malloc_refused malloc size alignment offset w out in
    let old : (memblock == 0) ≡ false = ground arith in
    let some_size : (size == 0) ≡ false = ground arith in
    elim (Bool-cases ((w.header memblock).sig == aligned_mem_signature)) [
      | inl e ↦ rw (none_made, old, e, some_size) refl
      | inr e ↦ rw (none_made, old, e) refl
    ]
