-- ===== src/Alignment/Defs.antt =====
-- libuzi/alignment.c: the functions. A pointer is a number below 2^64, and 0 is NULL. The header is
-- read and written by the address of the block that it stands in front of. malloc is a parameter, a
-- function from the size asked for to the block.
use libuzi.Common.{
  ℕ, ◌+◌, ◌-◌, ◌*◌, ◌%◌, ◌^◌, List, [], ◌∷◌, ◌++◌, ltb, leb, ◌==◌, ◌&&◌, not, if◌then◌else◌,
  bit_and,
}

-- WINPR_ALIGNED_MEM
pub record AlignedMem : Type 0 where
  pub sig : ℕ
  pub size : ℕ
  pub base_addr : ℕ

abbrev pub aligned_mem_signature : ℕ
aligned_mem_signature = 0x0ba0bab

-- `sizeof(WINPR_ALIGNED_MEM)` and `sizeof(void*)` where a pointer has 64 bits
abbrev pub aligned_mem_size : ℕ
aligned_mem_size = 24

abbrev pub pointer_size : ℕ
pointer_size = 8

-- The headers, the bytes, and the blocks that have been given to free, the last one last.
pub record World : Type 0 where
  pub header : ℕ → AlignedMem
  pub bytes : ℕ → ℕ
  pub freed : List ℕ

abbrev pub put_header : World → ℕ → AlignedMem → World
put_header w p m = record w { header = λ a. if a == p then m else w.header a }

-- ZeroMemory and CopyMemory
abbrev pub zero_memory : World → (p n : ℕ) → World
zero_memory w p n = record w { bytes = λ a. if leb p a && ltb a (p + n) then 0 else w.bytes a }

abbrev pub copy_memory : World → (to from n : ℕ) → World
copy_memory w to from n = record w {
  bytes = λ a. if leb to a && ltb a (to + n) then w.bytes (a - to + from) else w.bytes a;
}

-- `if (alignment < sizeof(void*)) alignment = sizeof(void*);`
abbrev pub at_least_pointer : ℕ → ℕ
at_least_pointer alignment = if ltb alignment pointer_size then pointer_size else alignment

-- `((base + alignment + offset + sizeof(WINPR_ALIGNED_MEM)) & ~(alignment - 1)) - offset`
unfoldable pub aligned_address : (base alignment offset : ℕ) → ℕ
aligned_address base alignment offset =
    (bit_and ((base + alignment + offset + aligned_mem_size) % 2 ^ 64)
        (2 ^ 64 - 1 - (alignment - 1))
      + (2 ^ 64 - offset))
    % 2 ^ 64

-- _aligned_free
unfoldable pub aligned_free : ℕ → World → World
aligned_free memblock w =
    if memblock == 0
    then w
    else if not ((w.header memblock).sig == aligned_mem_signature)
    then w
    else record w { freed = w.freed ++ (w.header memblock).base_addr ∷ [] }

-- _aligned_msize
unfoldable pub aligned_msize : ℕ → World → ℕ
aligned_msize memblock w =
    if memblock == 0
    then 0
    else if not ((w.header memblock).sig == aligned_mem_signature)
    then 0
    else (w.header memblock).size

module _ (malloc : ℕ → ℕ) where
  -- _aligned_offset_malloc
  unfoldable pub aligned_offset_malloc : (size alignment offset : ℕ) → World → ℕ × World
  aligned_offset_malloc size alignment offset w =
      let aligned = at_least_pointer alignment in
      let base = malloc ((size + aligned + aligned_mem_size) % 2 ^ 64) in
      let memblock = aligned_address base aligned offset in
      if alignment % 2 == 1
      then (0, w)
      else if leb size offset
      then (0, w)
      else if base == 0
      then (0, w)
      else (
        memblock,
        put_header w memblock
            (record { sig = aligned_mem_signature; size = size; base_addr = base }),
      )

  -- _aligned_offset_realloc
  unfoldable pub aligned_offset_realloc : (memblock size alignment offset : ℕ) → World → ℕ × World
  aligned_offset_realloc memblock size alignment offset w =
      let made = aligned_offset_malloc size alignment offset w in
      let new_size = (made.1.header made.0).size in
      let old_size = (made.1.header memblock).size in
      let copy_size = if ltb new_size old_size then new_size else old_size in
      if memblock == 0
      then made
      else if not ((w.header memblock).sig == aligned_mem_signature)
      then (0, w)
      else if size == 0
      then (0, aligned_free memblock w)
      else if made.0 == 0
      then (0, made.1)
      else (made.0, aligned_free memblock (copy_memory made.1 made.0 memblock copy_size))

  -- The block of _aligned_offset_recalloc, made and set to 0.
  unfoldable pub zeroed : (size alignment offset : ℕ) → World → ℕ × World
  zeroed size alignment offset w =
      let made = aligned_offset_malloc size alignment offset w in
      if made.0 == 0
      then (0, made.1)
      else (made.0, zero_memory made.1 made.0 (made.1.header made.0).size)

  -- _aligned_offset_recalloc, which returns `memblock` where it is NULL
  unfoldable pub aligned_offset_recalloc :
      (memblock num size alignment offset : ℕ) → World → ℕ × World
  aligned_offset_recalloc memblock num size alignment offset w =
      let made = zeroed (size * num % 2 ^ 64) alignment offset w in
      if memblock == 0
      then (memblock, made.1)
      else if not ((w.header memblock).sig == aligned_mem_signature)
      then (0, w)
      else if size == 0
      then (0, aligned_free memblock w)
      else if made.0 == 0
      then (0, made.1)
      else (made.0, aligned_free memblock made.1)

  -- _aligned_malloc, _aligned_realloc and _aligned_recalloc
  abbrev pub aligned_malloc : (size alignment : ℕ) → World → ℕ × World
  aligned_malloc size alignment w = aligned_offset_malloc size alignment 0 w

  abbrev pub aligned_realloc : (memblock size alignment : ℕ) → World → ℕ × World
  aligned_realloc memblock size alignment w = aligned_offset_realloc memblock size alignment 0 w

  abbrev pub aligned_recalloc : (memblock num size alignment : ℕ) → World → ℕ × World
  aligned_recalloc memblock num size alignment w =
      aligned_offset_recalloc memblock num size alignment 0 w
