-- ===== src/Alignment/Tests.antt =====
-- The theorems on aligned blocks at concrete inputs.
use libuzi.Common.{ℕ, ◌+◌, ◌%◌, ◌^◌, ◌≤◌, ◌≡◌, refl, [], ◌∷◌, ◌++◌, ◌==◌, if◌then◌else◌, arith}
use libuzi.Alignment.Defs.{
  aligned_mem_signature, World, aligned_address, aligned_free, aligned_msize, aligned_mem_size,
  aligned_offset_malloc, aligned_offset_realloc,
}
use libuzi.Alignment.Blocks.{aligned_offset_malloc_lem, aligned_offset_realloc_lem}

-- A malloc that serves every request at 0x1008, and an earlier block at 0x500.
abbrev malloc : ℕ → ℕ
malloc n = 0x1008

abbrev world : World
world = record {
  header = λ a.
      if a == 0x500
      then record { sig = aligned_mem_signature; size = 7; base_addr = 0x400 }
      else record { sig = 0; size = 0; base_addr = 0 };
  bytes = λ a. a % 256;
  freed = [];
}

aligned_offset_malloc_lem_example :
    (p : ℕ) × (w' : World) × (aligned_offset_malloc malloc 100 64 4 world ≡ (p, w'))
    × ((p + 4) % 2 ^ 6 ≡ 0)
    × (malloc (100 + 2 ^ 6 + aligned_mem_size) + aligned_mem_size ≤ p)
    × (p + 100 ≤ malloc (100 + 2 ^ 6 + aligned_mem_size) + (100 + 2 ^ 6 + aligned_mem_size))
    × (aligned_msize p w' ≡ 100)
    × ((aligned_free p w').freed ≡ world.freed ++ malloc (100 + 2 ^ 6 + aligned_mem_size) ∷ [])
aligned_offset_malloc_lem_example =
    aligned_offset_malloc_lem malloc 100 64 4 6 world (omega arith) refl refl (omega arith)
      (omega arith, omega arith)

-- The address of that block.
abbrev address : ℕ
address = aligned_address 0x1008 (2 ^ 6) 4

aligned_at : address ≡ 0x103c
unfolding aligned_address
aligned_at = refl

aligned_offset_realloc_lem_example :
    (w' : World) × (aligned_offset_realloc malloc 0x500 100 64 4 world ≡ (address, w'))
    × (w'.bytes (address + 6) ≡ world.bytes (0x500 + 6))
    × (w'.freed ≡ world.freed ++ 0x400 ∷ [])
    × (aligned_msize address w' ≡ 100)
aligned_offset_realloc_lem_example =
    aligned_offset_realloc_lem malloc 100 64 4 6 world (omega arith) refl refl (omega arith)
      (omega arith, omega arith) 0x500 6 (omega arith) (ground (arith, aligned_at)) refl
      (omega arith) (omega arith)
