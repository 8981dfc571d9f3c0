-- ===== src/Alignment.antt =====
-- libuzi/alignment.c: aligned allocations, each with a header in front of it.
pub mod Defs
mod Masks
pub mod Blocks
mod Tests
