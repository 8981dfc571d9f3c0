-- ===== src/Barrier.antt =====
-- libuzi/barrier.c: the synchronization barrier, as threads that take its steps in any order.
pub mod Defs
pub mod Invariant
pub mod Elsewhere
pub mod Safety
pub mod Rounds
pub mod Spins
mod Tests
