-- ===== src/Critical.antt =====
-- libuzi/critical.c: the critical section, as threads that take its steps in any order.
pub mod Defs
pub mod Invariant
pub mod Safety
pub mod Locking
mod Tests
