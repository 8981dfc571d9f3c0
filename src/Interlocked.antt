-- ===== src/Interlocked.antt =====
-- libuzi/interlocked.c: the linked lists and the atomic operations.
pub mod Entries
pub mod Ring
pub mod Lists
pub mod Single
pub mod Stack
mod Tests
