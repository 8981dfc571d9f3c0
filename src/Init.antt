-- ===== src/Init.antt =====
-- libuzi/init.c: the initialization that runs once, as threads that take its steps in any order.
pub mod Defs
pub mod Once
mod Tests
