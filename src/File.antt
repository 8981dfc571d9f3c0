-- ===== src/File.antt =====
-- libuzi/file.c: paths, and files as a whole.
pub mod Defs
pub mod Paths
mod Tests
