-- ===== src/Dictionary.antt =====
-- libuzi/dictionary.c: the ListDictionary, a singly linked list of key and value pairs.
pub mod Store
pub mod Defs
pub mod Chain
pub mod Spec
pub mod Loops
pub mod Removal
pub mod Queries
pub mod Updates
pub mod Lookup
mod Tests
