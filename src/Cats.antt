-- ===== src/Cats.antt =====
-- lib/in_memory/src/lib.rs: the categorical encodings.
pub mod Bytes
pub mod Codes
pub mod Ordered
pub mod Maps
pub mod Entries
pub mod Inverse
pub mod Collect
pub mod Split
pub mod Numbered
pub mod Merge
pub mod Iri
pub mod Compressed
pub mod Compact
pub mod InMemory
pub mod Listing
