-- ===== src/Examples.antt =====
-- The theorems applied to concrete queries, constraints and contexts.
mod Rewrites
mod Filters
mod Contexts
mod Triples
mod Encodings
mod Documents
mod Passes
mod Templates
