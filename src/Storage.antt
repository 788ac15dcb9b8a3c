-- ===== src/Storage.antt =====
-- lib/triplestore/src/storage: the part of the triple store that is modelled, its index of the
-- pairs of a subject and an object that are stored under one predicate.
pub mod Index
