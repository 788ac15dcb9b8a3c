-- ===== src/Rewrite.antt =====
-- lib/triplestore/src/sparql/rewrite: the passes that a query goes through before it is evaluated.
pub mod Cse
pub mod LiftExtend
pub mod Pushdown
pub mod Passes
