-- ===== src/Rewrite/Passes.antt =====
-- lib/triplestore/src/sparql/rewrite.rs: the passes one after the other, on the pattern of a query
-- (`Query` and `QueryDataset` of lib/spargebra/src/query.rs; an IRI is a text).
use maplib.Prelude.{ℕ, List, [], Option, some, String}
use maplib.Algebra.{GraphPattern, NamedNode, TriplePattern, Variable}
use maplib.Rewrite.Cse.{and_then, rewrite_gp_cse}
use maplib.Rewrite.LiftExtend.{terminating_lift_extend}
use maplib.Rewrite.Pushdown.{rewrite_gp_pushdown}

pub record QueryDataset : Type 0 where
  pub default_graphs : List NamedNode
  pub named : Option (List NamedNode)

pub data Query : Type 0 where
  select : Option QueryDataset → GraphPattern → Option String → Query
  construct : List TriplePattern → Option QueryDataset → GraphPattern → Option String → Query
  describe ask : Option QueryDataset → GraphPattern → Option String → Query

unfoldable pub pattern_of : Query → GraphPattern
pattern_of (Query.select dataset pattern base_iri) = pattern
pattern_of (Query.construct template dataset pattern base_iri) = pattern
pattern_of (Query.describe dataset pattern base_iri) = pattern
pattern_of (Query.ask dataset pattern base_iri) = pattern

-- the query with another pattern
unfoldable pub with_pattern : Query → GraphPattern → Query
with_pattern (Query.select dataset pattern base_iri) gp = Query.select dataset gp base_iri
with_pattern (Query.construct template dataset pattern base_iri) gp =
    Query.construct template dataset gp base_iri
with_pattern (Query.describe dataset pattern base_iri) gp = Query.describe dataset gp base_iri
with_pattern (Query.ask dataset pattern base_iri) gp = Query.ask dataset gp base_iri

module _ (in_scope_variables : GraphPattern → List Variable) (new_v4 : ℕ → String) where
  unfoldable pub rewrite_gp : GraphPattern → ℕ → Option (GraphPattern × ℕ)
  unfolding rewrite_gp_pushdown rewrite_gp_cse terminating_lift_extend
  rewrite_gp pattern n =
      and_then (rewrite_gp_cse new_v4 (rewrite_gp_pushdown in_scope_variables pattern [] []) n)
        (λ (gp, n'). some (terminating_lift_extend gp, n'))

  unfoldable pub rewrite : Query → ℕ → Option (Query × ℕ)
  unfolding rewrite_gp
  rewrite (Query.select dataset pattern base_iri) n =
      and_then (rewrite_gp pattern n) (λ (gp, n'). some (Query.select dataset gp base_iri, n'))
  rewrite (Query.construct template dataset pattern base_iri) n =
      and_then (rewrite_gp pattern n)
        (λ (gp, n'). some (Query.construct template dataset gp base_iri, n'))
  rewrite (Query.describe dataset pattern base_iri) n =
      and_then (rewrite_gp pattern n) (λ (gp, n'). some (Query.describe dataset gp base_iri, n'))
  rewrite (Query.ask dataset pattern base_iri) n =
      and_then (rewrite_gp pattern n) (λ (gp, n'). some (Query.ask dataset gp base_iri, n'))
