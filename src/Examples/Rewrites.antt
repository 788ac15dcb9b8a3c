-- ===== src/Examples/Rewrites.antt =====
-- Queries that the rewrites of lib/triplestore/src/sparql/rewrite are run on. The in-scope variables
-- of a pattern are taken to be the variables that it uses.
use maplib.Prelude.{
  ◌≡◌, refl, ℕ, ◌+◌, true, false, List, [], ◌∷◌, ◌||◌, contains, insert, is_subset,
}
use maplib.Algebra.{
  Expression, GraphPattern, NamedNodePattern, OptionExpression, TermPattern, TriplePattern,
  Variable,
}
use maplib.Variables.{
  find_all_used_variables_in_expression, find_all_used_variables_in_graph_pattern,
}
use maplib.Variables.Occurrence.{occurs, occurs_in_pattern}
use maplib.Variables.Membership.{
  contains-find_all_used_variables_in_expression, contains-find_all_used_variables_in_graph_pattern,
}
use maplib.Rewrite.LiftExtend.{terminating_lift_extend}
use maplib.Rewrite.LiftExtend.Identity.{terminating_lift_extend_lem}
use maplib.Rewrite.Pushdown.{
  any_variable_predicate, contains_variable_predicate, get_expr_vars, rewrite_expr_pushdown,
  rewrite_gp_pushdown,
}
use maplib.Rewrite.Pushdown.Dropped.{left_join_filter_vanishes, rewrite_bgp_drops}
use maplib.Rewrite.Pushdown.Filters.{filters_of, total}
use maplib.Rewrite.Pushdown.Identity.{named_predicates, rewrite_gp_pushdown_identity}
use maplib.Rewrite.Pushdown.Kept.{accepts, expected, keeps}
use maplib.Rewrite.Pushdown.Placement.{total-kept, total-pushed}

abbrev scope : GraphPattern → List Variable
scope gp = find_all_used_variables_in_graph_pattern gp [] false false

-- `?s <name> ?o`
abbrev named : TriplePattern
named = record {
  subject = TermPattern.variable "s";
  predicate = NamedNodePattern.named_node "name";
  object = TermPattern.variable "o";
}

-- `?s ?p ?q`
abbrev any_predicate : TriplePattern
any_predicate = record {
  subject = TermPattern.variable "s";
  predicate = NamedNodePattern.variable "p";
  object = TermPattern.variable "q";
}

-- `?o = <bob>`
abbrev is_bob : Expression
is_bob = Expression.equal (Expression.variable "o") (Expression.named_node "bob")

-- `?q > ?o`
abbrev above : Expression
above = Expression.greater (Expression.variable "q") (Expression.variable "o")

-- both patterns in one BGP, under a conjunction of both filters
abbrev query : GraphPattern
query =
    GraphPattern.project
      (GraphPattern.filter (Expression.and is_bob above)
        (GraphPattern.bgp (named ∷ any_predicate ∷ [])))
      ("s" ∷ [])

-- the second pattern in an OPTIONAL, under the first filter
abbrev optional : GraphPattern
optional = GraphPattern.filter is_bob (
    GraphPattern.left_join (GraphPattern.bgp (named ∷ [])) (GraphPattern.bgp (any_predicate ∷ []))
      OptionExpression.absent)

-- an equality weighs 2, any other filter 1
abbrev weight : Expression → ℕ
weight (Expression.equal l r) = 2
weight e = 1

total-kept_example :
    total weight (filters_of (rewrite_gp_pushdown scope query [] []))
    ≡ total weight (expected scope query)
unfolding keeps accepts contains_variable_predicate any_variable_predicate
total-kept_example = total-kept scope weight query [] refl

total-pushed_example :
    total weight (
      filters_of (
        rewrite_gp_pushdown scope
          (GraphPattern.bgp (named ∷ any_predicate ∷ []))
          (is_bob ∷ above ∷ [])
          []))
    ≡ total weight (is_bob ∷ above ∷ [])
      + total weight (expected scope (GraphPattern.bgp (named ∷ any_predicate ∷ [])))
unfolding accepts any_variable_predicate
total-pushed_example =
    total-pushed scope weight (GraphPattern.bgp (named ∷ any_predicate ∷ [])) (is_bob ∷ above ∷ [])
      [] refl

terminating_lift_extend_lem_example :
    terminating_lift_extend
      (GraphPattern.join query (GraphPattern.extend optional "n" (Expression.variable "o")))
    ≡ GraphPattern.join query (GraphPattern.extend optional "n" (Expression.variable "o"))
terminating_lift_extend_lem_example =
    terminating_lift_extend_lem
      (GraphPattern.join query (GraphPattern.extend optional "n" (Expression.variable "o")))

left_join_filter_vanishes_example :
    rewrite_gp_pushdown scope optional [] []
    ≡ GraphPattern.left_join
        (GraphPattern.bgp (named ∷ []))
        (rewrite_gp_pushdown scope (GraphPattern.bgp (any_predicate ∷ [])) [] [])
        OptionExpression.absent
unfolding any_variable_predicate contains_variable_predicate rewrite_expr_pushdown get_expr_vars
    find_all_used_variables_in_expression find_all_used_variables_in_graph_pattern is_subset insert
    contains
left_join_filter_vanishes_example =
    left_join_filter_vanishes scope (named ∷ []) (GraphPattern.bgp (any_predicate ∷ [])) is_bob []
      refl refl refl refl

rewrite_bgp_drops_example :
    rewrite_gp_pushdown scope (GraphPattern.bgp (named ∷ [])) (is_bob ∷ above ∷ []) []
    ≡ GraphPattern.bgp (named ∷ [])
unfolding any_variable_predicate
rewrite_bgp_drops_example = rewrite_bgp_drops scope (named ∷ []) (is_bob ∷ above ∷ []) [] refl

rewrite_gp_pushdown_identity_example :
    rewrite_gp_pushdown scope (GraphPattern.filter is_bob (GraphPattern.bgp (named ∷ []))) [] []
    ≡ GraphPattern.filter is_bob (GraphPattern.bgp (named ∷ []))
unfolding named_predicates any_variable_predicate
rewrite_gp_pushdown_identity_example =
    rewrite_gp_pushdown_identity scope (GraphPattern.filter is_bob (GraphPattern.bgp (named ∷ [])))
      [] refl

contains-find_all_used_variables_in_expression_example :
    contains
      (find_all_used_variables_in_expression
        (Expression.and above (Expression.exists optional))
        ("t" ∷ [])
        false
        true)
      "s"
    ≡ (contains ("t" ∷ []) "s"
        || occurs false true "s" (Expression.and above (Expression.exists optional)))
contains-find_all_used_variables_in_expression_example =
    contains-find_all_used_variables_in_expression
      (Expression.and above (Expression.exists optional)) ("t" ∷ []) false true "s"

contains-find_all_used_variables_in_graph_pattern_example :
    contains (find_all_used_variables_in_graph_pattern optional ("t" ∷ []) true true) "q"
    ≡ (contains ("t" ∷ []) "q" || occurs_in_pattern true true "q" optional)
contains-find_all_used_variables_in_graph_pattern_example =
    contains-find_all_used_variables_in_graph_pattern optional ("t" ∷ []) true true "q"
