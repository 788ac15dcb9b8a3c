-- ===== src/Rewrite/Pushdown.antt =====
-- lib/triplestore/src/sparql/rewrite/rewrite_pushdown.rs: the pass that moves filters down to the
-- patterns whose predicate is a variable. A `Vec` that is pushed to grows at its end.
pub mod Dropped
pub mod Filters
pub mod Triples
pub mod Kept
pub mod Placement
pub mod Identity
use maplib.Prelude.{
  Bool, true, false, List, [], ◌∷◌, ◌++◌, ◌||◌, reverse, is_subset, union, if◌then◌else◌,
}
use maplib.Algebra.{
  Expression, GraphPattern, NamedNodePattern, OptionExpression, TriplePattern, Variable,
}
use maplib.Variables.{find_all_used_variables_in_expression}

unfoldable pub get_expr_vars : Expression → List Variable
get_expr_vars expression = find_all_used_variables_in_expression expression [] false true

-- `matches!(p.predicate, NamedNodePattern::Variable(..))`
unfoldable pub is_variable : NamedNodePattern → Bool
is_variable (NamedNodePattern.variable v) = true
is_variable (NamedNodePattern.named_node n) = false

unfoldable pub any_variable_predicate : List TriplePattern → Bool
unfolding is_variable
any_variable_predicate [] = false
any_variable_predicate (p ∷ ps) = is_variable p.predicate || any_variable_predicate ps

unfoldable pub contains_variable_predicate : GraphPattern → Bool
unfolding any_variable_predicate
contains_variable_predicate (GraphPattern.bgp patterns) = any_variable_predicate patterns
contains_variable_predicate (GraphPattern.join left right) =
    contains_variable_predicate left || contains_variable_predicate right
contains_variable_predicate (GraphPattern.left_join left right expression) =
    contains_variable_predicate left || contains_variable_predicate right
contains_variable_predicate (GraphPattern.union left right) =
    contains_variable_predicate left || contains_variable_predicate right
contains_variable_predicate (GraphPattern.minus inner right) = contains_variable_predicate inner
contains_variable_predicate (GraphPattern.extend inner variable expression) =
    contains_variable_predicate inner
contains_variable_predicate (GraphPattern.order_by inner expression) =
    contains_variable_predicate inner
contains_variable_predicate (GraphPattern.distinct inner) = contains_variable_predicate inner
contains_variable_predicate (GraphPattern.filter expr inner) = contains_variable_predicate inner
contains_variable_predicate other = false

-- `for f in filters { gp = Filter { inner: gp, expr: f } }`
unfoldable pub wrap_filters : GraphPattern → List Expression → GraphPattern
wrap_filters gp [] = gp
wrap_filters gp (f ∷ filters) = wrap_filters (GraphPattern.filter f gp) filters

-- `while !filters.is_empty() { … filters.pop() … }`: from the last filter to the first
unfoldable pub create_filter_gps : GraphPattern → List Expression → GraphPattern
unfolding wrap_filters
create_filter_gps gp filters = wrap_filters gp (reverse filters)

-- the loop that deals the patterns of a `Bgp`: variable predicates right, others left
unfoldable pub deal_patterns :
    List TriplePattern
    → List TriplePattern
    → List TriplePattern
    → List TriplePattern × List TriplePattern
unfolding is_variable
deal_patterns [] left right = (left, right)
deal_patterns (p ∷ ps) left right =
    let (left', right') =
      if is_variable p.predicate then (left, right ++ p ∷ []) else (left ++ p ∷ [], right) in
    deal_patterns ps left' right'

-- the `while let Some(candidate) = filters.pop()` loop of a `Bgp`, over the reversed filters
unfoldable pub place_candidates :
    List Variable
    → List Expression
    → GraphPattern
    → List Expression
    → GraphPattern × List Expression
unfolding get_expr_vars
place_candidates all_seen_vars [] left_gp outer_filter = (left_gp, outer_filter)
place_candidates all_seen_vars (candidate ∷ filters) left_gp outer_filter =
    let fits = is_subset (get_expr_vars candidate) all_seen_vars in
    place_candidates all_seen_vars filters
      (if fits then GraphPattern.filter candidate left_gp else left_gp)
      (if fits then outer_filter else outer_filter ++ candidate ∷ [])

-- the loop of the `Join` arm: filters for the left side, for the right side, and for above
unfoldable pub deal_join_filters :
    List Variable
    → List Variable
    → List Expression
    → List Expression × List Expression × List Expression
unfolding get_expr_vars
deal_join_filters left_vars both_vars [] = ([], [], [])
deal_join_filters left_vars both_vars (f ∷ filters) =
    let (left, right, outer) = deal_join_filters left_vars both_vars filters in
    let vars = get_expr_vars f in
    if is_subset vars left_vars
    then (f ∷ left, right, outer)
    else if is_subset vars both_vars
    then (left, f ∷ right, outer)
    else (left, right, f ∷ outer)

-- the loop of the `LeftJoin` arm
unfoldable pub deal_left_join_filters :
    List Variable → List Expression → List Expression × List Expression
unfolding get_expr_vars
deal_left_join_filters left_vars [] = ([], [])
deal_left_join_filters left_vars (f ∷ filters) =
    let (left, outer) = deal_left_join_filters left_vars filters in
    if is_subset (get_expr_vars f) left_vars then (f ∷ left, outer) else (left, f ∷ outer)

-- `in_scope_variables` is the set that the algebra library's `on_in_scope_variable` reports.
module _ (in_scope_variables : GraphPattern → List Variable) where
  unfoldable pub get_gp_vars : GraphPattern → List Variable
  get_gp_vars graph_pattern = in_scope_variables graph_pattern

  -- the `Bgp` arm where there are filters and a variable predicate
  unfoldable pub split_bgp :
      List TriplePattern → List TriplePattern → List Expression → List Variable → GraphPattern
  unfolding place_candidates wrap_filters get_gp_vars
  split_bgp left_patterns right_patterns filters seen_vars =
      let all_seen_vars = union (get_gp_vars (GraphPattern.bgp left_patterns)) seen_vars in
      let (left_gp, outer_filter) =
        place_candidates all_seen_vars (reverse filters) (GraphPattern.bgp left_patterns) [] in
      wrap_filters (GraphPattern.join left_gp (GraphPattern.bgp right_patterns)) outer_filter

  -- both arms of `if !right_patterns.is_empty()`: without one, `outer_filter` is still empty
  unfoldable pub rewrite_dealt :
      List TriplePattern → List TriplePattern → List Expression → List Variable → GraphPattern
  unfolding split_bgp
  rewrite_dealt left_patterns [] filters seen_vars = GraphPattern.bgp left_patterns
  rewrite_dealt left_patterns (p ∷ right_patterns) filters seen_vars =
      split_bgp left_patterns (p ∷ right_patterns) filters seen_vars

  unfoldable pub rewrite_bgp : List TriplePattern → List Expression → List Variable → GraphPattern
  unfolding deal_patterns rewrite_dealt
  rewrite_bgp patterns [] seen_vars = GraphPattern.bgp patterns
  rewrite_bgp patterns (f ∷ filters) seen_vars =
      let (left_patterns, right_patterns) = deal_patterns patterns [] [] in
      rewrite_dealt left_patterns right_patterns (f ∷ filters) seen_vars

  unfoldable mutual
    unfolding rewrite_bgp deal_join_filters deal_left_join_filters create_filter_gps get_gp_vars
        contains_variable_predicate

    pub rewrite_gp_pushdown : GraphPattern → List Expression → List Variable → GraphPattern
    rewrite_gp_pushdown (GraphPattern.bgp patterns) filters seen_vars =
        rewrite_bgp patterns filters seen_vars
    rewrite_gp_pushdown (GraphPattern.filter expr inner) filters seen_vars =
        let merged = rewrite_gp_pushdown inner (filters ++ rewrite_expr_pushdown expr) seen_vars in
        let kept = GraphPattern.filter expr (rewrite_gp_pushdown inner filters seen_vars) in
        if contains_variable_predicate inner then merged else kept
    rewrite_gp_pushdown (GraphPattern.join left right) filters seen_vars =
        let left_vars = get_gp_vars left in
        let left_and_right_vars = union left_vars (get_gp_vars right) in
        let (left_filters, right_filters, outer_filters) =
          deal_join_filters left_vars left_and_right_vars filters in
        create_filter_gps
          (GraphPattern.join (rewrite_gp_pushdown left left_filters seen_vars)
            (rewrite_gp_pushdown right right_filters (union seen_vars left_vars)))
          outer_filters
    rewrite_gp_pushdown (GraphPattern.left_join left right expression) filters seen_vars =
        let (left_filters, outer_filters) = deal_left_join_filters (get_gp_vars left) filters in
        create_filter_gps
          (GraphPattern.left_join (rewrite_gp_pushdown left left_filters seen_vars)
            (rewrite_gp_pushdown right [] []) expression)
          outer_filters
    rewrite_gp_pushdown (GraphPattern.union left right) filters seen_vars =
        create_filter_gps
          (GraphPattern.union (rewrite_gp_pushdown left [] seen_vars)
            (rewrite_gp_pushdown right [] seen_vars))
          filters
    rewrite_gp_pushdown (GraphPattern.extend inner variable expression) filters seen_vars =
        create_filter_gps
          (GraphPattern.extend (rewrite_gp_pushdown inner [] seen_vars) variable expression) filters
    rewrite_gp_pushdown (GraphPattern.minus left right) filters seen_vars =
        create_filter_gps
          (GraphPattern.minus (rewrite_gp_pushdown left [] seen_vars)
            (rewrite_gp_pushdown right [] seen_vars))
          filters
    rewrite_gp_pushdown (GraphPattern.order_by inner expression) filters seen_vars =
        GraphPattern.order_by (rewrite_gp_pushdown inner filters seen_vars) expression
    rewrite_gp_pushdown (GraphPattern.project inner variables) filters seen_vars =
        create_filter_gps (GraphPattern.project (rewrite_gp_pushdown inner [] seen_vars) variables)
          filters
    rewrite_gp_pushdown (GraphPattern.distinct inner) filters seen_vars =
        GraphPattern.distinct (rewrite_gp_pushdown inner filters seen_vars)
    rewrite_gp_pushdown (GraphPattern.reduced inner) filters seen_vars =
        create_filter_gps (GraphPattern.reduced (rewrite_gp_pushdown inner [] seen_vars)) filters
    rewrite_gp_pushdown (GraphPattern.slice inner start len) filters seen_vars =
        create_filter_gps (GraphPattern.slice (rewrite_gp_pushdown inner [] seen_vars) start len)
          filters
    rewrite_gp_pushdown (GraphPattern.group inner variables aggregates) filters seen_vars =
        create_filter_gps
          (GraphPattern.group (rewrite_gp_pushdown inner [] []) variables aggregates) filters
    rewrite_gp_pushdown gp filters seen_vars = gp

    pub rewrite_expr_pushdown : Expression → List Expression
    rewrite_expr_pushdown (Expression.exists gp) =
        Expression.exists (rewrite_gp_pushdown gp [] []) ∷ []
    rewrite_expr_pushdown (Expression.and left right) =
        rewrite_expr_pushdown left ++ rewrite_expr_pushdown right
    rewrite_expr_pushdown e = e ∷ []
