-- ===== src/Variables.antt =====
-- The traversals of lib/query_processing/src/find_query_variables.rs. A function that inserts into
-- a `&mut HashSet<Variable>` takes the set and returns the new one.
pub mod Occurrence
pub mod Membership
use maplib.Prelude.{Bool, List, [], ◌∷◌, insert, if◌then◌else◌}
use maplib.Algebra.{
  Expression, Expressions, GraphPattern, OptionExpression, AggregateExpression, OrderExpression,
  TermPattern, TriplePattern, Variable,
}

-- `if let TermPattern::Variable(v) = t { used_vars.insert(v.clone()); }`
insert_term : TermPattern → List Variable → List Variable
insert_term (TermPattern.variable v) used = insert v used
insert_term t used = used

-- the loop over the patterns of a `Bgp`: subjects and objects
insert_patterns : List TriplePattern → List Variable → List Variable
unfolding insert_term
insert_patterns [] used = used
insert_patterns (p ∷ ps) used =
    insert_patterns ps (insert_term p.object (insert_term p.subject used))

unfoldable mutual
  unfolding insert_term insert_patterns

  pub find_all_used_variables_in_expression :
      Expression → List Variable → Bool → Bool → List Variable
  find_all_used_variables_in_expression (Expression.variable v) used ie ib = insert v used
  find_all_used_variables_in_expression (Expression.or left right) used ie ib =
      find_all_used_variables_in_expression right
        (find_all_used_variables_in_expression left used ie ib) ie ib
  find_all_used_variables_in_expression (Expression.and left right) used ie ib =
      find_all_used_variables_in_expression right
        (find_all_used_variables_in_expression left used ie ib) ie ib
  find_all_used_variables_in_expression (Expression.equal left right) used ie ib =
      find_all_used_variables_in_expression right
        (find_all_used_variables_in_expression left used ie ib) ie ib
  find_all_used_variables_in_expression (Expression.same_term left right) used ie ib =
      find_all_used_variables_in_expression right
        (find_all_used_variables_in_expression left used ie ib) ie ib
  find_all_used_variables_in_expression (Expression.greater left right) used ie ib =
      find_all_used_variables_in_expression right
        (find_all_used_variables_in_expression left used ie ib) ie ib
  find_all_used_variables_in_expression (Expression.greater_or_equal left right) used ie ib =
      find_all_used_variables_in_expression right
        (find_all_used_variables_in_expression left used ie ib) ie ib
  find_all_used_variables_in_expression (Expression.less left right) used ie ib =
      find_all_used_variables_in_expression right
        (find_all_used_variables_in_expression left used ie ib) ie ib
  find_all_used_variables_in_expression (Expression.less_or_equal left right) used ie ib =
      find_all_used_variables_in_expression right
        (find_all_used_variables_in_expression left used ie ib) ie ib
  find_all_used_variables_in_expression (Expression.add left right) used ie ib =
      find_all_used_variables_in_expression right
        (find_all_used_variables_in_expression left used ie ib) ie ib
  find_all_used_variables_in_expression (Expression.subtract left right) used ie ib =
      find_all_used_variables_in_expression right
        (find_all_used_variables_in_expression left used ie ib) ie ib
  find_all_used_variables_in_expression (Expression.multiply left right) used ie ib =
      find_all_used_variables_in_expression right
        (find_all_used_variables_in_expression left used ie ib) ie ib
  find_all_used_variables_in_expression (Expression.divide left right) used ie ib =
      find_all_used_variables_in_expression right
        (find_all_used_variables_in_expression left used ie ib) ie ib
  find_all_used_variables_in_expression (Expression.is_in left rights) used ie ib =
      find_all_used_variables_in_expressions rights
        (find_all_used_variables_in_expression left used ie ib) ie ib
  find_all_used_variables_in_expression (Expression.unary_plus inner) used ie ib =
      find_all_used_variables_in_expression inner used ie ib
  find_all_used_variables_in_expression (Expression.unary_minus inner) used ie ib =
      find_all_used_variables_in_expression inner used ie ib
  find_all_used_variables_in_expression (Expression.not inner) used ie ib =
      find_all_used_variables_in_expression inner used ie ib
  find_all_used_variables_in_expression (Expression.exists gp) used ie ib =
      let found = find_all_used_variables_in_graph_pattern gp used ie ib in
      if ie then found else used
  find_all_used_variables_in_expression (Expression.bound inner) used ie ib =
      if ib then insert inner used else used
  find_all_used_variables_in_expression (Expression.if_else left middle right) used ie ib =
      find_all_used_variables_in_expression right
        (find_all_used_variables_in_expression middle
          (find_all_used_variables_in_expression left used ie ib) ie ib)
        ie ib
  find_all_used_variables_in_expression (Expression.coalesce inner) used ie ib =
      find_all_used_variables_in_expressions inner used ie ib
  find_all_used_variables_in_expression (Expression.function_call f args) used ie ib =
      find_all_used_variables_in_expressions args used ie ib
  find_all_used_variables_in_expression (Expression.named_node n) used ie ib = used
  find_all_used_variables_in_expression (Expression.literal l) used ie ib = used

  -- `for e in exprs { … }`
  pub find_all_used_variables_in_expressions :
      Expressions → List Variable → Bool → Bool → List Variable
  find_all_used_variables_in_expressions Expressions.nil used ie ib = used
  find_all_used_variables_in_expressions (Expressions.cons e es) used ie ib =
      find_all_used_variables_in_expressions es (find_all_used_variables_in_expression e used ie ib)
        ie ib

  -- `if let Some(e) = expression { … }`
  pub find_all_used_variables_in_option :
      OptionExpression → List Variable → Bool → Bool → List Variable
  find_all_used_variables_in_option OptionExpression.absent used ie ib = used
  find_all_used_variables_in_option (OptionExpression.present e) used ie ib =
      find_all_used_variables_in_expression e used ie ib

  pub find_all_used_variables_in_graph_pattern :
      GraphPattern → List Variable → Bool → Bool → List Variable
  find_all_used_variables_in_graph_pattern (GraphPattern.bgp ps) used ie ib =
      insert_patterns ps used
  find_all_used_variables_in_graph_pattern (GraphPattern.path subject p object) used ie ib =
      insert_term object (insert_term subject used)
  find_all_used_variables_in_graph_pattern (GraphPattern.join left right) used ie ib =
      find_all_used_variables_in_graph_pattern right
        (find_all_used_variables_in_graph_pattern left used ie ib) ie ib
  find_all_used_variables_in_graph_pattern (GraphPattern.left_join left right expression) used ie
        ib =
      find_all_used_variables_in_option expression
        (find_all_used_variables_in_graph_pattern right
          (find_all_used_variables_in_graph_pattern left used ie ib) ie ib)
        ie ib
  find_all_used_variables_in_graph_pattern (GraphPattern.filter expr inner) used ie ib =
      find_all_used_variables_in_expression expr
        (find_all_used_variables_in_graph_pattern inner used ie ib) ie ib
  find_all_used_variables_in_graph_pattern (GraphPattern.union left right) used ie ib =
      find_all_used_variables_in_graph_pattern right
        (find_all_used_variables_in_graph_pattern left used ie ib) ie ib
  find_all_used_variables_in_graph_pattern (GraphPattern.graph name inner) used ie ib =
      find_all_used_variables_in_graph_pattern inner used ie ib
  find_all_used_variables_in_graph_pattern (GraphPattern.extend inner variable expression) used ie
        ib =
      find_all_used_variables_in_expression expression
        (find_all_used_variables_in_graph_pattern inner used ie ib) ie ib
  find_all_used_variables_in_graph_pattern (GraphPattern.minus left right) used ie ib =
      find_all_used_variables_in_graph_pattern right
        (find_all_used_variables_in_graph_pattern left used ie ib) ie ib
  find_all_used_variables_in_graph_pattern (GraphPattern.order_by inner expression) used ie ib =
      find_all_used_variables_in_graph_pattern inner used ie ib
  find_all_used_variables_in_graph_pattern (GraphPattern.project inner vs) used ie ib =
      find_all_used_variables_in_graph_pattern inner used ie ib
  find_all_used_variables_in_graph_pattern (GraphPattern.distinct inner) used ie ib =
      find_all_used_variables_in_graph_pattern inner used ie ib
  find_all_used_variables_in_graph_pattern (GraphPattern.reduced inner) used ie ib =
      find_all_used_variables_in_graph_pattern inner used ie ib
  find_all_used_variables_in_graph_pattern (GraphPattern.slice inner start len) used ie ib =
      find_all_used_variables_in_graph_pattern inner used ie ib
  find_all_used_variables_in_graph_pattern (GraphPattern.group inner vs aggregates) used ie ib =
      find_all_used_variables_in_graph_pattern inner used ie ib
  find_all_used_variables_in_graph_pattern other used ie ib = used

unfoldable pub find_all_used_variables_in_aggregate_expression :
    AggregateExpression → List Variable → Bool → Bool → List Variable
find_all_used_variables_in_aggregate_expression (AggregateExpression.count_solutions d) used ie ib =
    used
find_all_used_variables_in_aggregate_expression (AggregateExpression.aggregate_call f e d) used ie
      ib =
    find_all_used_variables_in_expression e used ie ib

unfoldable pub find_all_used_variables_in_order_expression :
    OrderExpression → List Variable → Bool → Bool → List Variable
find_all_used_variables_in_order_expression (OrderExpression.asc e) used ie ib =
    find_all_used_variables_in_expression e used ie ib
find_all_used_variables_in_order_expression (OrderExpression.desc e) used ie ib =
    find_all_used_variables_in_expression e used ie ib
