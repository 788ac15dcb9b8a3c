-- ===== src/Variables/Membership.antt =====
-- The sets that the traversals collect, against the occurrences of variables.
use maplib.Prelude.{◌≡◌, sym, Bool, List, [], ◌∷◌, ◌||◌, arith, contains, contains-insert, or-false}
use maplib.Algebra.{
  Expression, Expressions, GraphPattern, OptionExpression, TermPattern, TriplePattern, Variable,
}
use maplib.Variables.Occurrence.{
  term_is, occurs, occurs_in_list, occurs_in_option, occurs_in_pattern, occurs_in_triples,
}
use maplib.Variables.{
  insert_term, insert_patterns, find_all_used_variables_in_expression,
  find_all_used_variables_in_expressions, find_all_used_variables_in_option,
  find_all_used_variables_in_graph_pattern,
}

contains-insert_term :
    (t : TermPattern) (used : List Variable) (v : Variable)
    → contains (insert_term t used) v ≡ (contains used v || term_is v t)
unfolding insert_term term_is
contains-insert_term (TermPattern.variable w) used v = contains-insert used w v
contains-insert_term t used v = sym (or-false _)

-- Two insertions in a row, and three.
chain₂ : (u b c : Bool) {x a : Bool} → x ≡ (a || c) → a ≡ (u || b) → x ≡ (u || (b || c))
chain₂ u b c h k = ground arith

chain₃ :
    (u b c d : Bool) {x y a : Bool}
    → x ≡ (y || d)
    → y ≡ (a || c)
    → a ≡ (u || b)
    → x ≡ (u || ((b || c) || d))
chain₃ u b c d h k l = ground arith

contains-insert_patterns :
    (ps : List TriplePattern) (used : List Variable) (v : Variable)
    → contains (insert_patterns ps used) v ≡ (contains used v || occurs_in_triples v ps)
unfolding insert_patterns occurs_in_triples
contains-insert_patterns [] used v = sym (or-false _)
contains-insert_patterns (p ∷ ps) used v =
    chain₂ _ _ _ (contains-insert_patterns ps _ v)
      (chain₂ _ _ _ (contains-insert_term p.object _ v) (contains-insert_term p.subject used v))

mutual
  unfolding occurs find_all_used_variables_in_expression

  expression_lem :
      (e : Expression) (used : List Variable) (ie ib : Bool) (v : Variable)
      → contains (find_all_used_variables_in_expression e used ie ib) v
        ≡ (contains used v || occurs ie ib v e)
  expression_lem (Expression.variable w) used ie ib v = contains-insert used w v
  expression_lem (Expression.or l r) used ie ib v =
      chain₂ _ _ _ (expression_lem r _ ie ib v) (expression_lem l used ie ib v)
  expression_lem (Expression.and l r) used ie ib v =
      chain₂ _ _ _ (expression_lem r _ ie ib v) (expression_lem l used ie ib v)
  expression_lem (Expression.equal l r) used ie ib v =
      chain₂ _ _ _ (expression_lem r _ ie ib v) (expression_lem l used ie ib v)
  expression_lem (Expression.same_term l r) used ie ib v =
      chain₂ _ _ _ (expression_lem r _ ie ib v) (expression_lem l used ie ib v)
  expression_lem (Expression.greater l r) used ie ib v =
      chain₂ _ _ _ (expression_lem r _ ie ib v) (expression_lem l used ie ib v)
  expression_lem (Expression.greater_or_equal l r) used ie ib v =
      chain₂ _ _ _ (expression_lem r _ ie ib v) (expression_lem l used ie ib v)
  expression_lem (Expression.less l r) used ie ib v =
      chain₂ _ _ _ (expression_lem r _ ie ib v) (expression_lem l used ie ib v)
  expression_lem (Expression.less_or_equal l r) used ie ib v =
      chain₂ _ _ _ (expression_lem r _ ie ib v) (expression_lem l used ie ib v)
  expression_lem (Expression.add l r) used ie ib v =
      chain₂ _ _ _ (expression_lem r _ ie ib v) (expression_lem l used ie ib v)
  expression_lem (Expression.subtract l r) used ie ib v =
      chain₂ _ _ _ (expression_lem r _ ie ib v) (expression_lem l used ie ib v)
  expression_lem (Expression.multiply l r) used ie ib v =
      chain₂ _ _ _ (expression_lem r _ ie ib v) (expression_lem l used ie ib v)
  expression_lem (Expression.divide l r) used ie ib v =
      chain₂ _ _ _ (expression_lem r _ ie ib v) (expression_lem l used ie ib v)
  expression_lem (Expression.is_in l rs) used ie ib v =
      chain₂ _ _ _ (expressions_lem rs _ ie ib v) (expression_lem l used ie ib v)
  expression_lem (Expression.unary_plus e) used ie ib v = expression_lem e used ie ib v
  expression_lem (Expression.unary_minus e) used ie ib v = expression_lem e used ie ib v
  expression_lem (Expression.not e) used ie ib v = expression_lem e used ie ib v
  expression_lem (Expression.exists gp) used ie ib v = ground (arith, pattern_lem gp used ie ib v)
  expression_lem (Expression.bound w) used ie ib v = ground (arith, contains-insert used w v)
  expression_lem (Expression.if_else l m r) used ie ib v =
      chain₃ _ _ _ _ (expression_lem r _ ie ib v) (expression_lem m _ ie ib v)
        (expression_lem l used ie ib v)
  expression_lem (Expression.coalesce es) used ie ib v = expressions_lem es used ie ib v
  expression_lem (Expression.function_call f es) used ie ib v = expressions_lem es used ie ib v
  expression_lem (Expression.named_node n) used ie ib v = sym (or-false _)
  expression_lem (Expression.literal l) used ie ib v = sym (or-false _)

  expressions_lem :
      (es : Expressions) (used : List Variable) (ie ib : Bool) (v : Variable)
      → contains (find_all_used_variables_in_expressions es used ie ib) v
        ≡ (contains used v || occurs_in_list ie ib v es)
  expressions_lem Expressions.nil used ie ib v = sym (or-false _)
  expressions_lem (Expressions.cons e es) used ie ib v =
      chain₂ _ _ _ (expressions_lem es _ ie ib v) (expression_lem e used ie ib v)

  option_lem :
      (o : OptionExpression) (used : List Variable) (ie ib : Bool) (v : Variable)
      → contains (find_all_used_variables_in_option o used ie ib) v
        ≡ (contains used v || occurs_in_option ie ib v o)
  option_lem OptionExpression.absent used ie ib v = sym (or-false _)
  option_lem (OptionExpression.present e) used ie ib v = expression_lem e used ie ib v

  pattern_lem :
      (gp : GraphPattern) (used : List Variable) (ie ib : Bool) (v : Variable)
      → contains (find_all_used_variables_in_graph_pattern gp used ie ib) v
        ≡ (contains used v || occurs_in_pattern ie ib v gp)
  pattern_lem (GraphPattern.bgp ps) used ie ib v = contains-insert_patterns ps used v
  pattern_lem (GraphPattern.path s p o) used ie ib v =
      chain₂ _ _ _ (contains-insert_term o _ v) (contains-insert_term s used v)
  pattern_lem (GraphPattern.join l r) used ie ib v =
      chain₂ _ _ _ (pattern_lem r _ ie ib v) (pattern_lem l used ie ib v)
  pattern_lem (GraphPattern.union l r) used ie ib v =
      chain₂ _ _ _ (pattern_lem r _ ie ib v) (pattern_lem l used ie ib v)
  pattern_lem (GraphPattern.minus l r) used ie ib v =
      chain₂ _ _ _ (pattern_lem r _ ie ib v) (pattern_lem l used ie ib v)
  pattern_lem (GraphPattern.left_join l r e) used ie ib v =
      chain₃ _ _ _ _ (option_lem e _ ie ib v) (pattern_lem r _ ie ib v) (pattern_lem l used ie ib v)
  pattern_lem (GraphPattern.filter e p) used ie ib v =
      chain₂ _ _ _ (expression_lem e _ ie ib v) (pattern_lem p used ie ib v)
  pattern_lem (GraphPattern.extend p w e) used ie ib v =
      chain₂ _ _ _ (expression_lem e _ ie ib v) (pattern_lem p used ie ib v)
  pattern_lem (GraphPattern.graph n p) used ie ib v = pattern_lem p used ie ib v
  pattern_lem (GraphPattern.order_by p e) used ie ib v = pattern_lem p used ie ib v
  pattern_lem (GraphPattern.project p vs) used ie ib v = pattern_lem p used ie ib v
  pattern_lem (GraphPattern.distinct p) used ie ib v = pattern_lem p used ie ib v
  pattern_lem (GraphPattern.reduced p) used ie ib v = pattern_lem p used ie ib v
  pattern_lem (GraphPattern.slice p n k) used ie ib v = pattern_lem p used ie ib v
  pattern_lem (GraphPattern.group p vs a) used ie ib v = pattern_lem p used ie ib v
  pattern_lem other used ie ib v = sym (or-false _)

-- After the traversal of an expression the set holds a variable exactly if it held it before, or the
-- expression has the variable outside EXISTS and BOUND, or under `include_bound` as the argument of
-- BOUND, or under `include_exists` in a pattern of EXISTS at one of the places of `occurs_in_pattern`,
-- of which the predicate of a triple pattern is none.
pub contains-find_all_used_variables_in_expression :
    (e : Expression) (used : List Variable) (ie ib : Bool) (v : Variable)
    → contains (find_all_used_variables_in_expression e used ie ib) v
      ≡ (contains used v || occurs ie ib v e)
contains-find_all_used_variables_in_expression = expression_lem

-- After the traversal of a graph pattern the set holds a variable exactly if it held it before, or
-- the variable is the subject or the object of a triple pattern or a path in it, or stands in an
-- expression of a FILTER, a BIND or an OPTIONAL in it, EXISTS and BOUND counting under the two flags
-- only. A variable that stands only as a predicate, as the target of a BIND, in VALUES, in a list of
-- PROJECT or GROUP BY, in ORDER BY, in an aggregate, as the name of a GRAPH or in a SERVICE is not
-- collected.
pub contains-find_all_used_variables_in_graph_pattern :
    (gp : GraphPattern) (used : List Variable) (ie ib : Bool) (v : Variable)
    → contains (find_all_used_variables_in_graph_pattern gp used ie ib) v
      ≡ (contains used v || occurs_in_pattern ie ib v gp)
contains-find_all_used_variables_in_graph_pattern = pattern_lem
