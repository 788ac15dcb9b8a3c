-- ===== src/Variables/Occurrence.antt =====
-- Where a variable stands in a place that find_query_variables.rs visits, described without a set
-- that is threaded through the traversal. These places are the subject and the object of a triple
-- pattern or a path, and the variables of expressions: in FILTER, BIND and the condition of an
-- OPTIONAL, and the arguments of functions among them. Other places do not count here: the
-- predicate of a triple pattern, the target of a BIND, the variables of VALUES, PROJECT and GROUP BY,
-- the expressions of ORDER BY and of aggregates, the name of a GRAPH, and all of a SERVICE.
use maplib.Prelude.{Bool, false, List, [], ◌∷◌, ◌&&◌, ◌||◌, ◌==◌}
use maplib.Algebra.{
  Expression, Expressions, GraphPattern, OptionExpression, TermPattern, TriplePattern, Variable,
}

unfoldable pub term_is : Variable → TermPattern → Bool
term_is v (TermPattern.variable w) = v == w
term_is v t = false

-- as the subject or the object of a pattern
unfoldable pub occurs_in_triples : Variable → List TriplePattern → Bool
unfolding term_is
occurs_in_triples v [] = false
occurs_in_triples v (p ∷ ps) = (term_is v p.subject || term_is v p.object) || occurs_in_triples v ps

-- `ie`: inside an EXISTS too; `ib`: as the argument of BOUND too.
unfoldable mutual
  unfolding term_is occurs_in_triples

  pub occurs : Bool → Bool → Variable → Expression → Bool
  occurs ie ib v (Expression.variable w) = v == w
  occurs ie ib v (Expression.or l r) = occurs ie ib v l || occurs ie ib v r
  occurs ie ib v (Expression.and l r) = occurs ie ib v l || occurs ie ib v r
  occurs ie ib v (Expression.equal l r) = occurs ie ib v l || occurs ie ib v r
  occurs ie ib v (Expression.same_term l r) = occurs ie ib v l || occurs ie ib v r
  occurs ie ib v (Expression.greater l r) = occurs ie ib v l || occurs ie ib v r
  occurs ie ib v (Expression.greater_or_equal l r) = occurs ie ib v l || occurs ie ib v r
  occurs ie ib v (Expression.less l r) = occurs ie ib v l || occurs ie ib v r
  occurs ie ib v (Expression.less_or_equal l r) = occurs ie ib v l || occurs ie ib v r
  occurs ie ib v (Expression.add l r) = occurs ie ib v l || occurs ie ib v r
  occurs ie ib v (Expression.subtract l r) = occurs ie ib v l || occurs ie ib v r
  occurs ie ib v (Expression.multiply l r) = occurs ie ib v l || occurs ie ib v r
  occurs ie ib v (Expression.divide l r) = occurs ie ib v l || occurs ie ib v r
  occurs ie ib v (Expression.is_in l rs) = occurs ie ib v l || occurs_in_list ie ib v rs
  occurs ie ib v (Expression.unary_plus e) = occurs ie ib v e
  occurs ie ib v (Expression.unary_minus e) = occurs ie ib v e
  occurs ie ib v (Expression.not e) = occurs ie ib v e
  occurs ie ib v (Expression.exists gp) = ie && occurs_in_pattern ie ib v gp
  occurs ie ib v (Expression.bound w) = ib && (v == w)
  occurs ie ib v (Expression.if_else l m r) =
      (occurs ie ib v l || occurs ie ib v m) || occurs ie ib v r
  occurs ie ib v (Expression.coalesce es) = occurs_in_list ie ib v es
  occurs ie ib v (Expression.function_call f es) = occurs_in_list ie ib v es
  occurs ie ib v (Expression.named_node n) = false
  occurs ie ib v (Expression.literal l) = false

  pub occurs_in_list : Bool → Bool → Variable → Expressions → Bool
  occurs_in_list ie ib v Expressions.nil = false
  occurs_in_list ie ib v (Expressions.cons e es) = occurs ie ib v e || occurs_in_list ie ib v es

  pub occurs_in_option : Bool → Bool → Variable → OptionExpression → Bool
  occurs_in_option ie ib v OptionExpression.absent = false
  occurs_in_option ie ib v (OptionExpression.present e) = occurs ie ib v e

  pub occurs_in_pattern : Bool → Bool → Variable → GraphPattern → Bool
  occurs_in_pattern ie ib v (GraphPattern.bgp ps) = occurs_in_triples v ps
  occurs_in_pattern ie ib v (GraphPattern.path s p o) = term_is v s || term_is v o
  occurs_in_pattern ie ib v (GraphPattern.join l r) =
      occurs_in_pattern ie ib v l || occurs_in_pattern ie ib v r
  occurs_in_pattern ie ib v (GraphPattern.left_join l r e) =
      (occurs_in_pattern ie ib v l || occurs_in_pattern ie ib v r) || occurs_in_option ie ib v e
  occurs_in_pattern ie ib v (GraphPattern.filter e p) =
      occurs_in_pattern ie ib v p || occurs ie ib v e
  occurs_in_pattern ie ib v (GraphPattern.union l r) =
      occurs_in_pattern ie ib v l || occurs_in_pattern ie ib v r
  occurs_in_pattern ie ib v (GraphPattern.graph n p) = occurs_in_pattern ie ib v p
  occurs_in_pattern ie ib v (GraphPattern.extend p w e) =
      occurs_in_pattern ie ib v p || occurs ie ib v e
  occurs_in_pattern ie ib v (GraphPattern.minus l r) =
      occurs_in_pattern ie ib v l || occurs_in_pattern ie ib v r
  occurs_in_pattern ie ib v (GraphPattern.order_by p e) = occurs_in_pattern ie ib v p
  occurs_in_pattern ie ib v (GraphPattern.project p vs) = occurs_in_pattern ie ib v p
  occurs_in_pattern ie ib v (GraphPattern.distinct p) = occurs_in_pattern ie ib v p
  occurs_in_pattern ie ib v (GraphPattern.reduced p) = occurs_in_pattern ie ib v p
  occurs_in_pattern ie ib v (GraphPattern.slice p n k) = occurs_in_pattern ie ib v p
  occurs_in_pattern ie ib v (GraphPattern.group p vs a) = occurs_in_pattern ie ib v p
  occurs_in_pattern ie ib v other = false
