-- ===== src/Rewrite/Pushdown/Kept.antt =====
-- Under which condition on a pattern filters stay in it, which filters those are, and the BGPs that
-- accept filters.
use maplib.Prelude.{
  ◌≡◌, refl, ℕ, ◌+◌, Bool, true, false, List, [], ◌∷◌, ◌++◌, ◌&&◌, arith, reverse, if◌then◌else◌,
  union, ◌<◌, ◌≤◌, length, length-append,
}
use maplib.Algebra.{Expression, GraphPattern, TriplePattern, Variable}
use maplib.Rewrite.Pushdown.Filters.{
  filters_of, total, total-append, total-reverse, total-wrap_filters, total-place_candidates,
}
use maplib.Rewrite.Pushdown.{
  any_variable_predicate, contains_variable_predicate, deal_patterns, place_candidates,
  rewrite_dealt, rewrite_bgp, split_bgp, rewrite_expr_pushdown, rewrite_gp_pushdown,
}

-- `accepts gp`: filters that are pushed to `gp` all reach a place where they stay.
-- `keeps gp`: no filter inside `gp` is pushed to where it would be lost.
unfoldable mutual
  pub accepts : GraphPattern → Bool
  accepts (GraphPattern.bgp ps) = any_variable_predicate ps
  accepts (GraphPattern.join l r) = accepts l && accepts r
  accepts (GraphPattern.left_join l r e) = accepts l && keeps r
  accepts (GraphPattern.filter e p) = accepts p
  accepts (GraphPattern.union l r) = keeps l && keeps r
  accepts (GraphPattern.minus l r) = keeps l && keeps r
  accepts (GraphPattern.extend p v e) = keeps p
  accepts (GraphPattern.order_by p e) = accepts p
  accepts (GraphPattern.project p vs) = keeps p
  accepts (GraphPattern.distinct p) = accepts p
  accepts (GraphPattern.reduced p) = keeps p
  accepts (GraphPattern.slice p n k) = keeps p
  accepts (GraphPattern.group p vs a) = keeps p
  accepts other = false

  pub keeps : GraphPattern → Bool
  keeps (GraphPattern.join l r) = keeps l && keeps r
  keeps (GraphPattern.left_join l r e) = keeps l && keeps r
  keeps (GraphPattern.filter e p) = if contains_variable_predicate p then accepts p else keeps p
  keeps (GraphPattern.union l r) = keeps l && keeps r
  keeps (GraphPattern.minus l r) = keeps l && keeps r
  keeps (GraphPattern.extend p v e) = keeps p
  keeps (GraphPattern.order_by p e) = keeps p
  keeps (GraphPattern.project p vs) = keeps p
  keeps (GraphPattern.distinct p) = keeps p
  keeps (GraphPattern.reduced p) = keeps p
  keeps (GraphPattern.slice p n k) = keeps p
  keeps (GraphPattern.group p vs a) = keeps p
  keeps other = true

dealt_least :
    (ps left right : List TriplePattern) → length right ≤ length (deal_patterns ps left right).1
unfolding deal_patterns
dealt_least [] left right = omega arith
dealt_least (p ∷ ps) left right = ground (
  arith,
  dealt_least ps left (right ++ p ∷ []),
  dealt_least ps (left ++ p ∷ []) right,
  length-append right (p ∷ []),
)

dealt_some :
    (ps left right : List TriplePattern)
    → any_variable_predicate ps ≡ true
    → length right < length (deal_patterns ps left right).1
unfolding deal_patterns any_variable_predicate
dealt_some [] left right h = cc
dealt_some (p ∷ ps) left right h = ground (
  arith,
  dealt_least ps left (right ++ p ∷ []),
  dealt_some ps (left ++ p ∷ []) right,
  length-append right (p ∷ []),
)

pub joined_total :
    (w : Expression → ℕ) (l r : GraphPattern)
    → total w (filters_of l ++ filters_of r) ≡ total w (filters_of l) + total w (filters_of r)
joined_total w l r = total-append w (filters_of l) (filters_of r)

module _ (in_scope_variables : GraphPattern → List Variable) where
  -- the conjuncts of a filter, and in one that is an EXISTS the rewritten pattern
  unfoldable pub conjuncts : Expression → List Expression
  conjuncts (Expression.and l r) = conjuncts l ++ conjuncts r
  conjuncts (Expression.exists gp) =
      Expression.exists (rewrite_gp_pushdown in_scope_variables gp [] []) ∷ []
  conjuncts e = e ∷ []

  pub rewrite_expr_pushdown-conjuncts :
      (e : Expression) → rewrite_expr_pushdown in_scope_variables e ≡ conjuncts e
  unfolding rewrite_expr_pushdown conjuncts
  rewrite_expr_pushdown-conjuncts (Expression.and l r) =
      rw (rewrite_expr_pushdown-conjuncts l, rewrite_expr_pushdown-conjuncts r)
  rewrite_expr_pushdown-conjuncts (Expression.exists gp) = refl
  rewrite_expr_pushdown-conjuncts e = refl

  -- The filters that the rewritten pattern should have: a filter that is pushed down counts as its
  -- conjuncts, any other as itself.
  unfoldable pub expected : GraphPattern → List Expression
  expected (GraphPattern.bgp ps) = []
  expected (GraphPattern.join l r) = expected l ++ expected r
  expected (GraphPattern.left_join l r e) = expected l ++ expected r
  expected (GraphPattern.filter e p) =
      (if contains_variable_predicate p then conjuncts e else e ∷ []) ++ expected p
  expected (GraphPattern.union l r) = expected l ++ expected r
  expected (GraphPattern.minus l r) = expected l ++ expected r
  expected (GraphPattern.extend p v e) = expected p
  expected (GraphPattern.order_by p e) = expected p
  expected (GraphPattern.project p vs) = expected p
  expected (GraphPattern.distinct p) = expected p
  expected (GraphPattern.reduced p) = expected p
  expected (GraphPattern.slice p n k) = expected p
  expected (GraphPattern.group p vs a) = expected p
  expected other = filters_of other

  total-rewrite_dealt :
      (w : Expression → ℕ) (left right : List TriplePattern) (fs : List Expression)
      (seen : List Variable)
      → 0 < length right
      → total w (filters_of (rewrite_dealt in_scope_variables left right fs seen)) ≡ total w fs
  unfolding rewrite_dealt split_bgp filters_of total
  total-rewrite_dealt w left [] fs seen h = absurd (omega arith)
  total-rewrite_dealt w left (p ∷ right) fs seen h =
      let vars = union (in_scope_variables (GraphPattern.bgp left)) seen in
      let placed = place_candidates vars (reverse fs) (GraphPattern.bgp left) [] in
      let wrapped =
        total-wrap_filters w placed.1 (GraphPattern.join placed.0 (GraphPattern.bgp (p ∷ right))) in
      let kept = total-place_candidates w vars (reverse fs) (GraphPattern.bgp left) [] in
      let joined = joined_total w placed.0 (GraphPattern.bgp (p ∷ right)) in
      let same = total-reverse w fs in omega arith

  pub total-rewrite_bgp :
      (w : Expression → ℕ) (ps : List TriplePattern) (fs : List Expression) (seen : List Variable)
      → any_variable_predicate ps ≡ true
      → total w (filters_of (rewrite_bgp in_scope_variables ps fs seen)) ≡ total w fs
  unfolding rewrite_bgp filters_of total
  total-rewrite_bgp w ps [] seen h = refl
  total-rewrite_bgp w ps (f ∷ fs) seen h =
      total-rewrite_dealt w _ _ (f ∷ fs) seen (omega (arith, dealt_some ps [] [] h))
