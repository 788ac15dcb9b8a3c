-- ===== src/Rewrite/Pushdown/Dropped.antt =====
-- Filters that the push-down sends to a BGP without a variable predicate.
use maplib.Prelude.{
  ◌≡◌, refl, ap, ◌∙◌, true, false, List, [], ◌∷◌, ◌++◌, arith, is_subset, append-nil, append_assoc,
  inl, inr, Bool-cases, if◌then◌else◌,
}
use maplib.Algebra.{Expression, GraphPattern, OptionExpression, TriplePattern, Variable}
use maplib.Rewrite.Pushdown.{
  get_expr_vars, is_variable, any_variable_predicate, contains_variable_predicate,
  create_filter_gps, deal_patterns, deal_left_join_filters, rewrite_dealt, rewrite_bgp,
  rewrite_gp_pushdown, rewrite_expr_pushdown,
}

deal_patterns_named :
    (ps left right : List TriplePattern)
    → any_variable_predicate ps ≡ false
    → deal_patterns ps left right ≡ (left ++ ps, right)
unfolding any_variable_predicate deal_patterns
deal_patterns_named [] left right h = rw append-nil
deal_patterns_named (p ∷ ps) left right h = elim (Bool-cases (is_variable p.predicate)) [
  | inl e ↦ absurd (ground arith)
  | inr e ↦ rw e (
      deal_patterns_named ps (left ++ p ∷ []) right (rw e at h)
      ∙ ap (λ l. (l, right)) (append_assoc left (p ∷ []) ps))
]

deal_left_join_filters_fit :
    (left_vars : List Variable) (f : Expression)
    → is_subset (get_expr_vars f) left_vars ≡ true
    → deal_left_join_filters left_vars (f ∷ []) ≡ (f ∷ [], [])
unfolding deal_left_join_filters
deal_left_join_filters_fit left_vars f h = rw h

module _ (in_scope_variables : GraphPattern → List Variable) where
  -- A BGP whose predicates are all named comes back without any of the filters that were pushed to
  -- it, however many there are.
  pub rewrite_bgp_drops :
      (ps : List TriplePattern) (filters : List Expression) (seen : List Variable)
      → any_variable_predicate ps ≡ false
      → rewrite_gp_pushdown in_scope_variables (GraphPattern.bgp ps) filters seen
        ≡ GraphPattern.bgp ps
  unfolding rewrite_gp_pushdown rewrite_bgp rewrite_dealt
  rewrite_bgp_drops ps [] seen h = refl
  rewrite_bgp_drops ps (f ∷ filters) seen h = rw (deal_patterns_named ps [] [] h)

  filter_arm :
      (f : Expression) (gp : GraphPattern) (filters : List Expression) (seen : List Variable)
      → rewrite_gp_pushdown in_scope_variables (GraphPattern.filter f gp) filters seen ≡ (
          if contains_variable_predicate gp
          then rewrite_gp_pushdown in_scope_variables gp
              (filters ++ rewrite_expr_pushdown in_scope_variables f)
              seen
          else GraphPattern.filter f (rewrite_gp_pushdown in_scope_variables gp filters seen))
  unfolding rewrite_gp_pushdown
  filter_arm f gp filters seen = refl

  left_join_arm :
      (left right : GraphPattern) (e : OptionExpression) (filters : List Expression)
      (seen : List Variable) {pushed outer : List Expression}
      → deal_left_join_filters (in_scope_variables left) filters ≡ (pushed, outer)
      → rewrite_gp_pushdown in_scope_variables (GraphPattern.left_join left right e) filters seen
        ≡ create_filter_gps
            (GraphPattern.left_join
              (rewrite_gp_pushdown in_scope_variables left pushed seen)
              (rewrite_gp_pushdown in_scope_variables right [] [])
              e)
            outer
  unfolding rewrite_gp_pushdown
  left_join_arm left right e filters seen dealt = rw dealt

  contains_right :
      (ps : List TriplePattern) (right : GraphPattern) (e : OptionExpression)
      → contains_variable_predicate right ≡ true
      → contains_variable_predicate (GraphPattern.left_join (GraphPattern.bgp ps) right e) ≡ true
  unfolding contains_variable_predicate
  contains_right ps right e h = ground arith

  -- A filter over an OPTIONAL without a condition vanishes from the query, if the left side is a BGP
  -- without a variable predicate, the right side has one, and the filter is no conjunction and no
  -- EXISTS and has, outside EXISTS, only variables of the left side.
  pub left_join_filter_vanishes :
      (ps : List TriplePattern) (right : GraphPattern) (f : Expression) (seen : List Variable)
      → any_variable_predicate ps ≡ false
      → contains_variable_predicate right ≡ true
      → rewrite_expr_pushdown in_scope_variables f ≡ f ∷ []
      → is_subset (get_expr_vars f) (in_scope_variables (GraphPattern.bgp ps)) ≡ true
      → rewrite_gp_pushdown in_scope_variables
          (GraphPattern.filter f
            (GraphPattern.left_join (GraphPattern.bgp ps) right OptionExpression.absent))
          []
          seen
        ≡ GraphPattern.left_join
            (GraphPattern.bgp ps)
            (rewrite_gp_pushdown in_scope_variables right [] [])
            OptionExpression.absent
  unfolding create_filter_gps
  left_join_filter_vanishes ps right f seen named var single sub =
      let dealt = deal_left_join_filters_fit (in_scope_variables (GraphPattern.bgp ps)) f sub in
      filter_arm f _ [] seen
      ∙ rw (contains_right ps right OptionExpression.absent var, single)
          (left_join_arm _ right OptionExpression.absent (f ∷ []) seen dealt
            ∙ rw (rewrite_bgp_drops ps (f ∷ []) seen named))
