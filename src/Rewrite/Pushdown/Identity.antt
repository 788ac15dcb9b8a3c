-- ===== src/Rewrite/Pushdown/Identity.antt =====
-- Patterns whose predicates are all named, under the push-down without filters.
use maplib.Prelude.{◌≡◌, refl, Bool, true, false, List, [], ◌&&◌, not, arith, and-cases}
use maplib.Algebra.{GraphPattern, Variable}
use maplib.Rewrite.Pushdown.{
  any_variable_predicate, contains_variable_predicate, create_filter_gps, deal_join_filters,
  deal_left_join_filters, rewrite_bgp, rewrite_gp_pushdown,
}

-- No predicate of the pattern is a variable, wherever the pass goes.
unfoldable pub named_predicates : GraphPattern → Bool
named_predicates (GraphPattern.bgp ps) = not (any_variable_predicate ps)
named_predicates (GraphPattern.join l r) = named_predicates l && named_predicates r
named_predicates (GraphPattern.left_join l r e) = named_predicates l && named_predicates r
named_predicates (GraphPattern.union l r) = named_predicates l && named_predicates r
named_predicates (GraphPattern.minus l r) = named_predicates l && named_predicates r
named_predicates (GraphPattern.filter e p) = named_predicates p
named_predicates (GraphPattern.extend p v e) = named_predicates p
named_predicates (GraphPattern.order_by p e) = named_predicates p
named_predicates (GraphPattern.project p vs) = named_predicates p
named_predicates (GraphPattern.distinct p) = named_predicates p
named_predicates (GraphPattern.reduced p) = named_predicates p
named_predicates (GraphPattern.slice p n k) = named_predicates p
named_predicates (GraphPattern.group p vs a) = named_predicates p
named_predicates other = true

named_predicates-contains :
    (gp : GraphPattern) → named_predicates gp ≡ true → contains_variable_predicate gp ≡ false
unfolding named_predicates contains_variable_predicate
named_predicates-contains (GraphPattern.bgp ps) h = ground arith
named_predicates-contains (GraphPattern.join l r) h =
    ground (arith, named_predicates-contains l, named_predicates-contains r)
named_predicates-contains (GraphPattern.left_join l r e) h =
    ground (arith, named_predicates-contains l, named_predicates-contains r)
named_predicates-contains (GraphPattern.union l r) h =
    ground (arith, named_predicates-contains l, named_predicates-contains r)
named_predicates-contains (GraphPattern.minus l r) h =
    ground (arith, named_predicates-contains l, named_predicates-contains r)
named_predicates-contains (GraphPattern.filter e p) h = named_predicates-contains p h
named_predicates-contains (GraphPattern.extend p v e) h = named_predicates-contains p h
named_predicates-contains (GraphPattern.order_by p e) h = named_predicates-contains p h
named_predicates-contains (GraphPattern.distinct p) h = named_predicates-contains p h
named_predicates-contains other h = refl

module _ (in_scope_variables : GraphPattern → List Variable) where
  -- Without a filter from above, a pattern whose predicates are all named comes back as it was.
  pub rewrite_gp_pushdown_identity :
      (gp : GraphPattern) (seen : List Variable)
      → named_predicates gp ≡ true
      → rewrite_gp_pushdown in_scope_variables gp [] seen ≡ gp
  unfolding named_predicates rewrite_gp_pushdown create_filter_gps deal_join_filters
      deal_left_join_filters rewrite_bgp
  rewrite_gp_pushdown_identity (GraphPattern.bgp ps) seen h = refl
  rewrite_gp_pushdown_identity (GraphPattern.filter e p) seen h =
      rw (named_predicates-contains p h, rewrite_gp_pushdown_identity p seen h)
  rewrite_gp_pushdown_identity (GraphPattern.join l r) seen h =
      let (hl, hr) = and-cases _ _ h in
      rw (rewrite_gp_pushdown_identity l seen hl, rewrite_gp_pushdown_identity r _ hr)
  rewrite_gp_pushdown_identity (GraphPattern.left_join l r e) seen h =
      let (hl, hr) = and-cases _ _ h in
      rw (rewrite_gp_pushdown_identity l seen hl, rewrite_gp_pushdown_identity r [] hr)
  rewrite_gp_pushdown_identity (GraphPattern.union l r) seen h =
      let (hl, hr) = and-cases _ _ h in
      rw (rewrite_gp_pushdown_identity l seen hl, rewrite_gp_pushdown_identity r seen hr)
  rewrite_gp_pushdown_identity (GraphPattern.minus l r) seen h =
      let (hl, hr) = and-cases _ _ h in
      rw (rewrite_gp_pushdown_identity l seen hl, rewrite_gp_pushdown_identity r seen hr)
  rewrite_gp_pushdown_identity (GraphPattern.extend p v e) seen h =
      rw (rewrite_gp_pushdown_identity p seen h)
  rewrite_gp_pushdown_identity (GraphPattern.order_by p e) seen h =
      rw (rewrite_gp_pushdown_identity p seen h)
  rewrite_gp_pushdown_identity (GraphPattern.project p vs) seen h =
      rw (rewrite_gp_pushdown_identity p seen h)
  rewrite_gp_pushdown_identity (GraphPattern.distinct p) seen h =
      rw (rewrite_gp_pushdown_identity p seen h)
  rewrite_gp_pushdown_identity (GraphPattern.reduced p) seen h =
      rw (rewrite_gp_pushdown_identity p seen h)
  rewrite_gp_pushdown_identity (GraphPattern.slice p n k) seen h =
      rw (rewrite_gp_pushdown_identity p seen h)
  rewrite_gp_pushdown_identity (GraphPattern.group p vs a) seen h =
      rw (rewrite_gp_pushdown_identity p [] h)
  rewrite_gp_pushdown_identity other seen h = refl
