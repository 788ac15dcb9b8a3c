-- ===== src/Rewrite/Pushdown/Filters.antt =====
-- The filters of a pattern, weighed: two lists of filters hold the same filters, each as often,
-- exactly if every weighting gives them the same total.
use maplib.Prelude.{
  ◌≡◌, refl, ◌∙◌, ℕ, ◌+◌, Bool, true, false, List, [], ◌∷◌, ◌++◌, arith, reverse, is_subset,
  if◌then◌else◌, reverse-cons,
}
use maplib.Algebra.{Expression, GraphPattern, Variable}
use maplib.Rewrite.Pushdown.{
  get_expr_vars, wrap_filters, create_filter_gps, place_candidates, deal_left_join_filters,
  deal_join_filters,
}

-- The filter expressions of a pattern, outermost first.
unfoldable pub filters_of : GraphPattern → List Expression
filters_of (GraphPattern.bgp ps) = []
filters_of (GraphPattern.path s p o) = []
filters_of (GraphPattern.join l r) = filters_of l ++ filters_of r
filters_of (GraphPattern.left_join l r e) = filters_of l ++ filters_of r
filters_of (GraphPattern.filter e p) = e ∷ filters_of p
filters_of (GraphPattern.union l r) = filters_of l ++ filters_of r
filters_of (GraphPattern.graph n p) = filters_of p
filters_of (GraphPattern.extend p v e) = filters_of p
filters_of (GraphPattern.minus l r) = filters_of l ++ filters_of r
filters_of (GraphPattern.values vs bs) = []
filters_of (GraphPattern.pvalues vs b) = []
filters_of (GraphPattern.order_by p e) = filters_of p
filters_of (GraphPattern.project p vs) = filters_of p
filters_of (GraphPattern.distinct p) = filters_of p
filters_of (GraphPattern.reduced p) = filters_of p
filters_of (GraphPattern.slice p n k) = filters_of p
filters_of (GraphPattern.group p vs a) = filters_of p
filters_of (GraphPattern.service n p s) = filters_of p

module _ (w : Expression → ℕ) where
  unfoldable pub total : List Expression → ℕ
  total [] = 0
  total (f ∷ fs) = w f + total fs

  pub total-append : (fs gs : List Expression) → total (fs ++ gs) ≡ total fs + total gs
  unfolding total
  total-append [] gs = omega arith
  total-append (f ∷ fs) gs = omega (arith, total-append fs gs)

  pub total-reverse : (fs : List Expression) → total (reverse fs) ≡ total fs
  unfolding total
  total-reverse [] = refl
  total-reverse (f ∷ fs) =
      rw (reverse-cons f fs) (omega (arith, total-append (reverse fs) (f ∷ []), total-reverse fs))

  pub total-wrap_filters :
      (fs : List Expression) (gp : GraphPattern)
      → total (filters_of (wrap_filters gp fs)) ≡ total fs + total (filters_of gp)
  unfolding total filters_of wrap_filters
  total-wrap_filters [] gp = omega arith
  total-wrap_filters (f ∷ fs) gp = omega (arith, total-wrap_filters fs (GraphPattern.filter f gp))

  pub total-create_filter_gps :
      (gp : GraphPattern) (fs : List Expression)
      → total (filters_of (create_filter_gps gp fs)) ≡ total fs + total (filters_of gp)
  unfolding create_filter_gps
  total-create_filter_gps gp fs =
      omega (arith, total-wrap_filters (reverse fs) gp, total-reverse fs)

  pub total-place_candidates :
      (vars : List Variable) (fs : List Expression) (gp : GraphPattern) (outer : List Expression)
      → total (place_candidates vars fs gp outer).1
          + total (filters_of (place_candidates vars fs gp outer).0)
        ≡ total outer + total fs + total (filters_of gp)
  unfolding total place_candidates
  total-place_candidates vars [] gp outer = omega arith
  total-place_candidates vars (f ∷ fs) gp outer =
      let fits = is_subset (get_expr_vars f) vars in
      total-place_candidates vars fs (if fits then GraphPattern.filter f gp else gp)
        (if fits then outer else outer ++ f ∷ [])
      ∙ placed fits
    where
      placed :
          (b : Bool)
          → total (if b then outer else outer ++ f ∷ [])
              + total fs
              + total (filters_of (if b then GraphPattern.filter f gp else gp))
            ≡ total outer + (w f + total fs) + total (filters_of gp)
      placed true = unfold filters_of in omega arith
      placed false = omega (arith, total-append outer (f ∷ []))

  pub total-deal_join_filters :
      (left both : List Variable) (fs : List Expression)
      → (let d = deal_join_filters left both fs in total d.0 + total d.1 + total d.2) ≡ total fs
  unfolding total deal_join_filters
  total-deal_join_filters left both [] = refl
  total-deal_join_filters left both (f ∷ fs) = ground (arith, total-deal_join_filters left both fs)

  pub total-deal_left_join_filters :
      (left : List Variable) (fs : List Expression)
      → (let d = deal_left_join_filters left fs in total d.0 + total d.1) ≡ total fs
  unfolding total deal_left_join_filters
  total-deal_left_join_filters left [] = refl
  total-deal_left_join_filters left (f ∷ fs) = ground (arith, total-deal_left_join_filters left fs)
