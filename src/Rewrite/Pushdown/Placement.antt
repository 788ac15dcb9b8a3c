-- ===== src/Rewrite/Pushdown/Placement.antt =====
-- The filters of a pattern before and after the push-down, over all patterns.
use maplib.Prelude.{
  ◌≡◌, refl, ap, ℕ, ◌+◌, true, List, [], ◌++◌, arith, and-cases, Bool-cases, inl, inr, union,
}
use maplib.Algebra.{Expression, GraphPattern, Variable}
use maplib.Rewrite.Pushdown.Filters.{
  filters_of, total, total-append, total-create_filter_gps, total-deal_join_filters,
  total-deal_left_join_filters,
}
use maplib.Rewrite.Pushdown.Kept.{
  accepts, conjuncts, expected, keeps, joined_total, rewrite_expr_pushdown-conjuncts,
  total-rewrite_bgp,
}
use maplib.Rewrite.Pushdown.{
  contains_variable_predicate, create_filter_gps, deal_left_join_filters, deal_join_filters,
  rewrite_gp_pushdown,
}

module _ (in_scope_variables : GraphPattern → List Variable) where
  module _ (w : Expression → ℕ) where
    abbrev pushed : GraphPattern → List Expression → List Variable → GraphPattern
    pushed gp fs seen = rewrite_gp_pushdown in_scope_variables gp fs seen

    abbrev found : GraphPattern → ℕ
    found gp = total w (filters_of gp)

    abbrev wanted : GraphPattern → ℕ
    wanted gp = total w (expected in_scope_variables gp)

    -- a pattern with one inner pattern, under the filters `fs`
    one_kept :
        (gp inner p : GraphPattern) (fs : List Expression)
        → filters_of gp ≡ filters_of inner
        → found inner ≡ wanted p
        → found (create_filter_gps gp fs) ≡ total w fs + wanted p
    one_kept gp inner p fs same kept =
        let above = total-create_filter_gps w gp fs in
        let inside = ap (λ l. total w l) same in omega arith

    -- a pattern with two sides that were given filters of the weights `n` and `m`
    two_kept :
        (gp left right l r : GraphPattern) (fs : List Expression) (n m : ℕ)
        → filters_of gp ≡ filters_of left ++ filters_of right
        → found left ≡ n + wanted l
        → found right ≡ m + wanted r
        → found (create_filter_gps gp fs)
          ≡ total w fs
            + (n + m)
            + total w (expected in_scope_variables l ++ expected in_scope_variables r)
    two_kept gp left right l r fs n m same kept_left kept_right =
        let above = total-create_filter_gps w gp fs in
        let inside = ap (λ k. total w k) same in
        let sides = joined_total w left right in
        let both = total-append w (expected in_scope_variables l) (expected in_scope_variables r) in
        omega arith

    -- the same where neither side was given filters
    sides_kept :
        (gp left right l r : GraphPattern) (fs : List Expression)
        → filters_of gp ≡ filters_of left ++ filters_of right
        → found left ≡ wanted l
        → found right ≡ wanted r
        → found (create_filter_gps gp fs)
          ≡ total w fs + total w (expected in_scope_variables l ++ expected in_scope_variables r)
    sides_kept gp left right l r fs same kept_left kept_right =
        let kept =
          two_kept gp left right l r fs 0 0 same (omega (arith, kept_left))
            (omega (arith, kept_right)) in
        omega arith

    mutual
      unfolding rewrite_gp_pushdown expected accepts keeps filters_of total

      accepts_lem :
          (gp : GraphPattern) (fs : List Expression) (seen : List Variable)
          → accepts gp ≡ true
          → found (pushed gp fs seen) ≡ total w fs + wanted gp
      accepts_lem (GraphPattern.bgp ps) fs seen h =
          let placed = total-rewrite_bgp in_scope_variables w ps fs seen h in omega arith
      accepts_lem (GraphPattern.filter e p) fs seen h =
          elim (Bool-cases (contains_variable_predicate p)) [
            | inl c ↦
                rw (c, rewrite_expr_pushdown-conjuncts in_scope_variables e)
                  (let exprs = conjuncts in_scope_variables e in
                    let kept = accepts_lem p (fs ++ exprs) seen h in
                    let split = total-append w fs exprs in
                    let all = total-append w exprs (expected in_scope_variables p) in omega arith)
            | inr c ↦ rw c (let kept = accepts_lem p fs seen h in omega arith)
          ]
      accepts_lem (GraphPattern.join l r) fs seen h =
          let (hl, hr) = and-cases _ _ h in
          let left_vars = in_scope_variables l in
          let both = union left_vars (in_scope_variables r) in
          let d = deal_join_filters left_vars both fs in
          let left = pushed l d.0 seen in
          let right = pushed r d.1 (union seen left_vars) in
          let kept =
            two_kept (GraphPattern.join left right) left right l r d.2 (total w d.0) (total w d.1)
              refl (accepts_lem l d.0 seen hl) (accepts_lem r d.1 (union seen left_vars) hr) in
          let all = total-deal_join_filters w left_vars both fs in omega arith
      accepts_lem (GraphPattern.left_join l r e) fs seen h =
          let (hl, hr) = and-cases _ _ h in
          let left_vars = in_scope_variables l in
          let d = deal_left_join_filters left_vars fs in
          let left = pushed l d.0 seen in
          let right = pushed r [] [] in
          let kept =
            two_kept (GraphPattern.left_join left right e) left right l r d.1 (total w d.0) 0 refl
              (accepts_lem l d.0 seen hl) (let kept = keeps_lem r [] hr in omega arith) in
          let all = total-deal_left_join_filters w left_vars fs in omega arith
      accepts_lem (GraphPattern.union l r) fs seen h =
          let (hl, hr) = and-cases _ _ h in
          let left = pushed l [] seen in
          let right = pushed r [] seen in
          sides_kept (GraphPattern.union left right) left right l r fs refl (keeps_lem l seen hl)
            (keeps_lem r seen hr)
      accepts_lem (GraphPattern.minus l r) fs seen h =
          let (hl, hr) = and-cases _ _ h in
          let left = pushed l [] seen in
          let right = pushed r [] seen in
          sides_kept (GraphPattern.minus left right) left right l r fs refl (keeps_lem l seen hl)
            (keeps_lem r seen hr)
      accepts_lem (GraphPattern.extend p v e) fs seen h =
          let inner = pushed p [] seen in
          one_kept (GraphPattern.extend inner v e) inner p fs refl (keeps_lem p seen h)
      accepts_lem (GraphPattern.project p vs) fs seen h =
          let inner = pushed p [] seen in
          one_kept (GraphPattern.project inner vs) inner p fs refl (keeps_lem p seen h)
      accepts_lem (GraphPattern.reduced p) fs seen h =
          let inner = pushed p [] seen in
          one_kept (GraphPattern.reduced inner) inner p fs refl (keeps_lem p seen h)
      accepts_lem (GraphPattern.slice p n k) fs seen h =
          let inner = pushed p [] seen in
          one_kept (GraphPattern.slice inner n k) inner p fs refl (keeps_lem p seen h)
      accepts_lem (GraphPattern.group p vs a) fs seen h =
          let inner = pushed p [] [] in
          one_kept (GraphPattern.group inner vs a) inner p fs refl (keeps_lem p [] h)
      accepts_lem (GraphPattern.order_by p e) fs seen h = accepts_lem p fs seen h
      accepts_lem (GraphPattern.distinct p) fs seen h = accepts_lem p fs seen h
      accepts_lem other fs seen h = cc

      keeps_lem :
          (gp : GraphPattern) (seen : List Variable)
          → keeps gp ≡ true
          → found (pushed gp [] seen) ≡ wanted gp
      keeps_lem (GraphPattern.bgp ps) seen h = refl
      keeps_lem (GraphPattern.filter e p) seen h =
          elim (Bool-cases (contains_variable_predicate p)) [
            | inl c ↦
                rw (c, rewrite_expr_pushdown-conjuncts in_scope_variables e)
                  (let exprs = conjuncts in_scope_variables e in
                    let kept = accepts_lem p exprs seen (rw c at h) in
                    let all = total-append w exprs (expected in_scope_variables p) in omega arith)
            | inr c ↦ rw c (let kept = keeps_lem p seen (rw c at h) in omega arith)
          ]
      keeps_lem (GraphPattern.join l r) seen h =
          let (hl, hr) = and-cases (keeps l) (keeps r) h in
          let left = pushed l [] seen in
          let right_seen = union seen (in_scope_variables l) in
          let right = pushed r [] right_seen in
          omega (
            arith,
            sides_kept (GraphPattern.join left right) left right l r [] refl (keeps_lem l seen hl)
                (keeps_lem r right_seen hr),
          )
      keeps_lem (GraphPattern.left_join l r e) seen h =
          let (hl, hr) = and-cases (keeps l) (keeps r) h in
          let left = pushed l [] seen in
          let right = pushed r [] [] in
          omega (
            arith,
            sides_kept (GraphPattern.left_join left right e) left right l r [] refl
                (keeps_lem l seen hl) (keeps_lem r [] hr),
          )
      keeps_lem (GraphPattern.union l r) seen h =
          let (hl, hr) = and-cases (keeps l) (keeps r) h in
          let left = pushed l [] seen in
          let right = pushed r [] seen in
          omega (
            arith,
            sides_kept (GraphPattern.union left right) left right l r [] refl (keeps_lem l seen hl)
                (keeps_lem r seen hr),
          )
      keeps_lem (GraphPattern.minus l r) seen h =
          let (hl, hr) = and-cases (keeps l) (keeps r) h in
          let left = pushed l [] seen in
          let right = pushed r [] seen in
          omega (
            arith,
            sides_kept (GraphPattern.minus left right) left right l r [] refl (keeps_lem l seen hl)
                (keeps_lem r seen hr),
          )
      keeps_lem (GraphPattern.extend p v e) seen h =
          let inner = pushed p [] seen in
          omega
            (arith, one_kept (GraphPattern.extend inner v e) inner p [] refl (keeps_lem p seen h))
      keeps_lem (GraphPattern.project p vs) seen h =
          let inner = pushed p [] seen in
          omega
            (arith, one_kept (GraphPattern.project inner vs) inner p [] refl (keeps_lem p seen h))
      keeps_lem (GraphPattern.reduced p) seen h =
          let inner = pushed p [] seen in
          omega (arith, one_kept (GraphPattern.reduced inner) inner p [] refl (keeps_lem p seen h))
      keeps_lem (GraphPattern.slice p n k) seen h =
          let inner = pushed p [] seen in
          omega
            (arith, one_kept (GraphPattern.slice inner n k) inner p [] refl (keeps_lem p seen h))
      keeps_lem (GraphPattern.group p vs a) seen h =
          let inner = pushed p [] [] in
          omega (arith, one_kept (GraphPattern.group inner vs a) inner p [] refl (keeps_lem p [] h))
      keeps_lem (GraphPattern.order_by p e) seen h = keeps_lem p seen h
      keeps_lem (GraphPattern.distinct p) seen h = keeps_lem p seen h
      keeps_lem other seen h = refl

  -- Where a pattern accepts filters, the rewritten pattern has the filters that were pushed to it
  -- and those inside it, each as often, for every weighting of filters; a filter inside it over a
  -- pattern with a variable predicate counts as its conjuncts, with the push-down in its EXISTS.
  pub total-pushed :
      (w : Expression → ℕ) (gp : GraphPattern) (fs : List Expression) (seen : List Variable)
      → accepts gp ≡ true
      → total w (filters_of (rewrite_gp_pushdown in_scope_variables gp fs seen))
        ≡ total w fs + total w (expected in_scope_variables gp)
  total-pushed = accepts_lem

  -- Where no filter of a query is pushed to a place that would lose it, the rewritten query has all
  -- its filters, each as often, for every weighting of filters; a filter over a pattern with a
  -- variable predicate counts as its conjuncts, with the push-down in its EXISTS.
  pub total-kept :
      (w : Expression → ℕ) (gp : GraphPattern) (seen : List Variable)
      → keeps gp ≡ true
      → total w (filters_of (rewrite_gp_pushdown in_scope_variables gp [] seen))
        ≡ total w (expected in_scope_variables gp)
  total-kept = keeps_lem
