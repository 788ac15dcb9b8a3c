-- ===== src/Rewrite/Cse/Triples.antt =====
-- The triple patterns of a query under the elimination of common subexpressions.
use maplib.Prelude.{
  ℕ, ◌≡◌, refl, sym, ◌∙◌, ap, ap₂, Bool, true, ◌&&◌, ◌++◌, [], ◌∷◌, Option, some, String, arith,
  and-cases,
}
use maplib.Prelude.Maps.{distinct}
use maplib.Algebra.{Expression, GraphPattern, OptionExpression}
use maplib.Rewrite.Pushdown.Triples.{triples}
use maplib.Rewrite.Cse.{
  Renames, add_decodes, and_then, name_counted, rename_if_any, rename_vars, rewrite_condition,
  rewrite_expr_cse, rewrite_gp_cse,
}
use maplib.Rewrite.Cse.Counts.{get_str_counts_lem, has_arguments}

unfoldable pub condition_has_arguments : OptionExpression → Bool
condition_has_arguments OptionExpression.absent = true
condition_has_arguments (OptionExpression.present e) = has_arguments e

-- the expressions that the pass looks at have the arguments that it counts
unfoldable pub has_arguments_in : GraphPattern → Bool
unfolding condition_has_arguments
has_arguments_in (GraphPattern.join l r) = has_arguments_in l && has_arguments_in r
has_arguments_in (GraphPattern.union l r) = has_arguments_in l && has_arguments_in r
has_arguments_in (GraphPattern.minus l r) = has_arguments_in l && has_arguments_in r
has_arguments_in (GraphPattern.left_join l r e) = condition_has_arguments e
has_arguments_in (GraphPattern.filter e p) = has_arguments e
has_arguments_in (GraphPattern.graph n p) = has_arguments_in p
has_arguments_in (GraphPattern.extend p v e) = has_arguments_in p
has_arguments_in (GraphPattern.order_by p e) = has_arguments_in p
has_arguments_in (GraphPattern.project p vs) = has_arguments_in p
has_arguments_in (GraphPattern.distinct p) = has_arguments_in p
has_arguments_in (GraphPattern.reduced p) = has_arguments_in p
has_arguments_in (GraphPattern.slice p k l) = has_arguments_in p
has_arguments_in (GraphPattern.group p vs a) = has_arguments_in p
has_arguments_in other = true

triples-add_decodes : (m : Renames) (gp : GraphPattern) → triples (add_decodes gp m) ≡ triples gp
unfolding triples add_decodes
triples-add_decodes [] gp = refl
triples-add_decodes ((s, t) ∷ m) gp = triples-add_decodes m _

-- the pass does not panic, and keeps the triple patterns
abbrev Keeps : Option (GraphPattern × ℕ) → GraphPattern → Type 0
Keeps o gp = (gp' : GraphPattern) × (n' : ℕ) × (o ≡ some (gp', n')) × (triples gp' ≡ triples gp)

module _ (new_v4 : ℕ → String) where
  expr_done :
      (e : Expression) (n : ℕ)
      → has_arguments e ≡ true
      → (done : Expression × Renames × ℕ) × (rewrite_expr_cse new_v4 e n ≡ some done)
  unfolding rewrite_expr_cse
  expr_done e n h =
      let (counts, done, d, adds) = get_str_counts_lem e [] (unfold distinct in refl) h in
      let (m, n') = name_counted new_v4 counts [] n in
      (
        (
          rename_if_any e (name_counted new_v4 counts [] n).0,
          (name_counted new_v4 counts [] n).0,
          (name_counted new_v4 counts [] n).1,
        ),
        ground (arith, done),
      )

  condition_done :
      (r : GraphPattern) (e : OptionExpression) (n : ℕ)
      → condition_has_arguments e ≡ true
      → (r' : GraphPattern) × (e' : OptionExpression) × (n' : ℕ) × (rewrite_condition new_v4 r e n
          ≡ some (r', e', n'))
        × (triples r' ≡ triples r)
  unfolding rewrite_condition condition_has_arguments
  condition_done r OptionExpression.absent n h = (r, OptionExpression.absent, n, refl, refl)
  condition_done r (OptionExpression.present e) n h =
      let ((e', m, n'), done) = expr_done e n h in
      (
        add_decodes r m,
        OptionExpression.present (rename_vars e' m),
        n',
        rw (done, and_then) refl,
        triples-add_decodes m r,
      )

  one_inner :
      (build : GraphPattern → GraphPattern) (o : Option (GraphPattern × ℕ)) (gp : GraphPattern)
      → ((p : GraphPattern) → triples (build p) ≡ triples p)
      → Keeps o gp
      → Keeps (and_then o (λ (p, n). some (build p, n))) (build gp)
  one_inner build o gp same (p, n, done, kept) =
      (build p, n, rw (done, and_then) refl, (same p ∙ kept) ∙ sym (same gp))

  two_inner :
      (build : GraphPattern → GraphPattern → GraphPattern) (l r : GraphPattern)
      (o : Option (GraphPattern × ℕ)) (f : ℕ → Option (GraphPattern × ℕ))
      → ((p q : GraphPattern) → triples (build p q) ≡ triples p ++ triples q)
      → Keeps o l
      → ((n : ℕ) → Keeps (f n) r)
      → Keeps (and_then o (λ (p, n). and_then (f n) (λ (q, k). some (build p q, k)))) (build l r)
  two_inner build l r o f same (p, n, done, kept) h =
      let (q, k, done', kept') = h n in
      (
        build p q,
        k,
        rw (done, and_then) (rw (done', and_then) refl),
        (same p q ∙ ap₂ (λ a b. a ++ b) kept kept') ∙ sym (same l r),
      )

  -- Where the filters and conditions that the pass looks at have the arguments that it counts, the
  -- pass does not panic, and the pattern has the same triple patterns in the same order.
  pub triples-rewrite_gp_cse :
      (gp : GraphPattern) (n : ℕ)
      → has_arguments_in gp ≡ true
      → (gp' : GraphPattern) × (n' : ℕ) × (rewrite_gp_cse new_v4 gp n ≡ some (gp', n'))
        × (triples gp' ≡ triples gp)
  unfolding rewrite_gp_cse has_arguments_in triples
  triples-rewrite_gp_cse (GraphPattern.join l r) n h =
      two_inner GraphPattern.join l r _ _ (λ p q. refl)
        (triples-rewrite_gp_cse l n (and-cases _ _ h).0)
        (λ k. triples-rewrite_gp_cse r k (and-cases _ _ h).1)
  triples-rewrite_gp_cse (GraphPattern.union l r) n h =
      two_inner GraphPattern.union l r _ _ (λ p q. refl)
        (triples-rewrite_gp_cse l n (and-cases _ _ h).0)
        (λ k. triples-rewrite_gp_cse r k (and-cases _ _ h).1)
  triples-rewrite_gp_cse (GraphPattern.minus l r) n h =
      two_inner GraphPattern.minus l r _ _ (λ p q. refl)
        (triples-rewrite_gp_cse l n (and-cases _ _ h).0)
        (λ k. triples-rewrite_gp_cse r k (and-cases _ _ h).1)
  triples-rewrite_gp_cse (GraphPattern.left_join l r e) n h =
      let (r', e', n', done, kept) = condition_done r e n h in
      (
        GraphPattern.left_join l r' e',
        n',
        rw (done, and_then) refl,
        ap (λ ts. triples l ++ ts) kept,
      )
  triples-rewrite_gp_cse (GraphPattern.filter e p) n h =
      let ((e', m, n'), done) = expr_done e n h in
      (
        GraphPattern.filter e' (add_decodes p m),
        n',
        rw (done, and_then) refl,
        triples-add_decodes m p,
      )
  triples-rewrite_gp_cse (GraphPattern.graph g p) n h =
      one_inner (λ q. GraphPattern.graph g q) _ p (λ q. refl) (triples-rewrite_gp_cse p n h)
  triples-rewrite_gp_cse (GraphPattern.extend p v e) n h =
      one_inner (λ q. GraphPattern.extend q v e) _ p (λ q. refl) (triples-rewrite_gp_cse p n h)
  triples-rewrite_gp_cse (GraphPattern.order_by p e) n h =
      one_inner (λ q. GraphPattern.order_by q e) _ p (λ q. refl) (triples-rewrite_gp_cse p n h)
  triples-rewrite_gp_cse (GraphPattern.project p vs) n h =
      one_inner (λ q. GraphPattern.project q vs) _ p (λ q. refl) (triples-rewrite_gp_cse p n h)
  triples-rewrite_gp_cse (GraphPattern.distinct p) n h =
      one_inner (λ q. GraphPattern.distinct q) _ p (λ q. refl) (triples-rewrite_gp_cse p n h)
  triples-rewrite_gp_cse (GraphPattern.reduced p) n h =
      one_inner (λ q. GraphPattern.reduced q) _ p (λ q. refl) (triples-rewrite_gp_cse p n h)
  triples-rewrite_gp_cse (GraphPattern.slice p k l) n h =
      one_inner (λ q. GraphPattern.slice q k l) _ p (λ q. refl) (triples-rewrite_gp_cse p n h)
  triples-rewrite_gp_cse (GraphPattern.group p vs a) n h =
      one_inner (λ q. GraphPattern.group q vs a) _ p (λ q. refl) (triples-rewrite_gp_cse p n h)
  triples-rewrite_gp_cse other n h = (other, n, refl, refl)
