-- ===== src/Pushdowns/Sound.antt =====
-- The values that a filter pushes down, for a solution that passes the filter.
use maplib.Prelude.{
  ◌≡◌, refl, Bool, true, false, Option, none, some, String, List, [], ◌∷◌, ◌⊎◌, inl, inr, subst,
  arith, ◌∙◌, ◌&&◌, and-cases,
}
use maplib.Prelude.Maps.{get, AllEntries, AllEntries-get}
use maplib.Algebra.{Expression, Expressions, NamedNode, Term, Variable}
use maplib.Pushdowns.{
  Values, has, add_term, conjunction, disjunction_loop, if_both, constant_term, single_value,
  equal_pushdown, collect_terms, in_pushdown, find_variable_pushdowns, has-add_term_self,
  has-add_term,
}
use maplib.Pushdowns.Bound.{
  BoundIn, conjunction_loop-BoundIn, disjunction_loop-left, disjunction_loop-right,
}

-- What the pushdown relies on, for one solution: `solution` gives the term of a variable, if it is
-- bound, and `holds e` is the effective boolean value of `e`. The operators are those of SPARQL;
-- of equality only the comparison with an IRI is described, which is that of the terms.
pub record IsFilterMeaning (solution : Variable → Option Term) (holds : Expression → Bool)
    : Type 0 where
  pub or_holds :
      (a b : Expression) → holds (Expression.or a b) ≡ true → (holds a ≡ true) ⊎ (holds b ≡ true)
  pub and_holds :
      (a b : Expression) → holds (Expression.and a b) ≡ true → (holds a ≡ true) × (holds b ≡ true)
  pub if_holds :
      (c a b : Expression)
      → holds (Expression.if_else c a b) ≡ true
      → (holds a ≡ true) ⊎ (holds b ≡ true)
  pub equal_holds :
      (v : Variable) (n : NamedNode)
      → holds (Expression.equal (Expression.variable v) (Expression.named_node n)) ≡ true
      → solution v ≡ some (Term.named_node n)
  pub equal_holds_flipped :
      (v : Variable) (n : NamedNode)
      → holds (Expression.equal (Expression.named_node n) (Expression.variable v)) ≡ true
      → solution v ≡ some (Term.named_node n)
  pub in_nil : (e : Expression) → holds (Expression.is_in e Expressions.nil) ≡ false
  pub in_cons :
      (e x : Expression) (es : Expressions)
      → holds (Expression.is_in e (Expressions.cons x es)) ≡ true
      → (holds (Expression.equal e x) ≡ true) ⊎ (holds (Expression.is_in e es) ≡ true)

unfoldable no_literal : Expression → Bool
no_literal (Expression.literal l) = false
no_literal e = true

unfoldable no_literals : Expressions → Bool
unfolding no_literal
no_literals Expressions.nil = true
no_literals (Expressions.cons e es) = no_literal e && no_literals es

-- the constants that variables are compared with are IRIs
unfoldable pub compares_iris : Expression → Bool
unfolding no_literal no_literals
compares_iris (Expression.or l r) = compares_iris l && compares_iris r
compares_iris (Expression.and l r) = compares_iris l && compares_iris r
compares_iris (Expression.if_else c l r) = compares_iris l && compares_iris r
compares_iris (Expression.equal l r) = no_literal l && no_literal r
compares_iris (Expression.is_in l es) = no_literals es
compares_iris e = true

module _ (solution : Variable → Option Term) where
  -- what is found for an expression holds of the solution
  abbrev Sound : Option Values → Type 0
  Sound none = Unit
  Sound (some m) = AllEntries (BoundIn solution) m

  disjunction-Sound :
      (l r : Option Values)
      → Sound l ⊎ Sound r
      → Sound (if_both (λ a b. disjunction_loop a b []) l r)
  unfolding if_both
  disjunction-Sound (some l) (some r) (inl h) = disjunction_loop-left solution l r [] h tt
  disjunction-Sound (some l) (some r) (inr h) = disjunction_loop-right solution l r [] h tt
  disjunction-Sound (some l) none h = tt
  disjunction-Sound none r h = tt

  conjunction-Sound : (l r : Option Values) → Sound l → Sound r → Sound (if_both conjunction l r)
  unfolding if_both conjunction
  conjunction-Sound (some l) (some r) h g = conjunction_loop-BoundIn solution l r [] h g tt
  conjunction-Sound (some l) none h g = tt
  conjunction-Sound none r h g = tt

  single_value-Sound :
      (v : Variable) (o : Option Term)
      → ((t : Term) → o ≡ some t → solution v ≡ some t)
      → Sound (single_value v o)
  unfolding single_value
  single_value-Sound v none h = tt
  single_value-Sound v (some t) h = ((t, h t refl, has-add_term_self t []), tt)

  abbrev Has : Term → Option (List Term) → Type 0
  Has t none = Unit
  Has t (some ts) = has ts t ≡ true

  collect_has :
      (es : Expressions) (acc : List Term) (t : Term)
      → has acc t ≡ true
      → Has t (collect_terms es acc)
  unfolding collect_terms
  collect_has Expressions.nil acc t h = h
  collect_has (Expressions.cons e es) acc t h =
      elim (constant_term e)
        as (λ o. Has t (elim o [ some u ↦ collect_terms es (add_term u acc) | none ↦ none ])) [
          | some u ↦ collect_has es (add_term u acc) t (has-add_term u t acc h)
          | none ↦ tt
        ]

  abbrev Bound : Variable → Option (List Term) → Type 0
  Bound v none = Unit
  Bound v (some ts) = BoundIn solution v ts

  Has-Bound :
      (v : Variable) (t : Term)
      → solution v ≡ some t
      → (o : Option (List Term)) → Has t o
      → Bound v o
  Has-Bound v t p none h = tt
  Has-Bound v t p (some ts) h = (t, p, h)

  Bound-Sound :
      (v : Variable) (o : Option (List Term))
      → Bound v o
      → Sound (elim o [ some terms ↦ some ((v, terms) ∷ []) | none ↦ none ])
  Bound-Sound v none h = tt
  Bound-Sound v (some ts) h = (h, tt)

  module _ (holds : Expression → Bool) (meaning : IsFilterMeaning solution holds) where
    equals :
        (v : Variable) (e : Expression) (t : Term)
        → no_literal e ≡ true
        → constant_term e ≡ some t
        → holds (Expression.equal (Expression.variable v) e) ≡ true
        → solution v ≡ some t
    unfolding no_literal constant_term
    equals v (Expression.named_node n) t l c h = meaning.equal_holds v n h ∙ c
    equals v e t l c h = cc

    equals_flipped :
        (v : Variable) (e : Expression) (t : Term)
        → no_literal e ≡ true
        → constant_term e ≡ some t
        → holds (Expression.equal e (Expression.variable v)) ≡ true
        → solution v ≡ some t
    unfolding no_literal constant_term
    equals_flipped v (Expression.named_node n) t l c h = meaning.equal_holds_flipped v n h ∙ c
    equals_flipped v e t l c h = cc

    equal_pushdown-Sound :
        (l r : Expression)
        → (no_literal l && no_literal r) ≡ true
        → holds (Expression.equal l r) ≡ true
        → Sound (equal_pushdown l r)
    unfolding equal_pushdown
    equal_pushdown-Sound (Expression.variable v) r i h =
        let literals = and-cases (no_literal (Expression.variable v)) (no_literal r) i in
        single_value-Sound v (constant_term r) (λ t e. equals v r t literals.1 e h)
    equal_pushdown-Sound l (Expression.variable w) i h =
        let literals = and-cases (no_literal l) (no_literal (Expression.variable w)) i in
        single_value-Sound w (constant_term l) (λ t e. equals_flipped w l t literals.0 e h)
    equal_pushdown-Sound l r i h = tt

    collect_terms-Bound :
        (v : Variable) (es : Expressions) (acc : List Term)
        → no_literals es ≡ true
        → holds (Expression.is_in (Expression.variable v) es) ≡ true
        → Bound v (collect_terms es acc)
    unfolding collect_terms no_literals
    collect_terms-Bound v Expressions.nil acc i h =
        let never = meaning.in_nil (Expression.variable v) in absurd (ground arith)
    collect_terms-Bound v (Expressions.cons e es) acc i h =
        let (here, there) = and-cases (no_literal e) (no_literals es) i in
        elim (constant_term e)
            as (λ o.
              constant_term e ≡ o
              → Bound v (elim o [ some t ↦ collect_terms es (add_term t acc) | none ↦ none ])) [
                | some t ↦ λ c. elim (meaning.in_cons (Expression.variable v) e es h) [
                  | inl same ↦
                      Has-Bound v t (equals v e t here c same) (collect_terms es (add_term t acc))
                        (collect_has es (add_term t acc) t (has-add_term_self t acc))
                  | inr rest ↦ collect_terms-Bound v es (add_term t acc) there rest
                ]
                | none ↦ λ c. tt
              ]
          refl

    in_pushdown-Sound :
        (l : Expression) (es : Expressions)
        → no_literals es ≡ true
        → holds (Expression.is_in l es) ≡ true
        → Sound (in_pushdown l es)
    unfolding in_pushdown
    in_pushdown-Sound (Expression.variable v) es i h =
        Bound-Sound v (collect_terms es []) (collect_terms-Bound v es [] i h)
    in_pushdown-Sound l es i h = tt

    find_variable_pushdowns-Sound :
        (e : Expression)
        → compares_iris e ≡ true
        → holds e ≡ true
        → Sound (find_variable_pushdowns e)
    unfolding find_variable_pushdowns compares_iris
    find_variable_pushdowns-Sound (Expression.or l r) i h =
        let (il, ir) = and-cases (compares_iris l) (compares_iris r) i in
        disjunction-Sound _ _ (elim (meaning.or_holds l r h) [
          | inl a ↦ inl (find_variable_pushdowns-Sound l il a)
          | inr b ↦ inr (find_variable_pushdowns-Sound r ir b)
        ])
    find_variable_pushdowns-Sound (Expression.if_else c l r) i h =
        let (il, ir) = and-cases (compares_iris l) (compares_iris r) i in
        disjunction-Sound _ _ (elim (meaning.if_holds c l r h) [
          | inl a ↦ inl (find_variable_pushdowns-Sound l il a)
          | inr b ↦ inr (find_variable_pushdowns-Sound r ir b)
        ])
    find_variable_pushdowns-Sound (Expression.and l r) i h =
        let (il, ir) = and-cases (compares_iris l) (compares_iris r) i in
        let (a, b) = meaning.and_holds l r h in
        conjunction-Sound _ _ (find_variable_pushdowns-Sound l il a)
          (find_variable_pushdowns-Sound r ir b)
    find_variable_pushdowns-Sound (Expression.equal l r) i h = equal_pushdown-Sound l r i h
    find_variable_pushdowns-Sound (Expression.is_in v es) i h = in_pushdown-Sound v es i h
    find_variable_pushdowns-Sound e i h = tt

-- If an expression in which the constants that variables are compared with are IRIs holds of a
-- solution, under the meaning of the operators above, and values are found for it, then each variable
-- that has values is bound by the solution to one of them.
pub find_variable_pushdowns-BoundIn :
    (solution : Variable → Option Term) (holds : Expression → Bool)
    → IsFilterMeaning solution holds
    → (e : Expression) {found : Values} (v : String) {ts : List Term} → compares_iris e ≡ true
    → find_variable_pushdowns e ≡ some found
    → get v found ≡ some ts
    → holds e ≡ true
    → BoundIn solution v ts
find_variable_pushdowns-BoundIn solution holds meaning e {found} v i p q h =
    AllEntries-get (BoundIn solution) v found
      (subst (Sound solution) p (find_variable_pushdowns-Sound solution holds meaning e i h)) q
