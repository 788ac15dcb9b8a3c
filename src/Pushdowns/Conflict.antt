-- ===== src/Pushdowns/Conflict.antt =====
-- Comparisons of one variable with two constants.
use maplib.Prelude.{◌≡◌, refl, ◌∙◌, false, List, some, [], ◌∷◌, arith, eq_refl}
use maplib.Prelude.Maps.{get, put, remove, extend}
use maplib.Algebra.{Expression, Term, Variable}
use maplib.Pushdowns.{
  Values, term_eq, has, add_term, intersect_terms, conjunction, constant_term, single_value,
  equal_pushdown, if_both, find_variable_pushdowns,
}

get_alone : (v : Variable) (ts : List Term) → get v ((v, ts) ∷ []) ≡ some ts
unfolding get
get_alone v ts = ground (arith, eq_refl v)

remove_alone : (v : Variable) (ts : List Term) → remove v ((v, ts) ∷ []) ≡ []
unfolding remove
remove_alone v ts = ground (arith, eq_refl v)

intersect_different : (s t : Term) → term_eq s t ≡ false → intersect_terms (s ∷ []) (t ∷ []) ≡ []
unfolding intersect_terms has
intersect_different s t h = ground (arith, h)

conjunction_step :
    (v : Variable) (ss ts : List Term) (right : Values)
    → get v right ≡ some ts
    → conjunction ((v, ss) ∷ []) right ≡ extend ((v, intersect_terms ss ts) ∷ []) (remove v right)
unfolding conjunction put
conjunction_step v ss ts right g = ground (arith, g)

conjunction_conflict :
    (v : Variable) (s t : Term)
    → term_eq s t ≡ false
    → conjunction ((v, s ∷ []) ∷ []) ((v, t ∷ []) ∷ []) ≡ (v, []) ∷ []
unfolding extend
conjunction_conflict v s t h =
    conjunction_step v (s ∷ []) (t ∷ []) ((v, t ∷ []) ∷ []) (get_alone v (t ∷ []))
    ∙ rw (remove_alone v (t ∷ []), intersect_different s t h) refl

-- Where a conjunction compares a variable with two constants that are different terms, the set of the
-- variable's values is empty, whether or not the constants have the same value.
pub find_variable_pushdowns-conflict :
    (v : Variable) (a b : Expression) (s t : Term)
    → constant_term a ≡ some s
    → constant_term b ≡ some t
    → term_eq s t ≡ false
    → find_variable_pushdowns (
        Expression.and
          (Expression.equal (Expression.variable v) a)
          (Expression.equal (Expression.variable v) b))
      ≡ some ((v, []) ∷ [])
unfolding find_variable_pushdowns equal_pushdown single_value if_both add_term has
find_variable_pushdowns-conflict v a b s t p q h =
    rw (p, q, single_value, if_both, conjunction_conflict v s t h) refl
