-- ===== src/Rewrite/Cse/Gone.antt =====
-- A variable that a renaming takes to another one is gone from the renamed expression.
use maplib.Prelude.{◌≡◌, refl, Bool, true, false, ◌||◌, ◌==◌, arith, eq_refl}
use maplib.Algebra.{Expression, Expressions, Variable}
use maplib.Variables.Occurrence.{occurs, occurs_in_list}
use maplib.Rewrite.Cse.{Renames, rename_all, rename_vars, renamed}

module _ (m : Renames) (v : Variable) where
  -- no variable that is found is renamed to `v`
  abbrev pub Misses : (Variable → Bool) → Type 0
  Misses found = (w : Variable) → found w ≡ true → (v == renamed m w) ≡ false

  abbrev In : Expression → Variable → Bool
  In e w = occurs false true w e

  abbrev In_all : Expressions → Variable → Bool
  In_all es w = occurs_in_list false true w es

  neither :
      (a b : Variable → Bool) (x y : Bool)
      → Misses (λ w. a w || b w)
      → (Misses a → x ≡ false)
      → (Misses b → y ≡ false)
      → (x || y) ≡ false
  neither a b x y h f g =
      let left = f (λ w p. h w (ground arith)) in
      let right = g (λ w p. h w (ground arith)) in ground arith

  mutual
    unfolding occurs rename_vars

    gone : (e : Expression) → Misses (In e) → occurs false true v (rename_vars e m) ≡ false
    gone (Expression.variable w) h = h w (eq_refl w)
    gone (Expression.or a b) h = neither (In a) (In b) _ _ h (gone a) (gone b)
    gone (Expression.and a b) h = neither (In a) (In b) _ _ h (gone a) (gone b)
    gone (Expression.equal a b) h = neither (In a) (In b) _ _ h (gone a) (gone b)
    gone (Expression.same_term a b) h = neither (In a) (In b) _ _ h (gone a) (gone b)
    gone (Expression.greater a b) h = neither (In a) (In b) _ _ h (gone a) (gone b)
    gone (Expression.greater_or_equal a b) h = neither (In a) (In b) _ _ h (gone a) (gone b)
    gone (Expression.less a b) h = neither (In a) (In b) _ _ h (gone a) (gone b)
    gone (Expression.less_or_equal a b) h = neither (In a) (In b) _ _ h (gone a) (gone b)
    gone (Expression.add a b) h = neither (In a) (In b) _ _ h (gone a) (gone b)
    gone (Expression.subtract a b) h = neither (In a) (In b) _ _ h (gone a) (gone b)
    gone (Expression.multiply a b) h = neither (In a) (In b) _ _ h (gone a) (gone b)
    gone (Expression.divide a b) h = neither (In a) (In b) _ _ h (gone a) (gone b)
    gone (Expression.is_in a b) h = neither (In a) (In_all b) _ _ h (gone a) (gone_all b)
    gone (Expression.unary_plus a) h = gone a h
    gone (Expression.unary_minus a) h = gone a h
    gone (Expression.not a) h = gone a h
    gone (Expression.bound w) h = h w (eq_refl w)
    gone (Expression.exists gp) h = refl
    gone (Expression.if_else a b c) h =
        neither (λ w. In a w || In b w) (In c) _ _ h
          (λ k. neither (In a) (In b) _ _ k (gone a) (gone b)) (gone c)
    gone (Expression.coalesce es) h = gone_all es h
    gone (Expression.function_call f es) h = gone_all es h
    gone (Expression.named_node n) h = refl
    gone (Expression.literal n) h = refl

    gone_all :
        (es : Expressions)
        → Misses (In_all es)
        → occurs_in_list false true v (rename_all es m) ≡ false
    gone_all Expressions.nil h = refl
    gone_all (Expressions.cons e es) h = neither (In e) (In_all es) _ _ h (gone e) (gone_all es)

-- A variable that no variable of an expression is renamed to does not occur in the renamed expression.
pub occurs-rename_vars :
    (e : Expression) (m : Renames) (v : Variable)
    → Misses m v (λ w. occurs false true w e)
    → occurs false true v (rename_vars e m) ≡ false
occurs-rename_vars e m v h = gone m v e h
