-- ===== src/Rewrite/Cse/Renaming.antt =====
-- Renamings one after the other.
use maplib.Prelude.{◌≡◌, refl, ap, ap₂, Bool, true, false, ◌||◌, ◌==◌, [], arith, eq_refl}
use maplib.Algebra.{Expression, Expressions, Variable}
use maplib.Variables.Occurrence.{occurs, occurs_in_list}
use maplib.Rewrite.Cse.{Renames, rename_all, rename_vars, renamed}

-- on the variables that are found, the second renaming after the first does what the third does
abbrev pub Agrees : (Variable → Bool) → Renames → Renames → Renames → Type 0
Agrees found m k l = (v : Variable) → found v ≡ true → renamed k (renamed m v) ≡ renamed l v

Agrees-left :
    (a b : Variable → Bool) (m k l : Renames) → Agrees (λ v. a v || b v) m k l → Agrees a m k l
Agrees-left a b m k l h v p = h v (ground arith)

Agrees-right :
    (a b : Variable → Bool) (m k l : Renames) → Agrees (λ v. a v || b v) m k l → Agrees b m k l
Agrees-right a b m k l h v p = h v (ground arith)

module _ (m k l : Renames) where
  abbrev In : Expression → Variable → Bool
  In e v = occurs false true v e

  abbrev In_all : Expressions → Variable → Bool
  In_all es v = occurs_in_list false true v es

  at_variable : (w : Variable) → Agrees (λ v. v == w) m k l → renamed k (renamed m w) ≡ renamed l w
  at_variable w h = h w (eq_refl w)

  mutual
    unfolding occurs rename_vars

    rename_vars_twice_lem :
        (e : Expression) → Agrees (In e) m k l → rename_vars (rename_vars e m) k ≡ rename_vars e l
    rename_vars_twice_lem (Expression.variable w) h = ap Expression.variable (at_variable w h)
    rename_vars_twice_lem (Expression.or a b) h =
        ap₂ Expression.or (rename_vars_twice_lem a (Agrees-left (In a) (In b) m k l h))
          (rename_vars_twice_lem b (Agrees-right (In a) (In b) m k l h))
    rename_vars_twice_lem (Expression.and a b) h =
        ap₂ Expression.and (rename_vars_twice_lem a (Agrees-left (In a) (In b) m k l h))
          (rename_vars_twice_lem b (Agrees-right (In a) (In b) m k l h))
    rename_vars_twice_lem (Expression.equal a b) h =
        ap₂ Expression.equal (rename_vars_twice_lem a (Agrees-left (In a) (In b) m k l h))
          (rename_vars_twice_lem b (Agrees-right (In a) (In b) m k l h))
    rename_vars_twice_lem (Expression.same_term a b) h =
        ap₂ Expression.same_term (rename_vars_twice_lem a (Agrees-left (In a) (In b) m k l h))
          (rename_vars_twice_lem b (Agrees-right (In a) (In b) m k l h))
    rename_vars_twice_lem (Expression.greater a b) h =
        ap₂ Expression.greater (rename_vars_twice_lem a (Agrees-left (In a) (In b) m k l h))
          (rename_vars_twice_lem b (Agrees-right (In a) (In b) m k l h))
    rename_vars_twice_lem (Expression.greater_or_equal a b) h =
        ap₂ Expression.greater_or_equal
          (rename_vars_twice_lem a (Agrees-left (In a) (In b) m k l h))
          (rename_vars_twice_lem b (Agrees-right (In a) (In b) m k l h))
    rename_vars_twice_lem (Expression.less a b) h =
        ap₂ Expression.less (rename_vars_twice_lem a (Agrees-left (In a) (In b) m k l h))
          (rename_vars_twice_lem b (Agrees-right (In a) (In b) m k l h))
    rename_vars_twice_lem (Expression.less_or_equal a b) h =
        ap₂ Expression.less_or_equal (rename_vars_twice_lem a (Agrees-left (In a) (In b) m k l h))
          (rename_vars_twice_lem b (Agrees-right (In a) (In b) m k l h))
    rename_vars_twice_lem (Expression.add a b) h =
        ap₂ Expression.add (rename_vars_twice_lem a (Agrees-left (In a) (In b) m k l h))
          (rename_vars_twice_lem b (Agrees-right (In a) (In b) m k l h))
    rename_vars_twice_lem (Expression.subtract a b) h =
        ap₂ Expression.subtract (rename_vars_twice_lem a (Agrees-left (In a) (In b) m k l h))
          (rename_vars_twice_lem b (Agrees-right (In a) (In b) m k l h))
    rename_vars_twice_lem (Expression.multiply a b) h =
        ap₂ Expression.multiply (rename_vars_twice_lem a (Agrees-left (In a) (In b) m k l h))
          (rename_vars_twice_lem b (Agrees-right (In a) (In b) m k l h))
    rename_vars_twice_lem (Expression.divide a b) h =
        ap₂ Expression.divide (rename_vars_twice_lem a (Agrees-left (In a) (In b) m k l h))
          (rename_vars_twice_lem b (Agrees-right (In a) (In b) m k l h))
    rename_vars_twice_lem (Expression.is_in a b) h =
        ap₂ Expression.is_in (rename_vars_twice_lem a (Agrees-left (In a) (In_all b) m k l h))
          (rename_all_twice_lem b (Agrees-right (In a) (In_all b) m k l h))
    rename_vars_twice_lem (Expression.unary_plus a) h =
        ap Expression.unary_plus (rename_vars_twice_lem a h)
    rename_vars_twice_lem (Expression.unary_minus a) h =
        ap Expression.unary_minus (rename_vars_twice_lem a h)
    rename_vars_twice_lem (Expression.not a) h = ap Expression.not (rename_vars_twice_lem a h)
    rename_vars_twice_lem (Expression.bound w) h = ap Expression.bound (at_variable w h)
    rename_vars_twice_lem (Expression.exists gp) h = refl
    rename_vars_twice_lem (Expression.if_else a b c) h =
        let first =
          rename_vars_twice_lem a (
            Agrees-left (In a) (In b) m k l (Agrees-left (λ v. In a v || In b v) (In c) m k l h)) in
        let second =
          rename_vars_twice_lem b (
            Agrees-right (In a) (In b) m k l
              (Agrees-left (λ v. In a v || In b v) (In c) m k l h)) in
        let third = rename_vars_twice_lem c (Agrees-right (λ v. In a v || In b v) (In c) m k l h) in
        rw (first, second, third)
    rename_vars_twice_lem (Expression.coalesce es) h =
        ap Expression.coalesce (rename_all_twice_lem es h)
    rename_vars_twice_lem (Expression.function_call f es) h =
        ap (Expression.function_call f) (rename_all_twice_lem es h)
    rename_vars_twice_lem (Expression.named_node n) h = refl
    rename_vars_twice_lem (Expression.literal n) h = refl

    rename_all_twice_lem :
        (es : Expressions)
        → Agrees (In_all es) m k l
        → rename_all (rename_all es m) k ≡ rename_all es l
    rename_all_twice_lem Expressions.nil h = refl
    rename_all_twice_lem (Expressions.cons e es) h =
        ap₂ Expressions.cons (rename_vars_twice_lem e (Agrees-left (In e) (In_all es) m k l h))
          (rename_all_twice_lem es (Agrees-right (In e) (In_all es) m k l h))

-- A renaming after another is a third one, if it is so on each variable that occurs.
pub rename_vars-rename_vars :
    (e : Expression) (m k l : Renames)
    → ((v : Variable) → occurs false true v e ≡ true → renamed k (renamed m v) ≡ renamed l v)
    → rename_vars (rename_vars e m) k ≡ rename_vars e l
rename_vars-rename_vars e m k l h = rename_vars_twice_lem m k l e h

mutual
  unfolding rename_vars renamed

  pub rename_vars_nothing : (e : Expression) → rename_vars e [] ≡ e
  rename_vars_nothing (Expression.variable w) = refl
  rename_vars_nothing (Expression.or a b) =
      ap₂ Expression.or (rename_vars_nothing a) (rename_vars_nothing b)
  rename_vars_nothing (Expression.and a b) =
      ap₂ Expression.and (rename_vars_nothing a) (rename_vars_nothing b)
  rename_vars_nothing (Expression.equal a b) =
      ap₂ Expression.equal (rename_vars_nothing a) (rename_vars_nothing b)
  rename_vars_nothing (Expression.same_term a b) =
      ap₂ Expression.same_term (rename_vars_nothing a) (rename_vars_nothing b)
  rename_vars_nothing (Expression.greater a b) =
      ap₂ Expression.greater (rename_vars_nothing a) (rename_vars_nothing b)
  rename_vars_nothing (Expression.greater_or_equal a b) =
      ap₂ Expression.greater_or_equal (rename_vars_nothing a) (rename_vars_nothing b)
  rename_vars_nothing (Expression.less a b) =
      ap₂ Expression.less (rename_vars_nothing a) (rename_vars_nothing b)
  rename_vars_nothing (Expression.less_or_equal a b) =
      ap₂ Expression.less_or_equal (rename_vars_nothing a) (rename_vars_nothing b)
  rename_vars_nothing (Expression.add a b) =
      ap₂ Expression.add (rename_vars_nothing a) (rename_vars_nothing b)
  rename_vars_nothing (Expression.subtract a b) =
      ap₂ Expression.subtract (rename_vars_nothing a) (rename_vars_nothing b)
  rename_vars_nothing (Expression.multiply a b) =
      ap₂ Expression.multiply (rename_vars_nothing a) (rename_vars_nothing b)
  rename_vars_nothing (Expression.divide a b) =
      ap₂ Expression.divide (rename_vars_nothing a) (rename_vars_nothing b)
  rename_vars_nothing (Expression.is_in a b) =
      ap₂ Expression.is_in (rename_vars_nothing a) (rename_all_nothing b)
  rename_vars_nothing (Expression.unary_plus a) = ap Expression.unary_plus (rename_vars_nothing a)
  rename_vars_nothing (Expression.unary_minus a) = ap Expression.unary_minus (rename_vars_nothing a)
  rename_vars_nothing (Expression.not a) = ap Expression.not (rename_vars_nothing a)
  rename_vars_nothing (Expression.bound w) = refl
  rename_vars_nothing (Expression.exists gp) = refl
  rename_vars_nothing (Expression.if_else a b c) =
      rw (rename_vars_nothing a, rename_vars_nothing b, rename_vars_nothing c)
  rename_vars_nothing (Expression.coalesce es) = ap Expression.coalesce (rename_all_nothing es)
  rename_vars_nothing (Expression.function_call f es) =
      ap (Expression.function_call f) (rename_all_nothing es)
  rename_vars_nothing (Expression.named_node n) = refl
  rename_vars_nothing (Expression.literal n) = refl

  rename_all_nothing : (es : Expressions) → rename_all es [] ≡ es
  rename_all_nothing Expressions.nil = refl
  rename_all_nothing (Expressions.cons e es) =
      ap₂ Expressions.cons (rename_vars_nothing e) (rename_all_nothing es)
