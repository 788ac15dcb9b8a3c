-- ===== src/Rewrite/Cse/Counts.antt =====
-- The counts of the variables that string functions use, against a count without a map.
use maplib.Prelude.{
  ℕ, ◌+◌, ◌≡◌, refl, Bool, true, false, ◌&&◌, ◌||◌, ◌==◌, [], ◌∷◌, Option, none, some,
  if◌then◌else◌, arith, String, eq_iff, and-cases,
}
use maplib.Prelude.Maps.{get, put, contains_key, distinct, get-put}
use maplib.Algebra.{Expression, Expressions, Function, Variable}
use maplib.Rewrite.Cse.{
  StrCounts, add_first_count, add_var_count, add_var_counts, and_then, count_var, function_counts,
  get_all_counts, get_str_counts,
}

-- a function whose first argument alone is counted has one
unfoldable pub nonempty : Expressions → Bool
nonempty Expressions.nil = false
nonempty (Expressions.cons e es) = true

unfoldable pub function_has_argument : Function → Expressions → Bool
unfolding nonempty
function_has_argument Function.sub_str es = nonempty es
function_has_argument Function.replace es = nonempty es
function_has_argument Function.regex es = nonempty es
function_has_argument f es = true

unfoldable mutual
  unfolding function_has_argument

  pub has_arguments : Expression → Bool
  has_arguments (Expression.or a b) = has_arguments a && has_arguments b
  has_arguments (Expression.and a b) = has_arguments a && has_arguments b
  has_arguments (Expression.equal a b) = has_arguments a && has_arguments b
  has_arguments (Expression.same_term a b) = has_arguments a && has_arguments b
  has_arguments (Expression.greater a b) = has_arguments a && has_arguments b
  has_arguments (Expression.greater_or_equal a b) = has_arguments a && has_arguments b
  has_arguments (Expression.less a b) = has_arguments a && has_arguments b
  has_arguments (Expression.less_or_equal a b) = has_arguments a && has_arguments b
  has_arguments (Expression.add a b) = has_arguments a && has_arguments b
  has_arguments (Expression.subtract a b) = has_arguments a && has_arguments b
  has_arguments (Expression.multiply a b) = has_arguments a && has_arguments b
  has_arguments (Expression.divide a b) = has_arguments a && has_arguments b
  has_arguments (Expression.is_in a b) = has_arguments a && all_have_arguments b
  has_arguments (Expression.unary_plus a) = has_arguments a
  has_arguments (Expression.unary_minus a) = has_arguments a
  has_arguments (Expression.not a) = has_arguments a
  has_arguments (Expression.if_else a b c) = has_arguments a && (has_arguments b && has_arguments c)
  has_arguments (Expression.coalesce es) = all_have_arguments es
  has_arguments (Expression.function_call f es) = function_has_argument f es
  has_arguments e = true

  pub all_have_arguments : Expressions → Bool
  all_have_arguments Expressions.nil = true
  all_have_arguments (Expressions.cons e es) = has_arguments e && all_have_arguments es

unfoldable pub is_var : Variable → Expression → ℕ
is_var v (Expression.variable w) = if w == v then 1 else 0
is_var v e = 0

unfoldable pub vars_in : Variable → Expressions → ℕ
unfolding is_var
vars_in v Expressions.nil = 0
vars_in v (Expressions.cons e es) = is_var v e + vars_in v es

unfoldable pub first_var : Variable → Expressions → ℕ
unfolding is_var
first_var v Expressions.nil = 0
first_var v (Expressions.cons e es) = is_var v e

-- how often the variable is an argument that the function reads as a string
unfoldable pub function_uses : Variable → Function → Expressions → ℕ
unfolding vars_in first_var
function_uses v Function.str_len es = vars_in v es
function_uses v Function.concat es = vars_in v es
function_uses v Function.str_starts es = vars_in v es
function_uses v Function.str_ends es = vars_in v es
function_uses v Function.ucase es = vars_in v es
function_uses v Function.lcase es = vars_in v es
function_uses v Function.str_before es = vars_in v es
function_uses v Function.contains es = vars_in v es
function_uses v Function.str_after es = vars_in v es
function_uses v Function.sub_str es = first_var v es
function_uses v Function.replace es = first_var v es
function_uses v Function.regex es = first_var v es
function_uses v f es = 0

-- how often string functions of the expression use the variable, those below a function left out
unfoldable mutual
  unfolding function_uses

  pub uses : Variable → Expression → ℕ
  uses v (Expression.or a b) = uses v a + uses v b
  uses v (Expression.and a b) = uses v a + uses v b
  uses v (Expression.equal a b) = uses v a + uses v b
  uses v (Expression.same_term a b) = uses v a + uses v b
  uses v (Expression.greater a b) = uses v a + uses v b
  uses v (Expression.greater_or_equal a b) = uses v a + uses v b
  uses v (Expression.less a b) = uses v a + uses v b
  uses v (Expression.less_or_equal a b) = uses v a + uses v b
  uses v (Expression.add a b) = uses v a + uses v b
  uses v (Expression.subtract a b) = uses v a + uses v b
  uses v (Expression.multiply a b) = uses v a + uses v b
  uses v (Expression.divide a b) = uses v a + uses v b
  uses v (Expression.is_in a b) = uses v a + all_uses v b
  uses v (Expression.unary_plus a) = uses v a
  uses v (Expression.unary_minus a) = uses v a
  uses v (Expression.not a) = uses v a
  uses v (Expression.if_else a b c) = uses v a + (uses v b + uses v c)
  uses v (Expression.coalesce es) = all_uses v es
  uses v (Expression.function_call f es) = function_uses v f es
  uses v e = 0

  pub all_uses : Variable → Expressions → ℕ
  all_uses v Expressions.nil = 0
  all_uses v (Expressions.cons e es) = uses v e + all_uses v es

-- the count of a variable, 0 where the map has none
unfoldable pub count : Variable → StrCounts → ℕ
unfolding get
count v counts = elim (get v counts) [ some n ↦ n | none ↦ 0 ]

contains_key-put :
    (k j : String) (n : ℕ) (m : StrCounts)
    → contains_key j (put k n m) ≡ ((k == j) || contains_key j m)
unfolding contains_key put
contains_key-put k j n [] = ground arith
contains_key-put k j n ((i, w) ∷ m) =
    ground (arith, eq_iff k j, eq_iff i k, eq_iff i j, contains_key-put k j n m)

distinct-put :
    (k : String) (n : ℕ) (m : StrCounts) → distinct m ≡ true → distinct (put k n m) ≡ true
unfolding distinct put contains_key
distinct-put k n [] h = refl
distinct-put k n ((i, w) ∷ m) h =
    ground (arith, eq_iff i k, eq_iff k i, contains_key-put k i n m, distinct-put k n m)

-- what a count adds to a map without a repeated key
abbrev Adds : StrCounts → StrCounts → (Variable → ℕ) → Type 0
Adds counts next added =
    (distinct next ≡ true) × ((v : Variable) → count v next ≡ count v counts + added v)

-- the counting does not panic, and adds
abbrev Counted : Option StrCounts → StrCounts → (Variable → ℕ) → Type 0
Counted o counts added = (next : StrCounts) × (o ≡ some next) × Adds counts next added

add_var_count-Adds :
    (e : Expression) (counts : StrCounts)
    → distinct counts ≡ true
    → Adds counts (add_var_count e counts) (λ v. is_var v e)
unfolding add_var_count count_var is_var count
add_var_count-Adds (Expression.variable w) counts d =
    elim (get w counts)
        as (λ o.
          get w counts ≡ o
          → Adds counts (elim o [ some x ↦ put w (x + 1) counts | none ↦ put w 1 counts ])
              (λ v. if w == v then 1 else 0)) [
                | some x ↦ λ h. (
                  distinct-put w (x + 1) counts d,
                  λ v. ground (arith, get-put w v (x + 1) counts, eq_iff w v),
                )
                | none ↦ λ h. (
                  distinct-put w 1 counts d,
                  λ v. ground (arith, get-put w v 1 counts, eq_iff w v),
                )
              ]
      refl
add_var_count-Adds e counts d = (d, λ v. omega arith)

add_var_counts-Adds :
    (es : Expressions) (counts : StrCounts)
    → distinct counts ≡ true
    → Adds counts (add_var_counts es counts) (λ v. vars_in v es)
unfolding add_var_counts vars_in
add_var_counts-Adds Expressions.nil counts d = (d, λ v. omega arith)
add_var_counts-Adds (Expressions.cons e es) counts d =
    let (d', first) = add_var_count-Adds e counts d in
    let (d'', rest) = add_var_counts-Adds es (add_var_count e counts) d' in
    (d'', λ v. omega (arith, first v, rest v))

Counted-all :
    (es : Expressions) (counts : StrCounts)
    → distinct counts ≡ true
    → Counted (some (add_var_counts es counts)) counts (λ v. vars_in v es)
Counted-all es counts d = (add_var_counts es counts, refl, add_var_counts-Adds es counts d)

Counted-first :
    (es : Expressions) (counts : StrCounts)
    → distinct counts ≡ true
    → nonempty es ≡ true
    → Counted (add_first_count es counts) counts (λ v. first_var v es)
unfolding add_first_count first_var nonempty
Counted-first Expressions.nil counts d h = cc
Counted-first (Expressions.cons e es) counts d h =
    (add_var_count e counts, refl, add_var_count-Adds e counts d)

Counted-nothing :
    (counts : StrCounts) → distinct counts ≡ true → Counted (some counts) counts (λ v. 0)
Counted-nothing counts d = (counts, refl, (d, λ v. omega arith))

function_counts-Counted :
    (f : Function) (es : Expressions) (counts : StrCounts)
    → distinct counts ≡ true
    → function_has_argument f es ≡ true
    → Counted (function_counts f es counts) counts (λ v. function_uses v f es)
unfolding function_counts function_uses function_has_argument
function_counts-Counted Function.str_len es counts d h = Counted-all es counts d
function_counts-Counted Function.concat es counts d h = Counted-all es counts d
function_counts-Counted Function.str_starts es counts d h = Counted-all es counts d
function_counts-Counted Function.str_ends es counts d h = Counted-all es counts d
function_counts-Counted Function.ucase es counts d h = Counted-all es counts d
function_counts-Counted Function.lcase es counts d h = Counted-all es counts d
function_counts-Counted Function.str_before es counts d h = Counted-all es counts d
function_counts-Counted Function.contains es counts d h = Counted-all es counts d
function_counts-Counted Function.str_after es counts d h = Counted-all es counts d
function_counts-Counted Function.sub_str es counts d h = Counted-first es counts d h
function_counts-Counted Function.replace es counts d h = Counted-first es counts d h
function_counts-Counted Function.regex es counts d h = Counted-first es counts d h
function_counts-Counted f es counts d h = Counted-nothing counts d

-- one counting and then another
in_turn :
    (o : Option StrCounts) (f : StrCounts → Option StrCounts) (counts : StrCounts)
    (a b : Variable → ℕ)
    → Counted o counts a
    → ((next : StrCounts) → distinct next ≡ true → Counted (f next) next b)
    → Counted (and_then o f) counts (λ v. a v + b v)
in_turn o f counts a b (next, e, (d, adds)) h =
    let (last, e', (d', adds')) = h next d in
    (last, rw (e, and_then) e', (d', λ v. omega (arith, adds v, adds' v)))

mutual
  unfolding get_str_counts uses has_arguments

  counted_lem :
      (e : Expression) (counts : StrCounts)
      → distinct counts ≡ true
      → has_arguments e ≡ true
      → Counted (get_str_counts e counts) counts (λ v. uses v e)
  counted_lem (Expression.or a b) counts d h =
      in_turn _ _ counts _ _ (counted_lem a counts d (and-cases _ _ h).0)
        (λ c d'. counted_lem b c d' (and-cases _ _ h).1)
  counted_lem (Expression.and a b) counts d h =
      in_turn _ _ counts _ _ (counted_lem a counts d (and-cases _ _ h).0)
        (λ c d'. counted_lem b c d' (and-cases _ _ h).1)
  counted_lem (Expression.equal a b) counts d h =
      in_turn _ _ counts _ _ (counted_lem a counts d (and-cases _ _ h).0)
        (λ c d'. counted_lem b c d' (and-cases _ _ h).1)
  counted_lem (Expression.same_term a b) counts d h =
      in_turn _ _ counts _ _ (counted_lem a counts d (and-cases _ _ h).0)
        (λ c d'. counted_lem b c d' (and-cases _ _ h).1)
  counted_lem (Expression.greater a b) counts d h =
      in_turn _ _ counts _ _ (counted_lem a counts d (and-cases _ _ h).0)
        (λ c d'. counted_lem b c d' (and-cases _ _ h).1)
  counted_lem (Expression.greater_or_equal a b) counts d h =
      in_turn _ _ counts _ _ (counted_lem a counts d (and-cases _ _ h).0)
        (λ c d'. counted_lem b c d' (and-cases _ _ h).1)
  counted_lem (Expression.less a b) counts d h =
      in_turn _ _ counts _ _ (counted_lem a counts d (and-cases _ _ h).0)
        (λ c d'. counted_lem b c d' (and-cases _ _ h).1)
  counted_lem (Expression.less_or_equal a b) counts d h =
      in_turn _ _ counts _ _ (counted_lem a counts d (and-cases _ _ h).0)
        (λ c d'. counted_lem b c d' (and-cases _ _ h).1)
  counted_lem (Expression.add a b) counts d h =
      in_turn _ _ counts _ _ (counted_lem a counts d (and-cases _ _ h).0)
        (λ c d'. counted_lem b c d' (and-cases _ _ h).1)
  counted_lem (Expression.subtract a b) counts d h =
      in_turn _ _ counts _ _ (counted_lem a counts d (and-cases _ _ h).0)
        (λ c d'. counted_lem b c d' (and-cases _ _ h).1)
  counted_lem (Expression.multiply a b) counts d h =
      in_turn _ _ counts _ _ (counted_lem a counts d (and-cases _ _ h).0)
        (λ c d'. counted_lem b c d' (and-cases _ _ h).1)
  counted_lem (Expression.divide a b) counts d h =
      in_turn _ _ counts _ _ (counted_lem a counts d (and-cases _ _ h).0)
        (λ c d'. counted_lem b c d' (and-cases _ _ h).1)
  counted_lem (Expression.is_in a b) counts d h =
      in_turn _ _ counts _ _ (counted_lem a counts d (and-cases _ _ h).0)
        (λ c d'. all_counted_lem b c d' (and-cases _ _ h).1)
  counted_lem (Expression.unary_plus a) counts d h = counted_lem a counts d h
  counted_lem (Expression.unary_minus a) counts d h = counted_lem a counts d h
  counted_lem (Expression.not a) counts d h = counted_lem a counts d h
  counted_lem (Expression.if_else a b c) counts d h =
      let (p, q) = and-cases _ _ h in
      let (r, s) = and-cases _ _ q in
      in_turn _ _ counts _ _ (counted_lem a counts d p)
        (λ n d'. in_turn _ _ n _ _ (counted_lem b n d' r) (λ k d''. counted_lem c k d'' s))
  counted_lem (Expression.coalesce es) counts d h = all_counted_lem es counts d h
  counted_lem (Expression.function_call f es) counts d h = function_counts-Counted f es counts d h
  counted_lem other counts d h = Counted-nothing counts d

  all_counted_lem :
      (es : Expressions) (counts : StrCounts)
      → distinct counts ≡ true
      → all_have_arguments es ≡ true
      → Counted (get_all_counts es counts) counts (λ v. all_uses v es)
  all_counted_lem Expressions.nil counts d h = Counted-nothing counts d
  all_counted_lem (Expressions.cons e es) counts d h =
      in_turn _ _ counts _ _ (counted_lem e counts d (and-cases _ _ h).0)
        (λ c d'. all_counted_lem es c d' (and-cases _ _ h).1)

-- Where each function of which the first argument is counted has one, and no variable has two counts,
-- the counting does not panic, and adds to the count of each variable its uses by string functions.
pub get_str_counts_lem :
    (e : Expression) (counts : StrCounts)
    → distinct counts ≡ true
    → has_arguments e ≡ true
    → (next : StrCounts) × (get_str_counts e counts ≡ some next)
      × (distinct next ≡ true)
      × ((v : Variable) → count v next ≡ count v counts + uses v e)
get_str_counts_lem e counts d h =
    let (next, done, (d', adds)) = counted_lem e counts d h in (next, done, d', adds)
