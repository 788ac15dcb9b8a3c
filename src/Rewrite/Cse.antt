-- ===== src/Rewrite/Cse.antt =====
-- lib/triplestore/src/sparql/rewrite/rewrite_cse.rs: a variable that string functions of an expression
-- use more than once is decoded once, into a variable with a fresh name. A panic is `none`; the names
-- that `Uuid::new_v4` gives are those of `new_v4`, in the order of the calls, and the functions that
-- ask for one take the number of the next.
pub mod Renaming
pub mod Counts
pub mod Gone
pub mod Fresh
pub mod Triples
use maplib.Prelude.{
  ℕ, ◌+◌, String, Bool, true, false, List, [], ◌∷◌, Option, none, some, if◌then◌else◌, ltb,
}
use maplib.Prelude.Maps.{get, put}
use maplib.Algebra.{
  Expression, Expressions, Function, GraphPattern, NamedNode, OptionExpression, Variable,
}

abbrev pub StrCounts : Type 0
StrCounts = List (String × ℕ)

abbrev pub Renames : Type 0
Renames = List (String × String)

-- the constant `DECODE`
abbrev pub decode_function : NamedNode
decode_function = "https://datatreehouse.github.io/maplib/vocab#decodeString"

-- `rename_map.get(v.as_str())`, and the variable itself without a new name
unfoldable pub renamed : Renames → Variable → Variable
unfolding get
renamed rename_map v = elim (get v rename_map) [ some r ↦ r | none ↦ v ]

unfoldable mutual
  unfolding renamed

  pub rename_vars : Expression → Renames → Expression
  rename_vars (Expression.variable v) m = Expression.variable (renamed m v)
  rename_vars (Expression.or left right) m =
      Expression.or (rename_vars left m) (rename_vars right m)
  rename_vars (Expression.and left right) m =
      Expression.and (rename_vars left m) (rename_vars right m)
  rename_vars (Expression.equal left right) m =
      Expression.equal (rename_vars left m) (rename_vars right m)
  rename_vars (Expression.same_term left right) m =
      Expression.same_term (rename_vars left m) (rename_vars right m)
  rename_vars (Expression.greater left right) m =
      Expression.greater (rename_vars left m) (rename_vars right m)
  rename_vars (Expression.greater_or_equal left right) m =
      Expression.greater_or_equal (rename_vars left m) (rename_vars right m)
  rename_vars (Expression.less left right) m =
      Expression.less (rename_vars left m) (rename_vars right m)
  rename_vars (Expression.less_or_equal left right) m =
      Expression.less_or_equal (rename_vars left m) (rename_vars right m)
  rename_vars (Expression.add left right) m =
      Expression.add (rename_vars left m) (rename_vars right m)
  rename_vars (Expression.subtract left right) m =
      Expression.subtract (rename_vars left m) (rename_vars right m)
  rename_vars (Expression.multiply left right) m =
      Expression.multiply (rename_vars left m) (rename_vars right m)
  rename_vars (Expression.divide left right) m =
      Expression.divide (rename_vars left m) (rename_vars right m)
  rename_vars (Expression.is_in left right) m =
      Expression.is_in (rename_vars left m) (rename_all right m)
  rename_vars (Expression.unary_plus inner) m = Expression.unary_plus (rename_vars inner m)
  rename_vars (Expression.unary_minus inner) m = Expression.unary_minus (rename_vars inner m)
  rename_vars (Expression.not inner) m = Expression.not (rename_vars inner m)
  rename_vars (Expression.bound v) m = Expression.bound (renamed m v)
  rename_vars (Expression.exists e) m = Expression.exists e
  rename_vars (Expression.if_else left mid right) m =
      Expression.if_else (rename_vars left m) (rename_vars mid m) (rename_vars right m)
  rename_vars (Expression.coalesce exprs) m = Expression.coalesce (rename_all exprs m)
  rename_vars (Expression.function_call f exprs) m = Expression.function_call f (rename_all exprs m)
  rename_vars (Expression.named_node n) m = Expression.named_node n
  rename_vars (Expression.literal l) m = Expression.literal l

  pub rename_all : Expressions → Renames → Expressions
  rename_all Expressions.nil m = Expressions.nil
  rename_all (Expressions.cons e es) m = Expressions.cons (rename_vars e m) (rename_all es m)

-- `e.and_modify(|x| *x += 1).or_insert(1)`
unfoldable pub count_var : String → StrCounts → StrCounts
unfolding get put
count_var v str_counts = elim (get v str_counts) [
  | some x ↦ put v (x + 1) str_counts
  | none ↦ put v 1 str_counts
]

unfoldable pub add_var_count : Expression → StrCounts → StrCounts
unfolding count_var
add_var_count (Expression.variable v) str_counts = count_var v str_counts
add_var_count e str_counts = str_counts

unfoldable pub add_var_counts : Expressions → StrCounts → StrCounts
unfolding add_var_count
add_var_counts Expressions.nil str_counts = str_counts
add_var_counts (Expressions.cons e expr) str_counts =
    add_var_counts expr (add_var_count e str_counts)

-- `add_var_counts(&exprs[0..1], str_counts)`
unfoldable pub add_first_count : Expressions → StrCounts → Option StrCounts
unfolding add_var_count
add_first_count Expressions.nil str_counts = none
add_first_count (Expressions.cons e exprs) str_counts = some (add_var_count e str_counts)

-- the inner match of `get_str_counts`
unfoldable pub function_counts : Function → Expressions → StrCounts → Option StrCounts
unfolding add_var_counts add_first_count
function_counts Function.str_len exprs str_counts = some (add_var_counts exprs str_counts)
function_counts Function.concat exprs str_counts = some (add_var_counts exprs str_counts)
function_counts Function.str_starts exprs str_counts = some (add_var_counts exprs str_counts)
function_counts Function.str_ends exprs str_counts = some (add_var_counts exprs str_counts)
function_counts Function.ucase exprs str_counts = some (add_var_counts exprs str_counts)
function_counts Function.lcase exprs str_counts = some (add_var_counts exprs str_counts)
function_counts Function.str_before exprs str_counts = some (add_var_counts exprs str_counts)
function_counts Function.contains exprs str_counts = some (add_var_counts exprs str_counts)
function_counts Function.str_after exprs str_counts = some (add_var_counts exprs str_counts)
function_counts Function.sub_str exprs str_counts = add_first_count exprs str_counts
function_counts Function.replace exprs str_counts = add_first_count exprs str_counts
function_counts Function.regex exprs str_counts = add_first_count exprs str_counts
function_counts f exprs str_counts = some str_counts

abbrev pub and_then {ℓ κ} : {A : Type ℓ} {B : Type κ} → Option A → (A → Option B) → Option B
and_then none f = none
and_then (some a) f = f a

unfoldable mutual
  unfolding function_counts

  pub get_str_counts : Expression → StrCounts → Option StrCounts
  get_str_counts (Expression.or left right) str_counts =
      and_then (get_str_counts left str_counts) (λ c. get_str_counts right c)
  get_str_counts (Expression.and left right) str_counts =
      and_then (get_str_counts left str_counts) (λ c. get_str_counts right c)
  get_str_counts (Expression.equal left right) str_counts =
      and_then (get_str_counts left str_counts) (λ c. get_str_counts right c)
  get_str_counts (Expression.same_term left right) str_counts =
      and_then (get_str_counts left str_counts) (λ c. get_str_counts right c)
  get_str_counts (Expression.greater left right) str_counts =
      and_then (get_str_counts left str_counts) (λ c. get_str_counts right c)
  get_str_counts (Expression.greater_or_equal left right) str_counts =
      and_then (get_str_counts left str_counts) (λ c. get_str_counts right c)
  get_str_counts (Expression.less left right) str_counts =
      and_then (get_str_counts left str_counts) (λ c. get_str_counts right c)
  get_str_counts (Expression.less_or_equal left right) str_counts =
      and_then (get_str_counts left str_counts) (λ c. get_str_counts right c)
  get_str_counts (Expression.add left right) str_counts =
      and_then (get_str_counts left str_counts) (λ c. get_str_counts right c)
  get_str_counts (Expression.subtract left right) str_counts =
      and_then (get_str_counts left str_counts) (λ c. get_str_counts right c)
  get_str_counts (Expression.multiply left right) str_counts =
      and_then (get_str_counts left str_counts) (λ c. get_str_counts right c)
  get_str_counts (Expression.divide left right) str_counts =
      and_then (get_str_counts left str_counts) (λ c. get_str_counts right c)
  get_str_counts (Expression.is_in left right) str_counts =
      and_then (get_str_counts left str_counts) (λ c. get_all_counts right c)
  get_str_counts (Expression.unary_plus inner) str_counts = get_str_counts inner str_counts
  get_str_counts (Expression.unary_minus inner) str_counts = get_str_counts inner str_counts
  get_str_counts (Expression.not inner) str_counts = get_str_counts inner str_counts
  get_str_counts (Expression.if_else left mid right) str_counts =
      and_then (get_str_counts left str_counts)
        (λ c. and_then (get_str_counts mid c) (λ d. get_str_counts right d))
  get_str_counts (Expression.coalesce inners) str_counts = get_all_counts inners str_counts
  get_str_counts (Expression.function_call f exprs) str_counts = function_counts f exprs str_counts
  get_str_counts (Expression.named_node n) str_counts = some str_counts
  get_str_counts (Expression.literal l) str_counts = some str_counts
  get_str_counts (Expression.variable v) str_counts = some str_counts
  get_str_counts (Expression.bound v) str_counts = some str_counts
  get_str_counts (Expression.exists e) str_counts = some str_counts

  pub get_all_counts : Expressions → StrCounts → Option StrCounts
  get_all_counts Expressions.nil str_counts = some str_counts
  get_all_counts (Expressions.cons e es) str_counts =
      and_then (get_str_counts e str_counts) (λ c. get_all_counts es c)

-- one step of the loops that put a decoded variable on top of a pattern, and the loops
unfoldable pub add_decodes : GraphPattern → Renames → GraphPattern
add_decodes inner [] = inner
add_decodes inner ((src, trg) ∷ rename_map) =
    add_decodes
      (GraphPattern.extend inner trg (
        Expression.function_call (Function.custom decode_function)
          (Expressions.cons (Expression.variable src) Expressions.nil)))
      rename_map

-- `if !renames.is_empty()` before the renaming
unfoldable pub rename_if_any : Expression → Renames → Expression
unfolding rename_vars
rename_if_any e [] = e
rename_if_any e (r ∷ renames) = rename_vars e (r ∷ renames)

module _ (new_v4 : ℕ → String) where
  -- the loop of `rewrite_expr_cse` over the counts
  unfoldable pub name_counted : StrCounts → Renames → ℕ → Renames × ℕ
  unfolding put
  name_counted [] renames n = (renames, n)
  name_counted ((s, c) ∷ counts) renames n =
      let (renames', n') : Renames × ℕ =
        if ltb 1 c then (put s (new_v4 n) renames, n + 1) else (renames, n) in
      name_counted counts renames' n'

  unfoldable pub rewrite_expr_cse : Expression → ℕ → Option (Expression × Renames × ℕ)
  unfolding get_str_counts name_counted rename_if_any
  rewrite_expr_cse e n = elim (get_str_counts e []) [
    | some counts ↦
        let (renames, n') = name_counted counts [] n in some (rename_if_any e renames, renames, n')
    | none ↦ none
  ]

  -- the right side and the expression of a `LeftJoin`
  unfoldable pub rewrite_condition :
      GraphPattern → OptionExpression → ℕ → Option (GraphPattern × OptionExpression × ℕ)
  unfolding rewrite_expr_cse rename_vars add_decodes
  rewrite_condition right OptionExpression.absent n = some (right, OptionExpression.absent, n)
  rewrite_condition right (OptionExpression.present expression) n =
      and_then (rewrite_expr_cse expression n) (λ (expr, rename_map, n').
        some (
          add_decodes right rename_map,
          OptionExpression.present (rename_vars expr rename_map),
          n',
        ))

  unfoldable pub rewrite_gp_cse : GraphPattern → ℕ → Option (GraphPattern × ℕ)
  unfolding rewrite_expr_cse rewrite_condition add_decodes
  rewrite_gp_cse (GraphPattern.join left right) n = and_then (rewrite_gp_cse left n) (λ (left', n').
      and_then (rewrite_gp_cse right n')
        (λ (right', n''). some (GraphPattern.join left' right', n'')))
  rewrite_gp_cse (GraphPattern.union left right) n =
      and_then (rewrite_gp_cse left n) (λ (left', n').
        and_then (rewrite_gp_cse right n')
          (λ (right', n''). some (GraphPattern.union left' right', n'')))
  rewrite_gp_cse (GraphPattern.minus left right) n =
      and_then (rewrite_gp_cse left n) (λ (left', n').
        and_then (rewrite_gp_cse right n')
          (λ (right', n''). some (GraphPattern.minus left' right', n'')))
  rewrite_gp_cse (GraphPattern.left_join left right expression) n =
      and_then (rewrite_condition right expression n)
        (λ (right', expression', n'). some (GraphPattern.left_join left right' expression', n'))
  rewrite_gp_cse (GraphPattern.filter expr inner) n =
      and_then (rewrite_expr_cse expr n) (λ (expr', rename_map, n').
        some (GraphPattern.filter expr' (add_decodes inner rename_map), n'))
  rewrite_gp_cse (GraphPattern.graph name inner) n =
      and_then (rewrite_gp_cse inner n) (λ (inner', n'). some (GraphPattern.graph name inner', n'))
  rewrite_gp_cse (GraphPattern.extend inner variable expression) n =
      and_then (rewrite_gp_cse inner n)
        (λ (inner', n'). some (GraphPattern.extend inner' variable expression, n'))
  rewrite_gp_cse (GraphPattern.order_by inner expression) n =
      and_then (rewrite_gp_cse inner n)
        (λ (inner', n'). some (GraphPattern.order_by inner' expression, n'))
  rewrite_gp_cse (GraphPattern.project inner variables) n =
      and_then (rewrite_gp_cse inner n)
        (λ (inner', n'). some (GraphPattern.project inner' variables, n'))
  rewrite_gp_cse (GraphPattern.distinct inner) n =
      and_then (rewrite_gp_cse inner n) (λ (inner', n'). some (GraphPattern.distinct inner', n'))
  rewrite_gp_cse (GraphPattern.reduced inner) n =
      and_then (rewrite_gp_cse inner n) (λ (inner', n'). some (GraphPattern.reduced inner', n'))
  rewrite_gp_cse (GraphPattern.slice inner start len) n =
      and_then (rewrite_gp_cse inner n)
        (λ (inner', n'). some (GraphPattern.slice inner' start len, n'))
  rewrite_gp_cse (GraphPattern.group inner variables aggregates) n =
      and_then (rewrite_gp_cse inner n)
        (λ (inner', n'). some (GraphPattern.group inner' variables aggregates, n'))
  rewrite_gp_cse gp n = some (gp, n)
