-- ===== src/Rewrite/LiftExtend.antt =====
-- lib/triplestore/src/sparql/rewrite/rewrite_lift_extend.rs: the pass that lifts BIND out of joins
-- and filters. `rewrite_lift_extend` returns the pattern and the extends that it took out of it.
pub mod Identity
use maplib.Prelude.{◌≡◌, Bool, true, false, List, [], ◌∷◌, ◌++◌, contains, if◌then◌else◌}
use maplib.Algebra.{Expression, GraphPattern, Variable}
use maplib.Variables.{find_all_used_variables_in_expression}

abbrev pub Extends : Type 0
Extends = List (Expression × Variable)

-- the loop of `terminating_lift_extend`: puts the extends back on top of the pattern
unfoldable pub put_back : GraphPattern × Extends → GraphPattern
put_back (gp, []) = gp
put_back (gp, ((expression, variable) ∷ extends)) =
    put_back (GraphPattern.extend gp variable expression, extends)

-- the loop of the `Filter` arm: an extend whose variable the filter uses goes below the filter
unfoldable pub split_extends :
    List Variable → GraphPattern → Extends → Extends → GraphPattern × Extends
split_extends expr_vars inner [] keep_extends = (inner, keep_extends)
split_extends expr_vars inner ((expression, variable) ∷ extends) keep_extends =
    let applied =
      split_extends expr_vars (GraphPattern.extend inner variable expression) extends
        keep_extends in
    let kept =
      split_extends expr_vars inner extends (keep_extends ++ (expression, variable) ∷ []) in
    if contains expr_vars variable then applied else kept

unfoldable pub lift_filter : Expression → GraphPattern × Extends → GraphPattern × Extends
unfolding split_extends
lift_filter expr (inner, extends) =
    let expr_vars = find_all_used_variables_in_expression expr [] true true in
    let (inner', keep_extends) = split_extends expr_vars inner extends [] in
    (GraphPattern.filter expr inner', keep_extends)

-- `put_back (rewrite_lift_extend inner)` is the source's `terminating_lift_extend(*inner)`.
unfoldable pub rewrite_lift_extend : GraphPattern → GraphPattern × Extends
unfolding put_back lift_filter
rewrite_lift_extend (GraphPattern.bgp patterns) = (GraphPattern.bgp patterns, [])
rewrite_lift_extend (GraphPattern.path subject path object) =
    (GraphPattern.path subject path object, [])
rewrite_lift_extend (GraphPattern.join left right) =
    let (left', left_extends) = rewrite_lift_extend left in
    let (right', right_extends) = rewrite_lift_extend right in
    (GraphPattern.join left' right', left_extends ++ right_extends)
rewrite_lift_extend (GraphPattern.left_join left right expression) =
    let (left', left_extends) = rewrite_lift_extend left in
    (GraphPattern.left_join left' (put_back (rewrite_lift_extend right)) expression, left_extends)
rewrite_lift_extend (GraphPattern.filter expr inner) = lift_filter expr (rewrite_lift_extend inner)
rewrite_lift_extend (GraphPattern.union left right) = (
  GraphPattern.union (put_back (rewrite_lift_extend left)) (put_back (rewrite_lift_extend right)),
  [],
)
rewrite_lift_extend (GraphPattern.graph name inner) =
    let (inner', extends) = rewrite_lift_extend inner in (GraphPattern.graph name inner', extends)
rewrite_lift_extend (GraphPattern.extend inner variable expression) =
    (GraphPattern.extend (put_back (rewrite_lift_extend inner)) variable expression, [])
rewrite_lift_extend (GraphPattern.minus left right) = (
  GraphPattern.minus (put_back (rewrite_lift_extend left)) (put_back (rewrite_lift_extend right)),
  [],
)
rewrite_lift_extend (GraphPattern.values variables bindings) =
    (GraphPattern.values variables bindings, [])
rewrite_lift_extend (GraphPattern.pvalues variables bindings_parameter) =
    (GraphPattern.pvalues variables bindings_parameter, [])
rewrite_lift_extend (GraphPattern.order_by inner expression) =
    (GraphPattern.order_by (put_back (rewrite_lift_extend inner)) expression, [])
rewrite_lift_extend (GraphPattern.project inner variables) =
    (GraphPattern.project (put_back (rewrite_lift_extend inner)) variables, [])
rewrite_lift_extend (GraphPattern.distinct inner) =
    (GraphPattern.distinct (put_back (rewrite_lift_extend inner)), [])
rewrite_lift_extend (GraphPattern.reduced inner) =
    (GraphPattern.reduced (put_back (rewrite_lift_extend inner)), [])
rewrite_lift_extend (GraphPattern.slice inner start len) =
    (GraphPattern.slice (put_back (rewrite_lift_extend inner)) start len, [])
rewrite_lift_extend (GraphPattern.group inner variables aggregates) =
    (GraphPattern.group (put_back (rewrite_lift_extend inner)) variables aggregates, [])
rewrite_lift_extend (GraphPattern.service name inner silent) =
    (GraphPattern.service name inner silent, [])

unfoldable pub terminating_lift_extend : GraphPattern → GraphPattern
unfolding rewrite_lift_extend
terminating_lift_extend gp = put_back (rewrite_lift_extend gp)
