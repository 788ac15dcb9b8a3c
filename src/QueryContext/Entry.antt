-- ===== src/QueryContext/Entry.antt =====
-- The steps of a path into a query: `PathEntry` of lib/representation/src/query_context.rs.
use maplib.Prelude.{ℕ, Bool, true, false, String, concat, [], ◌∷◌}
use native.Mathlib.Decide.{ℕ_discrete}

pub data PathEntry : Type 0 where
  bgp union_left_side union_right_side join_left_side join_right_side : PathEntry
  left_join_left_side left_join_right_side left_join_expression minus_left_side : PathEntry
  minus_right_side filter_inner filter_expression graph_inner extend_inner : PathEntry
  extend_expression order_by_inner project_inner distinct_inner reduced_inner : PathEntry
  slice_inner service_inner group_inner if_left if_middle if_right or_left or_right : PathEntry
  path_rewrite and_left and_right equal_left equal_right same_term_left : PathEntry
  same_term_right greater_left greater_right greater_or_equal_left : PathEntry
  greater_or_equal_right less_left less_right less_or_equal_left less_or_equal_right : PathEntry
  in_left multiply_left multiply_right add_left add_right subtract_left : PathEntry
  subtract_right divide_left divide_right unary_plus unary_minus not exists : PathEntry
  aggregation_operation ordering_operation : PathEntry
  order_by_expression group_aggregation in_right coalesce function_call : ℕ → PathEntry

-- `#[derive(PartialEq)]`
unfoldable pub PathEntry-discrete : Discrete PathEntry
PathEntry-discrete = hlevel ℕ_discrete

-- `fmt::Display`, where `show_u16` is the standard library's decimal form of a number.
unfoldable pub display : (ℕ → String) → PathEntry → String
display show_u16 PathEntry.bgp = "BGP"
display show_u16 PathEntry.union_left_side = "UnionLeftSide"
display show_u16 PathEntry.union_right_side = "UnionRightSide"
display show_u16 PathEntry.join_left_side = "JoinLeftSide"
display show_u16 PathEntry.join_right_side = "JoinRightSide"
display show_u16 PathEntry.left_join_left_side = "LeftJoinLeftSide"
display show_u16 PathEntry.left_join_right_side = "LeftJoinRightSide"
display show_u16 PathEntry.left_join_expression = "LeftJoinExpression"
display show_u16 PathEntry.minus_left_side = "MinusLeftSide"
display show_u16 PathEntry.minus_right_side = "MinusRightSide"
display show_u16 PathEntry.filter_inner = "FilterInner"
display show_u16 PathEntry.filter_expression = "FilterExpression"
display show_u16 PathEntry.graph_inner = "GraphInner"
display show_u16 PathEntry.extend_inner = "ExtendInner"
display show_u16 PathEntry.extend_expression = "ExtendExpression"
display show_u16 PathEntry.order_by_inner = "OrderByInner"
display show_u16 (PathEntry.order_by_expression i) =
    concat ("OrderByExpression(" ∷ show_u16 i ∷ ")" ∷ [])
display show_u16 PathEntry.project_inner = "ProjectInner"
display show_u16 PathEntry.distinct_inner = "DistinctInner"
display show_u16 PathEntry.reduced_inner = "ReducedInner"
display show_u16 PathEntry.slice_inner = "SliceInner"
display show_u16 PathEntry.service_inner = "ServiceInner"
display show_u16 PathEntry.group_inner = "GroupInner"
display show_u16 (PathEntry.group_aggregation i) =
    concat ("GroupAggregation(" ∷ show_u16 i ∷ ")" ∷ [])
display show_u16 PathEntry.if_left = "IfLeft"
display show_u16 PathEntry.if_middle = "IfMiddle"
display show_u16 PathEntry.if_right = "IfRight"
display show_u16 PathEntry.or_left = "OrLeft"
display show_u16 PathEntry.or_right = "OrRight"
display show_u16 PathEntry.path_rewrite = "PathRewrite"
display show_u16 PathEntry.and_left = "AndLeft"
display show_u16 PathEntry.and_right = "AndRight"
display show_u16 PathEntry.equal_left = "EqualLeft"
display show_u16 PathEntry.equal_right = "EqualRight"
display show_u16 PathEntry.same_term_left = "SameTermLeft"
display show_u16 PathEntry.same_term_right = "SameTermRight"
display show_u16 PathEntry.greater_left = "GreaterLeft"
display show_u16 PathEntry.greater_right = "GreaterRight"
display show_u16 PathEntry.greater_or_equal_left = "GreaterOrEqualLeft"
display show_u16 PathEntry.greater_or_equal_right = "GreaterOrEqualRight"
display show_u16 PathEntry.less_left = "LessLeft"
display show_u16 PathEntry.less_right = "LessRight"
display show_u16 PathEntry.less_or_equal_left = "LessOrEqualLeft"
display show_u16 PathEntry.less_or_equal_right = "LessOrEqualRight"
display show_u16 PathEntry.in_left = "InLeft"
display show_u16 (PathEntry.in_right i) = concat ("InRight(" ∷ show_u16 i ∷ ")" ∷ [])
display show_u16 PathEntry.multiply_left = "MultiplyLeft"
display show_u16 PathEntry.multiply_right = "MultiplyRight"
display show_u16 PathEntry.add_left = "AddLeft"
display show_u16 PathEntry.add_right = "AddRight"
display show_u16 PathEntry.subtract_left = "SubtractLeft"
display show_u16 PathEntry.subtract_right = "SubtractRight"
display show_u16 PathEntry.divide_left = "DivideLeft"
display show_u16 PathEntry.divide_right = "DivideRight"
display show_u16 PathEntry.unary_plus = "UnaryPlus"
display show_u16 PathEntry.unary_minus = "UnaryMinus"
display show_u16 PathEntry.not = "Not"
display show_u16 PathEntry.exists = "Exists"
display show_u16 (PathEntry.coalesce i) = concat ("Coalesce(" ∷ show_u16 i ∷ ")" ∷ [])
display show_u16 (PathEntry.function_call i) = concat ("FunctionCall(" ∷ show_u16 i ∷ ")" ∷ [])
display show_u16 PathEntry.aggregation_operation = "AggregationOperation"
display show_u16 PathEntry.ordering_operation = "OrderingOperation"

unfoldable pub exposes_variables : PathEntry → Bool
exposes_variables PathEntry.bgp = true
exposes_variables PathEntry.union_left_side = true
exposes_variables PathEntry.union_right_side = true
exposes_variables PathEntry.join_left_side = true
exposes_variables PathEntry.join_right_side = true
exposes_variables PathEntry.left_join_left_side = true
exposes_variables PathEntry.left_join_right_side = true
exposes_variables PathEntry.left_join_expression = false
exposes_variables PathEntry.minus_left_side = true
exposes_variables PathEntry.minus_right_side = false
exposes_variables PathEntry.filter_inner = true
exposes_variables PathEntry.filter_expression = false
exposes_variables PathEntry.graph_inner = true
exposes_variables PathEntry.extend_inner = true
exposes_variables PathEntry.extend_expression = false
exposes_variables PathEntry.order_by_inner = true
exposes_variables (PathEntry.order_by_expression i) = false
exposes_variables PathEntry.project_inner = true
exposes_variables PathEntry.distinct_inner = true
exposes_variables PathEntry.reduced_inner = true
exposes_variables PathEntry.slice_inner = true
exposes_variables PathEntry.service_inner = true
exposes_variables PathEntry.group_inner = true
exposes_variables (PathEntry.group_aggregation i) = false
exposes_variables PathEntry.if_left = false
exposes_variables PathEntry.if_middle = false
exposes_variables PathEntry.if_right = false
exposes_variables PathEntry.or_left = false
exposes_variables PathEntry.or_right = false
exposes_variables PathEntry.path_rewrite = false
exposes_variables PathEntry.and_left = false
exposes_variables PathEntry.and_right = false
exposes_variables PathEntry.equal_left = false
exposes_variables PathEntry.equal_right = false
exposes_variables PathEntry.same_term_left = false
exposes_variables PathEntry.same_term_right = false
exposes_variables PathEntry.greater_left = false
exposes_variables PathEntry.greater_right = false
exposes_variables PathEntry.greater_or_equal_left = false
exposes_variables PathEntry.greater_or_equal_right = false
exposes_variables PathEntry.less_left = false
exposes_variables PathEntry.less_right = false
exposes_variables PathEntry.less_or_equal_left = false
exposes_variables PathEntry.less_or_equal_right = false
exposes_variables PathEntry.in_left = false
exposes_variables (PathEntry.in_right i) = false
exposes_variables PathEntry.multiply_left = false
exposes_variables PathEntry.multiply_right = false
exposes_variables PathEntry.add_left = false
exposes_variables PathEntry.add_right = false
exposes_variables PathEntry.subtract_left = false
exposes_variables PathEntry.subtract_right = false
exposes_variables PathEntry.divide_left = false
exposes_variables PathEntry.divide_right = false
exposes_variables PathEntry.unary_plus = false
exposes_variables PathEntry.unary_minus = false
exposes_variables PathEntry.not = false
exposes_variables PathEntry.exists = false
exposes_variables (PathEntry.coalesce i) = false
exposes_variables (PathEntry.function_call i) = false
exposes_variables PathEntry.aggregation_operation = false
exposes_variables PathEntry.ordering_operation = false

unfoldable pub maintains_full_downward_scope : PathEntry → Bool
maintains_full_downward_scope PathEntry.bgp = false
maintains_full_downward_scope PathEntry.union_left_side = false
maintains_full_downward_scope PathEntry.union_right_side = false
maintains_full_downward_scope PathEntry.join_left_side = false
maintains_full_downward_scope PathEntry.join_right_side = false
maintains_full_downward_scope PathEntry.left_join_left_side = false
maintains_full_downward_scope PathEntry.left_join_right_side = false
maintains_full_downward_scope PathEntry.left_join_expression = false
maintains_full_downward_scope PathEntry.minus_left_side = false
maintains_full_downward_scope PathEntry.minus_right_side = false
maintains_full_downward_scope PathEntry.filter_inner = false
maintains_full_downward_scope PathEntry.filter_expression = true
maintains_full_downward_scope PathEntry.graph_inner = false
maintains_full_downward_scope PathEntry.extend_inner = false
maintains_full_downward_scope PathEntry.extend_expression = true
maintains_full_downward_scope PathEntry.order_by_inner = false
maintains_full_downward_scope (PathEntry.order_by_expression i) = true
maintains_full_downward_scope PathEntry.project_inner = false
maintains_full_downward_scope PathEntry.distinct_inner = false
maintains_full_downward_scope PathEntry.reduced_inner = false
maintains_full_downward_scope PathEntry.slice_inner = false
maintains_full_downward_scope PathEntry.service_inner = false
maintains_full_downward_scope PathEntry.group_inner = false
maintains_full_downward_scope (PathEntry.group_aggregation i) = true
maintains_full_downward_scope PathEntry.if_left = true
maintains_full_downward_scope PathEntry.if_middle = true
maintains_full_downward_scope PathEntry.if_right = true
maintains_full_downward_scope PathEntry.or_left = true
maintains_full_downward_scope PathEntry.or_right = true
maintains_full_downward_scope PathEntry.path_rewrite = false
maintains_full_downward_scope PathEntry.and_left = true
maintains_full_downward_scope PathEntry.and_right = true
maintains_full_downward_scope PathEntry.equal_left = true
maintains_full_downward_scope PathEntry.equal_right = true
maintains_full_downward_scope PathEntry.same_term_left = true
maintains_full_downward_scope PathEntry.same_term_right = true
maintains_full_downward_scope PathEntry.greater_left = true
maintains_full_downward_scope PathEntry.greater_right = true
maintains_full_downward_scope PathEntry.greater_or_equal_left = true
maintains_full_downward_scope PathEntry.greater_or_equal_right = true
maintains_full_downward_scope PathEntry.less_left = true
maintains_full_downward_scope PathEntry.less_right = true
maintains_full_downward_scope PathEntry.less_or_equal_left = true
maintains_full_downward_scope PathEntry.less_or_equal_right = true
maintains_full_downward_scope PathEntry.in_left = true
maintains_full_downward_scope (PathEntry.in_right i) = true
maintains_full_downward_scope PathEntry.multiply_left = true
maintains_full_downward_scope PathEntry.multiply_right = true
maintains_full_downward_scope PathEntry.add_left = true
maintains_full_downward_scope PathEntry.add_right = true
maintains_full_downward_scope PathEntry.subtract_left = true
maintains_full_downward_scope PathEntry.subtract_right = true
maintains_full_downward_scope PathEntry.divide_left = true
maintains_full_downward_scope PathEntry.divide_right = true
maintains_full_downward_scope PathEntry.unary_plus = true
maintains_full_downward_scope PathEntry.unary_minus = true
maintains_full_downward_scope PathEntry.not = true
maintains_full_downward_scope PathEntry.exists = true
maintains_full_downward_scope (PathEntry.coalesce i) = true
maintains_full_downward_scope (PathEntry.function_call i) = true
maintains_full_downward_scope PathEntry.aggregation_operation = true
maintains_full_downward_scope PathEntry.ordering_operation = true
