-- ===== src/Algebra.antt =====
-- The query algebra that the engine evaluates: the data types of lib/spargebra/src/algebra.rs as
-- the SPARQL rewriter matches on them. A `Vec` or an `Option` of a type of the block is a type of
-- the block too: `Expressions`, `OptionExpression`, `OrderExpressions`, `Aggregates`.
mod Terms
pub use Terms.*
use maplib.Prelude.{ℕ, String, Bool, Option, List}

mutual
  pub data Expression : Type 0 where
    named_node : NamedNode → Expression
    literal : Literal → Expression
    variable : Variable → Expression
    or and equal same_term : Expression → Expression → Expression
    greater greater_or_equal less less_or_equal : Expression → Expression → Expression
    is_in : Expression → Expressions → Expression
    add subtract multiply divide : Expression → Expression → Expression
    unary_plus unary_minus not : Expression → Expression
    exists : GraphPattern → Expression
    bound : Variable → Expression
    if_else : Expression → Expression → Expression → Expression
    coalesce : Expressions → Expression
    function_call : Function → Expressions → Expression

  pub data Expressions : Type 0 where
    nil : Expressions
    cons : Expression → Expressions → Expressions

  pub data OptionExpression : Type 0 where
    absent : OptionExpression
    present : Expression → OptionExpression

  pub data OrderExpression : Type 0 where
    asc desc : Expression → OrderExpression

  pub data OrderExpressions : Type 0 where
    no_order : OrderExpressions
    then_by : OrderExpression → OrderExpressions → OrderExpressions

  pub data AggregateExpression : Type 0 where
    count_solutions : Bool → AggregateExpression
    aggregate_call : AggregateFunction → Expression → Bool → AggregateExpression

  pub data Aggregates : Type 0 where
    no_aggregate : Aggregates
    aggregate : Variable → AggregateExpression → Aggregates → Aggregates

  pub data GraphPattern : Type 0 where
    bgp : List TriplePattern → GraphPattern
    path : TermPattern → PropertyPathExpression → TermPattern → GraphPattern
    join : GraphPattern → GraphPattern → GraphPattern
    left_join : GraphPattern → GraphPattern → OptionExpression → GraphPattern
    filter : Expression → GraphPattern → GraphPattern
    union : GraphPattern → GraphPattern → GraphPattern
    graph : NamedNodePattern → GraphPattern → GraphPattern
    extend : GraphPattern → Variable → Expression → GraphPattern
    minus : GraphPattern → GraphPattern → GraphPattern
    values : List Variable → List (List (Option GroundTerm)) → GraphPattern
    pvalues : List Variable → String → GraphPattern
    order_by : GraphPattern → OrderExpressions → GraphPattern
    project : GraphPattern → List Variable → GraphPattern
    distinct reduced : GraphPattern → GraphPattern
    slice : GraphPattern → ℕ → Option ℕ → GraphPattern
    group : GraphPattern → List Variable → Aggregates → GraphPattern
    service : NamedNodePattern → GraphPattern → Bool → GraphPattern
