-- ===== src/Examples/Passes.antt =====
-- A query whose filter reads a variable as a string twice, and the order of three patterns.
use Prim.Native.String
use Prim.Native.String.{count}
use Prim.Native.String.count as counted
use maplib.Prelude.{◌≡◌, ℕ, zero, suc, false, List, [], ◌∷◌, Perm, some, none, String}
use maplib.Algebra.{
  BlankNode, Expression, Expressions, Function, GraphPattern, NamedNodePattern, TermPattern,
  TriplePattern, Variable,
}
use maplib.Variables.{find_all_used_variables_in_graph_pattern}
use maplib.Rewrite.Passes.{Query}
use maplib.Pushdowns.{new}
use maplib.TriplesOrdering.{known_names, order_triple_patterns, strictly_before}
use maplib.TriplesOrdering.Cost.{cost, strictly_before-compare}
use maplib.TriplesOrdering.Greedy.{IsGreedy, order_triple_patterns-IsGreedy}
use Prim.Native.Nat.{compare}

abbrev used : GraphPattern → List Variable
used gp = find_all_used_variables_in_graph_pattern gp [] false false

-- "uu", "uuu" and so on
abbrev name : ℕ → String
name zero = "uu"
name (suc n) = String.◌∷◌ "u" (name n)

abbrev argument : Expressions
argument = Expressions.cons (Expression.variable "o") Expressions.nil

-- STRLEN(?o) > UCASE(?o)
abbrev twice : Expression
twice =
    Expression.greater (Expression.function_call Function.str_len argument)
      (Expression.function_call Function.ucase argument)

-- `?s <name> ?o`
abbrev by_name : TriplePattern
by_name = record {
  subject = TermPattern.variable "s";
  predicate = NamedNodePattern.named_node "name";
  object = TermPattern.variable "o";
}

-- `?s ?p _:b`
abbrev by_variable : TriplePattern
by_variable = record {
  subject = TermPattern.variable "s";
  predicate = NamedNodePattern.variable "p";
  object = TermPattern.blank_node "b";
}

abbrev asked : Query
asked =
    Query.ask none
      (GraphPattern.filter twice (GraphPattern.bgp (by_name ∷ by_variable ∷ by_name ∷ []))) none

abbrev shown : BlankNode → String
shown b = String.◌++◌ "_:" b

strictly_before-compare_example :
    strictly_before shown by_name by_variable ("o" ∷ []) []
    ≡ compare (cost shown by_name ("o" ∷ []) []) (cost shown by_variable ("o" ∷ []) [])
strictly_before-compare_example = strictly_before-compare shown by_name by_variable ("o" ∷ []) []

order_triple_patterns-IsGreedy_example :
    (ordering : List TriplePattern) × (order_triple_patterns shown
        (by_variable ∷ by_name ∷ by_variable ∷ [])
        (some ("o" ∷ []))
        new
      ≡ some ordering)
    × Perm ordering (by_variable ∷ by_name ∷ by_variable ∷ [])
    × IsGreedy shown new.variables_values (known_names (some ("o" ∷ []))) ordering
order_triple_patterns-IsGreedy_example =
    order_triple_patterns-IsGreedy shown (by_variable ∷ by_name ∷ by_variable ∷ [])
      (some ("o" ∷ [])) new
