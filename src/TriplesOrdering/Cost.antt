-- ===== src/TriplesOrdering/Cost.antt =====
-- The comparison of triple patterns as a comparison of costs.
use Prim.Native.Nat.{Ordering, compare}
use maplib.Prelude.{
  ℕ, ◌+◌, ◌<◌, ◌≡◌, refl, String, Bool, true, false, not, ◌&&◌, List, if◌then◌else◌, contains,
  arith,
}
use maplib.Prelude.Maps.{contains_key}
use maplib.Algebra.{BlankNode, NamedNodePattern, TriplePattern}
use maplib.Pushdowns.{Values}
use maplib.TriplesOrdering.{before_by_predicate, is_connected, strictly_before}

-- A named predicate costs nothing; a variable costs, and more if it has no values or is not visited.
unfoldable pub predicate_cost : NamedNodePattern → List String → Values → ℕ
predicate_cost (NamedNodePattern.named_node n) visited values = 0
predicate_cost (NamedNodePattern.variable v) visited values =
    1 + (if contains_key v values then 0 else 2) + (if contains visited v then 0 else 1)

unfoldable pub cost : (BlankNode → String) → TriplePattern → List String → Values → ℕ
unfolding predicate_cost
cost show_blank t visited values =
    (if is_connected show_blank t visited then 0 else 5) + predicate_cost t.predicate visited values

-- two variables, each with values or without, and visited or not
variables_lem :
    (a b c d : Bool)
    → (if a && not b
        then Ordering.lt
        else (if not a && b
            then Ordering.gt
            else (if c && not d
                then Ordering.lt
                else (if not c && d then Ordering.gt else Ordering.eq))))
      ≡ compare
          (1 + (if a then 0 else 2) + (if c then 0 else 1))
          (1 + (if b then 0 else 2) + (if d then 0 else 1))
variables_lem a b c d = ground arith

before_by_predicate-compare :
    (p q : NamedNodePattern) (visited : List String) (values : Values)
    → before_by_predicate p q visited values
      ≡ compare (predicate_cost p visited values) (predicate_cost q visited values)
unfolding before_by_predicate predicate_cost
before_by_predicate-compare (NamedNodePattern.variable v) (NamedNodePattern.variable w) visited
      values =
    variables_lem _ _ _ _
before_by_predicate-compare (NamedNodePattern.variable v) (NamedNodePattern.named_node n) visited
      values =
    ground arith
before_by_predicate-compare (NamedNodePattern.named_node n) (NamedNodePattern.variable w) visited
      values =
    ground arith
before_by_predicate-compare (NamedNodePattern.named_node n) (NamedNodePattern.named_node m) visited
      values =
    refl

predicate_cost_small :
    (p : NamedNodePattern) (visited : List String) (values : Values)
    → predicate_cost p visited values < 5
unfolding predicate_cost
predicate_cost_small (NamedNodePattern.variable v) visited values = ground arith
predicate_cost_small (NamedNodePattern.named_node n) visited values = omega arith

-- a connected pattern and one that may not be
connected_lem :
    (a b : Bool) (p q : ℕ) (o : Ordering)
    → o ≡ compare p q
    → p < 5
    → q < 5
    → (if a && not b then Ordering.lt else (if not a && b then Ordering.gt else o))
      ≡ compare ((if a then 0 else 5) + p) ((if b then 0 else 5) + q)
connected_lem true true p q o e h g = ground arith
connected_lem true false p q o e h g = ground arith
connected_lem false true p q o e h g = ground arith
connected_lem false false p q o e h g = ground arith

-- The comparison of two patterns is that of their costs.
pub strictly_before-compare :
    (show_blank : BlankNode → String) (t1 t2 : TriplePattern) (visited : List String)
    (values : Values)
    → strictly_before show_blank t1 t2 visited values
      ≡ compare (cost show_blank t1 visited values) (cost show_blank t2 visited values)
unfolding strictly_before cost
strictly_before-compare show_blank t1 t2 visited values =
    connected_lem _ _ _ _ _ (before_by_predicate-compare t1.predicate t2.predicate visited values)
      (predicate_cost_small t1.predicate visited values)
      (predicate_cost_small t2.predicate visited values)
