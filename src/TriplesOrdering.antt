-- ===== src/TriplesOrdering.antt =====
-- lib/triplestore/src/sparql/lazy_graph_patterns/triples_ordering.rs: the order in which the triple
-- patterns of a BGP are evaluated. A panic is `none`; the solution mappings are given by the variables
-- that they have, and `show_blank` is the text of a blank node.
pub mod Cost
pub mod Equality
pub mod Greedy
use Prim.Native.Nat.{Ordering}
use maplib.Prelude.{
  ℕ, zero, suc, String, Bool, true, false, not, ◌&&◌, ◌||◌, ◌==◌, List, [], ◌∷◌, Option, none, some,
  if◌then◌else◌, contains, insert, length,
}
use maplib.Prelude.Maps.{contains_key}
use maplib.Algebra.{BlankNode, Literal, NamedNodePattern, TermPattern, TriplePattern, Variable}
use maplib.Pushdowns.{Pushdowns, Values}

-- `#[derive(PartialEq)]`
unfoldable pub language_eq : Option String → Option String → Bool
language_eq none none = true
language_eq (some s) (some t) = s == t
language_eq _ _ = false

unfoldable pub term_pattern_eq : TermPattern → TermPattern → Bool
unfolding language_eq
term_pattern_eq (TermPattern.named_node n) (TermPattern.named_node m) = n == m
term_pattern_eq (TermPattern.blank_node n) (TermPattern.blank_node m) = n == m
term_pattern_eq (TermPattern.literal l) (TermPattern.literal m) =
    (l.value == m.value) && ((l.datatype == m.datatype) && language_eq l.language m.language)
term_pattern_eq (TermPattern.variable v) (TermPattern.variable w) = v == w
term_pattern_eq _ _ = false

unfoldable pub predicate_eq : NamedNodePattern → NamedNodePattern → Bool
predicate_eq (NamedNodePattern.named_node n) (NamedNodePattern.named_node m) = n == m
predicate_eq (NamedNodePattern.variable v) (NamedNodePattern.variable w) = v == w
predicate_eq _ _ = false

unfoldable pub triple_eq : TriplePattern → TriplePattern → Bool
unfolding term_pattern_eq predicate_eq
triple_eq t u =
    term_pattern_eq t.subject u.subject
    && (predicate_eq t.predicate u.predicate && term_pattern_eq t.object u.object)

unfoldable pub term_variables : TermPattern → List Variable → List Variable
term_variables (TermPattern.variable v) vs = v ∷ vs
term_variables t vs = vs

unfoldable pub predicate_variables : NamedNodePattern → List Variable → List Variable
predicate_variables (NamedNodePattern.variable v) vs = v ∷ vs
predicate_variables p vs = vs

unfoldable pub variables : TriplePattern → List Variable
unfolding term_variables predicate_variables
variables tp =
    term_variables tp.subject (predicate_variables tp.predicate (term_variables tp.object []))

unfoldable pub term_blank_nodes : TermPattern → List BlankNode → List BlankNode
term_blank_nodes (TermPattern.blank_node b) bs = b ∷ bs
term_blank_nodes t bs = bs

unfoldable pub blank_nodes : TriplePattern → List BlankNode
unfolding term_blank_nodes
blank_nodes tp = term_blank_nodes tp.subject (term_blank_nodes tp.object [])

-- the loop that looks for a visited variable
unfoldable pub any_visited : List String → List String → Bool
any_visited [] visited = false
any_visited (v ∷ vs) visited = contains visited v || any_visited vs visited

-- the loop that inserts into the visited names
unfoldable pub insert_all : List String → List String → List String
insert_all [] visited = visited
insert_all (v ∷ vs) visited = insert_all vs (insert v visited)

-- the tests on two predicates
unfoldable pub before_by_predicate :
    NamedNodePattern → NamedNodePattern → List String → Values → Ordering
before_by_predicate (NamedNodePattern.variable v1) (NamedNodePattern.variable v2) visited values =
    if contains_key v1 values && not (contains_key v2 values)
    then Ordering.lt
    else (if not (contains_key v1 values) && contains_key v2 values
        then Ordering.gt
        else (if contains visited v1 && not (contains visited v2)
            then Ordering.lt
            else (if not (contains visited v1) && contains visited v2
                then Ordering.gt
                else Ordering.eq)))
before_by_predicate (NamedNodePattern.variable v1) (NamedNodePattern.named_node n) visited values =
    Ordering.gt
before_by_predicate (NamedNodePattern.named_node n) (NamedNodePattern.variable v2) visited values =
    Ordering.lt
before_by_predicate (NamedNodePattern.named_node n) (NamedNodePattern.named_node k) visited values =
    Ordering.eq

-- the first equal candidate, and the other candidates: `position`, `unwrap` and `remove`
unfoldable pub take_candidate :
    TriplePattern → List TriplePattern → Option (TriplePattern × List TriplePattern)
unfolding triple_eq
take_candidate tp [] = none
take_candidate tp (x ∷ candidates) =
    let later = take_candidate tp candidates in
    if triple_eq x tp
    then some (x, candidates)
    else elim later [ some (t, rest) ↦ some (t, x ∷ rest) | none ↦ none ]

-- the names that are visited at the start
unfoldable pub known_names : Option (List String) → List String
known_names none = []
known_names (some names) = names

module _ (show_blank : BlankNode → String) where
  unfoldable pub blank_names : List BlankNode → List String
  blank_names [] = []
  blank_names (b ∷ bs) = show_blank b ∷ blank_names bs

  unfoldable pub is_connected : TriplePattern → List String → Bool
  unfolding any_visited variables blank_nodes blank_names
  is_connected tp visited =
      any_visited (variables tp) visited || any_visited (blank_names (blank_nodes tp)) visited

  unfoldable pub strictly_before : TriplePattern → TriplePattern → List String → Values → Ordering
  unfolding is_connected before_by_predicate
  strictly_before t1 t2 visited variable_values =
      let t1_connected = is_connected t1 visited in
      let t2_connected = is_connected t2 visited in
      if t1_connected && not t2_connected
      then Ordering.lt
      else (if not t1_connected && t2_connected
          then Ordering.gt
          else before_by_predicate t1.predicate t2.predicate visited variable_values)

  -- `min_by`: the first of the least
  unfoldable pub min_by : TriplePattern → List TriplePattern → List String → Values → TriplePattern
  unfolding strictly_before
  min_by best [] visited variable_values = best
  min_by best (t ∷ ts) visited variable_values =
      min_by
        (elim (strictly_before best t visited variable_values) [
          | Ordering.lt ↦ best
          | Ordering.eq ↦ best
          | Ordering.gt ↦ t
        ])
        ts visited variable_values

  unfoldable pub visit : TriplePattern → List String → List String
  unfolding insert_all variables blank_nodes blank_names
  visit tp visited = insert_all (blank_names (blank_nodes tp)) (insert_all (variables tp) visited)

  -- the loop, which runs once for each candidate; `fuel` bounds the runs
  unfoldable pub order_loop :
      ℕ → List TriplePattern → List String → Values → Option (List TriplePattern)
  unfolding min_by take_candidate visit
  order_loop fuel [] visited variable_values = some []
  order_loop zero (c ∷ cs) visited variable_values = none
  order_loop (suc fuel) (c ∷ cs) visited variable_values =
      elim (take_candidate (min_by c cs visited variable_values) (c ∷ cs)) [
        | some (tp, rest) ↦ elim (order_loop fuel rest (visit tp visited) variable_values) [
          | some ordering ↦ some (tp ∷ ordering)
          | none ↦ none
        ]
        | none ↦ none
      ]

  unfoldable pub order_triple_patterns :
      List TriplePattern → Option (List String) → Pushdowns → Option (List TriplePattern)
  unfolding order_loop known_names
  order_triple_patterns tps sm pushdowns =
      order_loop (length tps) tps (known_names sm) pushdowns.variables_values
