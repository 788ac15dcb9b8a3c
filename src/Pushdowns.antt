-- ===== src/Pushdowns.antt =====
-- lib/query_processing/src/pushdowns.rs: what a filter or a pattern says of the values and the types
-- of variables, to be used where the variables are bound.
mod Terms
pub mod Bound
pub mod Sound
pub mod Conflict
pub mod Resources
pub mod Scope
pub mod Patterns
pub mod Complete
use maplib.Prelude.{
  ℕ, Bool, true, false, Option, none, some, String, List, [], ◌∷◌, if◌then◌else◌, contains as mem,
}
use maplib.Prelude.Maps.{get, put, remove, extend}
use maplib.Algebra.{
  Expression, Expressions, Function, NamedNodePattern, Term, TermPattern, TriplePattern, Variable,
}
use maplib.TypeConstraints.{
  ConstraintBaseRdfNodeType, ConstraintExpr, PossibleTypes, and_ctr, or_other, singular,
  singular_ctr, conjunction_variable_type, equal_variable_type,
}
use maplib.Vocabulary.Rdfs
unfoldable pub use Terms.{term_eq, has, add_term, extend_terms, intersect_terms}
pub use Terms.{
  has-add_term_self, has-add_term, has-extend_left, has-extend_right, has-intersect, term_eq-eq,
}

abbrev pub Values : Type 0
Values = List (String × List Term)

abbrev pub Types : Type 0
Types = List (String × PossibleTypes)

pub record Pushdowns : Type 0 where
  pub variables_values : Values
  pub variables_type_constraints : Types

unfoldable pub new : Pushdowns
new = record { variables_values = []; variables_type_constraints = [] }

unfoldable pub remove_variable : Pushdowns → Variable → Pushdowns
remove_variable self v = record {
  variables_values = remove v self.variables_values;
  variables_type_constraints = remove v self.variables_type_constraints;
}

-- the loop of `conjunction` over the drained left map
unfoldable pub conjunction_loop : Values → Values → Values → Values
conjunction_loop [] right new_map = extend new_map right
conjunction_loop ((k, v) ∷ left) right new_map = elim (get k right) [
  | some vr ↦ conjunction_loop left (remove k right) (put k (intersect_terms v vr) new_map)
  | none ↦ conjunction_loop left right (put k v new_map)
]

unfoldable pub conjunction : Values → Values → Values
unfolding conjunction_loop
conjunction left right = conjunction_loop left right []

-- the loop of the `If` and `Or` arms: variables that both sides know, with the values of both
unfoldable pub disjunction_loop : Values → Values → Values → Values
disjunction_loop [] right new_map = new_map
disjunction_loop ((k, v) ∷ left) right new_map = elim (get k right) [
  | some vr ↦ disjunction_loop left (remove k right) (put k (extend_terms v vr) new_map)
  | none ↦ disjunction_loop left right new_map
]

-- `if let (Some(left), Some(right)) = (left, right) { … } else { None }`
unfoldable pub if_both {ℓ} : {A : Type ℓ} → (A → A → A) → Option A → Option A → Option A
if_both join (some left) (some right) = some (join left right)
if_both join left right = none

-- the term of a constant expression
unfoldable pub constant_term : Expression → Option Term
constant_term (Expression.named_node n) = some (Term.named_node n)
constant_term (Expression.literal l) = some (Term.literal l)
constant_term e = none

unfoldable pub single_value : Variable → Option Term → Option Values
single_value v (some t) = some ((v, add_term t []) ∷ [])
single_value v none = none

-- the `Equal` arm
unfoldable pub equal_pushdown : Expression → Expression → Option Values
unfolding single_value constant_term
equal_pushdown (Expression.variable left) right = single_value left (constant_term right)
equal_pushdown left (Expression.variable right) = single_value right (constant_term left)
equal_pushdown left right = none

-- the loop of the `In` arm
unfoldable pub collect_terms : Expressions → List Term → Option (List Term)
unfolding constant_term
collect_terms Expressions.nil terms = some terms
collect_terms (Expressions.cons e es) terms = elim (constant_term e) [
  | some t ↦ collect_terms es (add_term t terms)
  | none ↦ none
]

unfoldable pub in_pushdown : Expression → Expressions → Option Values
unfolding collect_terms
in_pushdown (Expression.variable v) values = elim (collect_terms values []) [
  | some terms ↦ some ((v, terms) ∷ [])
  | none ↦ none
]
in_pushdown e values = none

unfoldable pub find_variable_pushdowns : Expression → Option Values
unfolding if_both disjunction_loop conjunction equal_pushdown in_pushdown
find_variable_pushdowns (Expression.if_else c left right) =
    if_both (λ l r. disjunction_loop l r []) (find_variable_pushdowns left)
      (find_variable_pushdowns right)
find_variable_pushdowns (Expression.or left right) =
    if_both (λ l r. disjunction_loop l r []) (find_variable_pushdowns left)
      (find_variable_pushdowns right)
find_variable_pushdowns (Expression.and left right) =
    if_both conjunction (find_variable_pushdowns left) (find_variable_pushdowns right)
find_variable_pushdowns (Expression.equal left right) = equal_pushdown left right
find_variable_pushdowns (Expression.is_in v values) = in_pushdown v values
find_variable_pushdowns e = none

unfoldable pub disjunction_types_loop : Types → Types → Types → Types
disjunction_types_loop [] right new_map = new_map
disjunction_types_loop ((k, v) ∷ left) right new_map = elim (get k right) [
  | some vr ↦ disjunction_types_loop left (remove k right) (put k (or_other v vr) new_map)
  | none ↦ disjunction_types_loop left right new_map
]

unfoldable pub single_type :
    Option (Variable × ConstraintBaseRdfNodeType) → Option Types → Option Types
single_type (some (v, t)) other = some ((v, singular t) ∷ [])
single_type none other = other

-- the `FunctionCall` arm: `isIRI(?v)`, `isBLANK(?v)`, `isLITERAL(?v)` with one argument
unfoldable pub function_type_constraints : Function → Expressions → Option Types
function_type_constraints Function.is_iri
      (Expressions.cons (Expression.variable v) Expressions.nil) =
    some ((v, singular ConstraintBaseRdfNodeType.iri) ∷ [])
function_type_constraints Function.is_blank
      (Expressions.cons (Expression.variable v) Expressions.nil) =
    some ((v, singular ConstraintBaseRdfNodeType.blank_node) ∷ [])
function_type_constraints Function.is_literal
      (Expressions.cons (Expression.variable v) Expressions.nil) =
    some ((v, singular (ConstraintBaseRdfNodeType.literal Rdfs.literal)) ∷ [])
function_type_constraints f args = none

unfoldable pub find_variable_type_constraints : Expression → Option Types
unfolding if_both disjunction_types_loop single_type function_type_constraints
find_variable_type_constraints (Expression.if_else c left right) =
    if_both (λ l r. disjunction_types_loop l r []) (find_variable_type_constraints left)
      (find_variable_type_constraints right)
find_variable_type_constraints (Expression.or left right) =
    if_both (λ l r. disjunction_types_loop l r []) (find_variable_type_constraints left)
      (find_variable_type_constraints right)
find_variable_type_constraints (Expression.and left right) =
    if_both conjunction_variable_type (find_variable_type_constraints left)
      (find_variable_type_constraints right)
find_variable_type_constraints (Expression.equal left right) =
    single_type (equal_variable_type left right) (single_type (equal_variable_type right left) none)
find_variable_type_constraints (Expression.function_call f args) = function_type_constraints f args
find_variable_type_constraints e = none

-- removes the keys that `only_vars` contains, as the code does
unfoldable pub remove_listed {ℓ} :
    {V : Type ℓ} → List Variable → List (String × V) → List (String × V)
remove_listed only_vars [] = []
remove_listed only_vars ((k, v) ∷ m) =
    let rest = remove_listed only_vars m in if mem only_vars k then rest else (k, v) ∷ rest

unfoldable pub limit_found {ℓ} :
    {V : Type ℓ} → Option (List Variable) → List (String × V) → List (String × V)
unfolding remove_listed
limit_found (some only_vars) found = remove_listed only_vars found
limit_found none found = found

unfoldable pub add_filter_variable_pushdowns :
    Pushdowns → Expression → Option (List Variable) → Pushdowns
unfolding limit_found
add_filter_variable_pushdowns self e only_vars = record {
  variables_values = elim (find_variable_pushdowns e) [
    | some found ↦ conjunction self.variables_values (limit_found only_vars found)
    | none ↦ self.variables_values
  ];
  variables_type_constraints = elim (find_variable_type_constraints e) [
    | some found ↦
        conjunction_variable_type self.variables_type_constraints (limit_found only_vars found)
    | none ↦ self.variables_type_constraints
  ];
}

-- the loop of `limit_to_variables` over one of the maps: an entry is moved when its name comes up
unfoldable pub move_entries {ℓ} :
    {V : Type ℓ} → List Variable → List (String × V) → List (String × V) → List (String × V)
move_entries [] old moved = moved
move_entries (v ∷ variables) old moved = elim (get v old) [
  | some x ↦ move_entries variables (remove v old) (put v x moved)
  | none ↦ move_entries variables old moved
]

unfoldable pub limit_to_variables : Pushdowns → List Variable → Pushdowns
unfolding move_entries
limit_to_variables self variables = record {
  variables_values = move_entries variables self.variables_values [];
  variables_type_constraints = move_entries variables self.variables_type_constraints [];
}

unfoldable pub iri_or_blanknode : ConstraintExpr
iri_or_blanknode =
    ConstraintExpr.or (ConstraintExpr.constraint ConstraintBaseRdfNodeType.iri)
      (ConstraintExpr.constraint ConstraintBaseRdfNodeType.blank_node)

unfoldable pub iri_or_blanknode_constraint : Pushdowns → Variable → Pushdowns
unfolding iri_or_blanknode
iri_or_blanknode_constraint self v = record self {
  variables_type_constraints = elim (get v self.variables_type_constraints) [
    | some found ↦ put v (and_ctr found iri_or_blanknode) self.variables_type_constraints
    | none ↦ put v (singular_ctr iri_or_blanknode) self.variables_type_constraints
  ];
}

unfoldable pub constrain_subject : Pushdowns → TermPattern → Pushdowns
constrain_subject self (TermPattern.variable v) = iri_or_blanknode_constraint self v
constrain_subject self t = self

unfoldable pub constrain_predicate : Pushdowns → NamedNodePattern → Pushdowns
constrain_predicate self (NamedNodePattern.variable v) = iri_or_blanknode_constraint self v
constrain_predicate self (NamedNodePattern.named_node n) = self

unfoldable pub add_patterns_pushdowns : Pushdowns → List TriplePattern → Pushdowns
unfolding constrain_subject constrain_predicate
add_patterns_pushdowns self [] = self
add_patterns_pushdowns self (p ∷ patterns) =
    add_patterns_pushdowns (constrain_predicate (constrain_subject self p.subject) p.predicate)
      patterns
