-- ===== src/Pushdowns/Patterns.antt =====
-- lib/query_processing/src/pushdowns.rs, `add_graph_pattern_pushdowns`: what the pattern around a
-- pattern says of its variables. A row of a VALUES clause that is too short is `none`, the panic.
use maplib.Prelude.{
  ℕ, ◌+◌, Bool, true, false, List, [], ◌∷◌, ◌++◌, Option, none, some, if◌then◌else◌, get_elem?,
  insert, contains,
}
use maplib.Prelude.Maps.{get, put}
use maplib.Algebra.{Expression, GraphPattern, GroundTerm, NamedNode, Term, Variable}
use maplib.TypeConstraints.{ConstraintBaseRdfNodeType, ConstraintExpr, and_ctr, singular_ctr}
use maplib.Pushdowns.{
  Pushdowns, add_filter_variable_pushdowns, add_patterns_pushdowns, add_term, extend_terms,
}

-- `gs.get(i).unwrap()` of each row
unfoldable pub column : ℕ → List (List (Option GroundTerm)) → Option (List (Option GroundTerm))
column i [] = some []
column i (gs ∷ bindings) =
    let rest = column i bindings in
    elim (get_elem? gs i) [
      | some g ↦ elim rest [ some gs' ↦ some (g ∷ gs') | none ↦ none ]
      | none ↦ none
    ]

unfoldable pub ground_as_term : GroundTerm → Term
ground_as_term (GroundTerm.named_node nn) = Term.named_node nn
ground_as_term (GroundTerm.literal l) = Term.literal l

-- the set `use_terms`
unfoldable pub column_terms : List (Option GroundTerm) → List Term
unfolding add_term ground_as_term
column_terms [] = []
column_terms (none ∷ gs) = column_terms gs
column_terms (some g ∷ gs) = add_term (ground_as_term g) (column_terms gs)

-- the set `literal_types`
unfoldable pub column_datatypes : List (Option GroundTerm) → List NamedNode
unfolding insert
column_datatypes [] = []
column_datatypes (some (GroundTerm.literal l) ∷ gs) = insert l.datatype (column_datatypes gs)
column_datatypes (g ∷ gs) = column_datatypes gs

unfoldable pub has_iri : List (Option GroundTerm) → Bool
has_iri [] = false
has_iri (some (GroundTerm.named_node nn) ∷ gs) = true
has_iri (g ∷ gs) = has_iri gs

unfoldable pub literal_constraints : List NamedNode → List ConstraintBaseRdfNodeType
literal_constraints [] = []
literal_constraints (l ∷ literal_types) =
    ConstraintBaseRdfNodeType.literal l ∷ literal_constraints literal_types

-- the vector `types`
unfoldable pub column_types : List (Option GroundTerm) → List ConstraintBaseRdfNodeType
unfolding literal_constraints column_datatypes has_iri
column_types gs =
    literal_constraints (column_datatypes gs)
    ++ (if has_iri gs then ConstraintBaseRdfNodeType.iri ∷ [] else [])

-- the fold that joins the constraints
unfoldable pub any_of : ConstraintExpr → List ConstraintBaseRdfNodeType → ConstraintExpr
any_of acc [] = acc
any_of acc (elem ∷ types) = any_of (ConstraintExpr.or acc (ConstraintExpr.constraint elem)) types

-- `if !use_terms.is_empty() { … }`
unfoldable pub add_use_terms : Pushdowns → Variable → List Term → Pushdowns
unfolding get put extend_terms
add_use_terms self v [] = self
add_use_terms self v (t ∷ use_terms) = record self {
  variables_values = elim (get v self.variables_values) [
    | some found ↦ put v (extend_terms found (t ∷ use_terms)) self.variables_values
    | none ↦ put v (t ∷ use_terms) self.variables_values
  ];
}

-- `if !types.is_empty() { … }`
unfoldable pub add_types : Pushdowns → Variable → List ConstraintBaseRdfNodeType → Pushdowns
unfolding any_of get put
add_types self v [] = self
add_types self v (init ∷ types) =
    let ctr = any_of (ConstraintExpr.constraint init) types in
    record self {
      variables_type_constraints = elim (get v self.variables_type_constraints) [
        | some found ↦ put v (and_ctr found ctr) self.variables_type_constraints
        | none ↦ put v (singular_ctr ctr) self.variables_type_constraints
      ];
    }

unfoldable pub is_wanted : Option (List Variable) → Variable → Bool
is_wanted none v = true
is_wanted (some only_vars) v = contains only_vars v

-- the loop of the `Values` arm, from the i-th variable on
unfoldable pub add_values :
    Option (List Variable)
    → List (List (Option GroundTerm))
    → ℕ
    → List Variable
    → Pushdowns
    → Option Pushdowns
unfolding column column_terms column_types add_use_terms add_types is_wanted
add_values only_vars bindings i [] self = some self
add_values only_vars bindings i (v ∷ variables) self =
    if is_wanted only_vars v
    then elim (column i bindings) [
      | some gs ↦
          add_values only_vars bindings (i + 1) variables
            (add_types (add_use_terms self v (column_terms gs)) v (column_types gs))
      | none ↦ none
    ]
    else add_values only_vars bindings (i + 1) variables self

-- the last part of the `Extend` arm
unfoldable pub copy_values : Pushdowns → Variable → Expression → Pushdowns
unfolding get put
copy_values self variable (Expression.variable expr_variable) = record self {
  variables_values = elim (get expr_variable self.variables_values) [
    | some found ↦ put variable found self.variables_values
    | none ↦ self.variables_values
  ];
}
copy_values self variable expression = self

unfoldable pub wanted_of : Option (List Variable) → List Variable → List Variable
unfolding is_wanted
wanted_of only_vars [] = []
wanted_of only_vars (v ∷ vs) =
    let rest = wanted_of only_vars vs in if is_wanted only_vars v then v ∷ rest else rest

-- `if !new_variables.is_empty() { … }` around the call for the inner pattern
unfoldable pub if_wanted : List Variable → Pushdowns → Option Pushdowns → Option Pushdowns
if_wanted [] self inner = some self
if_wanted (v ∷ new_variables) self inner = inner

unfoldable pub add_graph_pattern_pushdowns_impl :
    GraphPattern → Option (List Variable) → Pushdowns → Option Pushdowns
unfolding add_values copy_values wanted_of if_wanted
add_graph_pattern_pushdowns_impl (GraphPattern.bgp patterns) only_vars self =
    some (add_patterns_pushdowns self patterns)
add_graph_pattern_pushdowns_impl (GraphPattern.join left right) only_vars self =
    elim (add_graph_pattern_pushdowns_impl left only_vars self) [
      | some self' ↦ add_graph_pattern_pushdowns_impl right only_vars self'
      | none ↦ none
    ]
add_graph_pattern_pushdowns_impl (GraphPattern.left_join left right expression) only_vars self =
    add_graph_pattern_pushdowns_impl left only_vars self
add_graph_pattern_pushdowns_impl (GraphPattern.minus left right) only_vars self =
    add_graph_pattern_pushdowns_impl left only_vars self
add_graph_pattern_pushdowns_impl (GraphPattern.filter expr inner) only_vars self =
    elim (add_graph_pattern_pushdowns_impl inner only_vars self) [
      | some self' ↦ some (add_filter_variable_pushdowns self' expr only_vars)
      | none ↦ none
    ]
add_graph_pattern_pushdowns_impl (GraphPattern.union left right) only_vars self = some self
add_graph_pattern_pushdowns_impl (GraphPattern.extend inner variable expression) only_vars self =
    elim (add_graph_pattern_pushdowns_impl inner only_vars self) [
      | some self' ↦ some (copy_values self' variable expression)
      | none ↦ none
    ]
add_graph_pattern_pushdowns_impl (GraphPattern.values variables bindings) only_vars self =
    add_values only_vars bindings 0 variables self
add_graph_pattern_pushdowns_impl (GraphPattern.order_by inner expression) only_vars self =
    add_graph_pattern_pushdowns_impl inner only_vars self
add_graph_pattern_pushdowns_impl (GraphPattern.distinct inner) only_vars self =
    add_graph_pattern_pushdowns_impl inner only_vars self
add_graph_pattern_pushdowns_impl (GraphPattern.reduced inner) only_vars self =
    add_graph_pattern_pushdowns_impl inner only_vars self
add_graph_pattern_pushdowns_impl (GraphPattern.slice inner start len) only_vars self =
    add_graph_pattern_pushdowns_impl inner only_vars self
add_graph_pattern_pushdowns_impl (GraphPattern.group i vs aggregates) only_vars self =
    if_wanted (wanted_of only_vars vs) self
      (add_graph_pattern_pushdowns_impl i (some (wanted_of only_vars vs)) self)
add_graph_pattern_pushdowns_impl (GraphPattern.project i vs) only_vars self =
    if_wanted (wanted_of only_vars vs) self
      (add_graph_pattern_pushdowns_impl i (some (wanted_of only_vars vs)) self)
add_graph_pattern_pushdowns_impl gp only_vars self = some self

unfoldable pub add_graph_pattern_pushdowns : Pushdowns → GraphPattern → Option Pushdowns
unfolding add_graph_pattern_pushdowns_impl
add_graph_pattern_pushdowns self gp = add_graph_pattern_pushdowns_impl gp none self
