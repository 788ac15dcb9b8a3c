-- ===== src/Examples/Contexts.antt =====
-- Places in a query: the pattern and the expression of a filter, and places on one path.
use maplib.Prelude.{◌≡◌, refl, ℕ, true, false, String, [], ◌∷◌, Each, ◌⊎◌, ◌↔◌}
use maplib.QueryContext.{
  PathEntry, PathEntry-discrete, Context, exposes_variables, in_scope,
  maintains_full_downward_scope,
}
use maplib.QueryContext.Scope.{in_scope_asymmetric, in_scope_diverging}

abbrev inner : Context
inner = record {
  string_rep = "DistinctInner-FilterInner-BGP";
  path = PathEntry.distinct_inner ∷ PathEntry.filter_inner ∷ PathEntry.bgp ∷ [];
}

abbrev condition : Context
condition = record {
  string_rep = "DistinctInner-FilterExpression";
  path = PathEntry.distinct_inner ∷ PathEntry.filter_expression ∷ [];
}

abbrev query : Context
query = record { string_rep = "DistinctInner"; path = PathEntry.distinct_inner ∷ [] }

in_scope_diverging_example : (in_scope inner condition false ≡ true) ↔ (
    Each (λ e. exposes_variables e ≡ true) (PathEntry.filter_inner ∷ PathEntry.bgp ∷ [])
    × ((false ≡ true)
        ⊎ Each (λ e. maintains_full_downward_scope e ≡ true) (PathEntry.filter_expression ∷ [])))
in_scope_diverging_example =
    in_scope_diverging inner condition false (PathEntry.distinct_inner ∷ []) (PathEntry.bgp ∷ []) []
      PathEntry.filter_inner PathEntry.filter_expression refl refl (λ e. cc)

in_scope_asymmetric_example : in_scope condition inner true ≡ false
unfolding in_scope exposes_variables maintains_full_downward_scope PathEntry-discrete
in_scope_asymmetric_example =
    in_scope_asymmetric inner condition (PathEntry.distinct_inner ∷ []) (PathEntry.bgp ∷ []) []
      PathEntry.filter_inner PathEntry.filter_expression refl refl (λ e. cc) refl

abbrev digit : ℕ → String
digit n = "0"
