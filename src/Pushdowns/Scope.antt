-- ===== src/Pushdowns/Scope.antt =====
-- Which variables the operations on pushdowns touch.
use maplib.Prelude.{
  ◌≡◌, refl, ◌∙◌, true, Option, none, some, String, List, [], ◌∷◌, arith, if◌then◌else◌, eq_iff,
  contains as mem, contains_cons, contains_nil, Option-cases, inl, inr,
}
use maplib.Prelude.Maps.{get, put, remove, distinct, get-put, get-remove, get-extend, get_absent}
use maplib.Algebra.{Expression, Term, Variable}
use maplib.Pushdowns.{
  Values, Pushdowns, conjunction_loop, conjunction, intersect_terms, remove_listed,
  add_filter_variable_pushdowns, find_variable_pushdowns, move_entries, limit_to_variables,
}

-- what the loop has in the end, from what the left map, the right map and the new map have
abbrev spec : Option (List Term) → Option (List Term) → Option (List Term) → Option (List Term)
spec none none n = n
spec none (some w) n = some w
spec (some v) none n = some v
spec (some v) (some w) n = some (intersect_terms v w)

spec_nil : (r n : Option (List Term)) → elim r [ some v ↦ some v | none ↦ n ] ≡ spec none r n
spec_nil none n = refl
spec_nil (some w) n = refl

loop_lem :
    (k : String) (left right new_map : Values)
    → distinct left ≡ true
    → get k (conjunction_loop left right new_map) ≡ spec (get k left) (get k right) (get k new_map)
unfolding conjunction_loop get distinct
loop_lem k [] right new_map d = get-extend k new_map right ∙ spec_nil (get k right) (get k new_map)
loop_lem k ((j, v) ∷ left) right new_map d = elim (Option-cases (get j right)) [
  | inl missing ↦
      rw (missing, conjunction_loop)
        (ground (
          arith,
          loop_lem k left right (put j v new_map),
          get-put j k v new_map,
          eq_iff j k,
          get_absent k left,
        ))
  | inr (vr, found) ↦
      rw (found, conjunction_loop)
        (ground (
          arith,
          loop_lem k left (remove j right) (put j (intersect_terms v vr) new_map),
          get-put j k (intersect_terms v vr) new_map,
          get-remove j k right,
          eq_iff j k,
          get_absent k left,
        ))
]

-- the values of a variable in a conjunction of two maps
abbrev pub meet : Option (List Term) → Option (List Term) → Option (List Term)
meet none r = r
meet (some v) none = some v
meet (some v) (some w) = some (intersect_terms v w)

-- If the keys of the left map are distinct, a variable that both maps know has in the conjunction the
-- values that are in both; one that a single map knows has the values of that map.
get-conjunction :
    (k : String) (left right : Values)
    → distinct left ≡ true
    → get k (conjunction left right) ≡ meet (get k left) (get k right)
unfolding conjunction get
get-conjunction k left right d = loop_lem k left right [] d ∙ ground arith

get-remove_listed {ℓ} :
    {V : Type ℓ} (only_vars : List Variable) (k : String) (m : List (String × V))
    → get k (remove_listed only_vars m) ≡ (if mem only_vars k then none else get k m)
unfolding get remove_listed
get-remove_listed only_vars k [] = ground arith
get-remove_listed only_vars k ((j, v) ∷ m) =
    ground (arith, eq_iff j k, get-remove_listed only_vars k m)

-- Under a list of wanted variables, and if the keys of the values so far are distinct, a filter adds
-- no values for the variables of that list: what was pushed down for them before stays as it was.
pub add_filter_ignores_wanted :
    (self : Pushdowns) (e : Expression) (only_vars : List Variable) (k : Variable)
    → distinct self.variables_values ≡ true
    → mem only_vars k ≡ true
    → get k (add_filter_variable_pushdowns self e (some only_vars)).variables_values
      ≡ get k self.variables_values
unfolding add_filter_variable_pushdowns
add_filter_ignores_wanted self e only_vars k d h = elim (Option-cases (find_variable_pushdowns e)) [
  | inl missing ↦ rw (missing, add_filter_variable_pushdowns)
  | inr (found, p) ↦
      rw (p, add_filter_variable_pushdowns)
        (get-conjunction k self.variables_values (remove_listed only_vars found) d
          ∙ ground (arith, get-remove_listed only_vars k found))
]

move_lem {ℓ} :
    {V : Type ℓ} (k : String) (vs : List Variable) (old moved : List (String × V))
    → get k (move_entries vs old moved) ≡ (
        if mem vs k then elim (get k old) [ some x ↦ some x | none ↦ get k moved ] else get k moved)
unfolding move_entries
move_lem k [] old moved = rw (contains_nil k)
move_lem k (v ∷ vs) old moved = elim (Option-cases (get v old)) [
  | inl missing ↦
      rw (missing, move_entries)
        (ground (arith, move_lem k vs old moved, contains_cons v vs k, eq_iff k v))
  | inr (x, found) ↦
      rw (found, move_entries)
        (ground (
          arith,
          move_lem k vs (remove v old) (put v x moved),
          get-put v k x moved,
          get-remove v k old,
          contains_cons v vs k,
          eq_iff k v,
          eq_iff v k,
        ))
]

-- After the limitation a variable of the list has the values and the type constraint that it had
-- before, and any other variable has neither.
pub get-limit_to_variables :
    (self : Pushdowns) (variables : List Variable) (k : String)
    → (get k (limit_to_variables self variables).variables_values
        ≡ (if mem variables k then get k self.variables_values else none))
      × (get k (limit_to_variables self variables).variables_type_constraints
          ≡ (if mem variables k then get k self.variables_type_constraints else none))
unfolding limit_to_variables get
get-limit_to_variables self variables k = (
  move_lem k variables self.variables_values [] ∙ ground arith,
  move_lem k variables self.variables_type_constraints [] ∙ ground arith,
)
