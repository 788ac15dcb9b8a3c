-- ===== src/TypeConstraints/Lost.antt =====
-- The conjunction of two maps of type constraints, variable by variable.
use maplib.Prelude.{
  ◌≡◌, refl, ◌∙◌, true, Option, none, some, String, List, [], ◌∷◌, arith, eq_iff, ◌⊎◌,
}
use maplib.Prelude.Maps.{get, put, remove, distinct, get-put, get-remove, get-extend, get_absent}
use maplib.TypeConstraints.{PossibleTypes, conjunction_types_loop, conjunction_variable_type}

-- what the loop has in the end, from what the left map, the right map and the new map have
spec : Option PossibleTypes → Option PossibleTypes → Option PossibleTypes → Option PossibleTypes
spec none none n = n
spec none (some w) n = some w
spec (some v) none n = some v
spec (some v) (some w) n = n

spec_nil : (r n : Option PossibleTypes) → elim r [ some v ↦ some v | none ↦ n ] ≡ spec none r n
unfolding spec
spec_nil none n = refl
spec_nil (some w) n = refl

loop_lem :
    (k : String) (left right new_map : List (String × PossibleTypes))
    → distinct left ≡ true
    → get k (conjunction_types_loop left right new_map)
      ≡ spec (get k left) (get k right) (get k new_map)
unfolding conjunction_types_loop get distinct spec
loop_lem k [] right new_map d = get-extend k new_map right ∙ spec_nil (get k right) (get k new_map)
loop_lem k ((j, v) ∷ left) right new_map d = ground (
  arith,
  loop_lem k left right (put j v new_map),
  loop_lem k left (remove j right) new_map,
  get-put j k v new_map,
  get-remove j k right,
  eq_iff j k,
  get_absent k left,
)

-- If the keys of the left map are distinct, the conjunction has for a variable that at most one map
-- knows the constraint of that map.
get-conjunction_variable_type :
    (k : String) (left right : List (String × PossibleTypes))
    → distinct left ≡ true
    → (get k left ≡ none) ⊎ (get k right ≡ none)
    → get k (conjunction_variable_type left right)
      ≡ elim (get k left) [ some v ↦ some v | none ↦ get k right ]
unfolding conjunction_variable_type
get-conjunction_variable_type k left right d one =
    loop_lem k left right [] d ∙ unfold spec get in ground arith

-- If the keys of the left map are distinct, a variable that both maps constrain has no constraint in
-- the conjunction.
pub conjunction_variable_type_loses :
    (k : String) (left right : List (String × PossibleTypes)) (v w : PossibleTypes)
    → distinct left ≡ true
    → get k left ≡ some v
    → get k right ≡ some w
    → get k (conjunction_variable_type left right) ≡ none
unfolding conjunction_variable_type
conjunction_variable_type_loses k left right v w d p q =
    loop_lem k left right [] d ∙ rw (p, q) (unfold spec get in refl)
