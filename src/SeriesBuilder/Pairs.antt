-- ===== src/SeriesBuilder/Pairs.antt =====
-- `PredMap` and `ensure_pair`: the columns of the subjects and the objects, by predicate, type of
-- the subjects and type of the objects.
use maplib.Prelude.{
  String, Bool, true, false, List, [], ◌∷◌, Option, none, some, if◌then◌else◌, ◌==◌,
}
use maplib.Prelude.Maps.{get, put, contains_key}
use maplib.Prelude.Outcomes.{Outcome, done, panicked, ◌>>=◌}
use maplib.NodeTypes.{BaseRdfNodeType}
use maplib.SeriesBuilder.{SeriesBuilder, new}

-- `a == b`
unfoldable pub same_type : BaseRdfNodeType → BaseRdfNodeType → Bool
same_type BaseRdfNodeType.iri BaseRdfNodeType.iri = true
same_type BaseRdfNodeType.blank_node BaseRdfNodeType.blank_node = true
same_type (BaseRdfNodeType.literal l) (BaseRdfNodeType.literal k) = l == k
same_type BaseRdfNodeType.no_type BaseRdfNodeType.no_type = true
same_type a b = false

-- `HashMap<BaseRDFNodeType, V>`
module _ {V : Type 0} where
  unfoldable pub get_by : BaseRdfNodeType → List (BaseRdfNodeType × V) → Option V
  unfolding same_type
  get_by k [] = none
  get_by k ((j, v) ∷ m) = if same_type j k then some v else get_by k m

  unfoldable pub contains_by : BaseRdfNodeType → List (BaseRdfNodeType × V) → Bool
  unfolding same_type
  contains_by k [] = false
  contains_by k ((j, v) ∷ m) = if same_type j k then true else contains_by k m

  unfoldable pub put_by :
      BaseRdfNodeType → V → List (BaseRdfNodeType × V) → List (BaseRdfNodeType × V)
  unfolding same_type
  put_by k v [] = (k, v) ∷ []
  put_by k v ((j, w) ∷ m) = if same_type j k then (k, v) ∷ m else (j, w) ∷ put_by k v m

-- `option.unwrap()`
unfoldable pub unwrap : {A : Type 0} → Option A → Outcome A
unwrap none = panicked
unwrap (some a) = done a

abbrev pub SubjectObjectBuilders : Type 0 → Type 0
SubjectObjectBuilders V = SeriesBuilder V × SeriesBuilder V

abbrev pub ByObjectType : Type 0 → Type 0
ByObjectType V = List (BaseRdfNodeType × SubjectObjectBuilders V)

abbrev pub BySubjectType : Type 0 → Type 0
BySubjectType V = List (BaseRdfNodeType × ByObjectType V)

abbrev pub PredMap : Type 0 → Type 0
PredMap V = List (String × BySubjectType V)

module _ {V : Type 0} where
  -- `(SeriesBuilder::new(subject_dt), SeriesBuilder::new(object_dt))`
  unfoldable pub new_pair : BaseRdfNodeType → BaseRdfNodeType → Outcome (SubjectObjectBuilders V)
  unfolding new
  new_pair subject_dt object_dt = do
    subjects ← new subject_dt
    objects ← new object_dt
    done (subjects, objects)

  -- `if !bot.contains_key(object_dt) { bot.insert(…) }`
  unfoldable pub ensure_builders :
      BaseRdfNodeType → BaseRdfNodeType → ByObjectType V → Outcome (ByObjectType V)
  unfolding contains_by new_pair put_by
  ensure_builders subject_dt object_dt bot =
      if contains_by object_dt bot
      then done bot
      else (new_pair subject_dt object_dt >>= λ pair. done (put_by object_dt pair bot))

  -- `ensure_pair`, and what is then done through the reference that it returns
  unfoldable pub with_pair :
      String
      → BaseRdfNodeType
      → BaseRdfNodeType
      → (SubjectObjectBuilders V → Outcome (SubjectObjectBuilders V))
      → PredMap V
      → Outcome (PredMap V)
  unfolding contains_key get put contains_by get_by put_by unwrap ensure_builders
  with_pair predicate subject_dt object_dt change pred_map =
      let ensured =
        if contains_key predicate pred_map then pred_map else put predicate [] pred_map in
      do
        bst ← unwrap (get predicate ensured)
        let extended = if contains_by subject_dt bst then bst else put_by subject_dt [] bst
        bot ← unwrap (get_by subject_dt extended)
        filled ← ensure_builders subject_dt object_dt bot
        pair ← unwrap (get_by object_dt filled)
        changed ← change pair
        done (put predicate (put_by subject_dt (put_by object_dt changed filled) extended) ensured)
