-- ===== src/FacadeX/Json/Document.antt =====
-- `Triplestore::map_json` as far as its call of `add_triples_vec`: a document becomes data frames,
-- one for each property and each type of object. `None` of `uuid_namespace` takes a random one.
use maplib.Prelude.{
  ℕ, String, List, [], ◌∷◌, ◌++◌, Option, none, some, ◌>>=◌, if◌then◌else◌, nat_eq,
}
use maplib.Prelude.Maps.{put}
use maplib.Algebra.{NamedNode}
use maplib.Vocabulary.Xsd
use maplib.NodeTypes.{BaseRdfNodeType}
use maplib.FacadeX.{
  xyz_prefix_iri, fx_root, rdf_type, new_iri_subject, TriplesToAdd, use_uuid_namespace,
}
use maplib.FacadeX.Json.{Host, Value, PredMap, with_builder, process_value}
use maplib.FacadeX.Json.Tables
use maplib.FacadeX.Json.Tables.{Cell, TripleTableBuilder, new, push_iri_iri}

abbrev pub root_element_property : String
root_element_property = "urn:maplib:rootElement"

unfoldable pub type_from_u8 : ℕ → Option BaseRdfNodeType
type_from_u8 u =
    if nat_eq u Tables.boolean
    then some (BaseRdfNodeType.literal Xsd.boolean)
    else if nat_eq u Tables.integer
    then some (BaseRdfNodeType.literal Xsd.long)
    else if nat_eq u Tables.string
    then some (BaseRdfNodeType.literal Xsd.string)
    else if nat_eq u Tables.float
    then some (BaseRdfNodeType.literal Xsd.double)
    else if nat_eq u Tables.iri
    then some BaseRdfNodeType.iri
    else none

-- `data_frame` is `DataFrame::new` of two columns
module _ {I64 F64 Frame : Type 0}
    (data_frame : List String → List (Cell I64 F64) → Option Frame) where
  -- the body of `if !t.subjects.is_empty()`
  unfoldable pub triples_to_add :
      NamedNode → ℕ × ℕ → List String → List (Cell I64 F64) → Option (List (TriplesToAdd Frame))
  unfolding type_from_u8
  triples_to_add pred k [] objects = some []
  triples_to_add pred k (subject ∷ subjects) objects = do
    subject_type ← type_from_u8 k.0
    object_type ← type_from_u8 k.1
    df ← data_frame (subject ∷ subjects) objects
    some (
        record { df = df; subject_type = subject_type; object_type = object_type; predicate = pred }
        ∷ [])

  -- `for (k, t) in ttb.map`
  unfoldable pub add_tables :
      NamedNode → TripleTableBuilder I64 F64 → Option (List (TriplesToAdd Frame))
  unfolding triples_to_add
  add_tables pred [] = some []
  add_tables pred ((k, t) ∷ ttb) = do
    tta ← triples_to_add pred k t.subjects t.objects
    rest ← add_tables pred ttb
    some (tta ++ rest)

  -- `for (pred, ttb) in pred_map.into_iter()`
  unfoldable pub add_pred_map : PredMap I64 F64 → Option (List (TriplesToAdd Frame))
  unfolding add_tables
  add_pred_map [] = some []
  add_pred_map ((pred, ttb) ∷ pred_map) = do
    tta ← add_tables pred ttb
    rest ← add_pred_map pred_map
    some (tta ++ rest)

module _ {Number I64 F64 : Type 0} (host : Host Number I64 F64) where
  unfoldable pub new_iri_typed_subject :
      String → NamedNode → String → String → PredMap I64 F64 → Option (String × PredMap I64 F64)
  unfolding new_iri_subject with_builder push_iri_iri
  new_iri_typed_subject t rdf_type namespace name map =
      let bstr = new_iri_subject host.new_v5 namespace name in
      do pushed ← with_builder rdf_type (push_iri_iri bstr t) map; some (bstr, pushed)

  -- `from_slice` is `simd_json::serde::from_slice`, whose errors are unwrapped
  unfoldable pub map_json :
      {Slice Frame : Type 0}
      → (Slice → Option (Value Number))
      → (List String → List (Cell I64 F64) → Option Frame)
      → Slice
      → Option String
      → String
      → Option (List (TriplesToAdd Frame))
  unfolding use_uuid_namespace put new new_iri_typed_subject process_value add_pred_map
  map_json from_slice data_frame u8s uuid_namespace new_v4 = do
    v ← from_slice u8s
    (doc_subject, typed) ←
        new_iri_typed_subject fx_root rdf_type
          (use_uuid_namespace host.new_v5 uuid_namespace new_v4) "" (put rdf_type new [])
    (path, pred_map) ←
        process_value host xyz_prefix_iri root_element_property
          (use_uuid_namespace host.new_v5 uuid_namespace new_v4) doc_subject none v []
          (put root_element_property new typed)
    add_pred_map data_frame pred_map
