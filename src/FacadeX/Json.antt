-- ===== src/FacadeX/Json.antt =====
-- lib/triplestore/src/map_json.rs: a JSON document as triples. A panic is `none`.
pub mod Tables
pub mod Described
pub mod Whole
pub mod Pushes
pub mod Walk
pub mod Document
pub mod Columns
pub mod Batches
pub mod Entries
pub mod Filled
pub mod Mapped
use Prim.Native.Char.{Char, code}
use Prim.Native.String
use maplib.Prelude.{
  ℕ, ◌+◌, String, Bool, true, false, ◌||◌, ◌&&◌, List, [], ◌∷◌, ◌++◌, Option, none, some, ◌>>=◌,
  unwrap_or, if◌then◌else◌, nat_eq, to_string,
}
use maplib.Prelude.Maps.{get, put, contains_key}
use maplib.FacadeX.{
  xyz_prefix_iri, fx_root, fx_child, fx_null, rdf_type, pop, join, new_iri_subject,
}
use maplib.FacadeX.Json.Tables.{
  Cell, cell_boolean, cell_int64, cell_float64, cell_string, TripleTableBuilder, new, push_iri_bool,
  push_iri_int, push_iri_float, push_iri_string, push_iri_iri,
}

-- What the code takes from other libraries: the numbers of serde_json, the tables of Unicode, the
-- check of an IRI by oxrdf (`NamedNode::new`), and the name-based identifiers of uuid.
pub record Host (Number I64 F64 : Type 0) : Type 0 where
  pub as_i64 : Number → Option I64
  pub as_f64 : Number → Option F64
  pub is_numeric : Char → Bool
  pub is_alphanumeric : Char → Bool
  pub named_node : String → Option String
  pub new_v5 : String → String → String

-- `serde_json::Value`
mutual
  pub data Value (Number : Type 0) : Type 0 where
    bool : Bool → Value Number
    number : Number → Value Number
    string : String → Value Number
    null : Value Number
    object : Fields Number → Value Number
    array : Items Number → Value Number

  pub data Fields (Number : Type 0) : Type 0 where
    no_fields : Fields Number
    field : String → Value Number → Fields Number → Fields Number

  pub data Items (Number : Type 0) : Type 0 where
    no_items : Items Number
    item : Value Number → Items Number → Items Number

-- `HashMap<NamedNode, TripleTableBuilder>`
abbrev pub PredMap : Type 0 → Type 0 → Type 0
PredMap I64 F64 = List (String × TripleTableBuilder I64 F64)

module _ {I64 F64 : Type 0} where
  -- `add_new_property`
  unfoldable pub add_new_property : String → PredMap I64 F64 → PredMap I64 F64
  unfolding contains_key put
  add_new_property property map = if contains_key property map then map else put property new map

  -- `let builder = map.get_mut(property).unwrap();`, and what is then done to the builder
  unfoldable pub with_builder :
      String
      → (TripleTableBuilder I64 F64 → Option (TripleTableBuilder I64 F64))
      → PredMap I64 F64
      → Option (PredMap I64 F64)
  unfolding get put
  with_builder property change map = do
    builder ← get property map
    changed ← change builder
    some (put property changed map)

module _ {Number I64 F64 : Type 0} (host : Host Number I64 F64) where
  -- the loop over the characters of a key; the first one has the index 0
  unfoldable pub keep_chars : ℕ → String → String
  keep_chars i String.[] = ""
  keep_chars i (String.◌∷◌ c key) =
      let marked = nat_eq (code c) b'_' || (nat_eq (code c) b'-' || nat_eq (code c) b'.') in
      let rest = keep_chars (i + 1) key in
      let kept =
        if host.is_alphanumeric c || marked then String.◌∷◌ c rest else String.◌∷◌ "_" rest in
      if nat_eq i 0 && (host.is_numeric c || marked) then String.◌∷◌ "_" kept else kept

  unfoldable pub new_key_property :
      String → String → PredMap I64 F64 → Option (String × PredMap I64 F64)
  unfolding keep_chars add_new_property
  new_key_property key prefix map = do
    key_nn ← host.named_node (String.◌++◌ prefix (keep_chars 0 key))
    some (key_nn, add_new_property key_nn map)

  -- `if let Some(i) = num.as_i64() { … } else if let Some(f) = num.as_f64() { … }`
  unfoldable pub push_number :
      String → Number → TripleTableBuilder I64 F64 → Option (TripleTableBuilder I64 F64)
  unfolding push_iri_int push_iri_float
  push_number subject num builder = elim (host.as_i64 num) [
    | some i ↦ push_iri_int subject i builder
    | none ↦ host.as_f64 num >>= λ f. push_iri_float subject f builder
  ]

  -- the subject of an object or an array, and the triple that leads to it
  unfoldable pub container_subject :
      String
      → String
      → Option String
      → List String
      → PredMap I64 F64
      → Option (String × PredMap I64 F64)
  unfolding join new_iri_subject with_builder push_iri_iri
  container_subject uuid_namespace subject none path map = some (subject, map)
  container_subject uuid_namespace subject (some property) path map =
      let new_subject = new_iri_subject host.new_v5 uuid_namespace (join path) in
      do
        pushed ← with_builder property (push_iri_iri subject new_subject) map
        some (new_subject, pushed)

  module _ (prefix root_elem_property uuid_namespace : String) where
    -- The path and the map are passed on from each call to the next.
    unfoldable mutual
      unfolding with_builder push_iri_bool push_iri_string push_iri_iri push_number
          container_subject new_key_property add_new_property pop

      pub process_value :
          String
          → Option String
          → Value Number
          → List String
          → PredMap I64 F64
          → Option (List String × PredMap I64 F64)
      process_value subject property (bool b) path map = do
        pushed ← with_builder (unwrap_or property root_elem_property) (push_iri_bool subject b) map
        some (path, pushed)
      process_value subject property (number num) path map = do
        pushed ← with_builder (unwrap_or property root_elem_property) (push_number subject num) map
        some (path, pushed)
      process_value subject property (string s) path map = do
        pushed ←
            with_builder (unwrap_or property root_elem_property) (push_iri_string subject s) map
        some (path, pushed)
      process_value subject property null path map = do
        pushed ←
            with_builder (unwrap_or property root_elem_property) (push_iri_iri subject fx_null) map
        some (path, pushed)
      process_value subject property (object obj) path map = do
        (new_subject, opened) ← container_subject uuid_namespace subject property path map
        process_fields new_subject obj path opened
      process_value subject property (array arr) path map = do
        (array_subject, opened) ← container_subject uuid_namespace subject property path map
        process_items array_subject 0 arr path opened

      -- `for (key, val) in obj`
      pub process_fields :
          String
          → Fields Number
          → List String
          → PredMap I64 F64
          → Option (List String × PredMap I64 F64)
      process_fields subject no_fields path map = some (path, map)
      process_fields subject (field key val obj) path map = do
        (property, added) ← new_key_property key prefix map
        (left, processed) ← process_value subject (some property) val (key ∷ path) added
        process_fields subject obj (pop left) processed

      -- `for (i, v) in arr.into_iter().enumerate()`
      pub process_items :
          String
          → ℕ
          → Items Number
          → List String
          → PredMap I64 F64
          → Option (List String × PredMap I64 F64)
      process_items subject i no_items path map = some (path, map)
      process_items subject i (item v arr) path map = do
        (left, processed) ←
            process_value subject (some fx_child) v (to_string i ∷ path)
              (add_new_property fx_child map)
        process_items subject (i + 1) arr (pop left) processed
