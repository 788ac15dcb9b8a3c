-- ===== src/FacadeX/Json/Described.antt =====
-- The triples that stand for a JSON document, in the order of the document, and the maps of
-- columns that hold them.
use Prim.Native.Char.{code}
use Prim.Native.String
use maplib.Prelude.{
  ℕ, ◌+◌, ◌≡◌, refl, String, Bool, true, false, ◌||◌, ◌&&◌, List, [], ◌∷◌, ◌++◌, Option, none, some,
  unwrap_or, if◌then◌else◌, nat_eq, to_string,
}
use maplib.Prelude.Maps.{get, put, AllEntries}
use maplib.NodeTypes.{BaseRdfNodeType}
use maplib.FacadeX.{fx_child, fx_null, join, new_iri_subject}
use maplib.FacadeX.Json.{
  Host, Value, bool, number, string, null, object, array, Fields, no_fields, field, Items, no_items,
  item, PredMap, keep_chars,
}
use maplib.FacadeX.Json.Tables
use maplib.FacadeX.Json.Tables.{
  Cell, cell_boolean, cell_int64, cell_float64, cell_string, TripleTableBuilder, new, iri, same_key,
  push_row, new_columns, TypedSubjectObjectBuilder,
}

-- the types that the object of a triple can have
pub data Kind : Type 0 where
  booleans : Kind
  integers : Kind
  texts : Kind
  floats : Kind
  iris : Kind

unfoldable pub same_kind : Kind → Kind → Bool
same_kind Kind.booleans Kind.booleans = true
same_kind Kind.integers Kind.integers = true
same_kind Kind.texts Kind.texts = true
same_kind Kind.floats Kind.floats = true
same_kind Kind.iris Kind.iris = true
same_kind a b = false

-- the datatype of JSON's values in RDF, as the names stand in XML Schema
unfoldable pub type_of : Kind → BaseRdfNodeType
type_of Kind.booleans = BaseRdfNodeType.literal "http://www.w3.org/2001/XMLSchema#boolean"
type_of Kind.integers = BaseRdfNodeType.literal "http://www.w3.org/2001/XMLSchema#long"
type_of Kind.texts = BaseRdfNodeType.literal "http://www.w3.org/2001/XMLSchema#string"
type_of Kind.floats = BaseRdfNodeType.literal "http://www.w3.org/2001/XMLSchema#double"
type_of Kind.iris = BaseRdfNodeType.iri

-- the number that the tables have for a type
unfoldable pub number_of : Kind → ℕ
number_of Kind.booleans = Tables.boolean
number_of Kind.integers = Tables.integer
number_of Kind.texts = Tables.string
number_of Kind.floats = Tables.float
number_of Kind.iris = iri

pub same_kind-number_of : (a b : Kind) → nat_eq (number_of a) (number_of b) ≡ same_kind a b
unfolding same_kind number_of
same_kind-number_of Kind.booleans Kind.booleans = refl
same_kind-number_of Kind.integers Kind.integers = refl
same_kind-number_of Kind.texts Kind.texts = refl
same_kind-number_of Kind.floats Kind.floats = refl
same_kind-number_of Kind.iris Kind.iris = refl
same_kind-number_of _ _ = refl

pub same_kind_eq : (a b : Kind) → same_kind a b ≡ true → a ≡ b
unfolding same_kind
same_kind_eq Kind.booleans Kind.booleans h = refl
same_kind_eq Kind.integers Kind.integers h = refl
same_kind_eq Kind.texts Kind.texts h = refl
same_kind_eq Kind.floats Kind.floats h = refl
same_kind_eq Kind.iris Kind.iris h = refl
same_kind_eq _ _ h = cc

pub same_kind_refl : (a : Kind) → same_kind a a ≡ true
unfolding same_kind
same_kind_refl Kind.booleans = refl
same_kind_refl Kind.integers = refl
same_kind_refl Kind.texts = refl
same_kind_refl Kind.floats = refl
same_kind_refl Kind.iris = refl

-- a triple with the type of its object
pub record Triple (I64 F64 : Type 0) : Type 0 where
  pub subject : String
  pub predicate : String
  pub kind : Kind
  pub object : Cell I64 F64

module _ {Number I64 F64 : Type 0} (host : Host Number I64 F64) where
  -- a triple for a number
  unfoldable pub describe_number : String → String → Number → List (Triple I64 F64)
  describe_number s p num = elim (host.as_i64 num) [
    | some i ↦
        record { subject = s; predicate = p; kind = Kind.integers; object = cell_int64 i } ∷ []
    | none ↦ elim (host.as_f64 num) [
      | some f ↦
          record { subject = s; predicate = p; kind = Kind.floats; object = cell_float64 f } ∷ []
      | none ↦ []
    ]
  ]

  -- the IRI of an object or an array, and the triple that leads to it
  unfoldable pub container : String → String → Option String → List String → String
  unfolding join new_iri_subject
  container namespace s none path = s
  container namespace s (some p) path = new_iri_subject host.new_v5 namespace (join path)

  unfoldable pub link : String → String → Option String → List String → List (Triple I64 F64)
  unfolding join new_iri_subject
  link namespace s none path = []
  link namespace s (some p) path =
      record {
        subject = s;
        predicate = p;
        kind = Kind.iris;
        object = cell_string (new_iri_subject host.new_v5 namespace (join path));
      }
      ∷ []

  module _ (prefix root namespace : String) where
    unfoldable mutual
      unfolding describe_number container link keep_chars

      pub describe : String → Option String → Value Number → List String → List (Triple I64 F64)
      describe s p (bool b) path =
          record {
            subject = s;
            predicate = unwrap_or p root;
            kind = Kind.booleans;
            object = cell_boolean b;
          }
          ∷ []
      describe s p (number num) path = describe_number s (unwrap_or p root) num
      describe s p (string t) path =
          record {
            subject = s;
            predicate = unwrap_or p root;
            kind = Kind.texts;
            object = cell_string t;
          }
          ∷ []
      describe s p null path =
          record {
            subject = s;
            predicate = unwrap_or p root;
            kind = Kind.iris;
            object = cell_string fx_null;
          }
          ∷ []
      describe s p (object obj) path =
          link namespace s p path ++ describe_fields (container namespace s p path) obj path
      describe s p (array arr) path =
          link namespace s p path ++ describe_items (container namespace s p path) 0 arr path

      pub describe_fields : String → Fields Number → List String → List (Triple I64 F64)
      describe_fields s no_fields path = []
      describe_fields s (field key val obj) path =
          describe s (some (String.◌++◌ prefix (keep_chars host 0 key))) val (key ∷ path)
          ++ describe_fields s obj path

      pub describe_items : String → ℕ → Items Number → List String → List (Triple I64 F64)
      describe_items s i no_items path = []
      describe_items s i (item v arr) path =
          describe s (some fx_child) v (to_string i ∷ path) ++ describe_items s (i + 1) arr path

-- the characters that a property keeps of a key
unfoldable pub kept : {Number I64 F64 : Type 0} → Host Number I64 F64 → String → Bool
kept host String.[] = true
kept host (String.◌∷◌ c s) =
    (host.is_alphanumeric c
      || (nat_eq (code c) b'_' || (nat_eq (code c) b'-' || nat_eq (code c) b'.')))
    && kept host s

-- What the libraries document: a number is an i64 or an f64, and `NamedNode::new` accepts what
-- stands for an IRI, here the prefix with letters, digits, `_`, `-` and `.` behind it.
pub record Documented {Number I64 F64 : Type 0} (host : Host Number I64 F64) (prefix : String)
    : Type 0 where
  pub numbers : (n : Number) → host.as_i64 n ≡ none → (f : F64) × (host.as_f64 n ≡ some f)
  pub iris :
      (s : String)
      → kept host s ≡ true
      → host.named_node (String.◌++◌ prefix s) ≡ some (String.◌++◌ prefix s)

module _ {I64 F64 : Type 0} where
  -- the columns with one more row, if they are there
  unfoldable pub pushed :
      ℕ × ℕ → String → Cell I64 F64 → TripleTableBuilder I64 F64 → TripleTableBuilder I64 F64
  unfolding same_key push_row
  pushed k s v [] = []
  pushed k s v ((j, values) ∷ b) =
      let rest = pushed k s v b in
      if same_key j k then (j, push_row s v values) ∷ b else (j, values) ∷ rest

  unfoldable pub has_key : ℕ × ℕ → TripleTableBuilder I64 F64 → Bool
  unfolding same_key
  has_key k [] = false
  has_key k ((j, values) ∷ b) = let rest = has_key k b in if same_key j k then true else rest

  unfoldable pub keys : TripleTableBuilder I64 F64 → List (ℕ × ℕ)
  keys [] = []
  keys ((j, values) ∷ b) = j ∷ keys b

  -- the columns that a new builder has, one pair for each type of object
  abbrev pub IsWhole : TripleTableBuilder I64 F64 → Type 0
  IsWhole b = keys b ≡ keys new

  abbrev pub AllWhole : PredMap I64 F64 → Type 0
  AllWhole = AllEntries (λ p b. IsWhole b)

  -- the map with one more triple
  unfoldable pub add_triple : Triple I64 F64 → PredMap I64 F64 → PredMap I64 F64
  unfolding pushed get put number_of
  add_triple t m =
      put t.predicate
        (pushed (iri, number_of t.kind) t.subject t.object (unwrap_or (get t.predicate m) new)) m

  unfoldable pub add_triples : List (Triple I64 F64) → PredMap I64 F64 → PredMap I64 F64
  unfolding add_triple
  add_triples [] m = m
  add_triples (t ∷ ts) m = add_triples ts (add_triple t m)
