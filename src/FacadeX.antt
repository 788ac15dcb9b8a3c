-- ===== src/FacadeX.antt =====
-- lib/triplestore/src/map_json.rs and map_xml.rs: documents that are stored as triples, after the
-- Facade-X vocabulary. The names of the constants are those of lib/representation/src/constants.rs.
pub mod Json
pub mod Xml
use Prim.Native.String
use maplib.Prelude.{String, List, [], ◌∷◌, Option, none, some}
use maplib.Algebra.{NamedNode}
use maplib.NodeTypes.{BaseRdfNodeType}

abbrev pub xyz_prefix_iri : String
xyz_prefix_iri = "http://sparql.xyz/facade-x/data/"

abbrev pub fx_root : String
fx_root = "http://sparql.xyz/facade-x/ns/root"

abbrev pub fx_child : String
fx_child = "http://sparql.xyz/facade-x/ns/child"

abbrev pub fx_null : String
fx_null = "http://sparql.xyz/facade-x/ns/null"

abbrev pub fx_xyz_prefix_iri : String
fx_xyz_prefix_iri = "http://sparql.xyz/facade-x/ns/prefixIRI"

abbrev pub fx_prefix_sep : String
fx_prefix_sep = "http://sparql.xyz/facade-x/ns/prefixSeparator"

abbrev pub fx_child_number : String
fx_child_number = "http://sparql.xyz/facade-x/ns/childNumber"

abbrev pub fx_xmlns : String
fx_xmlns = "http://sparql.xyz/facade-x/ns/xmlns"

abbrev pub fx_xmlns_sep : String
fx_xmlns_sep = "http://sparql.xyz/facade-x/ns/xmlnsSeparator"

abbrev pub fx_prefix_name : String
fx_prefix_name = "http://sparql.xyz/facade-x/ns/prefixName"

-- `oxrdf::vocab::rdf::TYPE`
abbrev pub rdf_type : String
rdf_type = "http://www.w3.org/1999/02/22-rdf-syntax-ns#type"

-- A path is kept with its last entry first, so that `push` is `∷`: the path after `path.pop()`
unfoldable pub pop : List String → List String
pop [] = []
pop (key ∷ path) = path

-- `path.join(".")`
unfoldable pub join : List String → String
join [] = ""
join (key ∷ []) = key
join (key ∷ parent ∷ path) = String.◌++◌ (join (parent ∷ path)) (String.◌++◌ "." key)

-- `new_iri_subject`; `new_v5` is `Uuid::new_v5` of the uuid library, printed
unfoldable pub new_iri_subject : (String → String → String) → String → String → String
new_iri_subject new_v5 namespace name = String.◌++◌ "urn:maplib:" (new_v5 namespace name)

-- the text of `Uuid::NAMESPACE_DNS`
abbrev pub namespace_dns : String
namespace_dns = "6ba7b810-9dad-11d1-80b4-00c04fd430c8"

-- `new_v4` is the text of `Uuid::new_v4()`
unfoldable pub use_uuid_namespace : (String → String → String) → Option String → String → String
use_uuid_namespace new_v5 (some uuid_namespace) new_v4 = new_v5 namespace_dns uuid_namespace
use_uuid_namespace new_v5 none new_v4 = new_v4

-- the fields of `TriplesToAdd` that differ between the frames of one document, the states of the
-- encodings excepted, which follow from the types
pub record TriplesToAdd (Frame : Type 0) : Type 0 where
  pub df : Frame
  pub subject_type : BaseRdfNodeType
  pub object_type : BaseRdfNodeType
  pub predicate : NamedNode
