-- ===== src/FacadeX/Xml.antt =====
-- lib/triplestore/src/map_xml.rs: an XML document as triples, from the events of its reader. Each
-- error of the code is `failed`.
pub mod Opening
pub mod Events
pub mod Columns
pub mod Attributes
pub mod Safe
pub mod Scope
pub mod Elements
pub mod Leaks
use Prim.Native.String
use maplib.Prelude.{
  ℕ, ◌+◌, ◌%◌, ◌^◌, String, Bool, true, false, not, ◌&&◌, ◌||◌, List, [], ◌∷◌, ◌++◌, Option, none,
  some, unwrap_or, if◌then◌else◌, ◌==◌, nat_eq, to_string, strip_prefix, split_once, ends_with,
}
use maplib.Prelude.Maps.{get, put, remove}
use maplib.Prelude.Outcomes.{Outcome, done, failed, panicked, ◌>>=◌}
use maplib.Algebra.{NamedNode}
use maplib.Vocabulary.Xsd
use maplib.NodeTypes.{BaseRdfNodeType}
use maplib.SeriesBuilder.{Values, SeriesBuilder, push_str, push_u32, parse_literal}
use maplib.SeriesBuilder.Pairs.{SubjectObjectBuilders, PredMap, with_pair, unwrap}
use maplib.FacadeX.{
  xyz_prefix_iri, fx_root, fx_child, fx_child_number, fx_xmlns, fx_xmlns_sep, fx_xyz_prefix_iri,
  fx_prefix_sep, fx_prefix_name, rdf_type, pop, join, new_iri_subject,
}

-- What the code takes from other libraries: UTF-8, the decoding of texts and of their entities by
-- quick_xml, the white space of Unicode, the check of an IRI by oxrdf, and the identifiers of uuid.
pub record Host (Bytes : Type 0) : Type 0 where
  pub from_utf8 : Bytes → Option String
  pub decode : Bytes → Option String
  pub unescape : String → Option String
  pub trim : String → String
  pub named_node : String → Option NamedNode
  pub new_v5 : String → String → String

-- `let a = result.map_err(…)?;`
unfoldable pub or_fail : {A : Type 0} → Option A → Outcome A
or_fail none = failed
or_fail (some a) = done a

pub record Frame : Type 0 where
  pub subject : String
  pub next_child : ℕ
  pub previous_base_prefix : Option NamedNode
  pub introduced_prefixed_namespaces : List (String × Option NamedNode)

abbrev pub string_type : BaseRdfNodeType
string_type = BaseRdfNodeType.literal Xsd.string

abbrev pub datatypes_map : List (String × BaseRdfNodeType)
datatypes_map = (Xsd.string, string_type) ∷ []

unfoldable pub use_sep : String → String
unfolding ends_with strip_prefix
use_sep pre =
    let inner : String = elim (strip_prefix "urn:" pre) [ some rest ↦ ":" | none ↦ "#" ] in
    if not (ends_with b':' pre) && (not (ends_with b'#' pre) && not (ends_with b'/' pre))
    then inner
    else ""

module _ {V : Type 0} where
  unfoldable pub push_iri_object : String → String → String → PredMap V → Outcome (PredMap V)
  unfolding with_pair push_str
  push_iri_object predicate subject object pred_map =
      with_pair predicate BaseRdfNodeType.iri BaseRdfNodeType.iri
        (λ (subjects, objects). do
          subjects ← push_str subject subjects
          objects ← push_str object objects
          done (subjects, objects))
        pred_map

module _ {V : Type 0} (values : Values V) where
  unfoldable pub push_iri_u32 : String → String → ℕ → PredMap V → Outcome (PredMap V)
  unfolding with_pair push_str push_u32
  push_iri_u32 predicate subject object pred_map =
      with_pair predicate BaseRdfNodeType.iri (BaseRdfNodeType.literal Xsd.unsigned_int)
        (λ (subjects, objects). do
          subjects ← push_str subject subjects
          objects ← push_u32 values object objects
          done (subjects, objects))
        pred_map

module _ {Bytes V : Type 0} (host : Host Bytes) (values : Values V) where
  unfoldable pub push_typed_text :
      String → String → String → BaseRdfNodeType → PredMap V → Outcome (PredMap V)
  unfolding with_pair push_str parse_literal
  push_typed_text predicate subject text data_type pred_map =
      with_pair predicate BaseRdfNodeType.iri data_type
        (λ (subjects, objects). do
          objects ← parse_literal values (host.trim text) none objects
          subjects ← push_str subject subjects
          done (subjects, objects))
        pred_map

  unfoldable pub push_text_child : String → List Frame → PredMap V → Outcome (PredMap V)
  unfolding push_typed_text
  push_text_child text [] pred_map = done pred_map
  push_text_child text (frame ∷ stack) pred_map =
      if text == ""
      then done pred_map
      else push_typed_text fx_child frame.subject text string_type pred_map

module _ {Bytes : Type 0} (host : Host Bytes) where
  unfoldable pub qname_to_iri : String → List (String × NamedNode) → NamedNode → Outcome NamedNode
  unfolding split_once get use_sep or_fail
  qname_to_iri name prefix_map base_prefix = elim (split_once b':' name) [
    | some (pre, suf) ↦ do
      pre_nn ← or_fail (get pre prefix_map)
      or_fail (host.named_node (String.◌++◌ pre_nn (String.◌++◌ (use_sep pre_nn) suf)))
    | none ↦
        or_fail (host.named_node (String.◌++◌ base_prefix (String.◌++◌ (use_sep base_prefix) name)))
  ]
