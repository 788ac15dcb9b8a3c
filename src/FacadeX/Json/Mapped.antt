-- ===== src/FacadeX/Json/Mapped.antt =====
-- The whole of `map_json`: the data frames are those of the triples of the document.
use maplib.Prelude.{
  ◌≡◌, refl, ◌∙◌, String, true, List, [], ◌∷◌, Option, none, some, inl, inr, Each, Some, Within,
  Each-Within,
}
use maplib.Prelude.Maps.{contains_key, AllEntries}
use maplib.FacadeX.{xyz_prefix_iri, rdf_type, new_iri_subject}
use maplib.FacadeX.Json.{Host, Value, PredMap, add_new_property}
use maplib.FacadeX.Json.Tables.{Cell, new}
use maplib.FacadeX.Json.Described.{Triple, keys, add_triple, describe, Documented}
use maplib.FacadeX.Json.Walk.{process_value-describe}
use maplib.FacadeX.{TriplesToAdd, use_uuid_namespace}
use maplib.FacadeX.Json.Document.{
  root_element_property, map_json, new_iri_typed_subject, add_pred_map,
}
use maplib.FacadeX.Json.Entries.{subjects_of-Within}
use maplib.FacadeX.Json.Filled.{
  filled_map, start-AllWhole, filled_map-IsFilled, filled_map-has, root_triple,
}
use maplib.FacadeX.Json.Batches.{Frames, IsBatch, IsFor, IsFilled, pred_maps}

module _ {Number I64 F64 : Type 0} (host : Host Number I64 F64) where
  -- the triples of a whole document, that for its root first
  unfoldable pub document : String → Value Number → List (Triple I64 F64)
  unfolding describe new_iri_subject
  document namespace v =
      let doc_subject = new_iri_subject host.new_v5 namespace "" in
      root_triple doc_subject
      ∷ describe host xyz_prefix_iri root_element_property namespace doc_subject none v []

  -- the map of the whole document
  abbrev document_map : String → Value Number → PredMap I64 F64
  document_map namespace v =
      let doc_subject = new_iri_subject host.new_v5 namespace "" in
      filled_map rdf_type root_element_property (root_triple doc_subject)
        (describe host xyz_prefix_iri root_element_property namespace doc_subject none v [])

  -- `map_json` walks the document and makes data frames of the map.
  map_json-document_map :
      {Slice Frame : Type 0} (from_slice : Slice → Option (Value Number))
      (data_frame : List String → List (Cell I64 F64) → Option Frame)
      → Documented host xyz_prefix_iri
      → (u8s : Slice) (uuid_namespace : Option String) (new_v4 : String) (v : Value Number)
      → from_slice u8s ≡ some v
      → map_json host from_slice data_frame u8s uuid_namespace new_v4
        ≡ add_pred_map data_frame
            (document_map (use_uuid_namespace host.new_v5 uuid_namespace new_v4) v)
  unfolding map_json new_iri_typed_subject add_new_property add_triple
  map_json-document_map from_slice data_frame d u8s uuid_namespace new_v4 v e =
      let namespace = use_uuid_namespace host.new_v5 uuid_namespace new_v4 in
      let doc_subject = new_iri_subject host.new_v5 namespace "" in
      let root = root_triple doc_subject in
      rw
        (
          e,
          process_value-describe host xyz_prefix_iri d root_element_property namespace doc_subject
              none v []
              (add_new_property root_element_property
                (add_triple root (add_new_property rdf_type [])))
              (start-AllWhole rdf_type root_element_property root) refl,
        )
        refl

  document_map-has :
      (namespace : String) (v : Value Number) (t : Triple I64 F64)
      → Within t (document namespace v)
      → contains_key t.predicate (document_map namespace v) ≡ true
  unfolding document
  document_map-has namespace v t w = filled_map-has rdf_type root_element_property t _ _ w

  document_map-IsFilled :
      (namespace : String) (v : Value Number)
      → AllEntries
          (λ p b.
            (keys b ≡ keys {I64 = I64} {F64 = F64} new)
            × Each (IsFilled (document namespace v) p) b)
          (document_map namespace v)
  unfolding document
  document_map-IsFilled namespace v = filled_map-IsFilled rdf_type root_element_property _ _

  module _ {Slice Frame : Type 0} (from_slice : Slice → Option (Value Number))
      (data_frame : List String → List (Cell I64 F64) → Option Frame)
      (d : Documented host xyz_prefix_iri) (frames : Frames data_frame) where
    -- If the document parses, and the libraries do as documented (`Documented`, `Frames`),
    -- `map_json` does not panic; each of its data frames holds exactly the
    -- triples of the document with its predicate and its type of object, at least one and in the
    -- order of the document; and each triple of the document is in one of them.
    pub map_json-document :
        (u8s : Slice) (uuid_namespace : Option String) (new_v4 : String) (v : Value Number)
        → from_slice u8s ≡ some v
        → (batches : List (TriplesToAdd Frame)) × (map_json host from_slice data_frame u8s
              uuid_namespace new_v4
            ≡ some batches)
          × Each
              (IsBatch data_frame
                (document (use_uuid_namespace host.new_v5 uuid_namespace new_v4) v))
              batches
          × Each
              (λ t. Some (IsFor data_frame t.predicate t.kind) batches)
              (document (use_uuid_namespace host.new_v5 uuid_namespace new_v4) v)
    map_json-document u8s uuid_namespace new_v4 v e =
        let namespace = use_uuid_namespace host.new_v5 uuid_namespace new_v4 in
        let ts = document namespace v in
        let (batches, made, each, found) =
          pred_maps data_frame frames ts (document_map namespace v)
            (document_map-IsFilled namespace v) in
        (
          batches,
          map_json-document_map from_slice data_frame d u8s uuid_namespace new_v4 v e ∙ made,
          each,
          Each-Within (λ t. Some (IsFor data_frame t.predicate t.kind) batches) ts
              λ t w. elim (found t.predicate t.kind (document_map-has namespace v t w)) [
                | inl none_ ↦ absurd (subjects_of-Within t ts w none_)
                | inr some_ ↦ some_
              ],
        )
