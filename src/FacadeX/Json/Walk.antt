-- ===== src/FacadeX/Json/Walk.antt =====
-- The walk over a document fills the map with the triples that stand for the document.
use Prim.Native.String
use maplib.Prelude.{
  ℕ, ◌+◌, ◌≡◌, refl, String, true, List, ◌∷◌, Option, none, some, unwrap_or, to_string,
}
use maplib.Prelude.Maps.{contains_key}
use maplib.FacadeX.{fx_child, fx_null, pop, join, new_iri_subject}
use maplib.FacadeX.Json.{
  Host, Value, bool, number, string, null, object, array, Fields, no_fields, field, Items, no_items,
  item, PredMap, keep_chars, add_new_property, new_key_property, container_subject, process_value,
  process_fields, process_items,
}
use maplib.FacadeX.Json.Pushes.{
  with_builder-push, keep_chars-kept, with_builder-push_number, described_add,
  contains_key-add_new_property,
}
use maplib.FacadeX.Json.Whole.{
  has_key-columns, add_triples-append, add_triples-AllWhole, add_new_property-AllWhole,
}
use maplib.FacadeX.Json.Tables
use maplib.FacadeX.Json.Tables.{
  Cell, cell_boolean, cell_string, TripleTableBuilder, new, iri, same_key, push_row, push,
  push_iri_bool, push_iri_string, push_iri_iri,
}
use maplib.FacadeX.Json.Described.{
  Kind, container, link, describe, describe_fields, describe_items, has_key, AllWhole, add_triples,
  Documented,
}

module _ {Number I64 F64 : Type 0} (host : Host Number I64 F64) where
  module _ (prefix : String) (d : Documented host prefix) where
    module _ (root namespace : String) where
      container_subject-link :
          (s : String) (p : Option String) (path : List String) (m : PredMap I64 F64)
          → AllWhole m
          → contains_key (unwrap_or p root) m ≡ true
          → container_subject host namespace s p path m
            ≡ some (container host namespace s p path, add_triples (link host namespace s p path) m)
      unfolding container_subject container link add_triples push_iri_iri has_key new
      container_subject-link s none path m w c = refl
      container_subject-link s (some p) path m w c =
          rw
            (with_builder-push p Kind.iris s
              (cell_string (new_iri_subject host.new_v5 namespace (join path))) m c
              (has_key-columns (iri, iri) p m w))
            refl

      mutual
        unfolding process_value describe push_iri_bool push_iri_string push_iri_iri add_triples pop
            new_key_property has_key new

        pub process_value-describe :
            (s : String) (p : Option String) (v : Value Number) (path : List String)
            (m : PredMap I64 F64)
            → AllWhole m
            → contains_key (unwrap_or p root) m ≡ true
            → process_value host prefix root namespace s p v path m
              ≡ some (path, add_triples (describe host prefix root namespace s p v path) m)
        process_value-describe s p (bool b) path m w c =
            rw
              (with_builder-push (unwrap_or p root) Kind.booleans s (cell_boolean b) m c
                (has_key-columns (iri, Tables.boolean) (unwrap_or p root) m w))
              refl
        process_value-describe s p (number num) path m w c =
            rw (with_builder-push_number host prefix d (unwrap_or p root) s num m w c) refl
        process_value-describe s p (string t) path m w c =
            rw
              (with_builder-push (unwrap_or p root) Kind.texts s (cell_string t) m c
                (has_key-columns (iri, Tables.string) (unwrap_or p root) m w))
              refl
        process_value-describe s p null path m w c =
            rw
              (with_builder-push (unwrap_or p root) Kind.iris s (cell_string fx_null) m c
                (has_key-columns (iri, iri) (unwrap_or p root) m w))
              refl
        process_value-describe s p (object obj) path m w c =
            let opened = link host namespace s p path in
            rw
              (
                container_subject-link s p path m w c,
                process_fields-describe_fields (container host namespace s p path) obj path
                    (add_triples opened m) (add_triples-AllWhole opened m w),
                add_triples-append opened
                    (describe_fields host prefix root namespace (container host namespace s p path)
                      obj path)
                    m,
              )
              refl
        process_value-describe s p (array arr) path m w c =
            let opened = link host namespace s p path in
            rw
              (
                container_subject-link s p path m w c,
                process_items-describe_items (container host namespace s p path) 0 arr path
                    (add_triples opened m) (add_triples-AllWhole opened m w),
                add_triples-append opened
                    (describe_items host prefix root namespace (container host namespace s p path) 0
                      arr path)
                    m,
              )
              refl

        process_fields-describe_fields :
            (s : String) (obj : Fields Number) (path : List String) (m : PredMap I64 F64)
            → AllWhole m
            → process_fields host prefix root namespace s obj path m
              ≡ some (path, add_triples (describe_fields host prefix root namespace s obj path) m)
        process_fields-describe_fields s no_fields path m w = refl
        process_fields-describe_fields s (field key v obj) path m w =
            let p = String.◌++◌ prefix (keep_chars host 0 key) in
            let ts = describe host prefix root namespace s (some p) v (key ∷ path) in
            rw
              (
                d.iris (keep_chars host 0 key) (keep_chars-kept host 0 key),
                process_value-describe s (some p) v (key ∷ path) (add_new_property p m)
                    (add_new_property-AllWhole p m w) (contains_key-add_new_property p m),
                described_add host prefix d root namespace s p v (key ∷ path) m,
                process_fields-describe_fields s obj path (add_triples ts m)
                    (add_triples-AllWhole ts m w),
                add_triples-append ts (describe_fields host prefix root namespace s obj path) m,
              )
              refl

        process_items-describe_items :
            (s : String) (i : ℕ) (arr : Items Number) (path : List String) (m : PredMap I64 F64)
            → AllWhole m
            → process_items host prefix root namespace s i arr path m
              ≡ some (path, add_triples (describe_items host prefix root namespace s i arr path) m)
        process_items-describe_items s i no_items path m w = refl
        process_items-describe_items s i (item v arr) path m w =
            let ts = describe host prefix root namespace s (some fx_child) v (to_string i ∷ path) in
            rw
              (
                process_value-describe s (some fx_child) v (to_string i ∷ path)
                    (add_new_property fx_child m) (add_new_property-AllWhole fx_child m w)
                    (contains_key-add_new_property fx_child m),
                described_add host prefix d root namespace s fx_child v (to_string i ∷ path) m,
                process_items-describe_items s (i + 1) arr path (add_triples ts m)
                    (add_triples-AllWhole ts m w),
                add_triples-append ts (describe_items host prefix root namespace s (i + 1) arr path)
                    m,
              )
              refl
