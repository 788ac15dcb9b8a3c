-- ===== src/FacadeX/Xml/Leaks.antt =====
-- What an empty element declares stays declared behind it.
use maplib.Prelude.{
  ◌+◌, ◌≡◌, String, false, List, [], ◌∷◌, none, some, unwrap_or, ◌==◌, arith, eq_refl, Bool-cases,
  inl, inr, subst, strip_prefix, to_string, eq-true,
}
use maplib.Prelude.Maps.{get, put, get-put}
use maplib.Prelude.Outcomes.{done, Holds, >>=-Holds, skip}
use maplib.Algebra.{NamedNode}
use maplib.SeriesBuilder.{Values}
use maplib.SeriesBuilder.Pairs.{PredMap}
use maplib.FacadeX.{
  xyz_prefix_iri, fx_xyz_prefix_iri, fx_prefix_sep, fx_prefix_name, rdf_type, join, new_iri_subject,
}
use maplib.FacadeX.Xml.{
  Host, Frame, or_fail, string_type, use_sep, push_iri_object, push_typed_text, qname_to_iri,
}
use maplib.FacadeX.Xml.Opening.{
  Declared, Opened, collect_attrs, read_attr, declare_prefix, declare_key, declare_attrs,
  open_element, link_parent, push_attrs,
}
use maplib.FacadeX.Xml.Events.{State, on_empty}
use maplib.FacadeX.Xml.Elements.{done-Holds}

module _ {Bytes V : Type 0} (host : Host Bytes) (values : Values V) (namespace : String) where
  module _ (pre : String) (nn : NamedNode) where
    -- the prefix means the IRI
    abbrev Means : List (String × NamedNode) → Type 0
    Means prefix_map = get pre prefix_map ≡ some nn

    abbrev DeclaredMeans : Declared Bytes V → Type 0
    DeclaredMeans declared = Means declared.prefix_map

    abbrev OpenedMeans : Opened V → Type 0
    OpenedMeans opened = Means opened.prefix_map

    abbrev StateMeans : State V → Type 0
    StateMeans st = Means st.prefix_map

    module _ (key value : String) (s : strip_prefix "xmlns:" key ≡ some pre)
        (n : host.named_node value ≡ some nn) where
      put-Means : (prefix_map : List (String × NamedNode)) → Means (put pre nn prefix_map)
      put-Means prefix_map = ground (arith, get-put pre pre nn prefix_map, eq_refl pre)

      declare_prefix-Means :
          (subject : String) (path : List String) (declared : Declared Bytes V)
          → Holds DeclaredMeans
              (declare_prefix host values namespace subject path key pre value declared)
      unfolding declare_prefix or_fail
      declare_prefix-Means subject path declared =
          let prefix_subject = new_iri_subject host.new_v5 namespace (join (key ∷ path)) in
          rw n (
            skip DeclaredMeans
              (push_iri_object xyz_prefix_iri subject prefix_subject declared.pred_map) _
              λ m. skip DeclaredMeans (push_iri_object fx_xyz_prefix_iri prefix_subject nn m) _ λ n.
                skip DeclaredMeans
                  (push_typed_text host values fx_prefix_sep prefix_subject (use_sep nn) string_type
                    n)
                  _
                  λ i.
                    skip DeclaredMeans
                      (push_typed_text host values fx_prefix_name prefix_subject pre string_type i)
                      _ λ j. put-Means declared.prefix_map)

      not_base : (key == "xmlns") ≡ false
      unfolding strip_prefix
      not_base = elim (Bool-cases (key == "xmlns")) [
        | inr e ↦ e
        | inl e ↦
            let none_ : strip_prefix "xmlns:" "xmlns" ≡ some pre =
              subst (λ k. strip_prefix "xmlns:" k ≡ some pre) (eq-true key "xmlns" e) s in
            cc none_
      ]

      declare_key-Means :
          (attr : Bytes × Bytes) (subject : String) (path : List String)
          (declared : Declared Bytes V)
          → Holds DeclaredMeans
              (declare_key host values namespace subject path attr key value declared)
      unfolding declare_key
      declare_key-Means attr subject path declared =
          rw (not_base, s, declare_key) (declare_prefix-Means subject path declared)

      module _ (raw : String) (attr : Bytes × Bytes) (k : host.from_utf8 attr.0 ≡ some key)
          (r : host.from_utf8 attr.1 ≡ some raw) (v : host.unescape raw ≡ some value) where
        declare_attrs-Means :
            (subject : String) (path : List String) (declared : Declared Bytes V)
            → Holds DeclaredMeans
                (declare_attrs host values namespace subject path (attr ∷ []) declared)
        unfolding declare_attrs read_attr or_fail
        declare_attrs-Means subject path declared =
            rw (k, r, v)
              (>>=-Holds DeclaredMeans DeclaredMeans
                (declare_key host values namespace subject path attr key value declared) _
                (declare_key-Means attr subject path declared) λ next h. h)

        open_element-Means :
            (name : Bytes) (stack : List Frame) (m : PredMap V) (before : List (String × NamedNode))
            (base : NamedNode) (path : List String)
            → Holds OpenedMeans
                (open_element host values namespace name (some attr ∷ []) stack m before base path)
        unfolding open_element collect_attrs or_fail
        open_element-Means name stack m before base path =
            let subject = new_iri_subject host.new_v5 namespace (join path) in
            skip OpenedMeans (or_fail (host.from_utf8 name)) _ λ name_text.
              skip OpenedMeans (link_parent host values subject stack m) _ λ linked.
                let nothing : Declared Bytes V = record {
                  new_base_prefix = none;
                  introduced = [];
                  non_xmlns_attrs = [];
                  pred_map = linked.1;
                  prefix_map = before;
                } in
                >>=-Holds DeclaredMeans OpenedMeans
                  (declare_attrs host values namespace subject path (attr ∷ []) nothing) _
                  (declare_attrs-Means subject path nothing)
                  λ declared hd.
                    let use_base = unwrap_or declared.new_base_prefix base in
                    skip OpenedMeans
                      (push_attrs host values subject declared.non_xmlns_attrs declared.prefix_map
                        use_base declared.pred_map)
                      _
                      λ n.
                        skip OpenedMeans (qname_to_iri host name_text declared.prefix_map use_base)
                          _
                          λ type_iri.
                            skip OpenedMeans (push_iri_object rdf_type subject type_iri n) _ λ k. hd

        on_empty-Means :
            (name : Bytes) (st : State V)
            → Holds StateMeans (on_empty host values namespace name (some attr ∷ []) st)
        unfolding on_empty
        on_empty-Means name st =
            let path = to_string (st.current_counter + 1) ∷ st.path in
            >>=-Holds OpenedMeans StateMeans
              (open_element host values namespace name (some attr ∷ []) st.stack st.pred_map
                st.prefix_map st.base_prefix path)
              _ (open_element-Means name st.stack st.pred_map st.prefix_map st.base_prefix path)
              λ opened h. h

  -- An empty element leaves what it declares: after one whose only attribute declares a prefix, the
  -- prefix means what it declares, whatever it meant before.
  pub on_empty_leaks :
      (name key_bytes value_bytes : Bytes) (key raw value pre : String) (nn : NamedNode)
      (st next : State V)
      → host.from_utf8 key_bytes ≡ some key
      → host.from_utf8 value_bytes ≡ some raw
      → host.unescape raw ≡ some value
      → strip_prefix "xmlns:" key ≡ some pre
      → host.named_node value ≡ some nn
      → on_empty host values namespace name (some (key_bytes, value_bytes) ∷ []) st ≡ done next
      → get pre next.prefix_map ≡ some nn
  on_empty_leaks name key_bytes value_bytes key raw value pre nn st next k r v s n e =
      done-Holds (StateMeans pre nn)
        (on_empty host values namespace name (some (key_bytes, value_bytes) ∷ []) st) next e
        (on_empty-Means pre nn key value s n raw (key_bytes, value_bytes) k r v name st)
