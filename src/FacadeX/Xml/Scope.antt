-- ===== src/FacadeX/Xml/Scope.antt =====
-- The scope of the prefixes: what an element declares is undone at its end, but not what an empty
-- element declares.
use maplib.Prelude.{
  ◌≡◌, refl, String, true, List, [], ◌∷◌, ◌++◌, Option, none, some, unwrap_or, if◌then◌else◌, ◌==◌,
  arith, eq_iff, Bool-cases, Option-cases, inl, inr, strip_prefix,
}
use maplib.Prelude.Maps.{get, put, remove, distinct, get-put, get-remove, get_absent}
use maplib.Prelude.Outcomes.{Holds, >>=-Holds, skip}
use maplib.Algebra.{NamedNode}
use maplib.SeriesBuilder.{Values}
use maplib.SeriesBuilder.Pairs.{PredMap}
use maplib.FacadeX.{
  xyz_prefix_iri, fx_xmlns, fx_xmlns_sep, fx_xyz_prefix_iri, fx_prefix_sep, fx_prefix_name,
  rdf_type, join, new_iri_subject,
}
use maplib.FacadeX.Xml.{
  Host, Frame, or_fail, string_type, use_sep, push_iri_object, push_typed_text, qname_to_iri,
}
use maplib.FacadeX.Xml.Opening.{
  Declared, Opened, collect_attrs, read_attr, declare_base, declare_prefix, declare_other,
  declare_key, declare_attrs, open_element, link_parent, push_attrs,
}
use maplib.FacadeX.Xml.Events.{restore_prefixes}

-- what a prefix meant before a list of prefixes was introduced
abbrev pub meant :
    String → List (String × Option NamedNode) → List (String × NamedNode) → Option NamedNode
meant k introduced prefix_map = elim (get k introduced) [
  | some previous ↦ previous
  | none ↦ get k prefix_map
]

get-append :
    {A : Type 0} (k j : String) (v : A) (m : List (String × A))
    → get k (m ++ (j, v) ∷ [])
      ≡ elim (get k m) [ some w ↦ some w | none ↦ if j == k then some v else none ]
unfolding get
get-append k j v [] = refl
get-append k j v ((i, w) ∷ m) = ground (arith, get-append k j v m)

-- The prefixes mean again what they meant, if none of them is in the list twice.
pub get-restore_prefixes :
    (k : String) (introduced : List (String × Option NamedNode))
    (prefix_map : List (String × NamedNode))
    → distinct introduced ≡ true
    → get k (restore_prefixes introduced prefix_map) ≡ meant k introduced prefix_map
unfolding restore_prefixes get distinct
get-restore_prefixes k [] prefix_map d = refl
get-restore_prefixes k ((j, some v) ∷ introduced) prefix_map d = ground (
  arith,
  get-restore_prefixes k introduced (put j v prefix_map),
  get-put j k v prefix_map,
  get_absent j introduced,
  eq_iff j k,
)
get-restore_prefixes k ((j, none) ∷ introduced) prefix_map d = ground (
  arith,
  get-restore_prefixes k introduced (remove j prefix_map),
  get-remove j k prefix_map,
  get_absent j introduced,
  eq_iff j k,
)

module _ {Bytes V : Type 0} (host : Host Bytes) (values : Values V)
    (before : List (String × NamedNode)) where
  -- the introduced prefixes tell what each prefix meant before
  abbrev Tells : Declared Bytes V → Type 0
  Tells declared = (k : String) → meant k declared.introduced declared.prefix_map ≡ get k before

  abbrev pub OpenedTells : Opened V → Type 0
  OpenedTells opened = (k : String) → meant k opened.introduced opened.prefix_map ≡ get k before

  introduced-Tells :
      (k pre : String) (nn : NamedNode) (introduced : List (String × Option NamedNode))
      (prefix_map : List (String × NamedNode))
      → meant k introduced prefix_map ≡ get k before
      → meant k (introduced ++ (pre, get pre prefix_map) ∷ []) (put pre nn prefix_map)
        ≡ get k before
  introduced-Tells k pre nn introduced prefix_map h = ground (
    arith,
    get-append k pre (get pre prefix_map) introduced,
    get-put pre k nn prefix_map,
    eq_iff pre k,
    h,
  )

  introduced-all :
      (pre : String) (nn : NamedNode) (introduced : List (String × Option NamedNode))
      (prefix_map : List (String × NamedNode))
      → ((k : String) → meant k introduced prefix_map ≡ get k before)
      → (k : String)
      → meant k (introduced ++ (pre, get pre prefix_map) ∷ []) (put pre nn prefix_map)
        ≡ get k before
  introduced-all pre nn introduced prefix_map h k =
      introduced-Tells k pre nn introduced prefix_map (h k)

  module _ (namespace subject : String) (path : List String) where
    declare_base-Tells :
        (value : String) (declared : Declared Bytes V)
        → Tells declared
        → Holds Tells (declare_base host values namespace subject path value declared)
    unfolding declare_base
    declare_base-Tells value declared h = skip Tells (or_fail (host.named_node value)) _ λ nn.
        skip Tells (push_iri_object fx_xmlns subject nn declared.pred_map) _ λ m.
          skip Tells (push_typed_text host values fx_xmlns_sep subject (use_sep nn) string_type m) _
            λ n. h

    declare_prefix-Tells :
        (key pre value : String) (declared : Declared Bytes V)
        → Tells declared
        → Holds Tells (declare_prefix host values namespace subject path key pre value declared)
    unfolding declare_prefix
    declare_prefix-Tells key pre value declared h =
        let prefix_subject = new_iri_subject host.new_v5 namespace (join (key ∷ path)) in
        skip Tells (or_fail (host.named_node value)) _ λ nn.
          skip Tells (push_iri_object xyz_prefix_iri subject prefix_subject declared.pred_map) _
            λ m. skip Tells (push_iri_object fx_xyz_prefix_iri prefix_subject nn m) _ λ n.
              skip Tells
                (push_typed_text host values fx_prefix_sep prefix_subject (use_sep nn) string_type
                  n)
                _
                λ i.
                  skip Tells
                    (push_typed_text host values fx_prefix_name prefix_subject pre string_type i) _
                    λ j. introduced-all pre nn declared.introduced declared.prefix_map h

    declare_key-Tells :
        (attr : Bytes × Bytes) (key value : String) (declared : Declared Bytes V)
        → Tells declared
        → Holds Tells (declare_key host values namespace subject path attr key value declared)
    unfolding declare_key declare_other
    declare_key-Tells attr key value declared h = elim (Bool-cases (key == "xmlns")) [
      | inl e ↦ rw (e, declare_key) (declare_base-Tells value declared h)
      | inr e ↦ elim (Option-cases (strip_prefix "xmlns:" key)) [
        | inr (pre, f) ↦ rw (e, f, declare_key) (declare_prefix-Tells key pre value declared h)
        | inl f ↦
            rw (e, f, declare_key)
              (elim (Bool-cases (key == "xml:lang")) [ inl g ↦ rw g h | inr g ↦ rw g h ])
      ]
    ]

    declare_attrs-Tells :
        (attrs : List (Bytes × Bytes)) (declared : Declared Bytes V)
        → Tells declared
        → Holds Tells (declare_attrs host values namespace subject path attrs declared)
    unfolding declare_attrs
    declare_attrs-Tells [] declared h = h
    declare_attrs-Tells (attr ∷ attrs) declared h = skip Tells (read_attr host attr) _ λ pair.
        >>=-Holds Tells Tells
          (declare_key host values namespace subject path attr pair.0 pair.1 declared) _
          (declare_key-Tells attr pair.0 pair.1 declared h)
          λ next hn. declare_attrs-Tells attrs next hn

  pub open_element-Tells :
      (namespace : String) (name : Bytes) (attrs : List (Option (Bytes × Bytes)))
      (stack : List Frame) (m : PredMap V) (base : NamedNode) (path : List String)
      → Holds OpenedTells (open_element host values namespace name attrs stack m before base path)
  unfolding open_element get
  open_element-Tells namespace name attrs stack m base path =
      let subject = new_iri_subject host.new_v5 namespace (join path) in
      skip OpenedTells (or_fail (host.from_utf8 name)) _ λ name_text.
        skip OpenedTells (link_parent host values subject stack m) _ λ linked.
          skip OpenedTells (collect_attrs attrs) _ λ attrs_vec.
            let nothing : Declared Bytes V = record {
              new_base_prefix = none;
              introduced = [];
              non_xmlns_attrs = [];
              pred_map = linked.1;
              prefix_map = before;
            } in
            >>=-Holds Tells OpenedTells
              (declare_attrs host values namespace subject path attrs_vec nothing) _
              (declare_attrs-Tells namespace subject path attrs_vec nothing (λ k. refl))
              λ declared hd.
                let use_base = unwrap_or declared.new_base_prefix base in
                skip OpenedTells
                  (push_attrs host values subject declared.non_xmlns_attrs declared.prefix_map
                    use_base declared.pred_map)
                  _
                  λ n.
                    skip OpenedTells (qname_to_iri host name_text declared.prefix_map use_base) _
                      λ type_iri.
                        skip OpenedTells (push_iri_object rdf_type subject type_iri n) _ λ k. hd
