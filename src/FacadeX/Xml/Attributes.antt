-- ===== src/FacadeX/Xml/Attributes.antt =====
-- The attributes of an element keep the columns as long as each other, and do not panic.
use maplib.Prelude.{
  String, List, [], ◌∷◌, Option, ◌==◌, Bool-cases, Option-cases, inl, inr, split_once, strip_prefix,
}
use maplib.Prelude.Maps.{get}
use maplib.Prelude.Outcomes.{Safe, >>=-Safe, Any}
use maplib.Algebra.{NamedNode}
use maplib.Vocabulary.Xsd
use maplib.SeriesBuilder.{Values}
use maplib.SeriesBuilder.Pairs.{PredMap, unwrap}
use maplib.SeriesBuilder.Even.{AllEven}
use maplib.FacadeX.Xml.{Host, or_fail, qname_to_iri}
use maplib.FacadeX.Xml.Opening.{
  Declared, collect_attrs, read_attr, declare_base, declare_prefix, declare_other, declare_key,
  declare_attrs, push_attrs,
}
use maplib.FacadeX.Xml.Columns.{or_fail-Any, push_iri_object-AllEven, push_typed_text-AllEven}

pub collect_attrs-Any : {A : Type 0} (attrs : List (Option A)) → Safe Any (collect_attrs attrs)
unfolding collect_attrs
collect_attrs-Any [] = tt
collect_attrs-Any (attr ∷ attrs) =
    >>=-Safe Any Any (or_fail attr) _ (or_fail-Any attr)
      λ a u. >>=-Safe Any Any (collect_attrs attrs) _ (collect_attrs-Any attrs) λ rest v. tt

module _ {Bytes V : Type 0} (host : Host Bytes) (values : Values V) where
  -- the columns that the first loop leaves
  abbrev DeclaredEven : Declared Bytes V → Type 0
  DeclaredEven declared = AllEven V declared.pred_map

  read_attr-Any : (attr : Bytes × Bytes) → Safe Any (read_attr host attr)
  unfolding read_attr
  read_attr-Any attr =
      >>=-Safe Any Any (or_fail (host.from_utf8 attr.0)) _ (or_fail-Any (host.from_utf8 attr.0))
        λ key u.
          >>=-Safe Any Any (or_fail (host.from_utf8 attr.1)) _ (or_fail-Any (host.from_utf8 attr.1))
            λ raw v.
              >>=-Safe Any Any (or_fail (host.unescape raw)) _ (or_fail-Any (host.unescape raw))
                λ value w. tt

  pub qname_to_iri-Any :
      (name : String) (prefix_map : List (String × NamedNode)) (base : NamedNode)
      → Safe Any (qname_to_iri host name prefix_map base)
  unfolding qname_to_iri
  qname_to_iri-Any name prefix_map base = elim (Option-cases (split_once b':' name)) [
    | inl e ↦ rw (e, qname_to_iri) (or_fail-Any _)
    | inr (pair, e) ↦
        rw (e, qname_to_iri)
          (>>=-Safe Any Any (or_fail (get pair.0 prefix_map)) _
            (or_fail-Any (get pair.0 prefix_map)) λ nn u. or_fail-Any _)
  ]

  module _ (uuid_namespace subject : String) (path : List String) where
    declare_base-AllEven :
        (value : String) (declared : Declared Bytes V)
        → DeclaredEven declared
        → Safe DeclaredEven (declare_base host values uuid_namespace subject path value declared)
    unfolding declare_base
    declare_base-AllEven value declared h =
        >>=-Safe Any DeclaredEven (or_fail (host.named_node value)) _
          (or_fail-Any (host.named_node value))
          λ nn u.
            >>=-Safe (AllEven V) DeclaredEven _ _
              (push_iri_object-AllEven _ _ _ declared.pred_map h)
              λ m hm.
                >>=-Safe (AllEven V) DeclaredEven _ _
                  (push_typed_text-AllEven host values _ _ _ _ m hm) λ n hn. hn

    declare_prefix-AllEven :
        (key pre value : String) (declared : Declared Bytes V)
        → DeclaredEven declared
        → Safe DeclaredEven
            (declare_prefix host values uuid_namespace subject path key pre value declared)
    unfolding declare_prefix
    declare_prefix-AllEven key pre value declared h =
        >>=-Safe Any DeclaredEven (or_fail (host.named_node value)) _
          (or_fail-Any (host.named_node value))
          λ nn u.
            >>=-Safe (AllEven V) DeclaredEven _ _
              (push_iri_object-AllEven _ _ _ declared.pred_map h)
              λ m hm.
                >>=-Safe (AllEven V) DeclaredEven _ _ (push_iri_object-AllEven _ _ _ m hm) λ n hn.
                  >>=-Safe (AllEven V) DeclaredEven _ _
                    (push_typed_text-AllEven host values _ _ _ _ n hn)
                    λ k hk.
                      >>=-Safe (AllEven V) DeclaredEven _ _
                        (push_typed_text-AllEven host values _ _ _ _ k hk) λ j hj. hj

    declare_key-AllEven :
        (attr : Bytes × Bytes) (key value : String) (declared : Declared Bytes V)
        → DeclaredEven declared
        → Safe DeclaredEven
            (declare_key host values uuid_namespace subject path attr key value declared)
    unfolding declare_key declare_other
    declare_key-AllEven attr key value declared h = elim (Bool-cases (key == "xmlns")) [
      | inl e ↦ rw (e, declare_key) (declare_base-AllEven value declared h)
      | inr e ↦ elim (Option-cases (strip_prefix "xmlns:" key)) [
        | inr (pre, f) ↦ rw (e, f, declare_key) (declare_prefix-AllEven key pre value declared h)
        | inl f ↦
            rw (e, f, declare_key)
              (elim (Bool-cases (key == "xml:lang")) [ inl g ↦ rw g h | inr g ↦ rw g h ])
      ]
    ]

    pub declare_attrs-AllEven :
        (attrs : List (Bytes × Bytes)) (declared : Declared Bytes V)
        → DeclaredEven declared
        → Safe DeclaredEven (declare_attrs host values uuid_namespace subject path attrs declared)
    unfolding declare_attrs
    declare_attrs-AllEven [] declared h = h
    declare_attrs-AllEven (attr ∷ attrs) declared h =
        >>=-Safe Any DeclaredEven (read_attr host attr) _ (read_attr-Any attr) λ pair u.
          >>=-Safe DeclaredEven DeclaredEven _ _ (declare_key-AllEven attr pair.0 pair.1 declared h)
            λ next hn. declare_attrs-AllEven attrs next hn

  pub push_attrs-AllEven :
      (subject : String) (attrs : List (Bytes × Bytes)) (prefix_map : List (String × NamedNode))
      (base : NamedNode) (m : PredMap V)
      → AllEven V m
      → Safe (AllEven V) (push_attrs host values subject attrs prefix_map base m)
  unfolding push_attrs unwrap get
  push_attrs-AllEven subject [] prefix_map base m h = h
  push_attrs-AllEven subject (attr ∷ attrs) prefix_map base m h =
      >>=-Safe Any (AllEven V) (read_attr host attr) _ (read_attr-Any attr) λ pair u.
        >>=-Safe Any (AllEven V) (qname_to_iri host pair.0 prefix_map base) _
          (qname_to_iri-Any pair.0 prefix_map base)
          λ pred v.
            >>=-Safe (AllEven V) (AllEven V) _ _
              (push_typed_text-AllEven host values pred subject pair.1 Xsd.string m h)
              λ n hn. push_attrs-AllEven subject attrs prefix_map base n hn
