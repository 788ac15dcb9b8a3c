-- ===== src/FacadeX/Xml/Opening.antt =====
-- `open_element`: an element is named, linked to its parent and typed, and its attributes are
-- read, first those that declare namespaces and then the others.
use maplib.Prelude.{
  ◌+◌, ◌%◌, ◌^◌, String, List, [], ◌∷◌, ◌++◌, Option, none, some, unwrap_or, if◌then◌else◌, ◌==◌,
  strip_prefix,
}
use maplib.Prelude.Maps.{get, put}
use maplib.Prelude.Outcomes.{Outcome, done, ◌>>=◌}
use maplib.Algebra.{NamedNode}
use maplib.Vocabulary.Xsd
use maplib.SeriesBuilder.{Values}
use maplib.SeriesBuilder.Pairs.{PredMap, unwrap}
use maplib.FacadeX.{
  xyz_prefix_iri, fx_root, fx_child, fx_child_number, fx_xmlns, fx_xmlns_sep, fx_xyz_prefix_iri,
  fx_prefix_sep, fx_prefix_name, rdf_type, join, new_iri_subject,
}
use maplib.FacadeX.Xml.{
  Host, Frame, or_fail, string_type, datatypes_map, use_sep, push_iri_object, push_iri_u32,
  push_typed_text, qname_to_iri,
}

-- what the first loop over the attributes fills
pub record Declared (Bytes V : Type 0) : Type 0 where
  pub new_base_prefix : Option NamedNode
  pub introduced : List (String × Option NamedNode)
  pub non_xmlns_attrs : List (Bytes × Bytes)
  pub pred_map : PredMap V
  pub prefix_map : List (String × NamedNode)

-- what `open_element` returns and leaves
pub record Opened (V : Type 0) : Type 0 where
  pub subject : String
  pub new_base_prefix : Option NamedNode
  pub introduced : List (String × Option NamedNode)
  pub stack : List Frame
  pub pred_map : PredMap V
  pub prefix_map : List (String × NamedNode)

-- `for attr in attrs`, whose items may be errors
unfoldable pub collect_attrs : {A : Type 0} → List (Option A) → Outcome (List A)
unfolding or_fail
collect_attrs [] = done []
collect_attrs (attr ∷ attrs) = do
  attr ← or_fail attr
  rest ← collect_attrs attrs
  done (attr ∷ rest)

module _ {Bytes : Type 0} (host : Host Bytes) where
  unfoldable pub read_attr : Bytes × Bytes → Outcome (String × String)
  unfolding or_fail
  read_attr attr = do
    key ← or_fail (host.from_utf8 attr.0)
    raw ← or_fail (host.from_utf8 attr.1)
    value ← or_fail (host.unescape raw)
    done (key, value)

module _ {Bytes V : Type 0} (host : Host Bytes) (values : Values V) where
  module _ (uuid_namespace subject : String) (path : List String) where
    -- `if key == "xmlns"`
    unfoldable pub declare_base : String → Declared Bytes V → Outcome (Declared Bytes V)
    unfolding or_fail push_iri_object push_typed_text use_sep
    declare_base value declared = do
      nn ← or_fail (host.named_node value)
      pred_map ← push_iri_object fx_xmlns subject nn declared.pred_map
      pred_map ← push_typed_text host values fx_xmlns_sep subject (use_sep nn) string_type pred_map
      done (record declared { new_base_prefix = some nn; pred_map = pred_map })

    -- `else if key.starts_with("xmlns:")`; `pre` is what follows
    unfoldable pub declare_prefix :
        String → String → String → Declared Bytes V → Outcome (Declared Bytes V)
    unfolding or_fail push_iri_object push_typed_text use_sep join new_iri_subject get put
    declare_prefix key pre value declared = do
      nn ← or_fail (host.named_node value)
      let prefix_subject = new_iri_subject host.new_v5 uuid_namespace (join (key ∷ path))
      pred_map ← push_iri_object xyz_prefix_iri subject prefix_subject declared.pred_map
      pred_map ← push_iri_object fx_xyz_prefix_iri prefix_subject nn pred_map
      pred_map ←
          push_typed_text host values fx_prefix_sep prefix_subject (use_sep nn) string_type pred_map
      pred_map ← push_typed_text host values fx_prefix_name prefix_subject pre string_type pred_map
      done (record declared {
        introduced = declared.introduced ++ (pre, get pre declared.prefix_map) ∷ [];
        pred_map = pred_map;
        prefix_map = put pre nn declared.prefix_map;
      })

    unfoldable pub declare_other : Bytes × Bytes → String → Declared Bytes V → Declared Bytes V
    declare_other attr key declared =
        if key == "xml:lang"
        then declared
        else record declared { non_xmlns_attrs = declared.non_xmlns_attrs ++ attr ∷ [] }

    unfoldable pub declare_key :
        Bytes × Bytes → String → String → Declared Bytes V → Outcome (Declared Bytes V)
    unfolding strip_prefix declare_base declare_prefix declare_other
    declare_key attr key value declared =
        if key == "xmlns" then declare_base value declared else (elim (strip_prefix "xmlns:" key) [
          | some pre ↦ declare_prefix key pre value declared
          | none ↦ done (declare_other attr key declared)
        ])

    -- `for attr in &attrs_vec`
    unfoldable pub declare_attrs :
        List (Bytes × Bytes) → Declared Bytes V → Outcome (Declared Bytes V)
    unfolding read_attr declare_key
    declare_attrs [] declared = done declared
    declare_attrs (attr ∷ attrs) declared = do
      (key, value) ← read_attr host attr
      next ← declare_key attr key value declared
      declare_attrs attrs next

  -- `for attr in non_xmlns_attrs`
  unfoldable pub push_attrs :
      String
      → List (Bytes × Bytes)
      → List (String × NamedNode)
      → NamedNode
      → PredMap V
      → Outcome (PredMap V)
  unfolding read_attr qname_to_iri unwrap get push_typed_text
  push_attrs subject [] prefix_map use_base_prefix pred_map = done pred_map
  push_attrs subject (attr ∷ attrs) prefix_map use_base_prefix pred_map = do
    (key, value) ← read_attr host attr
    pred ← qname_to_iri host key prefix_map use_base_prefix
    string_datatype ← unwrap (get Xsd.string datatypes_map)
    pred_map ← push_typed_text host values pred subject value string_datatype pred_map
    push_attrs subject attrs prefix_map use_base_prefix pred_map

  -- `if let Some(parent) = stack.last_mut() { … } else { … }`
  unfoldable pub link_parent : String → List Frame → PredMap V → Outcome (List Frame × PredMap V)
  unfolding push_iri_object push_iri_u32
  link_parent subject [] pred_map = do
    pred_map ← push_iri_object rdf_type subject fx_root pred_map
    done ([], pred_map)
  link_parent subject (parent ∷ stack) pred_map = do
    pred_map ← push_iri_object fx_child parent.subject subject pred_map
    pred_map ← push_iri_u32 values fx_child_number subject (parent.next_child % 2 ^ 32) pred_map
    done (record parent { next_child = parent.next_child + 1 } ∷ stack, pred_map)

  unfoldable pub open_element :
      String
      → Bytes
      → List (Option (Bytes × Bytes))
      → List Frame
      → PredMap V
      → List (String × NamedNode)
      → NamedNode
      → List String
      → Outcome (Opened V)
  unfolding or_fail join new_iri_subject link_parent collect_attrs declare_attrs push_attrs
      qname_to_iri push_iri_object
  open_element uuid_namespace name attrs stack pred_map prefix_map base_prefix path = do
    name ← or_fail (host.from_utf8 name)
    let subject = new_iri_subject host.new_v5 uuid_namespace (join path)
    (stack, pred_map) ← link_parent subject stack pred_map
    attrs_vec ← collect_attrs attrs
    declared ← declare_attrs uuid_namespace subject path attrs_vec (record {
      new_base_prefix = none;
      introduced = [];
      non_xmlns_attrs = [];
      pred_map = pred_map;
      prefix_map = prefix_map;
    })
    let use_base_prefix = unwrap_or declared.new_base_prefix base_prefix
    pred_map ←
        push_attrs subject declared.non_xmlns_attrs declared.prefix_map use_base_prefix
          declared.pred_map
    type_iri ← qname_to_iri host name declared.prefix_map use_base_prefix
    pred_map ← push_iri_object rdf_type subject type_iri pred_map
    done (record {
      subject = subject;
      new_base_prefix = declared.new_base_prefix;
      introduced = declared.introduced;
      stack = stack;
      pred_map = pred_map;
      prefix_map = declared.prefix_map;
    })
