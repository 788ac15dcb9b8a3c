-- ===== src/FacadeX/Xml/Safe.antt =====
-- No document makes the code panic: the columns are as long as each other after every event.
use Prim.Native.String
use maplib.Prelude.{
  to_string, ◌+◌, ◌≡◌, ◌≢◌, sym, String, true, false, List, [], ◌∷◌, Option, some, ◌==◌, arith,
  Bool-cases, subst, inl, inr,
}
use maplib.Prelude.Outcomes.{◌>>=◌, Outcome, done, failed, panicked, Safe, >>=-Safe, Any}
use maplib.Algebra.{NamedNode}
use maplib.Vocabulary.Xsd
use maplib.NodeTypes.{BaseRdfNodeType}
use maplib.SeriesBuilder.{Values, SeriesBuilder}
use maplib.SeriesBuilder.Pairs.{PredMap, unwrap}
use maplib.SeriesBuilder.Even.{IsEven, AllEven}
use maplib.FacadeX.{fx_child}
use maplib.FacadeX.Xml.{Host, Frame, push_text_child}
use maplib.FacadeX.Xml.Opening.{Declared, Opened, link_parent, open_element}
use maplib.FacadeX.Xml.Events.{
  Event, eof, start, empty, end_, text, cdata, other, State, on_start, on_empty, on_end,
  close_frame, on_string, is_eof, on_event, on_events,
}
use maplib.FacadeX.Xml.Attributes.{
  collect_attrs-Any, qname_to_iri-Any, declare_attrs-AllEven, push_attrs-AllEven,
}
use maplib.FacadeX.Xml.Columns.{
  or_fail-Any, push_iri_object-AllEven, push_iri_u32-AllEven, push_typed_text-AllEven,
}
use maplib.SeriesBuilder.{len, is_empty}
use maplib.SeriesBuilder.Pairs.{ByObjectType, BySubjectType}
use maplib.SeriesBuilder.Even.{AllBy}
use maplib.SeriesBuilder.Kept.{counted}
use maplib.FacadeX.{use_uuid_namespace}
use maplib.FacadeX.Xml.Events.{flush_objects, flush_subjects, flush_pred_map, start_state, map_xml}

module _ {Bytes V : Type 0} (host : Host Bytes) (values : Values V) where
  -- the columns that are left
  abbrev LinkedEven : List Frame × PredMap V → Type 0
  LinkedEven linked = AllEven V linked.1

  abbrev DeclaredEven : Declared Bytes V → Type 0
  DeclaredEven declared = AllEven V declared.pred_map

  abbrev OpenedEven : Opened V → Type 0
  OpenedEven opened = AllEven V opened.pred_map

  abbrev StateEven : State V → Type 0
  StateEven st = AllEven V st.pred_map

  link_parent-AllEven :
      (subject : String) (stack : List Frame) (m : PredMap V)
      → AllEven V m
      → Safe LinkedEven (link_parent host values subject stack m)
  unfolding link_parent
  link_parent-AllEven subject [] m h =
      >>=-Safe (AllEven V) LinkedEven _ _ (push_iri_object-AllEven _ _ _ m h) λ n hn. hn
  link_parent-AllEven subject (parent ∷ stack) m h =
      >>=-Safe (AllEven V) LinkedEven _ _ (push_iri_object-AllEven _ _ _ m h) λ n hn.
        >>=-Safe (AllEven V) LinkedEven _ _ (push_iri_u32-AllEven values _ _ _ n hn) λ k hk. hk

  open_element-AllEven :
      (namespace : String) (name : Bytes) (attrs : List (Option (Bytes × Bytes)))
      (stack : List Frame) (m : PredMap V) (prefix_map : List (String × NamedNode))
      (base : NamedNode) (path : List String)
      → AllEven V m
      → Safe OpenedEven (open_element host values namespace name attrs stack m prefix_map base path)
  unfolding open_element
  open_element-AllEven namespace name attrs stack m prefix_map base path h =
      >>=-Safe Any OpenedEven _ _ (or_fail-Any (host.from_utf8 name)) λ name u.
        >>=-Safe LinkedEven OpenedEven _ _ (link_parent-AllEven _ stack m h) λ linked hl.
          >>=-Safe Any OpenedEven _ _ (collect_attrs-Any attrs) λ attrs_vec v.
            >>=-Safe DeclaredEven OpenedEven _ _
              (declare_attrs-AllEven host values namespace _ path attrs_vec _ hl)
              λ declared hd.
                >>=-Safe (AllEven V) OpenedEven _ _
                  (push_attrs-AllEven host values _ declared.non_xmlns_attrs _ _ _ hd)
                  λ n hn.
                    >>=-Safe Any OpenedEven _ _ (qname_to_iri-Any host values name _ _)
                      λ type_iri w.
                        >>=-Safe (AllEven V) OpenedEven _ _ (push_iri_object-AllEven _ _ _ n hn)
                          λ k hk. hk

  module _ (namespace : String) where
    push_text_child-AllEven :
        (s : String) (stack : List Frame) (m : PredMap V)
        → AllEven V m
        → Safe (AllEven V) (push_text_child host values s stack m)
    unfolding push_text_child
    push_text_child-AllEven s [] m h = h
    push_text_child-AllEven s (frame ∷ stack) m h = elim (Bool-cases (s == "")) [
      | inl e ↦ rw e h
      | inr e ↦ rw e (push_typed_text-AllEven host values fx_child frame.subject s Xsd.string m h)
    ]

    on_string-StateEven :
        (s : String) (st : State V)
        → StateEven st
        → Safe StateEven (on_string host values namespace s st)
    unfolding on_string
    on_string-StateEven s st h = elim (Bool-cases (s == "")) [
      | inl e ↦ rw (e, on_string) h
      | inr e ↦
          rw (e, on_string)
            (>>=-Safe (AllEven V) StateEven _ _ (push_text_child-AllEven s st.stack st.pred_map h)
              λ m hm. hm)
    ]

    close_frame-pred_map : (st : State V) → (close_frame st).pred_map ≡ st.pred_map
    unfolding close_frame
    close_frame-pred_map st = ground arith

    on_event-StateEven :
        (event : Event Bytes) (st : State V)
        → StateEven st
        → Safe StateEven (on_event host values namespace event st)
    unfolding on_event on_start on_empty on_end
    on_event-StateEven eof st h = h
    on_event-StateEven other st h = h
    on_event-StateEven (start name attrs) st h =
        >>=-Safe Any StateEven _ _ (or_fail-Any (host.from_utf8 name)) λ name_path u.
          let path =
            String.◌++◌ name_path (String.◌++◌ "_" (to_string st.current_counter)) ∷ st.path in
          >>=-Safe OpenedEven StateEven
            (open_element host values namespace name attrs st.stack st.pred_map st.prefix_map
              st.base_prefix path)
            _
            (open_element-AllEven namespace name attrs st.stack st.pred_map st.prefix_map
              st.base_prefix path h)
            λ opened ho. ho
    on_event-StateEven (empty name attrs) st h =
        let path = to_string (st.current_counter + 1) ∷ st.path in
        >>=-Safe OpenedEven StateEven
          (open_element host values namespace name attrs st.stack st.pred_map st.prefix_map
            st.base_prefix path)
          _
          (open_element-AllEven namespace name attrs st.stack st.pred_map st.prefix_map
            st.base_prefix path h)
          λ opened ho. ho
    on_event-StateEven end_ st h = subst (AllEven V) (sym (close_frame-pred_map st)) h
    on_event-StateEven (text t) st h =
        >>=-Safe Any StateEven _ _ (or_fail-Any (host.decode t)) λ raw u.
          >>=-Safe Any StateEven _ _ (or_fail-Any (host.unescape raw))
            λ s v. on_string-StateEven s st h
    on_event-StateEven (cdata t) st h =
        >>=-Safe Any StateEven _ _ (or_fail-Any (host.from_utf8 t))
          λ s v. on_string-StateEven s st h

    on_events-StateEven :
        (events : List (Option (Event Bytes))) (st : State V)
        → StateEven st
        → Safe StateEven (on_events host values namespace events st)
    unfolding on_events
    on_events-StateEven [] st h = h
    on_events-StateEven (read ∷ events) st h =
        >>=-Safe Any StateEven _ _ (or_fail-Any read) λ event u.
          elim (is_eof host values namespace event)
            as (λ b. Safe StateEven (elim b [
              | true ↦ done st
              | false ↦ on_event host values namespace event st >>= λ next.
                  on_events host values namespace events next
            ])) [
              | true ↦ h
              | false ↦
                  >>=-Safe StateEven StateEven _ _ (on_event-StateEven event st h)
                    λ next hn. on_events-StateEven events next hn
            ]

Safe-panicked : {A : Type 0} (m : Outcome A) → Safe Any m → m ≢ panicked
Safe-panicked (done a) h e = cc
Safe-panicked failed h e = cc
Safe-panicked panicked h e = h

-- `DataFrame::new` accepts two columns of one height, which is the number of their values
abbrev pub Frames : {V Df : Type 0} → (SeriesBuilder V → SeriesBuilder V → Option Df) → Type 0
Frames {V} {Df} data_frame =
    (sb ob : SeriesBuilder V)
    → counted sb ≡ true
    → counted ob ≡ true
    → len sb ≡ len ob
    → (df : Df) × (data_frame sb ob ≡ some df)

module _ {V Df : Type 0} (data_frame : SeriesBuilder V → SeriesBuilder V → Option Df)
    (frames : Frames data_frame) where
  flush_objects-Any :
      (p : NamedNode) (s : BaseRdfNodeType) (bot : ByObjectType V)
      → AllBy (IsEven V s) bot
      → Safe Any (flush_objects data_frame p s bot)
  unfolding flush_objects
  flush_objects-Any p s [] h = tt
  flush_objects-Any p s ((o, (sb, ob)) ∷ bot) (even, h) = elim (Bool-cases (is_empty sb)) [
    | inl e ↦ rw e (flush_objects-Any p s bot h)
    | inr e ↦
        let (df, made) = frames sb ob even.subjects_counted even.objects_counted even.lengths in
        rw (e, made, unwrap)
          (>>=-Safe Any Any (flush_objects data_frame p s bot) _ (flush_objects-Any p s bot h)
            λ rest u. tt)
  ]

  flush_subjects-Any :
      (p : NamedNode) (bst : BySubjectType V)
      → AllBy (λ s bot. AllBy (IsEven V s) bot) bst
      → Safe Any (flush_subjects data_frame p bst)
  unfolding flush_subjects
  flush_subjects-Any p [] h = tt
  flush_subjects-Any p ((s, bot) ∷ bst) h =
      >>=-Safe Any Any (flush_objects data_frame p s bot) _ (flush_objects-Any p s bot h.0)
        λ here u.
          >>=-Safe Any Any (flush_subjects data_frame p bst) _ (flush_subjects-Any p bst h.1)
            λ rest v. tt

  flush_pred_map-Any : (m : PredMap V) → AllEven V m → Safe Any (flush_pred_map data_frame m)
  unfolding flush_pred_map
  flush_pred_map-Any [] h = tt
  flush_pred_map-Any ((p, bst) ∷ m) h =
      >>=-Safe Any Any (flush_subjects data_frame p bst) _ (flush_subjects-Any p bst h.0) λ here u.
        >>=-Safe Any Any (flush_pred_map data_frame m) _ (flush_pred_map-Any m h.1) λ rest v. tt

  map_xml-Any :
      {Bytes : Type 0} (host : Host Bytes) (values : Values V)
      (events : List (Option (Event Bytes))) (uuid_namespace : Option String) (new_v4 : String)
      → Safe Any (map_xml host values data_frame events uuid_namespace new_v4)
  unfolding map_xml start_state
  map_xml-Any host values events uuid_namespace new_v4 =
      let namespace = use_uuid_namespace host.new_v5 uuid_namespace new_v4 in
      >>=-Safe (StateEven host values) Any (on_events host values namespace events start_state) _
        (on_events-StateEven host values namespace events start_state tt)
        λ last h. flush_pred_map-Any last.pred_map h

  -- Whatever events and errors the reader finds, `map_xml` does not panic: its result is data
  -- frames or an error, if `DataFrame::new` accepts two columns of one height.
  pub map_xml-Safe :
      {Bytes : Type 0} (host : Host Bytes) (values : Values V)
      (events : List (Option (Event Bytes))) (uuid_namespace : Option String) (new_v4 : String)
      → map_xml host values data_frame events uuid_namespace new_v4 ≢ panicked
  map_xml-Safe host values events uuid_namespace new_v4 =
      Safe-panicked (map_xml host values data_frame events uuid_namespace new_v4)
        (map_xml-Any host values events uuid_namespace new_v4)
