-- ===== src/FacadeX/Xml/Events.antt =====
-- The loop over the events of the reader, and `map_xml` as far as its call of `add_triples_vec`.
use Prim.Native.String
use maplib.Prelude.{
  ℕ, ◌+◌, String, Bool, true, false, List, [], ◌∷◌, ◌++◌, Option, none, some, unwrap_or,
  if◌then◌else◌, ◌==◌, to_string,
}
use maplib.Prelude.Maps.{put, remove}
use maplib.Prelude.Outcomes.{Outcome, done, ◌>>=◌}
use maplib.Algebra.{NamedNode}
use maplib.NodeTypes.{BaseRdfNodeType}
use maplib.SeriesBuilder.{Values, SeriesBuilder, is_empty}
use maplib.SeriesBuilder.Pairs.{ByObjectType, BySubjectType, PredMap, unwrap}
use maplib.FacadeX.{TriplesToAdd, xyz_prefix_iri, pop, use_uuid_namespace}
use maplib.FacadeX.Xml.{Host, Frame, or_fail, push_text_child}
use maplib.FacadeX.Xml.Opening.{open_element}

-- `quick_xml::events::Event`; `other` is any event that the code passes over
pub data Event (Bytes : Type 0) : Type 0 where
  eof : Event Bytes
  start : Bytes → List (Option (Bytes × Bytes)) → Event Bytes
  empty : Bytes → List (Option (Bytes × Bytes)) → Event Bytes
  end_ : Event Bytes
  text : Bytes → Event Bytes
  cdata : Bytes → Event Bytes
  other : Event Bytes

-- the variables of the loop; stacks and the path are kept with their last entry first
pub record State (V : Type 0) : Type 0 where
  pub pred_map : PredMap V
  pub prefix_map : List (String × NamedNode)
  pub base_prefix : NamedNode
  pub stack : List Frame
  pub path : List String
  pub current_counter : ℕ
  pub counter_stack : List ℕ

-- `for (pre, overridden) in introduced_prefixed_namespaces`
unfoldable pub restore_prefixes :
    List (String × Option NamedNode) → List (String × NamedNode) → List (String × NamedNode)
unfolding put remove
restore_prefixes [] prefix_map = prefix_map
restore_prefixes ((pre, some overridden) ∷ introduced) prefix_map =
    restore_prefixes introduced (put pre overridden prefix_map)
restore_prefixes ((pre, none) ∷ introduced) prefix_map =
    restore_prefixes introduced (remove pre prefix_map)

-- `counter_stack.pop().unwrap_or(0)`, and what is left
unfoldable pub pop_counter : List ℕ → ℕ × List ℕ
pop_counter [] = (0, [])
pop_counter (counter ∷ counter_stack) = (counter, counter_stack)

module _ {V : Type 0} where
  -- `if let Some(Frame { … }) = stack.pop() { … }`
  unfoldable pub close_frame : State V → State V
  unfolding restore_prefixes
  close_frame st = elim st.stack [
    | [] ↦ st
    | frame ∷ stack ↦ record st {
      prefix_map = restore_prefixes frame.introduced_prefixed_namespaces st.prefix_map;
      base_prefix = unwrap_or frame.previous_base_prefix st.base_prefix;
      stack = stack;
    }
  ]

  -- `Event::End(_)`
  unfoldable pub on_end : State V → State V
  unfolding close_frame pop_counter pop
  on_end st =
      let closed = close_frame st in
      let (counter, counter_stack) = pop_counter st.counter_stack in
      record closed { path = pop st.path; current_counter = counter; counter_stack = counter_stack }

module _ {Bytes V : Type 0} (host : Host Bytes) (values : Values V) (uuid_namespace : String) where
  -- `Event::Start(e)`
  unfoldable pub on_start : Bytes → List (Option (Bytes × Bytes)) → State V → Outcome (State V)
  unfolding or_fail open_element
  on_start name attrs st = do
    name_path ← or_fail (host.from_utf8 name)
    let path = String.◌++◌ name_path (String.◌++◌ "_" (to_string st.current_counter)) ∷ st.path
    opened ←
        open_element host values uuid_namespace name attrs st.stack st.pred_map st.prefix_map
          st.base_prefix path
    done (record {
      pred_map = opened.pred_map;
      prefix_map = opened.prefix_map;
      base_prefix = unwrap_or opened.new_base_prefix st.base_prefix;
      stack =
          record {
            subject = opened.subject;
            next_child = 1;
            previous_base_prefix = elim opened.new_base_prefix [
              | some new_base_prefix ↦ some st.base_prefix
              | none ↦ none
            ];
            introduced_prefixed_namespaces = opened.introduced;
          }
          ∷ opened.stack;
      path = path;
      current_counter = 0;
      counter_stack = (st.current_counter + 1) ∷ st.counter_stack;
    })

  -- `Event::Empty(e)`
  unfoldable pub on_empty : Bytes → List (Option (Bytes × Bytes)) → State V → Outcome (State V)
  unfolding open_element pop
  on_empty name attrs st = do
    let counter = st.current_counter + 1
    let path = to_string counter ∷ st.path
    opened ←
        open_element host values uuid_namespace name attrs st.stack st.pred_map st.prefix_map
          st.base_prefix path
    done (record st {
      pred_map = opened.pred_map;
      prefix_map = opened.prefix_map;
      stack = opened.stack;
      path = pop path;
      current_counter = counter;
    })

  -- `if !s.is_empty() { push_text_child(…)?; }`
  unfoldable pub on_string : String → State V → Outcome (State V)
  unfolding push_text_child
  on_string s st =
      if s == ""
      then done st
      else (push_text_child host values s st.stack st.pred_map >>= λ pred_map.
          done (record st { pred_map = pred_map }))

  unfoldable pub on_event : Event Bytes → State V → Outcome (State V)
  unfolding on_start on_empty on_end on_string or_fail
  on_event eof st = done st
  on_event (start name attrs) st = on_start name attrs st
  on_event (empty name attrs) st = on_empty name attrs st
  on_event end_ st = done (on_end st)
  on_event (text t) st = do
    raw ← or_fail (host.decode t)
    s ← or_fail (host.unescape raw)
    on_string s st
  on_event (cdata t) st = do s ← or_fail (host.from_utf8 t); on_string s st
  on_event other st = done st

  -- `break` at `Event::Eof`
  unfoldable pub is_eof : Event Bytes → Bool
  is_eof eof = true
  is_eof event = false

  -- the loop, which `Eof` ends whatever follows it
  unfoldable pub on_events : List (Option (Event Bytes)) → State V → Outcome (State V)
  unfolding on_event or_fail is_eof
  on_events [] st = done st
  on_events (read ∷ events) st = do
    event ← or_fail read
    elim (is_eof event) [
      | true ↦ done st
      | false ↦ on_event event st >>= λ next. on_events events next
    ]

-- the variables before the loop
unfoldable pub start_state : {V : Type 0} → State V
start_state = record {
  pred_map = [];
  prefix_map = [];
  base_prefix = xyz_prefix_iri;
  stack = [];
  path = [];
  current_counter = 0;
  counter_stack = [];
}

-- `flush_pred_map` as far as its call of `add_triples_vec`; `data_frame` is `DataFrame::new` of
-- the finished columns
module _ {V Df : Type 0} (data_frame : SeriesBuilder V → SeriesBuilder V → Option Df) where
  -- `for (object_type, (sb, ob)) in obj_map`
  unfoldable pub flush_objects :
      NamedNode → BaseRdfNodeType → ByObjectType V → Outcome (List (TriplesToAdd Df))
  unfolding is_empty unwrap
  flush_objects pred_iri subject_type [] = done []
  flush_objects pred_iri subject_type ((object_type, (sb, ob)) ∷ obj_map) =
      let rest = flush_objects pred_iri subject_type obj_map in
      if is_empty sb
      then rest
      else (unwrap (data_frame sb ob) >>= λ df. rest >>= λ tta_vec. done (
          record {
            df = df;
            subject_type = subject_type;
            object_type = object_type;
            predicate = pred_iri;
          }
          ∷ tta_vec))

  -- `for (subject_type, obj_map) in sub_map`
  unfoldable pub flush_subjects : NamedNode → BySubjectType V → Outcome (List (TriplesToAdd Df))
  unfolding flush_objects
  flush_subjects pred_iri [] = done []
  flush_subjects pred_iri ((subject_type, obj_map) ∷ sub_map) = do
    here ← flush_objects pred_iri subject_type obj_map
    rest ← flush_subjects pred_iri sub_map
    done (here ++ rest)

  unfoldable pub flush_pred_map : PredMap V → Outcome (List (TriplesToAdd Df))
  unfolding flush_subjects
  flush_pred_map [] = done []
  flush_pred_map ((pred_iri, sub_map) ∷ pred_map) = do
    here ← flush_subjects pred_iri sub_map
    rest ← flush_pred_map pred_map
    done (here ++ rest)

-- `events` are those that the reader finds, and its errors
unfoldable pub map_xml :
    {Bytes V Df : Type 0}
    → Host Bytes
    → Values V
    → (SeriesBuilder V → SeriesBuilder V → Option Df)
    → List (Option (Event Bytes))
    → Option String
    → String
    → Outcome (List (TriplesToAdd Df))
unfolding use_uuid_namespace on_events start_state flush_pred_map
map_xml host values data_frame events uuid_namespace new_v4 =
    let namespace = use_uuid_namespace host.new_v5 uuid_namespace new_v4 in
    do
      last ← on_events host values namespace events start_state
      flush_pred_map data_frame last.pred_map
