-- ===== src/FacadeX/Xml/Elements.antt =====
-- What the end of an element restores.
use Prim.Native.String
use maplib.Prelude.{
  ℕ, ◌+◌, ◌≡◌, refl, ◌∙◌, ap, String, true, List, ◌∷◌, Option, none, some, unwrap_or, arith, subst,
  to_string,
}
use maplib.Prelude.Maps.{get, distinct}
use maplib.Prelude.Outcomes.{Outcome, done, failed, panicked, Holds, >>=-Holds, skip}
use maplib.Algebra.{NamedNode}
use maplib.SeriesBuilder.{Values}
use maplib.FacadeX.{pop}
use maplib.FacadeX.Xml.{Host, Frame, or_fail}
use maplib.FacadeX.Xml.Opening.{open_element}
use maplib.FacadeX.Xml.Scope.{meant, get-restore_prefixes, OpenedTells, open_element-Tells}
use maplib.FacadeX.Xml.Events.{State, restore_prefixes, pop_counter, on_start, on_end, close_frame}

module _ {V : Type 0} where
  -- what the loop is in when the last child of an element has ended: the frame of the element is
  -- the first of the stack, with some count of children, and the rest is as after the start
  pub record Inside (opened last : State V) : Type 0 where
    pub frame : Frame
    pub below : List Frame
    pub count : ℕ
    pub opened_stack : opened.stack ≡ frame ∷ below
    pub last_stack : last.stack ≡ record frame { next_child = count } ∷ below
    pub prefixes : (k : String) → get k last.prefix_map ≡ get k opened.prefix_map
    pub base_prefix : last.base_prefix ≡ opened.base_prefix
    pub path : last.path ≡ opened.path
    pub counter_stack : last.counter_stack ≡ opened.counter_stack

  -- no prefix is declared twice by the element
  abbrev pub DeclaredOnce : {opened last : State V} → Inside opened last → Type 0
  DeclaredOnce inside = distinct inside.frame.introduced_prefixed_namespaces ≡ true

  -- everything but the triples and the parent's count of children is as before, and one more
  -- element is counted
  pub record Restored (st next : State V) : Type 0 where
    pub prefixes : (k : String) → get k next.prefix_map ≡ get k st.prefix_map
    pub base_prefix : next.base_prefix ≡ st.base_prefix
    pub path : next.path ≡ st.path
    pub current_counter : next.current_counter ≡ st.current_counter + 1
    pub counter_stack : next.counter_stack ≡ st.counter_stack

  -- what the start of an element leaves for its end
  record Started (st opened : State V) : Type 0 where
    pub frame : Frame
    pub below : List Frame
    pub stack : opened.stack ≡ frame ∷ below
    pub prefixes :
        (k : String)
        → meant k frame.introduced_prefixed_namespaces opened.prefix_map ≡ get k st.prefix_map
    pub base_prefix : unwrap_or frame.previous_base_prefix opened.base_prefix ≡ st.base_prefix
    pub path : pop opened.path ≡ st.path
    pub counters : opened.counter_stack ≡ (st.current_counter + 1) ∷ st.counter_stack

closed :
    {V : Type 0} (last : State V) (frame : Frame) (below : List Frame)
    → last.stack ≡ frame ∷ below
    → close_frame last ≡ record last {
      prefix_map = restore_prefixes frame.introduced_prefixed_namespaces last.prefix_map;
      base_prefix = unwrap_or frame.previous_base_prefix last.base_prefix;
      stack = below;
    }
unfolding close_frame
closed last frame below h = rw (h, close_frame) refl

meant_same :
    (k : String) (introduced : List (String × Option NamedNode)) (m n : List (String × NamedNode))
    → get k m ≡ get k n
    → meant k introduced m ≡ meant k introduced n
meant_same k introduced m n h = ground (arith, h)

previous_base :
    (new_base_prefix : Option NamedNode) (base : NamedNode)
    → unwrap_or
        (elim new_base_prefix [ some nn ↦ some base | none ↦ none ])
        (unwrap_or new_base_prefix base)
      ≡ base
previous_base none base = refl
previous_base (some nn) base = refl

pub done-Holds :
    {A : Type 0} (P : A → Type 0) (m : Outcome A) (a : A) → m ≡ done a → Holds P m → P a
done-Holds P (done b) a e h = subst P (cc e) h
done-Holds P failed a e h = cc
done-Holds P panicked a e h = cc

module _ {Bytes V : Type 0} (host : Host Bytes) (values : Values V) (namespace : String) where
  on_start-Started :
      (name : Bytes) (attrs : List (Option (Bytes × Bytes))) (st : State V)
      → Holds (Started st) (on_start host values namespace name attrs st)
  unfolding on_start pop
  on_start-Started name attrs st = skip (Started st) (or_fail (host.from_utf8 name)) _ λ name_path.
      let path = String.◌++◌ name_path (String.◌++◌ "_" (to_string st.current_counter)) ∷ st.path in
      >>=-Holds (OpenedTells host values st.prefix_map) (Started st)
        (open_element host values namespace name attrs st.stack st.pred_map st.prefix_map
          st.base_prefix path)
        _
        (open_element-Tells host values st.prefix_map namespace name attrs st.stack st.pred_map
          st.base_prefix path)
        λ opened tells. record {
          frame = record {
            subject = opened.subject;
            next_child = 1;
            previous_base_prefix = elim opened.new_base_prefix [
              | some new_base_prefix ↦ some st.base_prefix
              | none ↦ none
            ];
            introduced_prefixed_namespaces = opened.introduced;
          };
          below = opened.stack;
          stack = refl;
          prefixes = tells;
          base_prefix = previous_base opened.new_base_prefix st.base_prefix;
          path = refl;
          counters = refl;
        }

  -- The end of an element restores what its start changed, if between them the frame of the
  -- element stays on the stack and the rest is as it was, and if the element declares no prefix
  -- twice: the meaning of every prefix, the base prefix, the path and the stack of counters; and
  -- the element is counted.
  pub on_end-on_start :
      (name : Bytes) (attrs : List (Option (Bytes × Bytes))) (st opened last : State V)
      → on_start host values namespace name attrs st ≡ done opened
      → (inside : Inside opened last) → DeclaredOnce inside
      → Restored st (on_end last)
  unfolding on_end pop_counter
  on_end-on_start name attrs st opened last e inside once =
      let started =
        done-Holds (Started st) (on_start host values namespace name attrs st) opened e
          (on_start-Started name attrs st) in
      let same : inside.frame ≡ started.frame = cc (inside.opened_stack, started.stack) in
      let introduced = inside.frame.introduced_prefixed_namespaces in
      let close = closed last _ inside.below inside.last_stack in
      record {
        prefixes = λ k. rw close (
            get-restore_prefixes k introduced last.prefix_map once
            ∙ (meant_same k introduced last.prefix_map opened.prefix_map (inside.prefixes k)
                ∙ rw same (started.prefixes k)));
        base_prefix = rw (close, inside.base_prefix, same) started.base_prefix;
        path = ap pop inside.path ∙ started.path;
        current_counter = rw (inside.counter_stack, started.counters) refl;
        counter_stack = rw (inside.counter_stack, started.counters) refl;
      }
