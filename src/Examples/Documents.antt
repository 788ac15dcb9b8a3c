-- ===== src/Examples/Documents.antt =====
-- Documents with a host of ASCII letters and of identifiers that are the names themselves.
use Prim.Native.Char.{Char, code}
use Prim.Native.String
use maplib.Prelude.{
  ℕ, ◌≡◌, refl, String, Bool, ◌||◌, ◌&&◌, List, [], ◌∷◌, Option, none, some, leb, Each, Some,
}
use maplib.FacadeX.{xyz_prefix_iri}
use maplib.FacadeX.Json.{
  Host, Value, number, string, null, object, array, no_fields, field, no_items, item,
}
use maplib.FacadeX.Json.Tables.{Cell}
use maplib.FacadeX.Json.Described.{Documented}
use maplib.FacadeX.{TriplesToAdd, use_uuid_namespace}
use maplib.FacadeX.Json.Document.{map_json}
use maplib.FacadeX.Json.Mapped.{document, map_json-document}
use maplib.FacadeX.Json.Batches.{IsBatch, IsFor, Frames}
use maplib.Prelude.{◌≢◌, strip_prefix}
use maplib.Prelude.Maps.{get, distinct}
use maplib.Prelude.Outcomes.{Outcome, done, failed, panicked}
use maplib.SeriesBuilder.{SeriesBuilder, Values}
use maplib.FacadeX.Xml
use maplib.FacadeX.Xml.{Frame}
use maplib.FacadeX.Xml.Events.{
  Event, eof, start, empty, end_, text, State, on_start, on_empty, on_end, map_xml,
}
use maplib.FacadeX.Xml.Safe
use maplib.FacadeX.Xml.Safe.{map_xml-Safe}
use maplib.FacadeX.Xml.Elements.{Inside, Restored, on_end-on_start}
use maplib.FacadeX.Xml.Leaks.{on_empty_leaks}

abbrev ascii_digit : Char → Bool
ascii_digit c = leb b'0' (code c) && leb (code c) b'9'

abbrev ascii_letter : Char → Bool
ascii_letter c = leb b'a' (code c) && leb (code c) b'z'

-- a number is an integer, or `none` for one that is no i64
abbrev host : Host (Option ℕ) ℕ ℕ
host = record {
  as_i64 = λ n. n;
  as_f64 = λ n. some 0;
  is_numeric = ascii_digit;
  is_alphanumeric = λ c. ascii_digit c || ascii_letter c;
  named_node = λ s. some s;
  new_v5 = λ namespace name. String.◌++◌ namespace (String.◌++◌ "/" name);
}

host-Documented : Documented host xyz_prefix_iri
host-Documented = record { numbers = λ n h. (0, refl); iris = λ s h. refl }

-- {"a b": [1, null], "c": "d", "e": 1.5}
abbrev sample : Value (Option ℕ)
sample = object (
    field "a b" (array (item (number (some 1)) (item null no_items)))
      (field "c" (string "d") (field "e" (number none) no_fields)))

abbrev slice : Unit {0} → Option (Value (Option ℕ))
slice u = some sample

abbrev frame : List String → List (Cell ℕ ℕ) → Option (List String × List (Cell ℕ ℕ))
frame subjects objects = some (subjects, objects)

frames : Frames frame
frames ss os h = ((ss, os), refl)

map_json-document_example :
    (batches : List (TriplesToAdd (List String × List (Cell ℕ ℕ)))) × (map_json host slice frame tt
        (some "n")
        ""
      ≡ some batches)
    × Each
        (IsBatch frame (document host (use_uuid_namespace host.new_v5 (some "n") "") sample))
        batches
    × Each
        (λ t. Some (IsFor frame t.predicate t.kind) batches)
        (document host (use_uuid_namespace host.new_v5 (some "n") "") sample)
map_json-document_example =
    map_json-document host slice frame host-Documented frames tt (some "n") "" sample refl

-- texts as their own bytes, and IRIs that are not checked
abbrev xml_host : Xml.Host String
xml_host = record {
  from_utf8 = λ s. some s;
  decode = λ s. some s;
  unescape = λ s. some s;
  trim = λ s. s;
  named_node = λ s. some s;
  new_v5 = λ namespace name. String.◌++◌ namespace (String.◌++◌ "/" name);
}

-- values that are all read
abbrev values : Values (Unit {0})
values = record {
  parse_bool = λ s. some tt;
  parse_u8 = λ s. some tt;
  parse_u16 = λ s. some tt;
  parse_u32 = λ s. some tt;
  parse_u64 = λ s. some tt;
  parse_i8 = λ s. some tt;
  parse_i16 = λ s. some tt;
  parse_i32 = λ s. some tt;
  parse_i64 = λ s. some tt;
  parse_f32 = λ s. some tt;
  parse_f64 = λ s. some tt;
  naive_date = λ s. some tt;
  utc_datetime = λ s. some tt;
  naive_datetime = λ s. some tt;
  decimal_mantissa = λ s. some tt;
  of_u32 = λ u. tt;
}

abbrev xml_frame :
    SeriesBuilder (Unit {0})
    → SeriesBuilder (Unit {0})
    → Option (SeriesBuilder (Unit {0}) × SeriesBuilder (Unit {0}))
xml_frame sb ob = some (sb, ob)

xml_frame-Frames : Safe.Frames xml_frame
xml_frame-Frames sb ob c d h = ((sb, ob), refl)

-- <a xmlns:p="urn:u">text<p:b/></a>
abbrev xml_events : List (Option (Event String))
xml_events =
    some (start "a" (some ("xmlns:p", "urn:u") ∷ []))
    ∷ some (text "text")
    ∷ some (empty "p:b" [])
    ∷ some end_
    ∷ some eof
    ∷ []

map_xml-Safe_example : map_xml xml_host values xml_frame xml_events (some "n") "" ≢ panicked
map_xml-Safe_example =
    map_xml-Safe xml_frame xml_frame-Frames xml_host values xml_events (some "n") ""

-- the result, or a state for a run without one
abbrev result_or : {A : Type 0} → Outcome A → A → A
result_or (done a) b = a
result_or failed b = b
result_or panicked b = b

abbrev declares_p : List (Option (String × String))
declares_p = some ("xmlns:p", "urn:u") ∷ []

abbrev initial : State (Unit {0})
initial = record {
  pred_map = [];
  prefix_map = ("p", "urn:outer") ∷ [];
  base_prefix = "urn:base";
  stack = [];
  path = [];
  current_counter = 0;
  counter_stack = [];
}

abbrev opened : State (Unit {0})
opened = result_or (on_start xml_host values "n" "a" declares_p initial) initial

abbrev a_frame : Frame
a_frame = record {
  subject = "urn:maplib:n/a_0";
  next_child = 1;
  previous_base_prefix = none;
  introduced_prefixed_namespaces = ("p", some "urn:outer") ∷ [];
}

inside : Inside opened opened
unfolding on_start
inside = record {
  frame = a_frame;
  below = [];
  count = 1;
  opened_stack = refl;
  last_stack = refl;
  prefixes = λ k. refl;
  base_prefix = refl;
  path = refl;
  counter_stack = refl;
}

on_end-on_start_example : Restored initial (on_end opened)
unfolding on_start inside distinct
on_end-on_start_example =
    on_end-on_start xml_host values "n" "a" declares_p initial opened opened refl inside refl

abbrev after_empty : State (Unit {0})
after_empty = result_or (on_empty xml_host values "n" "x" declares_p initial) initial

on_empty_leaks_example : get "p" after_empty.prefix_map ≡ some "urn:u"
unfolding on_empty strip_prefix
on_empty_leaks_example =
    on_empty_leaks xml_host values "n" "x" "xmlns:p" "urn:u" "xmlns:p" "urn:u" "urn:u" "p" "urn:u"
      initial after_empty refl refl refl refl refl refl
