-- ===== src/Algebra/Terms.antt =====
-- The terms of lib/spargebra/src/term.rs and of RDF that queries are built from. Names of nodes,
-- variables and blank nodes are newtypes of a text in the source and texts here; a literal has the
-- lexical form, the datatype and the language tag of the RDF abstract syntax.
use maplib.Prelude.{String, Option, List}

abbrev pub NamedNode : Type 0
NamedNode = String

abbrev pub Variable : Type 0
Variable = String

abbrev pub BlankNode : Type 0
BlankNode = String

pub record Literal : Type 0 where
  pub value : String
  pub datatype : NamedNode
  pub language : Option String

pub data Term : Type 0 where
  named_node : NamedNode → Term
  blank_node : BlankNode → Term
  literal : Literal → Term

pub data GroundTerm : Type 0 where
  named_node : NamedNode → GroundTerm
  literal : Literal → GroundTerm

pub data NamedNodePattern : Type 0 where
  named_node : NamedNode → NamedNodePattern
  variable : Variable → NamedNodePattern

pub data TermPattern : Type 0 where
  named_node : NamedNode → TermPattern
  blank_node : BlankNode → TermPattern
  literal : Literal → TermPattern
  variable : Variable → TermPattern

pub record TriplePattern : Type 0 where
  pub subject : TermPattern
  pub predicate : NamedNodePattern
  pub object : TermPattern

pub data PropertyPathExpression : Type 0 where
  named_node : NamedNode → PropertyPathExpression
  reverse : PropertyPathExpression → PropertyPathExpression
  sequence alternative : PropertyPathExpression → PropertyPathExpression → PropertyPathExpression
  zero_or_more one_or_more zero_or_one : PropertyPathExpression → PropertyPathExpression
  negated_property_set : List NamedNode → PropertyPathExpression

pub data Function : Type 0 where
  str lang lang_matches datatype iri bnode rand abs ceil floor round concat : Function
  sub_str str_len replace ucase lcase encode_for_uri contains str_starts str_ends : Function
  str_before str_after year month day hours minutes seconds timezone tz now : Function
  uuid str_uuid md5 sha1 sha256 sha384 sha512 str_lang str_dt : Function
  is_iri is_blank is_literal is_numeric regex : Function
  custom : NamedNode → Function

pub data AggregateFunction : Type 0 where
  count sum avg min max sample : AggregateFunction
  group_concat : Option String → AggregateFunction
  custom : NamedNode → AggregateFunction
