-- ===== src/SeriesBuilder.antt =====
-- lib/representation/src/series_builder.rs: columns that are filled with the values that texts stand
-- for. V is the type of the values of all columns but those of texts; how the
-- libraries read a text as one (`from_str`, chrono, rust_decimal) is a parameter. A panic is
-- `panicked`, an error is `failed` whatever its message.
pub mod Pairs
pub mod Kept
pub mod Even
use maplib.Prelude.{
  ℕ, ◌+◌, String, Bool, true, false, ◌||◌, List, [], ◌∷◌, ◌++◌, Option, none, some, if◌then◌else◌,
  ◌==◌, length, nat_eq, split_once,
}
use maplib.Prelude.Outcomes.{Outcome, done, failed, panicked, ◌>>=◌}
use maplib.Algebra.{NamedNode, Literal, Term}
use maplib.Vocabulary.Xsd
use maplib.NodeTypes.{BaseRdfNodeType}

-- `oxrdf::vocab::rdf::LANG_STRING`
abbrev pub lang_string_iri : String
lang_string_iri = "http://www.w3.org/1999/02/22-rdf-syntax-ns#langString"

-- the values that a text stands for in each column, and the u32 numbers as values
pub record Values (V : Type 0) : Type 0 where
  pub parse_bool : String → Option V
  pub parse_u8 : String → Option V
  pub parse_u16 : String → Option V
  pub parse_u32 : String → Option V
  pub parse_u64 : String → Option V
  pub parse_i8 : String → Option V
  pub parse_i16 : String → Option V
  pub parse_i32 : String → Option V
  pub parse_i64 : String → Option V
  pub parse_f32 : String → Option V
  pub parse_f64 : String → Option V
  -- `NaiveDate::parse_from_str` with "%Y-%m-%d", as the number of days from 1970-01-01
  pub naive_date : String → Option V
  -- `parse::<DateTime<Utc>>` and `parse::<NaiveDateTime>`, as microseconds
  pub utc_datetime : String → Option V
  pub naive_datetime : String → Option V
  -- `Decimal::from_str`, as the mantissa at the default scale
  pub decimal_mantissa : String → Option V
  pub of_u32 : ℕ → V

-- The columns of texts carry the number of their values.
pub data SeriesBuilder (V : Type 0) : Type 0 where
  string : List (Option String) → ℕ → SeriesBuilder V
  bool : List (Option V) → SeriesBuilder V
  u8 : List (Option V) → SeriesBuilder V
  u16 : List (Option V) → SeriesBuilder V
  u32 : List (Option V) → SeriesBuilder V
  u64 : List (Option V) → SeriesBuilder V
  i8 : List (Option V) → SeriesBuilder V
  i16 : List (Option V) → SeriesBuilder V
  i32 : List (Option V) → SeriesBuilder V
  i64 : List (Option V) → SeriesBuilder V
  f32 : List (Option V) → SeriesBuilder V
  f64 : List (Option V) → SeriesBuilder V
  date : List (Option V) → SeriesBuilder V
  datetime : List (Option V) → SeriesBuilder V
  decimal : List (Option V) → SeriesBuilder V
  lang_string : List (Option String) → List (Option String) → ℕ → SeriesBuilder V

module _ {V : Type 0} where
  -- `SeriesBuilder::new` for a literal
  unfoldable pub new_literal : NamedNode → SeriesBuilder V
  new_literal l =
      if l == Xsd.boolean
      then bool []
      else if l == Xsd.unsigned_byte
      then u8 []
      else if l == Xsd.unsigned_short
      then u16 []
      else if l == Xsd.unsigned_int
      then u32 []
      else if l == Xsd.unsigned_long
      then u64 []
      else if l == Xsd.byte
      then i8 []
      else if l == Xsd.short
      then i16 []
      else if l == Xsd.int
      then i32 []
      else if l == Xsd.integer || l == Xsd.long
      then i64 []
      else if l == Xsd.float
      then f32 []
      else if l == Xsd.double
      then f64 []
      else if l == Xsd.date
      then date []
      else if l == Xsd.date_time
      then datetime []
      else if l == Xsd.date_time_stamp
      then datetime []
      else if l == Xsd.decimal
      then decimal []
      else if l == lang_string_iri
      then lang_string [] [] 0
      else string [] 0

  -- `SeriesBuilder::new`
  unfoldable pub new : BaseRdfNodeType → Outcome (SeriesBuilder V)
  unfolding new_literal
  new BaseRdfNodeType.iri = done (string [] 0)
  new BaseRdfNodeType.blank_node = done (string [] 0)
  new (BaseRdfNodeType.literal l) = done (new_literal l)
  new BaseRdfNodeType.no_type = panicked

  unfoldable pub len : SeriesBuilder V → ℕ
  len (string v l) = l
  len (bool v) = length v
  len (u8 v) = length v
  len (u16 v) = length v
  len (u32 v) = length v
  len (u64 v) = length v
  len (i8 v) = length v
  len (i16 v) = length v
  len (i32 v) = length v
  len (i64 v) = length v
  len (f32 v) = length v
  len (f64 v) = length v
  len (date v) = length v
  len (datetime v) = length v
  len (decimal v) = length v
  len (lang_string values langs l) = l

  unfoldable pub is_empty : SeriesBuilder V → Bool
  unfolding len
  is_empty self = nat_eq (len self) 0

  unfoldable pub push_str : String → SeriesBuilder V → Outcome (SeriesBuilder V)
  push_str s (string v l) = done (string (v ++ some s ∷ []) (l + 1))
  push_str s self = panicked

  unfoldable pub push_none : SeriesBuilder V → SeriesBuilder V
  push_none (string b l) = string (b ++ none ∷ []) (l + 1)
  push_none (bool v) = bool (v ++ none ∷ [])
  push_none (u8 v) = u8 (v ++ none ∷ [])
  push_none (u16 v) = u16 (v ++ none ∷ [])
  push_none (u32 v) = u32 (v ++ none ∷ [])
  push_none (u64 v) = u64 (v ++ none ∷ [])
  push_none (i8 v) = i8 (v ++ none ∷ [])
  push_none (i16 v) = i16 (v ++ none ∷ [])
  push_none (i32 v) = i32 (v ++ none ∷ [])
  push_none (i64 v) = i64 (v ++ none ∷ [])
  push_none (f32 v) = f32 (v ++ none ∷ [])
  push_none (f64 v) = f64 (v ++ none ∷ [])
  push_none (date v) = date (v ++ none ∷ [])
  push_none (datetime v) = datetime (v ++ none ∷ [])
  push_none (decimal v) = decimal (v ++ none ∷ [])
  push_none (lang_string values langs l) =
      lang_string (values ++ none ∷ []) (langs ++ none ∷ []) (l + 1)

  -- a value that was read, at the end of the values of a column
  unfoldable pub push_parsed :
      Option V → List (Option V) → (List (Option V) → SeriesBuilder V) → Outcome (SeriesBuilder V)
  push_parsed none v column = failed
  push_parsed (some value) v column = done (column (v ++ some value ∷ []))

module _ {V : Type 0} (values : Values V) where
  -- without what follows the first plus sign
  unfoldable pub parse_xsd_date : String → Option V
  unfolding split_once
  parse_xsd_date value = elim (split_once b'+' value) [
    | some (use_value, zone) ↦ values.naive_date use_value
    | none ↦ values.naive_date value
  ]

  unfoldable pub parse_xsd_datetime_micros : String → Option V
  parse_xsd_datetime_micros value = elim (values.utc_datetime value) [
    | some dt ↦ some dt
    | none ↦ values.naive_datetime value
  ]

  unfoldable pub parse_xsd_decimal : String → Option V
  parse_xsd_decimal value = values.decimal_mantissa value

  unfoldable pub push_u32 : ℕ → SeriesBuilder V → Outcome (SeriesBuilder V)
  push_u32 u (u32 v) = done (u32 (v ++ some (values.of_u32 u) ∷ []))
  push_u32 u self = panicked

  unfoldable pub parse_literal :
      String → Option String → SeriesBuilder V → Outcome (SeriesBuilder V)
  unfolding push_parsed parse_xsd_date parse_xsd_datetime_micros parse_xsd_decimal
  parse_literal lex lang (string v l) = done (string (v ++ some lex ∷ []) (l + 1))
  parse_literal lex lang (bool v) = push_parsed (values.parse_bool lex) v bool
  parse_literal lex lang (u8 v) = push_parsed (values.parse_u8 lex) v u8
  parse_literal lex lang (u16 v) = push_parsed (values.parse_u16 lex) v u16
  parse_literal lex lang (u32 v) = push_parsed (values.parse_u32 lex) v u32
  parse_literal lex lang (u64 v) = push_parsed (values.parse_u64 lex) v u64
  parse_literal lex lang (i8 v) = push_parsed (values.parse_i8 lex) v i8
  parse_literal lex lang (i16 v) = push_parsed (values.parse_i16 lex) v i16
  parse_literal lex lang (i32 v) = push_parsed (values.parse_i32 lex) v i32
  parse_literal lex lang (i64 v) = push_parsed (values.parse_i64 lex) v i64
  parse_literal lex lang (f32 v) = push_parsed (values.parse_f32 lex) v f32
  parse_literal lex lang (f64 v) = push_parsed (values.parse_f64 lex) v f64
  parse_literal lex lang (date v) = push_parsed (parse_xsd_date lex) v date
  parse_literal lex lang (datetime v) = push_parsed (parse_xsd_datetime_micros lex) v datetime
  parse_literal lex lang (decimal v) = push_parsed (parse_xsd_decimal lex) v decimal
  parse_literal lex (some lang) (lang_string texts langs l) =
      done (lang_string (texts ++ some lex ∷ []) (langs ++ some lang ∷ []) (l + 1))
  parse_literal lex none (lang_string texts langs l) = failed

  unfoldable pub parse_term : Term → SeriesBuilder V → Outcome (SeriesBuilder V)
  unfolding push_str parse_literal
  parse_term (Term.named_node nn) self = push_str nn self
  parse_term (Term.blank_node bl) self = push_str bl self
  parse_term (Term.literal l) self = parse_literal l.value l.language self
