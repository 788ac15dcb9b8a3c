-- ===== src/SeriesBuilder/Kept.antt =====
-- A column has one more value after a value is put into it, and stays of its kind.
use maplib.Prelude.{
  ℕ, ◌+◌, ◌≡◌, refl, String, Bool, true, ◌&&◌, List, [], ◌∷◌, ◌++◌, Option, none, some, length,
  length-append, nat_eq, arith,
}
use maplib.Prelude.Outcomes.{Safe}
use maplib.SeriesBuilder.{
  Values, SeriesBuilder, len, push_str, push_none, push_parsed, push_u32, parse_literal,
  parse_xsd_date, parse_xsd_datetime_micros, parse_xsd_decimal,
}

one_more_text :
    (xs : List (Option String)) (x : Option String) → length (xs ++ x ∷ []) ≡ length xs + 1
one_more_text xs x = length-append xs (x ∷ [])

module _ {V : Type 0} where
  -- the number of a column's kind
  unfoldable pub kind : SeriesBuilder V → ℕ
  kind (SeriesBuilder.string v l) = 0
  kind (SeriesBuilder.bool v) = 1
  kind (SeriesBuilder.u8 v) = 2
  kind (SeriesBuilder.u16 v) = 3
  kind (SeriesBuilder.u32 v) = 4
  kind (SeriesBuilder.u64 v) = 5
  kind (SeriesBuilder.i8 v) = 6
  kind (SeriesBuilder.i16 v) = 7
  kind (SeriesBuilder.i32 v) = 8
  kind (SeriesBuilder.i64 v) = 9
  kind (SeriesBuilder.f32 v) = 10
  kind (SeriesBuilder.f64 v) = 11
  kind (SeriesBuilder.date v) = 12
  kind (SeriesBuilder.datetime v) = 13
  kind (SeriesBuilder.decimal v) = 14
  kind (SeriesBuilder.lang_string values langs l) = 15

  -- the counts that columns of texts carry are the numbers of their values
  unfoldable pub counted : SeriesBuilder V → Bool
  counted (SeriesBuilder.string v l) = nat_eq l (length v)
  counted (SeriesBuilder.lang_string values langs l) =
      nat_eq l (length values) && nat_eq l (length langs)
  counted self = true

  -- one more value, of the same kind, and the counts are right
  pub record Grown (self next : SeriesBuilder V) : Type 0 where
    pub same_kind : kind next ≡ kind self
    pub one_more : len next ≡ len self + 1
    pub counts : counted self ≡ true → counted next ≡ true

  one_more_value : (xs : List (Option V)) (x : Option V) → length (xs ++ x ∷ []) ≡ length xs + 1
  one_more_value xs x = length-append xs (x ∷ [])

  pub push_str-Grown :
      (s : String) (self : SeriesBuilder V) → kind self ≡ 0 → Safe (Grown self) (push_str s self)
  unfolding kind push_str len counted
  push_str-Grown s (SeriesBuilder.string v l) h = record {
    same_kind = refl;
    one_more = refl;
    counts = λ c. ground (arith, one_more_text v (some s));
  }
  push_str-Grown s (SeriesBuilder.bool v) h = absurd (omega arith)
  push_str-Grown s (SeriesBuilder.u8 v) h = absurd (omega arith)
  push_str-Grown s (SeriesBuilder.u16 v) h = absurd (omega arith)
  push_str-Grown s (SeriesBuilder.u32 v) h = absurd (omega arith)
  push_str-Grown s (SeriesBuilder.u64 v) h = absurd (omega arith)
  push_str-Grown s (SeriesBuilder.i8 v) h = absurd (omega arith)
  push_str-Grown s (SeriesBuilder.i16 v) h = absurd (omega arith)
  push_str-Grown s (SeriesBuilder.i32 v) h = absurd (omega arith)
  push_str-Grown s (SeriesBuilder.i64 v) h = absurd (omega arith)
  push_str-Grown s (SeriesBuilder.f32 v) h = absurd (omega arith)
  push_str-Grown s (SeriesBuilder.f64 v) h = absurd (omega arith)
  push_str-Grown s (SeriesBuilder.date v) h = absurd (omega arith)
  push_str-Grown s (SeriesBuilder.datetime v) h = absurd (omega arith)
  push_str-Grown s (SeriesBuilder.decimal v) h = absurd (omega arith)
  push_str-Grown s (SeriesBuilder.lang_string values langs l) h = absurd (omega arith)

  push_parsed-Grown :
      (value : Option V) (v : List (Option V)) (column : List (Option V) → SeriesBuilder V)
      → ((w : List (Option V)) → kind (column w) ≡ kind (column v))
      → ((w : List (Option V)) → len (column w) ≡ length w)
      → ((w : List (Option V)) → counted (column w) ≡ true)
      → Safe (Grown (column v)) (push_parsed value v column)
  unfolding push_parsed
  push_parsed-Grown none v column k l c = tt
  push_parsed-Grown (some value) v column k l c = record {
    same_kind = k (v ++ some value ∷ []);
    one_more = ground (arith, l (v ++ some value ∷ []), l v, one_more_value v (some value));
    counts = λ h. c (v ++ some value ∷ []);
  }

  -- A null is one more value too.
  push_none-Grown : (self : SeriesBuilder V) → Grown self (push_none self)
  unfolding kind push_none len counted
  push_none-Grown (SeriesBuilder.string v l) = record {
    same_kind = refl;
    one_more = refl;
    counts = λ c. ground (arith, one_more_text v none);
  }
  push_none-Grown (SeriesBuilder.bool v) = record {
    same_kind = refl;
    one_more = one_more_value v none;
    counts = λ c. refl;
  }
  push_none-Grown (SeriesBuilder.u8 v) = record {
    same_kind = refl;
    one_more = one_more_value v none;
    counts = λ c. refl;
  }
  push_none-Grown (SeriesBuilder.u16 v) = record {
    same_kind = refl;
    one_more = one_more_value v none;
    counts = λ c. refl;
  }
  push_none-Grown (SeriesBuilder.u32 v) = record {
    same_kind = refl;
    one_more = one_more_value v none;
    counts = λ c. refl;
  }
  push_none-Grown (SeriesBuilder.u64 v) = record {
    same_kind = refl;
    one_more = one_more_value v none;
    counts = λ c. refl;
  }
  push_none-Grown (SeriesBuilder.i8 v) = record {
    same_kind = refl;
    one_more = one_more_value v none;
    counts = λ c. refl;
  }
  push_none-Grown (SeriesBuilder.i16 v) = record {
    same_kind = refl;
    one_more = one_more_value v none;
    counts = λ c. refl;
  }
  push_none-Grown (SeriesBuilder.i32 v) = record {
    same_kind = refl;
    one_more = one_more_value v none;
    counts = λ c. refl;
  }
  push_none-Grown (SeriesBuilder.i64 v) = record {
    same_kind = refl;
    one_more = one_more_value v none;
    counts = λ c. refl;
  }
  push_none-Grown (SeriesBuilder.f32 v) = record {
    same_kind = refl;
    one_more = one_more_value v none;
    counts = λ c. refl;
  }
  push_none-Grown (SeriesBuilder.f64 v) = record {
    same_kind = refl;
    one_more = one_more_value v none;
    counts = λ c. refl;
  }
  push_none-Grown (SeriesBuilder.date v) = record {
    same_kind = refl;
    one_more = one_more_value v none;
    counts = λ c. refl;
  }
  push_none-Grown (SeriesBuilder.datetime v) = record {
    same_kind = refl;
    one_more = one_more_value v none;
    counts = λ c. refl;
  }
  push_none-Grown (SeriesBuilder.decimal v) = record {
    same_kind = refl;
    one_more = one_more_value v none;
    counts = λ c. refl;
  }
  push_none-Grown (SeriesBuilder.lang_string values langs l) = record {
    same_kind = refl;
    one_more = refl;
    counts = λ c. ground (arith, one_more_text values none, one_more_text langs none);
  }

module _ {V : Type 0} (values : Values V) where
  pub push_u32-Grown :
      (u : ℕ) (self : SeriesBuilder V) → kind self ≡ 4 → Safe (Grown self) (push_u32 values u self)
  unfolding kind push_u32 len counted
  push_u32-Grown u (SeriesBuilder.u32 v) h = record {
    same_kind = refl;
    one_more = one_more_value v _;
    counts = λ c. refl;
  }
  push_u32-Grown u (SeriesBuilder.string v l) h = absurd (omega arith)
  push_u32-Grown u (SeriesBuilder.bool v) h = absurd (omega arith)
  push_u32-Grown u (SeriesBuilder.u8 v) h = absurd (omega arith)
  push_u32-Grown u (SeriesBuilder.u16 v) h = absurd (omega arith)
  push_u32-Grown u (SeriesBuilder.u64 v) h = absurd (omega arith)
  push_u32-Grown u (SeriesBuilder.i8 v) h = absurd (omega arith)
  push_u32-Grown u (SeriesBuilder.i16 v) h = absurd (omega arith)
  push_u32-Grown u (SeriesBuilder.i32 v) h = absurd (omega arith)
  push_u32-Grown u (SeriesBuilder.i64 v) h = absurd (omega arith)
  push_u32-Grown u (SeriesBuilder.f32 v) h = absurd (omega arith)
  push_u32-Grown u (SeriesBuilder.f64 v) h = absurd (omega arith)
  push_u32-Grown u (SeriesBuilder.date v) h = absurd (omega arith)
  push_u32-Grown u (SeriesBuilder.datetime v) h = absurd (omega arith)
  push_u32-Grown u (SeriesBuilder.decimal v) h = absurd (omega arith)
  push_u32-Grown u (SeriesBuilder.lang_string texts langs l) h = absurd (omega arith)

  -- Reading a text into a column ends with a column or an error; the column has one more value, is
  -- of the same kind, and carries the number of its values if it did before.
  pub parse_literal-Grown :
      (lex : String) (lang : Option String) (self : SeriesBuilder V)
      → Safe (Grown self) (parse_literal values lex lang self)
  unfolding kind parse_literal len counted
  parse_literal-Grown lex lang (SeriesBuilder.string v l) = record {
    same_kind = refl;
    one_more = refl;
    counts = λ c. ground (arith, one_more_text v (some lex));
  }
  parse_literal-Grown lex lang (SeriesBuilder.bool v) =
      push_parsed-Grown (values.parse_bool lex) v SeriesBuilder.bool (λ w. refl) (λ w. refl)
        (λ w. refl)
  parse_literal-Grown lex lang (SeriesBuilder.u8 v) =
      push_parsed-Grown (values.parse_u8 lex) v SeriesBuilder.u8 (λ w. refl) (λ w. refl) (λ w. refl)
  parse_literal-Grown lex lang (SeriesBuilder.u16 v) =
      push_parsed-Grown (values.parse_u16 lex) v SeriesBuilder.u16 (λ w. refl) (λ w. refl)
        (λ w. refl)
  parse_literal-Grown lex lang (SeriesBuilder.u32 v) =
      push_parsed-Grown (values.parse_u32 lex) v SeriesBuilder.u32 (λ w. refl) (λ w. refl)
        (λ w. refl)
  parse_literal-Grown lex lang (SeriesBuilder.u64 v) =
      push_parsed-Grown (values.parse_u64 lex) v SeriesBuilder.u64 (λ w. refl) (λ w. refl)
        (λ w. refl)
  parse_literal-Grown lex lang (SeriesBuilder.i8 v) =
      push_parsed-Grown (values.parse_i8 lex) v SeriesBuilder.i8 (λ w. refl) (λ w. refl) (λ w. refl)
  parse_literal-Grown lex lang (SeriesBuilder.i16 v) =
      push_parsed-Grown (values.parse_i16 lex) v SeriesBuilder.i16 (λ w. refl) (λ w. refl)
        (λ w. refl)
  parse_literal-Grown lex lang (SeriesBuilder.i32 v) =
      push_parsed-Grown (values.parse_i32 lex) v SeriesBuilder.i32 (λ w. refl) (λ w. refl)
        (λ w. refl)
  parse_literal-Grown lex lang (SeriesBuilder.i64 v) =
      push_parsed-Grown (values.parse_i64 lex) v SeriesBuilder.i64 (λ w. refl) (λ w. refl)
        (λ w. refl)
  parse_literal-Grown lex lang (SeriesBuilder.f32 v) =
      push_parsed-Grown (values.parse_f32 lex) v SeriesBuilder.f32 (λ w. refl) (λ w. refl)
        (λ w. refl)
  parse_literal-Grown lex lang (SeriesBuilder.f64 v) =
      push_parsed-Grown (values.parse_f64 lex) v SeriesBuilder.f64 (λ w. refl) (λ w. refl)
        (λ w. refl)
  parse_literal-Grown lex lang (SeriesBuilder.date v) =
      push_parsed-Grown (parse_xsd_date values lex) v SeriesBuilder.date (λ w. refl) (λ w. refl)
        (λ w. refl)
  parse_literal-Grown lex lang (SeriesBuilder.datetime v) =
      push_parsed-Grown (parse_xsd_datetime_micros values lex) v SeriesBuilder.datetime (λ w. refl)
        (λ w. refl) (λ w. refl)
  parse_literal-Grown lex lang (SeriesBuilder.decimal v) =
      push_parsed-Grown (parse_xsd_decimal values lex) v SeriesBuilder.decimal (λ w. refl)
        (λ w. refl) (λ w. refl)
  parse_literal-Grown lex (some lang) (SeriesBuilder.lang_string texts langs l) = record {
    same_kind = refl;
    one_more = refl;
    counts = λ c. ground (arith, one_more_text texts (some lex), one_more_text langs (some lang));
  }
  parse_literal-Grown lex none (SeriesBuilder.lang_string texts langs l) = tt
