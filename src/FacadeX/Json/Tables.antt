-- ===== src/FacadeX/Json/Tables.antt =====
-- The columns that a document fills: `TypedSubjectObjectBuilder` and `TripleTableBuilder`.
use maplib.Prelude.{
  ℕ, String, Bool, ◌&&◌, List, [], ◌∷◌, ◌++◌, Option, none, some, ◌>>=◌, if◌then◌else◌, nat_eq,
}

abbrev pub boolean : ℕ
boolean = 0

abbrev pub integer : ℕ
integer = 1

abbrev pub string : ℕ
string = 2

abbrev pub float : ℕ
float = 3

abbrev pub iri : ℕ
iri = 5

-- the variants of `AnyValue` that are pushed
pub data Cell (I64 F64 : Type 0) : Type 0 where
  cell_boolean : Bool → Cell I64 F64
  cell_int64 : I64 → Cell I64 F64
  cell_float64 : F64 → Cell I64 F64
  cell_string : String → Cell I64 F64

pub record TypedSubjectObjectBuilder (I64 F64 : Type 0) : Type 0 where
  pub subjects : List String
  pub objects : List (Cell I64 F64)

-- `HashMap<(u8, u8), TypedSubjectObjectBuilder>`
abbrev pub TripleTableBuilder : Type 0 → Type 0 → Type 0
TripleTableBuilder I64 F64 = List ((ℕ × ℕ) × TypedSubjectObjectBuilder I64 F64)

-- `j == k`
unfoldable pub same_key : ℕ × ℕ → ℕ × ℕ → Bool
same_key j k = nat_eq j.0 k.0 && nat_eq j.1 k.1

module _ {I64 F64 : Type 0} where
  -- `TypedSubjectObjectBuilder::new()`
  unfoldable pub new_columns : TypedSubjectObjectBuilder I64 F64
  new_columns = record { subjects = []; objects = [] }

  -- `map.insert(k, v)`
  unfoldable pub put_columns :
      ℕ × ℕ
      → TypedSubjectObjectBuilder I64 F64
      → TripleTableBuilder I64 F64
      → TripleTableBuilder I64 F64
  unfolding same_key
  put_columns k v [] = (k, v) ∷ []
  put_columns k v ((j, w) ∷ m) = if same_key j k then (k, v) ∷ m else (j, w) ∷ put_columns k v m

  -- `HashMap::from_iter`, with new columns for each key
  unfoldable pub from_iter : List (ℕ × ℕ) → TripleTableBuilder I64 F64 → TripleTableBuilder I64 F64
  unfolding put_columns new_columns
  from_iter [] m = m
  from_iter (k ∷ keys) m = from_iter keys (put_columns k new_columns m)

  -- `TripleTableBuilder::new()`
  unfoldable pub new : TripleTableBuilder I64 F64
  unfolding from_iter
  new =
      from_iter
        ((iri, boolean)
          ∷ (iri, integer)
          ∷ (iri, string)
          ∷ (iri, float)
          ∷ (iri, iri)
          ∷ (iri, iri)
          ∷ (iri, iri)
          ∷ (iri, string)
          ∷ [])
        []

  -- `values.subjects.push(…); values.objects.push(…)`
  unfoldable pub push_row :
      String → Cell I64 F64 → TypedSubjectObjectBuilder I64 F64 → TypedSubjectObjectBuilder I64 F64
  push_row subj v values = record {
    subjects = values.subjects ++ subj ∷ [];
    objects = values.objects ++ v ∷ [];
  }

  -- `if let Some(values) = self.map.get_mut(&k) { … } else { unreachable!() }`
  unfoldable pub push :
      ℕ × ℕ
      → String
      → Cell I64 F64
      → TripleTableBuilder I64 F64
      → Option (TripleTableBuilder I64 F64)
  unfolding same_key push_row
  push k subj v [] = none
  push k subj v ((j, values) ∷ m) =
      let rest = push k subj v m in
      if same_key j k
      then some ((j, push_row subj v values) ∷ m)
      else rest >>= λ pushed. some ((j, values) ∷ pushed)

  unfoldable pub push_iri_bool :
      String → Bool → TripleTableBuilder I64 F64 → Option (TripleTableBuilder I64 F64)
  unfolding push
  push_iri_bool subj v self = push (iri, boolean) subj (cell_boolean v) self

  unfoldable pub push_iri_int :
      String → I64 → TripleTableBuilder I64 F64 → Option (TripleTableBuilder I64 F64)
  unfolding push
  push_iri_int subj v self = push (iri, integer) subj (cell_int64 v) self

  unfoldable pub push_iri_float :
      String → F64 → TripleTableBuilder I64 F64 → Option (TripleTableBuilder I64 F64)
  unfolding push
  push_iri_float subj v self = push (iri, float) subj (cell_float64 v) self

  unfoldable pub push_iri_string :
      String → String → TripleTableBuilder I64 F64 → Option (TripleTableBuilder I64 F64)
  unfolding push
  push_iri_string subj v self = push (iri, string) subj (cell_string v) self

  unfoldable pub push_iri_iri :
      String → String → TripleTableBuilder I64 F64 → Option (TripleTableBuilder I64 F64)
  unfolding push
  push_iri_iri subj v self = push (iri, iri) subj (cell_string v) self
