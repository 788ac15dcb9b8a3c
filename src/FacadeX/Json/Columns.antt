-- ===== src/FacadeX/Json/Columns.antt =====
-- What the columns of a property and a type of object hold: its triples, in the order in which
-- they were added.
use maplib.Prelude.{
  ℕ, ◌≡◌, refl, ◌∙◌, sym, ap, ap₂, String, Bool, true, false, ◌&&◌, List, [], ◌∷◌, ◌++◌, unwrap_or,
  if◌then◌else◌, arith, ◌==◌, eq_iff, append-nil, append_assoc,
}
use maplib.Prelude.Maps.{get, get-put}
use maplib.FacadeX.Json.{PredMap}
use maplib.FacadeX.Json.Tables.{
  Cell, TypedSubjectObjectBuilder, TripleTableBuilder, new, new_columns, iri, same_key, push_row,
}
use maplib.FacadeX.Json.Described.{
  Kind, Triple, same_kind, number_of, same_kind-number_of, pushed, has_key, AllWhole, add_triple,
  add_triples,
}
use maplib.FacadeX.Json.Whole.{has_key-columns, add_triple-AllWhole}

pub has_key-new :
    (I64 F64 : Type 0) (o : Kind) → has_key {I64 = I64} {F64 = F64} (iri, number_of o) new ≡ true
unfolding has_key new number_of same_key
has_key-new I64 F64 Kind.booleans = refl
has_key-new I64 F64 Kind.integers = refl
has_key-new I64 F64 Kind.texts = refl
has_key-new I64 F64 Kind.floats = refl
has_key-new I64 F64 Kind.iris = refl

module _ {I64 F64 : Type 0} where
  -- whether a triple has a predicate and a type of object
  unfoldable pub goes_to : String → Kind → Triple I64 F64 → Bool
  unfolding same_kind
  goes_to p o t = (t.predicate == p) && same_kind t.kind o

  unfoldable pub subjects_of : String → Kind → List (Triple I64 F64) → List String
  unfolding goes_to
  subjects_of p o [] = []
  subjects_of p o (t ∷ ts) =
      let rest = subjects_of p o ts in if goes_to p o t then t.subject ∷ rest else rest

  unfoldable pub objects_of : String → Kind → List (Triple I64 F64) → List (Cell I64 F64)
  unfolding goes_to
  objects_of p o [] = []
  objects_of p o (t ∷ ts) =
      let rest = objects_of p o ts in if goes_to p o t then t.object ∷ rest else rest

  -- the columns under a key
  unfoldable pub columns : ℕ × ℕ → TripleTableBuilder I64 F64 → TypedSubjectObjectBuilder I64 F64
  unfolding same_key new_columns
  columns k [] = new_columns
  columns k ((j, values) ∷ b) = let rest = columns k b in if same_key j k then values else rest

  -- the columns of a predicate and a type of object
  unfoldable pub table : String → Kind → PredMap I64 F64 → TypedSubjectObjectBuilder I64 F64
  unfolding columns get new number_of
  table p o m = columns (iri, number_of o) (unwrap_or (get p m) new)

  columns-pushed :
      (j k : ℕ × ℕ) (s : String) (v : Cell I64 F64) (b : TripleTableBuilder I64 F64)
      → has_key k b ≡ true
      → columns k (pushed j s v b)
        ≡ (if same_key j k then push_row s v (columns k b) else columns k b)
  unfolding columns pushed has_key same_key
  columns-pushed j k s v [] h = cc
  columns-pushed j k s v ((i, values) ∷ b) h = ground (arith, columns-pushed j k s v b)

  table-add_triple :
      (p : String) (o : Kind) (t : Triple I64 F64) (m : PredMap I64 F64)
      → AllWhole m
      → table p o (add_triple t m)
        ≡ (if goes_to p o t then push_row t.subject t.object (table p o m) else table p o m)
  unfolding table add_triple goes_to same_key
  table-add_triple p o t m w = ground (
    arith,
    get-put t.predicate p
        (pushed (iri, number_of t.kind) t.subject t.object (unwrap_or (get t.predicate m) new)) m,
    eq_iff t.predicate p,
    columns-pushed (iri, number_of t.kind) (iri, number_of o) t.subject t.object
        (unwrap_or (get t.predicate m) new),
    has_key-columns (iri, number_of o) t.predicate m w,
    has_key-new I64 F64 o,
    same_kind-number_of t.kind o,
  )

  -- rows behind the rows that are there
  abbrev behind :
      TypedSubjectObjectBuilder I64 F64
      → List String
      → List (Cell I64 F64)
      → TypedSubjectObjectBuilder I64 F64
  behind v ss os = record { subjects = v.subjects ++ ss; objects = v.objects ++ os }

  pub table-add_triples :
      (p : String) (o : Kind) (ts : List (Triple I64 F64)) (m : PredMap I64 F64)
      → AllWhole m
      → table p o (add_triples ts m) ≡ record {
        subjects = (table p o m).subjects ++ subjects_of p o ts;
        objects = (table p o m).objects ++ objects_of p o ts;
      }
  unfolding add_triples subjects_of objects_of push_row
  table-add_triples p o [] m w =
      ap₂ (λ ss os. record { subjects = ss; objects = os })
        (sym (append-nil (table p o m).subjects)) (sym (append-nil (table p o m).objects))
  table-add_triples p o (t ∷ ts) m w =
      table-add_triples p o ts (add_triple t m) (add_triple-AllWhole t m w)
      ∙ (ap (λ v. behind v (subjects_of p o ts) (objects_of p o ts)) (table-add_triple p o t m w)
          ∙ elim (goes_to p o t)
              as (λ b.
                behind (if b then push_row t.subject t.object (table p o m) else table p o m)
                  (subjects_of p o ts) (objects_of p o ts)
                ≡ behind (table p o m)
                    (if b then t.subject ∷ subjects_of p o ts else subjects_of p o ts)
                    (if b then t.object ∷ objects_of p o ts else objects_of p o ts)) [
                      | true ↦
                          ap₂ (λ ss os. record { subjects = ss; objects = os })
                            (append_assoc (table p o m).subjects (t.subject ∷ [])
                              (subjects_of p o ts))
                            (append_assoc (table p o m).objects (t.object ∷ []) (objects_of p o ts))
                      | false ↦ refl
                    ])
