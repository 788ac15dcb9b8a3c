-- ===== src/FacadeX/Json/Batches.antt =====
-- The data frames of a table of columns and of a whole map: each holds the triples of one
-- predicate and one type of object, and each triple is in one.
use maplib.Prelude.{
  ℕ, ◌≡◌, refl, ◌∙◌, sym, ap, String, true, List, [], ◌∷◌, ◌++◌, Option, some, arith, ◌==◌, length,
  inl, inr, ◌⊎◌, Bool-cases, subst, eq-true, Each, Some, Each-append, Some-append_left,
  Some-append_right,
}
use maplib.Prelude.Maps.{contains_key, AllEntries}
use maplib.NodeTypes.{BaseRdfNodeType}
use maplib.FacadeX.Json.{PredMap}
use maplib.FacadeX.Json.Tables.{
  Cell, TypedSubjectObjectBuilder, TripleTableBuilder, new, iri, same_key,
}
use maplib.FacadeX.Json.Described.{
  Kind, Triple, type_of, number_of, same_kind-number_of, same_kind_eq, has_key, keys,
}
use maplib.FacadeX.Json.Whole.{has_key_whole}
use maplib.FacadeX.Json.Columns.{subjects_of, objects_of, has_key-new}
use maplib.FacadeX.{TriplesToAdd}
use maplib.FacadeX.Json.Document.{type_from_u8, triples_to_add, add_tables, add_pred_map}

-- `DataFrame::new` accepts two columns of one length
abbrev pub Frames :
    {I64 F64 Frame : Type 0} → (List String → List (Cell I64 F64) → Option Frame) → Type 0
Frames {I64} {F64} {Frame} data_frame =
    (ss : List String) (os : List (Cell I64 F64))
    → length ss ≡ length os
    → (df : Frame) × (data_frame ss os ≡ some df)

module _ {I64 F64 Frame : Type 0}
    (data_frame : List String → List (Cell I64 F64) → Option Frame) where
  -- a data frame of the triples that have its predicate and its type of object; there are some
  pub record IsBatch (ts : List (Triple I64 F64)) (b : TriplesToAdd Frame) : Type 0 where
    pub kind : Kind
    pub object_type : b.object_type ≡ type_of kind
    pub subject_type : b.subject_type ≡ BaseRdfNodeType.iri
    pub df :
        data_frame (subjects_of b.predicate kind ts) (objects_of b.predicate kind ts) ≡ some b.df
    pub first : String
    pub others : List String
    pub nonempty : subjects_of b.predicate kind ts ≡ first ∷ others

  -- the data frame for a predicate and a type of object
  pub record IsFor (p : String) (o : Kind) (b : TriplesToAdd Frame) : Type 0 where
    pub predicate : b.predicate ≡ p
    pub object_type : b.object_type ≡ type_of o

type_from_u8-type_of : (o : Kind) → type_from_u8 (number_of o) ≡ some (type_of o)
unfolding type_from_u8 type_of number_of
type_from_u8-type_of Kind.booleans = refl
type_from_u8-type_of Kind.integers = refl
type_from_u8-type_of Kind.texts = refl
type_from_u8-type_of Kind.floats = refl
type_from_u8-type_of Kind.iris = refl

module _ {I64 F64 : Type 0} where
  lengths :
      (p : String) (o : Kind) (ts : List (Triple I64 F64))
      → length (subjects_of p o ts) ≡ length (objects_of p o ts)
  unfolding subjects_of objects_of
  lengths p o [] = refl
  lengths p o (t ∷ ts) = ground (arith, lengths p o ts)

  -- the columns of an entry are the triples of the predicate and of the type of object
  abbrev pub IsFilled :
      List (Triple I64 F64) → String → (ℕ × ℕ) × TypedSubjectObjectBuilder I64 F64 → Type 0
  IsFilled ts p (k, values) =
      (o : Kind) × (k ≡ (iri, number_of o))
      × (values.subjects ≡ subjects_of p o ts)
      × (values.objects ≡ objects_of p o ts)

  module _ {Frame : Type 0} (data_frame : List String → List (Cell I64 F64) → Option Frame)
      (frames : Frames data_frame) (ts : List (Triple I64 F64)) where
    -- what one entry yields: one data frame, or none if there is no row
    one_table :
        (p : String) (o : Kind)
        → (batches : List (TriplesToAdd Frame)) × (triples_to_add data_frame p
              (iri, number_of o)
              (subjects_of p o ts)
              (objects_of p o ts)
            ≡ some batches)
          × Each (IsBatch data_frame ts) batches
          × ((subjects_of p o ts ≡ []) ⊎ Some (IsFor data_frame p o) batches)
    unfolding triples_to_add
    one_table p o =
        let e = type_from_u8-type_of o in
        elim (subjects_of p o ts)
            as (λ ss.
              subjects_of p o ts ≡ ss
              → (batches : List (TriplesToAdd Frame)) × (triples_to_add data_frame p
                    (iri, number_of o) ss (objects_of p o ts)
                  ≡ some batches)
                × Each (IsBatch data_frame ts) batches
                × ((ss ≡ []) ⊎ Some (IsFor data_frame p o) batches)) [
                  | [] ↦ λ g. ([], refl, tt, inl refl)
                  | s ∷ ss ↦ λ g.
                      let (df, made) =
                        frames (s ∷ ss) (objects_of p o ts) (ap length (sym g) ∙ lengths p o ts) in
                      (
                        record {
                          df = df;
                          subject_type = BaseRdfNodeType.iri;
                          object_type = type_of o;
                          predicate = p;
                        }
                            ∷ [],
                        rw (e, made) refl,
                        (
                          record {
                            kind = o;
                            object_type = refl;
                            subject_type = refl;
                            df = rw g made;
                            first = s;
                            others = ss;
                            nonempty = g;
                          },
                          tt,
                        ),
                        inr (inl (record { predicate = refl; object_type = refl })),
                      )
                ]
          refl

    -- the data frames of the entries of one table
    tables :
        (p : String) (b : TripleTableBuilder I64 F64)
        → Each (IsFilled ts p) b
        → (batches : List (TriplesToAdd Frame)) × (add_tables data_frame p b ≡ some batches)
          × Each (IsBatch data_frame ts) batches
          × ((o : Kind)
              → has_key (iri, number_of o) b ≡ true
              → (subjects_of p o ts ≡ []) ⊎ Some (IsFor data_frame p o) batches)
    unfolding add_tables has_key same_key
    tables p [] h = ([], refl, tt, λ o k. cc)
    tables p ((k, values) ∷ b) ((o, e, ss, os), h) =
        let (here, made, each, found) = one_table p o in
        let (rest, made_rest, each_rest, found_rest) = tables p b h in
        (
          here ++ rest,
          rw (e, ss, os, made, made_rest) refl,
          Each-append (IsBatch data_frame ts) here rest each each_rest,
          λ q has. elim (Bool-cases (same_key k (iri, number_of q))) [
            | inr other ↦ elim (found_rest q (ground arith)) [
              | inl none_ ↦ inl none_
              | inr some_ ↦ inr (Some-append_right (IsFor data_frame p q) here rest some_)
            ]
            | inl same ↦
                let it = same_kind_eq o q (ground (arith, e, same_kind-number_of o q)) in
                subst (λ n. (subjects_of p n ts ≡ []) ⊎ Some (IsFor data_frame p n) (here ++ rest))
                  it
                  (elim found [
                    | inl none_ ↦ inl none_
                    | inr some_ ↦ inr (Some-append_left (IsFor data_frame p o) here rest some_)
                  ])
          ],
        )

    -- the data frames of a map of tables
    pub pred_maps :
        (m : PredMap I64 F64)
        → AllEntries (λ p b. (keys b ≡ keys {I64 = I64} {F64 = F64} new) × Each (IsFilled ts p) b) m
        → (batches : List (TriplesToAdd Frame)) × (add_pred_map data_frame m ≡ some batches)
          × Each (IsBatch data_frame ts) batches
          × ((p : String) (o : Kind)
              → contains_key p m ≡ true
              → (subjects_of p o ts ≡ []) ⊎ Some (IsFor data_frame p o) batches)
    unfolding add_pred_map contains_key
    pred_maps [] h = ([], refl, tt, λ p o c. cc)
    pred_maps ((q, b) ∷ m) ((whole, filled), h) =
        let (here, made, each, found) = tables q b filled in
        let (rest, made_rest, each_rest, found_rest) = pred_maps m h in
        (
          here ++ rest,
          rw (made, made_rest) refl,
          Each-append (IsBatch data_frame ts) here rest each each_rest,
          λ p o has. elim (Bool-cases (q == p)) [
            | inr other ↦ elim (found_rest p o (ground arith)) [
              | inl none_ ↦ inl none_
              | inr some_ ↦ inr (Some-append_right (IsFor data_frame p o) here rest some_)
            ]
            | inl same ↦
                subst (λ n. (subjects_of n o ts ≡ []) ⊎ Some (IsFor data_frame n o) (here ++ rest))
                  (eq-true q p same)
                  (elim (found o
                    (has_key_whole (iri, number_of o) b new whole ∙ has_key-new I64 F64 o)) [
                      | inl none_ ↦ inl none_
                      | inr some_ ↦ inr (Some-append_left (IsFor data_frame q o) here rest some_)
                    ])
          ],
        )
