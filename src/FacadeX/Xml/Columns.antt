-- ===== src/FacadeX/Xml/Columns.antt =====
-- What is pushed keeps the columns as long as each other, and does not panic.
use maplib.Prelude.{ℕ, ◌≢◌, ◌∙◌, String, Option, none, some, arith}
use maplib.Prelude.Outcomes.{Safe, >>=-Safe, Any}
use maplib.Vocabulary.Xsd
use maplib.NodeTypes.{BaseRdfNodeType}
use maplib.SeriesBuilder.{Values, SeriesBuilder, new_literal, push_str, push_u32, parse_literal}
use maplib.SeriesBuilder.Pairs.{SubjectObjectBuilders, PredMap}
use maplib.SeriesBuilder.Kept.{kind, Grown, push_str-Grown, push_u32-Grown, parse_literal-Grown}
use maplib.SeriesBuilder.Even.{kind_for, IsEven, AllEven, with_pair-AllEven}
use maplib.FacadeX.Xml.{Host, or_fail, push_iri_object, push_iri_u32, push_typed_text}

pub or_fail-Any : {A : Type 0} (o : Option A) → Safe Any (or_fail o)
unfolding or_fail
or_fail-Any none = tt
or_fail-Any (some a) = tt

literal_typed : (l : String) → BaseRdfNodeType.literal l ≢ BaseRdfNodeType.no_type
literal_typed l e = cc

iri_typed : BaseRdfNodeType.iri ≢ BaseRdfNodeType.no_type
iri_typed e = cc

module _ {V : Type 0} where
  Grown-IsEven :
      (s o : BaseRdfNodeType) (pair : SubjectObjectBuilders V) (subjects objects : SeriesBuilder V)
      → IsEven V s o pair
      → Grown pair.0 subjects
      → Grown pair.1 objects
      → IsEven V s o (subjects, objects)
  Grown-IsEven s o pair subjects objects even gs go = record {
    subjects_kind = gs.same_kind ∙ even.subjects_kind;
    objects_kind = go.same_kind ∙ even.objects_kind;
    lengths = ground (arith, gs.one_more, go.one_more, even.lengths);
    subjects_counted = gs.counts even.subjects_counted;
    objects_counted = go.counts even.objects_counted;
  }

  pub push_iri_object-AllEven :
      (p s o : String) (m : PredMap V) → AllEven V m → Safe (AllEven V) (push_iri_object p s o m)
  unfolding push_iri_object kind_for
  push_iri_object-AllEven p s o m h =
      with_pair-AllEven V BaseRdfNodeType.iri BaseRdfNodeType.iri iri_typed iri_typed p _ m h
        λ pair even.
          >>=-Safe (Grown pair.0) (IsEven V BaseRdfNodeType.iri BaseRdfNodeType.iri)
            (push_str s pair.0) _ (push_str-Grown s pair.0 even.subjects_kind)
            λ subjects gs.
              >>=-Safe (Grown pair.1) (IsEven V BaseRdfNodeType.iri BaseRdfNodeType.iri)
                (push_str o pair.1) _ (push_str-Grown o pair.1 even.objects_kind)
                λ objects go.
                  Grown-IsEven BaseRdfNodeType.iri BaseRdfNodeType.iri pair subjects objects even gs
                    go

module _ {V : Type 0} (values : Values V) where
  abbrev unsigned : BaseRdfNodeType
  unsigned = BaseRdfNodeType.literal Xsd.unsigned_int

  pub push_iri_u32-AllEven :
      (p s : String) (o : ℕ) (m : PredMap V)
      → AllEven V m
      → Safe (AllEven V) (push_iri_u32 values p s o m)
  unfolding push_iri_u32 kind_for kind new_literal
  push_iri_u32-AllEven p s o m h =
      with_pair-AllEven V BaseRdfNodeType.iri unsigned iri_typed (literal_typed Xsd.unsigned_int) p
        _ m h
        λ pair even.
          >>=-Safe (Grown pair.0) (IsEven V BaseRdfNodeType.iri unsigned) (push_str s pair.0) _
            (push_str-Grown s pair.0 even.subjects_kind)
            λ subjects gs.
              >>=-Safe (Grown pair.1) (IsEven V BaseRdfNodeType.iri unsigned)
                (push_u32 values o pair.1) _ (push_u32-Grown values o pair.1 even.objects_kind)
                λ objects go.
                  Grown-IsEven BaseRdfNodeType.iri unsigned pair subjects objects even gs go

module _ {Bytes V : Type 0} (host : Host Bytes) (values : Values V) where
  pub push_typed_text-AllEven :
      (p s t l : String) (m : PredMap V)
      → AllEven V m
      → Safe (AllEven V) (push_typed_text host values p s t (BaseRdfNodeType.literal l) m)
  unfolding push_typed_text kind_for
  push_typed_text-AllEven p s t l m h =
      let τ = BaseRdfNodeType.literal l in
      with_pair-AllEven V BaseRdfNodeType.iri τ iri_typed (literal_typed l) p _ m h λ pair even.
        >>=-Safe (Grown pair.1) (IsEven V BaseRdfNodeType.iri τ)
          (parse_literal values (host.trim t) none pair.1) _
          (parse_literal-Grown values (host.trim t) none pair.1)
          λ objects go.
            >>=-Safe (Grown pair.0) (IsEven V BaseRdfNodeType.iri τ) (push_str s pair.0) _
              (push_str-Grown s pair.0 even.subjects_kind)
              λ subjects gs. Grown-IsEven BaseRdfNodeType.iri τ pair subjects objects even gs go
