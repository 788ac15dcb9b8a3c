-- ===== src/FacadeX/Json/Entries.antt =====
-- The entries of a map of tables after triples are added.
use maplib.Prelude.{
  ℕ, ◌≡◌, refl, ◌∙◌, ap, String, true, List, [], ◌∷◌, if◌then◌else◌, arith, ◌==◌, eq_refl, inl, inr,
  Each, Within,
}
use maplib.Prelude.Maps.{contains_key, distinct, distinct-put, contains_key-put}
use maplib.FacadeX.Json.{PredMap}
use maplib.FacadeX.Json.Tables
use maplib.FacadeX.Json.Tables.{
  Cell, cell_string, TypedSubjectObjectBuilder, TripleTableBuilder, new, iri, same_key,
}
use maplib.FacadeX.Json.Described.{
  Kind, Triple, number_of, same_kind_refl, keys, IsWhole, add_triple, add_triples,
}
use maplib.FacadeX.Json.Columns.{subjects_of, objects_of, goes_to, columns}
use maplib.FacadeX.Json.Batches.{IsFilled}

module _ {I64 F64 : Type 0} where
  uncons :
      (k : ℕ × ℕ) (ks : List (ℕ × ℕ)) (b : TripleTableBuilder I64 F64)
      → keys b ≡ k ∷ ks
      → (v : TypedSubjectObjectBuilder I64 F64) × (c : TripleTableBuilder I64 F64) × (b
          ≡ (k, v) ∷ c)
        × (keys c ≡ ks)
  unfolding keys
  uncons k ks [] h = cc
  uncons k ks ((j, v) ∷ c) h = (v, c, cc, cc)

  nothing : (b : TripleTableBuilder I64 F64) → keys b ≡ [] → b ≡ []
  unfolding keys
  nothing [] h = refl
  nothing ((j, v) ∷ c) h = cc

  -- the columns of a builder that has the keys of a new one
  explicit :
      (b : TripleTableBuilder I64 F64)
      → IsWhole b
      → (v0 v1 v2 v3 v5 : TypedSubjectObjectBuilder I64 F64) × (b
          ≡ ((iri, Tables.boolean), v0)
            ∷ ((iri, Tables.integer), v1)
            ∷ ((iri, Tables.string), v2)
            ∷ ((iri, Tables.float), v3)
            ∷ ((iri, iri), v5)
            ∷ [])
  unfolding keys new
  explicit b h =
      let (v0, b0, e0, h0) = uncons _ _ b h in
      let (v1, b1, e1, h1) = uncons _ _ b0 h0 in
      let (v2, b2, e2, h2) = uncons _ _ b1 h1 in
      let (v3, b3, e3, h3) = uncons _ _ b2 h2 in
      let (v5, b5, e5, h5) = uncons _ _ b3 h3 in
      (v0, v1, v2, v3, v5, cc (e0, e1, e2, e3, e5, nothing b5 h5))

  -- Columns that hold the triples of each type of object fill the entries.
  pub entries-IsFilled :
      (ts : List (Triple I64 F64)) (p : String) (b : TripleTableBuilder I64 F64)
      → IsWhole b
      → ((o : Kind)
          → columns (iri, number_of o) b
            ≡ record { subjects = subjects_of p o ts; objects = objects_of p o ts })
      → Each (IsFilled ts p) b
  unfolding columns same_key number_of
  entries-IsFilled ts p b h filled =
      let (v0, v1, v2, v3, v5, e) = explicit b h in
      let at : (o : Kind) → _ = rw e at filled in
      rw e (
        (
          Kind.booleans,
          refl,
          ap (λ v. v.subjects) (at Kind.booleans),
          ap (λ v. v.objects) (at Kind.booleans),
        ),
        (
          (
            Kind.integers,
            refl,
            ap (λ v. v.subjects) (at Kind.integers),
            ap (λ v. v.objects) (at Kind.integers),
          ),
          (
            (
              Kind.texts,
              refl,
              ap (λ v. v.subjects) (at Kind.texts),
              ap (λ v. v.objects) (at Kind.texts),
            ),
            (
              (
                Kind.floats,
                refl,
                ap (λ v. v.subjects) (at Kind.floats),
                ap (λ v. v.objects) (at Kind.floats),
              ),
              (
                (
                  Kind.iris,
                  refl,
                  ap (λ v. v.subjects) (at Kind.iris),
                  ap (λ v. v.objects) (at Kind.iris),
                ),
                tt,
              ),
            ),
          ),
        ),
      )

  pub distinct-add_triples :
      (ts : List (Triple I64 F64)) (m : PredMap I64 F64) → distinct (add_triples ts m) ≡ distinct m
  unfolding add_triples add_triple
  distinct-add_triples [] m = refl
  distinct-add_triples (t ∷ ts) m =
      distinct-add_triples ts (add_triple t m) ∙ distinct-put t.predicate _ m

  contains_key-add_triple :
      (p : String) (t : Triple I64 F64) (m : PredMap I64 F64)
      → contains_key p (add_triple t m) ≡ (if t.predicate == p then true else contains_key p m)
  unfolding add_triple
  contains_key-add_triple p t m = contains_key-put t.predicate p _ m

  pub contains_key-kept :
      (p : String) (ts : List (Triple I64 F64)) (m : PredMap I64 F64)
      → contains_key p m ≡ true
      → contains_key p (add_triples ts m) ≡ true
  unfolding add_triples
  contains_key-kept p [] m h = h
  contains_key-kept p (t ∷ ts) m h =
      contains_key-kept p ts (add_triple t m) (ground (arith, contains_key-add_triple p t m))

  pub contains_key-add_triples :
      (t : Triple I64 F64) (ts : List (Triple I64 F64)) (m : PredMap I64 F64)
      → Within t ts
      → contains_key t.predicate (add_triples ts m) ≡ true
  unfolding add_triples
  contains_key-add_triples t [] m w = absurd w
  contains_key-add_triples t (u ∷ ts) m (inl e) =
      contains_key-kept t.predicate ts (add_triple u m)
        (rw e (ground (arith, contains_key-add_triple u.predicate u m, eq_refl u.predicate)))
  contains_key-add_triples t (u ∷ ts) m (inr w) = contains_key-add_triples t ts (add_triple u m) w

  pub subjects_of-Within :
      (t : Triple I64 F64) (ts : List (Triple I64 F64))
      → Within t ts
      → subjects_of t.predicate t.kind ts ≡ []
      → ⊥
  unfolding subjects_of goes_to
  subjects_of-Within t [] w h = absurd w
  subjects_of-Within t (u ∷ ts) (inl e) h =
      ground (arith, e, eq_refl u.predicate, same_kind_refl u.kind)
  subjects_of-Within t (u ∷ ts) (inr w) h = ground (arith, subjects_of-Within t ts w)
