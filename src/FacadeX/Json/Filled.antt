-- ===== src/FacadeX/Json/Filled.antt =====
-- The map that holds the triple for the root of a document and those behind it.
use maplib.Prelude.{
  ◌≡◌, refl, ◌∙◌, sym, ap, String, true, List, [], ◌∷◌, some, arith, inl, inr, Bool-cases, Each,
  Within,
}
use maplib.Prelude.Maps.{
  get, contains_key, AllEntries, AllEntries-intro, AllEntries-get, distinct, distinct-put,
  contains_key-put,
}
use maplib.FacadeX.{fx_root, rdf_type}
use maplib.FacadeX.Json.{PredMap, add_new_property}
use maplib.FacadeX.Json.Tables.{cell_string, TripleTableBuilder, new, iri, same_key}
use maplib.FacadeX.Json.Described.{
  Kind, Triple, number_of, IsWhole, AllWhole, add_triple, add_triples,
}
use maplib.FacadeX.Json.Whole.{add_triple-AllWhole, add_triples-AllWhole, add_new_property-AllWhole}
use maplib.FacadeX.Json.Pushes.{columns_of-add_new_property}
use maplib.FacadeX.Json.Columns.{
  subjects_of, objects_of, goes_to, columns, table, table-add_triples,
}
use maplib.FacadeX.Json.Entries.{
  entries-IsFilled, distinct-add_triples, contains_key-kept, contains_key-add_triples,
}
use maplib.FacadeX.Json.Batches.{IsFilled}

module _ {I64 F64 : Type 0} where
  contains_key-add_new :
      (p q : String) (m : PredMap I64 F64)
      → contains_key p m ≡ true
      → contains_key p (add_new_property q m) ≡ true
  unfolding add_new_property
  contains_key-add_new p q m h = ground (arith, contains_key-put q p new m)

  distinct-add_new :
      (p : String) (m : PredMap I64 F64) → distinct (add_new_property p m) ≡ distinct m
  unfolding add_new_property
  distinct-add_new p m = ground (arith, distinct-put p new m)

  table_empty :
      (p : String) (o : Kind)
      → table {I64 = I64} {F64 = F64} p o [] ≡ record { subjects = []; objects = [] }
  unfolding table columns new number_of same_key get
  table_empty p Kind.booleans = refl
  table_empty p Kind.integers = refl
  table_empty p Kind.texts = refl
  table_empty p Kind.floats = refl
  table_empty p Kind.iris = refl

  -- the map after the triple for the root and those behind it
  abbrev pub filled_map : String → String → Triple I64 F64 → List (Triple I64 F64) → PredMap I64 F64
  filled_map r q t ts = add_triples ts (add_new_property q (add_triple t (add_new_property r [])))

  -- the triple for the root of a document
  abbrev pub root_triple : String → Triple I64 F64
  root_triple doc_subject = record {
    subject = doc_subject;
    predicate = rdf_type;
    kind = Kind.iris;
    object = cell_string fx_root;
  }

  pub start-AllWhole :
      (r q : String) (t : Triple I64 F64)
      → AllWhole (add_new_property q (add_triple t (add_new_property r [])))
  start-AllWhole r q t =
      add_new_property-AllWhole q _ (add_triple-AllWhole t _ (add_new_property-AllWhole r [] tt))

  table-add_new :
      (q p : String) (o : Kind) (m : PredMap I64 F64)
      → table p o (add_new_property q m) ≡ table p o m
  unfolding table
  table-add_new q p o m = ap (columns (iri, number_of o)) (columns_of-add_new_property q p m)

  table_one :
      (r : String) (t : Triple I64 F64) (p : String) (o : Kind)
      → table p o (add_triple t (add_new_property r []))
        ≡ record { subjects = subjects_of p o (t ∷ []); objects = objects_of p o (t ∷ []) }
  unfolding add_triples
  table_one r t p o =
      table-add_triples p o (t ∷ []) (add_new_property r []) (add_new_property-AllWhole r [] tt)
      ∙ rw (table-add_new r p o [], table_empty p o) refl

  table-filled_map :
      (r q : String) (t : Triple I64 F64) (ts : List (Triple I64 F64)) (p : String) (o : Kind)
      → table p o (filled_map r q t ts)
        ≡ record { subjects = subjects_of p o (t ∷ ts); objects = objects_of p o (t ∷ ts) }
  unfolding subjects_of objects_of
  table-filled_map r q t ts p o =
      rw
        (
          table-add_triples p o ts (add_new_property q (add_triple t (add_new_property r [])))
              (start-AllWhole r q t),
          table-add_new q p o (add_triple t (add_new_property r [])),
          table_one r t p o,
        )
        (elim (Bool-cases (goes_to p o t)) [ inl e ↦ rw e refl | inr e ↦ rw e refl ])

  table_got :
      (p : String) (o : Kind) (b : TripleTableBuilder I64 F64) (m : PredMap I64 F64)
      → get p m ≡ some b
      → table p o m ≡ columns (iri, number_of o) b
  unfolding table
  table_got p o b m g = rw (g, table) refl

  filled_map-AllWhole :
      (r q : String) (t : Triple I64 F64) (ts : List (Triple I64 F64))
      → AllWhole (filled_map r q t ts)
  filled_map-AllWhole r q t ts = add_triples-AllWhole ts _ (start-AllWhole r q t)

  filled_map-distinct :
      (r q : String) (t : Triple I64 F64) (ts : List (Triple I64 F64))
      → distinct (filled_map r q t ts) ≡ true
  unfolding distinct add_triples
  filled_map-distinct r q t ts =
      distinct-add_triples ts _
      ∙ (distinct-add_new q _ ∙ (distinct-add_triples (t ∷ []) _ ∙ distinct-add_new r []))

  pub filled_map-IsFilled :
      (r q : String) (t : Triple I64 F64) (ts : List (Triple I64 F64))
      → AllEntries (λ p b. IsWhole b × Each (IsFilled (t ∷ ts) p) b) (filled_map r q t ts)
  filled_map-IsFilled r q t ts =
      AllEntries-intro (λ p b. IsWhole b × Each (IsFilled (t ∷ ts) p) b) (filled_map r q t ts)
        (filled_map-distinct r q t ts)
        λ p b g.
          let whole =
            AllEntries-get (λ p b. IsWhole b) p (filled_map r q t ts) (filled_map-AllWhole r q t ts)
              g in
          (
            whole,
            entries-IsFilled (t ∷ ts) p b whole
                λ o. sym (table_got p o b (filled_map r q t ts) g) ∙ table-filled_map r q t ts p o,
          )

  pub filled_map-has :
      (r q : String) (u t : Triple I64 F64) (ts : List (Triple I64 F64))
      → Within u (t ∷ ts)
      → contains_key u.predicate (filled_map r q t ts) ≡ true
  unfolding add_triples
  filled_map-has r q u t ts (inr w) = contains_key-add_triples u ts _ w
  filled_map-has r q u t ts (inl e) = contains_key-kept u.predicate ts _ (
      contains_key-add_new u.predicate q _
        (contains_key-add_triples u (t ∷ []) (add_new_property r []) (inl e)))
