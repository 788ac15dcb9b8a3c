-- ===== src/FacadeX/Json/Pushes.antt =====
-- What a push does to the map: it adds a triple, and new columns make no difference to it.
use Prim.Native.Char.{Char, code}
use maplib.Prelude.{
  ℕ, ◌+◌, ◌≡◌, refl, sym, ap, ◌∙◌, String, Bool, true, false, ◌||◌, ◌&&◌, List, [], ◌∷◌, Option,
  none, some, unwrap_or, if◌then◌else◌, nat_eq, arith, eq_iff, eq_refl, Bool-cases, Option-cases,
  inl, inr,
}
use maplib.Prelude.Maps.{
  get, put, contains_key, contains_key-put, get_present, get-put, put-put, get_absent,
}
use maplib.FacadeX.{fx_null, join, new_iri_subject}
use maplib.FacadeX.Json.{
  Host, Value, bool, number, string, null, object, array, PredMap, keep_chars, add_new_property,
  with_builder, push_number,
}
use maplib.FacadeX.Json.Whole.{push-pushed, has_key-columns}
use maplib.FacadeX.Json.Tables
use maplib.FacadeX.Json.Tables.{
  Cell, cell_boolean, cell_string, TripleTableBuilder, new, iri, same_key, push_row, push,
  push_iri_bool, push_iri_string, push_iri_iri,
}
use maplib.FacadeX.Json.Described.{
  Kind, Triple, number_of, describe_number, container, describe, describe_fields, describe_items,
  has_key, AllWhole, add_triple, add_triples, kept, Documented,
}

module _ {I64 F64 : Type 0} where
  -- the columns that a property has, or new ones
  abbrev pub columns_of : String → PredMap I64 F64 → TripleTableBuilder I64 F64
  columns_of p m = unwrap_or (get p m) new

  pub columns_of-add_new_property :
      (p q : String) (m : PredMap I64 F64) → columns_of q (add_new_property p m) ≡ columns_of q m
  unfolding add_new_property
  columns_of-add_new_property p q m = ground (arith, get-put p q new m, eq_iff p q, get_absent p m)

  put-add_new_property :
      (p : String) (b : TripleTableBuilder I64 F64) (m : PredMap I64 F64)
      → put p b (add_new_property p m) ≡ put p b m
  unfolding add_new_property
  put-add_new_property p b m = ground (arith, put-put p b new m)

  add_triple-add_new_property :
      (t : Triple I64 F64) (m : PredMap I64 F64)
      → add_triple t (add_new_property t.predicate m) ≡ add_triple t m
  unfolding add_triple
  add_triple-add_new_property t m =
      rw (columns_of-add_new_property t.predicate t.predicate m)
        (put-add_new_property t.predicate _ m)

  added :
      (s p : String) (k : Kind) (v : Cell I64 F64) (m : PredMap I64 F64)
      → add_triple
          (record { subject = s; predicate = p; kind = k; object = v })
          (add_new_property p m)
        ≡ add_triple (record { subject = s; predicate = p; kind = k; object = v }) m
  added s p k v m =
      add_triple-add_new_property (record { subject = s; predicate = p; kind = k; object = v }) m

  pub contains_key-add_new_property :
      (p : String) (m : PredMap I64 F64) → contains_key p (add_new_property p m) ≡ true
  unfolding add_new_property
  contains_key-add_new_property p m = ground (arith, contains_key-put p p new m, eq_refl p)

  -- a push to a property that is there adds the triple
  pub with_builder-push :
      (p : String) (o : Kind) (s : String) (v : Cell I64 F64) (m : PredMap I64 F64)
      → contains_key p m ≡ true
      → has_key (iri, number_of o) (columns_of p m) ≡ true
      → with_builder p (push (iri, number_of o) s v) m
        ≡ some (add_triple (record { subject = s; predicate = p; kind = o; object = v }) m)
  unfolding with_builder add_triple
  with_builder-push p o s v m c h = elim (Option-cases (get p m)) [
    | inl e ↦ absurd (ground (arith, get_present p m, e))
    | inr (b, e) ↦
        let there : has_key (iri, number_of o) b ≡ true = rw e at h in
        rw (e, push-pushed (iri, number_of o) s v b there) refl
  ]

module _ {Number I64 F64 : Type 0} (host : Host Number I64 F64) where
  kept-if :
      (b : Bool) (s t : String)
      → kept host s ≡ true
      → kept host t ≡ true
      → kept host (if b then s else t) ≡ true
  kept-if true s t hs ht = hs
  kept-if false s t hs ht = ht

  kept_char :
      (c : Char) (marked : Bool) (s : String)
      → marked ≡ (nat_eq (code c) b'_' || (nat_eq (code c) b'-' || nat_eq (code c) b'.'))
      → kept host s ≡ true
      → kept host (if host.is_alphanumeric c || marked then String.◌∷◌ c s else String.◌∷◌ "_" s)
        ≡ true
  unfolding kept
  kept_char c marked s e h = elim (Bool-cases (host.is_alphanumeric c || marked)) [
    | inl yes_ ↦ rw yes_ (ground arith)
    | inr no_ ↦ rw no_ (ground arith)
  ]

  -- A property has only characters that it may keep.
  pub keep_chars-kept : (i : ℕ) (key : String) → kept host (keep_chars host i key) ≡ true
  unfolding keep_chars kept
  keep_chars-kept i String.[] = refl
  keep_chars-kept i (String.◌∷◌ c key) =
      let rest = keep_chars-kept (i + 1) key in
      let here = kept_char c _ _ refl rest in
      kept-if
        (nat_eq i 0
          && (host.is_numeric c
              || (nat_eq (code c) b'_' || (nat_eq (code c) b'-' || nat_eq (code c) b'.'))))
        _ _ (ground arith) here

  with_builder-some :
      (p : String) (change : TripleTableBuilder I64 F64 → Option (TripleTableBuilder I64 F64))
      (o : ℕ) (s : String) (v : Cell I64 F64) (m : PredMap I64 F64)
      → ((b : TripleTableBuilder I64 F64) → change b ≡ push (iri, o) s v b)
      → with_builder p change m ≡ with_builder p (push (iri, o) s v) m
  unfolding with_builder
  with_builder-some p change o s v m h = elim (Option-cases (get p m)) [
    | inl e ↦ rw e refl
    | inr (b, e) ↦ rw (e, h b) refl
  ]

  described_integer :
      (p s : String) (num : Number) (i : I64)
      → host.as_i64 num ≡ some i
      → describe_number host s p num
        ≡ record { subject = s; predicate = p; kind = Kind.integers; object = Tables.cell_int64 i }
          ∷ []
  unfolding describe_number
  described_integer p s num i e = rw (e, describe_number) refl

  described_float :
      (p s : String) (num : Number) (f : F64)
      → host.as_i64 num ≡ none
      → host.as_f64 num ≡ some f
      → describe_number host s p num
        ≡ record { subject = s; predicate = p; kind = Kind.floats; object = Tables.cell_float64 f }
          ∷ []
  unfolding describe_number
  described_float p s num f e g = rw (e, g, describe_number) refl

  module _ (prefix : String) (d : Documented host prefix) where
    pub with_builder-push_number :
        (p s : String) (num : Number) (m : PredMap I64 F64)
        → AllWhole m
        → contains_key p m ≡ true
        → with_builder p (push_number host s num) m
          ≡ some (add_triples (describe_number host s p num) m)
    unfolding push_number add_triples has_key new
    with_builder-push_number p s num m w c = elim (Option-cases (host.as_i64 num)) [
      | inr (i, e) ↦
          with_builder-some p _ Tables.integer s (Tables.cell_int64 i) m
            (λ b. rw (e, push_number) refl)
          ∙ (with_builder-push p Kind.integers s _ m c (has_key-columns (iri, Tables.integer) p m w)
              ∙ ap (λ ts. some (add_triples ts m)) (sym (described_integer p s num i e)))
      | inl e ↦
          let (f, g) = d.numbers num e in
          with_builder-some p _ Tables.float s (Tables.cell_float64 f) m
            (λ b. rw (e, g, push_number) refl)
          ∙ (with_builder-push p Kind.floats s _ m c (has_key-columns (iri, Tables.float) p m w)
              ∙ ap (λ ts. some (add_triples ts m)) (sym (described_float p s num f e g)))
    ]

    pub described_add :
        (root namespace s p : String) (v : Value Number) (path : List String) (m : PredMap I64 F64)
        → add_triples (describe host prefix root namespace s (some p) v path) (add_new_property p m)
          ≡ add_triples (describe host prefix root namespace s (some p) v path) m
    unfolding describe add_triples
    described_add root namespace s p (bool b) path m = added s p Kind.booleans (cell_boolean b) m
    described_add root namespace s p (number num) path m = elim (Option-cases (host.as_i64 num)) [
      | inr (i, e) ↦
          rw (described_integer p s num i e) (added s p Kind.integers (Tables.cell_int64 i) m)
      | inl e ↦
          let (f, g) = d.numbers num e in
          rw (described_float p s num f e g) (added s p Kind.floats (Tables.cell_float64 f) m)
    ]
    described_add root namespace s p (string t) path m = added s p Kind.texts (cell_string t) m
    described_add root namespace s p null path m = added s p Kind.iris (cell_string fx_null) m
    described_add root namespace s p (object obj) path m =
        ap
          (add_triples (
            describe_fields host prefix root namespace (container host namespace s (some p) path)
              obj path))
          (added s p Kind.iris (cell_string (new_iri_subject host.new_v5 namespace (join path))) m)
    described_add root namespace s p (array arr) path m =
        ap
          (add_triples (
            describe_items host prefix root namespace (container host namespace s (some p) path) 0
              arr path))
          (added s p Kind.iris (cell_string (new_iri_subject host.new_v5 namespace (join path))) m)
