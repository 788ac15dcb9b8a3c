-- ===== src/FacadeX/Json/Whole.antt =====
-- Each property has columns for each type of object, whatever triples are added.
use maplib.Prelude.{
  ℕ, ◌≡◌, refl, ap, ◌∙◌, String, true, false, List, [], ◌∷◌, ◌++◌, some, unwrap_or, if◌then◌else◌,
  arith, Option-cases, inl, inr,
}
use maplib.Prelude.Maps.{get, put, contains_key, AllEntries-put, AllEntries-get}
use maplib.FacadeX.Json.{PredMap, add_new_property}
use maplib.FacadeX.Json.Tables.{Cell, TripleTableBuilder, new, same_key, push_row, push}
use maplib.FacadeX.Json.Described.{
  Triple, pushed, has_key, keys, IsWhole, AllWhole, add_triple, add_triples,
}

module _ {I64 F64 : Type 0} where
  pub push-pushed :
      (k : ℕ × ℕ) (s : String) (v : Cell I64 F64) (b : TripleTableBuilder I64 F64)
      → has_key k b ≡ true
      → push k s v b ≡ some (pushed k s v b)
  unfolding push pushed has_key
  push-pushed k s v [] h = cc
  push-pushed k s v ((j, values) ∷ b) h = ground (arith, push-pushed k s v b)

  keys-pushed :
      (k : ℕ × ℕ) (s : String) (v : Cell I64 F64) (b : TripleTableBuilder I64 F64)
      → keys (pushed k s v b) ≡ keys b
  unfolding pushed keys
  keys-pushed k s v [] = refl
  keys-pushed k s v ((i, values) ∷ b) =
      elim (same_key i k)
        as (λ x.
          keys (if x then (i, push_row s v values) ∷ b else (i, values) ∷ pushed k s v b)
          ≡ i ∷ keys b) [ true ↦ refl | false ↦ ap (λ ks. i ∷ ks) (keys-pushed k s v b) ]

  pub has_key_whole :
      (k : ℕ × ℕ) (b c : TripleTableBuilder I64 F64) → keys b ≡ keys c → has_key k b ≡ has_key k c
  unfolding keys has_key
  has_key_whole k [] [] h = refl
  has_key_whole k [] ((j, v) ∷ c) h = cc
  has_key_whole k ((i, u) ∷ b) [] h = cc
  has_key_whole k ((i, u) ∷ b) ((j, v) ∷ c) h = ground (arith, has_key_whole k b c)

  pub add_triples-append :
      (ts us : List (Triple I64 F64)) (m : PredMap I64 F64)
      → add_triples (ts ++ us) m ≡ add_triples us (add_triples ts m)
  unfolding add_triples
  add_triples-append [] us m = refl
  add_triples-append (t ∷ ts) us m = add_triples-append ts us (add_triple t m)

  builder-IsWhole :
      (p : String) (m : PredMap I64 F64) → AllWhole m → IsWhole (unwrap_or (get p m) new)
  builder-IsWhole p m h = elim (Option-cases (get p m)) [
    | inl e ↦ rw e refl
    | inr (b, e) ↦ rw e (AllEntries-get (λ q c. IsWhole c) p m h e)
  ]

  -- a property has columns for each type of object
  pub has_key-columns :
      (k : ℕ × ℕ) (p : String) (m : PredMap I64 F64)
      → AllWhole m
      → has_key k (unwrap_or (get p m) new) ≡ has_key {I64 = I64} {F64 = F64} k new
  has_key-columns k p m h = has_key_whole k _ new (builder-IsWhole p m h)

  pub add_triple-AllWhole :
      (t : Triple I64 F64) (m : PredMap I64 F64) → AllWhole m → AllWhole (add_triple t m)
  unfolding add_triple
  add_triple-AllWhole t m h =
      AllEntries-put (λ q c. IsWhole c) _ _ m
        (keys-pushed _ t.subject t.object _ ∙ builder-IsWhole t.predicate m h) h

  pub add_triples-AllWhole :
      (ts : List (Triple I64 F64)) (m : PredMap I64 F64) → AllWhole m → AllWhole (add_triples ts m)
  unfolding add_triples
  add_triples-AllWhole [] m h = h
  add_triples-AllWhole (t ∷ ts) m h = add_triples-AllWhole ts _ (add_triple-AllWhole t m h)

  pub add_new_property-AllWhole :
      (p : String) (m : PredMap I64 F64) → AllWhole m → AllWhole (add_new_property p m)
  unfolding add_new_property
  add_new_property-AllWhole p m h =
      elim (contains_key p m) as (λ c. AllWhole (if c then m else put p new m)) [
        | true ↦ h
        | false ↦ AllEntries-put (λ q c. IsWhole c) p new m refl h
      ]
