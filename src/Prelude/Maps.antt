-- ===== src/Prelude/Maps.antt =====
-- `HashMap<String, V>` as an association list. `Distinct` says that no key stands twice, as in a
-- HashMap; a loop over a map goes through the list from its first entry to its last.
use Prim.Native.String.{String}
use mathlib.Core.Path.{◌≡◌, refl, subst₂}
use mathlib.Core.Logic.{inl, inr}
use mathlib.Core.Bool.{Bool, true, false}
use mathlib.Core.Option.{Option, none, some}
use mathlib.Core.List.{List, [], ◌∷◌}
use native.Mathlib.Omega.{arith}
use text.Mathlib.Text.{◌==◌}
use text.Mathlib.TextEquality.{eq_iff}
use maplib.Prelude.Tests.{if◌then◌else◌, Bool-cases, eq-true}

module _ {ℓ} {V : Type ℓ} where
  -- `map.get(k)`
  unfoldable pub get : String → List (String × V) → Option V
  get k [] = none
  get k ((j, v) ∷ m) = if j == k then some v else get k m

  -- `map.contains_key(k)`
  unfoldable pub contains_key : String → List (String × V) → Bool
  contains_key k [] = false
  contains_key k ((j, v) ∷ m) = if j == k then true else contains_key k m

  -- `map.insert(k, v)`
  unfoldable pub put : String → V → List (String × V) → List (String × V)
  put k v [] = (k, v) ∷ []
  put k v ((j, w) ∷ m) = if j == k then (k, v) ∷ m else (j, w) ∷ put k v m

  -- the map after `map.remove(k)`
  unfoldable pub remove : String → List (String × V) → List (String × V)
  remove k [] = []
  remove k ((j, v) ∷ m) = let rest = remove k m in if j == k then rest else (j, v) ∷ rest

  -- `map.extend(other)`
  unfoldable pub extend : List (String × V) → List (String × V) → List (String × V)
  extend m [] = m
  extend m ((k, v) ∷ other) = put k v (extend m other)

  unfoldable pub distinct : List (String × V) → Bool
  distinct [] = true
  distinct ((k, v) ∷ m) = if contains_key k m then false else distinct m

  pub get-put :
      (k j : String) (v : V) (m : List (String × V))
      → get j (put k v m) ≡ (if k == j then some v else get j m)
  unfolding get put
  get-put k j v [] = refl
  get-put k j v ((i, w) ∷ m) = ground (arith, eq_iff k j, eq_iff i k, eq_iff i j, get-put k j v m)

  pub put-put : (k : String) (v w : V) (m : List (String × V)) → put k v (put k w m) ≡ put k v m
  unfolding put
  put-put k v w [] = ground (arith, eq_iff k k)
  put-put k v w ((j, u) ∷ m) = ground (arith, eq_iff k k, put-put k v w m)

  pub contains_key-put :
      (k j : String) (v : V) (m : List (String × V))
      → contains_key j (put k v m) ≡ (if k == j then true else contains_key j m)
  unfolding contains_key put
  contains_key-put k j v [] = refl
  contains_key-put k j v ((i, w) ∷ m) =
      ground (arith, eq_iff k j, eq_iff i k, eq_iff i j, contains_key-put k j v m)

  pub get_present : (k : String) (m : List (String × V)) → get k m ≡ none → contains_key k m ≡ false
  unfolding get contains_key
  get_present k [] h = refl
  get_present k ((j, v) ∷ m) h = ground (arith, get_present k m)

  pub distinct-put :
      (k : String) (v : V) (m : List (String × V)) → distinct (put k v m) ≡ distinct m
  unfolding distinct put contains_key
  distinct-put k v [] = refl
  distinct-put k v ((j, w) ∷ m) =
      ground (arith, eq_iff j k, eq_iff k j, contains_key-put k j v m, distinct-put k v m)

  pub get-remove :
      (k j : String) (m : List (String × V))
      → get j (remove k m) ≡ (if k == j then none else get j m)
  unfolding get remove
  get-remove k j [] = ground arith
  get-remove k j ((i, w) ∷ m) = ground (arith, eq_iff k j, eq_iff i k, eq_iff i j, get-remove k j m)

  pub get_absent : (k : String) (m : List (String × V)) → contains_key k m ≡ false → get k m ≡ none
  unfolding get contains_key
  get_absent k [] h = refl
  get_absent k ((j, v) ∷ m) h = ground (arith, get_absent k m)

  pub get-extend :
      (k : String) (m other : List (String × V))
      → get k (extend m other) ≡ elim (get k other) [ some v ↦ some v | none ↦ get k m ]
  unfolding get extend
  get-extend k m [] = refl
  get-extend k m ((j, v) ∷ other) =
      ground (arith, get-put j k v (extend m other), get-extend k m other)

module _ {ℓ κ} {V : Type ℓ} (P : String → V → Type κ) where
  -- every entry has the property
  abbrev pub AllEntries : List (String × V) → Type κ
  AllEntries [] = Unit
  AllEntries ((k, v) ∷ m) = P k v × AllEntries m

  pub AllEntries-intro :
      (m : List (String × V))
      → distinct m ≡ true
      → ((k : String) (v : V) → get k m ≡ some v → P k v)
      → AllEntries m
  unfolding get distinct
  AllEntries-intro [] d h = tt
  AllEntries-intro ((j, w) ∷ m) d h = (
    h j w (ground (arith, eq_iff j j)),
    AllEntries-intro m (ground arith) (λ k v g. h k v (ground (arith, eq_iff j k, get_absent k m))),
  )

  pub AllEntries-put :
      (k : String) (v : V) (m : List (String × V)) → P k v → AllEntries m → AllEntries (put k v m)
  unfolding put
  AllEntries-put k v [] p h = (p, tt)
  AllEntries-put k v ((j, w) ∷ m) p h =
      elim (j == k) as (λ b. AllEntries (if b then (k, v) ∷ m else (j, w) ∷ put k v m)) [
        | true ↦ (p, h.1)
        | false ↦ (h.0, AllEntries-put k v m p h.1)
      ]

  pub AllEntries-remove :
      (k : String) (m : List (String × V)) → AllEntries m → AllEntries (remove k m)
  unfolding remove
  AllEntries-remove k [] h = tt
  AllEntries-remove k ((j, v) ∷ m) h =
      elim (j == k) as (λ b. AllEntries (if b then remove k m else (j, v) ∷ remove k m)) [
        | true ↦ AllEntries-remove k m h.1
        | false ↦ (h.0, AllEntries-remove k m h.1)
      ]

  pub AllEntries-extend :
      (m other : List (String × V)) → AllEntries m → AllEntries other → AllEntries (extend m other)
  unfolding extend
  AllEntries-extend m [] h g = h
  AllEntries-extend m ((k, v) ∷ other) h g =
      AllEntries-put k v (extend m other) g.0 (AllEntries-extend m other h g.1)

  pub AllEntries-get :
      (k : String) (m : List (String × V)) {v : V} → AllEntries m → get k m ≡ some v → P k v
  unfolding get
  AllEntries-get k [] h g = cc
  AllEntries-get k ((j, w) ∷ m) {v} h g = elim (Bool-cases (j == k)) [
    | inl e ↦
        let found : some w ≡ some v = rw e at g in
        let same : w ≡ v = cc in subst₂ P (eq-true j k e) same h.0
    | inr e ↦ AllEntries-get k m h.1 (rw e at g)
  ]
