-- ===== src/Cats/Codes.antt =====
-- `HashMap<u32, V>` as an association list.
use maplib.Prelude.{
  ℕ, ◌≡◌, refl, Bool, false, List, [], ◌∷◌, ◌++◌, ◌||◌, Option, none, some, nat_eq, if◌then◌else◌,
  arith,
}

-- `set.contains(&u)` of a set of codes
unfoldable pub contains : List ℕ → ℕ → Bool
contains [] u = false
contains (v ∷ s) u = nat_eq v u || contains s u

module _ {ℓ} {V : Type ℓ} where
  -- `map.get(&u)`
  unfoldable pub get : ℕ → List (ℕ × V) → Option V
  get u [] = none
  get u ((j, v) ∷ m) = if nat_eq j u then some v else get u m

  -- `map.insert(u, v)`
  unfoldable pub put : ℕ → V → List (ℕ × V) → List (ℕ × V)
  put u v [] = (u, v) ∷ []
  put u v ((j, w) ∷ m) = if nat_eq j u then (u, v) ∷ m else (j, w) ∷ put u v m

  -- the map after `map.remove(&u)`
  unfoldable pub remove : ℕ → List (ℕ × V) → List (ℕ × V)
  remove u [] = []
  remove u ((j, v) ∷ m) = let rest = remove u m in if nat_eq j u then rest else (j, v) ∷ rest

  -- `iter.collect()` into a map: each pair is inserted into what the earlier ones gave
  unfoldable pub insert_all : List (ℕ × V) → List (ℕ × V) → List (ℕ × V)
  unfolding put
  insert_all m [] = m
  insert_all m ((u, v) ∷ pairs) = insert_all (put u v m) pairs

  -- the value of the last pair with the code
  unfoldable pub last : ℕ → List (ℕ × V) → Option V
  last u [] = none
  last u ((j, v) ∷ pairs) = elim (last u pairs) [
    | some w ↦ some w
    | none ↦ if nat_eq j u then some v else none
  ]

  pub get-put :
      (u j : ℕ) (v : V) (m : List (ℕ × V))
      → get j (put u v m) ≡ (if nat_eq u j then some v else get j m)
  unfolding get put
  get-put u j v [] = refl
  get-put u j v ((i, w) ∷ m) = ground (arith, get-put u j v m)

  pub get-remove :
      (u j : ℕ) (m : List (ℕ × V)) → get j (remove u m) ≡ (if nat_eq u j then none else get j m)
  unfolding get remove
  get-remove u j [] = ground arith
  get-remove u j ((i, w) ∷ m) = ground (arith, get-remove u j m)

  pub get-insert_all :
      (u : ℕ) (m pairs : List (ℕ × V))
      → get u (insert_all m pairs) ≡ elim (last u pairs) [ some v ↦ some v | none ↦ get u m ]
  unfolding insert_all last
  get-insert_all u m [] = refl
  get-insert_all u m ((j, v) ∷ pairs) =
      ground (arith, get-insert_all u (put j v m) pairs, get-put j u v m)

  pub last-append :
      (u : ℕ) (a b : List (ℕ × V))
      → last u (a ++ b) ≡ elim (last u b) [ some v ↦ some v | none ↦ last u a ]
  unfolding last
  last-append u [] b = ground arith
  last-append u ((j, v) ∷ a) b = ground (arith, last-append u a b)
