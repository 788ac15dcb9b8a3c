-- ===== src/Cats/Ordered.antt =====
-- `BTreeMap<K, u32>` as the list of its entries in the order of the keys. Keys are compared by the
-- bytes of the text that they stand for, and a search names a key by its bytes.
use Prim.Native.Nat.{Ordering}
use maplib.Prelude.{ℕ, ◌≡◌, refl, List, [], ◌∷◌, Option, none, some, if◌then◌else◌, arith}
use maplib.Cats.Bytes.{Bytes, compare_bytes, compare_bytes-eq, compare_bytes-gt, same, same_iff}

module _ {K : Type 0} (bytes : K → Bytes) where
  -- `map.get(&k)`
  unfoldable pub get : Bytes → List (K × ℕ) → Option ℕ
  get s [] = none
  get s ((k, u) ∷ m) = if same (bytes k) s then some u else get s m

  -- `map.insert(k, u)`: a key that is there stays, with the new value
  unfoldable pub insert : K → ℕ → List (K × ℕ) → List (K × ℕ)
  insert k u [] = (k, u) ∷ []
  insert k u ((j, v) ∷ m) = elim (compare_bytes (bytes k) (bytes j)) [
    | Ordering.lt ↦ (k, u) ∷ (j, v) ∷ m
    | Ordering.eq ↦ (j, u) ∷ m
    | Ordering.gt ↦ (j, v) ∷ insert k u m
  ]

  -- the map after `map.remove(&k)`
  unfoldable pub remove : Bytes → List (K × ℕ) → List (K × ℕ)
  remove s [] = []
  remove s ((k, u) ∷ m) = let rest = remove s m in if same (bytes k) s then rest else (k, u) ∷ rest

  -- `BTreeMap::from_iter`, and a loop that inserts
  unfoldable pub insert_all : List (K × ℕ) → List (K × ℕ) → List (K × ℕ)
  unfolding insert
  insert_all m [] = m
  insert_all m ((k, u) ∷ pairs) = insert_all (insert k u m) pairs

  pub get-insert :
      (k : K) (u : ℕ) (s : Bytes) (m : List (K × ℕ))
      → get s (insert k u m) ≡ (if same (bytes k) s then some u else get s m)
  unfolding get insert
  get-insert k u s [] = refl
  get-insert k u s ((j, v) ∷ m) =
      elim (compare_bytes (bytes k) (bytes j))
          as (λ o.
            compare_bytes (bytes k) (bytes j) ≡ o
            → get s (elim o [
              | Ordering.lt ↦ (k, u) ∷ (j, v) ∷ m
              | Ordering.eq ↦ (j, u) ∷ m
              | Ordering.gt ↦ (j, v) ∷ insert k u m
            ])
              ≡ (if same (bytes k) s then some u else get s ((j, v) ∷ m))) [
                | Ordering.lt ↦ λ e. refl
                | Ordering.eq ↦ λ e. ground (arith, compare_bytes-eq (bytes k) (bytes j) e)
                | Ordering.gt ↦ λ e. ground (
                  arith,
                  compare_bytes-gt (bytes k) (bytes j) e,
                  get-insert k u s m,
                  same_iff (bytes k) s,
                  same_iff (bytes j) s,
                  same_iff (bytes k) (bytes j),
                )
              ]
        refl

  pub get-remove :
      (s t : Bytes) (m : List (K × ℕ)) → get t (remove s m) ≡ (if same s t then none else get t m)
  unfolding get remove
  get-remove s t [] = ground arith
  get-remove s t ((k, u) ∷ m) =
      ground (arith, get-remove s t m, same_iff (bytes k) s, same_iff (bytes k) t, same_iff s t)
