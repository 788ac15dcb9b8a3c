-- ===== src/Cats/Entries.antt =====
-- Entries of which no two have the same text or the same code, read in both directions.
use Prim.Native.Nat.{Ordering}
use maplib.Prelude.{
  ℕ, ◌≡◌, refl, ◌∙◌, true, false, List, [], ◌∷◌, Option, none, some, if◌then◌else◌, nat_eq, arith,
  ◌↔◌, Option-cases, inl, inr,
}
use maplib.Cats.Bytes.{Bytes, compare_bytes, compare_bytes-eq, compare_bytes-gt, same, same_iff}
use maplib.Cats.Codes
use maplib.Cats.Ordered
use maplib.Cats.Maps.{flip}

module _ {K : Type 0} (bytes : K → Bytes) where
  -- the text of the first entry with the code
  unfoldable pub text_of : ℕ → List (K × ℕ) → Option Bytes
  text_of u [] = none
  text_of u ((k, v) ∷ m) = if nat_eq v u then some (bytes k) else text_of u m

  abbrev pub IsDistinct : List (K × ℕ) → Type 0
  IsDistinct [] = Unit
  IsDistinct ((k, u) ∷ m) =
      (Ordered.get bytes (bytes k) m ≡ none) × (text_of u m ≡ none) × IsDistinct m

  pub get-text_of :
      (m : List (K × ℕ)) (s : Bytes) (u : ℕ)
      → IsDistinct m
      → (Ordered.get bytes s m ≡ some u) ↔ (text_of u m ≡ some s)
  unfolding Ordered.get text_of
  get-text_of [] s u d = (λ h. cc, λ h. cc)
  get-text_of ((k, v) ∷ m) s u (a, b, d) =
      let ih = get-text_of m s u d in ground (arith, ih, same_iff (bytes k) s)

  pub text_of-insert :
      (k : K) (u v : ℕ) (m : List (K × ℕ))
      → Ordered.get bytes (bytes k) m ≡ none
      → text_of u m ≡ none
      → text_of v (Ordered.insert bytes k u m)
        ≡ (if nat_eq u v then some (bytes k) else text_of v m)
  unfolding Ordered.get Ordered.insert text_of
  text_of-insert k u v [] h g = refl
  text_of-insert k u v ((j, w) ∷ m) h g =
      elim (compare_bytes (bytes k) (bytes j))
          as (λ o.
            compare_bytes (bytes k) (bytes j) ≡ o
            → text_of v (elim o [
              | Ordering.lt ↦ (k, u) ∷ (j, w) ∷ m
              | Ordering.eq ↦ (j, u) ∷ m
              | Ordering.gt ↦ (j, w) ∷ Ordered.insert bytes k u m
            ])
              ≡ (if nat_eq u v then some (bytes k) else text_of v ((j, w) ∷ m))) [
                | Ordering.lt ↦ λ e. refl
                | Ordering.eq ↦ λ e.
                    ground
                      (arith, compare_bytes-eq (bytes k) (bytes j) e, same_iff (bytes j) (bytes k))
                | Ordering.gt ↦ λ e. ground (arith, text_of-insert k u v m)
              ]
        refl

  pub insert-IsDistinct :
      (k : K) (u : ℕ) (m : List (K × ℕ))
      → Ordered.get bytes (bytes k) m ≡ none
      → text_of u m ≡ none
      → IsDistinct m
      → IsDistinct (Ordered.insert bytes k u m)
  unfolding Ordered.get Ordered.insert text_of
  insert-IsDistinct k u [] h g d = (refl, refl, tt)
  insert-IsDistinct k u ((j, w) ∷ m) h g (a, b, d) =
      elim (compare_bytes (bytes k) (bytes j))
          as (λ o.
            compare_bytes (bytes k) (bytes j) ≡ o
            → IsDistinct (elim o [
              | Ordering.lt ↦ (k, u) ∷ (j, w) ∷ m
              | Ordering.eq ↦ (j, u) ∷ m
              | Ordering.gt ↦ (j, w) ∷ Ordered.insert bytes k u m
            ])) [
              | Ordering.lt ↦ λ e. (h, g, (a, b, d))
              | Ordering.eq ↦ λ e. absurd (
                  ground
                    (arith, compare_bytes-eq (bytes k) (bytes j) e, same_iff (bytes j) (bytes k)))
              | Ordering.gt ↦ λ e. (
                ground (
                  arith,
                  Ordered.get-insert bytes k u (bytes j) m,
                  compare_bytes-gt (bytes k) (bytes j) e,
                ),
                ground (arith, text_of-insert k u w m),
                insert-IsDistinct k u m (ground arith) (ground arith) d,
              )
            ]
        refl

  -- the reverse map that is collected from the entries
  pub last-flip :
      (u : ℕ) (m : List (K × ℕ))
      → IsDistinct m
      → elim (Codes.last u (flip m)) [ some k ↦ some (bytes k) | none ↦ none ] ≡ text_of u m
  unfolding Codes.last flip text_of
  last-flip u [] d = refl
  last-flip u ((k, v) ∷ m) (a, b, d) = ground (arith, last-flip u m d)

  pub text_of-remove :
      (s : Bytes) (u : ℕ) (m : List (K × ℕ))
      → IsDistinct m
      → text_of u (Ordered.remove bytes s m)
        ≡ elim (text_of u m) [ some t ↦ if same t s then none else some t | none ↦ none ]
  unfolding Ordered.remove text_of
  text_of-remove s u [] d = refl
  text_of-remove s u ((k, v) ∷ m) (a, b, d) = ground (arith, text_of-remove s u m d)

  pub remove-IsDistinct :
      (s : Bytes) (m : List (K × ℕ)) → IsDistinct m → IsDistinct (Ordered.remove bytes s m)
  unfolding Ordered.remove
  remove-IsDistinct s [] d = tt
  remove-IsDistinct s ((k, v) ∷ m) (a, b, d) =
      let kept = remove-IsDistinct s m d in
      elim (same (bytes k) s)
        as (λ c.
          IsDistinct (if c then Ordered.remove bytes s m else (k, v) ∷ Ordered.remove bytes s m)) [
            | true ↦ kept
            | false ↦ (
              ground (arith, Ordered.get-remove bytes s (bytes k) m),
              ground (arith, text_of-remove s v m d),
              kept,
            )
          ]

  -- removing the text of a code removes that code alone
  pub text_of-remove_code :
      (r u : ℕ) (s : Bytes) (m : List (K × ℕ))
      → IsDistinct m
      → text_of r m ≡ some s
      → text_of u (Ordered.remove bytes s m) ≡ (if nat_eq r u then none else text_of u m)
  text_of-remove_code r u s m d h = elim (Option-cases (text_of u m)) [
    | inl none_there ↦ text_of-remove s u m d ∙ ground (arith)
    | inr (t, found) ↦
        ground
          (arith, text_of-remove s u m d, get-text_of m s u d, get-text_of m s r d, same_iff t s)
  ]
