-- ===== src/Cats/Split.antt =====
-- The two passes of a merge over the entries of the other encoding, before anything is inserted.
use maplib.Prelude.{
  ℕ, ◌+◌, ◌≤◌, ◌≡◌, refl, List, [], ◌∷◌, none, some, arith, Option-cases, Bool-cases, inl, inr,
  length,
}
use maplib.Cats.Bytes.{Bytes, same, same_iff}
use maplib.Cats.Codes
use maplib.Cats.Ordered
use maplib.Cats.Maps.{as_u32, number, split_entries}
use maplib.Cats.Entries.{IsDistinct, text_of}

module _ {K : Type 0} (bytes : K → Bytes) where
  pub get-split_entries :
      (entries other : List (K × ℕ)) (s : Bytes)
      → Ordered.get bytes s (split_entries bytes entries other).1
        ≡ elim (Ordered.get bytes s entries) [ some e ↦ none | none ↦ Ordered.get bytes s other ]
  unfolding split_entries Ordered.get
  get-split_entries entries [] s = ground arith
  get-split_entries entries ((k, u) ∷ other) s =
      ground (arith, get-split_entries entries other s, same_iff (bytes k) s)

  pub text_of-split_entries :
      (entries other : List (K × ℕ)) (u : ℕ)
      → IsDistinct bytes other
      → text_of bytes u (split_entries bytes entries other).1 ≡ elim (text_of bytes u other) [
        | some s ↦ elim (Ordered.get bytes s entries) [ some e ↦ none | none ↦ some s ]
        | none ↦ none
      ]
  unfolding split_entries text_of
  text_of-split_entries entries [] u d = refl
  text_of-split_entries entries ((k, v) ∷ other) u (a, b, d) =
      ground (arith, text_of-split_entries entries other u d)

  pub last-split_entries :
      (entries other : List (K × ℕ)) (u : ℕ)
      → IsDistinct bytes other
      → Codes.last u (split_entries bytes entries other).0
        ≡ elim (text_of bytes u other) [ some s ↦ Ordered.get bytes s entries | none ↦ none ]
  unfolding split_entries text_of Codes.last
  last-split_entries entries [] u d = refl
  last-split_entries entries ((k, v) ∷ other) u (a, b, d) =
      ground (arith, last-split_entries entries other u d)

  pub split_entries-IsDistinct :
      (entries other : List (K × ℕ))
      → IsDistinct bytes other
      → IsDistinct bytes (split_entries bytes entries other).1
  unfolding split_entries
  split_entries-IsDistinct entries [] d = tt
  split_entries-IsDistinct entries ((k, v) ∷ other) (a, b, d) =
      elim (Option-cases (Ordered.get bytes (bytes k) entries)) [
        | inl missing ↦
            rw (missing, split_entries)
              (
                ground (arith, get-split_entries entries other (bytes k)),
                ground (arith, text_of-split_entries entries other v d),
                split_entries-IsDistinct entries other d,
              )
        | inr (e, found) ↦ rw (found, split_entries) (split_entries-IsDistinct entries other d)
      ]

  pub length-split_entries :
      (entries other : List (K × ℕ)) → length (split_entries bytes entries other).1 ≤ length other
  unfolding split_entries
  length-split_entries entries [] = omega arith
  length-split_entries entries ((k, v) ∷ other) = ground (arith, length-split_entries entries other)

  pub last-number :
      (insert : List (K × ℕ)) (c u : ℕ)
      → text_of bytes u insert ≡ none
      → Codes.last u (number insert c).1 ≡ none
  unfolding number text_of Codes.last
  last-number [] c u h = refl
  last-number ((k, v) ∷ insert) c u h = ground (arith, last-number insert (as_u32 (c + 1)) u)

  -- an entry and its code get the same new code
  pub get-number :
      (insert : List (K × ℕ)) (c : ℕ) (s : Bytes) (u : ℕ)
      → IsDistinct bytes insert
      → Ordered.get bytes s insert ≡ some u
      → (v : ℕ) × (Ordered.get bytes s (number insert c).0 ≡ some v)
        × (Codes.last u (number insert c).1 ≡ some v)
  unfolding number Ordered.get Codes.last
  get-number [] c s u d h = cc
  get-number ((k, w) ∷ insert) c s u (a, b, d) h = elim (Bool-cases (same (bytes k) s)) [
    | inl e ↦ (c, ground arith, ground (arith, last-number insert (as_u32 (c + 1)) w b))
    | inr e ↦
        let (v, p, q) = get-number insert (as_u32 (c + 1)) s u d (ground arith) in
        (v, ground arith, ground arith)
  ]
