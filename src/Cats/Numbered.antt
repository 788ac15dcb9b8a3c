-- ===== src/Cats/Numbered.antt =====
-- The encoding of new texts by consecutive codes.
use maplib.Prelude.{ℕ, ◌+◌, ◌≤◌, ◌<◌, ◌^◌, ◌≡◌, refl, List, [], ◌∷◌, none, some, arith, length}
use maplib.Cats.Bytes.{Bytes, same_iff}
use maplib.Cats.Ordered
use maplib.Cats.Maps.{
  CatMaps, as_u32, encode_new, encode_numbered, maybe_decode, maybe_encode, number,
}
use maplib.Cats.Entries.{IsDistinct}
use maplib.Cats.Inverse.{
  IsEncoding, encode_new-IsEncoding, maybe_decode-encode_new, maybe_encode-encode_new,
}

module _ {K : Type 0} (bytes : K → Bytes) where
  -- no code from `c` on is in use
  abbrev pub IsBelow : ℕ → CatMaps K → Type 0
  IsBelow c self = (u : ℕ) → c ≤ u → maybe_decode bytes self u ≡ none

  -- no text of the entries is in use
  abbrev pub IsNew : CatMaps K → List (K × ℕ) → Type 0
  IsNew self [] = Unit
  IsNew self ((k, u) ∷ m) = (maybe_encode bytes self (bytes k) ≡ none) × IsNew self m

  IsNew-encode_new :
      (self : CatMaps K) (k : K) (c : ℕ) (m : List (K × ℕ))
      → Ordered.get bytes (bytes k) m ≡ none
      → IsNew self m
      → IsNew (encode_new bytes self k c) m
  unfolding Ordered.get
  IsNew-encode_new self k c [] h n = tt
  IsNew-encode_new self k c ((j, u) ∷ m) h (a, n) = (
    ground (
      arith,
      maybe_encode-encode_new bytes self k c (bytes j),
      same_iff (bytes k) (bytes j),
      same_iff (bytes j) (bytes k),
    ),
    IsNew-encode_new self k c m (ground arith) n,
  )

  IsBelow-encode_new :
      (self : CatMaps K) (k : K) (c : ℕ)
      → c + 1 < 2 ^ 32
      → IsBelow c self
      → IsBelow (as_u32 (c + 1)) (encode_new bytes self k c)
  unfolding as_u32
  IsBelow-encode_new self k c h b u le =
      ground (arith, maybe_decode-encode_new bytes self k c u, b u)

  pub get-number-none :
      (m : List (K × ℕ)) (i : ℕ) (s : Bytes)
      → Ordered.get bytes s m ≡ none
      → Ordered.get bytes s (number m i).0 ≡ none
  unfolding number Ordered.get
  get-number-none [] i s h = refl
  get-number-none ((j, v) ∷ m) i s h = ground (arith, get-number-none m (as_u32 (i + 1)) s)

  -- what holds after the numbered texts are encoded
  pub record IsEncoded (self next : CatMaps K) (numbered : List (K × ℕ)) (last : ℕ) : Type 0 where
    pub encoding : IsEncoding bytes next
    pub below : IsBelow last next
    pub encoded :
        (s : Bytes)
        → maybe_encode bytes next s ≡ elim (Ordered.get bytes s numbered) [
          | some v ↦ some v
          | none ↦ maybe_encode bytes self s
        ]

  pub encode_numbered-IsEncoded :
      (self : CatMaps K) (insert : List (K × ℕ)) (c : ℕ)
      → IsEncoding bytes self
      → IsBelow c self
      → IsNew self insert
      → IsDistinct bytes insert
      → c + length insert < 2 ^ 32
      → IsEncoded self
          (encode_numbered bytes self (number insert c).0)
          (number insert c).0
          (number insert c).2
  unfolding encode_numbered number Ordered.get
  encode_numbered-IsEncoded self [] c e b n d h = record {
    encoding = e;
    below = b;
    encoded = λ s. refl;
  }
  encode_numbered-IsEncoded self ((k, u) ∷ insert) c e b (new, n) (no_text, no_code, d) h =
      let added = encode_new-IsEncoding bytes self k c e new (b c (omega arith)) in
      let rest =
        encode_numbered-IsEncoded (encode_new bytes self k c) insert (as_u32 (c + 1)) added
          (IsBelow-encode_new self k c (omega arith) b) (IsNew-encode_new self k c insert no_text n)
          d (unfold as_u32 in omega arith) in
      record {
        encoding = rest.encoding;
        below = rest.below;
        encoded = λ s. ground (
          arith,
          rest.encoded s,
          maybe_encode-encode_new bytes self k c s,
          get-number-none insert (as_u32 (c + 1)) (bytes k) no_text,
          same_iff (bytes k) s,
        );
      }
