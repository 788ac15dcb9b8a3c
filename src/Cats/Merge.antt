-- ===== src/Cats/Merge.antt =====
-- The merge of another encoding into an encoding.
use maplib.Prelude.{
  ℕ, ◌+◌, ◌<◌, ◌^◌, ◌≡◌, List, [], ◌∷◌, ◌++◌, none, some, arith, Option-cases, inl, inr, length,
}
use maplib.Cats.Bytes.{Bytes}
use maplib.Cats.Codes
use maplib.Cats.Ordered
use maplib.Cats.Maps.{CatMaps, encode_numbered, maybe_encode, merge, number, split_entries}
use maplib.Cats.Entries.{text_of, get-text_of}
use maplib.Cats.Inverse.{IsEncoding}
use maplib.Cats.Split.{
  get-number, last-number, get-split_entries, text_of-split_entries, last-split_entries,
  split_entries-IsDistinct, length-split_entries,
}
use maplib.Cats.Numbered.{IsBelow, IsEncoded, IsNew, encode_numbered-IsEncoded, get-number-none}

module _ {K : Type 0} (bytes : K → Bytes) where
  split_entries-IsNew :
      (self : CatMaps K) (other : List (K × ℕ))
      → IsNew bytes self (split_entries bytes self.entries other).1
  unfolding split_entries
  split_entries-IsNew self [] = tt
  split_entries-IsNew self ((k, u) ∷ other) =
      elim (Option-cases (Ordered.get bytes (bytes k) self.entries)) [
        | inl missing ↦
            rw (missing, split_entries)
              ((unfold maybe_encode in missing), split_entries-IsNew self other)
        | inr (e, found) ↦ rw (found, split_entries) (split_entries-IsNew self other)
      ]

  -- what a merge of `other` promises of the new encoding, the map of codes and the counter
  pub record IsMerged (self other next : CatMaps K) (remap : List (ℕ × ℕ)) (last : ℕ) : Type 0 where
    pub encoding : IsEncoding bytes next
    pub below : IsBelow bytes last next
    pub kept :
        (s : Bytes) (u : ℕ)
        → maybe_encode bytes self s ≡ some u
        → maybe_encode bytes next s ≡ some u
    pub mapped :
        (s : Bytes) (u : ℕ)
        → maybe_encode bytes other s ≡ some u
        → (v : ℕ) × (Codes.get u remap ≡ some v) × (maybe_encode bytes next s ≡ some v)
    pub no_more :
        (s : Bytes)
        → maybe_encode bytes self s ≡ none
        → maybe_encode bytes other s ≡ none
        → maybe_encode bytes next s ≡ none

  module _ (self other : CatMaps K) (c : ℕ) (f : IsEncoding bytes other) where
    abbrev insert : List (K × ℕ)
    insert = (split_entries bytes self.entries other.entries).1

    abbrev remap : List (ℕ × ℕ)
    remap = (split_entries bytes self.entries other.entries).0

    abbrev numbered : List (K × ℕ)
    numbered = (number insert c).0

    IsEncoded-after :
        IsEncoding bytes self
        → IsBelow bytes c self
        → c + length other.entries < 2 ^ 32
        → IsEncoded bytes self (encode_numbered bytes self numbered) numbered (number insert c).2
    IsEncoded-after e b h =
        encode_numbered-IsEncoded bytes self insert c e b (split_entries-IsNew self other.entries)
          (split_entries-IsDistinct bytes self.entries other.entries f.distinct)
          (omega (arith, length-split_entries bytes self.entries other.entries))

    -- a text of the other encoding that is there already
    mapped_old :
        (s : Bytes) (u v : ℕ)
        → Ordered.get bytes s other.entries ≡ some u
        → Ordered.get bytes s self.entries ≡ some v
        → Codes.get u (Codes.insert_all [] (remap ++ (number insert c).1)) ≡ some v
    mapped_old s u v there found =
        let text = (get-text_of bytes other.entries s u f.distinct).0 there in
        let absent : text_of bytes u insert ≡ none =
          ground (arith, text_of-split_entries bytes self.entries other.entries u f.distinct) in
        ground (
          arith,
          Codes.get-insert_all u [] (remap ++ (number insert c).1),
          Codes.last-append u remap (number insert c).1,
          last-number bytes insert c u absent,
          last-split_entries bytes self.entries other.entries u f.distinct,
        )

    mapped_new :
        (s : Bytes) (u : ℕ)
        → Ordered.get bytes s other.entries ≡ some u
        → Ordered.get bytes s self.entries ≡ none
        → (v : ℕ) × (Ordered.get bytes s numbered ≡ some v)
          × (Codes.get u (Codes.insert_all [] (remap ++ (number insert c).1)) ≡ some v)
    mapped_new s u there missing =
        let inserted : Ordered.get bytes s insert ≡ some u =
          ground (arith, get-split_entries bytes self.entries other.entries s) in
        let (v, p, q) =
          get-number bytes insert c s u
            (split_entries-IsDistinct bytes self.entries other.entries f.distinct) inserted in
        (
          v,
          p,
          ground (
            arith,
            Codes.get-insert_all u [] (remap ++ (number insert c).1),
            Codes.last-append u remap (number insert c).1,
          ),
        )

    -- a text that the encoding has is not numbered, nor is one that neither has
    not_numbered :
        (s : Bytes) (v : ℕ)
        → Ordered.get bytes s self.entries ≡ some v
        → Ordered.get bytes s numbered ≡ none
    not_numbered s v found =
        get-number-none bytes insert c s
          (ground (arith, get-split_entries bytes self.entries other.entries s))

    nowhere :
        (s : Bytes)
        → Ordered.get bytes s self.entries ≡ none
        → Ordered.get bytes s other.entries ≡ none
        → Ordered.get bytes s numbered ≡ none
    nowhere s no_self no_other =
        get-number-none bytes insert c s
          (ground (arith, get-split_entries bytes self.entries other.entries s))

  -- A merge of two encodings, where no code from `c` on is in use and the counter does not overflow,
  -- gives an encoding of the texts of both; texts that were there keep their code, the map takes each
  -- code of the other encoding to the new code of its text, and no code from the new counter on is in
  -- use.
  pub merge-IsMerged :
      (self other : CatMaps K) (c : ℕ)
      → IsEncoding bytes self
      → IsEncoding bytes other
      → IsBelow bytes c self
      → c + length other.entries < 2 ^ 32
      → let (next, remap, last) = merge bytes self other c in IsMerged self other next remap last
  unfolding merge maybe_encode
  merge-IsMerged self other c e f b h =
      let after = IsEncoded-after self other c f e b h in
      record {
        encoding = after.encoding;
        below = after.below;
        kept = λ s u found. ground (arith, after.encoded s, not_numbered self other c f s u found);
        mapped = λ s u there. elim (Option-cases (Ordered.get bytes s self.entries)) [
          | inl missing ↦
              let (v, p, q) = mapped_new self other c f s u there missing in
              (v, q, ground (arith, after.encoded s))
          | inr (v, found) ↦ (
            v,
            mapped_old self other c f s u v there found,
            ground (arith, after.encoded s, not_numbered self other c f s v found),
          )
        ];
        no_more = λ s no_self no_other.
            ground (arith, after.encoded s, nowhere self other c f s no_self no_other);
      }
