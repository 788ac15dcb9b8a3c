-- ===== src/Cats/Compact.antt =====
-- The compaction of codes.
use maplib.Prelude.{
  ℕ, zero, suc, ◌+◌, ◌≤◌, ◌<◌, ◌%◌, ◌^◌, ◌≡◌, refl, ◌∙◌, List, [], ◌∷◌, Option, none, some, arith,
  length,
}
use maplib.Cats.Bytes.{Bytes}
use maplib.Cats.Ordered
use maplib.Cats.Maps.{CatMaps, as_u32, compact, enumerate, maybe_decode}
use maplib.Cats.Entries.{IsDistinct, text_of}
use maplib.Cats.Inverse.{IsEncoding, flip-IsEncoding}

module _ {K : Type 0} (bytes : K → Bytes) where
  -- the n-th text in the order of the keys
  abbrev pub nth_text : List (K × ℕ) → ℕ → Option Bytes
  nth_text [] n = none
  nth_text ((k, u) ∷ m) zero = some (bytes k)
  nth_text ((k, u) ∷ m) (suc n) = nth_text m n

  get-enumerate :
      (i : ℕ) (m : List (K × ℕ)) (s : Bytes)
      → Ordered.get bytes s m ≡ none
      → Ordered.get bytes s (enumerate i m) ≡ none
  unfolding enumerate Ordered.get
  get-enumerate i [] s h = refl
  get-enumerate i ((k, u) ∷ m) s h = ground (arith, get-enumerate (i + 1) m s)

  text_of-enumerate_below :
      (i u : ℕ) (m : List (K × ℕ))
      → u < i
      → i + length m ≤ 2 ^ 32
      → text_of bytes u (enumerate i m) ≡ none
  unfolding enumerate text_of as_u32
  text_of-enumerate_below i u [] h b = refl
  text_of-enumerate_below i u ((k, v) ∷ m) h b = ground (arith, text_of-enumerate_below (i + 1) u m)

  enumerate-IsDistinct :
      (i : ℕ) (m : List (K × ℕ))
      → i + length m ≤ 2 ^ 32
      → IsDistinct bytes m
      → IsDistinct bytes (enumerate i m)
  unfolding enumerate as_u32
  enumerate-IsDistinct i [] b d = tt
  enumerate-IsDistinct i ((k, v) ∷ m) b (no_text, no_code, d) = (
    get-enumerate (i + 1) m (bytes k) no_text,
    (let fits : i % 2 ^ 32 ≡ i = omega arith in
        rw fits (text_of-enumerate_below (i + 1) i m (omega arith) (omega arith))),
    enumerate-IsDistinct (i + 1) m (omega arith) d,
  )

  text_of-enumerate :
      (i n u : ℕ) (m : List (K × ℕ))
      → i + n ≡ u
      → i + length m ≤ 2 ^ 32
      → text_of bytes u (enumerate i m) ≡ nth_text m n
  unfolding enumerate text_of as_u32
  text_of-enumerate i n u [] e b = refl
  text_of-enumerate i zero u ((k, v) ∷ m) e b = ground arith
  text_of-enumerate i (suc n) u ((k, v) ∷ m) e b =
      let rest = text_of-enumerate (i + 1) n u m (omega arith) (omega arith) in ground arith

  -- Compaction of an encoding of at most 2^32 texts gives an encoding in which the code u has the
  -- u-th text in the order of the texts, and no code from their number on is in use.
  pub compact-IsEncoding :
      (self : CatMaps K)
      → length self.entries ≤ 2 ^ 32
      → IsEncoding bytes self
      → IsEncoding bytes (compact self)
        × ((u : ℕ) → maybe_decode bytes (compact self) u ≡ nth_text self.entries u)
  unfolding compact
  compact-IsEncoding self b e =
      let kept =
        flip-IsEncoding bytes (enumerate 0 self.entries)
          (enumerate-IsDistinct 0 self.entries (omega arith) e.distinct) in
      (kept, λ u. kept.reverse u ∙ text_of-enumerate 0 u u self.entries (omega arith) (omega arith))
