-- ===== src/Cats/Inverse.antt =====
-- The two maps of an encoding as inverses of each other.
use maplib.Prelude.{ℕ, ◌≡◌, refl, ◌∙◌, sym, List, [], none, some, if◌then◌else◌, nat_eq, arith}
use maplib.Cats.Bytes.{Bytes, same}
use maplib.Cats.Codes
use maplib.Cats.Ordered
use maplib.Cats.Maps.{CatMaps, encode_new, flip, maybe_decode, maybe_encode, new_empty}
use maplib.Cats.Entries.{IsDistinct, text_of, text_of-insert, insert-IsDistinct, last-flip}

module _ {K : Type 0} (bytes : K → Bytes) where
  -- No text and no code stands twice, and the reverse map has the texts of the codes.
  pub record IsEncoding (self : CatMaps K) : Type 0 where
    pub distinct : IsDistinct bytes self.entries
    pub reverse : (u : ℕ) → maybe_decode bytes self u ≡ text_of bytes u self.entries

  pub new_empty-IsEncoding : IsEncoding new_empty
  unfolding new_empty maybe_decode Codes.get text_of
  new_empty-IsEncoding = record { distinct = tt; reverse = λ u. refl }

  -- what decoding gives after a new entry
  pub maybe_decode-encode_new :
      (self : CatMaps K) (k : K) (u v : ℕ)
      → maybe_decode bytes (encode_new bytes self k u) v
        ≡ (if nat_eq u v then some (bytes k) else maybe_decode bytes self v)
  unfolding maybe_decode encode_new
  maybe_decode-encode_new self k u v = ground (arith, Codes.get-put u v k self.rev_map)

  pub maybe_encode-encode_new :
      (self : CatMaps K) (k : K) (u : ℕ) (s : Bytes)
      → maybe_encode bytes (encode_new bytes self k u) s
        ≡ (if same (bytes k) s then some u else maybe_encode bytes self s)
  unfolding maybe_encode encode_new
  maybe_encode-encode_new self k u s = Ordered.get-insert bytes k u s self.entries

  -- An encoding stays one, if the text and the code are new.
  pub encode_new-IsEncoding :
      (self : CatMaps K) (k : K) (u : ℕ)
      → IsEncoding self
      → maybe_encode bytes self (bytes k) ≡ none
      → maybe_decode bytes self u ≡ none
      → IsEncoding (encode_new bytes self k u)
  encode_new-IsEncoding self k u e new_text new_code = record {
    distinct = unfold encode_new in insert-IsDistinct bytes k u self.entries text code e.distinct;
    reverse = λ v.
        maybe_decode-encode_new self k u v
        ∙ (unfold encode_new in
            ground (arith, text_of-insert bytes k u v self.entries text code, e.reverse v));
  }
    where
      text : Ordered.get bytes (bytes k) self.entries ≡ none
      text = unfold maybe_encode in new_text

      code : text_of bytes u self.entries ≡ none
      code = sym (e.reverse u) ∙ new_code

  maybe_decode-collected :
      (m : List (K × ℕ)) (pairs : List (ℕ × K)) (u : ℕ)
      → maybe_decode bytes (record { entries = m; rev_map = Codes.insert_all [] pairs }) u
        ≡ elim (Codes.last u pairs) [ some k ↦ some (bytes k) | none ↦ none ]
  unfolding maybe_decode Codes.get
  maybe_decode-collected m pairs u = ground (arith, Codes.get-insert_all u [] pairs)

  -- An encoding whose reverse map is collected from its entries.
  pub flip-IsEncoding :
      (m : List (K × ℕ))
      → IsDistinct bytes m
      → IsEncoding (record { entries = m; rev_map = Codes.insert_all [] (flip m) })
  flip-IsEncoding m d = record {
    distinct = d;
    reverse = λ u. maybe_decode-collected m (flip m) u ∙ last-flip bytes u m d;
  }
