-- ===== src/Cats/InMemory/New.antt =====
-- The encoding of those strings of a list that have no code yet.
use maplib.Prelude.{
  ℕ, ◌+◌, ◌≤◌, ◌<◌, ◌^◌, ◌≡◌, refl, sym, ◌∙◌, false, List, [], ◌∷◌, Option, none, some,
  if◌then◌else◌, nat_eq, arith, length,
}
use maplib.Cats.Bytes.{Bytes, same, same_iff}
use maplib.Cats.Maps.{as_u32}
use maplib.Cats.Inverse.{
  IsEncoding, encode_new-IsEncoding, maybe_decode-encode_new, maybe_encode-encode_new,
}
use maplib.Cats.Iri.{compressed, to_bytes, to_bytes-compressed}
use maplib.Cats.Compressed.{HasPrefixes, maybe_encode_str-maybe_encode, encode_new_str}
use maplib.Cats.Compressed.Lookup.{encode_new_str-HasPrefixes, maybe_encode_str-encode_new_str}
use maplib.Cats.InMemory.{
  CatMapsInMemory, all_some, encode_all_new_non_duplicated_strings, encode_missing,
  encode_new_in_memory_string, maybe_decode, maybe_encode_in_memory_str, maybe_encode_strs, plain,
}

-- Both maps are inverse to each other, and a compressed encoding has the prefixes of its keys.
abbrev pub IsValid : CatMapsInMemory → Type 0
IsValid (CatMapsInMemory.compressed_maps m) = IsEncoding to_bytes m.maps × HasPrefixes m
IsValid (CatMapsInMemory.uncompressed_maps m) = IsEncoding plain m

-- no code from `c` on has a string
abbrev pub IsUnused : ℕ → CatMapsInMemory → Type 0
IsUnused c self = (u : ℕ) → c ≤ u → maybe_decode self u ≡ none

-- no string stands twice
abbrev pub NotIn : Bytes → List Bytes → Type 0
NotIn s [] = Unit
NotIn s (t ∷ strings) = (same s t ≡ false) × NotIn s strings

abbrev pub NoRepeat : List Bytes → Type 0
NoRepeat [] = Unit
NoRepeat (s ∷ strings) = NotIn s strings × NoRepeat strings

-- every string has a code
abbrev pub AllEncoded : CatMapsInMemory → List Bytes → Type 0
AllEncoded self [] = Unit
AllEncoded self (s ∷ strings) =
    ((u : ℕ) × (maybe_encode_in_memory_str self s ≡ some u)) × AllEncoded self strings

lookup_new :
    (self : CatMapsInMemory) (s t : Bytes) (c : ℕ)
    → IsValid self
    → maybe_encode_in_memory_str (encode_new_in_memory_string self s c) t
      ≡ (if same s t then some c else maybe_encode_in_memory_str self t)
unfolding maybe_encode_in_memory_str encode_new_in_memory_string
lookup_new (CatMapsInMemory.compressed_maps m) s t c (e, h) =
    maybe_encode_str-encode_new_str m s c t h
lookup_new (CatMapsInMemory.uncompressed_maps m) s t c e = maybe_encode-encode_new plain m s c t

decode_new :
    (self : CatMapsInMemory) (s : Bytes) (c u : ℕ)
    → maybe_decode (encode_new_in_memory_string self s c) u
      ≡ (if nat_eq c u then some s else maybe_decode self u)
unfolding maybe_decode encode_new_in_memory_string
decode_new (CatMapsInMemory.compressed_maps m) s c u =
    let decoded = maybe_decode-encode_new to_bytes m.maps (compressed s) c u in
    let text = to_bytes-compressed s in unfold encode_new_str in ground (arith, decoded, text)
decode_new (CatMapsInMemory.uncompressed_maps m) s c u = maybe_decode-encode_new plain m s c u

IsValid-new :
    (self : CatMapsInMemory) (s : Bytes) (c : ℕ)
    → IsValid self
    → maybe_encode_in_memory_str self s ≡ none
    → maybe_decode self c ≡ none
    → IsValid (encode_new_in_memory_string self s c)
unfolding maybe_encode_in_memory_str maybe_decode encode_new_in_memory_string
IsValid-new (CatMapsInMemory.compressed_maps m) s c (e, h) new_text new_code = (
  (let missing = sym (maybe_encode_str-maybe_encode m s h) ∙ new_text in
      let text = to_bytes-compressed s in
      let encoded =
        encode_new-IsEncoding to_bytes m.maps (compressed s) c e (rw text missing) new_code in
      unfold encode_new_str in encoded),
  encode_new_str-HasPrefixes m s c h,
)
IsValid-new (CatMapsInMemory.uncompressed_maps m) s c e new_text new_code =
    encode_new-IsEncoding plain m s c e new_text new_code

-- the strings that are left have the codes that were looked up before the loop
abbrev Agrees : CatMapsInMemory → List Bytes → List (Option ℕ) → Type 0
Agrees self [] [] = Unit
Agrees self [] (m ∷ ms) = Unit
Agrees self (s ∷ strings) [] = ⊥
Agrees self (s ∷ strings) (m ∷ ms) =
    (maybe_encode_in_memory_str self s ≡ m) × Agrees self strings ms

Agrees-new :
    (self : CatMapsInMemory) (s : Bytes) (c : ℕ) (strings : List Bytes) (ms : List (Option ℕ))
    → IsValid self
    → NotIn s strings
    → Agrees self strings ms
    → Agrees (encode_new_in_memory_string self s c) strings ms
Agrees-new self s c [] [] v n a = tt
Agrees-new self s c [] (m ∷ ms) v n a = tt
Agrees-new self s c (t ∷ strings) [] v n a = elim a [ ]
Agrees-new self s c (t ∷ strings) (m ∷ ms) v (d, n) (e, a) =
    (ground (arith, lookup_new self s t c v, d, e), Agrees-new self s c strings ms v n a)

IsUnused-new :
    (self : CatMapsInMemory) (s : Bytes) (c : ℕ)
    → c + 1 < 2 ^ 32
    → IsUnused c self
    → IsUnused (as_u32 (c + 1)) (encode_new_in_memory_string self s c)
unfolding as_u32
IsUnused-new self s c h b u le = ground (arith, decode_new self s c u, b u)

-- what the encoding of new strings promises
pub record IsExtended (self next : CatMapsInMemory) (strings : List Bytes) (last : ℕ) : Type 0 where
  pub valid : IsValid next
  pub unused : IsUnused last next
  pub kept :
      (s : Bytes) (u : ℕ)
      → maybe_encode_in_memory_str self s ≡ some u
      → maybe_encode_in_memory_str next s ≡ some u
  pub encoded : AllEncoded next strings

encode_missing-IsExtended :
    (self : CatMapsInMemory) (strings : List Bytes) (ms : List (Option ℕ)) (c : ℕ)
    → IsValid self
    → IsUnused c self
    → NoRepeat strings
    → Agrees self strings ms
    → c + length strings < 2 ^ 32
    → let (next, last) = encode_missing self strings ms c in IsExtended self next strings last
unfolding encode_missing
encode_missing-IsExtended self [] ms c v b n a h = record {
  valid = v;
  unused = b;
  kept = λ s u e. e;
  encoded = tt;
}
encode_missing-IsExtended self (s ∷ strings) [] c v b n a h = elim a [ ]
encode_missing-IsExtended self (s ∷ strings) (some u ∷ ms) c v b (d, n) (e, a) h =
    let rest = encode_missing-IsExtended self strings ms c v b n a (omega arith) in
    record {
      valid = rest.valid;
      unused = rest.unused;
      kept = rest.kept;
      encoded = ((u, rest.kept s u e), rest.encoded);
    }
encode_missing-IsExtended self (s ∷ strings) (none ∷ ms) c v b (d, n) (e, a) h =
    let next = encode_new_in_memory_string self s c in
    let rest =
      encode_missing-IsExtended next strings ms (as_u32 (c + 1))
        (IsValid-new self s c v e (b c (omega arith))) (IsUnused-new self s c (omega arith) b) n
        (Agrees-new self s c strings ms v d a) (unfold as_u32 in omega arith) in
    record {
      valid = rest.valid;
      unused = rest.unused;
      kept = λ t u f. rest.kept t u (ground (arith, lookup_new self s t c v, same_iff s t, e, f));
      encoded = (
        (c, rest.kept s c (ground (arith, lookup_new self s s c v, same_iff s s))),
        rest.encoded,
      );
    }

Agrees-looked_up :
    (self : CatMapsInMemory) (strings : List Bytes)
    → Agrees self strings (maybe_encode_strs self (all_some strings))
unfolding maybe_encode_strs all_some
Agrees-looked_up self [] = tt
Agrees-looked_up self (s ∷ strings) = (refl, Agrees-looked_up self strings)

-- Strings without a repetition are encoded, where no code from `c` on is in use and the counter does
-- not overflow: every one has a code then, strings that had one keep it, the maps stay inverse to each
-- other, and no code from the new counter on is in use.
pub encode_all_new_non_duplicated_strings-IsExtended :
    (self : CatMapsInMemory) (strings : List Bytes) (c : ℕ)
    → IsValid self
    → IsUnused c self
    → NoRepeat strings
    → c + length strings < 2 ^ 32
    → let (next, last) = encode_all_new_non_duplicated_strings self strings c in
      IsExtended self next strings last
unfolding encode_all_new_non_duplicated_strings
encode_all_new_non_duplicated_strings-IsExtended self strings c v b n h =
    encode_missing-IsExtended self strings (maybe_encode_strs self (all_some strings)) c v b n
      (Agrees-looked_up self strings) h
