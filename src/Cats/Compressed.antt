-- ===== src/Cats/Compressed.antt =====
-- `PrefixCompressedCatMapsInMemory`: the two maps with compressed keys, and the map of the prefixes
-- that keys share. An entry of the prefix map is its key behind an Arc, so that it is a set here. A
-- key is compared by `cmp`, which is the order of the bytes (Iri).
pub mod Lookup
use maplib.Prelude.{
  ℕ, ◌≡◌, refl, ◌∙◌, sym, ap, Bool, true, false, List, [], ◌∷◌, ◌++◌, ◌||◌, Option, none, some,
  if◌then◌else◌, arith, Option-cases, Bool-cases, inl, inr,
}
use maplib.Cats.Bytes.{Bytes, same, same_iff, same_refl}
use maplib.Cats.Codes
use maplib.Cats.Ordered
use maplib.Cats.Maps.{
  CatMaps, as_u32, encode_new, maybe_encode, maybe_decode, merge, new_empty, number, split_entries,
}
use maplib.Cats.Iri.{
  PrefixCompressedString, compressed, split_iri, split_iri_lem, to_bytes, to_bytes-compressed,
}

pub record PrefixCompressedCatMapsInMemory : Type 0 where
  pub maps : CatMaps PrefixCompressedString
  pub prefix_map : List Bytes

-- `self.prefix_map.get(pre)` finds a prefix
unfoldable pub has_prefix : List Bytes → Bytes → Bool
has_prefix [] pre = false
has_prefix (p ∷ prefix_map) pre = same p pre || has_prefix prefix_map pre

-- `encode_or_add_new_prefix` and `encode_or_add_new_prefix_str`
unfoldable pub encode_or_add_new_prefix : List Bytes → Bytes → List Bytes
unfolding has_prefix
encode_or_add_new_prefix prefix_map pre =
    if has_prefix prefix_map pre then prefix_map else pre ∷ prefix_map

unfoldable pub encode_new_prefix_compressed_string :
    PrefixCompressedCatMapsInMemory → PrefixCompressedString → ℕ → PrefixCompressedCatMapsInMemory
unfolding encode_or_add_new_prefix encode_new
encode_new_prefix_compressed_string self s u = record {
  maps = encode_new to_bytes self.maps s u;
  prefix_map = encode_or_add_new_prefix self.prefix_map s.prefix;
}

unfoldable pub encode_new_str :
    PrefixCompressedCatMapsInMemory → Bytes → ℕ → PrefixCompressedCatMapsInMemory
unfolding encode_or_add_new_prefix encode_new compressed
encode_new_str self s u = record {
  maps = encode_new to_bytes self.maps (compressed s) u;
  prefix_map = encode_or_add_new_prefix self.prefix_map (compressed s).prefix;
}

unfoldable pub maybe_encode_str : PrefixCompressedCatMapsInMemory → Bytes → Option ℕ
unfolding has_prefix Ordered.get compressed
maybe_encode_str self s =
    if has_prefix self.prefix_map (compressed s).prefix
    then Ordered.get to_bytes (to_bytes (compressed s)) self.maps.entries
    else none

unfoldable pub new_empty_compressed : PrefixCompressedCatMapsInMemory
unfolding new_empty
new_empty_compressed = record { maps = new_empty; prefix_map = [] }

unfoldable pub new_singular_compressed : Bytes → ℕ → PrefixCompressedCatMapsInMemory
unfolding new_empty_compressed encode_new_str
new_singular_compressed value u = encode_new_str new_empty_compressed value u

-- the last loop of `merge`
unfoldable pub encode_numbered_compressed :
    PrefixCompressedCatMapsInMemory
    → List (PrefixCompressedString × ℕ)
    → PrefixCompressedCatMapsInMemory
unfolding encode_new_prefix_compressed_string
encode_numbered_compressed self [] = self
encode_numbered_compressed self ((s, u) ∷ numbered) =
    encode_numbered_compressed (encode_new_prefix_compressed_string self s u) numbered

unfoldable pub merge_compressed :
    PrefixCompressedCatMapsInMemory
    → PrefixCompressedCatMapsInMemory
    → ℕ
    → PrefixCompressedCatMapsInMemory × List (ℕ × ℕ) × ℕ
unfolding split_entries number encode_numbered_compressed Codes.insert_all
merge_compressed self other c =
    let (remap, insert) = split_entries to_bytes self.maps.entries other.maps.entries in
    let (numbered, new_remap, last) = number insert c in
    (encode_numbered_compressed self numbered, Codes.insert_all [] (remap ++ new_remap), last)

-- Every key is a split text whose prefix is in the prefix map.
abbrev pub KeysIn : List Bytes → List (PrefixCompressedString × ℕ) → Type 0
KeysIn prefix_map [] = Unit
KeysIn prefix_map ((k, u) ∷ m) =
    (compressed (to_bytes k) ≡ k) × (has_prefix prefix_map k.prefix ≡ true) × KeysIn prefix_map m

abbrev pub HasPrefixes : PrefixCompressedCatMapsInMemory → Type 0
HasPrefixes self = KeysIn self.prefix_map self.maps.entries

-- a text whose prefix is not there is no key
no_key :
    (prefix_map : List Bytes) (m : List (PrefixCompressedString × ℕ)) (s : Bytes)
    → KeysIn prefix_map m
    → has_prefix prefix_map (compressed s).prefix ≡ false
    → Ordered.get to_bytes s m ≡ none
unfolding Ordered.get
no_key prefix_map [] s h a = refl
no_key prefix_map ((k, u) ∷ m) s (split, there, h) a =
    ground (arith, no_key prefix_map m s h a, same_iff (to_bytes k) s)

-- Where every key is a split text whose prefix is in the prefix map, the look at the prefix map first
-- hides no text: the search is that in the map of the texts.
pub maybe_encode_str-maybe_encode :
    (self : PrefixCompressedCatMapsInMemory) (s : Bytes)
    → HasPrefixes self
    → maybe_encode_str self s ≡ maybe_encode to_bytes self.maps s
unfolding maybe_encode_str maybe_encode
maybe_encode_str-maybe_encode self s h =
    rw (to_bytes-compressed s)
      (elim (Bool-cases (has_prefix self.prefix_map (compressed s).prefix)) [
        | inl there ↦ rw there
        | inr missing ↦ rw missing (sym (no_key self.prefix_map self.maps.entries s h missing))
      ])
