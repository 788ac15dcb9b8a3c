-- ===== src/Cats/Compressed/Lookup.antt =====
-- Insertion, merge and search of compressed texts, against the maps of the texts.
use Prim.Native.Nat.{Ordering}
use maplib.Prelude.{
  ℕ, ◌+◌, ◌≡◌, refl, ◌∙◌, ap, true, List, [], ◌∷◌, ◌||◌, some, if◌then◌else◌, arith, Option-cases,
  inl, inr,
}
use maplib.Cats.Bytes.{Bytes, compare_bytes, same, same_iff, same_refl}
use maplib.Cats.Ordered
use maplib.Cats.Maps.{as_u32, encode_new, encode_numbered, merge, number, split_entries}
use maplib.Cats.Inverse.{maybe_encode-encode_new}
use maplib.Cats.Iri.{PrefixCompressedString, compressed, to_bytes, to_bytes-compressed}
use maplib.Cats.Compressed.{
  PrefixCompressedCatMapsInMemory, HasPrefixes, KeysIn, has_prefix, encode_or_add_new_prefix,
  encode_new_prefix_compressed_string, encode_new_str, maybe_encode_str,
  maybe_encode_str-maybe_encode, encode_numbered_compressed, merge_compressed,
}

has_prefix-add :
    (prefix_map : List Bytes) (pre p : Bytes)
    → has_prefix (encode_or_add_new_prefix prefix_map pre) p
      ≡ (has_prefix prefix_map p || same pre p)
unfolding encode_or_add_new_prefix has_prefix
has_prefix-add prefix_map pre p = ground (arith, same_iff pre p)

KeysIn-add :
    (prefix_map : List Bytes) (pre : Bytes) (m : List (PrefixCompressedString × ℕ))
    → KeysIn prefix_map m
    → KeysIn (encode_or_add_new_prefix prefix_map pre) m
KeysIn-add prefix_map pre [] h = tt
KeysIn-add prefix_map pre ((k, u) ∷ m) (a, b, h) =
    (a, ground (arith, has_prefix-add prefix_map pre k.prefix), KeysIn-add prefix_map pre m h)

KeysIn-insert :
    (prefix_map : List Bytes) (k : PrefixCompressedString) (u : ℕ)
    (m : List (PrefixCompressedString × ℕ))
    → compressed (to_bytes k) ≡ k
    → has_prefix prefix_map k.prefix ≡ true
    → KeysIn prefix_map m
    → KeysIn prefix_map (Ordered.insert to_bytes k u m)
unfolding Ordered.insert
KeysIn-insert prefix_map k u [] a b h = (a, b, tt)
KeysIn-insert prefix_map k u ((j, v) ∷ m) a b (c, d, h) =
    elim (compare_bytes (to_bytes k) (to_bytes j))
      as (λ o. KeysIn prefix_map (elim o [
        | Ordering.lt ↦ (k, u) ∷ (j, v) ∷ m
        | Ordering.eq ↦ (j, u) ∷ m
        | Ordering.gt ↦ (j, v) ∷ Ordered.insert to_bytes k u m
      ])) [
        | Ordering.lt ↦ (a, b, (c, d, h))
        | Ordering.eq ↦ (c, d, h)
        | Ordering.gt ↦ (c, d, KeysIn-insert prefix_map k u m a b h)
      ]

encode_new_prefix_compressed_string-HasPrefixes :
    (self : PrefixCompressedCatMapsInMemory) (k : PrefixCompressedString) (u : ℕ)
    → compressed (to_bytes k) ≡ k
    → HasPrefixes self
    → HasPrefixes (encode_new_prefix_compressed_string self k u)
unfolding encode_new_prefix_compressed_string encode_new
encode_new_prefix_compressed_string-HasPrefixes self k u a h =
    KeysIn-insert (encode_or_add_new_prefix self.prefix_map k.prefix) k u self.maps.entries a
      (ground (arith, has_prefix-add self.prefix_map k.prefix k.prefix, same_refl k.prefix))
      (KeysIn-add self.prefix_map k.prefix self.maps.entries h)

pub encode_new_str-HasPrefixes :
    (self : PrefixCompressedCatMapsInMemory) (s : Bytes) (u : ℕ)
    → HasPrefixes self
    → HasPrefixes (encode_new_str self s u)
unfolding encode_new_str
encode_new_str-HasPrefixes self s u h =
    unfold encode_new_prefix_compressed_string in
    encode_new_prefix_compressed_string-HasPrefixes self (compressed s) u
      (ap compressed (to_bytes-compressed s)) h

-- After a text is encoded, its search finds the code, and the search of any other text what it found
-- before, where every key is a split text whose prefix is in the prefix map.
pub maybe_encode_str-encode_new_str :
    (self : PrefixCompressedCatMapsInMemory) (s : Bytes) (u : ℕ) (t : Bytes)
    → HasPrefixes self
    → maybe_encode_str (encode_new_str self s u) t
      ≡ (if same s t then some u else maybe_encode_str self t)
maybe_encode_str-encode_new_str self s u t h =
    maybe_encode_str-maybe_encode (encode_new_str self s u) t
      (encode_new_str-HasPrefixes self s u h)
    ∙ rw (maybe_encode_str-maybe_encode self t h) (
        let found = maybe_encode-encode_new to_bytes self.maps (compressed s) u t in
        let key = to_bytes-compressed s in unfold encode_new_str in ground (arith, found, key))

encode_numbered_compressed_lem :
    (self : PrefixCompressedCatMapsInMemory) (numbered : List (PrefixCompressedString × ℕ))
    → (encode_numbered_compressed self numbered).maps ≡ encode_numbered to_bytes self.maps numbered
unfolding encode_numbered_compressed encode_numbered encode_new_prefix_compressed_string
encode_numbered_compressed_lem self [] = refl
encode_numbered_compressed_lem self ((k, u) ∷ numbered) =
    encode_numbered_compressed_lem (encode_new_prefix_compressed_string self k u) numbered

abbrev AllSplit : List (PrefixCompressedString × ℕ) → Type 0
AllSplit [] = Unit
AllSplit ((k, u) ∷ m) = (compressed (to_bytes k) ≡ k) × AllSplit m

encode_numbered_compressed-HasPrefixes :
    (self : PrefixCompressedCatMapsInMemory) (numbered : List (PrefixCompressedString × ℕ))
    → AllSplit numbered
    → HasPrefixes self
    → HasPrefixes (encode_numbered_compressed self numbered)
unfolding encode_numbered_compressed
encode_numbered_compressed-HasPrefixes self [] a h = h
encode_numbered_compressed-HasPrefixes self ((k, u) ∷ numbered) (a, as') h =
    encode_numbered_compressed-HasPrefixes (encode_new_prefix_compressed_string self k u) numbered
      as' (encode_new_prefix_compressed_string-HasPrefixes self k u a h)

number-AllSplit :
    (insert : List (PrefixCompressedString × ℕ)) (c : ℕ)
    → AllSplit insert
    → AllSplit (number insert c).0
unfolding number
number-AllSplit [] c a = tt
number-AllSplit ((k, u) ∷ insert) c (a, b) = (a, number-AllSplit insert (as_u32 (c + 1)) b)

split_entries-AllSplit :
    (prefix_map : List Bytes) (entries other : List (PrefixCompressedString × ℕ))
    → KeysIn prefix_map other
    → AllSplit (split_entries to_bytes entries other).1
unfolding split_entries
split_entries-AllSplit prefix_map entries [] h = tt
split_entries-AllSplit prefix_map entries ((k, u) ∷ other) (a, b, h) =
    let rest = split_entries-AllSplit prefix_map entries other h in
    elim (Option-cases (Ordered.get to_bytes (to_bytes k) entries)) [
      | inl missing ↦ rw (missing, split_entries) (a, rest)
      | inr (e, found) ↦ rw (found, split_entries) rest
    ]

-- A merge of compressed encodings merges the maps of their texts, and keeps every prefix that a key
-- needs in the prefix map.
pub merge_compressed-merge :
    (self other : PrefixCompressedCatMapsInMemory) (c : ℕ)
    → HasPrefixes self
    → HasPrefixes other
    → ((merge_compressed self other c).0.maps ≡ (merge to_bytes self.maps other.maps c).0)
      × ((merge_compressed self other c).1 ≡ (merge to_bytes self.maps other.maps c).1)
      × ((merge_compressed self other c).2 ≡ (merge to_bytes self.maps other.maps c).2)
      × HasPrefixes (merge_compressed self other c).0
unfolding merge_compressed merge
merge_compressed-merge self other c h g =
    let insert = (split_entries to_bytes self.maps.entries other.maps.entries).1 in
    let numbered = (number insert c).0 in
    (
      encode_numbered_compressed_lem self numbered,
      refl,
      refl,
      encode_numbered_compressed-HasPrefixes self numbered
          (number-AllSplit insert c
            (split_entries-AllSplit other.prefix_map self.maps.entries other.maps.entries g))
          h,
    )
