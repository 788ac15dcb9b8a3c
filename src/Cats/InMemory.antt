-- ===== src/Cats/InMemory.antt =====
-- `CatMapsInMemory`: an encoding that is compressed, if its texts are IRIs, or is not; and the
-- operations of `PrefixCompressedCatMapsInMemory` that touch its prefix map and are only called from
-- here. `unreachable!` and a failed `unwrap` are `none`.
pub mod New
use maplib.Prelude.{ℕ, ◌+◌, Bool, true, false, List, [], ◌∷◌, Option, none, some, if◌then◌else◌}
use maplib.Cats.Bytes.{Bytes}
use maplib.Cats.Codes
use maplib.Cats.Ordered
use maplib.Cats.Maps
use maplib.Cats.Maps.{CatMaps, as_u32, flip_back, image_pairs, take_codes}
use maplib.Cats.Iri.{PrefixCompressedString, compressed, to_bytes}
use maplib.Cats.Compressed.{
  PrefixCompressedCatMapsInMemory, encode_new_str, encode_or_add_new_prefix, maybe_encode_str,
  merge_compressed, new_empty_compressed, new_singular_compressed,
}

abbrev pub plain : Bytes → Bytes
plain s = s

pub data CatMapsInMemory : Type 0 where
  compressed_maps : PrefixCompressedCatMapsInMemory → CatMapsInMemory
  uncompressed_maps : CatMaps Bytes → CatMapsInMemory

-- the keys and the prefixes of `from_ordered_vec`
unfoldable pub compress_all : List (Bytes × ℕ) → List (PrefixCompressedString × ℕ)
unfolding compressed
compress_all [] = []
compress_all ((s, u) ∷ ss) = (compressed s, u) ∷ compress_all ss

unfoldable pub add_prefixes : List Bytes → List (PrefixCompressedString × ℕ) → List Bytes
unfolding encode_or_add_new_prefix
add_prefixes prefix_map [] = prefix_map
add_prefixes prefix_map ((s, u) ∷ ss) =
    add_prefixes (encode_or_add_new_prefix prefix_map s.prefix) ss

unfoldable pub from_ordered_vec_compressed : List (Bytes × ℕ) → PrefixCompressedCatMapsInMemory
unfolding compress_all add_prefixes Maps.from_ordered_vec
from_ordered_vec_compressed ss = record {
  maps = Maps.from_ordered_vec to_bytes (compress_all ss);
  prefix_map = add_prefixes [] (compress_all ss);
}

unfoldable pub compressed_image_of :
    List (ℕ × PrefixCompressedString) → Option PrefixCompressedCatMapsInMemory
unfolding flip_back add_prefixes Ordered.insert_all
compressed_image_of [] = none
compressed_image_of (pair ∷ pairs) = some (record {
  maps = record {
    entries = Ordered.insert_all to_bytes [] (flip_back (pair ∷ pairs));
    rev_map = pair ∷ pairs;
  };
  prefix_map = add_prefixes [] (flip_back (pair ∷ pairs));
})

unfoldable pub image_compressed :
    PrefixCompressedCatMapsInMemory → List ℕ → Option PrefixCompressedCatMapsInMemory
unfolding compressed_image_of image_pairs Codes.insert_all
image_compressed self s =
    compressed_image_of (Codes.insert_all [] (image_pairs to_bytes self.maps s))

-- the second loop of `garbage_collect_cats`, which expects each key
unfoldable pub remove_present :
    List (PrefixCompressedString × ℕ)
    → List PrefixCompressedString
    → Option (List (PrefixCompressedString × ℕ))
unfolding Ordered.get Ordered.remove
remove_present entries [] = some entries
remove_present entries (r ∷ to_delete) =
    let rest = remove_present (Ordered.remove to_bytes (to_bytes r) entries) to_delete in
    elim (Ordered.get to_bytes (to_bytes r) entries) [ some u ↦ rest | none ↦ none ]

unfoldable pub garbage_collect_compressed :
    PrefixCompressedCatMapsInMemory → List ℕ → Option PrefixCompressedCatMapsInMemory
unfolding take_codes remove_present
garbage_collect_compressed self p0 = elim (take_codes to_bytes self.maps.rev_map p0) [
  | some (left, to_delete) ↦ elim (remove_present self.maps.entries to_delete) [
    | some entries ↦ some (record {
      maps = record { entries = entries; rev_map = left };
      prefix_map = self.prefix_map;
    })
    | none ↦ none
  ]
  | none ↦ none
]

unfoldable pub compact : CatMapsInMemory → CatMapsInMemory
unfolding Maps.compact
compact (CatMapsInMemory.compressed_maps m) =
    CatMapsInMemory.compressed_maps
      (record { maps = Maps.compact m.maps; prefix_map = m.prefix_map })
compact (CatMapsInMemory.uncompressed_maps m) = CatMapsInMemory.uncompressed_maps (Maps.compact m)

unfoldable pub garbage_collect_cats : CatMapsInMemory → List ℕ → Option CatMapsInMemory
unfolding garbage_collect_compressed Maps.garbage_collect_cats
garbage_collect_cats (CatMapsInMemory.compressed_maps m) p0 =
    elim (garbage_collect_compressed m p0) [
      | some next ↦ some (CatMapsInMemory.compressed_maps next)
      | none ↦ none
    ]
garbage_collect_cats (CatMapsInMemory.uncompressed_maps m) p0 =
    elim (Maps.garbage_collect_cats plain m p0) [
      | some next ↦ some (CatMapsInMemory.uncompressed_maps next)
      | none ↦ none
    ]

unfoldable pub inner_join_re_enc : CatMapsInMemory → CatMapsInMemory → Option (List (ℕ × ℕ))
unfolding Maps.inner_join_re_enc
inner_join_re_enc (CatMapsInMemory.compressed_maps m) (CatMapsInMemory.compressed_maps other) =
    some (Maps.inner_join_re_enc to_bytes m.maps other.maps)
inner_join_re_enc (CatMapsInMemory.uncompressed_maps m) (CatMapsInMemory.uncompressed_maps other) =
    some (Maps.inner_join_re_enc plain m other)
inner_join_re_enc _ _ = none

unfoldable pub merge :
    CatMapsInMemory → CatMapsInMemory → ℕ → Option (CatMapsInMemory × List (ℕ × ℕ) × ℕ)
unfolding merge_compressed Maps.merge
merge (CatMapsInMemory.compressed_maps m) (CatMapsInMemory.compressed_maps other) c =
    let (next, remap, last) = merge_compressed m other c in
    some (CatMapsInMemory.compressed_maps next, remap, last)
merge (CatMapsInMemory.uncompressed_maps m) (CatMapsInMemory.uncompressed_maps other) c =
    let (next, remap, last) = Maps.merge plain m other c in
    some (CatMapsInMemory.uncompressed_maps next, remap, last)
merge _ _ c = none

unfoldable pub contains_u32 : CatMapsInMemory → ℕ → Bool
unfolding Maps.contains_u32
contains_u32 (CatMapsInMemory.compressed_maps m) u = Maps.contains_u32 m.maps u
contains_u32 (CatMapsInMemory.uncompressed_maps m) u = Maps.contains_u32 m u

unfoldable pub is_empty : CatMapsInMemory → Bool
unfolding Maps.is_empty
is_empty (CatMapsInMemory.compressed_maps m) = Maps.is_empty m.maps
is_empty (CatMapsInMemory.uncompressed_maps m) = Maps.is_empty m

unfoldable pub height : CatMapsInMemory → ℕ
unfolding Maps.height
height (CatMapsInMemory.compressed_maps m) = Maps.height m.maps
height (CatMapsInMemory.uncompressed_maps m) = Maps.height m

unfoldable pub counter : CatMapsInMemory → Option ℕ
unfolding Maps.counter
counter (CatMapsInMemory.compressed_maps m) = Maps.counter m.maps
counter (CatMapsInMemory.uncompressed_maps m) = Maps.counter m

unfoldable pub decode_batch : CatMapsInMemory → List (Option ℕ) → List (Option Bytes)
unfolding Maps.decode_batch
decode_batch (CatMapsInMemory.compressed_maps m) v = Maps.decode_batch to_bytes m.maps v
decode_batch (CatMapsInMemory.uncompressed_maps m) v = Maps.decode_batch plain m v

unfoldable pub maybe_decode : CatMapsInMemory → ℕ → Option Bytes
unfolding Maps.maybe_decode
maybe_decode (CatMapsInMemory.compressed_maps m) u = Maps.maybe_decode to_bytes m.maps u
maybe_decode (CatMapsInMemory.uncompressed_maps m) u = Maps.maybe_decode plain m u

unfoldable pub maybe_encode_in_memory_str : CatMapsInMemory → Bytes → Option ℕ
unfolding maybe_encode_str Maps.maybe_encode
maybe_encode_in_memory_str (CatMapsInMemory.compressed_maps m) s = maybe_encode_str m s
maybe_encode_in_memory_str (CatMapsInMemory.uncompressed_maps m) s = Maps.maybe_encode plain m s

unfoldable pub encode_new_in_memory_string : CatMapsInMemory → Bytes → ℕ → CatMapsInMemory
unfolding encode_new_str Maps.encode_new
encode_new_in_memory_string (CatMapsInMemory.compressed_maps m) s u =
    CatMapsInMemory.compressed_maps (encode_new_str m s u)
encode_new_in_memory_string (CatMapsInMemory.uncompressed_maps m) s u =
    CatMapsInMemory.uncompressed_maps (Maps.encode_new plain m s u)

unfoldable pub image : CatMapsInMemory → List ℕ → Option CatMapsInMemory
unfolding image_compressed Maps.image
image (CatMapsInMemory.compressed_maps m) s = elim (image_compressed m s) [
  | some next ↦ some (CatMapsInMemory.compressed_maps next)
  | none ↦ none
]
image (CatMapsInMemory.uncompressed_maps m) s = elim (Maps.image plain m s) [
  | some next ↦ some (CatMapsInMemory.uncompressed_maps next)
  | none ↦ none
]

unfoldable pub from_ordered_vec : List (Bytes × ℕ) → Bool → CatMapsInMemory
unfolding from_ordered_vec_compressed Maps.from_ordered_vec
from_ordered_vec ss true = CatMapsInMemory.compressed_maps (from_ordered_vec_compressed ss)
from_ordered_vec ss false = CatMapsInMemory.uncompressed_maps (Maps.from_ordered_vec plain ss)

unfoldable pub new_empty : Bool → CatMapsInMemory
unfolding new_empty_compressed Maps.new_empty
new_empty true = CatMapsInMemory.compressed_maps new_empty_compressed
new_empty false = CatMapsInMemory.uncompressed_maps Maps.new_empty

unfoldable pub new_singular : Bytes → ℕ → Bool → CatMapsInMemory
unfolding new_singular_compressed Maps.new_singular
new_singular value u true = CatMapsInMemory.compressed_maps (new_singular_compressed value u)
new_singular value u false = CatMapsInMemory.uncompressed_maps (Maps.new_singular plain value u)

unfoldable pub maybe_encode_strs : CatMapsInMemory → List (Option Bytes) → List (Option ℕ)
unfolding maybe_encode_in_memory_str
maybe_encode_strs self [] = []
maybe_encode_strs self (none ∷ s) = none ∷ maybe_encode_strs self s
maybe_encode_strs self (some x ∷ s) = maybe_encode_in_memory_str self x ∷ maybe_encode_strs self s

unfoldable pub all_some : List Bytes → List (Option Bytes)
all_some [] = []
all_some (x ∷ s) = some x ∷ all_some s

-- the loop over the zipped strings and their codes
unfoldable pub encode_missing :
    CatMapsInMemory → List Bytes → List (Option ℕ) → ℕ → CatMapsInMemory × ℕ
unfolding encode_new_in_memory_string as_u32
encode_missing self [] maybe_encoded c = (self, c)
encode_missing self (s ∷ strings) [] c = (self, c)
encode_missing self (s ∷ strings) (some u ∷ maybe_encoded) c =
    encode_missing self strings maybe_encoded c
encode_missing self (s ∷ strings) (none ∷ maybe_encoded) c =
    encode_missing (encode_new_in_memory_string self s c) strings maybe_encoded (as_u32 (c + 1))

unfoldable pub encode_all_new_non_duplicated_strings :
    CatMapsInMemory → List Bytes → ℕ → CatMapsInMemory × ℕ
unfolding maybe_encode_strs all_some encode_missing
encode_all_new_non_duplicated_strings self maybe_new_strings c =
    encode_missing self maybe_new_strings (maybe_encode_strs self (all_some maybe_new_strings)) c
