-- ===== src/Cats/Maps.antt =====
-- The two maps that both encodings keep, and the operations on them: the impl of
-- `UncompressedCatMapsInMemory`, where a key is the text itself, and of
-- `PrefixCompressedCatMapsInMemory` apart from its prefix map, where a key stands for `bytes k`.
use maplib.Prelude.{
  ℕ, ◌+◌, ◌%◌, ◌^◌, Bool, true, false, List, [], ◌∷◌, ◌++◌, Option, none, some, if◌then◌else◌,
  length, nat_eq, ltb,
}
use maplib.Cats.Bytes.{Bytes}
use maplib.Cats.Codes
use maplib.Cats.Ordered

-- `u as u32`, and what `+=` leaves in a u32
unfoldable pub as_u32 : ℕ → ℕ
as_u32 u = u % 2 ^ 32

pub record CatMaps (K : Type 0) : Type 0 where
  pub entries : List (K × ℕ)
  pub rev_map : List (ℕ × K)

-- `map.iter().map(|(x, y)| (*y, x.clone()))`
unfoldable pub flip : {K : Type 0} → List (K × ℕ) → List (ℕ × K)
flip [] = []
flip ((k, u) ∷ m) = (u, k) ∷ flip m

-- the loop of `compact`: the i-th value in the order of the keys becomes i
unfoldable pub enumerate : {K : Type 0} → ℕ → List (K × ℕ) → List (K × ℕ)
unfolding as_u32
enumerate i [] = []
enumerate i ((k, u) ∷ m) = (k, as_u32 i) ∷ enumerate (i + 1) m

unfoldable pub compact : {K : Type 0} → CatMaps K → CatMaps K
unfolding enumerate flip Codes.insert_all
compact self =
    let compacted = enumerate 0 self.entries in
    record { entries = compacted; rev_map = Codes.insert_all [] (flip compacted) }

unfoldable pub new_empty : {K : Type 0} → CatMaps K
new_empty = record { entries = []; rev_map = [] }

unfoldable pub contains_u32 : {K : Type 0} → CatMaps K → ℕ → Bool
unfolding Codes.get
contains_u32 self u = elim (Codes.get u self.rev_map) [ some k ↦ true | none ↦ false ]

unfoldable pub is_empty : {K : Type 0} → CatMaps K → Bool
is_empty self = elim self.entries [ [] ↦ true | e ∷ rest ↦ false ]

unfoldable pub height : {K : Type 0} → CatMaps K → ℕ
unfolding as_u32
height self = as_u32 (length self.entries)

-- `keys().max()`
unfoldable pub max_code : {V : Type 0} → List (ℕ × V) → Option ℕ
max_code [] = none
max_code ((u, v) ∷ m) = elim (max_code m) [
  | some w ↦ some (if ltb w u then u else w)
  | none ↦ some u
]

-- the code after the greatest one; `unwrap()` on an empty map is `none`
unfoldable pub counter : {K : Type 0} → CatMaps K → Option ℕ
unfolding max_code as_u32
counter self = elim (max_code self.rev_map) [ some u ↦ some (as_u32 (u + 1)) | none ↦ none ]

-- the loop over the entries of the other map, in `merge`: the codes that are to be mapped to those
-- of a text that is there, and the entries whose text is new
unfoldable pub split_entries :
    {K : Type 0} → (K → Bytes) → List (K × ℕ) → List (K × ℕ) → List (ℕ × ℕ) × List (K × ℕ)
unfolding Ordered.get
split_entries bytes entries [] = ([], [])
split_entries bytes entries ((k, u) ∷ other) =
    let (remap, insert) = split_entries bytes entries other in
    elim (Ordered.get bytes (bytes k) entries) [
      | some e ↦ ((u, e) ∷ remap, insert)
      | none ↦ (remap, (k, u) ∷ insert)
    ]

-- the second loop of `merge`: the new texts get the codes from `c` on
unfoldable pub number : {K : Type 0} → List (K × ℕ) → ℕ → List (K × ℕ) × List (ℕ × ℕ) × ℕ
unfolding as_u32
number [] c = ([], [], c)
number ((k, u) ∷ insert) c =
    let (numbered, remap, last) = number insert (as_u32 (c + 1)) in
    ((k, c) ∷ numbered, (u, c) ∷ remap, last)

-- `new_rev_map.iter().map(|(x, y)| (y.clone(), *x))`
unfoldable pub flip_back : {K : Type 0} → List (ℕ × K) → List (K × ℕ)
flip_back [] = []
flip_back ((u, k) ∷ m) = (k, u) ∷ flip_back m

module _ {K : Type 0} (bytes : K → Bytes) where
  unfoldable pub encode_new : CatMaps K → K → ℕ → CatMaps K
  unfolding Ordered.insert Codes.put
  encode_new self k u = record {
    entries = Ordered.insert bytes k u self.entries;
    rev_map = Codes.put u k self.rev_map;
  }

  unfoldable pub new_singular : K → ℕ → CatMaps K
  unfolding encode_new new_empty
  new_singular k u = encode_new new_empty k u

  unfoldable pub maybe_encode : CatMaps K → Bytes → Option ℕ
  unfolding Ordered.get
  maybe_encode self s = Ordered.get bytes s self.entries

  unfoldable pub maybe_decode : CatMaps K → ℕ → Option Bytes
  unfolding Codes.get
  maybe_decode self u = elim (Codes.get u self.rev_map) [ some k ↦ some (bytes k) | none ↦ none ]

  unfoldable pub decode_batch : CatMaps K → List (Option ℕ) → List (Option Bytes)
  unfolding maybe_decode
  decode_batch self [] = []
  decode_batch self (none ∷ v) = none ∷ decode_batch self v
  decode_batch self (some u ∷ v) = maybe_decode self u ∷ decode_batch self v

  unfoldable pub from_ordered_vec : List (K × ℕ) → CatMaps K
  unfolding Ordered.insert_all Codes.insert_all flip
  from_ordered_vec ss =
      let entries = Ordered.insert_all bytes [] ss in
      record { entries = entries; rev_map = Codes.insert_all [] (flip entries) }

  -- the pairs of `image`: the codes of the set that are there, with their keys
  unfoldable pub image_pairs : CatMaps K → List ℕ → List (ℕ × K)
  unfolding Codes.get
  image_pairs self [] = []
  image_pairs self (u ∷ s) =
      let rest = image_pairs self s in
      elim (Codes.get u self.rev_map) [ some k ↦ (u, k) ∷ rest | none ↦ rest ]

  -- `if new_rev_map.is_empty() { None } else { … }`
  unfoldable pub image_of : List (ℕ × K) → Option (CatMaps K)
  unfolding Ordered.insert_all flip_back
  image_of [] = none
  image_of (pair ∷ pairs) = some (record {
    entries = Ordered.insert_all bytes [] (flip_back (pair ∷ pairs));
    rev_map = pair ∷ pairs;
  })

  unfoldable pub image : CatMaps K → List ℕ → Option (CatMaps K)
  unfolding image_of image_pairs Codes.insert_all
  image self s = image_of (Codes.insert_all [] (image_pairs self s))

  -- the loop of `inner_join_re_enc` over the entries of the map
  unfoldable pub re_encode : CatMaps K → List (K × ℕ) → List (ℕ × ℕ)
  unfolding maybe_encode
  re_encode other [] = []
  re_encode other ((k, l) ∷ entries) =
      let rest = re_encode other entries in
      elim (maybe_encode other (bytes k)) [
        | some r ↦ if nat_eq l r then rest else (l, r) ∷ rest
        | none ↦ rest
      ]

  unfoldable pub inner_join_re_enc : CatMaps K → CatMaps K → List (ℕ × ℕ)
  unfolding re_encode
  inner_join_re_enc self other = re_encode other self.entries

  -- the last loop of `merge`
  unfoldable pub encode_numbered : CatMaps K → List (K × ℕ) → CatMaps K
  unfolding encode_new
  encode_numbered self [] = self
  encode_numbered self ((k, u) ∷ numbered) = encode_numbered (encode_new self k u) numbered

  -- the new state, the map from the other's codes, and the counter
  unfoldable pub merge : CatMaps K → CatMaps K → ℕ → CatMaps K × List (ℕ × ℕ) × ℕ
  unfolding split_entries number encode_numbered Codes.insert_all
  merge self other c =
      let (remap, insert) = split_entries bytes self.entries other.entries in
      let (numbered, new_remap, last) = number insert c in
      (encode_numbered self numbered, Codes.insert_all [] (remap ++ new_remap), last)

  -- the first loop of `garbage_collect_cats`; a code that is not there is `none`
  unfoldable pub take_codes : List (ℕ × K) → List ℕ → Option (List (ℕ × K) × List K)
  unfolding Codes.get Codes.remove
  take_codes rev_map [] = some (rev_map, [])
  take_codes rev_map (r ∷ range_set) = elim (Codes.get r rev_map) [
    | some k ↦ elim (take_codes (Codes.remove r rev_map) range_set) [
      | some (left, to_delete) ↦ some (left, k ∷ to_delete)
      | none ↦ none
    ]
    | none ↦ none
  ]

  unfoldable pub remove_keys : List (K × ℕ) → List K → List (K × ℕ)
  unfolding Ordered.remove
  remove_keys entries [] = entries
  remove_keys entries (t ∷ to_delete) =
      remove_keys (Ordered.remove bytes (bytes t) entries) to_delete

  unfoldable pub garbage_collect_cats : CatMaps K → List ℕ → Option (CatMaps K)
  unfolding take_codes remove_keys
  garbage_collect_cats self range_set = elim (take_codes self.rev_map range_set) [
    | some (left, to_delete) ↦
        some (record { entries = remove_keys self.entries to_delete; rev_map = left })
    | none ↦ none
  ]
