-- ===== src/Cats/Listing.antt =====
-- The operations of both encodings that list texts and codes, or look for a text.
use maplib.Prelude.{
  ℕ, ◌+◌, ◌-◌, ◌%◌, Bool, true, false, ◌||◌, List, [], ◌∷◌, Option, none, some, if◌then◌else◌,
  length, nat_eq,
}
use maplib.Cats.Bytes.{Bytes}
use maplib.Cats.Codes
use maplib.Cats.Ordered
use maplib.Cats.Maps.{CatMaps, as_u32}
use maplib.Cats.Iri.{compressed, to_bytes}
use maplib.Cats.Compressed.{PrefixCompressedCatMapsInMemory, has_prefix}
use maplib.Cats.InMemory.{CatMapsInMemory, plain}

-- whether an interval of texts ends at the i-th; a stride of 0 is a division by zero
unfoldable pub ends_interval : ℕ → ℕ → ℕ → Option Bool
ends_interval len stride i =
    if nat_eq i 0
    then some (nat_eq i (len - 1))
    else (if nat_eq stride 0 then none else some (nat_eq (i % stride) 0 || nat_eq i (len - 1)))

unfoldable pub start_or : {K : Type 0} → Option K → K → K
start_or none k = k
start_or (some start_string) k = start_string

-- `enumerate`, with the codes that the set has
unfoldable pub rank_from : {K : Type 0} → List ℕ → ℕ → List (K × ℕ) → List (ℕ × ℕ)
unfolding Codes.contains as_u32
rank_from us i [] = []
rank_from us i ((k, v) ∷ map) =
    let rest = rank_from us (i + 1) map in
    if Codes.contains us v then (v, as_u32 i) ∷ rest else rest

-- the keys of a map
unfoldable pub codes : {K : Type 0} → List (ℕ × K) → List ℕ
codes [] = []
codes ((u, k) ∷ m) = u ∷ codes m

unfoldable pub range_set : {K : Type 0} → CatMaps K → List ℕ
unfolding codes
range_set self = codes self.rev_map

module _ {K : Type 0} (bytes : K → Bytes) where
  -- the loop of `get_spaced_strings`
  unfoldable pub spaced_from : ℕ → ℕ → ℕ → Option K → List (K × ℕ) → Option (List (Bytes × Bytes))
  unfolding ends_interval start_or
  spaced_from len stride i start_string [] = some []
  spaced_from len stride i start_string ((k, u) ∷ map) =
      let next : Option K = elim (ends_interval len stride i) [
        | some true ↦ none
        | some false ↦ some (start_or start_string k)
        | none ↦ none
      ] in
      let rest = spaced_from len stride (i + 1) next map in
      elim (ends_interval len stride i) [
        | some true ↦ elim rest [
          | some spaced ↦ some ((bytes (start_or start_string k), bytes k) ∷ spaced)
          | none ↦ none
        ]
        | some false ↦ rest
        | none ↦ none
      ]

  unfoldable pub get_spaced_strings : CatMaps K → ℕ → Option (List (Bytes × Bytes))
  unfolding spaced_from
  get_spaced_strings self stride = spaced_from (length self.entries) stride 0 none self.entries

  unfoldable pub contains_str : CatMaps K → Bytes → Bool
  unfolding Ordered.get
  contains_str self s = elim (Ordered.get bytes s self.entries) [ some u ↦ true | none ↦ false ]

unfoldable pub global_rank_map : {K : Type 0} → CatMaps K → List ℕ → List (ℕ × ℕ)
unfolding rank_from Codes.insert_all
global_rank_map self us = Codes.insert_all [] (rank_from us 0 self.entries)

unfoldable pub contains_str_compressed : PrefixCompressedCatMapsInMemory → Bytes → Bool
unfolding has_prefix contains_str compressed
contains_str_compressed self s =
    if has_prefix self.prefix_map (compressed s).prefix
    then contains_str to_bytes self.maps (to_bytes (compressed s))
    else false

unfoldable pub spaced_strings_in_memory : CatMapsInMemory → ℕ → Option (List (Bytes × Bytes))
unfolding get_spaced_strings
spaced_strings_in_memory (CatMapsInMemory.compressed_maps c) stride =
    get_spaced_strings to_bytes c.maps stride
spaced_strings_in_memory (CatMapsInMemory.uncompressed_maps u) stride =
    get_spaced_strings plain u stride

unfoldable pub global_rank_map_in_memory : CatMapsInMemory → List ℕ → List (ℕ × ℕ)
unfolding global_rank_map
global_rank_map_in_memory (CatMapsInMemory.compressed_maps c) us = global_rank_map c.maps us
global_rank_map_in_memory (CatMapsInMemory.uncompressed_maps u) us = global_rank_map u us

unfoldable pub range_set_in_memory : CatMapsInMemory → List ℕ
unfolding range_set
range_set_in_memory (CatMapsInMemory.compressed_maps c) = range_set c.maps
range_set_in_memory (CatMapsInMemory.uncompressed_maps u) = range_set u
