-- ===== src/Examples/Encodings.antt =====
-- Encodings of a few texts, merged, collected and compacted.
use maplib.Prelude.{ℕ, ◌≡◌, refl, true, [], ◌∷◌, ◌++◌, none, some, if◌then◌else◌, arith, ◌⊎◌}
use maplib.Cats.Bytes.{Bytes, compare_bytes, same}
use maplib.Cats.Codes
use maplib.Cats.Maps.{
  CatMaps, compact, contains_u32, encode_new, garbage_collect_cats, maybe_decode, maybe_encode,
  merge, new_empty,
}
use maplib.Cats.Inverse.{IsEncoding, encode_new-IsEncoding, new_empty-IsEncoding}
use maplib.Cats.Collect.{IsPresent, garbage_collect_cats-IsEncoding}
use maplib.Cats.Merge.{IsMerged, merge-IsMerged}
use maplib.Cats.Numbered.{IsBelow}
use maplib.Cats.Iri.{ends_delimited, no_delimiter, split_iri, split_iri_lem, to_bytes}
use maplib.Cats.Compact.{compact-IsEncoding, nth_text}
use maplib.Cats.Compressed.{
  HasPrefixes, PrefixCompressedCatMapsInMemory, encode_new_str, maybe_encode_str, merge_compressed,
  new_empty_compressed,
}
use maplib.Cats.InMemory
use maplib.Cats.InMemory.{CatMapsInMemory, encode_all_new_non_duplicated_strings}
use maplib.Cats.InMemory.New.{
  IsExtended, IsUnused, encode_all_new_non_duplicated_strings-IsExtended,
}
use maplib.Cats.Compressed.Lookup.{
  encode_new_str-HasPrefixes, maybe_encode_str-encode_new_str, merge_compressed-merge,
}

abbrev plain : Bytes → Bytes
plain s = s

-- "a:b" and "a:c"
abbrev first_text : Bytes
first_text = 97 ∷ 58 ∷ 98 ∷ []

abbrev other_text : Bytes
other_text = 97 ∷ 58 ∷ 99 ∷ []

abbrev one : CatMaps Bytes
one = encode_new plain new_empty first_text 4

abbrev two : CatMaps Bytes
two = encode_new plain one other_text 2

one-IsEncoding : IsEncoding plain one
unfolding maybe_encode maybe_decode new_empty
one-IsEncoding =
    encode_new-IsEncoding plain new_empty first_text 4 (new_empty-IsEncoding plain) refl refl

two-IsEncoding : IsEncoding plain two
unfolding maybe_encode maybe_decode encode_new new_empty same
two-IsEncoding = encode_new-IsEncoding plain one other_text 2 one-IsEncoding refl refl

one-IsBelow : IsBelow plain 5 one
unfolding maybe_decode encode_new new_empty
one-IsBelow u h = ground arith

merge-IsMerged_example :
    let (next, remap, last) = merge plain one two 5 in IsMerged plain one two next remap last
unfolding encode_new new_empty compare_bytes
merge-IsMerged_example =
    merge-IsMerged plain one two 5 one-IsEncoding two-IsEncoding one-IsBelow (omega arith)

two-IsPresent : IsPresent two (4 ∷ [])
unfolding encode_new new_empty Codes.contains contains_u32
two-IsPresent = (refl, refl, tt)

garbage_collect_cats-IsEncoding_example :
    (next : CatMaps Bytes) × (garbage_collect_cats plain two (4 ∷ []) ≡ some next)
    × IsEncoding plain next
    × ((u : ℕ)
        → maybe_decode plain next u
          ≡ (if Codes.contains (4 ∷ []) u then none else maybe_decode plain two u))
garbage_collect_cats-IsEncoding_example =
    garbage_collect_cats-IsEncoding plain two (4 ∷ []) two-IsEncoding two-IsPresent

compact-IsEncoding_example :
    IsEncoding plain (compact two)
    × ((u : ℕ) → maybe_decode plain (compact two) u ≡ nth_text plain two.entries u)
unfolding encode_new new_empty compare_bytes
compact-IsEncoding_example = compact-IsEncoding plain two (ground arith) two-IsEncoding

split_iri_lem_example :
    let (p, s) = split_iri first_text in
    (p ++ s ≡ first_text) × (no_delimiter s ≡ true) × ((p ≡ []) ⊎ (ends_delimited p ≡ true))
split_iri_lem_example = split_iri_lem first_text

nothing-HasPrefixes : HasPrefixes new_empty_compressed
unfolding new_empty_compressed new_empty
nothing-HasPrefixes = tt

abbrev one_iri : PrefixCompressedCatMapsInMemory
one_iri = encode_new_str new_empty_compressed first_text 4

one_iri-HasPrefixes : HasPrefixes one_iri
one_iri-HasPrefixes =
    encode_new_str-HasPrefixes new_empty_compressed first_text 4 nothing-HasPrefixes

maybe_encode_str-encode_new_str_example :
    maybe_encode_str (encode_new_str one_iri other_text 2) first_text
    ≡ (if same other_text first_text then some 2 else maybe_encode_str one_iri first_text)
maybe_encode_str-encode_new_str_example =
    maybe_encode_str-encode_new_str one_iri other_text 2 first_text one_iri-HasPrefixes

merge_compressed-merge_example :
    ((merge_compressed new_empty_compressed one_iri 5).0.maps
      ≡ (merge to_bytes new_empty_compressed.maps one_iri.maps 5).0)
    × ((merge_compressed new_empty_compressed one_iri 5).1
        ≡ (merge to_bytes new_empty_compressed.maps one_iri.maps 5).1)
    × ((merge_compressed new_empty_compressed one_iri 5).2
        ≡ (merge to_bytes new_empty_compressed.maps one_iri.maps 5).2)
    × HasPrefixes (merge_compressed new_empty_compressed one_iri 5).0
merge_compressed-merge_example =
    merge_compressed-merge new_empty_compressed one_iri 5 nothing-HasPrefixes one_iri-HasPrefixes

abbrev in_memory : CatMapsInMemory
in_memory = CatMapsInMemory.uncompressed_maps one

in_memory-IsUnused : IsUnused 5 in_memory
unfolding InMemory.maybe_decode
in_memory-IsUnused u h = one-IsBelow u h

encode_all_new_non_duplicated_strings-IsExtended_example :
    let (next, last) =
      encode_all_new_non_duplicated_strings in_memory (other_text ∷ first_text ∷ []) 5 in
    IsExtended in_memory next (other_text ∷ first_text ∷ []) last
unfolding same
encode_all_new_non_duplicated_strings-IsExtended_example =
    encode_all_new_non_duplicated_strings-IsExtended in_memory (other_text ∷ first_text ∷ []) 5
      one-IsEncoding in_memory-IsUnused ((refl, tt), (tt, tt)) (omega arith)
