-- ===== src/Examples/Triples.antt =====
-- Frames of language strings that are inserted into an index and deleted from it.
use maplib.Prelude.{◌≡◌, refl, ℕ, true, ◌||◌, List, [], ◌∷◌, ◌++◌, none}
use native.Mathlib.Decide.{ℕ_discrete}
use maplib.Storage.Index.{Row, contains, insert, lang_key, maybe_insert_deduplicate, nonempty_frame}
use maplib.Storage.Index.Deduplication.{any_row, contains-insert, first_rows}
use maplib.Storage.Index.Stored.{
  Tracks, distinct_rows, frame_rows, maybe_insert_deduplicate-Tracks,
  maybe_insert_deduplicate-again, maybe_insert_deduplicate-inserting,
}

abbrev keys_discrete : Discrete (ℕ × ℕ × ℕ)
keys_discrete = hlevel ℕ_discrete

abbrev hello : Row (ℕ × ℕ)
hello = record { subject = 1; object = (10, 5); subject_rank = 3; object_rank = 4 }

abbrev goodbye : Row (ℕ × ℕ)
goodbye = record { subject = 1; object = (11, 5); subject_rank = 3; object_rank = 7 }

abbrev frame : List (Row (ℕ × ℕ))
frame = hello ∷ goodbye ∷ hello ∷ []

contains-insert_example :
    contains keys_discrete (insert keys_discrete lang_key [] frame) (1, 11, 5)
    ≡ (contains keys_discrete [] (1, 11, 5) || any_row keys_discrete lang_key frame (1, 11, 5))
contains-insert_example = contains-insert keys_discrete lang_key [] frame (1, 11, 5)

nothing_stored : Tracks keys_discrete lang_key [] []
unfolding contains any_row distinct_rows
nothing_stored = (λ k. refl, refl)

maybe_insert_deduplicate-Tracks_example :
    Tracks keys_discrete lang_key
      (maybe_insert_deduplicate keys_discrete lang_key [] frame true).0
      ([] ++ frame_rows (maybe_insert_deduplicate keys_discrete lang_key [] frame true).1)
maybe_insert_deduplicate-Tracks_example =
    maybe_insert_deduplicate-Tracks keys_discrete lang_key [] [] frame nothing_stored

maybe_insert_deduplicate-inserting_example :
    maybe_insert_deduplicate keys_discrete lang_key ((1, 11, 5) ∷ []) frame true ≡ (
      insert keys_discrete lang_key ((1, 11, 5) ∷ []) frame,
      nonempty_frame (first_rows keys_discrete lang_key ((1, 11, 5) ∷ []) [] frame),
    )
maybe_insert_deduplicate-inserting_example =
    maybe_insert_deduplicate-inserting keys_discrete lang_key ((1, 11, 5) ∷ []) frame

maybe_insert_deduplicate-again_example :
    let next = (maybe_insert_deduplicate keys_discrete lang_key [] frame true).0 in
    ((maybe_insert_deduplicate keys_discrete lang_key next frame true).1 ≡ none)
    × ((k : ℕ × ℕ × ℕ)
        → contains keys_discrete
            (maybe_insert_deduplicate keys_discrete lang_key next frame true).0
            k
          ≡ contains keys_discrete next k)
maybe_insert_deduplicate-again_example =
    maybe_insert_deduplicate-again keys_discrete lang_key [] frame
