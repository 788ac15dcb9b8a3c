-- ===== src/Storage/Index/Stored.antt =====
-- The index against the rows that are stored: what a deduplication lets through is stored next.
use maplib.Prelude.{
  ◌≡◌, refl, ◌∙◌, sym, Bool, true, false, not, ◌&&◌, ◌||◌, List, [], ◌∷◌, ◌++◌, Option, none, some,
  arith, Bool-cases, inl, inr, append_assoc, append-nil, subst,
}
use maplib.Storage.Index.{
  Row, same, contains, insert_key, insert, check_new, deduplicate_rows, nonempty_frame,
  maybe_insert_deduplicate,
}
use maplib.Storage.Index.Deduplication.{
  any_row, same_iff, contains-insert, deduplicate_rows-inserts, deduplicate_rows-unknown_rows,
  deduplicate_rows-first_rows, first_rows, unknown_rows,
}

-- the rows of an optional frame
abbrev pub frame_rows : {T : Type 0} → Option (List (Row T)) → List (Row T)
frame_rows none = []
frame_rows (some rows) = rows

frame_rows-nonempty_frame :
    {T : Type 0} (rows : List (Row T)) → frame_rows (nonempty_frame rows) ≡ rows
unfolding nonempty_frame
frame_rows-nonempty_frame [] = refl
frame_rows-nonempty_frame (row ∷ rows) = refl

module _ {T K : Type 0} (K-discrete : Discrete K) (prep_index : Row T → K) where
  -- no two rows have the same key
  unfoldable pub distinct_rows : List (Row T) → Bool
  distinct_rows [] = true
  distinct_rows (row ∷ df) =
      not (any_row K-discrete prep_index df (prep_index row)) && distinct_rows df

  -- the index holds the keys of the stored rows, and these are stored once
  abbrev pub Tracks : List K → List (Row T) → Type 0
  Tracks index stored =
      ((k : K) → contains K-discrete index k ≡ any_row K-discrete prep_index stored k)
      × (distinct_rows stored ≡ true)

  any_row-snoc :
      (df : List (Row T)) (row : Row T) (k : K)
      → any_row K-discrete prep_index (df ++ row ∷ []) k
        ≡ (any_row K-discrete prep_index df k || same K-discrete (prep_index row) k)
  unfolding any_row
  any_row-snoc [] row k = ground arith
  any_row-snoc (r ∷ df) row k = ground (arith, any_row-snoc df row k)

  distinct_rows-snoc :
      (df : List (Row T)) (row : Row T)
      → distinct_rows df ≡ true
      → any_row K-discrete prep_index df (prep_index row) ≡ false
      → distinct_rows (df ++ row ∷ []) ≡ true
  unfolding any_row distinct_rows
  distinct_rows-snoc [] row d h = refl
  distinct_rows-snoc (r ∷ df) row d h = ground (
    arith,
    distinct_rows-snoc df row,
    any_row-snoc df row (prep_index r),
    same_iff K-discrete (prep_index r) (prep_index row),
    same_iff K-discrete (prep_index row) (prep_index r),
  )

  Tracks-snoc :
      (index : List K) (stored : List (Row T)) (row : Row T)
      → Tracks index stored
      → contains K-discrete index (prep_index row) ≡ false
      → Tracks (prep_index row ∷ index) (stored ++ row ∷ [])
  unfolding contains
  Tracks-snoc index stored row (h, d) new = (
    λ k. ground (arith, h k, any_row-snoc stored row k),
    distinct_rows-snoc stored row d (sym (h (prep_index row)) ∙ new),
  )

  deduplicate_rows-Tracks :
      (index : List K) (stored df : List (Row T))
      → Tracks index stored
      → Tracks
          (deduplicate_rows K-discrete prep_index index df true).0
          (stored ++ (deduplicate_rows K-discrete prep_index index df true).1)
  unfolding deduplicate_rows check_new insert_key
  deduplicate_rows-Tracks index stored [] t = rw append-nil t
  deduplicate_rows-Tracks index stored (row ∷ df) t =
      elim (Bool-cases (contains K-discrete index (prep_index row))) [
        | inl e ↦ rw e (deduplicate_rows-Tracks index stored df t)
        | inr e ↦ rw e (
            let ih =
              deduplicate_rows-Tracks (prep_index row ∷ index) (stored ++ row ∷ []) df
                (Tracks-snoc index stored row t e) in
            subst (Tracks _) (append_assoc stored (row ∷ []) _) ih)
      ]

  -- If the index tracks the stored rows, then after an inserting deduplication the new index tracks
  -- them together with the rows that were let through: no triple is ever stored twice.
  pub maybe_insert_deduplicate-Tracks :
      (index : List K) (stored df : List (Row T))
      → Tracks index stored
      → Tracks
          (maybe_insert_deduplicate K-discrete prep_index index df true).0
          (stored ++ frame_rows (maybe_insert_deduplicate K-discrete prep_index index df true).1)
  unfolding maybe_insert_deduplicate
  maybe_insert_deduplicate-Tracks index stored df t =
      rw frame_rows-nonempty_frame (deduplicate_rows-Tracks index stored df t)

  -- With `insert` the first row of each key that the index did not hold is returned, in the order of
  -- the frame, and the index is the one that `insert` leaves.
  pub maybe_insert_deduplicate-inserting :
      (index : List K) (df : List (Row T))
      → maybe_insert_deduplicate K-discrete prep_index index df true ≡ (
        insert K-discrete prep_index index df,
        nonempty_frame (first_rows K-discrete prep_index index [] df),
      )
  unfolding maybe_insert_deduplicate
  maybe_insert_deduplicate-inserting index df = rw (
    deduplicate_rows-inserts K-discrete prep_index index df,
    deduplicate_rows-first_rows K-discrete prep_index index index [] df
        (λ k. unfold contains in ground arith),
  )

  -- Without `insert` the index stays as it is, and every row whose key it does not hold is returned,
  -- a repeated one as often as the frame has it.
  maybe_insert_deduplicate-looking :
      (index : List K) (df : List (Row T))
      → maybe_insert_deduplicate K-discrete prep_index index df false
        ≡ (index, nonempty_frame (unknown_rows K-discrete prep_index index df))
  unfolding maybe_insert_deduplicate
  maybe_insert_deduplicate-looking index df =
      rw (deduplicate_rows-unknown_rows K-discrete prep_index index df)

  first_rows_known :
      (index earlier : List K) (df : List (Row T))
      → ((k : K) → any_row K-discrete prep_index df k ≡ true → contains K-discrete index k ≡ true)
      → first_rows K-discrete prep_index index earlier df ≡ []
  unfolding first_rows any_row
  first_rows_known index earlier [] h = refl
  first_rows_known index earlier (row ∷ df) h =
      let j = prep_index row in
      let found = h j (ground (arith, same_iff K-discrete j j)) in
      let rest = first_rows_known index (j ∷ earlier) df (λ k m. h k (ground arith)) in
      ground (arith, found, rest)

  -- A frame that was inserted before lets no row through, and changes no answer of the index.
  pub maybe_insert_deduplicate-again :
      (index : List K) (df : List (Row T))
      → let next = (maybe_insert_deduplicate K-discrete prep_index index df true).0 in
        ((maybe_insert_deduplicate K-discrete prep_index next df true).1 ≡ none)
        × ((k : K)
            → contains K-discrete (maybe_insert_deduplicate K-discrete prep_index next df true).0 k
              ≡ contains K-discrete next k)
  unfolding nonempty_frame
  maybe_insert_deduplicate-again index df =
      let next = insert K-discrete prep_index index df in
      rw
        (
          maybe_insert_deduplicate-inserting index df,
          maybe_insert_deduplicate-inserting next df,
          first_rows_known next [] df
              (λ k m. ground (arith, contains-insert K-discrete prep_index index df k)),
        )
        (
          refl,
          λ k. ground (
            arith,
            contains-insert K-discrete prep_index index df k,
            contains-insert K-discrete prep_index next df k,
          ),
        )
