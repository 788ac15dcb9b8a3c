-- ===== src/Storage/Index/Deduplication.antt =====
-- The keys that the operations of the index leave, and the rows that its loop lets through.
use maplib.Prelude.{
  ◌≡◌, refl, ◌↔◌, Bool, true, false, not, ◌&&◌, ◌||◌, List, [], ◌∷◌, if◌then◌else◌, arith,
}
use maplib.Storage.Index.{
  Row, same, contains, insert_key, remove_key, insert, delete, check_new, deduplicate_rows,
}

module _ {K : Type 0} (K-discrete : Discrete K) where
  pub same_iff : (j k : K) → (same K-discrete j k ≡ true) ↔ (j ≡ k)
  unfolding same
  same_iff j k =
      elim (K-discrete j k) as (λ d. (elim d [ yes p ↦ true | no p ↦ false ] ≡ true) ↔ (j ≡ k)) [
        | yes p ↦ (λ e. p, λ e. refl)
        | no p ↦ (λ e. cc, λ e. absurd (p e))
      ]

  pub contains-insert_key :
      (index : List K) (j k : K)
      → contains K-discrete (insert_key K-discrete index j).0 k
        ≡ (contains K-discrete index k || same K-discrete j k)
  unfolding insert_key contains
  contains-insert_key index j k = ground (arith, same_iff j k)

  contains-remove_key :
      (index : List K) (j k : K)
      → contains K-discrete (remove_key K-discrete index j) k
        ≡ (contains K-discrete index k && not (same K-discrete j k))
  unfolding remove_key contains
  contains-remove_key [] j k = refl
  contains-remove_key (i ∷ index) j k =
      ground (arith, contains-remove_key index j k, same_iff i j, same_iff i k, same_iff j k)

module _ {T K : Type 0} (K-discrete : Discrete K) (prep_index : Row T → K) where
  -- some row has the key
  unfoldable pub any_row : List (Row T) → K → Bool
  any_row [] k = false
  any_row (row ∷ df) k = same K-discrete (prep_index row) k || any_row df k

  -- After `insert` the index holds a key exactly if it held it before or a row has it.
  pub contains-insert :
      (index : List K) (df : List (Row T)) (k : K)
      → contains K-discrete (insert K-discrete prep_index index df) k
        ≡ (contains K-discrete index k || any_row df k)
  unfolding insert any_row
  contains-insert index [] k = ground arith
  contains-insert index (row ∷ df) k = ground (
    arith,
    contains-insert (insert_key K-discrete index (prep_index row)).0 df k,
    contains-insert_key K-discrete index (prep_index row) k,
  )

  -- After `delete` the index holds a key exactly if it held it before and no row has it.
  contains-delete :
      (index : List K) (df : List (Row T)) (k : K)
      → contains K-discrete (delete K-discrete prep_index index df) k
        ≡ (contains K-discrete index k && not (any_row df k))
  unfolding delete any_row
  contains-delete index [] k = ground arith
  contains-delete index (row ∷ df) k = ground (
    arith,
    contains-delete (remove_key K-discrete index (prep_index row)) df k,
    contains-remove_key K-discrete index (prep_index row) k,
  )

  -- The rows of a frame that are new: the index does not hold their key, and no earlier row has it.
  unfoldable pub first_rows : List K → List K → List (Row T) → List (Row T)
  first_rows index earlier [] = []
  first_rows index earlier (row ∷ df) =
      let rest = first_rows index (prep_index row ∷ earlier) df in
      if contains K-discrete index (prep_index row) || contains K-discrete earlier (prep_index row)
      then rest
      else row ∷ rest

  -- the rows whose key the index does not hold, repeated ones included
  unfoldable pub unknown_rows : List K → List (Row T) → List (Row T)
  unknown_rows index [] = []
  unknown_rows index (row ∷ df) =
      let rest = unknown_rows index df in
      if contains K-discrete index (prep_index row) then rest else row ∷ rest

  pub deduplicate_rows-inserts :
      (index : List K) (df : List (Row T))
      → (deduplicate_rows K-discrete prep_index index df true).0
        ≡ insert K-discrete prep_index index df
  unfolding deduplicate_rows insert check_new
  deduplicate_rows-inserts index [] = refl
  deduplicate_rows-inserts index (row ∷ df) =
      deduplicate_rows-inserts (insert_key K-discrete index (prep_index row)).0 df

  abbrev Agrees : List K → List K → List K → Type 0
  Agrees index stored earlier =
      (k : K)
      → contains K-discrete index k
        ≡ (contains K-discrete stored k || contains K-discrete earlier k)

  insert_key-Agrees :
      (index stored earlier : List K) (j : K)
      → Agrees index stored earlier
      → Agrees (insert_key K-discrete index j).0 stored (j ∷ earlier)
  unfolding contains
  insert_key-Agrees index stored earlier j h k =
      ground (arith, contains-insert_key K-discrete index j k, h k)

  pub deduplicate_rows-first_rows :
      (index stored earlier : List K) (df : List (Row T))
      → Agrees index stored earlier
      → (deduplicate_rows K-discrete prep_index index df true).1 ≡ first_rows stored earlier df
  unfolding deduplicate_rows first_rows check_new insert_key
  deduplicate_rows-first_rows index stored earlier [] h = refl
  deduplicate_rows-first_rows index stored earlier (row ∷ df) h =
      let j = prep_index row in
      let next = insert_key-Agrees index stored earlier j h in
      ground (
        arith,
        h j,
        deduplicate_rows-first_rows (insert_key K-discrete index j).0 stored (j ∷ earlier) df next,
      )

  pub deduplicate_rows-unknown_rows :
      (index : List K) (df : List (Row T))
      → deduplicate_rows K-discrete prep_index index df false ≡ (index, unknown_rows index df)
  unfolding deduplicate_rows unknown_rows check_new
  deduplicate_rows-unknown_rows index [] = refl
  deduplicate_rows-unknown_rows index (row ∷ df) =
      ground (arith, deduplicate_rows-unknown_rows index df)
