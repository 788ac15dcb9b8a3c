-- ===== src/Storage/Index.antt =====
-- lib/triplestore/src/storage/so_index.rs: the index that keeps a triple from being stored twice.
-- A data frame is the list of its rows, whose columns hold no nulls.
pub mod Deduplication
pub mod Stored
use maplib.Prelude.{ℕ, Bool, true, false, List, [], ◌∷◌, Option, none, some, if◌then◌else◌}

-- a row of the subject, object and rank columns
pub record Row (T : Type 0) : Type 0 where
  pub subject : ℕ
  pub object : T
  pub subject_rank : ℕ
  pub object_rank : ℕ

-- the keys of the macro for objects other than language strings; `prep_index_obj` is its parameter
unfoldable pub nonlang_key : {T O : Type 0} → (T → O) → Row T → ℕ × O
nonlang_key prep_index_obj row = (row.subject, prep_index_obj row.object)

-- the keys of the macro for language strings, an object being its value and its language
unfoldable pub lang_key : Row (ℕ × ℕ) → ℕ × ℕ × ℕ
lang_key row = (row.subject, row.object.0, row.object.1)

-- The HashSet of the struct that both macros declare, as the list of its keys.
module _ {K : Type 0} (K-discrete : Discrete K) where
  unfoldable pub same : K → K → Bool
  same j k = elim (K-discrete j k) [ yes p ↦ true | no p ↦ false ]

  -- `self.index.contains(&key)`
  unfoldable pub contains : List K → K → Bool
  unfolding same
  contains [] k = false
  contains (j ∷ index) k = if same j k then true else contains index k

  -- `self.index.insert(key)`, which answers whether the key is new
  unfoldable pub insert_key : List K → K → List K × Bool
  unfolding contains
  insert_key index k = if contains index k then (index, false) else (k ∷ index, true)

  -- `self.index.remove(&key)`
  unfoldable pub remove_key : List K → K → List K
  unfolding same
  remove_key [] k = []
  remove_key (j ∷ index) k = let rest = remove_key index k in if same j k then rest else j ∷ rest

  -- `let new = if insert { … } else { … };`, with the index that it leaves
  unfoldable pub check_new : List K → K → Bool → List K × Bool
  unfolding insert_key contains
  check_new index k true = insert_key index k
  check_new index k false = if contains index k then (index, false) else (index, true)

-- `None` for a data frame without rows
unfoldable pub nonempty_frame : {T : Type 0} → List (Row T) → Option (List (Row T))
nonempty_frame [] = none
nonempty_frame (row ∷ rows) = some (row ∷ rows)

-- The operations of the struct. `prep_index` is the key under which a row stands in the HashSet.
module _ {T K : Type 0} (K-discrete : Discrete K) (prep_index : Row T → K) where
  unfoldable pub insert : List K → List (Row T) → List K
  unfolding insert_key
  insert index [] = index
  insert index (row ∷ df) = insert (insert_key K-discrete index (prep_index row)).0 df

  unfoldable pub delete : List K → List (Row T) → List K
  unfolding remove_key
  delete index [] = index
  delete index (row ∷ df) = delete (remove_key K-discrete index (prep_index row)) df

  -- the loop over the rows: the index after it, and the rows that are pushed
  unfoldable pub deduplicate_rows : List K → List (Row T) → Bool → List K × List (Row T)
  unfolding check_new
  deduplicate_rows index [] insert = (index, [])
  deduplicate_rows index (row ∷ df) insert =
      let (next, new) = check_new K-discrete index (prep_index row) insert in
      let (last, rows) = deduplicate_rows next df insert in (last, if new then row ∷ rows else rows)

  unfoldable pub maybe_insert_deduplicate :
      List K → List (Row T) → Bool → List K × Option (List (Row T))
  unfolding deduplicate_rows nonempty_frame
  maybe_insert_deduplicate index df insert =
      let (last, rows) = deduplicate_rows index df insert in (last, nonempty_frame rows)
