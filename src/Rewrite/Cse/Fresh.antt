-- ===== src/Rewrite/Cse/Fresh.antt =====
-- The fresh names of one expression.
use maplib.Prelude.{ℕ, ◌≤◌, ◌≡◌, Bool, true, false, ◌==◌, none, some, ltb, String}
use maplib.Prelude.Maps.{get}
use maplib.Algebra.{Variable}
use maplib.Rewrite.Cse.{Renames, StrCounts}
use maplib.Rewrite.Cse.Counts.{count}

-- the map counts the variable more than once
unfoldable repeated : Variable → StrCounts → Bool
unfolding count
repeated v counts = ltb 1 (count v counts)

module _ (new_v4 : ℕ → String) where
  -- the names differ from each other
  abbrev pub IsFresh : Type 0
  IsFresh = (i j : ℕ) → (new_v4 i == new_v4 j) ≡ true → i ≡ j

  -- what the new names lead back to
  record Back (m back : Renames) (n : ℕ) : Type 0 where
    returns : (v r : String) → get v m ≡ some r → get r back ≡ some v
    later : (i : ℕ) → n ≤ i → get (new_v4 i) back ≡ none
    only : (v : String) → ((i : ℕ) → (new_v4 i == v) ≡ false) → get v back ≡ none
