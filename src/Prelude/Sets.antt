-- ===== src/Prelude/Sets.antt =====
-- `HashSet<String>` and `HashSet<Variable>` as lists of texts. Only membership is observed by the
-- modelled code, so the order in which a HashSet iterates plays no part.
use Prim.Native.String.{String}
use mathlib.Core.Path.{◌≡◌, refl}
use mathlib.Core.Bool.{Bool, true, false, ◌&&◌, ◌||◌}
use mathlib.Core.List.{List, [], ◌∷◌}
use native.Mathlib.Omega.{arith}
use text.Mathlib.Text.{◌==◌}
use text.Mathlib.TextEquality.{eq_iff}
use maplib.Prelude.Tests.{if◌then◌else◌}

-- `set.contains(v)`
unfoldable pub contains : List String → String → Bool
contains [] v = false
contains (w ∷ s) v = (v == w) || contains s v

-- `set.insert(v)`
unfoldable pub insert : String → List String → List String
insert v s = if contains s v then s else v ∷ s

-- `a.is_subset(&b)`
unfoldable pub is_subset : List String → List String → Bool
is_subset [] b = true
is_subset (v ∷ a) b = contains b v && is_subset a b

-- `a.union(&b).cloned().collect()`
unfoldable pub union : List String → List String → List String
union [] b = b
union (v ∷ a) b = insert v (union a b)

pub contains-insert :
    (s : List String) (v w : String) → contains (insert v s) w ≡ (contains s w || (w == v))
unfolding contains insert
contains-insert s v w = ground (arith, eq_iff w v)

pub contains_nil : (w : String) → contains [] w ≡ false
unfolding contains
contains_nil w = refl

pub contains_cons :
    (v : String) (s : List String) (w : String) → contains (v ∷ s) w ≡ ((w == v) || contains s w)
unfolding contains
contains_cons v s w = refl
