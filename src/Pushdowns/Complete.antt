-- ===== src/Pushdowns/Complete.antt =====
-- VALUES clauses with complete rows, under which no look-up of a cell panics.
use maplib.Prelude.{
  ℕ, zero, suc, ◌+◌, ◌<◌, ◌≡◌, refl, Bool, true, false, ◌&&◌, List, [], ◌∷◌, Option, none, some,
  if◌then◌else◌, get_elem?, length, nat_eq, arith, and-cases,
}
use maplib.Algebra.{GraphPattern, GroundTerm, Variable}
use maplib.Pushdowns.{Pushdowns, add_filter_variable_pushdowns, add_patterns_pushdowns}
use maplib.Pushdowns.Patterns.{
  add_graph_pattern_pushdowns, add_graph_pattern_pushdowns_impl, add_types, add_use_terms,
  add_values, column, column_terms, column_types, copy_values, if_wanted, is_wanted, wanted_of,
}

-- every row has a cell for each of the variables
unfoldable pub full_rows : ℕ → List (List (Option GroundTerm)) → Bool
full_rows n [] = true
full_rows n (gs ∷ bindings) = nat_eq (length gs) n && full_rows n bindings

-- the VALUES clauses that the traversal can reach, which does not enter the right sides of OPTIONAL
-- and MINUS, nor a UNION, GRAPH or SERVICE, have complete rows
unfoldable pub has_full_rows : GraphPattern → Bool
unfolding full_rows
has_full_rows (GraphPattern.join l r) = has_full_rows l && has_full_rows r
has_full_rows (GraphPattern.left_join l r e) = has_full_rows l
has_full_rows (GraphPattern.minus l r) = has_full_rows l
has_full_rows (GraphPattern.filter e p) = has_full_rows p
has_full_rows (GraphPattern.extend p v e) = has_full_rows p
has_full_rows (GraphPattern.values vs bindings) = full_rows (length vs) bindings
has_full_rows (GraphPattern.order_by p e) = has_full_rows p
has_full_rows (GraphPattern.distinct p) = has_full_rows p
has_full_rows (GraphPattern.reduced p) = has_full_rows p
has_full_rows (GraphPattern.slice p k n) = has_full_rows p
has_full_rows (GraphPattern.group p vs a) = has_full_rows p
has_full_rows (GraphPattern.project p vs) = has_full_rows p
has_full_rows other = true

cell_there :
    (gs : List (Option GroundTerm)) (i : ℕ)
    → i < length gs
    → (g : Option GroundTerm) × (get_elem? gs i ≡ some g)
cell_there [] i h = absurd (omega arith)
cell_there (g ∷ gs) zero h = (g, refl)
cell_there (g ∷ gs) (suc i) h = cell_there gs i (omega arith)

column_there :
    (n i : ℕ) (bindings : List (List (Option GroundTerm)))
    → i < n
    → full_rows n bindings ≡ true
    → (gs : List (Option GroundTerm)) × (column i bindings ≡ some gs)
unfolding column full_rows
column_there n i [] h f = ([], refl)
column_there n i (row ∷ bindings) h f =
    let (p, q) = and-cases (nat_eq (length row) n) (full_rows n bindings) f in
    let (g, first) = cell_there row i (ground (arith, p, h)) in
    let (gs, rest) = column_there n i bindings h q in (g ∷ gs, ground (arith, first, rest))

add_values_done :
    (only_vars : Option (List Variable)) (bindings : List (List (Option GroundTerm))) (n i : ℕ)
    (vs : List Variable) (self : Pushdowns)
    → i + length vs ≡ n
    → full_rows n bindings ≡ true
    → (next : Pushdowns) × (add_values only_vars bindings i vs self ≡ some next)
unfolding add_values
add_values_done only_vars bindings n i [] self e f = (self, refl)
add_values_done only_vars bindings n i (v ∷ vs) self e f =
    elim (is_wanted only_vars v)
      as (λ b.
        (next : Pushdowns) × ((if b
            then elim (column i bindings) [
              | some gs ↦
                  add_values only_vars bindings (i + 1) vs
                    (add_types (add_use_terms self v (column_terms gs)) v (column_types gs))
              | none ↦ none
            ]
            else add_values only_vars bindings (i + 1) vs self)
          ≡ some next)) [
            | true ↦
                let (gs, there) = column_there n i bindings (omega arith) f in
                rw there (
                  add_values_done only_vars bindings n (i + 1) vs
                    (add_types (add_use_terms self v (column_terms gs)) v (column_types gs))
                    (omega arith) f)
            | false ↦ add_values_done only_vars bindings n (i + 1) vs self (omega arith) f
          ]

-- the inner pattern first, and then a step on what it gives
then_step :
    (o : Option Pushdowns) (f : Pushdowns → Pushdowns)
    → (next : Pushdowns) × (o ≡ some next)
    → (next : Pushdowns) × (elim o [ some self ↦ some (f self) | none ↦ none ] ≡ some next)
then_step o f (next, done) = (f next, ground (arith, done))

if_wanted_done :
    (vs : List Variable) (self : Pushdowns) (o : Option Pushdowns)
    → (next : Pushdowns) × (o ≡ some next)
    → (next : Pushdowns) × (if_wanted vs self o ≡ some next)
unfolding if_wanted
if_wanted_done [] self o h = (self, refl)
if_wanted_done (v ∷ vs) self o h = h

impl_done :
    (gp : GraphPattern) (only_vars : Option (List Variable)) (self : Pushdowns)
    → has_full_rows gp ≡ true
    → (next : Pushdowns) × (add_graph_pattern_pushdowns_impl gp only_vars self ≡ some next)
unfolding add_graph_pattern_pushdowns_impl has_full_rows
impl_done (GraphPattern.bgp ps) o self h = (add_patterns_pushdowns self ps, refl)
impl_done (GraphPattern.join l r) o self h =
    let (p, q) = and-cases _ _ h in
    let (next, done) = impl_done l o self p in
    let (last, done') = impl_done r o next q in (last, ground (arith, done, done'))
impl_done (GraphPattern.left_join l r e) o self h = impl_done l o self h
impl_done (GraphPattern.minus l r) o self h = impl_done l o self h
impl_done (GraphPattern.filter e p) o self h =
    then_step _ (λ s. add_filter_variable_pushdowns s e o) (impl_done p o self h)
impl_done (GraphPattern.extend p v e) o self h =
    then_step _ (λ s. copy_values s v e) (impl_done p o self h)
impl_done (GraphPattern.values vs bindings) o self h =
    add_values_done o bindings (length vs) 0 vs self (omega arith) h
impl_done (GraphPattern.order_by p e) o self h = impl_done p o self h
impl_done (GraphPattern.distinct p) o self h = impl_done p o self h
impl_done (GraphPattern.reduced p) o self h = impl_done p o self h
impl_done (GraphPattern.slice p k n) o self h = impl_done p o self h
impl_done (GraphPattern.group p vs a) o self h =
    if_wanted_done (wanted_of o vs) self _ (impl_done p (some (wanted_of o vs)) self h)
impl_done (GraphPattern.project p vs) o self h =
    if_wanted_done (wanted_of o vs) self _ (impl_done p (some (wanted_of o vs)) self h)
impl_done other o self h = (self, refl)

-- If each VALUES clause that the traversal can reach has a cell for each of its variables in each row,
-- the pushdowns of a pattern are found without a panic.
pub add_graph_pattern_pushdowns_lem :
    (self : Pushdowns) (gp : GraphPattern)
    → has_full_rows gp ≡ true
    → (next : Pushdowns) × (add_graph_pattern_pushdowns self gp ≡ some next)
unfolding add_graph_pattern_pushdowns
add_graph_pattern_pushdowns_lem self gp h = impl_done gp none self h
