-- ===== src/Prelude.antt =====
-- The names that the other modules share: the libraries', passed on, and the helpers of the
-- children, which follow the standard library calls of the Rust code (HashSet, Vec, Option).
mod Tests
mod Sets
mod Lists
mod Text
mod Options
pub mod Maps
pub mod Outcomes
pub use Tests.*
unfoldable pub use Sets.{contains, insert, is_subset, union}
pub use Sets.{contains-insert, contains_nil, contains_cons}
pub use Lists.*
pub use Text.{concat, to_string}
unfoldable pub use Text.{strip_prefix, split_once, ends_with}
pub use Options.*
pub use Prim.Native.Nat.{ℕ, zero, suc, ◌+◌, ◌-◌, ◌*◌, ◌%◌, ◌^◌, ◌≤◌, ◌<◌}
pub use Prim.Native.String.{String}
pub use mathlib.Core.Path.{◌≡◌, refl, sym, ap, ap₂, ◌∙◌, subst}
pub use mathlib.Core.Logic.{◌≢◌, ◌↔◌, ◌⊎◌, inl, inr}
pub use mathlib.Core.Bool.{Bool, true, false, not, ◌&&◌, ◌||◌}
pub use mathlib.Core.Option.{Option, none, some}
pub use mathlib.Core.List.{List, [], ◌∷◌, ◌++◌, map, reverse}
pub use mathlib.Core.List.{
  append-nil, append_assoc, Perm, perm_middle, reverse_perm, reverse-append, reverse-cons,
}
pub use native.Mathlib.Omega.{arith}
pub use text.Mathlib.Text.{◌==◌}
pub use text.Mathlib.TextEquality.{eq_iff}
pub use text.Mathlib.TextPositions.{eq_refl}
