-- ===== src/QueryContext.antt =====
-- lib/representation/src/query_context.rs: where in a query an expression or a variable stands, and
-- which variables are in scope of which place. `show_u16` is the standard library's decimal form.
mod Entry
pub mod Scope
pub mod Rendering
use maplib.Prelude.{
  ℕ, Bool, true, false, String, List, [], ◌∷◌, ◌++◌, ◌&&◌, ◌||◌, ◌==◌, concat, if◌then◌else◌,
}
use mathlib.Core.Logic.{ite}
use maplib.Algebra.{Variable}
pub use Entry.{PathEntry}
unfoldable pub use Entry.{
  PathEntry-discrete, display, exposes_variables, maintains_full_downward_scope,
}

pub record Context : Type 0 where
  pub string_rep : String
  pub path : List PathEntry

-- The two paths from the first entry on in which they differ; nothing, if one begins the other.
unfoldable pub divergence : List PathEntry → List PathEntry → List PathEntry × List PathEntry
divergence [] other = ([], [])
divergence (my_entry ∷ mine) [] = ([], [])
divergence (my_entry ∷ mine) (other_entry ∷ others) =
    let rest = divergence mine others in
    ite (PathEntry-discrete other_entry my_entry) rest (my_entry ∷ mine, other_entry ∷ others)

-- the loop that returns false at the first entry that fails the test
unfoldable pub every : (PathEntry → Bool) → List PathEntry → Bool
every test [] = true
every test (entry ∷ entries) = test entry && every test entries

unfoldable pub in_scope : Context → Context → Bool → Bool
unfolding divergence every
in_scope self other partial_scope =
    let (self_divergence, other_divergence) = divergence self.path other.path in
    every exposes_variables self_divergence
    && (partial_scope || every maintains_full_downward_scope other_divergence)

-- `contains`: whether the path has the entry
unfoldable pub contains_entry : List PathEntry → PathEntry → Bool
contains_entry [] path_entry = false
contains_entry (entry ∷ path) path_entry =
    ite (PathEntry-discrete entry path_entry) true (contains_entry path path_entry)

unfoldable pub contains : Context → PathEntry → Bool
unfolding contains_entry
contains self path_entry = contains_entry self.path path_entry

unfoldable pub new : Context
new = record { string_rep = ""; path = [] }

unfoldable pub is_empty : List PathEntry → Bool
is_empty [] = true
is_empty (entry ∷ path) = false

module _ (show_u16 : ℕ → String) where
  unfoldable pub extension_with : Context → PathEntry → Context
  unfolding is_empty
  extension_with self p = record {
    string_rep =
        concat
          (self.string_rep ∷ (if is_empty self.path then "" else "-") ∷ display show_u16 p ∷ []);
    path = self.path ++ p ∷ [];
  }

  -- the loop of `from_path`
  unfoldable pub extend_all : Context → List PathEntry → Context
  extend_all ctx [] = ctx
  extend_all ctx (p ∷ path) = extend_all (extension_with ctx p) path

  unfoldable pub from_path : List PathEntry → Context
  unfolding extend_all new
  from_path path = extend_all new path

pub record VariableInContext : Type 0 where
  pub variable : Variable
  pub context : Context

unfoldable pub same_name : VariableInContext → Variable → Bool
same_name self v = self.variable == v

unfoldable pub equivalent : VariableInContext → Variable → Context → Bool
unfolding same_name in_scope
equivalent self variable context = same_name self variable && in_scope self.context context false

unfoldable pub partial : VariableInContext → Variable → Context → Bool
unfolding same_name in_scope
partial self variable context = same_name self variable && in_scope self.context context true
