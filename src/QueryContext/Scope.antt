-- ===== src/QueryContext/Scope.antt =====
-- Which variables are in scope of which context.
use mathlib.Core.Logic.{if_pos, if_neg}
use maplib.Prelude.{
  ◌≡◌, ◌≢◌, refl, ◌∙◌, Bool, true, false, List, [], ◌∷◌, ◌++◌, ◌&&◌, ◌||◌, arith, sym, inl, inr,
  ◌⊎◌, ◌↔◌, Each, and-cases, or-cases,
}
use maplib.Algebra.{Variable}
use maplib.QueryContext.{
  PathEntry, PathEntry-discrete, exposes_variables, maintains_full_downward_scope, Context,
  divergence, every, in_scope, VariableInContext, equivalent, partial,
}

-- No entry both exposes its variables upwards and keeps the full scope downwards.
exposes-not-maintains :
    (e : PathEntry) → exposes_variables e ≡ true → maintains_full_downward_scope e ≡ false
unfolding exposes_variables maintains_full_downward_scope
exposes-not-maintains e h = ground arith

divergence-append :
    (pre mine others : List PathEntry)
    → divergence (pre ++ mine) (pre ++ others) ≡ divergence mine others
unfolding divergence
divergence-append [] mine others = refl
divergence-append (e ∷ pre) mine others =
    rw (if_pos (PathEntry-discrete e e) refl) (divergence-append pre mine others)

divergence_ne :
    (a b : PathEntry) (mine others : List PathEntry)
    → a ≢ b
    → divergence (a ∷ mine) (b ∷ others) ≡ (a ∷ mine, b ∷ others)
unfolding divergence
divergence_ne a b mine others h = rw (if_neg (PathEntry-discrete b a) (λ e. h (sym e)))

divergence_nil : (mine : List PathEntry) → divergence mine [] ≡ ([], [])
unfolding divergence
divergence_nil [] = refl
divergence_nil (a ∷ mine) = refl

divergence_below : (path rest : List PathEntry) → divergence path (path ++ rest) ≡ ([], [])
unfolding divergence
divergence_below [] rest = refl
divergence_below (e ∷ path) rest =
    rw (if_pos (PathEntry-discrete e e) refl) (divergence_below path rest)

divergence_above : (path rest : List PathEntry) → divergence (path ++ rest) path ≡ ([], [])
unfolding divergence
divergence_above [] rest = divergence_nil rest
divergence_above (e ∷ path) rest =
    rw (if_pos (PathEntry-discrete e e) refl) (divergence_above path rest)

every-Each :
    (test : PathEntry → Bool) (entries : List PathEntry)
    → (every test entries ≡ true) ↔ Each (λ e. test e ≡ true) entries
unfolding every
every-Each test [] = (λ h. tt, λ h. refl)
every-Each test (e ∷ entries) =
    let rest = every-Each test entries in
    (
      λ h. let (here, there) = and-cases (test e) (every test entries) h in (here, rest.0 there),
      λ (here, there). rw (here, rest.1 there),
    )

in_scope_tests :
    (self other : Context) (partial_scope : Bool) (pre mine others : List PathEntry)
    (a b : PathEntry)
    → self.path ≡ pre ++ a ∷ mine
    → other.path ≡ pre ++ b ∷ others
    → a ≢ b
    → in_scope self other partial_scope ≡ (
        every exposes_variables (a ∷ mine)
        && (partial_scope || every maintains_full_downward_scope (b ∷ others)))
unfolding in_scope
in_scope_tests self other partial_scope pre mine others a b p q h =
    rw (p, q, divergence-append pre (a ∷ mine) (b ∷ others), divergence_ne a b mine others h)

-- Where two contexts part at some entry, the first is in scope of the second exactly if each entry
-- of its own branch exposes its variables and, unless a partial scope is enough, each entry of the
-- other's branch keeps the full scope downwards.
pub in_scope_diverging :
    (self other : Context) (partial_scope : Bool) (pre mine others : List PathEntry)
    (a b : PathEntry)
    → self.path ≡ pre ++ a ∷ mine
    → other.path ≡ pre ++ b ∷ others
    → a ≢ b
    → (in_scope self other partial_scope ≡ true) ↔ (
        Each (λ e. exposes_variables e ≡ true) (a ∷ mine)
        × ((partial_scope ≡ true)
            ⊎ Each (λ e. maintains_full_downward_scope e ≡ true) (b ∷ others)))
in_scope_diverging self other partial_scope pre mine others a b p q h =
    let same = in_scope_tests self other partial_scope pre mine others a b p q h in
    let up = every-Each exposes_variables (a ∷ mine) in
    let down = every-Each maintains_full_downward_scope (b ∷ others) in
    (
      λ s.
          let (ours, theirs) = and-cases _ _ (sym same ∙ s) in
          (up.0 ours, elim (or-cases _ _ theirs) [ inl e ↦ inl e | inr e ↦ inr (down.0 e) ]),
      λ (ours, theirs). same ∙ (elim theirs [
        | inl e ↦ ground (arith, up.1 ours, e)
        | inr e ↦ ground (arith, up.1 ours, down.1 e)
      ]),
    )

-- A context is in scope of everything above it and below it on its own path, whatever the entries
-- between them are.
pub in_scope_same_path :
    (self other : Context) (partial_scope : Bool) (rest : List PathEntry)
    → (other.path ≡ self.path ++ rest) ⊎ (self.path ≡ other.path ++ rest)
    → in_scope self other partial_scope ≡ true
unfolding in_scope every
in_scope_same_path self other partial_scope rest (inl below) =
    rw (below, divergence_below self.path rest) (ground arith)
in_scope_same_path self other partial_scope rest (inr above) =
    rw (above, divergence_above other.path rest) (ground arith)

-- Of two contexts that part, at most one is in full scope of the other, and then the other is not
-- even in partial scope of it.
pub in_scope_asymmetric :
    (self other : Context) (pre mine others : List PathEntry) (a b : PathEntry)
    → self.path ≡ pre ++ a ∷ mine
    → other.path ≡ pre ++ b ∷ others
    → a ≢ b
    → in_scope self other false ≡ true
    → in_scope other self true ≡ false
unfolding every
in_scope_asymmetric self other pre mine others a b p q h s =
    let forth = sym (in_scope_tests self other false pre mine others a b p q h) ∙ s in
    let back = in_scope_tests other self true pre others mine b a q p (λ e. h (sym e)) in
    back ∙ ground (arith, forth, exposes-not-maintains b)

-- A variable of the same name that is equivalent in a context is also a partial one there.
pub equivalent-partial :
    (v : VariableInContext) (variable : Variable) (context : Context)
    → equivalent v variable context ≡ true
    → partial v variable context ≡ true
unfolding equivalent partial
equivalent-partial v variable context h = ground arith
