-- ===== src/Pushdowns/Terms.antt =====
-- `HashSet<Term>` as a list of terms that is only asked for membership.
use maplib.Prelude.{
  ◌≡◌, refl, Bool, true, false, List, [], ◌∷◌, ◌&&◌, ◌||◌, ◌==◌, arith, if◌then◌else◌, Option, some,
  none, String, eq_refl, ap, subst, eq-true, or-cases, sym, inl, inr, and-cases,
}
use maplib.Algebra.{Term}

unfoldable pub option_eq : Option String → Option String → Bool
option_eq none none = true
option_eq (some s) (some t) = s == t
option_eq _ _ = false

-- `#[derive(PartialEq)]` of a term
unfoldable pub term_eq : Term → Term → Bool
unfolding option_eq
term_eq (Term.named_node n) (Term.named_node m) = n == m
term_eq (Term.blank_node b) (Term.blank_node c) = b == c
term_eq (Term.literal l) (Term.literal m) =
    (l.value == m.value) && ((l.datatype == m.datatype) && option_eq l.language m.language)
term_eq _ _ = false

option_eq_refl : (o : Option String) → option_eq o o ≡ true
unfolding option_eq
option_eq_refl none = refl
option_eq_refl (some s) = eq_refl s

pub term_eq_refl : (t : Term) → term_eq t t ≡ true
unfolding term_eq
term_eq_refl (Term.named_node n) = eq_refl n
term_eq_refl (Term.blank_node b) = eq_refl b
term_eq_refl (Term.literal l) =
    ground (arith, eq_refl l.value, eq_refl l.datatype, option_eq_refl l.language)

-- `set.contains(t)`
unfoldable pub has : List Term → Term → Bool
has [] t = false
has (u ∷ ts) t = term_eq t u || has ts t

-- `set.insert(t)`
unfoldable pub add_term : Term → List Term → List Term
add_term t ts = if has ts t then ts else t ∷ ts

-- `set.extend(other)`
unfoldable pub extend_terms : List Term → List Term → List Term
extend_terms ts [] = ts
extend_terms ts (u ∷ other) = add_term u (extend_terms ts other)

-- `a.intersection(&b).cloned().collect()`
unfoldable pub intersect_terms : List Term → List Term → List Term
intersect_terms [] other = []
intersect_terms (t ∷ ts) other =
    let rest = intersect_terms ts other in if has other t then t ∷ rest else rest

option_eq-eq : (a b : Option String) → option_eq a b ≡ true → a ≡ b
unfolding option_eq
option_eq-eq none none h = refl
option_eq-eq none (some t) h = cc
option_eq-eq (some s) none h = cc
option_eq-eq (some s) (some t) h = ap some (eq-true s t h)

pub term_eq-eq : (t u : Term) → term_eq t u ≡ true → t ≡ u
unfolding term_eq
term_eq-eq (Term.named_node n) (Term.named_node m) h = ap Term.named_node (eq-true n m h)
term_eq-eq (Term.blank_node n) (Term.blank_node m) h = ap Term.blank_node (eq-true n m h)
term_eq-eq (Term.literal l) (Term.literal m) h =
    let datatypes = l.datatype == m.datatype in
    let languages = option_eq l.language m.language in
    let (v, rest) = and-cases (l.value == m.value) (datatypes && languages) h in
    let (d, g) = and-cases datatypes languages rest in
    ap Term.literal (
      ground (
        arith,
        eq-true l.value m.value v,
        eq-true l.datatype m.datatype d,
        option_eq-eq l.language m.language g,
      ))
term_eq-eq (Term.named_node n) (Term.blank_node m) h = cc
term_eq-eq (Term.named_node n) (Term.literal m) h = cc
term_eq-eq (Term.blank_node n) (Term.named_node m) h = cc
term_eq-eq (Term.blank_node n) (Term.literal m) h = cc
term_eq-eq (Term.literal n) (Term.named_node m) h = cc
term_eq-eq (Term.literal n) (Term.blank_node m) h = cc

pub has-add_term_self : (t : Term) (ts : List Term) → has (add_term t ts) t ≡ true
unfolding has add_term
has-add_term_self t ts = ground (arith, term_eq_refl t)

pub has-add_term : (t u : Term) (ts : List Term) → has ts u ≡ true → has (add_term t ts) u ≡ true
unfolding has add_term
has-add_term t u ts h = ground arith

pub has-extend_left :
    (ts other : List Term) (t : Term) → has ts t ≡ true → has (extend_terms ts other) t ≡ true
unfolding extend_terms
has-extend_left ts [] t h = h
has-extend_left ts (u ∷ other) t h =
    has-add_term u t (extend_terms ts other) (has-extend_left ts other t h)

pub has-extend_right :
    (ts other : List Term) (t : Term) → has other t ≡ true → has (extend_terms ts other) t ≡ true
unfolding extend_terms has
has-extend_right ts [] t h = cc
has-extend_right ts (u ∷ other) t h = elim (or-cases _ _ h) [
  | inl e ↦
      subst (λ x. has (add_term u (extend_terms ts other)) x ≡ true) (sym (term_eq-eq t u e))
        (has-add_term_self u (extend_terms ts other))
  | inr r ↦ has-add_term u t (extend_terms ts other) (has-extend_right ts other t r)
]

pub has-intersect :
    (ts other : List Term) (t : Term)
    → has ts t ≡ true
    → has other t ≡ true
    → has (intersect_terms ts other) t ≡ true
unfolding has intersect_terms
has-intersect [] other t h g = cc
has-intersect (u ∷ ts) other t h g = elim (or-cases _ _ h) [
  | inl e ↦
      let same = term_eq-eq t u e in
      let found : has other u ≡ true = subst (λ x. has other x ≡ true) same g in
      rw found (ground arith)
  | inr r ↦ let rest = has-intersect ts other t r g in ground arith
]
