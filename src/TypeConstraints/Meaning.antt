-- ===== src/TypeConstraints/Meaning.antt =====
-- What a type constraint admits, against `compatible_with`.
use maplib.Prelude.{
  ◌≡◌, ◌≢◌, refl, ◌↔◌, ◌⊎◌, inl, inr, Bool, true, false, Option, none, some, subst, Bool-cases,
}
use maplib.Algebra.{NamedNode}
use maplib.Subtypes.{is_literal_subtype}
use maplib.Subtypes.Hierarchy.{Reaches}
use maplib.Subtypes.Decides.{is_literal_subtype_iff}
use maplib.TypeConstraints.{
  ConstraintBaseRdfNodeType, ConstraintExpr, compatible_base, compatible_with, and_then, or_else,
}

-- The types of nodes that a constraint lets through.
abbrev pub AdmitsBase : ConstraintBaseRdfNodeType → ConstraintBaseRdfNodeType → Type 0
AdmitsBase ConstraintBaseRdfNodeType.iri t = t ≡ ConstraintBaseRdfNodeType.iri
AdmitsBase ConstraintBaseRdfNodeType.blank_node t = t ≡ ConstraintBaseRdfNodeType.blank_node
AdmitsBase (ConstraintBaseRdfNodeType.literal l) t =
    (m : NamedNode) × (t ≡ ConstraintBaseRdfNodeType.literal m) × Reaches l m
AdmitsBase ConstraintBaseRdfNodeType.no_type t = ⊥

abbrev pub Admits : ConstraintExpr → ConstraintBaseRdfNodeType → Type 0
Admits ConstraintExpr.bottom t = ⊥
Admits ConstraintExpr.top t = Unit
Admits (ConstraintExpr.constraint c) t = AdmitsBase c t
Admits (ConstraintExpr.and l r) t = Admits l t × Admits r t
Admits (ConstraintExpr.or l r) t = Admits l t ⊎ Admits r t

-- The constraint names no node type `None`, for which the code panics.
abbrev pub IsProper : ConstraintExpr → Type 0
IsProper ConstraintExpr.bottom = Unit
IsProper ConstraintExpr.top = Unit
IsProper (ConstraintExpr.constraint c) = c ≢ ConstraintBaseRdfNodeType.no_type
IsProper (ConstraintExpr.and l r) = IsProper l × IsProper r
IsProper (ConstraintExpr.or l r) = IsProper l × IsProper r

-- the answer, with what it means
abbrev Answer : Type 0 → Option Bool → Type 0
Answer A none = ⊥
Answer A (some true) = A
Answer A (some false) = ¬ A

not_reached :
    (l m x : NamedNode)
    → is_literal_subtype m l ≡ false
    → ConstraintBaseRdfNodeType.literal m ≡ ConstraintBaseRdfNodeType.literal x
    → Reaches l x
    → ⊥
not_reached l m x e p r =
    let same : x ≡ m = cc in
    let found = (is_literal_subtype_iff m l).1 (subst (λ k. Reaches l k) same r) in cc

compatible_base-Answer :
    (c t : ConstraintBaseRdfNodeType)
    → c ≢ ConstraintBaseRdfNodeType.no_type
    → Answer (AdmitsBase c t) (compatible_base c t)
unfolding compatible_base
compatible_base-Answer ConstraintBaseRdfNodeType.iri ConstraintBaseRdfNodeType.iri h = refl
compatible_base-Answer ConstraintBaseRdfNodeType.iri t h = λ e. cc
compatible_base-Answer ConstraintBaseRdfNodeType.blank_node ConstraintBaseRdfNodeType.blank_node h =
    refl
compatible_base-Answer ConstraintBaseRdfNodeType.blank_node t h = λ e. cc
compatible_base-Answer (ConstraintBaseRdfNodeType.literal l) (ConstraintBaseRdfNodeType.literal m)
      h =
    elim (Bool-cases (is_literal_subtype m l)) [
      | inl e ↦ rw e (m, refl, (is_literal_subtype_iff m l).0 e)
      | inr e ↦ rw e (λ (x, p, r). not_reached l m x e p r)
    ]
compatible_base-Answer (ConstraintBaseRdfNodeType.literal l) t h = λ (m, e, r). cc
compatible_base-Answer ConstraintBaseRdfNodeType.no_type t h = absurd (h refl)

and_then-Answer :
    (A B : Type 0) (o p : Option Bool) → Answer A o → Answer B p → Answer (A × B) (and_then o p)
and_then-Answer A B none p a b = a
and_then-Answer A B (some true) none a b = b
and_then-Answer A B (some true) (some true) a b = (a, b)
and_then-Answer A B (some true) (some false) a b = λ h. b h.1
and_then-Answer A B (some false) p a b = λ h. a h.0

or_else-Answer :
    (A B : Type 0) (o p : Option Bool) → Answer A o → Answer B p → Answer (A ⊎ B) (or_else o p)
or_else-Answer A B none p a b = a
or_else-Answer A B (some true) p a b = inl a
or_else-Answer A B (some false) none a b = b
or_else-Answer A B (some false) (some true) a b = inr b
or_else-Answer A B (some false) (some false) a b = elim [ inl h ↦ a h | inr h ↦ b h ]

compatible_with-Answer :
    (c : ConstraintExpr) (t : ConstraintBaseRdfNodeType)
    → IsProper c
    → Answer (Admits c t) (compatible_with c t)
unfolding compatible_with
compatible_with-Answer ConstraintExpr.bottom t h = λ x. x
compatible_with-Answer ConstraintExpr.top t h = tt
compatible_with-Answer (ConstraintExpr.constraint c) t h = compatible_base-Answer c t h
compatible_with-Answer (ConstraintExpr.and l r) t h =
    and_then-Answer (Admits l t) (Admits r t) (compatible_with l t) (compatible_with r t)
      (compatible_with-Answer l t h.0) (compatible_with-Answer r t h.1)
compatible_with-Answer (ConstraintExpr.or l r) t h =
    or_else-Answer (Admits l t) (Admits r t) (compatible_with l t) (compatible_with r t)
      (compatible_with-Answer l t h.0) (compatible_with-Answer r t h.1)

read : {A : Type 0} (o : Option Bool) → Answer A o → (b : Bool) × (o ≡ some b) × ((b ≡ true) ↔ A)
read none a = absurd a
read (some true) a = (true, refl, (λ e. a, λ h. refl))
read (some false) a = (false, refl, (λ e. cc, λ h. absurd (a h)))

-- On a constraint that names no node type `None` the test does not panic, and it passes exactly the
-- types that the constraint admits.
pub compatible_with-Admits :
    (c : ConstraintExpr) (t : ConstraintBaseRdfNodeType)
    → IsProper c
    → (b : Bool) × (compatible_with c t ≡ some b) × ((b ≡ true) ↔ Admits c t)
compatible_with-Admits c t h = read (compatible_with c t) (compatible_with-Answer c t h)
