-- ===== src/Pushdowns/Resources.antt =====
-- The constraint that a BGP puts on the variables in its subjects and predicates.
use maplib.Prelude.{
  ◌≡◌, Bool, true, false, some, List, [], ◌∷◌, ◌==◌, ◌||◌, ◌⊎◌, inl, inr, arith, eq_iff, or-cases,
  Bool-cases, Option-cases, eq-true,
}
use maplib.Prelude.Maps.{get, put, get-put}
use maplib.Algebra.{NamedNodePattern, TermPattern, TriplePattern, Variable}
use maplib.TypeConstraints.{
  ConstraintBaseRdfNodeType, ConstraintExpr, PossibleTypes, and_ctr, singular_ctr,
}
use maplib.TypeConstraints.Meaning.{Admits}
use maplib.Pushdowns.{
  Pushdowns, Types, iri_or_blanknode, iri_or_blanknode_constraint, constrain_subject,
  constrain_predicate, add_patterns_pushdowns,
}

-- the constraint lets through IRIs and blank nodes at most
abbrev pub AdmitsResources : ConstraintExpr → Type 0
AdmitsResources c =
    (t : ConstraintBaseRdfNodeType)
    → Admits c t
    → (t ≡ ConstraintBaseRdfNodeType.iri) ⊎ (t ≡ ConstraintBaseRdfNodeType.blank_node)

-- the variable has such a constraint
abbrev pub IsResource : Types → Variable → Type 0
IsResource types v = (p : PossibleTypes) × (get v types ≡ some p) × AdmitsResources p.e

iri_or_blanknode-AdmitsResources : AdmitsResources iri_or_blanknode
unfolding iri_or_blanknode
iri_or_blanknode-AdmitsResources t h = h

put-IsResource :
    (types : Types) (w v : Variable) (p : PossibleTypes)
    → AdmitsResources p.e
    → (w ≡ v) ⊎ IsResource types v
    → IsResource (put w p types) v
put-IsResource types w v p a h = elim (Bool-cases (w == v)) [
  | inl e ↦ (p, ground (arith, get-put w v p types), a)
  | inr e ↦ elim h [
    | inl s ↦ absurd (ground (arith, eq_iff w v))
    | inr (q, g, b) ↦ (q, ground (arith, get-put w v p types), b)
  ]
]

iri_or_blanknode_constraint-IsResource :
    (self : Pushdowns) (w v : Variable)
    → (w ≡ v) ⊎ IsResource self.variables_type_constraints v
    → IsResource (iri_or_blanknode_constraint self w).variables_type_constraints v
unfolding iri_or_blanknode_constraint and_ctr singular_ctr
iri_or_blanknode_constraint-IsResource self w v h =
    elim (Option-cases (get w self.variables_type_constraints)) [
      | inl missing ↦
          rw (missing, iri_or_blanknode_constraint)
            (put-IsResource self.variables_type_constraints w v (singular_ctr iri_or_blanknode)
              iri_or_blanknode-AdmitsResources h)
      | inr (found, p) ↦
          rw (p, iri_or_blanknode_constraint)
            (put-IsResource self.variables_type_constraints w v (and_ctr found iri_or_blanknode)
              (λ t (a, b). iri_or_blanknode-AdmitsResources t b) h)
    ]

is_subject : Variable → TermPattern → Bool
is_subject v (TermPattern.variable w) = w == v
is_subject v t = false

is_predicate : Variable → NamedNodePattern → Bool
is_predicate v (NamedNodePattern.variable w) = w == v
is_predicate v (NamedNodePattern.named_node n) = false

-- the variable is the subject or the predicate of a pattern
unfoldable pub in_resource_position : Variable → List TriplePattern → Bool
unfolding is_subject is_predicate
in_resource_position v [] = false
in_resource_position v (p ∷ ps) =
    (is_subject v p.subject || is_predicate v p.predicate) || in_resource_position v ps

constrain_subject-IsResource :
    (self : Pushdowns) (t : TermPattern) (v : Variable)
    → (is_subject v t ≡ true) ⊎ IsResource self.variables_type_constraints v
    → IsResource (constrain_subject self t).variables_type_constraints v
unfolding constrain_subject is_subject
constrain_subject-IsResource self (TermPattern.variable w) v (inl e) =
    iri_or_blanknode_constraint-IsResource self w v (inl (eq-true w v e))
constrain_subject-IsResource self (TermPattern.variable w) v (inr r) =
    iri_or_blanknode_constraint-IsResource self w v (inr r)
constrain_subject-IsResource self t v (inl e) = cc
constrain_subject-IsResource self t v (inr r) = r

constrain_predicate-IsResource :
    (self : Pushdowns) (n : NamedNodePattern) (v : Variable)
    → (is_predicate v n ≡ true) ⊎ IsResource self.variables_type_constraints v
    → IsResource (constrain_predicate self n).variables_type_constraints v
unfolding constrain_predicate is_predicate
constrain_predicate-IsResource self (NamedNodePattern.variable w) v (inl e) =
    iri_or_blanknode_constraint-IsResource self w v (inl (eq-true w v e))
constrain_predicate-IsResource self (NamedNodePattern.variable w) v (inr r) =
    iri_or_blanknode_constraint-IsResource self w v (inr r)
constrain_predicate-IsResource self (NamedNodePattern.named_node n) v (inl e) = cc
constrain_predicate-IsResource self (NamedNodePattern.named_node n) v (inr r) = r

-- After the patterns of a BGP are added, every variable that is the subject or the predicate of one
-- of them, or that was so constrained before, has a type constraint that lets through IRIs and blank
-- nodes at most.
pub add_patterns_pushdowns-IsResource :
    (self : Pushdowns) (patterns : List TriplePattern) (v : Variable)
    → (in_resource_position v patterns ≡ true) ⊎ IsResource self.variables_type_constraints v
    → IsResource (add_patterns_pushdowns self patterns).variables_type_constraints v
unfolding add_patterns_pushdowns in_resource_position
add_patterns_pushdowns-IsResource self [] v (inl e) = cc
add_patterns_pushdowns-IsResource self [] v (inr r) = r
add_patterns_pushdowns-IsResource self (p ∷ patterns) v h =
    let middle = constrain_subject self p.subject in
    let next = constrain_predicate middle p.predicate in
    let subject = constrain_subject-IsResource self p.subject v in
    let predicate = constrain_predicate-IsResource middle p.predicate v in
    add_patterns_pushdowns-IsResource next patterns v (elim h [
      | inl e ↦ elim (or-cases _ _ e) [
        | inl here ↦ elim (or-cases _ _ here) [
          | inl s ↦ inr (predicate (inr (subject (inl s))))
          | inr q ↦ inr (predicate (inl q))
        ]
        | inr later ↦ inl later
      ]
      | inr r ↦ inr (predicate (inr (subject (inr r))))
    ])
