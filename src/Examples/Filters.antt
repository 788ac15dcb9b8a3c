-- ===== src/Examples/Filters.antt =====
-- Filters, the solutions that they let through, and what is pushed down for their variables.
use maplib.Prelude.{
  String, ◌≡◌, refl, ap, sym, Bool, true, false, Option, none, some, List, [], ◌∷◌, ◌||◌, ◌&&◌,
  ◌==◌, ◌⊎◌, inl, inr, ◌↔◌, if◌then◌else◌, or-cases, and-cases, contains_cons,
}
use maplib.Prelude.Maps.{contains_key, get, distinct, put}
use maplib.Algebra.{
  Expression, Expressions, GraphPattern, GroundTerm, Term, Variable, NamedNodePattern, TermPattern,
  TriplePattern,
}
use maplib.Vocabulary.Xsd
use maplib.Vocabulary.Owl
use maplib.Subtypes.{is_literal_subtype}
use maplib.Subtypes.Hierarchy.{Reaches}
use maplib.Subtypes.Decides.{is_literal_subtype_iff}
use maplib.TypeConstraints.{
  ConstraintBaseRdfNodeType, ConstraintExpr, PossibleTypes, compatible_with,
  conjunction_variable_type,
}
use maplib.TypeConstraints.Meaning.{Admits, compatible_with-Admits}
use maplib.TypeConstraints.Lost.{conjunction_variable_type_loses}
use maplib.Pushdowns.{
  Values, Pushdowns, add_patterns_pushdowns, add_filter_variable_pushdowns, add_term, extend_terms,
  constant_term, has, find_variable_pushdowns, term_eq, term_eq-eq,
}
use maplib.Pushdowns.Bound.{BoundIn}
use maplib.Pushdowns.Conflict.{find_variable_pushdowns-conflict}
use maplib.Pushdowns.Sound.{IsFilterMeaning, compares_iris, find_variable_pushdowns-BoundIn}
use maplib.Pushdowns.Complete.{add_graph_pattern_pushdowns_lem, full_rows, has_full_rows}
use maplib.Pushdowns.Patterns.{add_graph_pattern_pushdowns}
use maplib.Pushdowns.Resources.{IsResource, add_patterns_pushdowns-IsResource, in_resource_position}
use maplib.Pushdowns.Scope.{add_filter_ignores_wanted}

-- the solution that binds `?x` to `<a>` only
abbrev solution : Variable → Option Term
solution v = if v == "x" then some (Term.named_node "a") else none

abbrev term_of : Expression → Option Term
term_of (Expression.variable v) = solution v
term_of (Expression.named_node n) = some (Term.named_node n)
term_of (Expression.literal l) = some (Term.literal l)
term_of e = none

abbrev same_terms : Option Term → Option Term → Bool
same_terms (some t) (some u) = term_eq t u
same_terms s t = false

abbrev any_same : Option Term → Expressions → Bool
any_same o Expressions.nil = false
any_same o (Expressions.cons e es) = same_terms o (term_of e) || any_same o es

abbrev holds : Expression → Bool
holds (Expression.or l r) = holds l || holds r
holds (Expression.and l r) = holds l && holds r
holds (Expression.if_else c l r) =
    let yes = holds l in let no = holds r in if holds c then yes else no
holds (Expression.equal l r) = same_terms (term_of l) (term_of r)
holds (Expression.is_in e es) = any_same (term_of e) es
holds e = false

same_terms-eq : (o p : Option Term) → same_terms o p ≡ true → o ≡ p
same_terms-eq none p h = cc
same_terms-eq (some t) none h = cc
same_terms-eq (some t) (some u) h = ap some (term_eq-eq t u h)

one_branch : (c a b : Bool) → (if c then a else b) ≡ true → (a ≡ true) ⊎ (b ≡ true)
one_branch true a b h = inl h
one_branch false a b h = inr h

meaning : IsFilterMeaning solution holds
meaning = record {
  or_holds = λ a b h. or-cases _ _ h;
  and_holds = λ a b h. and-cases _ _ h;
  if_holds = λ c a b h. one_branch (holds c) (holds a) (holds b) h;
  equal_holds = λ v n h. same_terms-eq (solution v) (some (Term.named_node n)) h;
  equal_holds_flipped = λ v n h. sym (same_terms-eq (some (Term.named_node n)) (solution v) h);
  in_nil = λ e. refl;
  in_cons = λ e x es h. or-cases _ _ h;
}

-- `?x = <a> || ?x IN (<b>, <c>)`
abbrev choice : Expression
choice = Expression.or (Expression.equal (Expression.variable "x") (Expression.named_node "a")) (
    Expression.is_in (Expression.variable "x") (
      Expressions.cons (Expression.named_node "b")
        (Expressions.cons (Expression.named_node "c") Expressions.nil)))

abbrev a_to_c : List Term
a_to_c = Term.named_node "a" ∷ Term.named_node "c" ∷ Term.named_node "b" ∷ []

find_variable_pushdowns-BoundIn_example :
    BoundIn solution "x" (Term.named_node "c" ∷ Term.named_node "b" ∷ Term.named_node "a" ∷ [])
unfolding find_variable_pushdowns get term_eq put extend_terms add_term has compares_iris
find_variable_pushdowns-BoundIn_example =
    find_variable_pushdowns-BoundIn solution holds meaning choice "x" refl refl refl refl

abbrev integer_text : String → Expression
integer_text s = Expression.literal (record { value = s; datatype = Xsd.integer; language = none })

-- `?x = 1 && ?x = 01`
find_variable_pushdowns-conflict_example :
    find_variable_pushdowns (
      Expression.and
        (Expression.equal (Expression.variable "x") (integer_text "1"))
        (Expression.equal (Expression.variable "x") (integer_text "01")))
    ≡ some (("x", []) ∷ [])
unfolding constant_term term_eq
find_variable_pushdowns-conflict_example =
    find_variable_pushdowns-conflict "x" (integer_text "1") (integer_text "01") _ _ refl refl refl

abbrev of_x : Values
of_x = ("x", a_to_c) ∷ []

abbrev a_and_d : Values
a_and_d = ("x", Term.named_node "a" ∷ Term.named_node "d" ∷ []) ∷ ("y", []) ∷ []

abbrev known : Pushdowns
known = record { variables_values = of_x; variables_type_constraints = [] }

add_filter_ignores_wanted_example :
    get "x"
      (add_filter_variable_pushdowns known
        (Expression.equal (Expression.variable "x") (Expression.named_node "d"))
        (some ("x" ∷ []))).variables_values
    ≡ get "x" of_x
unfolding distinct contains_key
add_filter_ignores_wanted_example =
    add_filter_ignores_wanted known
      (Expression.equal (Expression.variable "x") (Expression.named_node "d")) ("x" ∷ []) "x" refl
      (contains_cons "x" [] "x")

is_literal_subtype_iff_example :
    (is_literal_subtype Xsd.byte Owl.real ≡ true) ↔ Reaches Owl.real Xsd.byte
is_literal_subtype_iff_example = is_literal_subtype_iff Xsd.byte Owl.real

-- an IRI or an integer
abbrev iri_or_integer : ConstraintExpr
iri_or_integer =
    ConstraintExpr.or (ConstraintExpr.constraint ConstraintBaseRdfNodeType.iri)
      (ConstraintExpr.constraint (ConstraintBaseRdfNodeType.literal Xsd.integer))

compatible_with-Admits_example :
    (b : Bool) × (compatible_with iri_or_integer (ConstraintBaseRdfNodeType.literal Xsd.short)
      ≡ some b)
    × ((b ≡ true) ↔ Admits iri_or_integer (ConstraintBaseRdfNodeType.literal Xsd.short))
compatible_with-Admits_example =
    compatible_with-Admits iri_or_integer (ConstraintBaseRdfNodeType.literal Xsd.short)
      ((λ e. cc), (λ e. cc))

abbrev an_iri : PossibleTypes
an_iri = record { e = ConstraintExpr.constraint ConstraintBaseRdfNodeType.iri }

abbrev any_type : PossibleTypes
any_type = record { e = ConstraintExpr.top }

conjunction_variable_type_loses_example :
    get "x" (conjunction_variable_type (("x", an_iri) ∷ []) (("x", any_type) ∷ [])) ≡ none
unfolding distinct get contains_key
conjunction_variable_type_loses_example =
    conjunction_variable_type_loses "x" (("x", an_iri) ∷ []) (("x", any_type) ∷ []) an_iri any_type
      refl refl refl

-- `?s ?p ?o`
abbrev triple : TriplePattern
triple = record {
  subject = TermPattern.variable "s";
  predicate = NamedNodePattern.variable "p";
  object = TermPattern.variable "o";
}

add_patterns_pushdowns-IsResource_example :
    IsResource (add_patterns_pushdowns known (triple ∷ [])).variables_type_constraints "p"
unfolding in_resource_position
add_patterns_pushdowns-IsResource_example =
    add_patterns_pushdowns-IsResource known (triple ∷ []) "p" (inl refl)

-- VALUES (?x ?y) { (<a> UNDEF) } below a projection
abbrev given : GraphPattern
given =
    GraphPattern.project
      (GraphPattern.join (GraphPattern.bgp []) (
        GraphPattern.values ("x" ∷ "y" ∷ []) ((some (GroundTerm.named_node "a") ∷ none ∷ []) ∷ [])))
      ("x" ∷ [])

add_graph_pattern_pushdowns_lem_example :
    (next : Pushdowns) × (add_graph_pattern_pushdowns known given ≡ some next)
unfolding has_full_rows full_rows
add_graph_pattern_pushdowns_lem_example = add_graph_pattern_pushdowns_lem known given refl
