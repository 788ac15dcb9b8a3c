-- ===== src/TriplesOrdering/Equality.antt =====
-- The derived equality of triple patterns.
use maplib.Prelude.{
  ◌≡◌, refl, ap, String, true, ◌&&◌, Option, none, some, arith, eq_refl, eq-true, ◌==◌,
}
use maplib.Algebra.{Literal, NamedNodePattern, TermPattern, TriplePattern}
use maplib.TriplesOrdering.{language_eq, predicate_eq, term_pattern_eq, triple_eq}

language_lem : (a b : Option String) → language_eq a b ≡ true → a ≡ b
unfolding language_eq
language_lem none none h = refl
language_lem none (some t) h = cc
language_lem (some s) none h = cc
language_lem (some s) (some t) h = ap some (eq-true s t h)

language_eq_refl : (a : Option String) → language_eq a a ≡ true
unfolding language_eq
language_eq_refl none = refl
language_eq_refl (some s) = eq_refl s

literal_lem :
    (l m : Literal)
    → ((l.value == m.value) && ((l.datatype == m.datatype) && language_eq l.language m.language))
      ≡ true
    → l ≡ m
literal_lem l m h = ground (
  arith,
  eq-true l.value m.value,
  eq-true l.datatype m.datatype,
  language_lem l.language m.language,
)

term_pattern_lem : (t u : TermPattern) → term_pattern_eq t u ≡ true → t ≡ u
unfolding term_pattern_eq
term_pattern_lem (TermPattern.named_node n) (TermPattern.named_node m) h =
    ap TermPattern.named_node (eq-true n m h)
term_pattern_lem (TermPattern.blank_node n) (TermPattern.blank_node m) h =
    ap TermPattern.blank_node (eq-true n m h)
term_pattern_lem (TermPattern.variable n) (TermPattern.variable m) h =
    ap TermPattern.variable (eq-true n m h)
term_pattern_lem (TermPattern.literal l) (TermPattern.literal m) h =
    ap TermPattern.literal (literal_lem l m h)
term_pattern_lem t u h = cc

term_pattern_eq_refl : (t : TermPattern) → term_pattern_eq t t ≡ true
unfolding term_pattern_eq
term_pattern_eq_refl (TermPattern.named_node n) = eq_refl n
term_pattern_eq_refl (TermPattern.blank_node n) = eq_refl n
term_pattern_eq_refl (TermPattern.variable n) = eq_refl n
term_pattern_eq_refl (TermPattern.literal l) =
    ground (arith, eq_refl l.value, eq_refl l.datatype, language_eq_refl l.language)

predicate_lem : (t u : NamedNodePattern) → predicate_eq t u ≡ true → t ≡ u
unfolding predicate_eq
predicate_lem (NamedNodePattern.named_node n) (NamedNodePattern.named_node m) h =
    ap NamedNodePattern.named_node (eq-true n m h)
predicate_lem (NamedNodePattern.variable n) (NamedNodePattern.variable m) h =
    ap NamedNodePattern.variable (eq-true n m h)
predicate_lem (NamedNodePattern.named_node n) (NamedNodePattern.variable m) h = cc
predicate_lem (NamedNodePattern.variable n) (NamedNodePattern.named_node m) h = cc

predicate_eq_refl : (t : NamedNodePattern) → predicate_eq t t ≡ true
unfolding predicate_eq
predicate_eq_refl (NamedNodePattern.named_node n) = eq_refl n
predicate_eq_refl (NamedNodePattern.variable n) = eq_refl n

pub triple_lem : (t u : TriplePattern) → triple_eq t u ≡ true → t ≡ u
unfolding triple_eq
triple_lem t u h = ground (
  arith,
  term_pattern_lem t.subject u.subject,
  predicate_lem t.predicate u.predicate,
  term_pattern_lem t.object u.object,
)

pub triple_eq_refl : (t : TriplePattern) → triple_eq t t ≡ true
unfolding triple_eq
triple_eq_refl t = ground (
  arith,
  term_pattern_eq_refl t.subject,
  predicate_eq_refl t.predicate,
  term_pattern_eq_refl t.object,
)
