-- ===== src/Subtypes/Decides.antt =====
-- From `is_literal_subtype` to the hierarchy, and the two compared.
use maplib.Prelude.{
  ◌≡◌, ◌∙◌, sym, subst, Bool, true, ◌||◌, ◌==◌, arith, eq-true, or-cases, inl, inr, ◌↔◌, Bool-cases,
  List, [], ◌∷◌,
}
use maplib.Algebra.{NamedNode}
use maplib.Vocabulary.Xsd
use maplib.Vocabulary.Rdfs
use maplib.Vocabulary.Owl
use maplib.Subtypes.Hierarchy.{Direct, Reaches, climb, leaf}
use maplib.Subtypes.Table.{arms, ladder, is_literal_subtype-ladder, subtype_complete}
use maplib.Subtypes.{
  xsd_short_subtype, xsd_int_subtype, xsd_long_subtype, xsd_unsigned_short_subtype,
  xsd_unsigned_int_subtype, xsd_unsigned_long_subtype, xsd_positive_integer_subtype,
  xsd_non_negative_integer_subtype, xsd_non_positive_integer_subtype, xsd_integer_subtype,
  xsd_double_subtype, xsd_decimal_subtype, owl_rational_subtype, owl_real_subtype,
  is_literal_subtype,
}

short_sound : (s : NamedNode) → xsd_short_subtype s ≡ true → Reaches Xsd.short s
unfolding xsd_short_subtype
short_sound s h = leaf s Direct.byte h

int_sound : (s : NamedNode) → xsd_int_subtype s ≡ true → Reaches Xsd.int s
unfolding xsd_int_subtype
int_sound s h = elim (or-cases _ _ h) [
  | inl e ↦ leaf s Direct.short e
  | inr r ↦ climb Direct.short (short_sound s r)
]

long_sound : (s : NamedNode) → xsd_long_subtype s ≡ true → Reaches Xsd.long s
unfolding xsd_long_subtype
long_sound s h = elim (or-cases _ _ h) [
  | inl e ↦ leaf s Direct.int e
  | inr r ↦ climb Direct.int (int_sound s r)
]

unsigned_short_sound :
    (s : NamedNode) → xsd_unsigned_short_subtype s ≡ true → Reaches Xsd.unsigned_short s
unfolding xsd_unsigned_short_subtype
unsigned_short_sound s h = leaf s Direct.unsigned_byte h

unsigned_int_sound :
    (s : NamedNode) → xsd_unsigned_int_subtype s ≡ true → Reaches Xsd.unsigned_int s
unfolding xsd_unsigned_int_subtype
unsigned_int_sound s h = elim (or-cases _ _ h) [
  | inl e ↦ leaf s Direct.unsigned_short e
  | inr r ↦ climb Direct.unsigned_short (unsigned_short_sound s r)
]

unsigned_long_sound :
    (s : NamedNode) → xsd_unsigned_long_subtype s ≡ true → Reaches Xsd.unsigned_long s
unfolding xsd_unsigned_long_subtype
unsigned_long_sound s h = elim (or-cases _ _ h) [
  | inl e ↦ leaf s Direct.unsigned_int e
  | inr r ↦ climb Direct.unsigned_int (unsigned_int_sound s r)
]

positive_integer_sound :
    (s : NamedNode) → xsd_positive_integer_subtype s ≡ true → Reaches Xsd.positive_integer s
unfolding xsd_positive_integer_subtype
positive_integer_sound s h = elim (or-cases _ _ h) [
  | inl e ↦ leaf s Direct.unsigned_long e
  | inr r ↦ climb Direct.unsigned_long (unsigned_long_sound s r)
]

non_negative_integer_sound :
    (s : NamedNode) → xsd_non_negative_integer_subtype s ≡ true → Reaches Xsd.non_negative_integer s
unfolding xsd_non_negative_integer_subtype
non_negative_integer_sound s h = elim (or-cases _ _ h) [
  | inl e ↦ leaf s Direct.positive_integer e
  | inr r ↦ climb Direct.positive_integer (positive_integer_sound s r)
]

non_positive_integer_sound :
    (s : NamedNode) → xsd_non_positive_integer_subtype s ≡ true → Reaches Xsd.non_positive_integer s
unfolding xsd_non_positive_integer_subtype
non_positive_integer_sound s h = leaf s Direct.negative_integer h

integer_sound : (s : NamedNode) → xsd_integer_subtype s ≡ true → Reaches Xsd.integer s
unfolding xsd_integer_subtype
integer_sound s h = elim (or-cases _ _ h) [
  | inl named ↦ elim (or-cases _ _ named) [
    | inl e ↦ leaf s Direct.long e
    | inr e ↦ elim (or-cases _ _ e) [
      | inl n ↦ leaf s Direct.non_negative_integer n
      | inr n ↦ leaf s Direct.non_positive_integer n
    ]
  ]
  | inr deeper ↦ elim (or-cases _ _ deeper) [
    | inl r ↦ climb Direct.long (long_sound s r)
    | inr r ↦ elim (or-cases _ _ r) [
      | inl n ↦ climb Direct.non_negative_integer (non_negative_integer_sound s n)
      | inr n ↦ climb Direct.non_positive_integer (non_positive_integer_sound s n)
    ]
  ]
]

double_sound : (s : NamedNode) → xsd_double_subtype s ≡ true → Reaches Xsd.double s
unfolding xsd_double_subtype
double_sound s h = leaf s Direct.float h

decimal_sound : (s : NamedNode) → xsd_decimal_subtype s ≡ true → Reaches Xsd.decimal s
unfolding xsd_decimal_subtype
decimal_sound s h = elim (or-cases _ _ h) [
  | inl e ↦ leaf s Direct.integer e
  | inr r ↦ climb Direct.integer (integer_sound s r)
]

rational_sound : (s : NamedNode) → owl_rational_subtype s ≡ true → Reaches Owl.rational s
unfolding owl_rational_subtype
rational_sound s h = elim (or-cases _ _ h) [
  | inl e ↦ leaf s Direct.decimal e
  | inr r ↦ climb Direct.decimal (decimal_sound s r)
]

real_sound : (s : NamedNode) → owl_real_subtype s ≡ true → Reaches Owl.real s
unfolding owl_real_subtype
real_sound s h = elim (or-cases _ _ h) [
  | inl e ↦ leaf s Direct.rational e
  | inr r ↦ climb Direct.rational (rational_sound s r)
]

duration_sound :
    (s : NamedNode)
    → ((s == Xsd.year_month_duration) || (s == Xsd.day_time_duration)) ≡ true
    → Reaches Xsd.duration s
duration_sound s h = elim (or-cases _ _ h) [
  | inl e ↦ leaf s Direct.year_month_duration e
  | inr e ↦ leaf s Direct.day_time_duration e
]

-- Each entry of a table that passes is reached.
abbrev Sound : NamedNode → List (NamedNode × Bool) → Type 0
Sound s [] = Unit
Sound s ((k, b) ∷ rest) = (b ≡ true → Reaches k s) × Sound s rest

ladder-Sound :
    (s t : NamedNode) (r : List (NamedNode × Bool)) → Sound s r → ladder t r ≡ true → Reaches t s
ladder-Sound s t [] h l = cc
ladder-Sound s t ((k, b) ∷ r) h l = elim (Bool-cases (t == k)) [
  | inl e ↦ subst (λ u. Reaches u s) (sym (eq-true t k e)) (h.0 (rw e at l))
  | inr e ↦ ladder-Sound s t r h.1 (rw e at l)
]

arms-Sound : (s : NamedNode) → Sound s (arms s)
arms-Sound s = (
  real_sound s,
  (
    rational_sound s,
    (
      decimal_sound s,
      (
        double_sound s,
        (
          integer_sound s,
          (
            long_sound s,
            (
              int_sound s,
              (
                short_sound s,
                (
                  non_negative_integer_sound s,
                  (
                    positive_integer_sound s,
                    (
                      unsigned_long_sound s,
                      (
                        unsigned_int_sound s,
                        (
                          unsigned_short_sound s,
                          (
                            non_positive_integer_sound s,
                            (duration_sound s, (leaf s Direct.date_time_stamp, tt)),
                          ),
                        ),
                      ),
                    ),
                  ),
                ),
              ),
            ),
          ),
        ),
      ),
    ),
  ),
)

subtype_sound : (s t : NamedNode) → is_literal_subtype s t ≡ true → Reaches t s
subtype_sound s t h = elim (Bool-cases (s == t)) [
  | inl e ↦ subst (λ u. Reaches t u) (sym (eq-true s t e)) Reaches.same
  | inr e ↦ elim (Bool-cases (t == Rdfs.literal)) [
    | inl l ↦ Reaches.top (eq-true t Rdfs.literal l)
    | inr l ↦
        ladder-Sound s t (arms s) (arms-Sound s)
          (ground (arith, sym (is_literal_subtype-ladder s t) ∙ h))
  ]
]

-- The test holds exactly for the subtypes that the edges generate, rdfs:Literal being above all.
pub is_literal_subtype_iff : (s t : NamedNode) → (is_literal_subtype s t ≡ true) ↔ Reaches t s
is_literal_subtype_iff s t = (subtype_sound s t, subtype_complete t s)
