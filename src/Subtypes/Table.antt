-- ===== src/Subtypes/Table.antt =====
-- `is_literal_subtype` as a table, and the way from the hierarchy to it.
use maplib.Prelude.{
  ◌≡◌, refl, ◌∙◌, sym, subst, Bool, true, false, not, ◌||◌, ◌&&◌, ◌==◌, arith, eq_iff, eq_refl,
  eq-true, inl, inr, if◌then◌else◌, Bool-cases, List, [], ◌∷◌,
}
use maplib.Algebra.{NamedNode}
use maplib.Vocabulary.Xsd
use maplib.Vocabulary.Rdfs
use maplib.Vocabulary.Owl
use maplib.Subtypes.Hierarchy.{Direct, Reaches}
use maplib.Subtypes.{
  xsd_short_subtype, xsd_int_subtype, xsd_long_subtype, xsd_unsigned_short_subtype,
  xsd_unsigned_int_subtype, xsd_unsigned_long_subtype, xsd_positive_integer_subtype,
  xsd_non_negative_integer_subtype, xsd_non_positive_integer_subtype, xsd_integer_subtype,
  xsd_double_subtype, xsd_decimal_subtype, owl_rational_subtype, owl_real_subtype,
  is_literal_subtype,
}

-- The tests of `is_literal_subtype` as a table: the supertype, and whether `s` is below it.
abbrev pub arms : NamedNode → List (NamedNode × Bool)
arms s =
    (Owl.real, owl_real_subtype s)
    ∷ (Owl.rational, owl_rational_subtype s)
    ∷ (Xsd.decimal, xsd_decimal_subtype s)
    ∷ (Xsd.double, xsd_double_subtype s)
    ∷ (Xsd.integer, xsd_integer_subtype s)
    ∷ (Xsd.long, xsd_long_subtype s)
    ∷ (Xsd.int, xsd_int_subtype s)
    ∷ (Xsd.short, xsd_short_subtype s)
    ∷ (Xsd.non_negative_integer, xsd_non_negative_integer_subtype s)
    ∷ (Xsd.positive_integer, xsd_positive_integer_subtype s)
    ∷ (Xsd.unsigned_long, xsd_unsigned_long_subtype s)
    ∷ (Xsd.unsigned_int, xsd_unsigned_int_subtype s)
    ∷ (Xsd.unsigned_short, xsd_unsigned_short_subtype s)
    ∷ (Xsd.non_positive_integer, xsd_non_positive_integer_subtype s)
    ∷ (Xsd.duration, (s == Xsd.year_month_duration) || (s == Xsd.day_time_duration))
    ∷ (Xsd.date_time, s == Xsd.date_time_stamp)
    ∷ []

abbrev pub ladder : NamedNode → List (NamedNode × Bool) → Bool
ladder t [] = false
ladder t ((k, b) ∷ rest) = if t == k then b else ladder t rest

pub is_literal_subtype-ladder :
    (s t : NamedNode)
    → is_literal_subtype s t ≡ (if (s == t) || (t == Rdfs.literal) then true else ladder t (arms s))
unfolding is_literal_subtype
is_literal_subtype-ladder s t = refl

-- every entry of the second table that passes, passes in the first
below : List (NamedNode × Bool) → List (NamedNode × Bool) → Bool
below [] [] = true
below ((k, b) ∷ r) ((j, c) ∷ q) = (k == j) && ((b || not c) && below r q)
below _ _ = false

ladder_mono :
    (t : NamedNode) (r q : List (NamedNode × Bool))
    → below r q ≡ true
    → ladder t q ≡ true
    → ladder t r ≡ true
unfolding below
ladder_mono t [] [] h l = l
ladder_mono t [] (j ∷ q) h l = cc
ladder_mono t (k ∷ r) [] h l = cc
ladder_mono t ((k, b) ∷ r) ((j, c) ∷ q) h l = ground (arith, eq_iff k j, ladder_mono t r q)

-- Along a direct edge: the lower one is below all that the upper one is below.
edge_below : {s u : NamedNode} → Direct s u → below (arms s) (arms u) ≡ true
unfolding is_literal_subtype below
edge_below Direct.rational = refl
edge_below Direct.decimal = refl
edge_below Direct.integer = refl
edge_below Direct.float = refl
edge_below Direct.long = refl
edge_below Direct.non_negative_integer = refl
edge_below Direct.non_positive_integer = refl
edge_below Direct.int = refl
edge_below Direct.short = refl
edge_below Direct.byte = refl
edge_below Direct.positive_integer = refl
edge_below Direct.unsigned_long = refl
edge_below Direct.unsigned_int = refl
edge_below Direct.unsigned_short = refl
edge_below Direct.unsigned_byte = refl
edge_below Direct.negative_integer = refl
edge_below Direct.year_month_duration = refl
edge_below Direct.day_time_duration = refl
edge_below Direct.date_time_stamp = refl

edge_direct : {s u : NamedNode} → Direct s u → is_literal_subtype s u ≡ true
unfolding is_literal_subtype
edge_direct Direct.rational = refl
edge_direct Direct.decimal = refl
edge_direct Direct.integer = refl
edge_direct Direct.float = refl
edge_direct Direct.long = refl
edge_direct Direct.non_negative_integer = refl
edge_direct Direct.non_positive_integer = refl
edge_direct Direct.int = refl
edge_direct Direct.short = refl
edge_direct Direct.byte = refl
edge_direct Direct.positive_integer = refl
edge_direct Direct.unsigned_long = refl
edge_direct Direct.unsigned_int = refl
edge_direct Direct.unsigned_short = refl
edge_direct Direct.unsigned_byte = refl
edge_direct Direct.negative_integer = refl
edge_direct Direct.year_month_duration = refl
edge_direct Direct.day_time_duration = refl
edge_direct Direct.date_time_stamp = refl

step_complete :
    (s u t : NamedNode) → Direct s u → is_literal_subtype u t ≡ true → is_literal_subtype s t ≡ true
step_complete s u t d h = elim (Bool-cases (u == t)) [
  | inl e ↦ subst (λ k. is_literal_subtype s k ≡ true) (eq-true u t e) (edge_direct d)
  | inr e ↦
      is_literal_subtype-ladder s t
      ∙ ground (
        arith,
        sym (is_literal_subtype-ladder u t) ∙ h,
        e,
        ladder_mono t (arms s) (arms u) (edge_below d),
      )
]

pub subtype_complete : (t s : NamedNode) → Reaches t s → is_literal_subtype s t ≡ true
subtype_complete t s Reaches.same = is_literal_subtype-ladder t t ∙ rw eq_refl
subtype_complete t s (Reaches.top e) =
    is_literal_subtype-ladder s t ∙ ground (arith, eq_iff t Rdfs.literal)
subtype_complete t s (Reaches.up {u = u} d r) = step_complete s u t d (subtype_complete t u r)
