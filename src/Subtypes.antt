-- ===== src/Subtypes.antt =====
-- lib/representation/src/subtypes.rs: which literal datatypes are subtypes of which.
pub mod Hierarchy
pub mod Table
pub mod Decides
use maplib.Prelude.{Bool, true, false, ◌||◌, ◌==◌, if◌then◌else◌}
use maplib.Algebra.{NamedNode}
use maplib.Vocabulary.Xsd
use maplib.Vocabulary.Rdfs
use maplib.Vocabulary.Owl

unfoldable pub xsd_short_subtype : NamedNode → Bool
xsd_short_subtype s = s == Xsd.byte

unfoldable pub xsd_int_subtype : NamedNode → Bool
unfolding xsd_short_subtype
xsd_int_subtype s = (s == Xsd.short) || xsd_short_subtype s

unfoldable pub xsd_long_subtype : NamedNode → Bool
unfolding xsd_int_subtype
xsd_long_subtype s = (s == Xsd.int) || xsd_int_subtype s

unfoldable pub xsd_unsigned_short_subtype : NamedNode → Bool
xsd_unsigned_short_subtype s = s == Xsd.unsigned_byte

unfoldable pub xsd_unsigned_int_subtype : NamedNode → Bool
unfolding xsd_unsigned_short_subtype
xsd_unsigned_int_subtype s = (s == Xsd.unsigned_short) || xsd_unsigned_short_subtype s

unfoldable pub xsd_unsigned_long_subtype : NamedNode → Bool
unfolding xsd_unsigned_int_subtype
xsd_unsigned_long_subtype s = (s == Xsd.unsigned_int) || xsd_unsigned_int_subtype s

unfoldable pub xsd_positive_integer_subtype : NamedNode → Bool
unfolding xsd_unsigned_long_subtype
xsd_positive_integer_subtype s = (s == Xsd.unsigned_long) || xsd_unsigned_long_subtype s

unfoldable pub xsd_non_negative_integer_subtype : NamedNode → Bool
unfolding xsd_positive_integer_subtype
xsd_non_negative_integer_subtype s = (s == Xsd.positive_integer) || xsd_positive_integer_subtype s

unfoldable pub xsd_non_positive_integer_subtype : NamedNode → Bool
xsd_non_positive_integer_subtype s = s == Xsd.negative_integer

unfoldable pub xsd_integer_subtype : NamedNode → Bool
unfolding xsd_long_subtype xsd_non_negative_integer_subtype xsd_non_positive_integer_subtype
xsd_integer_subtype s =
    ((s == Xsd.long) || ((s == Xsd.non_negative_integer) || (s == Xsd.non_positive_integer)))
    || (xsd_long_subtype s
        || (xsd_non_negative_integer_subtype s || xsd_non_positive_integer_subtype s))

unfoldable pub xsd_double_subtype : NamedNode → Bool
xsd_double_subtype s = s == Xsd.float

unfoldable pub xsd_decimal_subtype : NamedNode → Bool
unfolding xsd_integer_subtype
xsd_decimal_subtype s = (s == Xsd.integer) || xsd_integer_subtype s

unfoldable pub owl_rational_subtype : NamedNode → Bool
unfolding xsd_decimal_subtype
owl_rational_subtype s = (s == Xsd.decimal) || xsd_decimal_subtype s

unfoldable pub owl_real_subtype : NamedNode → Bool
unfolding owl_rational_subtype
owl_real_subtype s = (s == Owl.rational) || owl_rational_subtype s

-- the `match t { … }` at the end of `is_literal_subtype`
unfoldable pub match_subtype : NamedNode → NamedNode → Bool
match_subtype s t =
    if t == Xsd.decimal
    then xsd_decimal_subtype s
    else if t == Xsd.double
    then xsd_double_subtype s
    else if t == Xsd.integer
    then xsd_integer_subtype s
    else if t == Xsd.long
    then xsd_long_subtype s
    else if t == Xsd.int
    then xsd_int_subtype s
    else if t == Xsd.short
    then xsd_short_subtype s
    else if t == Xsd.non_negative_integer
    then xsd_non_negative_integer_subtype s
    else if t == Xsd.positive_integer
    then xsd_positive_integer_subtype s
    else if t == Xsd.unsigned_long
    then xsd_unsigned_long_subtype s
    else if t == Xsd.unsigned_int
    then xsd_unsigned_int_subtype s
    else if t == Xsd.unsigned_short
    then xsd_unsigned_short_subtype s
    else if t == Xsd.non_positive_integer
    then xsd_non_positive_integer_subtype s
    else if t == Xsd.duration
    then (s == Xsd.year_month_duration) || (s == Xsd.day_time_duration)
    else if t == Xsd.date_time
    then s == Xsd.date_time_stamp
    else false

-- `s` is a literal subtype of `t`
unfoldable pub is_literal_subtype : NamedNode → NamedNode → Bool
unfolding owl_real_subtype xsd_double_subtype match_subtype
is_literal_subtype s t =
    if (s == t) || (t == Rdfs.literal)
    then true
    else if t == Owl.real
    then owl_real_subtype s
    else if t == Owl.rational
    then owl_rational_subtype s
    else match_subtype s t
