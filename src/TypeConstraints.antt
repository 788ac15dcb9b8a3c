-- ===== src/TypeConstraints.antt =====
-- lib/query_processing/src/type_constraints.rs: which types of nodes a variable can have, as far as a
-- filter or a pattern restricts them. A panic of the source is `none`.
pub mod Meaning
pub mod Lost
use maplib.Prelude.{
  Bool, true, false, Option, none, some, String, List, [], ◌∷◌, ◌==◌, ◌||◌, if◌then◌else◌,
}
use maplib.Prelude.Maps.{get, put, remove, extend}
use maplib.Algebra.{Expression, Function, NamedNode, Variable}
use maplib.NodeTypes.{BaseRdfNodeType}
use maplib.Subtypes.{is_literal_subtype}
use maplib.Vocabulary.Xsd
use maplib.Vocabulary.Owl

pub data ConstraintBaseRdfNodeType : Type 0 where
  iri blank_node : ConstraintBaseRdfNodeType
  literal : NamedNode → ConstraintBaseRdfNodeType
  no_type : ConstraintBaseRdfNodeType

unfoldable pub from_base : BaseRdfNodeType → ConstraintBaseRdfNodeType
from_base BaseRdfNodeType.iri = ConstraintBaseRdfNodeType.iri
from_base BaseRdfNodeType.blank_node = ConstraintBaseRdfNodeType.blank_node
from_base (BaseRdfNodeType.literal l) = ConstraintBaseRdfNodeType.literal l
from_base BaseRdfNodeType.no_type = ConstraintBaseRdfNodeType.no_type

-- `unreachable!` is `none`
unfoldable pub bt_as_constrained : BaseRdfNodeType → Option ConstraintBaseRdfNodeType
bt_as_constrained BaseRdfNodeType.iri = some ConstraintBaseRdfNodeType.iri
bt_as_constrained BaseRdfNodeType.blank_node = some ConstraintBaseRdfNodeType.blank_node
bt_as_constrained (BaseRdfNodeType.literal l) = some (ConstraintBaseRdfNodeType.literal l)
bt_as_constrained BaseRdfNodeType.no_type = none

pub data ConstraintExpr : Type 0 where
  bottom top : ConstraintExpr
  constraint : ConstraintBaseRdfNodeType → ConstraintExpr
  and or : ConstraintExpr → ConstraintExpr → ConstraintExpr

-- the arm of `compatible_with` for a single constraint; `panic!("Invalid state")` is `none`
unfoldable pub compatible_base : ConstraintBaseRdfNodeType → ConstraintBaseRdfNodeType → Option Bool
compatible_base ConstraintBaseRdfNodeType.iri ConstraintBaseRdfNodeType.iri = some true
compatible_base ConstraintBaseRdfNodeType.iri t = some false
compatible_base ConstraintBaseRdfNodeType.blank_node ConstraintBaseRdfNodeType.blank_node =
    some true
compatible_base ConstraintBaseRdfNodeType.blank_node t = some false
compatible_base (ConstraintBaseRdfNodeType.literal l_ctr) (ConstraintBaseRdfNodeType.literal l) =
    some (is_literal_subtype l l_ctr)
compatible_base (ConstraintBaseRdfNodeType.literal l_ctr) t = some false
compatible_base ConstraintBaseRdfNodeType.no_type t = none

-- `&&` and `||` look at the right side only where the left one leaves the answer open
abbrev pub and_then : Option Bool → Option Bool → Option Bool
and_then none r = none
and_then (some true) r = r
and_then (some false) r = some false

abbrev pub or_else : Option Bool → Option Bool → Option Bool
or_else none r = none
or_else (some true) r = some true
or_else (some false) r = r

unfoldable pub compatible_with : ConstraintExpr → ConstraintBaseRdfNodeType → Option Bool
unfolding compatible_base
compatible_with ConstraintExpr.bottom t = some false
compatible_with ConstraintExpr.top t = some true
compatible_with (ConstraintExpr.constraint c) t = compatible_base c t
compatible_with (ConstraintExpr.and left right) t =
    and_then (compatible_with left t) (compatible_with right t)
compatible_with (ConstraintExpr.or left right) t =
    or_else (compatible_with left t) (compatible_with right t)

-- The source's field is an Option that is taken out and put back within one call and is Some
-- between calls.
pub record PossibleTypes : Type 0 where
  pub e : ConstraintExpr

unfoldable pub singular_ctr : ConstraintExpr → PossibleTypes
singular_ctr ctr = record { e = ctr }

unfoldable pub singular : ConstraintBaseRdfNodeType → PossibleTypes
unfolding singular_ctr
singular t = singular_ctr (ConstraintExpr.constraint t)

unfoldable pub and_ctr : PossibleTypes → ConstraintExpr → PossibleTypes
and_ctr self ctr = record { e = ConstraintExpr.and self.e ctr }

unfoldable pub and_other : PossibleTypes → PossibleTypes → PossibleTypes
and_other self other = record { e = ConstraintExpr.and self.e other.e }

unfoldable pub or_other : PossibleTypes → PossibleTypes → PossibleTypes
or_other self other = record { e = ConstraintExpr.or self.e other.e }

-- the loop of `conjunction_variable_type` over the drained left map: where both sides know the
-- variable, `v.and_other(vr)` updates the drained value and nothing is inserted
unfoldable pub conjunction_types_loop :
    List (String × PossibleTypes)
    → List (String × PossibleTypes)
    → List (String × PossibleTypes)
    → List (String × PossibleTypes)
conjunction_types_loop [] right new_map = extend new_map right
conjunction_types_loop ((k, v) ∷ left) right new_map = elim (get k right) [
  | some vr ↦ conjunction_types_loop left (remove k right) new_map
  | none ↦ conjunction_types_loop left right (put k v new_map)
]

unfoldable pub conjunction_variable_type :
    List (String × PossibleTypes) → List (String × PossibleTypes) → List (String × PossibleTypes)
unfolding conjunction_types_loop
conjunction_variable_type left right = conjunction_types_loop left right []

-- the datatypes that a cast function names
unfoldable pub is_cast : NamedNode → Bool
is_cast nn =
    (nn == Xsd.int)
    || ((nn == Xsd.long)
        || ((nn == Xsd.integer)
            || ((nn == Xsd.boolean)
                || ((nn == Xsd.unsigned_long)
                    || ((nn == Xsd.unsigned_int)
                        || ((nn == Xsd.unsigned_short)
                            || ((nn == Xsd.unsigned_byte)
                                || ((nn == Xsd.decimal)
                                    || ((nn == Xsd.double)
                                        || ((nn == Xsd.float) || ((nn == Xsd.string))))))))))))

unfoldable pub get_function_rdf_type : Function → Option ConstraintBaseRdfNodeType
unfolding is_cast
get_function_rdf_type Function.str = some (ConstraintBaseRdfNodeType.literal Xsd.string)
get_function_rdf_type Function.str_before = some (ConstraintBaseRdfNodeType.literal Xsd.string)
get_function_rdf_type Function.str_after = some (ConstraintBaseRdfNodeType.literal Xsd.string)
get_function_rdf_type Function.datatype = some ConstraintBaseRdfNodeType.iri
get_function_rdf_type Function.iri = some ConstraintBaseRdfNodeType.iri
get_function_rdf_type Function.bnode = some ConstraintBaseRdfNodeType.blank_node
get_function_rdf_type Function.contains = some (ConstraintBaseRdfNodeType.literal Xsd.boolean)
get_function_rdf_type Function.regex = some (ConstraintBaseRdfNodeType.literal Xsd.boolean)
get_function_rdf_type Function.lang_matches = some (ConstraintBaseRdfNodeType.literal Xsd.boolean)
get_function_rdf_type Function.str_starts = some (ConstraintBaseRdfNodeType.literal Xsd.boolean)
get_function_rdf_type Function.str_ends = some (ConstraintBaseRdfNodeType.literal Xsd.boolean)
get_function_rdf_type Function.is_iri = some (ConstraintBaseRdfNodeType.literal Xsd.boolean)
get_function_rdf_type Function.is_blank = some (ConstraintBaseRdfNodeType.literal Xsd.boolean)
get_function_rdf_type Function.is_literal = some (ConstraintBaseRdfNodeType.literal Xsd.boolean)
get_function_rdf_type Function.is_numeric = some (ConstraintBaseRdfNodeType.literal Xsd.boolean)
get_function_rdf_type Function.year = some (ConstraintBaseRdfNodeType.literal Xsd.unsigned_int)
get_function_rdf_type Function.month = some (ConstraintBaseRdfNodeType.literal Xsd.unsigned_int)
get_function_rdf_type Function.day = some (ConstraintBaseRdfNodeType.literal Xsd.unsigned_int)
get_function_rdf_type Function.hours = some (ConstraintBaseRdfNodeType.literal Xsd.unsigned_int)
get_function_rdf_type Function.minutes = some (ConstraintBaseRdfNodeType.literal Xsd.unsigned_int)
get_function_rdf_type Function.seconds = some (ConstraintBaseRdfNodeType.literal Xsd.unsigned_int)
get_function_rdf_type (Function.custom nn) =
    if is_cast nn then some (ConstraintBaseRdfNodeType.literal nn) else none
get_function_rdf_type f = none

unfoldable pub get_expression_rdf_type : Expression → Option ConstraintBaseRdfNodeType
unfolding get_function_rdf_type
get_expression_rdf_type (Expression.named_node n) = some ConstraintBaseRdfNodeType.iri
get_expression_rdf_type (Expression.literal l) = some (ConstraintBaseRdfNodeType.literal l.datatype)
get_expression_rdf_type (Expression.or l r) = some (ConstraintBaseRdfNodeType.literal Xsd.boolean)
get_expression_rdf_type (Expression.and l r) = some (ConstraintBaseRdfNodeType.literal Xsd.boolean)
get_expression_rdf_type (Expression.equal l r) =
    some (ConstraintBaseRdfNodeType.literal Xsd.boolean)
get_expression_rdf_type (Expression.same_term l r) =
    some (ConstraintBaseRdfNodeType.literal Xsd.boolean)
get_expression_rdf_type (Expression.greater l r) =
    some (ConstraintBaseRdfNodeType.literal Xsd.boolean)
get_expression_rdf_type (Expression.greater_or_equal l r) =
    some (ConstraintBaseRdfNodeType.literal Xsd.boolean)
get_expression_rdf_type (Expression.less l r) = some (ConstraintBaseRdfNodeType.literal Xsd.boolean)
get_expression_rdf_type (Expression.less_or_equal l r) =
    some (ConstraintBaseRdfNodeType.literal Xsd.boolean)
get_expression_rdf_type (Expression.is_in l rs) =
    some (ConstraintBaseRdfNodeType.literal Xsd.boolean)
get_expression_rdf_type (Expression.not e) = some (ConstraintBaseRdfNodeType.literal Xsd.boolean)
get_expression_rdf_type (Expression.exists gp) =
    some (ConstraintBaseRdfNodeType.literal Xsd.boolean)
get_expression_rdf_type (Expression.bound v) = some (ConstraintBaseRdfNodeType.literal Xsd.boolean)
get_expression_rdf_type (Expression.add l r) = some (ConstraintBaseRdfNodeType.literal Owl.real)
get_expression_rdf_type (Expression.subtract l r) =
    some (ConstraintBaseRdfNodeType.literal Owl.real)
get_expression_rdf_type (Expression.multiply l r) =
    some (ConstraintBaseRdfNodeType.literal Owl.real)
get_expression_rdf_type (Expression.divide l r) = some (ConstraintBaseRdfNodeType.literal Owl.real)
get_expression_rdf_type (Expression.unary_plus e) =
    some (ConstraintBaseRdfNodeType.literal Owl.real)
get_expression_rdf_type (Expression.unary_minus e) =
    some (ConstraintBaseRdfNodeType.literal Owl.real)
get_expression_rdf_type (Expression.function_call f args) = get_function_rdf_type f
get_expression_rdf_type e = none

unfoldable pub equal_variable_type :
    Expression → Expression → Option (Variable × ConstraintBaseRdfNodeType)
unfolding get_expression_rdf_type
equal_variable_type (Expression.variable v) b = elim (get_expression_rdf_type b) [
  | some t ↦ some (v, t)
  | none ↦ none
]
equal_variable_type a b = none
