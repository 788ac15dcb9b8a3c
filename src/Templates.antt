-- ===== src/Templates.antt =====
-- lib/templates/src/ast.rs and subtypes_ext.rs: OTTR templates and the types of their parameters.
pub mod Inference
pub mod Steps
pub mod Explained
pub mod Fits
pub mod OneChange
use Prim.Native.Nat.{Ordering}
use Prim.Native.String.{compare}
use maplib.Prelude.{
  ℕ, String, Bool, true, false, not, ◌&&◌, ◌||◌, ◌==◌, List, [], ◌∷◌, Option, if◌then◌else◌,
}
use maplib.Algebra.{BlankNode, Literal, NamedNode, Variable}
use maplib.Subtypes.{is_literal_subtype}
use maplib.Vocabulary.Rdfs

abbrev pub ottr_iri : String
ottr_iri = "http://ns.ottr.xyz/0.4/IRI"

abbrev pub ottr_blank_node : String
ottr_blank_node = "http://ns.ottr.xyz/0.4/BlankNode"

pub data PType : Type 0 where
  untyped : PType
  basic : NamedNode → PType
  lub_of list ne_list : PType → PType

-- the derived equality
unfoldable pub ptype_eq : PType → PType → Bool
ptype_eq PType.untyped PType.untyped = true
ptype_eq (PType.basic n) (PType.basic m) = n == m
ptype_eq (PType.lub_of a) (PType.lub_of b) = ptype_eq a b
ptype_eq (PType.list a) (PType.list b) = ptype_eq a b
ptype_eq (PType.ne_list a) (PType.ne_list b) = ptype_eq a b
ptype_eq _ _ = false

-- the derived order: by the variants, in the order of their declaration, and then by the fields
unfoldable pub ptype_cmp : PType → PType → Ordering
ptype_cmp PType.untyped PType.untyped = Ordering.eq
ptype_cmp PType.untyped b = Ordering.lt
ptype_cmp (PType.basic n) PType.untyped = Ordering.gt
ptype_cmp (PType.basic n) (PType.basic m) = compare n m
ptype_cmp (PType.basic n) b = Ordering.lt
ptype_cmp (PType.lub_of a) PType.untyped = Ordering.gt
ptype_cmp (PType.lub_of a) (PType.basic m) = Ordering.gt
ptype_cmp (PType.lub_of a) (PType.lub_of b) = ptype_cmp a b
ptype_cmp (PType.lub_of a) b = Ordering.lt
ptype_cmp (PType.list a) (PType.list b) = ptype_cmp a b
ptype_cmp (PType.list a) (PType.ne_list b) = Ordering.lt
ptype_cmp (PType.list a) b = Ordering.gt
ptype_cmp (PType.ne_list a) (PType.ne_list b) = ptype_cmp a b
ptype_cmp (PType.ne_list a) b = Ordering.gt

-- `min`, which takes the first of equal values
unfoldable pub min : PType → PType → PType
unfolding ptype_cmp
min left right = elim (ptype_cmp left right) [
  | Ordering.lt ↦ left
  | Ordering.eq ↦ left
  | Ordering.gt ↦ right
]

unfoldable pub ptype_is_iri : NamedNode → Bool
ptype_is_iri nn =
    if (nn == ottr_iri)
      || ((nn == "http://www.w3.org/2002/07/owl#Class")
          || ((nn == "http://www.w3.org/2002/07/owl#NamedIndividual")
              || ((nn == "http://www.w3.org/2002/07/owl#ObjectProperty")
                  || ((nn == "http://www.w3.org/2002/07/owl#DatatypeProperty")
                      || (nn == "http://www.w3.org/2002/07/owl#AnnotationProperty")))))
    then true
    else (nn == Rdfs.class) || (nn == Rdfs.datatype)

unfoldable pub ptype_is_blank : NamedNode → Bool
ptype_is_blank nn = nn == ottr_blank_node

unfoldable pub ptype_is_possibly_literal : NamedNode → Bool
unfolding ptype_is_blank ptype_is_iri
ptype_is_possibly_literal nn = not (ptype_is_blank nn) && not (ptype_is_iri nn)

unfoldable pub is_literal_subtype_ext : NamedNode → NamedNode → Bool
unfolding ptype_is_possibly_literal is_literal_subtype
is_literal_subtype_ext s t =
    if not (ptype_is_possibly_literal s) || not (ptype_is_possibly_literal t)
    then false
    else is_literal_subtype s t

unfoldable pub is_iri : PType → Bool
unfolding ptype_is_iri
is_iri (PType.basic t) = ptype_is_iri t
is_iri t = false

unfoldable pub is_blank_node : PType → Bool
unfolding ptype_is_blank
is_blank_node (PType.basic t) = ptype_is_blank t
is_blank_node t = false

pub data ConstantTerm : Type 0 where
  iri : NamedNode → ConstantTerm
  blank_node : BlankNode → ConstantTerm
  literal : Literal → ConstantTerm
  nothing : ConstantTerm

mutual
  pub data ConstantTermOrList : Type 0 where
    constant_term : ConstantTerm → ConstantTermOrList
    constant_list : ConstantTerms → ConstantTermOrList

  pub data ConstantTerms : Type 0 where
    no_constant : ConstantTerms
    constant : ConstantTermOrList → ConstantTerms → ConstantTerms

mutual
  pub data StottrTerm : Type 0 where
    variable : Variable → StottrTerm
    constant_term : ConstantTermOrList → StottrTerm
    list : StottrTerms → StottrTerm

  pub data StottrTerms : Type 0 where
    no_term : StottrTerms
    term : StottrTerm → StottrTerms → StottrTerms

pub data ListExpanderType : Type 0 where
  cross zip_min zip_max : ListExpanderType

pub record Argument : Type 0 where
  pub list_expand : Bool
  pub term : StottrTerm

pub record Instance : Type 0 where
  pub list_expander : Option ListExpanderType
  pub template_iri : NamedNode
  pub argument_list : List Argument

pub record Annotation : Type 0 where
  pub instantiated : Instance

pub record Parameter : Type 0 where
  pub optional : Bool
  pub non_blank : Bool
  pub ptype : Option PType
  pub name : Variable
  pub default_value : Option ConstantTermOrList

pub record Signature : Type 0 where
  pub iri : NamedNode
  pub parameter_list : List Parameter
  pub annotation_list : Option (List Annotation)

pub record Template : Type 0 where
  pub signature : Signature
  pub pattern_list : List Instance
