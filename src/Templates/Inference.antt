-- ===== src/Templates/Inference.antt =====
-- lib/templates/src/dataset.rs: the inference of the types of a template's parameters from the
-- templates that it uses. An error keeps the types and names that the source prints into it.
use maplib.Prelude.{
  ℕ, String, Bool, true, false, not, ◌&&◌, ◌||◌, ◌==◌, List, [], ◌∷◌, Option, none, some,
  if◌then◌else◌, nat_eq, length,
}
use maplib.Prelude.Maps.{get}
use maplib.Algebra.{NamedNode, Variable}
use maplib.Templates.{
  Argument, Instance, PType, Parameter, StottrTerm, Template, is_iri, is_literal_subtype_ext, min,
  ptype_eq,
}
use maplib.Vocabulary.Rdfs

pub data TemplateError : Type 0 where
  template_not_found : NamedNode → NamedNode → TemplateError
  inconsistent_number_of_arguments : NamedNode → NamedNode → ℕ → ℕ → TemplateError
  incompatible_types : NamedNode → Variable → PType → PType → TemplateError

pub data Outcome (A : Type 0) : Type 0 where
  ok : A → Outcome A
  err : TemplateError → Outcome A

-- the `?` operator
abbrev pub then_ok : {A B : Type 0} → Outcome A → (A → Outcome B) → Outcome B
then_ok (Outcome.ok a) f = f a
then_ok (Outcome.err e) f = Outcome.err e

-- the test on two basic types that are not equal and not both IRIs
unfoldable pub basics_compatible : NamedNode → NamedNode → Bool
unfolding is_literal_subtype_ext
basics_compatible left right =
    (left == Rdfs.resource)
    || ((right == Rdfs.resource)
        || (is_literal_subtype_ext left right || is_literal_subtype_ext right left))

-- the first test of `lub`, and what follows where it fails
unfoldable pub same_or : PType → PType → Outcome PType → Outcome PType
unfolding ptype_eq is_iri min
same_or left right different =
    if ptype_eq left right || (is_iri left && is_iri right)
    then Outcome.ok (min left right)
    else different

unfoldable pub lub : NamedNode → Variable → PType → PType → Outcome PType
unfolding same_or min basics_compatible
lub template v (PType.basic l) (PType.basic r) = same_or (PType.basic l) (PType.basic r) (
    if basics_compatible l r
    then Outcome.ok (min (PType.basic l) (PType.basic r))
    else Outcome.err (TemplateError.incompatible_types template v (PType.basic l) (PType.basic r)))
lub template v (PType.ne_list l) (PType.basic r) = same_or (PType.ne_list l) (PType.basic r) (
    if r == Rdfs.resource
    then Outcome.ok (PType.ne_list l)
    else Outcome.err
        (TemplateError.incompatible_types template v (PType.ne_list l) (PType.basic r)))
lub template v (PType.ne_list l) (PType.list r) =
    same_or (PType.ne_list l) (PType.list r)
      (then_ok (lub template v l r) (λ t. Outcome.ok (PType.ne_list t)))
lub template v (PType.ne_list l) (PType.ne_list r) =
    same_or (PType.ne_list l) (PType.ne_list r)
      (then_ok (lub template v l r) (λ t. Outcome.ok (PType.ne_list t)))
lub template v (PType.list l) (PType.basic r) = same_or (PType.list l) (PType.basic r) (
    if r == Rdfs.resource
    then Outcome.ok (PType.list l)
    else Outcome.err (TemplateError.incompatible_types template v (PType.list l) (PType.basic r)))
lub template v (PType.list l) (PType.ne_list r) =
    same_or (PType.list l) (PType.ne_list r)
      (then_ok (lub template v l r) (λ t. Outcome.ok (PType.ne_list t)))
lub template v (PType.list l) (PType.list r) =
    same_or (PType.list l) (PType.list r)
      (then_ok (lub template v l r) (λ t. Outcome.ok (PType.list t)))
lub template v left right =
    same_or left right (Outcome.err (TemplateError.incompatible_types template v left right))

-- the parameter with another type
unfoldable pub with_ptype : Parameter → PType → Parameter
with_ptype p t = record {
  optional = p.optional;
  non_blank = p.non_blank;
  ptype = some t;
  name = p.name;
  default_value = p.default_value;
}

unfoldable pub lub_update : NamedNode → Variable → Parameter → PType → Outcome (Parameter × Bool)
unfolding ptype_eq lub with_ptype
lub_update template v my_parameter right = elim my_parameter.ptype [
  | none ↦ Outcome.ok (with_ptype my_parameter right, true)
  | some left ↦
      if not (ptype_eq left right)
      then then_ok (lub template v left right) (λ ptype.
        if not (ptype_eq left ptype)
        then Outcome.ok (with_ptype my_parameter ptype, true)
        else Outcome.ok (my_parameter, false))
      else Outcome.ok (my_parameter, false)
]

-- the type that an argument asks of its variable
unfoldable pub wanted : Argument → Parameter → Option PType
wanted argument other_parameter = elim other_parameter.ptype [
  | none ↦ none
  | some other_ptype ↦ some (
      if argument.list_expand
      then (if not other_parameter.optional
          then PType.ne_list other_ptype
          else PType.list other_ptype)
      else other_ptype)
]

-- `changed = changed || lub_update(…)?`
unfoldable pub update_unless_changed :
    NamedNode → Variable → Parameter → PType → Bool → Outcome (Parameter × Bool)
unfolding lub_update
update_unless_changed template v my_parameter right true = Outcome.ok (my_parameter, true)
update_unless_changed template v my_parameter right false = lub_update template v my_parameter right

-- the loop over the parameters of the template
unfoldable pub update_parameters :
    NamedNode → Variable → PType → List Parameter → Bool → Outcome (List Parameter × Bool)
unfolding update_unless_changed
update_parameters template v right [] changed = Outcome.ok ([], changed)
update_parameters template v right (p ∷ ps) changed =
    then_ok
      (if p.name == v
        then update_unless_changed template v p right changed
        else Outcome.ok (p, changed))
      (λ (p', changed').
        then_ok (update_parameters template v right ps changed')
          (λ (ps', changed''). Outcome.ok (p' ∷ ps', changed'')))

unfoldable pub update_argument :
    NamedNode → StottrTerm → Option PType → List Parameter → Bool → Outcome (List Parameter × Bool)
unfolding update_parameters
update_argument template (StottrTerm.variable v) (some right) ps changed =
    update_parameters template v right ps changed
update_argument template term right ps changed = Outcome.ok (ps, changed)

-- the loop over the zipped arguments and parameters of the other template
unfoldable pub update_arguments :
    NamedNode
    → List Argument
    → List Parameter
    → List Parameter
    → Bool
    → Outcome (List Parameter × Bool)
unfolding update_argument wanted
update_arguments template [] others ps changed = Outcome.ok (ps, changed)
update_arguments template (a ∷ arguments) [] ps changed = Outcome.ok (ps, changed)
update_arguments template (a ∷ arguments) (o ∷ others) ps changed =
    then_ok (update_argument template a.term (wanted a o) ps changed)
      (λ (ps', changed'). update_arguments template arguments others ps' changed')

module _ (templates : List (String × Template)) where
  unfoldable pub update_instance :
      NamedNode → Instance → List Parameter → Bool → Outcome (List Parameter × Bool)
  unfolding update_arguments get
  update_instance template i ps changed = elim (get i.template_iri templates) [
    | none ↦ Outcome.err (TemplateError.template_not_found template i.template_iri)
    | some other ↦
        if not (nat_eq (length i.argument_list) (length other.signature.parameter_list))
        then Outcome.err (
            TemplateError.inconsistent_number_of_arguments template other.signature.iri
              (length i.argument_list) (length other.signature.parameter_list))
        else update_arguments template i.argument_list other.signature.parameter_list ps changed
  ]

  -- the loop over the instances of the pattern
  unfoldable pub update_instances :
      NamedNode → List Instance → List Parameter → Bool → Outcome (List Parameter × Bool)
  unfolding update_instance
  update_instances template [] ps changed = Outcome.ok (ps, changed)
  update_instances template (i ∷ is) ps changed =
      then_ok (update_instance template i ps changed)
        (λ (ps', changed'). update_instances template is ps' changed')

  unfoldable pub infer_template_types : Template → Outcome (Template × Bool)
  unfolding update_instances
  infer_template_types template =
      then_ok
        (update_instances template.signature.iri template.pattern_list
          template.signature.parameter_list false)
        (λ (ps, changed). Outcome.ok (
          record {
            signature = record {
              iri = template.signature.iri;
              parameter_list = ps;
              annotation_list = template.signature.annotation_list;
            };
            pattern_list = template.pattern_list;
          },
          changed,
        ))
