-- ===== src/Templates/Fits.antt =====
-- The instances of a pattern after a run of the inference that reports no error.
use maplib.Prelude.{
  ℕ, ◌≡◌, refl, String, Bool, true, false, not, List, [], ◌∷◌, none, some, if◌then◌else◌, nat_eq,
  length, arith, Each,
}
use maplib.Prelude.Maps.{get}
use maplib.Algebra.{NamedNode}
use maplib.Templates.{Instance, Parameter, Template}
use maplib.Templates.Inference.{
  Outcome, TemplateError, then_ok, update_arguments, update_instance, update_instances,
}

module _ (templates : List (String × Template)) where
  -- the instance names a known template and has as many arguments as that has parameters
  abbrev pub Fits : Instance → Type 0
  Fits i =
      (other : Template) × (get i.template_iri templates ≡ some other)
      × (length i.argument_list ≡ length other.signature.parameter_list)

  -- what holds if there is no error
  abbrev pub Unless : {A : Type 0} → Type 0 → Outcome A → Type 0
  Unless P (Outcome.ok a) = P
  Unless P (Outcome.err e) = Unit

  Unless-any : {A : Type 0} (P : Type 0) (o : Outcome A) → P → Unless P o
  Unless-any P (Outcome.ok a) p = p
  Unless-any P (Outcome.err e) p = tt

  Unless-then :
      {A B : Type 0} (P Q R : Type 0) (o : Outcome A) (f : A → Outcome B)
      → Unless P o
      → ((a : A) → Unless Q (f a))
      → (P → Q → R)
      → Unless R (then_ok o f)
  Unless-then P Q R (Outcome.err e) f h g r = tt
  Unless-then P Q R (Outcome.ok a) f h g r =
      elim (f a) as (λ o. Unless Q o → Unless R o) [
        | Outcome.ok b ↦ λ q. r h q
        | Outcome.err e ↦ λ q. tt
      ]
        (g a)

  counts_same : (n m : ℕ) → nat_eq n m ≡ true → n ≡ m
  counts_same n m h = ground arith

  update_instance-Fits :
      (template : NamedNode) (i : Instance) (ps : List Parameter) (before : Bool)
      → Unless (Fits i) (update_instance templates template i ps before)
  unfolding update_instance
  update_instance-Fits template i ps before =
      elim (get i.template_iri templates)
          as (λ o.
            get i.template_iri templates ≡ o
            → Unless (Fits i) (elim o [
              | none ↦ Outcome.err (TemplateError.template_not_found template i.template_iri)
              | some other ↦
                  if not (nat_eq (length i.argument_list) (length other.signature.parameter_list))
                  then Outcome.err (
                      TemplateError.inconsistent_number_of_arguments template other.signature.iri
                        (length i.argument_list) (length other.signature.parameter_list))
                  else update_arguments template i.argument_list other.signature.parameter_list ps
                      before
            ])) [
              | none ↦ λ h. tt
              | some other ↦ λ h.
                  elim (nat_eq (length i.argument_list) (length other.signature.parameter_list))
                      as (λ b.
                        nat_eq (length i.argument_list) (length other.signature.parameter_list) ≡ b
                        → Unless (Fits i) (
                            if not b
                            then Outcome.err (
                                TemplateError.inconsistent_number_of_arguments template
                                  other.signature.iri (length i.argument_list)
                                  (length other.signature.parameter_list))
                            else update_arguments template i.argument_list
                                other.signature.parameter_list ps before)) [
                                  | true ↦ λ e. Unless-any (Fits i) _ (other, h, counts_same _ _ e)
                                  | false ↦ λ e. tt
                                ]
                    refl
            ]
        refl

  -- A run that reports no error has found the template of each instance, and as many parameters.
  pub update_instances-Fits :
      (template : NamedNode) (is : List Instance) (ps : List Parameter) (before : Bool)
      → Unless (Each Fits is) (update_instances templates template is ps before)
  unfolding update_instances
  update_instances-Fits template [] ps before = tt
  update_instances-Fits template (i ∷ is) ps before =
      Unless-then (Fits i) (Each Fits is) (Each Fits (i ∷ is)) _ _
        (update_instance-Fits template i ps before)
        (λ (ps', after). update_instances-Fits template is ps' after) (λ f fs. (f, fs))
