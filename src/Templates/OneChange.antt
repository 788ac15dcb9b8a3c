-- ===== src/Templates/OneChange.antt =====
-- What one run of the inference does to the parameters of a template.
use maplib.Prelude.{
  ℕ, ◌≡◌, ◌≢◌, refl, String, Bool, true, false, not, ◌==◌, List, [], ◌∷◌, Option, none, some,
  if◌then◌else◌, nat_eq, length, arith, Within, Each, ◌⊎◌, inl, inr,
}
use maplib.Prelude.Maps.{get}
use maplib.Algebra.{NamedNode, Variable}
use maplib.Templates.{Argument, Instance, PType, Parameter, StottrTerm, Template, ptype_eq}
use maplib.Templates.Inference.{
  Outcome, TemplateError, infer_template_types, lub, lub_update, then_ok, update_argument,
  update_arguments, update_instance, update_instances, update_parameters, update_unless_changed,
  wanted, with_ptype,
}
use maplib.Templates.Steps.{DifferOnce, Step, Step-cons, Step-trans, stays}
use maplib.Templates.Fits.{Fits, Unless, update_instances-Fits}
use maplib.Templates.Explained.{Explained, Fails, lub-Fails}

module _ (templates : List (String × Template)) (pattern_list : List Instance) where
  abbrev Steps : List Parameter → Bool → Outcome (List Parameter × Bool) → Type 0
  Steps ps before (Outcome.ok (ps', after)) = Step ps before ps' after
  Steps ps before (Outcome.err e) = Explained templates pattern_list e

  Steps-then :
      (ps : List Parameter) (before : Bool) (o : Outcome (List Parameter × Bool))
      (f : List Parameter → Bool → Outcome (List Parameter × Bool))
      → Steps ps before o
      → ((ps' : List Parameter) (after : Bool) → Steps ps' after (f ps' after))
      → Steps ps before (then_ok o (λ (ps', after). f ps' after))
  Steps-then ps before (Outcome.err e) f h k = h
  Steps-then ps before (Outcome.ok (ps', after)) f h k =
      elim (f ps' after) as (λ o. Steps ps' after o → Steps ps before o) [
        | Outcome.ok (ps'', last) ↦ λ s. Step-trans ps ps' ps'' before after last h s
        | Outcome.err e ↦ λ s. s
      ]
        (k ps' after)

  -- the same for one parameter
  abbrev Update : Parameter → Bool → Outcome (Parameter × Bool) → Type 0
  Update p before (Outcome.err e) = Explained templates pattern_list e
  Update p before (Outcome.ok (q, after)) =
      ((q ≡ p) × (after ≡ before))
      ⊎ ((before ≡ false) × (after ≡ true) × (t : PType) × (q ≡ with_ptype p t))

  Update-if :
      (p : Parameter) (b : Bool) (t : PType)
      → Update p false (if not b then Outcome.ok (with_ptype p t, true) else Outcome.ok (p, false))
  Update-if p true t = inl (refl, refl)
  Update-if p false t = inr (refl, refl, t, refl)

  Update-lub :
      (p : Parameter) (left : PType) (o : Outcome PType)
      → Fails templates pattern_list o
      → Update p false (
          then_ok o (λ ptype.
            if not (ptype_eq left ptype)
            then Outcome.ok (with_ptype p ptype, true)
            else Outcome.ok (p, false)))
  Update-lub p left (Outcome.err e) f = f
  Update-lub p left (Outcome.ok t) f = Update-if p (ptype_eq left t) t

  lub_update-Update :
      (template : NamedNode) (v : Variable) (p : Parameter) (right : PType)
      → Update p false (lub_update template v p right)
  unfolding lub_update
  lub_update-Update template v p right =
      elim p.ptype
        as (λ o. Update p false (elim o [
          | none ↦ Outcome.ok (with_ptype p right, true)
          | some left ↦
              if not (ptype_eq left right)
              then then_ok (lub template v left right) (λ ptype.
                if not (ptype_eq left ptype)
                then Outcome.ok (with_ptype p ptype, true)
                else Outcome.ok (p, false))
              else Outcome.ok (p, false)
        ])) [
          | none ↦ inr (refl, refl, right, refl)
          | some left ↦
              elim (ptype_eq left right)
                as (λ b. Update p false (
                  if not b
                  then then_ok (lub template v left right) (λ ptype.
                    if not (ptype_eq left ptype)
                    then Outcome.ok (with_ptype p ptype, true)
                    else Outcome.ok (p, false))
                  else Outcome.ok (p, false))) [
                    | true ↦ inl (refl, refl)
                    | false ↦
                        Update-lub p left (lub template v left right)
                          (lub-Fails templates pattern_list template v left right)
                  ]
        ]

  parameter-Update :
      (template : NamedNode) (v : Variable) (p : Parameter) (right : PType) (matches before : Bool)
      → Update p before (
          if matches
          then update_unless_changed template v p right before
          else Outcome.ok (p, before))
  unfolding update_unless_changed
  parameter-Update template v p right true true = inl (refl, refl)
  parameter-Update template v p right true false = lub_update-Update template v p right
  parameter-Update template v p right false before = inl (refl, refl)

  update_parameters-Steps :
      (template : NamedNode) (v : Variable) (right : PType) (ps : List Parameter) (before : Bool)
      → Steps ps before (update_parameters template v right ps before)
  unfolding update_parameters
  update_parameters-Steps template v right [] before = stays [] before
  update_parameters-Steps template v right (p ∷ ps) before =
      elim (if p.name == v
            then update_unless_changed template v p right before
            else Outcome.ok (p, before))
          as (λ o.
            Update p before o
            → Steps (p ∷ ps) before (
                then_ok o (λ (p', changed').
                  then_ok (update_parameters template v right ps changed')
                    (λ (ps', changed''). Outcome.ok (p' ∷ ps', changed''))))) [
                      | Outcome.err e ↦ λ u. u
                      | Outcome.ok (q, after) ↦ λ u.
                          elim (update_parameters template v right ps after)
                              as (λ o.
                                Steps ps after o
                                → Steps (p ∷ ps) before (
                                    then_ok o
                                      (λ (ps', changed''). Outcome.ok (q ∷ ps', changed'')))) [
                                        | Outcome.err e ↦ λ s. s
                                        | Outcome.ok (qs, last) ↦
                                            λ s. Step-cons p q ps qs before after last u s
                                      ]
                            (update_parameters-Steps template v right ps after)
                    ]
        (parameter-Update template v p right (p.name == v) before)

  update_argument-Steps :
      (template : NamedNode) (term : StottrTerm) (right : Option PType) (ps : List Parameter)
      (before : Bool)
      → Steps ps before (update_argument template term right ps before)
  unfolding update_argument
  update_argument-Steps template (StottrTerm.variable v) (some right) ps before =
      update_parameters-Steps template v right ps before
  update_argument-Steps template (StottrTerm.variable v) none ps before = stays ps before
  update_argument-Steps template (StottrTerm.constant_term c) right ps before = stays ps before
  update_argument-Steps template (StottrTerm.list l) right ps before = stays ps before

  update_arguments-Steps :
      (template : NamedNode) (arguments : List Argument) (others ps : List Parameter)
      (before : Bool)
      → Steps ps before (update_arguments template arguments others ps before)
  unfolding update_arguments
  update_arguments-Steps template [] others ps before = stays ps before
  update_arguments-Steps template (a ∷ arguments) [] ps before = stays ps before
  update_arguments-Steps template (a ∷ arguments) (o ∷ others) ps before =
      Steps-then ps before _ _ (update_argument-Steps template a.term (wanted a o) ps before)
        (λ ps' after. update_arguments-Steps template arguments others ps' after)

  counts_differ : (n m : ℕ) → nat_eq n m ≡ false → n ≢ m
  counts_differ n m h e = absurd (ground (arith, h, e))

  update_instance-Steps :
      (template : NamedNode) (i : Instance) (ps : List Parameter) (before : Bool)
      → Within i pattern_list
      → Steps ps before (update_instance templates template i ps before)
  unfolding update_instance
  update_instance-Steps template i ps before w =
      elim (get i.template_iri templates)
          as (λ o.
            get i.template_iri templates ≡ o
            → Steps ps before (elim o [
              | none ↦ Outcome.err (TemplateError.template_not_found template i.template_iri)
              | some other ↦
                  if not (nat_eq (length i.argument_list) (length other.signature.parameter_list))
                  then Outcome.err (
                      TemplateError.inconsistent_number_of_arguments template other.signature.iri
                        (length i.argument_list) (length other.signature.parameter_list))
                  else update_arguments template i.argument_list other.signature.parameter_list ps
                      before
            ])) [
              | none ↦ λ h. (i, w, refl, h)
              | some other ↦ λ h.
                  elim (nat_eq (length i.argument_list) (length other.signature.parameter_list))
                      as (λ b.
                        nat_eq (length i.argument_list) (length other.signature.parameter_list) ≡ b
                        → Steps ps before (
                            if not b
                            then Outcome.err (
                                TemplateError.inconsistent_number_of_arguments template
                                  other.signature.iri (length i.argument_list)
                                  (length other.signature.parameter_list))
                            else update_arguments template i.argument_list
                                other.signature.parameter_list ps before)) [
                                  | true ↦ λ e.
                                      update_arguments-Steps template i.argument_list
                                        other.signature.parameter_list ps before
                                  | false ↦
                                      λ e. (i, other, w, h, refl, refl, refl, counts_differ _ _ e)
                                ]
                    refl
            ]
        refl

  update_instances-Steps :
      (template : NamedNode) (is : List Instance) (ps : List Parameter) (before : Bool)
      → ((i : Instance) → Within i is → Within i pattern_list)
      → Steps ps before (update_instances templates template is ps before)
  unfolding update_instances
  update_instances-Steps template [] ps before w = stays ps before
  update_instances-Steps template (i ∷ is) ps before w =
      Steps-then ps before _ _ (update_instance-Steps template i ps before (w i (inl refl)))
        (λ ps' after. update_instances-Steps template is ps' after (λ j m. w j (inr m)))

module _ (templates : List (String × Template)) where
  -- what a run of the inference leaves of a template
  abbrev pub Inferred : Template → Outcome (Template × Bool) → Type 0
  Inferred template (Outcome.ok (next, changed)) =
      (changed ≡ false → next.signature.parameter_list ≡ template.signature.parameter_list)
      × DifferOnce template.signature.parameter_list next.signature.parameter_list
      × (next.pattern_list ≡ template.pattern_list)
      × (next.signature.iri ≡ template.signature.iri)
      × Each (Fits templates) template.pattern_list
  Inferred template (Outcome.err e) = Explained templates template.pattern_list e

  -- One run of the inference gives a new type to one parameter at most, whatever the pattern asks of the
  -- others, to none if it reports no change, and leaves the name and the pattern, and each instance
  -- of the pattern has as many arguments as the known template that it names has parameters; or it
  -- fails: an instance of the pattern names a template that is not known, an instance has not as many
  -- arguments as the known template that it names has parameters, or `lub` has no bound for two types.
  pub infer_template_types_lem :
      (template : Template) → Inferred template (infer_template_types templates template)
  unfolding infer_template_types
  infer_template_types_lem template =
      elim (update_instances templates template.signature.iri template.pattern_list
            template.signature.parameter_list false)
          as (λ o.
            Steps templates template.pattern_list template.signature.parameter_list false o
            → Unless templates (Each (Fits templates) template.pattern_list) o
            → Inferred template (
                then_ok o (λ (ps, changed). Outcome.ok (
                  record {
                    signature = record {
                      iri = template.signature.iri;
                      parameter_list = ps;
                      annotation_list = template.signature.annotation_list;
                    };
                    pattern_list = template.pattern_list;
                  },
                  changed,
                )))) [
                  | Outcome.err e ↦ λ h u. h
                  | Outcome.ok (ps, changed) ↦ λ (f, g, d) fits. (g, d, refl, refl, fits)
                ]
        (update_instances-Steps templates template.pattern_list template.signature.iri
          template.pattern_list template.signature.parameter_list false (λ i m. m))
        (update_instances-Fits templates template.signature.iri template.pattern_list
          template.signature.parameter_list false)
