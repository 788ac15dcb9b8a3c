-- ===== src/Templates/Explained.antt =====
-- The errors of the inference, and what they say.
use maplib.Prelude.{
  ◌≡◌, ◌≢◌, refl, String, Bool, true, false, ◌&&◌, ◌||◌, ◌==◌, List, none, some, if◌then◌else◌,
  length, Within,
}
use maplib.Prelude.Maps.{get}
use maplib.Algebra.{NamedNode, Variable}
use maplib.Vocabulary.Rdfs
use maplib.Templates.{Instance, PType, Template, is_iri, min, ptype_eq}
use maplib.Templates.Inference.{Outcome, TemplateError, basics_compatible, lub, same_or, then_ok}

-- the first test of `lub`
abbrev alike : PType → PType → Bool
alike l r = ptype_eq l r || (is_iri l && is_iri r)

module _ (templates : List (String × Template)) (pattern_list : List Instance) where
  -- The reason that an error gives: an instance of the pattern names a template that is not known;
  -- an instance gives `a` arguments to a known template with the name `n` and `b` parameters, and
  -- the numbers differ; or `lub` has no bound for the two types.
  abbrev pub Explained : TemplateError → Type 0
  Explained (TemplateError.template_not_found t n) =
      (i : Instance) × Within i pattern_list × (i.template_iri ≡ n) × (get n templates ≡ none)
  Explained (TemplateError.inconsistent_number_of_arguments t n a b) =
      (i : Instance) × (other : Template) × Within i pattern_list
      × (get i.template_iri templates ≡ some other)
      × (n ≡ other.signature.iri)
      × (a ≡ length i.argument_list)
      × (b ≡ length other.signature.parameter_list)
      × (a ≢ b)
  Explained (TemplateError.incompatible_types t v l r) =
      lub t v l r ≡ Outcome.err (TemplateError.incompatible_types t v l r)

  abbrev pub Fails : Outcome PType → Type 0
  Fails (Outcome.ok t) = Unit
  Fails (Outcome.err e) = Explained e

  -- `lub` where its last test fails, and where it goes into lists
  Fails-test :
      (t : NamedNode) (v : Variable) (l r x y : PType) (s c : Bool)
      → lub t v l r ≡ (
          if s
          then Outcome.ok x
          else (if c then Outcome.ok y else Outcome.err (TemplateError.incompatible_types t v l r)))
      → Fails (
          if s
          then Outcome.ok x
          else (if c then Outcome.ok y else Outcome.err (TemplateError.incompatible_types t v l r)))
  Fails-test t v l r x y true c h = tt
  Fails-test t v l r x y false true h = tt
  Fails-test t v l r x y false false h = h

  Fails-end :
      (t : NamedNode) (v : Variable) (l r x : PType) (s : Bool)
      → lub t v l r
        ≡ (if s then Outcome.ok x else Outcome.err (TemplateError.incompatible_types t v l r))
      → Fails (if s then Outcome.ok x else Outcome.err (TemplateError.incompatible_types t v l r))
  Fails-end t v l r x true h = tt
  Fails-end t v l r x false h = h

  Fails-inner :
      (x : PType) (s : Bool) (build : PType → PType) (o : Outcome PType)
      → Fails o
      → Fails (if s then Outcome.ok x else then_ok o (λ t. Outcome.ok (build t)))
  Fails-inner x true build o h = tt
  Fails-inner x false build (Outcome.ok t) h = tt
  Fails-inner x false build (Outcome.err e) h = h

  pub lub-Fails : (t : NamedNode) (v : Variable) (l r : PType) → Fails (lub t v l r)
  unfolding lub same_or
  lub-Fails t v (PType.ne_list l) (PType.list r) =
      Fails-inner (min (PType.ne_list l) (PType.list r)) (alike (PType.ne_list l) (PType.list r))
        (λ x. PType.ne_list x) (lub t v l r) (lub-Fails t v l r)
  lub-Fails t v (PType.ne_list l) (PType.ne_list r) =
      Fails-inner (min (PType.ne_list l) (PType.ne_list r))
        (alike (PType.ne_list l) (PType.ne_list r)) (λ x. PType.ne_list x) (lub t v l r)
        (lub-Fails t v l r)
  lub-Fails t v (PType.ne_list l) (PType.basic r) =
      Fails-test t v (PType.ne_list l) (PType.basic r) (min (PType.ne_list l) (PType.basic r))
        (PType.ne_list l) (alike (PType.ne_list l) (PType.basic r)) (r == Rdfs.resource) refl
  lub-Fails t v (PType.list l) (PType.list r) =
      Fails-inner (min (PType.list l) (PType.list r)) (alike (PType.list l) (PType.list r))
        (λ x. PType.list x) (lub t v l r) (lub-Fails t v l r)
  lub-Fails t v (PType.list l) (PType.ne_list r) =
      Fails-inner (min (PType.list l) (PType.ne_list r)) (alike (PType.list l) (PType.ne_list r))
        (λ x. PType.ne_list x) (lub t v l r) (lub-Fails t v l r)
  lub-Fails t v (PType.list l) (PType.basic r) =
      Fails-test t v (PType.list l) (PType.basic r) (min (PType.list l) (PType.basic r))
        (PType.list l) (alike (PType.list l) (PType.basic r)) (r == Rdfs.resource) refl
  lub-Fails t v (PType.basic l) (PType.basic r) =
      Fails-test t v (PType.basic l) (PType.basic r) (min (PType.basic l) (PType.basic r))
        (min (PType.basic l) (PType.basic r)) (alike (PType.basic l) (PType.basic r))
        (basics_compatible l r) refl
  lub-Fails t v l r = Fails-end t v l r (min l r) (alike l r) refl
