-- ===== src/Templates/Steps.antt =====
-- The steps of an inference run, each from the parameters and the flag that the last one left.
use maplib.Prelude.{◌≡◌, refl, ◌∙◌, Bool, true, false, List, [], ◌∷◌, arith, ◌⊎◌, inl, inr}
use maplib.Templates.{PType, Parameter}
use maplib.Templates.Inference.{with_ptype}

-- The lists differ in the type of one parameter at most.
abbrev pub DifferOnce : List Parameter → List Parameter → Type 0
DifferOnce [] [] = Unit
DifferOnce [] (q ∷ qs) = ⊥
DifferOnce (p ∷ ps) [] = ⊥
DifferOnce (p ∷ ps) (q ∷ qs) =
    ((q ≡ p) × DifferOnce ps qs) ⊎ ((qs ≡ ps) × (t : PType) × (q ≡ with_ptype p t))

pub DifferOnce-refl : (ps : List Parameter) → DifferOnce ps ps
DifferOnce-refl [] = tt
DifferOnce-refl (p ∷ ps) = inl (refl, DifferOnce-refl ps)

-- One step, from parameters with the flag as it was: a set flag stays and nothing changes; a flag that
-- is not set after the step says that nothing changed; and one parameter at most changes.
abbrev pub Step : List Parameter → Bool → List Parameter → Bool → Type 0
Step ps before ps' after =
    (before ≡ true → (ps' ≡ ps) × (after ≡ true)) × (after ≡ false → ps' ≡ ps) × DifferOnce ps ps'

pub stays : (ps : List Parameter) (before : Bool) → Step ps before ps before
stays ps before = (λ h. (refl, h), λ h. refl, DifferOnce-refl ps)

-- one step after another
pub Step-trans :
    (ps ps' ps'' : List Parameter) (a b c : Bool)
    → Step ps a ps' b
    → Step ps' b ps'' c
    → Step ps a ps'' c
Step-trans ps ps' ps'' a true c (f, g, d) (f', g', d') =
    let same = (f' refl).0 in
    (λ h. (same ∙ (f h).0, (f' refl).1), λ h. absurd (ground (arith, (f' refl).1, h)), rw same d)
Step-trans ps ps' ps'' a false c (f, g, d) (f', g', d') =
    let same = g refl in (λ h. absurd (ground (arith, (f h).1)), λ h. g' h ∙ same, rw same at d')

-- a parameter in front of others
pub Step-cons :
    (p q : Parameter) (ps qs : List Parameter) (a b c : Bool)
    → ((q ≡ p) × (b ≡ a)) ⊎ ((a ≡ false) × (b ≡ true) × (t : PType) × (q ≡ with_ptype p t))
    → Step ps b qs c
    → Step (p ∷ ps) a (q ∷ qs) c
Step-cons p q ps qs a b c (inl (same, flag)) (f, g, d) = (
  (λ h. let rest = f (flag ∙ h) in (ground (arith, same, rest.0), rest.1)),
  (λ h. ground (arith, same, g h)),
  inl (same, d),
)
Step-cons p q ps qs a b c (inr (unset, set, t, new)) (f, g, d) =
    let rest = f set in
    (
      (λ h. absurd (ground (arith, unset, h))),
      (λ h. absurd (ground (arith, rest.1, h))),
      inr (rest.0, t, new),
    )
