-- ===== src/Prelude/Outcomes.antt =====
-- What code that may fail ends with: a result, an error that it returns, or a panic.
pub data Outcome {ℓ} (A : Type ℓ) : Type ℓ where
  done : A → Outcome A
  failed : Outcome A
  panicked : Outcome A

infixl 5 ◌>>=◌
abbrev pub ◌>>=◌ {ℓ κ} : {A : Type ℓ} {B : Type κ} → Outcome A → (A → Outcome B) → Outcome B
done a >>= f = f a
failed >>= f = failed
panicked >>= f = panicked

-- the result has the property, and there is no panic
abbrev pub Safe : {A : Type 0} → (A → Type 0) → Outcome A → Type 0
Safe P (done a) = P a
Safe P failed = Unit
Safe P panicked = ⊥

pub >>=-Safe :
    {A B : Type 0} (P : A → Type 0) (Q : B → Type 0) (m : Outcome A) (f : A → Outcome B)
    → Safe P m
    → ((a : A) → P a → Safe Q (f a))
    → Safe Q (m >>= f)
>>=-Safe P Q (done a) f h g = g a h
>>=-Safe P Q failed f h g = tt
>>=-Safe P Q panicked f h g = absurd h

-- the result, if there is one, has the property
abbrev pub Holds : {A : Type 0} → (A → Type 0) → Outcome A → Type 0
Holds P (done a) = P a
Holds P failed = Unit
Holds P panicked = Unit

pub >>=-Holds :
    {A B : Type 0} (P : A → Type 0) (Q : B → Type 0) (m : Outcome A) (f : A → Outcome B)
    → Holds P m
    → ((a : A) → P a → Holds Q (f a))
    → Holds Q (m >>= f)
>>=-Holds P Q (done a) f h g = g a h
>>=-Holds P Q failed f h g = tt
>>=-Holds P Q panicked f h g = tt

-- a result without a condition
abbrev pub Any : {A : Type 0} → A → Type 0
Any a = Unit

-- a step whose result does not matter
pub skip :
    {A B : Type 0} (Q : B → Type 0) (m : Outcome A) (f : A → Outcome B)
    → ((a : A) → Holds Q (f a))
    → Holds Q (m >>= f)
skip Q (done a) f g = g a
skip Q failed f g = tt
skip Q panicked f g = tt
