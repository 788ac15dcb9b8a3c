-- ===== src/Prelude/Lists.antt =====
-- Lists measured by native numbers, under the library's names.
use Prim.Native.Nat.{ℕ, zero, suc, ◌+◌}
use mathlib.Core.Path.{◌≡◌, refl, sym, subst}
use mathlib.Core.Logic.{◌⊎◌, inl, inr}
use mathlib.Core.List.{List, [], ◌∷◌, ◌++◌}
use mathlib.Core.Option.{Option, none, some}
use native.Mathlib.Omega.{arith}

module _ {ℓ} {A : Type ℓ} where
  abbrev pub length : List A → ℕ
  length [] = 0
  length (x ∷ xs) = suc (length xs)

  abbrev pub get_elem? : List A → ℕ → Option A
  get_elem? [] i = none
  get_elem? (x ∷ xs) zero = some x
  get_elem? (x ∷ xs) (suc i) = get_elem? xs i

  pub length-append : (xs ys : List A) → length (xs ++ ys) ≡ length xs + length ys
  length-append [] ys = omega arith
  length-append (x ∷ xs) ys = omega (arith, length-append xs ys)

module _ {A : Type 0} where
  -- x is an element
  abbrev pub Within : A → List A → Type 0
  Within x [] = ⊥
  Within x (y ∷ ys) = (x ≡ y) ⊎ Within x ys

module _ {A : Type 0} (P : A → Type 0) where
  -- every element has the property
  abbrev pub Each : List A → Type 0
  Each [] = Unit
  Each (x ∷ xs) = P x × Each xs

  -- some element has the property
  abbrev pub Some : List A → Type 0
  Some [] = ⊥
  Some (x ∷ xs) = P x ⊎ Some xs

  pub Each-append : (xs ys : List A) → Each xs → Each ys → Each (xs ++ ys)
  Each-append [] ys h g = g
  Each-append (x ∷ xs) ys h g = (h.0, Each-append xs ys h.1 g)

  pub Each-Within : (xs : List A) → ((x : A) → Within x xs → P x) → Each xs
  Each-Within [] h = tt
  Each-Within (x ∷ xs) h = (h x (inl refl), Each-Within xs (λ y w. h y (inr w)))

  pub Each-get : (x : A) (xs : List A) → Each xs → Within x xs → P x
  Each-get x [] h w = absurd w
  Each-get x (y ∷ ys) h (inl e) = subst P (sym e) h.0
  Each-get x (y ∷ ys) h (inr w) = Each-get x ys h.1 w

  pub Some-append_left : (xs ys : List A) → Some xs → Some (xs ++ ys)
  Some-append_left [] ys h = absurd h
  Some-append_left (x ∷ xs) ys (inl p) = inl p
  Some-append_left (x ∷ xs) ys (inr h) = inr (Some-append_left xs ys h)

  pub Some-append_right : (xs ys : List A) → Some ys → Some (xs ++ ys)
  Some-append_right [] ys h = h
  Some-append_right (x ∷ xs) ys h = inr (Some-append_right xs ys h)
