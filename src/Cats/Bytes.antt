-- ===== src/Cats/Bytes.antt =====
-- A text as its bytes, and the order of `str`: byte by byte, a prefix first.
use Prim.Native.Nat.{compare, Ordering}
use maplib.Prelude.{ℕ, ◌≡◌, refl, ◌↔◌, Bool, true, false, List, [], ◌∷◌, arith}

abbrev pub Bytes : Type 0
Bytes = List ℕ

unfoldable pub compare_bytes : Bytes → Bytes → Ordering
compare_bytes [] [] = Ordering.eq
compare_bytes [] (y ∷ ys) = Ordering.lt
compare_bytes (x ∷ xs) [] = Ordering.gt
compare_bytes (x ∷ xs) (y ∷ ys) =
    let rest = compare_bytes xs ys in
    elim (compare x y) [
      | Ordering.lt ↦ Ordering.lt
      | Ordering.gt ↦ Ordering.gt
      | Ordering.eq ↦ rest
    ]

unfoldable pub is_eq : Ordering → Bool
is_eq Ordering.eq = true
is_eq o = false

-- `a == b`
unfoldable pub same : Bytes → Bytes → Bool
unfolding compare_bytes is_eq
same a b = is_eq (compare_bytes a b)

pub same_refl : (a : Bytes) → same a a ≡ true
unfolding same compare_bytes is_eq
same_refl [] = refl
same_refl (x ∷ xs) = ground (arith, same_refl xs)

pub same-eq : (a b : Bytes) → same a b ≡ true → a ≡ b
unfolding same compare_bytes is_eq
same-eq [] [] h = refl
same-eq [] (y ∷ ys) h = cc
same-eq (x ∷ xs) [] h = cc
same-eq (x ∷ xs) (y ∷ ys) h = ground (arith, same-eq xs ys)

pub same_iff : (a b : Bytes) → (same a b ≡ true) ↔ (a ≡ b)
same_iff a b = (same-eq a b, λ e. ground (arith, same_refl a, e))

pub compare_bytes-eq : (a b : Bytes) → compare_bytes a b ≡ Ordering.eq → a ≡ b
unfolding same is_eq
compare_bytes-eq a b h = same-eq a b (rw h)

-- unequal texts compare unequal
pub compare_bytes-gt : (a b : Bytes) → compare_bytes a b ≡ Ordering.gt → same a b ≡ false
unfolding same is_eq
compare_bytes-gt a b h = rw h
