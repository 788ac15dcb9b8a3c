-- ===== src/Cats/Iri.antt =====
-- IRIs that are kept as a prefix up to the last delimiter and the rest: `split_iri` and
-- `PrefixCompressedString`.
use Prim.Native.Nat.{compare, Ordering}
use maplib.Prelude.{
  ℕ, ◌+◌, ◌≡◌, refl, sym, ap, Bool, true, false, [], ◌∷◌, ◌++◌, ◌||◌, Option, none, some,
  if◌then◌else◌, nat_eq, arith, length, length-append, Bool-cases, inl, inr, ◌⊎◌,
}
use maplib.Cats.Bytes.{Bytes, compare_bytes}

-- '/', '#' and ':'
unfoldable pub is_delimiter : ℕ → Bool
is_delimiter c = nat_eq c b'/' || (nat_eq c b'#' || nat_eq c b':')

-- `rsplit_once_inclusive_l`: the text up to and with its last delimiter, and the rest
unfoldable pub rsplit_once_inclusive : Bytes → Option (Bytes × Bytes)
unfolding is_delimiter
rsplit_once_inclusive [] = none
rsplit_once_inclusive (c ∷ this) = elim (rsplit_once_inclusive this) [
  | some (prefix, suffix) ↦ some (c ∷ prefix, suffix)
  | none ↦ if is_delimiter c then some (c ∷ [], this) else none
]

unfoldable pub split_iri : Bytes → Bytes × Bytes
unfolding rsplit_once_inclusive
split_iri iri = elim (rsplit_once_inclusive iri) [ some pair ↦ pair | none ↦ ([], iri) ]

pub record PrefixCompressedString : Type 0 where
  pub prefix : Bytes
  pub suffix : Bytes

-- `fmt::Display`, and `to_string`
unfoldable pub to_bytes : PrefixCompressedString → Bytes
to_bytes self = self.prefix ++ self.suffix

unfoldable pub compressed : Bytes → PrefixCompressedString
unfolding split_iri
compressed iri = let (pre, suf) = split_iri iri in record { prefix = pre; suffix = suf }

-- the loop of `cmp` over the zipped bytes
unfoldable pub compare_zipped : Bytes → Bytes → Ordering
compare_zipped [] other = Ordering.eq
compare_zipped (s ∷ self) [] = Ordering.eq
compare_zipped (s ∷ self) (o ∷ other) =
    let rest = compare_zipped self other in
    elim (compare s o) [
      | Ordering.lt ↦ Ordering.lt
      | Ordering.gt ↦ Ordering.gt
      | Ordering.eq ↦ rest
    ]

unfoldable pub cmp : PrefixCompressedString → PrefixCompressedString → Ordering
unfolding compare_zipped
cmp self other = elim (compare_zipped (self.prefix ++ self.suffix) (other.prefix ++ other.suffix)) [
  | Ordering.lt ↦ Ordering.lt
  | Ordering.gt ↦ Ordering.gt
  | Ordering.eq ↦
      compare (length self.prefix + length self.suffix) (length other.prefix + length other.suffix)
]

-- the comparison of the lengths after that of the zipped bytes is the order of the texts
zipped-compare_bytes :
    (a b : Bytes) (n m : ℕ)
    → n ≡ length a
    → m ≡ length b
    → elim (compare_zipped a b) [
      | Ordering.lt ↦ Ordering.lt
      | Ordering.gt ↦ Ordering.gt
      | Ordering.eq ↦ compare n m
    ]
      ≡ compare_bytes a b
unfolding compare_zipped compare_bytes
zipped-compare_bytes [] [] n m p q = ground arith
zipped-compare_bytes [] (y ∷ ys) n m p q = ground arith
zipped-compare_bytes (x ∷ xs) [] n m p q = ground arith
zipped-compare_bytes (x ∷ xs) (y ∷ ys) n m p q =
    ground (arith, zipped-compare_bytes xs ys (length xs) (length ys) refl refl)

-- Two compressed strings compare as the texts that they stand for.
pub cmp-compare_bytes :
    (self other : PrefixCompressedString)
    → cmp self other ≡ compare_bytes (to_bytes self) (to_bytes other)
unfolding cmp to_bytes
cmp-compare_bytes self other =
    zipped-compare_bytes _ _ _ _ (sym (length-append self.prefix self.suffix))
      (sym (length-append other.prefix other.suffix))

unfoldable pub no_delimiter : Bytes → Bool
no_delimiter [] = true
no_delimiter (c ∷ s) = if is_delimiter c then false else no_delimiter s

-- the last byte is a delimiter
unfoldable pub ends_delimited : Bytes → Bool
ends_delimited [] = false
ends_delimited (c ∷ []) = is_delimiter c
ends_delimited (c ∷ d ∷ p) = ends_delimited (d ∷ p)

ends_delimited-cons : (c : ℕ) (p : Bytes) → ends_delimited p ≡ true → ends_delimited (c ∷ p) ≡ true
unfolding ends_delimited
ends_delimited-cons c [] h = cc
ends_delimited-cons c (d ∷ p) h = h

-- the answer, with what it means
abbrev IsSplit : Bytes → Option (Bytes × Bytes) → Type 0
IsSplit iri none = no_delimiter iri ≡ true
IsSplit iri (some (p, s)) = (p ++ s ≡ iri) × (no_delimiter s ≡ true) × (ends_delimited p ≡ true)

rsplit-IsSplit : (iri : Bytes) → IsSplit iri (rsplit_once_inclusive iri)
unfolding rsplit_once_inclusive no_delimiter ends_delimited
rsplit-IsSplit [] = refl
rsplit-IsSplit (c ∷ iri) =
    elim (rsplit_once_inclusive iri)
        as (λ o.
          IsSplit iri o
          → IsSplit (c ∷ iri) (elim o [
            | some (prefix, suffix) ↦ some (c ∷ prefix, suffix)
            | none ↦ if is_delimiter c then some (c ∷ [], iri) else none
          ])) [
            | some (p, s) ↦ λ (w, n, e). (ap (λ l. c ∷ l) w, n, ends_delimited-cons c p e)
            | none ↦ λ n. elim (Bool-cases (is_delimiter c)) [
              | inl d ↦ rw d (refl, n, d)
              | inr d ↦ rw d (ground arith)
            ]
          ]
      (rsplit-IsSplit iri)

-- The two parts of an IRI are the IRI again; the suffix has no delimiter, and the prefix ends with
-- one or is empty.
pub split_iri_lem :
    (iri : Bytes)
    → let (p, s) = split_iri iri in
      (p ++ s ≡ iri) × (no_delimiter s ≡ true) × ((p ≡ []) ⊎ (ends_delimited p ≡ true))
unfolding split_iri
split_iri_lem iri =
    elim (rsplit_once_inclusive iri)
        as (λ o.
          IsSplit iri o
          → let (p, s) : Bytes × Bytes = elim o [ some pair ↦ pair | none ↦ ([], iri) ] in
            (p ++ s ≡ iri) × (no_delimiter s ≡ true) × ((p ≡ []) ⊎ (ends_delimited p ≡ true))) [
              | some (p, s) ↦ λ (w, n, e). (w, n, inr e)
              | none ↦ λ n. (refl, n, inl refl)
            ]
      (rsplit-IsSplit iri)

-- A text is what its compressed form stands for.
pub to_bytes-compressed : (iri : Bytes) → to_bytes (compressed iri) ≡ iri
unfolding to_bytes compressed
to_bytes-compressed iri = (split_iri_lem iri).0
