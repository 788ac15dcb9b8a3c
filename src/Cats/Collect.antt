-- ===== src/Cats/Collect.antt =====
-- The removal of unused codes.
use maplib.Prelude.{
  ℕ, ◌≡◌, refl, ◌∙◌, sym, true, false, ◌||◌, List, [], ◌∷◌, none, some, if◌then◌else◌, nat_eq,
  arith, Option-cases, inl, inr,
}
use maplib.Cats.Bytes.{Bytes}
use maplib.Cats.Codes
use maplib.Cats.Ordered
use maplib.Cats.Maps.{
  CatMaps, contains_u32, maybe_decode, take_codes, remove_keys, garbage_collect_cats,
}
use maplib.Cats.Entries.{remove-IsDistinct, text_of-remove_code}
use maplib.Cats.Inverse.{IsEncoding}

-- every code of the set is there, and none stands twice in it
abbrev pub IsPresent : {K : Type 0} → CatMaps K → List ℕ → Type 0
IsPresent self [] = Unit
IsPresent self (r ∷ set) =
    (contains_u32 self r ≡ true) × (Codes.contains set r ≡ false) × IsPresent self set

module _ {K : Type 0} (bytes : K → Bytes) where
  -- the maps without one code and its key
  abbrev without : CatMaps K → ℕ → K → CatMaps K
  without self r k = record {
    entries = Ordered.remove bytes (bytes k) self.entries;
    rev_map = Codes.remove r self.rev_map;
  }

  maybe_decode-without :
      (self : CatMaps K) (r u : ℕ) (k : K)
      → maybe_decode bytes (without self r k) u
        ≡ (if nat_eq r u then none else maybe_decode bytes self u)
  unfolding maybe_decode
  maybe_decode-without self r u k = ground (arith, Codes.get-remove r u self.rev_map)

  decoded :
      (self : CatMaps K) (r : ℕ) (k : K)
      → Codes.get r self.rev_map ≡ some k
      → maybe_decode bytes self r ≡ some (bytes k)
  unfolding maybe_decode
  decoded self r k h = ground (arith, h)

  code_there :
      (self : CatMaps K) (r : ℕ)
      → contains_u32 self r ≡ true
      → (k : K) × (Codes.get r self.rev_map ≡ some k)
  unfolding contains_u32
  code_there self r h = elim (Option-cases (Codes.get r self.rev_map)) [
    | inl missing ↦ absurd (ground arith)
    | inr found ↦ found
  ]

  without-IsEncoding :
      (self : CatMaps K) (r : ℕ) (k : K)
      → Codes.get r self.rev_map ≡ some k
      → IsEncoding bytes self
      → IsEncoding bytes (without self r k)
  without-IsEncoding self r k h e =
      let there = sym (e.reverse r) ∙ decoded self r k h in
      record {
        distinct = remove-IsDistinct bytes (bytes k) self.entries e.distinct;
        reverse = λ u. ground (
          arith,
          maybe_decode-without self r u k,
          text_of-remove_code bytes r u (bytes k) self.entries e.distinct there,
          e.reverse u,
        );
      }

  without-IsPresent :
      (self : CatMaps K) (r : ℕ) (k : K) (set : List ℕ)
      → Codes.contains set r ≡ false
      → IsPresent self set
      → IsPresent (without self r k) set
  unfolding contains_u32 Codes.contains
  without-IsPresent self r k [] h p = tt
  without-IsPresent self r k (q ∷ set) h (a, b, p) = (
    ground (arith, Codes.get-remove r q self.rev_map),
    b,
    without-IsPresent self r k set (ground arith) p,
  )

  -- collecting one code, and then the others
  collect_first :
      (self : CatMaps K) (r : ℕ) (k : K) (set : List ℕ)
      → Codes.get r self.rev_map ≡ some k
      → garbage_collect_cats bytes self (r ∷ set)
        ≡ garbage_collect_cats bytes (without self r k) set
  unfolding garbage_collect_cats take_codes remove_keys
  collect_first self r k set h = ground (arith, h)

  contains_cons :
      (r : ℕ) (set : List ℕ) (u : ℕ)
      → Codes.contains (r ∷ set) u ≡ (nat_eq r u || Codes.contains set u)
  unfolding Codes.contains
  contains_cons r set u = refl

  -- Where all codes of the set are there, and none twice, the collection does not panic; it leaves an
  -- encoding in which the codes of the set have no text and every other code has the text it had.
  pub garbage_collect_cats-IsEncoding :
      (self : CatMaps K) (set : List ℕ)
      → IsEncoding bytes self
      → IsPresent self set
      → (next : CatMaps K) × (garbage_collect_cats bytes self set ≡ some next)
        × IsEncoding bytes next
        × ((u : ℕ)
            → maybe_decode bytes next u
              ≡ (if Codes.contains set u then none else maybe_decode bytes self u))
  garbage_collect_cats-IsEncoding self [] e p = (
    self,
    (unfold garbage_collect_cats take_codes remove_keys in refl),
    e,
    λ u. unfold Codes.contains in refl,
  )
  garbage_collect_cats-IsEncoding self (r ∷ set) e (a, b, p) =
      let (k, found) = code_there self r a in
      let (next, done, kept, texts) =
        garbage_collect_cats-IsEncoding (without self r k) set (without-IsEncoding self r k found e)
          (without-IsPresent self r k set b p) in
      (
        next,
        collect_first self r k set found ∙ done,
        kept,
        λ u. ground (arith, texts u, maybe_decode-without self r u k, contains_cons r set u),
      )
