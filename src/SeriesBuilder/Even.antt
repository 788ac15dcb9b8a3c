-- ===== src/SeriesBuilder/Even.antt =====
-- In a map of columns, the columns of the subjects and of the objects are of the kinds of their
-- types, and as long as each other, whatever is put into them.
use maplib.Prelude.{
  ℕ, ◌≡◌, ◌≢◌, refl, ◌∙◌, sym, ap, String, Bool, true, false, ◌||◌, List, [], ◌∷◌, if◌then◌else◌,
  ◌==◌, arith, eq_iff, eq_refl, Bool-cases, Option-cases, inl, inr, subst, eq-true,
}
use maplib.Prelude.Maps.{
  get, put, contains_key, contains_key-put, get_present, AllEntries, AllEntries-put, AllEntries-get,
}
use maplib.Prelude.Outcomes.{Outcome, Safe, >>=-Safe}
use maplib.NodeTypes.{BaseRdfNodeType}
use maplib.Vocabulary.Xsd
use maplib.SeriesBuilder.{SeriesBuilder, new, new_literal, len, lang_string_iri}
use maplib.SeriesBuilder.Pairs.{
  same_type, get_by, contains_by, put_by, unwrap, SubjectObjectBuilders, ByObjectType,
  BySubjectType, PredMap, new_pair, ensure_builders, with_pair,
}
use maplib.SeriesBuilder.Kept.{kind, counted}

same_type_refl : (a : BaseRdfNodeType) → same_type a a ≡ true
unfolding same_type
same_type_refl BaseRdfNodeType.iri = refl
same_type_refl BaseRdfNodeType.blank_node = refl
same_type_refl (BaseRdfNodeType.literal l) = ground (arith, eq_iff l l)
same_type_refl BaseRdfNodeType.no_type = refl

same_type-true : (a b : BaseRdfNodeType) → same_type a b ≡ true → a ≡ b
unfolding same_type
same_type-true BaseRdfNodeType.iri BaseRdfNodeType.iri h = refl
same_type-true BaseRdfNodeType.blank_node BaseRdfNodeType.blank_node h = refl
same_type-true (BaseRdfNodeType.literal l) (BaseRdfNodeType.literal k) h =
    ap BaseRdfNodeType.literal (eq-true l k h)
same_type-true BaseRdfNodeType.no_type BaseRdfNodeType.no_type h = refl
same_type-true _ _ h = cc

module _ {V : Type 0} (P : BaseRdfNodeType → V → Type 0) where
  -- every entry has the property
  abbrev pub AllBy : List (BaseRdfNodeType × V) → Type 0
  AllBy [] = Unit
  AllBy ((k, v) ∷ m) = P k v × AllBy m

  AllBy-put :
      (k : BaseRdfNodeType) (v : V) (m : List (BaseRdfNodeType × V))
      → P k v
      → AllBy m
      → AllBy (put_by k v m)
  unfolding put_by
  AllBy-put k v [] p h = (p, tt)
  AllBy-put k v ((j, w) ∷ m) p h =
      elim (same_type j k) as (λ b. AllBy (if b then (k, v) ∷ m else (j, w) ∷ put_by k v m)) [
        | true ↦ (p, h.1)
        | false ↦ (h.0, AllBy-put k v m p h.1)
      ]

  -- a key that is there has an entry with the property
  get_by-AllBy :
      (k : BaseRdfNodeType) (m : List (BaseRdfNodeType × V))
      → contains_by k m ≡ true
      → AllBy m
      → Safe (P k) (unwrap (get_by k m))
  unfolding contains_by get_by unwrap
  get_by-AllBy k [] c h = cc
  get_by-AllBy k ((j, v) ∷ m) c h = elim (Bool-cases (same_type j k)) [
    | inl e ↦ rw e (subst (λ i. P i v) (same_type-true j k e) h.0)
    | inr e ↦ rw e (get_by-AllBy k m (ground arith) h.1)
  ]

contains_by-put :
    {V : Type 0} (k : BaseRdfNodeType) (v : V) (m : List (BaseRdfNodeType × V))
    → contains_by k (put_by k v m) ≡ true
unfolding contains_by put_by
contains_by-put k v [] = ground (arith, same_type_refl k)
contains_by-put k v ((j, w) ∷ m) = ground (arith, same_type_refl k, contains_by-put k v m)

-- the kind of the columns for a type
unfoldable pub kind_for : Type 0 → BaseRdfNodeType → ℕ
unfolding kind new_literal
kind_for V (BaseRdfNodeType.literal l) = kind (new_literal {V = V} l)
kind_for V τ = 0

module _ (V : Type 0) where
  -- a column without values
  abbrev IsEmpty : SeriesBuilder V → Type 0
  IsEmpty self = (len self ≡ 0) × (counted self ≡ true)

  pick : (b : Bool) (x y : SeriesBuilder V) → IsEmpty x → IsEmpty y → IsEmpty (if b then x else y)
  pick true x y h g = h
  pick false x y h g = g

  new_literal-IsEmpty : (l : String) → IsEmpty (new_literal l)
  unfolding new_literal len counted
  new_literal-IsEmpty l =
      pick (l == Xsd.boolean) _ _ (refl, refl)
        (pick (l == Xsd.unsigned_byte) _ _ (refl, refl)
          (pick (l == Xsd.unsigned_short) _ _ (refl, refl)
            (pick (l == Xsd.unsigned_int) _ _ (refl, refl)
              (pick (l == Xsd.unsigned_long) _ _ (refl, refl)
                (pick (l == Xsd.byte) _ _ (refl, refl)
                  (pick (l == Xsd.short) _ _ (refl, refl)
                    (pick (l == Xsd.int) _ _ (refl, refl)
                      (pick (l == Xsd.integer || l == Xsd.long) _ _ (refl, refl)
                        (pick (l == Xsd.float) _ _ (refl, refl)
                          (pick (l == Xsd.double) _ _ (refl, refl)
                            (pick (l == Xsd.date) _ _ (refl, refl)
                              (pick (l == Xsd.date_time) _ _ (refl, refl)
                                (pick (l == Xsd.date_time_stamp) _ _ (refl, refl)
                                  (pick (l == Xsd.decimal) _ _ (refl, refl)
                                    (pick (l == lang_string_iri) _ _ (refl, refl)
                                      (refl, refl))))))))))))))))

module _ (V : Type 0) where
  -- the columns of one predicate, one type of subject and one type of object
  pub record IsEven (s o : BaseRdfNodeType) (pair : SubjectObjectBuilders V) : Type 0 where
    pub subjects_kind : kind pair.0 ≡ kind_for V s
    pub objects_kind : kind pair.1 ≡ kind_for V o
    pub lengths : len pair.0 ≡ len pair.1
    pub subjects_counted : counted pair.0 ≡ true
    pub objects_counted : counted pair.1 ≡ true

  -- all columns of a map
  abbrev pub AllEven : PredMap V → Type 0
  AllEven = AllEntries (λ p bst. AllBy (λ s bot. AllBy (IsEven s) bot) bst)

  -- a new column
  abbrev IsNew : BaseRdfNodeType → SeriesBuilder V → Type 0
  IsNew τ self = (kind self ≡ kind_for V τ) × (len self ≡ 0) × (counted self ≡ true)

  new-IsNew : (τ : BaseRdfNodeType) → τ ≢ BaseRdfNodeType.no_type → Safe (IsNew τ) (new τ)
  unfolding new kind_for kind len counted
  new-IsNew BaseRdfNodeType.iri h = (refl, refl, refl)
  new-IsNew BaseRdfNodeType.blank_node h = (refl, refl, refl)
  new-IsNew (BaseRdfNodeType.literal l) h =
      let empty = new_literal-IsEmpty V l in (refl, empty.0, empty.1)
  new-IsNew BaseRdfNodeType.no_type h = h refl

  module _ (s o : BaseRdfNodeType) (typed_s : s ≢ BaseRdfNodeType.no_type)
      (typed_o : o ≢ BaseRdfNodeType.no_type) where
    new_pair-IsEven : Safe (IsEven s o) (new_pair s o)
    unfolding new_pair
    new_pair-IsEven = >>=-Safe (IsNew s) (IsEven s o) (new s) _ (new-IsNew s typed_s) λ ss hs.
        >>=-Safe (IsNew o) (IsEven s o) (new o) _ (new-IsNew o typed_o) λ os ho. record {
          subjects_kind = hs.0;
          objects_kind = ho.0;
          lengths = hs.1 ∙ sym ho.1;
          subjects_counted = hs.2;
          objects_counted = ho.2;
        }

    -- there is a pair for the type of the objects
    abbrev Filled : ByObjectType V → Type 0
    Filled bot = AllBy (IsEven s) bot × (contains_by o bot ≡ true)

    ensure_builders-Filled :
        (bot : ByObjectType V) → AllBy (IsEven s) bot → Safe Filled (ensure_builders s o bot)
    unfolding ensure_builders
    ensure_builders-Filled bot h = elim (Bool-cases (contains_by o bot)) [
      | inl e ↦ rw e (h, e)
      | inr e ↦ rw e (
          >>=-Safe (IsEven s o) Filled (new_pair s o) _ new_pair-IsEven
            λ pair even. (AllBy-put (IsEven s) o pair bot even h, contains_by-put o pair bot))
    ]

    ensure_subject :
        (bst : BySubjectType V)
        → AllBy (λ s bot. AllBy (IsEven s) bot) bst
        → AllBy (λ s bot. AllBy (IsEven s) bot) (if contains_by s bst then bst else put_by s [] bst)
    ensure_subject bst h = elim (Bool-cases (contains_by s bst)) [
      | inl e ↦ rw e h
      | inr e ↦ rw e (AllBy-put (λ s bot. AllBy (IsEven s) bot) s [] bst tt h)
    ]

    ensured_subject :
        (bst : BySubjectType V)
        → contains_by s (if contains_by s bst then bst else put_by s [] bst) ≡ true
    ensured_subject bst = ground (arith, contains_by-put {V = ByObjectType V} s [] bst)

    ensure_predicate :
        (p : String) (m : PredMap V)
        → AllEven m
        → AllEven (if contains_key p m then m else put p [] m)
    ensure_predicate p m h = elim (Bool-cases (contains_key p m)) [
      | inl e ↦ rw e h
      | inr e ↦
          rw e (AllEntries-put (λ p bst. AllBy (λ s bot. AllBy (IsEven s) bot) bst) p [] m tt h)
    ]

    present_predicate :
        (p : String) (m : PredMap V)
        → contains_key p m ≡ true
        → AllEven m
        → Safe (λ bst. AllBy (λ s bot. AllBy (IsEven s) bot) bst) (unwrap (get p m))
    unfolding unwrap
    present_predicate p m c h = elim (Option-cases (get p m)) [
      | inl e ↦ absurd (ground (arith, get_present p m, e))
      | inr (bst, e) ↦
          rw e (AllEntries-get (λ p bst. AllBy (λ s bot. AllBy (IsEven s) bot) bst) p m h e)
    ]

    ensured_predicate :
        (p : String) (m : PredMap V)
        → AllEven m
        → Safe
            (λ bst. AllBy (λ s bot. AllBy (IsEven s) bot) bst)
            (unwrap (get p (if contains_key p m then m else put p [] m)))
    ensured_predicate p m h =
        present_predicate p (if contains_key p m then m else put p [] m)
          (ground (arith, contains_key-put {V = BySubjectType V} p p [] m, eq_refl p))
          (ensure_predicate p m h)

    -- A change of a pair that keeps it even keeps all columns even, and nothing else can panic.
    pub with_pair-AllEven :
        (p : String) (change : SubjectObjectBuilders V → Outcome (SubjectObjectBuilders V))
        (m : PredMap V)
        → AllEven m
        → ((pair : SubjectObjectBuilders V) → IsEven s o pair → Safe (IsEven s o) (change pair))
        → Safe AllEven (with_pair p s o change m)
    unfolding with_pair
    with_pair-AllEven p change m h keeps =
        >>=-Safe (AllBy (λ s bot. AllBy (IsEven s) bot)) AllEven _ _ (ensured_predicate p m h)
          λ bst hbst.
            >>=-Safe (AllBy (IsEven s)) AllEven _ _
              (get_by-AllBy (λ s bot. AllBy (IsEven s) bot) s
                (if contains_by s bst then bst else put_by s [] bst) (ensured_subject bst)
                (ensure_subject bst hbst))
              λ bot hbot.
                >>=-Safe Filled AllEven _ _ (ensure_builders-Filled bot hbot) λ filled hfilled.
                  >>=-Safe (IsEven s o) AllEven _ _
                    (get_by-AllBy (IsEven s) o filled hfilled.1 hfilled.0)
                    λ pair even.
                      >>=-Safe (IsEven s o) AllEven (change pair) _ (keeps pair even)
                        λ changed heven.
                          AllEntries-put (λ p bst. AllBy (λ s bot. AllBy (IsEven s) bot) bst) p _ _
                            (AllBy-put (λ s bot. AllBy (IsEven s) bot) s _ _
                              (AllBy-put (IsEven s) o changed filled heven hfilled.0)
                              (ensure_subject bst hbst))
                            (ensure_predicate p m h)
