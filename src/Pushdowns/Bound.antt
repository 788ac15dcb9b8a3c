-- ===== src/Pushdowns/Bound.antt =====
-- Solutions whose variables are bound to the values of a map, under the loops over the maps.
use maplib.Prelude.{◌≡◌, refl, true, Option, none, some, String, List, [], ◌∷◌, subst}
use maplib.Prelude.Maps.{
  get, put, remove, AllEntries, AllEntries-put, AllEntries-remove, AllEntries-extend,
  AllEntries-get,
}
use maplib.Algebra.{Term, Variable}
use maplib.Pushdowns.{
  Values, has, extend_terms, intersect_terms, conjunction_loop, disjunction_loop, has-extend_left,
  has-extend_right, has-intersect,
}

-- the variable is bound to one of the terms
abbrev pub BoundIn : (Variable → Option Term) → String → List Term → Type 0
BoundIn solution k ts = (t : Term) × (solution k ≡ some t) × (has ts t ≡ true)

module _ (solution : Variable → Option Term) where
  BoundIn-intersect :
      (k : String) (ts other : List Term)
      → BoundIn solution k ts
      → BoundIn solution k other
      → BoundIn solution k (intersect_terms ts other)
  BoundIn-intersect k ts other (t, p, h) (u, q, g) =
      let same : u ≡ t = cc in
      (t, p, has-intersect ts other t h (subst (λ x. has other x ≡ true) same g))

  pub conjunction_loop-BoundIn :
      (left right new_map : Values)
      → AllEntries (BoundIn solution) left
      → AllEntries (BoundIn solution) right
      → AllEntries (BoundIn solution) new_map
      → AllEntries (BoundIn solution) (conjunction_loop left right new_map)
  unfolding conjunction_loop
  conjunction_loop-BoundIn [] right new_map l r n =
      AllEntries-extend (BoundIn solution) new_map right n r
  conjunction_loop-BoundIn ((k, v) ∷ left) right new_map l r n =
      elim (get k right)
          as (λ o.
            get k right ≡ o
            → AllEntries (BoundIn solution) (elim o [
              | some vr ↦
                  conjunction_loop left (remove k right) (put k (intersect_terms v vr) new_map)
              | none ↦ conjunction_loop left right (put k v new_map)
            ])) [
              | some vr ↦ λ e.
                  conjunction_loop-BoundIn left (remove k right)
                    (put k (intersect_terms v vr) new_map) l.1
                    (AllEntries-remove (BoundIn solution) k right r)
                    (AllEntries-put (BoundIn solution) k _ new_map
                      (BoundIn-intersect k v vr l.0 (AllEntries-get (BoundIn solution) k right r e))
                      n)
              | none ↦ λ e.
                  conjunction_loop-BoundIn left right (put k v new_map) l.1 r
                    (AllEntries-put (BoundIn solution) k v new_map l.0 n)
            ]
        refl

  pub disjunction_loop-left :
      (left right new_map : Values)
      → AllEntries (BoundIn solution) left
      → AllEntries (BoundIn solution) new_map
      → AllEntries (BoundIn solution) (disjunction_loop left right new_map)
  unfolding disjunction_loop
  disjunction_loop-left [] right new_map l n = n
  disjunction_loop-left ((k, v) ∷ left) right new_map l n =
      elim (get k right)
        as (λ o. AllEntries (BoundIn solution) (elim o [
          | some vr ↦ disjunction_loop left (remove k right) (put k (extend_terms v vr) new_map)
          | none ↦ disjunction_loop left right new_map
        ])) [
          | some vr ↦
              disjunction_loop-left left (remove k right) (put k (extend_terms v vr) new_map) l.1 (
                AllEntries-put (BoundIn solution) k _ new_map
                  (l.0.0, l.0.1, has-extend_left v vr l.0.0 l.0.2) n)
          | none ↦ disjunction_loop-left left right new_map l.1 n
        ]

  pub disjunction_loop-right :
      (left right new_map : Values)
      → AllEntries (BoundIn solution) right
      → AllEntries (BoundIn solution) new_map
      → AllEntries (BoundIn solution) (disjunction_loop left right new_map)
  unfolding disjunction_loop
  disjunction_loop-right [] right new_map r n = n
  disjunction_loop-right ((k, v) ∷ left) right new_map r n =
      elim (get k right)
          as (λ o.
            get k right ≡ o
            → AllEntries (BoundIn solution) (elim o [
              | some vr ↦ disjunction_loop left (remove k right) (put k (extend_terms v vr) new_map)
              | none ↦ disjunction_loop left right new_map
            ])) [
              | some vr ↦ λ e.
                  let (t, p, h) = AllEntries-get (BoundIn solution) k right r e in
                  disjunction_loop-right left (remove k right) (put k (extend_terms v vr) new_map)
                    (AllEntries-remove (BoundIn solution) k right r)
                    (AllEntries-put (BoundIn solution) k _ new_map (t, p, has-extend_right v vr t h)
                      n)
              | none ↦ λ e. disjunction_loop-right left right new_map r n
            ]
        refl
