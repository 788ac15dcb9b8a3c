-- ===== src/TriplesOrdering/Greedy.antt =====
-- The ordering as a greedy permutation.
use Prim.Native.Nat.{Ordering, compare}
use mathlib.Core.List.Perm
use maplib.Prelude.{
  ℕ, zero, suc, ◌≤◌, ◌≡◌, refl, ap, String, Bool, true, false, ◌&&◌, ◌||◌, List, [], ◌∷◌, Option,
  some, leb, arith, length, Perm, inl, inr, Bool-cases, and-cases,
}
use maplib.Algebra.{BlankNode, TriplePattern}
use maplib.Pushdowns.{Pushdowns, Values}
use maplib.TriplesOrdering.{
  known_names, min_by, order_loop, order_triple_patterns, take_candidate, triple_eq, visit,
}
use maplib.TriplesOrdering.Cost.{cost, strictly_before-compare}
use maplib.TriplesOrdering.Equality.{triple_eq_refl, triple_lem}

unfoldable among : TriplePattern → List TriplePattern → Bool
among t [] = false
among t (x ∷ cs) = triple_eq x t || among t cs

-- every pattern passes the test
unfoldable pub all : (TriplePattern → Bool) → List TriplePattern → Bool
all p [] = true
all p (t ∷ ts) = p t && all p ts

-- the taken candidate and the others are the candidates
record Taken (t : TriplePattern) (cs rest : List TriplePattern) : Type 0 where
  taken : take_candidate t cs ≡ some (t, rest)
  perm : Perm (t ∷ rest) cs
  fewer : length cs ≡ suc (length rest)
  kept : (p : TriplePattern → Bool) → all p cs ≡ true → (p t && all p rest) ≡ true

take_candidate-Taken :
    (t : TriplePattern) (cs : List TriplePattern)
    → among t cs ≡ true
    → (rest : List TriplePattern) × Taken t cs rest
unfolding take_candidate all among
take_candidate-Taken t [] h = cc
take_candidate-Taken t (x ∷ cs) h = elim (Bool-cases (triple_eq x t)) [
  | inl e ↦
      let same = triple_lem x t e in
      (
        cs,
        record {
          taken = ground (arith, e, same);
          perm = rw same (Perm.refl (t ∷ cs));
          fewer = refl;
          kept = λ p a. rw same at a;
        },
      )
  | inr e ↦
      let (rest, r) = take_candidate-Taken t cs (ground (arith, e, h)) in
      (
        x ∷ rest,
        record {
          taken = ground (arith, e, r.taken);
          perm = Perm.trans (Perm.swap x t rest) (Perm.cons x r.perm);
          fewer = ap suc r.fewer;
          kept = λ p a. ground (arith, r.kept p, a);
        },
      )
]

all_cons :
    (p : TriplePattern → Bool) (t : TriplePattern) (rest ordering : List TriplePattern)
    → (p t && all p rest) ≡ true
    → (all p rest ≡ true → all p ordering ≡ true)
    → (p t && all p ordering) ≡ true
all_cons p t rest ordering h f = ground (arith, f)

module _ (show_blank : BlankNode → String) (values : Values) where
  abbrev cost_at : List String → TriplePattern → ℕ
  cost_at visited t = cost show_blank t visited values

  -- at least as costly
  abbrev pub no_cheaper : List String → TriplePattern → TriplePattern → Bool
  no_cheaper visited t u = leb (cost_at visited t) (cost_at visited u)

  pick_first :
      (o : Ordering) (a b : ℕ) (x y : TriplePattern)
      → o ≡ compare a b
      → leb a b ≡ true
      → elim o [ Ordering.lt ↦ x | Ordering.eq ↦ x | Ordering.gt ↦ y ] ≡ x
  pick_first o a b x y e h = ground arith

  pick_second :
      (o : Ordering) (a b : ℕ) (x y : TriplePattern)
      → o ≡ compare a b
      → leb a b ≡ false
      → elim o [ Ordering.lt ↦ x | Ordering.eq ↦ x | Ordering.gt ↦ y ] ≡ y
  pick_second o a b x y e h = ground arith

  min_by_keeps :
      (best t : TriplePattern) (ts : List TriplePattern) (visited : List String)
      → no_cheaper visited best t ≡ true
      → min_by show_blank best (t ∷ ts) visited values ≡ min_by show_blank best ts visited values
  unfolding min_by
  min_by_keeps best t ts visited h =
      ap (λ b. min_by show_blank b ts visited values)
        (pick_first _ _ _ best t (strictly_before-compare show_blank best t visited values) h)

  min_by_takes :
      (best t : TriplePattern) (ts : List TriplePattern) (visited : List String)
      → no_cheaper visited best t ≡ false
      → min_by show_blank best (t ∷ ts) visited values ≡ min_by show_blank t ts visited values
  unfolding min_by
  min_by_takes best t ts visited h =
      ap (λ b. min_by show_blank b ts visited values)
        (pick_second _ _ _ best t (strictly_before-compare show_blank best t visited values) h)

  -- one of the candidates, and as cheap as any
  abbrev IsLeast : List String → TriplePattern → List TriplePattern → Type 0
  IsLeast visited m cs = (among m cs ≡ true) × (all (no_cheaper visited m) cs ≡ true)

  IsLeast-keeps :
      (m best t : TriplePattern) (ts : List TriplePattern) (visited : List String)
      → no_cheaper visited best t ≡ true
      → IsLeast visited m (best ∷ ts)
      → IsLeast visited m (best ∷ t ∷ ts)
  unfolding all among
  IsLeast-keeps m best t ts visited h (there, least) = (ground arith, ground arith)

  IsLeast-takes :
      (m best t : TriplePattern) (ts : List TriplePattern) (visited : List String)
      → no_cheaper visited best t ≡ false
      → IsLeast visited m (t ∷ ts)
      → IsLeast visited m (best ∷ t ∷ ts)
  unfolding all among
  IsLeast-takes m best t ts visited h (there, least) = (ground arith, ground arith)

  min_by-IsLeast :
      (best : TriplePattern) (ts : List TriplePattern) (visited : List String)
      → IsLeast visited (min_by show_blank best ts visited values) (best ∷ ts)
  min_by-IsLeast best [] visited =
      unfold min_by all among in (ground (arith, triple_eq_refl best), ground arith)
  min_by-IsLeast best (t ∷ ts) visited = elim (Bool-cases (no_cheaper visited best t)) [
    | inl h ↦
        rw (min_by_keeps best t ts visited h)
          (IsLeast-keeps _ best t ts visited h (min_by-IsLeast best ts visited))
    | inr h ↦
        rw (min_by_takes best t ts visited h)
          (IsLeast-takes _ best t ts visited h (min_by-IsLeast t ts visited))
  ]

  -- Each pattern is one of the least costly of those from it on, after those before it are visited.
  abbrev pub IsGreedy : List String → List TriplePattern → Type 0
  IsGreedy visited [] = Unit
  IsGreedy visited (t ∷ ordering) =
      (all (no_cheaper visited t) ordering ≡ true) × IsGreedy (visit show_blank t visited) ordering

  record Ordered (visited : List String) (cs ordering : List TriplePattern) : Type 0 where
    perm : Perm ordering cs
    greedy : IsGreedy visited ordering
    kept : (p : TriplePattern → Bool) → all p cs ≡ true → all p ordering ≡ true

  order_loop_step :
      (fuel : ℕ) (c t : TriplePattern) (cs rest ordering : List TriplePattern)
      (visited : List String)
      → take_candidate (min_by show_blank c cs visited values) (c ∷ cs) ≡ some (t, rest)
      → order_loop show_blank fuel rest (visit show_blank t visited) values ≡ some ordering
      → order_loop show_blank (suc fuel) (c ∷ cs) visited values ≡ some (t ∷ ordering)
  unfolding order_loop
  order_loop_step fuel c t cs rest ordering visited h g = ground (arith, h, g)

  order_loop-Ordered :
      (fuel : ℕ) (cs : List TriplePattern) (visited : List String)
      → length cs ≤ fuel
      → (ordering : List TriplePattern) × (order_loop show_blank fuel cs visited values
          ≡ some ordering)
        × Ordered visited cs ordering
  unfolding order_loop all
  order_loop-Ordered fuel [] visited h =
      ([], refl, record { perm = Perm.refl []; greedy = tt; kept = λ p a. refl })
  order_loop-Ordered zero (c ∷ cs) visited h = absurd (omega arith)
  order_loop-Ordered (suc fuel) (c ∷ cs) visited h =
      let t = min_by show_blank c cs visited values in
      let (there, least) = min_by-IsLeast c cs visited in
      let (rest, r) = take_candidate-Taken t (c ∷ cs) there in
      let (ordering, done, o) =
        order_loop-Ordered fuel rest (visit show_blank t visited) (omega (arith, r.fewer, h)) in
      (
        t ∷ ordering,
        order_loop_step fuel c t cs rest ordering visited r.taken done,
        record {
          perm = Perm.trans (Perm.cons t o.perm) r.perm;
          greedy = (
            o.kept (no_cheaper visited t) (and-cases _ _ (r.kept (no_cheaper visited t) least)).1,
            o.greedy,
          );
          kept = λ p a. all_cons p t rest ordering (r.kept p a) (o.kept p);
        },
      )

-- The ordering does not panic; it has the given patterns, each as often, and from those not yet taken
-- always takes one of the least costly.
pub order_triple_patterns-IsGreedy :
    (show_blank : BlankNode → String) (tps : List TriplePattern) (sm : Option (List String))
    (pushdowns : Pushdowns)
    → (ordering : List TriplePattern) × (order_triple_patterns show_blank tps sm pushdowns
        ≡ some ordering)
      × Perm ordering tps
      × IsGreedy show_blank pushdowns.variables_values (known_names sm) ordering
unfolding order_triple_patterns
order_triple_patterns-IsGreedy show_blank tps sm pushdowns =
    let (ordering, done, o) =
      order_loop-Ordered show_blank pushdowns.variables_values (length tps) tps (known_names sm)
        (omega arith) in
    (ordering, done, o.perm, o.greedy)
