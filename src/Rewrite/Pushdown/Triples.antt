-- ===== src/Rewrite/Pushdown/Triples.antt =====
-- The triple patterns of a query under the push-down.
use mathlib.Core.List.Perm
use maplib.Prelude.{
  ◌≡◌, true, false, refl, List, [], ◌∷◌, ◌++◌, if◌then◌else◌, append-nil, append_assoc, reverse,
  Perm, perm_middle,
}
use maplib.Algebra.{Expression, GraphPattern, TriplePattern}
use maplib.Rewrite.Pushdown.{is_variable, wrap_filters, create_filter_gps, deal_patterns}

-- The triple patterns of a pattern, from left to right. The patterns inside filter expressions are
-- not counted.
unfoldable pub triples : GraphPattern → List TriplePattern
triples (GraphPattern.bgp ps) = ps
triples (GraphPattern.path s p o) = []
triples (GraphPattern.join l r) = triples l ++ triples r
triples (GraphPattern.left_join l r e) = triples l ++ triples r
triples (GraphPattern.filter e p) = triples p
triples (GraphPattern.union l r) = triples l ++ triples r
triples (GraphPattern.graph n p) = triples p
triples (GraphPattern.extend p v e) = triples p
triples (GraphPattern.minus l r) = triples l ++ triples r
triples (GraphPattern.values vs bs) = []
triples (GraphPattern.pvalues vs b) = []
triples (GraphPattern.order_by p e) = triples p
triples (GraphPattern.project p vs) = triples p
triples (GraphPattern.distinct p) = triples p
triples (GraphPattern.reduced p) = triples p
triples (GraphPattern.slice p n k) = triples p
triples (GraphPattern.group p vs a) = triples p
triples (GraphPattern.service n p s) = triples p

pub triples-wrap_filters :
    (fs : List Expression) (gp : GraphPattern) → triples (wrap_filters gp fs) ≡ triples gp
unfolding triples wrap_filters
triples-wrap_filters [] gp = refl
triples-wrap_filters (f ∷ fs) gp = triples-wrap_filters fs (GraphPattern.filter f gp)

pub triples-create_filter_gps :
    (gp : GraphPattern) (fs : List Expression) → triples (create_filter_gps gp fs) ≡ triples gp
unfolding create_filter_gps
triples-create_filter_gps gp fs = triples-wrap_filters (reverse fs) gp

abbrev dealt : List TriplePattern × List TriplePattern → List TriplePattern
dealt d = d.0 ++ d.1

pub deal_patterns-perm :
    (ps left right : List TriplePattern)
    → Perm (dealt (deal_patterns ps left right)) (left ++ (right ++ ps))
unfolding deal_patterns
deal_patterns-perm [] left right = rw append-nil (Perm.refl (left ++ right))
deal_patterns-perm (p ∷ ps) left right =
    elim (is_variable p.predicate)
      as (λ b.
        Perm
          (dealt (
            let (l, r) : List TriplePattern × List TriplePattern =
              if b then (left, right ++ p ∷ []) else (left ++ p ∷ [], right) in
            deal_patterns ps l r))
          (left ++ (right ++ p ∷ ps))) [
            | true ↦
                rw (← append_assoc right (p ∷ []) ps) (deal_patterns-perm ps left (right ++ p ∷ []))
            | false ↦ Perm.trans (deal_patterns-perm ps (left ++ p ∷ []) right) (
                rw (append_assoc left (p ∷ []) (right ++ ps))
                  (Perm.append_left left (Perm.symm (perm_middle right ps))))
          ]
