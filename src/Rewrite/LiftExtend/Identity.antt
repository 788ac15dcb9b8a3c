-- ===== src/Rewrite/LiftExtend/Identity.antt =====
-- The lift pass as a whole, rewrite_lift_extend.rs.
use maplib.Prelude.{◌≡◌, refl, []}
use maplib.Algebra.{GraphPattern}
use maplib.Rewrite.LiftExtend.{rewrite_lift_extend, terminating_lift_extend}

-- No extend is ever taken out of a pattern, and the pattern comes back as it was.
pub rewrite_lift_extend_lem : (gp : GraphPattern) → rewrite_lift_extend gp ≡ (gp, [])
unfolding rewrite_lift_extend
rewrite_lift_extend_lem (GraphPattern.join l r) =
    rw (rewrite_lift_extend_lem l, rewrite_lift_extend_lem r)
rewrite_lift_extend_lem (GraphPattern.left_join l r e) =
    rw (rewrite_lift_extend_lem l, rewrite_lift_extend_lem r)
rewrite_lift_extend_lem (GraphPattern.filter e p) = rw (rewrite_lift_extend_lem p)
rewrite_lift_extend_lem (GraphPattern.union l r) =
    rw (rewrite_lift_extend_lem l, rewrite_lift_extend_lem r)
rewrite_lift_extend_lem (GraphPattern.graph n p) = rw (rewrite_lift_extend_lem p)
rewrite_lift_extend_lem (GraphPattern.extend p v e) = rw (rewrite_lift_extend_lem p)
rewrite_lift_extend_lem (GraphPattern.minus l r) =
    rw (rewrite_lift_extend_lem l, rewrite_lift_extend_lem r)
rewrite_lift_extend_lem (GraphPattern.order_by p e) = rw (rewrite_lift_extend_lem p)
rewrite_lift_extend_lem (GraphPattern.project p vs) = rw (rewrite_lift_extend_lem p)
rewrite_lift_extend_lem (GraphPattern.distinct p) = rw (rewrite_lift_extend_lem p)
rewrite_lift_extend_lem (GraphPattern.reduced p) = rw (rewrite_lift_extend_lem p)
rewrite_lift_extend_lem (GraphPattern.slice p n k) = rw (rewrite_lift_extend_lem p)
rewrite_lift_extend_lem (GraphPattern.group p vs a) = rw (rewrite_lift_extend_lem p)
rewrite_lift_extend_lem other = refl

-- The whole pass is the identity on every graph pattern.
pub terminating_lift_extend_lem : (gp : GraphPattern) → terminating_lift_extend gp ≡ gp
unfolding terminating_lift_extend
terminating_lift_extend_lem gp = rw (rewrite_lift_extend_lem gp)
