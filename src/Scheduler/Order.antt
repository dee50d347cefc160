-- ===== src/Scheduler/Order.antt =====
-- The comparison of `Place` ranks candidates: it is a strict weak order, and only equal names tie.
use lwd.Base.{arith, false, str_ltb-asym, str_ltb-connex, str_ltb-neg_trans, ◌≡◌}
use lwd.Base.Sort.{IsWeakOrder}
use lwd.Scheduler.{Float64, NodeInfo, ranks_before}

module _ (fl : Float64) where
  pub ranks_before-IsWeakOrder : IsWeakOrder (ranks_before fl)
  unfolding ranks_before
  ranks_before-IsWeakOrder = record {
    asym = λ a b h. ground (arith, h, str_ltb-asym a.name b.name);
    neg_trans = λ a b c h k. ground (arith, h, k, str_ltb-neg_trans a.name b.name c.name);
  }

  pub ranks_before-connex :
      (a b : NodeInfo) → ranks_before fl a b ≡ false → ranks_before fl b a ≡ false → a.name ≡ b.name
  unfolding ranks_before
  ranks_before-connex a b h k = ground (arith, h, k, str_ltb-connex a.name b.name)
