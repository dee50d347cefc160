-- ===== src/Reconciler/Patience.antt =====
-- When a node's surfaces are moved away: not before the grace period is over.
use lwd.Base.{
  Bool, Option, String, false, if◌then◌else◌, ltb, none, refl, some, str_eq, sym, true, ℕ, ◌+◌, ◌≡◌,
}
use lwd.Reconciler.World.{M, Outside, World, gets, modify, pure, ◌>>=◌}
use lwd.Reconciler.Rules.{Runs, Runs-bind, Runs-weaken}
use lwd.Reconciler.Keeps.{Keeps, Keeps-ask, Keeps-bind, Keeps-is_reachable, world_after}
use lwd.Reconciler.Failover.{failover_node, first_seen, forget_node, lost_since, mark_unreachable}

-- The store, the routes and the containers are those of `w`.
abbrev pub IsStill : World → World → Type 0
IsStill w u = (u.store ≡ w.store) × (u.router ≡ w.router) × (u.log ≡ w.log)

module _ (out : Outside) (name : String) (w : World) where
  abbrev Still : World → Type 0
  Still u = IsStill w u

  abbrev Waiting : World → Type 0
  Waiting u = IsStill w u × (u.unreachable_since name ≡ w.unreachable_since name)

  forgot : Keeps Still (modify (forget_node name))
  unfolding forget_node
  forgot = record { from = λ v h. record { holds = h } }

  marked : (t : ℕ) → Keeps Still (modify (mark_unreachable name t))
  unfolding mark_unreachable
  marked t = record { from = λ v h. record { holds = h } }

  module _
      (patient : (t since : ℕ)
        → w.unreachable_since name ≡ some since
        → ltb (out.now t) (since + out.failover_grace) ≡ true) where
    lost_since-Runs :
        (since : ℕ) (v : World)
        → w.unreachable_since name ≡ some since
        → Still v
        → Runs (λ _ u. Still u) (λ _ u. Still u) (lost_since out name since) v
    unfolding ◌>>=◌
    lost_since-Runs since v e h = record { holds = rw (patient v.tick since e) h }

    first_seen-Runs :
        (o : Option ℕ) (v : World)
        → o ≡ w.unreachable_since name
        → Still v
        → Runs (λ _ u. Still u) (λ _ u. Still u) (first_seen out name o) v
    first_seen-Runs none v e h =
        (Keeps-bind Still _ _ (Keeps-ask Still (λ v t h. h) out.now) marked).from v h
    first_seen-Runs (some since) v e h = lost_since-Runs since v (sym e) h

    reached-Runs :
        (up : Bool) (v : World)
        → Waiting v
        → Runs
            (λ _ u. Still u)
            (λ _ u. Still u)
            (if up
              then modify (forget_node name)
              else gets (λ u. u.unreachable_since name) >>= first_seen out name)
            v
    unfolding ◌>>=◌
    reached-Runs true v h = forgot.from v h.0
    reached-Runs false v (h, e) = record {
      holds = (first_seen-Runs (v.unreachable_since name) v e h).holds;
    }

    node-Runs :
        (b : Bool) (m : M (Unit {0}))
        → Runs (λ _ u. Still u) (λ _ u. Still u) m w
        → Runs (λ _ u. Still u) (λ _ u. Still u) (if b then pure tt else m) w
    node-Runs true m k = record { holds = (refl, refl, refl) }
    node-Runs false m k = k

    failover-Runs : Runs (λ _ u. Still u) (λ _ u. Still u) (failover_node out name) w
    unfolding failover_node
    failover-Runs = node-Runs (str_eq name "local") _ (
        Runs-bind (λ _ u. Waiting u) (λ _ u. Still u) (λ _ u. Still u) _ _ w
          (Runs-weaken (λ _ u. Waiting u) (λ _ u. Waiting u) (λ _ u. Waiting u) (λ _ u. Still u) _ w
            ((Keeps-is_reachable Waiting (λ v t h. h) out name).from w ((refl, refl, refl), refl))
            (λ a u h. h) (λ e u h. h.0))
          λ up v h. reached-Runs up v h)

    -- If no clock reading is past the grace period after the node was first found unreachable, or
    -- it never was, then a failover pass over the node leaves the store, the routes and the
    -- containers as they are.
    pub failover_node-patient : IsStill w (failover_node out name w).1
    failover_node-patient = world_after Still (failover_node out name w) failover-Runs.holds
