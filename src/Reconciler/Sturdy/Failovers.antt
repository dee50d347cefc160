-- ===== src/Reconciler/Sturdy/Failovers.antt =====
-- Probes and failovers keep every enduring invariant, and so does a whole pass.
use lwd.Base.{
  Bool, List, Option, Result, String, [], err, if◌then◌else◌, leb, ltb, none, not, ok, some, str_eq,
  suc, ℕ, ◌∷◌,
}
use lwd.Reconciler.World.{HealState, M, Meta, Outside, World, modify}
use lwd.Reconciler.Keeps.{Keeps, Keeps-attempt, Keeps-bind, Keeps-if, Keeps-pure, keeps_rules}
use lwd.Reconciler.Sturdy.Passes.{IsEnduring, modify-Keeps, reconcile_apps-Keeps}
use lwd.Reconciler.Sturdy.Moves.{evacuate_node-Keeps}
use lwd.Reconciler.Failover.{
  capacity_resolved, failover_all, failover_listed, failover_lost_nodes, failover_node,
  failover_nodes, first_seen, if_observed, lost_since, probe_all, probe_capacity, probe_edge,
  probe_node, probe_nodes, probe_rows, reconcile,
}
use lwd.Store.{Deployment, NodeRow}
use lwd.Reconciler.Heal.{
  defer_heal, heal_open, healed, open_heal, rechecked, set_heal, try_heal_with,
}
use lwd.Reconciler.Rollout.{reset_heal}

module _ (out : Outside) (I : World → Type 0) (enduring : IsEnduring out I) where
  capacity_resolved-Keeps :
      (node : String) (r : Result Meta) → Keeps I (capacity_resolved out node r)
  capacity_resolved-Keeps node (err e) = search keeps_rules
  capacity_resolved-Keeps node (ok m) = search (keeps_rules, enduring.sturdy.ticks)

  probe_node-Keeps : (now : ℕ) (name : String) (b : Bool) → Keeps I (probe_node out now name b)
  unfolding probe_node probe_capacity
  probe_node-Keeps now name b =
      search (keeps_rules, enduring.sturdy.ticks, capacity_resolved-Keeps) depth 18

  probe_rows-Keeps : (now : ℕ) (ns : List NodeRow) → Keeps I (probe_rows out now ns)
  unfolding probe_rows
  probe_rows-Keeps now [] = search keeps_rules
  probe_rows-Keeps now (n ∷ ns) =
      Keeps-bind I _ _ (probe_node-Keeps now n.name (not n.schedulable))
        λ h. Keeps-bind I _ _ (probe_rows-Keeps now ns) λ hs. Keeps-pure I (h ∷ hs)

  probe_all-Keeps : Keeps I (probe_all out)
  probe_all-Keeps =
      search (keeps_rules, enduring.sturdy.ticks, probe_node-Keeps, probe_rows-Keeps) depth 18

  if_observed-Keeps :
      {A : Type 0} (a : A) (m : M A) (o : Option (ℕ → String → Bool))
      → Keeps I m
      → Keeps I (if_observed a m o)
  if_observed-Keeps a m none k = Keeps-pure I a
  if_observed-Keeps a m (some f) k = k

  lost_since-Keeps : (name : String) (since : ℕ) → Keeps I (lost_since out name since)
  lost_since-Keeps name since =
      search
        (
          keeps_rules,
          enduring.sturdy.ticks,
          evacuate_node-Keeps out I enduring.sturdy,
          modify-Keeps out I enduring,
          enduring.forgets,
        )
        depth 18

  first_seen-Keeps : (name : String) (since : Option ℕ) → Keeps I (first_seen out name since)
  first_seen-Keeps name none =
      search (keeps_rules, enduring.sturdy.ticks, modify-Keeps out I enduring, enduring.marks)
  first_seen-Keeps name (some since) = lost_since-Keeps name since

  failover_node-Keeps : (name : String) → Keeps I (failover_node out name)
  unfolding failover_node
  failover_node-Keeps name =
      search
        (
          keeps_rules,
          enduring.sturdy.ticks,
          first_seen-Keeps,
          modify-Keeps out I enduring,
          enduring.forgets,
        )
        depth 18

  failover_nodes-Keeps : (ns : List NodeRow) → Keeps I (failover_nodes out ns)
  unfolding failover_nodes
  failover_nodes-Keeps [] = search keeps_rules
  failover_nodes-Keeps (n ∷ ns) =
      Keeps-bind I _ _ (failover_node-Keeps n.name) λ _. failover_nodes-Keeps ns

  failover_listed-Keeps : (r : Result (List NodeRow)) → Keeps I (failover_listed out r)
  failover_listed-Keeps (err e) = search keeps_rules
  failover_listed-Keeps (ok ns) = failover_nodes-Keeps ns

  failover_all-Keeps : Keeps I (failover_all out)
  failover_all-Keeps = search (keeps_rules, enduring.sturdy.ticks, failover_listed-Keeps)

  pub reconcile-Keeps : Keeps I (reconcile out)
  unfolding reconcile probe_nodes probe_edge failover_lost_nodes
  reconcile-Keeps =
      search
        (
          keeps_rules,
          enduring.sturdy.ticks,
          reconcile_apps-Keeps out I enduring,
          modify-Keeps out I enduring,
          enduring.healths,
          if_observed-Keeps,
          probe_all-Keeps,
          failover_all-Keeps,
        )
        depth 24

-- An invariant that does not read the heal state is kept by healing with its backoff.
module _ (out : Outside) (I : World → Type 0)
    (ticks : (v : World) (t : ℕ) → I v → I (record v { tick = t }))
    (any_heal : (f : String → Option HealState) (v : World) → I v → I (record v { heal = f }))
    (app : String) (heal_fn : Deployment → M Deployment)
    (keeps : (d : Deployment) → Keeps I (heal_fn d)) where
  rehealed-Keeps :
      (f : World → String → Option HealState) → Keeps I (modify (λ v. record v { heal = f v }))
  rehealed-Keeps f = record { from = λ v h. record { holds = any_heal (f v) v h } }

  opened-Keeps : Keeps I (open_heal app)
  unfolding open_heal set_heal
  opened-Keeps = record { from = λ v h. record { holds = any_heal _ v h } }

  healed-Keeps : (n now : ℕ) (r : Result Deployment) → Keeps I (healed out app heal_fn n now r)
  unfolding reset_heal defer_heal
  healed-Keeps n now (ok d) =
      Keeps-bind I _ _ (rehealed-Keeps (λ v a. if str_eq a app then none else v.heal a))
        λ _. Keeps-pure I _
  healed-Keeps n now (err e) =
      Keeps-bind I _ _ (rehealed-Keeps λ v. (defer_heal app _ v).heal) λ _. Keeps-pure I _

  reheal_open-Keeps :
      (d : Deployment) (hs : HealState) (now : ℕ) → Keeps I (heal_open out app heal_fn d hs now)
  unfolding heal_open set_heal
  reheal_open-Keeps d hs now =
      Keeps-if I (leb out.heal_max_attempts hs.attempts) _ _ (Keeps-pure I _) (
        Keeps-if I (ltb now hs.next_eligible) _ _ (Keeps-pure I _) (
          Keeps-bind I _ _
            (rehealed-Keeps λ v a.
              if str_eq a app then some (record hs { attempts = suc hs.attempts }) else v.heal a)
            λ _.
              Keeps-bind I _ _ (Keeps-attempt I (heal_fn d) (keeps d))
                λ r. healed-Keeps (suc hs.attempts) now r))

  rechecked-Keeps :
      (cur : Deployment) (r : Result (Option Deployment))
      → Keeps I (rechecked out app heal_fn cur r)
  rechecked-Keeps cur (err e) = search keeps_rules
  rechecked-Keeps cur (ok none) = search keeps_rules
  rechecked-Keeps cur (ok (some d)) = search (keeps_rules, opened-Keeps, reheal_open-Keeps)

  pub any_heal-Keeps : (cur : Deployment) → Keeps I (try_heal_with out app heal_fn cur)
  unfolding try_heal_with
  any_heal-Keeps cur = search (keeps_rules, rechecked-Keeps)
