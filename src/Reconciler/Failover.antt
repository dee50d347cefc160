-- ===== src/Reconciler/Failover.antt =====
-- internal/reconciler/reconcile.go: the probes of the nodes and the edge, the failover of lost nodes,
-- and a whole pass. The recovery of a panic is not modelled.
use lwd.Base.{
  Bool, List, Option, Result, String, [], err, false, if◌then◌else◌, ltb, none, not, ok, some,
  str_eq, ℕ, ◌+◌, ◌∷◌,
}
use lwd.Reconciler.World.{
  M, Meta, Outside, World, ask, ask_result, attempt, gets, ignore, is_reachable, modify, pure,
  query, wrapping, ◌>>=◌, ◌>>◌,
}
use lwd.Reconciler.Placement.{or_zero}
use lwd.Reconciler.Health.{EdgeHealth, Health, NodeHealth}
use lwd.Reconciler.Drain.{evacuate_node}
use lwd.Reconciler.Pass.{reconcile_apps}
use lwd.Store.{NodeRow, list_apps, list_nodes}
use lwd.Scheduler.{Capacity, no_capacity}

-- delete(r.unreachableSince, name)
unfoldable pub forget_node : String → World → World
forget_node name w = record w {
  unreachable_since = λ n. if str_eq n name then none else w.unreachable_since n;
}

-- r.unreachableSince[name] = t
unfoldable pub mark_unreachable : String → ℕ → World → World
mark_unreachable name t w = record w {
  unreachable_since = λ n. if str_eq n name then some t else w.unreachable_since n;
}

unfoldable pub set_health : Health → World → World
set_health h w = record w { health = h }

-- Without a Reachability nothing is probed.
abbrev pub if_observed : {A : Type 0} → A → M A → Option (ℕ → String → Bool) → M A
if_observed a m none = pure a
if_observed a m (some f) = m

module _ (out : Outside) where
  abbrev pub capacity_resolved : String → Result Meta → M Capacity
  capacity_resolved node (err e) = pure no_capacity
  capacity_resolved node (ok m) = do
    c ← attempt (ask_result (λ t. out.capacity t node))
    pure (or_zero no_capacity c)

  unfoldable pub probe_capacity : String → M Capacity
  probe_capacity node = do
    m ← attempt (ask_result (λ t. out.resolve_meta t node))
    capacity_resolved node m

  unfoldable pub probe_node : ℕ → String → Bool → M NodeHealth
  probe_node now name cordoned = do
    transport ← ask (λ t. out.transport t name)
    up ← is_reachable out name
    capacity ← probe_capacity name
    pure (record {
      name = name;
      transport = transport;
      reachable = up;
      updated_at = now;
      capacity = capacity;
      cordoned = cordoned;
    })

  unfoldable pub probe_rows : ℕ → List NodeRow → M (List NodeHealth)
  probe_rows now [] = pure []
  probe_rows now (n ∷ ns) = do
    h ← probe_node now n.name (not n.schedulable)
    hs ← probe_rows now ns
    pure (h ∷ hs)

  abbrev pub probe_all : M (List NodeHealth)
  probe_all = do
    now ← ask out.now
    local ← probe_node now "local" false
    nodes ← attempt (query out list_nodes)
    hs ← probe_rows now (or_zero [] nodes)
    pure (local ∷ hs)

  unfoldable pub probe_nodes : M (List NodeHealth)
  probe_nodes = if_observed [] probe_all out.reach

  unfoldable pub probe_edge : M EdgeHealth
  probe_edge = do
    up ← ask out.caddy_healthy
    now ← ask out.now
    pure (record { reachable = up; updated_at = now })

  -- A node that has not answered since `since`.
  abbrev pub lost_since : String → ℕ → M (Unit {0})
  lost_since name since = do
    now ← ask out.now
    if ltb now (since + out.failover_grace)
        then pure tt
        else do ignore (evacuate_node out name); modify (forget_node name)

  abbrev pub first_seen : String → Option ℕ → M (Unit {0})
  first_seen name none = do now ← ask out.now; modify (mark_unreachable name now)
  first_seen name (some since) = lost_since name since

  -- The loop's body for one node.
  unfoldable pub failover_node : String → M (Unit {0})
  failover_node name = if str_eq name "local" then pure tt else do
    up ← is_reachable out name
    if up
        then modify (forget_node name)
        else do since ← gets (λ w. w.unreachable_since name); first_seen name since

  unfoldable pub failover_nodes : List NodeRow → M (Unit {0})
  failover_nodes [] = pure tt
  failover_nodes (n ∷ ns) = do failover_node n.name; failover_nodes ns

  abbrev pub failover_listed : Result (List NodeRow) → M (Unit {0})
  failover_listed (err e) = pure tt
  failover_listed (ok nodes) = failover_nodes nodes

  abbrev pub failover_all : M (Unit {0})
  failover_all = do nodes ← attempt (query out list_nodes); failover_listed nodes

  -- Without a Reachability, no node is ever taken to be lost.
  unfoldable pub failover_lost_nodes : M (Unit {0})
  failover_lost_nodes = if_observed tt failover_all out.reach

  unfoldable pub reconcile : M (Unit {0})
  reconcile = do
    apps ← wrapping "reconcile: list apps: %w" [] (query out list_apps)
    found ← reconcile_apps out apps []
    nodes ← probe_nodes
    edge ← probe_edge
    modify (set_health (record { nodes = nodes; edge = edge; apps = found }))
    failover_lost_nodes
