-- ===== src/Reconciler/Retire.antt =====
-- internal/reconciler/reconciler.go: the removal of the old set, the middle part of
-- deployReplicaSet after the route's flip, and nodeFromSpec.
use lwd.Base.{
  List, Option, Result, String, [], err, if◌then◌else◌, none, not, ok, pos, some, str_eq, ◌∷◌,
}
use lwd.Reconciler.World.{
  M, Meta, Outside, ask_result, attempt, exec, ignore, is_reachable, pure, query, remove_container,
  ◌>>=◌, ◌>>◌,
}
use lwd.Store.{Deployment, Replica, current_deployment, retired, set_status}

module _ (out : Outside) where
  unfoldable pub node_from_spec : String → String
  node_from_spec spec =
      if str_eq spec "" then "" else elim (out.unmarshal spec) [ ok a ↦ a.node | err e ↦ "" ]

  abbrev pub node_or_local : String → String
  node_or_local name = if str_eq name "" then "local" else name

  abbrev pub remove_resolved : String → String → Result Meta → M (Unit {0})
  remove_resolved name id (err e) = pure tt
  remove_resolved name id (ok m) = ignore (remove_container out name id)

  abbrev pub retire_replica : Replica → M (Unit {0})
  retire_replica r = do
    up ← is_reachable out (node_or_local r.node)
    if not up then pure tt else do
      m ← attempt (ask_result (λ t. out.resolve_meta t (node_or_local r.node)))
      remove_resolved (node_or_local r.node) r.container_id m

  unfoldable pub retire_replicas : List Replica → M (Unit {0})
  retire_replicas [] = pure tt
  retire_replicas (r ∷ rs) = do retire_replica r; retire_replicas rs

  -- A row from before replica sets has its one container on its app's node.
  unfoldable pub old_replicas : Deployment → List Replica
  old_replicas d = elim d.replicas [
    | [] ↦
        if str_eq d.container_id ""
        then []
        else record {
          container_id = d.container_id;
          node = node_from_spec d.spec;
          upstream = "";
          port = pos 0;
        }
          ∷ []
    | r ∷ rs ↦ r ∷ rs
  ]

  abbrev pub retire_found : Result (Option Deployment) → M (Unit {0})
  retire_found (err e) = pure tt
  retire_found (ok none) = pure tt
  retire_found (ok (some prev)) = do
    retire_replicas (old_replicas prev)
    ignore (exec out (set_status prev.id retired))

  unfoldable pub retire_old_set : String → M (Unit {0})
  retire_old_set app = do prev ← attempt (query out (current_deployment app)); retire_found prev
