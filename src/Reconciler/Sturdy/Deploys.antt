-- ===== src/Reconciler/Sturdy/Deploys.antt =====
-- Deploys of replica sets keep every sturdy invariant.
use lwd.Base.{List, Option, Result, String, [], err, none, ok, some, ℕ, ◌∷◌}
use lwd.Reconciler.World.{Container, Meta, Outside, World, call_router}
use lwd.Reconciler.Keeps.{Keeps, Keeps-bind}
use lwd.Reconciler.Sturdy.{IsSturdy, sturdy-IsQuiet, sturdy_rules}
use lwd.Reconciler.Staging.{stage_set-Keeps, undone-Keeps}
use lwd.Reconciler.Asked.{more_targets-Keeps}
use lwd.Reconciler.Rollout.{Rollout, Started, Target}
use lwd.Reconciler.Deploy.{deploy_replica_set, guarded, record_live}
use lwd.Reconciler.Retire.{
  remove_resolved, retire_found, retire_old_set, retire_replica, retire_replicas,
}
use lwd.Router.{Route, set_route}
use lwd.Store.{Deployment, Replica}

module _ (out : Outside) (I : World → Type 0) (sturdy : IsSturdy I) where
  pub remove_resolved-Keeps :
      (name id : String) (r : Result Meta) → Keeps I (remove_resolved out name id r)
  remove_resolved-Keeps name id (ok m) = search sturdy_rules
  remove_resolved-Keeps name id (err e) = search sturdy_rules

  retire_replica-Keeps : (r : Replica) → Keeps I (retire_replica out r)
  retire_replica-Keeps r = search (sturdy_rules, sturdy.ticks, remove_resolved-Keeps)

  retire_replicas-Keeps : (rs : List Replica) → Keeps I (retire_replicas out rs)
  unfolding retire_replicas
  retire_replicas-Keeps [] = search sturdy_rules
  retire_replicas-Keeps (r ∷ rs) =
      Keeps-bind I _ _ (retire_replica-Keeps r) λ _. retire_replicas-Keeps rs

  retire_found-Keeps : (r : Result (Option Deployment)) → Keeps I (retire_found out r)
  retire_found-Keeps (err e) = search sturdy_rules
  retire_found-Keeps (ok none) = search sturdy_rules
  retire_found-Keeps (ok (some prev)) = search (sturdy_rules, retire_replicas-Keeps)

  retire_old_set-Keeps : (app : String) → Keeps I (retire_old_set out app)
  unfolding retire_old_set
  retire_old_set-Keeps app = search (sturdy_rules, sturdy.ticks, retire_found-Keeps)

  record_live-Keeps : (q : Rollout) (id : ℕ) (st : Started) → Keeps I (record_live out q id st)
  unfolding record_live
  record_live-Keeps q id st = search (sturdy_rules, sturdy.ticks, retire_old_set-Keeps) depth 14

  flip-Keeps :
      (q : Rollout) (host : String) (ts : List Target) (cs : List Container) (r : Route)
      → Keeps I (guarded out q host ts cs "set route: %w" [] (call_router out (set_route r)))
  flip-Keeps q host ts cs r = search (sturdy_rules, undone-Keeps out I (sturdy-IsQuiet I sturdy))

  pub deploy_replica_set-Keeps : (q : Rollout) → Keeps I (deploy_replica_set out q)
  unfolding deploy_replica_set
  deploy_replica_set-Keeps q =
      search
        (
          sturdy_rules,
          sturdy.ticks,
          more_targets-Keeps out I sturdy.ticks q,
          stage_set-Keeps out I (sturdy-IsQuiet I sturdy) q,
          flip-Keeps q,
          record_live-Keeps q,
        )
        depth 14
