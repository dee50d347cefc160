-- ===== src/Reconciler/Pass.antt =====
-- internal/reconciler/reconcile.go: a pass over the apps, the probes of the nodes and the edge, and
-- the failover of lost nodes. The recovery of a panic is not modelled.
use lwd.Base.{
  Bool, Error, List, Option, Result, String, [], err, errorf, if◌then◌else◌, none, not, ok, some,
  str, str_eq, suc, true, ℕ, ◌+++◌, ◌++◌, ◌||◌, ◌∷◌,
}
use lwd.Reconciler.World.{
  M, Meta, Outside, ask, ask_result, attempt, gets, is_reachable, modify, pure, query, ◌>>=◌, ◌>>◌,
}
use lwd.Reconciler.Heal.{heal_attempts, try_heal_with}
use lwd.Reconciler.Health.{AppHealth, surface_degraded, surface_healthy}
use lwd.Reconciler.Apply.{heal_surface_locked}
use lwd.Reconciler.ReplicaHeal.{heal_dead_replicas_locked}
use lwd.Reconciler.Remove.{is_compose_app, normalize_node}
use lwd.Reconciler.Retire.{node_from_spec}
use lwd.Store.{Deployment, Replica, current_deployment}
use lwd.Reconciler.Rollout.{reset_heal}
use lwd.Spec.Validate.{is_nil}

unfoldable pub surface_is_dead : Result (String × String) → Bool
surface_is_dead (err e) = true
surface_is_dead (ok (state, docker)) = not (str_eq state "running")

-- strings.Join(names, ",")
unfoldable pub joined : List String → String
joined [] = ""
joined (n ∷ []) = n
joined (n ∷ m ∷ ns) = n +++ ("," +++ joined (m ∷ ns))

unfoldable pub clear_heal_attempts : String → M (Unit {0})
clear_heal_attempts app = modify (reset_heal app)

-- What the loop over a set's replicas collects.
pub record Survey : Type 0 where
  pub dead : List ℕ
  pub unreachable : List String

abbrev pub with_dead : Survey → ℕ → Bool → Survey
with_dead s i b = if b then record s { dead = s.dead ++ i ∷ [] } else s

abbrev pub with_unreachable : Survey → String → Survey
with_unreachable s node = record s { unreachable = s.unreachable ++ node ∷ [] }

module _ (out : Outside) where
  unfoldable pub try_heal : String → Deployment → M (Option AppHealth)
  try_heal app cur = try_heal_with out app (heal_surface_locked out) cur

  unfoldable pub try_heal_replicas : String → Deployment → List ℕ → M (Option AppHealth)
  try_heal_replicas app cur dead =
      try_heal_with out app (λ fresh. heal_dead_replicas_locked out fresh dead) cur

  abbrev pub degraded : String → Error → ℕ → M (Option AppHealth)
  degraded app e now = do
    n ← gets (heal_attempts app)
    pure (
        some (record {
          app = app;
          state = surface_degraded;
          last_error = some e;
          heal_attempts = n;
          updated_at = now;
        }))

  abbrev pub healthy : String → ℕ → M (Option AppHealth)
  healthy app now = do
    clear_heal_attempts app
    pure (
        some (record {
          app = app;
          state = surface_healthy;
          last_error = none;
          heal_attempts = 0;
          updated_at = now;
        }))

  abbrev pub health_on : String → String → M (Result (String × String))
  health_on node id = attempt (ask_result (λ t. out.container_health t node id))

  abbrev pub legacy_resolved : String → Deployment → ℕ → String → Result Meta → M (Option AppHealth)
  legacy_resolved app cur now node (err e) = degraded app e now
  legacy_resolved app cur now node (ok m) = do
    h ← health_on node cur.container_id
    if not (surface_is_dead h) then healthy app now else try_heal app cur

  unfoldable pub reconcile_legacy_surface : String → Deployment → ℕ → M (Option AppHealth)
  reconcile_legacy_surface app cur now = do
    let node = normalize_node (node_from_spec out cur.spec)
    up ← is_reachable out node
    if not up then degraded app (errorf "node %s unreachable" (str node ∷ [])) now else do
      m ← attempt (ask_result (λ t. out.resolve_meta t node))
      legacy_resolved app cur now node m

  abbrev pub survey_resolved : Survey → ℕ → String → String → Result Meta → M Survey
  survey_resolved s i node id (err e) = pure (with_unreachable s node)
  survey_resolved s i node id (ok m) = do
    h ← health_on node id
    pure (with_dead s i (surface_is_dead h))

  -- The body of the loop over a set's replicas.
  unfoldable pub survey_replica : Survey → ℕ → Replica → M Survey
  survey_replica s i r = do
    up ← is_reachable out (normalize_node r.node)
    if not up then pure (with_unreachable s (normalize_node r.node)) else do
      m ← attempt (ask_result (λ t. out.resolve_meta t (normalize_node r.node)))
      survey_resolved s i (normalize_node r.node) r.container_id m

  unfoldable pub survey : Survey → ℕ → List Replica → M Survey
  survey s i [] = pure s
  survey s i (r ∷ rs) = do next ← survey_replica s i r; survey next (suc i) rs

  -- Dead replicas are healed, even if others are on nodes that do not answer.
  abbrev pub surveyed : String → Deployment → ℕ → Survey → M (Option AppHealth)
  surveyed app cur now s =
      if not (is_nil s.dead)
      then try_heal_replicas app cur s.dead
      else if not (is_nil s.unreachable)
      then degraded app (errorf "node %s unreachable" (str (joined s.unreachable) ∷ [])) now
      else healthy app now

  unfoldable pub reconcile_replica_set : String → Deployment → ℕ → M (Option AppHealth)
  reconcile_replica_set app cur now = do
    s ← survey (record { dead = []; unreachable = [] }) 0 cur.replicas
    surveyed app cur now s

  abbrev pub reconcile_current : String → ℕ → Result (Option Deployment) → M (Option AppHealth)
  reconcile_current app now (err e) = degraded app e now
  reconcile_current app now (ok none) = pure none
  reconcile_current app now (ok (some cur)) =
      if str_eq cur.container_id "" || is_compose_app out cur.spec
      then pure none
      else if is_nil cur.replicas
      then reconcile_legacy_surface app cur now
      else reconcile_replica_set app cur now

  unfoldable pub reconcile_app : String → M (Option AppHealth)
  reconcile_app app = do
    now ← ask out.now
    cur ← attempt (query out (current_deployment app))
    reconcile_current app now cur

  abbrev pub with_found : List AppHealth → Option AppHealth → List AppHealth
  with_found hs none = hs
  with_found hs (some h) = hs ++ h ∷ []

  unfoldable pub reconcile_apps : List String → List AppHealth → M (List AppHealth)
  reconcile_apps [] hs = pure hs
  reconcile_apps (app ∷ apps) hs = do h ← reconcile_app app; reconcile_apps apps (with_found hs h)
