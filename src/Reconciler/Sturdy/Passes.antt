-- ===== src/Reconciler/Sturdy/Passes.antt =====
-- A pass of the reconciler keeps every sturdy invariant that healing with its backoff keeps too.
use lwd.Base.{List, Option, Result, String, [], err, none, ok, some, suc, ℕ, ◌∷◌}
use lwd.Reconciler.World.{M, Meta, Outside, World, modify}
use lwd.Reconciler.Keeps.{Keeps, Keeps-bind, keeps_rules}
use lwd.Reconciler.Heal.{try_heal_with}
use lwd.Reconciler.Sturdy.{IsSturdy, reset_heal-Keeps}
use lwd.Reconciler.Sturdy.Applies.{heal_surface_locked-Keeps}
use lwd.Reconciler.Sturdy.Heals.{heal_dead_replicas_locked-Keeps}
use lwd.Reconciler.Pass.{
  Survey, clear_heal_attempts, legacy_resolved, reconcile_app, reconcile_apps, reconcile_current,
  reconcile_legacy_surface, reconcile_replica_set, survey, survey_replica, survey_resolved,
  try_heal, try_heal_replicas, with_found,
}
use lwd.Reconciler.Health.{AppHealth, Health}
use lwd.Reconciler.Failover.{forget_node, mark_unreachable, set_health}
use lwd.Store.{Deployment, Replica}
use lwd.Reconciler.ReplicaHeal.{heal_dead_replicas_locked}
use lwd.Reconciler.Apply.{heal_surface_locked}

pub record IsEnduring (out : Outside) (I : World → Type 0) : Type 0 where
  pub sturdy : IsSturdy I
  pub heals :
      (app : String) (heal_fn : Deployment → M Deployment)
      → ((d : Deployment) → Keeps I (heal_fn d))
      → (cur : Deployment) → Keeps I (try_heal_with out app heal_fn cur)
  pub healths : (h : Health) (v : World) → I v → I (set_health h v)
  pub marks : (name : String) (t : ℕ) (v : World) → I v → I (mark_unreachable name t v)
  pub forgets : (name : String) (v : World) → I v → I (forget_node name v)

module _ (out : Outside) (I : World → Type 0) (enduring : IsEnduring out I) where
  pub modify-Keeps : (f : World → World) → ((v : World) → I v → I (f v)) → Keeps I (modify f)
  modify-Keeps f k = record { from = λ v h. record { holds = k v h } }

  clear-Keeps : (app : String) → Keeps I (clear_heal_attempts app)
  unfolding clear_heal_attempts
  clear-Keeps app = reset_heal-Keeps I enduring.sturdy app

  try_heal-Keeps : (app : String) (cur : Deployment) → Keeps I (try_heal out app cur)
  unfolding try_heal
  try_heal-Keeps app cur =
      enduring.heals app (heal_surface_locked out) (heal_surface_locked-Keeps out I enduring.sturdy)
        cur

  try_heal_replicas-Keeps :
      (app : String) (cur : Deployment) (dead : List ℕ)
      → Keeps I (try_heal_replicas out app cur dead)
  unfolding try_heal_replicas
  try_heal_replicas-Keeps app cur dead =
      enduring.heals app (λ fresh. heal_dead_replicas_locked out fresh dead)
        (λ fresh. heal_dead_replicas_locked-Keeps out I enduring.sturdy fresh dead) cur

  legacy_resolved-Keeps :
      (app : String) (cur : Deployment) (now : ℕ) (node : String) (r : Result Meta)
      → Keeps I (legacy_resolved out app cur now node r)
  legacy_resolved-Keeps app cur now node (err e) = search keeps_rules
  legacy_resolved-Keeps app cur now node (ok m) =
      search (keeps_rules, enduring.sturdy.ticks, clear-Keeps, try_heal-Keeps) depth 14

  reconcile_legacy_surface-Keeps :
      (app : String) (cur : Deployment) (now : ℕ)
      → Keeps I (reconcile_legacy_surface out app cur now)
  unfolding reconcile_legacy_surface
  reconcile_legacy_surface-Keeps app cur now =
      search (keeps_rules, enduring.sturdy.ticks, legacy_resolved-Keeps) depth 14

  survey_resolved-Keeps :
      (s : Survey) (i : ℕ) (node id : String) (r : Result Meta)
      → Keeps I (survey_resolved out s i node id r)
  survey_resolved-Keeps s i node id (err e) = search keeps_rules
  survey_resolved-Keeps s i node id (ok m) = search (keeps_rules, enduring.sturdy.ticks)

  survey_replica-Keeps : (s : Survey) (i : ℕ) (r : Replica) → Keeps I (survey_replica out s i r)
  unfolding survey_replica
  survey_replica-Keeps s i r =
      search (keeps_rules, enduring.sturdy.ticks, survey_resolved-Keeps) depth 14

  survey-Keeps : (s : Survey) (i : ℕ) (rs : List Replica) → Keeps I (survey out s i rs)
  unfolding survey
  survey-Keeps s i [] = search keeps_rules
  survey-Keeps s i (r ∷ rs) =
      Keeps-bind I _ _ (survey_replica-Keeps s i r) λ next. survey-Keeps next (suc i) rs

  reconcile_current-Keeps :
      (app : String) (now : ℕ) (r : Result (Option Deployment))
      → Keeps I (reconcile_current out app now r)
  unfolding reconcile_replica_set
  reconcile_current-Keeps app now (err e) = search keeps_rules
  reconcile_current-Keeps app now (ok none) = search keeps_rules
  reconcile_current-Keeps app now (ok (some cur)) =
      search
        (
          keeps_rules, reconcile_legacy_surface-Keeps, survey-Keeps, try_heal_replicas-Keeps,
          clear-Keeps,
        )
        depth 18

  pub reconcile_apps-Keeps :
      (apps : List String) (hs : List AppHealth) → Keeps I (reconcile_apps out apps hs)
  unfolding reconcile_apps reconcile_app
  reconcile_apps-Keeps [] hs = search keeps_rules
  reconcile_apps-Keeps (app ∷ apps) hs =
      Keeps-bind I _ _ (search (keeps_rules, enduring.sturdy.ticks, reconcile_current-Keeps))
        λ h. reconcile_apps-Keeps apps (with_found out hs h)
