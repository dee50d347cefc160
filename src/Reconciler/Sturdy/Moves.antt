-- ===== src/Reconciler/Sturdy/Moves.antt =====
-- The evacuation of a node keeps every sturdy invariant.
use lwd.Base.{List, Option, Result, String, [], err, get_elem?, none, ok, some, true, ℕ, ◌∷◌}
use lwd.Reconciler.World.{Container, Outside, World}
use lwd.Reconciler.Keeps.{Keeps, Keeps-attempt, Keeps-bind, Keeps-wrapping, keeps_rules}
use lwd.Reconciler.Sturdy.{IsSturdy, sturdy-IsQuiet, sturdy_rules}
use lwd.Reconciler.Sturdy.Deploys.{remove_resolved-Keeps}
use lwd.Reconciler.Moving.{
  prepare_node-Keeps, restored_app-Keeps, restored_set-Keeps, stage_move-Keeps,
}
use lwd.Reconciler.Sturdy.Applies.{apply_image_provenance-Keeps, rollback_git_locked-Keeps}
use lwd.Spec.{App, Git}
use lwd.Reconciler.Questions.{place_excluding_set-Keeps}
use lwd.Reconciler.Evacuate.{EvacuateResult, redeploy_on, reschedule_surface_locked}
use lwd.Reconciler.Moves.{
  Evacuated, after_move, evacuate_replicas_locked, evacuate_restored, flip_move, move_at,
  move_replica, move_replicas,
}
use lwd.Reconciler.Drain.{evacuate_apps, evacuate_current, evacuate_node}
use lwd.Store.{Deployment, Replica}
use lwd.Reconciler.Placement.{place_excluding}
use lwd.Reconciler.Rollout.{Rollout, Target}
use lwd.Reconciler.Preparing.{check_valid-Keeps}

module _ (out : Outside) (I : World → Type 0) (sturdy : IsSturdy I) where
  redeploy_on-Keeps :
      (cur : Deployment) (app : App) (g : Option Git) → Keeps I (redeploy_on out cur app g)
  redeploy_on-Keeps cur app (some git) =
      Keeps-wrapping I _ _ _ (rollback_git_locked-Keeps out I sturdy app true)
  redeploy_on-Keeps cur app none = search (
    keeps_rules,
    check_valid-Keeps out I (sturdy-IsQuiet I sturdy),
    apply_image_provenance-Keeps out I sturdy,
  )

  pub reschedule_surface_locked-Keeps :
      (cur : Deployment) (exclude : String) → Keeps I (reschedule_surface_locked out cur exclude)
  unfolding reschedule_surface_locked place_excluding
  reschedule_surface_locked-Keeps cur exclude =
      search
        (
          keeps_rules,
          restored_app-Keeps out I (sturdy-IsQuiet I sturdy),
          place_excluding_set-Keeps out I sturdy.ticks,
          redeploy_on-Keeps,
        )
        depth 14

  flip_move-Keeps :
      (q : Rollout) (cur : Deployment) (i : ℕ) (old : Replica) (t : Target)
      (staged : Container × Replica)
      → Keeps I (flip_move out q cur i old t staged)
  unfolding flip_move
  flip_move-Keeps q cur i old t staged =
      search (sturdy_rules, sturdy.ticks, remove_resolved-Keeps out I sturdy) depth 18

  move_at-Keeps :
      (q : Rollout) (exclude : String) (cur : Deployment) (i : ℕ) (old : Option Replica)
      → Keeps I (move_at out q exclude cur i old)
  move_at-Keeps q exclude cur i none = search keeps_rules
  move_at-Keeps q exclude cur i (some old) =
      search
        (
          keeps_rules,
          sturdy.ticks,
          place_excluding_set-Keeps out I sturdy.ticks,
          prepare_node-Keeps out I (sturdy-IsQuiet I sturdy),
          stage_move-Keeps out I (sturdy-IsQuiet I sturdy),
          flip_move-Keeps,
        )
        depth 18

  move_replicas-Keeps :
      (q : Rollout) (exclude : String) (cur : Deployment) (is : List ℕ) (ev : Evacuated)
      → Keeps I (move_replicas out q exclude cur is ev)
  unfolding move_replicas move_replica
  move_replicas-Keeps q exclude cur [] ev = search keeps_rules
  move_replicas-Keeps q exclude cur (i ∷ is) ev =
      Keeps-bind I _ _
        (Keeps-attempt I _ (move_at-Keeps q exclude cur i (get_elem? cur.replicas i)))
        λ r.
          move_replicas-Keeps q exclude (after_move out cur ev i r).0 is
            (after_move out cur ev i r).1

  evacuate_restored-Keeps :
      (cur : Deployment) (exclude : String) (is : List ℕ) (r : Result Rollout)
      → Keeps I (evacuate_restored out cur exclude is r)
  evacuate_restored-Keeps cur exclude is (err e) = search keeps_rules
  evacuate_restored-Keeps cur exclude is (ok q) = move_replicas-Keeps q exclude cur is _

  evacuate_replicas_locked-Keeps :
      (cur : Deployment) (exclude : String) (is : List ℕ)
      → Keeps I (evacuate_replicas_locked out cur exclude is)
  unfolding evacuate_replicas_locked
  evacuate_replicas_locked-Keeps cur exclude is =
      search
        (keeps_rules, restored_set-Keeps out I (sturdy-IsQuiet I sturdy), evacuate_restored-Keeps)

  evacuate_current-Keeps :
      (name : String) (res : EvacuateResult) (app : String) (r : Result (Option Deployment))
      → Keeps I (evacuate_current out name res app r)
  evacuate_current-Keeps name res app (err e) = search keeps_rules
  evacuate_current-Keeps name res app (ok none) = search keeps_rules
  evacuate_current-Keeps name res app (ok (some cur)) =
      search (keeps_rules, reschedule_surface_locked-Keeps, evacuate_replicas_locked-Keeps) depth 18

  evacuate_apps-Keeps :
      (name : String) (apps : List String) (res : EvacuateResult)
      → Keeps I (evacuate_apps out name apps res)
  unfolding evacuate_apps
  evacuate_apps-Keeps name [] res = search keeps_rules
  evacuate_apps-Keeps name (app ∷ apps) res =
      Keeps-bind I _ _ (search (keeps_rules, sturdy.ticks)) λ cur.
        Keeps-bind I _ _ (evacuate_current-Keeps name res app cur)
          λ next. evacuate_apps-Keeps name apps next

  pub evacuate_node-Keeps : (name : String) → Keeps I (evacuate_node out name)
  unfolding evacuate_node
  evacuate_node-Keeps name = search (keeps_rules, sturdy.ticks, evacuate_apps-Keeps)
