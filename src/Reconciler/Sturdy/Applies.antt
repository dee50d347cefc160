-- ===== src/Reconciler/Sturdy/Applies.antt =====
-- Apply, Rollback and the redeploy of a surface keep every sturdy invariant.
use lwd.Base.{
  Bool, Option, Result, String, [], err, none, not, ok, some, str_eq, suc, true, zero, ℕ,
}
use lwd.Reconciler.World.{M, Outside, World, modify}
use lwd.Reconciler.Keeps.{Keeps, Keeps-bind, Keeps-if, Keeps-pure, keeps_rules}
use lwd.Reconciler.Sturdy.{IsSturdy, sturdy-IsQuiet, sturdy_rules}
use lwd.Reconciler.Sturdy.Deploys.{deploy_replica_set-Keeps}
use lwd.Reconciler.Questions.{check_health_path-Keeps, wait_or_deadline-Keeps}
use lwd.Reconciler.Moving.{restored_app-Keeps}
use lwd.Reconciler.Preparing.{
  build_image-Keeps, check_pinned-Keeps, check_valid-Keeps, fetch_image-Keeps, move_image-Keeps,
  open_node-Keeps, recording-Keeps, resolve_placement-Keeps, settle-Keeps, write_temp-Keeps,
}
use lwd.Reconciler.Image.{apply_image, apply_image_provenance}
use lwd.Reconciler.Source.{apply_git, rollback_git_locked}
use lwd.Reconciler.Compose.{
  apply_compose, check_health_compose, check_liveness_through_route, compose_routed,
  compose_started, poll_route, record_compose, retire_row,
}
use lwd.Reconciler.Apply.{
  apply, apply_shape, heal_surface_locked, nudging, redeploy, rollback, rollback_image,
  rollback_shape, rollback_to, signal_nudge,
}
use lwd.Spec.{App, Env, Git}
use lwd.Store.{Deployment}

module _ (out : Outside) (I : World → Type 0) (sturdy : IsSturdy I) where
  pub apply_image_provenance-Keeps :
      (app : App) (o : Option Bool) → Keeps I (apply_image_provenance out app o)
  unfolding apply_image_provenance
  apply_image_provenance-Keeps app o =
      let quiet = sturdy-IsQuiet I sturdy in
      search
        (
          keeps_rules,
          recording-Keeps out I quiet,
          resolve_placement-Keeps out I quiet,
          open_node-Keeps out I quiet,
          fetch_image-Keeps out I quiet,
          settle-Keeps out I quiet,
          deploy_replica_set-Keeps out I sturdy,
        )
        depth 18

  pub rollback_git_locked-Keeps : (app : App) (b : Bool) → Keeps I (rollback_git_locked out app b)
  unfolding rollback_git_locked
  rollback_git_locked-Keeps app b =
      let quiet = sturdy-IsQuiet I sturdy in
      search
        (
          keeps_rules,
          check_pinned-Keeps out I quiet,
          open_node-Keeps out I quiet,
          settle-Keeps out I quiet,
          move_image-Keeps out I quiet,
          deploy_replica_set-Keeps out I sturdy,
        )
        depth 18

  pub apply_git-Keeps : (git : Git) (app : App) → Keeps I (apply_git out git app)
  unfolding apply_git
  apply_git-Keeps git app =
      let quiet = sturdy-IsQuiet I sturdy in
      search
        (
          keeps_rules,
          recording-Keeps out I quiet,
          resolve_placement-Keeps out I quiet,
          open_node-Keeps out I quiet,
          settle-Keeps out I quiet,
          build_image-Keeps out I quiet,
          move_image-Keeps out I quiet,
          deploy_replica_set-Keeps out I sturdy,
        )
        depth 18

  poll_route-Keeps : (k d : ℕ) (domain : String) → Keeps I (poll_route out k d domain)
  unfolding poll_route
  poll_route-Keeps zero d domain = search keeps_rules
  poll_route-Keeps (suc k) d domain =
      search
        (keeps_rules, sturdy.ticks, wait_or_deadline-Keeps out I sturdy.ticks, poll_route-Keeps k)
        depth 14

  check_health_compose-Keeps : (app : App) → Keeps I (check_health_compose out app)
  unfolding check_health_compose check_liveness_through_route
  check_health_compose-Keeps app =
      search
        (keeps_rules, sturdy.ticks, check_health_path-Keeps out I sturdy.ticks, poll_route-Keeps)
        depth 14

  retire_row-Keeps : (r : Result (Option Deployment)) → Keeps I (retire_row out r)
  retire_row-Keeps (err e) = search keeps_rules
  retire_row-Keeps (ok none) = search keeps_rules
  retire_row-Keeps (ok (some d)) = search sturdy_rules

  record_compose-Keeps :
      (app : App) (id spec content : String) → Keeps I (record_compose out app id spec content)
  unfolding record_compose
  record_compose-Keeps app id spec content =
      search (sturdy_rules, sturdy.ticks, retire_row-Keeps) depth 14

  compose_routed-Keeps :
      (app : App) (spec content : String) (s : String × String)
      → Keeps I (compose_routed out app spec content s)
  compose_routed-Keeps app spec content s =
      search
        (
          sturdy_rules,
          recording-Keeps out I (sturdy-IsQuiet I sturdy),
          sturdy.ticks,
          check_health_compose-Keeps,
        )
        depth 14

  compose_started-Keeps :
      (app : App) (spec content : String) (env : Env)
      → Keeps I (compose_started out app spec content env)
  compose_started-Keeps app spec content env =
      search (keeps_rules, recording-Keeps out I (sturdy-IsQuiet I sturdy), sturdy.ticks) depth 14

  pub apply_compose-Keeps : (app : App) → Keeps I (apply_compose out app)
  unfolding apply_compose
  apply_compose-Keeps app =
      search
        (
          keeps_rules,
          recording-Keeps out I (sturdy-IsQuiet I sturdy),
          sturdy.ticks,
          compose_started-Keeps,
          compose_routed-Keeps,
          record_compose-Keeps,
        )
        depth 24

  pub nudging-Keeps : (m : M Deployment) → Keeps I m → Keeps I (nudging m)
  nudging-Keeps m k = Keeps-bind I m _ k λ d.
      Keeps-bind I (modify signal_nudge) _
        (record { from = λ v h. record { holds = sturdy.nudges v true h } }) λ _. Keeps-pure I d

  apply_shape-Keeps : (app : App) (g : Option Git) → Keeps I (apply_shape out app g)
  unfolding apply_image
  apply_shape-Keeps app (some git) = apply_git-Keeps git app
  apply_shape-Keeps app none =
      search (keeps_rules, apply_compose-Keeps, apply_image_provenance-Keeps)

  pub apply-Keeps : (app : App) → Keeps I (apply out app)
  unfolding apply
  apply-Keeps app =
      Keeps-bind I _ _ (check_valid-Keeps out I (sturdy-IsQuiet I sturdy) "invalid spec: %w" [] app)
        λ _. nudging-Keeps (apply_shape out app app.git) (apply_shape-Keeps app app.git)

  rollback_image-Keeps : (app : App) (b : Bool) → Keeps I (rollback_image out app b)
  unfolding rollback_image
  rollback_image-Keeps app b =
      search (
        keeps_rules,
        check_valid-Keeps out I (sturdy-IsQuiet I sturdy),
        apply_image_provenance-Keeps,
      )

  redeploy-Keeps :
      (cur : Deployment) (app : App) (b : Bool) (g : Option Git)
      → Keeps I (redeploy out cur app b g)
  redeploy-Keeps cur app b (some git) = rollback_git_locked-Keeps app b
  redeploy-Keeps cur app b none =
      search (
        keeps_rules,
        check_valid-Keeps out I (sturdy-IsQuiet I sturdy),
        apply_image_provenance-Keeps,
      )

  pub heal_surface_locked-Keeps : (cur : Deployment) → Keeps I (heal_surface_locked out cur)
  unfolding heal_surface_locked
  heal_surface_locked-Keeps cur =
      search (keeps_rules, restored_app-Keeps out I (sturdy-IsQuiet I sturdy), redeploy-Keeps)

  rollback_shape-Keeps :
      (prev : Deployment) (app : App) (g : Option Git) → Keeps I (rollback_shape out prev app g)
  rollback_shape-Keeps prev app (some git) =
      nudging-Keeps (rollback_git_locked out app prev.scheduled)
        (rollback_git_locked-Keeps app prev.scheduled)
  rollback_shape-Keeps prev app none =
      Keeps-if I (not (str_eq app.compose "")) _ _
        (search (keeps_rules, write_temp-Keeps out I (sturdy-IsQuiet I sturdy), apply-Keeps))
        (nudging-Keeps (rollback_image out app prev.scheduled)
          (rollback_image-Keeps app prev.scheduled))

  rollback_to-Keeps :
      (name : String) (prev : Option Deployment) → Keeps I (rollback_to out name prev)
  rollback_to-Keeps name none = search keeps_rules
  rollback_to-Keeps name (some prev) =
      Keeps-bind I _ _ (restored_app-Keeps out I (sturdy-IsQuiet I sturdy) _ _ name prev)
        λ app. rollback_shape-Keeps prev app app.git

  pub rollback-Keeps : (name : String) → Keeps I (rollback out name)
  unfolding rollback
  rollback-Keeps name = search (keeps_rules, sturdy.ticks, rollback_to-Keeps)
