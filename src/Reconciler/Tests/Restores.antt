-- ===== src/Reconciler/Tests/Restores.antt =====
-- Apply, Rollback and the redeploy of a dead surface, on Docker that works or has no space left.
use lwd.Base.Sort.{sort_stable}
use lwd.Reconciler.Retire.{retire_old_set}
use lwd.Router.{remove_staging, set_route, set_staging}
use lwd.Reconciler.Images.{ensure_image_on_node}
use lwd.Scheduler.{default_pool, first_name, fits, in_pool, pick, place, ranks_before}
use lwd.Reconciler.Probes.{check_health, check_health_path, wait_or_deadline}
use lwd.Base.{Result, [], decimal, err, false, ok, refl, some, true, ◌∷◌, ◌≡◌, ◌⊎◌}
use lwd.Reconciler.World.{
  World, ask_error, ask_result, attempt, call_router, exec, ignore, is_reachable, or_undo, query,
  remove_container, run_container, wrapping, ◌>>=◌,
}
use lwd.Reconciler.Tests.{deployment_of, docker, full_disk, idle, placed, row}
use lwd.Reconciler.Isolates.{apply-isolates, heal_surface-isolates}
use lwd.Reconciler.Services.{ensure_backing, fetch_image}
use lwd.Store.{
  Deployment, current_deployment, empty_store, latest, list_nodes, max_id, next_deploy_id,
  previous_deployment, record_deployment, retired, running, set_status,
}
use lwd.Reconciler.Isolation.{IsLate, Isolated}
use lwd.Spec.Validate.{
  check_replicas, check_requirements, check_secrets, check_services, check_shape, check_single,
  validate,
}
use lwd.Spec.Names.{matches, name_re}
use lwd.Reconciler.Apply.{apply, heal_surface_locked, rollback, rollback_image}
use lwd.Reconciler.Image.{apply_image, apply_image_provenance}
use lwd.Reconciler.Placement.{
  excludes, local_candidates, node_info, node_infos, place_excluding_set, pool_of, req_cpu, req_mem,
  resolve_placement, schedulable_candidates, spread_or_stack,
}
use lwd.Reconciler.Prepare.{open_node, record_failed, settle}
use lwd.Reconciler.Deploy.{
  check_all, deploy_replica_set, insert_row, more_targets, record_live, stage_set, start_all,
  start_replica,
}
use lwd.Reconciler.Rollout.{
  container_name, merge_env, reset_heal, run_spec, staging_host, with_replica,
}
use lwd.Reconciler.Provenance.{heal_surface-restores, rollback-restores}
use lwd.Reconciler.Remove.{is_compose_app}

refused_apply :
    apply (docker false) placed idle ≡ (err full_disk, (apply (docker false) placed idle).1)
unfolding ◌>>=◌ or_undo wrapping ignore attempt ask_result ask_error query exec apply validate
    name_re matches check_secrets check_requirements check_shape check_single check_replicas
    check_services apply_image apply_image_provenance resolve_placement open_node fetch_image settle
    ensure_backing record_failed run_container more_targets start_replica start_all stage_set
    deploy_replica_set merge_env
refused_apply = refl

apply-isolates_example : Isolated idle (apply (docker false) placed idle).1 ⊎ IsLate full_disk
apply-isolates_example =
    apply-isolates (docker false) idle placed full_disk (apply (docker false) placed idle).1 refl
      refused_apply

-- A row with a snapshot, which the outside reads as the app `site`.
abbrev pub snapshot : Deployment
snapshot = record row { spec = "site"; scheduled = true }

no_space :
    heal_surface_locked (docker false) snapshot idle
    ≡ (err full_disk, (heal_surface_locked (docker false) snapshot idle).1)
unfolding ◌>>=◌ or_undo wrapping ignore attempt ask_result ask_error query exec call_router
    run_container remove_container is_reachable validate name_re matches check_secrets
    check_requirements check_shape check_single check_replicas check_services apply_image_provenance
    resolve_placement open_node fetch_image settle ensure_backing record_failed merge_env
    more_targets start_replica start_all stage_set deploy_replica_set record_live retire_old_set
    check_all insert_row staging_host container_name run_spec with_replica reset_heal decimal
    spread_or_stack place_excluding_set schedulable_candidates local_candidates pool_of excludes
    node_infos list_nodes sort_stable node_info place in_pool default_pool fits pick first_name
    ranks_before req_cpu req_mem heal_surface_locked
no_space = refl

heal_surface-isolates_example :
    Isolated idle (heal_surface_locked (docker false) snapshot idle).1 ⊎ IsLate full_disk
heal_surface-isolates_example =
    heal_surface-isolates (docker false) idle snapshot full_disk
      (heal_surface_locked (docker false) snapshot idle).1 no_space

abbrev redeployed : Result Deployment × World
redeployed = heal_surface_locked (docker true) snapshot idle

healed_run : redeployed ≡ (ok (deployment_of redeployed), redeployed.1)
unfolding ◌>>=◌ or_undo wrapping ignore attempt ask_result ask_error query exec call_router
    run_container remove_container is_reachable validate name_re matches check_secrets
    check_requirements check_shape check_single check_replicas check_services apply_image_provenance
    resolve_placement open_node fetch_image settle ensure_backing record_failed merge_env
    more_targets start_replica start_all stage_set deploy_replica_set record_live retire_old_set
    check_all insert_row staging_host container_name run_spec with_replica reset_heal decimal
    spread_or_stack place_excluding_set schedulable_candidates local_candidates pool_of excludes
    node_infos list_nodes sort_stable node_info place in_pool default_pool fits pick first_name
    ranks_before req_cpu req_mem check_health check_health_path wait_or_deadline
    ensure_image_on_node record_deployment latest current_deployment max_id next_deploy_id set_route
    set_staging remove_staging set_status heal_surface_locked
healed_run = refl

heal_surface-restores_example :
    ((deployment_of redeployed).status ≡ running)
    × ((deployment_of redeployed).image ≡ "nginx")
    × ((deployment_of redeployed).scheduled ≡ true)
heal_surface-restores_example =
    heal_surface-restores (docker true) snapshot (deployment_of redeployed) idle redeployed.1
      healed_run

-- The row was retired.
abbrev gone : World
gone = record idle {
  store = record empty_store {
    deployments = record snapshot { status = retired; image = "nginx:1" } ∷ [];
    last_id = 1;
  };
}

abbrev rolled_back : Result Deployment × World
rolled_back = rollback (docker true) "site" gone

rollback_run : rolled_back ≡ (ok (deployment_of rolled_back), rolled_back.1)
unfolding ◌>>=◌ or_undo wrapping ignore attempt ask_result ask_error query exec call_router
    run_container remove_container is_reachable validate name_re matches check_secrets
    check_requirements check_shape check_single check_replicas check_services apply_image_provenance
    resolve_placement open_node fetch_image settle ensure_backing record_failed merge_env
    more_targets start_replica start_all stage_set deploy_replica_set record_live retire_old_set
    check_all insert_row staging_host container_name run_spec with_replica reset_heal decimal
    spread_or_stack place_excluding_set schedulable_candidates local_candidates pool_of excludes
    node_infos list_nodes sort_stable node_info place in_pool default_pool fits pick first_name
    ranks_before req_cpu req_mem check_health check_health_path wait_or_deadline
    ensure_image_on_node record_deployment latest current_deployment max_id next_deploy_id set_route
    set_staging remove_staging set_status rollback rollback_image previous_deployment
rollback_run = refl

gone_previous :
    previous_deployment "site" gone.store
    ≡ some (record snapshot { status = retired; image = "nginx:1" })
unfolding previous_deployment latest
gone_previous = refl

site_plain : is_compose_app (docker true) "site" ≡ false
unfolding is_compose_app
site_plain = refl

rollback-restores_example :
    ((deployment_of rolled_back).status ≡ running)
    × ((deployment_of rolled_back).image ≡ "nginx:1")
    × ((deployment_of rolled_back).scheduled ≡ true)
rollback-restores_example =
    rollback-restores (docker true) "site" (record snapshot { status = retired; image = "nginx:1" })
      (deployment_of rolled_back) gone rolled_back.1 gone_previous site_plain rollback_run
