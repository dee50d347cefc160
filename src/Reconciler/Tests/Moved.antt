-- ===== src/Reconciler/Tests/Moved.antt =====
-- The healing of dead replicas and the move of one, on a fleet with a second node.
use lwd.Base.Sort.{sort_stable}
use lwd.Reconciler.Retire.{retire_old_set}
use lwd.Router.{remove_staging, set_route, set_staging}
use lwd.Reconciler.Prepare.{open_node, record_failed, settle}
use lwd.Spec.Names.{matches, name_re}
use lwd.Reconciler.Placement.{
  excludes, local_candidates, node_info, node_infos, place_excluding_set, pool_of, req_cpu, req_mem,
  resolve_placement, schedulable_candidates, spread_or_stack,
}
use lwd.Reconciler.Images.{ensure_image_on_node}
use lwd.Reconciler.Services.{ensure_backing, fetch_image}
use lwd.Scheduler.{default_pool, first_name, fits, in_pool, pick, place, ranks_before}
use lwd.Reconciler.Rollout.{
  container_name, merge_env, reset_heal, run_spec, staging_host, with_replica,
}
use lwd.Spec.Validate.{
  check_replicas, check_requirements, check_secrets, check_services, check_shape, check_single,
  validate,
}
use lwd.Reconciler.Probes.{check_health, check_health_path, wait_or_deadline}
use lwd.Reconciler.Deploy.{
  check_all, deploy_replica_set, insert_row, more_targets, record_live, stage_set, start_all,
  start_replica,
}
use lwd.Reconciler.Image.{apply_image_provenance}
use lwd.Base.{
  In, Result, [], decimal, err, false, get_elem?, map, num, ok, pos, refl, set, some, true, ℕ, ◌∷◌,
  ◌≡◌, ◌≢◌, ◌⊎◌,
}
use lwd.Reconciler.World.{
  World, ask_error, ask_result, attempt, call_router, exec, ignore, is_reachable, or_undo, query,
  remove_container, run_container, wrapping, ◌>>=◌,
}
use lwd.Reconciler.Tests.{deployment_of, docker, error_of, idle, rollout, row}
use lwd.Reconciler.MovedAlone.{IsUnsaved, heal_dead_replicas-isolates, move_replica-isolates}
use lwd.Reconciler.Replaced.{heal_dead_replicas-kept, place_of}
use lwd.Reconciler.Spread.{move_replica-spread}
use lwd.Reconciler.ReplicaHeal.{
  check_created, clean_up, heal_dead_replicas_locked, heal_restored, persist_healed, recreate,
  recreate_all, remove_created, stage_healing,
}
use lwd.Reconciler.Moves.{flip_move, move_replica, prepare_node, stage_move}
use lwd.Store.{
  Deployment, Replica, current_deployment, empty_store, latest, list_nodes, max_id, next_deploy_id,
  record_deployment, set_status, update_replicas,
}
use lwd.Reconciler.Isolation.{Isolated}
use lwd.Reconciler.Backing.{render_backing_compose}
use lwd.Reconciler.Evacuate.{other_nodes}
use lwd.Reconciler.Remove.{normalize_node}

-- Two nodes that take surfaces, and a set of two replicas on the local one.
abbrev fleet : World
fleet = record idle {
  store = record empty_store {
    nodes =
        record {
          name = "edge";
          ssh_host = "";
          mesh_addr = "";
          agent_url = "";
          pool = "default";
          schedulable = true;
          created_at = 0;
        }
        ∷ [];
    deployments = record row { spec = "site" } ∷ [];
    last_id = 1;
  };
}

abbrev set_row : Deployment
set_row = record row { spec = "site" }

abbrev failed_heal : Result Deployment × World
failed_heal = heal_dead_replicas_locked (docker false) set_row (1 ∷ []) fleet

failed_heal_run : failed_heal ≡ (err (error_of failed_heal), failed_heal.1)
unfolding ◌>>=◌ or_undo wrapping ignore attempt ask_result ask_error query exec call_router
    run_container remove_container is_reachable validate name_re matches check_secrets
    check_requirements check_shape check_single check_replicas check_services apply_image_provenance
    resolve_placement open_node fetch_image settle ensure_backing record_failed merge_env
    more_targets start_replica start_all stage_set deploy_replica_set record_live retire_old_set
    check_all insert_row staging_host container_name run_spec with_replica reset_heal decimal
    spread_or_stack place_excluding_set schedulable_candidates local_candidates pool_of excludes
    node_infos list_nodes sort_stable node_info place in_pool default_pool fits pick first_name
    ranks_before req_cpu req_mem check_health check_health_path wait_or_deadline
    ensure_image_on_node record_deployment latest current_deployment max_id next_deploy_id set_route
    set_staging remove_staging set_status heal_dead_replicas_locked heal_restored stage_healing
    recreate_all recreate prepare_node remove_created clean_up
failed_heal_run = refl

heal_dead_replicas-isolates_example :
    Isolated fleet failed_heal.1 ⊎ IsUnsaved "persist healed replicas: %w" [] (error_of failed_heal)
heal_dead_replicas-isolates_example =
    heal_dead_replicas-isolates (docker false) fleet set_row (1 ∷ []) (error_of failed_heal)
      failed_heal.1 failed_heal_run

abbrev good_heal : Result Deployment × World
good_heal = heal_dead_replicas_locked (docker true) set_row (1 ∷ []) fleet

good_heal_run : good_heal ≡ (ok (deployment_of good_heal), good_heal.1)
unfolding ◌>>=◌ or_undo wrapping ignore attempt ask_result ask_error query exec call_router
    run_container remove_container is_reachable validate name_re matches check_secrets
    check_requirements check_shape check_single check_replicas check_services apply_image_provenance
    resolve_placement open_node fetch_image settle ensure_backing record_failed merge_env
    more_targets start_replica start_all stage_set deploy_replica_set record_live retire_old_set
    check_all insert_row staging_host container_name run_spec with_replica reset_heal decimal
    spread_or_stack place_excluding_set schedulable_candidates local_candidates pool_of excludes
    node_infos list_nodes sort_stable node_info place in_pool default_pool fits pick first_name
    ranks_before req_cpu req_mem check_health check_health_path wait_or_deadline
    ensure_image_on_node record_deployment latest current_deployment max_id next_deploy_id set_route
    set_staging remove_staging set_status heal_dead_replicas_locked heal_restored stage_healing
    recreate_all recreate prepare_node remove_created clean_up check_created persist_healed
    update_replicas render_backing_compose
good_heal_run = refl

heal_dead_replicas-kept_example :
    ((deployment_of good_heal).id ≡ 1)
    × (map place_of (deployment_of good_heal).replicas ≡ map place_of set_row.replicas)
    × ((j : ℕ)
        → ¬ In j (1 ∷ [])
        → get_elem? (deployment_of good_heal).replicas j ≡ get_elem? set_row.replicas j)
heal_dead_replicas-kept_example =
    heal_dead_replicas-kept (docker true) set_row (1 ∷ []) (deployment_of good_heal) fleet
      good_heal.1 good_heal_run

-- The first replica stands on a node of its own already.
abbrev lone_row : Deployment
lone_row = record set_row {
  replicas =
      record { container_id = "c3"; node = "rack"; upstream = "10.0.0.7"; port = pos 4242 }
      ∷ record { container_id = "c5"; node = "edge"; upstream = "lwd-site-1-1"; port = pos 80 }
      ∷ [];
}

abbrev failed_move : Result Deployment × World
failed_move = move_replica (docker false) rollout "edge" lone_row 1 fleet

failed_move_run : failed_move ≡ (err (error_of failed_move), failed_move.1)
unfolding ◌>>=◌ or_undo wrapping ignore attempt ask_result ask_error query exec call_router
    run_container remove_container is_reachable validate name_re matches check_secrets
    check_requirements check_shape check_single check_replicas check_services apply_image_provenance
    resolve_placement open_node fetch_image settle ensure_backing record_failed merge_env
    more_targets start_replica start_all stage_set deploy_replica_set record_live retire_old_set
    check_all insert_row staging_host container_name run_spec with_replica reset_heal decimal
    spread_or_stack place_excluding_set schedulable_candidates local_candidates pool_of excludes
    node_infos list_nodes sort_stable node_info place in_pool default_pool fits pick first_name
    ranks_before req_cpu req_mem check_health check_health_path wait_or_deadline
    ensure_image_on_node record_deployment latest current_deployment max_id next_deploy_id set_route
    set_staging remove_staging set_status move_replica prepare_node stage_move flip_move other_nodes
    normalize_node
failed_move_run = refl

move_replica-isolates_example :
    Isolated fleet failed_move.1
    ⊎ IsUnsaved "persist evacuated replica %d: %w" (num 1 ∷ []) (error_of failed_move)
move_replica-isolates_example =
    move_replica-isolates (docker false) fleet 1 rollout "edge" lone_row (error_of failed_move)
      failed_move.1 failed_move_run

abbrev good_move : Result Deployment × World
good_move = move_replica (docker true) rollout "edge" lone_row 1 fleet

good_move_run : good_move ≡ (ok (deployment_of good_move), good_move.1)
unfolding ◌>>=◌ or_undo wrapping ignore attempt ask_result ask_error query exec call_router
    run_container remove_container is_reachable validate name_re matches check_secrets
    check_requirements check_shape check_single check_replicas check_services apply_image_provenance
    resolve_placement open_node fetch_image settle ensure_backing record_failed merge_env
    more_targets start_replica start_all stage_set deploy_replica_set record_live retire_old_set
    check_all insert_row staging_host container_name run_spec with_replica reset_heal decimal
    spread_or_stack place_excluding_set schedulable_candidates local_candidates pool_of excludes
    node_infos list_nodes sort_stable node_info place in_pool default_pool fits pick first_name
    ranks_before req_cpu req_mem check_health check_health_path wait_or_deadline
    ensure_image_on_node record_deployment latest current_deployment max_id next_deploy_id set_route
    set_staging remove_staging set_status move_replica prepare_node stage_move flip_move other_nodes
    normalize_node update_replicas
good_move_run = refl

move_replica-spread_example :
    ((deployment_of good_move).id ≡ 1)
    × ((new : Replica) × ((deployment_of good_move).replicas ≡ set lone_row.replicas 1 new)
        × (get_elem? (deployment_of good_move).replicas 1 ≡ some new)
        × ("edge" ≢ new.node)
        × ((j : ℕ) (r : Replica)
            → j ≢ 1
            → get_elem? (deployment_of good_move).replicas j ≡ some r
            → normalize_node r.node ≢ new.node))
move_replica-spread_example =
    move_replica-spread (docker true) rollout "edge" lone_row 1 (deployment_of good_move) fleet
      good_move.1 good_move_run
