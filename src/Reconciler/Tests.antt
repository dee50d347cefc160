-- ===== src/Reconciler/Tests.antt =====
-- Deploys on a fleet of one local node, whose Docker works or is out of order.
pub mod Restores
pub mod Reached
pub mod Moved
use lwd.Base.{
  Bool, Error, Float64, Result, [], arith, decimal, err, external, false, if◌then◌else◌, none, num,
  ok, pos, refl, some, true, wrapf, ◌*◌, ◌+++◌, ◌+◌, ◌∷◌, ◌≡◌, ◌≢◌, ◌⊎◌,
}
use lwd.Spec.{App, parse}
use lwd.Reconciler.Health.{no_health}
use lwd.Store.{
  Deployment, current_deployment, empty_store, latest, list_nodes, max_id, next_deploy_id,
  record_deployment, running,
}
use lwd.Reconciler.World.{
  Outside, World, ask_error, ask_result, attempt, call_router, exec, ignore, is_reachable, or_undo,
  query, remove_container, run_container, wrapping, ◌>>=◌,
}
use lwd.Reconciler.Rollout.{
  Rollout, container_name, reset_heal, run_spec, set_of, staging_host, with_replica,
}
use lwd.Reconciler.Deploy.{
  check_all, deploy_replica_set, insert_row, more_targets, record_live, stage_set, start_all,
  start_replica,
}
use lwd.Reconciler.Isolation.{IsLate, Isolated, deploy-isolates}
use lwd.Reconciler.Placement.{
  excludes, local_candidates, node_info, node_infos, place_excluding_set, pool_of, req_cpu, req_mem,
  schedulable_candidates,
}
use lwd.Reconciler.Probes.{
  check_health, check_health_path, out_of_rounds, timeout_of, wait_or_deadline,
}
use lwd.Reconciler.Images.{ensure_image_on_node}
use lwd.Scheduler.{default_pool, first_name, fits, in_pool, pick, place, ranks_before, requirements}
use lwd.Reconciler.Heal.{heal_backoff}
use lwd.Reconciler.Retire.{retire_old_set}
use lwd.Base.Sort.{sort_stable}
use lwd.Reconciler.Removal.{deploy-IsCleaned}
use lwd.Reconciler.Cleanup.{IsCleaned}
use lwd.Reconciler.Rounds.{IsLateFrom, check_health-ends}
use lwd.Reconciler.Backoff.{heal_backoff-exact}
use lwd.Router.{remove_staging, set_route, set_staging}
use lwd.Reconciler.Allowed.{IsAllowedName, place_excluding_set-allowed}
use lwd.Reconciler.Success.{IsLive}
use lwd.Reconciler.GoesLive.{deploy-IsLive}

abbrev pub floats : Float64
floats = record {
  of_int = λ n. n;
  sub = λ a b. a;
  mul = λ a b. a;
  to_int64 = λ a. a;
  parse = λ s. err (external "invalid syntax");
}

abbrev pub site : App
site = record {
  name = "site";
  image = "nginx";
  domain = "site.example.com";
  port = pos 80;
  node = "";
  pool = "";
  env = [];
  secrets = [];
  health = record { path = "/up"; timeout = pos 0; raw_timeout = "" };
  replicas = pos 2;
  requirements = none;
  compose = "";
  service = "";
  git = none;
  services = [];
  build = none;
  surfaces = [];
}

abbrev pub placed : App
placed = record site { node = "local" }

abbrev pub docker : Bool → Outside
docker works = record {
  float = floats;
  marshal = λ a. ok a.name;
  unmarshal = λ s. ok placed;
  now = λ t. t;
  cancelled = λ t. false;
  db_error = λ t. none;
  caddy_error = λ t. none;
  router_up_error = λ t. none;
  resolve_meta = λ t n. ok (record { mesh_addr = ""; docker_host = ""; is_local = true });
  reach = none;
  transport = λ t n. "ssh";
  caddy_healthy = λ t. true;
  capacity = λ t n. err (external "timeout");
  ensure_network = λ t n k. none;
  ensure_image = λ t n i. none;
  image_present = λ t n i. ok true;
  save_image = λ t n i. none;
  load_image = λ t n i. none;
  run_container = λ t n s.
      if works
      then ok (record { id = "c" +++ decimal t; host_port = pos 0 })
      else err (external "no space left");
  remove_error = λ t n i. none;
  container_health = λ t n i. ok ("running", "");
  connect_error = λ t n i k. none;
  probe = λ t h p. ok 200;
  resolve_secrets = λ t a ks. ok [];
  compose_up_error = λ t p f e. none;
  compose_down_error = λ t p f e. none;
  service_container = λ t p s. ok ("web", "web-1");
  list_containers = λ t n a. ok [];
  read_file = λ t f. ok "services: {}";
  create_temp = λ t. ok "/tmp/lwd.yml";
  write_error = λ t f c. none;
  close_error = λ t f. none;
  make_temp_dir = λ t. ok "/tmp/lwd-git";
  join_path = λ d p. d +++ ("/" +++ p);
  clone = λ t u r d. ok "0123456789abcdef";
  image_exists = λ t i. ok false;
  build_error = λ t c f i. none;
  poll_rounds = 600;
  heal_max_attempts = 5;
  failover_grace = 90000000000;
}

abbrev pub idle : World
idle = record {
  store = record empty_store {
    nodes =
        record {
          name = "edge";
          ssh_host = "";
          mesh_addr = "";
          agent_url = "";
          pool = "default";
          schedulable = false;
          created_at = 0;
        }
        ∷ [];
  };
  router = record { routes = []; staging = [] };
  heal = λ a. none;
  unreachable_since = λ n. none;
  nudged = false;
  health = no_health;
  log = [];
  tick = 0;
}

abbrev pub rollout : Rollout
rollout = record {
  app = placed;
  image = "nginx";
  env = [];
  backing_network = "";
  compose = "";
  spec_json = "";
  is_local = true;
  mesh_addr = "";
  scheduled = false;
}

abbrev pub full_disk : Error
full_disk = wrapf "run container for replica %d: %w" (num 0 ∷ []) (external "no space left")

full_disk_run :
    deploy_replica_set (docker false) rollout idle
    ≡ (err full_disk, (deploy_replica_set (docker false) rollout idle).1)
unfolding ◌>>=◌ or_undo wrapping ask_result ask_error query run_container more_targets start_replica
    start_all stage_set deploy_replica_set
full_disk_run = refl

deploy-isolates_example :
    Isolated idle (deploy_replica_set (docker false) rollout idle).1 ⊎ IsLate full_disk
deploy-isolates_example =
    deploy-isolates (docker false) idle rollout full_disk
      (deploy_replica_set (docker false) rollout idle).1 full_disk_run

-- The row that a deploy on working Docker returns, and the state after it.
abbrev pub row : Deployment
row =
    record (set_of rollout "c3" running 0 (
      record { container_id = "c3"; node = "local"; upstream = "lwd-site-1-0"; port = pos 80 }
      ∷ record { container_id = "c5"; node = "local"; upstream = "lwd-site-1-1"; port = pos 80 }
      ∷ [])) { id = 1 }

good_run :
    deploy_replica_set (docker true) rollout idle
    ≡ (ok row, (deploy_replica_set (docker true) rollout idle).1)
unfolding ◌>>=◌ or_undo wrapping ignore attempt ask_result ask_error query exec call_router
    run_container remove_container is_reachable wait_or_deadline check_health_path check_health
    staging_host container_name run_spec with_replica reset_heal retire_old_set insert_row
    more_targets start_replica start_all check_all stage_set record_live deploy_replica_set
    record_deployment latest current_deployment max_id next_deploy_id set_route set_staging
    remove_staging decimal ensure_image_on_node
good_run = refl

place_run :
    place_excluding_set (docker true) site [] idle
    ≡ (ok "local", (place_excluding_set (docker true) site [] idle).1)
unfolding ◌>>=◌ attempt ask_result query place_excluding_set schedulable_candidates local_candidates
    node_infos node_info is_reachable excludes pool_of req_cpu req_mem place pick fits in_pool
    default_pool sort_stable first_name ranks_before list_nodes
place_run = refl

heal_backoff-exact_example : heal_backoff 40 ≡ pos 300000000000
heal_backoff-exact_example = heal_backoff-exact 40

deploy-IsLive_example :
    IsLive (docker true) rollout row (deploy_replica_set (docker true) rollout idle).1
deploy-IsLive_example =
    deploy-IsLive (docker true) idle rollout row (deploy_replica_set (docker true) rollout idle).1
      (record { descending = tt; counter = refl }) good_run

place_excluding_set-allowed_example : IsAllowedName (docker true) [] (list_nodes idle.store) "local"
place_excluding_set-allowed_example =
    place_excluding_set-allowed (docker true) site [] idle "local"
      (place_excluding_set (docker true) site [] idle).1 place_run

-- Every app has failed to heal once, and the next attempt fails too.

-- Docker works, and Caddy refuses every configuration: both replicas are started and removed again.
abbrev refusing : Outside
refusing = record (docker true) { caddy_error = λ t. some (external "refused") }

abbrev not_staged : Error
not_staged = wrapf "set staging route: %w" [] (external "refused")

refused_run :
    deploy_replica_set refusing rollout idle
    ≡ (err not_staged, (deploy_replica_set refusing rollout idle).1)
unfolding ◌>>=◌ or_undo wrapping ask_result ask_error query call_router run_container with_replica
    more_targets start_replica start_all stage_set deploy_replica_set set_staging
refused_run = refl

deploy-IsCleaned_example :
    IsCleaned idle (deploy_replica_set refusing rollout idle).1 ⊎ IsLate not_staged
deploy-IsCleaned_example =
    deploy-IsCleaned refusing idle rollout not_staged (deploy_replica_set refusing rollout idle).1
      refused_run

-- A slow fleet: 40 s pass with each question.
abbrev slow : Outside
slow = record (docker true) { poll_rounds = 1; now = λ t. t * 40000000000 }

slow_late : IsLateFrom slow (slow.now idle.tick + timeout_of site) (idle.tick + 1)
slow_late s far = ground (arith, far)

check_health-ends_example : (check_health slow site "local" "stage" "c1" idle).0 ≢ err out_of_rounds
check_health-ends_example = check_health-ends slow site "local" "stage" "c1" 0 idle refl slow_late

-- What a method that returns has returned.
abbrev pub deployment_of : Result Deployment × World → Deployment
deployment_of (ok d, w) = d
deployment_of (err e, w) = row

abbrev pub error_of : {A : Type 0} → Result A × World → Error
error_of (ok a, w) = full_disk
error_of (err e, w) = e
