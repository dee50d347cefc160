-- ===== src/Reconciler/ReplicaHeal.antt =====
-- internal/reconciler/replicaheal.go: healDeadReplicasLocked, which starts the dead replicas of a set
-- again on their nodes and leaves the others as they are.
use lwd.Base.{
  List, Option, String, [], errorf, get_elem?, if◌then◌else◌, length, none, num, set, some, str,
  str_eq, ℕ, ◌++◌, ◌∷◌,
}
use lwd.Reconciler.World.{
  Container, M, Outside, call_router, exec, ignore, or_undo, pure, query, raise, remove_container,
  run_container, wrapping, ◌>>=◌, ◌>>◌,
}
use lwd.Reconciler.Rollout.{Rollout, Target, replica_of, run_spec, staging_host, upstream_of}
use lwd.Reconciler.Remove.{normalize_node}
use lwd.Reconciler.Probes.{check_health}
use lwd.Reconciler.Evacuate.{first_container, move_name}
use lwd.Reconciler.Moves.{connect_backing, prepare_node, restored_set, route_of}
use lwd.Router.{Upstream, remove_staging, set_route, set_staging}
use lwd.Store.{Deployment, Replica, next_deploy_id, update_replicas}
use lwd.Spec.Validate.{is_nil}

pub record Recreated : Type 0 where
  pub index : ℕ
  pub node : String
  pub id : String

-- What the loop over the dead indexes changes.
pub record Healing : Type 0 where
  pub replicas : List Replica
  pub created : List Recreated
  pub upstreams : List Upstream

abbrev pub with_healed : Deployment → List Replica → Deployment
with_healed cur rs = record cur { replicas = rs; container_id = first_container rs }

abbrev pub recreated : Healing → ℕ → Target → Container → Replica → Healing
recreated h i t c new = record {
  replicas = set h.replicas i new;
  created = h.created ++ record { index = i; node = t.name; id = c.id } ∷ [];
  upstreams = h.upstreams ++ upstream_of new ∷ [];
}

abbrev pub with_created : Healing → ℕ → Target → Container → Healing
with_created h i t c = record h {
  created = h.created ++ record { index = i; node = t.name; id = c.id } ∷ [];
}

module _ (out : Outside) where
  unfoldable pub remove_created : List Recreated → M (Unit {0})
  remove_created [] = pure tt
  remove_created (rc ∷ rcs) = do ignore (remove_container out rc.node rc.id); remove_created rcs

  unfoldable pub clean_up : String → List Recreated → M (Unit {0})
  clean_up host created = do ignore (call_router out (remove_staging host)); remove_created created

  -- `if err != nil { cleanup(); return nil, fmt.Errorf(format, args, err) }`
  abbrev pub or_clean : {A : Type 0} → String → List Recreated → M A → M A
  or_clean host created m = or_undo m (clean_up host created)

  abbrev pub remove_dead : String → String → M (Unit {0})
  remove_dead node id = if str_eq id "" then pure tt else ignore (remove_container out node id)

  unfoldable pub recreate : Rollout → ℕ → Healing → ℕ → Replica → M Healing
  recreate q id h i old = do
    t ← or_clean (staging_host id) h.created (prepare_node out q i (normalize_node old.node))
    remove_dead t.name old.container_id
    c ← or_clean (staging_host id) h.created (
        wrapping "run container for replica %d: %w" (num i ∷ []) (
          run_container out t.name
            (run_spec out.float q id (move_name (length h.replicas) q.app id i) i t)))
    or_clean (staging_host id) (with_created h i t c).created (
        wrapping "connect replica %d to backing network: %w" (num i ∷ [])
          (connect_backing out q t c))
    pure (recreated h i t c (replica_of q (move_name (length h.replicas) q.app id i) t c))

  abbrev pub recreate_at : Rollout → Deployment → ℕ → Healing → ℕ → Option Replica → M Healing
  recreate_at q cur id h i none = or_clean (staging_host id) h.created (
      raise (
        errorf "replica index %d out of range for %q (%d replicas)"
          (num i ∷ str cur.app ∷ num (length h.replicas) ∷ [])))
  recreate_at q cur id h i (some old) = recreate q id h i old

  unfoldable pub recreate_all : Rollout → Deployment → ℕ → Healing → List ℕ → M Healing
  recreate_all q cur id h [] = pure h
  recreate_all q cur id h (i ∷ is) = do
    next ← recreate_at q cur id h i (get_elem? h.replicas i)
    recreate_all q cur id next is

  unfoldable pub check_created : Rollout → ℕ → List Recreated → List Recreated → M (Unit {0})
  check_created q id created [] = pure tt
  check_created q id created (rc ∷ rcs) = do
    or_clean (staging_host id) created (
        wrapping "health check failed for replica %d: %w" (num rc.index ∷ [])
          (check_health out q.app rc.node (staging_host id) rc.id))
    check_created q id created rcs

  -- The recreated replicas behind the staging host, all healthy.
  unfoldable pub stage_healing : Rollout → Deployment → ℕ → List ℕ → M Healing
  stage_healing q cur id dead = do
    h ←
        recreate_all q cur id (record { replicas = cur.replicas; created = []; upstreams = [] })
          dead
    or_clean (staging_host id) h.created (
        wrapping "set staging route: %w" []
          (call_router out (set_staging (staging_host id) h.upstreams)))
    check_created q id h.created h.created
    pure h

  -- The row keeps its id and gets the merged replicas.
  unfoldable pub persist_healed : Deployment → ℕ → List Replica → M Deployment
  persist_healed cur id rs = do
    ignore (call_router out (remove_staging (staging_host id)))
    wrapping "persist healed replicas: %w" []
        (exec out (update_replicas cur.id rs (first_container rs)))
    pure (with_healed cur rs)

  unfoldable pub heal_restored : Rollout → Deployment → List ℕ → M Deployment
  heal_restored q cur dead = do
    id ← wrapping "next deploy id: %w" [] (query out next_deploy_id)
    h ← stage_healing q cur id dead
    or_clean (staging_host id) h.created
        (wrapping "set route: %w" [] (call_router out (set_route (route_of q.app h.replicas))))
    persist_healed cur id h.replicas

  unfoldable pub heal_dead_replicas_locked : Deployment → List ℕ → M Deployment
  heal_dead_replicas_locked cur dead =
      if str_eq cur.spec ""
      then raise (errorf "no spec snapshot to heal %q" (str cur.app ∷ []))
      else if is_nil dead
      then pure cur
      else do
        q ← restored_set out cur "no spec snapshot to heal %q" "no image recorded to heal %q"
        heal_restored q cur dead
