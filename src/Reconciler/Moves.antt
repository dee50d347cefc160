-- ===== src/Reconciler/Moves.antt =====
-- internal/reconciler/evacuate.go: evacuateReplicasLocked and EvacuateNode.
use lwd.Base.{
  Error, List, Option, Result, String, [], err, errorf, false, get_elem?, if◌then◌else◌, length,
  map, none, not, num, ok, set, some, str, str_eq, ℕ, ◌++◌, ◌∷◌,
}
use lwd.Reconciler.World.{
  Container, M, Outside, ask_error, ask_result, attempt, call_router, exec, ignore, is_reachable,
  or_undo, pure, query, raise, remove_container, run_container, wrapping, ◌>>=◌, ◌>>◌,
}
use lwd.Reconciler.Placement.{place_excluding_set}
use lwd.Reconciler.Services.{fetch_image}
use lwd.Reconciler.Rollout.{
  Rollout, Target, lwd_network, merge_env, replica_of, run_spec, staging_host, upstream_of,
}
use lwd.Reconciler.Remove.{normalize_node}
use lwd.Reconciler.Apply.{restored_app}
use lwd.Reconciler.Retire.{remove_resolved}
use lwd.Reconciler.Probes.{check_health}
use lwd.Reconciler.Evacuate.{
  check_image, check_restored, first_container, move_name, network_of, other_nodes, with_set,
}
use lwd.Router.{Route, remove_staging, set_route, set_staging, use_internal_tls}
use lwd.Store.{Deployment, Replica, next_deploy_id, update_replicas}
use lwd.Spec.{App}

-- What evacuateReplicasLocked returns: the indexes moved and the errors of the others.
pub record Evacuated : Type 0 where
  pub moved : List ℕ
  pub failed : List (ℕ × Error)

abbrev pub fail_all : List ℕ → Error → Evacuated
fail_all idxs e = record { moved = []; failed = map (λ i. (i, e)) idxs }

abbrev pub route_of : App → List Replica → Route
route_of app rs = record {
  domain = app.domain;
  upstreams = map upstream_of rs;
  tls_internal = use_internal_tls app.domain;
}

module _ (out : Outside) where
  -- What a whole set's moves share: the app, its image and its environment.
  abbrev pub restored_set : Deployment → String → String → M Rollout
  restored_set cur missing no_image = do
    app ← restored_app out missing "unmarshal spec snapshot for %q: %w" cur.app cur
    check_restored out cur app app.git
    check_image out no_image cur app
    secret_vals ←
        wrapping "resolve secrets: %w" []
          (ask_result (λ t. out.resolve_secrets t app.name app.secrets))
    pure (record {
      app = app;
      image = app.image;
      env = merge_env app.env secret_vals;
      backing_network = network_of out app;
      compose = "";
      spec_json = "";
      is_local = false;
      mesh_addr = "";
      scheduled = false;
    })

  abbrev pub connect_backing : Rollout → Target → Container → M (Unit {0})
  connect_backing q t c =
      if str_eq q.backing_network ""
      then pure tt
      else ask_error (λ k. out.connect_error k t.name c.id q.backing_network)

  -- The node's answer, its network and the image: nothing is started yet.
  unfoldable pub prepare_node : Rollout → ℕ → String → M Target
  prepare_node q idx name = do
    m ←
        wrapping "resolve node %q for replica %d: %w" (str name ∷ num idx ∷ [])
          (ask_result (λ t. out.resolve_meta t name))
    wrapping "ensure network on %q: %w" (str name ∷ [])
        (ask_error (λ t. out.ensure_network t name lwd_network))
    wrapping "ensure image for replica %d: %w" (num idx ∷ [])
        (fetch_image out m.is_local name q.image)
    pure (record { name = name; mesh_addr = m.mesh_addr; is_local = m.is_local })

  abbrev pub cleanup : String → String → String → M (Unit {0})
  cleanup host node id = do
    ignore (call_router out (remove_staging host))
    ignore (remove_container out node id)

  -- The new container behind its staging host, healthy.
  unfoldable pub stage_move : Rollout → ℕ → ℕ → ℕ → Target → M (Container × Replica)
  stage_move q count idx id t = do
    c ←
        wrapping "run container for replica %d: %w" (num idx ∷ [])
          (run_container out t.name (run_spec out.float q id (move_name count q.app id idx) idx t))
    or_undo
        (do
          wrapping "connect replica %d to backing network: %w" (num idx ∷ [])
              (connect_backing q t c)
          wrapping "set staging route: %w" [] (
              call_router out (
                set_staging (staging_host id)
                  (upstream_of (replica_of q (move_name count q.app id idx) t c) ∷ [])))
          wrapping "health check failed for replica %d: %w" (num idx ∷ [])
              (check_health out q.app t.name (staging_host id) c.id))
        (cleanup (staging_host id) t.name c.id)
    ignore (call_router out (remove_staging (staging_host id)))
    pure (c, replica_of q (move_name count q.app id idx) t c)

  -- The old container, unless its node does not answer.
  abbrev pub remove_old : Replica → M (Unit {0})
  remove_old old = do
    up ← is_reachable out (normalize_node old.node)
    if not up then pure tt else do
      m ← attempt (ask_result (λ t. out.resolve_meta t (normalize_node old.node)))
      remove_resolved out (normalize_node old.node) old.container_id m

  -- The route's flip, the removal of the old container and the row's new replicas.
  unfoldable pub flip_move :
      Rollout → Deployment → ℕ → Replica → Target → Container × Replica → M Deployment
  flip_move q cur idx old t (c, new) = do
    or_undo
        (wrapping "set route for replica %d: %w" (num idx ∷ [])
          (call_router out (set_route (route_of q.app (set cur.replicas idx new)))))
        (ignore (remove_container out t.name c.id))
    remove_old old
    wrapping "persist evacuated replica %d: %w" (num idx ∷ []) (
        exec out (
          update_replicas cur.id (set cur.replicas idx new)
            (first_container (set cur.replicas idx new))))
    pure (with_set cur (set cur.replicas idx new))

  abbrev pub move_found : Rollout → String → Deployment → ℕ → Replica → M Deployment
  move_found q exclude cur idx old = do
    name ←
        wrapping "place replica %d off %q: %w" (num idx ∷ str exclude ∷ [])
          (place_excluding_set out q.app (exclude ∷ other_nodes idx 0 cur.replicas))
    t ← prepare_node q idx name
    id ← wrapping "next deploy id: %w" [] (query out next_deploy_id)
    staged ← stage_move q (length cur.replicas) idx id t
    flip_move q cur idx old t staged

  abbrev pub move_at : Rollout → String → Deployment → ℕ → Option Replica → M Deployment
  move_at q exclude cur idx none = raise (
      errorf "replica index %d out of range for %q (%d replicas)"
        (num idx ∷ str cur.app ∷ num (length cur.replicas) ∷ []))
  move_at q exclude cur idx (some old) = move_found q exclude cur idx old

  -- The loop's body for one replica; an error is what `failed[idx]` is set to.
  unfoldable pub move_replica : Rollout → String → Deployment → ℕ → M Deployment
  move_replica q exclude cur idx = move_at q exclude cur idx (get_elem? cur.replicas idx)

  abbrev pub after_move : Deployment → Evacuated → ℕ → Result Deployment → Deployment × Evacuated
  after_move cur ev idx (ok next) = (next, record ev { moved = ev.moved ++ idx ∷ [] })
  after_move cur ev idx (err e) = (cur, record ev { failed = ev.failed ++ (idx, e) ∷ [] })

  unfoldable pub move_replicas : Rollout → String → Deployment → List ℕ → Evacuated → M Evacuated
  move_replicas q exclude cur [] ev = pure ev
  move_replicas q exclude cur (idx ∷ idxs) ev = do
    r ← attempt (move_replica q exclude cur idx)
    move_replicas q exclude (after_move cur ev idx r).0 idxs (after_move cur ev idx r).1

  abbrev pub evacuate_restored : Deployment → String → List ℕ → Result Rollout → M Evacuated
  evacuate_restored cur exclude idxs (err e) = pure (fail_all idxs e)
  evacuate_restored cur exclude idxs (ok q) =
      move_replicas q exclude cur idxs (record { moved = []; failed = [] })

  unfoldable pub evacuate_replicas_locked : Deployment → String → List ℕ → M Evacuated
  evacuate_replicas_locked cur exclude idxs = do
    q ←
        attempt
          (restored_set cur "no spec snapshot to evacuate %q" "no image recorded to evacuate %q")
    evacuate_restored cur exclude idxs q
