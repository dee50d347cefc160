-- ===== src/Reconciler/Deploy.antt =====
-- internal/reconciler/reconciler.go: deployReplicaSet, which starts a new set of replicas, stages
-- and probes it, flips the live route to it and retires the old set; and recordFailedReplicaSet.
use lwd.Base.{
  Arg, List, String, [], false, if◌then◌else◌, num, str, str_eq, suc, zero, ℕ, ◌++◌, ◌-◌, ◌==◌, ◌∷◌,
}
use lwd.Reconciler.World.{
  Container, M, Outside, ask, ask_error, ask_result, call_router, exec, gets, ignore, modify,
  or_undo, pure, query, remove_container, run_container, wrapping, ◌>>=◌, ◌>>◌,
}
use lwd.Reconciler.Rollout.{
  Rollout, Started, Target, anchor, count_of, first_id, lwd_network, no_start, replica_name,
  replica_of, reset_heal, run_spec, set_of, staging_host, with_replica,
}
use lwd.Store.{Deployment, failed, next_deploy_id, record_deployment, running}
use lwd.Router.{remove_staging, set_route, set_staging, use_internal_tls}
use lwd.Reconciler.Images.{ensure_image_on_node}
use lwd.Reconciler.Probes.{check_health}
use lwd.Reconciler.Placement.{spread_or_stack}
use lwd.Reconciler.Retire.{retire_old_set}

module _ (out : Outside) where
  -- RecordDeployment, with the new row's id.
  unfoldable pub insert_row : Deployment → M ℕ
  insert_row d = do exec out (λ s. (record_deployment d s).0); gets (λ w. w.store.last_id)

  unfoldable pub remove_all : List Target → List Container → M (Unit {0})
  remove_all [] cs = pure tt
  remove_all (t ∷ ts) [] = pure tt
  remove_all (t ∷ ts) (c ∷ cs) = do ignore (remove_container out t.name c.id); remove_all ts cs

  module _ (q : Rollout) where
    unfoldable pub record_failed_replica_set : String → List Target → List Container → M (Unit {0})
    record_failed_replica_set host targets cs = do
      ignore (call_router out (remove_staging host))
      remove_all targets cs
      now ← ask out.now
      ignore (insert_row (record (set_of q (first_id cs) failed now []) { scheduled = false }))

    abbrev pub next_node : ℕ → List String → M String
    next_node i exclude =
        if q.scheduled
        then wrapping "place replica %d: %w" (num i ∷ []) (spread_or_stack out q.app exclude)
        else pure q.app.node

    -- The targets of the replicas `i` to `i + k - 1`.
    unfoldable pub more_targets : (i k : ℕ) → List String → List Target → M (List Target)
    more_targets i zero exclude ts = pure ts
    more_targets i (suc k) exclude ts = do
      name ← next_node i exclude
      m ←
          wrapping "resolve node %q for replica %d: %w" (str name ∷ num i ∷ [])
            (ask_result (λ t. out.resolve_meta t name))
      wrapping "ensure network on %q: %w" (str name ∷ [])
          (ask_error (λ t. out.ensure_network t name lwd_network))
      more_targets (suc i) k (if q.scheduled then exclude ++ name ∷ [] else exclude)
          (ts ++ record { name = name; mesh_addr = m.mesh_addr; is_local = m.is_local } ∷ [])

    -- The anchor's image is there already.
    abbrev pub image_for : ℕ → Target → M (Unit {0})
    image_for i t =
        if i == 0
        then pure tt
        else if t.is_local
        then ask_error (λ k. out.ensure_image k t.name q.image)
        else ensure_image_on_node out t.name q.image

    abbrev pub connect : Target → Container → M (Unit {0})
    connect t c =
        if str_eq q.backing_network ""
        then pure tt
        else ask_error (λ k. out.connect_error k t.name c.id q.backing_network)

    -- `if err != nil { r.recordFailedReplicaSet(...); return nil, fmt.Errorf(format, i, err) }`
    abbrev pub guarded :
        {A : Type 0} → String → List Target → List Container → String → List Arg → M A → M A
    guarded host targets cs format args m =
        or_undo (wrapping format args m) (record_failed_replica_set host targets cs)

    -- The loop's body for one target.
    unfoldable pub start_replica : ℕ → String → List Target → ℕ → Target → Started → M Started
    start_replica id host targets i t st = do
      guarded host targets st.containers "ensure image on replica %d: %w" (num i ∷ [])
          (image_for i t)
      c ←
          guarded host targets st.containers "run container for replica %d: %w" (num i ∷ [])
            (run_container out t.name (run_spec out.float q id (replica_name q.app id i) i t))
      guarded host targets (st.containers ++ c ∷ []) "connect replica %d to backing network: %w"
          (num i ∷ []) (connect t c)
      pure (with_replica st c (replica_of q (replica_name q.app id i) t c))

    unfoldable pub start_all : ℕ → String → List Target → ℕ → List Target → Started → M Started
    start_all id host targets i [] st = pure st
    start_all id host targets i (t ∷ ts) st = do
      next ← start_replica id host targets i t st
      start_all id host targets (suc i) ts next

    unfoldable pub check_all :
        String → List Target → List Container → ℕ → List Target → List Container → M (Unit {0})
    check_all host targets cs i [] ds = pure tt
    check_all host targets cs i (t ∷ ts) [] = pure tt
    check_all host targets cs i (t ∷ ts) (d ∷ ds) = do
      guarded host targets cs "health check failed for replica %d: %w" (num i ∷ [])
          (check_health out q.app t.name host d.id)
      check_all host targets cs (suc i) ts ds

  module _ (q : Rollout) where
    -- All that goes before the route's flip.
    unfoldable pub stage_set : ℕ → List Target → M Started
    stage_set id targets = do
      st ← start_all q id (staging_host id) targets 0 targets no_start
      guarded q (staging_host id) targets st.containers "set staging route: %w" []
          (call_router out (set_staging (staging_host id) st.upstreams))
      check_all q (staging_host id) targets st.containers 0 targets st.containers
      pure st

    -- All that follows it.
    unfoldable pub record_live : ℕ → Started → M Deployment
    record_live id st = do
      ignore (call_router out (remove_staging (staging_host id)))
      retire_old_set out q.app.name
      now ← ask out.now
      let dep = set_of q (first_id st.containers) running now st.replicas
      new_id ← wrapping "record deployment: %w" [] (insert_row dep)
      modify (reset_heal q.app.name)
      pure (record dep { id = new_id })

    unfoldable pub deploy_replica_set : M Deployment
    deploy_replica_set = do
      id ← wrapping "next deploy id: %w" [] (query out next_deploy_id)
      targets ← more_targets q 1 (count_of q.app - 1) (q.app.node ∷ []) (anchor q ∷ [])
      st ← stage_set id targets
      guarded q (staging_host id) targets st.containers "set route: %w" [] (
          call_router out (
            set_route (record {
              domain = q.app.domain;
              upstreams = st.upstreams;
              tls_internal = use_internal_tls q.app.domain;
            })))
      record_live id st
