-- ===== src/Reconciler/Compose.antt =====
-- internal/reconciler/reconciler.go: applyCompose, of an app that docker compose runs in place. The
-- resolver's Resolve is ResolveMeta's node.
use lwd.Base.{
  Error, Option, Result, String, [], err, errorf, if◌then◌else◌, none, not, num, ok, some, str,
  str_eq, suc, wrapf, zero, ℕ, ◌+++◌, ◌+◌, ◌∷◌,
}
use lwd.Reconciler.World.{
  M, Outside, ask, ask_error, ask_result, attempt, call_router, exec, ignore, lift, pure, query,
  raise, wrapping, ◌>>=◌, ◌>>◌,
}
use lwd.Reconciler.Deploy.{insert_row}
use lwd.Reconciler.Prepare.{Attempt, failed_row, record_failed, recording}
use lwd.Reconciler.Probes.{
  check_health_path, context_error, out_of_rounds, reaches_app, timeout_of, wait_or_deadline,
}
use lwd.Router.{set_route, use_internal_tls}
use lwd.Store.{Deployment, current_deployment, retired, running, set_status}
use lwd.Spec.{App, Env}
use lwd.Reconciler.Rollout.{lwd_network, merge_env}

module _ (out : Outside) where
  abbrev pub compose_attempt : App → String → String → String → Attempt
  compose_attempt app id spec content = record {
    app = app.name;
    image = app.image;
    container_id = id;
    spec = spec;
    compose = content;
  }

  unfoldable pub record_compose_failed : App → String → String → String → M (Unit {0})
  record_compose_failed app id spec content =
      record_failed out (compose_attempt app id spec content)

  abbrev pub route_not_ready : String → Result ℕ → Error
  route_not_ready domain (ok status) =
      errorf "liveness check timed out: last probe status=%d" (num status ∷ [])
  route_not_ready domain (err e) =
      wrapf "liveness probe %s did not become ready: %w (last status %d)" (str domain ∷ num 0 ∷ [])
        e

  unfoldable pub poll_route : ℕ → ℕ → String → M (Unit {0})
  poll_route zero deadline domain = raise out_of_rounds
  poll_route (suc k) deadline domain =
      let again = poll_route k deadline domain in
      do
        answer ← attempt (ask_result (λ t. out.probe t domain "/"))
        if reaches_app answer then pure tt else do
          done ← wait_or_deadline out deadline
          if done then raise (route_not_ready domain answer) else again

  -- The settle window, then the polls.
  unfoldable pub check_liveness_through_route : ℕ → String → M (Unit {0})
  check_liveness_through_route deadline domain = do
    gone ← ask out.cancelled
    if gone then raise context_error else poll_route out.poll_rounds deadline domain

  unfoldable pub check_health_compose : App → M (Unit {0})
  check_health_compose app = do
    now ← ask out.now
    if not (str_eq app.health.path "")
        then check_health_path out out.poll_rounds (now + timeout_of app) app.domain app.health.path
        else check_liveness_through_route (now + timeout_of app) app.domain

  -- The status of the current row only: compose has recreated what changed.
  abbrev pub retire_row : Result (Option Deployment) → M (Unit {0})
  retire_row (err e) = pure tt
  retire_row (ok none) = pure tt
  retire_row (ok (some prev)) = ignore (exec out (set_status prev.id retired))

  abbrev pub compose_row : App → String → String → String → ℕ → Deployment
  compose_row app id spec content now =
      record (failed_row (compose_attempt app id spec content) now) { status = running }

  unfoldable pub record_compose : App → String → String → String → M Deployment
  record_compose app id spec content = do
    prev ← attempt (query out (current_deployment app.name))
    retire_row prev
    now ← ask out.now
    new_id ←
        wrapping "record deployment: %w" [] (insert_row out (compose_row app id spec content now))
    pure (record (compose_row app id spec content now) { id = new_id })

  -- `docker compose up`, and the container that it runs for the app's service.
  abbrev pub compose_started : App → String → String → Env → M (String × String)
  compose_started app spec content env = do
    recording out (compose_attempt app "" spec content) "compose up: %w" []
        (ask_error (λ t. out.compose_up_error t ("lwd-" +++ app.name) app.compose env))
    recording out (compose_attempt app "" spec content) "resolve service container: %w" []
        (ask_result (λ t. out.service_container t ("lwd-" +++ app.name) app.service))

  -- The route to the container, which is live before it is probed.
  abbrev pub compose_routed : App → String → String → String × String → M (Unit {0})
  compose_routed app spec content (id, name) = do
    recording out (compose_attempt app id spec content) "connect container to network: %w" []
        (ask_error (λ t. out.connect_error t app.node id lwd_network))
    recording out (compose_attempt app id spec content) "set route: %w" [] (
        call_router out (
          set_route (record {
            domain = app.domain;
            upstreams = record { host = name; port = app.port } ∷ [];
            tls_internal = use_internal_tls app.domain;
          })))
    recording out (compose_attempt app id spec content) "health check failed: %w" []
        (check_health_compose app)

  -- The file's content, or "" if it cannot be read.
  abbrev pub readable : Result String → String
  readable (ok content) = content
  readable (err e) = ""

  unfoldable pub apply_compose : App → M Deployment
  apply_compose app = do
    spec ← wrapping "marshal spec snapshot: %w" [] (lift (out.marshal app))
    m ←
        recording out (compose_attempt app "" spec "") "resolve node %q: %w" (str app.node ∷ [])
          (ask_result (λ t. out.resolve_meta t app.node))
    wrapping "ensure router: %w" [] (ask_error out.router_up_error)
    wrapping "ensure network: %w" [] (ask_error (λ t. out.ensure_network t app.node lwd_network))
    file ← attempt (ask_result (λ t. out.read_file t app.compose))
    secret_vals ←
        recording out (compose_attempt app "" spec (readable file)) "resolve secrets: %w" []
          (ask_result (λ t. out.resolve_secrets t app.name app.secrets))
    content ←
        recording out (compose_attempt app "" spec "") "read compose file %s: %w"
          (str app.compose ∷ []) (lift file)
    service ← compose_started app spec content (merge_env app.env secret_vals)
    compose_routed app spec content service
    record_compose app service.0 spec content
