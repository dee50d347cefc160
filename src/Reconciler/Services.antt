-- ===== src/Reconciler/Services.antt =====
-- internal/reconciler/reconciler.go: the backing services of an app brought up and down, and the
-- image on its node. The removal of a temporary file is not modelled.
use lwd.Base.{Bool, List, String, [], if◌then◌else◌, str_eq, ◌+++◌, ◌∷◌}
use lwd.Reconciler.World.{M, Outside, ask_error, ask_result, pure, wrapping, ◌>>=◌, ◌>>◌}
use lwd.Reconciler.Backing.{render_backing_compose}
use lwd.Reconciler.Images.{ensure_image_on_node}
use lwd.Reconciler.Rollout.{merge_env}
use lwd.Spec.{App, Env, Service}

module _ (out : Outside) where
  -- os.CreateTemp, WriteString and Close; the errors name `what`.
  unfoldable pub write_temp : String → String → M String
  write_temp what content = do
    path ← wrapping ("create temp " +++ (what +++ ": %w")) [] (ask_result out.create_temp)
    wrapping ("write temp " +++ (what +++ ": %w")) []
        (ask_error (λ t. out.write_error t path content))
    wrapping ("close temp " +++ (what +++ ": %w")) [] (ask_error (λ t. out.close_error t path))
    pure path

  -- The environment with DOCKER_HOST, if there is one.
  abbrev pub with_docker_host : Env → String → Env
  with_docker_host env docker_host =
      if str_eq docker_host "" then env else merge_env env (("DOCKER_HOST", docker_host) ∷ [])

  abbrev pub compose_up : String → App → Env → String → M (Unit {0})
  compose_up path app env docker_host = wrapping "backing compose up: %w" [] (
      ask_error
        (λ t. out.compose_up_error t ("lwd-" +++ app.name) path (with_docker_host env docker_host)))

  abbrev pub backing_of : String → App → Env → String → List Service → M (String × String)
  backing_of node app env docker_host [] = pure ("", "")
  backing_of node app env docker_host (svc ∷ rest) = do
    let (content, network) = render_backing_compose app.name (svc ∷ rest)
    wrapping "ensure backing network: %w" [] (ask_error (λ t. out.ensure_network t node network))
    path ← write_temp "backing compose file" content
    compose_up path app env docker_host
    pure (network, content)

  -- The network and the document, both empty without services.
  unfoldable pub ensure_backing : String → App → Env → String → M (String × String)
  ensure_backing node app env docker_host = backing_of node app env docker_host app.services

  unfoldable pub down_backing : String → String → String → M (Unit {0})
  down_backing app content docker_host = do
    path ← write_temp "backing compose file" content
    wrapping "backing compose down: %w" [] (
        ask_error
          (λ t. out.compose_down_error t ("lwd-" +++ app) path (with_docker_host [] docker_host)))

  -- `if isLocal { n.EnsureImage(...) } else { r.ensureImageOnNode(...) }`
  unfoldable pub fetch_image : Bool → String → String → M (Unit {0})
  fetch_image is_local node image =
      if is_local
      then ask_error (λ t. out.ensure_image t node image)
      else ensure_image_on_node out node image
