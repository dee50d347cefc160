-- ===== src/Reconciler/Source.antt =====
-- internal/reconciler/reconciler.go: applyGit, of an app that is built from a git repository. The
-- clone's temporary directory is not removed in the model.
use lwd.Spec.Validate.{validate}
use lwd.Base.{Bool, String, [], errorf, if◌then◌else◌, str, str_eq, ◌∷◌}
use lwd.Reconciler.World.{
  M, Outside, ask_error, ask_result, failing, lift, pure, raise, wrapping, ◌>>=◌, ◌>>◌,
}
use lwd.Reconciler.Placement.{resolve_placement}
use lwd.Reconciler.Images.{ensure_image_on_node}
use lwd.Reconciler.Deploy.{deploy_replica_set}
use lwd.Reconciler.Prepare.{
  Attempt, attempt_of, dockerfile_of, image_tag, open_node, recording, rollout_of, settle,
}
use lwd.Store.{Deployment}
use lwd.Spec.{App, Git}

module _ (out : Outside) where
  -- The image of the source's commit, which is built only if it is not there yet.
  unfoldable pub build_image : Git → App → String → String → M String
  build_image git app spec compose = do
    dir ← wrapping "create temp clone dir: %w" [] (ask_result out.make_temp_dir)
    sha ←
        recording out (attempt_of app "" spec compose) "clone: %w" []
          (ask_result (λ t. out.clone t git.url git.ref dir))
    there_already ←
        recording out (attempt_of app (image_tag app sha) spec compose) "check image exists: %w" []
          (ask_result (λ t. out.image_exists t (image_tag app sha)))
    if there_already
        then pure tt
        else recording out (attempt_of app (image_tag app sha) spec compose) "build: %w" [] (
            ask_error (λ t.
              out.build_error t (out.join_path dir git.path) (dockerfile_of app.build)
                (image_tag app sha)))
    pure (image_tag app sha)

  -- The image on a node other than the controller's.
  abbrev pub move_image : Bool → Attempt → App → String → M (Unit {0})
  move_image is_local a app image =
      if is_local
      then pure tt
      else recording out a "ensure image on node %q: %w" (str app.node ∷ [])
          (ensure_image_on_node out app.node image)

  abbrev pub git_placed : Git → App → Bool → M Deployment
  git_placed git app scheduled = do
    spec ← wrapping "marshal spec snapshot: %w" [] (lift (out.marshal app))
    m ← open_node out (attempt_of app "" spec "") app
    g ← settle out (attempt_of app "" spec "") app m
    tag ← build_image git app spec g.compose
    move_image m.is_local (attempt_of app tag spec g.compose) app tag
    deploy_replica_set out (rollout_of app tag g spec scheduled)

  unfoldable pub apply_git : Git → App → M Deployment
  apply_git git app = do
    (chosen, scheduled) ←
        recording out (attempt_of app "" "" "") "schedule: %w" [] (resolve_placement out app)
    git_placed git (record app { node = chosen }) scheduled

  -- What the snapshot without its image is refused for, or that it records none.
  abbrev pub check_pinned : App → M (Unit {0})
  check_pinned app = do
    wrapping "invalid spec: %w" [] (lift (failing (validate out.float (record app { image = "" }))))
    if str_eq app.image ""
        then raise (errorf "no built image tag recorded to roll back to for %q" (str app.name ∷ []))
        else pure tt

  -- A built image again, with neither clone nor build.
  unfoldable pub rollback_git_locked : App → Bool → M Deployment
  rollback_git_locked app scheduled = do
    check_pinned app
    spec ← wrapping "marshal spec snapshot: %w" [] (lift (out.marshal app))
    m ← open_node out (attempt_of app app.image spec "") app
    g ← settle out (attempt_of app app.image spec "") app m
    move_image m.is_local (attempt_of app app.image spec g.compose) app app.image
    deploy_replica_set out (rollout_of app app.image g spec scheduled)
