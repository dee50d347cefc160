-- ===== src/Reconciler/Image.antt =====
-- internal/reconciler/reconciler.go: applyImage, of an app that names its image.
use lwd.Base.{Bool, Option, String, [], none}
use lwd.Reconciler.World.{M, Outside, lift, wrapping, ◌>>=◌, ◌>>◌}
use lwd.Reconciler.Placement.{resolve_placement}
use lwd.Reconciler.Services.{fetch_image}
use lwd.Reconciler.Deploy.{deploy_replica_set}
use lwd.Reconciler.Prepare.{attempt_of, open_node, or_given, recording, rollout_of, settle}
use lwd.Store.{Deployment}
use lwd.Spec.{App}

module _ (out : Outside) where
  -- From the placed app on; `spec` is its snapshot.
  abbrev pub deploy_image : App → Bool → String → M Deployment
  deploy_image app scheduled spec = do
    m ← open_node out (attempt_of app app.image spec "") app
    wrapping "ensure image: %w" [] (fetch_image out m.is_local app.node app.image)
    g ← settle out (attempt_of app app.image spec "") app m
    deploy_replica_set out (rollout_of app app.image g spec scheduled)

  abbrev pub image_placed : App → Bool → M Deployment
  image_placed app scheduled = do
    spec ← wrapping "marshal spec snapshot: %w" [] (lift (out.marshal app))
    deploy_image app scheduled spec

  -- `override` replaces the placement's own answer to whether the scheduler chose the node.
  unfoldable pub apply_image_provenance : App → Option Bool → M Deployment
  apply_image_provenance app override = do
    (chosen, scheduled) ←
        recording out (attempt_of app app.image "" "") "schedule: %w" [] (resolve_placement out app)
    image_placed (record app { node = chosen }) (or_given scheduled override)

  unfoldable pub apply_image : App → M Deployment
  apply_image app = apply_image_provenance app none
