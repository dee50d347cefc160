-- ===== src/Reconciler/Images.antt =====
-- internal/reconciler/reconciler.go: ensureImageOnNode. A saved image is named by its reference.
use lwd.Base.{Bool, String, [], codes, errorf, if◌then◌else◌, str, ◌∷◌}
use lwd.Reconciler.World.{
  M, Outside, ask_error, ask_result, ignore, pure, raise, wrapping, ◌>>=◌, ◌>>◌,
}
use lwd.Spec.Names.{contains}

module _ (out : Outside) where
  -- The arguments that ensureImageOnNode's errors and questions take.
  abbrev present : String → String → M Bool
  present node ref = ask_result (λ t. out.image_present t node ref)

  abbrev transfer : String → String → M (Unit {0})
  transfer node ref = do
    wrapping "resolve local node for image transfer: %w" []
        (ask_result (λ t. out.resolve_meta t "local"))
    wrapping "save image %s: %w" (str ref ∷ []) (ask_error (λ t. out.save_image t "local" ref))
    wrapping "load image %s on target node: %w" (str ref ∷ [])
        (ask_error (λ t. out.load_image t node ref))
    there_now ← wrapping "check image present after transfer: %w" [] (present node ref)
    if there_now
        then pure tt
        else raise
            (errorf "image %s still absent on target node after save/load transfer" (str ref ∷ []))

  abbrev pub pull_or_transfer : String → String → M (Unit {0})
  pull_or_transfer node ref = do
    ignore (ask_error (λ t. out.ensure_image t node ref))
    pulled ← wrapping "check image present after pull: %w" [] (present node ref)
    if pulled then pure tt else transfer node ref

  unfoldable pub ensure_image_on_node : String → String → M (Unit {0})
  ensure_image_on_node node ref =
      if contains (codes "@sha256:") (codes ref)
      then (do
        pinned ← wrapping "check image present: %w" [] (present node ref)
        if pinned then pure tt else pull_or_transfer node ref)
      else pull_or_transfer node ref
