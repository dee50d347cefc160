-- ===== src/Reconciler/Apply.antt =====
-- internal/reconciler/reconciler.go: Apply, Rollback and the redeploy of a dead surface. A wake-up
-- that is sent while one waits is dropped, so one flag stands for the channel.
use lwd.Spec.Validate.{validate}
use lwd.Base.{
  Arg, Bool, List, Option, String, [], errorf, if◌then◌else◌, none, not, some, str, str_eq, true,
  ◌∷◌,
}
use lwd.Reconciler.World.{
  M, Outside, World, failing, lift, modify, pure, query, raise, wrapping, ◌>>=◌, ◌>>◌,
}
use lwd.Reconciler.Services.{write_temp}
use lwd.Reconciler.Image.{apply_image, apply_image_provenance}
use lwd.Reconciler.Source.{apply_git, rollback_git_locked}
use lwd.Reconciler.Compose.{apply_compose}
use lwd.Store.{Deployment, previous_deployment}
use lwd.Spec.{App, Git}

abbrev pub signal_nudge : World → World
signal_nudge w = record w { nudged = true }

-- `if err == nil { r.signalNudge() }`
abbrev pub nudging : M Deployment → M Deployment
nudging m = do d ← m; modify signal_nudge; pure d

module _ (out : Outside) where
  abbrev pub check_valid : String → List Arg → App → M (Unit {0})
  check_valid format args app = wrapping format args (lift (failing (validate out.float app)))

  abbrev pub apply_shape : App → Option Git → M Deployment
  apply_shape app (some git) = apply_git out git app
  apply_shape app none =
      if not (str_eq app.compose "") then apply_compose out app else apply_image out app

  unfoldable pub apply : App → M Deployment
  apply app = do check_valid "invalid spec: %w" [] app; nudging (apply_shape app app.git)

  unfoldable pub rollback_image : App → Bool → M Deployment
  rollback_image app scheduled = do
    check_valid "invalid spec: %w" [] app
    apply_image_provenance out app (some scheduled)

  -- The app of a row: its snapshot with the row's image.
  abbrev pub restored_app : String → String → String → Deployment → M App
  restored_app missing broken name d =
      if str_eq d.spec "" then raise (errorf missing (str name ∷ [])) else do
        app ← wrapping broken (str name ∷ []) (lift (out.unmarshal d.spec))
        pure (record app { image = d.image })

  -- The redeploy of a row's app on its node, with its provenance.
  abbrev pub redeploy : Deployment → App → Bool → Option Git → M Deployment
  redeploy cur app scheduled (some git) = rollback_git_locked out app scheduled
  redeploy cur app scheduled none = do
    check_valid "invalid spec snapshot for %q: %w" (str cur.app ∷ []) app
    apply_image_provenance out app (some scheduled)

  unfoldable pub heal_surface_locked : Deployment → M Deployment
  heal_surface_locked cur = do
    app ←
        restored_app "no spec snapshot to heal %q" "unmarshal spec snapshot for %q: %w" cur.app cur
    redeploy cur app cur.scheduled app.git

  -- The stored document is applied from a temporary file.
  abbrev pub rollback_compose : Deployment → App → M Deployment
  rollback_compose prev app = do
    path ← write_temp out "compose file" prev.compose
    apply (record app { compose = path })

  abbrev pub rollback_shape : Deployment → App → Option Git → M Deployment
  rollback_shape prev app (some git) = nudging (rollback_git_locked out app prev.scheduled)
  rollback_shape prev app none =
      if not (str_eq app.compose "")
      then rollback_compose prev app
      else nudging (rollback_image app prev.scheduled)

  abbrev pub rollback_to : String → Option Deployment → M Deployment
  rollback_to name none = raise (errorf "no previous deployment for %q" (str name ∷ []))
  rollback_to name (some prev) = do
    app ←
        restored_app "no spec snapshot recorded for previous deployment of %q"
          "unmarshal spec snapshot for %q: %w" name prev
    rollback_shape prev app app.git

  unfoldable pub rollback : String → M Deployment
  rollback name = do
    prev ← wrapping "load previous deployment: %w" [] (query out (previous_deployment name))
    rollback_to name prev
