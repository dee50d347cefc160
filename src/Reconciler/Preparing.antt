-- ===== src/Reconciler/Preparing.antt =====
-- The steps before a deploy keep each quiet invariant: they ask, and record rows of failed attempts.
use lwd.Base.{Arg, Bool, List, String, [], refl, ◌∷◌}
use lwd.Reconciler.World.{M, Meta, Outside, World, wrapping}
use lwd.Reconciler.Keeps.{
  Keeps, Keeps-ask, Keeps-bind, Keeps-ignore, Keeps-or_undo, Keeps-wrapping, keeps_rules,
}
use lwd.Reconciler.Questions.{ensure_image_on_node-Keeps, place_excluding_set-Keeps}
use lwd.Reconciler.Untouched.{IsQuiet, insert_row-Keeps}
use lwd.Reconciler.Placement.{resolve_placement}
use lwd.Reconciler.Services.{backing_of, ensure_backing, fetch_image, write_temp}
use lwd.Reconciler.Prepare.{Attempt, failed_row, open_node, record_failed, recording, settle}
use lwd.Reconciler.Source.{build_image, check_pinned, move_image}
use lwd.Reconciler.Apply.{check_valid}
use lwd.Spec.{App, Env, Git, Service}

module _ (out : Outside) (I : World → Type 0) (quiet : IsQuiet I) where
  pub resolve_placement-Keeps : (app : App) → Keeps I (resolve_placement out app)
  unfolding resolve_placement
  resolve_placement-Keeps app = search (keeps_rules, place_excluding_set-Keeps out I quiet.ticks)

  pub fetch_image-Keeps : (b : Bool) (node image : String) → Keeps I (fetch_image out b node image)
  unfolding fetch_image
  fetch_image-Keeps b node image =
      search (keeps_rules, quiet.ticks, ensure_image_on_node-Keeps out I quiet.ticks)

  pub write_temp-Keeps : (what content : String) → Keeps I (write_temp out what content)
  unfolding write_temp
  write_temp-Keeps what content = search (keeps_rules, quiet.ticks) depth 14

  backing-Keeps :
      (node : String) (app : App) (env : Env) (host : String) (svcs : List Service)
      → Keeps I (backing_of out node app env host svcs)
  backing-Keeps node app env host [] = search keeps_rules
  backing-Keeps node app env host (svc ∷ rest) =
      search (keeps_rules, quiet.ticks, write_temp-Keeps) depth 14

  pub ensure_backing-Keeps :
      (node : String) (app : App) (env : Env) (host : String)
      → Keeps I (ensure_backing out node app env host)
  unfolding ensure_backing
  ensure_backing-Keeps node app env host = backing-Keeps node app env host app.services

  pub record_failed-Keeps : (a : Attempt) → Keeps I (record_failed out a)
  unfolding record_failed
  record_failed-Keeps a =
      Keeps-bind I _ _ (Keeps-ask I quiet.ticks out.now)
        λ now. Keeps-ignore I _ (insert_row-Keeps out I quiet (failed_row a now) refl)

  pub recording-Keeps :
      {A : Type 0} (a : Attempt) (f : String) (args : List Arg) (m : M A)
      → Keeps I m
      → Keeps I (recording out a f args m)
  recording-Keeps a f args m k =
      Keeps-or_undo I (wrapping f args m) (record_failed out a) (Keeps-wrapping I f args m k)
        (record_failed-Keeps a)

  pub open_node-Keeps : (a : Attempt) (app : App) → Keeps I (open_node out a app)
  unfolding open_node
  open_node-Keeps a app = search (recording-Keeps, keeps_rules, quiet.ticks) depth 14

  pub settle-Keeps : (a : Attempt) (app : App) (m : Meta) → Keeps I (settle out a app m)
  unfolding settle
  settle-Keeps a app m =
      search (recording-Keeps, keeps_rules, quiet.ticks, ensure_backing-Keeps) depth 14

  pub build_image-Keeps :
      (git : Git) (app : App) (spec compose : String)
      → Keeps I (build_image out git app spec compose)
  unfolding build_image
  build_image-Keeps git app spec compose =
      search (recording-Keeps, keeps_rules, quiet.ticks) depth 14

  pub move_image-Keeps :
      (b : Bool) (a : Attempt) (app : App) (image : String) → Keeps I (move_image out b a app image)
  move_image-Keeps b a app image =
      search (recording-Keeps, keeps_rules, ensure_image_on_node-Keeps out I quiet.ticks)

  pub check_pinned-Keeps : (app : App) → Keeps I (check_pinned out app)
  check_pinned-Keeps app = search keeps_rules

  pub check_valid-Keeps :
      (f : String) (args : List Arg) (app : App) → Keeps I (check_valid out f args app)
  check_valid-Keeps f args app = search keeps_rules
