-- ===== src/Reconciler/Moving.antt =====
-- Evacuation and healing up to the route's flip keep each quiet invariant.
use lwd.Base.{List, Option, String, [], get_elem?, none, some, ℕ, ◌∷◌}
use lwd.Reconciler.World.{M, Outside, World}
use lwd.Reconciler.Keeps.{Keeps, Keeps-bind, Keeps-or_undo, Keeps-wrapping, keeps_rules}
use lwd.Reconciler.Untouched.{
  IsQuiet, remove_container-Keeps, remove_staging-Keeps, run_container-Keeps, set_staging-Keeps,
}
use lwd.Reconciler.Preparing.{check_valid-Keeps, fetch_image-Keeps}
use lwd.Reconciler.Questions.{check_health-Keeps}
use lwd.Reconciler.Apply.{restored_app}
use lwd.Reconciler.Evacuate.{check_restored}
use lwd.Reconciler.Moves.{prepare_node, restored_set, stage_move}
use lwd.Reconciler.ReplicaHeal.{
  Healing, Recreated, check_created, clean_up, or_clean, recreate, recreate_all, recreate_at,
  remove_created, stage_healing,
}
use lwd.Spec.{App, Git}
use lwd.Store.{Deployment, Replica}
use lwd.Reconciler.Rollout.{Rollout, Target}

module _ (out : Outside) (I : World → Type 0) (quiet : IsQuiet I) where
  pub restored_app-Keeps :
      (missing broken name : String) (d : Deployment)
      → Keeps I (restored_app out missing broken name d)
  restored_app-Keeps missing broken name d = search keeps_rules

  pub check_restored-Keeps :
      (cur : Deployment) (app : App) (g : Option Git) → Keeps I (check_restored out cur app g)
  check_restored-Keeps cur app (some git) = search (keeps_rules, check_valid-Keeps out I quiet)
  check_restored-Keeps cur app none = search (keeps_rules, check_valid-Keeps out I quiet)

  pub restored_set-Keeps :
      (cur : Deployment) (missing no_image : String)
      → Keeps I (restored_set out cur missing no_image)
  restored_set-Keeps cur missing no_image =
      search (keeps_rules, quiet.ticks, restored_app-Keeps, check_restored-Keeps) depth 14

  pub prepare_node-Keeps :
      (q : Rollout) (i : ℕ) (name : String) → Keeps I (prepare_node out q i name)
  unfolding prepare_node
  prepare_node-Keeps q i name =
      search (keeps_rules, quiet.ticks, fetch_image-Keeps out I quiet) depth 14

  pub stage_move-Keeps :
      (q : Rollout) (count i id : ℕ) (t : Target) → Keeps I (stage_move out q count i id t)
  unfolding stage_move
  stage_move-Keeps q count i id t =
      search
        (
          keeps_rules,
          set_staging-Keeps out I quiet,
          remove_staging-Keeps out I quiet,
          remove_container-Keeps out I quiet,
          quiet.ticks,
          run_container-Keeps out I quiet,
          check_health-Keeps out I quiet.ticks,
        )
        depth 18

  remove_created-Keeps : (rcs : List Recreated) → Keeps I (remove_created out rcs)
  unfolding remove_created
  remove_created-Keeps [] = search keeps_rules
  remove_created-Keeps (rc ∷ rcs) =
      Keeps-bind I _ _ (search (keeps_rules, remove_container-Keeps out I quiet))
        λ _. remove_created-Keeps rcs

  pub clean_up-Keeps : (host : String) (rcs : List Recreated) → Keeps I (clean_up out host rcs)
  unfolding clean_up
  clean_up-Keeps host rcs =
      search (keeps_rules, remove_staging-Keeps out I quiet, remove_created-Keeps)

  pub or_clean-Keeps :
      {A : Type 0} (host : String) (rcs : List Recreated) (m : M A)
      → Keeps I m
      → Keeps I (or_clean out host rcs m)
  or_clean-Keeps host rcs m k =
      Keeps-or_undo I m (clean_up out host rcs) k (clean_up-Keeps host rcs)

  recreate-Keeps :
      (q : Rollout) (id : ℕ) (h : Healing) (i : ℕ) (old : Replica)
      → Keeps I (recreate out q id h i old)
  unfolding recreate
  recreate-Keeps q id h i old =
      search
        (
          or_clean-Keeps,
          keeps_rules,
          remove_container-Keeps out I quiet,
          quiet.ticks,
          run_container-Keeps out I quiet,
          prepare_node-Keeps,
        )
        depth 18

  recreate_at-Keeps :
      (q : Rollout) (cur : Deployment) (id : ℕ) (h : Healing) (i : ℕ) (old : Option Replica)
      → Keeps I (recreate_at out q cur id h i old)
  recreate_at-Keeps q cur id h i none = search (or_clean-Keeps, keeps_rules)
  recreate_at-Keeps q cur id h i (some old) = recreate-Keeps q id h i old

  recreate_all-Keeps :
      (q : Rollout) (cur : Deployment) (id : ℕ) (h : Healing) (is : List ℕ)
      → Keeps I (recreate_all out q cur id h is)
  unfolding recreate_all
  recreate_all-Keeps q cur id h [] = search keeps_rules
  recreate_all-Keeps q cur id h (i ∷ is) =
      Keeps-bind I _ _ (recreate_at-Keeps q cur id h i (get_elem? h.replicas i))
        λ next. recreate_all-Keeps q cur id next is

  check_created-Keeps :
      (q : Rollout) (id : ℕ) (created rcs : List Recreated)
      → Keeps I (check_created out q id created rcs)
  unfolding check_created
  check_created-Keeps q id created [] = search keeps_rules
  check_created-Keeps q id created (rc ∷ rcs) =
      Keeps-bind I _ _
        (or_clean-Keeps _ _ _
          (Keeps-wrapping I _ _ _ (check_health-Keeps out I quiet.ticks q.app rc.node _ rc.id)))
        λ _. check_created-Keeps q id created rcs

  pub stage_healing-Keeps :
      (q : Rollout) (cur : Deployment) (id : ℕ) (dead : List ℕ)
      → Keeps I (stage_healing out q cur id dead)
  unfolding stage_healing
  stage_healing-Keeps q cur id dead =
      search
        (
          recreate_all-Keeps,
          or_clean-Keeps,
          check_created-Keeps,
          keeps_rules,
          set_staging-Keeps out I quiet,
        )
        depth 14
