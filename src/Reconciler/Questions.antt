-- ===== src/Reconciler/Questions.antt =====
-- Placement, health checks and image transfers only ask: they keep each invariant that does not
-- read the tick.
use lwd.Base.{List, Result, String, [], err, not, ok, str_eq, suc, zero, ℕ, ◌||◌, ◌∷◌}
use lwd.Reconciler.World.{Meta, Outside, World, pure}
use lwd.Reconciler.Keeps.{Keeps, Keeps-if, Keeps-pure, keeps_rules}
use lwd.Reconciler.Placement.{
  excludes, local_candidates, local_of, measure, node_info, node_infos, place_excluding_set,
  resolved, schedulable_candidates, spread_or_stack,
}
use lwd.Spec.{App}
use lwd.Store.{NodeRow}
use lwd.Reconciler.Images.{ensure_image_on_node, pull_or_transfer}
use lwd.Reconciler.Probes.{
  check_docker_health, check_health, check_health_path, check_liveness, poll_liveness,
  wait_or_deadline,
}

module _ (out : Outside) (I : World → Type 0)
    (ticks : (v : World) (t : ℕ) → I v → I (record v { tick = t })) where
  local_of-Keeps : (r : Result Meta) → Keeps I (local_of out r)
  local_of-Keeps (ok m) = search keeps_rules
  local_of-Keeps (err e) = search keeps_rules

  pub local_candidates-Keeps :
      (pool : String) (ex : List String) → Keeps I (local_candidates out pool ex)
  unfolding local_candidates
  local_candidates-Keeps pool ex = search (keeps_rules, local_of-Keeps)

  resolved-Keeps : (n : NodeRow) (r : Result Meta) → Keeps I (resolved out n r)
  resolved-Keeps n (ok m) = search keeps_rules
  resolved-Keeps n (err e) = search keeps_rules

  measure-Keeps : (n : NodeRow) → Keeps I (measure out n)
  measure-Keeps n = search (keeps_rules, resolved-Keeps)

  node_info-Keeps : (n : NodeRow) → Keeps I (node_info out n)
  unfolding node_info
  node_info-Keeps n = search (keeps_rules, measure-Keeps)

  node_infos-Keeps :
      (pool : String) (ex : List String) (ns : List NodeRow) → Keeps I (node_infos out pool ex ns)
  unfolding node_infos
  node_infos-Keeps pool ex [] = search keeps_rules
  node_infos-Keeps pool ex (n ∷ ns) =
      let ih = node_infos-Keeps pool ex ns in
      Keeps-if I (not (str_eq n.pool pool) || excludes ex n.name) (node_infos out pool ex ns) _ ih
        (search (keeps_rules, node_info-Keeps))

  schedulable_candidates-Keeps :
      (app : App) (ex : List String) → Keeps I (schedulable_candidates out app ex)
  unfolding schedulable_candidates
  schedulable_candidates-Keeps app ex =
      search (keeps_rules, local_candidates-Keeps, node_infos-Keeps)

  pub place_excluding_set-Keeps :
      (app : App) (ex : List String) → Keeps I (place_excluding_set out app ex)
  unfolding place_excluding_set
  place_excluding_set-Keeps app ex = search (keeps_rules, schedulable_candidates-Keeps)

  or_stack-Keeps :
      (app : App) (r : Result String)
      → Keeps I (elim r [ ok n ↦ pure n | err e ↦ place_excluding_set out app [] ])
  or_stack-Keeps app (ok n) = Keeps-pure I n
  or_stack-Keeps app (err e) = place_excluding_set-Keeps app []

  pub spread_or_stack-Keeps : (app : App) (ex : List String) → Keeps I (spread_or_stack out app ex)
  unfolding spread_or_stack
  spread_or_stack-Keeps app ex = search (keeps_rules, place_excluding_set-Keeps, or_stack-Keeps)

  pub wait_or_deadline-Keeps : (d : ℕ) → Keeps I (wait_or_deadline out d)
  unfolding wait_or_deadline
  wait_or_deadline-Keeps d = search keeps_rules

  ruleset polls = (keeps_rules, wait_or_deadline-Keeps)

  pub check_health_path-Keeps :
      (k d : ℕ) (host path : String) → Keeps I (check_health_path out k d host path)
  unfolding check_health_path
  check_health_path-Keeps zero d host path = search keeps_rules
  check_health_path-Keeps (suc k) d host path = search (polls, check_health_path-Keeps k)

  check_docker_health-Keeps :
      (k d : ℕ) (node id : String) → Keeps I (check_docker_health out k d node id)
  unfolding check_docker_health
  check_docker_health-Keeps zero d node id = search keeps_rules
  check_docker_health-Keeps (suc k) d node id = search (polls, check_docker_health-Keeps k) depth 14

  poll_liveness-Keeps :
      (k d : ℕ) (node host id : String) → Keeps I (poll_liveness out k d node host id)
  unfolding poll_liveness
  poll_liveness-Keeps zero d node host id = search keeps_rules
  poll_liveness-Keeps (suc k) d node host id = search (polls, poll_liveness-Keeps k) depth 14

  check_liveness-Keeps :
      (d : ℕ) (node host id : String) → Keeps I (check_liveness out d node host id)
  unfolding check_liveness
  check_liveness-Keeps d node host id = search (keeps_rules, poll_liveness-Keeps)

  pub check_health-Keeps :
      (app : App) (node host id : String) → Keeps I (check_health out app node host id)
  unfolding check_health
  check_health-Keeps app node host id =
      search (keeps_rules, check_health_path-Keeps, check_docker_health-Keeps, check_liveness-Keeps)

  pull_or_transfer-Keeps : (node ref : String) → Keeps I (pull_or_transfer out node ref)
  pull_or_transfer-Keeps node ref = search keeps_rules depth 14

  pub ensure_image_on_node-Keeps : (node ref : String) → Keeps I (ensure_image_on_node out node ref)
  unfolding ensure_image_on_node
  ensure_image_on_node-Keeps node ref = search (keeps_rules, pull_or_transfer-Keeps)
