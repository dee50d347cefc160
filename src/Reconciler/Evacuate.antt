-- ===== src/Reconciler/Evacuate.antt =====
-- internal/reconciler/evacuate.go: the surfaces and replicas of a node moved to others. An index of a
-- replica set is a natural number, so only its upper bound is tested.
use lwd.Spec.Validate.{is_nil}
use lwd.Base.{
  Bool, Error, List, Option, String, [], decimal, errorf, if◌then◌else◌, ltb, none, not, some, str,
  str_eq, suc, true, ℕ, ◌+++◌, ◌==◌, ◌∷◌,
}
use lwd.Reconciler.World.{M, Outside, pure, raise, wrapping, ◌>>=◌, ◌>>◌}
use lwd.Reconciler.Placement.{place_excluding}
use lwd.Reconciler.Backing.{render_backing_compose}
use lwd.Reconciler.Rollout.{container_name}
use lwd.Reconciler.Remove.{normalize_node}
use lwd.Reconciler.Apply.{check_valid, restored_app}
use lwd.Reconciler.Image.{apply_image_provenance}
use lwd.Reconciler.Source.{rollback_git_locked}
use lwd.Reconciler.Retire.{node_from_spec}
use lwd.Store.{Deployment, Replica}
use lwd.Spec.{App, Git}

pub record EvacFailure : Type 0 where
  pub app : String
  pub reason : Error

pub record EvacuateResult : Type 0 where
  pub moved : List String
  pub skipped : List String
  pub failed : List EvacFailure

-- The replicas of a set and the container of its row, as a mutable `cur`.
abbrev pub with_set : Deployment → List Replica → Deployment
with_set cur [] = record cur { replicas = [] }
with_set cur (r ∷ rs) = record cur { replicas = r ∷ rs; container_id = r.container_id }

abbrev pub first_container : List Replica → String
first_container [] = ""
first_container (r ∷ rs) = r.container_id

-- `for i, rep := range replicas { if rep is on the node { append(i) } }`
unfoldable pub indexes_on : String → ℕ → List Replica → List ℕ
indexes_on name i [] = []
indexes_on name i (r ∷ rs) =
    let rest = indexes_on name (suc i) rs in
    if str_eq (normalize_node r.node) name then i ∷ rest else rest

-- The nodes of the set's other replicas.
unfoldable pub other_nodes : ℕ → ℕ → List Replica → List String
other_nodes idx j [] = []
other_nodes idx j (r ∷ rs) =
    let rest = other_nodes idx (suc j) rs in if j == idx then rest else normalize_node r.node ∷ rest

-- `name` carries the index only in a set of several replicas.
abbrev pub move_name : ℕ → App → ℕ → ℕ → String
move_name count app id idx =
    if ltb 1 count then container_name app id +++ ("-" +++ decimal idx) else container_name app id

module _ (out : Outside) where
  -- Whether a deployment uses the node, and the indexes of its replicas there.
  abbrev pub affected_by_node : Deployment → String → Bool × List ℕ
  affected_by_node cur name = elim cur.replicas [
    | [] ↦ (str_eq (node_from_spec out cur.spec) name, [])
    | r ∷ rs ↦ (not (is_nil (indexes_on name 0 (r ∷ rs))), indexes_on name 0 (r ∷ rs))
  ]

  -- The redeploy on the chosen node. The error of an invalid snapshot is returned as it is.
  abbrev pub redeploy_on : Deployment → App → Option Git → M Deployment
  redeploy_on cur app (some git) =
      wrapping "redeploy %q on %q: %w" (str cur.app ∷ str app.node ∷ [])
        (rollback_git_locked out app true)
  redeploy_on cur app none = do
    check_valid out "invalid spec snapshot for %q: %w" (str cur.app ∷ []) app
    wrapping "redeploy %q on %q: %w" (str cur.app ∷ str app.node ∷ [])
        (apply_image_provenance out app (some true))

  -- A single surface, placed anew off a node; its provenance is the scheduler's.
  unfoldable pub reschedule_surface_locked : Deployment → String → M Deployment
  reschedule_surface_locked cur exclude = do
    app ←
        restored_app out "no spec snapshot to reschedule %q" "unmarshal spec snapshot for %q: %w"
          cur.app cur
    new_node ←
        wrapping "place %q off %q: %w" (str cur.app ∷ str exclude ∷ [])
          (place_excluding out app exclude)
    redeploy_on cur (record app { node = new_node }) app.git

  -- The snapshot of a set's row, its image's check, its environment and its backing network.
  abbrev pub check_restored : Deployment → App → Option Git → M (Unit {0})
  check_restored cur app (some git) =
      check_valid out "invalid spec snapshot for %q: %w" (str cur.app ∷ [])
        (record app { image = "" })
  check_restored cur app none =
      check_valid out "invalid spec snapshot for %q: %w" (str cur.app ∷ []) app

  abbrev pub check_image : String → Deployment → App → M (Unit {0})
  check_image missing cur app =
      if str_eq app.image "" then raise (errorf missing (str cur.app ∷ [])) else pure tt

  abbrev pub network_of : App → String
  network_of app = (render_backing_compose app.name app.services).1
