-- ===== src/Reconciler/Drain.antt =====
-- internal/reconciler/evacuate.go: EvacuateNode, over all apps.
use lwd.Base.{
  Error, List, Option, Result, String, [], err, if◌then◌else◌, leb, length, none, not, num, ok,
  some, str_eq, wrapf, ℕ, ◌++◌, ◌==◌, ◌||◌, ◌∷◌,
}
use lwd.Reconciler.World.{M, Outside, attempt, pure, query, wrapping, ◌>>=◌}
use lwd.Reconciler.Evacuate.{
  EvacFailure, EvacuateResult, affected_by_node, reschedule_surface_locked,
}
use lwd.Reconciler.Moves.{Evacuated, evacuate_replicas_locked}
use lwd.Reconciler.Remove.{is_compose_app}
use lwd.Store.{Deployment, current_deployment, list_apps}
use lwd.Spec.Validate.{is_nil}

unfoldable pub error_at : ℕ → List (ℕ × Error) → Option Error
error_at idx [] = none
error_at idx ((i, e) ∷ rest) = let later = error_at idx rest in if i == idx then some e else later

-- One failure for each index with an error, in the order of the indexes.
unfoldable pub failures_of : String → List ℕ → List (ℕ × Error) → List EvacFailure
failures_of app [] errors = []
failures_of app (idx ∷ idxs) errors =
    let rest = failures_of app idxs errors in
    elim (error_at idx errors) [
      | none ↦ rest
      | some e ↦ record { app = app; reason = wrapf "replica %d: %v" (num idx ∷ []) e } ∷ rest
    ]

abbrev pub with_evacuated : EvacuateResult → String → List ℕ → Evacuated → EvacuateResult
with_evacuated res app idxs ev = record {
  moved = if is_nil ev.moved then res.moved else res.moved ++ app ∷ [];
  skipped = res.skipped;
  failed = res.failed ++ failures_of app idxs ev.failed;
}

abbrev pub with_rescheduled : EvacuateResult → String → Result Deployment → EvacuateResult
with_rescheduled res app (ok d) = record res { moved = res.moved ++ app ∷ [] }
with_rescheduled res app (err e) = record res {
  failed = res.failed ++ record { app = app; reason = e } ∷ [];
}

module _ (out : Outside) (name : String) where
  -- A surface that is on the node, unless its operator pinned it there.
  abbrev pub evacuate_affected : EvacuateResult → String → Deployment → List ℕ → M EvacuateResult
  evacuate_affected res app cur idxs =
      if not cur.scheduled
      then pure (record res { skipped = res.skipped ++ app ∷ [] })
      else if leb (length cur.replicas) 1
      then (do
        r ← attempt (reschedule_surface_locked out cur name)
        pure (with_rescheduled res app r))
      else (do
        ev ← evacuate_replicas_locked out cur name idxs
        pure (with_evacuated res app idxs ev))

  abbrev pub evacuate_current :
      EvacuateResult → String → Result (Option Deployment) → M EvacuateResult
  evacuate_current res app (err e) = pure res
  evacuate_current res app (ok none) = pure res
  evacuate_current res app (ok (some cur)) =
      if str_eq cur.container_id "" || is_compose_app out cur.spec
      then pure res
      else if not (affected_by_node out cur name).0
      then pure res
      else evacuate_affected res app cur (affected_by_node out cur name).1

  unfoldable pub evacuate_apps : List String → EvacuateResult → M EvacuateResult
  evacuate_apps [] res = pure res
  evacuate_apps (app ∷ apps) res = do
    cur ← attempt (query out (current_deployment app))
    next ← evacuate_current res app cur
    evacuate_apps apps next

  unfoldable pub evacuate_node : M EvacuateResult
  evacuate_node = do
    apps ← wrapping "list apps: %w" [] (query out list_apps)
    evacuate_apps apps (record { moved = []; skipped = []; failed = [] })
