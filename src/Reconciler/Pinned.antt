-- ===== src/Reconciler/Pinned.antt =====
-- Surfaces that their operators pinned to a node stay when the node is evacuated.
use lwd.Base.{
  Bool, Error, List, Option, Result, String, [], ap, arith, err, false, if◌then◌else◌, none, not,
  ok, refl, some, str_eq, sym, true, ℕ, ◌||◌, ◌∙◌, ◌∷◌, ◌≡◌,
}
use lwd.Reconciler.World.{M, Outside, World, answered, attempt, pure, query, read_of}
use lwd.Reconciler.Rules.{Outcome, Runs, Runs-bind}
use lwd.Reconciler.Keeps.{Keeps-query, Keeps-wrapping}
use lwd.Reconciler.Evacuate.{EvacuateResult, affected_by_node}
use lwd.Reconciler.Drain.{evacuate_affected, evacuate_apps, evacuate_current, evacuate_node}
use lwd.Reconciler.Patience.{IsStill}
use lwd.Store.{Deployment, current_deployment, list_apps}
use lwd.Reconciler.Remove.{is_compose_app}

-- Nothing moved, and no move failed.
abbrev pub IsIdle : EvacuateResult → Type 0
IsIdle res = (res.moved ≡ []) × (res.failed ≡ [])

module _ (out : Outside) (name : String) (w : World)
    (pinned : (app : String) (d : Deployment)
      → current_deployment app w.store ≡ some d
      → d.scheduled ≡ false) where
  abbrev Idle : EvacuateResult → World → Type 0
  Idle res u = IsStill w u × IsIdle res

  abbrev Still : Error → World → Type 0
  Still e u = IsStill w u

  either-Runs :
      (b : Bool) (m n : M EvacuateResult) (v : World)
      → Runs Idle Still m v
      → Runs Idle Still n v
      → Runs Idle Still (if b then m else n) v
  either-Runs true m n v h k = h
  either-Runs false m n v h k = k

  affected-Runs :
      (res : EvacuateResult) (app : String) (cur : Deployment) (idxs : List ℕ) (v : World)
      → cur.scheduled ≡ false
      → IsIdle res
      → IsStill w v
      → Runs Idle Still (evacuate_affected out name res app cur idxs) v
  affected-Runs res app cur idxs v off idle h = rw off (record { holds = (h, idle) })

  current-Runs :
      (res : EvacuateResult) (app : String) (r : Result (Option Deployment)) (v : World)
      → ((d : Deployment) → r ≡ ok (some d) → d.scheduled ≡ false)
      → IsIdle res
      → IsStill w v
      → Runs Idle Still (evacuate_current out name res app r) v
  current-Runs res app (err e) v off idle h = record { holds = (h, idle) }
  current-Runs res app (ok none) v off idle h = record { holds = (h, idle) }
  current-Runs res app (ok (some cur)) v off idle h =
      either-Runs (str_eq cur.container_id "" || is_compose_app out cur.spec) (pure res) _ v
        (record { holds = (h, idle) })
        (either-Runs (not (affected_by_node out cur name).0) (pure res) _ v
          (record { holds = (h, idle) })
          (affected-Runs res app cur (affected_by_node out cur name).1 v (off cur refl) idle h))

  -- What the question for the current deployment of an app is answered with.
  abbrev Asked : String → Result (Option Deployment) → World → Type 0
  Asked app r u = IsStill w u × ((d : Deployment) → r ≡ ok (some d) → d.scheduled ≡ false)

  Asked-of :
      (app : String) (v : World) (e : Option Error)
      → IsStill w v
      → Outcome (Asked app) Still (answered (read_of out (current_deployment app) v e))
  Asked-of app v none (s, r, l) =
      ((s, r, l), λ d k. pinned app d (ap (current_deployment app) (sym s) ∙ ground (arith, k)))
  Asked-of app v (some e) h = (h, λ d k. absurd (ground (arith, k)))

  Asked-Runs :
      (app : String) (v : World)
      → IsStill w v
      → Runs (Asked app) Still (attempt (query out (current_deployment app))) v
  unfolding attempt query
  Asked-Runs app v h = record { holds = Asked-of app v (out.db_error v.tick) h }

  apps-Runs :
      (apps : List String) (res : EvacuateResult) (v : World)
      → IsIdle res
      → IsStill w v
      → Runs Idle Still (evacuate_apps out name apps res) v
  unfolding evacuate_apps
  apps-Runs [] res v idle h = record { holds = (h, idle) }
  apps-Runs (app ∷ apps) res v idle h =
      Runs-bind (Asked app) Still Idle _ _ v (Asked-Runs app v h) λ r v₁ (h₁, off).
        Runs-bind Idle Still Idle _ _ v₁ (current-Runs res app r v₁ off idle h₁)
          λ next v₂ (h₂, idle₂). apps-Runs apps next v₂ idle₂ h₂

  evacuate-Runs : Runs Idle Still (evacuate_node out name) w
  unfolding evacuate_node
  evacuate-Runs =
      Runs-bind (λ _ u. IsStill w u) Still Idle _ _ w
        ((Keeps-wrapping (IsStill w) _ _ _
            (Keeps-query (IsStill w) (λ v t h. h) out list_apps)).from
          w (refl, refl, refl))
        λ apps v h. apps-Runs apps _ v (refl, refl) h

  -- If no current deployment's node was chosen by the scheduler, then the evacuation of a node
  -- leaves the store, the routes and the containers as they are, and if it returns, then it reports
  -- that no app moved and that none failed to.
  pub evacuate_node-pinned :
      Outcome
        (λ res u. IsStill w u × ((res.moved ≡ []) × (res.failed ≡ [])))
        (λ e u. IsStill w u)
        (evacuate_node out name w)
  evacuate_node-pinned = evacuate-Runs.holds
