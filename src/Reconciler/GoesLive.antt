-- ===== src/Reconciler/GoesLive.antt =====
-- A deploy that returns: from the next id to the recorded row.
use lwd.Base.{Error, List, Result, String, [], arith, length, ok, subst, ◌+◌, ◌-◌, ◌∷◌, ◌≡◌}
use lwd.Reconciler.World.{M, Outside, World, call_router, or_undo, wrapping}
use lwd.Reconciler.Rules.{Outcome, Runs, Runs-bind, Runs-both, Runs-weaken}
use lwd.Reconciler.Keeps.{Keeps, Keeps-query, Keeps-wrapping}
use lwd.Reconciler.Yields.{IsPaired, Yields, more_targets-Yields, stage_set-Yields}
use lwd.Reconciler.Asked.{more_targets-Keeps}
use lwd.Reconciler.Deploy.{deploy_replica_set, guarded, more_targets, record_failed_replica_set}
use lwd.Reconciler.Staging.{stage_set-Keeps}
use lwd.Reconciler.Success.{
  IsLive, Nothing, Ordered, Ordered-IsQuiet, Routed, flip_of, kept, live_route, passed,
  record_live-Runs,
}
use lwd.Spec.{App}
use lwd.Reconciler.Rollout.{Rollout, Started, Target, anchor, count_of, staging_host}
use lwd.Store.{Deployment, next_deploy_id}
use lwd.Router.{set_route}
use lwd.Store.History.{IsHistory}

one_of : (app : App) → 1 + (count_of app - 1) ≡ count_of app
one_of app = ground arith

module _ (out : Outside) (q : Rollout) where
  both :
      {A : Type 0} (P : A → Type 0) (m : M A) (v : World)
      → Ordered v
      → Keeps Ordered m
      → Yields P m
      → Runs (λ a u. Ordered u × P a) (Nothing out q) m v
  both P m v h k y =
      Runs-weaken (λ a u. Ordered u × P a) (λ a u. Ordered u × P a) (λ e u. Ordered u × Unit {0})
        (Nothing out q) m v
        (Runs-both (λ _ u. Ordered u) (λ a _. P a) (λ _ u. Ordered u) (λ _ _. Unit {0}) m v
          (k.from v h) (y.gives v))
        (λ a u j. j) (λ e u j. tt)

  flip-Runs :
      (st : Started) (host : String) (ts : List Target) (v : World)
      → Ordered v
      → Runs
          (λ _ u. Routed q.app.domain (live_route out q st) u)
          (Nothing out q)
          (guarded out q host ts st.containers "set route: %w" []
            (call_router out (set_route (live_route out q st))))
          v
  unfolding or_undo wrapping call_router
  flip-Runs st host ts v h = record {
    holds =
        passed out q (λ _ u. Routed q.app.domain (live_route out q st) u) "set route: %w"
          (record_failed_replica_set out q host ts st.containers) _
          (flip_of out q st v (out.caddy_error v.tick) h);
  }

  targets-Yields :
      Yields
        (λ us. length us ≡ count_of q.app)
        (more_targets out q 1 (count_of q.app - 1) (q.app.node ∷ []) (anchor q ∷ []))
  targets-Yields =
      subst
        (λ n.
          Yields (λ us. length us ≡ n)
            (more_targets out q 1 (count_of q.app - 1) (q.app.node ∷ []) (anchor q ∷ [])))
        (one_of q.app)
        (more_targets-Yields out q 1 (count_of q.app - 1) (q.app.node ∷ []) (anchor q ∷ []))

  deploy-Runs :
      (w : World) → Ordered w → Runs (IsLive out q) (Nothing out q) (deploy_replica_set out q) w
  unfolding deploy_replica_set
  deploy-Runs w h =
      Runs-bind (λ _ u. Ordered u) (Nothing out q) (IsLive out q) _ _ w
        (kept out q Ordered _ w h (
          Keeps-wrapping Ordered "next deploy id: %w" [] _
            (Keeps-query Ordered Ordered-IsQuiet.ticks out next_deploy_id)))
        λ id v₁ h₁.
          Runs-bind (λ ts u. Ordered u × (length ts ≡ count_of q.app)) (Nothing out q)
            (IsLive out q) _ _ v₁
            (both (λ ts. length ts ≡ count_of q.app) _ v₁ h₁
              (more_targets-Keeps out Ordered Ordered-IsQuiet.ticks q 1 (count_of q.app - 1)
                (q.app.node ∷ []) (anchor q ∷ []))
              targets-Yields)
            λ ts v₂ (h₂, len).
              Runs-bind (λ st u. Ordered u × IsPaired (length ts) st) (Nothing out q) (IsLive out q)
                _ _ v₂
                (both (IsPaired (length ts)) _ v₂ h₂
                  (stage_set-Keeps out Ordered Ordered-IsQuiet q id ts)
                  (stage_set-Yields out q id ts))
                λ st v₃ (h₃, pair).
                  Runs-bind (λ _ u. Routed q.app.domain (live_route out q st) u) (Nothing out q)
                    (IsLive out q) _ _ v₃ (flip-Runs st (staging_host id) ts v₃ h₃)
                    λ _ v₄ h₄.
                      record_live-Runs out q id st v₄ (subst (λ n. IsPaired n st) len pair) h₄

result_of :
    {A : Type 0} (P : A → World → Type 0) (E : Error → World → Type 0) (x : Result A × World)
    (a : A) (u : World)
    → Outcome P E x
    → x ≡ (ok a, u)
    → P a u
result_of P E x a u h k = subst (Outcome P E) k h

-- If the history is in order and a deploy returns a row, then that row is the app's current
-- deployment, it has as many replicas as the app asks for and at least one, the live route of the
-- app's domain is to exactly their upstreams, and the app has no heal state left.
pub deploy-IsLive :
    (out : Outside) (w : World) (q : Rollout) (d : Deployment) (u : World)
    → IsHistory w.store
    → deploy_replica_set out q w ≡ (ok d, u)
    → IsLive out q d u
deploy-IsLive out w q d u h e =
    result_of (IsLive out q) (Nothing out q) (deploy_replica_set out q w) d u
      (deploy-Runs out q w h).holds e
