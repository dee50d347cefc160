-- ===== src/Reconciler/Isolation.antt =====
-- Blue-green isolation: what a deploy that fails leaves untouched.
use lwd.Base.{
  Error, List, Option, Result, String, [], err, inl, inr, none, ok, refl, some, subst, wrapf, ℕ,
  ◌-◌, ◌∙◌, ◌∷◌, ◌≡◌, ◌⊎◌,
}
use lwd.Reconciler.World.{
  Container, M, Outside, World, after_failure, call_router, or_undo, routed, wrapped, wrapping,
}
use lwd.Reconciler.Staging.{stage_set-Keeps, undone-Keeps}
use lwd.Reconciler.Rules.{Outcome, Runs, Runs-bind, Runs-weaken}
use lwd.Store.{current_deployment, next_deploy_id, record_deployment}
use lwd.Reconciler.Rollout.{Rollout, Started, Target, anchor, count_of, reset_heal, staging_host}
use lwd.Reconciler.Asked.{more_targets-Keeps}
use lwd.Reconciler.Deploy.{
  deploy_replica_set, guarded, insert_row, record_failed_replica_set, record_live,
}
use lwd.Reconciler.Keeps.{Keeps, Keeps-query, Keeps-wrapping, world_after}
use lwd.Router.{Route, Router, commit, remove_staging, set_route}
use lwd.Reconciler.Untouched.{IsQuiet}
use lwd.Reconciler.Fails.{
  Fails, Fails-ask, Fails-bind, Fails-ignore, Fails-modify, Fails-pure, Fails-wrapping,
  retire_old_set-never,
}
use lwd.Store.Generations.{current-record_failed}

-- The live routes, each app's current deployment, the heal state and the registry are those of `w`.
abbrev pub Isolated : World → World → Type 0
Isolated w v =
    (v.router.routes ≡ w.router.routes)
    × (v.heal ≡ w.heal)
    × (v.store.nodes ≡ w.store.nodes)
    × (v.store.secrets ≡ w.store.secrets)
    × ((app : String) → current_deployment app v.store ≡ current_deployment app w.store)

-- The error of a deploy whose new row the database refused, after the route's flip.
abbrev pub IsLate : Error → Type 0
IsLate e = (d : Error) × (e ≡ wrapf "record deployment: %w" [] d)

pub Isolated-IsQuiet : (w : World) → IsQuiet (Isolated w)
unfolding record_deployment
Isolated-IsQuiet w = record {
  ticks = λ v t h. h;
  logs = λ v l h. h;
  staging = λ v c k (routes, heal, nodes, secrets, cur). (k ∙ routes, heal, nodes, secrets, cur);
  failed_row = λ d v f (routes, heal, nodes, secrets, cur).
      (routes, heal, nodes, secrets, λ app. current-record_failed app d v.store f ∙ cur app);
}

module _ (out : Outside) (w : World) (q : Rollout) where
  abbrev I : World → Type 0
  I v = Isolated w v

  -- After the flip, only the last statement can fail.
  pub record_live-IsLate : (id : ℕ) (st : Started) → Fails IsLate (record_live out q id st)
  unfolding record_live
  record_live-IsLate id st =
      Fails-bind IsLate _ _
        (Fails-ignore IsLate (call_router out (remove_staging (staging_host id))))
        λ _. Fails-bind IsLate _ _ (retire_old_set-never IsLate out q.app.name) λ _.
          Fails-bind IsLate _ _ (Fails-ask IsLate out.now) λ now.
            Fails-bind IsLate _ _
              (Fails-wrapping IsLate "record deployment: %w" [] (insert_row out _) (λ e. (e, refl)))
              λ n.
                Fails-bind IsLate _ _ (Fails-modify IsLate (reset_heal q.app.name))
                  λ _. Fails-pure IsLate _

  abbrev Failed : Error → World → Type 0
  Failed e u = Isolated w u ⊎ IsLate e

  abbrev Anything : {A : Type 0} → A → World → Type 0
  Anything a u = Unit {0}

  from_Keeps :
      {A : Type 0} (m : M A) (v : World)
      → Isolated w v
      → Keeps I m
      → Runs (λ _ u. Isolated w u) Failed m v
  from_Keeps m v h k =
      Runs-weaken (λ _ u. I u) (λ _ u. I u) (λ _ u. I u) Failed m v (k.from v h) (λ a u j. j)
        (λ e u j. inl j)

  flip_of :
      (e : Option Error) (next : Router) (v : World)
      → Isolated w v
      → Outcome Anything (λ _ u. Isolated w u) (routed v (commit e next v.router))
  flip_of none next v h = tt
  flip_of (some x) next v h = h

  -- If the flip is committed anything may follow; if it fails, all is as before.
  flip-Runs :
      (r : Route) (v : World)
      → Isolated w v
      → Runs Anything (λ _ u. Isolated w u) (call_router out (set_route r)) v
  unfolding call_router set_route
  flip-Runs r v h = record { holds = flip_of (out.caddy_error v.tick) _ v h }

  undone_of :
      {A : Type 0} (f : String) (undo : M (Unit {0}))
      → Keeps I undo
      → (x : Result A × World) → Outcome Anything (λ _ u. I u) x
      → Outcome Anything Failed (after_failure undo (wrapped f [] x))
  undone_of f undo k (ok a, u) h = tt
  undone_of f undo k (err e, u) h = inl (world_after I (undo u) (k.from u h).holds)

  guarded_flip-Runs :
      (r : Route) (host f : String) (ts : List Target) (cs : List Container) (v : World)
      → Isolated w v
      → Runs Anything Failed (guarded out q host ts cs f [] (call_router out (set_route r))) v
  unfolding or_undo wrapping
  guarded_flip-Runs r host f ts cs v h = record {
    holds =
        undone_of f (record_failed_replica_set out q host ts cs)
          (undone-Keeps out I (Isolated-IsQuiet w) q host ts cs) (call_router out (set_route r) v)
          (flip-Runs r v h).holds;
  }

  pub deploy-Runs : Runs Anything Failed (deploy_replica_set out q) w
  unfolding deploy_replica_set
  deploy-Runs =
      Runs-bind (λ _ u. I u) Failed Anything _ _ w
        (from_Keeps _ w (refl, refl, refl, refl, λ app. refl)
          (Keeps-wrapping I "next deploy id: %w" [] _
            (Keeps-query I (λ v t h. h) out next_deploy_id)))
        λ id v h.
          Runs-bind (λ _ u. I u) Failed Anything _ _ v
            (from_Keeps _ v h (
              more_targets-Keeps out I (Isolated-IsQuiet w).ticks q 1 (count_of q.app - 1)
                (q.app.node ∷ []) (anchor q ∷ [])))
            λ ts v₁ h₁.
              Runs-bind (λ _ u. I u) Failed Anything _ _ v₁
                (from_Keeps _ v₁ h₁ (stage_set-Keeps out I (Isolated-IsQuiet w) q id ts))
                λ st v₂ h₂.
                  Runs-bind Anything Failed Anything _ _ v₂
                    (guarded_flip-Runs _ (staging_host id) "set route: %w" ts st.containers v₂ h₂)
                    λ _ v₃ _.
                      Runs-weaken Anything Anything (λ e _. IsLate e) Failed _ v₃
                        ((record_live-IsLate id st).only v₃) (λ d u _. tt) (λ e u late. inr late)

pub failure_of :
    (P : Error → World → Type 0) {A : Type 0} (x : Result A × World) (e : Error) (u : World)
    → Outcome (λ _ _. Unit {0}) P x
    → x ≡ (err e, u)
    → P e u
failure_of P x e u h k = subst (Outcome (λ _ _. Unit {0}) P) k h

-- If a deploy fails, then its error is that of the last statement, the insertion of the new row, or
-- the live routes, the heal state, the registered nodes, the secrets and the current deployment of
-- every app are those from before the deploy.
pub deploy-isolates :
    (out : Outside) (w : World) (q : Rollout) (e : Error) (u : World)
    → deploy_replica_set out q w ≡ (err e, u)
    → Isolated w u ⊎ IsLate e
deploy-isolates out w q e u h =
    failure_of (λ d v. Isolated w v ⊎ IsLate d) (deploy_replica_set out q w) e u
      (deploy-Runs out w q).holds h
