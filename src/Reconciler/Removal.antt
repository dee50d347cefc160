-- ===== src/Reconciler/Removal.antt =====
-- What a deploy that fails asks to be removed.
use lwd.Base.{Error, In, List, [], err, inl, inr, refl, subst, ℕ, ◌-◌, ◌∷◌, ◌≡◌, ◌⊎◌}
use lwd.Reconciler.World.{M, Outside, World, ran}
use lwd.Reconciler.Rules.{Runs, Runs-bind, Runs-weaken}
use lwd.Reconciler.Keeps.{Keeps, Keeps-query, Keeps-wrapping}
use lwd.Reconciler.Rollout.{Rollout, Target, anchor, count_of, staging_host}
use lwd.Reconciler.Deploy.{deploy_replica_set}
use lwd.Reconciler.Asked.{more_targets-Keeps}
use lwd.Reconciler.Cleanup.{IsCleaned, IsTracked}
use lwd.Reconciler.LogOnly.{call-Keeps}
use lwd.Reconciler.NoLeak.{Clean, IsTracked-log, guarded-Runs, stage_set-Runs}
use lwd.Reconciler.Isolation.{IsLate, failure_of, record_live-IsLate}
use lwd.Store.{next_deploy_id}

module _ (out : Outside) (w : World) (q : Rollout) where
  abbrev SameLog : World → Type 0
  SameLog v = v.log ≡ w.log

  log_ticks : (v : World) (t : ℕ) → SameLog v → SameLog (record v { tick = t })
  log_ticks v t h = h

  abbrev Failed : Error → World → Type 0
  Failed e u = IsCleaned w u ⊎ IsLate e

  same-IsCleaned : (u : World) → SameLog u → IsCleaned w u
  same-IsCleaned u h n id i = inl (subst (In (ran n id)) h i)

  same-IsTracked : (ts : List Target) (u : World) → SameLog u → IsTracked w ts [] u
  same-IsTracked ts u h n id i = inl (subst (In (ran n id)) h i)

  Asked-Runs :
      {A : Type 0} (m : M A) (v : World)
      → SameLog v
      → Keeps SameLog m
      → Runs (λ _ u. SameLog u) Failed m v
  Asked-Runs m v h k =
      Runs-weaken (λ _ u. SameLog u) (λ _ u. SameLog u) (λ _ u. SameLog u) Failed m v (k.from v h)
        (λ a u j. j) (λ e u j. inl (same-IsCleaned u j))

  cleaned-Runs :
      {A : Type 0} (P : A → World → Type 0) (m : M A) (v : World)
      → Runs P (Clean out w q) m v
      → Runs P Failed m v
  cleaned-Runs P m v h = Runs-weaken P P (Clean out w q) Failed m v h (λ a u j. j) (λ e u j. inl j)

  abbrev Anything : {A : Type 0} → A → World → Type 0
  Anything a u = Unit {0}

  deploy-Runs : Runs Anything Failed (deploy_replica_set out q) w
  unfolding deploy_replica_set
  deploy-Runs =
      Runs-bind (λ _ u. SameLog u) Failed Anything _ _ w
        (Asked-Runs _ w refl (
          Keeps-wrapping SameLog "next deploy id: %w" [] _
            (Keeps-query SameLog log_ticks out next_deploy_id)))
        λ id v h.
          Runs-bind (λ _ u. SameLog u) Failed Anything _ _ v
            (Asked-Runs _ v h (
              more_targets-Keeps out SameLog log_ticks q 1 (count_of q.app - 1) (q.app.node ∷ [])
                (anchor q ∷ [])))
            λ ts v₁ h₁.
              Runs-bind (λ s u. IsTracked w ts s.containers u) Failed Anything _ _ v₁
                (cleaned-Runs _ _ v₁ (stage_set-Runs out w q id ts v₁ (same-IsTracked ts v₁ h₁)))
                λ st v₂ h₂.
                  let I : World → Type 0 = IsTracked w ts st.containers in
                  Runs-bind (λ _ u. I u) Failed Anything _ _ v₂
                    (cleaned-Runs (λ _ u. I u) _ v₂
                      (guarded-Runs out w q (λ _ u. I u) "set route: %w" [] (staging_host id) ts
                        st.containers _ v₂
                        ((call-Keeps out I (IsTracked-log out w q ts st.containers) _).from v₂ h₂)))
                    λ _ v₃ _.
                      Runs-weaken Anything Anything (λ e _. IsLate e) Failed _ v₃
                        ((record_live-IsLate out w q id st).only v₃) (λ d u _. tt)
                        (λ e u late. inr late)

-- If a deploy fails, then its error is that of the last statement, the insertion of the new row, or
-- each container that was started on a node during the deploy was asked to be removed on that node.
pub deploy-IsCleaned :
    (out : Outside) (w : World) (q : Rollout) (e : Error) (u : World)
    → deploy_replica_set out q w ≡ (err e, u)
    → IsCleaned w u ⊎ IsLate e
deploy-IsCleaned out w q e u h =
    failure_of (λ d v. IsCleaned w v ⊎ IsLate d) (deploy_replica_set out q w) e u
      (deploy-Runs out w q).holds h
