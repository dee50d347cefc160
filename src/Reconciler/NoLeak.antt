-- ===== src/Reconciler/NoLeak.antt =====
-- The containers of an attempt, from step to step.
use lwd.Base.{
  Arg, Error, In, List, Result, String, [], arith, err, here, inl, inr, length, length-append, ok,
  refl, suc, there, ℕ, ◌++◌, ◌∷◌, ◌≡◌, ◌⊎◌,
}
use lwd.Reconciler.World.{
  Container, Effect, M, Outside, RunSpec, World, after_failure, ask, or_undo, ran, ran_on, removed,
  run_container, wrapped, wrapping,
}
use lwd.Reconciler.Rules.{Outcome, Runs, Runs-bind}
use lwd.Reconciler.Keeps.{Keeps-ask, Keeps-bind, Keeps-ignore, world_after}
use lwd.Reconciler.Rollout.{Rollout, Started, Target, no_start, staging_host, with_replica}
use lwd.Reconciler.Deploy.{
  check_all, connect, guarded, image_for, record_failed_replica_set, stage_set, start_all,
  start_replica,
}
use lwd.Reconciler.Asked.{connect-Keeps, image_for-Keeps}
use lwd.Reconciler.LogOnly.{IsLogOnly, call-Keeps, ignored-Runs, insert-Keeps, ticks}
use lwd.Reconciler.Cleanup.{
  IsCleaned, IsPair, IsPair-append, IsPair-snoc, IsRest, IsRest-next, IsTracked, all_of,
  remove_all-Runs,
}
use lwd.Router.{remove_staging, set_staging}
use lwd.Reconciler.Questions.{check_health-Keeps}

module _ (out : Outside) (w : World) (q : Rollout) where
  abbrev pub Clean : Error → World → Type 0
  Clean e u = IsCleaned w u

  IsCleaned-log : IsLogOnly (IsCleaned w)
  IsCleaned-log v c s t h = h

  pub IsTracked-log : (ts : List Target) (cs : List Container) → IsLogOnly (IsTracked w ts cs)
  IsTracked-log ts cs v c s t h = h

  undone-Runs :
      (host : String) (ts : List Target) (cs : List Container) (v : World)
      → IsTracked w ts cs v
      → Runs
          (λ _ u. IsCleaned w u)
          (λ _ u. IsCleaned w u)
          (record_failed_replica_set out q host ts cs)
          v
  unfolding record_failed_replica_set
  undone-Runs host ts cs v h =
      Runs-bind (λ _ u. IsTracked w ts cs u) (λ _ u. IsCleaned w u) (λ _ u. IsCleaned w u) _ _ v
        (ignored-Runs (IsTracked w ts cs) Clean _ v h
          (call-Keeps out (IsTracked w ts cs) (IsTracked-log ts cs) (remove_staging host)))
        λ _ v₁ h₁.
          Runs-bind (λ _ u. IsCleaned w u) (λ _ u. IsCleaned w u) (λ _ u. IsCleaned w u) _ _ v₁
            (remove_all-Runs out w ts cs v₁ h₁)
            λ _ v₂ h₂.
              (Keeps-bind (IsCleaned w) (ask out.now) _
                  (Keeps-ask (IsCleaned w) (ticks out (IsCleaned w) IsCleaned-log) out.now)
                  λ now.
                    Keeps-ignore (IsCleaned w) _
                      (insert-Keeps out (IsCleaned w) IsCleaned-log _)).from
                v₂ h₂

  -- A guarded step: what it started is tracked if it returns, and is cleaned up if it fails.
  guarded_of :
      {A : Type 0} (P : A → World → Type 0) (f : String) (args : List Arg) (host : String)
      (ts : List Target) (cs : List Container) (x : Result A × World)
      → Outcome P (λ _ u. IsTracked w ts cs u) x
      → Outcome P Clean
          (after_failure (record_failed_replica_set out q host ts cs) (wrapped f args x))
  guarded_of P f args host ts cs (ok a, u) h = h
  guarded_of P f args host ts cs (err e, u) h =
      world_after (IsCleaned w) (record_failed_replica_set out q host ts cs u)
        (undone-Runs host ts cs u h).holds

  pub guarded-Runs :
      {A : Type 0} (P : A → World → Type 0) (f : String) (args : List Arg) (host : String)
      (ts : List Target) (cs : List Container) (m : M A) (v : World)
      → Runs P (λ _ u. IsTracked w ts cs u) m v
      → Runs P Clean (guarded out q host ts cs f args m) v
  unfolding or_undo wrapping
  guarded-Runs P f args host ts cs m v h = record {
    holds = guarded_of P f args host ts cs (m v) h.holds;
  }

  one_more :
      (t : Target) (rest : List Target) (i : ℕ) (ts : List Target) (cs : List Container)
      (c : Container) (n id : String) (l : List Effect)
      → IsRest (t ∷ rest) i ts
      → length cs ≡ i
      → ((n id : String)
          → In (ran n id) l
          → In (ran n id) w.log ⊎ (In (removed n id) l ⊎ IsPair n id ts cs))
      → In (ran n id) (ran t.name c.id ∷ l)
      → In (ran n id) w.log
        ⊎ (In (removed n id) (ran t.name c.id ∷ l) ⊎ IsPair n id ts (cs ++ c ∷ []))
  one_more t rest i ts cs c n id l r len h here = inr (inr (IsPair-snoc t rest cs c r len))
  one_more t rest i ts cs c n id l r len h (there j) = elim (h n id j) [
    | inl a ↦ inl a
    | inr (inl b) ↦ inr (inl (there b))
    | inr (inr p) ↦ inr (inr (IsPair-append n id (c ∷ []) p))
  ]

  ran_of :
      (t : Target) (rest : List Target) (i : ℕ) (ts : List Target) (cs : List Container) (v : World)
      (r : Result Container)
      → IsRest (t ∷ rest) i ts
      → length cs ≡ i
      → IsTracked w ts cs v
      → Outcome
          (λ c u. IsTracked w ts (cs ++ c ∷ []) u)
          (λ _ u. IsTracked w ts cs u)
          (ran_on out t.name v r)
  ran_of t rest i ts cs v (ok c) r len h = λ n id j. one_more t rest i ts cs c n id v.log r len h j
  ran_of t rest i ts cs v (err e) r len h = h

  run-Runs :
      (t : Target) (rest : List Target) (i : ℕ) (ts : List Target) (cs : List Container)
      (s : RunSpec) (v : World)
      → IsRest (t ∷ rest) i ts
      → length cs ≡ i
      → IsTracked w ts cs v
      → Runs
          (λ c u. IsTracked w ts (cs ++ c ∷ []) u)
          (λ _ u. IsTracked w ts cs u)
          (run_container out t.name s)
          v
  unfolding run_container
  run-Runs t rest i ts cs s v r len h = record {
    holds = ran_of t rest i ts cs v (out.run_container v.tick t.name s) r len h;
  }

  -- The containers so far, one for each of the first `i` targets.
  abbrev IsStarted : ℕ → List Target → Started → World → Type 0
  IsStarted i ts st u = IsTracked w ts st.containers u × (length st.containers ≡ i)

  image-Runs :
      (i : ℕ) (t : Target) (ts : List Target) (cs : List Container) (v : World)
      → IsTracked w ts cs v
      → Runs (λ _ u. IsTracked w ts cs u) (λ _ u. IsTracked w ts cs u) (image_for out q i t) v
  image-Runs i t ts cs v h =
      (image_for-Keeps out (IsTracked w ts cs) (ticks out (IsTracked w ts cs) (IsTracked-log ts cs))
          q i t).from
        v h

  connect-Runs :
      (t : Target) (c : Container) (ts : List Target) (cs : List Container) (v : World)
      → IsTracked w ts cs v
      → Runs (λ _ u. IsTracked w ts cs u) (λ _ u. IsTracked w ts cs u) (connect out q t c) v
  connect-Runs t c ts cs v h =
      (connect-Keeps out (IsTracked w ts cs) (ticks out (IsTracked w ts cs) (IsTracked-log ts cs)) q
          t c).from
        v h

  start_replica-Runs :
      (id : ℕ) (host : String) (ts : List Target) (i : ℕ) (t : Target) (rest : List Target)
      (st : Started) (v : World)
      → IsRest (t ∷ rest) i ts
      → IsStarted i ts st v
      → Runs (IsStarted (suc i) ts) Clean (start_replica out q id host ts i t st) v
  unfolding start_replica with_replica
  start_replica-Runs id host ts i t rest st v r (h, len) =
      let cs = st.containers in
      Runs-bind (λ _ u. IsTracked w ts cs u) Clean (IsStarted (suc i) ts) _ _ v
        (guarded-Runs _ _ _ host ts cs (image_for out q i t) v (image-Runs i t ts cs v h))
        λ _ v₁ h₁.
          Runs-bind (λ c u. IsTracked w ts (cs ++ c ∷ []) u) Clean (IsStarted (suc i) ts) _ _ v₁
            (guarded-Runs _ _ _ host ts cs _ v₁ (run-Runs t rest i ts cs _ v₁ r len h₁))
            λ c v₂ h₂.
              Runs-bind (λ _ u. IsTracked w ts (cs ++ c ∷ []) u) Clean (IsStarted (suc i) ts) _ _ v₂
                (guarded-Runs _ _ _ host ts (cs ++ c ∷ []) (connect out q t c) v₂
                  (connect-Runs t c ts (cs ++ c ∷ []) v₂ h₂))
                λ _ v₃ h₃. record { holds = (h₃, omega (arith, length-append cs (c ∷ []), len)) }

  start_all-Runs :
      (id : ℕ) (host : String) (ts : List Target) (i : ℕ) (rest : List Target) (st : Started)
      (v : World)
      → IsRest rest i ts
      → IsStarted i ts st v
      → Runs (λ s u. IsTracked w ts s.containers u) Clean (start_all out q id host ts i rest st) v
  unfolding start_all
  start_all-Runs id host ts i [] st v r (h, len) = record { holds = h }
  start_all-Runs id host ts i (t ∷ rest) st v r h =
      Runs-bind (IsStarted (suc i) ts) Clean (λ s u. IsTracked w ts s.containers u) _ _ v
        (start_replica-Runs id host ts i t rest st v r h)
        λ next u k. start_all-Runs id host ts (suc i) rest next u (IsRest-next r) k

  check_all-Runs :
      (host : String) (ts : List Target) (cs : List Container) (i : ℕ) (rest : List Target)
      (ds : List Container) (v : World)
      → IsTracked w ts cs v
      → Runs (λ _ u. IsTracked w ts cs u) Clean (check_all out q host ts cs i rest ds) v
  unfolding check_all
  check_all-Runs host ts cs i [] ds v h = record { holds = h }
  check_all-Runs host ts cs i (t ∷ rest) [] v h = record { holds = h }
  check_all-Runs host ts cs i (t ∷ rest) (d ∷ ds) v h =
      let I : World → Type 0 = IsTracked w ts cs in
      Runs-bind (λ _ u. I u) Clean (λ _ u. I u) _ _ v
        (guarded-Runs _ _ _ host ts cs _ v (
          (check_health-Keeps out I (ticks out I (IsTracked-log ts cs)) q.app t.name host d.id).from
            v h))
        λ _ u k. check_all-Runs host ts cs (suc i) rest ds u k

  pub stage_set-Runs :
      (id : ℕ) (ts : List Target) (v : World)
      → IsTracked w ts [] v
      → Runs (λ s u. IsTracked w ts s.containers u) Clean (stage_set out q id ts) v
  unfolding stage_set
  stage_set-Runs id ts v h =
      Runs-bind (λ s u. IsTracked w ts s.containers u) Clean (λ s u. IsTracked w ts s.containers u)
        _ _ v (start_all-Runs id (staging_host id) ts 0 ts no_start v all_of (h, refl))
        λ st v₁ h₁.
          let I : World → Type 0 = IsTracked w ts st.containers in
          Runs-bind (λ _ u. I u) Clean (λ s u. IsTracked w ts s.containers u) _ _ v₁
            (guarded-Runs _ _ _ (staging_host id) ts st.containers _ v₁ (
              (call-Keeps out I (IsTracked-log ts st.containers)
                  (set_staging (staging_host id) st.upstreams)).from
                v₁ h₁))
            λ _ v₂ h₂.
              Runs-bind (λ _ u. I u) Clean (λ s u. IsTracked w ts s.containers u) _ _ v₂
                (check_all-Runs (staging_host id) ts st.containers 0 ts st.containers v₂ h₂)
                λ _ v₃ h₃. record { holds = h₃ }
