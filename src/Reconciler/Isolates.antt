-- ===== src/Reconciler/Isolates.antt =====
-- Isolation of the operations that deploy: Apply of an app that does not run on compose, and the
-- redeploy of a dead surface.
use lwd.Base.{
  Bool, Error, Option, ap, arith, err, false, if◌then◌else◌, inl, inr, none, not, refl, some,
  str_eq, true, ◌∙◌, ◌≡◌, ◌⊎◌,
}
use lwd.Reconciler.World.{M, Outside, World, ◌>>=◌}
use lwd.Reconciler.Rules.{Runs, Runs-bind, Runs-weaken}
use lwd.Reconciler.Keeps.{Keeps, Keeps-wrapping, keeps_rules}
use lwd.Reconciler.Isolation.{IsLate, Isolated, Isolated-IsQuiet, deploy-Runs, failure_of}
use lwd.Reconciler.Preparing.{
  build_image-Keeps, check_pinned-Keeps, check_valid-Keeps, fetch_image-Keeps, move_image-Keeps,
  open_node-Keeps, recording-Keeps, resolve_placement-Keeps, settle-Keeps,
}
use lwd.Reconciler.Deploy.{deploy_replica_set}
use lwd.Reconciler.Image.{apply_image, apply_image_provenance}
use lwd.Reconciler.Source.{apply_git, rollback_git_locked}
use lwd.Reconciler.Apply.{apply, apply_shape, heal_surface_locked, nudging, redeploy}
use lwd.Spec.{App, Git}
use lwd.Store.{Deployment}
use lwd.Reconciler.Untouched.{IsQuiet}
use lwd.Reconciler.Rollout.{Rollout}
use lwd.Reconciler.Compose.{apply_compose}

-- If `m` fails, then late, or with all as it was in `w`.
record Isolates (w : World) {A : Type 0} (m : M A) : Type 0 where
  runs : (v : World) → Isolated w v → Runs (λ a u. Unit {0}) (λ e u. Isolated w u ⊎ IsLate e) m v

Isolated-trans : (w v u : World) → Isolated w v → Isolated v u → Isolated w u
Isolated-trans w v u (r, h, n, s, c) (r₁, h₁, n₁, s₁, c₁) =
    (r₁ ∙ r, h₁ ∙ h, n₁ ∙ n, s₁ ∙ s, λ app. c₁ app ∙ c app)

module _ (out : Outside) (w : World) where
  quiet : IsQuiet (Isolated w)
  quiet = Isolated-IsQuiet w

  Isolates-Keeps : {A : Type 0} (m : M A) → Keeps (Isolated w) m → Isolates w m
  Isolates-Keeps m k = record {
    runs = λ v h.
        Runs-weaken (λ _ u. Isolated w u) (λ _ _. Unit) (λ _ u. Isolated w u)
          (λ e u. Isolated w u ⊎ IsLate e) m v (k.from v h) (λ a u j. tt) (λ e u j. inl j);
  }

  Isolates-bind :
      {A B : Type 0} (m : M A) (f : A → M B)
      → Keeps (Isolated w) m
      → ((a : A) → Isolates w (f a))
      → Isolates w (m >>= f)
  Isolates-bind m f k l = record {
    runs = λ v h.
        Runs-bind (λ _ u. Isolated w u) (λ e u. Isolated w u ⊎ IsLate e) (λ _ _. Unit) m f v
          (Runs-weaken (λ _ u. Isolated w u) (λ _ u. Isolated w u) (λ _ u. Isolated w u)
            (λ e u. Isolated w u ⊎ IsLate e) m v (k.from v h) (λ a u j. j) (λ e u j. inl j))
          (λ a u. (l a).runs u);
  }

  Isolates-else :
      {A : Type 0} (b : Bool) (m n : M A)
      → b ≡ false
      → Isolates w n
      → Isolates w (if b then m else n)
  Isolates-else true m n e k = absurd (ground (arith, e))
  Isolates-else false m n e k = k

  or_IsLate :
      (v : World) (e : Error) (u : World)
      → Isolated w v
      → Isolated v u ⊎ IsLate e
      → Isolated w u ⊎ IsLate e
  or_IsLate v e u h (inl i) = inl (Isolated-trans w v u h i)
  or_IsLate v e u h (inr l) = inr l

  Isolates-deploy : (q : Rollout) → Isolates w (deploy_replica_set out q)
  Isolates-deploy q = record {
    runs = λ v h.
        Runs-weaken (λ _ _. Unit) (λ _ _. Unit) (λ e u. Isolated v u ⊎ IsLate e)
          (λ e u. Isolated w u ⊎ IsLate e) (deploy_replica_set out q) v (deploy-Runs out v q)
          (λ a u j. tt) (λ e u. or_IsLate v e u h);
  }

  -- What follows a success cannot fail.
  Isolates-nudging : (m : M Deployment) → Isolates w m → Isolates w (nudging m)
  unfolding ◌>>=◌
  Isolates-nudging m k = record {
    runs = λ v h.
        Runs-bind (λ _ _. Unit) (λ e u. Isolated w u ⊎ IsLate e) (λ _ _. Unit) m _ v (k.runs v h)
          λ d u _. record { holds = tt };
  }

  Isolates-provenance :
      (app : App) (o : Option Bool) → Isolates w (apply_image_provenance out app o)
  unfolding apply_image_provenance
  Isolates-provenance app o =
      Isolates-bind _ _
        (recording-Keeps out (Isolated w) quiet _ _ _ _
          (resolve_placement-Keeps out (Isolated w) quiet app))
        λ placed. Isolates-bind _ _ (search keeps_rules) λ spec.
          Isolates-bind _ _ (open_node-Keeps out (Isolated w) quiet _ _) λ m.
            Isolates-bind _ _
              (Keeps-wrapping (Isolated w) _ _ _ (fetch_image-Keeps out (Isolated w) quiet _ _ _))
              λ _.
                Isolates-bind _ _ (settle-Keeps out (Isolated w) quiet _ _ _) λ g. Isolates-deploy _

  Isolates-git : (git : Git) (app : App) → Isolates w (apply_git out git app)
  unfolding apply_git
  Isolates-git git app =
      Isolates-bind _ _
        (recording-Keeps out (Isolated w) quiet _ _ _ _
          (resolve_placement-Keeps out (Isolated w) quiet app))
        λ placed. Isolates-bind _ _ (search keeps_rules) λ spec.
          Isolates-bind _ _ (open_node-Keeps out (Isolated w) quiet _ _) λ m.
            Isolates-bind _ _ (settle-Keeps out (Isolated w) quiet _ _ _) λ g.
              Isolates-bind _ _ (build_image-Keeps out (Isolated w) quiet _ _ _ _) λ tag.
                Isolates-bind _ _
                  (move_image-Keeps out (Isolated w) quiet _ _ (record app { node = placed.0 }) tag)
                  λ _. Isolates-deploy _

  Isolates-rollback_git : (app : App) (b : Bool) → Isolates w (rollback_git_locked out app b)
  unfolding rollback_git_locked
  Isolates-rollback_git app b =
      Isolates-bind _ _ (check_pinned-Keeps out (Isolated w) quiet app) λ _.
        Isolates-bind _ _ (search keeps_rules) λ spec.
          Isolates-bind _ _ (open_node-Keeps out (Isolated w) quiet _ _) λ m.
            Isolates-bind _ _ (settle-Keeps out (Isolated w) quiet _ _ _) λ g.
              Isolates-bind _ _ (move_image-Keeps out (Isolated w) quiet _ _ app app.image)
                λ _. Isolates-deploy _

  Isolates-shape :
      (app : App) (g : Option Git) → app.compose ≡ "" → Isolates w (apply_shape out app g)
  unfolding apply_image
  Isolates-shape app (some git) e = Isolates-git git app
  Isolates-shape app none e =
      Isolates-else (not (str_eq app.compose "")) (apply_compose out app) _
        (ap (λ s. not (str_eq s "")) e) (Isolates-provenance app none)

  Isolates-apply : (app : App) → app.compose ≡ "" → Isolates w (apply out app)
  unfolding apply
  Isolates-apply app e =
      Isolates-bind _ _ (check_valid-Keeps out (Isolated w) quiet _ _ app)
        λ _. Isolates-nudging _ (Isolates-shape app app.git e)

  Isolates-redeploy :
      (cur : Deployment) (app : App) (b : Bool) (g : Option Git)
      → Isolates w (redeploy out cur app b g)
  Isolates-redeploy cur app b (some git) = Isolates-rollback_git app b
  Isolates-redeploy cur app b none =
      Isolates-bind _ _ (check_valid-Keeps out (Isolated w) quiet _ _ app)
        λ _. Isolates-provenance app (some b)

  Isolates-heal_surface : (cur : Deployment) → Isolates w (heal_surface_locked out cur)
  unfolding heal_surface_locked
  Isolates-heal_surface cur =
      Isolates-bind _ _ (search keeps_rules) λ app. Isolates-redeploy cur app cur.scheduled app.git

  Isolated-failure :
      {A : Type 0} (m : M A) (e : Error) (u : World)
      → Isolates w m
      → m w ≡ (err e, u)
      → Isolated w u ⊎ IsLate e
  Isolated-failure m e u k h =
      failure_of (λ d v. Isolated w v ⊎ IsLate d) (m w) e u
        (k.runs w (refl, refl, refl, refl, λ app. refl)).holds h

  -- If the Apply of an app without a compose file fails, then its error is that of the last
  -- statement, the insertion of the new row, or the live routes, the heal state, the registered
  -- nodes, the secrets and the current deployment of every app are those from before.
  pub apply-isolates :
      (app : App) (e : Error) (u : World)
      → app.compose ≡ ""
      → apply out app w ≡ (err e, u)
      → Isolated w u ⊎ IsLate e
  apply-isolates app e u c h = Isolated-failure (apply out app) e u (Isolates-apply app c) h

  -- If the redeploy of a dead surface fails, then its error is that of the insertion of the new
  -- row, or the live routes, the heal state, the registered nodes, the secrets and the current
  -- deployment of every app are those from before.
  pub heal_surface-isolates :
      (cur : Deployment) (e : Error) (u : World)
      → heal_surface_locked out cur w ≡ (err e, u)
      → Isolated w u ⊎ IsLate e
  heal_surface-isolates cur e u h =
      Isolated-failure (heal_surface_locked out cur) e u (Isolates-heal_surface cur) h
