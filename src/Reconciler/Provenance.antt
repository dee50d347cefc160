-- ===== src/Reconciler/Provenance.antt =====
-- What the deployment that an operation returns says: the image and the provenance of what it
-- restores.
use lwd.Base.{
  Arg, Bool, Error, List, Option, Result, String, [], arith, err, false, none, not, ok, refl, some,
  str, str_eq, subst, sym, ◌∙◌, ◌∷◌, ◌≡◌,
}
use lwd.Reconciler.World.{M, Outside, World, lift, query, read_of, wrapped, wrapping}
use lwd.Reconciler.Rules.{Outcome, Runs, Runs-bind}
use lwd.Reconciler.Yields.{Yields, Yields-bind, Yields-if, Yields-pure, Yields-then}
use lwd.Reconciler.Deploy.{deploy_replica_set, record_live}
use lwd.Reconciler.Image.{apply_image_provenance}
use lwd.Reconciler.Source.{rollback_git_locked}
use lwd.Reconciler.Apply.{
  heal_surface_locked, nudging, redeploy, restored_app, rollback, rollback_image, rollback_shape,
  rollback_to,
}
use lwd.Spec.{App, Git}
use lwd.Store.{Deployment, previous_deployment, running}
use lwd.Reconciler.Rollout.{Rollout}
use lwd.Reconciler.Remove.{is_compose_app}

-- A running deployment of this image, with this provenance.
abbrev pub IsOf : String → Bool → Deployment → Type 0
IsOf image scheduled d = (d.status ≡ running) × (d.image ≡ image) × (d.scheduled ≡ scheduled)

module _ (P : Deployment → Type 0) where
  Yields-nudging : (m : M Deployment) → Yields P m → Yields P (nudging m)
  Yields-nudging m k = Yields-bind P P m _ k λ d p. Yields-then P _ _ λ _. Yields-pure P d p

module _ (out : Outside) where
  deploy-Yields : (q : Rollout) → Yields (IsOf q.image q.scheduled) (deploy_replica_set out q)
  unfolding deploy_replica_set record_live
  deploy-Yields q =
      let P = IsOf q.image q.scheduled in
      Yields-then P _ _ λ id. Yields-then P _ _ λ ts. Yields-then P _ _ λ st. Yields-then P _ _ λ _.
        Yields-then P _ _ λ _. Yields-then P _ _ λ _. Yields-then P _ _ λ now.
          Yields-then P _ _ λ new_id. Yields-then P _ _ λ _. Yields-pure P _ (refl, refl, refl)

  provenance-Yields :
      (app : App) (b : Bool) → Yields (IsOf app.image b) (apply_image_provenance out app (some b))
  unfolding apply_image_provenance
  provenance-Yields app b =
      let P = IsOf app.image b in
      Yields-then P _ _ λ placed.
        Yields-then P _ _ λ spec.
          Yields-then P _ _ λ m. Yields-then P _ _ λ _. Yields-then P _ _ λ g. deploy-Yields _

  rollback_git-Yields :
      (app : App) (b : Bool) → Yields (IsOf app.image b) (rollback_git_locked out app b)
  unfolding rollback_git_locked
  rollback_git-Yields app b =
      let P = IsOf app.image b in
      Yields-then P _ _ λ _.
        Yields-then P _ _ λ spec.
          Yields-then P _ _ λ m. Yields-then P _ _ λ g. Yields-then P _ _ λ _. deploy-Yields _

  redeploy-Yields :
      (cur : Deployment) (app : App) (b : Bool) (g : Option Git)
      → Yields (IsOf app.image b) (redeploy out cur app b g)
  redeploy-Yields cur app b (some git) = rollback_git-Yields app b
  redeploy-Yields cur app b none = Yields-then (IsOf app.image b) _ _ λ _. provenance-Yields app b

  -- The restored app has the row's image.
  restored_app-Yields :
      (missing broken name : String) (d : Deployment)
      → Yields (λ app. app.image ≡ d.image) (restored_app out missing broken name d)
  restored_app-Yields missing broken name d =
      Yields-if (λ app. app.image ≡ d.image) (str_eq d.spec "") _ _
        (λ _. record { gives = λ v. record { holds = tt } })
        (λ _. Yields-then (λ app. app.image ≡ d.image) _ _ λ app. Yields-pure _ _ refl)

  heal_surface-Yields :
      (cur : Deployment) → Yields (IsOf cur.image cur.scheduled) (heal_surface_locked out cur)
  unfolding heal_surface_locked
  heal_surface-Yields cur =
      Yields-bind (λ app. app.image ≡ cur.image) (IsOf cur.image cur.scheduled) _ _
        (restored_app-Yields _ _ cur.app cur)
        λ app same.
          subst (λ i. Yields (IsOf i cur.scheduled) (redeploy out cur app cur.scheduled app.git))
            same (redeploy-Yields cur app cur.scheduled app.git)

pub success_of :
    {A : Type 0} (P : A → Type 0) (x : Result A × World) (a : A) (u : World)
    → Outcome (λ b _. P b) (λ _ _. Unit {0}) x
    → x ≡ (ok a, u)
    → P a
success_of P x a u h k = subst (Outcome (λ b _. P b) (λ _ _. Unit {0})) k h

-- If the redeploy of a dead surface returns, then the new deployment runs, and has the image and the
-- provenance of the row that it replaces.
pub heal_surface-restores :
    (out : Outside) (cur d : Deployment) (w u : World)
    → heal_surface_locked out cur w ≡ (ok d, u)
    → (d.status ≡ running) × (d.image ≡ cur.image) × (d.scheduled ≡ cur.scheduled)
heal_surface-restores out cur d w u h =
    success_of (IsOf cur.image cur.scheduled) (heal_surface_locked out cur w) d u
      ((heal_surface-Yields out cur).gives w).holds h

module _ (out : Outside) where
  decoded_of :
      {A : Type 0} (f : String) (args : List Arg) (r : Result A) (v : World)
      → Outcome (λ a _. r ≡ ok a) (λ _ _. Unit {0}) (wrapped f args (r, v))
  decoded_of f args (ok a) v = refl
  decoded_of f args (err e) v = tt

  decoded-Yields :
      {A : Type 0} (f : String) (args : List Arg) (r : Result A)
      → Yields (λ a. r ≡ ok a) (wrapping f args (lift r))
  unfolding wrapping
  decoded-Yields f args r = record { gives = λ v. record { holds = decoded_of f args r v } }

  -- The app has the row's image, and it is a compose app if the row's snapshot says so.
  abbrev IsFrom : Deployment → App → Type 0
  IsFrom d app = (app.image ≡ d.image) × (is_compose_app out d.spec ≡ not (str_eq app.compose ""))

  restored_snapshot-Yields :
      (missing broken name : String) (d : Deployment)
      → Yields (IsFrom d) (restored_app out missing broken name d)
  unfolding is_compose_app
  restored_snapshot-Yields missing broken name d =
      Yields-if (IsFrom d) (str_eq d.spec "") _ _
        (λ _. record { gives = λ v. record { holds = tt } })
        (λ e.
          Yields-bind (λ a. out.unmarshal d.spec ≡ ok a) (IsFrom d) _ _
            (decoded-Yields broken (str name ∷ []) (out.unmarshal d.spec))
            λ a k. Yields-pure (IsFrom d) _ (refl, rw (e, k) refl))

  shape-Yields :
      (prev : Deployment) (app : App) (g : Option Git)
      → is_compose_app out prev.spec ≡ false
      → IsFrom prev app
      → Yields (IsOf prev.image prev.scheduled) (rollback_shape out prev app g)
  unfolding rollback_image
  shape-Yields prev app (some git) plain (same, c) =
      subst (λ i. Yields (IsOf i prev.scheduled) (rollback_shape out prev app (some git))) same
        (Yields-nudging _ _ (rollback_git-Yields out app prev.scheduled))
  shape-Yields prev app none plain (same, c) =
      subst (λ i. Yields (IsOf i prev.scheduled) (rollback_shape out prev app none)) same
        (Yields-if (IsOf app.image prev.scheduled) (not (str_eq app.compose "")) _ _
          (λ b. absurd (ground (arith, b, c, plain)))
          (λ _. Yields-nudging _ _ (
            Yields-then (IsOf app.image prev.scheduled) _ _
              λ _. provenance-Yields out app prev.scheduled)))

  found_of :
      (name : String) (w : World) (e : Option Error)
      → Outcome
          (λ r _. r ≡ previous_deployment name w.store)
          (λ _ _. Unit {0})
          (wrapped "load previous deployment: %w" [] (read_of out (previous_deployment name) w e))
  found_of name w none = refl
  found_of name w (some e) = tt

  rollback-Runs :
      (name : String) (prev : Deployment) (w : World)
      → previous_deployment name w.store ≡ some prev
      → is_compose_app out prev.spec ≡ false
      → Runs (λ d _. IsOf prev.image prev.scheduled d) (λ _ _. Unit {0}) (rollback out name) w
  unfolding rollback query wrapping
  rollback-Runs name prev w found plain =
      Runs-bind (λ r _. r ≡ previous_deployment name w.store) (λ _ _. Unit) _ _ _ w
        (record { holds = found_of name w (out.db_error w.tick) })
        λ r u same.
          subst
            (λ o.
              Runs (λ d _. IsOf prev.image prev.scheduled d) (λ _ _. Unit) (rollback_to out name o)
                u)
            (sym found ∙ sym same)
            ((Yields-bind (IsFrom prev) (IsOf prev.image prev.scheduled) _ _
                (restored_snapshot-Yields _ _ name prev)
                λ app from. shape-Yields prev app app.git plain from).gives
              u)

-- If a rollback returns, and the newest retired deployment of the app is not one of a compose app,
-- then the new deployment runs, and has the image and the provenance of that retired one.
pub rollback-restores :
    (out : Outside) (name : String) (prev d : Deployment) (w u : World)
    → previous_deployment name w.store ≡ some prev
    → is_compose_app out prev.spec ≡ false
    → rollback out name w ≡ (ok d, u)
    → (d.status ≡ running) × (d.image ≡ prev.image) × (d.scheduled ≡ prev.scheduled)
rollback-restores out name prev d w u found plain h =
    success_of (IsOf prev.image prev.scheduled) (rollback out name w) d u
      (rollback-Runs out name prev w found plain).holds h
