-- ===== src/Reconciler/MovedAlone.antt =====
-- Isolation of the replacement of single replicas: the healing of dead ones, and the move of one off
-- a node.
use lwd.Base.{
  Arg, Bool, Error, List, Option, Result, String, [], err, false, get_elem?, if◌then◌else◌, inl,
  inr, none, not, num, ok, refl, some, str_eq, true, wrapf, ℕ, ◌∷◌, ◌≡◌, ◌⊎◌,
}
use lwd.Reconciler.World.{
  Container, M, Meta, Outside, World, after_failure, call_router, or_undo, remove_container, routed,
  wrapped, wrapping, ◌>>=◌,
}
use lwd.Reconciler.Rules.{Outcome, Runs, Runs-bind, Runs-weaken}
use lwd.Reconciler.Keeps.{Keeps, Keeps-ignore, Keeps-query, Keeps-wrapping, world_after}
use lwd.Reconciler.Isolation.{Isolated, Isolated-IsQuiet, failure_of}
use lwd.Reconciler.Fails.{
  Fails, Fails-attempt, Fails-bind, Fails-if, Fails-ignore, Fails-is_reachable, Fails-pure,
  Fails-wrapping,
}
use lwd.Reconciler.Moving.{
  clean_up-Keeps, prepare_node-Keeps, restored_set-Keeps, stage_healing-Keeps, stage_move-Keeps,
}
use lwd.Reconciler.ReplicaHeal.{heal_dead_replicas_locked, heal_restored, persist_healed}
use lwd.Router.{Route, Router, commit, set_route}
use lwd.Store.{Deployment, Replica, next_deploy_id}
use lwd.Reconciler.Rollout.{Rollout, Target}
use lwd.Spec.Validate.{is_nil}
use lwd.Reconciler.Retire.{remove_resolved}
use lwd.Reconciler.Moves.{flip_move, move_at, move_replica, remove_old}
use lwd.Reconciler.Remove.{normalize_node}
use lwd.Reconciler.Untouched.{remove_container-Keeps}
use lwd.Reconciler.Questions.{place_excluding_set-Keeps}

module _ (out : Outside) (w : World) (L : Error → Type 0) where
  abbrev Anything : {A : Type 0} → A → World → Type 0
  Anything a u = Unit {0}

  abbrev Failed : Error → World → Type 0
  Failed e u = Isolated w u ⊎ L e

  flip_of :
      (e : Option Error) (next : Router) (v : World)
      → Isolated w v
      → Outcome Anything (λ _ u. Isolated w u) (routed v (commit e next v.router))
  flip_of none next v h = tt
  flip_of (some x) next v h = h

  undone_of :
      {A : Type 0} (f : String) (args : List Arg) (undo : M (Unit {0}))
      → Keeps (Isolated w) undo
      → (x : Result A × World) → Outcome Anything (λ _ u. Isolated w u) x
      → Outcome Anything Failed (after_failure undo (wrapped f args x))
  undone_of f args undo k (ok a, u) h = tt
  undone_of f args undo k (err e, u) h = inl (world_after (Isolated w) (undo u) (k.from u h).holds)

  -- A flip that Caddy refuses is undone.
  flip-Runs :
      (f : String) (args : List Arg) (r : Route) (undo : M (Unit {0})) (v : World)
      → Keeps (Isolated w) undo
      → Isolated w v
      → Runs Anything Failed (or_undo (wrapping f args (call_router out (set_route r))) undo) v
  unfolding or_undo wrapping call_router set_route
  flip-Runs f args r undo v k h = record {
    holds = undone_of f args undo k _ (flip_of (out.caddy_error v.tick) _ v h);
  }

  before-Runs :
      {A B : Type 0} (m : M A) (f : A → M B) (v : World)
      → Keeps (Isolated w) m
      → Isolated w v
      → ((a : A) (u : World) → Isolated w u → Runs Anything Failed (f a) u)
      → Runs Anything Failed (m >>= f) v
  before-Runs m f v k h next =
      Runs-bind (λ _ u. Isolated w u) Failed Anything m f v
        (Runs-weaken (λ _ u. Isolated w u) (λ _ u. Isolated w u) (λ _ u. Isolated w u) Failed m v
          (k.from v h) (λ a u j. j) (λ e u j. inl j))
        next

  either-Runs :
      {A : Type 0} (b : Bool) (m n : M A) (v : World)
      → Runs Anything Failed m v
      → Runs Anything Failed n v
      → Runs Anything Failed (if b then m else n) v
  either-Runs true m n v h k = h
  either-Runs false m n v h k = k

  after-Runs : {A : Type 0} (m : M A) (v : World) → Fails L m → Runs Anything Failed m v
  after-Runs m v k =
      Runs-weaken Anything Anything (λ e _. L e) Failed m v (k.only v) (λ a u j. tt)
        (λ e u late. inr late)

-- The error of a heal that the database did not take, after the route's flip.
abbrev pub IsUnsaved : String → List Arg → Error → Type 0
IsUnsaved f args e = (d : Error) × (e ≡ wrapf f args d)

module _ (out : Outside) (w : World) where
  abbrev L : Error → Type 0
  L e = IsUnsaved "persist healed replicas: %w" [] e

  persist_healed-Fails :
      (cur : Deployment) (id : ℕ) (rs : List Replica) → Fails L (persist_healed out cur id rs)
  unfolding persist_healed
  persist_healed-Fails cur id rs =
      Fails-bind L _ _ (Fails-ignore L _)
        λ _. Fails-bind L _ _ (Fails-wrapping L _ _ _ (λ e. (e, refl))) λ _. Fails-pure L _

  heal_restored-Runs :
      (q : Rollout) (cur : Deployment) (dead : List ℕ) (v : World)
      → Isolated w v
      → Runs (λ _ _. Unit {0}) (λ e u. Isolated w u ⊎ L e) (heal_restored out q cur dead) v
  unfolding heal_restored
  heal_restored-Runs q cur dead v h =
      before-Runs out w L _ _ v
        (Keeps-wrapping (Isolated w) _ _ _
          (Keeps-query (Isolated w) (λ v t h. h) out next_deploy_id))
        h
        λ id v₁ h₁.
          before-Runs out w L _ _ v₁
            (stage_healing-Keeps out (Isolated w) (Isolated-IsQuiet w) q cur id dead) h₁
            λ healing v₂ h₂.
              Runs-bind (λ _ _. Unit) (λ e u. Isolated w u ⊎ L e) (λ _ _. Unit) _ _ v₂
                (flip-Runs out w L _ _ _ _ v₂
                  (clean_up-Keeps out (Isolated w) (Isolated-IsQuiet w) _ _) h₂)
                λ _ v₃ _. after-Runs out w L _ v₃ (persist_healed-Fails cur id healing.replicas)

  healed-Runs :
      (cur : Deployment) (dead : List ℕ)
      → Runs
          (λ _ _. Unit {0})
          (λ e u. Isolated w u ⊎ L e)
          (heal_dead_replicas_locked out cur dead)
          w
  unfolding heal_dead_replicas_locked
  healed-Runs cur dead =
      either-Runs out w L (str_eq cur.spec "") _ _ w
        (record { holds = inl (refl, refl, refl, refl, λ app. refl) })
        (either-Runs out w L (is_nil dead) _ _ w (record { holds = tt })
          (before-Runs out w L _ _ w
            (restored_set-Keeps out (Isolated w) (Isolated-IsQuiet w) cur _ _)
            (refl, refl, refl, refl, λ app. refl) λ q v h. heal_restored-Runs q cur dead v h))

  -- If the healing of dead replicas fails, then its error is that of the last statement, the update
  -- of the row, or the live routes, the heal state, the registered nodes, the secrets and the
  -- current deployment of every app are those from before.
  pub heal_dead_replicas-isolates :
      (cur : Deployment) (dead : List ℕ) (e : Error) (u : World)
      → heal_dead_replicas_locked out cur dead w ≡ (err e, u)
      → Isolated w u ⊎ IsUnsaved "persist healed replicas: %w" [] e
  heal_dead_replicas-isolates cur dead e u h =
      failure_of (λ d v. Isolated w v ⊎ L d) (heal_dead_replicas_locked out cur dead w) e u
        (healed-Runs cur dead).holds h

module _ (out : Outside) (w : World) (idx : ℕ) where
  abbrev Unsaved : Error → Type 0
  Unsaved e = IsUnsaved "persist evacuated replica %d: %w" (num idx ∷ []) e

  old_resolved-never :
      (name id : String) (r : Result Meta) → Fails Unsaved (remove_resolved out name id r)
  old_resolved-never name id (ok m) = Fails-ignore Unsaved (remove_container out name id)
  old_resolved-never name id (err e) = Fails-pure Unsaved tt

  remove_old-never : (old : Replica) → Fails Unsaved (remove_old out old)
  remove_old-never old =
      Fails-bind Unsaved _ _ (Fails-is_reachable Unsaved out (normalize_node old.node)) λ up.
        Fails-if Unsaved (not up) _ _ (Fails-pure Unsaved tt) (
          Fails-bind Unsaved _ _ (Fails-attempt Unsaved _)
            λ m. old_resolved-never (normalize_node old.node) old.container_id m)

  flip_move-Runs :
      (q : Rollout) (cur : Deployment) (old : Replica) (t : Target) (staged : Container × Replica)
      (v : World)
      → Isolated w v
      → Runs
          (λ _ _. Unit {0})
          (λ e u. Isolated w u ⊎ Unsaved e)
          (flip_move out q cur idx old t staged)
          v
  unfolding flip_move
  flip_move-Runs q cur old t (c, new) v h =
      Runs-bind (λ _ _. Unit) (λ e u. Isolated w u ⊎ Unsaved e) (λ _ _. Unit) _ _ v
        (flip-Runs out w Unsaved _ _ _ _ v
          (Keeps-ignore (Isolated w) _
            (remove_container-Keeps out (Isolated w) (Isolated-IsQuiet w) t.name c.id))
          h)
        λ _ u _. after-Runs out w Unsaved _ u (
          Fails-bind Unsaved _ _ (remove_old-never old) λ _.
            Fails-bind Unsaved _ _ (Fails-wrapping Unsaved _ _ _ (λ e. (e, refl)))
              λ _. Fails-pure Unsaved _)

  move_at-Runs :
      (q : Rollout) (exclude : String) (cur : Deployment) (old : Option Replica)
      → Runs
          (λ _ _. Unit {0})
          (λ e u. Isolated w u ⊎ Unsaved e)
          (move_at out q exclude cur idx old)
          w
  move_at-Runs q exclude cur none = record { holds = inl (refl, refl, refl, refl, λ app. refl) }
  move_at-Runs q exclude cur (some old) =
      let quiet = Isolated-IsQuiet w in
      before-Runs out w Unsaved _ _ w
        (Keeps-wrapping (Isolated w) _ _ _
          (place_excluding_set-Keeps out (Isolated w) quiet.ticks q.app _))
        (refl, refl, refl, refl, λ app. refl)
        λ name v₁ h₁.
          before-Runs out w Unsaved _ _ v₁ (prepare_node-Keeps out (Isolated w) quiet q idx name) h₁
            λ t v₂ h₂.
              before-Runs out w Unsaved _ _ v₂
                (Keeps-wrapping (Isolated w) _ _ _
                  (Keeps-query (Isolated w) (λ v t h. h) out next_deploy_id))
                h₂
                λ id v₃ h₃.
                  before-Runs out w Unsaved _ _ v₃
                    (stage_move-Keeps out (Isolated w) quiet q _ idx id t) h₃
                    λ staged v₄ h₄. flip_move-Runs q cur old t staged v₄ h₄

  -- If the move of one replica off a node fails, then its error is that of the last statement, the
  -- update of the row, or the live routes, the heal state, the registered nodes, the secrets and
  -- the current deployment of every app are those from before.
  pub move_replica-isolates :
      (q : Rollout) (exclude : String) (cur : Deployment) (e : Error) (u : World)
      → move_replica out q exclude cur idx w ≡ (err e, u)
      → Isolated w u ⊎ IsUnsaved "persist evacuated replica %d: %w" (num idx ∷ []) e
  unfolding move_replica
  move_replica-isolates q exclude cur e u h =
      failure_of (λ d v. Isolated w v ⊎ Unsaved d)
        (move_at out q exclude cur idx (get_elem? cur.replicas idx) w) e u
        (move_at-Runs q exclude cur (get_elem? cur.replicas idx)).holds h
