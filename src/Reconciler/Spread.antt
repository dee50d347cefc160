-- ===== src/Reconciler/Spread.antt =====
-- Where the move of one replica off a node puts it.
use lwd.Base.{
  ==_iff, Arg, Bool-cases, In, List, Option, Result, String, [], ap, arith, eq_iff, err, false,
  get_elem?, here, inl, inr, length, none, ok, refl, set, some, str_eq, suc, sym, there, zero, ℕ,
  ◌+◌, ◌==◌, ◌∙◌, ◌∷◌, ◌≡◌, ◌≢◌,
}
use lwd.Reconciler.World.{Container, M, Outside, World, wrapped, wrapping}
use lwd.Reconciler.Rules.{Outcome, Runs-weaken}
use lwd.Reconciler.Yields.{Yields, Yields-bind, Yields-pure, Yields-then, Yields-weaken}
use lwd.Reconciler.Remove.{normalize_node}
use lwd.Reconciler.Placement.{excludes, place_excluding_set}
use lwd.Reconciler.Allowed.{place-Runs}
use lwd.Reconciler.Evacuate.{other_nodes, with_set}
use lwd.Reconciler.Moves.{flip_move, move_at, move_found, move_replica, stage_move}
use lwd.Reconciler.Replaced.{get_elem-set, get_elem-set-other, prepare_node-Yields}
use lwd.Spec.{App}
use lwd.Store.{Deployment, Replica}
use lwd.Reconciler.Rollout.{Rollout, Target}
use lwd.Reconciler.Provenance.{success_of}

not_excluded : (xs : List String) (name x : String) → excludes xs name ≡ false → In x xs → x ≢ name
unfolding excludes
not_excluded [] name x h i e = elim i [ ]
not_excluded (y ∷ ys) name x h here e = absurd (ground (arith, h, (eq_iff x name).1 e))
not_excluded (y ∷ ys) name x h (there i) e = elim (Bool-cases (str_eq y name)) [
  | inl t ↦ absurd (ground (arith, h, t))
  | inr f ↦ not_excluded ys name x (rw f at h) i e
]

-- Each other replica's node is listed.
other_nodes-In :
    (idx k j : ℕ) (rs : List Replica) (r : Replica)
    → get_elem? rs j ≡ some r
    → j + k ≢ idx
    → In (normalize_node r.node) (other_nodes idx k rs)
unfolding other_nodes
other_nodes-In idx k j [] r h ne = absurd (ground (arith, h))
other_nodes-In idx k zero (x ∷ xs) r h ne =
    let same : x ≡ r = cc in
    elim (Bool-cases (k == idx)) [
      | inl t ↦ absurd (ne (omega (arith, (==_iff k idx).0 t)))
      | inr f ↦ rw (f, same) here
    ]
other_nodes-In idx k (suc j) (x ∷ xs) r h ne =
    let ih : In (normalize_node r.node) (other_nodes idx (suc k) xs) =
      other_nodes-In idx (suc k) j xs r h (λ e. ne (omega (arith, e))) in
    elim (Bool-cases (k == idx)) [ inl t ↦ rw t ih | inr f ↦ rw f (there ih) ]

module _ (out : Outside) where
  placed-Yields :
      (app : App) (ex : List String)
      → Yields (λ name. excludes ex name ≡ false) (place_excluding_set out app ex)
  placed-Yields app ex = record {
    gives = λ v.
        Runs-weaken _ (λ name _. excludes ex name ≡ false) _ (λ _ _. Unit {0}) _ v
          (place-Runs out app ex v) (λ name u p. p.0) (λ e u x. tt);
  }

  wrapped-gives :
      {A : Type 0} (P : A → Type 0) (f : String) (args : List Arg) (x : Result A × World)
      → Outcome (λ a _. P a) (λ _ _. Unit {0}) x
      → Outcome (λ a _. P a) (λ _ _. Unit {0}) (wrapped f args x)
  wrapped-gives P f args (ok a, u) h = h
  wrapped-gives P f args (err e, u) h = tt

  Yields-wrapping :
      {A : Type 0} (P : A → Type 0) (f : String) (args : List Arg) (m : M A)
      → Yields P m
      → Yields P (wrapping f args m)
  unfolding wrapping
  Yields-wrapping P f args m k = record {
    gives = λ v. record { holds = wrapped-gives P f args (m v) (k.gives v).holds };
  }

  stage_move-Yields :
      (q : Rollout) (count idx id : ℕ) (t : Target)
      → Yields (λ s. s.1.node ≡ t.name) (stage_move out q count idx id t)
  unfolding stage_move
  stage_move-Yields q count idx id t =
      let P : Container × Replica → Type 0 = λ s. s.1.node ≡ t.name in
      Yields-then P _ _ λ c. Yields-then P _ _ λ _. Yields-then P _ _ λ _. Yields-pure P _ refl

  -- The row keeps its id, and gets a replica on this node at this index.
  abbrev IsMoved : Deployment → ℕ → String → Deployment → Type 0
  IsMoved cur idx name d =
      (d.id ≡ cur.id)
      × ((new : Replica) × (d.replicas ≡ set cur.replicas idx new) × (new.node ≡ name))

  with_set-fields :
      (cur : Deployment) (rs : List Replica)
      → ((with_set cur rs).id ≡ cur.id) × ((with_set cur rs).replicas ≡ rs)
  with_set-fields cur [] = (refl, refl)
  with_set-fields cur (r ∷ rs) = (refl, refl)

  flip_move-Yields :
      (q : Rollout) (cur : Deployment) (idx : ℕ) (old : Replica) (t : Target)
      (s : Container × Replica) (name : String)
      → s.1.node ≡ name
      → Yields (IsMoved cur idx name) (flip_move out q cur idx old t s)
  unfolding flip_move
  flip_move-Yields q cur idx old t (c, new) name at =
      let P = IsMoved cur idx name in
      let fields = with_set-fields cur (set cur.replicas idx new) in
      Yields-then P _ _ λ _.
        Yields-then P _ _
          λ _. Yields-then P _ _ λ _. Yields-pure P _ (fields.0, (new, fields.1, at))

  -- The moved replica's node is neither the excluded one nor another replica's.
  abbrev IsSpread : String → Deployment → ℕ → Deployment → Type 0
  IsSpread exclude cur idx d =
      (name : String) × IsMoved cur idx name d
      × (excludes (exclude ∷ other_nodes idx 0 cur.replicas) name ≡ false)

  found-Yields :
      (q : Rollout) (exclude : String) (cur : Deployment) (idx : ℕ) (old : Replica)
      → Yields (IsSpread exclude cur idx) (move_found out q exclude cur idx old)
  found-Yields q exclude cur idx old =
      let P = IsSpread exclude cur idx in
      Yields-bind (λ name. excludes (exclude ∷ other_nodes idx 0 cur.replicas) name ≡ false) P _ _
        (Yields-wrapping _ _ _ _ (placed-Yields q.app _))
        λ name free.
          Yields-bind (λ t. t.name ≡ name) P _ _ (prepare_node-Yields out q idx name)
            λ t same. Yields-then P _ _ λ id.
              Yields-bind (λ s. s.1.node ≡ t.name) P _ _
                (stage_move-Yields q (length cur.replicas) idx id t)
                λ s at.
                  Yields-weaken (IsMoved cur idx name) P _ (λ d p. (name, p, free))
                    (flip_move-Yields q cur idx old t s name (at ∙ same))

  move_at-Yields :
      (q : Rollout) (exclude : String) (cur : Deployment) (idx : ℕ) (o : Option Replica)
      → Yields
          (λ d. IsSpread exclude cur idx d × ((old : Replica) × (o ≡ some old)))
          (move_at out q exclude cur idx o)
  move_at-Yields q exclude cur idx none = record { gives = λ v. record { holds = tt } }
  move_at-Yields q exclude cur idx (some old) =
      Yields-weaken (IsSpread exclude cur idx) _ _ (λ d p. (p, (old, refl)))
        (found-Yields q exclude cur idx old)

  moved_apart :
      (exclude : String) (cur : Deployment) (idx : ℕ) (old new : Replica) (name : String)
      (d : Deployment)
      → get_elem? cur.replicas idx ≡ some old
      → d.replicas ≡ set cur.replicas idx new
      → new.node ≡ name
      → excludes (exclude ∷ other_nodes idx 0 cur.replicas) name ≡ false
      → (get_elem? d.replicas idx ≡ some new)
        × (exclude ≢ new.node)
        × ((j : ℕ) (r : Replica)
            → j ≢ idx
            → get_elem? d.replicas j ≡ some r
            → normalize_node r.node ≢ new.node)
  moved_apart exclude cur idx old new name d found same at free =
      let apart : (x : String) → In x (exclude ∷ other_nodes idx 0 cur.replicas) → x ≢ new.node =
        λ x i e. not_excluded _ name x free i (e ∙ at) in
      (
        rw same (get_elem-set cur.replicas idx new old found),
        apart exclude here,
        λ j r ne h. apart (normalize_node r.node) (
            there (
              other_nodes-In idx 0 j cur.replicas r
                (sym (get_elem-set-other cur.replicas idx j new ne)
                  ∙ ap (λ rs. get_elem? rs j) (sym same)
                  ∙ h)
                (λ e. ne (omega (arith, e))))),
      )

  -- If the move of one replica off a node returns, then the deployment has the id of the given one,
  -- a new replica stands at the index and the others are the same ones, and the new replica's node
  -- is neither the given one nor that of another replica of the set.
  pub move_replica-spread :
      (q : Rollout) (exclude : String) (cur : Deployment) (idx : ℕ) (d : Deployment) (w u : World)
      → move_replica out q exclude cur idx w ≡ (ok d, u)
      → (d.id ≡ cur.id)
        × ((new : Replica) × (d.replicas ≡ set cur.replicas idx new)
            × (get_elem? d.replicas idx ≡ some new)
            × (exclude ≢ new.node)
            × ((j : ℕ) (r : Replica)
                → j ≢ idx
                → get_elem? d.replicas j ≡ some r
                → normalize_node r.node ≢ new.node))
  unfolding move_replica
  move_replica-spread q exclude cur idx d w u h =
      let ((name, (same_id, (new, same, at)), free), (old, found)) =
        success_of _ (move_at out q exclude cur idx (get_elem? cur.replicas idx) w) d u
          ((move_at-Yields q exclude cur idx (get_elem? cur.replicas idx)).gives w).holds h in
      let (a, b, c) = moved_apart exclude cur idx old new name d found same at free in
      (same_id, (new, same, a, b, c))
