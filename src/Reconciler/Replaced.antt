-- ===== src/Reconciler/Replaced.antt =====
-- Which entries of a replica set the healing of dead replicas and the move of one replace.
use lwd.Base.{
  Bool-cases, In, List, Option, String, [], ap, get_elem?, here, inl, inr, map, none, ok, refl, set,
  some, str_eq, suc, there, zero, ℕ, ◌∙◌, ◌∷◌, ◌≡◌, ◌≢◌,
}
use lwd.Reconciler.Remove.{normalize_node}
use lwd.Store.{Deployment, Replica}
use lwd.Reconciler.World.{Outside, World}
use lwd.Reconciler.Rollout.{Rollout}
use lwd.Reconciler.ReplicaHeal.{
  Healing, heal_dead_replicas_locked, heal_restored, persist_healed, recreate, recreate_all,
  recreate_at, stage_healing,
}
use lwd.Reconciler.Moves.{prepare_node}
use lwd.Reconciler.Provenance.{success_of}
use lwd.Reconciler.Yields.{
  Yields, Yields-bind, Yields-if, Yields-or_undo, Yields-pure, Yields-then, Yields-weaken,
}
use lwd.Spec.Validate.{is_nil}

abbrev pub place_of : Replica → String
place_of r = normalize_node r.node

normalize_twice : (n : String) → normalize_node (normalize_node n) ≡ normalize_node n
unfolding normalize_node
normalize_twice n = elim (Bool-cases (str_eq n "")) [ inl e ↦ rw e refl | inr e ↦ rw (e, e) refl ]

module _ {ℓ} {A : Type ℓ} where
  pub get_elem-set-other :
      (xs : List A) (i j : ℕ) (v : A) → j ≢ i → get_elem? (set xs i v) j ≡ get_elem? xs j
  get_elem-set-other [] i j v h = refl
  get_elem-set-other (x ∷ xs) zero zero v h = absurd (h refl)
  get_elem-set-other (x ∷ xs) zero (suc j) v h = refl
  get_elem-set-other (x ∷ xs) (suc i) zero v h = refl
  get_elem-set-other (x ∷ xs) (suc i) (suc j) v h = get_elem-set-other xs i j v (λ e. h (ap suc e))

  pub get_elem-set :
      (xs : List A) (i : ℕ) (v x : A) → get_elem? xs i ≡ some x → get_elem? (set xs i v) i ≡ some v
  get_elem-set [] i v x h = cc
  get_elem-set (y ∷ ys) zero v x h = refl
  get_elem-set (y ∷ ys) (suc i) v x h = get_elem-set ys i v x h

module _ {ℓ κ} {A : Type ℓ} {B : Type κ} where
  map-set :
      (f : A → B) (xs : List A) (i : ℕ) (v x : A)
      → get_elem? xs i ≡ some x
      → f v ≡ f x
      → map f (set xs i v) ≡ map f xs
  map-set f [] i v x h e = refl
  map-set f (y ∷ ys) zero v x h e = cc
  map-set f (y ∷ ys) (suc i) v x h e = ap (λ l. f y ∷ l) (map-set f ys i v x h e)

-- The replicas stay on their nodes, and those at other indexes are the same.
abbrev pub Kept : List ℕ → List Replica → List Replica → Type 0
Kept is rs ss =
    (map place_of ss ≡ map place_of rs) × ((j : ℕ) → ¬ In j is → get_elem? ss j ≡ get_elem? rs j)

Kept-refl : (is : List ℕ) (rs : List Replica) → Kept is rs rs
Kept-refl is rs = (refl, λ j h. refl)

In-longer : {j i : ℕ} {is : List ℕ} → In j (i ∷ []) → In j (i ∷ is)
In-longer here = here
In-longer (there n) = elim n [ ]

Kept-trans :
    (i : ℕ) (is : List ℕ) (rs ss ts : List Replica)
    → Kept (i ∷ []) rs ss
    → Kept is ss ts
    → Kept (i ∷ is) rs ts
Kept-trans i is rs ss ts (p, h) (q, k) =
    (q ∙ p, λ j out. k j (λ m. out (there m)) ∙ h j (λ m. out (In-longer m)))

Kept-set :
    (i : ℕ) (rs : List Replica) (new old : Replica)
    → get_elem? rs i ≡ some old
    → place_of new ≡ place_of old
    → Kept (i ∷ []) rs (set rs i new)
Kept-set i rs new old found same = (
  map-set place_of rs i new old found same,
  λ j out. get_elem-set-other rs i j new (λ e. out (rw e here)),
)

module _ (out : Outside) where
  pub prepare_node-Yields :
      (q : Rollout) (i : ℕ) (name : String)
      → Yields (λ t. t.name ≡ name) (prepare_node out q i name)
  unfolding prepare_node
  prepare_node-Yields q i name =
      Yields-then (λ t. t.name ≡ name) _ _
        λ m.
          Yields-then (λ t. t.name ≡ name) _ _
            λ _. Yields-then (λ t. t.name ≡ name) _ _ λ _. Yields-pure (λ t. t.name ≡ name) _ refl

  recreate-Yields :
      (q : Rollout) (id : ℕ) (h : Healing) (i : ℕ) (old : Replica)
      → get_elem? h.replicas i ≡ some old
      → Yields (λ next. Kept (i ∷ []) h.replicas next.replicas) (recreate out q id h i old)
  unfolding recreate
  recreate-Yields q id h i old found =
      let P : Healing → Type 0 = λ next. Kept (i ∷ []) h.replicas next.replicas in
      Yields-bind (λ t. t.name ≡ normalize_node old.node) P _ _
        (Yields-or_undo _ _ _ (prepare_node-Yields q i (normalize_node old.node)))
        λ t same. Yields-then P _ _ λ _. Yields-then P _ _ λ c. Yields-then P _ _ λ _.
          Yields-pure P _
            (Kept-set i h.replicas _ old found (ap normalize_node same ∙ normalize_twice old.node))

  recreate_at-Yields :
      (q : Rollout) (cur : Deployment) (id : ℕ) (h : Healing) (i : ℕ) (o : Option Replica)
      → get_elem? h.replicas i ≡ o
      → Yields (λ next. Kept (i ∷ []) h.replicas next.replicas) (recreate_at out q cur id h i o)
  recreate_at-Yields q cur id h i none found =
      Yields-or_undo _ _ _ (record { gives = λ v. record { holds = tt } })
  recreate_at-Yields q cur id h i (some old) found = recreate-Yields q id h i old found

  recreate_all-Yields :
      (q : Rollout) (cur : Deployment) (id : ℕ) (h : Healing) (is : List ℕ)
      → Yields (λ next. Kept is h.replicas next.replicas) (recreate_all out q cur id h is)
  unfolding recreate_all
  recreate_all-Yields q cur id h [] = Yields-pure _ h (Kept-refl [] h.replicas)
  recreate_all-Yields q cur id h (i ∷ is) =
      Yields-bind (λ next. Kept (i ∷ []) h.replicas next.replicas)
        (λ next. Kept (i ∷ is) h.replicas next.replicas) _ _
        (recreate_at-Yields q cur id h i (get_elem? h.replicas i) refl)
        λ mid k.
          Yields-weaken (λ next. Kept is mid.replicas next.replicas) _ _
            (λ next l. Kept-trans i is h.replicas mid.replicas next.replicas k l)
            (recreate_all-Yields q cur id mid is)

  abbrev IsHealed : Deployment → List ℕ → Deployment → Type 0
  IsHealed cur dead d = (d.id ≡ cur.id) × Kept dead cur.replicas d.replicas

  heal_restored-Yields :
      (q : Rollout) (cur : Deployment) (dead : List ℕ)
      → Yields (IsHealed cur dead) (heal_restored out q cur dead)
  unfolding heal_restored stage_healing persist_healed
  heal_restored-Yields q cur dead =
      let P = IsHealed cur dead in
      Yields-then P _ _ λ id.
        Yields-bind (λ h. Kept dead cur.replicas h.replicas) P _ _
          (Yields-bind (λ h. Kept dead cur.replicas h.replicas)
            (λ h. Kept dead cur.replicas h.replicas) _ _ (recreate_all-Yields q cur id _ dead)
            λ h k.
              Yields-then _ _ _ λ _.
                Yields-then _ _ _ λ _. Yields-pure (λ h. Kept dead cur.replicas h.replicas) h k)
          λ h k.
            Yields-then P _ _
              λ _. Yields-then P _ _ λ _. Yields-then P _ _ λ _. Yields-pure P _ (refl, k)

  IsHealed-Yields :
      (cur : Deployment) (dead : List ℕ)
      → Yields (IsHealed cur dead) (heal_dead_replicas_locked out cur dead)
  unfolding heal_dead_replicas_locked
  IsHealed-Yields cur dead =
      let P = IsHealed cur dead in
      Yields-if P (str_eq cur.spec "") _ _ (λ _. record { gives = λ v. record { holds = tt } })
        (λ _.
          Yields-if P (is_nil dead) _ _ (λ _. Yields-pure P cur (refl, Kept-refl dead cur.replicas))
            (λ _. Yields-then P _ _ λ q. heal_restored-Yields q cur dead))

  -- If the healing of dead replicas returns, then the deployment has the id of the given one, its
  -- replicas stand on the same nodes, and those that were not dead are the same ones.
  pub heal_dead_replicas-kept :
      (cur : Deployment) (dead : List ℕ) (d : Deployment) (w u : World)
      → heal_dead_replicas_locked out cur dead w ≡ (ok d, u)
      → (d.id ≡ cur.id)
        × (map place_of d.replicas ≡ map place_of cur.replicas)
        × ((j : ℕ) → ¬ In j dead → get_elem? d.replicas j ≡ get_elem? cur.replicas j)
  heal_dead_replicas-kept cur dead d w u h =
      let (same, k) =
        success_of (IsHealed cur dead) (heal_dead_replicas_locked out cur dead w) d u
          ((IsHealed-Yields cur dead).gives w).holds h in
      (same, k.0, k.1)
