-- ===== src/Reconciler/Yields.antt =====
-- What the replicas and upstreams of a started set have in common.
use lwd.Base.{
  Bool, List, Result, String, [], ap, arith, err, false, if◌then◌else◌, length, length-append, map,
  ok, refl, subst, suc, true, zero, ℕ, ◌++◌, ◌+◌, ◌∷◌, ◌≡◌,
}
use lwd.Reconciler.World.{Container, M, Outside, World, after_failure, or_undo, pure, ◌>>=◌}
use lwd.Reconciler.Rules.{Outcome, Runs, Runs-bind, Runs-weaken}
use lwd.Reconciler.Rollout.{
  Rollout, Started, Target, no_start, staging_host, upstream_of, with_replica,
}
use lwd.Reconciler.Deploy.{more_targets, next_node, stage_set, start_all, start_replica}
use lwd.Store.{Replica}

-- If the method returns, it returns such a value.
pub record Yields {A : Type 0} (P : A → Type 0) (m : M A) : Type 0 where
  pub gives : (v : World) → Runs (λ a _. P a) (λ _ _. Unit {0}) m v

anything_of : {A : Type 0} (x : Result A × World) → Outcome (λ _ _. Unit {0}) (λ _ _. Unit {0}) x
anything_of (ok a, u) = tt
anything_of (err e, u) = tt

module _ {A : Type 0} where
  pub Yields-any : (m : M A) → Yields (λ _. Unit {0}) m
  Yields-any m = record { gives = λ v. record { holds = anything_of (m v) } }

  pub Yields-pure : (P : A → Type 0) (a : A) → P a → Yields P (pure a)
  Yields-pure P a h = record { gives = λ v. record { holds = h } }

  pub Yields-bind :
      {B : Type 0} (P : A → Type 0) (Q : B → Type 0) (m : M A) (f : A → M B)
      → Yields P m
      → ((a : A) → P a → Yields Q (f a))
      → Yields Q (m >>= f)
  Yields-bind P Q m f h k = record {
    gives = λ v.
        Runs-bind (λ a _. P a) (λ _ _. Unit {0}) (λ b _. Q b) m f v (h.gives v)
          (λ a u p. (k a p).gives u);
  }

  pub Yields-then :
      {B : Type 0} (Q : B → Type 0) (m : M A) (f : A → M B)
      → ((a : A) → Yields Q (f a))
      → Yields Q (m >>= f)
  Yields-then Q m f k = Yields-bind (λ _. Unit {0}) Q m f (Yields-any m) (λ a _. k a)

module _ {A : Type 0} (P : A → Type 0) where
  pub Yields-if :
      (b : Bool) (m n : M A)
      → (b ≡ true → Yields P m)
      → (b ≡ false → Yields P n)
      → Yields P (if b then m else n)
  Yields-if true m n h k = h refl
  Yields-if false m n h k = k refl

  pub Yields-weaken : (Q : A → Type 0) (m : M A) → ((a : A) → P a → Q a) → Yields P m → Yields Q m
  Yields-weaken Q m f k = record {
    gives = λ v.
        Runs-weaken (λ a _. P a) (λ a _. Q a) (λ _ _. Unit {0}) (λ _ _. Unit {0}) m v (k.gives v)
          (λ a u p. f a p) (λ e u x. x);
  }

  undone-gives :
      {B : Type 0} (undo : M B) (x : Result A × World)
      → Outcome (λ a _. P a) (λ _ _. Unit {0}) x
      → Outcome (λ a _. P a) (λ _ _. Unit {0}) (after_failure undo x)
  undone-gives undo (ok a, u) h = h
  undone-gives undo (err e, u) h = tt

  pub Yields-or_undo : {B : Type 0} (m : M A) (undo : M B) → Yields P m → Yields P (or_undo m undo)
  unfolding or_undo
  Yields-or_undo m undo k = record {
    gives = λ v. record { holds = undone-gives undo (m v) (k.gives v).holds };
  }

-- `n` replicas, each with its upstream.
abbrev pub IsPaired : ℕ → Started → Type 0
IsPaired n st = (st.upstreams ≡ map upstream_of st.replicas) × (length st.replicas ≡ n)

map-snoc :
    {A B : Type 0} (f : A → B) (xs : List A) (x : A) → map f (xs ++ x ∷ []) ≡ map f xs ++ f x ∷ []
map-snoc f [] x = refl
map-snoc f (y ∷ ys) x = ap (λ l. f y ∷ l) (map-snoc f ys x)

with_replica-IsPaired :
    (n : ℕ) (st : Started) (c : Container) (r : Replica)
    → IsPaired n st
    → IsPaired (suc n) (with_replica st c r)
unfolding with_replica
with_replica-IsPaired n st c r (ups, len) = (
  rw (map-snoc upstream_of st.replicas r, ups) refl,
  omega (arith, length-append st.replicas (r ∷ []), len),
)

module _ (out : Outside) (q : Rollout) where
  pub more_targets-Yields :
      (i k : ℕ) (ex : List String) (ts : List Target)
      → Yields (λ us. length us ≡ length ts + k) (more_targets out q i k ex ts)
  unfolding more_targets
  more_targets-Yields i zero ex ts = Yields-pure _ ts (omega arith)
  more_targets-Yields i (suc k) ex ts = Yields-then _ (next_node out q i ex) _ λ name.
      Yields-then _ _ _ λ m. Yields-then _ _ _ λ _.
        let next : Target = record {
          name = name;
          mesh_addr = m.mesh_addr;
          is_local = m.is_local;
        } in
        let same : length (ts ++ next ∷ []) + k ≡ length ts + suc k =
          omega (arith, length-append ts (next ∷ [])) in
        rw (← same) (more_targets-Yields (suc i) k _ (ts ++ next ∷ []))

  start_replica-Yields :
      (n id : ℕ) (host : String) (ts : List Target) (i : ℕ) (t : Target) (st : Started)
      → IsPaired n st
      → Yields (IsPaired (suc n)) (start_replica out q id host ts i t st)
  unfolding start_replica
  start_replica-Yields n id host ts i t st h = Yields-then (IsPaired (suc n)) _ _ λ _.
      Yields-then (IsPaired (suc n)) _ _ λ c.
        Yields-then (IsPaired (suc n)) _ _
          λ _. Yields-pure (IsPaired (suc n)) _ (with_replica-IsPaired n st c _ h)

  start_all-Yields :
      (n id : ℕ) (host : String) (ts : List Target) (i : ℕ) (rest : List Target) (st : Started)
      → IsPaired n st
      → Yields (IsPaired (n + length rest)) (start_all out q id host ts i rest st)
  unfolding start_all
  start_all-Yields n id host ts i [] st (ups, len) = Yields-pure _ st (ups, omega (arith, len))
  start_all-Yields n id host ts i (t ∷ rest) st h =
      let same : suc n + length rest ≡ n + length (t ∷ rest) = omega arith in
      subst (λ k. Yields (IsPaired k) (start_all out q id host ts i (t ∷ rest) st)) same
        (Yields-bind (IsPaired (suc n)) (IsPaired (suc n + length rest)) _ _
          (start_replica-Yields n id host ts i t st h)
          (λ next p. start_all-Yields (suc n) id host ts (suc i) rest next p))

  pub stage_set-Yields :
      (id : ℕ) (ts : List Target) → Yields (IsPaired (length ts)) (stage_set out q id ts)
  unfolding stage_set
  stage_set-Yields id ts =
      Yields-bind (IsPaired (length ts)) (IsPaired (length ts)) _ _
        (let same : 0 + length ts ≡ length ts = omega arith in
          subst (λ n. Yields (IsPaired n) (start_all out q id (staging_host id) ts 0 ts no_start))
            same (start_all-Yields 0 id (staging_host id) ts 0 ts no_start (refl, refl)))
        λ st h.
          Yields-then (IsPaired (length ts)) _ _
            λ _. Yields-then (IsPaired (length ts)) _ _ λ _. Yields-pure (IsPaired (length ts)) st h
