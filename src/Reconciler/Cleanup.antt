-- ===== src/Reconciler/Cleanup.antt =====
-- The containers of an attempt, and the removals that were asked for.
use lwd.Base.{
  In, List, String, [], arith, here, inl, inr, length, refl, suc, there, zero, ℕ, ◌++◌, ◌∷◌, ◌≡◌,
  ◌⊎◌,
}
use lwd.Reconciler.World.{Container, Effect, Outside, World, ignore, ran, remove_container, removed}
use lwd.Reconciler.Rules.{Runs, Runs-bind}
use lwd.Reconciler.Rollout.{Target}
use lwd.Reconciler.Deploy.{remove_all}

-- The container with this id and the target with this name stand at the same place.
pub data IsPair (n id : String) : List Target → List Container → Type 0 where
  first :
      {t : Target} {c : Container} {ts : List Target} {cs : List Container}
      → n ≡ t.name
      → id ≡ c.id
      → IsPair n id (t ∷ ts) (c ∷ cs)
  later :
      {t : Target} {c : Container} {ts : List Target} {cs : List Container}
      → IsPair n id ts cs
      → IsPair n id (t ∷ ts) (c ∷ cs)

-- `rest` is what follows the first `i` targets.
pub data IsRest (rest : List Target) : ℕ → List Target → Type 0 where
  all_of : IsRest rest zero rest
  after : {t : Target} {i : ℕ} {ts : List Target} → IsRest rest i ts → IsRest rest (suc i) (t ∷ ts)

pub IsRest-next :
    {t : Target} {rest : List Target} {i : ℕ} {ts : List Target}
    → IsRest (t ∷ rest) i ts
    → IsRest rest (suc i) ts
IsRest-next all_of = after all_of
IsRest-next (after h) = after (IsRest-next h)

pub IsPair-snoc :
    (t : Target) (rest : List Target) {i : ℕ} {ts : List Target} (cs : List Container)
    (c : Container)
    → IsRest (t ∷ rest) i ts
    → length cs ≡ i
    → IsPair t.name c.id ts (cs ++ c ∷ [])
IsPair-snoc t rest [] c all_of len = first refl refl
IsPair-snoc t rest (d ∷ cs) c all_of len = absurd (omega (arith, len))
IsPair-snoc t rest [] c (after h) len = absurd (omega (arith, len))
IsPair-snoc t rest (d ∷ cs) c (after h) len = later (IsPair-snoc t rest cs c h (omega (arith, len)))

pub IsPair-append :
    (n id : String) {ts : List Target} {cs : List Container} (ds : List Container)
    → IsPair n id ts cs
    → IsPair n id ts (cs ++ ds)
IsPair-append n id ds (first p q) = first p q
IsPair-append n id ds (later h) = later (IsPair-append n id ds h)

-- Each container started since `w` was asked to be removed on its node.
abbrev pub IsCleaned : World → World → Type 0
IsCleaned w v =
    (n id : String) → In (ran n id) v.log → In (ran n id) w.log ⊎ In (removed n id) v.log

-- The same, or it is one of those of a list.
abbrev pub IsTracked : World → List Target → List Container → World → Type 0
IsTracked w ts cs v =
    (n id : String)
    → In (ran n id) v.log
    → In (ran n id) w.log ⊎ (In (removed n id) v.log ⊎ IsPair n id ts cs)

module _ (w : World) where
  untracked_of :
      (n id : String) (ts : List Target) (cs : List Container) (l : List Effect)
      → (IsPair n id ts cs → ⊥)
      → In (ran n id) w.log ⊎ (In (removed n id) l ⊎ IsPair n id ts cs)
      → In (ran n id) w.log ⊎ In (removed n id) l
  untracked_of n id ts cs l never (inl a) = inl a
  untracked_of n id ts cs l never (inr (inl b)) = inr b
  untracked_of n id ts cs l never (inr (inr c)) = absurd (never c)

  no_target : (n id : String) (cs : List Container) → IsPair n id [] cs → ⊥
  no_target n id cs h = elim h [ ]

  no_container : (n id : String) (ts : List Target) → IsPair n id ts [] → ⊥
  no_container n id ts h = elim h [ ]

  not_ran :
      (n id m : String) (k : String) (l : List Effect)
      → In (ran n id) (removed m k ∷ l)
      → In (ran n id) l
  not_ran n id m k l (there i) = i

  one_less :
      (t : Target) (c : Container) (ts : List Target) (cs : List Container) (n id : String)
      (l : List Effect)
      → In (ran n id) w.log ⊎ (In (removed n id) l ⊎ IsPair n id (t ∷ ts) (c ∷ cs))
      → In (ran n id) w.log ⊎ (In (removed n id) (removed t.name c.id ∷ l) ⊎ IsPair n id ts cs)
  one_less t c ts cs n id l (inl a) = inl a
  one_less t c ts cs n id l (inr (inl b)) = inr (inl (there b))
  one_less t c ts cs n id l (inr (inr (first p q))) = inr (inl (rw (p, q) here))
  one_less t c ts cs n id l (inr (inr (later h))) = inr (inr h)

module _ (out : Outside) (w : World) where
  removed-Runs :
      (t : Target) (c : Container) (ts : List Target) (cs : List Container) (v : World)
      → IsTracked w (t ∷ ts) (c ∷ cs) v
      → Runs
          (λ _ u. IsTracked w ts cs u)
          (λ _ u. IsCleaned w u)
          (ignore (remove_container out t.name c.id))
          v
  unfolding ignore remove_container
  removed-Runs t c ts cs v h = record {
    holds = λ n id i. one_less w t c ts cs n id v.log (h n id (not_ran w n id t.name c.id v.log i));
  }

  pub remove_all-Runs :
      (ts : List Target) (cs : List Container) (v : World)
      → IsTracked w ts cs v
      → Runs (λ _ u. IsCleaned w u) (λ _ u. IsCleaned w u) (remove_all out ts cs) v
  unfolding remove_all
  remove_all-Runs [] cs v h = record {
    holds = λ n id i. untracked_of w n id [] cs v.log (no_target w n id cs) (h n id i);
  }
  remove_all-Runs (t ∷ ts) [] v h = record {
    holds =
        λ n id i. untracked_of w n id (t ∷ ts) [] v.log (no_container w n id (t ∷ ts)) (h n id i);
  }
  remove_all-Runs (t ∷ ts) (c ∷ cs) v h =
      Runs-bind (λ _ u. IsTracked w ts cs u) (λ _ u. IsCleaned w u) (λ _ u. IsCleaned w u) _ _ v
        (removed-Runs t c ts cs v h) λ _ u k. remove_all-Runs ts cs u k
