-- ===== src/Reconciler/Attempts.antt =====
-- The bound on heal attempts.
use lwd.Base.{
  Bool, Bool-cases, Option, Result, String, arith, err, false, if◌then◌else◌, inl, inr, leb, ltb,
  none, not, ok, refl, some, str_eq, suc, true, ℕ, ◌==◌, ◌≡◌, ◌≤◌,
}
use lwd.Reconciler.World.{HealState, M, Outside, World, modify}
use lwd.Reconciler.Keeps.{
  Keeps, Keeps-ask, Keeps-attempt, Keeps-bind, Keeps-if, Keeps-pure, Keeps-query,
}
use lwd.Reconciler.Heal.{
  attempts_in, defer_heal, deferred, heal_attempts, heal_open, healed, open_heal, rechecked,
  set_heal, state_or_new, try_heal_with,
}
use lwd.Reconciler.Rollout.{reset_heal}
use lwd.Store.{Deployment, current_deployment}

-- No app has more attempts than the limit.
pub record IsWithin (out : Outside) (v : World) : Type 0 where
  pub bound : (a : String) → heal_attempts a v ≤ out.heal_max_attempts

Keeps-modify :
    (I : World → Type 0) (f : World → World) → ((v : World) → I v → I (f v)) → Keeps I (modify f)
Keeps-modify I f k = record { from = λ v h. record { holds = k v h } }

Keeps-unless :
    {A : Type 0} (I : World → Type 0) (b : Bool) (m n : M A)
    → Keeps I m
    → (b ≡ false → Keeps I n)
    → Keeps I (if b then m else n)
Keeps-unless I true m n h k = h
Keeps-unless I false m n h k = k refl

module _ (out : Outside) (app : String) where
  abbrev I : World → Type 0
  I v = IsWithin out v

  set_heal-IsWithin :
      (hs : HealState)
      → hs.attempts ≤ out.heal_max_attempts
      → (v : World) → I v
      → I (set_heal app hs v)
  unfolding set_heal heal_attempts
  set_heal-IsWithin hs few v h = record {
    bound = λ a. elim (Bool-cases (str_eq a app)) [ inl e ↦ rw e few | inr e ↦ rw e (h.bound a) ];
  }

  deferred_attempts : (t : ℕ) (o : Option HealState) → attempts_in (deferred t o) ≡ attempts_in o
  deferred_attempts t none = refl
  deferred_attempts t (some hs) = refl

  defer_heal-IsWithin : (t : ℕ) (v : World) → I v → I (defer_heal app t v)
  unfolding defer_heal heal_attempts
  defer_heal-IsWithin t v h = record {
    bound = λ a. elim (Bool-cases (str_eq a app)) [
      | inl e ↦ rw (e, deferred_attempts t (v.heal a)) (h.bound a)
      | inr e ↦ rw e (h.bound a)
    ];
  }

  pub reset_heal-IsWithin : (v : World) → I v → I (reset_heal app v)
  unfolding reset_heal heal_attempts
  reset_heal-IsWithin v h = record {
    bound = λ a. elim (Bool-cases (str_eq a app)) [
      | inl e ↦ rw e (omega arith)
      | inr e ↦ rw e (h.bound a)
    ];
  }

  new_attempts : (o : Option HealState) → (state_or_new o).attempts ≡ attempts_in o
  new_attempts none = refl
  new_attempts (some hs) = refl

  open_heal-Keeps : Keeps I (open_heal app)
  unfolding open_heal heal_attempts
  open_heal-Keeps = record {
    from = λ v h. record {
      holds =
          set_heal-IsWithin (state_or_new (v.heal app))
            (rw (new_attempts (v.heal app)) (h.bound app)) v h;
    };
  }

  module _ (heal_fn : Deployment → M Deployment)
      (keeps : (d : Deployment) → Keeps I (heal_fn d)) where
    healed-Keeps : (n now : ℕ) (r : Result Deployment) → Keeps I (healed out app heal_fn n now r)
    healed-Keeps n now (ok d) =
        Keeps-bind I _ _ (Keeps-modify I (reset_heal app) reset_heal-IsWithin) λ _. Keeps-pure I _
    healed-Keeps n now (err e) =
        Keeps-bind I _ _ (Keeps-modify I (defer_heal app _) (defer_heal-IsWithin _))
          λ _. Keeps-pure I _

    heal_open-Keeps :
        (d : Deployment) (hs : HealState) (now : ℕ) → Keeps I (heal_open out app heal_fn d hs now)
    unfolding heal_open
    heal_open-Keeps d hs now =
        Keeps-unless I (leb out.heal_max_attempts hs.attempts) _ _ (Keeps-pure I _) λ few.
          Keeps-if I (ltb now hs.next_eligible) _ _ (Keeps-pure I _) (
            Keeps-bind I _ _
              (Keeps-modify I (set_heal app (record hs { attempts = suc hs.attempts })) (
                set_heal-IsWithin (record hs { attempts = suc hs.attempts }) (ground (arith, few))))
              λ _.
                Keeps-bind I _ _ (Keeps-attempt I (heal_fn d) (keeps d))
                  λ r. healed-Keeps (suc hs.attempts) now r)

    ticks : (v : World) (t : ℕ) → I v → I (record v { tick = t })
    unfolding heal_attempts
    ticks v t h = record { bound = h.bound }

    rechecked-Keeps :
        (cur : Deployment) (r : Result (Option Deployment))
        → Keeps I (rechecked out app heal_fn cur r)
    rechecked-Keeps cur (err e) = Keeps-bind I _ _ (Keeps-ask I ticks out.now) λ now. Keeps-pure I _
    rechecked-Keeps cur (ok none) = Keeps-pure I none
    rechecked-Keeps cur (ok (some d)) = Keeps-if I (not (d.id == cur.id)) _ _ (Keeps-pure I none) (
        Keeps-bind I _ _ open_heal-Keeps
          λ hs. Keeps-bind I _ _ (Keeps-ask I ticks out.now) λ now. heal_open-Keeps d hs now)

    pub try_heal_with-Keeps : (cur : Deployment) → Keeps I (try_heal_with out app heal_fn cur)
    unfolding try_heal_with
    try_heal_with-Keeps cur =
        Keeps-bind I _ _ (Keeps-attempt I _ (Keeps-query I ticks out (current_deployment app)))
          (rechecked-Keeps cur)
