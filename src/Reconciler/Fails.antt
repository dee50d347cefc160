-- ===== src/Reconciler/Fails.antt =====
-- Methods whose errors are all of one kind; with the kind `λ _. ⊥`, methods that do not fail.
use lwd.Base.{
  Arg, Bool, Error, List, Option, Result, String, [], err, false, if◌then◌else◌, none, ok, some,
  true, wrapf, ℕ, ◌∷◌,
}
use lwd.Reconciler.World.{
  M, Meta, Outside, World, answered, ask, attempt, exec, forget, ignore, is_reachable, modify, pure,
  remove_container, wrapped, wrapping, ◌>>=◌,
}
use lwd.Reconciler.Rules.{Outcome, Runs, Runs-bind}
use lwd.Reconciler.Retire.{
  old_replicas, remove_resolved, retire_found, retire_old_set, retire_replica, retire_replicas,
}
use lwd.Store.{Deployment, Replica, retired, set_status}

pub record Fails {A : Type 0} (E : Error → Type 0) (m : M A) : Type 0 where
  pub only : (v : World) → Runs (λ _ _. Unit {0}) (λ e _. E e) m v

module _ (E : Error → Type 0) {A : Type 0} where
  pub Fails-pure : (a : A) → Fails E (pure a)
  Fails-pure a = record { only = λ v. record { holds = tt } }

  pub Fails-ask : (f : ℕ → A) → Fails E (ask f)
  Fails-ask f = record { only = λ v. record { holds = tt } }

  pub Fails-if : (b : Bool) (m n : M A) → Fails E m → Fails E n → Fails E (if b then m else n)
  Fails-if true m n h k = h
  Fails-if false m n h k = k

  pub Fails-bind :
      {B : Type 0} (m : M A) (f : A → M B)
      → Fails E m
      → ((a : A) → Fails E (f a))
      → Fails E (m >>= f)
  Fails-bind m f h k = record {
    only = λ v.
        Runs-bind (λ _ _. Unit {0}) (λ e _. E e) (λ _ _. Unit {0}) m f v (h.only v)
          (λ a u _. (k a).only u);
  }

  forget-never : (x : Result A × World) → Outcome (λ _ _. Unit {0}) (λ e _. E e) (forget x)
  forget-never (ok a, u) = tt
  forget-never (err e, u) = tt

  pub Fails-ignore : (m : M A) → Fails E (ignore m)
  unfolding ignore
  Fails-ignore m = record { only = λ v. record { holds = forget-never (m v) } }

  answered-never : (x : Result A × World) → Outcome (λ _ _. Unit {0}) (λ e _. E e) (answered x)
  answered-never (r, u) = tt

  pub Fails-attempt : (m : M A) → Fails E (attempt m)
  unfolding attempt
  Fails-attempt m = record { only = λ v. record { holds = answered-never (m v) } }

  wrapped-only :
      (f : String) (args : List Arg)
      → ((e : Error) → E (wrapf f args e))
      → (x : Result A × World) → Outcome (λ _ _. Unit {0}) (λ e _. E e) (wrapped f args x)
  wrapped-only f args h (ok a, u) = tt
  wrapped-only f args h (err e, u) = h e

  pub Fails-wrapping :
      (f : String) (args : List Arg) (m : M A)
      → ((e : Error) → E (wrapf f args e))
      → Fails E (wrapping f args m)
  unfolding wrapping
  Fails-wrapping f args m h = record { only = λ v. record { holds = wrapped-only f args h (m v) } }

pub Fails-modify : (E : Error → Type 0) (f : World → World) → Fails E (modify f)
Fails-modify E f = record { only = λ v. record { holds = tt } }

module _ (E : Error → Type 0) (out : Outside) where
  reach-never :
      (o : Option (ℕ → String → Bool)) (name : String)
      → Fails E (elim o [ none ↦ pure true | some f ↦ ask (λ t. f t name) ])
  reach-never none name = Fails-pure E true
  reach-never (some f) name = Fails-ask E (λ t. f t name)

  pub Fails-is_reachable : (name : String) → Fails E (is_reachable out name)
  unfolding is_reachable
  Fails-is_reachable name = reach-never out.reach name

  ruleset never = (
    Fails-pure, Fails-ask, Fails-if, Fails-bind, Fails-ignore, Fails-attempt, Fails-modify,
    Fails-is_reachable,
  )

  removed-never : (name id : String) (r : Result Meta) → Fails E (remove_resolved out name id r)
  removed-never name id (ok m) = Fails-ignore E (remove_container out name id)
  removed-never name id (err e) = Fails-pure E tt

  retire_replica-never : (r : Replica) → Fails E (retire_replica out r)
  retire_replica-never r = search (never, removed-never)

  retire_replicas-never : (rs : List Replica) → Fails E (retire_replicas out rs)
  unfolding retire_replicas
  retire_replicas-never [] = Fails-pure E tt
  retire_replicas-never (r ∷ rs) =
      Fails-bind E (retire_replica out r) _ (retire_replica-never r) λ _. retire_replicas-never rs

  retire_found-never : (r : Result (Option Deployment)) → Fails E (retire_found out r)
  retire_found-never (err e) = Fails-pure E tt
  retire_found-never (ok none) = Fails-pure E tt
  retire_found-never (ok (some prev)) =
      Fails-bind E (retire_replicas out (old_replicas out prev)) _
        (retire_replicas-never (old_replicas out prev))
        λ _. Fails-ignore E (exec out (set_status prev.id retired))

  pub retire_old_set-never : (app : String) → Fails E (retire_old_set out app)
  unfolding retire_old_set
  retire_old_set-never app = search (never, retire_found-never)
