-- ===== src/Reconciler/Keeps.antt =====
-- Methods that keep an invariant of the state, whether they return or fail.
use lwd.Base.{
  Arg, Bool, Error, List, Option, Result, String, err, false, if◌then◌else◌, none, ok, some, suc,
  true, ℕ,
}
use lwd.Reconciler.World.{
  M, Outside, World, after_failure, answered, ask, ask_error, ask_result, attempt, failing, forget,
  gets, ignore, is_reachable, lift, or_undo, pure, query, raise, read_of, wrapped, wrapping, ◌>>=◌,
}
use lwd.Reconciler.Rules.{Outcome, Runs, Runs-bind}
use lwd.Store.{Store}

pub record Keeps {A : Type 0} (I : World → Type 0) (m : M A) : Type 0 where
  pub from : (v : World) → I v → Runs (λ _ u. I u) (λ _ u. I u) m v

module _ (I : World → Type 0) {A : Type 0} where
  pub Keeps-pure : (a : A) → Keeps I (pure a)
  Keeps-pure a = record { from = λ v h. record { holds = h } }

  pub Keeps-raise : (e : Error) → Keeps I (raise {A = A} e)
  Keeps-raise e = record { from = λ v h. record { holds = h } }

  pub Keeps-lift : (r : Result A) → Keeps I (lift r)
  Keeps-lift (ok a) = record { from = λ v h. record { holds = h } }
  Keeps-lift (err e) = record { from = λ v h. record { holds = h } }

  pub Keeps-gets : (f : World → A) → Keeps I (gets f)
  Keeps-gets f = record { from = λ v h. record { holds = h } }

  pub Keeps-if : (b : Bool) (m n : M A) → Keeps I m → Keeps I n → Keeps I (if b then m else n)
  Keeps-if true m n h k = h
  Keeps-if false m n h k = k

  pub Keeps-bind :
      {B : Type 0} (m : M A) (f : A → M B)
      → Keeps I m
      → ((a : A) → Keeps I (f a))
      → Keeps I (m >>= f)
  Keeps-bind m f hm hf = record {
    from = λ v h.
        Runs-bind (λ _ u. I u) (λ _ u. I u) (λ _ u. I u) m f v (hm.from v h) (λ a u. (hf a).from u);
  }

  answered-I :
      (x : Result A × World)
      → Outcome (λ _ u. I u) (λ _ u. I u) x
      → Outcome (λ _ u. I u) (λ _ u. I u) (answered x)
  answered-I (ok a, u) h = h
  answered-I (err e, u) h = h

  pub Keeps-attempt : (m : M A) → Keeps I m → Keeps I (attempt m)
  unfolding attempt
  Keeps-attempt m k = record {
    from = λ v h. record { holds = answered-I (m v) (k.from v h).holds };
  }

  forget-I :
      (x : Result A × World)
      → Outcome (λ _ u. I u) (λ _ u. I u) x
      → Outcome (λ _ u. I u) (λ _ u. I u) (forget x)
  forget-I (ok a, u) h = h
  forget-I (err e, u) h = h

  pub Keeps-ignore : (m : M A) → Keeps I m → Keeps I (ignore m)
  unfolding ignore
  Keeps-ignore m k = record { from = λ v h. record { holds = forget-I (m v) (k.from v h).holds } }

  wrapped-I :
      (f : String) (args : List Arg) (x : Result A × World)
      → Outcome (λ _ u. I u) (λ _ u. I u) x
      → Outcome (λ _ u. I u) (λ _ u. I u) (wrapped f args x)
  wrapped-I f args (ok a, u) h = h
  wrapped-I f args (err e, u) h = h

  pub Keeps-wrapping :
      (f : String) (args : List Arg) (m : M A) → Keeps I m → Keeps I (wrapping f args m)
  unfolding wrapping
  Keeps-wrapping f args m k = record {
    from = λ v h. record { holds = wrapped-I f args (m v) (k.from v h).holds };
  }

pub world_after :
    (I : World → Type 0) {B : Type 0} (x : Result B × World)
    → Outcome (λ _ u. I u) (λ _ u. I u) x
    → I x.1
world_after I (ok a, u) h = h
world_after I (err e, u) h = h

module _ (I : World → Type 0) {A B : Type 0} where
  after_failure-I :
      (undo : M B)
      → Keeps I undo
      → (x : Result A × World) → Outcome (λ _ u. I u) (λ _ u. I u) x
      → Outcome (λ _ u. I u) (λ _ u. I u) (after_failure undo x)
  after_failure-I undo k (ok a, u) h = h
  after_failure-I undo k (err e, u) h = world_after I (undo u) (k.from u h).holds

  pub Keeps-or_undo : (m : M A) (undo : M B) → Keeps I m → Keeps I undo → Keeps I (or_undo m undo)
  unfolding or_undo
  Keeps-or_undo m undo k l = record {
    from = λ v h. record { holds = after_failure-I undo l (m v) (k.from v h).holds };
  }

-- An invariant that does not read the tick is kept by every question.
module _ (I : World → Type 0) (ticks : (v : World) (t : ℕ) → I v → I (record v { tick = t })) where
  pub Keeps-ask : {A : Type 0} (f : ℕ → A) → Keeps I (ask f)
  Keeps-ask f = record { from = λ v h. record { holds = ticks v (suc v.tick) h } }

  pub answer-I :
      {A : Type 0} (r : Result A) (u : World) → I u → Outcome (λ _ u. I u) (λ _ u. I u) (r, u)
  answer-I (ok a) u h = h
  answer-I (err e) u h = h

  pub Keeps-ask_result : {A : Type 0} (f : ℕ → Result A) → Keeps I (ask_result f)
  unfolding ask_result
  Keeps-ask_result f = record {
    from = λ v h. record {
      holds = answer-I (f v.tick) (record v { tick = suc v.tick }) (ticks v (suc v.tick) h);
    };
  }

  pub Keeps-ask_error : (f : ℕ → Option Error) → Keeps I (ask_error f)
  unfolding ask_error
  Keeps-ask_error f = record {
    from = λ v h. record {
      holds =
          answer-I (failing (f v.tick)) (record v { tick = suc v.tick }) (ticks v (suc v.tick) h);
    };
  }

  module _ (out : Outside) where
    read-I :
        {A : Type 0} (f : Store → A) (v : World) (e : Option Error)
        → I v
        → Outcome (λ _ u. I u) (λ _ u. I u) (read_of out f v e)
    read-I f v none h = ticks v (suc v.tick) h
    read-I f v (some e) h = ticks v (suc v.tick) h

    pub Keeps-query : {A : Type 0} (f : Store → A) → Keeps I (query out f)
    unfolding query
    Keeps-query f = record { from = λ v h. record { holds = read-I f v (out.db_error v.tick) h } }

    reach-I :
        (o : Option (ℕ → String → Bool)) (name : String)
        → Keeps I (elim o [ none ↦ pure true | some f ↦ ask (λ t. f t name) ])
    reach-I none name = Keeps-pure I true
    reach-I (some f) name = Keeps-ask (λ t. f t name)

    pub Keeps-is_reachable : (name : String) → Keeps I (is_reachable out name)
    unfolding is_reachable
    Keeps-is_reachable name = reach-I out.reach name

pub ruleset keeps_rules = (
  Keeps-pure, Keeps-raise, Keeps-lift, Keeps-gets, Keeps-if, Keeps-bind, Keeps-attempt,
  Keeps-ignore, Keeps-wrapping, Keeps-or_undo, Keeps-ask, Keeps-ask_result, Keeps-ask_error,
  Keeps-query, Keeps-is_reachable,
)
