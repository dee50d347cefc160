-- ===== src/Reconciler/LogOnly.antt =====
-- What keeps each invariant that reads the log only.
use lwd.Base.{Error, Option, Result, none, some, suc, ℕ}
use lwd.Reconciler.World.{M, Outside, World, call_router, exec, failing, forget, ignore, stored}
use lwd.Reconciler.Rules.{Outcome, Runs}
use lwd.Reconciler.Keeps.{Keeps, Keeps-bind, Keeps-gets, answer-I, world_after}
use lwd.Reconciler.Deploy.{insert_row}
use lwd.Store.{Deployment, Store, record_deployment}
use lwd.Router.{Router}

-- The invariant reads the log only.
abbrev pub IsLogOnly : (World → Type 0) → Type 0
IsLogOnly I =
    (v : World) (c : Router) (s : Store) (t : ℕ)
    → I v
    → I (record v { router = c; store = s; tick = t })

module _ (out : Outside) (I : World → Type 0) (log_only : IsLogOnly I) where
  pub ticks : (v : World) (t : ℕ) → I v → I (record v { tick = t })
  ticks v t h = log_only v v.router v.store t h

  pub call-Keeps : (f : Option Error → Router → Router × Option Error) → Keeps I (call_router out f)
  unfolding call_router
  call-Keeps f = record {
    from = λ v h. record {
      holds =
          answer-I I ticks (failing (f (out.caddy_error v.tick) v.router).1)
            (record v { router = (f (out.caddy_error v.tick) v.router).0; tick = suc v.tick })
            (log_only v (f (out.caddy_error v.tick) v.router).0 v.store (suc v.tick) h);
    };
  }

  stored-I :
      (f : Store → Store) (v : World) (e : Option Error)
      → I v
      → Outcome (λ _ u. I u) (λ _ u. I u) (stored f v e)
  stored-I f v none h = log_only v v.router (f v.store) (suc v.tick) h
  stored-I f v (some e) h = ticks v (suc v.tick) h

  exec-Keeps : (f : Store → Store) → Keeps I (exec out f)
  unfolding exec
  exec-Keeps f = record { from = λ v h. record { holds = stored-I f v (out.db_error v.tick) h } }

  pub insert-Keeps : (d : Deployment) → Keeps I (insert_row out d)
  unfolding insert_row
  insert-Keeps d =
      Keeps-bind I _ _ (exec-Keeps (λ s. (record_deployment d s).0)) λ _. Keeps-gets I _

module _ (I : World → Type 0) (E : Error → World → Type 0) {A : Type 0} where
  forgot : (x : Result A × World) → I x.1 → Outcome (λ _ u. I u) E (forget x)
  forgot (r, u) h = h

  pub ignored-Runs : (m : M A) (v : World) → I v → Keeps I m → Runs (λ _ u. I u) E (ignore m) v
  unfolding ignore
  ignored-Runs m v h k = record { holds = forgot (m v) (world_after I (m v) (k.from v h).holds) }
