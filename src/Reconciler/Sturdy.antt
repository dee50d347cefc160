-- ===== src/Reconciler/Sturdy.antt =====
-- Invariants that every operation of the reconciler keeps: those that the statements it runs on the
-- store keep, and that do not read the routes, the log or the tick.
pub mod Deploys
pub mod Applies
pub mod Moves
pub mod Removes
pub mod Heals
pub mod Passes
pub mod Failovers
use lwd.Base.{Bool, Error, List, Option, String, none, some, suc, ℕ}
use lwd.Reconciler.World.{
  Effect, Outside, World, call_router, exec, failing, modify, remove_container, stored,
}
use lwd.Reconciler.Rules.{Outcome}
use lwd.Reconciler.Keeps.{Keeps, Keeps-bind, Keeps-gets, answer-I, keeps_rules}
use lwd.Reconciler.Untouched.{IsQuiet, remove_container-Keeps}
use lwd.Reconciler.Rollout.{reset_heal}
use lwd.Reconciler.Deploy.{insert_row}
use lwd.Router.{Router}
use lwd.Store.{Deployment, Replica, Status, Store, record_deployment, set_status, update_replicas}

pub record IsSturdy (I : World → Type 0) : Type 0 where
  pub ticks : (v : World) (t : ℕ) → I v → I (record v { tick = t })
  pub logs : (v : World) (l : List Effect) → I v → I (record v { log = l })
  pub routers : (v : World) (c : Router) → I v → I (record v { router = c })
  pub nudges : (v : World) (b : Bool) → I v → I (record v { nudged = b })
  pub resets : (app : String) (v : World) → I v → I (reset_heal app v)
  pub rows :
      (d : Deployment) (v : World) → I v → I (record v { store = (record_deployment d v.store).0 })
  pub statuses :
      (id : ℕ) (st : Status) (v : World) → I v → I (record v { store = set_status id st v.store })
  pub sets :
      (id : ℕ) (rs : List Replica) (cid : String) (v : World)
      → I v
      → I (record v { store = update_replicas id rs cid v.store })

module _ (I : World → Type 0) (sturdy : IsSturdy I) where
  pub sturdy-IsQuiet : IsQuiet I
  sturdy-IsQuiet = record {
    ticks = sturdy.ticks;
    logs = sturdy.logs;
    staging = λ v c h. sturdy.routers v c;
    failed_row = λ d v h. sturdy.rows d v;
  }

  stored-I :
      (f : Store → Store)
      → ((v : World) → I v → I (record v { store = f v.store }))
      → (v : World) (e : Option Error) → I v
      → Outcome (λ _ u. I u) (λ _ u. I u) (stored f v e)
  stored-I f k v none h = sturdy.ticks (record v { store = f v.store }) (suc v.tick) (k v h)
  stored-I f k v (some e) h = sturdy.ticks v (suc v.tick) h

  module _ (out : Outside) where
    exec-Keeps :
        (f : Store → Store)
        → ((v : World) → I v → I (record v { store = f v.store }))
        → Keeps I (exec out f)
    unfolding exec
    exec-Keeps f k = record {
      from = λ v h. record { holds = stored-I f k v (out.db_error v.tick) h };
    }

    pub set_status-Keeps : (id : ℕ) (st : Status) → Keeps I (exec out (set_status id st))
    set_status-Keeps id st = exec-Keeps (set_status id st) (sturdy.statuses id st)

    pub update_replicas-Keeps :
        (id : ℕ) (rs : List Replica) (cid : String) → Keeps I (exec out (update_replicas id rs cid))
    update_replicas-Keeps id rs cid = exec-Keeps (update_replicas id rs cid) (sturdy.sets id rs cid)

    pub new_row-Keeps : (d : Deployment) → Keeps I (insert_row out d)
    unfolding insert_row
    new_row-Keeps d =
        Keeps-bind I _ _ (exec-Keeps (λ s. (record_deployment d s).0) (sturdy.rows d))
          λ _. Keeps-gets I _

    pub call_router-Keeps :
        (f : Option Error → Router → Router × Option Error) → Keeps I (call_router out f)
    unfolding call_router
    call_router-Keeps f = record {
      from = λ v h. record {
        holds = answer-I I sturdy.ticks (failing (f (out.caddy_error v.tick) v.router).1) _ (
            sturdy.ticks (record v { router = (f (out.caddy_error v.tick) v.router).0 })
              (suc v.tick) (sturdy.routers v (f (out.caddy_error v.tick) v.router).0 h));
      };
    }

    pub container_removed-Keeps : (node id : String) → Keeps I (remove_container out node id)
    container_removed-Keeps node id = remove_container-Keeps out I sturdy-IsQuiet node id

  pub reset_heal-Keeps : (app : String) → Keeps I (modify (reset_heal app))
  reset_heal-Keeps app = record { from = λ v h. record { holds = sturdy.resets app v h } }

pub ruleset sturdy_rules = (
  keeps_rules, set_status-Keeps, update_replicas-Keeps, new_row-Keeps, call_router-Keeps,
  container_removed-Keeps, reset_heal-Keeps,
)
