-- ===== src/Reconciler/Untouched.antt =====
-- What a step of a deploy that does not go live leaves untouched.
use lwd.Base.{Error, List, Option, Result, String, [], err, none, ok, refl, some, suc, ℕ, ◌∷◌, ◌≡◌}
use lwd.Reconciler.World.{
  Container, Effect, Outside, RunSpec, World, call_router, exec, failing, ignore, ran, ran_on,
  remove_container, removed, run_container, stored,
}
use lwd.Reconciler.Rules.{Outcome}
use lwd.Reconciler.Keeps.{Keeps, Keeps-bind, Keeps-ignore, answer-I, keeps_rules}
use lwd.Reconciler.Deploy.{insert_row, remove_all}
use lwd.Router.{Router, Upstream, commit, remove_staging, set_staging}
use lwd.Store.{Deployment, failed, record_deployment}
use lwd.Reconciler.Rollout.{Target}

-- The invariant does not read the tick, the log or the staging routes, and a failed attempt's row
-- keeps it.
pub record IsQuiet (I : World → Type 0) : Type 0 where
  pub ticks : (v : World) (t : ℕ) → I v → I (record v { tick = t })
  pub logs : (v : World) (l : List Effect) → I v → I (record v { log = l })
  pub staging :
      (v : World) (c : Router) → c.routes ≡ v.router.routes → I v → I (record v { router = c })
  pub failed_row :
      (d : Deployment) (v : World)
      → d.status ≡ failed
      → I v
      → I (record v { store = (record_deployment d v.store).0 })

module _ (out : Outside) (I : World → Type 0) (quiet : IsQuiet I) where
  run-I :
      (node : String) (v : World) (r : Result Container)
      → I v
      → Outcome (λ _ u. I u) (λ _ u. I u) (ran_on out node v r)
  run-I node v (ok c) h =
      quiet.ticks (record v { log = ran node c.id ∷ v.log }) (suc v.tick)
        (quiet.logs v (ran node c.id ∷ v.log) h)
  run-I node v (err e) h = quiet.ticks v (suc v.tick) h

  pub run_container-Keeps : (node : String) (s : RunSpec) → Keeps I (run_container out node s)
  unfolding run_container
  run_container-Keeps node s = record {
    from = λ v h. record { holds = run-I node v (out.run_container v.tick node s) h };
  }

  pub remove_container-Keeps : (node id : String) → Keeps I (remove_container out node id)
  unfolding remove_container
  remove_container-Keeps node id = record {
    from = λ v h. record {
      holds = answer-I I quiet.ticks (failing (out.remove_error v.tick node id)) _ (
          quiet.ticks (record v { log = removed node id ∷ v.log }) (suc v.tick)
            (quiet.logs v (removed node id ∷ v.log) h));
    };
  }

  -- A change of the staging routes only.
  router-Keeps :
      (f : Option Error → Router → Router × Option Error)
      → ((e : Option Error) (c : Router) → (f e c).0.routes ≡ c.routes)
      → Keeps I (call_router out f)
  unfolding call_router
  router-Keeps f k = record {
    from = λ v h. record {
      holds = answer-I I quiet.ticks (failing (f (out.caddy_error v.tick) v.router).1) _ (
          quiet.ticks (record v { router = (f (out.caddy_error v.tick) v.router).0 }) (suc v.tick)
            (quiet.staging v (f (out.caddy_error v.tick) v.router).0
              (k (out.caddy_error v.tick) v.router) h));
    };
  }

  commit-routes :
      (e : Option Error) (d c : Router) → d.routes ≡ c.routes → (commit e d c).0.routes ≡ c.routes
  commit-routes none d c h = h
  commit-routes (some x) d c h = refl

  pub set_staging-Keeps :
      (host : String) (ups : List Upstream) → Keeps I (call_router out (set_staging host ups))
  unfolding set_staging
  set_staging-Keeps host ups = router-Keeps (set_staging host ups) λ e c. commit-routes e _ c refl

  pub remove_staging-Keeps : (host : String) → Keeps I (call_router out (remove_staging host))
  unfolding remove_staging
  remove_staging-Keeps host = router-Keeps (remove_staging host) λ e c. commit-routes e _ c refl

  stored-I :
      (d : Deployment)
      → d.status ≡ failed
      → (v : World) (e : Option Error) → I v
      → Outcome (λ _ u. I u) (λ _ u. I u) (stored (λ s. (record_deployment d s).0) v e)
  unfolding record_deployment
  stored-I d f v none h =
      quiet.ticks (record v { store = (record_deployment d v.store).0 }) (suc v.tick)
        (quiet.failed_row d v f h)
  stored-I d f v (some e) h = quiet.ticks v (suc v.tick) h

  record_failed-Keeps :
      (d : Deployment) → d.status ≡ failed → Keeps I (exec out (λ s. (record_deployment d s).0))
  unfolding exec
  record_failed-Keeps d f = record {
    from = λ v h. record { holds = stored-I d f v (out.db_error v.tick) h };
  }

  pub insert_row-Keeps : (d : Deployment) → d.status ≡ failed → Keeps I (insert_row out d)
  unfolding insert_row
  insert_row-Keeps d f = search (keeps_rules, record_failed-Keeps)

  pub remove_all-Keeps : (ts : List Target) (cs : List Container) → Keeps I (remove_all out ts cs)
  unfolding remove_all
  remove_all-Keeps [] cs = search keeps_rules
  remove_all-Keeps (t ∷ ts) [] = search keeps_rules
  remove_all-Keeps (t ∷ ts) (c ∷ cs) =
      Keeps-bind I (ignore (remove_container out t.name c.id)) (λ _. remove_all out ts cs)
        (Keeps-ignore I (remove_container out t.name c.id) (remove_container-Keeps t.name c.id))
        (λ _. remove_all-Keeps ts cs)
