-- ===== src/Reconciler/Success.antt =====
-- What a deploy that returns has done.
use lwd.Base.{
  Error, List, Option, Result, String, [], ap, arith, eq_iff, err, length, map, none, ok, refl,
  some, suc, true, ℕ, ◌∙◌, ◌∷◌, ◌≡◌,
}
use lwd.Reconciler.World.{
  M, Meta, Outside, World, after_failure, continue, exec, gets, modify, pure, routed, stored,
  wrapped, wrapping, ◌>>=◌, ◌>>◌,
}
use lwd.Reconciler.Rules.{Outcome, Runs, Runs-bind, Runs-weaken}
use lwd.Reconciler.Keeps.{Keeps, Keeps-ask, Keeps-bind, Keeps-ignore, Keeps-pure, keeps_rules}
use lwd.Reconciler.Untouched.{IsQuiet, remove_container-Keeps, remove_staging-Keeps}
use lwd.Store.{
  Deployment, Replica, current_deployment, is_app, record_deployment, retired, running, set_status,
}
use lwd.Reconciler.Rollout.{
  Rollout, Started, count_of, first_id, reset_heal, set_of, staging_host, upstream_of,
}
use lwd.Store.History.{IsHistory, record_deployment-IsHistory, set_status-IsHistory}
use lwd.Reconciler.Retire.{
  old_replicas, remove_resolved, retire_found, retire_old_set, retire_replica, retire_replicas,
}
use lwd.Router.{Route, find_route, set_route, use_internal_tls}
use lwd.Router.Tables.{find-put}
use lwd.Store.Current.{latest_head}
use lwd.Reconciler.Deploy.{insert_row, record_live}
use lwd.Reconciler.Yields.{IsPaired}

-- The old set's removal keeps what a quiet invariant keeps, if a retirement keeps it.
module _ (out : Outside) (I : World → Type 0) (quiet : IsQuiet I)
    (retires : (v : World) (i : ℕ)
      → I v
      → I (record v { store = set_status i retired v.store })) where
  removed-Keeps : (name id : String) (r : Result Meta) → Keeps I (remove_resolved out name id r)
  removed-Keeps name id (ok m) = Keeps-ignore I _ (remove_container-Keeps out I quiet name id)
  removed-Keeps name id (err e) = Keeps-pure I tt

  retire_replica-Keeps : (r : Replica) → Keeps I (retire_replica out r)
  retire_replica-Keeps r = search (keeps_rules, removed-Keeps, quiet.ticks)

  retire_replicas-Keeps : (rs : List Replica) → Keeps I (retire_replicas out rs)
  unfolding retire_replicas
  retire_replicas-Keeps [] = Keeps-pure I tt
  retire_replicas-Keeps (r ∷ rs) =
      Keeps-bind I (retire_replica out r) _ (retire_replica-Keeps r) λ _. retire_replicas-Keeps rs

  status-I :
      (i : ℕ) (v : World) (e : Option Error)
      → I v
      → Outcome (λ _ u. I u) (λ _ u. I u) (stored (set_status i retired) v e)
  status-I i v none h =
      quiet.ticks (record v { store = set_status i retired v.store }) (suc v.tick) (retires v i h)
  status-I i v (some e) h = quiet.ticks v (suc v.tick) h

  set_status-Keeps : (i : ℕ) → Keeps I (exec out (set_status i retired))
  unfolding exec
  set_status-Keeps i = record {
    from = λ v h. record { holds = status-I i v (out.db_error v.tick) h };
  }

  retire_found-Keeps : (r : Result (Option Deployment)) → Keeps I (retire_found out r)
  retire_found-Keeps (err e) = Keeps-pure I tt
  retire_found-Keeps (ok none) = Keeps-pure I tt
  retire_found-Keeps (ok (some prev)) =
      Keeps-bind I _ _ (retire_replicas-Keeps (old_replicas out prev))
        λ _. Keeps-ignore I _ (set_status-Keeps prev.id)

  retire_old_set-Keeps : (app : String) → Keeps I (retire_old_set out app)
  unfolding retire_old_set
  retire_old_set-Keeps app = search (keeps_rules, retire_found-Keeps, quiet.ticks)

abbrev pub Ordered : World → Type 0
Ordered v = IsHistory v.store

pub Ordered-IsQuiet : IsQuiet Ordered
Ordered-IsQuiet = record {
  ticks = λ v t h. h;
  logs = λ v l h. h;
  staging = λ v c k h. h;
  failed_row = λ d v f h. record_deployment-IsHistory d v.store h;
}

-- The history is in order, and the domain has the route.
abbrev pub Routed : String → Route → World → Type 0
Routed d r v = IsHistory v.store × (find_route d v.router.routes ≡ some r)

Routed-IsQuiet : (d : String) (r : Route) → IsQuiet (Routed d r)
Routed-IsQuiet d r = record {
  ticks = λ v t h. h;
  logs = λ v l h. h;
  staging = λ v c k (h, f). (h, ap (find_route d) k ∙ f);
  failed_row = λ e v f (h, g). (record_deployment-IsHistory e v.store h, g);
}

module _ (out : Outside) (q : Rollout) where
  abbrev pub live_route : Started → Route
  live_route st = record {
    domain = q.app.domain;
    upstreams = st.upstreams;
    tls_internal = use_internal_tls q.app.domain;
  }

  abbrev pub Nothing : Error → World → Type 0
  Nothing e u = Unit {0}

  pub flip_of :
      (st : Started) (v : World) (e : Option Error)
      → Ordered v
      → Outcome
          (λ _ u. Routed q.app.domain (live_route st) u)
          Nothing
          (routed v (set_route (live_route st) e v.router))
  unfolding set_route
  flip_of st v none h = (
    h,
    find-put q.app.domain q.app.domain (live_route st) v.router.routes
        ∙ ground (arith, eq_iff q.app.domain q.app.domain),
  )
  flip_of st v (some e) h = tt

  pub passed :
      {A : Type 0} (P : A → World → Type 0) (f : String) (undo : M (Unit {0}))
      (x : Result A × World)
      → Outcome P Nothing x
      → Outcome P Nothing (after_failure undo (wrapped f [] x))
  passed P f undo (ok a, u) h = h
  passed P f undo (err e, u) h = tt

  -- The row of the new set is the app's current deployment.
  abbrev IsCurrent : Started → Deployment → World → Type 0
  IsCurrent st d u =
      (current_deployment q.app.name u.store ≡ some d)
      × (find_route q.app.domain u.router.routes ≡ some (live_route st))

  inserted_of :
      (st : Started) (d : Deployment) (v : World) (e : Option Error)
      → is_app q.app.name running d ≡ true
      → Routed q.app.domain (live_route st) v
      → Outcome
          (λ n u. IsCurrent st (record d { id = n }) u)
          Nothing
          (continue
            (λ _. gets (λ u. u.store.last_id))
            (stored (λ s. (record_deployment d s).0) v e))
  unfolding record_deployment current_deployment
  inserted_of st d v none starts (h, f) = (
    latest_head (is_app q.app.name running) (record d { id = suc v.store.last_id })
        v.store.deployments (record_deployment-IsHistory d v.store h).descending starts,
    f,
  )
  inserted_of st d v (some e) starts h = tt

  wrapped_of :
      {A : Type 0} (P : A → World → Type 0) (f : String) (x : Result A × World)
      → Outcome P Nothing x
      → Outcome P Nothing (wrapped f [] x)
  wrapped_of P f (ok a, u) h = h
  wrapped_of P f (err e, u) h = tt

  insert-Runs :
      (st : Started) (d : Deployment) (v : World)
      → is_app q.app.name running d ≡ true
      → Routed q.app.domain (live_route st) v
      → Runs
          (λ n u. IsCurrent st (record d { id = n }) u)
          Nothing
          (wrapping "record deployment: %w" [] (insert_row out d))
          v
  unfolding wrapping insert_row exec ◌>>=◌
  insert-Runs st d v starts h = record {
    holds =
        wrapped_of (λ n u. IsCurrent st (record d { id = n }) u) "record deployment: %w" _
          (inserted_of st d v (out.db_error v.tick) starts h);
  }

  -- The returned row is the app's current deployment and has as many replicas as the app asks for, the
  -- domain's route is to exactly their upstreams, and nothing is left of earlier heals.
  pub record IsLive (d : Deployment) (u : World) : Type 0 where
    pub current : current_deployment q.app.name u.store ≡ some d
    pub route :
        find_route q.app.domain u.router.routes
        ≡ some (record {
          domain = q.app.domain;
          upstreams = map upstream_of d.replicas;
          tls_internal = use_internal_tls q.app.domain;
        })
    pub replicas : length d.replicas ≡ count_of q.app
    pub healed : u.heal q.app.name ≡ none

  finish-Runs :
      (st : Started) (d : Deployment) (u : World)
      → IsCurrent st d u
      → IsPaired (count_of q.app) st
      → d.replicas ≡ st.replicas
      → Runs IsLive Nothing (modify (reset_heal q.app.name) >> pure d) u
  unfolding ◌>>=◌ reset_heal
  finish-Runs st d u (cur, route) (ups, len) same = record {
    holds = record {
      current = cur;
      route = rw (same, ← ups) route;
      replicas = rw same len;
      healed = ground (arith, eq_iff q.app.name q.app.name);
    };
  }

  pub kept :
      {A : Type 0} (K : World → Type 0) (m : M A) (v : World)
      → K v
      → Keeps K m
      → Runs (λ _ u. K u) Nothing m v
  kept K m v h k =
      Runs-weaken (λ _ u. K u) (λ _ u. K u) (λ _ u. K u) Nothing m v (k.from v h) (λ a u j. j)
        (λ e u j. tt)

  pub record_live-Runs :
      (id : ℕ) (st : Started) (v : World)
      → IsPaired (count_of q.app) st
      → Routed q.app.domain (live_route st) v
      → Runs IsLive Nothing (record_live out q id st) v
  unfolding record_live
  record_live-Runs id st v pair h =
      let K : World → Type 0 = Routed q.app.domain (live_route st) in
      let quiet = Routed-IsQuiet q.app.domain (live_route st) in
      Runs-bind (λ _ u. K u) Nothing IsLive _ _ v
        (kept K _ v h (Keeps-ignore K _ (remove_staging-Keeps out K quiet (staging_host id))))
        λ _ v₁ h₁.
          Runs-bind (λ _ u. K u) Nothing IsLive _ _ v₁
            (kept K _ v₁ h₁ (
              retire_old_set-Keeps out K quiet
                (λ w i (o, f). (set_status-IsHistory i retired w.store o, f)) q.app.name))
            λ _ v₂ h₂.
              Runs-bind (λ _ u. K u) Nothing IsLive _ _ v₂
                (kept K _ v₂ h₂ (Keeps-ask K quiet.ticks out.now))
                λ now v₃ h₃.
                  let dep = set_of q (first_id st.containers) running now st.replicas in
                  Runs-bind (λ n u. IsCurrent st (record dep { id = n }) u) Nothing IsLive _ _ v₃
                    (insert-Runs st dep v₃ (ground (arith, eq_iff q.app.name q.app.name)) h₃)
                    λ n u cur. finish-Runs st (record dep { id = n }) u cur pair refl
