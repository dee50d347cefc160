-- ===== src/Reconciler/Served.antt =====
-- The local node takes every surface that asks for nothing.
use lwd.Base.{
  Error, In, IsOk, List, Result, String, [], arith, err, false, here, none, not, ok, pos, refl,
  str_eq, suc, there, true, ℕ, ◌++◌, ◌||◌, ◌∷◌, ◌≡◌,
}
use lwd.Reconciler.World.{Meta, Outside, World, ask_result, attempt, query, ◌>>=◌}
use lwd.Reconciler.Rules.{Outcome, Runs, Runs-bind}
use lwd.Reconciler.Fails.{
  Fails, Fails-attempt, Fails-bind, Fails-if, Fails-is_reachable, Fails-pure,
}
use lwd.Reconciler.Placement.{
  excludes, local_candidates, local_info, local_of, node_info, node_infos, or_zero,
  place_excluding_set, pool_of, req_cpu, req_mem, resolved, schedulable_candidates,
}
use lwd.Scheduler.{Capacity, NodeInfo, default_pool, fits, place, requirements}
use lwd.Spec.{App}
use lwd.Store.{NodeRow, list_nodes}
use lwd.Scheduler.Choice.{place-exact}

abbrev Never : Error → Type 0
Never e = ⊥

abbrev OffersLocal : List NodeInfo → Type 0
OffersLocal cs = (cap : Capacity) × In (local_info cap) cs

In-left : {A : Type 0} {x : A} (xs ys : List A) → In x xs → In x (xs ++ ys)
In-left [] ys i = elim i [ ]
In-left (y ∷ xs) ys here = here
In-left (y ∷ xs) ys (there i) = there (In-left xs ys i)

module _ (out : Outside) where
  local_of-Runs :
      (r : Result Meta) (v : World)
      → IsOk r
      → Runs (λ cs _. OffersLocal cs) (λ e _. Never e) (local_of out r) v
  unfolding ◌>>=◌ attempt
  local_of-Runs (ok m) v h = record { holds = (_, here) }
  local_of-Runs (err e) v h = absurd h

  local-Runs :
      (ex : List String) (v : World)
      → excludes ex "local" ≡ false
      → ((t : ℕ) → IsOk (out.resolve_meta t "local"))
      → Runs (λ cs _. OffersLocal cs) (λ e _. Never e) (local_candidates out "default" ex) v
  unfolding local_candidates ◌>>=◌ attempt ask_result
  local-Runs ex v free resolves = rw free (record {
    holds =
        (local_of-Runs (out.resolve_meta v.tick "local") (record v { tick = suc v.tick })
          (resolves v.tick)).holds;
  })

  measured-Never : (n : NodeRow) (r : Result Meta) → Fails Never (resolved out n r)
  measured-Never n (ok m) = Fails-bind Never _ _ (Fails-attempt Never _) λ c. Fails-pure Never _
  measured-Never n (err e) = Fails-pure Never _

  node_info-Never : (n : NodeRow) → Fails Never (node_info out n)
  unfolding node_info
  node_info-Never n = Fails-bind Never _ _ (Fails-is_reachable Never out n.name) λ up.
      Fails-if Never up _ _ (Fails-bind Never _ _ (Fails-attempt Never _) λ r. measured-Never n r)
        (Fails-pure Never _)

  node_infos-Never :
      (pool : String) (ex : List String) (ns : List NodeRow)
      → Fails Never (node_infos out pool ex ns)
  unfolding node_infos
  node_infos-Never pool ex [] = Fails-pure Never []
  node_infos-Never pool ex (n ∷ ns) =
      Fails-if Never (not (str_eq n.pool pool) || excludes ex n.name) (node_infos out pool ex ns) _
        (node_infos-Never pool ex ns)
        (Fails-bind Never _ _ (node_info-Never n)
          λ c. Fails-bind Never _ _ (node_infos-Never pool ex ns) λ cs. Fails-pure Never _)

  candidates-Runs :
      (app : App) (ex : List String) (w : World)
      → pool_of app ≡ "default"
      → excludes ex "local" ≡ false
      → ((t : ℕ) → IsOk (out.resolve_meta t "local"))
      → Runs (λ cs _. OffersLocal cs) (λ e _. Never e) (schedulable_candidates out app ex) w
  unfolding schedulable_candidates
  candidates-Runs app ex w pool free resolves =
      Runs-bind (λ cs _. OffersLocal cs) (λ e _. Never e) (λ cs _. OffersLocal cs) _ _ w
        (rw pool (local-Runs ex w free resolves))
        λ near v (cap, i).
          Runs-bind (λ _ _. Unit {0}) (λ e _. Never e) (λ cs _. OffersLocal cs) _ _ v
            ((Fails-attempt Never (query out list_nodes)).only v)
            λ nodes v₁ _.
              Runs-bind (λ _ _. Unit {0}) (λ e _. Never e) (λ cs _. OffersLocal cs) _ _ v₁
                ((node_infos-Never (pool_of app) ex (or_zero [] nodes)).only v₁)
                λ far v₂ _. record { holds = (cap, In-left near far i) }

  no_needs :
      (app : App)
      → app.requirements ≡ none
      → (req_cpu app ≡ pos 0) × (req_mem out.float app ≡ pos 0)
  unfolding req_cpu req_mem
  no_needs app h = (rw h refl, rw h refl)

  always_fits : (c : NodeInfo) → fits out.float (requirements (pos 0) (pos 0)) c ≡ true
  unfolding fits
  always_fits c = ground arith

  local_taken :
      (cs : List NodeInfo) (pool : String)
      → pool ≡ "default"
      → OffersLocal cs
      → (name : String) × (place out.float cs pool (requirements (pos 0) (pos 0)) ≡ ok name)
  unfolding default_pool
  local_taken cs pool e (cap, i) =
      (place-exact out.float cs pool (requirements (pos 0) (pos 0))).0 (
        local_info cap,
        i,
        record {
          offered = record { up = refl; open_to_work = refl; same_pool = rw e refl };
          has_room = always_fits (local_info cap);
        },
      )

  placed_of :
      (r : Result String) (u : World)
      → (name : String) × (r ≡ ok name)
      → Outcome (λ _ _. Unit {0}) (λ e _. Never e) (r, u)
  placed_of (ok name) u h = tt
  placed_of (err e) u (name, h) = absurd (ground (arith, h))

  served-Runs :
      (app : App) (ex : List String) (w : World)
      → pool_of app ≡ "default"
      → app.requirements ≡ none
      → excludes ex "local" ≡ false
      → ((t : ℕ) → IsOk (out.resolve_meta t "local"))
      → Runs (λ _ _. Unit {0}) (λ e _. Never e) (place_excluding_set out app ex) w
  unfolding place_excluding_set
  served-Runs app ex w pool plain free resolves =
      Runs-bind (λ cs _. OffersLocal cs) (λ e _. Never e) (λ _ _. Unit {0}) _ _ w
        (candidates-Runs app ex w pool free resolves)
        λ cs v local. record {
          holds = placed_of _ v (
              rw ((no_needs app plain).0, (no_needs app plain).1)
                (local_taken cs (pool_of app) pool local));
        }

  returned :
      {A : Type 0} (x : Result A × World)
      → Outcome (λ _ _. Unit {0}) (λ e _. Never e) x
      → (a : A) × (u : World) × (x ≡ (ok a, u))
  returned (ok a, u) h = (a, u, refl)
  returned (err e, u) h = absurd h

  -- A surface of the default pool without requirements is always placed if the local node resolves
  -- and is not excluded, whatever the database, the other nodes and the capacities answer.
  pub place_excluding_set-served :
      (app : App) (ex : List String) (w : World)
      → pool_of app ≡ "default"
      → app.requirements ≡ none
      → excludes ex "local" ≡ false
      → ((t : ℕ) → IsOk (out.resolve_meta t "local"))
      → (name : String) × (u : World) × (place_excluding_set out app ex w ≡ (ok name, u))
  place_excluding_set-served app ex w pool plain free resolves =
      returned (place_excluding_set out app ex w)
        (served-Runs app ex w pool plain free resolves).holds
