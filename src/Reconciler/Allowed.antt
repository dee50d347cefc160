-- ===== src/Reconciler/Allowed.antt =====
-- The nodes that placement may choose.
use lwd.Base.{
  &&_split, All, All-In, All-append, Error, In, List, Option, Result, String, [], ap, arith, err,
  false, here, inl, inr, none, not, ok, refl, some, str_eq, subst, sym, there, true, ||_false, ◌&&◌,
  ◌||◌, ◌∙◌, ◌∷◌, ◌≡◌, ◌⊎◌,
}
use lwd.Store.{NodeRow, list_nodes}
use lwd.Reconciler.World.{Meta, Outside, World, answered, attempt, is_reachable, query, read_of}
use lwd.Reconciler.Rules.{Outcome, Runs, Runs-bind, Runs-both, Runs-weaken}
use lwd.Reconciler.Yields.{Yields, Yields-bind, Yields-if, Yields-pure, Yields-then}
use lwd.Reconciler.Placement.{
  excludes, local_candidates, local_of, measure, measured, node_info, node_infos, or_zero,
  place_excluding_set, pool_of, resolved, schedulable_candidates,
}
use lwd.Spec.{App}
use lwd.Reconciler.Questions.{local_candidates-Keeps}
use lwd.Scheduler.Choice.{place-IsBest}
use lwd.Scheduler.{Capacity, NodeInfo, Requirements, place}

-- The candidate stands for this row.
abbrev IsOf : NodeRow → NodeInfo → Type 0
IsOf n c = (n.name ≡ c.name) × (n.schedulable ≡ c.schedulable)

-- It is not excluded, and is the local node or stands for one of the rows.
abbrev IsAllowed : List String → List NodeRow → NodeInfo → Type 0
IsAllowed ex ns c =
    (excludes ex c.name ≡ false) × ((c.name ≡ "local") ⊎ ((n : NodeRow) × In n ns × IsOf n c))

widen :
    (ex : List String) (ns ms : List NodeRow)
    → ((n : NodeRow) → In n ns → In n ms)
    → (cs : List NodeInfo) → All (IsAllowed ex ns) cs
    → All (IsAllowed ex ms) cs
widen ex ns ms k [] h = tt
widen ex ns ms k (c ∷ cs) ((e, inl l), h) = ((e, inl l), widen ex ns ms k cs h)
widen ex ns ms k (c ∷ cs) ((e, inr (m, i, s)), h) = ((e, inr (m, k m i, s)), widen ex ns ms k cs h)

module _ (out : Outside) where
  measured-Yields : (n : NodeRow) (c : Result Capacity) → IsOf n (measured out n c)
  measured-Yields n (ok c) = (refl, refl)
  measured-Yields n (err e) = (refl, refl)

  resolved-Yields : (n : NodeRow) (r : Result Meta) → Yields (IsOf n) (resolved out n r)
  resolved-Yields n (err e) = Yields-pure (IsOf n) _ (refl, refl)
  resolved-Yields n (ok m) =
      Yields-then (IsOf n) _ _ λ c. Yields-pure (IsOf n) _ (measured-Yields n c)

  node_info-Yields : (n : NodeRow) → Yields (IsOf n) (node_info out n)
  unfolding node_info
  node_info-Yields n = Yields-then (IsOf n) (is_reachable out n.name) _ λ up.
      Yields-if (IsOf n) up (measure out n) _ (λ _. Yields-then (IsOf n) _ _ (resolved-Yields n))
        (λ _. Yields-pure (IsOf n) _ (refl, refl))

  node_infos-Yields :
      (pool : String) (ex : List String) (ns : List NodeRow)
      → Yields (All (IsAllowed ex ns)) (node_infos out pool ex ns)
  unfolding node_infos
  node_infos-Yields pool ex [] = Yields-pure (All (IsAllowed ex [])) [] tt
  node_infos-Yields pool ex (n ∷ ns) =
      let Goal : List NodeInfo → Type 0 = All (IsAllowed ex (n ∷ ns)) in
      let ih = node_infos-Yields pool ex ns in
      Yields-if Goal (not (str_eq n.pool pool) || excludes ex n.name) (node_infos out pool ex ns) _
        (λ _. record {
          gives = λ v.
              Runs-weaken (λ cs _. All (IsAllowed ex ns) cs) (λ cs _. Goal cs) (λ _ _. Unit {0})
                (λ _ _. Unit {0}) (node_infos out pool ex ns) v (ih.gives v)
                (λ cs u h. widen ex ns (n ∷ ns) (λ m i. there i) cs h) (λ e u h. tt);
        })
        (λ open_to.
          let out_of = (||_false (not (str_eq n.pool pool)) (excludes ex n.name) open_to).1 in
          Yields-bind (IsOf n) Goal (node_info out n) _ (node_info-Yields n) λ c (same, sched).
            Yields-bind (All (IsAllowed ex ns)) Goal (node_infos out pool ex ns) _ ih λ cs h.
              Yields-pure Goal (c ∷ cs) (
                (rw (← same) out_of, inr (n, here, (same, sched))),
                widen ex ns (n ∷ ns) (λ m i. there i) cs h,
              ))

  local_of-Yields :
      (ex : List String) (ns : List NodeRow) (r : Result Meta)
      → excludes ex "local" ≡ false
      → Yields (All (IsAllowed ex ns)) (local_of out r)
  local_of-Yields ex ns (err e) h = Yields-pure (All (IsAllowed ex ns)) [] tt
  local_of-Yields ex ns (ok m) h =
      Yields-then (All (IsAllowed ex ns)) _ _
        λ c. Yields-pure (All (IsAllowed ex ns)) _ ((h, inl refl), tt)

  local_candidates-Yields :
      (pool : String) (ex : List String) (ns : List NodeRow)
      → Yields (All (IsAllowed ex ns)) (local_candidates out pool ex)
  unfolding local_candidates
  local_candidates-Yields pool ex ns =
      Yields-if (All (IsAllowed ex ns)) (str_eq pool "default" && not (excludes ex "local")) _ _
        (λ open_to.
          let free = (&&_split (str_eq pool "default") (not (excludes ex "local")) open_to).1 in
          Yields-then (All (IsAllowed ex ns)) _ _
            λ r. local_of-Yields ex ns r (ground (arith, free)))
        (λ _. Yields-pure (All (IsAllowed ex ns)) [] tt)

  abbrev Nothing : Error → World → Type 0
  Nothing e u = Unit {0}

  -- The rows that a query gave, or none if it failed, are all in the list.
  abbrev Among : List NodeRow → Result (List NodeRow) → Type 0
  Among ns r = (n : NodeRow) → In n (or_zero [] r) → In n ns

  Among-of :
      (w v : World)
      → v.store ≡ w.store
      → (e : Option Error)
      → Outcome
          (λ r _. Among (list_nodes w.store) r)
          Nothing
          (answered (read_of out list_nodes v e))
  Among-of w v same none n i = subst (λ s. In n (list_nodes s)) same i
  Among-of w v same (some e) n i = elim i [ ]

  rows-Runs :
      (w v : World)
      → v.store ≡ w.store
      → Runs (λ r _. Among (list_nodes w.store) r) Nothing (attempt (query out list_nodes)) v
  unfolding attempt query
  rows-Runs w v same = record { holds = Among-of w v same (out.db_error v.tick) }

  candidates-Runs :
      (app : App) (ex : List String) (w : World)
      → Runs
          (λ cs _. All (IsAllowed ex (list_nodes w.store)) cs)
          Nothing
          (schedulable_candidates out app ex)
          w
  unfolding schedulable_candidates
  candidates-Runs app ex w =
      let Good : List NodeInfo → Type 0 = All (IsAllowed ex (list_nodes w.store)) in
      let Same : World → Type 0 = λ v. v.store ≡ w.store in
      let near_y = local_candidates-Yields (pool_of app) ex (list_nodes w.store) in
      let near_k = local_candidates-Keeps out Same (λ v t h. h) (pool_of app) ex in
      Runs-bind (λ cs v. Good cs × Same v) Nothing (λ cs _. Good cs) _ _ w
        (Runs-weaken (λ cs v. Good cs × Same v) (λ cs v. Good cs × Same v)
          (λ e v. Unit {0} × Same v) Nothing _ w
          (Runs-both (λ cs _. Good cs) (λ _ v. Same v) (λ _ _. Unit {0}) (λ _ v. Same v) _ w
            (near_y.gives w) (near_k.from w refl))
          (λ a u j. j) (λ e u j. tt))
        λ near v (good, same).
          Runs-bind (λ r _. Among (list_nodes w.store) r) Nothing (λ cs _. Good cs) _ _ v
            (rows-Runs w v same)
            λ r v₁ among.
              let far_y = node_infos-Yields (pool_of app) ex (or_zero [] r) in
              Runs-bind (λ cs _. All (IsAllowed ex (or_zero [] r)) cs) Nothing (λ cs _. Good cs) _ _
                v₁ (far_y.gives v₁)
                λ far v₂ h. record {
                  holds =
                      All-append (IsAllowed ex (list_nodes w.store)) near far good
                        (widen ex (or_zero [] r) (list_nodes w.store) among far h);
                }

  -- What is said of a name that placement returned.
  abbrev pub IsAllowedName : List String → List NodeRow → String → Type 0
  IsAllowedName ex ns name =
      (excludes ex name ≡ false)
      × ((name ≡ "local") ⊎ ((n : NodeRow) × In n ns × (n.name ≡ name) × (n.schedulable ≡ true)))

  named :
      (ex : List String) (ns : List NodeRow) (c : NodeInfo) (name : String)
      → c.name ≡ name
      → c.schedulable ≡ true
      → IsAllowed ex ns c
      → IsAllowedName ex ns name
  named ex ns c name same up (e, inl l) = (ap (excludes ex) (sym same) ∙ e, inl (sym same ∙ l))
  named ex ns c name same up (e, inr (n, i, (m, s))) =
      (ap (excludes ex) (sym same) ∙ e, inr (n, i, m ∙ same, s ∙ up))

  chosen_of :
      (app : App) (ex : List String) (ns : List NodeRow) (cs : List NodeInfo) (u : World)
      (req : Requirements) (r : Result String)
      → All (IsAllowed ex ns) cs
      → place out.float cs (pool_of app) req ≡ r
      → Outcome (λ name _. IsAllowedName ex ns name) Nothing (r, u)
  chosen_of app ex ns cs u req (err e) h k = tt
  chosen_of app ex ns cs u req (ok name) h k =
      let (c, same, best) = place-IsBest out.float cs (pool_of app) req name k in
      named ex ns c name same best.suits.offered.open_to_work
        (All-In (IsAllowed ex ns) best.given h)

  pub place-Runs :
      (app : App) (ex : List String) (w : World)
      → Runs
          (λ name _. IsAllowedName ex (list_nodes w.store) name)
          Nothing
          (place_excluding_set out app ex)
          w
  unfolding place_excluding_set
  place-Runs app ex w =
      Runs-bind (λ cs _. All (IsAllowed ex (list_nodes w.store)) cs) Nothing
        (λ name _. IsAllowedName ex (list_nodes w.store) name) _ _ w (candidates-Runs app ex w)
        λ cs u h. record { holds = chosen_of app ex (list_nodes w.store) cs u _ _ h refl }

-- If a node is placed for a surface, then it is not an excluded one, and it is the local node or a
-- registered node that is not cordoned.
pub place_excluding_set-allowed :
    (out : Outside) (app : App) (ex : List String) (w : World) (name : String) (u : World)
    → place_excluding_set out app ex w ≡ (ok name, u)
    → (excludes ex name ≡ false)
      × ((name ≡ "local")
          ⊎ ((n : NodeRow) × In n (list_nodes w.store) × (n.name ≡ name) × (n.schedulable ≡ true)))
place_excluding_set-allowed out app ex w name u h =
    subst (Outcome (λ x _. IsAllowedName out ex (list_nodes w.store) x) (Nothing out)) h
      (place-Runs out app ex w).holds
