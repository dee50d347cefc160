-- ===== src/Scheduler/Choice.antt =====
-- What `Place` chooses: a best node among those that may take the surface, or an error exactly if
-- there is none.
use lwd.Base.{
  &&_split, All, All-In, All-keep, Error, In, In-All, In-ne, List, String, [], ap, arith, eq_iff,
  err, errorf, false, keep, keep-All, keep-In, keep-nil, ok, refl, str, str_eq, subst, sym, true,
  ◌&&◌, ◌↔◌, ◌∙◌, ◌∷◌, ◌≡◌, ◌≢◌,
}
use lwd.Base.Sort.{All-sort_stable, sort_stable, sort_stable-cons, sort_stable-least}
use lwd.Scheduler.{
  Float64, NodeInfo, Requirements, default_pool, first_name, fits, in_pool, pick, place,
  ranks_before,
}
use lwd.Scheduler.Order.{ranks_before-IsWeakOrder, ranks_before-connex}

-- The node is in the pool and takes part in scheduling.
pub record IsOffered (pool : String) (c : NodeInfo) : Type 0 where
  pub up : c.reachable ≡ true
  pub open_to_work : c.schedulable ≡ true
  pub same_pool : c.pool ≡ default_pool pool

module _ (fl : Float64) where
  -- It is offered, and has room for a surface with these requirements.
  pub record IsCandidate (pool : String) (req : Requirements) (c : NodeInfo) : Type 0 where
    pub offered : IsOffered pool c
    pub has_room : fits fl req c ≡ true

  -- `c` is a candidate, and no candidate of the list ranks before it.
  pub record IsBest (nodes : List NodeInfo) (pool : String) (req : Requirements) (c : NodeInfo)
      : Type 0 where
    pub given : In c nodes
    pub suits : IsCandidate pool req c
    pub unbeaten :
        (d : NodeInfo) → In d nodes → IsCandidate pool req d → ranks_before fl d c ≡ false

in_pool_iff :
    (pool : String) (c : NodeInfo) → (in_pool (default_pool pool) c ≡ true) ↔ IsOffered pool c
unfolding in_pool
in_pool_iff pool c = (
  (λ e.
      let (u, f) = &&_split c.reachable (c.schedulable && str_eq c.pool (default_pool pool)) e in
      let (o, s) = &&_split c.schedulable (str_eq c.pool (default_pool pool)) f in
      record { up = u; open_to_work = o; same_pool = (eq_iff c.pool (default_pool pool)).0 s }),
  (λ s. rw (s.up, s.open_to_work) ((eq_iff c.pool (default_pool pool)).1 s.same_pool)),
)

module _ (fl : Float64) (nodes : List NodeInfo) (pool : String) (req : Requirements) where
  abbrev reached : List NodeInfo
  reached = keep (in_pool (default_pool pool)) nodes

  first_of :
      (p : String) (ys : List NodeInfo) (name : String)
      → first_name p req ys ≡ ok name
      → (c : NodeInfo) × (rest : List NodeInfo) × (ys ≡ c ∷ rest) × (c.name ≡ name)
  unfolding first_name
  first_of p [] name h = cc
  first_of p (c ∷ rest) name h = (c, rest, refl, ground (arith, h))

  picked_of :
      (p : String) (xs : List NodeInfo) (name : String)
      → pick fl p req xs ≡ ok name
      → (c : NodeInfo) × (rest : List NodeInfo) × (sort_stable
            (ranks_before fl)
            (keep (fits fl req) xs)
          ≡ c ∷ rest)
        × (c.name ≡ name)
  unfolding pick
  picked_of p [] name h = cc
  picked_of p (x ∷ xs) name h =
      first_of p (sort_stable (ranks_before fl) (keep (fits fl req) (x ∷ xs))) name h

  IsBest-of :
      (c : NodeInfo) (rest : List NodeInfo)
      → sort_stable (ranks_before fl) (keep (fits fl req) reached) ≡ c ∷ rest
      → IsBest fl nodes pool req c
  IsBest-of c rest e =
      let kept =
        All-keep (fits fl req) (λ x. In x nodes × (in_pool (default_pool pool) x ≡ true)) reached
          (All-keep (in_pool (default_pool pool)) (λ x. In x nodes) nodes
            (In-All nodes nodes (λ x i. i))) in
      let facts =
        (subst
          (All
            (λ x. (In x nodes × (in_pool (default_pool pool) x ≡ true)) × (fits fl req x ≡ true)))
          e
          (All-sort_stable (ranks_before fl)
            (λ x. (In x nodes × (in_pool (default_pool pool) x ≡ true)) × (fits fl req x ≡ true))
            (keep (fits fl req) reached) kept)).0 in
      let least =
        keep-All (in_pool (default_pool pool))
          (λ x. fits fl req x ≡ true → ranks_before fl x c ≡ false) nodes
          (keep-All (fits fl req) (λ x. ranks_before fl x c ≡ false) reached
            (sort_stable-least (ranks_before fl) (ranks_before-IsWeakOrder fl)
              (keep (fits fl req) reached) c rest e)) in
      record {
        given = facts.0.0;
        suits = record { offered = (in_pool_iff pool c).0 facts.0.1; has_room = facts.1 };
        unbeaten = λ d i s.
            All-In
              (λ x.
                in_pool (default_pool pool) x ≡ true
                → fits fl req x ≡ true
                → ranks_before fl x c ≡ false)
              i least ((in_pool_iff pool d).1 s.offered) s.has_room;
      }

  -- If `Place` returns a name, it is the name of one of the given nodes that is reachable,
  -- schedulable, in the pool and has room, and no other such node ranks before it.
  pub place-IsBest :
      (name : String)
      → place fl nodes pool req ≡ ok name
      → (c : NodeInfo) × (c.name ≡ name) × IsBest fl nodes pool req c
  unfolding place
  place-IsBest name h =
      let (c, rest, e, n) = picked_of (default_pool pool) reached name h in
      (c, n, IsBest-of c rest e)

first_ok :
    (p : String) (req : Requirements) (ys : List NodeInfo)
    → ys ≢ []
    → (name : String) × (first_name p req ys ≡ ok name)
unfolding first_name
first_ok p req [] h = absurd (h refl)
first_ok p req (y ∷ ys) h = (y.name, refl)

sorted_ne : (fl : Float64) (ys : List NodeInfo) → ys ≢ [] → sort_stable (ranks_before fl) ys ≢ []
sorted_ne fl [] h = absurd (h refl)
sorted_ne fl (y ∷ ys) h = sort_stable-cons (ranks_before fl) y ys

-- The search for a place fails only for want of a candidate.
module _ (fl : Float64) (nodes : List NodeInfo) (pool : String) (req : Requirements) where
  pick_ok :
      (p : String) (c : NodeInfo) (xs : List NodeInfo)
      → In c xs
      → fits fl req c ≡ true
      → (name : String) × (pick fl p req xs ≡ ok name)
  unfolding pick
  pick_ok p c [] i f = elim i [ ]
  pick_ok p c (x ∷ xs) i f =
      let kept = keep (fits fl req) (x ∷ xs) in
      first_ok p req (sort_stable (ranks_before fl) kept)
        (sorted_ne fl kept (In-ne (fits fl req) kept (keep-In (fits fl req) i f)))

  -- `Place` returns a name exactly if some given node is reachable, schedulable, in the pool and
  -- has room.
  pub place-exact :
      ((c : NodeInfo) × In c nodes × IsCandidate fl pool req c)
      ↔ ((name : String) × (place fl nodes pool req ≡ ok name))
  unfolding place
  place-exact = (
    (λ (c, i, s).
        pick_ok (default_pool pool) c (keep (in_pool (default_pool pool)) nodes)
          (keep-In (in_pool (default_pool pool)) i ((in_pool_iff pool c).1 s.offered)) s.has_room),
    (λ (name, h).
        let (c, n, best) = place-IsBest fl nodes pool req name h in (c, best.given, best.suits)),
  )

-- The error for a pool with no node to offer.
abbrev pub no_node : String → Error
no_node pool = errorf "no schedulable node in pool %q" (str pool ∷ [])

first_name-ne :
    (p q : String) (req : Requirements) (ys : List NodeInfo) → first_name p req ys ≢ err (no_node q)
unfolding first_name
first_name-ne p q req [] h = ground (
  arith,
  h,
  eq_iff "no node in pool %q has capacity (need cpu=%.2g memory=%d bytes)"
      "no schedulable node in pool %q",
)
first_name-ne p q req (y ∷ ys) h = cc

module _ (fl : Float64) (nodes : List NodeInfo) (pool : String) (req : Requirements) where
  pick-no_node : (p : String) (xs : List NodeInfo) → pick fl p req xs ≡ err (no_node p) → xs ≡ []
  unfolding pick
  pick-no_node p [] h = refl
  pick-no_node p (x ∷ xs) h =
      absurd (first_name-ne p p req (sort_stable (ranks_before fl) (keep (fits fl req) (x ∷ xs))) h)

  -- The error for a pool with no node to offer is returned exactly if no given node is reachable,
  -- schedulable and in the pool.
  pub place-no_node :
      (place fl nodes pool req ≡ err (no_node (default_pool pool)))
      ↔ ((c : NodeInfo) → In c nodes → ¬ IsOffered pool c)
  unfolding place pick
  place-no_node = (
    (λ h c i o.
        In-ne (in_pool (default_pool pool)) (keep (in_pool (default_pool pool)) nodes)
          (keep-In (in_pool (default_pool pool)) i ((in_pool_iff pool c).1 o))
          (pick-no_node (default_pool pool) (keep (in_pool (default_pool pool)) nodes) h)),
    (λ no. rw (
        keep-nil (in_pool (default_pool pool)) nodes (λ c i e. no c i ((in_pool_iff pool c).0 e)))),
  )

-- A list of the same nodes in another order gives the same choice.
pub place_same_nodes :
    (fl : Float64) (xs ys : List NodeInfo) (pool : String) (req : Requirements) (name : String)
    → ((c : NodeInfo) → In c xs ↔ In c ys)
    → place fl xs pool req ≡ ok name
    → place fl ys pool req ≡ ok name
place_same_nodes fl xs ys pool req name same h =
    let (c, n, best) = place-IsBest fl xs pool req name h in
    let (other, k) = (place-exact fl ys pool req).0 (c, (same c).0 best.given, best.suits) in
    let (d, m, least) = place-IsBest fl ys pool req other k in
    let agree =
      sym m
      ∙ sym (
          ranks_before-connex fl c d (least.unbeaten c ((same c).0 best.given) best.suits)
            (best.unbeaten d ((same d).1 least.given) least.suits))
      ∙ n in
    k ∙ ap ok agree
