-- ===== src/Reconciler/Placement.antt =====
-- internal/reconciler/schedule.go: the node that a surface, or each of its replicas, is put on.
-- `capacityBounded` is the question `capacity`, whose error stands for its timeout too.
use lwd.Base.{
  Bool, Float64, List, Result, String, [], err, false, if◌then◌else◌, ltb_ℤ, none, not, ok, pos,
  pos_part, some, str_eq, suc, true, zero, ℕ, ℤ, ◌&&◌, ◌++◌, ◌-◌, ◌||◌, ◌∷◌,
}
use lwd.Scheduler.{Capacity, NodeInfo, no_capacity, place, requirements}
use lwd.Spec.{App}
use lwd.Spec.Size.{parse_size}
use lwd.Store.{NodeRow, list_nodes}
use lwd.Reconciler.World.{
  M, Meta, Outside, ask_result, attempt, is_reachable, lift, pure, query, ◌>>=◌,
}

-- The value of `v, _ := call()`, with the zero value that the call returns beside an error.
abbrev pub or_zero : {A : Type 0} → A → Result A → A
or_zero z (ok a) = a
or_zero z (err e) = z

unfoldable pub req_cpu : App → ℤ
req_cpu app = elim app.requirements [ none ↦ pos 0 | some r ↦ r.cpu ]

unfoldable pub req_mem : Float64 → App → ℤ
req_mem fl app = elim app.requirements [
  | none ↦ pos 0
  | some r ↦ or_zero (pos 0) (parse_size fl r.memory)
]

unfoldable pub pool_of : App → String
pool_of app = if str_eq app.pool "" then "default" else app.pool

unfoldable pub excludes : List String → String → Bool
excludes [] name = false
excludes (x ∷ xs) name = let rest = excludes xs name in if str_eq x name then true else rest

abbrev pub local_info : Capacity → NodeInfo
local_info cap = record {
  name = "local";
  pool = "default";
  reachable = true;
  schedulable = true;
  cap = cap;
}

abbrev pub row_info : NodeRow → Bool → Capacity → NodeInfo
row_info n up cap = record {
  name = n.name;
  pool = n.pool;
  reachable = up;
  schedulable = n.schedulable;
  cap = cap;
}

module _ (out : Outside) where
  abbrev pub local_of : Result Meta → M (List NodeInfo)
  local_of (err e) = pure []
  local_of (ok m) = do
    cap ← attempt (ask_result (λ t. out.capacity t "local"))
    pure (local_info (or_zero no_capacity cap) ∷ [])

  unfoldable pub local_candidates : String → List String → M (List NodeInfo)
  local_candidates pool exclude =
      if str_eq pool "default" && not (excludes exclude "local")
      then (do local ← attempt (ask_result (λ t. out.resolve_meta t "local")); local_of local)
      else pure []

  abbrev pub measured : NodeRow → Result Capacity → NodeInfo
  measured n (ok c) = row_info n true c
  measured n (err e) = row_info n false no_capacity

  abbrev pub resolved : NodeRow → Result Meta → M NodeInfo
  resolved n (err e) = pure (row_info n false no_capacity)
  resolved n (ok m) = do c ← attempt (ask_result (λ t. out.capacity t n.name)); pure (measured n c)

  abbrev pub measure : NodeRow → M NodeInfo
  measure n = do target ← attempt (ask_result (λ t. out.resolve_meta t n.name)); resolved n target

  -- The body of the loop over the registered nodes.
  unfoldable pub node_info : NodeRow → M NodeInfo
  node_info n = do
    up ← is_reachable out n.name
    if up then measure n else pure (row_info n false no_capacity)

  unfoldable pub node_infos : String → List String → List NodeRow → M (List NodeInfo)
  node_infos pool exclude [] = pure []
  node_infos pool exclude (n ∷ ns) =
      let rest = node_infos pool exclude ns in
      if not (str_eq n.pool pool) || excludes exclude n.name
      then rest
      else do c ← node_info n; cs ← rest; pure (c ∷ cs)

  unfoldable pub schedulable_candidates : App → List String → M (List NodeInfo)
  schedulable_candidates app exclude = do
    near ← local_candidates (pool_of app) exclude
    nodes ← attempt (query out list_nodes)
    far ← node_infos (pool_of app) exclude (or_zero [] nodes)
    pure (near ++ far)

  unfoldable pub place_excluding_set : App → List String → M String
  place_excluding_set app exclude = do
    candidates ← schedulable_candidates app exclude
    lift (
        place out.float candidates (pool_of app)
          (requirements (req_cpu app) (req_mem out.float app)))

  unfoldable pub place_excluding : App → String → M String
  place_excluding app exclude = place_excluding_set app (exclude ∷ [])

  -- The node, and whether the scheduler chose it.
  unfoldable pub resolve_placement : App → M (String × Bool)
  resolve_placement app =
      if not (str_eq app.node "")
      then pure (app.node, false)
      else (do chosen ← place_excluding_set app []; pure (chosen, true))

  -- A node off the excluded ones, or any node if there is none.
  unfoldable pub spread_or_stack : App → List String → M String
  spread_or_stack app exclude = do
    next ← attempt (place_excluding_set app exclude)
    elim next [ ok n ↦ pure n | err e ↦ place_excluding_set app [] ]

  unfoldable pub spread : App → ℕ → List String → M (List String)
  spread app zero nodes = pure nodes
  spread app (suc k) nodes = do next ← spread_or_stack app nodes; spread app k (nodes ++ next ∷ [])

  abbrev copies : ℕ → String → List String
  copies zero name = []
  copies (suc k) name = name ∷ copies k name

  unfoldable pub place_replicas : App → ℤ → M (List String × Bool)
  place_replicas app n =
      let count = if ltb_ℤ (pos 0) n then pos_part n else 1 in
      if not (str_eq app.node "") && not (str_eq app.node "local")
      then pure (copies count app.node, false)
      else do
        first ← place_excluding_set app []
        nodes ← spread app (count - 1) (first ∷ [])
        pure (nodes, true)
