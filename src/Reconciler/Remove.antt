-- ===== src/Reconciler/Remove.antt =====
-- internal/reconciler/reconciler.go: Remove, which takes an app down for good.
use lwd.Base.{
  Bool, List, Option, Result, String, [], err, false, if◌then◌else◌, none, not, ok, some,
  some_entry, str, str_eq, ◌&&◌, ◌+++◌, ◌++◌, ◌∷◌,
}
use lwd.Reconciler.World.{
  M, Meta, Outside, ask_error, ask_result, attempt, call_router, exec, ignore, pure, query,
  remove_container, wrapping, ◌>>=◌, ◌>>◌,
}
use lwd.Reconciler.Services.{down_backing, write_temp}
use lwd.Reconciler.Retire.{node_from_spec}
use lwd.Router.{remove_route}
use lwd.Spec.{App}
use lwd.Store.{Deployment, Replica, current_deployment, retired, set_status}

-- What a snapshot says, if it can be read.
abbrev pub of_spec : {A : Type 0} → Outside → A → (App → A) → String → A
of_spec out none_of f spec =
    if str_eq spec "" then none_of else elim (out.unmarshal spec) [ ok a ↦ f a | err e ↦ none_of ]

unfoldable pub normalize_node : String → String
normalize_node n = if str_eq n "" then "local" else n

-- `add`: a name that is not there yet, "" as the local node.
unfoldable pub add_name : List String → String → List String
add_name names n =
    if some_entry (λ s. str_eq s (normalize_node n)) names
    then names
    else names ++ normalize_node n ∷ []

unfoldable pub add_nodes : List String → List Replica → List String
add_nodes names [] = names
add_nodes names (r ∷ rs) = add_nodes (add_name names r.node) rs

module _ (out : Outside) where
  unfoldable pub is_compose_app : String → Bool
  is_compose_app spec = of_spec out false (λ a. not (str_eq a.compose "")) spec

  unfoldable pub domain_from_spec : String → String
  domain_from_spec spec = of_spec out "" (λ a. a.domain) spec

  abbrev pub nodes_of : Deployment → List Replica → List String
  nodes_of cur [] = add_name [] (node_from_spec out cur.spec)
  nodes_of cur (r ∷ rs) = add_nodes [] (r ∷ rs)

  -- The nodes of the replicas, each once, the anchor's first.
  unfoldable pub replica_node_names : Option Deployment → List String
  replica_node_names none = "local" ∷ []
  replica_node_names (some cur) = nodes_of cur cur.replicas

  abbrev pub drop_domain : String → M (Unit {0})
  drop_domain domain =
      if str_eq domain "" then pure tt else ignore (call_router out (remove_route domain))

  unfoldable pub remove_compose : String → Deployment → M (Unit {0})
  remove_compose name cur = do
    path ← write_temp out "compose file" cur.compose
    wrapping "compose down: %w" []
        (ask_error (λ t. out.compose_down_error t ("lwd-" +++ name) path []))
    drop_domain (domain_from_spec cur.spec)
    exec out (set_status cur.id retired)

  unfoldable pub remove_listed : String → List String → M (Unit {0})
  remove_listed node [] = pure tt
  remove_listed node (id ∷ ids) = do
    wrapping "remove container %s on %q: %w" (str id ∷ str node ∷ []) (remove_container out node id)
    remove_listed node ids

  abbrev pub down_anchor : String → Option Deployment → Bool → String → M (Unit {0})
  down_anchor name none is_anchor docker_host = pure tt
  down_anchor name (some cur) is_anchor docker_host =
      if not (str_eq cur.compose "") && is_anchor
      then down_backing out name cur.compose docker_host
      else pure tt

  -- A node that no longer resolves is skipped.
  abbrev pub clear_resolved :
      String → Option Deployment → String → String → Result Meta → M (Unit {0})
  clear_resolved name cur anchor_node node (err e) = pure tt
  clear_resolved name cur anchor_node node (ok m) = do
    ids ←
        wrapping "list containers on %q: %w" (str node ∷ [])
          (ask_result (λ t. out.list_containers t node name))
    remove_listed node ids
    down_anchor name cur (str_eq node anchor_node) m.docker_host

  unfoldable pub clear_nodes : String → Option Deployment → String → List String → M (Unit {0})
  clear_nodes name cur anchor_node [] = pure tt
  clear_nodes name cur anchor_node (node ∷ nodes) = do
    m ← attempt (ask_result (λ t. out.resolve_meta t node))
    clear_resolved name cur anchor_node node m
    clear_nodes name cur anchor_node nodes

  abbrev pub first_name_of : List String → String
  first_name_of [] = ""
  first_name_of (n ∷ ns) = n

  abbrev pub retire_current : Option Deployment → M (Unit {0})
  retire_current none = pure tt
  retire_current (some cur) = do
    drop_domain (domain_from_spec cur.spec)
    exec out (set_status cur.id retired)

  unfoldable pub remove_single_service : String → Option Deployment → M (Unit {0})
  remove_single_service name cur = do
    clear_nodes name cur (first_name_of (replica_node_names cur)) (replica_node_names cur)
    retire_current cur

  abbrev pub remove_current : String → Option Deployment → M (Unit {0})
  remove_current name none = remove_single_service name none
  remove_current name (some cur) =
      if not (str_eq cur.compose "") && is_compose_app cur.spec
      then remove_compose name cur
      else remove_single_service name (some cur)

  unfoldable pub remove : String → M (Unit {0})
  remove name = do
    cur ← wrapping "current deployment: %w" [] (query out (current_deployment name))
    remove_current name cur
