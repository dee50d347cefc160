-- ===== src/Node/Handlers.antt =====
-- internal/api/api.go: the handlers that change the registry of nodes. The evacuation that a drain
-- goes on to is `Reconciler.Drain`.
use lwd.Base.{
  Bool, Error, List, Option, Result, String, [], codes, err, errorf, false, if◌then◌else◌, none,
  not, ok, some, str, str_eq, true, ℕ, ◌&&◌, ◌==◌, ◌||◌, ◌∷◌,
}
use lwd.Spec.Names.{is_alnum, pool_name_re}
use lwd.Spec.Validate.{refuse}
use lwd.Node.{Fleet, Links, asked, invalidate}
use lwd.Store.{NodeRow, Store, add_node, delete_node, get_node, set_schedulable}

pub record NodeRequest : Type 0 where
  pub name : String
  pub ssh_host : String
  pub mesh_addr : String
  pub agent_url : String
  pub pool : String

-- The status that is written, with the error of its body.
pub data Answer : Type 0 where
  no_content : Answer
  bad_request : Error → Answer
  not_found : Error → Answer
  server_error : Error → Answer

-- ([A-Za-z0-9.-]*[A-Za-z0-9])?
unfoldable pub host_tail : List ℕ → Bool
host_tail [] = true
host_tail (c ∷ []) = is_alnum c
host_tail (c ∷ d ∷ cs) =
    let rest = host_tail (d ∷ cs) in (is_alnum c || (c == b'.' || c == b'-')) && rest

abbrev pub host_codes : List ℕ → Bool
host_codes [] = false
host_codes (c ∷ cs) = is_alnum c && host_tail cs

unfoldable pub hostname_pattern : String → Bool
hostname_pattern s = host_codes (codes s)

module _ (links : Links) where
  abbrev pub bad_url : Result (String × String) → Bool
  bad_url (err e) = true
  bad_url (ok (scheme, host)) =
      (not (str_eq scheme "http") && not (str_eq scheme "https")) || str_eq host ""

  abbrev pub first_error : List (Option Error) → Option Error
  first_error [] = none
  first_error (some e ∷ es) = some e
  first_error (none ∷ es) = first_error es

  -- The checks of `handleNodeAdd`, in their order.
  unfoldable pub check_node : NodeRequest → Option Error
  check_node req = first_error (
      refuse (str_eq req.name "") "name is required" []
      ∷ refuse (str_eq req.name "local") "node name %q is reserved for the implicit local node"
          (str req.name ∷ [])
      ∷ refuse (str_eq req.ssh_host "") "ssh_host is required" []
      ∷ refuse (str_eq req.mesh_addr "") "mesh_addr is required" []
      ∷ refuse (not (links.parse_ip req.mesh_addr) && not (hostname_pattern req.mesh_addr))
          "mesh_addr %q is not a valid IP address or hostname" (str req.mesh_addr ∷ [])
      ∷ refuse (not (str_eq req.agent_url "") && bad_url (links.parse_url req.agent_url))
          "agent_url %q is not a valid http(s) URL" (str req.agent_url ∷ [])
      ∷ refuse (not (str_eq req.pool "") && not (pool_name_re req.pool))
          "pool %q is invalid: must match %s"
          (str req.pool ∷ str "^[A-Za-z0-9][A-Za-z0-9_-]*$" ∷ [])
      ∷ [])

  abbrev pub row_of : NodeRequest → ℕ → NodeRow
  row_of req now = record {
    name = req.name;
    ssh_host = req.ssh_host;
    mesh_addr = req.mesh_addr;
    agent_url = req.agent_url;
    pool = req.pool;
    schedulable = false;
    created_at = now;
  }

  abbrev pub with_store : (Store → Store) → Fleet → Fleet
  with_store change f = record f { store = change f.store }

  -- A statement that fails changes nothing.
  abbrev pub changed : Option Error → (Store → Store) → (Fleet → Fleet) → Fleet → Answer × Fleet
  changed none change after f = (no_content, after (with_store change f))
  changed (some e) change after f = (server_error e, f)

  abbrev pub execute : (Store → Store) → (Fleet → Fleet) → Fleet → Answer × Fleet
  execute change after f = changed (links.db_error f.tick) change after (asked f)

  abbrev pub add_checked : NodeRequest → Option Error → Fleet → Answer × Fleet
  add_checked req (some e) f = (bad_request e, f)
  add_checked req none f =
      execute (add_node (row_of req (links.now f.tick))) (invalidate req.name) f

  -- Of the decoded body.
  unfoldable pub handle_node_add : Result NodeRequest → Fleet → Answer × Fleet
  handle_node_add (err e) f = (bad_request e, f)
  handle_node_add (ok req) f = add_checked req (check_node req) f

  unfoldable pub handle_node_delete : String → Fleet → Answer × Fleet
  handle_node_delete name f = execute (delete_node name) (invalidate name) f

  abbrev pub cordon_found : String → Option Error → Option NodeRow → Option Answer
  cordon_found name (some e) row = some (server_error e)
  cordon_found name none none = some (not_found (errorf "node %q not found" (str name ∷ [])))
  cordon_found name none (some row) = none

  -- The answer that was written, if the check fails.
  unfoldable pub check_cordon_target : String → Fleet → Option Answer × Fleet
  check_cordon_target name f =
      if str_eq name "local"
      then (some (bad_request (errorf "cannot cordon/uncordon the local node" [])), f)
      else (cordon_found name (links.db_error f.tick) (get_node name f.store), asked f)

  abbrev pub cordon : String → Bool → Option Answer × Fleet → Answer × Fleet
  cordon name b (some answer, f) = (answer, f)
  cordon name b (none, f) = execute (set_schedulable name b) (λ u. u) f

  unfoldable pub handle_node_uncordon : String → Fleet → Answer × Fleet
  handle_node_uncordon name f = cordon name true (check_cordon_target name f)
