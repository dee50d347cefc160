-- ===== src/Node.antt =====
-- internal/node/resolver.go: the names of nodes resolved to clients, with a cache by name.
-- internal/cli/cli.go gives it a lookup in the registry of the store.
pub mod Handlers
pub mod Coherent
pub mod Calls
pub mod Tests
use lwd.Base.{
  Bool, Error, Option, Result, String, [], err, errorf, false, if◌then◌else◌, none, ok, some, str,
  str_eq, suc, true, wrapf, ℕ, ◌+++◌, ◌||◌, ◌∷◌,
}
use lwd.Store.{NodeRow, Store, get_node}

-- A client, by the call that built it: of the local Docker, NewAgentNode or NewRemoteSSH.
pub data Node : Type 0 where
  docker : Node
  agent : String → String → Node
  ssh : String → Node

pub record RemoteEntry : Type 0 where
  pub node : Node
  pub mesh_addr : String
  pub docker_host : String
  pub transport : String

-- The five results of `ResolveMeta` without the error.
pub record Meta : Type 0 where
  pub node : Node
  pub mesh_addr : String
  pub docker_host : String
  pub is_local : Bool

-- What code outside answers, as functions of the number of questions asked before. `parse_url` gives
-- the scheme and the host.
pub record Links : Type 0 where
  pub token : String
  pub db_error : ℕ → Option Error
  pub ping : ℕ → Node → Bool
  pub ssh_error : ℕ → String → Option Error
  pub parse_ip : String → Bool
  pub parse_url : String → Result (String × String)
  pub now : ℕ → ℕ

-- The store, and the resolver's cache.
pub record Fleet : Type 0 where
  pub store : Store
  pub remotes : String → Option RemoteEntry
  pub tick : ℕ

abbrev pub asked : Fleet → Fleet
asked f = record f { tick = suc f.tick }

abbrev pub or_error : {A : Type 0} → A → Option Error → Result A
or_error a none = ok a
or_error a (some e) = err e

abbrev pub entry_of : NodeRow → Node → String → RemoteEntry
entry_of row n transport = record {
  node = n;
  mesh_addr = row.mesh_addr;
  docker_host = "ssh://" +++ row.ssh_host;
  transport = transport;
}

abbrev pub meta_of : RemoteEntry → Meta
meta_of e = record {
  node = e.node;
  mesh_addr = e.mesh_addr;
  docker_host = e.docker_host;
  is_local = false;
}

abbrev pub local_meta : Meta
local_meta = record { node = docker; mesh_addr = ""; docker_host = ""; is_local = true }

abbrev pub is_local_name : String → Bool
is_local_name name = str_eq name "" || str_eq name "local"

abbrev pub pinged : String → Bool × Fleet → (String × Bool) × Fleet
pinged transport (b, f) = ((transport, b), f)

module _ (links : Links) where
  unfoldable pub ping_ok : Node → Fleet → Bool × Fleet
  ping_ok n f = (links.ping f.tick n, asked f)

  -- The node, or the error of building it, and the transport that was chosen.
  abbrev pub Built : Type 0
  Built = (Result Node × String) × Fleet

  abbrev pub over_ssh : String → Fleet → Built
  over_ssh host f = ((or_error (ssh host) (links.ssh_error f.tick host), "ssh"), asked f)

  abbrev pub over_agent : String → String → Bool × Fleet → Built
  over_agent host url (true, f) = ((ok (agent url links.token), "agent"), f)
  over_agent host url (false, f) = over_ssh host f

  unfoldable pub build_transport : String → String → Fleet → Built
  build_transport host url f =
      if str_eq url ""
      then over_ssh host f
      else over_agent host url (ping_ok (agent url links.token) f)

  unfoldable pub lookup : String → Fleet → Result (Option NodeRow) × Fleet
  lookup name f = (or_error (get_node name f.store) (links.db_error f.tick), asked f)

  abbrev pub remember : String → NodeRow → Built → Result Meta × Fleet
  remember name row ((ok n, transport), f) =
      let e = entry_of row n transport in
      (ok (meta_of e), record f { remotes = λ m. if str_eq name m then some e else f.remotes m })
  remember name row ((err e, transport), f) =
      (err (wrapf "connect to node %q (ssh://%s): %w" (str name ∷ str row.ssh_host ∷ []) e), f)

  abbrev pub dial : String → Result (Option NodeRow) × Fleet → Result Meta × Fleet
  dial name (err e, f) = (err (wrapf "look up node %q: %w" (str name ∷ []) e), f)
  dial name (ok none, f) = (err (errorf "unknown node %q" (str name ∷ [])), f)
  dial name (ok (some row), f) = remember name row (build_transport row.ssh_host row.agent_url f)

  abbrev pub from_cache : String → Option RemoteEntry → Fleet → Result Meta × Fleet
  from_cache name (some e) f = (ok (meta_of e), f)
  from_cache name none f = dial name (lookup name f)

  unfoldable pub resolve_meta : String → Fleet → Result Meta × Fleet
  resolve_meta name f =
      if is_local_name name then (ok local_meta, f) else from_cache name (f.remotes name) f

  abbrev pub ping_built : Built → (String × Bool) × Fleet
  ping_built ((ok n, transport), f) = pinged transport (ping_ok n f)
  ping_built ((err e, transport), f) = ((transport, false), f)

  abbrev pub reach_row : Result (Option NodeRow) × Fleet → (String × Bool) × Fleet
  reach_row (err e, f) = (("", false), f)
  reach_row (ok none, f) = (("", false), f)
  reach_row (ok (some row), f) = ping_built (build_transport row.ssh_host row.agent_url f)

  abbrev pub reach_entry : String → Option RemoteEntry → Fleet → (String × Bool) × Fleet
  reach_entry name (some e) f = pinged e.transport (ping_ok e.node f)
  reach_entry name none f = reach_row (lookup name f)

  -- Nothing is cached.
  unfoldable pub reachable : String → Fleet → (String × Bool) × Fleet
  reachable name f =
      if is_local_name name then (("local", true), f) else reach_entry name (f.remotes name) f

-- delete(rr.remotes, nodeName)
unfoldable pub invalidate : String → Fleet → Fleet
invalidate name f = record f { remotes = λ m. if str_eq name m then none else f.remotes m }
