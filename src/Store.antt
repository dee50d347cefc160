-- ===== src/Store.antt =====
-- internal/store/store.go: the tables of the SQLite database, and what its statements do to them.
-- A statement that the database refuses changes nothing; the callers model that outcome
-- (`Reconciler/World.antt`). The column `replicas` holds the list that its JSON stands for.
pub mod History
pub mod Current
pub mod Generations
pub mod Registry
pub mod Vault
pub mod Tests
use lwd.Base.{
  Bool, List, Option, String, [], false, if◌then◌else◌, keep, ltb, map, none, not, some, str_eq,
  str_ltb, suc, true, ℕ, ℤ, ◌&&◌, ◌+◌, ◌==◌, ◌∷◌,
}
use lwd.Base.Sort.{sort_stable}

pub data Status : Type 0 where
  running failed retired : Status

abbrev pub status_eq : Status → Status → Bool
status_eq running running = true
status_eq failed failed = true
status_eq retired retired = true
status_eq _ _ = false

pub record Replica : Type 0 where
  pub container_id : String
  pub node : String
  pub upstream : String
  pub port : ℤ

pub record Deployment : Type 0 where
  pub id : ℕ
  pub app : String
  pub image : String
  pub container_id : String
  pub status : Status
  pub created_at : ℕ  -- Unix seconds
  pub spec : String
  pub compose : String
  pub scheduled : Bool
  pub replicas : List Replica

pub record NodeRow : Type 0 where
  pub name : String
  pub ssh_host : String
  pub mesh_addr : String
  pub agent_url : String
  pub pool : String
  pub schedulable : Bool
  pub created_at : ℕ

pub record SecretRow : Type 0 where
  pub app : String
  pub key : String
  pub value : List ℕ

-- `last_id` is the counter of `AUTOINCREMENT`.
pub record Store : Type 0 where
  pub deployments : List Deployment
  pub last_id : ℕ
  pub nodes : List NodeRow
  pub secrets : List SecretRow

abbrev pub empty_store : Store
empty_store = record { deployments = []; last_id = 0; nodes = []; secrets = [] }

-- INSERT INTO deployments; the id that the caller wrote is not used.
unfoldable pub record_deployment : Deployment → Store → Store × ℕ
record_deployment d s = (
  record s {
    deployments = record d { id = suc s.last_id } ∷ s.deployments;
    last_id = suc s.last_id;
  },
  suc s.last_id,
)

-- SELECT … WHERE p ORDER BY id DESC LIMIT 1
abbrev later : Deployment → Option Deployment → Deployment
later d none = d
later d (some e) = if ltb d.id e.id then e else d

unfoldable pub latest : (Deployment → Bool) → List Deployment → Option Deployment
latest p [] = none
latest p (d ∷ ds) = let rest = latest p ds in if p d then some (later d rest) else rest

abbrev pub is_app : String → Status → Deployment → Bool
is_app app st d = str_eq d.app app && status_eq d.status st

unfoldable pub current_deployment : String → Store → Option Deployment
current_deployment app s = latest (is_app app running) s.deployments

unfoldable pub previous_deployment : String → Store → Option Deployment
previous_deployment app s = latest (is_app app retired) s.deployments

unfoldable pub deployments_for_app : String → Store → List Deployment
deployments_for_app app s =
    sort_stable (λ a b. ltb b.id a.id) (keep (λ d. str_eq d.app app) s.deployments)

unfoldable pub max_id : List Deployment → ℕ
max_id [] = 0
max_id (d ∷ ds) = let rest = max_id ds in if ltb rest d.id then d.id else rest

-- SELECT COALESCE(MAX(id), 0) + 1
unfoldable pub next_deploy_id : Store → ℕ
next_deploy_id s = max_id s.deployments + 1

abbrev pub with_status : ℕ → Status → Deployment → Deployment
with_status id st d = if d.id == id then record d { status = st } else d

unfoldable pub set_status : ℕ → Status → Store → Store
set_status id st s = record s { deployments = map (with_status id st) s.deployments }

abbrev pub with_replicas : ℕ → List Replica → String → Deployment → Deployment
with_replicas id rs cid d = if d.id == id then record d { replicas = rs; container_id = cid } else d

unfoldable pub update_replicas : ℕ → List Replica → String → Store → Store
update_replicas id rs cid s = record s { deployments = map (with_replicas id rs cid) s.deployments }

-- SELECT DISTINCT … ORDER BY … ASC over the values of one column
unfoldable pub insert_distinct : String → List String → List String
insert_distinct a [] = a ∷ []
insert_distinct a (b ∷ bs) =
    let rest = insert_distinct a bs in
    if str_eq a b then b ∷ bs else if str_ltb a b then a ∷ b ∷ bs else b ∷ rest

unfoldable pub distinct_apps : List Deployment → List String
unfolding insert_distinct
distinct_apps [] = []
distinct_apps (d ∷ ds) = insert_distinct d.app (distinct_apps ds)

unfoldable pub list_apps : Store → List String
unfolding distinct_apps
list_apps s = distinct_apps s.deployments

-- INSERT INTO secrets … ON CONFLICT(app,key) DO UPDATE
unfoldable pub upsert_secret : String → String → List ℕ → List SecretRow → List SecretRow
upsert_secret app key enc [] = record { app = app; key = key; value = enc } ∷ []
upsert_secret app key enc (r ∷ rs) =
    let rest = upsert_secret app key enc rs in
    if str_eq r.app app && str_eq r.key key then record r { value = enc } ∷ rs else r ∷ rest

unfoldable pub set_secret : String → String → List ℕ → Store → Store
set_secret app key enc s = record s { secrets = upsert_secret app key enc s.secrets }

unfoldable pub find_secret : String → String → List SecretRow → Option (List ℕ)
find_secret app key [] = none
find_secret app key (r ∷ rs) =
    let rest = find_secret app key rs in
    if str_eq r.app app && str_eq r.key key then some r.value else rest

unfoldable pub get_secret : String → String → Store → Option (List ℕ)
get_secret app key s = find_secret app key s.secrets

unfoldable pub list_secret_keys : String → Store → List String
list_secret_keys app s =
    sort_stable str_ltb (map (λ r. r.key) (keep (λ r. str_eq r.app app) s.secrets))

unfoldable pub delete_secret : String → String → Store → Store
delete_secret app key s = record s {
  secrets = keep (λ r. not (str_eq r.app app && str_eq r.key key)) s.secrets;
}

-- INSERT INTO nodes … ON CONFLICT(name) DO UPDATE of four columns
unfoldable pub upsert_node : NodeRow → List NodeRow → List NodeRow
upsert_node n [] = record n { schedulable = true } ∷ []
upsert_node n (r ∷ rs) =
    let rest = upsert_node n rs in
    if str_eq r.name n.name
    then record r {
      ssh_host = n.ssh_host;
      mesh_addr = n.mesh_addr;
      agent_url = n.agent_url;
      pool = n.pool;
    }
      ∷ rs
    else r ∷ rest

unfoldable pub add_node : NodeRow → Store → Store
add_node n s =
    let pool = if str_eq n.pool "" then "default" else n.pool in
    record s { nodes = upsert_node (record n { pool = pool }) s.nodes }

unfoldable pub find_node : String → List NodeRow → Option NodeRow
find_node name [] = none
find_node name (r ∷ rs) =
    let rest = find_node name rs in if str_eq r.name name then some r else rest

unfoldable pub get_node : String → Store → Option NodeRow
get_node name s = find_node name s.nodes

unfoldable pub list_nodes : Store → List NodeRow
list_nodes s = sort_stable (λ a b. str_ltb a.name b.name) s.nodes

abbrev pub with_schedulable : String → Bool → NodeRow → NodeRow
with_schedulable name b r = if str_eq r.name name then record r { schedulable = b } else r

unfoldable pub set_schedulable : String → Bool → Store → Store
set_schedulable name b s = record s { nodes = map (with_schedulable name b) s.nodes }

unfoldable pub delete_node : String → Store → Store
delete_node name s = record s { nodes = keep (λ r. not (str_eq r.name name)) s.nodes }
