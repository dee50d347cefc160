-- ===== src/Reconciler/Rollout.antt =====
-- internal/reconciler/reconciler.go: the data of one deploy and what is computed from it alone.
use lwd.Base.{
  Bool, Float64, List, String, [], decimal, if◌then◌else◌, keep, ltb, ltb_ℤ, none, not, pos,
  pos_part, str_eq, ℕ, ◌+++◌, ◌++◌, ◌/◌, ◌∷◌,
}
use lwd.Spec.{App, Env}
use lwd.Reconciler.World.{Container, RunSpec, World}
use lwd.Reconciler.Placement.{req_cpu, req_mem}
use lwd.Store.{Deployment, Replica, Status}
use lwd.Router.{Upstream}

abbrev pub lwd_network : String
lwd_network = "lwd"

unfoldable pub container_name : App → ℕ → String
container_name app id = "lwd-" +++ (app.name +++ ("-" +++ decimal id))

unfoldable pub staging_host : ℕ → String
staging_host id = "stage-" +++ (decimal id +++ ".lwd.internal")

-- `replicaTarget`; the handle `n` is what the node's name stands for.
pub record Target : Type 0 where
  pub name : String
  pub mesh_addr : String
  pub is_local : Bool

-- The arguments of deployReplicaSet.
pub record Rollout : Type 0 where
  pub app : App
  pub image : String
  pub env : Env
  pub backing_network : String
  pub compose : String
  pub spec_json : String
  pub is_local : Bool
  pub mesh_addr : String
  pub scheduled : Bool

-- What its loop appends to.
pub record Started : Type 0 where
  pub containers : List Container
  pub replicas : List Replica
  pub upstreams : List Upstream

abbrev pub count_of : App → ℕ
count_of app = if ltb_ℤ app.replicas (pos 1) then 1 else pos_part app.replicas

abbrev pub anchor : Rollout → Target
anchor q = record { name = q.app.node; mesh_addr = q.mesh_addr; is_local = q.is_local }

unfoldable pub run_spec : Float64 → Rollout → ℕ → String → ℕ → Target → RunSpec
run_spec fl q id name i t = record {
  name = name;
  image = q.image;
  env = q.env;
  labels =
      ("lwd.app", q.app.name)
      ∷ ("lwd.role", "surface")
      ∷ ("lwd.deploy", decimal id)
      ∷ ("lwd.replica", decimal i)
      ∷ [];
  port = q.app.port;
  network = lwd_network;
  publish =
      if t.is_local
      then []
      else record { host_ip = t.mesh_addr; host_port = pos 0; container_port = q.app.port } ∷ [];
  cpus = req_cpu q.app;
  memory_bytes = req_mem fl q.app;
}

abbrev pub replica_name : App → ℕ → ℕ → String
replica_name app id i =
    if ltb 1 (count_of app)
    then container_name app id +++ ("-" +++ decimal i)
    else container_name app id

abbrev pub upstream_of : Replica → Upstream
upstream_of r = record { host = r.upstream; port = r.port }

abbrev pub replica_of : Rollout → String → Target → Container → Replica
replica_of q name t c = record {
  container_id = c.id;
  node = t.name;
  upstream = if t.is_local then name else t.mesh_addr;
  port = if t.is_local then q.app.port else c.host_port;
}

unfoldable pub with_replica : Started → Container → Replica → Started
with_replica st c r = record {
  containers = st.containers ++ c ∷ [];
  replicas = st.replicas ++ r ∷ [];
  upstreams = st.upstreams ++ upstream_of r ∷ [];
}

abbrev pub no_start : Started
no_start = record { containers = []; replicas = []; upstreams = [] }

unfoldable pub merge_env : Env → Env → Env
merge_env base [] = base
merge_env base ((k, v) ∷ secret_vals) =
    keep (λ e. not (str_eq e.0 k)) (merge_env base secret_vals) ++ (k, v) ∷ []

abbrev pub first_id : List Container → String
first_id [] = ""
first_id (c ∷ cs) = c.id

-- delete(r.heal, app)
unfoldable pub reset_heal : String → World → World
reset_heal app w = record w { heal = λ a. if str_eq a app then none else w.heal a }

abbrev pub set_of : Rollout → String → Status → ℕ → List Replica → Deployment
set_of q cid st now reps = record {
  id = 0;
  app = q.app.name;
  image = q.image;
  container_id = cid;
  status = st;
  created_at = now / 1000000000;
  spec = q.spec_json;
  compose = q.compose;
  scheduled = q.scheduled;
  replicas = reps;
}
