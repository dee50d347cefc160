-- ===== src/Store/Tests.antt =====
-- Runs and instances for the store.
use lwd.Base.{
  Bool, In, String, [], arith, false, here, if◌then◌else◌, refl, some, str_eq, there, true, ℕ, ◌∷◌,
  ◌≡◌, ◌≤◌,
}
use lwd.Store.{
  Deployment, NodeRow, Status, Store, add_node, current_deployment, empty_store, failed, get_node,
  get_secret, latest, previous_deployment, record_deployment, retired, running, set_secret,
  set_status,
}
use lwd.Store.History.{IsHistory}
use lwd.Store.Generations.{IsSettled, current-record_failed, hand_over}
use lwd.Store.Registry.{get_node-add_node, merged, pooled}
use lwd.Store.Vault.{get_secret-set_secret}

abbrev row : ℕ → Status → Deployment
row id st = record {
  id = id;
  app = "site";
  image = "nginx";
  container_id = "c";
  status = st;
  created_at = 0;
  spec = "";
  compose = "";
  scheduled = false;
  replicas = [];
}

-- One deployment of one app, which runs.
abbrev one : Store
one = record empty_store { deployments = row 1 running ∷ []; last_id = 1 }

one-IsHistory : IsHistory one
one-IsHistory = record { descending = (tt, tt); counter = refl }

one_top : (d e : Deployment) → In d one.deployments → In e one.deployments → e.id ≤ d.id
one_top d e here here = omega arith
one_top d e here (there j) = elim j [ ]
one_top d e (there i) j = elim i [ ]

one-IsSettled : IsSettled "site" one
one-IsSettled = record { top = λ d e i j t h. one_top d e i j }

one_current : current_deployment "site" one ≡ some (row 1 running)
unfolding current_deployment latest
one_current = refl

abbrev after : Store
after = (record_deployment (row 0 running) (set_status 1 retired one)).0

hand_over_example :
    (current_deployment "site" after ≡ some (row 2 running))
    × (previous_deployment "site" after ≡ some (row 1 retired))
    × IsHistory after
    × IsSettled "site" after
hand_over_example =
    hand_over "site" (row 0 running) (row 1 running) one one-IsHistory one-IsSettled one_current
      refl

current-record_failed_example :
    current_deployment "site" (record_deployment (row 0 failed) one).0
    ≡ current_deployment "site" one
current-record_failed_example = current-record_failed "site" (row 0 failed) one refl

abbrev edge : String → Bool → NodeRow
edge pool open_to_work = record {
  name = "edge";
  ssh_host = "root@edge";
  mesh_addr = "";
  agent_url = "";
  pool = pool;
  schedulable = open_to_work;
  created_at = 7;
}

-- A cordoned node, registered again without a pool.
abbrev cordoned : Store
cordoned = record empty_store { nodes = edge "gpu" false ∷ [] }

get_node-add_node_example : get_node "edge" (add_node (edge "" true) cordoned) ≡ (
    if str_eq "edge" "edge"
    then some (merged (pooled (edge "" true)) (get_node "edge" cordoned))
    else get_node "edge" cordoned)
get_node-add_node_example = get_node-add_node (edge "" true) "edge" cordoned

get_secret-set_secret_example :
    get_secret "site" "KEY" (set_secret "site" "KEY" (1 ∷ 2 ∷ []) one) ≡ some (1 ∷ 2 ∷ [])
get_secret-set_secret_example = get_secret-set_secret "site" "KEY" "site" "KEY" (1 ∷ 2 ∷ []) one
