-- ===== src/Store/Registry.antt =====
-- The registry of nodes: what a lookup returns after each change.
use lwd.Base.{
  List, Option, String, [], arith, eq_iff, if◌then◌else◌, none, some, str_eq, true, ◌∷◌, ◌≡◌,
}
use lwd.Store.{NodeRow, Store, add_node, find_node, get_node, upsert_node}

-- The row after `AddNode`: a new node is schedulable, and a known one keeps its cordon and the time
-- at which it was first added.
abbrev pub merged : NodeRow → Option NodeRow → NodeRow
merged n none = record n { schedulable = true }
merged n (some r) = record r {
  ssh_host = n.ssh_host;
  mesh_addr = n.mesh_addr;
  agent_url = n.agent_url;
  pool = n.pool;
}

abbrev pub pooled : NodeRow → NodeRow
pooled n = record n { pool = if str_eq n.pool "" then "default" else n.pool }

find-upsert :
    (n : NodeRow) (m : String) (rs : List NodeRow)
    → find_node m (upsert_node n rs)
      ≡ (if str_eq n.name m then some (merged n (find_node n.name rs)) else find_node m rs)
unfolding find_node upsert_node
find-upsert n m [] = ground arith
find-upsert n m (r ∷ rs) =
    ground (arith, eq_iff r.name n.name, eq_iff r.name m, eq_iff n.name m, find-upsert n m rs)

-- After a node is added, its row is found, with the default pool for an empty one: schedulable and
-- as given if it is new, else with the cordon and the creation time that it had; every other row is
-- found as before.
pub get_node-add_node :
    (n : NodeRow) (m : String) (s : Store)
    → get_node m (add_node n s)
      ≡ (if str_eq n.name m then some (merged (pooled n) (get_node n.name s)) else get_node m s)
unfolding get_node add_node
get_node-add_node n m s = find-upsert (pooled n) m s.nodes
