-- ===== src/Node/Tests.antt =====
-- A node that is added, resolved, and added again with another address.
use lwd.Base.{List, Result, String, [], false, none, ok, refl, true, ◌∷◌, ◌≡◌}
use lwd.Node.{
  Fleet, Links, build_transport, invalidate, lookup, ping_ok, reachable, resolve_meta, ssh,
}
use lwd.Node.Handlers.{NodeRequest, check_node, handle_node_add}
use lwd.Node.Calls.{Call, adds, perform, perform_all, reaches, resolve_meta-current, resolves}
use lwd.Node.Coherent.{Answers}
use lwd.Store.{add_node, empty_store, find_node, get_node, upsert_node}

abbrev links : Links
links = record {
  token = "secret";
  db_error = λ t. none;
  ping = λ t n. false;
  ssh_error = λ t h. none;
  parse_ip = λ s. true;
  parse_url = λ s. ok ("http", "edge:8078");
  now = λ t. t;
}

abbrev empty : Fleet
empty = record { store = empty_store; remotes = λ n. none; tick = 0 }

abbrev request : String → Result NodeRequest
request mesh = ok (record {
  name = "edge";
  ssh_host = "root@edge";
  mesh_addr = mesh;
  agent_url = "http://edge:8078";
  pool = "";
})

abbrev calls : List Call
calls =
    adds (request "10.0.0.2") ∷ resolves "edge" ∷ reaches "edge" ∷ adds (request "10.0.0.3") ∷ []

abbrev moved : Fleet
moved = perform_all links calls empty

resolve_meta-current_example : Answers links moved "edge" (resolve_meta links "edge" moved).0
resolve_meta-current_example = resolve_meta-current links calls empty "edge" (λ n. refl)

-- The second address is returned, over ssh, since the agent does not answer.
second_address :
    (resolve_meta links "edge" moved).0
    ≡ ok (record {
      node = ssh "root@edge";
      mesh_addr = "10.0.0.3";
      docker_host = "ssh://root@edge";
      is_local = false;
    })
unfolding perform_all perform resolve_meta build_transport lookup ping_ok invalidate handle_node_add
    check_node add_node upsert_node get_node find_node reachable
second_address = refl
