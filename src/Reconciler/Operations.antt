-- ===== src/Reconciler/Operations.antt =====
-- The operations of the program on its state, and the states that they reach from an empty store:
-- those of the reconciler, and the writes of the API to the registry and the secrets.
pub mod Enduring
pub mod Invariants
use lwd.Base.{Bool, List, String, none, ℕ, ◌≡◌}
use lwd.Reconciler.World.{Outside, World, exec}
use lwd.Reconciler.Apply.{apply, rollback}
use lwd.Reconciler.Remove.{remove}
use lwd.Reconciler.Drain.{evacuate_node}
use lwd.Reconciler.Failover.{reconcile}
use lwd.Spec.{App}
use lwd.Store.{
  NodeRow, Store, add_node, delete_node, delete_secret, empty_store, set_schedulable, set_secret,
}

pub data Operation : Type 0 where
  apply_app : App → Operation
  roll_back : String → Operation
  remove_app : String → Operation
  evacuate : String → Operation
  pass : Operation

pub data Write : Type 0 where
  write_node : NodeRow → Write
  cordon_node : String → Bool → Write
  drop_node : String → Write
  write_secret : String → String → List ℕ → Write
  drop_secret : String → String → Write

unfoldable pub written : Write → Store → Store
written (write_node n) s = add_node n s
written (cordon_node name b) s = set_schedulable name b s
written (drop_node name) s = delete_node name s
written (write_secret app key value) s = set_secret app key value s
written (drop_secret app key) s = delete_secret app key s

module _ (out : Outside) where
  -- The state after an operation, whether it returns or fails.
  unfoldable pub perform : Operation → World → World
  perform (apply_app app) w = (apply out app w).1
  perform (roll_back name) w = (rollback out name w).1
  perform (remove_app name) w = (remove out name w).1
  perform (evacuate name) w = (evacuate_node out name w).1
  perform pass w = (reconcile out w).1

  pub data Step (w : World) : World → Type 0 where
    operated : (o : Operation) → Step w (perform o w)
    wrote : (x : Write) → Step w (exec out (written x) w).1

  pub data Reachable : World → Type 0 where
    fresh : (w : World) → w.store ≡ empty_store → ((app : String) → w.heal app ≡ none) → Reachable w
    later : {v u : World} → Reachable v → Step v u → Reachable u
