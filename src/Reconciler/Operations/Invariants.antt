-- ===== src/Reconciler/Operations/Invariants.antt =====
-- The invariants of the reachable states.
use lwd.Base.{String, arith, none, refl, ◌≡◌}
use lwd.Reconciler.World.{Outside, World}
use lwd.Reconciler.Operations.{
  Operation, Reachable, Write, cordon_node, drop_node, drop_secret, perform, write_node,
  write_secret, written,
}
use lwd.Reconciler.Operations.Enduring.{perform-keeps, reachable-keeps}
use lwd.Reconciler.Sturdy.{IsSturdy}
use lwd.Reconciler.Sturdy.Passes.{IsEnduring}
use lwd.Reconciler.Sturdy.Failovers.{any_heal-Keeps}
use lwd.Reconciler.Attempts.{IsWithin, reset_heal-IsWithin, try_heal_with-Keeps}
use lwd.Reconciler.Heal.{heal_attempts}
use lwd.Reconciler.Rollout.{reset_heal}
use lwd.Store.History.{
  IsHistory, empty-IsHistory, record_deployment-IsHistory, set_status-IsHistory,
  update_replicas-IsHistory,
}
use lwd.Store.{
  Store, add_node, delete_node, delete_secret, record_deployment, set_schedulable, set_secret,
  set_status, update_replicas,
}
use lwd.Reconciler.Failover.{forget_node, mark_unreachable, set_health}
use lwd.Reconciler.Drain.{}

abbrev Ordered : World → Type 0
Ordered w = IsHistory w.store

Ordered-IsSturdy : IsSturdy Ordered
unfolding reset_heal
Ordered-IsSturdy = record {
  ticks = λ v t h. h;
  logs = λ v l h. h;
  routers = λ v c h. h;
  nudges = λ v b h. h;
  resets = λ app v h. h;
  rows = λ d v h. record_deployment-IsHistory d v.store h;
  statuses = λ id st v h. set_status-IsHistory id st v.store h;
  sets = λ id rs cid v h. update_replicas-IsHistory id rs cid v.store h;
}

Ordered-IsEnduring : (out : Outside) → IsEnduring out Ordered
unfolding set_health mark_unreachable forget_node
Ordered-IsEnduring out = record {
  sturdy = Ordered-IsSturdy;
  heals = λ app f k cur. any_heal-Keeps out Ordered Ordered-IsSturdy.ticks (λ g v h. h) app f k cur;
  healths = λ x v h. h;
  marks = λ name t v h. h;
  forgets = λ name v h. h;
}

Ordered-written : (x : Write) (s : Store) → IsHistory s → IsHistory (written x s)
unfolding written add_node set_schedulable delete_node set_secret delete_secret
Ordered-written (write_node n) s h = record { descending = h.descending; counter = h.counter }
Ordered-written (cordon_node name b) s h = record { descending = h.descending; counter = h.counter }
Ordered-written (drop_node name) s h = record { descending = h.descending; counter = h.counter }
Ordered-written (write_secret app key value) s h = record {
  descending = h.descending;
  counter = h.counter;
}
Ordered-written (drop_secret app key) s h = record {
  descending = h.descending;
  counter = h.counter;
}

-- In each state that the operations reach from an empty store, whichever of them failed, the rows'
-- ids descend from the newest, and the newest id is the counter of the table.
pub Reachable-IsHistory : (out : Outside) (w : World) → Reachable out w → IsHistory w.store
Reachable-IsHistory out w r =
    reachable-keeps out Ordered (Ordered-IsEnduring out) (λ x v h. Ordered-written x v.store h)
      (λ v s hs. rw s empty-IsHistory) w r

module _ (out : Outside) where
  Within-IsSturdy : IsSturdy (IsWithin out)
  unfolding heal_attempts
  Within-IsSturdy = record {
    ticks = λ v t h. record { bound = h.bound };
    logs = λ v l h. record { bound = h.bound };
    routers = λ v c h. record { bound = h.bound };
    nudges = λ v b h. record { bound = h.bound };
    resets = λ app v h. reset_heal-IsWithin out app v h;
    rows = λ d v h. record { bound = h.bound };
    statuses = λ id st v h. record { bound = h.bound };
    sets = λ id rs cid v h. record { bound = h.bound };
  }

  Within-IsEnduring : IsEnduring out (IsWithin out)
  unfolding set_health mark_unreachable forget_node heal_attempts
  Within-IsEnduring = record {
    sturdy = Within-IsSturdy;
    heals = λ app f k cur. try_heal_with-Keeps out app f k cur;
    healths = λ x v h. record { bound = h.bound };
    marks = λ name t v h. record { bound = h.bound };
    forgets = λ name v h. record { bound = h.bound };
  }

  no_attempts : (w : World) → ((app : String) → w.heal app ≡ none) → IsWithin out w
  unfolding heal_attempts
  no_attempts w hs = record { bound = λ a. rw (hs a) (omega arith) }

  -- In each state that the operations reach from an empty store, no app has more heal attempts
  -- than the limit.
  pub Reachable-IsWithin : (w : World) → Reachable out w → IsWithin out w
  unfolding heal_attempts
  Reachable-IsWithin w r =
      reachable-keeps out (IsWithin out) Within-IsEnduring (λ x v h. record { bound = h.bound })
        (λ v s hs. no_attempts v hs) w r

-- The registry and the secrets.
abbrev SameRegistry : World → World → Type 0
SameRegistry w v = (v.store.nodes ≡ w.store.nodes) × (v.store.secrets ≡ w.store.secrets)

registry-IsEnduring : (out : Outside) (w : World) → IsEnduring out (SameRegistry w)
unfolding set_health mark_unreachable forget_node reset_heal record_deployment set_status
    update_replicas
registry-IsEnduring out w = record {
  sturdy = record {
    ticks = λ v t h. h;
    logs = λ v l h. h;
    routers = λ v c h. h;
    nudges = λ v b h. h;
    resets = λ app v h. h;
    rows = λ d v h. h;
    statuses = λ id st v h. h;
    sets = λ id rs cid v h. h;
  };
  heals = λ app f k cur. any_heal-Keeps out (SameRegistry w) (λ v t h. h) (λ g v h. h) app f k cur;
  healths = λ x v h. h;
  marks = λ name t v h. h;
  forgets = λ name v h. h;
}

-- No operation of the reconciler changes the registered nodes or the secrets.
pub perform-registry :
    (out : Outside) (o : Operation) (w : World)
    → ((perform out o w).store.nodes ≡ w.store.nodes)
      × ((perform out o w).store.secrets ≡ w.store.secrets)
perform-registry out o w =
    perform-keeps out (SameRegistry w) (registry-IsEnduring out w) o w (refl, refl)
