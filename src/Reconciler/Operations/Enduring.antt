-- ===== src/Reconciler/Operations/Enduring.antt =====
-- Each operation keeps each enduring invariant.
use lwd.Base.{Error, Option, String, none, some, suc, ◌≡◌}
use lwd.Reconciler.World.{M, Outside, World, exec, stored}
use lwd.Reconciler.Keeps.{Keeps, world_after}
use lwd.Reconciler.Drain.{evacuate_node}
use lwd.Reconciler.Operations.{
  fresh, Operation, Reachable, Step, Write, apply_app, evacuate, later, operated, pass, perform,
  remove_app, roll_back, written, wrote,
}
use lwd.Reconciler.Sturdy.Passes.{IsEnduring}
use lwd.Reconciler.Sturdy.Failovers.{reconcile-Keeps}
use lwd.Reconciler.Sturdy.Applies.{apply-Keeps, rollback-Keeps}
use lwd.Reconciler.Sturdy.Removes.{remove-Keeps}
use lwd.Reconciler.Sturdy.Moves.{evacuate_node-Keeps}
use lwd.Reconciler.Apply.{apply, rollback}
use lwd.Store.{empty_store}
use lwd.Reconciler.Remove.{remove}
use lwd.Reconciler.Failover.{reconcile}

-- A method that keeps the invariant leaves it, whatever it returns.
pub Keeps-after :
    {A : Type 0} (I : World → Type 0) (m : M A) → Keeps I m → (w : World) → I w → I (m w).1
Keeps-after I m k w h = world_after I (m w) (k.from w h).holds

module _ (out : Outside) (I : World → Type 0) (enduring : IsEnduring out I) where
  pub perform-keeps : (o : Operation) (w : World) → I w → I (perform out o w)
  unfolding perform
  perform-keeps (apply_app app) w h =
      Keeps-after I (apply out app) (apply-Keeps out I enduring.sturdy app) w h
  perform-keeps (roll_back name) w h =
      Keeps-after I (rollback out name) (rollback-Keeps out I enduring.sturdy name) w h
  perform-keeps (remove_app name) w h =
      Keeps-after I (remove out name) (remove-Keeps out I enduring.sturdy name) w h
  perform-keeps (evacuate name) w h =
      Keeps-after I (evacuate_node out name) (evacuate_node-Keeps out I enduring.sturdy name) w h
  perform-keeps pass w h = Keeps-after I (reconcile out) (reconcile-Keeps out I enduring) w h

  module _
      (writes : (x : Write) (v : World) → I v → I (record v { store = written x v.store })) where
    stored-keeps : (x : Write) (e : Option Error) (w : World) → I w → I (stored (written x) w e).1
    stored-keeps x none w h =
        enduring.sturdy.ticks (record w { store = written x w.store }) (suc w.tick) (writes x w h)
    stored-keeps x (some e) w h = enduring.sturdy.ticks w (suc w.tick) h

    step-keeps : {v u : World} → Step out v u → I v → I u
    unfolding exec
    step-keeps {v} (operated o) h = perform-keeps o v h
    step-keeps {v} (wrote x) h = stored-keeps x (out.db_error v.tick) v h

    -- What holds of an empty program holds of all that it reaches.
    pub reachable-keeps :
        ((w : World) → w.store ≡ empty_store → ((app : String) → w.heal app ≡ none) → I w)
        → (w : World) → Reachable out w
        → I w
    reachable-keeps base w (fresh _ s hs) = base w s hs
    reachable-keeps base w (later {v} r step) = step-keeps step (reachable-keeps base v r)
