-- ===== src/Reconciler/Asked.antt =====
-- The steps of a deploy that only ask: they keep each invariant that does not read the tick.
use lwd.Base.{List, String, suc, zero, ℕ}
use lwd.Reconciler.World.{Container, Outside, World}
use lwd.Reconciler.Keeps.{
  Keeps, Keeps-ask_error, Keeps-ask_result, Keeps-bind, Keeps-pure, Keeps-wrapping, keeps_rules,
}
use lwd.Reconciler.Questions.{ensure_image_on_node-Keeps, spread_or_stack-Keeps}
use lwd.Reconciler.Deploy.{connect, image_for, more_targets, next_node}
use lwd.Reconciler.Rollout.{Rollout, Target, lwd_network}

module _ (out : Outside) (I : World → Type 0)
    (ticks : (v : World) (t : ℕ) → I v → I (record v { tick = t })) (q : Rollout) where
  next_node-Keeps : (i : ℕ) (ex : List String) → Keeps I (next_node out q i ex)
  next_node-Keeps i ex = search (keeps_rules, spread_or_stack-Keeps out I ticks)

  pub more_targets-Keeps :
      (i k : ℕ) (ex : List String) (ts : List Target) → Keeps I (more_targets out q i k ex ts)
  unfolding more_targets
  more_targets-Keeps i zero ex ts = Keeps-pure I ts
  more_targets-Keeps i (suc k) ex ts =
      Keeps-bind I (next_node out q i ex) _ (next_node-Keeps i ex) λ name.
        Keeps-bind I _ _
          (Keeps-wrapping I _ _ _ (Keeps-ask_result I ticks (λ t. out.resolve_meta t name)))
          λ m.
            Keeps-bind I _ _
              (Keeps-wrapping I _ _ _
                (Keeps-ask_error I ticks (λ t. out.ensure_network t name lwd_network)))
              λ _. more_targets-Keeps (suc i) k _ _

  pub image_for-Keeps : (i : ℕ) (t : Target) → Keeps I (image_for out q i t)
  image_for-Keeps i t = search (keeps_rules, ensure_image_on_node-Keeps out I ticks, ticks)

  pub connect-Keeps : (t : Target) (c : Container) → Keeps I (connect out q t c)
  connect-Keeps t c = search (keeps_rules, ticks)
