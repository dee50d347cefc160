-- ===== src/Reconciler/Sturdy/Heals.antt =====
-- The healing of dead replicas keeps every sturdy invariant.
use lwd.Base.{List, ℕ}
use lwd.Reconciler.World.{Outside, World}
use lwd.Reconciler.Keeps.{Keeps, keeps_rules}
use lwd.Reconciler.Sturdy.{IsSturdy, sturdy-IsQuiet, sturdy_rules}
use lwd.Reconciler.Moving.{or_clean-Keeps, restored_set-Keeps, stage_healing-Keeps}
use lwd.Reconciler.ReplicaHeal.{heal_dead_replicas_locked, heal_restored, persist_healed}
use lwd.Store.{Deployment}
use lwd.Reconciler.Rollout.{Rollout}

module _ (out : Outside) (I : World → Type 0) (sturdy : IsSturdy I) where
  heal_restored-Keeps :
      (q : Rollout) (cur : Deployment) (dead : List ℕ) → Keeps I (heal_restored out q cur dead)
  unfolding heal_restored persist_healed
  heal_restored-Keeps q cur dead =
      search
        (
          or_clean-Keeps out I (sturdy-IsQuiet I sturdy),
          stage_healing-Keeps out I (sturdy-IsQuiet I sturdy),
          sturdy_rules,
          sturdy.ticks,
        )
        depth 18

  pub heal_dead_replicas_locked-Keeps :
      (cur : Deployment) (dead : List ℕ) → Keeps I (heal_dead_replicas_locked out cur dead)
  unfolding heal_dead_replicas_locked
  heal_dead_replicas_locked-Keeps cur dead =
      search (keeps_rules, restored_set-Keeps out I (sturdy-IsQuiet I sturdy), heal_restored-Keeps)
        depth 14
