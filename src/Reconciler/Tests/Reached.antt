-- ===== src/Reconciler/Tests/Reached.antt =====
-- States that operations reach, and what they leave alone.
use lwd.Base.{String, [], arith, false, ltb, ok, refl, some, true, ℕ, ◌+◌, ◌∷◌, ◌≡◌}
use lwd.Reconciler.World.{Outside, World}
use lwd.Reconciler.Tests.{docker, idle, placed, row, site}
use lwd.Reconciler.Operations.{Reachable, apply_app, fresh, later, operated, pass, perform}
use lwd.Reconciler.Operations.Invariants.{Reachable-IsHistory, Reachable-IsWithin, perform-registry}
use lwd.Reconciler.Attempts.{IsWithin}
use lwd.Reconciler.Patience.{IsStill, failover_node-patient}
use lwd.Reconciler.Pinned.{evacuate_node-pinned}
use lwd.Reconciler.Failover.{failover_node}
use lwd.Reconciler.Served.{place_excluding_set-served}
use lwd.Reconciler.Rules.{Outcome}
use lwd.Reconciler.Drain.{evacuate_node}
use lwd.Store.History.{IsHistory}
use lwd.Store.{Deployment, current_deployment, empty_store, latest}
use lwd.Reconciler.Placement.{excludes, place_excluding_set, pool_of}

abbrev blank : World
blank = record idle { store = empty_store }

-- A deploy, and then a pass of the reconciler.
abbrev deployed : World
deployed = perform (docker true) (apply_app placed) blank

abbrev passed : World
passed = perform (docker true) pass deployed

passed-Reachable : Reachable (docker true) passed
passed-Reachable =
    later (later (fresh blank refl (λ app. refl)) (operated (apply_app placed))) (operated pass)

Reachable-IsHistory_example : IsHistory passed.store
Reachable-IsHistory_example = Reachable-IsHistory (docker true) passed passed-Reachable

Reachable-IsWithin_example : IsWithin (docker true) passed
Reachable-IsWithin_example = Reachable-IsWithin (docker true) passed passed-Reachable

perform-registry_example :
    ((perform (docker true) (apply_app placed) idle).store.nodes ≡ idle.store.nodes)
    × ((perform (docker true) (apply_app placed) idle).store.secrets ≡ [])
perform-registry_example = perform-registry (docker true) (apply_app placed) idle

-- A row whose node its operator chose.
abbrev manned : World
manned = record idle { store = record empty_store { deployments = row ∷ []; last_id = 1 } }

manned_pinned :
    (app : String) (d : Deployment)
    → current_deployment app manned.store ≡ some d
    → d.scheduled ≡ false
unfolding current_deployment latest
manned_pinned app d h = ground (arith, h)

evacuate_node-pinned_example :
    Outcome
      (λ res u. IsStill manned u × ((res.moved ≡ []) × (res.failed ≡ [])))
      (λ e u. IsStill manned u)
      (evacuate_node (docker true) "local" manned)
evacuate_node-pinned_example = evacuate_node-pinned (docker true) "local" manned manned_pinned

-- Only the local node answers, and the clock stands at 100 s.
abbrev cut_off : Outside
cut_off = record (docker true) { reach = some (λ t n. false); now = λ t. 100000000000 }

abbrev waiting : ℕ → World
waiting since = record manned { unreachable_since = λ n. some since }

not_yet :
    (t since : ℕ)
    → (waiting 90000000000).unreachable_since "edge" ≡ some since
    → ltb (cut_off.now t) (since + cut_off.failover_grace) ≡ true
not_yet t since h = ground (arith, h)

failover_node-patient_example :
    IsStill (waiting 90000000000) (failover_node cut_off "edge" (waiting 90000000000)).1
failover_node-patient_example = failover_node-patient cut_off "edge" (waiting 90000000000) not_yet

site_pool : pool_of site ≡ "default"
unfolding pool_of
site_pool = refl

edge_free : excludes ("edge" ∷ []) "local" ≡ false
unfolding excludes
edge_free = refl

place_excluding_set-served_example :
    (name : String) × (u : World) × (place_excluding_set (docker true) site ("edge" ∷ []) idle
      ≡ (ok name, u))
place_excluding_set-served_example =
    place_excluding_set-served (docker true) site ("edge" ∷ []) idle site_pool refl edge_free
      (λ t. tt)
