-- ===== src/Store/History.antt =====
-- The deployment rows: their ids descend from the newest, and what the statements do to the
-- current deployment of an app.
use lwd.Base.{All, List, String, [], arith, map, refl, suc, ℕ, ◌<◌, ◌∙◌, ◌∷◌, ◌≡◌, ◌≤◌}
use lwd.Store.{
  Deployment, Replica, Status, Store, empty_store, record_deployment, set_status, update_replicas,
  with_replicas, with_status,
}

-- Every row is newer than the rows under it, and the counter is the newest id.
abbrev pub Descending : List Deployment → Type 0
Descending [] = Unit
Descending (d ∷ ds) = All (λ e. e.id < d.id) ds × Descending ds

abbrev pub newest : List Deployment → ℕ
newest [] = 0
newest (d ∷ ds) = d.id

pub record IsHistory (s : Store) : Type 0 where
  pub descending : Descending s.deployments
  pub counter : newest s.deployments ≡ s.last_id

pub empty-IsHistory : IsHistory empty_store
empty-IsHistory = record { descending = tt; counter = refl }

below : (n m : ℕ) (ds : List Deployment) → n ≤ m → All (λ e. e.id < n) ds → All (λ e. e.id < m) ds
below n m [] h a = tt
below n m (d ∷ ds) h a = (omega arith, below n m ds h a.1)

All-below : (ds : List Deployment) → Descending ds → All (λ e. e.id < suc (newest ds)) ds
All-below [] h = tt
All-below (d ∷ ds) h = (omega arith, below d.id (suc d.id) ds (omega arith) h.0)

-- A recorded row keeps the history in order.
pub record_deployment-IsHistory :
    (d : Deployment) (s : Store) → IsHistory s → IsHistory (record_deployment d s).0
unfolding record_deployment
record_deployment-IsHistory d s h = record {
  descending = (rw (← h.counter) (All-below s.deployments h.descending), h.descending);
  counter = refl;
}

-- A change of rows that keeps their ids keeps the order.
module _ (f : Deployment → Deployment) (same : (d : Deployment) → (f d).id ≡ d.id) where
  All-map_id :
      (n : ℕ) (ds : List Deployment) → All (λ e. e.id < n) ds → All (λ e. e.id < n) (map f ds)
  All-map_id n [] h = tt
  All-map_id n (d ∷ ds) h = (omega (arith, same d, h.0), All-map_id n ds h.1)

  Descending-map : (ds : List Deployment) → Descending ds → Descending (map f ds)
  Descending-map [] h = tt
  Descending-map (d ∷ ds) h = (rw (same d) (All-map_id d.id ds h.0), Descending-map ds h.1)

  newest-map : (ds : List Deployment) → newest (map f ds) ≡ newest ds
  newest-map [] = refl
  newest-map (d ∷ ds) = same d

pub with_status-id : (i : ℕ) (st : Status) (d : Deployment) → (with_status i st d).id ≡ d.id
with_status-id i st d = ground arith

with_replicas-id :
    (i : ℕ) (rs : List Replica) (c : String) (d : Deployment) → (with_replicas i rs c d).id ≡ d.id
with_replicas-id i rs c d = ground arith

pub set_status-IsHistory :
    (i : ℕ) (st : Status) (s : Store) → IsHistory s → IsHistory (set_status i st s)
unfolding set_status
set_status-IsHistory i st s h = record {
  descending = Descending-map (with_status i st) (with_status-id i st) s.deployments h.descending;
  counter = newest-map (with_status i st) (with_status-id i st) s.deployments ∙ h.counter;
}

pub update_replicas-IsHistory :
    (i : ℕ) (rs : List Replica) (c : String) (s : Store)
    → IsHistory s
    → IsHistory (update_replicas i rs c s)
unfolding update_replicas
update_replicas-IsHistory i rs c s h = record {
  descending =
      Descending-map (with_replicas i rs c) (with_replicas-id i rs c) s.deployments h.descending;
  counter = newest-map (with_replicas i rs c) (with_replicas-id i rs c) s.deployments ∙ h.counter;
}
