-- ===== src/Reconciler.antt =====
-- internal/reconciler: makes the running state match the declared apps.
pub mod Health
pub mod World
pub mod Rules
pub mod Keeps
pub mod Placement
pub mod Questions
pub mod Probes
pub mod Rounds
pub mod Images
pub mod Rollout
pub mod Retire
pub mod Deploy
pub mod Asked
pub mod Removal
pub mod Untouched
pub mod Staging
pub mod Yields
pub mod Allowed
pub mod Fails
pub mod Isolation
pub mod Success
pub mod GoesLive
pub mod Cleanup
pub mod LogOnly
pub mod NoLeak
pub mod Backing
pub mod Services
pub mod Prepare
pub mod Image
pub mod Source
pub mod Compose
pub mod Apply
pub mod Remove
pub mod Evacuate
pub mod Moves
pub mod Drain
pub mod ReplicaHeal
pub mod Pass
pub mod Failover
pub mod Preparing
pub mod Moving
pub mod Sturdy
pub mod Operations
pub mod Isolates
pub mod MovedAlone
pub mod Provenance
pub mod Replaced
pub mod Spread
pub mod Patience
pub mod Pinned
pub mod Served
pub mod Heal
pub mod Backoff
pub mod Attempts
pub mod Tests
