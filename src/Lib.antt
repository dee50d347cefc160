-- ===== src/Lib.antt =====
-- lwd: a controller that deploys the apps of `lwd.toml` files on a few Docker nodes behind one Caddy.
--
-- An app's spec is parsed and validated (internal/spec), a node is chosen for each replica
-- (internal/scheduler, internal/reconciler/schedule.go), the replicas are started, staged behind a
-- throwaway host of the router (internal/router) and probed, the live route is flipped to them and
-- the deployment is recorded (internal/store). A loop heals what dies (internal/reconciler).
--
-- Which file models which part:
--   Base           numbers, text, lists, errors, float64 and a stable sort, shared by all parts
--   Spec           internal/spec/spec.go: Parse's defaults, ParseSize, Validate and its helpers; its
--                  regular expressions are written as tests on code points
--   Scheduler      internal/scheduler/scheduler.go: Place, fits, freeMem, freeCPU
--   Store          internal/store/store.go: each method's statement as a function on the tables;
--                  `last_id` is SQLite's AUTOINCREMENT counter
--   Router         internal/router: the maps of CaddyRouter, committed only if applyConfig returns no
--                  error, and UseInternalTLS. `Router.Replay` runs whole sequences of its calls,
--                  with the maps of the configuration that Caddy took last. The reconciler's state
--                  has the committed maps only
--   Secrets        internal/secrets/store.go over the table of `Store`; the cipher is a parameter
--   Node           internal/node/resolver.go: the clients of nodes with their cache by name, and in
--                  `Handlers` those handlers of internal/api/api.go that change the registry. The
--                  two share the store of the state `Fleet`; `Calls` runs any sequence of them
--   Auth           internal/cli/apiauth.go and internal/agent/auth.go: the guard on the address that
--                  the API listens on, and the token checks
--   Reconciler     internal/reconciler: `World` is its state with the store and the router, a method
--                  is a function from a state to a result and a state (`M`), and `Outside` holds the
--                  answers of SQLite, Caddy, Docker and the network, each a function of the number of
--                  questions asked before. Its files, by what of the package they hold:
--     Placement, Health       schedule.go and the types of health.go
--     Backing                 backing.go: the compose document of backing services and its quoting
--     Probes, Images, Rollout, Retire, Deploy
--                             deployReplicaSet and what it calls
--     Services, Prepare, Image, Source, Compose, Apply
--                             Apply for each kind of app, Rollback and healSurfaceLocked
--     Remove                  Remove, for compose apps and others
--     Evacuate, Moves, Drain  evacuate.go, from one replica's move to EvacuateNode
--     Heal, ReplicaHeal       healBackoff, tryHealWith, and replicaheal.go
--     Pass, Failover          reconcile.go: a pass over the apps, the probes, the failover
--     Operations              these methods as the steps of a transition system
--   and for the proofs:
--     Rules, Keeps, Fails, Yields
--                             proof rules for methods
--     Questions, Asked, Untouched, Staging, Preparing, Moving, LogOnly
--                             what the steps before a route's flip leave alone
--     Success, GoesLive, Provenance, Spread, Replaced
--                             what the operations that return have done
--     Isolation, Isolates, MovedAlone, Cleanup, NoLeak, Removal
--                             what the operations that fail leave, and what they remove
--     Allowed, Served, Pinned, Patience
--                             placement, and when surfaces move off a node
--     Attempts, Backoff, Rounds
--                             the bounds on healing and on the polls
--     Sturdy, Operations/Enduring, Operations/Invariants
--                             invariants that every operation keeps, one file for each family of them
--
-- `r.mu` is held across each modelled method, so a method is one step; goroutines are not modelled.
-- A pass of the reconciler takes the lock for each part of its work; the model runs the parts in
-- the source's order, with no other operation in between.
-- The poll loops of the health gate run on `poll_rounds`, which stands for the deadline divided by the
-- poll interval; a poll that uses all its rounds fails with an error of its own. A round asks at
-- least one question, so as many rounds are enough as questions are asked before the deadline. All
-- else is structural recursion. A float64 is taken at its finite values, as a whole multiple of
-- 2^-1074, and its rounding is a parameter (`Float64`). Time is in nanoseconds, counts are natural
-- numbers, and the wrap-around of the 64-bit shift in healBackoff is written out. Texts are compared
-- by their code points, which is Go's order of their UTF-8. An error keeps the format of its text and
-- its arguments, not the text.
--
-- Not modelled: the text of the Caddyfile; RunLoop, which is a ticker around Reconcile; the recovery
-- of panics, the removal of temporary files, the constructors, setters and logging of
-- internal/reconciler; the encryption itself; the web UI's sessions and the decoding of requests.
-- These are plain code over the parts above, or state that no modelled operation reads. The rest of
-- the HTTP API, the MCP server, the CLI, the web UI, the agent, the Docker and compose drivers and
-- the git client are input and output; SQLite, TOML, JSON, Caddy and Docker themselves are not part
-- of the source.
pub mod Base
pub mod Scheduler
pub mod Store
pub mod Spec
pub mod Router
pub mod Reconciler
pub mod Secrets
pub mod Node
pub mod Auth
