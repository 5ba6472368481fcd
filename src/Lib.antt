-- ===== src/Lib.antt =====
-- n8n sandbox service: an API that places sandboxes on runners, runners that host them, and a daemon
-- in each sandbox that executes commands. This library models the parts that keep state.
--
-- How the parts interact: a create request passes the tenant quota, is placed on a runner that the
-- registry chooses, is saved in the store, and then gives its quota slot back. A tenant's key is
-- looked up through the API key cache and gives the handlers an identity. The idle sweeper stops and
-- deletes sandboxes in the store and on their runners, while the handlers refuse a sandbox past its
-- window. In the sandbox the daemon runs each command as an execution that clients follow or poll,
-- and lose and find again. A runner keeps each sandbox in a microVM on one of its slots, stops it to
-- a snapshot and wakes it.
--
-- Which file models which part (paths from the repository's root):
--   Daemon/Execution: internal/daemon/execution.go and protocol.go, the bounded history of a
--     command's events. `append`, `events_after`, `has_history_after`, `snapshot` are the methods of
--     Execution; `follow_turn` is one turn of the loop of Follow. History relates the history to the
--     log of all events, Requests to what a client asks for, Following and Sessions to followers.
--   Daemon/ExecManager: internal/daemon/exec_manager.go, the executions by id. They are shared by
--     pointer, so they live in a heap and the map holds addresses.
--   Api/TenantQuota: internal/api/tenant_quota.go, with the creates of one pod as processes.
--   Api/Registry: internal/api/registry/memory.go, the runners and the choice of one.
--   Api/Placement: `placeSandbox` of internal/api/placement.go.
--   Api/Store: internal/api/store/store.go, sqlite.go and migrations_sqlite.go, tables and queries.
--   Api/CreateSandbox: `handleCreateSandbox` of internal/api/handlers.go, from the identity to the
--     answer, on the tables of Api/Store; `can_access` of internal/api/middleware_auth.go and
--     `parse_egress` of internal/runner/runtime/runtime.go.
--   Api/DeleteSandbox: `handleDeleteSandbox` of internal/api/handlers.go.
--   Api/Auth: `AuthMiddleware` of internal/api/middleware_auth.go and the public paths of
--     internal/probes/probes.go: `decide` by the key sets, `cached_lookup` and `lookup_tenant_key`
--     for a tenant's key.
--   Api/IdleSweep: internal/api/ttl.go and the fence of internal/api/handlers.go.
--   Api/ApiKeyCache: internal/api/apikey_cache.go, with its lookups and revocations as steps.
--   Daemon/Exec: `streamLines` of internal/daemon/exec.go, the output of a command by lines.
--   Runner/Firecracker: internal/runner/runtime/firecracker.ee, runtime.go, stop_wake.go,
--     network_wirer.go and crash.go: slots, tracked sandboxes and the claims on them. Machine has
--     the start and the teardown of one microVM, Lifecycle the operations: `create_sandbox`,
--     `stop_sandbox`, `ensure_running`, `delete_sandbox`, `handle_guest_death`. The states are
--     shared by pointer, so they live in a heap. Owners, Handing and Validity are about the
--     invariant, the other files about one operation each.
--   Shellquote: internal/shellquote/quote.go, and the words that a shell reads.
--   Limits: internal/limits/limits.go, the limit on operations in progress per key.
--   Base: lists, maps with text keys, integers and families that the parts share.
--
-- State is passed explicitly. What interleaves under a mutex is a step relation, one step for each
-- stretch of code that holds the lock; so are the reads with the lock released. Errors are values of
-- result types. Go's int and int64 are integers, written as naturals where the code keeps them above
-- 0; uint64 counters keep their wrap-around, and a theorem that needs a counter below it says so.
-- Times are nanoseconds, or seconds where the code uses Unix times; the clock is an argument.
--
-- Fuel: `placeSandbox` is given one unit for each of its three attempts. All other loops recurse on
-- their lists, or on the bytes left. The wait for a sandbox's claim is a list of what other operations
-- do between two looks, and ends with it.
--
-- Parameters: JSON encoding of an event, the runners' answers to RPCs, the clock and the client's
-- departure in a placement, what surrounds each run of a sweep (the registry, the runners' answers,
-- the faults of the store), and what a create request meets (the quota's reply, the placement, the
-- faults of the store, what others do to the tables meanwhile); the answers of the host commands and
-- of the Firecracker API, the URL of a slot, the reads of a command's pipe and `unicode/utf8`; and
-- the digest of an API key.
--
-- Not modelled: the Docker runtime and the rest of the runner, the admission of snapshots and the
-- shutdown of the Firecracker runtime, and other operations on a sandbox between the steps of one
-- that has claimed it; the HTTP routing of the API, its other middlewares and handlers, its proxy
-- and its configuration, the Postgres store and registry, the starting of processes and the file
-- operations of the daemon, metrics, logging, TLS, probes, the command-line programs, the SDKs and
-- the end-to-end tests. Faults of the database engine are modelled only in the API's requests and in
-- the runs of a sweep; the per-sandbox locks, the parallel runs of a sweep and the sharing of one
-- read by several key lookups are not modelled either.
pub mod Base
pub mod Api
pub mod Daemon
pub mod Limits
pub mod Runner
pub mod Shellquote
