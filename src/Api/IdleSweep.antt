-- ===== src/Api/IdleSweep.antt =====
-- internal/api/ttl.go: the sweeper that stops and deletes idle sandboxes, and from handlers.go the
-- fence that refuses a sandbox past its window. A sweep runs its candidates one at a time, each
-- under the sandbox's lock; the requests and heartbeats between two runs are the arbitrary `Env`
-- and, in `Fence`, the arbitrary store that a run finds.
pub mod Fence
pub mod Probe
pub mod Groups
pub mod Reasons
pub mod Accounts
pub mod Sweeps
mod Tests
use n8n_sandbox_service.Base.{
  ℕ, zero, suc, ◌+◌, ◌-◌, ◌*◌, ◌%◌, ◌^◌, ◌≤◌, ◌<◌, ◌≡◌, refl, sym, ap, subst, ◌∙◌, ◌≢◌, ◌↔◌, ◌⊎◌,
  inl, inr, String, Bool, true, false, not, ◌&&◌, ◌||◌, Option, none, some, List, [], ◌∷◌, ◌++◌,
  map, str_eq, eq_iff, eq_refl, arith, ◌==◌, ltb, leb, if◌then◌else◌, length, get_elem?, set,
  length-append, length-map, ℤ, pos, negsuc, ltb_ℤ, leb_ℤ, ◌≤ℤ◌, ◌+ℤ◌, ◌-ℤ◌, +ℤ_parts, -ℤ_parts,
  ◌/◌, pos_part, neg_part, lookup, insert, erase, keep_entries, contains, remove, trim_right,
  trim_space, is_some, IsUnique, IsDistinct, lookup-nil, lookup-insert, lookup-erase,
  lookup-keep_entries, insert-IsUnique, erase-IsUnique, keep_entries-IsUnique, contains-append,
  contains-one, contains-remove, append-IsDistinct, remove-IsDistinct, Bool-cases, Option-cases,
  some_inj, ltb→lt, leb→le, ==_iff, length-insert, length-erase-le, length-keep_entries-le,
}
use n8n_sandbox_service.Api.Registry.{MemoryRegistry, Runner, get_runner, gone_long_enough}
use n8n_sandbox_service.Api.Store.{
  Database, SandboxRecord, get, delete, update_status, list_for_idle_reap_delete,
  list_for_idle_reap_stop,
}

-- Durations are nanoseconds; times of day are seconds, as `Unix` gives them.
pub record Config : Type 0 where
  pub idle_stop_after : ℤ
  pub idle_delete_after : ℤ
  pub idle_delete_safety_buffer : ℤ
  pub orphan_reap_buffer : ℤ

abbrev pub second : ℕ
second = 1000000000

abbrev remainder_one : ℕ → ℕ
remainder_one n = if n % second == 0 then 0 else 1

-- Go's `/` and `%` truncate towards 0.
unfoldable pub idle_seconds : ℤ → ℤ
idle_seconds (pos n) = pos (n / second + remainder_one n)
idle_seconds (negsuc n) = pos (remainder_one (n + 1)) -ℤ pos ((n + 1) / second)

unfoldable pub ephemeral_idle_window : Config → ℤ
ephemeral_idle_window cfg =
    if ltb_ℤ (pos 0) cfg.idle_stop_after then cfg.idle_stop_after else cfg.idle_delete_after

unfoldable pub is_past_idle_delete_window : SandboxRecord → Config → ℤ → Bool
unfolding ephemeral_idle_window idle_seconds
is_past_idle_delete_window rec cfg now =
    let window = if rec.ephemeral then ephemeral_idle_window cfg else cfg.idle_delete_after in
    ltb_ℤ (pos 0) window && ltb_ℤ (rec.last_active_at +ℤ idle_seconds window) now

abbrev default_orphan_buffer : ℤ
default_orphan_buffer = pos 300000000000

unfoldable pub orphan_reap_buffer : Config → ℤ
orphan_reap_buffer cfg =
    if leb_ℤ cfg.orphan_reap_buffer (pos 0) then default_orphan_buffer else cfg.orphan_reap_buffer

unfoldable pub resolve_control_addr : SandboxRecord → MemoryRegistry → String
unfolding get_runner trim_space
resolve_control_addr rec reg =
    if str_eq rec.runner_id ""
    then rec.runner_control_grpc_addr
    else elim (get_runner rec.runner_id reg) [
      | none ↦ rec.runner_control_grpc_addr
      | some run ↦
          let addr = trim_space run.control_grpc_addr in
          if str_eq addr "" then rec.runner_control_grpc_addr else addr
    ]

-- `now` is in nanoseconds here, as `time.Now()` has it.
unfoldable pub orphan_reap_due : MemoryRegistry → String → Config → ℕ → Bool
unfolding gone_long_enough orphan_reap_buffer
orphan_reap_due reg runner_id cfg now =
    if str_eq runner_id ""
    then false
    else gone_long_enough runner_id (orphan_reap_buffer cfg) now reg

-- A call of a runner, and what it answers.
pub data Call : Type 0 where
  call_delete : String → String → Call  -- the address, the sandbox
  call_stop : String → String → Call

pub data Rpc : Type 0 where
  done : Rpc
  unavailable : Rpc
  rpc_failed : Rpc

-- What surrounds the run with a given number.
pub record Env : Type 0 where
  pub registry : ℕ → MemoryRegistry
  pub answer : ℕ → Call → Rpc
  pub lock_fails : ℕ → Bool  -- or the read after it
  pub write_fails : ℕ → Bool  -- the store's
  pub cancelled : ℕ → Bool

pub data Acted : Type 0 where
  skipped : Acted
  acted : Acted
  call_failed : Rpc → Acted  -- a `runnerCallError`
  store_failed : Acted

-- The store and the calls that a run has made.
pub record Effect : Type 0 where
  pub db : Database
  pub calls : List Call
  pub result : Acted

-- A write of the store, which may fail and then changes nothing.
abbrev pub written : Bool → Database → Database → Database
written fails db new = if fails then db else new

abbrev written_result : Bool → Acted
written_result fails = if fails then store_failed else acted

abbrev pub delete_if_done : Bool → String → Database → Call → Rpc → Effect
delete_if_done fails id db call done = record {
  db = written fails db (delete id db);
  calls = call ∷ [];
  result = written_result fails;
}
delete_if_done fails id db call e = record { db = db; calls = call ∷ []; result = call_failed e }

abbrev pub stop_if_done : Bool → String → Database → Call → Rpc → Effect
stop_if_done fails id db call done = record {
  db = written fails db (update_status id "stopped" db);
  calls = call ∷ [];
  result = written_result fails;
}
stop_if_done fails id db call e = record { db = db; calls = call ∷ []; result = call_failed e }

-- A failed write is only logged here.
abbrev pub reap_orphan_sandbox : Bool → String → Database → Effect
reap_orphan_sandbox fails id db = record {
  db = written fails db (delete id db);
  calls = [];
  result = acted;
}

module _ (env : Env) (cfg : Config) (nanos : ℕ) (n : ℕ) where
  unfoldable pub delete_idle_sandbox : SandboxRecord → Database → Effect
  unfolding orphan_reap_due resolve_control_addr delete
  delete_idle_sandbox rec db =
      let call = call_delete (resolve_control_addr rec (env.registry n)) rec.id in
      if orphan_reap_due (env.registry n) rec.runner_id cfg nanos
      then reap_orphan_sandbox (env.write_fails n) rec.id db
      else delete_if_done (env.write_fails n) rec.id db call (env.answer n call)

  -- The three actions, on the record as it is read again under the lock.
  unfoldable pub act_delete : ℤ → SandboxRecord → Database → Effect
  unfolding delete_idle_sandbox
  act_delete delete_cutoff rec db =
      if not (str_eq rec.status "stopped") || ltb_ℤ delete_cutoff rec.last_active_at
      then record { db = db; calls = []; result = skipped }
      else delete_idle_sandbox rec db

  unfoldable pub act_ephemeral : ℤ → SandboxRecord → Database → Effect
  unfolding delete_idle_sandbox
  act_ephemeral cutoff rec db =
      if not (str_eq rec.status "running") || ltb_ℤ cutoff rec.last_active_at
      then record { db = db; calls = []; result = skipped }
      else delete_idle_sandbox rec db

  unfoldable pub act_stop : ℤ → SandboxRecord → Database → Effect
  unfolding orphan_reap_due resolve_control_addr delete update_status
  act_stop stop_cutoff rec db =
      let call = call_stop (resolve_control_addr rec (env.registry n)) rec.id in
      if not (str_eq rec.status "running") || ltb_ℤ stop_cutoff rec.last_active_at
      then record { db = db; calls = []; result = skipped }
      else if orphan_reap_due (env.registry n) rec.runner_id cfg nanos
      then reap_orphan_sandbox (env.write_fails n) rec.id db
      else stop_if_done (env.write_fails n) rec.id db call (env.answer n call)

unfoldable pub with_locked_sandbox :
    String → (SandboxRecord → Database → Effect) → Database → Effect
unfolding get
with_locked_sandbox id act db = elim (get id db) [
  | none ↦ record { db = db; calls = []; result = skipped }
  | some rec ↦ act rec db
]

-- A `sweepPool`, with the number of the runs so far.
pub record SweepPool : Type 0 where
  pub db : Database
  pub calls : List Call
  pub runs : ℕ
  pub unreachable : List String
  pub acted_count : ℕ
  pub skipped_unreachable : ℕ
  pub failed_count : ℕ

abbrev pub new_sweep_pool : ℕ → Database → SweepPool
new_sweep_pool runs db = record {
  db = db;
  calls = [];
  runs = runs;
  unreachable = [];
  acted_count = 0;
  skipped_unreachable = 0;
  failed_count = 0;
}

unfoldable pub runner_key : SandboxRecord → String
runner_key rec = if str_eq rec.runner_id "" then rec.runner_control_grpc_addr else rec.runner_id

abbrev count_result : String → Acted → SweepPool → SweepPool
count_result key skipped p = p
count_result key acted p = record p { acted_count = p.acted_count + 1 }
count_result key (call_failed unavailable) p = record p {
  unreachable = key ∷ p.unreachable;
  failed_count = p.failed_count + 1;
}
count_result key store_failed p = record p { failed_count = p.failed_count + 1 }
count_result key (call_failed e) p = record p { failed_count = p.failed_count + 1 }

module _ (env : Env) (act : ℕ → SandboxRecord → Database → Effect) where
  unfoldable pub run : SandboxRecord → SweepPool → SweepPool
  unfolding with_locked_sandbox runner_key
  run rec p =
      let e = with_locked_sandbox rec.id (act p.runs) p.db in
      if env.lock_fails p.runs
      then record p { runs = p.runs + 1; failed_count = p.failed_count + 1 }
      else count_result (runner_key rec) e.result
          (record p { db = e.db; calls = p.calls ++ e.calls; runs = p.runs + 1 })

  -- The loop of `submitRunner` after its probe.
  unfoldable pub submit_rest : String → List SandboxRecord → SweepPool → SweepPool
  unfolding run
  submit_rest key [] p = p
  submit_rest key (rec ∷ l) p =
      let rest = submit_rest key l (run rec p) in
      if env.cancelled p.runs
      then p
      else if contains key p.unreachable
      then record p { skipped_unreachable = p.skipped_unreachable + length (rec ∷ l) }
      else rest

  unfoldable pub submit_runner : String → List SandboxRecord → SweepPool → SweepPool
  unfolding run submit_rest
  submit_runner key [] p = p
  submit_runner key (rec ∷ l) p = submit_rest key l (run rec p)

  unfoldable pub submit : List (String × List SandboxRecord) → SweepPool → SweepPool
  unfolding submit_runner
  submit [] p = p
  submit ((key, group) ∷ groups) p = submit groups (submit_runner key group p)

abbrev group_or_none : Option (List SandboxRecord) → List SandboxRecord
group_or_none none = []
group_or_none (some group) = group

unfoldable pub group_by_runner_from :
    List (String × List SandboxRecord) → List SandboxRecord → List (String × List SandboxRecord)
unfolding runner_key
group_by_runner_from groups [] = groups
group_by_runner_from groups (rec ∷ l) =
    let key = runner_key rec in
    group_by_runner_from (insert key (group_or_none (lookup key groups) ++ (rec ∷ [])) groups) l

unfoldable pub sweep_concurrently :
    Env → List SandboxRecord → (ℕ → SandboxRecord → Database → Effect) → ℕ → Database → SweepPool
unfolding submit group_by_runner_from
sweep_concurrently env records act runs db =
    submit env act (group_by_runner_from [] records) (new_sweep_pool runs db)

module _ (env : Env) (cfg : Config) (nanos : ℕ) where
  abbrev pub unix : ℤ
  unix = pos (nanos / second)

  unfoldable pub delete_cutoff : ℤ
  unfolding idle_seconds
  delete_cutoff =
      (unix -ℤ idle_seconds cfg.idle_delete_after) -ℤ idle_seconds cfg.idle_delete_safety_buffer

  unfoldable pub ephemeral_cutoff : ℤ
  unfolding idle_seconds ephemeral_idle_window
  ephemeral_cutoff =
      (unix -ℤ idle_seconds (ephemeral_idle_window cfg))
      -ℤ idle_seconds cfg.idle_delete_safety_buffer

  unfoldable pub stop_cutoff : ℤ
  unfolding idle_seconds
  stop_cutoff = unix -ℤ idle_seconds cfg.idle_stop_after

  unfoldable pub sweep_idle_delete_sandboxes : ℕ → Database → SweepPool
  unfolding sweep_concurrently act_delete delete_cutoff list_for_idle_reap_delete
  sweep_idle_delete_sandboxes runs db =
      sweep_concurrently env (list_for_idle_reap_delete delete_cutoff db)
        (λ n. act_delete env cfg nanos n delete_cutoff) runs db

  unfoldable pub sweep_ephemeral_sandboxes : ℕ → Database → SweepPool
  unfolding sweep_concurrently act_ephemeral ephemeral_cutoff list_for_idle_reap_stop
  sweep_ephemeral_sandboxes runs db =
      sweep_concurrently env (list_for_idle_reap_stop ephemeral_cutoff true db)
        (λ n. act_ephemeral env cfg nanos n ephemeral_cutoff) runs db

  unfoldable pub sweep_idle_stop_sandboxes : ℕ → Database → SweepPool
  unfolding sweep_concurrently act_stop stop_cutoff list_for_idle_reap_stop
  sweep_idle_stop_sandboxes runs db =
      sweep_concurrently env (list_for_idle_reap_stop stop_cutoff false db)
        (λ n. act_stop env cfg nanos n stop_cutoff) runs db

  -- One phase that the configuration may leave out.
  abbrev pub phase : Bool → (ℕ → Database → SweepPool) → SweepPool → SweepPool
  phase true sweep p = let q = sweep p.runs p.db in record q { calls = p.calls ++ q.calls }
  phase false sweep p = p

  -- The store, the runs and the calls after a sweep.
  unfoldable pub sweep_idle_sandboxes : Database → SweepPool
  unfolding sweep_idle_delete_sandboxes sweep_ephemeral_sandboxes sweep_idle_stop_sandboxes
  sweep_idle_sandboxes db =
      let stopped =
        phase (ltb_ℤ (pos 0) cfg.idle_stop_after) sweep_idle_stop_sandboxes (new_sweep_pool 0 db) in
      let deleted =
        phase (ltb_ℤ (pos 0) cfg.idle_delete_after) sweep_idle_delete_sandboxes stopped in
      let ephemeral =
        phase (ltb_ℤ (pos 0) (ephemeral_idle_window cfg)) sweep_ephemeral_sandboxes deleted in
      if env.cancelled stopped.runs
      then stopped
      else if env.cancelled deleted.runs
      then deleted
      else ephemeral
