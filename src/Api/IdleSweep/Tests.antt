-- ===== src/Api/IdleSweep/Tests.antt =====
-- A sweep at concrete inputs: a sandbox idle since second 100, and windows of a minute.
use n8n_sandbox_service.Base.{
  ℕ, ◌+◌, ◌≡◌, refl, ◌⊎◌, true, false, List, IsUnique, [], ◌∷◌, pos, none, ◌-ℤ◌, lookup, insert,
  erase,
}
use n8n_sandbox_service.Api.Store.{
  Database, SandboxRecord, Tenant, get, create, create_tenant, insert_sandbox, insert_row,
  count_by_tenant, count_where, rows_where,
}
use n8n_sandbox_service.Api.Store.Runs.{Reach, start, later, adds_tenant, creates, store-IsValid}
use n8n_sandbox_service.Api.IdleSweep.Accounts.{Accounted}
use n8n_sandbox_service.Api.IdleSweep.Sweeps.{sweep_idle_sandboxes-Accounted}
use n8n_sandbox_service.Api.IdleSweep.{
  Config, idle_seconds, ephemeral_idle_window, is_past_idle_delete_window, orphan_reap_due,
  resolve_control_addr, call_delete, Rpc, done, unavailable, Env, call_failed, Effect,
  delete_idle_sandbox, act_delete, act_ephemeral, SweepPool, new_sweep_pool, runner_key, run,
  submit_runner, delete_cutoff, ephemeral_cutoff, sweep_idle_sandboxes,
}
use n8n_sandbox_service.Api.Registry.{new_memory, gone_long_enough, get_runner}
use n8n_sandbox_service.Api.Store.{empty_database}
use n8n_sandbox_service.Api.IdleSweep.Fence.{DoesNothing, act_delete-fenced, act_ephemeral-fenced}
use n8n_sandbox_service.Api.IdleSweep.Probe.{submit_runner-dead}
use n8n_sandbox_service.Api.IdleSweep.{group_by_runner_from}
use n8n_sandbox_service.Api.IdleSweep.Groups.{group_of, group_by_runner-of_runner}

abbrev config : Config
config = record {
  idle_stop_after = pos 60000000000;
  idle_delete_after = pos 60000000000;
  idle_delete_safety_buffer = pos 500000000;
  orphan_reap_buffer = pos 0;
}

abbrev stopped : SandboxRecord
stopped = record {
  id = "a";
  status = "stopped";
  created_at = pos 6;
  last_active_at = pos 100;
  rootfs_path = "";
  socket_path = "";
  container_ip = "";
  daemon_port = pos 8081;
  runner_id = "r1";
  runner_http_base = "";
  runner_control_grpc_addr = "r1:9";
  tenant_id = "t";
  ephemeral = false;
  egress = "public";
}

abbrev running : SandboxRecord
running = record stopped { status = "running"; ephemeral = true }

abbrev one_row : SandboxRecord → Database
one_row r = record empty_database { sandboxes = ("a", r) ∷ [] }

abbrev all_answer : Rpc → Env
all_answer r = record {
  registry = λ n. new_memory (pos 1);
  answer = λ n call. r;
  lock_fails = λ n. false;
  write_fails = λ n. false;
  cancelled = λ n. false;
}

-- At second 161 the sweep deletes the sandbox; requests refuse it since second 161.
abbrev now : ℕ
now = 161000000000

deleted-test :
    (act_delete
      (all_answer done)
      config
      now
      0
      (delete_cutoff (all_answer done) config now)
      stopped
      (one_row stopped)).calls
    ≡ call_delete "r1:9" "a" ∷ []
unfolding act_delete delete_cutoff delete_idle_sandbox orphan_reap_due resolve_control_addr
    idle_seconds ◌-ℤ◌ gone_long_enough new_memory lookup get_runner
deleted-test = refl

act_delete-fenced_example :
    DoesNothing
      (act_delete
        (all_answer done)
        config
        now
        0
        (delete_cutoff (all_answer done) config now)
        stopped
        (one_row stopped))
      (one_row stopped)
    ⊎ (is_past_idle_delete_window stopped config (pos 161) ≡ true)
act_delete-fenced_example =
    act_delete-fenced (all_answer done) config now 0 stopped (one_row stopped) refl refl refl

act_ephemeral-fenced_example :
    DoesNothing
      (act_ephemeral
        (all_answer done)
        config
        now
        0
        (ephemeral_cutoff (all_answer done) config now)
        running
        (one_row running))
      (one_row running)
    ⊎ (is_past_idle_delete_window running config (pos 161) ≡ true)
unfolding ephemeral_idle_window
act_ephemeral-fenced_example =
    act_ephemeral-fenced (all_answer done) config now 0 running (one_row running) refl refl refl

abbrev owner : Tenant
owner = record { id = "t"; name = ""; external_ref = ""; max_sandboxes = pos 1; created_at = pos 5 }

abbrev stored : Database
stored = (create stopped (create_tenant owner empty_database).0).0

stored-Reach : Reach true stored
stored-Reach = later (later start (adds_tenant owner)) (creates stopped)

-- The runner answers that it has deleted the sandbox, and the row goes.
abbrev swept : SweepPool
swept = sweep_idle_sandboxes (all_answer done) config now stored

sweep_idle_sandboxes-Accounted_example :
    Accounted (all_answer done) config now stopped swept.db swept.calls
unfolding create create_tenant insert_sandbox insert_row lookup count_by_tenant count_where
    rows_where insert
sweep_idle_sandboxes-Accounted_example =
    sweep_idle_sandboxes-Accounted (all_answer done) config now stopped stored
      (store-IsValid stored-Reach) refl

swept_row : get "a" swept.db ≡ none
unfolding create create_tenant insert_sandbox insert_row lookup count_by_tenant count_where
    rows_where insert get sweep_idle_sandboxes ◌-ℤ◌ new_memory erase
swept_row = refl

swept_calls : swept.calls ≡ call_delete "r1:9" "a" ∷ []
unfolding create create_tenant insert_sandbox insert_row lookup count_by_tenant count_where
    rows_where insert sweep_idle_sandboxes ◌-ℤ◌ new_memory erase
swept_calls = refl

abbrev act : ℕ → SandboxRecord → Database → Effect
act n rec db = record {
  db = db;
  calls = call_delete "r1:9" rec.id ∷ [];
  result = call_failed unavailable;
}

abbrev pool : SweepPool
pool = new_sweep_pool 0 (one_row stopped)

submit_runner-dead_example :
    submit_runner (all_answer unavailable) act "r1" (stopped ∷ stopped ∷ []) pool
    ≡ record (run (all_answer unavailable) act stopped pool) {
      skipped_unreachable = (run (all_answer unavailable) act stopped pool).skipped_unreachable + 1;
    }
unfolding get lookup runner_key
submit_runner-dead_example =
    submit_runner-dead (all_answer unavailable) act stopped stopped (stopped ∷ []) pool refl refl
      refl refl

abbrev of_another : SandboxRecord
of_another = record stopped { id = "b"; runner_id = "r2" }

abbrev candidates : List SandboxRecord
candidates = stopped ∷ of_another ∷ running ∷ []

group_by_runner-of_runner_example :
    IsUnique (group_by_runner_from [] candidates)
    × (group_of "r1" (group_by_runner_from [] candidates) ≡ stopped ∷ running ∷ [])
unfolding runner_key
group_by_runner-of_runner_example = group_by_runner-of_runner candidates "r1"
