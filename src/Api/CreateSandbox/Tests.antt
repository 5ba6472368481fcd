-- ===== src/Api/CreateSandbox/Tests.antt =====
-- Runs of `handle_create_sandbox` of internal/api/handlers.go.
use n8n_sandbox_service.Base.{
  ◌⊎◌, ◌≡◌, refl, true, false, String, some, pos, Option, [], lookup, insert, ◌∷◌, ◌+◌,
}
use n8n_sandbox_service.Api.Placement.{placed}
use n8n_sandbox_service.Api.Registry.{Runner}
use n8n_sandbox_service.Api.Store.{SandboxRecord, Database, create}
use n8n_sandbox_service.Api.IdleSweep.{Config}
use n8n_sandbox_service.Api.CreateSandbox.{
  Role, tenant, Identity, Request, error, created, exists, runner_create, rollback, release,
  granted, Save, answers, lost_saved, Outcome, Surroundings, can_access, record_of, parse_egress,
  create_for, create_named, reserve_and_place, reserved_at, place_at, track, save_record,
  after_failed_save, existing_reply, handle_create_sandbox,
}
use n8n_sandbox_service.Api.CreateSandbox.Answers.{
  creates, rollbacks, is_created, created_answer, saved_answer, is_as_named,
}
use n8n_sandbox_service.Api.CreateSandbox.Handling.{
  handle_create_sandbox-tracked, handle_create_sandbox-tenant_id,
}

abbrev r1 : Runner
r1 = record {
  id = "r1";
  http_base_url = "http://r1/";
  control_grpc_addr = "r1:9";
  healthy = true;
  cordoned = false;
  capacity_total = pos 10;
  capacity_used = pos 0;
  capacity_stopped = pos 0;
  last_seen = 0;
}

abbrev config : Config
config = record {
  idle_stop_after = pos 60000000000;
  idle_delete_after = pos 60000000000;
  idle_delete_safety_buffer = pos 500000000;
  orphan_reap_buffer = pos 0;
}

abbrev surroundings : Save → Option String → Surroundings
surroundings save applied = record {
  uuid = "u";
  is_valid_uuid = λ id. true;
  lock_fails = false;
  get_fails = false;
  get_again_fails = false;
  get_tenant_fails = false;
  runner_delete_fails = false;
  delete_fails = false;
  quota = granted;
  placement = placed "r1";
  runner = λ id. r1;
  container_ip = "10.0.0.2";
  applied = applied;
  save = save;
  meanwhile = λ db. db;
  config = config;
  now = pos 100;
}

abbrev caller : Identity
caller = record { role = tenant; tenant_id = "t" }

abbrev request : Request
request = record { id = some "a"; ephemeral = false; egress = some "none" }

abbrev db : Database
db = record {
  sandboxes = [];
  tenants =
      (
        "t",
        record {
          id = "t";
          name = "T";
          external_ref = "";
          max_sandboxes = pos 2;
          created_at = pos 1;
        },
      )
      ∷ [];
  api_keys = [];
}

abbrev sandbox : SandboxRecord
sandbox = record_of (surroundings answers (some "none")) caller request "none" "a" "t" "r1"

abbrev saved_run : Outcome
saved_run =
    handle_create_sandbox (surroundings answers (some "none")) (some caller) (some request) db

abbrev lost_run : Outcome
lost_run =
    handle_create_sandbox (surroundings lost_saved (some "none")) (some caller) (some request) db

saved_run_answer : saved_run.reply ≡ created sandbox
unfolding handle_create_sandbox parse_egress create_for create_named lookup reserve_and_place
    reserved_at place_at track save_record create
saved_run_answer = refl

saved_run_effects : saved_run.effects ≡ (runner_create "r1" "a" ∷ release true ∷ release false ∷ [])
unfolding handle_create_sandbox parse_egress create_for create_named lookup reserve_and_place
    reserved_at place_at track save_record create
saved_run_effects = refl

-- The row of a save whose reply is lost is answered with, while its sandbox is rolled back.
lost_run_answer : lost_run.reply ≡ exists sandbox
unfolding handle_create_sandbox parse_egress create_for create_named lookup reserve_and_place
    reserved_at place_at track save_record after_failed_save create insert can_access existing_reply
lost_run_answer = refl

lost_run_effects :
    lost_run.effects
    ≡ (runner_create "r1" "a" ∷ rollback "r1:9" "a" ∷ release true ∷ release false ∷ [])
unfolding handle_create_sandbox parse_egress create_for create_named lookup reserve_and_place
    reserved_at place_at track save_record create
lost_run_effects = refl

-- A runner from before egress modes applied the default.
unapplied_reply :
    (handle_create_sandbox
      (surroundings answers (some "public"))
      (some caller)
      (some request)
      db).reply
    ≡ error 502 "runner did not apply the requested egress"
unfolding handle_create_sandbox parse_egress create_for create_named lookup reserve_and_place
    reserved_at place_at track save_record create
unapplied_reply = refl

handle_create_sandbox-tracked_example :
    (creates saved_run.effects ≡ rollbacks saved_run.effects + is_created saved_run.reply)
    × (saved_answer saved_run.reply saved_run.db ≡ created_answer saved_run.reply)
handle_create_sandbox-tracked_example =
    handle_create_sandbox-tracked (surroundings answers (some "none")) caller (λ e. refl)
      (some request) db

handle_create_sandbox-tenant_id_example :
    ((caller.role ≡ Role.admin) ⊎ (sandbox.tenant_id ≡ caller.tenant_id))
    × (is_as_named (some request) sandbox ≡ true)
unfolding handle_create_sandbox parse_egress create_for create_named lookup reserve_and_place
    reserved_at place_at track save_record create
handle_create_sandbox-tenant_id_example =
    handle_create_sandbox-tenant_id (surroundings answers (some "none")) caller (λ e. refl)
      (some request) db sandbox refl
