-- ===== src/Api/DeleteSandbox/Tests.antt =====
-- Runs of `handleDeleteSandbox` of internal/api/handlers.go.
use n8n_sandbox_service.Base.{◌≡◌, refl, true, false, some, none, pos, [], ◌∷◌, lookup, erase}
use n8n_sandbox_service.Api.Placement.{no_runner}
use n8n_sandbox_service.Api.Store as Store
use n8n_sandbox_service.Api.Store.{SandboxRecord, Database}
use n8n_sandbox_service.Api.CreateSandbox.{
  tenant, Identity, granted, answers, Surroundings, runner_delete, can_access,
}
use n8n_sandbox_service.Api.DeleteSandbox.{
  no_content, delete_sandbox_record, delete_found, handle_delete_sandbox,
}
use n8n_sandbox_service.Api.DeleteSandbox.Hidden.{handle_delete_sandbox-hidden}

abbrev surroundings : Surroundings
surroundings = record {
  uuid = "u";
  is_valid_uuid = λ id. true;
  lock_fails = false;
  get_fails = false;
  get_again_fails = false;
  get_tenant_fails = false;
  runner_delete_fails = false;
  delete_fails = false;
  quota = granted;
  placement = no_runner;
  runner = λ id. record {
    id = id;
    http_base_url = "";
    control_grpc_addr = "";
    healthy = true;
    cordoned = false;
    capacity_total = pos 1;
    capacity_used = pos 0;
    capacity_stopped = pos 0;
    last_seen = 0;
  };
  container_ip = "";
  applied = none;
  save = answers;
  meanwhile = λ db. db;
  config = record {
    idle_stop_after = pos 0;
    idle_delete_after = pos 0;
    idle_delete_safety_buffer = pos 0;
    orphan_reap_buffer = pos 0;
  };
  now = pos 100;
}

abbrev owner : Identity
owner = record { role = tenant; tenant_id = "t" }

abbrev stranger : Identity
stranger = record { role = tenant; tenant_id = "other" }

abbrev sandbox : SandboxRecord
sandbox = record {
  id = "a";
  status = "running";
  created_at = pos 6;
  last_active_at = pos 100;
  rootfs_path = "";
  socket_path = "";
  container_ip = "";
  daemon_port = pos 8081;
  runner_id = "r1";
  runner_http_base = "";
  runner_control_grpc_addr = "r1:9";
  tenant_id = "t";
  ephemeral = false;
  egress = "public";
}

abbrev db : Database
db = record { sandboxes = ("a", sandbox) ∷ []; tenants = []; api_keys = [] }

owner_deletes : handle_delete_sandbox surroundings (some owner) "a" db ≡ record {
  db = record { sandboxes = []; tenants = []; api_keys = [] };
  reply = no_content;
  effects = runner_delete "r1:9" "a" ∷ [];
}
unfolding handle_delete_sandbox delete_found delete_sandbox_record lookup erase can_access
    Store.delete
owner_deletes = refl

handle_delete_sandbox-hidden_example :
    handle_delete_sandbox surroundings (some stranger) "a" db
    ≡ record (handle_delete_sandbox surroundings (some stranger) "a" (Store.delete "a" db)) {
      db = db;
    }
unfolding lookup can_access
handle_delete_sandbox-hidden_example =
    handle_delete_sandbox-hidden surroundings (some stranger) "a" db sandbox refl refl
