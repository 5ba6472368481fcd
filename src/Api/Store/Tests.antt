-- ===== src/Api/Store/Tests.antt =====
-- A store with one tenant whose limit is one sandbox.
use n8n_sandbox_service.Base.{◌≡◌, refl, ◌≢◌, String, true, false, none, some, pos, lookup, insert}
use n8n_sandbox_service.Api.Store.{
  SandboxRecord, Tenant, Database, empty_database, ok, err_tenant_has_sandboxes,
  err_tenant_quota_exceeded, insert_row, rows_where, count_where, insert_sandbox, count_by_tenant,
  create, create_tenant, delete_tenant, get,
}
use n8n_sandbox_service.Api.Store.Outcomes.{MayCreate}
use n8n_sandbox_service.Api.Store.Integrity.{IsValid}
use n8n_sandbox_service.Api.Store.Quota.{Within}
use n8n_sandbox_service.Api.Store.Runs.{
  Reach, start, later, adds_tenant, creates, store-IsValid, Reach-Within, create-all_or_nothing,
}

abbrev tenant : Tenant
tenant = record {
  id = "t";
  name = "";
  external_ref = "";
  max_sandboxes = pos 1;
  created_at = pos 5;
}

abbrev sandbox : String → SandboxRecord
sandbox id = record {
  id = id;
  status = "running";
  created_at = pos 6;
  last_active_at = pos 6;
  rootfs_path = "";
  socket_path = "";
  container_ip = "";
  daemon_port = pos 8081;
  runner_id = "r1";
  runner_http_base = "";
  runner_control_grpc_addr = "";
  tenant_id = "t";
  ephemeral = false;
  egress = "public";
}

abbrev with_tenant : Database
with_tenant = (create_tenant tenant empty_database).0

abbrev with_one : Database
with_one = (create (sandbox "a") with_tenant).0

with_one-Reach : Reach true with_one
with_one-Reach = later (later start (adds_tenant tenant)) (creates (sandbox "a"))

full-test : (create (sandbox "b") with_one).1 ≡ err_tenant_quota_exceeded
unfolding create create_tenant insert_sandbox insert_row count_by_tenant count_where rows_where
    lookup insert
full-test = refl

kept-test : (delete_tenant "t" with_one).1 ≡ err_tenant_has_sandboxes
unfolding create create_tenant insert_sandbox insert_row count_by_tenant count_where rows_where
    lookup insert delete_tenant
kept-test = refl

store-IsValid_example : IsValid with_one
store-IsValid_example = store-IsValid with_one-Reach

Reach-Within_example : Within with_one
Reach-Within_example = Reach-Within with_one-Reach

create-all_or_nothing_example :
    (((create (sandbox "a") with_tenant).1 ≡ ok)
      → (get "a" with_one ≡ some (sandbox "a"))
        × (get "a" with_tenant ≡ none)
        × MayCreate (sandbox "a") with_tenant)
    × ((create (sandbox "a") with_tenant).1 ≢ ok → with_one ≡ with_tenant)
create-all_or_nothing_example = create-all_or_nothing (sandbox "a") with_tenant
