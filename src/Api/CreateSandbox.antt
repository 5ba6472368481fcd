-- ===== src/Api/CreateSandbox.antt =====
-- `handleCreateSandbox` of internal/api/handlers.go: one create request from its identity to its
-- answer, on the store's tables. The request's body is decoded; the quota's reply, the placement and
-- the faults of the store are arguments, and `meanwhile` is what other requests did to the tables
-- while the runner created the sandbox. Encoding the options, which cannot fail, is left out.
pub mod Answers
pub mod Handling
pub mod Placing
mod Tests
use n8n_sandbox_service.Base.{
  ℕ, Bool, true, false, String, Option, none, some, List, [], ◌∷◌, ◌++◌, ℤ, pos, str_eq, not, ◌&&◌,
  ◌||◌, if◌then◌else◌, lookup, trim_right, ◌==◌,
}
use Prim.Native.Char.{Char, code}
use n8n_sandbox_service.Api.Registry.{Runner}
use n8n_sandbox_service.Api.Placement.{
  Placement, placed, no_runner, pick_error, create_error, at_capacity,
}
use n8n_sandbox_service.Api.Store as Store
use n8n_sandbox_service.Api.Store.{
  SandboxRecord, Database, Result, ok, err_tenant_not_found, err_tenant_quota_exceeded,
  is_admin_tenant_id,
}
use n8n_sandbox_service.Api.IdleSweep.{Config, is_past_idle_delete_window}

pub data Role : Type 0 where
  admin provisioner scaler tenant : Role

pub record Identity : Type 0 where
  pub role : Role
  pub tenant_id : String

pub record Request : Type 0 where
  pub id : Option String
  pub ephemeral : Bool
  pub egress : Option String

-- The status of an error, with its text up to its variable part or the step whose error it is; or
-- the sandbox, with status 201 or 200.
pub data Reply : Type 0 where
  error : ℕ → String → Reply
  created : SandboxRecord → Reply
  exists : SandboxRecord → Reply

-- The calls that leave the API: a create that a runner confirmed, deletes on runners, and the calls of
-- the quota's release function, of which the first counts and which does nothing for an admin.
pub data Effect : Type 0 where
  runner_create : String → String → Effect
  rollback : String → String → Effect
  runner_delete : String → String → Effect
  release : Bool → Effect

pub record Outcome : Type 0 where
  pub db : Database
  pub reply : Reply
  pub effects : List Effect

-- What `tenantQuota.reserve` returns.
pub data Reservation : Type 0 where
  granted full count_failed : Reservation

-- How a call of the store's `Create` can end besides its own results: an error of the connection,
-- after which the row is saved or not.
pub data Save : Type 0 where
  answers lost_saved lost_unsaved : Save

pub record Surroundings : Type 0 where
  pub uuid : String
  pub is_valid_uuid : String → Bool
  pub lock_fails : Bool
  pub get_fails : Bool
  pub get_again_fails : Bool
  pub get_tenant_fails : Bool
  pub runner_delete_fails : Bool
  pub delete_fails : Bool
  pub quota : Reservation
  pub placement : Placement
  pub runner : String → Runner
  pub container_ip : String
  pub applied : Option String
  pub save : Save
  pub meanwhile : Database → Database
  pub config : Config
  pub now : ℤ

abbrev pub answer : Database → Reply → Outcome
answer db reply = record { db = db; reply = reply; effects = [] }

unfoldable pub parse_egress : String → Option String
parse_egress s =
    if str_eq s "" || str_eq s "public"
    then some "public"
    else if str_eq s "none"
    then some "none"
    else none

abbrev pub egress_field : Option String → String
egress_field none = ""
egress_field (some e) = e

abbrev pub is_admin : Role → Bool
is_admin admin = true
is_admin _ = false

abbrev pub is_tenant : Role → Bool
is_tenant tenant = true
is_tenant _ = false

unfoldable pub can_access : Identity → SandboxRecord → Bool
can_access who rec =
    if is_admin who.role
    then true
    else is_tenant who.role
      && not (is_admin_tenant_id rec.tenant_id)
      && str_eq rec.tenant_id who.tenant_id

-- The egress mode that the sandbox has must be the one that the request names.
unfoldable pub existing_reply : SandboxRecord → String → Option String → Reply
existing_reply existing egress none = exists existing
existing_reply existing egress (some given) =
    if str_eq egress existing.egress
    then exists existing
    else error 409 "sandbox exists with egress"

-- The options that the runner echoes, none where they cannot be read, are the requested ones.
abbrev pub applies : String → Option String → Bool
applies egress none = false
applies egress (some e) = str_eq e egress

abbrev pub is_slash : Char → Bool
is_slash c = code c == b'/'

module _ (s : Surroundings) (who : Identity) (req : Request) (egress : String) where
  abbrev pub record_of : String → String → String → SandboxRecord
  record_of id tenant_id runner_id = record {
    id = id;
    status = "running";
    created_at = s.now;
    last_active_at = s.now;
    rootfs_path = "";
    socket_path = "";
    container_ip = s.container_ip;
    daemon_port = pos 8081;
    runner_id = (s.runner runner_id).id;
    runner_http_base = trim_right is_slash (s.runner runner_id).http_base_url;
    runner_control_grpc_addr = (s.runner runner_id).control_grpc_addr;
    tenant_id = tenant_id;
    ephemeral = req.ephemeral;
    egress = egress;
  }

  unfoldable pub save_error : Result → Reply
  save_error err_tenant_quota_exceeded = error 403 "tenant sandbox quota exceeded"
  save_error err_tenant_not_found = error 409 "tenant not found"
  save_error _ = error 500 "failed to store sandbox"

  -- Another request may have saved the id since.
  unfoldable pub after_failed_save : String → Database → Result → Reply
  after_failed_save id db r = elim (if s.get_again_fails then none else lookup id db.sandboxes) [
    | none ↦ save_error r
    | some existing ↦
        if can_access who existing
        then existing_reply existing egress req.egress
        else error 409 "sandbox id unavailable"
  ]

  abbrev pub may_be_saved : Result → Bool
  may_be_saved err_tenant_quota_exceeded = false
  may_be_saved err_tenant_not_found = false
  may_be_saved _ = true

  -- `Create`, the compensation and the answer.
  abbrev pub saved_outcome : String → SandboxRecord → Database × Result → Outcome
  saved_outcome addr rec (db, ok) = record {
    db = db;
    reply = created rec;
    effects = release true ∷ [];
  }
  saved_outcome addr rec (db, r) = record {
    db = db;
    reply = after_failed_save rec.id db r;
    effects = rollback addr rec.id ∷ release (may_be_saved r) ∷ [];
  }

  -- `constraint_failed` stands for any error of the engine here.
  unfoldable pub save_record : SandboxRecord → Database → Database × Result
  save_record rec db = elim s.save [
    | answers ↦ Store.create rec db
    | lost_saved ↦ ((Store.create rec db).0, Result.constraint_failed)
    | lost_unsaved ↦ (db, Result.constraint_failed)
  ]

  -- On the runner that took the create.
  unfoldable pub track : String → String → String → Database → Outcome
  track id tenant_id runner_id db =
      let rec = record_of id tenant_id runner_id in
      let addr = (s.runner runner_id).control_grpc_addr in
      let done : Outcome =
        if applies egress s.applied then saved_outcome addr rec (save_record rec db) else record {
          db = db;
          reply = error 502 "runner did not apply the requested egress";
          effects = rollback addr id ∷ [];
        } in
      record done { effects = runner_create runner_id id ∷ done.effects }

  -- From the placement's result on.
  unfoldable pub place_at : String → String → Database → Placement → Outcome
  place_at id tenant_id db (placed runner_id) = track id tenant_id runner_id (s.meanwhile db)
  place_at id tenant_id db no_runner = answer db (error 503 "no runners available")
  place_at id tenant_id db at_capacity = answer db (error 503 "all runners at capacity")
  place_at id tenant_id db pick_error = answer db (error 500 "pick runner")
  place_at id tenant_id db (create_error runner_id) =
      answer db (error 500 "create sandbox on runner")

  -- The deferred `releaseQuota(false)`.
  abbrev pub then_release : Outcome → Outcome
  then_release o = record o { effects = o.effects ++ (release false ∷ []) }

  unfoldable pub reserved_at : String → Database → Reservation → Outcome
  reserved_at id db granted = then_release (place_at id who.tenant_id db s.placement)
  reserved_at id db full = answer db (error 403 "tenant sandbox quota exceeded")
  reserved_at id db count_failed = answer db (error 500 "count sandboxes")

  unfoldable pub reserve_and_place : String → Database → Outcome
  reserve_and_place id db =
      if not (is_tenant who.role)
      then then_release (place_at id "__admin__" db s.placement)
      else if s.get_tenant_fails
      then answer db (error 500 "get tenant")
      else elim (lookup who.tenant_id db.tenants) [
        | none ↦ answer db (error 401 "invalid API key")
        | some t ↦ reserved_at id db s.quota
      ]

  -- Past its window a sandbox is deleted, and its id is free again.
  unfoldable pub replace_expired : String → SandboxRecord → Database → Outcome
  replace_expired id existing db =
      let deleted = runner_delete existing.runner_control_grpc_addr existing.id in
      if s.runner_delete_fails
      then answer db (error 502 "failed to delete container")
      else if s.delete_fails
      then record { db = db; reply = error 500 "delete sandbox"; effects = deleted ∷ [] }
      else let o = reserve_and_place id (Store.delete existing.id db) in
        record o { effects = deleted ∷ o.effects }

  -- A create with an id of the client's, under that id's lock.
  unfoldable pub create_named : String → Database → Outcome
  create_named id db =
      if not (s.is_valid_uuid id)
      then answer db (error 400 "invalid sandbox id")
      else if s.lock_fails
      then answer db (error 500 "lock sandbox")
      else if s.get_fails
      then answer db (error 500 "get sandbox")
      else elim (lookup id db.sandboxes) [
        | none ↦ reserve_and_place id db
        | some existing ↦
            if not (can_access who existing)
            then answer db (error 409 "sandbox id unavailable")
            else if is_past_idle_delete_window existing s.config s.now
            then replace_expired id existing db
            else answer db (existing_reply existing egress req.egress)
      ]

  unfoldable pub create_for : Option String → Database → Outcome
  create_for none db = reserve_and_place s.uuid db
  create_for (some id) db = create_named id db

-- The whole handler; no identity and no request are a missing authentication and a bad body.
unfoldable pub handle_create_sandbox :
    Surroundings → Option Identity → Option Request → Database → Outcome
handle_create_sandbox s none req db = answer db (error 401 "invalid API key")
handle_create_sandbox s (some who) req db =
    if not (is_admin who.role) && not (is_tenant who.role)
    then answer db (error 403 "sandbox access requires an admin or tenant API key")
    else elim req [
      | none ↦ answer db (error 400 "invalid request body")
      | some r ↦ elim (parse_egress (egress_field r.egress)) [
        | none ↦ answer db (error 400 "invalid egress")
        | some egress ↦ create_for s who r egress r.id db
      ]
    ]
