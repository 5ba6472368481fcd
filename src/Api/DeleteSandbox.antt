-- ===== src/Api/DeleteSandbox.antt =====
-- `handleDeleteSandbox` of internal/api/handlers.go, on the store's tables, with the faults that a
-- request meets.
pub mod Hidden
mod Tests
use n8n_sandbox_service.Base.{
  ℕ, Bool, true, false, String, Option, none, some, List, [], ◌∷◌, not, if◌then◌else◌, lookup,
}
use n8n_sandbox_service.Api.Store as Store
use n8n_sandbox_service.Api.Store.{SandboxRecord, Database}
use n8n_sandbox_service.Api.CreateSandbox.{
  Identity, Surroundings, Effect, runner_delete, can_access,
}

-- 204, or an error's status and text.
pub data DeleteReply : Type 0 where
  no_content : DeleteReply
  failed : ℕ → String → DeleteReply

pub record Deletion : Type 0 where
  pub db : Database
  pub reply : DeleteReply
  pub effects : List Effect

abbrev pub fails : Database → ℕ → String → Deletion
fails db status text = record { db = db; reply = failed status text; effects = [] }

-- An unknown identity is denied.
abbrev pub may_access : Option Identity → SandboxRecord → Bool
may_access none rec = false
may_access (some who) rec = can_access who rec

-- `deleteSandboxRecord` and the answer.
unfoldable pub delete_sandbox_record : Surroundings → SandboxRecord → Database → Deletion
delete_sandbox_record s rec db =
    if s.runner_delete_fails
    then fails db 502 "failed to delete container"
    else let gone = Store.delete rec.id db in
      record {
        db = if s.delete_fails then db else gone;
        reply = if s.delete_fails then failed 500 "delete sandbox" else no_content;
        effects = runner_delete rec.runner_control_grpc_addr rec.id ∷ [];
      }

-- From what the store has under the id on.
unfoldable pub delete_found :
    Surroundings → Option Identity → Database → Option SandboxRecord → Deletion
delete_found s who db none = fails db 404 "sandbox not found"
delete_found s who db (some rec) =
    if not (may_access who rec)
    then fails db 404 "sandbox not found"
    else delete_sandbox_record s rec db

unfoldable pub handle_delete_sandbox : Surroundings → Option Identity → String → Database → Deletion
handle_delete_sandbox s who id db =
    if not (s.is_valid_uuid id)
    then fails db 400 "invalid sandbox id"
    else if s.lock_fails
    then fails db 500 "lock sandbox"
    else if s.get_fails
    then fails db 500 "get sandbox"
    else delete_found s who db (lookup id db.sandboxes)
