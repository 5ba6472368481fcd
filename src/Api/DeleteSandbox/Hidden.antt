-- ===== src/Api/DeleteSandbox/Hidden.antt =====
-- What `handleDeleteSandbox` of internal/api/handlers.go tells of a sandbox of another tenant.
use n8n_sandbox_service.Base.{
  ◌≡◌, refl, Bool, true, false, String, Option, none, some, not, eq_refl, arith, if◌then◌else◌,
  lookup, lookup-erase,
}
use n8n_sandbox_service.Api.Store as Store
use n8n_sandbox_service.Api.Store.{SandboxRecord, Database}
use n8n_sandbox_service.Api.CreateSandbox.{Identity, Surroundings}
use n8n_sandbox_service.Api.DeleteSandbox.{
  Deletion, fails, may_access, delete_found, handle_delete_sandbox,
}

module _ (s : Surroundings) (who : Option Identity) (id : String) (db : Database) where
  lookup-deleted : lookup id (Store.delete id db).sandboxes ≡ none
  unfolding Store.delete
  lookup-deleted = ground (arith, lookup-erase id id db.sandboxes, eq_refl id)

  guarded :
      (bad locked unread : Bool) (d e : Deletion)
      → d ≡ record e { db = db }
      → (if bad
          then fails db 400 "invalid sandbox id"
          else if locked
          then fails db 500 "lock sandbox"
          else if unread
          then fails db 500 "get sandbox"
          else d)
        ≡ record (if bad
            then fails (Store.delete id db) 400 "invalid sandbox id"
            else if locked
            then fails (Store.delete id db) 500 "lock sandbox"
            else if unread
            then fails (Store.delete id db) 500 "get sandbox"
            else e) { db = db }
  guarded true locked unread d e same = refl
  guarded false true unread d e same = refl
  guarded false false true d e same = refl
  guarded false false false d e same = same

  -- A caller who may not access a sandbox is answered as if there were none under its id: the
  -- answer and the calls of runners are those of a database without it, and nothing changes.
  pub handle_delete_sandbox-hidden :
      (rec : SandboxRecord)
      → lookup id db.sandboxes ≡ some rec
      → may_access who rec ≡ false
      → handle_delete_sandbox s who id db
        ≡ record (handle_delete_sandbox s who id (Store.delete id db)) { db = db }
  unfolding handle_delete_sandbox delete_found
  handle_delete_sandbox-hidden rec there other =
      guarded (not (s.is_valid_uuid id)) s.lock_fails s.get_fails _ _
        (rw (there, other, lookup-deleted) refl)
