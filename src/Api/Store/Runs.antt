-- ===== src/Api/Store/Runs.antt =====
-- Any sequence of the operations that change the store.
use n8n_sandbox_service.Base.{
  ◌≡◌, refl, ap, ◌∙◌, ◌≢◌, inl, inr, String, Bool, true, none, some, eq_refl, ℤ, lookup,
  lookup-insert,
}
use n8n_sandbox_service.Api.Store.{
  SandboxRecord, Tenant, ApiKey, Database, empty_database, Result, ok, create, update_status,
  update_last_active, delete, create_tenant, create_api_key, create_tenant_with_api_key,
  update_tenant_limits, delete_tenant, revoke_api_key, get,
}
use n8n_sandbox_service.Api.Store.Outcomes.{create-cases, MayCreate}
use n8n_sandbox_service.Api.Store.Integrity.{
  IsValid, empty_database-IsValid, create-IsValid, update_sandbox-IsValid, delete-IsValid,
  create_tenant-IsValid, create_api_key-IsValid, create_tenant_with_api_key-IsValid,
  delete_tenant-IsValid, update_tenant_limits-IsValid, revoke_api_key-IsValid,
}
use n8n_sandbox_service.Api.Store.Quota.{
  Within, IsCareful, create-Within, update_sandbox-Within, delete-Within, create_tenant-Within,
  create_api_key-Within, create_tenant_with_api_key-Within, delete_tenant-Within,
  update_tenant_limits-Within, revoke_api_key-Within,
}

-- A run is careful if it sets no tenant's limit below what the tenant holds.
pub data Step (careful : Bool) : Database → Database → Type 0 where
  creates : {db : Database} (r : SandboxRecord) → Step careful db (create r db).0
  sets_status : {db : Database} (id status : String) → Step careful db (update_status id status db)
  touches : {db : Database} (id : String) (now : ℤ) → Step careful db (update_last_active id now db)
  deletes : {db : Database} (id : String) → Step careful db (delete id db)
  adds_tenant : {db : Database} (t : Tenant) → Step careful db (create_tenant t db).0
  adds_tenant_with_key :
      {db : Database} (t : Tenant) (k : ApiKey)
      → Step careful db (create_tenant_with_api_key t k db).0
  adds_key : {db : Database} (k : ApiKey) → Step careful db (create_api_key k db).0
  revokes : {db : Database} (id : String) (now : ℤ) → Step careful db (revoke_api_key id now db)
  limits :
      {db : Database} (id : String) (m : ℤ)
      → (careful ≡ true → IsCareful id m db)
      → Step careful db (update_tenant_limits id m db).0
  drops_tenant : {db : Database} (id : String) → Step careful db (delete_tenant id db).0

pub data Reach (careful : Bool) : Database → Type 0 where
  start : Reach careful empty_database
  later : {db x : Database} → Reach careful db → Step careful db x → Reach careful x

Step-IsValid : {careful : Bool} {db x : Database} → Step careful db x → IsValid db → IsValid x
unfolding update_status update_last_active
Step-IsValid (creates r) v = create-IsValid r _ v
Step-IsValid (sets_status id status) v = update_sandbox-IsValid id _ _ (λ r. (refl, refl)) v
Step-IsValid (touches id now) v = update_sandbox-IsValid id _ _ (λ r. (refl, refl)) v
Step-IsValid (deletes id) v = delete-IsValid id _ v
Step-IsValid (adds_tenant t) v = create_tenant-IsValid t _ v
Step-IsValid (adds_tenant_with_key t k) v = create_tenant_with_api_key-IsValid t k _ v
Step-IsValid (adds_key k) v = create_api_key-IsValid k _ v
Step-IsValid (revokes id now) v = revoke_api_key-IsValid id now _ v
Step-IsValid (limits id m careful) v = update_tenant_limits-IsValid id m _ v
Step-IsValid (drops_tenant id) v = delete_tenant-IsValid id _ v

-- After any sequence of operations each row of the three tables stands under its own id and no two
-- under one, each sandbox that is not an admin's belongs to a tenant that exists, and so does each
-- API key.
pub store-IsValid : {careful : Bool} {db : Database} → Reach careful db → IsValid db
store-IsValid start = empty_database-IsValid
store-IsValid (later r st) = Step-IsValid st (store-IsValid r)

Step-Within : {db x : Database} → Step true db x → IsValid db → Within db → Within x
unfolding update_status update_last_active
Step-Within (creates r) v w = create-Within r _ w
Step-Within (sets_status id status) v w = update_sandbox-Within id _ _ (λ r. refl) w
Step-Within (touches id now) v w = update_sandbox-Within id _ _ (λ r. refl) w
Step-Within (deletes id) v w = delete-Within id _ w
Step-Within (adds_tenant t) v w = create_tenant-Within t _ v w
Step-Within (adds_tenant_with_key t k) v w = create_tenant_with_api_key-Within t k _ v w
Step-Within (adds_key k) v w = create_api_key-Within k _ w
Step-Within (revokes id now) v w = revoke_api_key-Within id now _ w
Step-Within (limits id m careful) v w = update_tenant_limits-Within id m _ (careful refl) w
Step-Within (drops_tenant id) v w = delete_tenant-Within id _ w

-- After any sequence of operations that sets no limit below what its tenant holds, each tenant that
-- has a limit and is not the admin holds no more sandboxes than its limit.
pub Reach-Within : {db : Database} → Reach true db → Within db
unfolding lookup
Reach-Within start = λ id t admin found limited. absurd (cc)
Reach-Within (later r st) = Step-Within st (store-IsValid r) (Reach-Within r)

-- A create that answers `ok` stores its record, under an id that was new, for an admin or for a
-- tenant that exists and is not full; a create with any other answer changes nothing.
pub create-all_or_nothing :
    (r : SandboxRecord) (db : Database)
    → (((create r db).1 ≡ ok)
        → (get r.id (create r db).0 ≡ some r) × (get r.id db ≡ none) × MayCreate r db)
      × ((create r db).1 ≢ ok → (create r db).0 ≡ db)
unfolding get
create-all_or_nothing r db = elim (create-cases r db) [
  | inl (same, bad) ↦ (λ h. absurd (bad h), λ h. same)
  | inr (may, fresh, made) ↦ (
    λ h. (
      ap (λ (o : Database × Result). lookup r.id o.0.sandboxes) made
          ∙ lookup-insert r.id r.id r db.sandboxes
          ∙ rw (eq_refl r.id) refl,
      fresh,
      may,
    ),
    λ h. absurd (h (ap (λ o. o.1) made)),
  )
]
