-- ===== src/Api/Store.antt =====
-- internal/api/store/store.go and the queries of internal/api/store/sqlite.go on the tables of
-- migrations_sqlite.go: a table is an association list by its primary key, in the order of
-- insertion. Each operation is one statement or one transaction, and the store has one connection,
-- so an operation is one step. A fault of the database engine, which leaves the tables as they are,
-- is not modelled; the constraints of the tables are.
pub mod Outcomes
pub mod Integrity
pub mod Quota
pub mod Runs
mod Tests
use n8n_sandbox_service.Base.{
  ℕ, zero, suc, ◌+◌, ◌-◌, ◌*◌, ◌%◌, ◌^◌, ◌≤◌, ◌<◌, ◌≡◌, refl, sym, ap, subst, ◌∙◌, ◌≢◌, ◌↔◌, ◌⊎◌,
  inl, inr, String, Bool, true, false, not, ◌&&◌, ◌||◌, Option, none, some, List, [], ◌∷◌, ◌++◌,
  map, str_eq, eq_iff, eq_refl, arith, ◌==◌, ltb, leb, if◌then◌else◌, length, get_elem?, set,
  length-append, length-map, ℤ, pos, negsuc, ltb_ℤ, leb_ℤ, ◌≤ℤ◌, pos_part, neg_part, lookup, insert,
  erase, keep_entries, contains, remove, trim_right, trim_space, is_some, IsUnique, IsDistinct,
  lookup-nil, lookup-insert, lookup-erase, lookup-keep_entries, insert-IsUnique, erase-IsUnique,
  keep_entries-IsUnique, contains-append, contains-one, contains-remove, append-IsDistinct,
  remove-IsDistinct, Bool-cases, Option-cases, ltb→lt, leb→le, ==_iff, length-insert,
  length-erase-le, length-keep_entries-le,
}

pub record SandboxRecord : Type 0 where
  pub id : String
  pub status : String
  pub created_at : ℤ
  pub last_active_at : ℤ
  pub rootfs_path : String
  pub socket_path : String
  pub container_ip : String
  pub daemon_port : ℤ
  pub runner_id : String
  pub runner_http_base : String
  pub runner_control_grpc_addr : String
  pub tenant_id : String
  pub ephemeral : Bool
  pub egress : String

pub record Tenant : Type 0 where
  pub id : String
  pub name : String
  pub external_ref : String
  pub max_sandboxes : ℤ
  pub created_at : ℤ

pub record ApiKey : Type 0 where
  pub id : String
  pub tenant_id : String
  pub key_hash : String
  pub prefix : String
  pub created_at : ℤ
  pub revoked_at : ℤ  -- 0 is active

-- A row of api_keys: `none` is NULL.
pub record ApiKeyRow : Type 0 where
  pub key : ApiKey
  pub revoked : Option ℤ

pub record Database : Type 0 where
  pub sandboxes : List (String × SandboxRecord)
  pub tenants : List (String × Tenant)
  pub api_keys : List (String × ApiKeyRow)

abbrev pub empty_database : Database
empty_database = record { sandboxes = []; tenants = []; api_keys = [] }

pub data Result : Type 0 where
  ok : Result
  constraint_failed : Result  -- a primary key that is taken, or a reference to no row
  err_tenant_has_sandboxes : Result
  err_tenant_not_found : Result
  err_tenant_quota_exceeded : Result
  err_api_key_tenant_mismatch : Result

abbrev pub is_admin_tenant_id : String → Bool
is_admin_tenant_id tenant_id = str_eq tenant_id "" || str_eq tenant_id "__admin__"

module _ {ℓ} {V : Type ℓ} where
  -- INSERT: the primary key must be new.
  unfoldable pub insert_row : String → V → List (String × V) → Option (List (String × V))
  insert_row id v table = if is_some (lookup id table) then none else some (insert id v table)

  -- UPDATE ... WHERE id = ?
  unfoldable pub update_row : String → (V → V) → List (String × V) → List (String × V)
  update_row id f table = elim (lookup id table) [ none ↦ table | some v ↦ insert id (f v) table ]

  -- SELECT ... WHERE
  unfoldable pub rows_where : (V → Bool) → List (String × V) → List V
  rows_where p [] = []
  rows_where p ((id, v) ∷ table) = if p v then v ∷ rows_where p table else rows_where p table

  -- SELECT COUNT(*) ... WHERE
  unfoldable pub count_where : (V → Bool) → List (String × V) → ℕ
  unfolding rows_where
  count_where p table = length (rows_where p table)

  -- ORDER BY ... DESC; rows with one key stay in the order of insertion.
  unfoldable pub insert_newest : (V → ℤ) → V → List V → List V
  insert_newest key v [] = v ∷ []
  insert_newest key v (w ∷ l) =
      if leb_ℤ (key w) (key v) then v ∷ w ∷ l else w ∷ insert_newest key v l

  unfoldable pub newest_first : (V → ℤ) → List V → List V
  unfolding insert_newest
  newest_first key [] = []
  newest_first key (v ∷ l) = insert_newest key v (newest_first key l)

unfoldable pub insert_sandbox : SandboxRecord → Database → Database × Result
unfolding insert_row
insert_sandbox r db = elim (insert_row r.id r db.sandboxes) [
  | none ↦ (db, constraint_failed)
  | some table ↦ (record db { sandboxes = table }, ok)
]

abbrev pub of_tenant : String → SandboxRecord → Bool
of_tenant tenant_id r = str_eq r.tenant_id tenant_id

unfoldable pub count_by_tenant : String → Database → ℕ
unfolding count_where
count_by_tenant tenant_id db = count_where (of_tenant tenant_id) db.sandboxes

-- The quota check of `Create`, for a limit above 0.
abbrev pub is_full : ℤ → ℕ → Bool
is_full max_sandboxes n = ltb_ℤ (pos 0) max_sandboxes && leb_ℤ max_sandboxes (pos n)

unfoldable pub create : SandboxRecord → Database → Database × Result
unfolding insert_sandbox count_by_tenant
create r db =
    if is_admin_tenant_id r.tenant_id
    then insert_sandbox r db
    else elim (lookup r.tenant_id db.tenants) [
      | none ↦ (db, err_tenant_not_found)
      | some t ↦
          if is_full t.max_sandboxes (count_by_tenant r.tenant_id db)
          then (db, err_tenant_quota_exceeded)
          else insert_sandbox r db
    ]

unfoldable pub get : String → Database → Option SandboxRecord
get id db = lookup id db.sandboxes

unfoldable pub update_status : String → String → Database → Database
unfolding update_row
update_status id status db = record db {
  sandboxes = update_row id (λ r. record r { status = status }) db.sandboxes;
}

unfoldable pub update_last_active : String → ℤ → Database → Database
unfolding update_row
update_last_active id now db = record db {
  sandboxes = update_row id (λ r. record r { last_active_at = now }) db.sandboxes;
}

unfoldable pub delete : String → Database → Database
delete id db = record db { sandboxes = erase id db.sandboxes }

unfoldable pub list_for_idle_reap_delete : ℤ → Database → List SandboxRecord
unfolding rows_where
list_for_idle_reap_delete cutoff db =
    rows_where (λ r. str_eq r.status "stopped" && leb_ℤ r.last_active_at cutoff) db.sandboxes

abbrev same_flag : Bool → Bool → Bool
same_flag true b = b
same_flag false b = not b

unfoldable pub list_for_idle_reap_stop : ℤ → Bool → Database → List SandboxRecord
unfolding rows_where
list_for_idle_reap_stop cutoff ephemeral db =
    rows_where
      (λ r.
        str_eq r.status "running"
        && leb_ℤ r.last_active_at cutoff
        && same_flag r.ephemeral ephemeral)
      db.sandboxes

unfoldable pub count : Database → ℕ
count db = length db.sandboxes

unfoldable pub list : Database → List SandboxRecord
unfolding rows_where newest_first
list db = newest_first (λ r. r.created_at) (rows_where (λ r. true) db.sandboxes)

unfoldable pub list_by_tenant : String → Database → List SandboxRecord
unfolding rows_where newest_first
list_by_tenant tenant_id db =
    newest_first (λ r. r.created_at) (rows_where (of_tenant tenant_id) db.sandboxes)

unfoldable pub create_tenant : Tenant → Database → Database × Result
unfolding insert_row
create_tenant t db = elim (insert_row t.id t db.tenants) [
  | none ↦ (db, constraint_failed)
  | some table ↦ (record db { tenants = table }, ok)
]

abbrev pub row_of : ApiKey → ApiKeyRow
row_of k = record {
  key = k;
  revoked = if ltb_ℤ (pos 0) k.revoked_at then some k.revoked_at else none;
}

-- INSERT INTO api_keys, with the reference to its tenant.
unfoldable pub create_api_key : ApiKey → Database → Database × Result
unfolding insert_row
create_api_key k db =
    if is_some (lookup k.tenant_id db.tenants)
    then elim (insert_row k.id (row_of k) db.api_keys) [
      | none ↦ (db, constraint_failed)
      | some table ↦ (record db { api_keys = table }, ok)
    ]
    else (db, constraint_failed)

-- A transaction: what its second statement refuses undoes the first.
abbrev commit_or_rollback : Database → Database × Result → Database × Result
commit_or_rollback before (after, ok) = (after, ok)
commit_or_rollback before (after, e) = (before, e)

abbrev and_then : (Database → Database × Result) → Database × Result → Database × Result
and_then f (db, ok) = f db
and_then f (db, e) = (db, e)

unfoldable pub create_tenant_with_api_key : Tenant → ApiKey → Database → Database × Result
unfolding create_tenant create_api_key
create_tenant_with_api_key t k db =
    if str_eq k.tenant_id t.id
    then commit_or_rollback db (and_then (create_api_key k) (create_tenant t db))
    else (db, err_api_key_tenant_mismatch)

unfoldable pub get_tenant : String → Database → Option Tenant
get_tenant id db = lookup id db.tenants

unfoldable pub list_tenants : Database → List Tenant
unfolding rows_where newest_first
list_tenants db = newest_first (λ t. t.created_at) (rows_where (λ t. true) db.tenants)

unfoldable pub update_tenant_limits : String → ℤ → Database → Database × Result
unfolding update_row
update_tenant_limits id max_sandboxes db =
    if is_some (lookup id db.tenants)
    then (
      record db {
        tenants = update_row id (λ t. record t { max_sandboxes = max_sandboxes }) db.tenants;
      },
      ok,
    )
    else (db, err_tenant_not_found)

unfoldable pub delete_tenant : String → Database → Database × Result
unfolding count_by_tenant
delete_tenant id db =
    if is_some (lookup id db.tenants)
    then if ltb 0 (count_by_tenant id db) then (db, err_tenant_has_sandboxes) else (
      record db {
        tenants = erase id db.tenants;
        api_keys = keep_entries (λ j k. not (str_eq k.key.tenant_id id)) db.api_keys;
      },
      ok,
    )
    else (db, ok)

-- `scanAPIKey`.
abbrev pub key_of : ApiKeyRow → ApiKey
key_of row = elim row.revoked [
  | none ↦ record row.key { revoked_at = pos 0 }
  | some at ↦ record row.key { revoked_at = at }
]

unfoldable pub get_api_key : String → Database → Option ApiKey
get_api_key id db = elim (lookup id db.api_keys) [ none ↦ none | some row ↦ some (key_of row) ]

unfoldable pub list_api_keys_by_tenant : String → Database → List ApiKey
unfolding rows_where newest_first
list_api_keys_by_tenant tenant_id db = map key_of (
    newest_first (λ row. row.key.created_at)
      (rows_where (λ row. str_eq row.key.tenant_id tenant_id) db.api_keys))

unfoldable pub list_active_api_keys_by_prefix : String → Database → List ApiKey
unfolding rows_where
list_active_api_keys_by_prefix prefix db =
    map key_of
      (rows_where (λ row. str_eq row.key.prefix prefix && not (is_some row.revoked)) db.api_keys)

abbrev pub revoke_row : ℤ → ApiKeyRow → ApiKeyRow
revoke_row now row = elim row.revoked [ none ↦ record row { revoked = some now } | some at ↦ row ]

unfoldable pub revoke_api_key : String → ℤ → Database → Database
unfolding update_row
revoke_api_key id now db = record db { api_keys = update_row id (revoke_row now) db.api_keys }
