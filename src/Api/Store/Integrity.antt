-- ===== src/Api/Store/Integrity.antt =====
-- Rows stand under their own ids, and what they refer to exists.
use n8n_sandbox_service.Base.{
  ◌≡◌, refl, sym, ap, subst, ◌∙◌, ◌⊎◌, inl, inr, String, true, false, not, some, str_eq, eq_iff,
  arith, ℤ, lookup, insert, erase, keep_entries, kept_row, is_some, IsUnique, lookup-insert,
  lookup-erase, insert-IsUnique, erase-IsUnique, keep_entries-IsUnique, Bool-cases, Option-cases,
  some_inj,
}
use n8n_sandbox_service.Api.Store.Outcomes.{
  row_before, count_where-zero, is_some-update_row, update_row-IsUnique, with_sandbox, MayCreate,
  create-cases, create_tenant-cases, create_api_key-cases, delete_tenant-cases,
  create_tenant_with_api_key-cases, update_tenant_limits-cases,
}
use n8n_sandbox_service.Api.Store.{
  SandboxRecord, Tenant, ApiKey, ApiKeyRow, Database, empty_database, is_admin_tenant_id,
  update_row, of_tenant, count_by_tenant, create, delete, create_tenant, row_of, create_api_key,
  create_tenant_with_api_key, update_tenant_limits, delete_tenant, revoke_row, revoke_api_key,
}

pub record IsValid (db : Database) : Type 0 where
  pub unique : IsUnique db.sandboxes
  pub unique_keys : IsUnique db.api_keys
  pub unique_tenants : IsUnique db.tenants
  pub sandbox_id : (id : String) (r : SandboxRecord) → lookup id db.sandboxes ≡ some r → r.id ≡ id
  pub tenant_id : (id : String) (t : Tenant) → lookup id db.tenants ≡ some t → t.id ≡ id
  pub key_id : (id : String) (k : ApiKeyRow) → lookup id db.api_keys ≡ some k → k.key.id ≡ id
  pub owner :
      (id : String) (r : SandboxRecord)
      → lookup id db.sandboxes ≡ some r
      → is_admin_tenant_id r.tenant_id ≡ false
      → is_some (lookup r.tenant_id db.tenants) ≡ true
  pub key_owner :
      (id : String) (k : ApiKeyRow)
      → lookup id db.api_keys ≡ some k
      → is_some (lookup k.key.tenant_id db.tenants) ≡ true

pub empty_database-IsValid : IsValid empty_database
unfolding lookup
empty_database-IsValid = record {
  unique = tt;
  unique_keys = tt;
  unique_tenants = tt;
  sandbox_id = λ id r h. absurd (cc);
  tenant_id = λ id t h. absurd (cc);
  key_id = λ id k h. absurd (cc);
  owner = λ id r h. absurd (cc);
  key_owner = λ id k h. absurd (cc);
}

with_sandbox-IsValid :
    (r : SandboxRecord) (db : Database)
    → IsValid db
    → (is_admin_tenant_id r.tenant_id ≡ false → is_some (lookup r.tenant_id db.tenants) ≡ true)
    → IsValid (with_sandbox r db)
with_sandbox-IsValid r db v owned = record {
  unique = insert-IsUnique r.id r db.sandboxes v.unique;
  unique_keys = v.unique_keys;
  unique_tenants = v.unique_tenants;
  sandbox_id = λ id s h.
      ground (arith, lookup-insert r.id id r db.sandboxes, eq_iff r.id id, v.sandbox_id id s);
  tenant_id = v.tenant_id;
  key_id = v.key_id;
  owner = λ id s h admin. elim (Bool-cases (str_eq r.id id)) [
    | inl same ↦
        let is_r : some r ≡ some s =
          sym (lookup-insert r.id id r db.sandboxes ∙ rw same refl) ∙ h in
        subst (λ (x : SandboxRecord). is_some (lookup x.tenant_id db.tenants) ≡ true)
          (some_inj is_r)
          (owned (
            subst (λ (x : SandboxRecord). is_admin_tenant_id x.tenant_id ≡ false)
              (sym (some_inj is_r)) admin))
    | inr other ↦ v.owner id s (ground (arith, lookup-insert r.id id r db.sandboxes)) admin
  ];
  key_owner = v.key_owner;
}

MayCreate-owned :
    (r : SandboxRecord) (db : Database)
    → MayCreate r db
    → is_admin_tenant_id r.tenant_id ≡ false
    → is_some (lookup r.tenant_id db.tenants) ≡ true
MayCreate-owned r db (inl admin) h = absurd (ground arith)
MayCreate-owned r db (inr (t, found, room)) h = rw found refl

pub create-IsValid : (r : SandboxRecord) (db : Database) → IsValid db → IsValid (create r db).0
create-IsValid r db v = elim (create-cases r db) [
  | inl (same, bad) ↦ subst IsValid (sym same) v
  | inr (may, fresh, made) ↦
      subst IsValid (sym (ap (λ o. o.0) made))
        (with_sandbox-IsValid r db v (MayCreate-owned r db may))
]

-- An update of one row that keeps the row's id and its tenant.
pub update_sandbox-IsValid :
    (id : String) (f : SandboxRecord → SandboxRecord) (db : Database)
    → ((r : SandboxRecord) → ((f r).id ≡ r.id) × ((f r).tenant_id ≡ r.tenant_id))
    → IsValid db
    → IsValid (record db { sandboxes = update_row id f db.sandboxes })
update_sandbox-IsValid id f db keeps v = record {
  unique = update_row-IsUnique id f db.sandboxes v.unique;
  unique_keys = v.unique_keys;
  unique_tenants = v.unique_tenants;
  sandbox_id = λ j s h.
      let (r, found, which) = row_before id j f db.sandboxes h in
      elim which [
        | inl changed ↦
            sym (ap (λ (x : SandboxRecord). x.id) changed) ∙ (keeps r).0 ∙ v.sandbox_id j r found
        | inr same ↦ sym (ap (λ (x : SandboxRecord). x.id) same) ∙ v.sandbox_id j r found
      ];
  tenant_id = v.tenant_id;
  key_id = v.key_id;
  owner = λ j s h admin.
      let (r, found, which) = row_before id j f db.sandboxes h in
      let same : r.tenant_id ≡ s.tenant_id = elim which [
        | inl changed ↦ sym (keeps r).1 ∙ ap (λ (x : SandboxRecord). x.tenant_id) changed
        | inr same ↦ ap (λ (x : SandboxRecord). x.tenant_id) same
      ] in
      subst (λ t. is_some (lookup t db.tenants) ≡ true) same
        (v.owner j r found (subst (λ t. is_admin_tenant_id t ≡ false) (sym same) admin));
  key_owner = v.key_owner;
}

pub delete-IsValid : (id : String) (db : Database) → IsValid db → IsValid (delete id db)
unfolding delete
delete-IsValid id db v = record {
  unique = erase-IsUnique id db.sandboxes v.unique;
  unique_keys = v.unique_keys;
  unique_tenants = v.unique_tenants;
  sandbox_id = λ j s h. v.sandbox_id j s (ground (arith, lookup-erase id j db.sandboxes));
  tenant_id = v.tenant_id;
  key_id = v.key_id;
  owner = λ j s h. v.owner j s (ground (arith, lookup-erase id j db.sandboxes));
  key_owner = v.key_owner;
}

-- More tenants only help.
insert_tenant-IsValid :
    (t : Tenant) (db : Database)
    → IsValid db
    → IsValid (record db { tenants = insert t.id t db.tenants })
insert_tenant-IsValid t db v = record {
  unique = v.unique;
  unique_keys = v.unique_keys;
  unique_tenants = insert-IsUnique t.id t db.tenants v.unique_tenants;
  sandbox_id = v.sandbox_id;
  tenant_id =
      λ j x h. ground (arith, lookup-insert t.id j t db.tenants, eq_iff t.id j, v.tenant_id j x);
  key_id = v.key_id;
  owner = λ j s h admin.
      ground (arith, lookup-insert t.id s.tenant_id t db.tenants, v.owner j s h admin);
  key_owner =
      λ j k h. ground (arith, lookup-insert t.id k.key.tenant_id t db.tenants, v.key_owner j k h);
}

pub create_tenant-IsValid :
    (t : Tenant) (db : Database) → IsValid db → IsValid (create_tenant t db).0
create_tenant-IsValid t db v = elim (create_tenant-cases t db) [
  | inl taken ↦ subst IsValid (sym (ap (λ o. o.0) taken)) v
  | inr (fresh, made) ↦ subst IsValid (sym (ap (λ o. o.0) made)) (insert_tenant-IsValid t db v)
]

insert_key-IsValid :
    (k : ApiKey) (db : Database)
    → is_some (lookup k.tenant_id db.tenants) ≡ true
    → IsValid db
    → IsValid (record db { api_keys = insert k.id (row_of k) db.api_keys })
insert_key-IsValid k db owned v = record {
  unique = v.unique;
  unique_keys = insert-IsUnique k.id (row_of k) db.api_keys v.unique_keys;
  unique_tenants = v.unique_tenants;
  sandbox_id = v.sandbox_id;
  tenant_id = v.tenant_id;
  key_id = λ j row h. elim (Bool-cases (str_eq k.id j)) [
    | inl same ↦
        let is_k : some (row_of k) ≡ some row =
          sym (lookup-insert k.id j (row_of k) db.api_keys ∙ rw same refl) ∙ h in
        ap (λ (x : ApiKeyRow). x.key.id) (sym (some_inj is_k)) ∙ (eq_iff k.id j).0 same
    | inr other ↦
        v.key_id j row (sym (lookup-insert k.id j (row_of k) db.api_keys ∙ rw other refl) ∙ h)
  ];
  owner = v.owner;
  key_owner = λ j row h. elim (Bool-cases (str_eq k.id j)) [
    | inl same ↦
        let is_k : some (row_of k) ≡ some row =
          sym (lookup-insert k.id j (row_of k) db.api_keys ∙ rw same refl) ∙ h in
        subst (λ (x : ApiKeyRow). is_some (lookup x.key.tenant_id db.tenants) ≡ true)
          (some_inj is_k) owned
    | inr other ↦
        v.key_owner j row (sym (lookup-insert k.id j (row_of k) db.api_keys ∙ rw other refl) ∙ h)
  ];
}

pub create_api_key-IsValid :
    (k : ApiKey) (db : Database) → IsValid db → IsValid (create_api_key k db).0
create_api_key-IsValid k db v = elim (create_api_key-cases k db) [
  | inl refused ↦ subst IsValid (sym (ap (λ o. o.0) refused)) v
  | inr (owned, fresh, made) ↦
      subst IsValid (sym (ap (λ o. o.0) made)) (insert_key-IsValid k db owned v)
]

pub create_tenant_with_api_key-IsValid :
    (t : Tenant) (k : ApiKey) (db : Database)
    → IsValid db
    → IsValid (create_tenant_with_api_key t k db).0
create_tenant_with_api_key-IsValid t k db v = elim (create_tenant_with_api_key-cases t k db) [
  | inl (same, bad) ↦ subst IsValid (sym same) v
  | inr (same, fresh, new, made) ↦ subst IsValid (sym (ap (λ o. o.0) made)) (
      insert_key-IsValid k (record db { tenants = insert t.id t db.tenants })
        (ground (arith, lookup-insert t.id k.tenant_id t db.tenants, eq_iff t.id k.tenant_id, same))
        (insert_tenant-IsValid t db v))
]

-- A tenant without sandboxes goes together with its keys.
drop_tenant-IsValid :
    (id : String) (db : Database)
    → count_by_tenant id db ≡ 0
    → IsValid db
    → IsValid (record db {
      tenants = erase id db.tenants;
      api_keys = keep_entries (λ j k. not (str_eq k.key.tenant_id id)) db.api_keys;
    })
unfolding count_by_tenant
drop_tenant-IsValid id db empty v = record {
  unique = v.unique;
  unique_keys =
      keep_entries-IsUnique (λ j k. not (str_eq k.key.tenant_id id)) db.api_keys v.unique_keys;
  unique_tenants = erase-IsUnique id db.tenants v.unique_tenants;
  sandbox_id = v.sandbox_id;
  tenant_id = λ j x h. v.tenant_id j x (ground (arith, lookup-erase id j db.tenants));
  key_id = λ j k h.
      v.key_id j k
        (kept_row (λ (row : ApiKeyRow). not (str_eq row.key.tenant_id id)) j db.api_keys
          v.unique_keys h).1;
  owner = λ j s h admin. ground (
    arith,
    lookup-erase id s.tenant_id db.tenants,
    v.owner j s h admin,
    count_where-zero (of_tenant id) db.sandboxes j empty h,
    eq_iff id s.tenant_id,
    eq_iff s.tenant_id id,
  );
  key_owner = λ j k h.
      let (kept, old) =
        kept_row (λ (row : ApiKeyRow). not (str_eq row.key.tenant_id id)) j db.api_keys
          v.unique_keys h in
      ground (
        arith,
        lookup-erase id k.key.tenant_id db.tenants,
        v.key_owner j k old,
        kept,
        eq_iff id k.key.tenant_id,
        eq_iff k.key.tenant_id id,
      );
}

pub delete_tenant-IsValid :
    (id : String) (db : Database) → IsValid db → IsValid (delete_tenant id db).0
delete_tenant-IsValid id db v = elim (delete_tenant-cases id db) [
  | inl (refused, left) ↦ subst IsValid (sym (ap (λ o. o.0) refused)) v
  | inr (inl (same, nobody)) ↦ subst IsValid (sym (ap (λ o. o.0) same)) v
  | inr (inr (empty, gone)) ↦
      subst IsValid (sym (ap (λ o. o.0) gone)) (drop_tenant-IsValid id db empty v)
]

pub update_tenant_limits-IsValid :
    (id : String) (m : ℤ) (db : Database) → IsValid db → IsValid (update_tenant_limits id m db).0
update_tenant_limits-IsValid id m db v = elim (update_tenant_limits-cases id m db) [
  | inl (same, nobody) ↦ subst IsValid (sym (ap (λ o. o.0) same)) v
  | inr made ↦ subst IsValid (sym (ap (λ o. o.0) made)) (record {
    unique = v.unique;
    unique_keys = v.unique_keys;
    unique_tenants = update_row-IsUnique id _ db.tenants v.unique_tenants;
    sandbox_id = v.sandbox_id;
    tenant_id = λ j x h.
        let (old, found, which) = row_before id j _ db.tenants h in
        elim which [
          | inl changed ↦ sym (ap (λ (y : Tenant). y.id) changed) ∙ v.tenant_id j old found
          | inr same ↦ sym (ap (λ (y : Tenant). y.id) same) ∙ v.tenant_id j old found
        ];
    key_id = v.key_id;
    owner = λ j s h admin. is_some-update_row id s.tenant_id _ db.tenants ∙ v.owner j s h admin;
    key_owner = λ j k h. is_some-update_row id k.key.tenant_id _ db.tenants ∙ v.key_owner j k h;
  })
]

revoke_row-tenant : (now : ℤ) (k : ApiKeyRow) → (revoke_row now k).key ≡ k.key
revoke_row-tenant now k = elim (Option-cases k.revoked) [
  | inl active ↦ rw active refl
  | inr (at, done) ↦ rw done refl
]

-- A revocation leaves a row's key as it was.
revoked-key : (now : ℤ) (k row : ApiKeyRow) → (revoke_row now k ≡ row) ⊎ (k ≡ row) → k.key ≡ row.key
revoked-key now k row (inl changed) =
    sym (revoke_row-tenant now k) ∙ ap (λ (x : ApiKeyRow). x.key) changed
revoked-key now k row (inr same) = ap (λ (x : ApiKeyRow). x.key) same

pub revoke_api_key-IsValid :
    (id : String) (now : ℤ) (db : Database) → IsValid db → IsValid (revoke_api_key id now db)
unfolding revoke_api_key
revoke_api_key-IsValid id now db v = record {
  unique = v.unique;
  unique_keys = update_row-IsUnique id (revoke_row now) db.api_keys v.unique_keys;
  unique_tenants = v.unique_tenants;
  sandbox_id = v.sandbox_id;
  tenant_id = v.tenant_id;
  key_id = λ j row h.
      let (k, found, which) = row_before id j (revoke_row now) db.api_keys h in
      sym (ap (λ (x : ApiKey). x.id) (revoked-key now k row which)) ∙ v.key_id j k found;
  owner = v.owner;
  key_owner = λ j row h.
      let (k, found, which) = row_before id j (revoke_row now) db.api_keys h in
      subst (λ (x : ApiKey). is_some (lookup x.tenant_id db.tenants) ≡ true)
        (revoked-key now k row which) (v.key_owner j k found);
}
