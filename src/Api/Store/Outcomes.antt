-- ===== src/Api/Store/Outcomes.antt =====
-- The outcomes of the store's operations that can fail.
use n8n_sandbox_service.Base.{
  ◌≡◌, refl, sym, ap, subst, ◌∙◌, ◌≢◌, ◌⊎◌, inl, inr, String, Bool, true, false, not, Option, none,
  some, List, [], ◌∷◌, str_eq, eq_iff, arith, ltb, if◌then◌else◌, ℤ, lookup, insert, erase,
  keep_entries, is_some, IsUnique, lookup-insert, insert-IsUnique, Bool-cases, Option-cases,
  some_inj,
}
use n8n_sandbox_service.Api.Store.{
  SandboxRecord, Tenant, ApiKey, Database, ok, constraint_failed, err_tenant_has_sandboxes,
  err_tenant_not_found, is_admin_tenant_id, insert_row, update_row, rows_where, count_where,
  insert_sandbox, count_by_tenant, is_full, create, create_tenant, row_of, create_api_key,
  create_tenant_with_api_key, update_tenant_limits, delete_tenant,
}

failed-ok : constraint_failed ≡ ok → ⊥
failed-ok e = absurd (cc)

-- A row is inserted only under a new key.
module _ {V : Type 0} where
  insert_row-cases :
      (id : String) (v : V) (table : List (String × V))
      → (insert_row id v table ≡ none)
        ⊎ ((lookup id table ≡ none) × (insert_row id v table ≡ some (insert id v table)))
  unfolding insert_row
  insert_row-cases id v table = elim (Option-cases (lookup id table)) [
    | inl fresh ↦ inr (fresh, rw (insert_row, fresh) refl)
    | inr (w, taken) ↦ inl (rw (insert_row, taken) refl)
  ]

  abbrev pub map_row : (V → V) → Option V → Option V
  map_row f none = none
  map_row f (some v) = some (f v)

  pub lookup-update_row :
      (id j : String) (f : V → V) (table : List (String × V))
      → lookup j (update_row id f table)
        ≡ (if str_eq id j then map_row f (lookup j table) else lookup j table)
  unfolding update_row
  lookup-update_row id j f table = elim (Option-cases (lookup id table)) [
    | inl missing ↦ rw (update_row, missing) (ground (arith, eq_iff id j, missing))
    | inr (v, found) ↦
        rw (update_row, found) (ground (arith, eq_iff id j, found, lookup-insert id j (f v) table))
  ]

-- Each row after an update was a row before it, or is the update of one.
module _ {V : Type 0} where
  before_of :
      (b : Bool) (f : V → V) (o : Option V) {s : V}
      → (if b then map_row f o else o) ≡ some s
      → (r : V) × (o ≡ some r) × ((f r ≡ s) ⊎ (r ≡ s))
  before_of true f none h = absurd (cc)
  before_of true f (some r) h = (r, refl, inl (some_inj h))
  before_of false f none h = absurd (cc)
  before_of false f (some r) h = (r, refl, inr (some_inj h))

  pub row_before :
      (id j : String) (f : V → V) (table : List (String × V)) {s : V}
      → lookup j (update_row id f table) ≡ some s
      → (r : V) × (lookup j table ≡ some r) × ((f r ≡ s) ⊎ (r ≡ s))
  row_before id j f table h =
      before_of (str_eq id j) f (lookup j table) (sym (lookup-update_row id j f table) ∙ h)

abbrev pub with_sandbox : SandboxRecord → Database → Database
with_sandbox r db = record db { sandboxes = insert r.id r db.sandboxes }

insert_sandbox-cases :
    (r : SandboxRecord) (db : Database)
    → (insert_sandbox r db ≡ (db, constraint_failed))
      ⊎ ((lookup r.id db.sandboxes ≡ none) × (insert_sandbox r db ≡ (with_sandbox r db, ok)))
unfolding insert_sandbox
insert_sandbox-cases r db = elim (insert_row-cases r.id r db.sandboxes) [
  | inl taken ↦ inl (rw (insert_sandbox, taken) refl)
  | inr (fresh, new) ↦ inr (fresh, rw (insert_sandbox, new) refl)
]

-- What lets a create insert: an admin's, or one of a tenant that is not full.
abbrev pub MayCreate : SandboxRecord → Database → Type 0
MayCreate r db =
    (is_admin_tenant_id r.tenant_id ≡ true)
    ⊎ ((t : Tenant) × (lookup r.tenant_id db.tenants ≡ some t)
        × (is_full t.max_sandboxes (count_by_tenant r.tenant_id db) ≡ false))

create-gate :
    (r : SandboxRecord) (db : Database)
    → ((create r db).0 ≡ db) × ((create r db).1 ≢ ok)
      ⊎ (MayCreate r db × (create r db ≡ insert_sandbox r db))
unfolding create
create-gate r db = elim (Bool-cases (is_admin_tenant_id r.tenant_id)) [
  | inl admin ↦ inr (inl admin, rw (create, admin) refl)
  | inr tenant ↦ elim (Option-cases (lookup r.tenant_id db.tenants)) [
    | inl nobody ↦
        inl (rw (create, tenant, nobody) refl, rw (create, tenant, nobody) (λ e. absurd (cc)))
    | inr (t, found) ↦
        elim (Bool-cases (is_full t.max_sandboxes (count_by_tenant r.tenant_id db))) [
          | inl full ↦ inl (
            rw (create, tenant, found, full) refl,
            rw (create, tenant, found, full) (λ e. absurd (cc)),
          )
          | inr room ↦ inr (inr (t, found, room), rw (create, tenant, found, room) refl)
        ]
  ]
]

pub create-cases :
    (r : SandboxRecord) (db : Database)
    → ((create r db).0 ≡ db) × ((create r db).1 ≢ ok)
      ⊎ (MayCreate r db
          × (lookup r.id db.sandboxes ≡ none)
          × (create r db ≡ (with_sandbox r db, ok)))
create-cases r db = elim (create-gate r db) [
  | inl refused ↦ inl refused
  | inr (may, goes) ↦ elim (insert_sandbox-cases r db) [
    | inl taken ↦ inl (
      ap (λ o. o.0) (goes ∙ taken),
      λ e. absurd (failed-ok (sym (ap (λ o. o.1) (goes ∙ taken)) ∙ e)),
    )
    | inr (fresh, new) ↦ inr (may, fresh, goes ∙ new)
  ]
]

pub create_tenant-cases :
    (t : Tenant) (db : Database)
    → (create_tenant t db ≡ (db, constraint_failed))
      ⊎ ((lookup t.id db.tenants ≡ none)
          × (create_tenant t db ≡ (record db { tenants = insert t.id t db.tenants }, ok)))
unfolding create_tenant
create_tenant-cases t db = elim (insert_row-cases t.id t db.tenants) [
  | inl taken ↦ inl (rw (create_tenant, taken) refl)
  | inr (fresh, new) ↦ inr (fresh, rw (create_tenant, new) refl)
]

pub create_api_key-cases :
    (k : ApiKey) (db : Database)
    → (create_api_key k db ≡ (db, constraint_failed))
      ⊎ ((is_some (lookup k.tenant_id db.tenants) ≡ true)
          × (lookup k.id db.api_keys ≡ none)
          × (create_api_key k db
              ≡ (record db { api_keys = insert k.id (row_of k) db.api_keys }, ok)))
unfolding create_api_key
create_api_key-cases k db = elim (Bool-cases (is_some (lookup k.tenant_id db.tenants))) [
  | inr nobody ↦ inl (rw (create_api_key, nobody) refl)
  | inl owner ↦ elim (insert_row-cases k.id (row_of k) db.api_keys) [
    | inl taken ↦ inl (rw (create_api_key, owner, taken) refl)
    | inr (fresh, new) ↦ inr (owner, fresh, rw (create_api_key, owner, new) refl)
  ]
]

pub delete_tenant-cases :
    (id : String) (db : Database)
    → (delete_tenant id db ≡ (db, err_tenant_has_sandboxes)) × (count_by_tenant id db ≢ 0)
      ⊎ (delete_tenant id db ≡ (db, ok)) × (lookup id db.tenants ≡ none)
      ⊎ (count_by_tenant id db ≡ 0)
        × (delete_tenant id db ≡ (
          record db {
            tenants = erase id db.tenants;
            api_keys = keep_entries (λ j k. not (str_eq k.key.tenant_id id)) db.api_keys;
          },
          ok,
        ))
unfolding delete_tenant
delete_tenant-cases id db = elim (Option-cases (lookup id db.tenants)) [
  | inl nobody ↦ inr (inl (rw (delete_tenant, nobody) refl, nobody))
  | inr (t, found) ↦ elim (Bool-cases (ltb 0 (count_by_tenant id db))) [
    | inl some_left ↦ inl (rw (delete_tenant, found, some_left) refl, ground (arith, some_left))
    | inr none_left ↦
        inr (inr (ground (arith, none_left), rw (delete_tenant, found, none_left) refl))
  ]
]

-- The two inserts of `CreateTenantWithAPIKey` happen together or not at all.
pub create_tenant_with_api_key-cases :
    (t : Tenant) (k : ApiKey) (db : Database)
    → ((create_tenant_with_api_key t k db).0 ≡ db) × ((create_tenant_with_api_key t k db).1 ≢ ok)
      ⊎ (k.tenant_id ≡ t.id)
        × (lookup t.id db.tenants ≡ none)
        × (lookup k.id db.api_keys ≡ none)
        × (create_tenant_with_api_key t k db ≡ (
          record db {
            tenants = insert t.id t db.tenants;
            api_keys = insert k.id (row_of k) db.api_keys;
          },
          ok,
        ))
unfolding create_tenant_with_api_key
create_tenant_with_api_key-cases t k db = elim (Bool-cases (str_eq k.tenant_id t.id)) [
  | inr other ↦ inl (
    rw (create_tenant_with_api_key, other) refl,
    rw (create_tenant_with_api_key, other) (λ e. absurd (cc)),
  )
  | inl same ↦ elim (create_tenant-cases t db) [
    | inl taken ↦ inl (
      rw (create_tenant_with_api_key, same, taken) refl,
      rw (create_tenant_with_api_key, same, taken) (λ e. absurd (cc)),
    )
    | inr (fresh, made) ↦
        elim (create_api_key-cases k (record db { tenants = insert t.id t db.tenants })) [
          | inl taken ↦ inl (
            rw (create_tenant_with_api_key, same, made, taken) refl,
            rw (create_tenant_with_api_key, same, made, taken) (λ e. absurd (cc)),
          )
          | inr (owner, new, keyed) ↦ inr (
            (eq_iff k.tenant_id t.id).0 same,
            fresh,
            new,
            rw (create_tenant_with_api_key, same, made, keyed) refl,
          )
        ]
  ]
]

pub update_tenant_limits-cases :
    (id : String) (max_sandboxes : ℤ) (db : Database)
    → (update_tenant_limits id max_sandboxes db ≡ (db, err_tenant_not_found))
        × (lookup id db.tenants ≡ none)
      ⊎ (update_tenant_limits id max_sandboxes db ≡ (
        record db {
          tenants = update_row id (λ t. record t { max_sandboxes = max_sandboxes }) db.tenants;
        },
        ok,
      ))
unfolding update_tenant_limits
update_tenant_limits-cases id m db = elim (Option-cases (lookup id db.tenants)) [
  | inl nobody ↦ inl (rw (update_tenant_limits, nobody) refl, nobody)
  | inr (t, found) ↦ inr (rw (update_tenant_limits, found) refl)
]

-- A table of which no row passes a test.
module _ {V : Type 0} where
  pub count_where-zero :
      (p : V → Bool) (table : List (String × V)) (id : String) {v : V}
      → count_where p table ≡ 0
      → lookup id table ≡ some v
      → p v ≡ false
  unfolding count_where rows_where lookup
  count_where-zero p [] id {v} none_left h = absurd (cc)
  count_where-zero p ((j, w) ∷ table) id {v} none_left h = elim (Bool-cases (p w)) [
    | inl passes ↦ absurd (ground arith)
    | inr fails ↦ elim (Bool-cases (str_eq j id)) [
      | inl same ↦ subst (λ x. p x ≡ false) (some_inj (sym (rw same refl) ∙ h)) fails
      | inr other ↦ count_where-zero p table id (ground arith) (ground arith)
    ]
  ]

  pub is_some-update_row :
      (id j : String) (f : V → V) (table : List (String × V))
      → is_some (lookup j (update_row id f table)) ≡ is_some (lookup j table)
  is_some-update_row id j f table =
      ground (arith, lookup-update_row id j f table, Option-cases (lookup j table))

  pub update_row-IsUnique :
      (id : String) (f : V → V) (table : List (String × V))
      → IsUnique table
      → IsUnique (update_row id f table)
  unfolding update_row
  update_row-IsUnique id f table u = elim (Option-cases (lookup id table)) [
    | inl missing ↦ rw (update_row, missing) u
    | inr (v, found) ↦ rw (update_row, found) (insert-IsUnique id (f v) table u)
  ]
