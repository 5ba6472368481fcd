-- ===== src/Api/Store/Quota.antt =====
-- How the counts of a tenant's sandboxes change.
use n8n_sandbox_service.Base.{
  ℕ, ◌+◌, ◌≤◌, ◌≡◌, refl, sym, ap, subst, ◌∙◌, inl, inr, String, Bool, true, false, Option, none,
  some, List, [], ◌∷◌, str_eq, eq_iff, eq_refl, arith, if◌then◌else◌, ℤ, pos, ltb_ℤ, pos_part,
  lookup, insert, erase, is_some, IsUnique, lookup-insert, lookup-erase, Bool-cases, Option-cases,
  some_inj,
}
use n8n_sandbox_service.Api.Store.{
  SandboxRecord, Tenant, ApiKey, ApiKeyRow, Database, is_admin_tenant_id, update_row, rows_where,
  count_where, of_tenant, count_by_tenant, is_full, create, delete, create_tenant, create_api_key,
  create_tenant_with_api_key, update_tenant_limits, delete_tenant, revoke_api_key,
}
use n8n_sandbox_service.Api.Store.Outcomes.{
  MayCreate, create-cases, create_tenant-cases, create_api_key-cases, delete_tenant-cases,
  create_tenant_with_api_key-cases, update_tenant_limits-cases, lookup-update_row, map_row,
}
use n8n_sandbox_service.Api.Store.Integrity.{IsValid}

true-false : true ≡ false → ⊥
true-false e = absurd (cc)

none-some : {V : Type 0} {v : V} → none ≡ some v → ⊥
none-some e = absurd (cc)

module _ {V : Type 0} (p : V → Bool) where
  count_where-insert :
      (id : String) (v : V) (table : List (String × V))
      → lookup id table ≡ none
      → count_where p (insert id v table) ≡ count_where p table + (if p v then 1 else 0)
  unfolding count_where rows_where lookup insert
  count_where-insert id v [] fresh = ground arith
  count_where-insert id v ((j, w) ∷ table) fresh = ground (arith, count_where-insert id v table)

  count_where-change :
      (id : String) (v w : V) (table : List (String × V))
      → lookup id table ≡ some w
      → p v ≡ p w
      → count_where p (insert id v table) ≡ count_where p table
  unfolding count_where rows_where lookup insert
  count_where-change id v w [] found same = absurd (cc)
  count_where-change id v w ((j, x) ∷ table) found same = elim (Bool-cases (str_eq j id)) [
    | inl here ↦
        let same_row : p x ≡ p w = ap p (some_inj (sym (rw here refl) ∙ found)) in
        ground (arith, same_row, same)
    | inr there ↦ ground (arith, count_where-change id v w table)
  ]

  count_where-erase-le :
      (id : String) (table : List (String × V))
      → count_where p (erase id table) ≤ count_where p table
  unfolding count_where rows_where erase
  count_where-erase-le id [] = omega arith
  count_where-erase-le id ((j, w) ∷ table) = ground (arith, count_where-erase-le id table)

  count_where-nobody :
      (table : List (String × V))
      → IsUnique table
      → ((id : String) (v : V) → lookup id table ≡ some v → p v ≡ false)
      → count_where p table ≡ 0
  unfolding count_where rows_where lookup
  count_where-nobody [] u none_passes = refl
  count_where-nobody ((j, w) ∷ table) u none_passes =
      let rest : (id : String) (v : V) → lookup id table ≡ some v → p v ≡ false = λ id v h.
        elim (Bool-cases (str_eq j id)) [
          | inl same ↦
              absurd (
                none-some (sym (subst (λ i. lookup i table ≡ none) ((eq_iff j id).0 same) u.0) ∙ h))
          | inr other ↦ none_passes id v (rw other h)
        ] in
      let head : p w ≡ false = none_passes j w (ground (arith, eq_refl j)) in
      ground (arith, head, count_where-nobody table u.1 rest)

  count_where-update_row :
      (id : String) (f : V → V) (table : List (String × V))
      → ((v : V) → p (f v) ≡ p v)
      → count_where p (update_row id f table) ≡ count_where p table
  unfolding update_row
  count_where-update_row id f table same = elim (Option-cases (lookup id table)) [
    | inl missing ↦ rw (update_row, missing) refl
    | inr (w, found) ↦ rw (update_row, found) (count_where-change id (f w) w table found (same w))
  ]

-- The tenants, other than the admin, that have a limit hold no more sandboxes than it.
abbrev pub Within : Database → Type 0
Within db =
    (id : String) (t : Tenant)
    → is_admin_tenant_id id ≡ false
    → lookup id db.tenants ≡ some t
    → ltb_ℤ (pos 0) t.max_sandboxes ≡ true
    → count_by_tenant id db ≤ pos_part t.max_sandboxes

one_if : {b : Bool} → b ≡ false → (if b then 1 else 0) ≤ 0
one_if h = ground arith

one_at_most : (b : Bool) → (if b then 1 else 0) ≤ 1
one_at_most b = ground arith

room-lt : (m : ℤ) (n : ℕ) → is_full m n ≡ false → ltb_ℤ (pos 0) m ≡ true → n + 1 ≤ pos_part m
room-lt m n room limited = ground arith

room_for :
    (r : SandboxRecord) (db : Database)
    → MayCreate r db
    → (id : String) → r.tenant_id ≡ id
    → (t : Tenant) → is_admin_tenant_id id ≡ false
    → lookup id db.tenants ≡ some t
    → ltb_ℤ (pos 0) t.max_sandboxes ≡ true
    → count_by_tenant id db + 1 ≤ pos_part t.max_sandboxes
room_for r db (inl is_admin) id same t admin found limited =
    absurd (true-false (sym is_admin ∙ ap is_admin_tenant_id same ∙ admin))
room_for r db (inr (u, held, room)) id same t admin found limited =
    let same_tenant : u ≡ t = some_inj (sym held ∙ ap (λ i. lookup i db.tenants) same ∙ found) in
    room-lt t.max_sandboxes (count_by_tenant id db)
      (sym (ap (λ (x : Tenant). is_full x.max_sandboxes (count_by_tenant id db)) same_tenant)
        ∙ sym (ap (λ i. is_full u.max_sandboxes (count_by_tenant i db)) same)
        ∙ room)
      limited

pub create-Within : (r : SandboxRecord) (db : Database) → Within db → Within (create r db).0
unfolding count_by_tenant
create-Within r db w = elim (create-cases r db) [
  | inl (same, bad) ↦ subst Within (sym same) w
  | inr (may, fresh, made) ↦ subst Within (sym (ap (λ o. o.0) made)) (λ id t admin found limited.
      elim (Bool-cases (str_eq r.tenant_id id)) [
        | inr other ↦ omega (
          arith,
          w id t admin found limited,
          count_where-insert (of_tenant id) r.id r db.sandboxes fresh,
          one_if other,
        )
        | inl same ↦ omega (
          arith,
          count_where-insert (of_tenant id) r.id r db.sandboxes fresh,
          one_at_most (of_tenant id r),
          room_for r db may id ((eq_iff r.tenant_id id).0 same) t admin found limited,
        )
      ])
]

pub update_sandbox-Within :
    (id : String) (f : SandboxRecord → SandboxRecord) (db : Database)
    → ((r : SandboxRecord) → (f r).tenant_id ≡ r.tenant_id)
    → Within db
    → Within (record db { sandboxes = update_row id f db.sandboxes })
unfolding count_by_tenant
update_sandbox-Within id f db keeps w j t admin found limited = omega (
  arith,
  w j t admin found limited,
  count_where-update_row (of_tenant j) id f db.sandboxes (λ r. ap (λ x. str_eq x j) (keeps r)),
)

pub delete-Within : (id : String) (db : Database) → Within db → Within (delete id db)
unfolding count_by_tenant delete
delete-Within id db w j t admin found limited =
    omega (arith, w j t admin found limited, count_where-erase-le (of_tenant j) id db.sandboxes)

-- No sandbox is of a tenant that is not there.
count_by_tenant-nobody :
    (db : Database) (id : String)
    → IsValid db
    → is_admin_tenant_id id ≡ false
    → lookup id db.tenants ≡ none
    → count_by_tenant id db ≡ 0
unfolding count_by_tenant
count_by_tenant-nobody db id v admin nobody =
    count_where-nobody (of_tenant id) db.sandboxes v.unique (λ j r h.
      elim (Bool-cases (str_eq r.tenant_id id)) [
        | inr other ↦ other
        | inl same ↦
            let is_id : r.tenant_id ≡ id = (eq_iff r.tenant_id id).0 same in
            let there = v.owner j r h (ap is_admin_tenant_id is_id ∙ admin) in
            absurd (
              true-false
                (sym there ∙ ap (λ i. is_some (lookup i db.tenants)) is_id ∙ ap is_some nobody))
      ])

insert_tenant-Within :
    (t : Tenant) (db : Database)
    → IsValid db
    → lookup t.id db.tenants ≡ none
    → Within db
    → Within (record db { tenants = insert t.id t db.tenants })
unfolding count_by_tenant
insert_tenant-Within t db v fresh w id u admin found limited = elim (Bool-cases (str_eq t.id id)) [
  | inr other ↦
      w id u admin (sym (lookup-insert t.id id t db.tenants ∙ rw other refl) ∙ found) limited
  | inl same ↦ omega (
    arith,
    count_by_tenant-nobody db id v admin
        (subst (λ i. lookup i db.tenants ≡ none) ((eq_iff t.id id).0 same) fresh),
  )
]

pub create_tenant-Within :
    (t : Tenant) (db : Database) → IsValid db → Within db → Within (create_tenant t db).0
create_tenant-Within t db v w = elim (create_tenant-cases t db) [
  | inl taken ↦ subst Within (sym (ap (λ o. o.0) taken)) w
  | inr (fresh, made) ↦
      subst Within (sym (ap (λ o. o.0) made)) (insert_tenant-Within t db v fresh w)
]

-- What a change of the keys alone leaves.
keys-Within :
    (db : Database) (keys : List (String × ApiKeyRow))
    → Within db
    → Within (record db { api_keys = keys })
unfolding count_by_tenant
keys-Within db keys w = w

pub create_api_key-Within :
    (k : ApiKey) (db : Database) → Within db → Within (create_api_key k db).0
create_api_key-Within k db w = elim (create_api_key-cases k db) [
  | inl refused ↦ subst Within (sym (ap (λ o. o.0) refused)) w
  | inr (owned, fresh, made) ↦ subst Within (sym (ap (λ o. o.0) made)) (keys-Within db _ w)
]

pub create_tenant_with_api_key-Within :
    (t : Tenant) (k : ApiKey) (db : Database)
    → IsValid db
    → Within db
    → Within (create_tenant_with_api_key t k db).0
create_tenant_with_api_key-Within t k db v w = elim (create_tenant_with_api_key-cases t k db) [
  | inl (same, bad) ↦ subst Within (sym same) w
  | inr (same, fresh, new, made) ↦ subst Within (sym (ap (λ o. o.0) made)) (
      keys-Within (record db { tenants = insert t.id t db.tenants }) _
        (insert_tenant-Within t db v fresh w))
]

drop_tenant-Within :
    (id : String) (db : Database) → Within db → Within (record db { tenants = erase id db.tenants })
unfolding count_by_tenant
drop_tenant-Within id db w j t admin found limited = elim (Bool-cases (str_eq id j)) [
  | inl same ↦ absurd (none-some (sym (lookup-erase id j db.tenants ∙ rw same refl) ∙ found))
  | inr other ↦ w j t admin (sym (lookup-erase id j db.tenants ∙ rw other refl) ∙ found) limited
]

pub delete_tenant-Within :
    (id : String) (db : Database) → Within db → Within (delete_tenant id db).0
delete_tenant-Within id db w = elim (delete_tenant-cases id db) [
  | inl (refused, left) ↦ subst Within (sym (ap (λ o. o.0) refused)) w
  | inr (inl (same, nobody)) ↦ subst Within (sym (ap (λ o. o.0) same)) w
  | inr (inr (empty, gone)) ↦
      subst Within (sym (ap (λ o. o.0) gone))
        (keys-Within (record db { tenants = erase id db.tenants }) _ (drop_tenant-Within id db w))
]

-- The new limit is not below what the tenant holds.
abbrev pub IsCareful : String → ℤ → Database → Type 0
IsCareful id m db = ltb_ℤ (pos 0) m ≡ true → count_by_tenant id db ≤ pos_part m

abbrev with_limit : ℤ → Tenant → Tenant
with_limit m t = record t { max_sandboxes = m }

limit_of :
    (m : ℤ) (o : Option Tenant) (t : Tenant)
    → map_row (with_limit m) o ≡ some t
    → t.max_sandboxes ≡ m
limit_of m none t h = absurd (none-some h)
limit_of m (some u) t h = sym (ap (λ (x : Tenant). x.max_sandboxes) (some_inj h))

pub update_tenant_limits-Within :
    (id : String) (m : ℤ) (db : Database)
    → IsCareful id m db
    → Within db
    → Within (update_tenant_limits id m db).0
unfolding count_by_tenant
update_tenant_limits-Within id m db careful w = elim (update_tenant_limits-cases id m db) [
  | inl (same, nobody) ↦ subst Within (sym (ap (λ o. o.0) same)) w
  | inr made ↦ subst Within (sym (ap (λ o. o.0) made)) (λ j t admin found limited.
      elim (Bool-cases (str_eq id j)) [
        | inr other ↦
            w j t admin
              (sym (lookup-update_row id j (with_limit m) db.tenants ∙ rw other refl) ∙ found)
              limited
        | inl same ↦
            let is_m : t.max_sandboxes ≡ m =
              limit_of m (lookup j db.tenants) t
                (sym (lookup-update_row id j (with_limit m) db.tenants ∙ rw same refl) ∙ found) in
            subst (λ x. count_by_tenant j db ≤ pos_part x) (sym is_m)
              (subst (λ i. count_by_tenant i db ≤ pos_part m) ((eq_iff id j).0 same)
                (careful (ap (ltb_ℤ (pos 0)) (sym is_m) ∙ limited)))
      ])
]

pub revoke_api_key-Within :
    (id : String) (now : ℤ) (db : Database) → Within db → Within (revoke_api_key id now db)
unfolding revoke_api_key
revoke_api_key-Within id now db w = keys-Within db _ w
