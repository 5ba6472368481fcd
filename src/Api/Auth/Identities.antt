-- ===== src/Api/Auth/Identities.antt =====
-- Which keys give which identity (internal/api/middleware_auth.go).
use n8n_sandbox_service.Base.{
  ℕ, ◌≡◌, ◌⊎◌, refl, subst, inl, inr, Bool, true, false, String, Option, none, some, List, [], ◌∷◌,
  str_eq, not, ◌&&◌, ◌||◌, eq_iff, eq_refl, arith, if◌then◌else◌, contains, has_prefix, map,
  is_some, Bool-cases, Option-cases, some_inj,
}
use n8n_sandbox_service.Api.Store.{
  ApiKeyRow, Database, list_active_api_keys_by_prefix, rows_where, key_of,
}
use n8n_sandbox_service.Api.ApiKeyCache.{ApiKeyCache, find}
use n8n_sandbox_service.Api.CreateSandbox.{admin, provisioner, scaler, tenant, Identity}
use n8n_sandbox_service.Api.Auth.{
  HttpRequest, Keys, Decision, refused, passed, scaler_may_call, is_public, first_tenant,
  lookup_tenant_key, api_key_prefix, cached_lookup, tenant_decision, decide, auth_middleware,
}

-- A key of the tenant, with this hash, that is not revoked.
abbrev pub is_key_of : String → String → ApiKeyRow → Bool
is_key_of key_hash tenant_id row =
    str_eq row.key.key_hash key_hash
    && str_eq row.key.tenant_id tenant_id
    && not (is_some row.revoked)

abbrev pub has_key : String → String → List (String × ApiKeyRow) → Bool
has_key key_hash tenant_id [] = false
has_key key_hash tenant_id ((id, row) ∷ table) =
    is_key_of key_hash tenant_id row || has_key key_hash tenant_id table

abbrev is_active : String → ApiKeyRow → Bool
is_active prefix row = str_eq row.key.prefix prefix && not (is_some row.revoked)

first_tenant-has_key :
    (prefix key_hash : String) (table : List (String × ApiKeyRow)) (t : String)
    → first_tenant key_hash (map key_of (rows_where (is_active prefix) table)) ≡ t
    → str_eq t "" ≡ false
    → has_key key_hash t table ≡ true
unfolding rows_where first_tenant
first_tenant-has_key prefix key_hash [] t h some_tenant = ground (arith, eq_iff t "")
first_tenant-has_key prefix key_hash ((id, row) ∷ table) t h some_tenant =
    elim (Bool-cases (is_active prefix row)) [
      | inl active ↦ ground (
        arith,
        active,
        h,
        eq_iff row.key.key_hash key_hash,
        eq_iff row.key.tenant_id t,
        eq_refl t,
        first_tenant-has_key prefix key_hash table t,
      )
      | inr passive ↦ ground (arith, passive, h, first_tenant-has_key prefix key_hash table t)
    ]

-- What the cache has for a hash.
abbrev pub remembered : String → ℕ → Option ApiKeyCache → Option String
remembered key_hash now none = none
remembered key_hash now (some c) = find key_hash now c

module _ (hash : String → String) (keys : Keys) (r : HttpRequest) (now : ℕ) (db : Database)
    (cache : Option ApiKeyCache) where
  -- The identities that a request's key earns it.
  pub data Earned : Identity → Type 0 where
    as_admin :
        contains r.api_key keys.admin_keys ≡ true → Earned (record { role = admin; tenant_id = "" })
    as_provisioner :
        contains r.api_key keys.admin_keys ≡ false
        → contains r.api_key keys.provisioner_keys ≡ true
        → has_prefix r.path "/admin/tenants" ≡ true
        → Earned (record { role = provisioner; tenant_id = "" })
    as_scaler :
        contains r.api_key keys.admin_keys ≡ false
        → contains r.api_key keys.provisioner_keys ≡ false
        → contains r.api_key keys.scaler_keys ≡ true
        → scaler_may_call r.path ≡ true
        → Earned (record { role = scaler; tenant_id = "" })
    as_tenant :
        (t : String)
        → contains r.api_key keys.admin_keys ≡ false
        → contains r.api_key keys.provisioner_keys ≡ false
        → contains r.api_key keys.scaler_keys ≡ false
        → str_eq t "" ≡ false
        → (has_key (hash r.api_key) t db.api_keys ≡ true)
          ⊎ (remembered (hash r.api_key) now cache ≡ some t)
        → Earned (record { role = tenant; tenant_id = t })

  read_tenant :
      (read_fails : Bool) (t : String)
      → (if read_fails then none else some (lookup_tenant_key r.api_key (hash r.api_key) db))
        ≡ some t
      → str_eq t "" ≡ false
      → has_key (hash r.api_key) t db.api_keys ≡ true
  unfolding lookup_tenant_key list_active_api_keys_by_prefix
  read_tenant true t h some_tenant = absurd cc
  read_tenant false t h some_tenant =
      first_tenant-has_key (api_key_prefix r.api_key) (hash r.api_key) db.api_keys t (some_inj h)
        some_tenant

  looked_up :
      (loaded : Option String) (c : Option ApiKeyCache) (t : String)
      → (cached_lookup (hash r.api_key) now loaded c).0 ≡ some t
      → (loaded ≡ some t) ⊎ (remembered (hash r.api_key) now c ≡ some t)
  unfolding cached_lookup
  looked_up loaded none t h = inl h
  looked_up loaded (some c) t h = elim (Option-cases (find (hash r.api_key) now c)) [
    | inr (u, there) ↦ ground (arith, there, h)
    | inl absent ↦ ground (arith, absent, h)
  ]

  -- Where a decision passes the request on, it has earned the identity.
  abbrev IsEarned : Decision → Type 0
  IsEarned d = (id : Identity) → d ≡ passed (some id) → Earned id

  choose-IsEarned :
      (b : Bool) (d e : Decision)
      → (b ≡ true → IsEarned d)
      → (b ≡ false → IsEarned e)
      → IsEarned (if b then d else e)
  choose-IsEarned true d e f g = f refl
  choose-IsEarned false d e f g = g refl

  refused-IsEarned : (n : ℕ) (t : String) → IsEarned (refused n t)
  refused-IsEarned n t id h = absurd cc

  passed-IsEarned : (i : Identity) → Earned i → IsEarned (passed (some i))
  passed-IsEarned i e id h = let same : i ≡ id = cc in subst Earned same e

  module _ (read_fails : Bool) where
    abbrev loaded : Option String
    loaded = if read_fails then none else some (lookup_tenant_key r.api_key (hash r.api_key) db)

    known :
        (t : String)
        → (cached_lookup (hash r.api_key) now loaded cache).0 ≡ some t
        → str_eq t "" ≡ false
        → (has_key (hash r.api_key) t db.api_keys ≡ true)
          ⊎ (remembered (hash r.api_key) now cache ≡ some t)
    known t h some_tenant = elim (looked_up loaded cache t h) [
      | inl read ↦ inl (read_tenant read_fails t read some_tenant)
      | inr kept ↦ inr kept
    ]

    -- The key is in none of the environment's sets.
    module _ (no_admin : contains r.api_key keys.admin_keys ≡ false)
        (no_provisioner : contains r.api_key keys.provisioner_keys ≡ false)
        (no_scaler : contains r.api_key keys.scaler_keys ≡ false) where
      tenant-IsEarned :
          (found : Option String)
          → (cached_lookup (hash r.api_key) now loaded cache).0 ≡ found
          → IsEarned (tenant_decision hash keys found)
      tenant-IsEarned none h = refused-IsEarned 500 "auth lookup failed"
      tenant-IsEarned (some t) h =
          choose-IsEarned (str_eq t "") _ _ (λ empty. refused-IsEarned 401 "invalid API key")
            λ some_tenant.
              passed-IsEarned _
                (as_tenant t no_admin no_provisioner no_scaler some_tenant (known t h some_tenant))

  -- A request is passed on with an identity only if its key earns it: a key of the environment's
  -- admin keys; one of its provisioner or scaler keys, in this order and under their paths; or else
  -- one whose hash the table or the cache has for a tenant, in the table with a row not revoked.
  pub auth_middleware-Earned :
      (read_fails : Bool) (id : Identity)
      → auth_middleware hash keys r now read_fails db cache ≡ passed (some id)
      → Earned id
  unfolding auth_middleware decide
  auth_middleware-Earned read_fails id h =
      choose-IsEarned (is_public r) (passed none) _ (λ open_path i e. absurd cc)
        (λ closed.
          choose-IsEarned (str_eq r.api_key "") _ _ (λ empty. refused-IsEarned 401 _)
            (λ given.
              choose-IsEarned (contains r.api_key keys.admin_keys) _ _
                (λ has. passed-IsEarned _ (as_admin has))
                (λ no_admin.
                  choose-IsEarned (contains r.api_key keys.provisioner_keys) _ _
                    (λ has.
                      choose-IsEarned (has_prefix r.path "/admin/tenants") _ _
                        (λ under. passed-IsEarned _ (as_provisioner no_admin has under))
                        (λ elsewhere. refused-IsEarned 403 _))
                    (λ no_provisioner.
                      choose-IsEarned (contains r.api_key keys.scaler_keys) _ _
                        (λ has.
                          choose-IsEarned (scaler_may_call r.path) _ _
                            (λ may. passed-IsEarned _ (as_scaler no_admin no_provisioner has may))
                            (λ elsewhere. refused-IsEarned 403 _))
                        (λ no_scaler.
                          tenant-IsEarned read_fails no_admin no_provisioner no_scaler _ refl)))))
        id h
