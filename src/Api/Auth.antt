-- ===== src/Api/Auth.antt =====
-- `AuthMiddleware` of internal/api/middleware_auth.go with internal/probes/probes.go: the identity
-- that a request's key has. A text is its bytes, each as a character of its code; comparing in
-- constant time is comparing. The digest of a key is a parameter.
pub mod Identities
mod Tests
use n8n_sandbox_service.Base.{
  ℕ, String, Bool, true, false, Option, none, some, List, [], ◌∷◌, str_eq, text_length, take_text,
  drop_text, has_prefix, drop_until, not, ◌&&◌, ◌||◌, leb, if◌then◌else◌, contains,
}
use n8n_sandbox_service.Api.Store.{ApiKey, Database, list_active_api_keys_by_prefix}
use n8n_sandbox_service.Api.ApiKeyCache.{ApiKeyCache, find, finish_load}
use n8n_sandbox_service.Api.CreateSandbox.{
  Role, admin, provisioner, scaler, tenant, Identity, is_slash,
}

pub record HttpRequest : Type 0 where
  pub method : String
  pub path : String
  pub api_key : String  -- "" is no X-Api-Key header

pub record Keys : Type 0 where
  pub admin_keys : List String
  pub provisioner_keys : List String
  pub scaler_keys : List String

-- Refused with a status, or passed on with an identity, which a public path has not.
pub data Decision : Type 0 where
  refused : ℕ → String → Decision
  passed : Option Identity → Decision

-- The two patterns of `path.Match`, of which the second has one segment of any text.
unfoldable pub scaler_may_call : String → Bool
scaler_may_call path =
    str_eq path "/admin/runners"
    || (has_prefix path "/admin/runners/"
        && str_eq (drop_until is_slash (drop_text 15 path)) "/cordon")

unfoldable pub is_public : HttpRequest → Bool
is_public r =
    (str_eq r.path "/healthz" || str_eq r.path "/metrics")
    && (str_eq r.method "GET" || str_eq r.method "HEAD")

unfoldable pub api_key_prefix : String → String
api_key_prefix key =
    if leb 12 (text_length key) && str_eq (take_text 4 key) "sbk_"
    then take_text 8 (drop_text 4 key)
    else if leb 8 (text_length key)
    then take_text 8 key
    else key

unfoldable pub first_tenant : String → List ApiKey → String
first_tenant key_hash [] = ""
first_tenant key_hash (c ∷ candidates) =
    if str_eq c.key_hash key_hash then c.tenant_id else first_tenant key_hash candidates

unfoldable pub lookup_tenant_key : String → String → Database → String
lookup_tenant_key key key_hash db =
    first_tenant key_hash (list_active_api_keys_by_prefix (api_key_prefix key) db)

-- The cache's lookup around the read of the store, with no other request in between; `none` where the
-- read fails, and for a cache the nil one.
unfoldable pub cached_lookup :
    String → ℕ → Option String → Option ApiKeyCache → Option String × Option ApiKeyCache
cached_lookup key_hash now loaded none = (loaded, none)
cached_lookup key_hash now loaded (some c) = elim (find key_hash now c) [
  | some tenant_id ↦ (some tenant_id, some c)
  | none ↦ elim loaded [
    | none ↦ (none, some c)
    | some tenant_id ↦ (some tenant_id, some (finish_load key_hash c.gen now tenant_id now c))
  ]
]

module _ (hash_api_key : String → String) (keys : Keys) where
  abbrev pub tenant_decision : Option String → Decision
  tenant_decision none = refused 500 "auth lookup failed"
  tenant_decision (some tenant_id) =
      if str_eq tenant_id ""
      then refused 401 "invalid API key"
      else passed (some (record { role = tenant; tenant_id = tenant_id }))

  abbrev pub no_tenant : Role → Decision
  no_tenant role = passed (some (record { role = role; tenant_id = "" }))

  -- The keys of the environment, and then those of tenants by what the lookup gives.
  unfoldable pub decide : HttpRequest → Option String → Decision
  decide r found =
      if is_public r
      then passed none
      else if str_eq r.api_key ""
      then refused 401 "missing X-Api-Key header"
      else if contains r.api_key keys.admin_keys
      then no_tenant admin
      else if contains r.api_key keys.provisioner_keys
      then if has_prefix r.path "/admin/tenants"
        then no_tenant provisioner
        else refused 403 "provisioner API key may only manage tenants"
      else if contains r.api_key keys.scaler_keys
      then if scaler_may_call r.path
        then no_tenant scaler
        else refused 403 "scaler API key may only list and cordon runners"
      else tenant_decision found

  -- What the lookup gives for the request's key.
  abbrev pub found_tenant :
      HttpRequest → ℕ → Bool → Database → Option ApiKeyCache → Option String × Option ApiKeyCache
  found_tenant r now read_fails db cache =
      let key_hash = hash_api_key r.api_key in
      cached_lookup key_hash now
        (if read_fails then none else some (lookup_tenant_key r.api_key key_hash db)) cache

  unfoldable pub auth_middleware : HttpRequest → ℕ → Bool → Database → Option ApiKeyCache → Decision
  auth_middleware r now read_fails db cache = decide r (found_tenant r now read_fails db cache).0
