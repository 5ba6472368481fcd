-- ===== src/Api/Auth/Tests.antt =====
-- Requests with keys, through `AuthMiddleware` of internal/api/middleware_auth.go.
use n8n_sandbox_service.Base.{
  ◌≡◌, refl, true, false, String, none, pos, [], ◌∷◌, contains, text_length, take_text, drop_text,
  has_prefix, drop_until,
}
use n8n_sandbox_service.Api.Store.{Database, list_active_api_keys_by_prefix, rows_where}
use n8n_sandbox_service.Api.CreateSandbox.{tenant}
use n8n_sandbox_service.Api.Auth.{
  HttpRequest, Keys, refused, scaler_may_call, is_public, api_key_prefix, first_tenant,
  lookup_tenant_key, cached_lookup, decide, auth_middleware,
}
use n8n_sandbox_service.Api.Auth.Identities.{Earned, auth_middleware-Earned}

abbrev db : Database
db = record {
  sandboxes = [];
  tenants = [];
  api_keys =
      (
        "k",
        record {
          key = record {
            id = "k";
            tenant_id = "t";
            key_hash = "sbk_01234567_secret";
            prefix = "01234567";
            created_at = pos 1;
            revoked_at = pos 0;
          };
          revoked = none;
        },
      )
      ∷ [];
}

abbrev hash : String → String
hash key = key

abbrev keys : Keys
keys = record {
  admin_keys = "root" ∷ [];
  provisioner_keys = "maker" ∷ [];
  scaler_keys = "scale" ∷ [];
}

abbrev request : String → String → HttpRequest
request path key = record { method = "POST"; path = path; api_key = key }

cordon_call : scaler_may_call "/admin/runners/r1/cordon" ≡ true
unfolding scaler_may_call has_prefix take_text drop_text text_length drop_until
cordon_call = refl

deeper_call : scaler_may_call "/admin/runners/r1/x/cordon" ≡ false
unfolding scaler_may_call has_prefix take_text drop_text text_length drop_until
deeper_call = refl

provisioner_elsewhere :
    auth_middleware hash keys (request "/sandboxes" "maker") 5 false db none
    ≡ refused 403 "provisioner API key may only manage tenants"
unfolding auth_middleware decide is_public contains has_prefix take_text text_length
provisioner_elsewhere = refl

unknown_key :
    auth_middleware hash keys (request "/sandboxes" "sbk_01234567_guess") 5 false db none
    ≡ refused 401 "invalid API key"
unfolding auth_middleware decide is_public contains cached_lookup lookup_tenant_key first_tenant
    list_active_api_keys_by_prefix rows_where api_key_prefix take_text drop_text text_length
unknown_key = refl

auth_middleware-Earned_example :
    Earned hash keys
      (request "/sandboxes" "sbk_01234567_secret")
      5
      db
      none
      (record { role = tenant; tenant_id = "t" })
unfolding auth_middleware decide is_public contains cached_lookup lookup_tenant_key first_tenant
    list_active_api_keys_by_prefix rows_where api_key_prefix take_text drop_text text_length
auth_middleware-Earned_example =
    auth_middleware-Earned hash keys (request "/sandboxes" "sbk_01234567_secret") 5 db none false
      (record { role = tenant; tenant_id = "t" }) refl
