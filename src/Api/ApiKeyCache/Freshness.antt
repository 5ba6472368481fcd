-- ===== src/Api/ApiKeyCache/Freshness.antt =====
-- What a hit of the cache answers.
use n8n_sandbox_service.Base.{ℕ, ◌≡◌, sym, ◌∙◌, inl, inr, String, none, some, lookup}
use n8n_sandbox_service.Api.ApiKeyCache.{find}
use n8n_sandbox_service.Api.ApiKeyCache.Lookups.{idle, World, Reach, start, later, empty_cache}
use n8n_sandbox_service.Api.ApiKeyCache.Entries.{none-some_text, find-entry}
use n8n_sandbox_service.Api.ApiKeyCache.Knowledge.{Inv, Step-Inv}

start-Inv :
    (ttl : ℕ) (store : String → String)
    → Inv (record {
      cache = empty_cache ttl;
      store = store;
      revoked = λ k. none;
      flights = λ i. idle;
    })
unfolding lookup
start-Inv ttl store = record {
  unique = tt;
  entries = λ k e h. absurd (cc);
  flights = λ i k gen started tenant h same. absurd (cc);
  older = λ i k gen started read h. absurd (cc);
  gone = λ k tenant h. absurd (cc);
}

pub Reach-Inv : {ttl : ℕ} {store : String → String} {w : World} → Reach ttl store w → Inv w
Reach-Inv {ttl} {store} start = start-Inv ttl store
Reach-Inv (later r st) = Step-Inv st (Reach-Inv r)

-- Once the invalidation that follows a revocation of a key, or the deletion of its tenant, has run,
-- a lookup that the cache answers gives the tenant that the store has for the key, "" for a key that
-- is gone: no lookup that read the store before the revocation brings the former tenant back. Fewer
-- than 2^64 invalidations happen, and no key that the store lacks is made.
pub Reach-find :
    {ttl : ℕ} {store : String → String} {w : World}
    → Reach ttl store w
    → (k : String) (now : ℕ) (tenant : String) → w.revoked k ≡ none
    → find k now w.cache ≡ some tenant
    → tenant ≡ w.store k
Reach-find {w = w} r k now tenant told h =
    let (e, found, is_tenant) = find-entry k now w.cache tenant h in
    elim ((Reach-Inv r).entries k e found) [
      | inl known ↦ sym is_tenant ∙ known
      | inr lost ↦ absurd (none-some_text (sym told ∙ lost))
    ]
