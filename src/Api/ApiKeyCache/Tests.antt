-- ===== src/Api/ApiKeyCache/Tests.antt =====
-- A lookup that reads the store before a revocation and finishes after it.
use n8n_sandbox_service.Base.{
  ◌≤◌, ◌≡◌, refl, ◌≢◌, String, none, some, str_eq, arith, if◌then◌else◌, length, lookup, insert,
  erase,
}
use n8n_sandbox_service.Base.{replace}
use n8n_sandbox_service.Api.ApiKeyCache.{
  find, finish_load, with_room, invalidate, max_api_key_cache_entries,
}
use n8n_sandbox_service.Api.ApiKeyCache.Lookups.{
  idle, loading, World, revoke_key, misses, reads, finishes, revokes, invalidates, Reach, start,
  later, empty_cache,
}
use n8n_sandbox_service.Api.ApiKeyCache.Freshness.{Reach-find}
use n8n_sandbox_service.Api.ApiKeyCache.Bounds.{Reach-size}

abbrev tenants : String → String
tenants k = if str_eq k "k" then "t" else ""

-- The lookup has read the store.
abbrev before : World
before = record {
  cache = empty_cache 60;
  store = tenants;
  revoked = λ k. none;
  flights = replace (replace (λ i. idle) 0 (loading "k" 0 10 none)) 0 (loading "k" 0 10 (some "t"));
}

before-Reach : Reach 60 tenants before
before-Reach = later (later start (misses 0 "k" 10)) (reads 0 "k" 0 10 refl)

abbrev told : World
told = record (revoke_key "k" before) {
  cache = invalidate "k" before.cache;
  revoked = λ j. if str_eq "k" j then none else (revoke_key "k" before).revoked j;
}

t-real : tenants "k" ≢ ""
t-real e = absurd (cc)

abbrev after : World
after = record told {
  cache = finish_load "k" 0 10 "t" 11 told.cache;
  flights = replace told.flights 0 idle;
}

after-Reach : Reach 60 tenants after
unfolding invalidate
after-Reach =
    later (later (later before-Reach (revokes "k" t-real)) (invalidates "k" (omega arith)))
      (finishes 0 "k" 0 10 "t" 11 refl)

abbrev cached : World
cached = record before {
  cache = finish_load "k" 0 10 "t" 11 before.cache;
  flights = replace before.flights 0 idle;
}

cached-Reach : Reach 60 tenants cached
cached-Reach = later before-Reach (finishes 0 "k" 0 10 "t" 11 refl)

cached-test : find "k" 12 cached.cache ≡ some (tenants "k")
unfolding find finish_load with_room lookup insert
cached-test = refl

Reach-find_example : tenants "k" ≡ cached.store "k"
Reach-find_example = Reach-find cached-Reach "k" 12 (tenants "k") refl cached-test

stale-test : find "k" 12 after.cache ≡ none
unfolding find finish_load invalidate with_room lookup erase
stale-test = refl

Reach-size_example : length after.cache.by_key_hash ≤ max_api_key_cache_entries
Reach-size_example = Reach-size after-Reach
