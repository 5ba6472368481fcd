-- ===== src/Api/ApiKeyCache/Lookups.antt =====
-- Lookups, revocations and tenant deletions that interleave. A revocation changes the store first
-- and invalidates the cache afterwards; the lookups run in between as they like.
use n8n_sandbox_service.Base.{
  ℕ, ◌+◌, ◌^◌, ◌<◌, ◌≡◌, ◌≢◌, String, Bool, false, Option, none, some, [], str_eq, if◌then◌else◌,
}
use n8n_sandbox_service.Base.{replace}
use n8n_sandbox_service.Api.ApiKeyCache.{ApiKeyCache, finish_load, invalidate, invalidate_tenant}

-- What a lookup that missed knows: its key, the generation it saw, when it started to read and,
-- after its read, what the store said.
pub data Flight : Type 0 where
  idle : Flight
  loading : String → ℕ → ℕ → Option String → Flight

-- `store` gives each key's tenant, "" for none. `revoked` has the former tenant of each key that
-- the store has lost and the cache has not been told of.
pub record World : Type 0 where
  pub cache : ApiKeyCache
  pub store : String → String
  pub revoked : String → Option String
  pub flights : ℕ → Flight

abbrev pub revoke_key : String → World → World
revoke_key k w = record w {
  store = λ j. if str_eq k j then "" else w.store j;
  revoked = λ j. if str_eq k j then some (w.store k) else w.revoked j;
}

abbrev pub revoke_tenant : String → World → World
revoke_tenant t w = record w {
  store = λ j. if str_eq (w.store j) t then "" else w.store j;
  revoked = λ j. if str_eq (w.store j) t then some t else w.revoked j;
}

abbrev pub was_of : String → Option String → Bool
was_of t none = false
was_of t (some u) = str_eq u t

pub data Step (w : World) : World → Type 0 where
  misses :
      (i : ℕ) (k : String) (now : ℕ)
      → Step w (record w { flights = replace w.flights i (loading k w.cache.gen now none) })
  reads :
      (i : ℕ) (k : String) (gen started : ℕ)
      → w.flights i ≡ loading k gen started none
      → Step w
          (record w { flights = replace w.flights i (loading k gen started (some (w.store k))) })
  finishes :
      (i : ℕ) (k : String) (gen started : ℕ) (tenant : String) (now : ℕ)
      → w.flights i ≡ loading k gen started (some tenant)
      → Step w (record w {
        cache = finish_load k gen started tenant now w.cache;
        flights = replace w.flights i idle;
      })
  fails : (i : ℕ) → Step w (record w { flights = replace w.flights i idle })
  -- The store loses a key that it has.
  revokes : (k : String) → w.store k ≢ "" → Step w (revoke_key k w)
  revokes_tenant : (t : String) → t ≢ "" → Step w (revoke_tenant t w)
  -- Fewer than 2^64 invalidations.
  invalidates :
      (k : String)
      → w.cache.gen + 1 < 2 ^ 64
      → Step w (record w {
        cache = invalidate k w.cache;
        revoked = λ j. if str_eq k j then none else w.revoked j;
      })
  invalidates_tenant :
      (t : String)
      → w.cache.gen + 1 < 2 ^ 64
      → Step w (record w {
        cache = invalidate_tenant t w.cache;
        revoked = λ j. if was_of t (w.revoked j) then none else w.revoked j;
      })

abbrev pub empty_cache : ℕ → ApiKeyCache
empty_cache ttl = record { ttl = ttl; by_key_hash = []; gen = 0 }

pub data Reach (ttl : ℕ) (store : String → String) : World → Type 0 where
  start :
      Reach ttl store (record {
        cache = empty_cache ttl;
        store = store;
        revoked = λ k. none;
        flights = λ i. idle;
      })
  later : {w x : World} → Reach ttl store w → Step w x → Reach ttl store x
