-- ===== src/Api/ApiKeyCache/Bounds.antt =====
-- The size of the cache.
use n8n_sandbox_service.Base.{
  ℕ, ◌*◌, ◌≤◌, ◌<◌, ◌≡◌, inl, inr, String, not, ◌&&◌, none, str_eq, arith, ◌==◌, leb, length, ◌/◌,
  lookup, is_some, Bool-cases, Option-cases, length-insert, length-erase-le, length-keep_entries-le,
}
use n8n_sandbox_service.Api.ApiKeyCache.{
  ApiKeyCache, make_room, with_room, finish_load, invalidate, invalidate_tenant,
  max_api_key_cache_entries,
}
use n8n_sandbox_service.Api.ApiKeyCache.Lookups.{
  World, Step, misses, reads, finishes, fails, revokes, revokes_tenant, invalidates,
  invalidates_tenant, Reach, start, later,
}

abbrev size : ApiKeyCache → ℕ
size c = length c.by_key_hash

make_room-size :
    (now : ℕ) (c : ApiKeyCache) → size (make_room now c) ≤ max_api_key_cache_entries * 3 / 4
unfolding make_room
make_room-size now c = ground arith

-- Room for a new key leaves the cache below its bound.
with_room-size :
    (k : String) (now : ℕ) (c : ApiKeyCache)
    → size c ≤ max_api_key_cache_entries
    → (size (with_room k now c) ≤ max_api_key_cache_entries)
      × ((lookup k (with_room k now c).by_key_hash ≡ none)
          → size (with_room k now c) < max_api_key_cache_entries)
unfolding with_room
with_room-size k now c bound =
    elim (Bool-cases (
      not (is_some (lookup k c.by_key_hash))
      && leb max_api_key_cache_entries (length c.by_key_hash))) [
        | inl full ↦
            rw (with_room, full)
              (omega (arith, make_room-size now c), λ h. omega (arith, make_room-size now c))
        | inr room ↦ rw (with_room, room) (bound, λ h. ground (arith, room, h))
      ]

finish_load-size :
    (k : String) (gen started : ℕ) (tenant : String) (now : ℕ) (c : ApiKeyCache)
    → size c ≤ max_api_key_cache_entries
    → size (finish_load k gen started tenant now c) ≤ max_api_key_cache_entries
unfolding finish_load
finish_load-size k gen started tenant now c bound =
    let (small, smaller) = with_room-size k now c bound in
    elim (Bool-cases (c.gen == gen)) [
      | inr stale ↦ rw (finish_load, stale) bound
      | inl same ↦
          rw (finish_load, same, length-insert k _ (with_room k now c).by_key_hash)
            (elim (Option-cases (lookup k (with_room k now c).by_key_hash)) [
              | inl new ↦ rw new (smaller new)
              | inr (e, there) ↦ rw there small
            ])
    ]

Step-size :
    {w x : World}
    → Step w x
    → size w.cache ≤ max_api_key_cache_entries
    → size x.cache ≤ max_api_key_cache_entries
unfolding invalidate invalidate_tenant
Step-size (misses i k now) b = b
Step-size (reads i k gen started at) b = b
Step-size {w} (finishes i k gen started tenant now at) b =
    finish_load-size k gen started tenant now w.cache b
Step-size (fails i) b = b
Step-size (revokes k has) b = b
Step-size (revokes_tenant t real) b = b
Step-size {w} (invalidates k bound) b = omega (arith, b, length-erase-le k w.cache.by_key_hash)
Step-size {w} (invalidates_tenant t bound) b =
    omega (arith, b, length-keep_entries-le (λ k e. not (str_eq e.tenant_id t)) w.cache.by_key_hash)

-- However lookups, revocations and tenant deletions interleave, the cache never has more than
-- `max_api_key_cache_entries` entries.
pub Reach-size :
    {ttl : ℕ} {store : String → String} {w : World}
    → Reach ttl store w
    → length w.cache.by_key_hash ≤ max_api_key_cache_entries
Reach-size start = omega arith
Reach-size (later r st) = Step-size st (Reach-size r)
