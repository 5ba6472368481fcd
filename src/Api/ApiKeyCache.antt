-- ===== src/Api/ApiKeyCache.antt =====
-- internal/api/apikey_cache.go: the cache of tenant-key lookups. A cache with a lifetime of 0 or less
-- is nil in the source and has no state; this is the other one. A lookup that misses reads the store
-- without the lock: `find` is the part before the read, `finish_load` the part after it.
pub mod Lookups
pub mod Entries
pub mod Knowledge
pub mod Freshness
pub mod Bounds
mod Tests
use n8n_sandbox_service.Base.{
  ℕ, zero, suc, ◌+◌, ◌-◌, ◌*◌, ◌%◌, ◌^◌, ◌≤◌, ◌<◌, ◌≡◌, refl, sym, ap, subst, ◌∙◌, ◌≢◌, ◌↔◌, ◌⊎◌,
  inl, inr, String, Bool, true, false, not, ◌&&◌, ◌||◌, Option, none, some, List, [], ◌∷◌, ◌++◌,
  map, str_eq, eq_iff, eq_refl, arith, ◌==◌, ltb, leb, if◌then◌else◌, length, get_elem?, set,
  length-append, length-map, ℤ, pos, negsuc, ltb_ℤ, leb_ℤ, ◌≤ℤ◌, ◌+ℤ◌, ◌-ℤ◌, +ℤ_parts, -ℤ_parts,
  ◌/◌, pos_part, neg_part, lookup, insert, erase, keep_entries, contains, remove, trim_right,
  trim_space, is_some, IsUnique, IsDistinct, lookup-nil, lookup-insert, lookup-erase,
  lookup-keep_entries, insert-IsUnique, erase-IsUnique, keep_entries-IsUnique, contains-append,
  contains-one, contains-remove, append-IsDistinct, remove-IsDistinct, Bool-cases, Option-cases,
  some_inj, ltb→lt, leb→le, ==_iff, length-insert, length-erase-le, length-keep_entries-le,
}

pub record CacheEntry : Type 0 where
  pub tenant_id : String  -- "" is no such key
  pub expires : ℕ

pub record ApiKeyCache : Type 0 where
  pub ttl : ℕ
  pub by_key_hash : List (String × CacheEntry)
  pub gen : ℕ  -- uint64

abbrev pub max_api_key_cache_entries : ℕ
max_api_key_cache_entries = 10000

-- `none` is the nil cache.
unfoldable pub new_api_key_cache : ℤ → Option ApiKeyCache
new_api_key_cache ttl =
    if leb_ℤ ttl (pos 0)
    then none
    else some (record { ttl = pos_part ttl; by_key_hash = []; gen = 0 })

-- The entry that answers a lookup, if it has not expired.
unfoldable pub find : String → ℕ → ApiKeyCache → Option String
find key_hash now c = elim (lookup key_hash c.by_key_hash) [
  | none ↦ none
  | some e ↦ if ltb now e.expires then some e.tenant_id else none
]

unfoldable pub make_room : ℕ → ApiKeyCache → ApiKeyCache
make_room now c =
    let kept = keep_entries (λ k e. ltb now e.expires) c.by_key_hash in
    record c {
      by_key_hash = if ltb (max_api_key_cache_entries * 3 / 4) (length kept) then [] else kept;
    }

-- Room for a key that is not in a full cache.
unfoldable pub with_room : String → ℕ → ApiKeyCache → ApiKeyCache
unfolding make_room
with_room key_hash now c =
    if not (is_some (lookup key_hash c.by_key_hash))
      && leb max_api_key_cache_entries (length c.by_key_hash)
    then make_room now c
    else c

unfoldable pub finish_load : String → ℕ → ℕ → String → ℕ → ApiKeyCache → ApiKeyCache
unfolding with_room
finish_load key_hash gen started tenant_id now c =
    let room = with_room key_hash now c in
    if c.gen == gen
    then record room {
      by_key_hash =
          insert key_hash (record { tenant_id = tenant_id; expires = started + c.ttl })
            room.by_key_hash;
    }
    else c

unfoldable pub invalidate : String → ApiKeyCache → ApiKeyCache
invalidate key_hash c = record c {
  gen = (c.gen + 1) % 2 ^ 64;
  by_key_hash = erase key_hash c.by_key_hash;
}

unfoldable pub invalidate_tenant : String → ApiKeyCache → ApiKeyCache
invalidate_tenant tenant_id c = record c {
  gen = (c.gen + 1) % 2 ^ 64;
  by_key_hash = keep_entries (λ k e. not (str_eq e.tenant_id tenant_id)) c.by_key_hash;
}
