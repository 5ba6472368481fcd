-- ===== src/Api/ApiKeyCache/Entries.antt =====
-- What the operations of the cache do to its entries.
use n8n_sandbox_service.Base.{
  ℕ, ◌+◌, ◌*◌, ◌≡◌, refl, sym, ap, subst, ◌∙◌, ◌⊎◌, inl, inr, String, Bool, true, false, not, ◌&&◌,
  Option, none, some, str_eq, eq_iff, arith, ◌==◌, ltb, leb, if◌then◌else◌, length, ◌/◌, lookup,
  insert, keep_entries, is_some, IsUnique, lookup-nil, lookup-insert, insert-IsUnique,
  keep_entries-IsUnique, Bool-cases, Option-cases, some_inj, ==_iff,
}
use n8n_sandbox_service.Base.{lookup_of-keep_entries}
use n8n_sandbox_service.Api.ApiKeyCache.{
  CacheEntry, ApiKeyCache, find, make_room, with_room, finish_load, max_api_key_cache_entries,
}

pub none-some_text : {t : String} → none ≡ some t → ⊥
none-some_text e = absurd (cc)

pub none-some : {e : CacheEntry} → none ≡ some e → ⊥
none-some e = absurd (cc)

pub if_true : {b : Bool} (x y : Option CacheEntry) → b ≡ true → (if b then x else y) ≡ x
if_true x y h = rw h refl

pub if_false : {b : Bool} (x y : Option CacheEntry) → b ≡ false → (if b then x else y) ≡ y
if_false x y h = rw h refl

module _ (now : ℕ) (c : ApiKeyCache) (u : IsUnique c.by_key_hash) where
  pub make_room-IsUnique : IsUnique (make_room now c).by_key_hash
  unfolding make_room
  make_room-IsUnique =
      ground (arith, keep_entries-IsUnique (λ k e. ltb now e.expires) c.by_key_hash u)

  pub make_room-lookup :
      (k : String) (e : CacheEntry)
      → lookup k (make_room now c).by_key_hash ≡ some e
      → lookup k c.by_key_hash ≡ some e
  unfolding make_room
  make_room-lookup k e h =
      elim (Bool-cases (
        ltb (max_api_key_cache_entries * 3 / 4)
          (length (keep_entries (λ k e. ltb now e.expires) c.by_key_hash)))) [
            | inl all ↦ absurd (
                none-some (
                  sym (lookup-nil {V = CacheEntry} k)
                  ∙ subst (λ m. lookup k m ≡ some e) (rw (make_room, all) refl) h))
            | inr few ↦
                lookup_of-keep_entries (λ k e. ltb now e.expires) k c.by_key_hash u
                  (subst (λ m. lookup k m ≡ some e) (rw (make_room, few) refl) h)
          ]

  pub with_room-IsUnique : (k : String) → IsUnique (with_room k now c).by_key_hash
  unfolding with_room
  with_room-IsUnique k =
      elim (Bool-cases (
        not (is_some (lookup k c.by_key_hash))
        && leb max_api_key_cache_entries (length c.by_key_hash))) [
          | inl full ↦ rw (with_room, full) make_room-IsUnique
          | inr room ↦ rw (with_room, room) u
        ]

  pub with_room-gen : (k : String) → (with_room k now c).gen ≡ c.gen
  unfolding with_room make_room
  with_room-gen k =
      elim (Bool-cases (
        not (is_some (lookup k c.by_key_hash))
        && leb max_api_key_cache_entries (length c.by_key_hash))) [
          | inl full ↦ rw (with_room, full) refl
          | inr room ↦ rw (with_room, room) refl
        ]

  pub with_room-lookup :
      (k j : String) (e : CacheEntry)
      → lookup j (with_room k now c).by_key_hash ≡ some e
      → lookup j c.by_key_hash ≡ some e
  unfolding with_room
  with_room-lookup k j e h =
      elim (Bool-cases (
        not (is_some (lookup k c.by_key_hash))
        && leb max_api_key_cache_entries (length c.by_key_hash))) [
          | inl full ↦
              let eq : with_room k now c ≡ make_room now c = rw (with_room, full) refl in
              make_room-lookup j e
                (subst (λ (x : ApiKeyCache). lookup j x.by_key_hash ≡ some e) eq h)
          | inr room ↦
              let eq : with_room k now c ≡ c = rw (with_room, room) refl in
              subst (λ (x : ApiKeyCache). lookup j x.by_key_hash ≡ some e) eq h
        ]

module _ (k : String) (gen started : ℕ) (tenant : String) (now : ℕ) (c : ApiKeyCache)
    (u : IsUnique c.by_key_hash) where
  abbrev pub fresh_entry : CacheEntry
  fresh_entry = record { tenant_id = tenant; expires = started + c.ttl }

  pub finish_load-gen : (finish_load k gen started tenant now c).gen ≡ c.gen
  unfolding finish_load
  finish_load-gen = elim (Bool-cases (c.gen == gen)) [
    | inl same ↦ rw (finish_load, same) (with_room-gen now c u k)
    | inr stale ↦ rw (finish_load, stale) refl
  ]

  pub finish_load-IsUnique : IsUnique (finish_load k gen started tenant now c).by_key_hash
  unfolding finish_load
  finish_load-IsUnique = elim (Bool-cases (c.gen == gen)) [
    | inl same ↦ rw (finish_load, same) (insert-IsUnique k _ _ (with_room-IsUnique now c u k))
    | inr stale ↦ rw (finish_load, stale) u
  ]

  pub finish_load-lookup :
      (j : String) (e : CacheEntry)
      → lookup j (finish_load k gen started tenant now c).by_key_hash ≡ some e
      → (lookup j c.by_key_hash ≡ some e) ⊎ ((k ≡ j) × (e.tenant_id ≡ tenant) × (gen ≡ c.gen))
  unfolding finish_load
  finish_load-lookup j e h = elim (Bool-cases (c.gen == gen)) [
    | inr stale ↦
        let eq : finish_load k gen started tenant now c ≡ c = rw (finish_load, stale) refl in
        inl (subst (λ (x : ApiKeyCache). lookup j x.by_key_hash ≡ some e) eq h)
    | inl same ↦
        let eq : (finish_load k gen started tenant now c).by_key_hash
            ≡ insert k fresh_entry (with_room k now c).by_key_hash =
          rw (finish_load, same) refl in
        let at : (if str_eq k j then some fresh_entry else lookup j (with_room k now c).by_key_hash)
            ≡ some e =
          sym (lookup-insert k j fresh_entry (with_room k now c).by_key_hash)
          ∙ sym (ap (lookup j) eq)
          ∙ h in
        elim (Bool-cases (str_eq k j)) [
          | inl here ↦ inr (
            (eq_iff k j).0 here,
            sym (ap (λ (x : CacheEntry). x.tenant_id) (some_inj (sym (if_true _ _ here) ∙ at))),
            sym ((==_iff c.gen gen).0 same),
          )
          | inr there ↦ inl (with_room-lookup now c u k j e (sym (if_false _ _ there) ∙ at))
        ]
  ]

pub find-entry :
    (k : String) (now : ℕ) (c : ApiKeyCache) (tenant : String)
    → find k now c ≡ some tenant
    → (e : CacheEntry) × (lookup k c.by_key_hash ≡ some e) × (e.tenant_id ≡ tenant)
unfolding find
find-entry k now c tenant h = elim (Option-cases (lookup k c.by_key_hash)) [
  | inl missing ↦
      let eq : find k now c ≡ none = rw (find, missing) refl in absurd (none-some_text (sym eq ∙ h))
  | inr (e, found) ↦ elim (Bool-cases (ltb now e.expires)) [
    | inl live ↦
        let eq : find k now c ≡ some e.tenant_id = rw (find, found, live) refl in
        (e, found, some_inj (sym eq ∙ h))
    | inr expired ↦
        let eq : find k now c ≡ none = rw (find, found, expired) refl in
        absurd (none-some_text (sym eq ∙ h))
  ]
]
