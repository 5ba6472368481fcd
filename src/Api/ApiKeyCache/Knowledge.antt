-- ===== src/Api/ApiKeyCache/Knowledge.antt =====
-- What the cache and the running lookups know of each key, and how each step keeps it.
use n8n_sandbox_service.Base.{
  ℕ, ◌+◌, ◌%◌, ◌^◌, ◌≤◌, ◌<◌, ◌≡◌, refl, sym, ap, subst, ◌∙◌, ◌≢◌, ◌⊎◌, inl, inr, String, Bool,
  true, false, not, Option, none, some, str_eq, eq_iff, arith, if◌then◌else◌, lookup, IsUnique,
  lookup-erase, erase-IsUnique, keep_entries-IsUnique, Bool-cases,
}
use n8n_sandbox_service.Base.{replace, kept_row}
use n8n_sandbox_service.Api.ApiKeyCache.{CacheEntry, finish_load, invalidate, invalidate_tenant}
use n8n_sandbox_service.Api.ApiKeyCache.Lookups.{
  Flight, idle, loading, World, revoke_key, revoke_tenant, was_of, Step, misses, reads, finishes,
  fails, revokes, revokes_tenant, invalidates, invalidates_tenant,
}
use n8n_sandbox_service.Api.ApiKeyCache.Entries.{
  finish_load-gen, finish_load-IsUnique, finish_load-lookup,
}

abbrev pub Known : World → String → String → Type 0
Known w k tenant = (tenant ≡ w.store k) ⊎ (w.revoked k ≡ some tenant)

pub record Inv (w : World) : Type 0 where
  pub unique : IsUnique w.cache.by_key_hash
  pub entries :
      (k : String) (e : CacheEntry) → lookup k w.cache.by_key_hash ≡ some e → Known w k e.tenant_id
  pub flights :
      (i : ℕ) (k : String) (gen started : ℕ) (tenant : String)
      → w.flights i ≡ loading k gen started (some tenant)
      → gen ≡ w.cache.gen
      → Known w k tenant
  pub older :
      (i : ℕ) (k : String) (gen started : ℕ) (read : Option String)
      → w.flights i ≡ loading k gen started read
      → gen ≤ w.cache.gen
  pub gone : (k tenant : String) → w.revoked k ≡ some tenant → w.store k ≡ ""

pub read_of :
    {k j t u : String} {g h s r : ℕ} → loading k g s (some t) ≡ loading j h r (some u) → t ≡ u
read_of e = ground (arith, e)

pub key_of :
    {k j t u : String} {g h s r : ℕ} → loading k g s (some t) ≡ loading j h r (some u) → k ≡ j
key_of e = ground (arith, e)

pub false_of_not : {b : Bool} → not b ≡ true → b ≡ false
false_of_not h = ground arith

module _ {w : World} (inv : Inv w) where
  -- A step that changes the flights alone.
  pub flight-Inv :
      (i : ℕ) (f : Flight)
      → ((k : String) (gen started : ℕ) (tenant : String)
          → f ≡ loading k gen started (some tenant)
          → gen ≡ w.cache.gen
          → Known w k tenant)
      → ((k : String) (gen started : ℕ) (read : Option String)
          → f ≡ loading k gen started read
          → gen ≤ w.cache.gen)
      → Inv (record w { flights = replace w.flights i f })
  flight-Inv i f known old = record {
    unique = inv.unique;
    entries = inv.entries;
    flights = λ j k gen started tenant h same.
        ground (arith, known k gen started tenant, inv.flights j k gen started tenant);
    older = λ j k gen started read h.
        ground (arith, old k gen started read, inv.older j k gen started read);
    gone = inv.gone;
  }

  pub revoked-Known :
      (k : String)
      → w.store k ≢ ""
      → (j tenant : String) → Known w j tenant
      → Known (revoke_key k w) j tenant
  revoked-Known k has j tenant known = elim (Bool-cases (str_eq k j)) [
    | inr other ↦ rw other known
    | inl here ↦ elim known [
      | inl e ↦ inr (rw here (ap some (ap w.store ((eq_iff k j).0 here) ∙ sym e)))
      | inr e ↦ absurd (has (ap w.store ((eq_iff k j).0 here) ∙ inv.gone j tenant e))
    ]
  ]

  pub tenant-Known :
      (t : String)
      → t ≢ ""
      → (j tenant : String) → Known w j tenant
      → Known (revoke_tenant t w) j tenant
  tenant-Known t real j tenant known = elim (Bool-cases (str_eq (w.store j) t)) [
    | inr other ↦ rw other known
    | inl here ↦ elim known [
      | inl e ↦ inr (rw here (ap some (sym (e ∙ (eq_iff (w.store j) t).0 here))))
      | inr e ↦ absurd (real (sym ((eq_iff (w.store j) t).0 here) ∙ inv.gone j tenant e))
    ]
  ]

  pub misses-Inv :
      (i : ℕ) (k : String) (now : ℕ)
      → Inv (record w { flights = replace w.flights i (loading k w.cache.gen now none) })
  misses-Inv i k now =
      flight-Inv i (loading k w.cache.gen now none) (λ j gen started tenant h. absurd (cc))
        (λ j gen started read h. ground arith)

  pub reads-Inv :
      (i : ℕ) (k : String) (gen started : ℕ)
      → w.flights i ≡ loading k gen started none
      → Inv (record w { flights = replace w.flights i (loading k gen started (some (w.store k))) })
  reads-Inv i k gen started at =
      flight-Inv i (loading k gen started (some (w.store k)))
        (λ j g s tenant h same. inl (read_of (sym h) ∙ ap w.store (key_of h)))
        (λ j g s read h. ground (arith, inv.older i k gen started none at))

  pub fails-Inv : (i : ℕ) → Inv (record w { flights = replace w.flights i idle })
  fails-Inv i =
      flight-Inv i idle (λ j gen started tenant h. absurd (cc))
        (λ j gen started read h. absurd (cc))

  pub finishes-Inv :
      (i : ℕ) (k : String) (gen started : ℕ) (tenant : String) (now : ℕ)
      → w.flights i ≡ loading k gen started (some tenant)
      → Inv (record w {
        cache = finish_load k gen started tenant now w.cache;
        flights = replace w.flights i idle;
      })
  finishes-Inv i k gen started tenant now at =
      let idles = fails-Inv i in
      let same_gen = finish_load-gen k gen started tenant now w.cache inv.unique in
      record {
        unique = finish_load-IsUnique k gen started tenant now w.cache inv.unique;
        entries = λ j e h.
            elim (finish_load-lookup k gen started tenant now w.cache inv.unique j e h) [
              | inl old ↦ inv.entries j e old
              | inr (same_key, is_tenant, current) ↦
                  subst (λ x. Known w j x) (sym is_tenant)
                    (subst (λ x. Known w x tenant) same_key
                      (inv.flights i k gen started tenant at current))
            ];
        flights = λ j l g s t h same. idles.flights j l g s t h (same ∙ same_gen);
        older = λ j l g s r h. omega (arith, idles.older j l g s r h, same_gen);
        gone = inv.gone;
      }

  pub revokes-Inv : (k : String) → w.store k ≢ "" → Inv (revoke_key k w)
  revokes-Inv k has =
      let still : (j tenant : String) → Known w j tenant → Known (revoke_key k w) j tenant =
        λ j tenant known. revoked-Known k has j tenant known in
      record {
        unique = inv.unique;
        entries = λ j e h. still j e.tenant_id (inv.entries j e h);
        flights = λ j l g s t h same. still l t (inv.flights j l g s t h same);
        older = inv.older;
        gone = λ j tenant h. ground (arith, inv.gone j tenant);
      }

  pub revokes_tenant-Inv : (t : String) → t ≢ "" → Inv (revoke_tenant t w)
  revokes_tenant-Inv t real =
      let still : (j tenant : String) → Known w j tenant → Known (revoke_tenant t w) j tenant =
        λ j tenant known. tenant-Known t real j tenant known in
      record {
        unique = inv.unique;
        entries = λ j e h. still j e.tenant_id (inv.entries j e h);
        flights = λ j l g s u h same. still l u (inv.flights j l g s u h same);
        older = inv.older;
        gone = λ j tenant h. ground (arith, inv.gone j tenant);
      }

  -- After an invalidation no lookup that runs has the cache's generation.
  pub none_current :
      (gen : ℕ)
      → w.cache.gen + 1 < 2 ^ 64
      → gen ≤ w.cache.gen
      → gen ≡ (w.cache.gen + 1) % 2 ^ 64
      → ⊥
  none_current gen bound old same = omega (arith, bound, old, same)

  pub invalidates-Inv :
      (k : String)
      → w.cache.gen + 1 < 2 ^ 64
      → Inv (record w {
        cache = invalidate k w.cache;
        revoked = λ j. if str_eq k j then none else w.revoked j;
      })
  unfolding invalidate
  invalidates-Inv k bound = record {
    unique = erase-IsUnique k w.cache.by_key_hash inv.unique;
    entries = λ j e h. ground (arith, lookup-erase k j w.cache.by_key_hash, inv.entries j e);
    flights = λ j l g s t h same. absurd (none_current g bound (inv.older j l g s (some t) h) same);
    older = λ j l g s r h. omega (arith, inv.older j l g s r h, bound);
    gone = λ j tenant h. ground (arith, inv.gone j tenant);
  }

  pub invalidates_tenant-Inv :
      (t : String)
      → w.cache.gen + 1 < 2 ^ 64
      → Inv (record w {
        cache = invalidate_tenant t w.cache;
        revoked = λ j. if was_of t (w.revoked j) then none else w.revoked j;
      })
  unfolding invalidate_tenant
  invalidates_tenant-Inv t bound = record {
    unique =
        keep_entries-IsUnique (λ j e. not (str_eq e.tenant_id t)) w.cache.by_key_hash inv.unique;
    entries = λ j e h.
        let (other, old) =
          kept_row (λ (x : CacheEntry). not (str_eq x.tenant_id t)) j w.cache.by_key_hash inv.unique
            h in
        elim (inv.entries j e old) [
          | inl known ↦ inl known
          | inr lost ↦ inr (rw (lost, false_of_not other) refl)
        ];
    flights = λ j l g s u h same. absurd (none_current g bound (inv.older j l g s (some u) h) same);
    older = λ j l g s r h. omega (arith, inv.older j l g s r h, bound);
    gone = λ j tenant h. ground (arith, inv.gone j tenant);
  }

pub Step-Inv : {w x : World} → Step w x → Inv w → Inv x
Step-Inv (misses i k now) inv = misses-Inv inv i k now
Step-Inv (reads i k gen started at) inv = reads-Inv inv i k gen started at
Step-Inv (finishes i k gen started tenant now at) inv =
    finishes-Inv inv i k gen started tenant now at
Step-Inv (fails i) inv = fails-Inv inv i
Step-Inv (revokes k has) inv = revokes-Inv inv k has
Step-Inv (revokes_tenant t real) inv = revokes_tenant-Inv inv t real
Step-Inv (invalidates k bound) inv = invalidates-Inv inv k bound
Step-Inv (invalidates_tenant t bound) inv = invalidates_tenant-Inv inv t bound
