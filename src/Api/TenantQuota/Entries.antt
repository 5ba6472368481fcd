-- ===== src/Api/TenantQuota/Entries.antt =====
-- The operations of internal/api/tenant_quota.go as they act on each tenant's entry.
use n8n_sandbox_service.Base.{
  ℕ, ◌+◌, ◌<◌, ◌≡◌, String, Bool, false, Option, none, some, arith, ◌==◌, ◌&&◌, if◌then◌else◌,
  str_eq, eq_iff, eq_refl, lookup, lookup-insert, lookup-erase, Option-cases, inl, inr,
}
use n8n_sandbox_service.Api.TenantQuota.{
  TenantCreates, TenantQuota, no_creates, store_at, begin_reserve, forget_if_idle,
}

abbrev pub entry_at : TenantQuota → Option ℕ → TenantCreates
entry_at q none = no_creates
entry_at q (some a) = q.heap a

abbrev pub entry : TenantQuota → String → TenantCreates
entry q t = entry_at q (lookup t q.tenants)

abbrev pub Points : TenantQuota → String → ℕ → Type 0
Points q t a = lookup t q.tenants ≡ some a

-- Addresses have been handed out, each to one tenant.
pub record IsValid (q : TenantQuota) : Type 0 where
  pub below : (t : String) (a : ℕ) → Points q t a → a < q.next
  pub apart : (t u : String) (a : ℕ) → Points q t a → Points q u a → t ≡ u

module _ (tenant : String) (q : TenantQuota) (v : IsValid q) where
  pub begin_reserve-Points : Points (begin_reserve tenant q).0 tenant (begin_reserve tenant q).1
  unfolding begin_reserve
  begin_reserve-Points =
      ground (arith, lookup-insert tenant tenant q.next q.tenants, eq_refl tenant)

  pub begin_reserve_keeps :
      (u : String) (b : ℕ) → Points q u b → Points (begin_reserve tenant q).0 u b
  unfolding begin_reserve
  begin_reserve_keeps u b p =
      ground (arith, lookup-insert tenant u q.next q.tenants, eq_iff tenant u)

  pub entry-begin_reserve :
      (u : String)
      → entry (begin_reserve tenant q).0 u ≡ (
          if str_eq tenant u
          then record (entry q tenant) { reading = (entry q tenant).reading + 1 }
          else entry q u)
  unfolding begin_reserve
  entry-begin_reserve u = elim (Option-cases (lookup u q.tenants)) [
    | inl none_there ↦
        ground (arith, eq_iff tenant u, eq_refl tenant, lookup-insert tenant u q.next q.tenants)
    | inr (b, there) ↦ ground (
      arith,
      eq_iff tenant u,
      eq_refl tenant,
      lookup-insert tenant u q.next q.tenants,
      v.below u b,
      v.apart tenant u b,
    )
  ]

  pub begin_reserve-IsValid : IsValid (begin_reserve tenant q).0
  unfolding begin_reserve
  begin_reserve-IsValid = record {
    below = λ t a p. ground (arith, lookup-insert tenant t q.next q.tenants, v.below t a);
    apart = λ t u a p r. ground (
      arith,
      eq_iff tenant t,
      eq_iff tenant u,
      lookup-insert tenant t q.next q.tenants,
      lookup-insert tenant u q.next q.tenants,
      v.below t a,
      v.below u a,
      v.apart t u a,
    );
  }

-- A change of the entry that a tenant's address leads to.
module _ (tenant : String) (a : ℕ) (e : TenantCreates) (q : TenantQuota) (v : IsValid q)
    (here : Points q tenant a) where
  pub store_at-IsValid : IsValid (store_at a e q)
  store_at-IsValid = record { below = v.below; apart = v.apart }

  pub entry-store_at :
      (u : String) → entry (store_at a e q) u ≡ (if str_eq tenant u then e else entry q u)
  entry-store_at u = elim (Option-cases (lookup u q.tenants)) [
    | inl none_there ↦ ground (arith, eq_iff tenant u, eq_refl tenant)
    | inr (b, there) ↦ ground (arith, eq_iff tenant u, eq_refl tenant, v.apart tenant u b)
  ]

abbrev pub is_idle : TenantCreates → Bool
is_idle e = e.in_progress == 0 && e.reading == 0

module _ (tenant : String) (a : ℕ) (q : TenantQuota) (v : IsValid q)
    (here : Points q tenant a) where
  pub entry-forget_if_idle :
      (u : String)
      → entry (forget_if_idle tenant a q) u
        ≡ (if str_eq tenant u && is_idle (entry q tenant) then no_creates else entry q u)
  unfolding forget_if_idle
  entry-forget_if_idle u = ground (arith, lookup-erase tenant u q.tenants)

  -- An address stays good unless its tenant is idle.
  pub forget_if_idle_keeps :
      (u : String) (b : ℕ)
      → Points q u b
      → (str_eq tenant u && is_idle (entry q tenant)) ≡ false
      → Points (forget_if_idle tenant a q) u b
  unfolding forget_if_idle
  forget_if_idle_keeps u b p busy = ground (arith, lookup-erase tenant u q.tenants)

  pub forget_if_idle-IsValid : IsValid (forget_if_idle tenant a q)
  unfolding forget_if_idle
  forget_if_idle-IsValid = record {
    below = λ t b p. ground (arith, lookup-erase tenant t q.tenants, v.below t b);
    apart = λ t u b p r.
        ground
          (arith, lookup-erase tenant t q.tenants, lookup-erase tenant u q.tenants, v.apart t u b);
  }
