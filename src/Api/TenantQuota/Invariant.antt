-- ===== src/Api/TenantQuota/Invariant.antt =====
-- What holds between the steps of internal/api/tenant_quota.go: the entries count the creates.
use n8n_sandbox_service.Base.{
  ℕ, ◌+◌, ◌-◌, ◌≤◌, ◌≡◌, String, false, Option, some, arith, if◌then◌else◌, str_eq, eq_refl,
  sum_over, ℤ, pos_part,
}
use n8n_sandbox_service.Api.TenantQuota.{is_unlimited}
use n8n_sandbox_service.Api.TenantQuota.Entries.{entry, Points, IsValid}
use n8n_sandbox_service.Api.TenantQuota.Processes.{Pc, idle, reading, creating, stored, World}

abbrev pub one_for : String → String → ℕ
one_for t u = if str_eq t u then 1 else 0

abbrev pub creating_of : String → Pc → ℕ
creating_of u (creating t a) = one_for t u
creating_of u _ = 0

abbrev pub stored_of : String → Pc → ℕ
stored_of u (stored t a) = one_for t u
stored_of u _ = 0

abbrev pub reading_of : String → Pc → ℕ
reading_of u (reading t a saved_before read sample) = one_for t u
reading_of u _ = 0

-- The pointer that a create holds.
abbrev pub Holds : Pc → String → ℕ → Type 0
Holds idle u b = ⊥
Holds (reading t a saved_before read sample) u b = (t ≡ u) × (a ≡ b)
Holds (creating t a) u b = (t ≡ u) × (a ≡ b)
Holds (stored t a) u b = (t ≡ u) × (a ≡ b)

pub weight_one :
    (p : Pc) (t : String) (b : ℕ)
    → Holds p t b
    → creating_of t p + stored_of t p + reading_of t p ≡ 1
weight_one idle t b h = elim h [ ]
weight_one (reading u a saved_before read sample) t b h = ground (arith, eq_refl t)
weight_one (creating u a) t b h = ground (arith, eq_refl t)
weight_one (stored u a) t b h = ground (arith, eq_refl t)

module _ (limit : String → ℤ) (n : ℕ) where
  pub record Inv (w : World) : Type 0 where
    pub valid : IsValid w.quota
    pub outside : (i : ℕ) → n ≤ i → w.pc i ≡ idle
    pub live : (i : ℕ) (t : String) (a : ℕ) → Holds (w.pc i) t a → Points w.quota t a
    pub progress :
        (t : String)
        → (entry w.quota t).in_progress
          ≡ sum_over (creating_of t) n w.pc + sum_over (stored_of t) n w.pc
    pub readers : (t : String) → (entry w.quota t).reading ≡ sum_over (reading_of t) n w.pc
    pub base :
        (i : ℕ) (t : String) (a saved_before read : ℕ) (sample : Option ℕ)
        → w.pc i ≡ reading t a saved_before read sample
        → saved_before ≤ (entry w.quota t).saved
    pub sampled :
        (i : ℕ) (t : String) (a saved_before read m : ℕ)
        → w.pc i ≡ reading t a saved_before read (some m)
        → is_unlimited (limit t) ≡ false
        → w.rows t ≤ m + ((entry w.quota t).saved - saved_before) + sum_over (stored_of t) n w.pc
    pub quota_kept :
        (t : String)
        → is_unlimited (limit t) ≡ false
        → w.rows t + sum_over (creating_of t) n w.pc ≤ pos_part (limit t)
