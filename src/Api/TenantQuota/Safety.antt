-- ===== src/Api/TenantQuota/Safety.antt =====
-- The quota over all runs.
use n8n_sandbox_service.Base.{
  ℕ, ◌+◌, ◌≤◌, ◌≡◌, refl, String, false, none, some, arith, sum_over, sum_over-zero, ℤ, pos_part,
  lookup-nil,
}
use n8n_sandbox_service.Api.TenantQuota.{is_unlimited, new_tenant_quota}
use n8n_sandbox_service.Api.TenantQuota.Entries.{entry, Points}
use n8n_sandbox_service.Api.TenantQuota.Processes.{
  idle, World, Step, begins, samples, decides, fails, saves, releases, gives_up, deletes, untracked,
  Reach, start, later,
}
use n8n_sandbox_service.Api.TenantQuota.Invariant.{creating_of, stored_of, reading_of, Holds, Inv}
use n8n_sandbox_service.Api.TenantQuota.Moving.{reread-Inv, saved-Inv, deleted-Inv, untracked-Inv}
use n8n_sandbox_service.Api.TenantQuota.Deciding.{decides-Inv, fails-Inv}
use n8n_sandbox_service.Api.TenantQuota.Slots.{releases-Inv, gives_up-Inv, begins-Inv}

some_eq : {m k : ℕ} → some m ≡ some k → m ≡ k
some_eq e = cc

Step-Inv :
    {limit : String → ℤ} {n : ℕ} {w x : World} → Step limit n w x → Inv limit n w → Inv limit n x
Step-Inv {limit} {n} (begins i t lt at limited) inv = begins-Inv limit n inv i t lt at
Step-Inv {limit} {n} {w} (samples i t a old read lt at) inv =
    reread-Inv limit n inv i lt t a old old read read none (some (w.rows t)) at
      (inv.base i t a old read none at) (λ m e. omega (arith, some_eq e))
Step-Inv {limit} {n} (decides i t a old read m lt at) inv =
    decides-Inv limit n inv i t a old read m lt at
Step-Inv {limit} {n} (fails i t a old read sample lt at) inv =
    fails-Inv limit n inv i t a old read sample lt at
Step-Inv {limit} {n} (saves i t a lt at) inv = saved-Inv limit n inv i lt t a at
Step-Inv {limit} {n} (releases i t a lt at) inv = releases-Inv limit n inv i t a lt at
Step-Inv {limit} {n} (gives_up i t a saved lt at) inv = gives_up-Inv limit n inv i t a saved lt at
Step-Inv {limit} {n} (deletes t) inv = deleted-Inv limit n inv t
Step-Inv {limit} {n} (untracked t free) inv = untracked-Inv limit n inv t free

-- Before the first create the tenants are within their limits.
abbrev IsWithin : (String → ℤ) → (String → ℕ) → Type 0
IsWithin limit rows = (t : String) → is_unlimited (limit t) ≡ false → rows t ≤ pos_part (limit t)

start-Inv :
    (limit : String → ℤ) (n : ℕ) (rows : String → ℕ)
    → IsWithin limit rows
    → Inv limit n (record { quota = new_tenant_quota; rows = rows; pc = λ _. idle })
unfolding new_tenant_quota
start-Inv limit n rows within = record {
  valid = record {
    below = λ t a p. ground (arith, lookup-nil {V = ℕ} t);
    apart = λ t u a p r. ground (arith, lookup-nil {V = ℕ} t);
  };
  outside = λ i h. refl;
  live = λ i t a h. elim h [ ];
  progress = λ t. ground (
    arith,
    lookup-nil {V = ℕ} t,
    sum_over-zero (creating_of t) n idle refl,
    sum_over-zero (stored_of t) n idle refl,
  );
  readers = λ t. ground (arith, lookup-nil {V = ℕ} t, sum_over-zero (reading_of t) n idle refl);
  base = λ i t a old read sample e. absurd (cc);
  sampled = λ i t a old read m e limited. absurd (cc);
  quota_kept =
      λ t limited. omega (arith, within t limited, sum_over-zero (creating_of t) n idle refl);
}

pub Reach-Inv :
    {limit : String → ℤ} {n : ℕ} {rows : String → ℕ} {w : World}
    → IsWithin limit rows
    → Reach limit n rows w
    → Inv limit n w
Reach-Inv {limit} {n} {rows} within start = start-Inv limit n rows within
Reach-Inv within (later r st) = Step-Inv st (Reach-Inv within r)

-- However the creates on this pod interleave, and however slow their reads are, the saved sandboxes
-- of a tenant with a limit and its creates that hold a slot and are not saved yet stay together
-- within the limit, if the tenants were within their limits at the beginning.
pub Reach-within_limit :
    {limit : String → ℤ} {n : ℕ} {rows : String → ℕ} {w : World}
    → IsWithin limit rows
    → Reach limit n rows w
    → (t : String) → is_unlimited (limit t) ≡ false
    → w.rows t + sum_over (creating_of t) n w.pc ≤ pos_part (limit t)
Reach-within_limit within r = (Reach-Inv within r).quota_kept

-- If the tenants were within their limits at the beginning, the entry of a tenant is never forgotten
-- under a create that reads or holds a slot, and it counts the readers and the slots that are held.
pub Reach-entry :
    {limit : String → ℤ} {n : ℕ} {rows : String → ℕ} {w : World}
    → IsWithin limit rows
    → Reach limit n rows w
    → ((i : ℕ) (t : String) (a : ℕ) → Holds (w.pc i) t a → Points w.quota t a)
      × ((t : String)
          → ((entry w.quota t).in_progress
              ≡ sum_over (creating_of t) n w.pc + sum_over (stored_of t) n w.pc)
            × ((entry w.quota t).reading ≡ sum_over (reading_of t) n w.pc))
Reach-entry within r =
    let inv = Reach-Inv within r in (inv.live, λ t. (inv.progress t, inv.readers t))
