-- ===== src/Api/TenantQuota/Tests.antt =====
-- One create of a tenant with a limit of one, up to its admission.
use n8n_sandbox_service.Base.{
  ℕ, ◌+◌, ◌≤◌, ◌≡◌, refl, String, none, some, arith, ℤ, pos, lookup, insert, erase, replace,
  sum_over,
}
use n8n_sandbox_service.Api.TenantQuota.{
  new_tenant_quota, begin_reserve, after_read, entry_for, leave, forget_if_idle,
}
use n8n_sandbox_service.Api.TenantQuota.Entries.{entry, Points}
use n8n_sandbox_service.Api.TenantQuota.Processes.{
  World, idle, reading, creating, Reach, start, later, begins, samples, decides,
}
use n8n_sandbox_service.Api.TenantQuota.Invariant.{Holds, creating_of, stored_of, reading_of}
use n8n_sandbox_service.Api.TenantQuota.Safety.{Reach-within_limit, Reach-entry}

abbrev one : String → ℤ
one t = pos 1

abbrev begun : World
begun = record {
  quota = (begin_reserve "t" new_tenant_quota).0;
  rows = λ t. 0;
  pc = replace (λ i. idle) 0 (reading "t" 0 0 1 none);
}

abbrev read : World
read = record begun { pc = replace begun.pc 0 (reading "t" 0 0 1 (some 0)) }

abbrev held : World
held = record {
  quota = (after_read "t" (pos 1) 0 0 1 (some 0) begun.quota).0;
  rows = λ t. 0;
  pc = replace read.pc 0 (creating "t" 0);
}

held-Reach : Reach one 1 (λ t. 0) held
unfolding new_tenant_quota begin_reserve after_read entry_for leave forget_if_idle lookup insert
    erase
held-Reach =
    later
      (later (later start (begins 0 "t" (omega arith) refl refl))
        (samples 0 "t" 0 0 1 (omega arith) refl))
      (decides 0 "t" 0 0 1 0 (omega arith) refl)

Reach-within_limit_example : 0 + sum_over (creating_of "t") 1 held.pc ≤ 1
Reach-within_limit_example = Reach-within_limit (λ t h. omega arith) held-Reach "t" refl

Reach-entry_example :
    ((i : ℕ) (t : String) (a : ℕ) → Holds (held.pc i) t a → Points held.quota t a)
    × ((t : String)
        → ((entry held.quota t).in_progress
            ≡ sum_over (creating_of t) 1 held.pc + sum_over (stored_of t) 1 held.pc)
          × ((entry held.quota t).reading ≡ sum_over (reading_of t) 1 held.pc))
Reach-entry_example = Reach-entry (λ t h. omega arith) held-Reach
