-- ===== src/Api/TenantQuota/Processes.antt =====
-- Creates of many tenants on one API pod, interleaved: `reserve` and `release` of
-- internal/api/tenant_quota.go as handleCreateSandbox (internal/api/handlers.go) calls them, the
-- store that the creates save to, and deletes. Creates of other pods are not modelled, and neither
-- is the store's own check when a create saves; `limit` is what the store holds for each tenant.
use n8n_sandbox_service.Base.{
  ℕ, ◌+◌, ◌-◌, ◌<◌, ◌≡◌, String, Bool, true, false, Option, none, some, if◌then◌else◌, str_eq,
  replace, ℤ,
}
use n8n_sandbox_service.Api.TenantQuota.{
  TenantQuota, Reply, failed, admitted, refused, rereads, is_unlimited, new_tenant_quota,
  begin_reserve, after_read, release,
}

-- Where a create stands. `creating`: it holds a slot; `stored`: its row is saved, and its slot not
-- yet released. The number behind `saved_before` counts the reads; `some n` is what this one read.
pub data Pc : Type 0 where
  idle : Pc
  reading : String → ℕ → (saved_before : ℕ) → ℕ → Option ℕ → Pc
  creating : String → ℕ → Pc
  stored : String → ℕ → Pc

pub record World : Type 0 where
  pub quota : TenantQuota
  pub rows : String → ℕ
  pub pc : ℕ → Pc

abbrev pub set_rows : (String → ℕ) → String → ℕ → String → ℕ
set_rows rows t k u = if str_eq t u then k else rows u

-- Where a create goes on after a read.
abbrev pub after_reply : String → ℕ → ℕ → Reply → Pc
after_reply t a read failed = idle
after_reply t a read refused = idle
after_reply t a read admitted = creating t a
after_reply t a read (rereads saved) = reading t a saved (read + 1) none

module _ (limit : String → ℤ) (n : ℕ) where
  pub data Step (w : World) : World → Type 0 where
    begins :
        (i : ℕ) (t : String)
        → i < n
        → w.pc i ≡ idle
        → is_unlimited (limit t) ≡ false
        → Step w (record w {
          quota = (begin_reserve t w.quota).0;
          pc = replace w.pc i (
              reading t
                (begin_reserve t w.quota).1
                ((begin_reserve t w.quota).0.heap (begin_reserve t w.quota).1).saved
                1
                none);
        })
    samples :
        (i : ℕ) (t : String) (a saved_before read : ℕ)
        → i < n
        → w.pc i ≡ reading t a saved_before read none
        → Step w
            (record w { pc = replace w.pc i (reading t a saved_before read (some (w.rows t))) })
    decides :
        (i : ℕ) (t : String) (a saved_before read m : ℕ)
        → i < n
        → w.pc i ≡ reading t a saved_before read (some m)
        → Step w (record w {
          quota = (after_read t (limit t) a saved_before read (some m) w.quota).0;
          pc = replace w.pc i (
              after_reply t a read (after_read t (limit t) a saved_before read (some m) w.quota).1);
        })
    fails :
        (i : ℕ) (t : String) (a saved_before read : ℕ) (sample : Option ℕ)
        → i < n
        → w.pc i ≡ reading t a saved_before read sample
        → Step w (record w {
          quota = (after_read t (limit t) a saved_before read none w.quota).0;
          pc = replace w.pc i idle;
        })
    saves :
        (i : ℕ) (t : String) (a : ℕ)
        → i < n
        → w.pc i ≡ creating t a
        → Step w
            (record w { rows = set_rows w.rows t (w.rows t + 1); pc = replace w.pc i (stored t a) })
    releases :
        (i : ℕ) (t : String) (a : ℕ)
        → i < n
        → w.pc i ≡ stored t a
        → Step w (record w { quota = release false true t a w.quota; pc = replace w.pc i idle })
    gives_up :
        (i : ℕ) (t : String) (a : ℕ) (saved : Bool)
        → i < n
        → w.pc i ≡ creating t a
        → Step w (record w { quota = release false saved t a w.quota; pc = replace w.pc i idle })
    deletes : (t : String) → Step w (record w { rows = set_rows w.rows t (w.rows t - 1) })
    untracked :
        (t : String)
        → is_unlimited (limit t) ≡ true
        → Step w (record w { rows = set_rows w.rows t (w.rows t + 1) })

  pub data Reach (rows : String → ℕ) : World → Type 0 where
    start : Reach rows (record { quota = new_tenant_quota; rows = rows; pc = λ _. idle })
    later : {w x : World} → Reach rows w → Step w x → Reach rows x
