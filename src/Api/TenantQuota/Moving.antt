-- ===== src/Api/TenantQuota/Moving.antt =====
-- The steps around internal/api/tenant_quota.go that leave every entry as it is: a read of the
-- store, another read, a save, a delete, and a create of a tenant without limit.
use n8n_sandbox_service.Base.{
  ℕ, ◌+◌, ◌-◌, ◌≤◌, ◌<◌, ◌≡◌, subst, inl, inr, String, true, false, Option, some, arith, str_eq,
  eq_iff, replace, sum_over, sum_over-replace, ℤ, Bool-cases,
}
use n8n_sandbox_service.Api.TenantQuota.{is_unlimited}
use n8n_sandbox_service.Api.TenantQuota.Entries.{entry}
use n8n_sandbox_service.Api.TenantQuota.Processes.{reading, creating, stored, World, set_rows}
use n8n_sandbox_service.Api.TenantQuota.Invariant.{creating_of, stored_of, reading_of, Inv}

module _ (limit : String → ℤ) (n : ℕ) {w : World} (inv : Inv limit n w) where
  -- Create `i` reads on with another `savedBefore` or with what it has read.
  module _ (i : ℕ) (lt : i < n) (t : String) (a old new read read' : ℕ) (before after : Option ℕ)
      (at : w.pc i ≡ reading t a old read before) (low : new ≤ (entry w.quota t).saved)
      (fresh : (m : ℕ) → after ≡ some m → w.rows t ≤ m) where
    abbrev reread : World
    reread = record w { pc = replace w.pc i (reading t a new read' after) }

    reread_sums :
        (u : String)
        → (sum_over (creating_of u) n reread.pc ≡ sum_over (creating_of u) n w.pc)
          × (sum_over (stored_of u) n reread.pc ≡ sum_over (stored_of u) n w.pc)
          × (sum_over (reading_of u) n reread.pc ≡ sum_over (reading_of u) n w.pc)
    reread_sums u = ground (
      arith,
      sum_over-replace (creating_of u) n w.pc i (reading t a new read' after) lt,
      sum_over-replace (stored_of u) n w.pc i (reading t a new read' after) lt,
      sum_over-replace (reading_of u) n w.pc i (reading t a new read' after) lt,
    )

    pub reread-Inv : Inv limit n reread
    reread-Inv = record {
      valid = inv.valid;
      outside = λ j h. ground (arith, inv.outside j);
      live = λ j u b h. ground (arith, inv.live j u b, inv.live i u b);
      progress = λ u. omega (arith, reread_sums u, inv.progress u);
      readers = λ u. omega (arith, reread_sums u, inv.readers u);
      base = λ j u b saved_before r sample e. ground (arith, inv.base j u b saved_before r sample);
      sampled = λ j u b saved_before r m e limited.
          ground (arith, reread_sums u, inv.sampled j u b saved_before r m, fresh m);
      quota_kept = λ u limited. omega (arith, reread_sums u, inv.quota_kept u limited);
    }

  -- The store saves the row of create `i`.
  module _ (i : ℕ) (lt : i < n) (t : String) (a : ℕ) (at : w.pc i ≡ creating t a) where
    abbrev pub saved : World
    saved = record w { rows = set_rows w.rows t (w.rows t + 1); pc = replace w.pc i (stored t a) }

    saved_sums :
        (u : String)
        → (sum_over (creating_of u) n saved.pc + creating_of u (creating t a)
            ≡ sum_over (creating_of u) n w.pc)
          × (sum_over (stored_of u) n saved.pc
              ≡ sum_over (stored_of u) n w.pc + creating_of u (creating t a))
          × (sum_over (reading_of u) n saved.pc ≡ sum_over (reading_of u) n w.pc)
    saved_sums u = ground (
      arith,
      sum_over-replace (creating_of u) n w.pc i (stored t a) lt,
      sum_over-replace (stored_of u) n w.pc i (stored t a) lt,
      sum_over-replace (reading_of u) n w.pc i (stored t a) lt,
    )

    saved_rows : (u : String) → saved.rows u ≡ w.rows u + creating_of u (creating t a)
    saved_rows u = ground (arith, eq_iff t u)

    pub saved-Inv : Inv limit n saved
    saved-Inv = record {
      valid = inv.valid;
      outside = λ j h. ground (arith, inv.outside j);
      live = λ j u b h. ground (arith, inv.live j u b, inv.live i u b);
      progress = λ u. omega (arith, saved_sums u, inv.progress u);
      readers = λ u. omega (arith, saved_sums u, inv.readers u);
      base = λ j u b saved_before r sample e. ground (arith, inv.base j u b saved_before r sample);
      sampled = λ j u b saved_before r m e limited.
          let old : w.pc j ≡ reading u b saved_before r (some m) = ground arith in
          omega (arith, saved_rows u, saved_sums u, inv.sampled j u b saved_before r m old limited);
      quota_kept = λ u limited. omega (arith, saved_rows u, saved_sums u, inv.quota_kept u limited);
    }

  pub deleted-Inv :
      (t : String) → Inv limit n (record w { rows = set_rows w.rows t (w.rows t - 1) })
  deleted-Inv t = record {
    valid = inv.valid;
    outside = inv.outside;
    live = inv.live;
    progress = inv.progress;
    readers = inv.readers;
    base = inv.base;
    sampled = λ j u b saved_before r m e limited.
        omega (arith, fewer u, inv.sampled j u b saved_before r m e limited);
    quota_kept = λ u limited. omega (arith, fewer u, inv.quota_kept u limited);
  }
    where
      fewer : (u : String) → set_rows w.rows t (w.rows t - 1) u ≤ w.rows u
      fewer u = ground (arith, eq_iff t u)

  pub untracked-Inv :
      (t : String)
      → is_unlimited (limit t) ≡ true
      → Inv limit n (record w { rows = set_rows w.rows t (w.rows t + 1) })
  untracked-Inv t free = record {
    valid = inv.valid;
    outside = inv.outside;
    live = inv.live;
    progress = inv.progress;
    readers = inv.readers;
    base = inv.base;
    sampled = λ j u b saved_before r m e limited.
        rw (same u limited) (inv.sampled j u b saved_before r m e limited);
    quota_kept = λ u limited. rw (same u limited) (inv.quota_kept u limited);
  }
    where
      same :
          (u : String)
          → is_unlimited (limit u) ≡ false
          → set_rows w.rows t (w.rows t + 1) u ≡ w.rows u
      same u limited = elim (Bool-cases (str_eq t u)) [
        | inl equal ↦
            absurd (
              ground
                (arith, subst (λ v. is_unlimited (limit v) ≡ true) ((eq_iff t u).0 equal) free))
        | inr other ↦ rw other
      ]
