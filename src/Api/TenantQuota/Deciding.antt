-- ===== src/Api/TenantQuota/Deciding.antt =====
-- A decision after a read, and a read that fails, keep the invariant.
use n8n_sandbox_service.Base.{
  ℕ, ◌+◌, ◌-◌, ◌≤◌, ◌<◌, ◌≡◌, refl, ap, sym, subst, ◌∙◌, inl, inr, String, true, Option, none, some,
  arith, ◌==◌, ◌||◌, eq_refl, replace, sum_over-replace, sum_over-ge, ℤ, Bool-cases,
}
use n8n_sandbox_service.Api.TenantQuota.{
  TenantCreates, TenantQuota, Reply, store_at, forget_if_idle, after_read, max_reads,
}
use n8n_sandbox_service.Api.TenantQuota.Entries.{entry, entry_at}
use n8n_sandbox_service.Api.TenantQuota.Processes.{idle, reading, creating, World, after_reply}
use n8n_sandbox_service.Api.TenantQuota.Invariant.{creating_of, stored_of, reading_of, Holds, Inv}
use n8n_sandbox_service.Api.TenantQuota.Finishing.{finished-Inv}
use n8n_sandbox_service.Api.TenantQuota.Reading.{
  enough, enough-lt, after_read_admits, after_read_refuses, after_read_again,
}
use n8n_sandbox_service.Api.TenantQuota.Moving.{reread-Inv}

some_eq : {m k : ℕ} → some m ≡ some k → m ≡ k
some_eq e = cc

module _ (limit : String → ℤ) (n : ℕ) {w : World} (inv : Inv limit n w) where
  -- What a create that reads knows of its entry.
  module _ (i : ℕ) (lt : i < n) (t : String) (a old read : ℕ) (sample : Option ℕ)
      (at : w.pc i ≡ reading t a old read sample) where
    reader-Holds : Holds (w.pc i) t a
    reader-Holds = subst (λ q. Holds q t a) (sym at) (refl, refl)

    reader_entry : entry w.quota t ≡ w.quota.heap a
    reader_entry = ap (entry_at w.quota) (inv.live i t a reader-Holds)

    reader_counts :
        (creating_of t (w.pc i) ≡ 0)
        × (stored_of t (w.pc i) ≡ 0)
        × (reading_of t (w.pc i) ≡ 1)
        × (1 ≤ (entry w.quota t).reading)
    reader_counts =
        let weights : (creating_of t (w.pc i) ≡ 0)
            × (stored_of t (w.pc i) ≡ 0)
            × (reading_of t (w.pc i) ≡ 1) =
          rw at (refl, refl, ground (arith, eq_refl t)) in
        (
          weights.0,
          weights.1,
          weights.2,
          omega (arith, weights, inv.readers t, sum_over-ge (reading_of t) n w.pc i lt),
        )

    -- Back to idle, as after a failed read or a refusal.
    leaves-Inv : Inv limit n (record w {
      quota =
          forget_if_idle t a (
            store_at a
              (record (w.quota.heap a) { reading = (w.quota.heap a).reading - 1 })
              w.quota);
      pc = replace w.pc i idle;
    })
    leaves-Inv =
        finished-Inv limit n inv i lt t a
          (record (w.quota.heap a) { reading = (w.quota.heap a).reading - 1 }) idle reader-Holds
          (inl refl)
          (omega (arith, reader_counts, ap (λ (e : TenantCreates). e.in_progress) reader_entry))
          (omega (arith, reader_counts, ap (λ (e : TenantCreates). e.reading) reader_entry))
          (omega (arith, reader_counts, ap (λ (e : TenantCreates). e.saved) reader_entry))
          (λ limited. omega (
            arith,
            reader_counts,
            sum_over-replace (creating_of t) n w.pc i idle lt,
            inv.quota_kept t limited,
          ))

    admits-Inv :
        (m : ℕ)
        → sample ≡ some m
        → enough t (limit t) a old read m w.quota ≡ true
        → Inv limit n (record w {
          quota = forget_if_idle t a (
              store_at a
                (record {
                  in_progress = (w.quota.heap a).in_progress + 1;
                  saved = (w.quota.heap a).saved;
                  reading = (w.quota.heap a).reading - 1;
                })
                w.quota);
          pc = replace w.pc i (creating t a);
        })
    admits-Inv m seen room =
        let one : creating_of t (creating t a) ≡ 1 = ground (arith, eq_refl t) in
        let here : w.pc i ≡ reading t a old read (some m) = at ∙ ap (reading t a old read) seen in
        finished-Inv limit n inv i lt t a
          (record {
            in_progress = (w.quota.heap a).in_progress + 1;
            saved = (w.quota.heap a).saved;
            reading = (w.quota.heap a).reading - 1;
          })
          (creating t a) reader-Holds (inr refl)
          (omega
            (arith, one, reader_counts, ap (λ (e : TenantCreates). e.in_progress) reader_entry))
          (omega (arith, reader_counts, ap (λ (e : TenantCreates). e.reading) reader_entry))
          (omega (arith, reader_counts, ap (λ (e : TenantCreates). e.saved) reader_entry))
          (λ limited. omega (
            arith,
            one,
            reader_counts,
            ap (λ (e : TenantCreates). e.in_progress) reader_entry,
            ap (λ (e : TenantCreates). e.saved) reader_entry,
            enough-lt t (limit t) a old read m w.quota room,
            inv.progress t,
            inv.sampled i t a old read m here limited,
            sum_over-replace (creating_of t) n w.pc i (creating t a) lt,
          ))

  -- The world after a reply of `after_read`.
  abbrev answered : ℕ → String → ℕ → ℕ → TenantQuota × Reply → World
  answered i t a read r = record w { quota = r.0; pc = replace w.pc i (after_reply t a read r.1) }

  pub decides-Inv :
      (i : ℕ) (t : String) (a old read m : ℕ)
      → i < n
      → w.pc i ≡ reading t a old read (some m)
      → Inv limit n (answered i t a read (after_read t (limit t) a old read (some m) w.quota))
  decides-Inv i t a old read m lt at = elim (Bool-cases (enough t (limit t) a old read m w.quota)) [
    | inl room ↦
        subst (λ r. Inv limit n (answered i t a read r))
          (sym (after_read_admits t (limit t) a old read m w.quota room))
          (admits-Inv i lt t a old read (some m) at m refl room)
    | inr full ↦ elim (Bool-cases ((w.quota.heap a).saved - old == 0 || read == max_reads)) [
      | inl stop ↦
          subst (λ r. Inv limit n (answered i t a read r))
            (sym (after_read_refuses t (limit t) a old read m w.quota full stop))
            (leaves-Inv i lt t a old read (some m) at)
      | inr again ↦
          subst (λ r. Inv limit n (answered i t a read r))
            (sym (after_read_again t (limit t) a old read m w.quota full again))
            (reread-Inv limit n inv i lt t a old (w.quota.heap a).saved read (read + 1) (some m)
              none at
              (omega (
                arith,
                ap (λ (e : TenantCreates). e.saved) (reader_entry i lt t a old read (some m) at),
              ))
              (λ k e. absurd (cc)))
    ]
  ]

  pub fails-Inv :
      (i : ℕ) (t : String) (a old read : ℕ) (sample : Option ℕ)
      → i < n
      → w.pc i ≡ reading t a old read sample
      → Inv limit n (record w {
        quota = (after_read t (limit t) a old read none w.quota).0;
        pc = replace w.pc i idle;
      })
  unfolding after_read
  fails-Inv i t a old read sample lt at = leaves-Inv i lt t a old read sample at
