-- ===== src/Api/TenantQuota/Finishing.antt =====
-- A create that leaves `reserve` or releases its slot, in internal/api/tenant_quota.go: its entry
-- changes, and is dropped if idle.
use n8n_sandbox_service.Base.{
  ℕ, ◌+◌, ◌≤◌, ◌<◌, ◌≡◌, refl, sym, subst, ◌⊎◌, inl, inr, String, false, Option, some, arith,
  if◌then◌else◌, ◌&&◌, str_eq, eq_iff, eq_refl, replace, sum_over, sum_over-replace, sum_over-ge, ℤ,
  pos_part, Bool-cases,
}
use native.Mathlib.Decide.{dec_lt}
use n8n_sandbox_service.Api.TenantQuota.{
  TenantCreates, is_unlimited, no_creates, store_at, forget_if_idle,
}
use n8n_sandbox_service.Api.TenantQuota.Entries.{
  entry, Points, is_idle, entry-store_at, store_at-IsValid, entry-forget_if_idle,
  forget_if_idle_keeps, forget_if_idle-IsValid,
}
use n8n_sandbox_service.Api.TenantQuota.Processes.{Pc, idle, reading, creating, World}
use n8n_sandbox_service.Api.TenantQuota.Invariant.{
  creating_of, stored_of, reading_of, Holds, weight_one, Inv,
}

module _ (limit : String → ℤ) (n : ℕ) where
  -- A create `i` of tenant `t` changes its entry to `e` and moves to `p`, which reads nothing.
  module _ {w : World} (inv : Inv limit n w) (i : ℕ) (lt : i < n) (t : String) (a : ℕ)
      (e : TenantCreates) (p : Pc) (held : Holds (w.pc i) t a)
      (moved : (p ≡ idle) ⊎ (p ≡ creating t a))
      (progress_moved : e.in_progress + creating_of t (w.pc i) + stored_of t (w.pc i)
        ≡ (entry w.quota t).in_progress + creating_of t p)
      (reading_moved : e.reading + reading_of t (w.pc i) ≡ (entry w.quota t).reading)
      (saved_moved : (entry w.quota t).saved + stored_of t (w.pc i) ≤ e.saved)
      (room : is_unlimited (limit t) ≡ false
        → w.rows t + sum_over (creating_of t) n (replace w.pc i p) ≤ pos_part (limit t)) where
    abbrev finished : World
    finished = record w { quota = forget_if_idle t a (store_at a e w.quota); pc = replace w.pc i p }

    finished_entry :
        (u : String)
        → entry finished.quota u
          ≡ (if str_eq t u then (if is_idle e then no_creates else e) else entry w.quota u)
    finished_entry u = ground (
      arith,
      eq_refl t,
      entry-forget_if_idle t a (store_at a e w.quota)
          (store_at-IsValid t a e w.quota inv.valid (inv.live i t a held)) (inv.live i t a held) u,
      entry-store_at t a e w.quota inv.valid (inv.live i t a held) u,
      entry-store_at t a e w.quota inv.valid (inv.live i t a held) t,
    )

    -- The weights of the other tenants stay 0.
    apart_weights :
        (u : String)
        → str_eq t u ≡ false
        → (creating_of u (w.pc i) ≡ 0)
          × (stored_of u (w.pc i) ≡ 0)
          × (reading_of u (w.pc i) ≡ 0)
          × (creating_of u p ≡ 0)
    apart_weights u other = ground arith

    new_weights : (u : String) → (stored_of u p ≡ 0) × (reading_of u p ≡ 0)
    new_weights u = ground arith

    sums :
        (u : String)
        → (sum_over (creating_of u) n finished.pc + creating_of u (w.pc i)
            ≡ sum_over (creating_of u) n w.pc + creating_of u p)
          × (sum_over (stored_of u) n finished.pc + stored_of u (w.pc i)
              ≡ sum_over (stored_of u) n w.pc)
          × (sum_over (reading_of u) n finished.pc + reading_of u (w.pc i)
              ≡ sum_over (reading_of u) n w.pc)
    sums u = omega (
      arith,
      new_weights u,
      sum_over-replace (creating_of u) n w.pc i p lt,
      sum_over-replace (stored_of u) n w.pc i p lt,
      sum_over-replace (reading_of u) n w.pc i p lt,
    )

    progress_same :
        e.in_progress
        ≡ sum_over (creating_of t) n finished.pc + sum_over (stored_of t) n finished.pc
    progress_same = omega (arith, sums t, inv.progress t)

    readers_same : e.reading ≡ sum_over (reading_of t) n finished.pc
    readers_same = omega (arith, sums t, inv.readers t)

    counts_at_t :
        ((entry finished.quota t).in_progress
          ≡ sum_over (creating_of t) n finished.pc + sum_over (stored_of t) n finished.pc)
        × ((entry finished.quota t).reading ≡ sum_over (reading_of t) n finished.pc)
    counts_at_t = ground (arith, finished_entry t, eq_refl t, progress_same, readers_same)

    finished_counts :
        (u : String)
        → ((entry finished.quota u).in_progress
            ≡ sum_over (creating_of u) n finished.pc + sum_over (stored_of u) n finished.pc)
          × ((entry finished.quota u).reading ≡ sum_over (reading_of u) n finished.pc)
    finished_counts u = elim (Bool-cases (str_eq t u)) [
      | inl same ↦
          subst
            (λ v.
              ((entry finished.quota v).in_progress
                ≡ sum_over (creating_of v) n finished.pc + sum_over (stored_of v) n finished.pc)
              × ((entry finished.quota v).reading ≡ sum_over (reading_of v) n finished.pc))
            ((eq_iff t u).0 same) counts_at_t
      | inr other ↦
          rw (finished_entry u, other)
            (omega (arith, sums u, apart_weights u other, inv.progress u, inv.readers u))
    ]

    finished_outside : (j : ℕ) → n ≤ j → finished.pc j ≡ idle
    finished_outside j h = ground (arith, inv.outside j)

    -- Whoever still holds the address of `t` keeps its entry busy.
    busy : (j b : ℕ) → Holds (finished.pc j) t b → is_idle e ≡ false
    busy j b h = elim (dec_lt j n) [
      | yes inside ↦ ground (
        arith,
        eq_refl t,
        progress_same,
        readers_same,
        weight_one (finished.pc j) t b h,
        sum_over-ge (creating_of t) n finished.pc j inside,
        sum_over-ge (stored_of t) n finished.pc j inside,
        sum_over-ge (reading_of t) n finished.pc j inside,
      )
      | no beyond ↦ absurd (subst (λ q. Holds q t b) (finished_outside j (omega arith)) h)
    ]

    held_before : (j : ℕ) (u : String) (b : ℕ) → Holds (finished.pc j) u b → Points w.quota u b
    held_before j u b h = ground (arith, inv.live j u b, inv.live i t a held)

    busy_entry :
        (j : ℕ) (u : String) (b : ℕ)
        → Holds (finished.pc j) u b
        → (str_eq t u && is_idle (entry (store_at a e w.quota) t)) ≡ false
    busy_entry j u b h = elim (Bool-cases (str_eq t u)) [
      | inl same ↦
          let back : u ≡ t = sym ((eq_iff t u).0 same) in
          ground (
            arith,
            eq_refl t,
            entry-store_at t a e w.quota inv.valid (inv.live i t a held) t,
            busy j b (subst (λ v. Holds (finished.pc j) v b) back h),
          )
      | inr other ↦ rw other
    ]

    finished_live :
        (j : ℕ) (u : String) (b : ℕ) → Holds (finished.pc j) u b → Points finished.quota u b
    finished_live j u b h =
        forget_if_idle_keeps t a (store_at a e w.quota)
          (store_at-IsValid t a e w.quota inv.valid (inv.live i t a held)) (inv.live i t a held) u b
          (held_before j u b h) (busy_entry j u b h)

    -- A reader is another create, and finds `saved` no smaller.
    abbrev ReaderKept : String → Type 0
    ReaderKept u =
        (j b saved_before read : ℕ) (sample : Option ℕ)
        → finished.pc j ≡ reading u b saved_before read sample
        → (w.pc j ≡ reading u b saved_before read sample)
          × ((entry w.quota u).saved + sum_over (stored_of u) n w.pc
              ≤ (entry finished.quota u).saved + sum_over (stored_of u) n finished.pc)
          × ((entry w.quota u).saved ≤ (entry finished.quota u).saved)

    reader_at_t : ReaderKept t
    reader_at_t j b saved_before read sample r =
        let old : w.pc j ≡ reading t b saved_before read sample = ground arith in
        let working = busy j b (subst (λ q. Holds q t b) (sym r) (refl, refl)) in
        let now : entry finished.quota t ≡ e =
          ground (arith, finished_entry t, eq_refl t, working) in
        (old, rw now (omega (arith, sums t, saved_moved)), rw now (omega (arith, saved_moved)))

    finished_reader : (u : String) → ReaderKept u
    finished_reader u = elim (Bool-cases (str_eq t u)) [
      | inl same ↦ subst ReaderKept ((eq_iff t u).0 same) reader_at_t
      | inr other ↦ λ j b saved_before read sample r. (
        ground arith,
        ground (arith, finished_entry u, sums u, apart_weights u other),
        ground (arith, finished_entry u),
      )
    ]

    finished_quota :
        (u : String)
        → is_unlimited (limit u) ≡ false
        → w.rows u + sum_over (creating_of u) n finished.pc ≤ pos_part (limit u)
    finished_quota u limited = elim (Bool-cases (str_eq t u)) [
      | inl same ↦
          subst
            (λ v.
              is_unlimited (limit v) ≡ false
              → w.rows v + sum_over (creating_of v) n finished.pc ≤ pos_part (limit v))
            ((eq_iff t u).0 same) room limited
      | inr other ↦ omega (arith, sums u, apart_weights u other, inv.quota_kept u limited)
    ]

    pub finished-Inv : Inv limit n finished
    finished-Inv = record {
      valid =
          forget_if_idle-IsValid t a (store_at a e w.quota)
            (store_at-IsValid t a e w.quota inv.valid (inv.live i t a held)) (inv.live i t a held);
      outside = finished_outside;
      live = finished_live;
      progress = λ u. (finished_counts u).0;
      readers = λ u. (finished_counts u).1;
      base = λ j u b saved_before read sample r.
          let f = finished_reader u j b saved_before read sample r in
          omega (arith, f.2, inv.base j u b saved_before read sample f.0);
      sampled = λ j u b saved_before read m r limited.
          let f = finished_reader u j b saved_before read (some m) r in
          omega (
            arith,
            f.1,
            inv.base j u b saved_before read (some m) f.0,
            f.2,
            inv.sampled j u b saved_before read m f.0 limited,
          );
      quota_kept = finished_quota;
    }
