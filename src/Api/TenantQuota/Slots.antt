-- ===== src/Api/TenantQuota/Slots.antt =====
-- Entering `reserve` and giving a slot back keep the invariant.
use n8n_sandbox_service.Base.{
  ℕ, ◌+◌, ◌-◌, ◌≤◌, ◌<◌, ◌≡◌, refl, ap, sym, inl, String, Bool, true, false, none, some, arith,
  eq_iff, eq_refl, replace, sum_over, sum_over-replace, sum_over-ge, ℤ,
}
use n8n_sandbox_service.Api.TenantQuota.{
  TenantCreates, store_at, begin_reserve, forget_if_idle, release,
}
use n8n_sandbox_service.Api.TenantQuota.Entries.{
  entry, entry_at, entry-begin_reserve, begin_reserve-Points, begin_reserve_keeps,
  begin_reserve-IsValid,
}
use n8n_sandbox_service.Api.TenantQuota.Processes.{Pc, idle, reading, creating, stored, World}
use n8n_sandbox_service.Api.TenantQuota.Invariant.{
  one_for, creating_of, stored_of, reading_of, Holds, Inv,
}
use n8n_sandbox_service.Api.TenantQuota.Finishing.{finished-Inv}

some_eq : {m k : ℕ} → some m ≡ some k → m ≡ k
some_eq e = cc

module _ (limit : String → ℤ) (n : ℕ) {w : World} (inv : Inv limit n w) where
  -- A create that holds a slot gives it back, and its entry becomes `e`.
  gives_back-Inv :
      (i : ℕ) (t : String) (a : ℕ) (e : TenantCreates)
      → i < n
      → Holds (w.pc i) t a
      → creating_of t (w.pc i) + stored_of t (w.pc i) ≡ 1
      → reading_of t (w.pc i) ≡ 0
      → e.in_progress ≡ (w.quota.heap a).in_progress - 1
      → e.reading ≡ (w.quota.heap a).reading
      → (w.quota.heap a).saved + stored_of t (w.pc i) ≤ e.saved
      → Inv limit n
          (record w { quota = forget_if_idle t a (store_at a e w.quota); pc = replace w.pc i idle })
  gives_back-Inv i t a e lt held one none_read fewer same grows =
      let entry_lem : entry w.quota t ≡ w.quota.heap a =
        ap (entry_at w.quota) (inv.live i t a held) in
      let at_progress = ap (λ (f : TenantCreates). f.in_progress) entry_lem in
      finished-Inv limit n inv i lt t a e idle held (inl refl)
        (omega (
          arith,
          at_progress,
          inv.progress t,
          sum_over-ge (creating_of t) n w.pc i lt,
          sum_over-ge (stored_of t) n w.pc i lt,
        ))
        (omega (arith, ap (λ (f : TenantCreates). f.reading) entry_lem))
        (omega (arith, ap (λ (f : TenantCreates). f.saved) entry_lem))
        (λ limited.
          omega
            (arith, sum_over-replace (creating_of t) n w.pc i idle lt, inv.quota_kept t limited))

  creating_weights :
      (p : Pc) (t : String) (a : ℕ)
      → p ≡ creating t a
      → Holds p t a
        × (creating_of t p + stored_of t p ≡ 1)
        × (reading_of t p ≡ 0)
        × (stored_of t p ≡ 0)
  creating_weights p t a e = rw e ((refl, refl), ground (arith, eq_refl t), refl, refl)

  stored_weights :
      (p : Pc) (t : String) (a : ℕ)
      → p ≡ stored t a
      → Holds p t a
        × (creating_of t p + stored_of t p ≡ 1)
        × (reading_of t p ≡ 0)
        × (stored_of t p ≡ 1)
  stored_weights p t a e =
      rw e ((refl, refl), ground (arith, eq_refl t), refl, ground (arith, eq_refl t))

  pub releases-Inv :
      (i : ℕ) (t : String) (a : ℕ)
      → i < n
      → w.pc i ≡ stored t a
      → Inv limit n (record w { quota = release false true t a w.quota; pc = replace w.pc i idle })
  unfolding release
  releases-Inv i t a lt at =
      let k = stored_weights (w.pc i) t a at in
      gives_back-Inv i t a _ lt k.0 k.1 k.2 refl refl (omega (arith, k.3))

  pub gives_up-Inv :
      (i : ℕ) (t : String) (a : ℕ) (saved : Bool)
      → i < n
      → w.pc i ≡ creating t a
      → Inv limit n (record w { quota = release false saved t a w.quota; pc = replace w.pc i idle })
  unfolding release
  gives_up-Inv i t a true lt at =
      let k = creating_weights (w.pc i) t a at in
      gives_back-Inv i t a _ lt k.0 k.1 k.2 refl refl (omega (arith, k.3))
  gives_up-Inv i t a false lt at =
      let k = creating_weights (w.pc i) t a at in
      gives_back-Inv i t a _ lt k.0 k.1 k.2 refl refl (omega (arith, k.3))

  begin_effect :
      (t u : String)
      → let q = (begin_reserve t w.quota).0 in
        ((entry q u).in_progress ≡ (entry w.quota u).in_progress)
        × ((entry q u).saved ≡ (entry w.quota u).saved)
        × ((entry q u).reading ≡ (entry w.quota u).reading + one_for t u)
  begin_effect t u = ground (arith, entry-begin_reserve t w.quota inv.valid u, eq_iff t u)

  -- A create enters `reserve`: its entry is made or found, and counts one reader more.
  module _ (i : ℕ) (t : String) (lt : i < n) (at : w.pc i ≡ idle) where
    abbrev entered : Pc
    entered = let r = begin_reserve t w.quota in reading t r.1 (r.0.heap r.1).saved 1 none

    abbrev begun : World
    begun = record w { quota = (begin_reserve t w.quota).0; pc = replace w.pc i entered }

    begun_sums :
        (u : String)
        → (sum_over (creating_of u) n begun.pc ≡ sum_over (creating_of u) n w.pc)
          × (sum_over (stored_of u) n begun.pc ≡ sum_over (stored_of u) n w.pc)
          × (sum_over (reading_of u) n begun.pc ≡ sum_over (reading_of u) n w.pc + one_for t u)
    begun_sums u =
        let none_before : (creating_of u (w.pc i) ≡ 0)
            × (stored_of u (w.pc i) ≡ 0)
            × (reading_of u (w.pc i) ≡ 0) =
          rw at (refl, refl, refl) in
        omega (
          arith,
          none_before,
          sum_over-replace (creating_of u) n w.pc i entered lt,
          sum_over-replace (stored_of u) n w.pc i entered lt,
          sum_over-replace (reading_of u) n w.pc i entered lt,
        )

    begun_base :
        ((begin_reserve t w.quota).0.heap (begin_reserve t w.quota).1).saved
        ≡ (entry (begin_reserve t w.quota).0 t).saved
    begun_base =
        ap (λ o. (entry_at (begin_reserve t w.quota).0 o).saved)
          (sym (begin_reserve-Points t w.quota inv.valid))

    pub begins-Inv : Inv limit n begun
    begins-Inv = record {
      valid = begin_reserve-IsValid t w.quota inv.valid;
      outside = λ j h. ground (arith, inv.outside j);
      live = λ j u b h. ground (
        arith,
        begin_reserve_keeps t w.quota inv.valid u b,
        inv.live j u b,
        begin_reserve-Points t w.quota inv.valid,
      );
      progress = λ u. omega (arith, begin_effect t u, begun_sums u, inv.progress u);
      readers = λ u. omega (arith, begin_effect t u, begun_sums u, inv.readers u);
      base = λ j u b saved_before r sample e.
          ground (arith, begin_effect t u, begun_base, inv.base j u b saved_before r sample);
      sampled = λ j u b saved_before r m e limited.
          let old : w.pc j ≡ reading u b saved_before r (some m) = ground arith in
          omega
            (arith, begin_effect t u, begun_sums u, inv.sampled j u b saved_before r m old limited);
      quota_kept = λ u limited. omega (arith, begun_sums u, inv.quota_kept u limited);
    }
