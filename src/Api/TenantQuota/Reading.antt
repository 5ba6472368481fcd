-- ===== src/Api/TenantQuota/Reading.antt =====
-- What `reserve` of internal/api/tenant_quota.go does after a read, case by case.
use n8n_sandbox_service.Base.{
  ℕ, ◌+◌, ◌-◌, ◌<◌, ◌≡◌, refl, ap, fun_ext, ◌∙◌, String, Bool, true, false, some, arith, ◌==◌, ◌||◌,
  ℤ, pos, pos_part, ltb_ℤ,
}
use n8n_sandbox_service.Api.TenantQuota.{
  TenantCreates, TenantQuota, admitted, refused, rereads, store_at, forget_if_idle, leave,
  after_read, max_reads,
}

store_at_twice :
    (a : ℕ) (e f : TenantCreates) (q : TenantQuota) → store_at a f (store_at a e q) ≡ store_at a f q
store_at_twice a e f q = ap (λ h. record q { heap = h }) (fun_ext λ b. ground arith)

-- `leave` behind a change of the entry.
leave-store_at :
    (t : String) (a : ℕ) (e : TenantCreates) (q : TenantQuota)
    → leave t a (store_at a e q)
      ≡ forget_if_idle t a (store_at a (record e { reading = e.reading - 1 }) q)
unfolding leave
leave-store_at t a e q =
    let same : (store_at a e q).heap a ≡ e = ground arith in
    ap
      (λ (f : TenantCreates).
        forget_if_idle t a (store_at a (record f { reading = f.reading - 1 }) (store_at a e q)))
      same
    ∙ ap (forget_if_idle t a) (store_at_twice a e (record e { reading = e.reading - 1 }) q)

module _ (t : String) (limit : ℤ) (a saved_before read m : ℕ) (q : TenantQuota) where
  abbrev pub enough : Bool
  enough = ltb_ℤ (pos (m + (q.heap a).in_progress + ((q.heap a).saved - saved_before))) limit

  pub enough-lt :
      enough ≡ true
      → m + (q.heap a).in_progress + ((q.heap a).saved - saved_before) < pos_part limit
  enough-lt h = ground arith

  pub after_read_admits :
      enough ≡ true
      → after_read t limit a saved_before read (some m) q ≡ (
        forget_if_idle t a (
            store_at a
              (record {
                in_progress = (q.heap a).in_progress + 1;
                saved = (q.heap a).saved;
                reading = (q.heap a).reading - 1;
              })
              q),
        admitted,
      )
  unfolding after_read
  after_read_admits h =
      rw (h, after_read)
        (ap (λ r. (r, admitted))
          (leave-store_at t a (record (q.heap a) { in_progress = (q.heap a).in_progress + 1 }) q))

  pub after_read_refuses :
      enough ≡ false
      → ((q.heap a).saved - saved_before == 0 || read == max_reads) ≡ true
      → after_read t limit a saved_before read (some m) q ≡ (
        forget_if_idle t a (store_at a (record (q.heap a) { reading = (q.heap a).reading - 1 }) q),
        refused,
      )
  unfolding after_read
  after_read_refuses h k = rw (h, k, after_read) refl

  pub after_read_again :
      enough ≡ false
      → ((q.heap a).saved - saved_before == 0 || read == max_reads) ≡ false
      → after_read t limit a saved_before read (some m) q ≡ (q, rereads (q.heap a).saved)
  unfolding after_read
  after_read_again h k = rw (h, k, after_read) refl
