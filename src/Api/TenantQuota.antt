-- ===== src/Api/TenantQuota.antt =====
-- internal/api/tenant_quota.go: the check of max_sandboxes before a create reaches a runner. The
-- entries of the map are shared by pointer, so they live in a heap and the map holds addresses.
-- `reserve` reads the store with the lock released: `begin_reserve` is the part before the first
-- read, and `after_read` the part from the end of a read to the next read or to the return.
pub mod Entries
pub mod Processes
pub mod Invariant
pub mod Finishing
pub mod Moving
pub mod Reading
pub mod Deciding
pub mod Slots
pub mod Safety
mod Tests
use n8n_sandbox_service.Base.{
  ℕ, ◌+◌, ◌-◌, String, Bool, true, false, Option, none, some, List, [], ◌==◌, ◌&&◌, ◌||◌,
  if◌then◌else◌, lookup, insert, erase, ℤ, pos, ltb_ℤ, leb_ℤ,
}

-- Go's signed counts, as naturals.
pub record TenantCreates : Type 0 where
  pub in_progress : ℕ  -- int
  pub saved : ℕ  -- int64
  pub reading : ℕ  -- int

pub record TenantQuota : Type 0 where
  pub tenants : List (String × ℕ)
  pub heap : ℕ → TenantCreates
  pub next : ℕ

abbrev pub no_creates : TenantCreates
no_creates = record { in_progress = 0; saved = 0; reading = 0 }

unfoldable pub new_tenant_quota : TenantQuota
new_tenant_quota = record { tenants = []; heap = λ _. no_creates; next = 0 }

abbrev pub store_at : ℕ → TenantCreates → TenantQuota → TenantQuota
store_at a e q = record q { heap = λ b. if b == a then e else q.heap b }

abbrev pub is_unlimited : ℤ → Bool
is_unlimited limit = leb_ℤ limit (pos 0)

-- The tenant's entry, made if there is none.
unfoldable pub entry_for : String → TenantQuota → TenantQuota × ℕ
entry_for tenant q = elim (lookup tenant q.tenants) [
  | some a ↦ (q, a)
  | none ↦ (
    record q {
      tenants = insert tenant q.next q.tenants;
      heap = λ b. if b == q.next then no_creates else q.heap b;
      next = q.next + 1;
    },
    q.next,
  )
]

-- Up to the first read, for a limit above 0; `saved_before` is then the entry's `saved`.
unfoldable pub begin_reserve : String → TenantQuota → TenantQuota × ℕ
unfolding entry_for
begin_reserve tenant q =
    let (r, a) = entry_for tenant q in
    (store_at a (record (r.heap a) { reading = (r.heap a).reading + 1 }) r, a)

unfoldable pub forget_if_idle : String → ℕ → TenantQuota → TenantQuota
forget_if_idle tenant a q =
    if (q.heap a).in_progress == 0 && (q.heap a).reading == 0
    then record q { tenants = erase tenant q.tenants }
    else q

-- The deferred function of `reserve`.
unfoldable pub leave : String → ℕ → TenantQuota → TenantQuota
unfolding forget_if_idle
leave tenant a q =
    forget_if_idle tenant a (store_at a (record (q.heap a) { reading = (q.heap a).reading - 1 }) q)

abbrev pub max_reads : ℕ
max_reads = 3

pub data Reply : Type 0 where
  failed : Reply
  admitted : Reply
  refused : Reply
  rereads : ℕ → Reply  -- the new `savedBefore`

-- `result` is what the read returned, `none` for an error.
unfoldable pub after_read : String → ℤ → ℕ → ℕ → ℕ → Option ℕ → TenantQuota → TenantQuota × Reply
unfolding leave
after_read tenant limit a saved_before read none q = (leave tenant a q, failed)
after_read tenant limit a saved_before read (some n) q =
    let e = q.heap a in
    let saved_during = e.saved - saved_before in
    if ltb_ℤ (pos (n + e.in_progress + saved_during)) limit
    then (leave tenant a (store_at a (record e { in_progress = e.in_progress + 1 }) q), admitted)
    else if saved_during == 0 || read == max_reads
    then (leave tenant a q, refused)
    else (q, rereads e.saved)

-- The function that `reserve` returns; `done` is the state of its `sync.Once`.
unfoldable pub release : Bool → Bool → String → ℕ → TenantQuota → TenantQuota
unfolding forget_if_idle
release done saved tenant a q =
    let e = q.heap a in
    let fewer = record e { in_progress = e.in_progress - 1 } in
    let counted = if saved then record fewer { saved = e.saved + 1 } else fewer in
    if done then q else forget_if_idle tenant a (store_at a counted q)
