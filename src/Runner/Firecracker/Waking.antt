-- ===== src/Runner/Firecracker/Waking.antt =====
-- internal/runner/runtime/firecracker.ee/stop_wake.go: a wake keeps the invariant, and what it
-- leaves.
use n8n_sandbox_service.Base.{
  ℕ, ◌≡◌, refl, sym, ap, subst, ◌∙◌, ◌≢◌, inl, inr, String, Bool, true, false, Option, none, some,
  List, ℤ, pos, negsuc, lookup, Bool-cases, Option-cases,
}
use n8n_sandbox_service.Runner.Firecracker.{
  Error, failed, SandboxState, Runtime, write, free_slot, assign, reserve_slot, unclaimed, waking,
  begin_transition,
}
use n8n_sandbox_service.Runner.Firecracker.Keeping.{heap-write}
use n8n_sandbox_service.Runner.Firecracker.Validity.{IsSettled, IsValid, has_slot}
use n8n_sandbox_service.Runner.Firecracker.Lifecycle.{give_back, reserve_wake_slot}
use n8n_sandbox_service.Runner.Firecracker.Handing.{
  Keeps-IsValid, take_write-IsValid, write-IsValid,
}
use n8n_sandbox_service.Runner.Firecracker.Keeping.{activate-IsMild}
use n8n_sandbox_service.Runner.Firecracker.Machine.{Host, activate, teardown}
use n8n_sandbox_service.Runner.Firecracker.Claims.{
  HasClaim, AllKeep, after_begin, end-IsValid, claims, begin_transition-Began,
}
use n8n_sandbox_service.Runner.Firecracker.Lifecycle.{
  reserve_wake_slot, wake_claimed, wake_begun, ensure_running,
}
use n8n_sandbox_service.Runner.Firecracker.Stopping.{torn-HasClaim}
use n8n_sandbox_service.Runner.Firecracker.Starting.{activate-IsUp}

off_of : (z : ℤ) → has_slot z ≡ false → (l : ℕ) × (z ≡ negsuc l)
off_of (pos i) e = absurd (cc)
off_of (negsuc l) e = (l, refl)

pub reserve_slot_full :
    (id : String) (m : Runtime) → free_slot m.slots ≡ none → reserve_slot id m ≡ (m, none)
unfolding reserve_slot
reserve_slot_full id m full = rw (reserve_slot, full)

pub reserve_slot_free :
    (id : String) (m : Runtime) (i : ℕ)
    → free_slot m.slots ≡ some i
    → reserve_slot id m ≡ (record m { slots = assign i id m.slots }, some i)
unfolding reserve_slot
reserve_slot_free id m i free = rw (reserve_slot, free)

module _ (slot_url : ℕ → String) (h : Host) (a : ℕ) where
  -- The slot that a wake takes is the first free one; without one nothing changes.
  pub reserve_wake_slot_full :
      (m : Runtime)
      → free_slot m.slots ≡ none
      → reserve_wake_slot slot_url a m ≡ (m, some (failed "firecracker runner capacity exhausted"))
  unfolding reserve_wake_slot
  reserve_wake_slot_full m full =
      let e = reserve_slot_full (m.heap a).id m full in
      rw (reserve_wake_slot, e)
        (ap
          (λ (r : Runtime × Option ℕ).
            let t : Runtime × Option Error =
              (r.0, some (failed "firecracker runner capacity exhausted")) in
            t)
          e)

  abbrev pub placed : ℕ → Runtime → Runtime
  placed i m =
      write a (record (m.heap a) { slot = pos i; daemon_url = slot_url i })
        (record m { slots = assign i (m.heap a).id m.slots })

  pub reserve_wake_slot_free :
      (m : Runtime) (i : ℕ)
      → free_slot m.slots ≡ some i
      → reserve_wake_slot slot_url a m ≡ (placed i m, none)
  unfolding reserve_wake_slot
  reserve_wake_slot_free m i free =
      let e = reserve_slot_free (m.heap a).id m i free in
      rw (reserve_wake_slot, e)
        (ap
          (λ (r : Runtime × Option ℕ).
            let t : Runtime × Option Error =
              (write a (record (m.heap a) { slot = pos i; daemon_url = slot_url i }) r.0, none) in
            t)
          e)

  module _ (id : String) {m : Runtime} (c : HasClaim id a m)
      (stopped : (m.heap a).stopped ≡ true) where
    -- A stopped sandbox with its new slot is settled too, but for what stopped means.
    pub off : (l : ℕ) × ((m.heap a).slot ≡ negsuc l)
    off = off_of (m.heap a).slot (c.settled.off_slot stopped)

    pub placed-IsValid : (i : ℕ) → free_slot m.slots ≡ some i → IsValid (placed i m)
    placed-IsValid i free =
        subst
          (λ (o : String). IsValid (
            write a (record (m.heap a) { slot = pos i; daemon_url = slot_url i })
              (record m { slots = assign i o m.slots })))
          (sym (c.valid.named id a c.tracked))
          (take_write-IsValid c.valid id c.tracked i off.0
            (record (m.heap a) { slot = pos i; daemon_url = slot_url i }) refl off.1 refl free
            (λ e. absurd (c.claimed_by_it e)))

    pub placed-here :
        (i : ℕ) → (placed i m).heap a ≡ record (m.heap a) { slot = pos i; daemon_url = slot_url i }
    placed-here i =
        heap-write a (record (m.heap a) { slot = pos i; daemon_url = slot_url i })
          (record m { slots = assign i (m.heap a).id m.slots })

    -- A wake that finds a slot ends with the sandbox up on it, or as stopped as before.
    module _ (i : ℕ) (free : free_slot m.slots ≡ some i) where
      pub active_busy : ((activate h a (placed i m)).0.heap a).transition ≢ unclaimed
      active_busy e = c.claimed_by_it (
          sym (
            ((activate-IsMild h).keeps (placed i m)).transition
            ∙ ap (λ (s : SandboxState). s.transition) (placed-here i))
          ∙ e)

      pub active_tracked : lookup id (activate h a (placed i m)).0.sandboxes ≡ some a
      active_tracked =
          subst (λ (l : List (String × ℕ)). lookup id l ≡ some a)
            (sym ((activate-IsMild h).keeps (placed i m)).sandboxes) c.tracked

      pub active-IsValid : IsValid (activate h a (placed i m)).0
      active-IsValid =
          Keeps-IsValid (placed-IsValid i free) id c.tracked (λ e. absurd (active_busy e))
            ((activate-IsMild h).keeps (placed i m))

      woken-HasClaim :
          (activate h a (placed i m)).1 ≡ none
          → HasClaim id a (
              write a
                (record ((activate h a (placed i m)).0.heap a) { running = true; stopped = false })
                (activate h a (placed i m)).0)
      woken-HasClaim ok =
          let n = (activate h a (placed i m)).0 in
          let s : SandboxState = record (n.heap a) { running = true; stopped = false } in
          let up = activate-IsUp h a (placed i m) ok in
          let at : (n.heap a).slot ≡ pos i =
            ((activate-IsMild h).keeps (placed i m)).slot
            ∙ ap (λ (x : SandboxState). x.slot) (placed-here i) in
          let settled : IsSettled s = record {
            on_slot = λ r. ap has_slot at;
            has_process = λ r. up.has_process;
            has_proxy = λ r. up.has_proxy;
            pinned = λ r. up.pinned;
            awake = λ r. refl;
            off_slot = λ r. absurd (cc);
            no_process = λ r. absurd (cc);
            no_proxy = λ r. absurd (cc);
          } in
          let here = heap-write a s n in
          record {
            valid = write-IsValid active-IsValid id active_tracked s refl refl (λ e. settled);
            tracked = active_tracked;
            settled = rw here settled;
            claimed_by_it =
                λ e. active_busy (sym (ap (λ (x : SandboxState). x.transition) here) ∙ e);
          }

      rolled_back-HasClaim :
          HasClaim id a (give_back a (teardown h a (activate h a (placed i m)).0).0)
      rolled_back-HasClaim = torn-HasClaim h a id _ active-IsValid active_tracked active_busy

  pub wake_claimed-HasClaim :
      (id : String) (m : Runtime) → HasClaim id a m → HasClaim id a (wake_claimed slot_url h a m).0
  unfolding wake_claimed
  wake_claimed-HasClaim id m c = elim (Bool-cases (m.heap a).running) [
    | inl up ↦ rw (wake_claimed, up) c
    | inr down ↦ elim (Bool-cases (m.heap a).stopped) [
      | inr lost ↦ rw (wake_claimed, down, lost) c
      | inl stopped ↦ elim (Option-cases (free_slot m.slots)) [
        | inl full ↦ rw (wake_claimed, down, stopped, reserve_wake_slot_full m full) c
        | inr (i, free) ↦ elim (Option-cases (activate h a (placed i m)).1) [
          | inl ok ↦
              rw (wake_claimed, down, stopped, reserve_wake_slot_free m i free, ok)
                (woken-HasClaim id c stopped i free ok)
          | inr (e, bad) ↦
              rw (wake_claimed, down, stopped, reserve_wake_slot_free m i free, bad)
                (rolled_back-HasClaim id c stopped i free)
        ]
      ]
    ]
  ]

module _ (slot_url : ℕ → String) (h : Host) where
  pub ensure_running-IsValid :
      (others : List (Runtime → Runtime)) (id : String) (m : Runtime)
      → AllKeep others
      → IsValid m
      → IsValid (ensure_running slot_url h others id m).0
  unfolding ensure_running wake_begun
  ensure_running-IsValid others id m q v =
      after_begin (λ (r : Runtime × Bool × Option Error). IsValid r.0) id (wake_begun slot_url h)
        (begin_transition others id waking m)
        (begin_transition-Began id waking claims.0 others m q v) (λ n e u. u)
        (λ n a c. end-IsValid (wake_claimed-HasClaim slot_url h a id n c))
