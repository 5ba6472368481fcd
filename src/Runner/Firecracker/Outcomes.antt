-- ===== src/Runner/Firecracker/Outcomes.antt =====
-- internal/runner/runtime/firecracker.ee: what the operations leave, on their branches.
use n8n_sandbox_service.Base.{
  ℕ, ◌+◌, ◌%◌, ◌^◌, ◌≡◌, refl, sym, ap, ◌∙◌, ◌↔◌, inl, inr, String, true, false, Option, none, some,
  List, arith, ◌==◌, negsuc, lookup, is_some, Bool-cases, Option-cases,
}
use n8n_sandbox_service.Runner.Firecracker.{
  Error, SandboxState, Runtime, write, release_owned, unclaimed, stopping, set_transition,
  end_transition,
}
use n8n_sandbox_service.Runner.Firecracker.Keeping.{heap-write}
use n8n_sandbox_service.Runner.Firecracker.Validity.{IsSettled, IsValid}
use n8n_sandbox_service.Runner.Firecracker.Lifecycle.{give_back}
use n8n_sandbox_service.Runner.Firecracker.Keeping.{heap-teardown}
use n8n_sandbox_service.Runner.Firecracker.Machine.{Host, teardown}
use n8n_sandbox_service.Runner.Firecracker.Claims.{begin_transition-claimed}
use n8n_sandbox_service.Runner.Firecracker.Lifecycle.{
  stop_claimed, stop_begun, stop_sandbox, resume_after_failed_stop, handle_guest_death,
}

next_generation : (g : ℕ) → ((g + 1) % 2 ^ 64 == g) ≡ false
next_generation g = ground arith

-- The exit that a teardown causes is none of a guest that died: the report of a microVM that ran
-- before the teardown changes nothing, whatever the host answers.
pub handle_guest_death-teardown :
    (h k : Host) (a : ℕ) (others : List (Runtime → Runtime)) (m : Runtime)
    → handle_guest_death k others a (m.heap a).generation (teardown h a m).0 ≡ (teardown h a m).0
unfolding handle_guest_death
handle_guest_death-teardown h k a others m =
    let stale : (((teardown h a m).0.heap a).generation == (m.heap a).generation) ≡ false =
      rw (heap-teardown h a m) (next_generation (m.heap a).generation) in
    rw (handle_guest_death, stale)

pub give_back-heap :
    (a : ℕ) (m : Runtime)
    → (give_back a m).heap a ≡ record (m.heap a) {
      running = false;
      stopped = true;
      slot = negsuc 0;
      process = none;
      proxy = none;
    }
unfolding give_back
give_back-heap a m =
    heap-write a
      (record (m.heap a) {
        running = false;
        stopped = true;
        slot = negsuc 0;
        process = none;
        proxy = none;
      })
      (release_owned a m)

module _ (h : Host) (a : ℕ) where
  -- A teardown that gives the slot back leaves the pin.
  shut-pin :
      (n : Runtime)
      → ((give_back a (teardown h a n).0).heap a).must_cold_boot ≡ (n.heap a).must_cold_boot
  shut-pin n =
      ap (λ (x : SandboxState). x.must_cold_boot) (give_back-heap a (teardown h a n).0)
      ∙ ap (λ (x : SandboxState). x.must_cold_boot) (heap-teardown h a n)

  resume-pin :
      (n : Runtime)
      → ((resume_after_failed_stop h a n).heap a).must_cold_boot ≡ (n.heap a).must_cold_boot
  unfolding resume_after_failed_stop
  resume-pin n = elim (Bool-cases (is_some h.resume_vm)) [
    | inl bad ↦ rw (resume_after_failed_stop, bad) (shut-pin n)
    | inr good ↦ rw (resume_after_failed_stop, good)
  ]

  abbrev pub SnapshotWritten : Type 0
  SnapshotWritten =
      (h.snapshot_disk_space ≡ none) × (h.pause_vm ≡ none) × (h.create_snapshot ≡ none)

  module _ (n : Runtime) (awake : (n.heap a).stopped ≡ false) (up : (n.heap a).running ≡ true)
      (pinned : (n.heap a).must_cold_boot ≡ true) where
    stop_claimed-pin : (((stop_claimed h a n).0.heap a).must_cold_boot ≡ false) ↔ SnapshotWritten
    unfolding stop_claimed
    stop_claimed-pin =
        rw (stop_claimed, awake, up)
          (elim (Option-cases h.snapshot_disk_space) [
            | inr (e, full) ↦ rw full (ground (arith))
            | inl roomy ↦ elim (Option-cases h.pause_vm) [
              | inr (e, going) ↦ rw (roomy, going) (ground (arith, resume-pin n))
              | inl paused ↦ elim (Option-cases h.create_snapshot) [
                | inr (e, lost) ↦ rw (roomy, paused, lost) (ground (arith, resume-pin n))
                | inl saved ↦
                    rw (roomy, paused, saved)
                      (let pin =
                          shut-pin (write a (record (n.heap a) { must_cold_boot = false }) n)
                          ∙ ap (λ (x : SandboxState). x.must_cold_boot)
                              (heap-write a (record (n.heap a) { must_cold_boot = false }) n) in
                        ((λ e. (refl, refl, refl)), (λ e. pin)))
              ]
            ]
          ])

module _ (h : Host) (others : List (Runtime → Runtime)) (id : String) (a : ℕ) (m : Runtime)
    (v : IsValid m) (at : lookup id m.sandboxes ≡ some a)
    (free : (m.heap a).transition ≡ unclaimed) where
  IsSettled-now : IsSettled (m.heap a)
  IsSettled-now = v.settled id a at free

  -- A stop of a running sandbox that no operation has claimed takes away its pin to a cold boot
  -- exactly when the disk had room, the guest was paused and its snapshot was written.
  pub stop_sandbox-pin :
      (m.heap a).running ≡ true
      → (((stop_sandbox h others id m).0.heap a).must_cold_boot ≡ false) ↔ SnapshotWritten h a
  unfolding stop_sandbox stop_begun
  stop_sandbox-pin running =
      let n = set_transition a stopping m in
      let here = heap-write a (record (m.heap a) { transition = stopping }) m in
      let s = IsSettled-now in
      let eq : stop_sandbox h others id m
          ≡ (end_transition a (stop_claimed h a n).0, (stop_claimed h a n).1) =
        ap (stop_begun h) (begin_transition-claimed others id stopping m a at free) in
      let same : ((stop_sandbox h others id m).0.heap a).must_cold_boot
          ≡ ((stop_claimed h a n).0.heap a).must_cold_boot =
        ap (λ (r : Runtime × Option Error). (r.0.heap a).must_cold_boot) eq
        ∙ ap (λ (x : SandboxState). x.must_cold_boot)
            (heap-write a (record ((stop_claimed h a n).0.heap a) { transition = unclaimed })
              (stop_claimed h a n).0) in
      let done =
        stop_claimed-pin h a n (ap (λ (x : SandboxState). x.stopped) here ∙ s.awake running)
          (ap (λ (x : SandboxState). x.running) here ∙ running)
          (ap (λ (x : SandboxState). x.must_cold_boot) here ∙ s.pinned running) in
      (λ e. done.0 (sym same ∙ e), λ w. same ∙ done.1 w)
