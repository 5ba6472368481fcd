-- ===== src/Runner/Firecracker/Stopping.antt =====
-- internal/runner/runtime/firecracker.ee/stop_wake.go, crash.go: a stop and a guest's death keep
-- the invariant, and what they leave.
use n8n_sandbox_service.Base.{
  ℕ, ◌≡◌, refl, sym, ap, subst, ◌∙◌, ◌≢◌, inl, inr, String, Bool, true, false, ◌&&◌, Option, some,
  List, ◌==◌, if◌then◌else◌, negsuc, lookup, is_some, Bool-cases, Option-cases,
}
use n8n_sandbox_service.Runner.Firecracker.{
  Error, SandboxState, Runtime, write, release_owned, unclaimed, stopping, begin_transition,
}
use n8n_sandbox_service.Runner.Firecracker.Keeping.{Keeps, heap-write}
use n8n_sandbox_service.Runner.Firecracker.Validity.{IsSettled, IsValid}
use n8n_sandbox_service.Runner.Firecracker.Lifecycle.{give_back, give_back_dead}
use n8n_sandbox_service.Runner.Firecracker.Handing.{Keeps-IsValid, released, give_write-IsValid}
use n8n_sandbox_service.Runner.Firecracker.Keeping.{
  write-Keeps, teardown-IsMild, heap-teardown, Keeps-refl,
}
use n8n_sandbox_service.Runner.Firecracker.Machine.{Host, teardown}
use n8n_sandbox_service.Runner.Firecracker.Claims.{
  HasClaim, AllKeep, after_begin, end-IsValid, claims, begin_transition-Began,
}
use n8n_sandbox_service.Runner.Firecracker.Lifecycle.{
  stop_claimed, stop_begun, death_begun, stop_sandbox, resume_after_failed_stop, handle_guest_death,
}

module _ {n : Runtime} {a : ℕ} (v : IsValid n) (id : String)
    (tracked : lookup id n.sandboxes ≡ some a) (busy : (n.heap a).transition ≢ unclaimed) where
  pub given_back-HasClaim :
      (s : SandboxState)
      → s.id ≡ (n.heap a).id
      → s.slot ≡ negsuc 0
      → s.transition ≡ (n.heap a).transition
      → IsSettled s
      → HasClaim id a (write a s (release_owned a n))
  given_back-HasClaim s same_id away same settled =
      let here = heap-write a s (release_owned a n) in
      record {
        valid = give_write-IsValid v id tracked s same_id away (λ free. settled);
        tracked =
            subst (λ (l : List (String × ℕ)). lookup id l ≡ some a) (sym (released a n).0) tracked;
        settled = rw here settled;
        claimed_by_it =
            λ e. busy (sym same ∙ sym (ap (λ (x : SandboxState). x.transition) here) ∙ e);
      }

  pub give_back-HasClaim : HasClaim id a (give_back a n)
  unfolding give_back
  give_back-HasClaim = given_back-HasClaim _ refl refl refl (record {
    on_slot = λ h. absurd (cc);
    has_process = λ h. absurd (cc);
    has_proxy = λ h. absurd (cc);
    pinned = λ h. absurd (cc);
    awake = λ h. absurd (cc);
    off_slot = λ h. refl;
    no_process = λ h. refl;
    no_proxy = λ h. refl;
  })

choose-IsValid : (b : Bool) {m n : Runtime} → IsValid n → IsValid m → IsValid (if b then n else m)
choose-IsValid true p q = p
choose-IsValid false p q = q

choose-HasClaim :
    {id : String} {a : ℕ} (b : Bool) {m n : Runtime}
    → HasClaim id a m
    → HasClaim id a n
    → HasClaim id a (if b then m else n)
choose-HasClaim true p q = p
choose-HasClaim false p q = q

module _ (h : Host) (a : ℕ) (id : String) where
  -- Shutting the microVM down and giving the slot back.
  pub torn-HasClaim :
      (n : Runtime)
      → IsValid n
      → lookup id n.sandboxes ≡ some a
      → (n.heap a).transition ≢ unclaimed
      → HasClaim id a (give_back a (teardown h a n).0)
  torn-HasClaim n v tracked busy =
      let k = (teardown-IsMild h).keeps n in
      let still : ((teardown h a n).0.heap a).transition ≢ unclaimed =
        λ e. busy (sym k.transition ∙ e) in
      give_back-HasClaim (Keeps-IsValid v id tracked (λ e. absurd (still e)) k) id
        (subst (λ (l : List (String × ℕ)). lookup id l ≡ some a) (sym k.sandboxes) tracked) still

  shut-HasClaim :
      {m n : Runtime}
      → HasClaim id a m
      → Keeps a m n
      → HasClaim id a (give_back a (teardown h a n).0)
  shut-HasClaim {m} {n} c k =
      let busy : (n.heap a).transition ≢ unclaimed = λ e. c.claimed_by_it (sym k.transition ∙ e) in
      torn-HasClaim n (Keeps-IsValid c.valid id c.tracked (λ e. absurd (busy e)) k)
        (subst (λ (l : List (String × ℕ)). lookup id l ≡ some a) (sym k.sandboxes) c.tracked) busy

  resume-HasClaim : (m : Runtime) → HasClaim id a m → HasClaim id a (resume_after_failed_stop h a m)
  unfolding resume_after_failed_stop
  resume-HasClaim m c = choose-HasClaim (is_some h.resume_vm) (shut-HasClaim c (Keeps-refl a m)) c

  pub stop_claimed-HasClaim : (m : Runtime) → HasClaim id a m → HasClaim id a (stop_claimed h a m).0
  unfolding stop_claimed
  stop_claimed-HasClaim m c = elim (Bool-cases (m.heap a).stopped) [
    | inl stopped ↦ rw (stop_claimed, stopped) c
    | inr going ↦ elim (Bool-cases (m.heap a).running) [
      | inr down ↦ rw (stop_claimed, going, down) c
      | inl up ↦
          rw (stop_claimed, going, up)
            (elim (Option-cases h.snapshot_disk_space) [
              | inr (e, full) ↦ rw full c
              | inl roomy ↦ elim (Option-cases h.pause_vm) [
                | inr (e, awake) ↦ rw (roomy, awake) (resume-HasClaim m c)
                | inl paused ↦ elim (Option-cases h.create_snapshot) [
                  | inr (e, lost) ↦ rw (roomy, paused, lost) (resume-HasClaim m c)
                  | inl saved ↦
                      rw (roomy, paused, saved)
                        (shut-HasClaim c (write-Keeps a _ m refl refl refl refl refl refl))
                ]
              ]
            ])
    ]
  ]

  -- The teardown has taken the handles already.
  died-HasClaim :
      {m : Runtime} → HasClaim id a m → HasClaim id a (give_back_dead a (teardown h a m).0)
  unfolding give_back_dead
  died-HasClaim {m} c =
      let k = (teardown-IsMild h).keeps m in
      let here = heap-teardown h a m in
      let busy : ((teardown h a m).0.heap a).transition ≢ unclaimed =
        λ e. c.claimed_by_it (sym k.transition ∙ e) in
      let v : IsValid (teardown h a m).0 =
        Keeps-IsValid c.valid id c.tracked (λ e. absurd (busy e)) k in
      given_back-HasClaim v id
        (subst (λ (l : List (String × ℕ)). lookup id l ≡ some a) (sym k.sandboxes) c.tracked) busy _
        refl refl refl
        (record {
          on_slot = λ h. absurd (cc);
          has_process = λ h. absurd (cc);
          has_proxy = λ h. absurd (cc);
          pinned = λ h. absurd (cc);
          awake = λ h. absurd (cc);
          off_slot = λ h. refl;
          no_process = λ h. ap (λ (s : SandboxState). s.process) here;
          no_proxy = λ h. ap (λ (s : SandboxState). s.proxy) here;
        })

module _ (h : Host) where
  pub stop_sandbox-IsValid :
      (others : List (Runtime → Runtime)) (id : String) (m : Runtime)
      → AllKeep others
      → IsValid m
      → IsValid (stop_sandbox h others id m).0
  unfolding stop_sandbox stop_begun
  stop_sandbox-IsValid others id m q v =
      after_begin (λ (r : Runtime × Option Error). IsValid r.0) id (stop_begun h)
        (begin_transition others id stopping m)
        (begin_transition-Began id stopping claims.1 others m q v) (λ n e u. u)
        (λ n a c. end-IsValid (stop_claimed-HasClaim h a id n c))

  pub handle_guest_death-IsValid :
      (others : List (Runtime → Runtime)) (a generation : ℕ) (m : Runtime)
      → AllKeep others
      → IsValid m
      → IsValid (handle_guest_death h others a generation m)
  unfolding handle_guest_death death_begun
  handle_guest_death-IsValid others a generation m q v =
      choose-IsValid ((m.heap a).generation == generation)
        (after_begin IsValid (m.heap a).id (death_begun h a generation)
          (begin_transition others (m.heap a).id stopping m)
          (begin_transition-Began (m.heap a).id stopping claims.1 others m q v) (λ n e u. u)
          (λ n b c. end-IsValid (
            choose-HasClaim ((b == a) && ((n.heap b).generation == generation))
              (died-HasClaim h b (m.heap a).id c) c)))
        v
