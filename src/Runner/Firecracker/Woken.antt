-- ===== src/Runner/Firecracker/Woken.antt =====
-- internal/runner/runtime/firecracker.ee/stop_wake.go: what a wake of a stopped sandbox leaves.
use n8n_sandbox_service.Base.{
  ℕ, ◌≡◌, refl, sym, ap, subst, ◌∙◌, inl, inr, String, Bool, true, false, Option, none, some, List,
  eq_iff, arith, ◌==◌, if◌then◌else◌, pos, negsuc, lookup, Bool-cases, Option-cases,
}
use n8n_sandbox_service.Runner.Firecracker.{
  Error, Slot, SandboxState, Runtime, write, slot_owner, free_slot, unclaimed, waking,
  set_transition, end_transition, claimed,
}
use n8n_sandbox_service.Runner.Firecracker.Owners.{owners, slot_owner-assign, free_slot-lt}
use n8n_sandbox_service.Runner.Firecracker.Keeping.{Keeps, heap-write}
use n8n_sandbox_service.Runner.Firecracker.Validity.{IsValid, has_slot}
use n8n_sandbox_service.Runner.Firecracker.Lifecycle.{give_back}
use n8n_sandbox_service.Runner.Firecracker.Handing.{
  Keeps-IsValid, id-ne-empty, here_slot, release-owners,
}
use n8n_sandbox_service.Runner.Firecracker.Keeping.{activate-IsMild, teardown-IsMild}
use n8n_sandbox_service.Runner.Firecracker.Machine.{Host, activate, teardown}
use n8n_sandbox_service.Runner.Firecracker.Claims.{
  begin_transition-claimed, set_transition-HasClaim, HasClaim, claims,
}
use n8n_sandbox_service.Runner.Firecracker.Lifecycle.{wake_claimed, ensure_running}
use n8n_sandbox_service.Runner.Firecracker.Lifecycle.{wake_begun}
use n8n_sandbox_service.Runner.Firecracker.Waking.{placed, reserve_wake_slot_free}
use n8n_sandbox_service.Runner.Firecracker.Outcomes.{give_back-heap}
use n8n_sandbox_service.Runner.Firecracker.Waking.{
  placed-here, active_busy, active_tracked, active-IsValid, off,
}

-- The sandbox runs on the slot i, which is its own.
pub record IsAwake (id : String) (a i : ℕ) (n : Runtime) : Type 0 where
  pub running : (n.heap a).running ≡ true
  pub awake : (n.heap a).stopped ≡ false
  pub slot : (n.heap a).slot ≡ pos i
  pub owner : slot_owner i n.slots ≡ id

-- The sandbox is stopped, without a slot, and every slot's owner is the one in `slots`.
pub record IsAsleep (a : ℕ) (slots : List Slot) (n : Runtime) : Type 0 where
  pub down : (n.heap a).running ≡ false
  pub stopped : (n.heap a).stopped ≡ true
  pub slot : has_slot (n.heap a).slot ≡ false
  pub owners_kept : (j : ℕ) → slot_owner j n.slots ≡ slot_owner j slots

abbrev pub Woken : String → ℕ → ℕ → List Slot → Runtime × Bool × Option Error → Type 0
Woken id a i slots (n, recovered, none) = IsAwake id a i n
Woken id a i slots (n, recovered, some e) = IsAsleep a slots n

ended_here :
    (a : ℕ) (n : Runtime)
    → (end_transition a n).heap a ≡ record (n.heap a) { transition = unclaimed }
ended_here a n = heap-write a (record (n.heap a) { transition = unclaimed }) n

module _ (slot_url : ℕ → String) (h : Host) (id : String) (a i : ℕ) (m : Runtime)
    (c : HasClaim id a m) (stopped : (m.heap a).stopped ≡ true)
    (free : free_slot m.slots ≡ some i) where
  abbrev p : Runtime
  p = placed slot_url h a i m

  abbrev active : Runtime
  active = (activate h a p).0

  kept : Keeps a p active
  kept = (activate-IsMild h).keeps p

  owner_active : (j : ℕ) → owners active j ≡ (if i == j then id else owners m j)
  owner_active j =
      kept.owned j
      ∙ (slot_owner-assign m.slots i j (m.heap a).id (free_slot-lt m.slots i free).0
          ∙ rw (c.valid.named id a c.tracked))

  module _ (up : (activate h a p).1 ≡ none) where
    abbrev woken : Runtime
    woken =
        end_transition a
          (write a (record (active.heap a) { running = true; stopped = false }) active)

    woken_here :
        woken.heap a
        ≡ record (active.heap a) { running = true; stopped = false; transition = unclaimed }
    woken_here =
        ended_here a (write a (record (active.heap a) { running = true; stopped = false }) active)
        ∙ ap (λ (x : SandboxState). let y : SandboxState = record x { transition = unclaimed } in y)
            (heap-write a (record (active.heap a) { running = true; stopped = false }) active)

    woken-IsAwake : IsAwake id a i woken
    woken-IsAwake = record {
      running = ap (λ (x : SandboxState). x.running) woken_here;
      awake = ap (λ (x : SandboxState). x.stopped) woken_here;
      slot =
          ap (λ (x : SandboxState). x.slot) woken_here
          ∙ (kept.slot
              ∙ ap (λ (x : SandboxState). x.slot) (placed-here slot_url h a id c stopped i));
      owner = owner_active i ∙ ground (arith);
    }

  abbrev torn : Runtime
  torn = (teardown h a active).0

  torn_kept : Keeps a active torn
  torn_kept = (teardown-IsMild h).keeps active

  torn-IsValid : IsValid torn
  torn-IsValid =
      Keeps-IsValid (active-IsValid slot_url h a id c stopped i free) id
        (active_tracked slot_url h a id c stopped i free)
        (λ e. absurd (active_busy slot_url h a id c stopped i free (sym torn_kept.transition ∙ e)))
        torn_kept

  torn_tracked : lookup id torn.sandboxes ≡ some a
  torn_tracked =
      subst (λ (l : List (String × ℕ)). lookup id l ≡ some a) (sym torn_kept.sandboxes)
        (active_tracked slot_url h a id c stopped i free)

  abbrev asleep : Runtime
  asleep = end_transition a (give_back a torn)

  asleep_here : asleep.heap a ≡ record (torn.heap a) {
    running = false;
    stopped = true;
    slot = negsuc 0;
    process = none;
    proxy = none;
    transition = unclaimed;
  }
  asleep_here =
      ended_here a (give_back a torn)
      ∙ ap (λ (x : SandboxState). let y : SandboxState = record x { transition = unclaimed } in y)
          (give_back-heap a torn)

  asleep-IsAsleep : IsAsleep a m.slots asleep
  unfolding give_back
  asleep-IsAsleep = record {
    down = ap (λ (x : SandboxState). x.running) asleep_here;
    stopped = ap (λ (x : SandboxState). x.stopped) asleep_here;
    slot = ap (λ (x : SandboxState). has_slot x.slot) asleep_here;
    owners_kept = λ j.
        release-owners torn-IsValid id torn_tracked j
        ∙ ground (
          arith,
          torn_kept.owned j,
          owner_active j,
          (free_slot-lt m.slots i free).1,
          eq_iff (owners torn j) id,
          c.valid.matched j id (id-ne-empty c.valid id c.tracked),
          here_slot c.valid id c.tracked,
          (off slot_url h a id c stopped).1,
        );
  }

  down : (m.heap a).running ≡ false
  down = elim (Bool-cases (m.heap a).running) [
    | inl up ↦ absurd (cc (stopped, c.settled.awake up))
    | inr e ↦ e
  ]

  wake_claimed_up :
      (activate h a p).1 ≡ none
      → wake_claimed slot_url h a m ≡ (
        write a (record (active.heap a) { running = true; stopped = false }) active,
        (m.heap a).must_cold_boot,
        none,
      )
  unfolding wake_claimed
  wake_claimed_up ok =
      rw (wake_claimed, down, stopped, reserve_wake_slot_free slot_url h a m i free, ok)

  wake_claimed_failed :
      (e : Error)
      → (activate h a p).1 ≡ some e
      → wake_claimed slot_url h a m ≡ (give_back a torn, (m.heap a).must_cold_boot, some e)
  unfolding wake_claimed
  wake_claimed_failed e bad =
      rw (wake_claimed, down, stopped, reserve_wake_slot_free slot_url h a m i free, bad)

  pub wake_begun-Woken :
      ((wake_begun slot_url h (m, claimed a)).1 ≡ (m.heap a).must_cold_boot)
      × Woken id a i m.slots (wake_begun slot_url h (m, claimed a))
  unfolding wake_begun
  wake_begun-Woken = elim (Option-cases (activate h a p).1) [
    | inl ok ↦ rw (wake_begun, wake_claimed_up ok) (refl, woken-IsAwake ok)
    | inr (e, bad) ↦ rw (wake_begun, wake_claimed_failed e bad) (refl, asleep-IsAsleep)
  ]

module _ (slot_url : ℕ → String) (h : Host) (others : List (Runtime → Runtime)) (id : String)
    (a i : ℕ) (m : Runtime) (v : IsValid m) (at : lookup id m.sandboxes ≡ some a) where
  -- The wake of a stopped sandbox that no operation has claimed, where a slot is free, reports a
  -- recovery exactly if the sandbox was pinned to a cold boot. Without an error the sandbox runs on
  -- the first free slot, and owns it; with one it is stopped, and every slot's owner is as before.
  pub ensure_running-Woken :
      (m.heap a).transition ≡ unclaimed
      → (m.heap a).stopped ≡ true
      → free_slot m.slots ≡ some i
      → ((ensure_running slot_url h others id m).1 ≡ (m.heap a).must_cold_boot)
        × Woken id a i m.slots (ensure_running slot_url h others id m)
  unfolding ensure_running
  ensure_running-Woken free stopped room =
      let n = set_transition a waking m in
      let here = heap-write a (record (m.heap a) { transition = waking }) m in
      let c = set_transition-HasClaim v id at (v.settled id a at free) waking claims.0 in
      let (recovered, woken) =
        wake_begun-Woken slot_url h id a i n c (ap (λ (x : SandboxState). x.stopped) here ∙ stopped)
          room in
      let e = ap (wake_begun slot_url h) (begin_transition-claimed others id waking m a at free) in
      (
        ap (λ (r : Runtime × Bool × Option Error). r.1) e
            ∙ (recovered ∙ ap (λ (x : SandboxState). x.must_cold_boot) here),
        subst (λ (r : Runtime × Bool × Option Error). Woken id a i m.slots r) (sym e) woken,
      )
