-- ===== src/Runner/Firecracker/Safety.antt =====
-- internal/runner/runtime/firecracker.ee: every state that the operations lead to is valid, and no
-- two sandboxes share a slot.
use n8n_sandbox_service.Base.{
  ℕ, zero, suc, ◌<◌, ◌≡◌, refl, sym, ap, ◌∙◌, ◌≢◌, inl, inr, String, Bool, false, Option, none,
  some, List, str_eq, arith, length, ℤ, pos, lookup, Bool-cases,
}
use n8n_sandbox_service.Runner.Firecracker.{Error, Runtime, slot_owner}
use n8n_sandbox_service.Runner.Firecracker.Owners.{owners, keep-OwnersMatch, slot_owner_range}
use n8n_sandbox_service.Runner.Firecracker.Keeping.{Keeps}
use n8n_sandbox_service.Runner.Firecracker.Validity.{IsValid}
use n8n_sandbox_service.Runner.Firecracker.Machine.{Host}
use n8n_sandbox_service.Runner.Firecracker.Claims.{AllKeep}
use n8n_sandbox_service.Runner.Firecracker.Lifecycle.{
  ensure_running, delete_sandbox, create_sandbox,
}
use n8n_sandbox_service.Runner.Firecracker.{new_runtime, zero_slots, max_int32}
use n8n_sandbox_service.Runner.Firecracker.Lifecycle.{stop_sandbox, handle_guest_death, wire_slot}
use n8n_sandbox_service.Runner.Firecracker.Keeping.{setup_keeps}
use n8n_sandbox_service.Runner.Firecracker.Starting.{setup_aside}
use n8n_sandbox_service.Runner.Firecracker.Stopping.{
  stop_sandbox-IsValid, handle_guest_death-IsValid,
}
use n8n_sandbox_service.Runner.Firecracker.Waking.{ensure_running-IsValid}
use n8n_sandbox_service.Runner.Firecracker.Deleting.{delete_sandbox-IsValid}
use n8n_sandbox_service.Runner.Firecracker.Creating.{Created, create_sandbox-Created}

-- The runtime's states: each operation with whatever the host answers, and with whatever operations
-- run while it waits for the sandbox.
pub data Reach (slot_url : ℕ → String) (total : ℤ) : Runtime → Type 0 where
  start : Reach slot_url total (new_runtime total)
  create :
      (h : Host) (id : String) (block : Bool) {m : Runtime}
      → Reach slot_url total m
      → Reach slot_url total (create_sandbox slot_url h id block m).0
  stop :
      (h : Host) (others : List (Runtime → Runtime)) (id : String) {m : Runtime}
      → AllKeep others
      → Reach slot_url total m
      → Reach slot_url total (stop_sandbox h others id m).0
  wake :
      (h : Host) (others : List (Runtime → Runtime)) (id : String) {m : Runtime}
      → AllKeep others
      → Reach slot_url total m
      → Reach slot_url total (ensure_running slot_url h others id m).0
  delete :
      (h : Host) (others : List (Runtime → Runtime)) (id : String) {m : Runtime}
      → AllKeep others
      → Reach slot_url total m
      → Reach slot_url total (delete_sandbox h others id m).0
  death :
      (h : Host) (others : List (Runtime → Runtime)) (a generation : ℕ) {m : Runtime}
      → AllKeep others
      → Reach slot_url total m
      → Reach slot_url total (handle_guest_death h others a generation m)
  wire :
      (h : Host) (i : ℕ) {m : Runtime}
      → Reach slot_url total m
      → Reach slot_url total (wire_slot h i m)

owner-zero_slots : (n i : ℕ) → slot_owner i (zero_slots n) ≡ ""
owner-zero_slots zero i = refl
owner-zero_slots (suc n) zero = refl
owner-zero_slots (suc n) (suc i) = owner-zero_slots n i

new_runtime-IsValid : (total : ℤ) → IsValid (new_runtime total)
unfolding new_runtime lookup
new_runtime-IsValid total = record {
  matched = λ i k ne. ground (arith, owner-zero_slots (max_int32 total) i);
  named = λ k a at. absurd (cc);
  fresh = λ k a at. absurd (cc);
  no_empty_id = refl;
  settled = λ k a at. absurd (cc);
}

Created-IsValid :
    (slot_url : ℕ → String) (h : Host) (id : String) (block : Bool) (m : Runtime)
    (r : Runtime × Option Error)
    → Created slot_url h id block m r
    → IsValid r.0
Created-IsValid slot_url h id block m (n, none) c = c.0
Created-IsValid slot_url h id block m (n, some e) c = c.0

rewired-IsValid : (m n : Runtime) → IsValid m → n.heap ≡ m.heap → Keeps 0 m n → IsValid n
rewired-IsValid m n v same k = record {
  matched = keep-OwnersMatch v.matched k.owned (λ o. rw (k.sandboxes, same));
  named = λ o b at.
      rw same (v.named o b (ap (λ (l : List (String × ℕ)). lookup o l) (sym k.sandboxes) ∙ at));
  fresh = λ o b at.
      rw k.next (v.fresh o b (ap (λ (l : List (String × ℕ)). lookup o l) (sym k.sandboxes) ∙ at));
  no_empty_id = ap (λ (l : List (String × ℕ)). lookup "" l) k.sandboxes ∙ v.no_empty_id;
  settled = λ o b at.
      rw same (v.settled o b (ap (λ (l : List (String × ℕ)). lookup o l) (sym k.sandboxes) ∙ at));
}

wire_slot-IsValid : (h : Host) (i : ℕ) (m : Runtime) → IsValid m → IsValid (wire_slot h i m)
unfolding wire_slot
wire_slot-IsValid h i m v = elim (Bool-cases (str_eq (slot_owner i m.slots) "")) [
  | inl free ↦
      rw (wire_slot, free)
        (rewired-IsValid m _ v (setup_aside h (pos i) false m) (setup_keeps h (pos i) false m))
  | inr taken ↦ rw (wire_slot, taken) v
]

-- A tracked sandbox with a slot owns it.
owned_by :
    {m : Runtime} (v : IsValid m) (k : String) (a i : ℕ)
    → lookup k m.sandboxes ≡ some a
    → (m.heap a).slot ≡ pos i
    → (owners m i ≡ k) × (i < length m.slots)
owned_by {m} v k a i at p =
    let ne : k ≢ "" = λ e. cc (v.no_empty_id) in
    let mine = (v.matched i k ne).1 (rw at p) in
    (mine, slot_owner_range m.slots i (λ e. ne (sym mine ∙ e)))

module _ {slot_url : ℕ → String} {total : ℤ} where
  -- Every state that a sequence of operations leads to is valid: a slot's owner is the tracked sandbox
  -- that is on it, and a sandbox that no operation has claimed is settled.
  pub runtime-IsValid : {m : Runtime} → Reach slot_url total m → IsValid m
  runtime-IsValid start = new_runtime-IsValid total
  runtime-IsValid (create h id block {m} r) =
      Created-IsValid slot_url h id block m _
        (create_sandbox-Created slot_url h id block m (runtime-IsValid r))
  runtime-IsValid (stop h others id {m} q r) =
      stop_sandbox-IsValid h others id m q (runtime-IsValid r)
  runtime-IsValid (wake h others id {m} q r) =
      ensure_running-IsValid slot_url h others id m q (runtime-IsValid r)
  runtime-IsValid (delete h others id {m} q r) =
      delete_sandbox-IsValid h others id m q (runtime-IsValid r)
  runtime-IsValid (death h others a g {m} q r) =
      handle_guest_death-IsValid h others a g m q (runtime-IsValid r)
  runtime-IsValid (wire h i {m} r) = wire_slot-IsValid h i m (runtime-IsValid r)

  module _ {m : Runtime} (r : Reach slot_url total m) (k l : String) (a b : ℕ)
      (at : lookup k m.sandboxes ≡ some a) (bt : lookup l m.sandboxes ≡ some b) where
    -- In every state that a sequence of operations leads to, two tracked sandboxes with
    -- different ids are never on one slot, and a slot that a sandbox is on is in range.
    pub slots_apart :
        (i j : ℕ)
        → k ≢ l
        → (m.heap a).slot ≡ pos i
        → (m.heap b).slot ≡ pos j
        → (i ≢ j) × (i < length m.slots) × (j < length m.slots)
    slots_apart i j ne p q =
        let v = runtime-IsValid r in
        let (mine, here) = owned_by v k a i at p in
        let (yours, there) = owned_by v l b j bt q in
        (λ e. ne (sym mine ∙ (ap (λ (x : ℕ). owners m x) e ∙ yours)), here, there)
