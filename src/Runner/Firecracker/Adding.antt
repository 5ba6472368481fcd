-- ===== src/Runner/Firecracker/Adding.antt =====
-- internal/runner/runtime/firecracker.ee/runtime.go: the invariant around a new sandbox on a free slot.
use n8n_sandbox_service.Base.{
  ℕ, suc, ◌<◌, ◌≡◌, sym, ap, subst, ◌∙◌, ◌≢◌, ◌⊎◌, inl, inr, String, none, some, str_eq, eq_iff,
  arith, ◌==◌, if◌then◌else◌, pos, lookup, insert, lookup-insert, Bool-cases, Option-cases,
}
use n8n_sandbox_service.Runner.Firecracker.{SandboxState, Runtime, free_slot, assign, unclaimed}
use n8n_sandbox_service.Runner.Firecracker.Owners.{
  tracked_slot, take-OwnersMatch, slot_owner-assign, free_slot-lt,
}
use n8n_sandbox_service.Runner.Firecracker.Validity.{IsSettled, IsValid}

abbrev pub with_sandbox : Runtime → String → ℕ → SandboxState → Runtime
with_sandbox m id i s = record m {
  slots = assign i id m.slots;
  sandboxes = insert id m.next m.sandboxes;
  heap = λ b. if b == m.next then s else m.heap b;
  next = suc m.next;
}

-- A new sandbox at a new address takes the free slot i.
module _ {m : Runtime} (v : IsValid m) (id : String) (i : ℕ) (s : SandboxState) where
  abbrev added : Runtime
  added = with_sandbox m id i s

  module _ (ne : id ≢ "") (absent : lookup id m.sandboxes ≡ none)
      (free : free_slot m.slots ≡ some i) (named : s.id ≡ id) (at : s.slot ≡ pos i)
      (busy : s.transition ≢ unclaimed) where
    added-heap : added.heap m.next ≡ s
    added-heap = ground arith

    -- A sandbox that was tracked before is at another address.
    added-other : (b : ℕ) → b < m.next → added.heap b ≡ m.heap b
    added-other b lt = ground arith

    added-lookup :
        (o : String) (b : ℕ)
        → lookup o added.sandboxes ≡ some b
        → ((o ≡ id) × (b ≡ m.next)) ⊎ ((lookup o m.sandboxes ≡ some b) × (added.heap b ≡ m.heap b))
    added-lookup o b at' =
        let e = sym (lookup-insert id o m.next m.sandboxes) ∙ at' in
        elim (Bool-cases (str_eq id o)) [
          | inl same ↦ inl (sym ((eq_iff id o).0 same), ground (arith))
          | inr other ↦
              let before : lookup o m.sandboxes ≡ some b = ground arith in
              inr (before, added-other b (v.fresh o b before))
        ]

    added-slot :
        (o : String) → tracked_slot o added ≡ (if str_eq id o then pos i else tracked_slot o m)
    added-slot o = elim (Bool-cases (str_eq id o)) [
      | inl same ↦
          rw (lookup-insert id o m.next m.sandboxes, same)
            (ap (λ (x : SandboxState). x.slot) added-heap ∙ at)
      | inr other ↦ elim (Option-cases (lookup o m.sandboxes)) [
        | inl nothing ↦ rw (lookup-insert id o m.next m.sandboxes, other, nothing)
        | inr (b, there) ↦
            rw (lookup-insert id o m.next m.sandboxes, other, there)
              (ap (λ (x : SandboxState). x.slot) (added-other b (v.fresh o b there)))
      ]
    ]

    pub added-IsValid : IsValid added
    added-IsValid = record {
      matched =
          take-OwnersMatch v.matched id i 0 (rw absent) (free_slot-lt m.slots i free).1
            (λ j. slot_owner-assign m.slots i j id (free_slot-lt m.slots i free).0) added-slot;
      named = λ o b there. elim (added-lookup o b there) [
        | inl (e, here) ↦ rw (here, e) (ap (λ (x : SandboxState). x.id) added-heap ∙ named)
        | inr (before, same) ↦ ap (λ (x : SandboxState). x.id) same ∙ v.named o b before
      ];
      fresh = λ o b there. elim (added-lookup o b there) [
        | inl (e, here) ↦ omega (arith)
        | inr (before, same) ↦ omega (arith, v.fresh o b before)
      ];
      no_empty_id =
          rw (lookup-insert id "" m.next m.sandboxes) (ground (arith, eq_iff id "", v.no_empty_id));
      settled = λ o b there calm. elim (added-lookup o b there) [
        | inl (e, here) ↦ absurd (
            busy (
              sym (ap (λ (x : SandboxState). x.transition) (ap added.heap here ∙ added-heap))
              ∙ calm))
        | inr (before, same) ↦
            subst IsSettled (sym same)
              (v.settled o b before (sym (ap (λ (x : SandboxState). x.transition) same) ∙ calm))
      ];
    }
