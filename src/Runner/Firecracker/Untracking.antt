-- ===== src/Runner/Firecracker/Untracking.antt =====
-- internal/runner/runtime/firecracker.ee/runtime.go: forgetting a sandbox (`untrackSandbox`).
use n8n_sandbox_service.Base.{
  ℕ, ◌≡◌, sym, ap, subst, ◌∙◌, String, true, none, some, List, str_eq, eq_refl, arith,
  if◌then◌else◌, negsuc, lookup, erase, lookup-erase,
}
use n8n_sandbox_service.Runner.Firecracker.{
  Slot, Runtime, slot_owner, release_owned, tracks, untrack_sandbox,
}
use n8n_sandbox_service.Runner.Firecracker.Owners.{owners, tracked_slot, give-OwnersMatch}
use n8n_sandbox_service.Runner.Firecracker.Validity.{IsValid}
use n8n_sandbox_service.Runner.Firecracker.Handing.{release-owners, released}

-- Forgetting a sandbox and giving its slot back.
module _ {n : Runtime} {a : ℕ} (v : IsValid n) (id : String)
    (tracked : lookup id n.sandboxes ≡ some a) where
  pub tracks_it : tracks a n ≡ true
  unfolding tracks
  tracks_it = rw (tracks, v.named id a tracked, tracked) (ground arith)

  pub untracked :
      untrack_sandbox a n ≡ release_owned a (record n { sandboxes = erase id n.sandboxes })
  unfolding untrack_sandbox
  untracked =
      rw (untrack_sandbox, tracks_it)
        (ap (λ (k : String). release_owned a (record n { sandboxes = erase k n.sandboxes }))
          (v.named id a tracked))

  same_slots :
      (release_owned a (record n { sandboxes = erase id n.sandboxes })).slots
      ≡ (release_owned a n).slots
  unfolding release_owned
  same_slots = ground arith

  module _ (w : Runtime) (gone : w.sandboxes ≡ erase id n.sandboxes) (same : w.heap ≡ n.heap)
      (next : w.next ≡ n.next) (slots : w.slots ≡ (release_owned a n).slots) where
    pub kept : (o : String) (b : ℕ) → lookup o w.sandboxes ≡ some b → lookup o n.sandboxes ≡ some b
    kept o b at = ground (arith, gone, at, lookup-erase id o n.sandboxes)

    slot_now :
        (o : String) → tracked_slot o w ≡ (if str_eq id o then negsuc 0 else tracked_slot o n)
    slot_now o = rw (gone, same, lookup-erase id o n.sandboxes) (ground arith)

    forgotten-IsValid : IsValid w
    forgotten-IsValid = record {
      matched =
          give-OwnersMatch v.matched id 0
            (λ j. ap (λ (l : List Slot). slot_owner j l) slots ∙ release-owners v id tracked j)
            slot_now;
      named = λ o b at. rw same (v.named o b (kept o b at));
      fresh = λ o b at. rw next (v.fresh o b (kept o b at));
      no_empty_id = ground (arith, gone, v.no_empty_id, lookup-erase id "" n.sandboxes);
      settled = λ o b at. rw same (v.settled o b (kept o b at));
    }

  pub untracked-IsValid : IsValid (untrack_sandbox a n)
  untracked-IsValid =
      let n' : Runtime = record n { sandboxes = erase id n.sandboxes } in
      let (gone, next, same) = released a n' in
      subst IsValid (sym untracked)
        (forgotten-IsValid (release_owned a n') gone same next same_slots)

  pub untracked-lookup : lookup id (untrack_sandbox a n).sandboxes ≡ none
  untracked-lookup =
      let n' : Runtime = record n { sandboxes = erase id n.sandboxes } in
      rw (untracked, (released a n').0, lookup-erase id id n.sandboxes, eq_refl id)

  pub untracked-owners :
      (j : ℕ) → owners (untrack_sandbox a n) j ≡ (if str_eq (owners n j) id then "" else owners n j)
  untracked-owners j =
      ap (λ (x : Runtime). owners x j) untracked
      ∙ (ap (λ (l : List Slot). slot_owner j l) same_slots ∙ release-owners v id tracked j)
