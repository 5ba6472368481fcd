-- ===== src/Runner/Firecracker/Handing.antt =====
-- internal/runner/runtime/firecracker.ee: slots that are taken and given back keep the invariant.
use n8n_sandbox_service.Base.{
  ℕ, ◌≡◌, refl, sym, ap, subst, ◌∙◌, ◌≢◌, ◌⊎◌, inl, inr, String, some, str_eq, eq_iff, arith,
  if◌then◌else◌, ℤ, pos, negsuc, lookup,
}
use n8n_sandbox_service.Runner.Firecracker.{
  SandboxState, Runtime, write, slot_owner, free_slot, assign, release_owned, unclaimed,
}
use n8n_sandbox_service.Runner.Firecracker.Owners.{
  owners, tracked_slot, keep-OwnersMatch, take-OwnersMatch, give-OwnersMatch, slot_owner-assign,
  slot_owner_range, free_slot-lt,
}
use n8n_sandbox_service.Runner.Firecracker.Keeping.{Keeps, heap-write, heap-write_other}
use n8n_sandbox_service.Runner.Firecracker.Validity.{
  IsSettled, IsValid, Frame, Keeps-Frame, Frame-trans, write-Frame, tracked_slot-Frame,
  Frame-IsValid,
}

ℤ-cases : (z : ℤ) → ((i : ℕ) × (z ≡ pos i)) ⊎ ((l : ℕ) × (z ≡ negsuc l))
ℤ-cases (pos i) = inl (i, refl)
ℤ-cases (negsuc l) = inr (l, refl)

-- What a release does: nothing but to the slots.
pub released :
    (a : ℕ) (m : Runtime)
    → ((release_owned a m).sandboxes ≡ m.sandboxes)
      × ((release_owned a m).next ≡ m.next)
      × ((release_owned a m).heap ≡ m.heap)
unfolding release_owned
released a m = ground arith

module _ {m : Runtime} {a : ℕ} (v : IsValid m) (k : String)
    (tracked : lookup k m.sandboxes ≡ some a) where
  pub id-ne-empty : k ≢ ""
  id-ne-empty e = cc (v.no_empty_id, tracked, e)

  pub here_slot : tracked_slot k m ≡ (m.heap a).slot
  here_slot = rw tracked

  module _ {n : Runtime} (settled : (n.heap a).transition ≡ unclaimed → IsSettled (n.heap a)) where
    pub Keeps-IsValid : Keeps a m n → IsValid n
    Keeps-IsValid keeps =
        let f = Keeps-Frame keeps in
        Frame-IsValid v f k tracked
          (keep-OwnersMatch v.matched keeps.owned (λ o.
            tracked_slot-Frame v f k tracked o ∙ ground (arith, eq_iff k o, here_slot, keeps.slot)))
          settled

  pub release-owners :
      (j : ℕ) → owners (release_owned a m) j ≡ (if str_eq (owners m j) k then "" else owners m j)
  unfolding release_owned
  release-owners j = elim (ℤ-cases (m.heap a).slot) [
    | inl (i, at) ↦
        let mine = (v.matched i k id-ne-empty).1 (here_slot ∙ at) in
        let inside = slot_owner_range m.slots i (λ e. id-ne-empty (sym mine ∙ e)) in
        let held =
          (eq_iff (slot_owner i m.slots) (m.heap a).id).1 (mine ∙ sym (v.named k a tracked)) in
        rw (release_owned, at, held)
          (slot_owner-assign m.slots i j "" inside
            ∙ ground (arith, mine, here_slot, eq_iff (owners m j) k, v.matched j k id-ne-empty))
    | inr (l, at) ↦
        rw (release_owned, at)
          (ground (arith, here_slot, eq_iff (owners m j) k, v.matched j k id-ne-empty))
  ]

  release-Frame : Frame a m (release_owned a m)
  release-Frame = record {
    sandboxes = (released a m).0;
    next = (released a m).1;
    elsewhere = λ b ne. ap (λ (f : ℕ → SandboxState). f b) (released a m).2;
    id = ap (λ (f : ℕ → SandboxState). (f a).id) (released a m).2;
  }

  -- The sandbox gives up its slot, and its record becomes `s`.
  module _ (s : SandboxState) (same_id : s.id ≡ (m.heap a).id) (away : s.slot ≡ negsuc 0)
      (settled : s.transition ≡ unclaimed → IsSettled s) where
    pub give_write-IsValid : IsValid (write a s (release_owned a m))
    give_write-IsValid =
        let n = write a s (release_owned a m) in
        let f : Frame a m n =
          Frame-trans release-Frame
            (write-Frame a s (release_owned a m) (same_id ∙ sym release-Frame.id)) in
        let here = heap-write a s (release_owned a m) in
        Frame-IsValid v f k tracked
          (give-OwnersMatch v.matched k 0 release-owners
            (λ o. tracked_slot-Frame v f k tracked o ∙ ground (arith, here, away)))
          (subst (λ (x : SandboxState). x.transition ≡ unclaimed → IsSettled x) (sym here) settled)

  -- The sandbox takes the free slot i.
  module _ (i l : ℕ) (s : SandboxState) (same_id : s.id ≡ (m.heap a).id)
      (before : (m.heap a).slot ≡ negsuc l) (after : s.slot ≡ pos i)
      (found : free_slot m.slots ≡ some i) (settled : s.transition ≡ unclaimed → IsSettled s) where
    pub take_write-IsValid : IsValid (write a s (record m { slots = assign i k m.slots }))
    take_write-IsValid =
        let m' : Runtime = record m { slots = assign i k m.slots } in
        let f : Frame a m (write a s m') = record {
          sandboxes = refl;
          next = refl;
          elsewhere = λ b ne. heap-write_other a b s m' ne;
          id = ap (λ (x : SandboxState). x.id) (heap-write a s m') ∙ same_id;
        } in
        let here = heap-write a s m' in
        let (inside, free) = free_slot-lt m.slots i found in
        Frame-IsValid v f k tracked
          (take-OwnersMatch v.matched k i l (here_slot ∙ before) free
            (λ j. slot_owner-assign m.slots i j k inside)
            (λ o. tracked_slot-Frame v f k tracked o ∙ ground (arith, here, after)))
          (subst (λ (x : SandboxState). x.transition ≡ unclaimed → IsSettled x) (sym here) settled)

  -- The sandbox's record becomes `s`, on the same slot.
  pub write-IsValid :
      (s : SandboxState)
      → s.id ≡ (m.heap a).id
      → s.slot ≡ (m.heap a).slot
      → (s.transition ≡ unclaimed → IsSettled s)
      → IsValid (write a s m)
  write-IsValid s same_id same_slot settled =
      let f = write-Frame a s m same_id in
      let here = heap-write a s m in
      Frame-IsValid v f k tracked
        (keep-OwnersMatch v.matched (λ i. refl)
          (λ o.
            tracked_slot-Frame v f k tracked o
            ∙ ground (arith, eq_iff k o, here_slot, here, same_slot)))
        (subst (λ (x : SandboxState). x.transition ≡ unclaimed → IsSettled x) (sym here) settled)
