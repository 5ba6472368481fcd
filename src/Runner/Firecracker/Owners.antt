-- ===== src/Runner/Firecracker/Owners.antt =====
-- internal/runner/runtime/firecracker.ee/runtime.go: which sandbox owns which slot.
use n8n_sandbox_service.Base.{
  ℕ, zero, suc, ◌<◌, ◌≡◌, refl, ◌≢◌, ◌↔◌, inl, inr, String, Option, none, some, List, [], ◌∷◌,
  str_eq, eq_iff, arith, ◌==◌, if◌then◌else◌, length, ℤ, pos, negsuc, lookup, Bool-cases,
  Option-cases,
}
use n8n_sandbox_service.Runner.Firecracker.{
  Slot, SandboxState, Runtime, slot_owner, occupied, free_slot, assign,
}

pub slot_owner-assign :
    (slots : List Slot) (i j : ℕ) (k : String)
    → i < length slots
    → slot_owner j (assign i k slots) ≡ (if i == j then k else slot_owner j slots)
slot_owner-assign [] i j k h = absurd (omega arith)
slot_owner-assign (s ∷ l) zero zero k h = refl
slot_owner-assign (s ∷ l) zero (suc j) k h = ground arith
slot_owner-assign (s ∷ l) (suc i) zero k h = ground arith
slot_owner-assign (s ∷ l) (suc i) (suc j) k h = ground (arith, slot_owner-assign l i j k)

pub free_slot-lt :
    (slots : List Slot) (i : ℕ)
    → free_slot slots ≡ some i
    → (i < length slots) × (slot_owner i slots ≡ "")
unfolding free_slot
free_slot-lt [] i h = absurd (cc)
free_slot-lt (s ∷ l) i h = elim (Bool-cases (occupied s)) [
  | inl o ↦ elim (Option-cases (free_slot l)) [
    | inl none_free ↦ absurd (ground (arith))
    | inr (j, e) ↦ ground (arith, free_slot-lt l j)
  ]
  | inr f ↦ ground (arith, eq_iff s.sandbox_id "")
]

-- A slot outside the list has no owner.
pub slot_owner_range : (slots : List Slot) (i : ℕ) → slot_owner i slots ≢ "" → i < length slots
slot_owner_range [] i h = absurd (h refl)
slot_owner_range (s ∷ l) zero h = omega arith
slot_owner_range (s ∷ l) (suc i) h = omega (arith, slot_owner_range l i h)

-- Where a tracked sandbox is; -1 for one that is not tracked.
abbrev pub slot_at : Option ℕ → (ℕ → SandboxState) → ℤ
slot_at none heap = negsuc 0
slot_at (some a) heap = (heap a).slot

abbrev pub tracked_slot : String → Runtime → ℤ
tracked_slot k m = slot_at (lookup k m.sandboxes) m.heap

-- The owner of each slot is the sandbox that names it, and a sandbox that names a slot owns it.
abbrev pub OwnersMatch : (ℕ → String) → (String → ℤ) → Type 0
OwnersMatch owner at = (i : ℕ) (k : String) → k ≢ "" → (owner i ≡ k) ↔ (at k ≡ pos i)

abbrev pub owners : Runtime → ℕ → String
owners m i = slot_owner i m.slots

module _ {owner owner' : ℕ → String} {at at' : String → ℤ} (v : OwnersMatch owner at) where
  pub keep-OwnersMatch :
      ((i : ℕ) → owner' i ≡ owner i) → ((k : String) → at' k ≡ at k) → OwnersMatch owner' at'
  keep-OwnersMatch same_owner same_at i k ne = ground (arith, same_owner i, same_at k, v i k ne)

  module _ (k : String) where
    pub take-OwnersMatch :
        (i l : ℕ)
        → at k ≡ negsuc l
        → owner i ≡ ""
        → ((j : ℕ) → owner' j ≡ (if i == j then k else owner j))
        → ((o : String) → at' o ≡ (if str_eq k o then pos i else at o))
        → OwnersMatch owner' at'
    take-OwnersMatch i l before free owners_now at_now j o ne =
        ground (arith, owners_now j, at_now o, eq_iff k o, v j o ne, v i o ne)

    pub give-OwnersMatch :
        (l : ℕ)
        → ((j : ℕ) → owner' j ≡ (if str_eq (owner j) k then "" else owner j))
        → ((o : String) → at' o ≡ (if str_eq k o then negsuc l else at o))
        → OwnersMatch owner' at'
    give-OwnersMatch l owners_now at_now j o ne =
        ground (arith, owners_now j, at_now o, eq_iff k o, eq_iff (owner j) k, v j o ne, eq_iff o k)
