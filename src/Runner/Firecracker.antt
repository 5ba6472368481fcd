-- ===== src/Runner/Firecracker.antt =====
-- internal/runner/runtime/firecracker.ee/runtime.go, stop_wake.go: the runtime's slots, the tracked
-- sandboxes and the claims on them. A `*sandboxState` is shared by the map and the operations that
-- hold it, so it lives in a heap and the map holds addresses. The host paths that are derived from
-- the id, and the boot parameters, are read by host commands only and are left out.
pub mod Machine
pub mod Lifecycle
pub mod Owners
pub mod Keeping
pub mod Starting
pub mod Validity
pub mod Handing
pub mod Claims
pub mod Stopping
pub mod Waking
pub mod Untracking
pub mod Deleting
pub mod Adding
pub mod Creating
pub mod Safety
pub mod Outcomes
pub mod Woken
mod Tests
use n8n_sandbox_service.Base.{
  ℕ, zero, suc, ◌+◌, ◌==◌, String, Bool, true, false, Option, none, some, List, [], ◌∷◌, ℤ, pos,
  negsuc, str_eq, not, if◌then◌else◌, ◌&&◌, length, get_elem?, set, lookup, insert, erase,
}

pub data Error : Type 0 where
  not_found not_running network_unavailable already_exists capacity_exhausted : Error
  id_too_short wait_expired activation_abandoned panicked : Error
  -- `os.ErrProcessDone`.
  process_done : Error
  -- What a host command reports, and `fmt.Errorf` with a prefix and `%w`.
  failed : String → Error
  during : String → Error → Error

pub data Transition : Type 0 where
  unclaimed creating stopping waking deleting : Transition

pub record Slot : Type 0 where
  pub sandbox_id : String
  pub wired : Bool

pub record SandboxState : Type 0 where
  pub id : String
  pub slot : ℤ
  pub daemon_url : String
  pub block_egress : Bool
  -- The handles of the microVM's process and of its proxy.
  pub process : Option ℕ
  pub proxy : Option ℕ
  pub running : Bool
  pub stopped : Bool
  pub transition : Transition
  pub generation : ℕ
  pub must_cold_boot : Bool

pub record Runtime : Type 0 where
  pub slots : List Slot
  pub sandboxes : List (String × ℕ)
  pub heap : ℕ → SandboxState
  pub next : ℕ
  -- A token in `wireCh`.
  pub wire_pending : Bool

abbrev pub zero_slots : ℕ → List Slot
zero_slots zero = []
zero_slots (suc n) = record { sandbox_id = ""; wired = false } ∷ zero_slots n

-- `maxInt32(n, 0)`.
abbrev pub max_int32 : ℤ → ℕ
max_int32 (pos n) = n
max_int32 (negsuc n) = 0

abbrev pub no_sandbox : SandboxState
no_sandbox = record {
  id = "";
  slot = pos 0;
  daemon_url = "";
  block_egress = false;
  process = none;
  proxy = none;
  running = false;
  stopped = false;
  transition = unclaimed;
  generation = 0;
  must_cold_boot = false;
}

unfoldable pub new_runtime : ℤ → Runtime
new_runtime capacity_total = record {
  slots = zero_slots (max_int32 capacity_total);
  sandboxes = [];
  heap = λ a. no_sandbox;
  next = 0;
  wire_pending = false;
}

abbrev pub is_unclaimed : Transition → Bool
is_unclaimed unclaimed = true
is_unclaimed _ = false

abbrev pub is_deleting : Transition → Bool
is_deleting deleting = true
is_deleting _ = false

abbrev pub write : ℕ → SandboxState → Runtime → Runtime
write a s m = record m { heap = λ b. if b == a then s else m.heap b }

-- The owner of a slot; "" is a free slot.
abbrev owner_of : Option Slot → String
owner_of none = ""
owner_of (some s) = s.sandbox_id

abbrev pub slot_owner : ℕ → List Slot → String
slot_owner i slots = owner_of (get_elem? slots i)

abbrev pub occupied : Slot → Bool
occupied s = not (str_eq s.sandbox_id "")

unfoldable pub occupied_slots : List Slot → ℕ
occupied_slots [] = 0
occupied_slots (s ∷ l) = (if occupied s then 1 else 0) + occupied_slots l

-- The first free slot.
unfoldable pub free_slot : List Slot → Option ℕ
free_slot [] = none
free_slot (s ∷ l) =
    if occupied s then elim (free_slot l) [ none ↦ none | some i ↦ some (suc i) ] else some 0

abbrev pub assign : ℕ → String → List Slot → List Slot
assign i owner [] = []
assign zero owner (s ∷ l) = record s { sandbox_id = owner } ∷ l
assign (suc i) owner (s ∷ l) = s ∷ assign i owner l

unfoldable pub reserve_slot : String → Runtime → Runtime × Option ℕ
reserve_slot id m = elim (free_slot m.slots) [
  | none ↦ (m, none)
  | some i ↦ (record m { slots = assign i id m.slots }, some i)
]

unfoldable pub release_slot : ℕ → Runtime → Runtime
release_slot i m = record m { slots = assign i "" m.slots; wire_pending = true }

-- The end of a stop, of a failed wake and of a guest's death: the slot goes back if it is still this
-- sandbox's. A sandbox without a slot has -1.
unfoldable pub release_owned : ℕ → Runtime → Runtime
unfolding release_slot
release_owned a m = elim (m.heap a).slot [
  | negsuc _ ↦ m
  | pos i ↦ if str_eq (slot_owner i m.slots) (m.heap a).id then release_slot i m else m
]

unfoldable pub tracks : ℕ → Runtime → Bool
tracks a m = elim (lookup (m.heap a).id m.sandboxes) [ none ↦ false | some b ↦ b == a ]

unfoldable pub untrack_sandbox : ℕ → Runtime → Runtime
unfolding tracks release_owned
untrack_sandbox a m =
    if tracks a m
    then release_owned a (record m { sandboxes = erase (m.heap a).id m.sandboxes })
    else m

abbrev pub set_transition : ℕ → Transition → Runtime → Runtime
set_transition a t m = write a (record (m.heap a) { transition = t }) m

pub data Claim : Type 0 where
  claimed : ℕ → Claim
  refused : Error → Claim

-- `beginTransition`: between two looks at the sandbox, `others` is what other operations do; it ends
-- with the wait's budget.
unfoldable pub begin_transition :
    List (Runtime → Runtime) → String → Transition → Runtime → Runtime × Claim
begin_transition [] id want m = elim (lookup id m.sandboxes) [
  | none ↦ (m, refused not_found)
  | some a ↦
      if is_deleting (m.heap a).transition
      then (m, refused not_found)
      else if is_unclaimed (m.heap a).transition
      then (set_transition a want m, claimed a)
      else (m, refused wait_expired)
]
begin_transition (f ∷ others) id want m = elim (lookup id m.sandboxes) [
  | none ↦ (m, refused not_found)
  | some a ↦
      let waited = begin_transition others id want (f m) in
      if is_deleting (m.heap a).transition
      then (m, refused not_found)
      else if is_unclaimed (m.heap a).transition
      then (set_transition a want m, claimed a)
      else waited
]

abbrev pub end_transition : ℕ → Runtime → Runtime
end_transition a m = set_transition a unclaimed m

pub record Capacity : Type 0 where
  pub used : ℕ
  pub total : ℕ
  pub stopped : ℕ

unfoldable pub count_stopped : (ℕ → SandboxState) → List (String × ℕ) → ℕ
count_stopped heap [] = 0
count_stopped heap ((id, a) ∷ l) =
    (if not (is_deleting (heap a).transition) && (heap a).stopped then 1 else 0)
    + count_stopped heap l

unfoldable pub capacity : Runtime → Capacity
unfolding occupied_slots count_stopped
capacity m = record {
  used = occupied_slots m.slots;
  total = length m.slots;
  stopped = count_stopped m.heap m.sandboxes;
}

pub data Url : Type 0 where
  url : String → Url
  no_url : Error → Url

unfoldable pub daemon_url_of : String → Runtime → Url
daemon_url_of id m = elim (lookup id m.sandboxes) [
  | none ↦ no_url not_found
  | some a ↦
      let s = m.heap a in
      if is_deleting s.transition
      then no_url not_found
      else if not (is_unclaimed s.transition)
      then no_url not_running
      else if s.stopped
      then no_url not_running
      else if not s.running
      then no_url not_running
      else if str_eq s.daemon_url ""
      then no_url network_unavailable
      else url s.daemon_url
]
