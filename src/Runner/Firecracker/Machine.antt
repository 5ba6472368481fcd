-- ===== src/Runner/Firecracker/Machine.antt =====
-- internal/runner/runtime/firecracker.ee/stop_wake.go, network_wirer.go: starting and tearing down
-- one microVM. What the host commands and the Firecracker API answer is the argument `h`; they can
-- fail at each call. No step of another operation comes between the steps of one operation here.
use n8n_sandbox_service.Base.{
  ℕ, zero, suc, ◌+◌, ◌==◌, ◌%◌, ◌^◌, String, Bool, true, false, Option, none, some, List, [], ◌∷◌,
  ◌++◌, ℤ, pos, negsuc, str_eq, not, if◌then◌else◌, ◌&&◌, ◌||◌, get_elem?, lookup, is_some,
}
use n8n_sandbox_service.Runner.Firecracker.{
  Error, failed, process_done, during, activation_abandoned, panicked, Slot, Runtime, write,
  slot_owner, tracks, is_deleting,
}

-- What each call of the host answers: an error or none.
pub record Host : Type 0 where
  pub load_boot_params : Option Error
  pub stat_template_kernel : Option Error
  pub create_disk_space : Option Error
  pub clone_rootfs : Option Error
  pub clone_golden_snapshot : Option Error
  pub prepare_jail : Option Error
  pub host_nat : Option Error
  pub setup_script : Option Error
  pub block_egress_script : Option Error
  pub start_jailer : Option Error
  pub process : ℕ
  pub wait_for_socket : Option Error
  pub verify_kernel_pin : Option Error
  pub cold_boot : Option Error
  pub load_snapshot : Option Error
  pub new_proxy : Option Error
  pub proxy : ℕ
  pub probe_daemon : Option Error
  pub snapshot_disk_space : Option Error
  pub pause_vm : Option Error
  pub create_snapshot : Option Error
  pub resume_vm : Option Error
  pub stop_proxy : Option Error
  pub kill_process : Option Error
  pub cleanup_host : Option Error
  pub cleanup_script : Option Error
  pub remove_data_dir : Option Error

-- A step that can fail, and a step after it.
abbrev pub Act : Type 0
Act = Runtime → Runtime × Option Error

infixl 5 ◌>>◌
unfoldable pub ◌>>◌ : Act → Act → Act
◌>>◌ f g m = elim (f m).1 [ none ↦ g (f m).0 | some e ↦ ((f m).0, some e) ]

abbrev pub wrap : String → Option Error → Option Error
wrap label none = none
wrap label (some e) = some (during label e)

abbrev pub pass : Act
pass m = (m, none)

unfoldable pub call : String → Option Error → Act
call label r m = (m, wrap label r)

unfoldable pub label_error : String → Act → Act
label_error label f m = ((f m).0, wrap label (f m).1)

-- `joinErrors`: the first.
abbrev pub join_errors : List Error → Option Error
join_errors [] = none
join_errors (e ∷ l) = some e

abbrev pub errors_of : Option Error → List Error
errors_of none = []
errors_of (some e) = e ∷ []

abbrev pub set_wired : ℕ → Bool → List Slot → List Slot
set_wired i b [] = []
set_wired zero b (s ∷ l) = record s { wired = b } ∷ l
set_wired (suc i) b (s ∷ l) = s ∷ set_wired i b l

unfoldable pub wire : ℕ → Bool → Act
wire i b m = (record m { slots = set_wired i b m.slots }, none)

-- The slot holds the sandbox's id, and no other sandbox is tracked under it.
unfoldable pub is_holder : ℕ → String → Runtime → Bool
is_holder a owner m = elim (lookup (m.heap a).id m.sandboxes) [
  | none ↦ str_eq owner (m.heap a).id
  | some b ↦ str_eq owner (m.heap a).id && b == a
]

module _ (h : Host) where
  unfoldable pub build_namespace : ℕ → Act
  build_namespace i = do
    call "host NAT not configured" h.host_nat
    λ m. (m, h.setup_script)
    wire i true

  -- `setupNetwork`. An index that is not a slot panics.
  unfoldable pub setup_network : ℤ → Bool → Act
  setup_network (negsuc _) block m = (m, some panicked)
  setup_network (pos i) block m = elim (get_elem? m.slots i) [
    | none ↦ (m, some panicked)
    | some s ↦
        let build = if s.wired then pass else build_namespace i in
        let block_it = if block then call "block egress" h.block_egress_script else pass in
        (build >> block_it) m
  ]

  -- `clearSlotNetwork`; the owner is none where `Shutdown` clears the free slots.
  unfoldable pub clear_slot_network : ℕ → Option ℕ → Act
  clear_slot_network i caller m =
      let owner = slot_owner i m.slots in
      let ours : Bool = elim caller [ none ↦ false | some a ↦ is_holder a owner m ] in
      if str_eq owner "" || ours
      then (record m { slots = set_wired i false m.slots }, h.cleanup_script)
      else (m, none)

  module _ (a : ℕ) where
    unfoldable pub abandoned : Runtime → Bool
    abandoned m = not (tracks a m) || is_deleting (m.heap a).transition

    unfoldable pub publish_process : Act
    publish_process m =
        let m' = write a (record (m.heap a) { process = some h.process }) m in
        (m', if abandoned m' then some activation_abandoned else none)

    unfoldable pub publish_proxy : Act
    publish_proxy m =
        let m' = write a (record (m.heap a) { proxy = some h.proxy }) m in
        (m', if abandoned m' then some activation_abandoned else none)

    -- `startGuest`: the pin is set before the guest runs, whichever way it is started.
    unfoldable pub start_guest : Act
    start_guest m =
        let cold = (m.heap a).must_cold_boot in
        let m' = write a (record (m.heap a) { must_cold_boot = true }) m in
        let boot =
          (λ (n : Runtime). (n, h.verify_kernel_pin))
          >> call "cold boot firecracker vm" h.cold_boot in
        (if cold then boot else call "load firecracker snapshot" h.load_snapshot) m'

    -- `activateSandboxVM`.
    unfoldable pub activate : Act
    activate = do
      call "prepare firecracker jail" h.prepare_jail
      label_error "setup firecracker network"
          (λ m. setup_network (m.heap a).slot (m.heap a).block_egress m)
      call "start firecracker jailer" h.start_jailer
      publish_process
      call "wait for firecracker socket" h.wait_for_socket
      start_guest
      call "start firecracker daemon proxy" h.new_proxy
      publish_proxy
      call "connect to firecracker daemon" h.probe_daemon

    -- `containsProcessFinished`: such an error of the kill is no error.
    unfoldable pub kill_error : Option Error → List Error
    kill_error none = []
    kill_error (some (failed text)) =
        if str_eq text "process already finished"
        then []
        else during "kill firecracker process" (failed text) ∷ []
    kill_error (some process_done) = []
    kill_error (some e) = during "kill firecracker process" e ∷ []

    unfoldable pub clear_network : ℤ → Act
    clear_network (negsuc _) m = (m, none)
    clear_network (pos i) m = clear_slot_network i (some a) m

    -- `teardownRunningVM`, whose text on a slot also has its number: the generation rises and the handles are taken before anything is killed.
    unfoldable pub teardown : Act
    teardown m =
        let s = m.heap a in
        let taken =
          write a
            (record s { generation = (s.generation + 1) % 2 ^ 64; proxy = none; process = none })
            m in
        let cleared = clear_network s.slot taken in
        let proxy_errors =
          if is_some s.proxy then errors_of (wrap "stop daemon proxy" h.stop_proxy) else [] in
        let kill_errors = if is_some s.process then kill_error h.kill_process else [] in
        (
          cleared.0,
          join_errors (
              proxy_errors
              ++ (kill_errors
                  ++ (errors_of (wrap "cleanup firecracker host state" h.cleanup_host)
                      ++ errors_of (wrap "clear slot network" cleared.1)))),
        )
