-- ===== src/Runner/Firecracker/Lifecycle.antt =====
-- internal/runner/runtime/firecracker.ee/runtime.go, stop_wake.go, crash.go: the operations. Each
-- takes the host's answers `h` and, where it claims a sandbox, what happens while it waits. The
-- information on the host's name and address that a create returns, and the metrics, are left out.
use Prim.Native.Char.{code}
use n8n_sandbox_service.Base.{
  ℕ, suc, ◌+◌, ◌==◌, String, Bool, true, false, Option, none, some, List, ◌++◌, pos, negsuc, not,
  if◌then◌else◌, str_eq, ltb, length, lookup, insert, is_some, ◌&&◌,
}
use n8n_sandbox_service.Runner.Firecracker.{
  Error, failed, during, not_running, already_exists, capacity_exhausted, id_too_short, unclaimed,
  creating, stopping, waking, deleting, Runtime, write, slot_owner, occupied_slots, reserve_slot,
  release_owned, tracks, untrack_sandbox, set_transition, Claim, claimed, refused, begin_transition,
  end_transition,
}
use n8n_sandbox_service.Runner.Firecracker.Machine.{
  Host, Act, ◌>>◌, call, activate, teardown, wrap, setup_network, errors_of, join_errors,
}

-- `len` of a text in UTF-8.
unfoldable pub byte_length : String → ℕ
byte_length String.[] = 0
byte_length (String.◌∷◌ c s) =
    let n = code c in
    (if ltb n 128 then 1 else if ltb n 2048 then 2 else if ltb n 65536 then 3 else 4)
    + byte_length s

-- The sandbox gives up its microVM and its slot.
unfoldable pub give_back : ℕ → Runtime → Runtime
give_back a m =
    write a
      (record (m.heap a) {
        running = false;
        stopped = true;
        slot = negsuc 0;
        process = none;
        proxy = none;
      })
      (release_owned a m)

-- The same after a guest's death, whose teardown has taken the handles.
unfoldable pub give_back_dead : ℕ → Runtime → Runtime
give_back_dead a m =
    write a (record (m.heap a) { running = false; stopped = true; slot = negsuc 0 })
      (release_owned a m)

abbrev pub mark_deleting : ℕ → Runtime → Runtime
mark_deleting a m = write a (record (m.heap a) { running = false; transition = deleting }) m

module _ (h : Host) where
  unfoldable pub delete_marked : ℕ → Act
  delete_marked a m =
      let torn = teardown h a m in
      elim (join_errors
        (errors_of torn.1 ++ errors_of (wrap "remove sandbox data dir" h.remove_data_dir))) [
          | some e ↦ (if tracks a torn.0 then set_transition a unclaimed torn.0 else torn.0, some e)
          | none ↦ (untrack_sandbox a torn.0, none)
        ]

  -- `deleteSandbox`: a delete that fails keeps the sandbox and its slot.
  unfoldable pub delete_state : ℕ → Act
  delete_state a m = delete_marked a (if tracks a m then mark_deleting a m else m)

  -- A create that fails gives its slot back even where its cleanup fails.
  unfoldable pub cleanup_create : ℕ → Runtime → Runtime
  cleanup_create a m =
      let cleaned = delete_state a m in
      if is_some cleaned.1 then untrack_sandbox a cleaned.0 else cleaned.0

  unfoldable pub build_sandbox : ℕ → Act
  build_sandbox a = do
    call "clone sandbox rootfs" h.clone_rootfs
    call "clone sandbox snapshot assets" h.clone_golden_snapshot
    activate h a

  unfoldable pub create_claimed : ℕ → Act
  create_claimed a m =
      let built = build_sandbox a m in
      elim built.1 [
        | some e ↦ (cleanup_create a built.0, some e)
        | none ↦ (
          write a (record (built.0.heap a) { running = true; transition = unclaimed }) built.0,
          none,
        )
      ]

  unfoldable pub create_reserved : Runtime × Claim → Runtime × Option Error
  create_reserved (m, refused e) = (m, some e)
  create_reserved (m, claimed a) = create_claimed a m

  unfoldable pub delete_begun : Runtime × Claim → Runtime × Option Error
  delete_begun (m, refused e) = (m, some e)
  delete_begun (m, claimed a) = delete_state a m

  unfoldable pub delete_sandbox : List (Runtime → Runtime) → String → Act
  delete_sandbox others id m = delete_begun (begin_transition others id deleting m)

  unfoldable pub resume_after_failed_stop : ℕ → Runtime → Runtime
  resume_after_failed_stop a m = if is_some h.resume_vm then give_back a (teardown h a m).0 else m

  -- `StopSandbox` under its claim. Only here does a sandbox lose its pin to a cold boot.
  unfoldable pub stop_claimed : ℕ → Act
  stop_claimed a m =
      if (m.heap a).stopped
      then (m, none)
      else if not (m.heap a).running
      then (m, some not_running)
      else elim h.snapshot_disk_space [
        | some e ↦ (m, some e)
        | none ↦ elim h.pause_vm [
          | some e ↦ (resume_after_failed_stop a m, some (during "pause firecracker vm" e))
          | none ↦ elim h.create_snapshot [
            | some e ↦ (resume_after_failed_stop a m, some (during "create firecracker snapshot" e))
            | none ↦
                let torn =
                  teardown h a (write a (record (m.heap a) { must_cold_boot = false }) m) in
                (give_back a torn.0, torn.1)
          ]
        ]
      ]

  unfoldable pub stop_begun : Runtime × Claim → Runtime × Option Error
  stop_begun (m, refused e) = (m, some e)
  stop_begun (m, claimed a) = let s = stop_claimed a m in (end_transition a s.0, s.1)

  unfoldable pub stop_sandbox : List (Runtime → Runtime) → String → Act
  stop_sandbox others id m = stop_begun (begin_transition others id stopping m)

  -- The body of `wireSlots` for one slot.
  unfoldable pub wire_slot : ℕ → Runtime → Runtime
  wire_slot i m =
      if str_eq (slot_owner i m.slots) "" then (setup_network h (pos i) false m).0 else m

  -- The claimed sandbox can be another one, or another microVM of the same.
  unfoldable pub death_begun : ℕ → ℕ → Runtime × Claim → Runtime
  death_begun died generation (m, refused e) = m
  death_begun died generation (m, claimed a) = end_transition a (
      if (a == died) && ((m.heap a).generation == generation)
      then give_back_dead a (teardown h a m).0
      else m)

  -- `handleGuestDeath` of the microVM that was started at `generation`.
  unfoldable pub handle_guest_death : List (Runtime → Runtime) → ℕ → ℕ → Runtime → Runtime
  handle_guest_death others died generation m =
      if (m.heap died).generation == generation
      then death_begun died generation (begin_transition others (m.heap died).id stopping m)
      else m

-- `net.JoinHostPort` of the configured address and of the slot's port is `slot_url`.
module _ (slot_url : ℕ → String) where
  unfoldable pub track_sandbox : String → Bool → Runtime × Option ℕ → Runtime × Claim
  track_sandbox id block (m, none) = (m, refused (during "firecracker" capacity_exhausted))
  track_sandbox id block (m, some i) = (
    record m {
      sandboxes = insert id m.next m.sandboxes;
      heap = λ b.
          if b == m.next
          then record {
            id = id;
            slot = pos i;
            daemon_url = slot_url i;
            block_egress = block;
            process = none;
            proxy = none;
            running = false;
            stopped = false;
            transition = creating;
            generation = 0;
            must_cold_boot = false;
          }
          else m.heap b;
      next = suc m.next;
    },
    claimed m.next,
  )

  unfoldable pub reserve_wake_slot : ℕ → Act
  reserve_wake_slot a m =
      let reserved = reserve_slot (m.heap a).id m in
      elim reserved.1 [
        | none ↦ (reserved.0, some (failed "firecracker runner capacity exhausted"))
        | some i ↦
            (write a (record (m.heap a) { slot = pos i; daemon_url = slot_url i }) reserved.0, none)
      ]

module _ (slot_url : ℕ → String) (h : Host) where
  unfoldable pub reserve_sandbox : String → Bool → Runtime → Runtime × Claim
  reserve_sandbox id block m = elim h.load_boot_params [
    | some e ↦ (m, refused e)
    | none ↦ elim h.stat_template_kernel [
      | some e ↦ (m, refused e)
      | none ↦
          if is_some (lookup id m.sandboxes)
          then (m, refused already_exists)
          else elim h.create_disk_space [
            | none ↦ track_sandbox slot_url id block (reserve_slot id m)
            | some e ↦
                if ltb (occupied_slots m.slots) (length m.slots)
                then (m, refused e)
                else track_sandbox slot_url id block (reserve_slot id m)
          ]
    ]
  ]

  unfoldable pub create_sandbox : String → Bool → Act
  create_sandbox id block m =
      if ltb (byte_length id) 12
      then (m, some id_too_short)
      else create_reserved h (reserve_sandbox id block m)

  -- `ensureSandboxRunningOnce` under its claim: whether this was a recovery, and the error.
  unfoldable pub wake_claimed : ℕ → Runtime → Runtime × Bool × Option Error
  wake_claimed a m =
      let recovering = (m.heap a).must_cold_boot in
      let reserved = reserve_wake_slot slot_url a m in
      let active = activate h a reserved.0 in
      if (m.heap a).running
      then (m, false, none)
      else if not (m.heap a).stopped
      then (m, false, some not_running)
      else if is_some reserved.1
      then (reserved.0, recovering, reserved.1)
      else if is_some active.1
      then (give_back a (teardown h a active.0).0, recovering, active.1)
      else (
        write a (record (active.0.heap a) { running = true; stopped = false }) active.0,
        recovering,
        none,
      )

  unfoldable pub wake_begun : Runtime × Claim → Runtime × Bool × Option Error
  wake_begun (m, refused e) = (m, false, some e)
  wake_begun (m, claimed a) = let w = wake_claimed a m in (end_transition a w.0, w.1, w.2)

  unfoldable pub ensure_running :
      List (Runtime → Runtime) → String → Runtime → Runtime × Bool × Option Error
  ensure_running others id m = wake_begun (begin_transition others id waking m)
