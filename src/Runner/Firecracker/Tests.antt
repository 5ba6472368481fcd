-- ===== src/Runner/Firecracker/Tests.antt =====
-- Runs of internal/runner/runtime/firecracker.ee, and the theorems at concrete inputs.
use n8n_sandbox_service.Base.{
  ℕ, ◌≡◌, ◌≢◌, ◌↔◌, ◌<◌, refl, true, false, String, [], none, some, arith, pos, lookup, insert,
  eq_iff,
}
use n8n_sandbox_service.Runner.Firecracker.{
  failed, Runtime, new_runtime, release_slot, release_owned, reserve_slot, free_slot, tracks,
  begin_transition, url, no_url, not_running, daemon_url_of, capacity, occupied_slots,
  count_stopped,
}
use n8n_sandbox_service.Runner.Firecracker.Machine.{
  Host, ◌>>◌, call, label_error, wire, build_namespace, setup_network, clear_slot_network,
  is_holder, abandoned, publish_process, publish_proxy, start_guest, activate, kill_error,
  clear_network, teardown,
}
use n8n_sandbox_service.Runner.Firecracker.Lifecycle.{
  byte_length, give_back, build_sandbox, create_claimed, create_reserved, create_sandbox,
  delete_sandbox, stop_claimed, stop_begun, stop_sandbox, handle_guest_death, track_sandbox,
  reserve_sandbox, ensure_running,
}
use n8n_sandbox_service.Runner.Firecracker.Validity.{IsValid}
use n8n_sandbox_service.Runner.Firecracker.Safety.{
  Reach, start, create, stop, runtime-IsValid, slots_apart,
}
use n8n_sandbox_service.Runner.Firecracker.Outcomes.{
  handle_guest_death-teardown, stop_sandbox-pin, SnapshotWritten,
}
use n8n_sandbox_service.Runner.Firecracker.Woken.{ensure_running-Woken, Woken}
use n8n_sandbox_service.Runner.Firecracker.Deleting.{delete_sandbox-Deleted, Deleted}
use n8n_sandbox_service.Runner.Firecracker.Creating.{create_sandbox-Created, Created}

abbrev slot_url : ℕ → String
slot_url i = "http://127.0.0.1:9000"

abbrev host : Host
host = record {
  load_boot_params = none;
  stat_template_kernel = none;
  create_disk_space = none;
  clone_rootfs = none;
  clone_golden_snapshot = none;
  prepare_jail = none;
  host_nat = none;
  setup_script = none;
  block_egress_script = none;
  start_jailer = none;
  process = 41;
  wait_for_socket = none;
  verify_kernel_pin = none;
  cold_boot = none;
  load_snapshot = none;
  new_proxy = none;
  proxy = 42;
  probe_daemon = none;
  snapshot_disk_space = none;
  pause_vm = none;
  create_snapshot = none;
  resume_vm = none;
  stop_proxy = none;
  kill_process = none;
  cleanup_host = none;
  cleanup_script = none;
  remove_data_dir = none;
}

abbrev a_full_disk : Host
a_full_disk = record host {
  create_snapshot = some (failed "no space");
  resume_vm = some (failed "dead");
}

abbrev one : Runtime
one = (create_sandbox slot_url host "sandbox-000001" false (new_runtime (pos 2))).0

abbrev two : Runtime
two = (create_sandbox slot_url host "sandbox-000002" true one).0

abbrev asleep : Runtime
asleep = (stop_sandbox host [] "sandbox-000001" two).0

one-Reach : Reach slot_url (pos 2) one
one-Reach = create host "sandbox-000001" false start

two-Reach : Reach slot_url (pos 2) two
two-Reach = create host "sandbox-000002" true one-Reach

two-up : daemon_url_of "sandbox-000002" two ≡ url "http://127.0.0.1:9000"
unfolding daemon_url_of create_sandbox create_reserved create_claimed reserve_sandbox track_sandbox
    reserve_slot free_slot byte_length build_sandbox activate setup_network build_namespace call
    ◌>>◌ wire label_error publish_process publish_proxy start_guest abandoned tracks lookup insert
    new_runtime
two-up = refl

asleep-test : daemon_url_of "sandbox-000001" asleep ≡ no_url not_running
unfolding daemon_url_of create_sandbox create_reserved create_claimed reserve_sandbox track_sandbox
    reserve_slot free_slot byte_length build_sandbox activate setup_network build_namespace call
    ◌>>◌ wire label_error publish_process publish_proxy start_guest abandoned tracks lookup insert
    new_runtime stop_sandbox stop_begun stop_claimed teardown give_back release_owned release_slot
    clear_network clear_slot_network is_holder kill_error begin_transition
asleep-test = refl

asleep-capacity : capacity asleep ≡ record { used = 1; total = 2; stopped = 1 }
unfolding capacity occupied_slots count_stopped create_sandbox create_reserved create_claimed
    reserve_sandbox track_sandbox reserve_slot free_slot byte_length build_sandbox activate
    setup_network build_namespace call ◌>>◌ wire label_error publish_process publish_proxy
    start_guest abandoned tracks lookup insert new_runtime stop_sandbox stop_begun stop_claimed
    teardown give_back release_owned release_slot clear_network clear_slot_network is_holder
    kill_error begin_transition
asleep-capacity = refl

runtime-IsValid_example : IsValid two
runtime-IsValid_example = runtime-IsValid two-Reach

ids_differ : ◌≢◌ {A = String} "sandbox-000001" "sandbox-000002"
ids_differ = ground (arith, eq_iff "sandbox-000001" "sandbox-000002")

slots_apart_example : (◌≢◌ {A = ℕ} 0 1) × (0 < 2) × (1 < 2)
unfolding create_sandbox create_reserved create_claimed reserve_sandbox track_sandbox reserve_slot
    free_slot byte_length build_sandbox activate setup_network build_namespace call ◌>>◌ wire
    label_error publish_process publish_proxy start_guest abandoned tracks lookup insert new_runtime
slots_apart_example =
    slots_apart two-Reach "sandbox-000001" "sandbox-000002" 0 1 refl refl 0 1 ids_differ refl refl

create_sandbox-Created_example :
    Created slot_url a_full_disk "sandbox-000002" true one
      (create_sandbox slot_url a_full_disk "sandbox-000002" true one)
create_sandbox-Created_example =
    create_sandbox-Created slot_url a_full_disk "sandbox-000002" true one
      (runtime-IsValid one-Reach)

handle_guest_death-teardown_example :
    handle_guest_death host [] 0 0 (teardown host 0 one).0 ≡ (teardown host 0 one).0
unfolding create_sandbox create_reserved create_claimed reserve_sandbox track_sandbox reserve_slot
    free_slot byte_length build_sandbox activate setup_network build_namespace call ◌>>◌ wire
    label_error publish_process publish_proxy start_guest abandoned tracks lookup insert new_runtime
handle_guest_death-teardown_example = handle_guest_death-teardown host host 0 [] one

stop_sandbox-pin_example :
    (((stop_sandbox a_full_disk [] "sandbox-000001" two).0.heap 0).must_cold_boot ≡ false)
    ↔ SnapshotWritten a_full_disk 0
unfolding create_sandbox create_reserved create_claimed reserve_sandbox track_sandbox reserve_slot
    free_slot byte_length build_sandbox activate setup_network build_namespace call ◌>>◌ wire
    label_error publish_process publish_proxy start_guest abandoned tracks lookup insert new_runtime
stop_sandbox-pin_example =
    stop_sandbox-pin a_full_disk [] "sandbox-000001" 0 two (runtime-IsValid two-Reach) refl refl
      refl

asleep-Reach : Reach slot_url (pos 2) asleep
asleep-Reach = stop host [] "sandbox-000001" tt two-Reach

ensure_running-Woken_example :
    ((ensure_running slot_url host [] "sandbox-000001" asleep).1 ≡ false)
    × Woken "sandbox-000001" 0 0 asleep.slots
        (ensure_running slot_url host [] "sandbox-000001" asleep)
unfolding create_sandbox create_reserved create_claimed reserve_sandbox track_sandbox reserve_slot
    free_slot byte_length build_sandbox activate setup_network build_namespace call ◌>>◌ wire
    label_error publish_process publish_proxy start_guest abandoned tracks lookup insert new_runtime
    stop_sandbox stop_begun stop_claimed teardown give_back release_owned release_slot clear_network
    clear_slot_network is_holder kill_error begin_transition
ensure_running-Woken_example =
    ensure_running-Woken slot_url host [] "sandbox-000001" 0 0 asleep (runtime-IsValid asleep-Reach)
      refl refl refl refl

delete_sandbox-Deleted_example :
    Deleted "sandbox-000001" 0 two (delete_sandbox host [] "sandbox-000001" two)
unfolding create_sandbox create_reserved create_claimed reserve_sandbox track_sandbox reserve_slot
    free_slot byte_length build_sandbox activate setup_network build_namespace call ◌>>◌ wire
    label_error publish_process publish_proxy start_guest abandoned tracks lookup insert new_runtime
delete_sandbox-Deleted_example =
    delete_sandbox-Deleted host [] "sandbox-000001" 0 two (runtime-IsValid two-Reach) refl refl
