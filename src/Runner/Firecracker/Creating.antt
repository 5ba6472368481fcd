-- ===== src/Runner/Firecracker/Creating.antt =====
-- internal/runner/runtime/firecracker.ee/runtime.go: a create keeps the invariant, and what it
-- leaves.
use n8n_sandbox_service.Base.{
  ℕ, ◌≡◌, refl, sym, ap, subst, ◌∙◌, ◌≢◌, ◌⊎◌, inl, inr, String, Bool, true, false, Option, none,
  some, List, eq_iff, eq_refl, arith, ltb, if◌then◌else◌, length, pos, lookup, lookup-insert,
  Bool-cases, Option-cases,
}
use n8n_sandbox_service.Runner.Firecracker.{
  Error, during, capacity_exhausted, already_exists, id_too_short, SandboxState, Runtime, write,
  occupied_slots, free_slot, reserve_slot, unclaimed, creating, Claim, claimed, refused,
}
use n8n_sandbox_service.Runner.Firecracker.Owners.{owners, slot_owner-assign, free_slot-lt}
use n8n_sandbox_service.Runner.Firecracker.Keeping.{Keeps, heap-write}
use n8n_sandbox_service.Runner.Firecracker.Validity.{IsValid, has_slot}
use n8n_sandbox_service.Runner.Firecracker.Handing.{Keeps-IsValid, write-IsValid}
use n8n_sandbox_service.Runner.Firecracker.Keeping.{activate-IsMild, IsMild, >>-IsMild, call-IsMild}
use n8n_sandbox_service.Runner.Firecracker.Machine.{Host, activate, call, ◌>>◌}
use n8n_sandbox_service.Runner.Firecracker.Lifecycle.{
  cleanup_create, build_sandbox, reserve_sandbox, track_sandbox, create_claimed, create_reserved,
  create_sandbox, byte_length,
}
use n8n_sandbox_service.Runner.Firecracker.Starting.{IsUp, activate-IsUp, call-IsUp}
use n8n_sandbox_service.Runner.Firecracker.Deleting.{
  cleanup_create-IsValid, cleanup_create-lookup, cleanup_create-owners,
}
use n8n_sandbox_service.Runner.Firecracker.Waking.{reserve_slot_full, reserve_slot_free}
use n8n_sandbox_service.Runner.Firecracker.Adding.{with_sandbox, added-IsValid}

module _ (slot_url : ℕ → String) (h : Host) (id : String) (block : Bool) where
  abbrev new_state : ℕ → SandboxState
  new_state i = record {
    id = id;
    slot = pos i;
    daemon_url = slot_url i;
    block_egress = block;
    process = none;
    proxy = none;
    running = false;
    stopped = false;
    transition = creating;
    generation = 0;
    must_cold_boot = false;
  }

  -- A reservation either changes nothing, or adds the sandbox on the first free slot.
  abbrev Reserved : Runtime → Runtime × Claim → Type 0
  Reserved m r =
      ((e : Error) × (r ≡ (m, refused e)))
      ⊎ ((i : ℕ) × (free_slot m.slots ≡ some i)
          × (lookup id m.sandboxes ≡ none)
          × (r ≡ (with_sandbox m id i (new_state i), claimed m.next)))

  track_sandbox-Reserved :
      (m : Runtime)
      → lookup id m.sandboxes ≡ none
      → Reserved m (track_sandbox slot_url id block (reserve_slot id m))
  unfolding track_sandbox
  track_sandbox-Reserved m absent = elim (Option-cases (free_slot m.slots)) [
    | inl full ↦ inl (
      during "firecracker" capacity_exhausted,
      ap (track_sandbox slot_url id block) (reserve_slot_full id m full),
    )
    | inr (i, free) ↦
        inr (i, free, absent, ap (track_sandbox slot_url id block) (reserve_slot_free id m i free))
  ]

  choose-Reserved :
      (m : Runtime) (b : Bool) (p q : Runtime × Claim)
      → (b ≡ true → Reserved m p)
      → (b ≡ false → Reserved m q)
      → Reserved m (if b then p else q)
  choose-Reserved m true p q f g = f refl
  choose-Reserved m false p q f g = g refl

  reserve_sandbox-Reserved : (m : Runtime) → Reserved m (reserve_sandbox slot_url h id block m)
  unfolding reserve_sandbox
  reserve_sandbox-Reserved m = elim (Option-cases h.load_boot_params) [
    | inr (e, bad) ↦ rw (reserve_sandbox, bad) (inl (e, refl))
    | inl params ↦ elim (Option-cases h.stat_template_kernel) [
      | inr (e, bad) ↦ rw (reserve_sandbox, params, bad) (inl (e, refl))
      | inl kernel ↦ elim (Option-cases (lookup id m.sandboxes)) [
        | inr (a, taken) ↦ rw (reserve_sandbox, params, kernel, taken) (inl (already_exists, refl))
        | inl absent ↦ elim (Option-cases h.create_disk_space) [
          | inl roomy ↦
              let eq : reserve_sandbox slot_url h id block m
                  ≡ track_sandbox slot_url id block (reserve_slot id m) =
                rw (reserve_sandbox, params, kernel, absent, roomy) in
              subst (Reserved m) (sym eq) (track_sandbox-Reserved m absent)
          | inr (e, full) ↦
              let eq : reserve_sandbox slot_url h id block m ≡ (
                  if ltb (occupied_slots m.slots) (length m.slots)
                  then (m, refused e)
                  else track_sandbox slot_url id block (reserve_slot id m)) =
                rw (reserve_sandbox, params, kernel, absent, full) in
              subst (Reserved m) (sym eq) (
                choose-Reserved m (ltb (occupied_slots m.slots) (length m.slots)) _ _
                  (λ b. inl (e, refl)) (λ b. track_sandbox-Reserved m absent))
        ]
      ]
    ]
  ]

  build_sandbox-IsMild : (a : ℕ) → IsMild a (build_sandbox h a)
  unfolding build_sandbox
  build_sandbox-IsMild a = >>-IsMild (call-IsMild "clone sandbox rootfs" h.clone_rootfs) (
      >>-IsMild (call-IsMild "clone sandbox snapshot assets" h.clone_golden_snapshot)
        (activate-IsMild h))

  build_sandbox-IsUp :
      (a : ℕ) (m : Runtime) → (build_sandbox h a m).1 ≡ none → IsUp ((build_sandbox h a m).0.heap a)
  unfolding build_sandbox
  build_sandbox-IsUp a m ok =
      call-IsUp a _ h.clone_rootfs
        (call "clone sandbox snapshot assets" h.clone_golden_snapshot >> activate h a)
        (call-IsUp a _ h.clone_golden_snapshot (activate h a) (activate-IsUp h a)) m ok

  -- What is built for a reserved sandbox.
  module _ {m : Runtime} (v : IsValid m) (i : ℕ) (ne : id ≢ "") (free : free_slot m.slots ≡ some i)
      (absent : lookup id m.sandboxes ≡ none) where
    abbrev reserved : Runtime
    reserved = with_sandbox m id i (new_state i)

    abbrev built : Runtime
    built = (build_sandbox h m.next reserved).0

    reserved-IsValid : IsValid reserved
    reserved-IsValid =
        added-IsValid v id i (new_state i) ne absent free refl refl (λ e. absurd (cc))

    built_keeps : Keeps m.next reserved built
    built_keeps = (build_sandbox-IsMild m.next).keeps reserved

    reserved_here : reserved.heap m.next ≡ new_state i
    reserved_here = ground arith

    built_tracked : lookup id built.sandboxes ≡ some m.next
    built_tracked =
        ap (λ (l : List (String × ℕ)). lookup id l) built_keeps.sandboxes
        ∙ rw (lookup-insert id id m.next m.sandboxes, eq_refl id)

    built_awake : (built.heap m.next).stopped ≡ false
    built_awake = built_keeps.stopped ∙ ap (λ (x : SandboxState). x.stopped) reserved_here

    built_off : (built.heap m.next).stopped ≡ true → has_slot (built.heap m.next).slot ≡ false
    built_off e = absurd (cc (built_awake))

    built-IsValid : IsValid built
    built-IsValid =
        Keeps-IsValid reserved-IsValid id (rw (lookup-insert id id m.next m.sandboxes, eq_refl id))
          (λ e. absurd (cc (built_keeps.transition, reserved_here))) built_keeps

    created-IsValid :
        (build_sandbox h m.next reserved).1 ≡ none
        → IsValid (
            write m.next
              (record (built.heap m.next) { running = true; transition = unclaimed })
              built)
    created-IsValid ok =
        let up = build_sandbox-IsUp m.next reserved ok in
        let at : (built.heap m.next).slot ≡ pos i =
          built_keeps.slot ∙ ap (λ (x : SandboxState). x.slot) reserved_here in
        write-IsValid built-IsValid id built_tracked
          (record (built.heap m.next) { running = true; transition = unclaimed }) refl refl
          λ e. record {
            on_slot = λ r. ap has_slot at;
            has_process = λ r. up.has_process;
            has_proxy = λ r. up.has_proxy;
            pinned = λ r. up.pinned;
            awake = λ r. built_awake;
            off_slot = λ r. absurd (cc (built_awake));
            no_process = λ r. absurd (cc);
            no_proxy = λ r. absurd (cc);
          }

    -- A create that fails leaves every slot's owner as it was.
    cleaned-owners : (j : ℕ) → owners (cleanup_create h m.next built) j ≡ owners m j
    cleaned-owners j =
        cleanup_create-owners h m.next id built-IsValid built_tracked built_off j
        ∙ ground (
          arith,
          built_keeps.owned j,
          slot_owner-assign m.slots i j id (free_slot-lt m.slots i free).0,
          (free_slot-lt m.slots i free).1,
          eq_iff (owners built j) id,
          v.matched j id ne,
          absent,
        )

    created_running :
        ((write m.next
            (record (built.heap m.next) { running = true; transition = unclaimed })
            built).heap
          m.next).running
        ≡ true
    created_running =
        ap (λ (x : SandboxState). x.running)
          (heap-write m.next (record (built.heap m.next) { running = true; transition = unclaimed })
            built)

  -- What a create does.
  abbrev pub Created : Runtime → Runtime × Option Error → Type 0
  Created m (n, some e) =
      IsValid n
      × ((j : ℕ) → owners n j ≡ owners m j)
      × (lookup id n.sandboxes ≡ lookup id m.sandboxes)
  Created m (n, none) =
      IsValid n × ((a : ℕ) × (lookup id n.sandboxes ≡ some a) × ((n.heap a).running ≡ true))

  module _ {m : Runtime} (v : IsValid m) (i : ℕ) (ne : id ≢ "") (free : free_slot m.slots ≡ some i)
      (absent : lookup id m.sandboxes ≡ none) where
    create_claimed-Created : Created m (create_claimed h m.next (with_sandbox m id i (new_state i)))
    unfolding create_claimed
    create_claimed-Created =
        let w = with_sandbox m id i (new_state i) in
        let n = (build_sandbox h m.next w).0 in
        elim (Option-cases (build_sandbox h m.next w).1) [
          | inl ok ↦
              let eq : create_claimed h m.next w ≡ (
                write m.next (record (n.heap m.next) { running = true; transition = unclaimed }) n,
                none,
              ) =
                rw (create_claimed, ok) in
              subst (Created m) (sym eq) (
                created-IsValid v i ne free absent ok,
                (m.next, built_tracked v i ne free absent, created_running v i ne free absent),
              )
          | inr (e, bad) ↦
              let eq : create_claimed h m.next w ≡ (cleanup_create h m.next n, some e) =
                rw (create_claimed, bad) in
              subst (Created m) (sym eq) (
                cleanup_create-IsValid h m.next id (built-IsValid v i ne free absent)
                    (built_tracked v i ne free absent) (built_off v i ne free absent),
                cleaned-owners v i ne free absent,
                cleanup_create-lookup h m.next id (built-IsValid v i ne free absent)
                      (built_tracked v i ne free absent) (built_off v i ne free absent)
                    ∙ sym absent,
              )
        ]

  short_id : id ≡ "" → ltb (byte_length id) 12 ≡ true
  unfolding byte_length
  short_id e = rw e

  -- A create that fails leaves every slot's owner, and what is tracked under the id, as they were, even
  -- where the cleanup fails; one that succeeds leaves a running sandbox under the id. Both leave a
  -- valid state.
  pub create_sandbox-Created :
      (m : Runtime) → IsValid m → Created m (create_sandbox slot_url h id block m)
  unfolding create_sandbox create_reserved
  create_sandbox-Created m v = elim (Bool-cases (ltb (byte_length id) 12)) [
    | inl short ↦
        let eq : create_sandbox slot_url h id block m ≡ (m, some id_too_short) =
          rw (create_sandbox, short) in
        subst (Created m) (sym eq) (v, λ j. refl, refl)
    | inr long ↦ elim (reserve_sandbox-Reserved m) [
      | inl (e, same) ↦
          let eq : create_sandbox slot_url h id block m ≡ (m, some e) =
            rw (create_sandbox, long) (ap (create_reserved h) same) in
          subst (Created m) (sym eq) (v, λ j. refl, refl)
      | inr (i, free, absent, same) ↦
          let ne : id ≢ "" = λ e. cc (short_id e, long) in
          let eq : create_sandbox slot_url h id block m
              ≡ create_claimed h m.next (with_sandbox m id i (new_state i)) =
            rw (create_sandbox, long) (ap (create_reserved h) same) in
          subst (Created m) (sym eq) (create_claimed-Created v i ne free absent)
    ]
  ]
