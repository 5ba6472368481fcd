-- ===== src/Runner/Firecracker/Keeping.antt =====
-- internal/runner/runtime/firecracker.ee/stop_wake.go: what starting and tearing down one microVM
-- leaves as it was.
use n8n_sandbox_service.Base.{
  ℕ, zero, suc, ◌+◌, ◌%◌, ◌^◌, ◌≡◌, refl, ap, ◌∙◌, ◌≢◌, inl, inr, String, Bool, true, false, Option,
  none, some, List, [], ◌∷◌, arith, if◌then◌else◌, length, get_elem?, ℤ, pos, negsuc, Option-cases,
}
use n8n_sandbox_service.Runner.Firecracker.{Error, Slot, SandboxState, Runtime, write, slot_owner}
use n8n_sandbox_service.Runner.Firecracker.Owners.{owners}
use n8n_sandbox_service.Runner.Firecracker.Machine.{
  Host, Act, ◌>>◌, call, wire, set_wired, label_error, build_namespace, setup_network,
  clear_slot_network, publish_process, publish_proxy, start_guest, activate, clear_network,
  teardown,
}

-- Everything but the handles, the pin and the generation of the sandbox at `a`.
pub record Keeps (a : ℕ) (m n : Runtime) : Type 0 where
  pub sandboxes : n.sandboxes ≡ m.sandboxes
  pub next : n.next ≡ m.next
  pub elsewhere : (b : ℕ) → b ≢ a → n.heap b ≡ m.heap b
  pub owned : (i : ℕ) → owners n i ≡ owners m i
  pub total : length n.slots ≡ length m.slots
  pub id : (n.heap a).id ≡ (m.heap a).id
  pub slot : (n.heap a).slot ≡ (m.heap a).slot
  pub daemon_url : (n.heap a).daemon_url ≡ (m.heap a).daemon_url
  pub running : (n.heap a).running ≡ (m.heap a).running
  pub stopped : (n.heap a).stopped ≡ (m.heap a).stopped
  pub transition : (n.heap a).transition ≡ (m.heap a).transition

pub Keeps-refl : (a : ℕ) (m : Runtime) → Keeps a m m
Keeps-refl a m = record {
  sandboxes = refl;
  next = refl;
  elsewhere = λ b ne. refl;
  owned = λ i. refl;
  total = refl;
  id = refl;
  slot = refl;
  daemon_url = refl;
  running = refl;
  stopped = refl;
  transition = refl;
}

pub Keeps-trans : {a : ℕ} {l m n : Runtime} → Keeps a l m → Keeps a m n → Keeps a l n
Keeps-trans p q = record {
  sandboxes = q.sandboxes ∙ p.sandboxes;
  next = q.next ∙ p.next;
  elsewhere = λ b ne. q.elsewhere b ne ∙ p.elsewhere b ne;
  owned = λ i. q.owned i ∙ p.owned i;
  total = q.total ∙ p.total;
  id = q.id ∙ p.id;
  slot = q.slot ∙ p.slot;
  daemon_url = q.daemon_url ∙ p.daemon_url;
  running = q.running ∙ p.running;
  stopped = q.stopped ∙ p.stopped;
  transition = q.transition ∙ p.transition;
}

pub slot_owner-set_wired :
    (i j : ℕ) (b : Bool) (slots : List Slot)
    → slot_owner j (set_wired i b slots) ≡ slot_owner j slots
slot_owner-set_wired i j b [] = refl
slot_owner-set_wired zero zero b (s ∷ l) = refl
slot_owner-set_wired zero (suc j) b (s ∷ l) = refl
slot_owner-set_wired (suc i) zero b (s ∷ l) = refl
slot_owner-set_wired (suc i) (suc j) b (s ∷ l) = slot_owner-set_wired i j b l

length-set_wired :
    (i : ℕ) (b : Bool) (slots : List Slot) → length (set_wired i b slots) ≡ length slots
length-set_wired i b [] = refl
length-set_wired zero b (s ∷ l) = refl
length-set_wired (suc i) b (s ∷ l) = ap suc (length-set_wired i b l)

-- An act that keeps them.
pub record IsMild (a : ℕ) (f : Act) : Type 0 where
  pub keeps : (m : Runtime) → Keeps a m (f m).0

-- Only the slots' wiring differs.
rewired :
    (a i : ℕ) (b : Bool) (m : Runtime) → Keeps a m (record m { slots = set_wired i b m.slots })
rewired a i b m = record {
  sandboxes = refl;
  next = refl;
  elsewhere = λ c ne. refl;
  owned = λ j. slot_owner-set_wired i j b m.slots;
  total = length-set_wired i b m.slots;
  id = refl;
  slot = refl;
  daemon_url = refl;
  running = refl;
  stopped = refl;
  transition = refl;
}

pub heap-write : (a : ℕ) (s : SandboxState) (m : Runtime) → (write a s m).heap a ≡ s
heap-write a s m = ground arith

pub heap-write_other :
    (a b : ℕ) (s : SandboxState) (m : Runtime) → b ≢ a → (write a s m).heap b ≡ m.heap b
heap-write_other a b s m ne = ground arith

pub write-Keeps :
    (a : ℕ) (s : SandboxState) (m : Runtime)
    → s.id ≡ (m.heap a).id
    → s.slot ≡ (m.heap a).slot
    → s.daemon_url ≡ (m.heap a).daemon_url
    → s.running ≡ (m.heap a).running
    → s.stopped ≡ (m.heap a).stopped
    → s.transition ≡ (m.heap a).transition
    → Keeps a m (write a s m)
write-Keeps a s m id slot url running stopped transition =
    let here = heap-write a s m in
    record {
      sandboxes = refl;
      next = refl;
      elsewhere = λ b ne. heap-write_other a b s m ne;
      owned = λ i. refl;
      total = refl;
      id = ap (λ (x : SandboxState). x.id) here ∙ id;
      slot = ap (λ (x : SandboxState). x.slot) here ∙ slot;
      daemon_url = ap (λ (x : SandboxState). x.daemon_url) here ∙ url;
      running = ap (λ (x : SandboxState). x.running) here ∙ running;
      stopped = ap (λ (x : SandboxState). x.stopped) here ∙ stopped;
      transition = ap (λ (x : SandboxState). x.transition) here ∙ transition;
    }

module _ {a : ℕ} where
  pub >>-IsMild : {f g : Act} → IsMild a f → IsMild a g → IsMild a (f >> g)
  unfolding ◌>>◌
  >>-IsMild {f} {g} p q = record {
    keeps = λ m. elim (Option-cases (f m).1) [
      | inl done ↦ rw (◌>>◌, done) (Keeps-trans (p.keeps m) (q.keeps (f m).0))
      | inr (e, failed) ↦ rw (◌>>◌, failed) (p.keeps m)
    ];
  }

  pass-IsMild : (r : Runtime → Option Error) → IsMild a (λ m. (m, r m))
  pass-IsMild r = record { keeps = λ m. Keeps-refl a m }

  pub call-IsMild : (label : String) (r : Option Error) → IsMild a (call label r)
  unfolding call
  call-IsMild label r = record { keeps = λ m. Keeps-refl a m }

  label_error-IsMild : (label : String) {f : Act} → IsMild a f → IsMild a (label_error label f)
  unfolding label_error
  label_error-IsMild label p = record { keeps = p.keeps }

  wire-IsMild : (i : ℕ) (b : Bool) → IsMild a (wire i b)
  unfolding wire
  wire-IsMild i b = record { keeps = rewired a i b }

  module _ (h : Host) where
    build_namespace-IsMild : (i : ℕ) → IsMild a (build_namespace h i)
    unfolding build_namespace
    build_namespace-IsMild i =
        >>-IsMild (call-IsMild _ _)
          (>>-IsMild (pass-IsMild (λ m. h.setup_script)) (wire-IsMild i true))

    choose_keeps :
        (b : Bool) (f g : Act) (m : Runtime)
        → Keeps a m (f m).0
        → Keeps a m (g m).0
        → Keeps a m ((if b then f else g) m).0
    choose_keeps true f g m p q = p
    choose_keeps false f g m p q = q

    skip_keeps :
        (b : Bool) {m n : Runtime} (e : Option Error)
        → Keeps a m n
        → Keeps a m (let skip : Runtime × Option Error = (m, none) in if b then (n, e) else skip).0
    skip_keeps true e p = p
    skip_keeps false {m} e p = Keeps-refl a m

    choose-IsMild : (b : Bool) {f g : Act} → IsMild a f → IsMild a g → IsMild a (if b then f else g)
    choose-IsMild true p q = p
    choose-IsMild false p q = q

    pub setup_keeps : (s : ℤ) (block : Bool) (m : Runtime) → Keeps a m (setup_network h s block m).0
    unfolding setup_network
    setup_keeps (negsuc n) block m = Keeps-refl a m
    setup_keeps (pos i) block m = elim (Option-cases (get_elem? m.slots i)) [
      | inl absent ↦ rw (setup_network, absent) (Keeps-refl a m)
      | inr (s, found) ↦
          rw (setup_network, found)
            ((>>-IsMild (choose-IsMild s.wired (pass-IsMild (λ n. none)) (build_namespace-IsMild i))
                (choose-IsMild block (call-IsMild _ h.block_egress_script)
                  (pass-IsMild (λ n. none)))).keeps
              m)
    ]

    clear_keeps :
        (i : ℕ) (caller : Option ℕ) (m : Runtime) → Keeps a m (clear_slot_network h i caller m).0
    unfolding clear_slot_network
    clear_keeps i caller m = skip_keeps _ _ (rewired a i false m)

    publish_process-IsMild : IsMild a (publish_process h a)
    unfolding publish_process
    publish_process-IsMild = record { keeps = λ m. write-Keeps a _ m refl refl refl refl refl refl }

    publish_proxy-IsMild : IsMild a (publish_proxy h a)
    unfolding publish_proxy
    publish_proxy-IsMild = record { keeps = λ m. write-Keeps a _ m refl refl refl refl refl refl }

    start_guest-IsMild : IsMild a (start_guest h a)
    unfolding start_guest
    start_guest-IsMild = record {
      keeps = λ m.
          Keeps-trans
            (write-Keeps a (record (m.heap a) { must_cold_boot = true }) m refl refl refl refl refl
              refl)
            ((choose-IsMild (m.heap a).must_cold_boot
                (>>-IsMild (pass-IsMild (λ n. h.verify_kernel_pin)) (call-IsMild _ h.cold_boot))
                (call-IsMild _ h.load_snapshot)).keeps
              _);
    }

    pub activate-IsMild : IsMild a (activate h a)
    unfolding activate
    activate-IsMild = >>-IsMild (call-IsMild _ _) (
        >>-IsMild
          (label_error-IsMild _
            (record { keeps = λ m. setup_keeps (m.heap a).slot (m.heap a).block_egress m }))
          (>>-IsMild (call-IsMild _ _) (
            >>-IsMild publish_process-IsMild (
              >>-IsMild (call-IsMild _ _) (
                >>-IsMild start_guest-IsMild (
                  >>-IsMild (call-IsMild _ _)
                    (>>-IsMild publish_proxy-IsMild (call-IsMild _ _))))))))

    clear_network_keeps : (s : ℤ) (m : Runtime) → Keeps a m (clear_network h a s m).0
    unfolding clear_network
    clear_network_keeps (negsuc n) m = Keeps-refl a m
    clear_network_keeps (pos i) m = clear_keeps i (some a) m

    pub teardown-IsMild : IsMild a (teardown h a)
    unfolding teardown
    teardown-IsMild = record {
      keeps = λ m.
          Keeps-trans (write-Keeps a _ m refl refl refl refl refl refl)
            (clear_network_keeps (m.heap a).slot _);
    }

-- What teardown does to the sandbox itself: the handles go, and the generation rises, so that the
-- exit that it causes is a stale one. The pin stays.
module _ (h : Host) (a : ℕ) (m : Runtime) where
  clear_network_heap : (s : ℤ) (n : Runtime) → (clear_network h a s n).0.heap ≡ n.heap
  unfolding clear_network clear_slot_network
  clear_network_heap (negsuc l) n = refl
  clear_network_heap (pos i) n = ground arith

  pub heap-teardown : (teardown h a m).0.heap a ≡ record (m.heap a) {
    generation = ((m.heap a).generation + 1) % 2 ^ 64;
    proxy = none;
    process = none;
  }
  unfolding teardown
  heap-teardown =
      ap (λ (f : ℕ → SandboxState). f a) (clear_network_heap (m.heap a).slot _) ∙ heap-write a _ m
