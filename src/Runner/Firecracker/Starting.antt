-- ===== src/Runner/Firecracker/Starting.antt =====
-- internal/runner/runtime/firecracker.ee/stop_wake.go: what a start that succeeds has done.
use n8n_sandbox_service.Base.{
  ℕ, ◌≡◌, refl, sym, ap, subst, ◌∙◌, inl, inr, String, Bool, true, false, Option, none, some, arith,
  if◌then◌else◌, is_some, Option-cases, ℤ, pos, negsuc, get_elem?,
}
use n8n_sandbox_service.Runner.Firecracker.{Error, SandboxState, Runtime}
use n8n_sandbox_service.Runner.Firecracker.Machine.{
  Host, Act, ◌>>◌, call, wire, label_error, build_namespace, setup_network, publish_process,
  publish_proxy, start_guest, activate,
}
use n8n_sandbox_service.Runner.Firecracker.Keeping.{heap-write}

pub >>-done :
    (f g : Act) (m : Runtime) → ((f >> g) m).1 ≡ none → ((f m).1 ≡ none) × ((f >> g) m ≡ g (f m).0)
unfolding ◌>>◌
>>-done f g m h = ground arith

-- The guest runs in a process, and its sandbox is pinned to a cold boot.
pub record IsUp (s : SandboxState) : Type 0 where
  pub has_process : is_some s.process ≡ true
  pub has_proxy : is_some s.proxy ≡ true
  pub pinned : s.must_cold_boot ≡ true

-- The act leads from P to Q where it succeeds.
record Leads (a : ℕ) (P Q : SandboxState → Type 0) (f : Act) : Type 0 where
  leads : (m : Runtime) → P (m.heap a) → (f m).1 ≡ none → Q ((f m).0.heap a)

-- An act that leaves the sandboxes alone.
record IsAside (f : Act) : Type 0 where
  aside : (m : Runtime) → (f m).0.heap ≡ m.heap

IsStarted : SandboxState → Type 0
IsStarted s = is_some s.process ≡ true

IsBooted : SandboxState → Type 0
IsBooted s = (is_some s.process ≡ true) × (s.must_cold_boot ≡ true)

abbrev IsAny : SandboxState → Type 0
IsAny s = Unit {0}

module _ {a : ℕ} where
  >>-Leads :
      {P Q R : SandboxState → Type 0} {f g : Act}
      → Leads a P Q f
      → Leads a Q R g
      → Leads a P R (f >> g)
  >>-Leads {f} {g} p q = record {
    leads = λ m h ok.
        let (first, same) = >>-done f g m ok in
        let second : (g (f m).0).1 ≡ none =
          ap (λ (r : Runtime × Option Error). r.1) (sym same) ∙ ok in
        rw same (q.leads (f m).0 (p.leads m h first) second);
  }

  aside-Leads : (P : SandboxState → Type 0) {f : Act} → IsAside f → Leads a P P f
  aside-Leads P q = record {
    leads = λ m h ok. subst (λ (k : ℕ → SandboxState). P (k a)) (sym (q.aside m)) h;
  }

  call-Leads :
      (P : SandboxState → Type 0) (label : String) (r : Option Error) → Leads a P P (call label r)
  unfolding call
  call-Leads P label r = record { leads = λ m h ok. h }

>>-IsAside : {f g : Act} → IsAside f → IsAside g → IsAside (f >> g)
unfolding ◌>>◌
>>-IsAside {f} {g} p q = record {
  aside = λ m. elim (Option-cases (f m).1) [
    | inl done ↦ rw (◌>>◌, done) (q.aside (f m).0 ∙ p.aside m)
    | inr (e, failed) ↦ rw (◌>>◌, failed) (p.aside m)
  ];
}

call-IsAside : (label : String) (r : Option Error) → IsAside (call label r)
unfolding call
call-IsAside label r = record { aside = λ n. refl }

choose-IsAside : (b : Bool) {f g : Act} → IsAside f → IsAside g → IsAside (if b then f else g)
choose-IsAside true p q = p
choose-IsAside false p q = q

module _ (h : Host) where
  pub setup_aside :
      (s : ℤ) (block : Bool) (m : Runtime) → (setup_network h s block m).0.heap ≡ m.heap
  unfolding setup_network build_namespace call wire
  setup_aside (negsuc n) block m = refl
  setup_aside (pos i) block m = elim (Option-cases (get_elem? m.slots i)) [
    | inl absent ↦ rw (setup_network, absent)
    | inr (s, found) ↦
        rw (setup_network, found)
          ((>>-IsAside
              (choose-IsAside s.wired (record { aside = λ n. refl })
                (>>-IsAside (record { aside = λ n. refl })
                  (>>-IsAside (record { aside = λ n. refl }) (record { aside = λ n. refl }))))
              (choose-IsAside block (record { aside = λ n. refl })
                (record { aside = λ n. refl }))).aside
            m)
  ]

  module _ (a : ℕ) where
    setup-IsAside : IsAside (
        label_error "setup firecracker network"
          (λ m. setup_network h (m.heap a).slot (m.heap a).block_egress m))
    unfolding label_error
    setup-IsAside = record { aside = λ m. setup_aside (m.heap a).slot (m.heap a).block_egress m }

    publish_process-Leads : Leads a IsAny IsStarted (publish_process h a)
    unfolding publish_process IsStarted
    publish_process-Leads = record {
      leads = λ m any ok. ap (λ (s : SandboxState). is_some s.process) (heap-write a _ m);
    }

    -- Whether it succeeds or not.
    pub heap-start_guest :
        (m : Runtime) → (start_guest h a m).0.heap a ≡ record (m.heap a) { must_cold_boot = true }
    unfolding start_guest
    heap-start_guest m =
        let boot =
          choose-IsAside (m.heap a).must_cold_boot
            (>>-IsAside {f = λ n. (n, h.verify_kernel_pin)}
              {g = call "cold boot firecracker vm" h.cold_boot} (record { aside = λ n. refl })
              (call-IsAside _ _))
            (call-IsAside "load firecracker snapshot" h.load_snapshot) in
        ap (λ (k : ℕ → SandboxState). k a) (boot.aside _) ∙ heap-write a _ m

    start_guest-Leads : Leads a IsStarted IsBooted (start_guest h a)
    unfolding IsStarted IsBooted
    start_guest-Leads = record { leads = λ m started ok. rw (heap-start_guest m) (started, refl) }

    publish_proxy-Leads : Leads a IsBooted IsUp (publish_proxy h a)
    unfolding publish_proxy IsBooted
    publish_proxy-Leads = record {
      leads = λ m booted ok.
          rw (heap-write a (record (m.heap a) { proxy = some h.proxy }) m)
            (record { has_process = booted.0; has_proxy = refl; pinned = booted.1 });
    }

    pub activate-IsUp : (m : Runtime) → (activate h a m).1 ≡ none → IsUp ((activate h a m).0.heap a)
    unfolding activate
    activate-IsUp m ok =
        (>>-Leads (call-Leads IsAny _ _) (
            >>-Leads (aside-Leads IsAny setup-IsAside) (
              >>-Leads (call-Leads IsAny _ _) (
                >>-Leads publish_process-Leads (
                  >>-Leads (call-Leads IsStarted _ _) (
                    >>-Leads start_guest-Leads (
                      >>-Leads (call-Leads IsBooted _ _)
                        (>>-Leads publish_proxy-Leads (call-Leads IsUp _ _))))))))).leads
          m tt ok

pub call-IsUp :
    (a : ℕ) (label : String) (r : Option Error) (f : Act)
    → ((n : Runtime) → (f n).1 ≡ none → IsUp ((f n).0.heap a))
    → (m : Runtime) → ((call label r >> f) m).1 ≡ none
    → IsUp (((call label r >> f) m).0.heap a)
unfolding call ◌>>◌
call-IsUp a label none f up m ok = up m ok
call-IsUp a label (some e) f up m ok = absurd (cc)
