-- ===== src/Runner/Firecracker/Deleting.antt =====
-- internal/runner/runtime/firecracker.ee/runtime.go: a delete keeps the invariant, and what it
-- leaves.
use n8n_sandbox_service.Base.{
  ℕ, ◌≡◌, refl, sym, ap, subst, ◌∙◌, ◌⊎◌, inl, inr, String, Bool, true, false, Option, none, some,
  List, ◌++◌, str_eq, if◌then◌else◌, lookup, Option-cases,
}
use n8n_sandbox_service.Runner.Firecracker.{
  Error, SandboxState, Runtime, untrack_sandbox, unclaimed, deleting, set_transition,
  begin_transition,
}
use n8n_sandbox_service.Runner.Firecracker.Owners.{owners}
use n8n_sandbox_service.Runner.Firecracker.Keeping.{Keeps, heap-write}
use n8n_sandbox_service.Runner.Firecracker.Validity.{IsValid, has_slot}
use n8n_sandbox_service.Runner.Firecracker.Handing.{Keeps-IsValid, write-IsValid}
use n8n_sandbox_service.Runner.Firecracker.Keeping.{teardown-IsMild, heap-teardown}
use n8n_sandbox_service.Runner.Firecracker.Machine.{Host, teardown, wrap, join_errors, errors_of}
use n8n_sandbox_service.Runner.Firecracker.Claims.{
  begin_transition-claimed, set_transition-HasClaim, AllKeep, after_begin, claims,
  begin_transition-Began,
}
use n8n_sandbox_service.Runner.Firecracker.Lifecycle.{
  delete_state, delete_marked, delete_begun, delete_sandbox, cleanup_create, mark_deleting,
}
use n8n_sandbox_service.Runner.Firecracker.Untracking.{
  tracks_it, untracked-IsValid, untracked-lookup, untracked-owners,
}

module _ (h : Host) (a : ℕ) (id : String) where
  module _ {m : Runtime} (v : IsValid m) (tracked : lookup id m.sandboxes ≡ some a) where
    marked-IsValid : IsValid (mark_deleting a m)
    marked-IsValid =
        write-IsValid v id tracked (record (m.heap a) { running = false; transition = deleting })
          refl refl (λ e. absurd (cc))

    torn-keeps : Keeps a (mark_deleting a m) (teardown h a (mark_deleting a m)).0
    torn-keeps = (teardown-IsMild h).keeps (mark_deleting a m)

    torn_tracked : lookup id (teardown h a (mark_deleting a m)).0.sandboxes ≡ some a
    torn_tracked =
        subst (λ (l : List (String × ℕ)). lookup id l ≡ some a) (sym torn-keeps.sandboxes) tracked

    torn-IsValid : IsValid (teardown h a (mark_deleting a m)).0
    torn-IsValid =
        Keeps-IsValid marked-IsValid id tracked
          (λ e. absurd (
            cc (
              torn-keeps.transition,
              heap-write a (record (m.heap a) { running = false; transition = deleting }) m,
            )))
          torn-keeps

    -- A delete that fails leaves a sandbox without a microVM, still on its slot.
    failed_delete-IsValid :
        ((m.heap a).stopped ≡ true → has_slot (m.heap a).slot ≡ false)
        → IsValid (set_transition a unclaimed (teardown h a (mark_deleting a m)).0)
    failed_delete-IsValid off =
        let n = (teardown h a (mark_deleting a m)).0 in
        let here = heap-write a (record (m.heap a) { running = false; transition = deleting }) m in
        let down : (n.heap a).running ≡ false =
          torn-keeps.running ∙ ap (λ (x : SandboxState). x.running) here in
        let stopped : (n.heap a).stopped ≡ (m.heap a).stopped =
          torn-keeps.stopped ∙ ap (λ (x : SandboxState). x.stopped) here in
        let slot : (n.heap a).slot ≡ (m.heap a).slot =
          torn-keeps.slot ∙ ap (λ (x : SandboxState). x.slot) here in
        let torn = heap-teardown h a (mark_deleting a m) in
        write-IsValid torn-IsValid id torn_tracked (record (n.heap a) { transition = unclaimed })
          refl refl
          λ e. record {
            on_slot = λ r. absurd (cc (down));
            has_process = λ r. absurd (cc (down));
            has_proxy = λ r. absurd (cc (down));
            pinned = λ r. absurd (cc (down));
            awake = λ r. absurd (cc (down));
            off_slot = λ r. ap has_slot slot ∙ off (sym stopped ∙ r);
            no_process = λ r. ap (λ (x : SandboxState). x.process) torn;
            no_proxy = λ r. ap (λ (x : SandboxState). x.proxy) torn;
          }

    delete_state_marked : delete_state h a m ≡ delete_marked h a (mark_deleting a m)
    unfolding delete_state
    delete_state_marked = ap (delete_marked h a) (rw (tracks_it v id tracked))

    abbrev delete_errors : Option Error
    delete_errors = join_errors (
        errors_of (teardown h a (mark_deleting a m)).1
        ++ errors_of (wrap "remove sandbox data dir" h.remove_data_dir))

    delete_marked_done :
        delete_errors ≡ none
        → delete_marked h a (mark_deleting a m)
          ≡ (untrack_sandbox a (teardown h a (mark_deleting a m)).0, none)
    unfolding delete_marked
    delete_marked_done done = rw (delete_marked, done)

    delete_marked_bad :
        (e : Error)
        → delete_errors ≡ some e
        → delete_marked h a (mark_deleting a m)
          ≡ (set_transition a unclaimed (teardown h a (mark_deleting a m)).0, some e)
    unfolding delete_marked
    delete_marked_bad e bad =
        rw (delete_marked, bad)
          (let t = (teardown h a (mark_deleting a m)).0 in
            let pick : Bool → Runtime × Option Error =
              λ b. (if b then set_transition a unclaimed t else t, some e) in
            ap pick (tracks_it torn-IsValid id torn_tracked))

    pub delete_state-cases :
        ((delete_state h a m ≡ (untrack_sandbox a (teardown h a (mark_deleting a m)).0, none)))
        ⊎ ((e : Error) × (delete_state h a m
              ≡ (set_transition a unclaimed (teardown h a (mark_deleting a m)).0, some e)))
    delete_state-cases =
        let marked = delete_state_marked in
        elim (Option-cases delete_errors) [
          | inl done ↦ inl (marked ∙ delete_marked_done done)
          | inr (e, bad) ↦ inr (e, marked ∙ delete_marked_bad e bad)
        ]

    pub delete_state-IsValid :
        ((m.heap a).stopped ≡ true → has_slot (m.heap a).slot ≡ false)
        → IsValid (delete_state h a m).0
    delete_state-IsValid off = elim delete_state-cases [
      | inl done ↦ rw done (untracked-IsValid torn-IsValid id torn_tracked)
      | inr (e, bad) ↦ rw bad (failed_delete-IsValid off)
    ]

    -- The create's cleanup forgets the sandbox either way.
    pub cleanup_create-IsValid :
        ((m.heap a).stopped ≡ true → has_slot (m.heap a).slot ≡ false)
        → IsValid (cleanup_create h a m)
    unfolding cleanup_create
    cleanup_create-IsValid off = elim delete_state-cases [
      | inl done ↦ rw (cleanup_create, done) (untracked-IsValid torn-IsValid id torn_tracked)
      | inr (e, bad) ↦
          rw (cleanup_create, bad) (untracked-IsValid (failed_delete-IsValid off) id torn_tracked)
    ]

    pub cleanup_create-lookup :
        ((m.heap a).stopped ≡ true → has_slot (m.heap a).slot ≡ false)
        → lookup id (cleanup_create h a m).sandboxes ≡ none
    unfolding cleanup_create
    cleanup_create-lookup off = elim delete_state-cases [
      | inl done ↦ rw (cleanup_create, done) (untracked-lookup torn-IsValid id torn_tracked)
      | inr (e, bad) ↦
          rw (cleanup_create, bad) (untracked-lookup (failed_delete-IsValid off) id torn_tracked)
    ]

    pub cleanup_create-owners :
        ((m.heap a).stopped ≡ true → has_slot (m.heap a).slot ≡ false)
        → (j : ℕ)
        → owners (cleanup_create h a m) j ≡ (if str_eq (owners m j) id then "" else owners m j)
    unfolding cleanup_create
    cleanup_create-owners off j = elim delete_state-cases [
      | inl done ↦
          rw (cleanup_create, done)
            (untracked-owners torn-IsValid id torn_tracked j ∙ rw (torn-keeps.owned j))
      | inr (e, bad) ↦
          rw (cleanup_create, bad)
            (untracked-owners (failed_delete-IsValid off) id torn_tracked j
              ∙ rw (torn-keeps.owned j))
    ]

module _ (h : Host) where
  pub delete_sandbox-IsValid :
      (others : List (Runtime → Runtime)) (id : String) (m : Runtime)
      → AllKeep others
      → IsValid m
      → IsValid (delete_sandbox h others id m).0
  unfolding delete_sandbox delete_begun
  delete_sandbox-IsValid others id m q v =
      after_begin (λ (r : Runtime × Option Error). IsValid r.0) id (delete_begun h)
        (begin_transition others id deleting m)
        (begin_transition-Began id deleting claims.2 others m q v) (λ n e u. u)
        (λ n a c. delete_state-IsValid h a id c.valid c.tracked c.settled.off_slot)

-- After a delete: the sandbox is forgotten and its slot free, or it is kept without a microVM and on
-- its slot, and can be claimed again.
abbrev pub Deleted : String → ℕ → Runtime → Runtime × Option Error → Type 0
Deleted id a m (n, none) =
    (lookup id n.sandboxes ≡ none)
    × ((j : ℕ) → owners n j ≡ (if str_eq (owners m j) id then "" else owners m j))
Deleted id a m (n, some e) =
    (lookup id n.sandboxes ≡ some a)
    × ((n.heap a).transition ≡ unclaimed)
    × ((n.heap a).running ≡ false)
    × ((n.heap a).slot ≡ (m.heap a).slot)
    × ((j : ℕ) → owners n j ≡ owners m j)

module _ (h : Host) (a : ℕ) (id : String) {m : Runtime} (v : IsValid m)
    (at : lookup id m.sandboxes ≡ some a) where
  delete_state-Deleted : Deleted id a m (delete_state h a m)
  delete_state-Deleted =
      let kept = torn-keeps h a id v at in
      let n = (teardown h a (mark_deleting a m)).0 in
      let here = heap-write a (record (m.heap a) { running = false; transition = deleting }) m in
      let ended = heap-write a (record (n.heap a) { transition = unclaimed }) n in
      elim (delete_state-cases h a id v at) [
        | inl done ↦ rw done (
          untracked-lookup (torn-IsValid h a id v at) id (torn_tracked h a id v at),
          λ j.
              untracked-owners (torn-IsValid h a id v at) id (torn_tracked h a id v at) j
              ∙ rw (kept.owned j),
        )
        | inr (e, bad) ↦ rw bad (
          torn_tracked h a id v at,
          ap (λ (x : SandboxState). x.transition) ended,
          ap (λ (x : SandboxState). x.running) ended
              ∙ (kept.running ∙ ap (λ (x : SandboxState). x.running) here),
          ap (λ (x : SandboxState). x.slot) ended
              ∙ (kept.slot ∙ ap (λ (x : SandboxState). x.slot) here),
          λ j. kept.owned j,
        )
      ]

-- The claim itself changes neither the slot nor the owners.
same_before :
    (id : String) (a : ℕ) (m n : Runtime) (r : Runtime × Option Error)
    → (n.heap a).slot ≡ (m.heap a).slot
    → n.slots ≡ m.slots
    → Deleted id a n r
    → Deleted id a m r
same_before id a m n (k, none) slot owners_same d = (d.0, λ j. d.1 j ∙ rw owners_same)
same_before id a m n (k, some e) slot owners_same d =
    (d.0, d.1, d.2, d.3 ∙ slot, λ j. d.4 j ∙ rw owners_same)

module _ (h : Host) (others : List (Runtime → Runtime)) (id : String) (a : ℕ) (m : Runtime)
    (v : IsValid m) (at : lookup id m.sandboxes ≡ some a) where
  -- A delete of a sandbox that no operation has claimed and that succeeds forgets it and frees its
  -- slot alone; one that fails leaves it tracked, not running, unclaimed and on its slot, and every
  -- slot's owner as it was.
  pub delete_sandbox-Deleted :
      (m.heap a).transition ≡ unclaimed → Deleted id a m (delete_sandbox h others id m)
  unfolding delete_sandbox delete_begun
  delete_sandbox-Deleted free =
      let n = set_transition a deleting m in
      let here = heap-write a (record (m.heap a) { transition = deleting }) m in
      let c = set_transition-HasClaim v id at (v.settled id a at free) deleting claims.2 in
      let e = ap (delete_begun h) (begin_transition-claimed others id deleting m a at free) in
      subst (λ (r : Runtime × Option Error). Deleted id a m r) (sym e)
        (same_before id a m n (delete_state h a n) (ap (λ (x : SandboxState). x.slot) here) refl
          (delete_state-Deleted h a id c.valid c.tracked))
