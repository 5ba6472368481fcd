-- ===== src/Runner/Firecracker/Validity.antt =====
-- internal/runner/runtime/firecracker.ee: the runtime's invariant. A sandbox that an operation has
-- claimed is that operation's business; the others are settled.
use n8n_sandbox_service.Base.{
  ℕ, ◌<◌, ◌≡◌, refl, sym, ap, subst, ◌∙◌, ◌≢◌, ◌⊎◌, inl, inr, String, Bool, true, false, none, some,
  List, str_eq, eq_iff, arith, if◌then◌else◌, ℤ, pos, negsuc, lookup, is_some, Bool-cases,
  Option-cases, some_inj,
}
use n8n_sandbox_service.Runner.Firecracker.{SandboxState, Runtime, write, unclaimed}
use n8n_sandbox_service.Runner.Firecracker.Owners.{owners, OwnersMatch, tracked_slot}
use n8n_sandbox_service.Runner.Firecracker.Keeping.{Keeps, heap-write, heap-write_other}

abbrev pub has_slot : ℤ → Bool
has_slot (pos _) = true
has_slot (negsuc _) = false

-- A running sandbox has a slot, a process and a proxy and is pinned to a cold boot; one that does
-- not run has no microVM, and a stopped one has no slot.
pub record IsSettled (s : SandboxState) : Type 0 where
  pub on_slot : s.running ≡ true → has_slot s.slot ≡ true
  pub has_process : s.running ≡ true → is_some s.process ≡ true
  pub has_proxy : s.running ≡ true → is_some s.proxy ≡ true
  pub pinned : s.running ≡ true → s.must_cold_boot ≡ true
  pub awake : s.running ≡ true → s.stopped ≡ false
  pub off_slot : s.stopped ≡ true → has_slot s.slot ≡ false
  pub no_process : s.running ≡ false → s.process ≡ none
  pub no_proxy : s.running ≡ false → s.proxy ≡ none

pub record IsValid (m : Runtime) : Type 0 where
  pub matched : OwnersMatch (owners m) (λ k. tracked_slot k m)
  pub named : (k : String) (a : ℕ) → lookup k m.sandboxes ≡ some a → (m.heap a).id ≡ k
  pub fresh : (k : String) (a : ℕ) → lookup k m.sandboxes ≡ some a → a < m.next
  pub no_empty_id : lookup "" m.sandboxes ≡ none
  pub settled :
      (k : String) (a : ℕ)
      → lookup k m.sandboxes ≡ some a
      → (m.heap a).transition ≡ unclaimed
      → IsSettled (m.heap a)

-- What is outside the sandbox at `a` and the slots.
pub record Frame (a : ℕ) (m n : Runtime) : Type 0 where
  pub sandboxes : n.sandboxes ≡ m.sandboxes
  pub next : n.next ≡ m.next
  pub elsewhere : (b : ℕ) → b ≢ a → n.heap b ≡ m.heap b
  pub id : (n.heap a).id ≡ (m.heap a).id

pub Keeps-Frame : {a : ℕ} {m n : Runtime} → Keeps a m n → Frame a m n
Keeps-Frame k = record {
  sandboxes = k.sandboxes;
  next = k.next;
  elsewhere = k.elsewhere;
  id = k.id;
}

pub Frame-trans : {a : ℕ} {l m n : Runtime} → Frame a l m → Frame a m n → Frame a l n
Frame-trans p q = record {
  sandboxes = q.sandboxes ∙ p.sandboxes;
  next = q.next ∙ p.next;
  elsewhere = λ b ne. q.elsewhere b ne ∙ p.elsewhere b ne;
  id = q.id ∙ p.id;
}

pub write-Frame :
    (a : ℕ) (s : SandboxState) (m : Runtime) → s.id ≡ (m.heap a).id → Frame a m (write a s m)
write-Frame a s m id = record {
  sandboxes = refl;
  next = refl;
  elsewhere = λ b ne. heap-write_other a b s m ne;
  id = ap (λ (x : SandboxState). x.id) (heap-write a s m) ∙ id;
}

module _ {m n : Runtime} {a : ℕ} (v : IsValid m) (f : Frame a m n) (k : String)
    (tracked : lookup k m.sandboxes ≡ some a) where
  other_address : (o : String) (b : ℕ) → lookup o m.sandboxes ≡ some b → o ≢ k → b ≢ a
  other_address o b at ne same =
      ne (sym (v.named o b at) ∙ ap (λ (c : ℕ). (m.heap c).id) same ∙ v.named k a tracked)

  pub tracked_slot-Frame :
      (o : String) → tracked_slot o n ≡ (if str_eq k o then (n.heap a).slot else tracked_slot o m)
  tracked_slot-Frame o = elim (Bool-cases (str_eq k o)) [
    | inl same ↦
        let at : lookup o n.sandboxes ≡ some a = cc (f.sandboxes, tracked, (eq_iff k o).0 same) in
        rw (same, at)
    | inr other ↦ elim (Option-cases (lookup o m.sandboxes)) [
      | inl absent ↦ rw (other, absent, f.sandboxes, absent)
      | inr (b, at) ↦
          let apart = other_address o b at (λ e. ground (arith, eq_iff k o)) in
          rw (other, at, f.sandboxes, at) (ap (λ (x : SandboxState). x.slot) (f.elsewhere b apart))
    ]
  ]

  same_or_apart :
      (o : String) (b : ℕ)
      → lookup o n.sandboxes ≡ some b
      → ((o ≡ k) × (b ≡ a)) ⊎ ((lookup o m.sandboxes ≡ some b) × (n.heap b ≡ m.heap b))
  same_or_apart o b at =
      let before : lookup o m.sandboxes ≡ some b = cc (f.sandboxes) in
      elim (Bool-cases (str_eq k o)) [
        | inl same ↦
            let e = sym ((eq_iff k o).0 same) in
            inl (e, some_inj (sym before ∙ ap (λ (x : String). lookup x m.sandboxes) e ∙ tracked))
        | inr other ↦
            inr (before, f.elsewhere b (other_address o b before (λ e. ground (arith, eq_iff k o))))
      ]

  -- The sandbox at `a` apart, the invariant is about what stays.
  pub Frame-IsValid :
      OwnersMatch (owners n) (λ j. tracked_slot j n)
      → ((n.heap a).transition ≡ unclaimed → IsSettled (n.heap a))
      → IsValid n
  Frame-IsValid matched settled = record {
    matched = matched;
    named = λ o b at. elim (same_or_apart o b at) [
      | inl (e, here) ↦ rw (here, e) (f.id ∙ v.named k a tracked)
      | inr (before, same) ↦ rw same (v.named o b before)
    ];
    fresh = λ o b at. elim (same_or_apart o b at) [
      | inl (e, here) ↦ rw (here, f.next) (v.fresh k a tracked)
      | inr (before, same) ↦ rw f.next (v.fresh o b before)
    ];
    no_empty_id =
        subst (λ (l : List (String × ℕ)). lookup "" l ≡ none) (sym f.sandboxes) v.no_empty_id;
    settled = λ o b at free. elim (same_or_apart o b at) [
      | inl (e, here) ↦
          subst (λ (c : ℕ). IsSettled (n.heap c)) (sym here)
            (settled (subst (λ (c : ℕ). (n.heap c).transition ≡ unclaimed) here free))
      | inr (before, same) ↦
          rw same (v.settled o b before (sym (ap (λ (x : SandboxState). x.transition) same) ∙ free))
    ];
  }
