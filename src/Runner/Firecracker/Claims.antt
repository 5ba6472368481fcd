-- ===== src/Runner/Firecracker/Claims.antt =====
-- internal/runner/runtime/firecracker.ee/stop_wake.go: the claim of a sandbox for one operation.
use n8n_sandbox_service.Base.{
  ℕ, ◌≡◌, refl, sym, ap, ◌∙◌, ◌≢◌, inl, inr, String, Bool, true, false, some, List, [], ◌∷◌,
  if◌then◌else◌, lookup, Option-cases,
}
use n8n_sandbox_service.Runner.Firecracker.{
  Error, SandboxState, Runtime, Transition, unclaimed, creating, stopping, waking, deleting,
  is_unclaimed, is_deleting, set_transition, Claim, end_transition, claimed, refused,
  begin_transition,
}
use n8n_sandbox_service.Runner.Firecracker.Keeping.{heap-write}
use n8n_sandbox_service.Runner.Firecracker.Validity.{IsSettled, IsValid}
use n8n_sandbox_service.Runner.Firecracker.Handing.{write-IsValid}

-- What an operation knows of the sandbox that it has claimed.
pub record HasClaim (id : String) (a : ℕ) (m : Runtime) : Type 0 where
  pub valid : IsValid m
  pub tracked : lookup id m.sandboxes ≡ some a
  pub settled : IsSettled (m.heap a)
  pub claimed_by_it : (m.heap a).transition ≢ unclaimed

pub set_transition-IsSettled :
    {s : SandboxState} (t : Transition) → IsSettled s → IsSettled (record s { transition = t })
set_transition-IsSettled t v = record {
  on_slot = v.on_slot;
  has_process = v.has_process;
  has_proxy = v.has_proxy;
  pinned = v.pinned;
  awake = v.awake;
  off_slot = v.off_slot;
  no_process = v.no_process;
  no_proxy = v.no_proxy;
}

-- A claim is taken or ended where the sandbox is settled.
module _ {m : Runtime} {a : ℕ} (v : IsValid m) (id : String)
    (tracked : lookup id m.sandboxes ≡ some a) (settled : IsSettled (m.heap a))
    (t : Transition) where
  pub set_transition-IsValid : IsValid (set_transition a t m)
  set_transition-IsValid =
      write-IsValid v id tracked (record (m.heap a) { transition = t }) refl refl
        (λ free. set_transition-IsSettled t settled)

  pub set_transition-HasClaim : t ≢ unclaimed → HasClaim id a (set_transition a t m)
  set_transition-HasClaim ne =
      let here = heap-write a (record (m.heap a) { transition = t }) m in
      record {
        valid = set_transition-IsValid;
        tracked = tracked;
        settled = rw here (set_transition-IsSettled t settled);
        claimed_by_it = λ e. ne (sym (ap (λ (x : SandboxState). x.transition) here) ∙ e);
      }

-- What happens during the waits keeps the invariant.
abbrev pub AllKeep : List (Runtime → Runtime) → Type 0
AllKeep [] = Unit
AllKeep (f ∷ others) = ((m : Runtime) → IsValid m → IsValid (f m)) × AllKeep others

abbrev pub Began : String → Runtime × Claim → Type 0
Began id (n, refused e) = IsValid n
Began id (n, claimed a) = HasClaim id a n

unclaimed_of : (t : Transition) → is_unclaimed t ≡ true → t ≡ unclaimed
unclaimed_of unclaimed h = refl
unclaimed_of creating h = absurd (cc)
unclaimed_of stopping h = absurd (cc)
unclaimed_of waking h = absurd (cc)
unclaimed_of deleting h = absurd (cc)

polled :
    (id : String) (gone free : Bool) (p q r : Runtime × Claim)
    → Began id p
    → (free ≡ true → Began id q)
    → Began id r
    → Began id (if gone then p else if free then q else r)
polled id true free _ _ _ p q r = p
polled id false true _ _ _ p q r = q refl
polled id false false _ _ _ p q r = r

module _ (id : String) (want : Transition) (wants : want ≢ unclaimed) where
  claim_here :
      (m : Runtime) (a : ℕ)
      → IsValid m
      → lookup id m.sandboxes ≡ some a
      → (is_unclaimed (m.heap a).transition ≡ true)
      → HasClaim id a (set_transition a want m)
  claim_here m a v at free =
      set_transition-HasClaim v id at (v.settled id a at (unclaimed_of (m.heap a).transition free))
        want wants

  pub begin_transition-Began :
      (others : List (Runtime → Runtime)) (m : Runtime)
      → AllKeep others
      → IsValid m
      → Began id (begin_transition others id want m)
  unfolding begin_transition
  begin_transition-Began [] m q v = elim (Option-cases (lookup id m.sandboxes)) [
    | inl absent ↦ rw (begin_transition, absent) v
    | inr (a, at) ↦
        rw (begin_transition, at)
          (polled id (is_deleting (m.heap a).transition) _ _ _ _ v (claim_here m a v at) v)
  ]
  begin_transition-Began (f ∷ others) m q v = elim (Option-cases (lookup id m.sandboxes)) [
    | inl absent ↦ rw (begin_transition, absent) v
    | inr (a, at) ↦
        rw (begin_transition, at)
          (polled id (is_deleting (m.heap a).transition) _ _ _ _ v (claim_here m a v at)
            (begin_transition-Began others (f m) q.1 (q.0 m v)))
  ]

-- The cases of a claim that an operation has asked for.
pub after_begin {ℓ κ} :
    {T : Type ℓ} (P : T → Type κ) (id : String) (f : Runtime × Claim → T) (r : Runtime × Claim)
    → Began id r
    → ((n : Runtime) (e : Error) → IsValid n → P (f (n, refused e)))
    → ((n : Runtime) (a : ℕ) → HasClaim id a n → P (f (n, claimed a)))
    → P (f r)
after_begin P id f (n, refused e) b p q = p n e b
after_begin P id f (n, claimed a) b p q = q n a b

pub end-IsValid :
    {id : String} {a : ℕ} {m : Runtime} → HasClaim id a m → IsValid (end_transition a m)
end-IsValid {id} c = set_transition-IsValid c.valid id c.tracked c.settled unclaimed

-- A claim is never the state that a sandbox without an operation is in.
pub claims : (waking ≢ unclaimed) × (stopping ≢ unclaimed) × (deleting ≢ unclaimed)
claims = (λ e. absurd (cc), λ e. absurd (cc), λ e. absurd (cc))

-- A sandbox without an operation is claimed at the first look.
pub begin_transition-claimed :
    (others : List (Runtime → Runtime)) (id : String) (want : Transition) (m : Runtime) (a : ℕ)
    → lookup id m.sandboxes ≡ some a
    → (m.heap a).transition ≡ unclaimed
    → begin_transition others id want m ≡ (set_transition a want m, claimed a)
unfolding begin_transition
begin_transition-claimed [] id want m a at free = rw (begin_transition, at, free)
begin_transition-claimed (f ∷ others) id want m a at free = rw (begin_transition, at, free)
