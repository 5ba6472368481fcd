-- ===== src/Api/Registry/Validity.antt =====
-- The runners of a `MemoryRegistry`, their order of registration and its record of removals agree.
use n8n_sandbox_service.Base.{
  ℕ, ◌≡◌, refl, inl, inr, String, true, ◌||◌, none, some, [], ◌∷◌, str_eq, eq_iff, arith, ℤ, lookup,
  contains, is_some, IsDistinct, lookup-insert, lookup-erase, contains-append, contains-one,
  contains-remove, append-IsDistinct, remove-IsDistinct, Bool-cases,
}
use n8n_sandbox_service.Api.Registry.{
  Runner, MemoryRegistry, Heartbeat, new_memory, runner_of, upsert, remove_runner,
}

pub record IsValid (r : MemoryRegistry) : Type 0 where
  pub distinct : IsDistinct r.order
  pub agree : (id : String) → contains id r.order ≡ is_some (lookup id r.runners)
  pub named : (id : String) (run : Runner) → lookup id r.runners ≡ some run → run.id ≡ id
  pub gone : (id : String) → is_some (lookup id r.runners) ≡ true → lookup id r.removed_at ≡ none

new_memory-IsValid : (grace : ℤ) → IsValid (new_memory grace)
unfolding new_memory lookup contains
new_memory-IsValid grace = record {
  distinct = tt;
  agree = λ id. refl;
  named = λ id run h. absurd (cc);
  gone = λ id h. refl;
}

runner_of-id : (h : Heartbeat) (now : ℕ) → (runner_of h now).id ≡ h.id
unfolding runner_of
runner_of-id h now = refl

upsert-IsValid :
    (h : Heartbeat) (now : ℕ) (r : MemoryRegistry) → IsValid r → IsValid (upsert h now r)
unfolding upsert
upsert-IsValid h now r v = elim (Bool-cases (str_eq h.id "" || str_eq h.http_base_url "")) [
  | inl bad ↦ rw bad v
  | inr good ↦ rw good (record {
    distinct = ground (arith, v.agree h.id, append-IsDistinct r.order h.id v.distinct, v.distinct);
    agree = λ id. ground (
      arith,
      v.agree id,
      v.agree h.id,
      eq_iff h.id id,
      lookup-insert h.id id (runner_of h now) r.runners,
      contains-append id r.order (h.id ∷ []),
      contains-one id h.id,
    );
    named = λ id run e. ground (
      arith,
      v.named id run,
      eq_iff h.id id,
      runner_of-id h now,
      lookup-insert h.id id (runner_of h now) r.runners,
    );
    gone = λ id e. ground (
      arith,
      v.gone id,
      lookup-insert h.id id (runner_of h now) r.runners,
      lookup-erase h.id id r.removed_at,
    );
  })
]

remove_runner-IsValid :
    (id : String) (now : ℕ) (r : MemoryRegistry) → IsValid r → IsValid (remove_runner id now r)
unfolding remove_runner
remove_runner-IsValid id now r v = elim (Bool-cases (str_eq id "")) [
  | inl bad ↦ rw bad v
  | inr good ↦ rw good (record {
    distinct = remove-IsDistinct id r.order v.distinct;
    agree =
        λ j. ground (arith, v.agree j, lookup-erase id j r.runners, contains-remove id j r.order);
    named = λ j run e. ground (arith, v.named j run, lookup-erase id j r.runners);
    gone = λ j e.
        ground (arith, v.gone j, lookup-erase id j r.runners, lookup-insert id j now r.removed_at);
  })
]

-- What API requests and heartbeats do to the registry, in any order.
pub data Reach : ℤ → MemoryRegistry → Type 0 where
  start : {grace : ℤ} → Reach grace (new_memory grace)
  upserted :
      {grace : ℤ} {r : MemoryRegistry} (h : Heartbeat) (now : ℕ)
      → Reach grace r
      → Reach grace (upsert h now r)
  removed :
      {grace : ℤ} {r : MemoryRegistry} (id : String) (now : ℕ)
      → Reach grace r
      → Reach grace (remove_runner id now r)

-- After any sequence of upserts and removals the order lists each registered runner once and
-- nothing else, each runner stands under its own id, and no registered runner counts as removed.
pub registry-IsValid : {grace : ℤ} {r : MemoryRegistry} → Reach grace r → IsValid r
registry-IsValid (start {grace}) = new_memory-IsValid grace
registry-IsValid (upserted h now p) = upsert-IsValid h now _ (registry-IsValid p)
registry-IsValid (removed id now p) = remove_runner-IsValid id now _ (registry-IsValid p)
