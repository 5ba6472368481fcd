-- ===== src/Api/IdleSweep/Reasons.antt =====
-- Why a run of a sweep drops a row (internal/api/ttl.go), in terms of the registry and of the calls.
use n8n_sandbox_service.Base.{
  ℕ, ◌+◌, ◌≤◌, ◌≡◌, refl, ◌≢◌, ◌⊎◌, inl, inr, String, Bool, true, false, none, some, not, ◌||◌,
  List, [], ◌∷◌, ◌++◌, str_eq, eq_iff, arith, ◌==◌, if◌then◌else◌, ℤ, pos, negsuc, ltb_ℤ, leb_ℤ,
  pos_part, lookup, trim_space, Bool-cases, Option-cases,
}
use n8n_sandbox_service.Api.Registry.{MemoryRegistry, Runner, get_runner, gone_long_enough}
use n8n_sandbox_service.Api.Store.{Database, SandboxRecord, delete, update_status}
use n8n_sandbox_service.Api.IdleSweep.{
  call_stop, Config, orphan_reap_buffer, orphan_reap_due, resolve_control_addr, Call, call_delete,
  Rpc, done, unavailable, rpc_failed, Env, Effect, written, delete_if_done, stop_if_done,
  reap_orphan_sandbox, delete_idle_sandbox, act_delete, act_ephemeral, act_stop,
}

-- How long a runner has to be gone, in nanoseconds: five minutes, where the setting is not positive.
abbrev pub orphan_nanos : ℤ → ℕ
orphan_nanos (pos n) = if n == 0 then 300000000000 else n
orphan_nanos (negsuc n) = 300000000000

-- The runner is not registered, and was removed the orphan buffer ago or longer.
abbrev pub GoneFor : ℕ → ℤ → MemoryRegistry → String → Type 0
GoneFor now buffer reg id =
    (id ≢ "")
    × (lookup id reg.runners ≡ none)
    × ((at : ℕ) × (lookup id reg.removed_at ≡ some at) × (at + orphan_nanos buffer ≤ now))

-- The address at which a sandbox's runner is called: the one that it is registered with now, if it
-- has one, and else the recorded one.
pub data ControlAddr (reg : MemoryRegistry) (runner_id recorded : String) : String → Type 0 where
  registered :
      (run : Runner)
      → runner_id ≢ ""
      → lookup runner_id reg.runners ≡ some run
      → trim_space run.control_grpc_addr ≢ ""
      → ControlAddr reg runner_id recorded (trim_space run.control_grpc_addr)
  no_runner_id : runner_id ≡ "" → ControlAddr reg runner_id recorded recorded
  unregistered : lookup runner_id reg.runners ≡ none → ControlAddr reg runner_id recorded recorded
  no_address :
      (run : Runner)
      → lookup runner_id reg.runners ≡ some run
      → trim_space run.control_grpc_addr ≡ ""
      → ControlAddr reg runner_id recorded recorded

abbrev pub IsIn : Call → List Call → Type 0
IsIn call [] = ⊥
IsIn call (c ∷ l) = (c ≡ call) ⊎ IsIn call l

pub IsIn-before : (call : Call) (l m : List Call) → IsIn call l → IsIn call (l ++ m)
IsIn-before call [] m none_in = absurd none_in
IsIn-before call (c ∷ l) m (inl here) = inl here
IsIn-before call (c ∷ l) m (inr there) = inr (IsIn-before call l m there)

pub IsIn-after : (call : Call) (l m : List Call) → IsIn call m → IsIn call (l ++ m)
IsIn-after call [] m h = h
IsIn-after call (c ∷ l) m h = inr (IsIn-after call l m h)

resolved :
    (rec : SandboxRecord) (reg : MemoryRegistry)
    → ControlAddr reg rec.runner_id rec.runner_control_grpc_addr (resolve_control_addr rec reg)
unfolding resolve_control_addr get_runner
resolved rec reg = elim (Bool-cases (str_eq rec.runner_id "")) [
  | inl empty ↦ rw (resolve_control_addr, empty) (no_runner_id ((eq_iff rec.runner_id "").0 empty))
  | inr named ↦ elim (Option-cases (lookup rec.runner_id reg.runners)) [
    | inl absent ↦ rw (resolve_control_addr, named, absent) (unregistered absent)
    | inr (run, there) ↦ elim (Bool-cases (str_eq (trim_space run.control_grpc_addr) "")) [
      | inl blank ↦
          rw (resolve_control_addr, named, there, blank)
            (no_address run there ((eq_iff _ "").0 blank))
      | inr given ↦
          rw (resolve_control_addr, named, there, given)
            (registered run (λ e. ground (arith, named, eq_iff rec.runner_id "")) there
              (λ e. ground (arith, given, eq_iff (trim_space run.control_grpc_addr) "")))
    ]
  ]
]

orphan_nanos-buffer :
    (cfg : Config) → pos_part (orphan_reap_buffer cfg) ≡ orphan_nanos cfg.orphan_reap_buffer
unfolding orphan_reap_buffer
orphan_nanos-buffer cfg = of cfg.orphan_reap_buffer
  where
    of : (b : ℤ) → pos_part (if leb_ℤ b (pos 0) then pos 300000000000 else b) ≡ orphan_nanos b
    of (pos n) = ground arith
    of (negsuc n) = ground arith

gone_for :
    (reg : MemoryRegistry) (id : String) (buffer : ℤ) (now : ℕ)
    → gone_long_enough id buffer now reg ≡ true
    → (id ≢ "")
      × (lookup id reg.runners ≡ none)
      × ((at : ℕ) × (lookup id reg.removed_at ≡ some at) × (at + pos_part buffer ≤ now))
unfolding gone_long_enough
gone_for reg id buffer now gone = elim (Option-cases (lookup id reg.removed_at)) [
  | inl never ↦ absurd (ground (arith, never))
  | inr (at, there) ↦
      ((λ e. ground (arith, eq_iff id "")), ground (arith), (at, there, ground (arith, there)))
]

reaped :
    (reg : MemoryRegistry) (id : String) (cfg : Config) (now : ℕ)
    → orphan_reap_due reg id cfg now ≡ true
    → GoneFor now cfg.orphan_reap_buffer reg id
unfolding orphan_reap_due
reaped reg id cfg now due =
    let (named, absent, (at, there, late)) =
      gone_for reg id (orphan_reap_buffer cfg) now (ground arith) in
    (named, absent, (at, there, omega (arith, orphan_nanos-buffer cfg)))

Rpc-cases : (r : Rpc) → (r ≡ done) ⊎ (r ≢ done)
Rpc-cases done = inl refl
Rpc-cases unavailable = inr (λ e. absurd (cc))
Rpc-cases rpc_failed = inr (λ e. absurd (cc))

delete_if_done-db :
    (fails : Bool) (id : String) (db : Database) (call : Call) (r : Rpc)
    → r ≢ done
    → (delete_if_done fails id db call r).db ≡ db
delete_if_done-db fails id db call done h = absurd (h refl)
delete_if_done-db fails id db call unavailable h = refl
delete_if_done-db fails id db call rpc_failed h = refl

stop_if_done-db :
    (fails : Bool) (id : String) (db : Database) (call : Call) (r : Rpc)
    → r ≢ done
    → (stop_if_done fails id db call r).db ≡ db
stop_if_done-db fails id db call done h = absurd (h refl)
stop_if_done-db fails id db call unavailable h = refl
stop_if_done-db fails id db call rpc_failed h = refl

written-cases :
    (fails : Bool) (db new : Database) → (written fails db new ≡ db) ⊎ (written fails db new ≡ new)
written-cases true db new = inl refl
written-cases false db new = inr refl

module _ (env : Env) (cfg : Config) (nanos : ℕ) where
  -- In the run n the sandbox's runner, at its address, is among the calls and has answered that it
  -- has done what the call asks.
  abbrev pub Answered : ℕ → SandboxRecord → (String → Call) → List Call → Type 0
  Answered n rec call calls =
      (addr : String) × ControlAddr (env.registry n) rec.runner_id rec.runner_control_grpc_addr addr
      × IsIn (call addr) calls
      × (env.answer n (call addr) ≡ done)

  -- A reason to drop a sandbox's row in the run n.
  abbrev pub Reason : ℕ → SandboxRecord → List Call → Type 0
  Reason n rec calls =
      GoneFor nanos cfg.orphan_reap_buffer (env.registry n) rec.runner_id
      ⊎ Answered n rec (λ addr. call_delete addr rec.id) calls

  -- What a run on a record may do to the store.
  abbrev pub Explained : ℕ → SandboxRecord → Database → Effect → Type 0
  Explained n rec db e =
      (e.db ≡ db)
      ⊎ ((e.db ≡ update_status rec.id "stopped" db)
          × Answered n rec (λ addr. call_stop addr rec.id) e.calls)
      ⊎ ((e.db ≡ delete rec.id db) × Reason n rec e.calls)

  reap-Explained :
      (n : ℕ) (rec : SandboxRecord) (db : Database)
      → orphan_reap_due (env.registry n) rec.runner_id cfg nanos ≡ true
      → Explained n rec db (reap_orphan_sandbox (env.write_fails n) rec.id db)
  reap-Explained n rec db due = elim (written-cases (env.write_fails n) db (delete rec.id db)) [
    | inl same ↦ inl same
    | inr gone ↦ inr (inr (gone, inl (reaped (env.registry n) rec.runner_id cfg nanos due)))
  ]

  delete_if_done-Explained :
      (n : ℕ) (rec : SandboxRecord) (db : Database)
      → let call = call_delete (resolve_control_addr rec (env.registry n)) rec.id in
        Explained n rec db (delete_if_done (env.write_fails n) rec.id db call (env.answer n call))
  delete_if_done-Explained n rec db =
      let addr = resolve_control_addr rec (env.registry n) in
      let call = call_delete addr rec.id in
      elim (Rpc-cases (env.answer n call)) [
        | inr bad ↦
            inl (delete_if_done-db (env.write_fails n) rec.id db call (env.answer n call) bad)
        | inl ok ↦ elim (written-cases (env.write_fails n) db (delete rec.id db)) [
          | inl same ↦ inl (rw ok same)
          | inr gone ↦
              inr
                (inr (rw ok gone, inr (addr, resolved rec (env.registry n), rw ok (inl refl), ok)))
        ]
      ]

  pub delete_idle_sandbox-Explained :
      (n : ℕ) (rec : SandboxRecord) (db : Database)
      → Explained n rec db (delete_idle_sandbox env cfg nanos n rec db)
  unfolding delete_idle_sandbox
  delete_idle_sandbox-Explained n rec db =
      elim (Bool-cases (orphan_reap_due (env.registry n) rec.runner_id cfg nanos)) [
        | inl due ↦ rw (delete_idle_sandbox, due) (reap-Explained n rec db due)
        | inr not_due ↦ rw (delete_idle_sandbox, not_due) (delete_if_done-Explained n rec db)
      ]

  pub act_delete-Explained :
      (cutoff : ℤ) (n : ℕ) (rec : SandboxRecord) (db : Database)
      → Explained n rec db (act_delete env cfg nanos n cutoff rec db)
  unfolding act_delete
  act_delete-Explained cutoff n rec db =
      elim (Bool-cases (not (str_eq rec.status "stopped") || ltb_ℤ cutoff rec.last_active_at)) [
        | inl fresh ↦ rw (act_delete, fresh) (inl refl)
        | inr idle ↦ rw (act_delete, idle) (delete_idle_sandbox-Explained n rec db)
      ]

  pub act_ephemeral-Explained :
      (cutoff : ℤ) (n : ℕ) (rec : SandboxRecord) (db : Database)
      → Explained n rec db (act_ephemeral env cfg nanos n cutoff rec db)
  unfolding act_ephemeral
  act_ephemeral-Explained cutoff n rec db =
      elim (Bool-cases (not (str_eq rec.status "running") || ltb_ℤ cutoff rec.last_active_at)) [
        | inl fresh ↦ rw (act_ephemeral, fresh) (inl refl)
        | inr idle ↦ rw (act_ephemeral, idle) (delete_idle_sandbox-Explained n rec db)
      ]

  stop_if_done-Explained :
      (n : ℕ) (rec : SandboxRecord) (db : Database)
      → let call = call_stop (resolve_control_addr rec (env.registry n)) rec.id in
        Explained n rec db (stop_if_done (env.write_fails n) rec.id db call (env.answer n call))
  stop_if_done-Explained n rec db =
      let addr = resolve_control_addr rec (env.registry n) in
      let call = call_stop addr rec.id in
      elim (Rpc-cases (env.answer n call)) [
        | inr bad ↦ inl (stop_if_done-db (env.write_fails n) rec.id db call (env.answer n call) bad)
        | inl ok ↦ elim (written-cases (env.write_fails n) db (update_status rec.id "stopped" db)) [
          | inl same ↦ inl (rw ok same)
          | inr stopped ↦
              inr (inl (rw ok stopped, (addr, resolved rec (env.registry n), rw ok (inl refl), ok)))
        ]
      ]

  pub act_stop-Explained :
      (cutoff : ℤ) (n : ℕ) (rec : SandboxRecord) (db : Database)
      → Explained n rec db (act_stop env cfg nanos n cutoff rec db)
  unfolding act_stop
  act_stop-Explained cutoff n rec db =
      elim (Bool-cases (not (str_eq rec.status "running") || ltb_ℤ cutoff rec.last_active_at)) [
        | inl fresh ↦ rw (act_stop, fresh) (inl refl)
        | inr idle ↦ elim (Bool-cases (orphan_reap_due (env.registry n) rec.runner_id cfg nanos)) [
          | inl due ↦ rw (act_stop, idle, due) (reap-Explained n rec db due)
          | inr not_due ↦ rw (act_stop, idle, not_due) (stop_if_done-Explained n rec db)
        ]
      ]
