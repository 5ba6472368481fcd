-- ===== src/Daemon/ExecManager/Lifetime.antt =====
-- What the manager of internal/daemon/exec_manager.go keeps, and for how long.
use n8n_sandbox_service.Base.{
  ℕ, ◌<◌, ◌≡◌, refl, ap, ◌∙◌, ◌≢◌, inl, inr, ◌⊎◌, String, false, true, none, some, ltb_ℤ, pos, ◌+ℤ◌,
  +ℤ_parts, List, [], ◌∷◌, arith, str_eq, eq_iff, eq_refl, lookup, IsUnique, lookup-nil,
  lookup-insert, lookup-erase, lookup-keep_entries, lookup_of-keep_entries, insert-IsUnique,
  erase-IsUnique, keep_entries-IsUnique, ℤ, Bool-cases, Option-cases,
}
use n8n_sandbox_service.Daemon.Execution.{Response, Execution, append, new_execution}
use n8n_sandbox_service.Daemon.ExecManager.{
  ExecManager, get, delete, is_expired, gc, create, get_or_create, emit,
}

-- Every id leads to an execution of that id, and no two ids to one execution.
pub record IsValid (m : ExecManager) : Type 0 where
  pub unique : IsUnique m.executions
  pub named :
      (k : String) (a : ℕ) → lookup k m.executions ≡ some a → (a < m.next) × ((m.heap a).id ≡ k)

module _ (marshal : Response → List ℕ) where
  create-IsValid :
      (exec_id command : String) (env : List String) (workdir : String) (timeout : ℤ) (now : ℕ)
      (m : ExecManager)
      → IsValid m
      → IsValid (create marshal exec_id command env workdir timeout now m).0
  unfolding create append new_execution
  create-IsValid exec_id command env workdir timeout now m v = record {
    unique = insert-IsUnique exec_id m.next m.executions v.unique;
    named = λ k a e.
        ground (arith, lookup-insert exec_id k m.next m.executions, eq_iff exec_id k, v.named k a);
  }

  get_or_create-IsValid :
      (uuid exec_id command : String) (env : List String) (workdir : String) (timeout : ℤ) (now : ℕ)
      (m : ExecManager)
      → IsValid m
      → IsValid (get_or_create marshal uuid exec_id command env workdir timeout now m).0
  unfolding get_or_create
  get_or_create-IsValid uuid exec_id command env workdir timeout now m v =
      elim (Bool-cases (str_eq exec_id "")) [
        | inl empty ↦
            rw (empty, get_or_create) (create-IsValid uuid command env workdir timeout now m v)
        | inr other ↦ elim (Option-cases (lookup exec_id m.executions)) [
          | inl new ↦
              rw (other, new, get_or_create)
                (create-IsValid exec_id command env workdir timeout now m v)
          | inr (a, old) ↦ rw (other, old, get_or_create) v
        ]
      ]

  emit-IsValid :
      (a : ℕ) (resp : Response) (now : ℕ) (m : ExecManager)
      → IsValid m
      → IsValid (emit marshal a resp now m)
  unfolding emit append
  emit-IsValid a resp now m v = record {
    unique = v.unique;
    named = λ k b e. ground (arith, v.named k b e);
  }

delete-IsValid : (exec_id : String) (m : ExecManager) → IsValid m → IsValid (delete exec_id m).0
unfolding delete
delete-IsValid exec_id m v = elim (Option-cases (lookup exec_id m.executions)) [
  | inl missing ↦ rw (missing, delete) v
  | inr (a, found) ↦
      rw (found, delete)
        (record {
          unique = erase-IsUnique exec_id m.executions v.unique;
          named = λ k b e. ground (arith, lookup-erase exec_id k m.executions, v.named k b);
        })
]

gc-IsValid : (now : ℕ) (m : ExecManager) → IsValid m → IsValid (gc now m)
unfolding gc
gc-IsValid now m v = record {
  unique = keep_entries-IsUnique _ m.executions v.unique;
  named = λ k b e. v.named k b (lookup_of-keep_entries _ k m.executions v.unique e);
}

abbrev pub empty : ℤ → ℤ → Execution → ExecManager
empty max_event_bytes period unused = record {
  heap = λ _. unused;
  next = 0;
  executions = [];
  launched = [];
  max_event_bytes = max_event_bytes;
  exec_retain_period = period;
}

module _ (marshal : Response → List ℕ) where
  -- Requests, the cleanup loop and the goroutines, in any order.
  pub data Step (m : ExecManager) : ExecManager → Type 0 where
    requests :
        (uuid exec_id command : String) (env : List String) (workdir : String) (timeout : ℤ)
        (now : ℕ)
        → Step m (get_or_create marshal uuid exec_id command env workdir timeout now m).0
    deletes : (exec_id : String) → Step m (delete exec_id m).0
    collects : (now : ℕ) → Step m (gc now m)
    emits : (a : ℕ) (resp : Response) (now : ℕ) → Step m (emit marshal a resp now m)

  pub data Reach (m : ExecManager) : ExecManager → Type 0 where
    here : Reach m m
    later : {t u : ExecManager} → Reach m t → Step t u → Reach m u

  Step-IsValid : {m t : ExecManager} → Step m t → IsValid m → IsValid t
  Step-IsValid {m} (requests uuid exec_id command env workdir timeout now) v =
      get_or_create-IsValid marshal uuid exec_id command env workdir timeout now m v
  Step-IsValid {m} (deletes exec_id) v = delete-IsValid exec_id m v
  Step-IsValid {m} (collects now) v = gc-IsValid now m v
  Step-IsValid {m} (emits a resp now) v = emit-IsValid marshal a resp now m v

  -- In every reachable state each id of the map leads to a live address, whose execution has that
  -- very id; so no two ids share an execution.
  pub Reach-IsValid :
      (max period : ℤ) (unused : Execution) {m : ExecManager}
      → Reach (empty max period unused) m
      → IsValid m
  Reach-IsValid max period unused here = record {
    unique = tt;
    named = λ k a e. ground (arith, lookup-nil {V = ℕ} k);
  }
  Reach-IsValid max period unused (later r st) = Step-IsValid st (Reach-IsValid max period unused r)

  -- Only the goroutines between two requests for one id.
  unfoldable pub emit_all : List (ℕ × (Response × ℕ)) → ExecManager → ExecManager
  emit_all [] m = m
  emit_all ((a, (resp, now)) ∷ rest) m = emit_all rest (emit marshal a resp now m)

  emit_all-executions :
      (reports : List (ℕ × (Response × ℕ))) (m : ExecManager)
      → (emit_all reports m).executions ≡ m.executions
  unfolding emit_all emit
  emit_all-executions [] m = refl
  emit_all-executions ((a, (resp, now)) ∷ rest) m =
      emit_all-executions rest (emit marshal a resp now m)

  lookup-get_or_create :
      (uuid exec_id command : String) (env : List String) (workdir : String) (timeout : ℤ) (now : ℕ)
      (m : ExecManager)
      → str_eq exec_id "" ≡ false
      → let first = get_or_create marshal uuid exec_id command env workdir timeout now m in
        lookup exec_id first.0.executions ≡ some first.1
  unfolding get_or_create
  lookup-get_or_create uuid exec_id command env workdir timeout now m named =
      ground (arith, lookup-insert exec_id exec_id m.next m.executions, eq_refl exec_id)

  again :
      (uuid exec_id command : String) (env : List String) (workdir : String) (timeout : ℤ)
      (now a : ℕ) (m : ExecManager)
      → str_eq exec_id "" ≡ false
      → lookup exec_id m.executions ≡ some a
      → get_or_create marshal uuid exec_id command env workdir timeout now m ≡ (m, a)
  unfolding get_or_create
  again uuid exec_id command env workdir timeout now a m named found =
      rw (named, found, get_or_create)

  -- Whatever the commands have reported since, a second request with the same id, which is not
  -- empty, gets the execution of the first one, starts no command and changes nothing.
  pub get_or_create_again :
      (uuid uuid' exec_id command command' : String) (env env' : List String)
      (workdir workdir' : String) (timeout timeout' : ℤ) (now now' : ℕ)
      (reports : List (ℕ × (Response × ℕ))) (m : ExecManager)
      → exec_id ≢ ""
      → let first = get_or_create marshal uuid exec_id command env workdir timeout now m in
        let between = emit_all reports first.0 in
        get_or_create marshal uuid' exec_id command' env' workdir' timeout' now' between
        ≡ (between, first.1)
  get_or_create_again uuid uuid' exec_id command command' env env' workdir workdir' timeout timeout'
        now now' reports m named =
      let first = get_or_create marshal uuid exec_id command env workdir timeout now m in
      let full : str_eq exec_id "" ≡ false = ground (arith, eq_iff exec_id "") in
      again uuid' exec_id command' env' workdir' timeout' now' first.1 (emit_all reports first.0)
        full
        (ap (lookup exec_id) (emit_all-executions reports first.0)
          ∙ lookup-get_or_create uuid exec_id command env workdir timeout now m full)

-- The execution completed, and the retain period was over before the given time.
abbrev pub CompletedBefore : ℕ → ℤ → Execution → Type 0
CompletedBefore now period ex =
    (at : ℕ) × (ex.completed_at ≡ some at) × (ltb_ℤ (pos at +ℤ period) (pos now) ≡ true)

is_expired-CompletedBefore :
    (now : ℕ) (period : ℤ) (ex : Execution)
    → is_expired now period ex ≡ true
    → CompletedBefore now period ex
is_expired-CompletedBefore now period ex h = elim (Option-cases ex.completed_at) [
  | inl running ↦ absurd (ground (arith, running))
  | inr (at, there) ↦ (at, there, ground (arith, there, +ℤ_parts (pos at) period))
]

not_expired :
    (now : ℕ) (period : ℤ) (ex : Execution)
    → is_expired now period ex ≡ false
    → ¬ (CompletedBefore now period ex)
not_expired now period ex h (at, there, late) = ground (arith, there, +ℤ_parts (pos at) period)

-- In a valid manager an id that finds nothing finds nothing after `gc`. One that finds an execution
-- finds none after it if that completed, and the retain period after that ended before now; and
-- finds the same one if not.
pub get-gc :
    (now : ℕ) (m : ExecManager) (k : String)
    → IsValid m
    → ((get k m ≡ none) × (get k (gc now m) ≡ none))
      ⊎ ((a : ℕ) × (get k m ≡ some a)
          × (((get k (gc now m) ≡ none) × CompletedBefore now m.exec_retain_period (m.heap a))
              ⊎ ((get k (gc now m) ≡ some a)
                  × (¬ (CompletedBefore now m.exec_retain_period (m.heap a))))))
unfolding get gc
get-gc now m k v = elim (Option-cases (lookup k m.executions)) [
  | inl missing ↦
      let none_after : lookup k (gc now m).executions ≡ none =
        lookup-keep_entries _ k m.executions v.unique ∙ rw missing refl in
      inl (missing, none_after)
  | inr (a, found) ↦ elim (Bool-cases (is_expired now m.exec_retain_period (m.heap a))) [
    | inl old ↦ inr (
      a,
      found,
      inl (
        lookup-keep_entries _ k m.executions v.unique ∙ rw (found, old) refl,
        is_expired-CompletedBefore now m.exec_retain_period (m.heap a) old,
      ),
    )
    | inr young ↦ inr (
      a,
      found,
      inr (
        lookup-keep_entries _ k m.executions v.unique ∙ rw (found, young) refl,
        not_expired now m.exec_retain_period (m.heap a) young,
      ),
    )
  ]
]
