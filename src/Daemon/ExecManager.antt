-- ===== src/Daemon/ExecManager.antt =====
-- internal/daemon/exec_manager.go: the executions by id. An execution is shared by the map, its
-- command's goroutine and the requests that hold it, so it lives in a heap and the map holds
-- addresses. Each method runs under the manager's lock; the goroutine's appends are `emit`.
-- `github.com/google/uuid` is the argument `uuid`, the id that it would generate.
pub mod Lifetime
mod Tests
use n8n_sandbox_service.Base.{
  ℕ, ◌+◌, String, Bool, true, false, Option, none, some, List, [], ◌∷◌, ◌==◌, if◌then◌else◌, str_eq,
  lookup, insert, erase, keep_entries, ℤ, sub_ℕ, ltb_ℤ, not,
}
use n8n_sandbox_service.Daemon.Execution.{
  Response, Execution, new_execution, new_started_response, append,
}

-- A command handed to a goroutine, which reports to the execution at `address`.
pub record Launch : Type 0 where
  pub address : ℕ
  pub command : String
  pub env : List String
  pub workdir : String
  pub timeout : ℤ

pub record ExecManager : Type 0 where
  pub heap : ℕ → Execution
  pub next : ℕ
  pub executions : List (String × ℕ)
  pub launched : List Launch
  pub max_event_bytes : ℤ
  pub exec_retain_period : ℤ

abbrev pub update : (ℕ → Execution) → ℕ → Execution → ℕ → Execution
update heap a ex b = if b == a then ex else heap b

unfoldable pub get : String → ExecManager → Option ℕ
get exec_id m = lookup exec_id m.executions

unfoldable pub delete : String → ExecManager → ExecManager × Bool
delete exec_id m = elim (lookup exec_id m.executions) [
  | none ↦ (m, false)
  | some a ↦ (
    record m {
      heap = update m.heap a (record (m.heap a) { cancelled = true });
      executions = erase exec_id m.executions;
    },
    true,
  )
]

-- Completed, and for longer than the retain period.
abbrev pub is_expired : ℕ → ℤ → Execution → Bool
is_expired now period ex = elim ex.completed_at [
  | none ↦ false
  | some at ↦ ltb_ℤ period (sub_ℕ now at)
]

unfoldable pub gc : ℕ → ExecManager → ExecManager
gc now m = record m {
  executions =
      keep_entries (λ _ a. not (is_expired now m.exec_retain_period (m.heap a))) m.executions;
}

module _ (marshal : Response → List ℕ) where
  -- The part of `GetOrCreate` behind the lookup.
  unfoldable pub create :
      String → String → List String → String → ℤ → ℕ → ExecManager → ExecManager × ℕ
  create exec_id command env workdir timeout now m = (
    record m {
      heap = update m.heap m.next (
          append marshal (new_started_response exec_id) now
            (new_execution exec_id m.max_event_bytes));
      next = m.next + 1;
      executions = insert exec_id m.next m.executions;
      launched =
          record {
            address = m.next;
            command = command;
            env = env;
            workdir = workdir;
            timeout = timeout;
          }
          ∷ m.launched;
    },
    m.next,
  )

  unfoldable pub get_or_create :
      String → String → String → List String → String → ℤ → ℕ → ExecManager → ExecManager × ℕ
  unfolding create
  get_or_create uuid exec_id command env workdir timeout now m =
      if str_eq exec_id ""
      then create uuid command env workdir timeout now m
      else elim (lookup exec_id m.executions) [
        | some a ↦ (m, a)
        | none ↦ create exec_id command env workdir timeout now m
      ]

  -- What the goroutine of the execution at `a` does with each event, and with an error or a panic.
  unfoldable pub emit : ℕ → Response → ℕ → ExecManager → ExecManager
  emit a resp now m = record m { heap = update m.heap a (append marshal resp now (m.heap a)) }
