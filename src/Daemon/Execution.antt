-- ===== src/Daemon/Execution.antt =====
-- internal/daemon/execution.go and the event type of internal/daemon/protocol.go: the bounded event
-- history of one command. A method takes the execution under its lock and returns the new one.
-- `encoding/json` is the parameter `marshal`. A `uint64` wraps at 2 ^ 64; the byte count `size` is
-- the length of data held in memory and stays below the range of `int64`.
pub mod Log
pub mod History
pub mod Requests
pub mod Following
pub mod Sessions
mod Tests
use n8n_sandbox_service.Base.{
  ℕ, ◌+◌, ◌-◌, ◌%◌, ◌^◌, String, Bool, true, false, Option, none, some, List, [], ◌∷◌, ◌++◌, map,
  leb, ◌==◌, ◌||◌, if◌then◌else◌, length, drop, ℤ, pos, ltb_ℤ,
}

pub data ResponseType : Type 0 where
  started stdout stderr exit error : ResponseType

pub record Response : Type 0 where
  pub seq : Option ℕ
  pub type : ResponseType
  pub exec_id : String
  pub text : String  -- `Data`
  pub exit_code : ℤ
  pub success : Option Bool
  pub execution_time_ms : ℤ
  pub timed_out : Option Bool
  pub killed : Option Bool
  pub error_text : String  -- `Error`

unfoldable pub blank_response : ResponseType → Response
blank_response t = record {
  seq = none;
  type = t;
  exec_id = "";
  text = "";
  exit_code = pos 0;
  success = none;
  execution_time_ms = pos 0;
  timed_out = none;
  killed = none;
  error_text = "";
}

unfoldable pub new_started_response : String → Response
unfolding blank_response
new_started_response exec_id = record (blank_response ResponseType.started) {
  seq = some 0;
  exec_id = exec_id;
}

unfoldable pub new_error_response : String → Response
unfolding blank_response
new_error_response msg = record (blank_response ResponseType.error) { error_text = msg }

abbrev is_terminal_type : ResponseType → Bool
is_terminal_type ResponseType.exit = true
is_terminal_type ResponseType.error = true
is_terminal_type _ = false

abbrev is_terminal : Response → Bool
is_terminal r = is_terminal_type r.type

pub record StoredEvent : Type 0 where
  pub seq : ℕ  -- uint64
  pub bytes : List ℕ  -- `data`

-- `notify` is the number of the channel that waiters select on; those with a lower number are
-- closed. `completed_at` is `none` for the zero time.
pub record Execution : Type 0 where
  pub id : String
  pub events : List StoredEvent
  pub size : ℕ  -- int64
  pub max_event_bytes : ℤ  -- int64
  pub min_seq : ℕ  -- uint64
  pub next_seq : ℕ  -- uint64
  pub completed : Bool
  pub completed_at : Option ℕ
  pub cancelled : Bool
  pub notify : ℕ

abbrev pub uint64 : ℕ → ℕ
uint64 n = n % 2 ^ 64

abbrev pub max_uint64 : ℕ
max_uint64 = 18446744073709551615

unfoldable pub new_execution : String → ℤ → Execution
new_execution id max_event_bytes = record {
  id = id;
  events = [];
  size = 0;
  max_event_bytes = max_event_bytes;
  min_seq = 0;
  next_seq = 0;
  completed = false;
  completed_at = none;
  cancelled = false;
  notify = 0;
}

pub record Retained : Type 0 where
  pub events : List StoredEvent
  pub size : ℕ
  pub min_seq : ℕ

-- The loop of `append` that drops the oldest events while the history is too large.
unfoldable pub trim : ℤ → List StoredEvent → ℕ → ℕ → Retained
trim max [] size min_seq = record { events = []; size = size; min_seq = min_seq }
trim max (e ∷ []) size min_seq = record { events = e ∷ []; size = size; min_seq = min_seq }
trim max (e ∷ f ∷ rest) size min_seq =
    let dropped = trim max (f ∷ rest) (size - length e.bytes) f.seq in
    if ltb_ℤ max (pos size)
    then dropped
    else record { events = e ∷ f ∷ rest; size = size; min_seq = min_seq }

-- What a Go function does: it returns, or it panics.
pub data Outcome {ℓ} (A : Type ℓ) : Type ℓ where
  returns : A → Outcome A
  panics : Outcome A

-- `int(n)` of a `uint64` on a 64-bit machine is negative from 2 ^ 63 on.
abbrev is_negative_int : ℕ → Bool
is_negative_int n = leb 9223372036854775808 n

abbrev pub tail_from : ℕ → List StoredEvent → Outcome (List (List ℕ))
tail_from start events =
    if is_negative_int start
    then panics
    else if leb (length events) start
    then returns []
    else returns (map (λ e. e.bytes) (drop start events))

-- A `start` that is negative as an `int` passes the test `start >= len(ex.events)` and makes the
-- slice `ex.events[start:]` panic.
unfoldable pub events_after : Execution → Option ℕ → Outcome (List (List ℕ))
events_after ex none = tail_from 0 ex.events
events_after ex (some after) =
    if after == max_uint64
    then returns []
    else tail_from
        (if leb ex.min_seq after then uint64 (uint64 (after + 2 ^ 64 - ex.min_seq) + 1) else 0)
        ex.events

unfoldable pub has_history_after : Execution → Option ℕ → Bool
has_history_after ex none = ex.min_seq == 0
has_history_after ex (some after) = after == max_uint64 || leb ex.min_seq (uint64 (after + 1))

-- `none` is the result `nil, false`.
unfoldable pub snapshot : Execution → Option ℕ → Outcome (Option (List (List ℕ)))
unfolding events_after has_history_after
snapshot ex after =
    if has_history_after ex after
    then elim (events_after ex after) [ panics ↦ panics | returns batch ↦ returns (some batch) ]
    else returns none

-- One turn of the loop of `Follow`, up to the `select`.
pub data Turn : Type 0 where
  gone : Turn  -- `return false`
  delivers : List (List ℕ) → Option ℕ → Bool → Turn  -- the batch, the new `after`, `completed`

abbrev pub last_seq : List StoredEvent → Option ℕ → Option ℕ
last_seq [] after = after
last_seq (e ∷ []) after = some e.seq
last_seq (e ∷ f ∷ rest) after = last_seq (f ∷ rest) after

abbrev pub next_after : List (List ℕ) → Execution → Option ℕ → Option ℕ
next_after [] ex after = after
next_after (b ∷ bs) ex after = last_seq ex.events after

unfoldable pub follow_turn : Execution → Option ℕ → Outcome Turn
unfolding events_after has_history_after
follow_turn ex after =
    if has_history_after ex after
    then elim (events_after ex after) [
      | panics ↦ panics
      | returns batch ↦ returns (delivers batch (next_after batch ex after) ex.completed)
    ]
    else returns gone

module _ (marshal : Response → List ℕ) where
  -- `now` is the time that the call reads.
  unfoldable pub append : Response → ℕ → Execution → Execution
  unfolding trim
  append resp now ex = record ex {
    events = kept.events;
    size = kept.size;
    min_seq = kept.min_seq;
    next_seq = uint64 (ex.next_seq + 1);
    completed = ex.completed || is_terminal resp;
    completed_at = if is_terminal resp then some now else ex.completed_at;
    notify = ex.notify + 1;
  }
    where
      bytes : List ℕ
      bytes = marshal (record resp { seq = some ex.next_seq })

      event : StoredEvent
      event = record { seq = ex.next_seq; bytes = bytes }

      kept : Retained
      kept = trim ex.max_event_bytes (ex.events ++ event ∷ []) (ex.size + length bytes) ex.min_seq
