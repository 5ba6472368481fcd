-- ===== src/Api/Registry.antt =====
-- internal/api/registry/memory.go and the `Runner` of registry.go: the runners an API pod knows and
-- the choice of one for a create. The clock is an argument of each operation that reads it; times
-- and durations are nanoseconds.
pub mod Validity
pub mod Choice
mod Tests
use n8n_sandbox_service.Base.{
  ℕ, ◌+◌, ◌-◌, ◌%◌, ◌^◌, String, Bool, true, false, not, ◌&&◌, ◌||◌, Option, none, some, List, [],
  ◌∷◌, ◌++◌, map, str_eq, ◌==◌, ltb, leb, if◌then◌else◌, length, get_elem?, ℤ, pos, negsuc, ltb_ℤ,
  leb_ℤ, pos_part, lookup, insert, erase, contains, remove, trim_right, trim_space, is_some,
}
use Prim.Native.String.{compare as str_compare}
use Prim.Native.Nat.{Ordering}
use Prim.Native.Char.{Char, code}

pub record Runner : Type 0 where
  pub id : String
  pub http_base_url : String
  pub control_grpc_addr : String
  pub healthy : Bool
  pub cordoned : Bool
  pub capacity_total : ℤ  -- int32, here and below
  pub capacity_used : ℤ
  pub capacity_stopped : ℤ
  pub last_seen : ℕ

pub record MemoryRegistry : Type 0 where
  pub runners : List (String × Runner)
  pub order : List String
  pub rr_counter : ℕ  -- uint64
  pub heartbeat_grace : ℕ
  pub removed_at : List (String × ℕ)

abbrev pub uint64 : ℕ
uint64 = 2 ^ 64

abbrev default_grace : ℕ
default_grace = 45000000000

unfoldable pub new_memory : ℤ → MemoryRegistry
new_memory grace = record {
  runners = [];
  order = [];
  rr_counter = 0;
  heartbeat_grace = if leb_ℤ grace (pos 0) then default_grace else pos_part grace;
  removed_at = [];
}

-- What a runner reports in a heartbeat.
pub record Heartbeat : Type 0 where
  pub id : String
  pub http_base_url : String
  pub control_grpc_addr : String
  pub healthy : Bool
  pub cordoned : Bool
  pub capacity_total : ℤ
  pub capacity_used : ℤ
  pub capacity_stopped : ℤ

abbrev is_slash : Char → Bool
is_slash c = code c == 47

unfoldable pub runner_of : Heartbeat → ℕ → Runner
runner_of h now = record {
  id = h.id;
  http_base_url = trim_right is_slash h.http_base_url;
  control_grpc_addr = trim_space h.control_grpc_addr;
  healthy = h.healthy;
  cordoned = h.cordoned;
  capacity_total = h.capacity_total;
  capacity_used = h.capacity_used;
  capacity_stopped = h.capacity_stopped;
  last_seen = now;
}

unfoldable pub upsert : Heartbeat → ℕ → MemoryRegistry → MemoryRegistry
upsert h now r = if str_eq h.id "" || str_eq h.http_base_url "" then r else record r {
  order = if is_some (lookup h.id r.runners) then r.order else r.order ++ (h.id ∷ []);
  runners = insert h.id (runner_of h now) r.runners;
  removed_at = erase h.id r.removed_at;
}

unfoldable pub remove_runner : String → ℕ → MemoryRegistry → MemoryRegistry
remove_runner id now r = if str_eq id "" then r else record r {
  runners = erase id r.runners;
  removed_at = insert id now r.removed_at;
  order = remove id r.order;
}

unfoldable pub get_runner : String → MemoryRegistry → Option Runner
get_runner id r = lookup id r.runners

unfoldable pub gone_long_enough : String → ℤ → ℕ → MemoryRegistry → Bool
gone_long_enough id buffer now r =
    if str_eq id "" || leb_ℤ buffer (pos 0)
    then false
    else if is_some (lookup id r.runners)
    then false
    else elim (lookup id r.removed_at) [
      | none ↦ false
      | some gone_at ↦ leb (gone_at + pos_part buffer) now
    ]

-- The tests of `eligibleLocked` on one runner.
unfoldable pub is_eligible : ℕ → ℕ → Runner → Bool
is_eligible grace now run =
    not (ltb grace (now - run.last_seen))
    && (run.healthy && not run.cordoned)
    && not (ltb_ℤ (pos 0) run.capacity_total && leb_ℤ run.capacity_total run.capacity_used)

abbrev pub eligible_of : (Runner → Bool) → List (String × Runner) → List String → List Runner
eligible_of p runners [] = []
eligible_of p runners (id ∷ order) =
    let rest = eligible_of p runners order in
    elim (lookup id runners) [ none ↦ rest | some run ↦ if p run then run ∷ rest else rest ]

unfoldable pub eligible : ℕ → MemoryRegistry → List Runner
eligible now r = eligible_of (is_eligible r.heartbeat_grace now) r.runners r.order

abbrev text_before : String → String → Bool
text_before a b = elim (str_compare a b) [ Ordering.lt ↦ true | _ ↦ false ]

abbrev pub is_better : Runner → Option Runner → Bool
is_better run none = true
is_better run (some best) =
    ltb_ℤ run.capacity_used best.capacity_used
    || (leb_ℤ run.capacity_used best.capacity_used
        && leb_ℤ best.capacity_used run.capacity_used
        && text_before run.id best.id)

-- One turn of the loop of `PickLowestUsed`, and the loop.
abbrev pub next_best : List String → Runner → Option Runner → Option Runner
next_best exclude run best =
    if not (contains run.id exclude) && is_better run best then some run else best

unfoldable pub best_of : List String → Option Runner → List Runner → Option Runner
best_of exclude best [] = best
best_of exclude best (run ∷ l) = best_of exclude (next_best exclude run best) l

-- `none` is `ErrNoRunners`.
unfoldable pub pick_lowest_used : List String → ℕ → MemoryRegistry → Option Runner
pick_lowest_used exclude now r = best_of exclude none (eligible now r)

-- `none` is `ErrNoRunners`.
unfoldable pub pick_round_robin : ℕ → MemoryRegistry → MemoryRegistry × Option Runner
pick_round_robin now r =
    let l = eligible now r in
    if length l == 0 then (r, none) else (
      record r { rr_counter = (r.rr_counter + 1) % uint64 },
      get_elem? l (r.rr_counter % length l),
    )
