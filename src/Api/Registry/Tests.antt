-- ===== src/Api/Registry/Tests.antt =====
-- Registries at concrete inputs.
use n8n_sandbox_service.Base.{
  ◌≡◌, refl, true, false, none, some, [], ◌∷◌, map, pos, ◌≤ℤ◌, lookup, insert, erase, contains,
  trim_right, trim_space,
}
use n8n_sandbox_service.Api.Registry.{
  Runner, MemoryRegistry, Heartbeat, new_memory, runner_of, upsert, pick_lowest_used,
  pick_round_robin, eligible, is_eligible, best_of,
}
use n8n_sandbox_service.Api.Registry.Validity.{IsValid, Reach, start, upserted, registry-IsValid}
use n8n_sandbox_service.Api.Registry.Choice.{pick_lowest_used-lowest, IsCandidate}

abbrev first_beat : Heartbeat
first_beat = record {
  id = "r1";
  http_base_url = "http://a/";
  control_grpc_addr = " a:1 ";
  healthy = true;
  cordoned = false;
  capacity_total = pos 4;
  capacity_used = pos 3;
  capacity_stopped = pos 0;
}

abbrev second_beat : Heartbeat
second_beat = record {
  id = "r2";
  http_base_url = "http://b";
  control_grpc_addr = "b:1";
  healthy = true;
  cordoned = false;
  capacity_total = pos 4;
  capacity_used = pos 1;
  capacity_stopped = pos 0;
}

abbrev two_runners : MemoryRegistry
two_runners = upsert second_beat 20 (upsert first_beat 10 (new_memory (pos 1000)))

abbrev two_Reach : Reach (pos 1000) two_runners
two_Reach = upserted second_beat 20 (upserted first_beat 10 start)

registry-IsValid_example : IsValid two_runners
registry-IsValid_example = registry-IsValid two_Reach

pick_lowest_used-lowest_example :
    ((b : Runner)
      → pick_lowest_used [] 30 two_runners ≡ some b
      → IsCandidate 30 two_runners b
        × (contains b.id [] ≡ false)
        × ((run : Runner)
            → IsCandidate 30 two_runners run
            → contains run.id [] ≡ false
            → b.capacity_used ≤ℤ run.capacity_used))
    × (pick_lowest_used [] 30 two_runners ≡ none
        → (run : Runner) → IsCandidate 30 two_runners run
        → contains run.id [] ≡ true)
pick_lowest_used-lowest_example =
    pick_lowest_used-lowest [] 30 two_runners (registry-IsValid two_Reach)

turn-test : (pick_round_robin 30 two_runners).1 ≡ some (runner_of first_beat 10)
unfolding pick_round_robin upsert new_memory runner_of eligible is_eligible trim_right trim_space
    lookup insert contains erase
turn-test = refl

lowest-test : pick_lowest_used [] 30 two_runners ≡ some (runner_of second_beat 20)
unfolding upsert new_memory runner_of eligible is_eligible best_of pick_lowest_used trim_right
    trim_space lookup insert contains erase
lowest-test = refl

next-test : pick_lowest_used ("r2" ∷ []) 30 two_runners ≡ some (runner_of first_beat 10)
unfolding upsert new_memory runner_of eligible is_eligible best_of pick_lowest_used trim_right
    trim_space lookup insert contains erase
next-test = refl

trimmed-test :
    map (λ (r : Runner). r.http_base_url) (eligible 30 two_runners) ≡ "http://a" ∷ "http://b" ∷ []
unfolding upsert new_memory runner_of eligible is_eligible best_of pick_lowest_used trim_right
    trim_space lookup insert contains erase
trimmed-test = refl
