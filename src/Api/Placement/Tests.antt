-- ===== src/Api/Placement/Tests.antt =====
-- A placement at a concrete input: the first runner refuses, the second takes the create.
use n8n_sandbox_service.Base.{
  ℕ, ◌+◌, ◌≤◌, ◌≡◌, refl, sym, subst, String, Bool, true, false, List, [], ◌∷◌, str_eq,
  if◌then◌else◌, length, pos, contains, IsDistinct,
}
use n8n_sandbox_service.Api.Registry.{
  MemoryRegistry, new_memory, upsert, Heartbeat, pick_lowest_used,
}
use n8n_sandbox_service.Api.Registry.Validity.{Reach, registry-IsValid, start, upserted}
use n8n_sandbox_service.Api.Placement.{
  Pick, picked, no_runners, created, refused, placed, Surroundings, pick_of,
  create_placement_attempts, try_runners, place_sandbox,
}
use n8n_sandbox_service.Api.Placement.Attempts.{
  Explains, picked_inj, picked-no_runners, place_sandbox-Explains, picked_inj, picked-no_runners,
  place_sandbox-enough, place_sandbox-registry,
}

abbrev first_free : Bool → Bool → Pick
first_free false b = picked "r1"
first_free true false = picked "r2"
first_free true true = no_runners

first_free-free :
    (exclude : List String) (id : String) (b c : Bool)
    → contains "r1" exclude ≡ b
    → contains "r2" exclude ≡ c
    → first_free b c ≡ picked id
    → contains id exclude ≡ false
first_free-free exclude id false c p q h = subst (λ i. contains i exclude ≡ false) (picked_inj h) p
first_free-free exclude id true false p q h =
    subst (λ i. contains i exclude ≡ false) (picked_inj h) q
first_free-free exclude id true true p q h = absurd (picked-no_runners (sym h))

abbrev two : Surroundings
two = record {
  pick = λ n exclude. first_free (contains "r1" exclude) (contains "r2" exclude);
  answer = λ n id. if str_eq id "r1" then refused else created;
  late = λ n. false;
}

two-Excludes :
    (n : ℕ) (exclude : List String) (id : String)
    → two.pick n exclude ≡ picked id
    → contains id exclude ≡ false
two-Excludes n exclude id h = first_free-free exclude id _ _ refl refl h

place_sandbox-Explains_example :
    IsDistinct (place_sandbox two).1
    × (length (place_sandbox two).1 ≤ create_placement_attempts)
    × Explains two (place_sandbox two).0 (place_sandbox two).1
place_sandbox-Explains_example = place_sandbox-Explains two two-Excludes

place_sandbox-enough_example :
    try_runners two (create_placement_attempts + 4) [] ≡ place_sandbox two
place_sandbox-enough_example = place_sandbox-enough two 4

second-test : place_sandbox two ≡ (placed "r2", "r1" ∷ "r2" ∷ [])
unfolding place_sandbox try_runners contains
second-test = refl

abbrev beat : Heartbeat
beat = record {
  id = "r1";
  http_base_url = "http://a/";
  control_grpc_addr = "a:1";
  healthy = true;
  cordoned = false;
  capacity_total = pos 4;
  capacity_used = pos 3;
  capacity_stopped = pos 0;
}

abbrev one_runner : MemoryRegistry
one_runner = upsert beat 10 (new_memory (pos 1000))

one_runner-Reach : Reach (pos 1000) one_runner
one_runner-Reach = upserted beat 10 start

abbrev over_one : Surroundings
over_one = record {
  pick = λ n ex. pick_of (pick_lowest_used ex 20 one_runner);
  answer = λ n id. refused;
  late = λ n. false;
}

place_sandbox-registry_example :
    IsDistinct (place_sandbox over_one).1
    × (length (place_sandbox over_one).1 ≤ create_placement_attempts)
    × Explains over_one (place_sandbox over_one).0 (place_sandbox over_one).1
place_sandbox-registry_example =
    place_sandbox-registry (λ n. one_runner) (λ n. 20) (λ n. registry-IsValid one_runner-Reach)
      (λ n id. refused) (λ n. false)
