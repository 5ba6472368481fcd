-- ===== src/Api/Placement.antt =====
-- `placeSandbox` of internal/api/placement.go: one create on the runner with the lowest use, and on
-- the next one while runners refuse it for capacity. The registry, the runners' answers and the
-- clock change between the attempts, so each is a function of the number of attempts before it.
pub mod Attempts
mod Tests
use n8n_sandbox_service.Base.{
  ℕ, zero, suc, ◌+◌, ◌-◌, ◌*◌, ◌%◌, ◌^◌, ◌≤◌, ◌<◌, ◌≡◌, refl, sym, ap, subst, ◌∙◌, ◌≢◌, ◌↔◌, ◌⊎◌,
  inl, inr, String, Bool, true, false, not, ◌&&◌, ◌||◌, Option, none, some, List, [], ◌∷◌, ◌++◌,
  map, str_eq, eq_iff, eq_refl, arith, ◌==◌, ltb, leb, if◌then◌else◌, length, get_elem?, set,
  length-append, length-map, ℤ, pos, negsuc, ltb_ℤ, leb_ℤ, ◌≤ℤ◌, pos_part, neg_part, lookup, insert,
  erase, keep_entries, contains, remove, trim_right, trim_space, is_some, IsUnique, IsDistinct,
  lookup-nil, lookup-insert, lookup-erase, lookup-keep_entries, insert-IsUnique, erase-IsUnique,
  keep_entries-IsUnique, contains-append, contains-one, contains-remove, append-IsDistinct,
  remove-IsDistinct, Bool-cases, Option-cases, ltb→lt, leb→le, ==_iff, length-insert,
  length-erase-le, length-keep_entries-le,
}
use n8n_sandbox_service.Api.Registry.{Runner}

-- What `PickLowestUsed` answers: a runner's id, `ErrNoRunners`, or another error.
pub data Pick : Type 0 where
  picked : String → Pick
  no_runners : Pick
  pick_failed : Pick

abbrev pub pick_of : Option Runner → Pick
pick_of none = no_runners
pick_of (some run) = picked run.id

-- A runner's answer to the create: `IsCapacityRefusal` tells the refusals from the other errors.
pub data Answer : Type 0 where
  created : Answer
  refused : Answer
  create_failed : Answer

pub data Placement : Type 0 where
  placed : String → Placement
  no_runner : Placement  -- registry.ErrNoRunners
  pick_error : Placement
  create_error : String → Placement
  at_capacity : Placement  -- errRunnersAtCapacity

-- The rest of the program that `placeSandbox` calls.
pub record Surroundings : Type 0 where
  pub pick : ℕ → List String → Pick
  pub answer : ℕ → String → Answer
  pub late : ℕ → Bool  -- the budget has passed or the client has gone, after that many attempts

abbrev pub create_placement_attempts : ℕ
create_placement_attempts = 3

abbrev pub is_empty : List String → Bool
is_empty [] = true
is_empty (x ∷ l) = false

-- The loop: the result and the runners that a create was sent to, in order. `refused_by` is what the
-- loop has so far; its length is `attempts`.
unfoldable pub try_runners : Surroundings → ℕ → List String → Placement × List String
try_runners s zero refused_by = (at_capacity, refused_by)
try_runners s (suc fuel) refused_by =
    let attempts = length refused_by in
    let next = λ (id : String). try_runners s fuel (refused_by ++ (id ∷ [])) in
    elim (s.pick attempts refused_by) [
      | no_runners ↦ (if is_empty refused_by then no_runner else at_capacity, refused_by)
      | pick_failed ↦ (pick_error, refused_by)
      | picked id ↦ elim (s.answer attempts id) [
        | created ↦ (placed id, refused_by ++ (id ∷ []))
        | create_failed ↦ (create_error id, refused_by ++ (id ∷ []))
        | refused ↦
            let rest = next id in
            if leb create_placement_attempts (attempts + 1) || s.late (attempts + 1)
            then (at_capacity, refused_by ++ (id ∷ []))
            else rest
      ]
    ]

-- One unit of fuel for each attempt.
unfoldable pub place_sandbox : Surroundings → Placement × List String
unfolding try_runners
place_sandbox s = try_runners s create_placement_attempts []
