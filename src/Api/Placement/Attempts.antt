-- ===== src/Api/Placement/Attempts.antt =====
-- What a placement leaves on the runners.
use n8n_sandbox_service.Base.{
  ℕ, zero, suc, ◌+◌, ◌≤◌, ◌≡◌, refl, sym, ap, subst, ◌∙◌, ◌≢◌, ◌⊎◌, inl, inr, String, Bool, true,
  false, ◌||◌, List, [], ◌∷◌, ◌++◌, arith, leb, if◌then◌else◌, length, length-append, contains,
  IsDistinct, append-IsDistinct, Bool-cases, Option-cases,
}
use n8n_sandbox_service.Api.Registry.{MemoryRegistry, pick_lowest_used}
use n8n_sandbox_service.Api.Registry.Validity.{IsValid}
use n8n_sandbox_service.Api.Registry.Choice.{pick_lowest_used-lowest}
use n8n_sandbox_service.Api.Placement.{
  Pick, picked, no_runners, pick_failed, Answer, created, refused, create_failed, Placement, placed,
  no_runner, pick_error, create_error, at_capacity, Surroundings, create_placement_attempts,
  is_empty, try_runners, place_sandbox, pick_of,
}

-- The runners refused, in order, the create of the attempts from number `n` on.
abbrev AllRefused : Surroundings → ℕ → List String → Type 0
AllRefused s n [] = Unit
AllRefused s n (id ∷ l) = (s.answer n id ≡ refused) × AllRefused s (suc n) l

-- All runners but the last refused, and the last gave the answer.
abbrev LastAnswer : Surroundings → Answer → String → List String → Type 0
LastAnswer s a id tried =
    (before : List String) × (tried ≡ before ++ (id ∷ []))
    × AllRefused s 0 before
    × (s.answer (length before) id ≡ a)

-- What each result says of the runners that a create was sent to.
abbrev pub Explains : Surroundings → Placement → List String → Type 0
Explains s (placed id) tried = LastAnswer s created id tried
Explains s (create_error id) tried = LastAnswer s create_failed id tried
Explains s no_runner tried = tried ≡ []
Explains s at_capacity tried = (tried ≢ []) × AllRefused s 0 tried
Explains s pick_error tried = AllRefused s 0 tried

-- `PickLowestUsed` answers no runner that it is told to exclude.
abbrev Excludes : Surroundings → Type 0
Excludes s =
    (n : ℕ) (exclude : List String) (id : String)
    → s.pick n exclude ≡ picked id
    → contains id exclude ≡ false

append-AllRefused :
    (s : Surroundings) (n : ℕ) (l : List String) (id : String)
    → AllRefused s n l
    → s.answer (n + length l) id ≡ refused
    → AllRefused s n (l ++ (id ∷ []))
append-AllRefused s n [] id all h = (subst (λ k. s.answer k id ≡ refused) (omega arith) h, tt)
append-AllRefused s n (x ∷ l) id all h = (
  all.0,
  append-AllRefused s (suc n) l id all.1 (subst (λ k. s.answer k id ≡ refused) (omega arith) h),
)

append-ne_nil : (l : List String) (id : String) → l ++ (id ∷ []) ≢ []
append-ne_nil [] id e = absurd (cc)
append-ne_nil (x ∷ l) id e = absurd (cc)

pub picked-no_runners : {id : String} → picked id ≡ no_runners → ⊥
picked-no_runners e = absurd (cc)

pub picked_inj : {i j : String} → picked i ≡ picked j → i ≡ j
picked_inj e = cc

Pick-cases : (p : Pick) → ((id : String) × (p ≡ picked id)) ⊎ (p ≡ no_runners) ⊎ (p ≡ pick_failed)
Pick-cases (picked id) = inl (id, refl)
Pick-cases no_runners = inr (inl refl)
Pick-cases pick_failed = inr (inr refl)

Answer-cases : (a : Answer) → (a ≡ created) ⊎ (a ≡ create_failed) ⊎ (a ≡ refused)
Answer-cases created = inl refl
Answer-cases create_failed = inr (inl refl)
Answer-cases refused = inr (inr refl)

abbrev Sound : Surroundings → Placement × List String → Type 0
Sound s o = IsDistinct o.1 × (length o.1 ≤ create_placement_attempts) × Explains s o.0 o.1

no_runner-Sound :
    (s : Surroundings) (l : List String)
    → AllRefused s 0 l
    → Explains s (if is_empty l then no_runner else at_capacity) l
no_runner-Sound s [] all = refl
no_runner-Sound s (x ∷ l) all = (λ e. absurd (cc), all)

-- The turns of the loop.
module _ (s : Surroundings) (fuel : ℕ) (l : List String) where
  abbrev after : String → List String
  after id = l ++ (id ∷ [])

  turn-nobody :
      s.pick (length l) l ≡ no_runners
      → try_runners s (suc fuel) l ≡ (if is_empty l then no_runner else at_capacity, l)
  unfolding try_runners
  turn-nobody e = rw (try_runners, e) refl

  turn-failed : s.pick (length l) l ≡ pick_failed → try_runners s (suc fuel) l ≡ (pick_error, l)
  unfolding try_runners
  turn-failed e = rw (try_runners, e) refl

  module _ {id : String} (chosen : s.pick (length l) l ≡ picked id) where
    turn-created :
        s.answer (length l) id ≡ created → try_runners s (suc fuel) l ≡ (placed id, after id)
    unfolding try_runners
    turn-created e = rw (try_runners, chosen, e) refl

    turn-error :
        s.answer (length l) id ≡ create_failed
        → try_runners s (suc fuel) l ≡ (create_error id, after id)
    unfolding try_runners
    turn-error e = rw (try_runners, chosen, e) refl

    turn-stop :
        s.answer (length l) id ≡ refused
        → (leb create_placement_attempts (length l + 1) || s.late (length l + 1)) ≡ true
        → try_runners s (suc fuel) l ≡ (at_capacity, after id)
    unfolding try_runners
    turn-stop e h = rw (try_runners, chosen, e, h) refl

    turn-on :
        s.answer (length l) id ≡ refused
        → (leb create_placement_attempts (length l + 1) || s.late (length l + 1)) ≡ false
        → try_runners s (suc fuel) l ≡ try_runners s fuel (after id)
    unfolding try_runners
    turn-on e h = rw (try_runners, chosen, e, h) refl

try_runners-Sound :
    (s : Surroundings) (ex : Excludes s) (fuel : ℕ) (l : List String)
    → IsDistinct l
    → AllRefused s 0 l
    → length l + fuel ≡ create_placement_attempts
    → fuel ≢ 0
    → Sound s (try_runners s fuel l)
try_runners-Sound s ex zero l d all len more = absurd (more refl)
try_runners-Sound s ex (suc fuel) l d all len more = elim (Pick-cases (s.pick (length l) l)) [
  | inr (inl nobody) ↦
      subst (Sound s) (sym (turn-nobody s fuel l nobody))
        (d, omega (arith, len), no_runner-Sound s l all)
  | inr (inr bad) ↦ subst (Sound s) (sym (turn-failed s fuel l bad)) (d, omega (arith, len), all)
  | inl (id, chosen) ↦
      let fresh = append-IsDistinct l id d (ex (length l) l id chosen) in
      let short : length (l ++ (id ∷ [])) ≤ create_placement_attempts =
        omega (arith, len, length-append l (id ∷ [])) in
      elim (Answer-cases (s.answer (length l) id)) [
        | inl ok ↦
            subst (Sound s) (sym (turn-created s fuel l chosen ok))
              (fresh, short, (l, refl, all, ok))
        | inr (inl bad) ↦
            subst (Sound s) (sym (turn-error s fuel l chosen bad))
              (fresh, short, (l, refl, all, bad))
        | inr (inr refuses) ↦
            let now_all =
              append-AllRefused s 0 l id all
                (subst (λ k. s.answer k id ≡ refused) (omega arith) refuses) in
            elim (Bool-cases
              (leb create_placement_attempts (length l + 1) || s.late (length l + 1))) [
                | inl stop ↦
                    subst (Sound s) (sym (turn-stop s fuel l chosen refuses stop))
                      (fresh, short, (append-ne_nil l id, now_all))
                | inr on ↦ subst (Sound s) (sym (turn-on s fuel l chosen refuses on)) (
                    try_runners-Sound s ex fuel (l ++ (id ∷ [])) fresh now_all
                      (omega (arith, len, length-append l (id ∷ []))) (ground (arith, on, len)))
              ]
      ]
]

-- If the registry answers no excluded runner, a placement sends the create to at most three runners
-- and to none twice. Its result is the last one's answer where that is a success or an error other
-- than a refusal, and then all before it refused; `ErrNoRunners` means that no create was sent, and
-- `errRunnersAtCapacity` that at least one was and that every runner refused it.
pub place_sandbox-Explains :
    (s : Surroundings)
    → Excludes s
    → IsDistinct (place_sandbox s).1
      × (length (place_sandbox s).1 ≤ create_placement_attempts)
      × Explains s (place_sandbox s).0 (place_sandbox s).1
unfolding place_sandbox
place_sandbox-Explains s ex =
    try_runners-Sound s ex create_placement_attempts [] tt tt (omega arith) (omega arith)

try_runners-more :
    (s : Surroundings) (fuel extra : ℕ) (l : List String)
    → length l + fuel ≡ create_placement_attempts
    → fuel ≢ 0
    → try_runners s (fuel + extra) l ≡ try_runners s fuel l
try_runners-more s zero extra l len more = absurd (more refl)
try_runners-more s (suc fuel) extra l len more =
    ap (λ k. try_runners s k l) {y = suc (fuel + extra)} (omega arith)
    ∙ elim (Pick-cases (s.pick (length l) l)) [
      | inr (inl nobody) ↦ turn-nobody s (fuel + extra) l nobody ∙ sym (turn-nobody s fuel l nobody)
      | inr (inr bad) ↦ turn-failed s (fuel + extra) l bad ∙ sym (turn-failed s fuel l bad)
      | inl (id, chosen) ↦ elim (Answer-cases (s.answer (length l) id)) [
        | inl ok ↦ turn-created s (fuel + extra) l chosen ok ∙ sym (turn-created s fuel l chosen ok)
        | inr (inl bad) ↦
            turn-error s (fuel + extra) l chosen bad ∙ sym (turn-error s fuel l chosen bad)
        | inr (inr refuses) ↦
            elim (Bool-cases
              (leb create_placement_attempts (length l + 1) || s.late (length l + 1))) [
                | inl stop ↦
                    turn-stop s (fuel + extra) l chosen refuses stop
                    ∙ sym (turn-stop s fuel l chosen refuses stop)
                | inr on ↦
                    turn-on s (fuel + extra) l chosen refuses on
                    ∙ try_runners-more s fuel extra (l ++ (id ∷ []))
                        (omega (arith, len, length-append l (id ∷ []))) (ground (arith, on, len))
                    ∙ sym (turn-on s fuel l chosen refuses on)
              ]
      ]
    ]

-- Three turns of the loop are enough: with more of them the result is the same.
pub place_sandbox-enough :
    (s : Surroundings) (extra : ℕ)
    → try_runners s (create_placement_attempts + extra) [] ≡ place_sandbox s
unfolding place_sandbox
place_sandbox-enough s extra =
    try_runners-more s create_placement_attempts extra [] (omega arith) (omega arith)

-- A placement over the in-memory registry excludes the runners that refused, whatever happens to
-- the registry between its attempts.
pick_of-Excludes :
    (registries : ℕ → MemoryRegistry) (clock : ℕ → ℕ)
    → ((n : ℕ) → IsValid (registries n))
    → (answer : ℕ → String → Answer) (late : ℕ → Bool)
    → Excludes (record {
      pick = λ n ex. pick_of (pick_lowest_used ex (clock n) (registries n));
      answer = answer;
      late = late;
    })
pick_of-Excludes registries clock valid answer late n exclude id h =
    elim (Option-cases (pick_lowest_used exclude (clock n) (registries n))) [
      | inl nobody ↦ absurd (picked-no_runners (sym h ∙ ap pick_of nobody))
      | inr (run, found) ↦
          subst (λ i. contains i exclude ≡ false) (picked_inj (sym (ap pick_of found) ∙ h))
            ((pick_lowest_used-lowest exclude (clock n) (registries n) (valid n)).0 run found).1
    ]

-- A create that is placed over in-memory registries that are valid, one at each attempt, goes to at
-- most three runners and to none twice, and its result says truly what the runners answered.
pub place_sandbox-registry :
    (registries : ℕ → MemoryRegistry) (clock : ℕ → ℕ)
    → ((n : ℕ) → IsValid (registries n))
    → (answer : ℕ → String → Answer) (late : ℕ → Bool)
    → let s : Surroundings = record {
      pick = λ n ex. pick_of (pick_lowest_used ex (clock n) (registries n));
      answer = answer;
      late = late;
    } in
      IsDistinct (place_sandbox s).1
      × (length (place_sandbox s).1 ≤ create_placement_attempts)
      × Explains s (place_sandbox s).0 (place_sandbox s).1
place_sandbox-registry registries clock valid answer late =
    place_sandbox-Explains _ (pick_of-Excludes registries clock valid answer late)
