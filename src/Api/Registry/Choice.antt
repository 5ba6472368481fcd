-- ===== src/Api/Registry/Choice.antt =====
-- The runner that `PickLowestUsed` and `PickRoundRobin` choose.
use n8n_sandbox_service.Base.{
  ℕ, zero, suc, ◌+◌, ◌%◌, ◌<◌, ◌≡◌, refl, sym, ap, subst, ◌∙◌, ◌≢◌, ◌↔◌, ◌⊎◌, inl, inr, String,
  Bool, true, false, not, ◌&&◌, Option, none, some, List, [], ◌∷◌, eq_iff, eq_refl, arith, ◌==◌,
  length, get_elem?, ℤ, pos, ◌≤ℤ◌, lookup, contains, Bool-cases, Option-cases, ==_iff,
}
use native.Mathlib.Nat.{mod-lt}
use n8n_sandbox_service.Api.Registry.{
  Runner, MemoryRegistry, is_eligible, eligible_of, eligible, is_better, next_best, best_of,
  pick_lowest_used, pick_round_robin, uint64,
}
use n8n_sandbox_service.Api.Registry.Validity.{IsValid}

abbrev Member : Runner → List Runner → Type 0
Member x [] = ⊥
Member x (y ∷ l) = (y ≡ x) ⊎ Member x l

-- The runner stands in the registry, in its order, and passes the tests of `eligibleLocked`.
abbrev pub IsCandidate : ℕ → MemoryRegistry → Runner → Type 0
IsCandidate now r run =
    (contains run.id r.order ≡ true)
    × (lookup run.id r.runners ≡ some run)
    × (is_eligible r.heartbeat_grace now run ≡ true)

Member-eligible_of :
    (p : Runner → Bool) (runners : List (String × Runner)) (order : List String) (run : Runner)
    → Member run (eligible_of p runners order)
    → (id : String) × (contains id order ≡ true) × (lookup id runners ≡ some run) × (p run ≡ true)
unfolding contains
Member-eligible_of p runners [] run m = absurd m
Member-eligible_of p runners (i ∷ order) run m = elim (Option-cases (lookup i runners)) [
  | inl gone ↦
      let (id, c, f, h) = Member-eligible_of p runners order run (ground arith) in
      (id, ground (arith, c), f, h)
  | inr (x, found) ↦ elim (Bool-cases (p x)) [
    | inl passes ↦
        let cases : (x ≡ run) ⊎ Member run (eligible_of p runners order) = ground arith in
        elim cases [
          | inl same ↦ (i, ground (arith, eq_refl i), ground arith, ground arith)
          | inr later ↦
              let (id, c, f, h) = Member-eligible_of p runners order run later in
              (id, ground (arith, c), f, h)
        ]
    | inr fails ↦
        let (id, c, f, h) = Member-eligible_of p runners order run (ground arith) in
        (id, ground (arith, c), f, h)
  ]
]

eligible_of-Member :
    (p : Runner → Bool) (runners : List (String × Runner)) (order : List String) (run : Runner)
    (id : String)
    → contains id order ≡ true
    → lookup id runners ≡ some run
    → p run ≡ true
    → Member run (eligible_of p runners order)
unfolding contains
eligible_of-Member p runners [] run id c l h = absurd (cc)
eligible_of-Member p runners (i ∷ order) run id c l h =
    ground (arith, eq_iff i id, eligible_of-Member p runners order run id)

≤ℤ-trans : (a b c : ℤ) → a ≤ℤ b → b ≤ℤ c → a ≤ℤ c
≤ℤ-trans a b c h g = omega (arith, h, g)

abbrev used_of : Option Runner → ℤ
used_of none = pos 0
used_of (some run) = run.capacity_used

next_best-seen :
    (exclude : List String) (x c : Runner) (best : Option Runner)
    → (best ≡ some c) ⊎ ((x ≡ c) × (contains x.id exclude ≡ false))
    → (d : Runner) × (next_best exclude x best ≡ some d) × (d.capacity_used ≤ℤ c.capacity_used)
next_best-seen exclude x c none (inl e) = absurd (cc)
next_best-seen exclude x c none (inr (same, ok)) = (x, ground arith, rw same (omega arith))
next_best-seen exclude x c (some b) (inl e) =
    let same : b.capacity_used ≡ c.capacity_used = ap (λ (o : Option Runner). used_of o) e in
    elim (Bool-cases (not (contains x.id exclude) && is_better x (some b))) [
      | inl better ↦ (x, rw better refl, rw (sym same) (ground arith))
      | inr worse ↦ (b, rw worse refl, rw same (omega arith))
    ]
next_best-seen exclude x c (some b) (inr (same, ok)) = elim (Bool-cases (is_better x (some b))) [
  | inl better ↦ (x, rw (ok, better) refl, rw same (omega arith))
  | inr worse ↦ (b, rw (ok, worse) refl, rw (sym same) (ground arith))
]

-- What the loop of `PickLowestUsed` has found after a list of runners, begun with `best`.
best_of-some :
    (exclude : List String) (best : Option Runner) (l : List Runner) (b : Runner)
    → best_of exclude best l ≡ some b
    → ((best ≡ some b) ⊎ (Member b l × (contains b.id exclude ≡ false)))
      × ((run : Runner)
          → (best ≡ some run) ⊎ (Member run l × (contains run.id exclude ≡ false))
          → b.capacity_used ≤ℤ run.capacity_used)
unfolding best_of
best_of-some exclude best [] b h = ground arith
best_of-some exclude best (x ∷ l) b h =
    let rest = best_of-some exclude (next_best exclude x best) l b h in
    let seen : (run : Runner)
        → (best ≡ some run) ⊎ ((x ≡ run) × (contains x.id exclude ≡ false))
        → b.capacity_used ≤ℤ run.capacity_used =
      λ run m.
        let (d, next, le) = next_best-seen exclude x run best m in
        ≤ℤ-trans b.capacity_used d.capacity_used run.capacity_used (rest.1 d (inl next)) le in
    (
      ground (arith, rest.0),
      λ run m. elim m [
        | inl was ↦ seen run (inl was)
        | inr (inl same, ok) ↦
            seen run (inr (same, subst (λ r. contains r.id exclude ≡ false) (sym same) ok))
        | inr (inr later, ok) ↦ rest.1 run (inr (later, ok))
      ],
    )

best_of-none :
    (exclude : List String) (best : Option Runner) (l : List Runner)
    → best_of exclude best l ≡ none
    → (best ≡ none) × ((run : Runner) → Member run l → contains run.id exclude ≡ true)
unfolding best_of
best_of-none exclude best [] h = ground arith
best_of-none exclude best (x ∷ l) h =
    let rest = best_of-none exclude (next_best exclude x best) l h in
    (ground (arith, rest.0), λ run m. ground (arith, rest.0, rest.1 run))

best_of-Candidate :
    (now : ℕ) (r : MemoryRegistry) (run : Runner)
    → IsValid r
    → Member run (eligible now r)
    → IsCandidate now r run
unfolding eligible
best_of-Candidate now r run v m =
    let (id, c, found, ok) =
      Member-eligible_of (is_eligible r.heartbeat_grace now) r.runners r.order run m in
    let same : id ≡ run.id = sym (v.named id run found) in
    (
      subst (λ j. contains j r.order ≡ true) same c,
      subst (λ j. lookup j r.runners ≡ some run) same found,
      ok,
    )

Candidate-Member :
    (now : ℕ) (r : MemoryRegistry) (run : Runner)
    → IsCandidate now r run
    → Member run (eligible now r)
unfolding eligible
Candidate-Member now r run (c, found, ok) =
    eligible_of-Member (is_eligible r.heartbeat_grace now) r.runners r.order run run.id c found ok

-- In a registry whose order and runners agree, `PickLowestUsed` answers a registered runner that is
-- fresh, healthy, not cordoned and not full, that is not excluded, and whose used capacity is the
-- lowest of all such runners; and it answers `ErrNoRunners` only if each such runner is excluded.
pub pick_lowest_used-lowest :
    (exclude : List String) (now : ℕ) (r : MemoryRegistry)
    → IsValid r
    → ((b : Runner)
        → pick_lowest_used exclude now r ≡ some b
        → IsCandidate now r b
          × (contains b.id exclude ≡ false)
          × ((run : Runner)
              → IsCandidate now r run
              → contains run.id exclude ≡ false
              → b.capacity_used ≤ℤ run.capacity_used))
      × (pick_lowest_used exclude now r ≡ none
          → (run : Runner) → IsCandidate now r run
          → contains run.id exclude ≡ true)
unfolding pick_lowest_used
pick_lowest_used-lowest exclude now r v = (
  λ b h.
      let found = best_of-some exclude none (eligible now r) b h in
      let (m, ok) : Member b (eligible now r) × (contains b.id exclude ≡ false) =
        ground (arith, found.0) in
      (
        best_of-Candidate now r b v m,
        ok,
        λ run c free. found.1 run (inr (Candidate-Member now r run c, free)),
      ),
  λ h run c. (best_of-none exclude none (eligible now r) h).1 run (Candidate-Member now r run c),
)

none-some : {x : Runner} → none ≡ some x → ⊥
none-some e = absurd (cc)

get_elem?-length :
    {A : Type 0} (l : List A) (i : ℕ) → i < length l → (x : A) × (get_elem? l i ≡ some x)
get_elem?-length [] i h = absurd (omega arith)
get_elem?-length (y ∷ l) zero h = (y, refl)
get_elem?-length (y ∷ l) (suc i) h = get_elem?-length l i (omega arith)

-- `PickRoundRobin` answers `ErrNoRunners` exactly if no runner is eligible, and otherwise the
-- eligible runner at the counter modulo their number, which the next call moves on by one.
pick_round_robin-turn :
    (now : ℕ) (r : MemoryRegistry)
    → ((pick_round_robin now r).1 ≡ none ↔ (length (eligible now r) ≡ 0))
      × (length (eligible now r) ≢ 0
          → ((pick_round_robin now r).1
              ≡ get_elem? (eligible now r) (r.rr_counter % length (eligible now r)))
            × ((pick_round_robin now r).0.rr_counter ≡ (r.rr_counter + 1) % uint64))
unfolding pick_round_robin
pick_round_robin-turn now r = elim (Bool-cases (length (eligible now r) == 0)) [
  | inl nobody ↦
      rw nobody ((λ h. (==_iff _ _).0 nobody, λ h. refl), λ h. absurd (h ((==_iff _ _).0 nobody)))
  | inr somebody ↦
      let picked =
        get_elem?-length (eligible now r) (r.rr_counter % length (eligible now r))
          (mod-lt r.rr_counter (ground arith)) in
      rw somebody (
        (λ h. absurd (none-some (sym h ∙ picked.1)), λ h. absurd (ground arith)),
        λ h. (refl, refl),
      )
]
