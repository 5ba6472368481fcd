-- ===== src/Api/IdleSweep/Groups.antt =====
-- The candidates of a phase by their runners.
use n8n_sandbox_service.Base.{
  Bool, ◌≡◌, refl, sym, ap, ◌∙◌, inl, inr, String, List, [], ◌∷◌, ◌++◌, append-nil, append_assoc,
  str_eq, eq_iff, if◌then◌else◌, lookup, insert, lookup-insert, insert-IsUnique, IsUnique,
  Bool-cases,
}
use n8n_sandbox_service.Api.Store.{SandboxRecord}
use n8n_sandbox_service.Api.IdleSweep.{runner_key, group_or_none, group_by_runner_from}

-- The record is of the runner with this id, or at this address where it names no runner.
abbrev is_of : String → SandboxRecord → Bool
is_of key rec =
    if str_eq rec.runner_id ""
    then str_eq rec.runner_control_grpc_addr key
    else str_eq rec.runner_id key

runner_key-is_of :
    (rec : SandboxRecord) (key : String) → str_eq (runner_key rec) key ≡ is_of key rec
unfolding runner_key
runner_key-is_of rec key = elim (Bool-cases (str_eq rec.runner_id "")) [
  | inl empty ↦ rw (runner_key, empty) refl
  | inr named ↦ rw (runner_key, named) refl
]

-- The records of one runner, in their order.
abbrev pub of_runner : String → List SandboxRecord → List SandboxRecord
of_runner key [] = []
of_runner key (rec ∷ l) = if is_of key rec then rec ∷ of_runner key l else of_runner key l

abbrev pub group_of : String → List (String × List SandboxRecord) → List SandboxRecord
group_of key groups = group_or_none (lookup key groups)

-- A candidate joins the group of its runner.
joined-group_of :
    (rec : SandboxRecord) (groups : List (String × List SandboxRecord)) (key : String)
    → group_of key (insert (runner_key rec) (group_of (runner_key rec) groups ++ (rec ∷ [])) groups)
      ≡ group_of key groups ++ of_runner key (rec ∷ [])
joined-group_of rec groups key =
    let group = group_of (runner_key rec) groups ++ (rec ∷ []) in
    let step = lookup-insert (runner_key rec) key group groups in
    let which = runner_key-is_of rec key in
    elim (Bool-cases (str_eq (runner_key rec) key)) [
      | inl same ↦
          rw (step, same, sym which ∙ same)
            (ap (λ k. group_of k groups ++ (rec ∷ [])) ((eq_iff (runner_key rec) key).0 same))
      | inr other ↦ rw (step, other, sym which ∙ other) (sym (append-nil _))
    ]

-- The records of a runner, the first one apart.
of_runner-first :
    (rec : SandboxRecord) (l : List SandboxRecord) (key : String)
    → of_runner key (rec ∷ []) ++ of_runner key l ≡ of_runner key (rec ∷ l)
of_runner-first rec l key = elim (Bool-cases (is_of key rec)) [
  | inl same ↦ rw same refl
  | inr other ↦ rw other refl
]

grouped :
    (groups : List (String × List SandboxRecord)) (l : List SandboxRecord) (key : String)
    → IsUnique groups
    → IsUnique (group_by_runner_from groups l)
      × (group_of key (group_by_runner_from groups l) ≡ group_of key groups ++ of_runner key l)
unfolding group_by_runner_from
grouped groups [] key u = (u, sym (append-nil _))
grouped groups (rec ∷ l) key u =
    let key' = runner_key rec in
    let group = group_of key' groups ++ (rec ∷ []) in
    let (unique, same) =
      grouped (insert key' group groups) l key (insert-IsUnique key' group groups u) in
    (
      unique,
      same
          ∙ ap (λ x. x ++ of_runner key l) (joined-group_of rec groups key)
          ∙ append_assoc (group_of key groups) (of_runner key (rec ∷ [])) (of_runner key l)
          ∙ ap (λ x. group_of key groups ++ x) (of_runner-first rec l key),
    )

-- Grouping puts the candidates of each runner, or of each address where they name no runner, into one
-- group, all of them, as they are and in their order, and nothing else into it; and there is no second
-- group of a runner.
pub group_by_runner-of_runner :
    (records : List SandboxRecord) (key : String)
    → IsUnique (group_by_runner_from [] records)
      × (group_of key (group_by_runner_from [] records) ≡ of_runner key records)
unfolding lookup
group_by_runner-of_runner records key = grouped [] records key tt
