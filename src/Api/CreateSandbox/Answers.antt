-- ===== src/Api/CreateSandbox/Answers.antt =====
-- What an outcome of `handleCreateSandbox` of internal/api/handlers.go shows and leaves on the runners.
use n8n_sandbox_service.Base.{
  ℕ, ◌+◌, ◌≡◌, refl, inl, inr, Bool, true, String, Option, none, some, List, [], ◌∷◌, ◌++◌, eq_refl,
  arith, lookup, Option-cases,
}
use n8n_sandbox_service.Api.Store.{SandboxRecord, Database}
use n8n_sandbox_service.Api.CreateSandbox.{
  Request, Reply, error, created, exists, Effect, runner_create, rollback, runner_delete, release,
  applies, parse_egress,
}

abbrev pub creates : List Effect → ℕ
creates [] = 0
creates (runner_create r id ∷ l) = creates l + 1
creates (rollback a id ∷ l) = creates l
creates (runner_delete a id ∷ l) = creates l
creates (release b ∷ l) = creates l

abbrev pub rollbacks : List Effect → ℕ
rollbacks [] = 0
rollbacks (runner_create r id ∷ l) = rollbacks l
rollbacks (rollback a id ∷ l) = rollbacks l + 1
rollbacks (runner_delete a id ∷ l) = rollbacks l
rollbacks (release b ∷ l) = rollbacks l

abbrev pub is_created : Reply → ℕ
is_created (error n t) = 0
is_created (created r) = 1
is_created (exists r) = 0

-- The sandbox that an answer shows.
abbrev pub shown : Reply → Option SandboxRecord
shown (error n t) = none
shown (created r) = some r
shown (exists r) = some r

pub creates-append : (l : List Effect) (b : Bool) → creates (l ++ (release b ∷ [])) ≡ creates l
creates-append [] b = refl
creates-append (runner_create r id ∷ l) b = ground (arith, creates-append l b)
creates-append (rollback a id ∷ l) b = creates-append l b
creates-append (runner_delete a id ∷ l) b = creates-append l b
creates-append (release c ∷ l) b = creates-append l b

pub rollbacks-append :
    (l : List Effect) (b : Bool) → rollbacks (l ++ (release b ∷ [])) ≡ rollbacks l
rollbacks-append [] b = refl
rollbacks-append (runner_create r id ∷ l) b = rollbacks-append l b
rollbacks-append (rollback a id ∷ l) b = ground (arith, rollbacks-append l b)
rollbacks-append (runner_delete a id ∷ l) b = rollbacks-append l b
rollbacks-append (release c ∷ l) b = rollbacks-append l b

abbrev pub created_answer : Reply → Option SandboxRecord
created_answer (error n t) = none
created_answer (created r) = some r
created_answer (exists r) = none

-- The row of the sandbox that is answered with 201.
abbrev pub saved_answer : Reply → Database → Option SandboxRecord
saved_answer (error n t) db = none
saved_answer (created r) db = lookup r.id db.sandboxes
saved_answer (exists r) db = none

pub saved-created :
    (reply : Reply) (db : Database)
    → ((r : SandboxRecord) → reply ≡ created r → lookup r.id db.sandboxes ≡ some r)
    → saved_answer reply db ≡ created_answer reply
saved-created (error n t) db f = refl
saved-created (created r) db f = f r refl
saved-created (exists r) db f = refl

-- The sandbox has the egress that the request names, if it names one.
abbrev pub is_as_named : Option Request → SandboxRecord → Bool
is_as_named none r = true
is_as_named (some q) r = elim q.egress [
  | none ↦ true
  | some given ↦ applies r.egress (parse_egress given)
]

pub named-egress :
    (req : Option Request) (r : SandboxRecord)
    → ((q : Request) (given : String)
        → req ≡ some q
        → q.egress ≡ some given
        → parse_egress given ≡ some r.egress)
    → is_as_named req r ≡ true
named-egress none r f = refl
named-egress (some q) r f = elim (Option-cases q.egress) [
  | inl absent ↦ rw absent refl
  | inr (given, there) ↦ rw (there, f q given refl there) (eq_refl r.egress)
]
