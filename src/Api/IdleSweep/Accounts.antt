-- ===== src/Api/IdleSweep/Accounts.antt =====
-- What one run of a sweep (internal/api/ttl.go) leaves of a sandbox's row.
use n8n_sandbox_service.Base.{
  ℕ, ◌≡◌, refl, sym, ap, subst, ◌∙◌, ◌⊎◌, inl, inr, String, none, some, List, ◌++◌, str_eq, eq_iff,
  arith, lookup, lookup-erase, Bool-cases, some_inj,
}
use n8n_sandbox_service.Api.Store.{Database, SandboxRecord, delete, update_status}
use n8n_sandbox_service.Api.Store.Outcomes.{lookup-update_row}
use n8n_sandbox_service.Api.Store.Integrity.{IsValid, update_sandbox-IsValid, delete-IsValid}
use n8n_sandbox_service.Api.IdleSweep.{call_stop, Config, Call, Env, Effect}
use n8n_sandbox_service.Api.IdleSweep.Reasons.{IsIn-before, IsIn-after, Answered, Reason, Explained}

module _ (env : Env) (cfg : Config) (nanos : ℕ) (r : SandboxRecord) where
  -- The row is as it was, or marked as stopped after the runner has stopped the sandbox.
  abbrev pub Kept : String → List Call → Type 0
  Kept status calls =
      (status ≡ r.status)
      ⊎ ((status ≡ "stopped")
          × ((n : ℕ) × Answered env cfg nanos n r (λ addr. call_stop addr r.id) calls))

  -- The row is there, or it is gone for a reason that some run has had.
  abbrev pub Accounted : Database → List Call → Type 0
  Accounted db calls =
      ((status : String) × (lookup r.id db.sandboxes ≡ some (record r { status = status }))
        × Kept status calls)
      ⊎ ((lookup r.id db.sandboxes ≡ none) × ((n : ℕ) × Reason env cfg nanos n r calls))

  Answered-more :
      (n : ℕ) (call : String → Call) (before after : List Call)
      → Answered env cfg nanos n r call before
      → Answered env cfg nanos n r call (before ++ after)
  Answered-more n call before after (addr, at, called, ok) =
      (addr, at, IsIn-before (call addr) before after called, ok)

  Answered-later :
      (n : ℕ) (call : String → Call) (before after : List Call)
      → Answered env cfg nanos n r call after
      → Answered env cfg nanos n r call (before ++ after)
  Answered-later n call before after (addr, at, called, ok) =
      (addr, at, IsIn-after (call addr) before after called, ok)

  Reason-more :
      (n : ℕ) (before after : List Call)
      → Reason env cfg nanos n r before
      → Reason env cfg nanos n r (before ++ after)
  Reason-more n before after (inl gone) = inl gone
  Reason-more n before after (inr answered) = inr (Answered-more n _ before after answered)

  Reason-later :
      (n : ℕ) (before after : List Call)
      → Reason env cfg nanos n r after
      → Reason env cfg nanos n r (before ++ after)
  Reason-later n before after (inl gone) = inl gone
  Reason-later n before after (inr answered) = inr (Answered-later n _ before after answered)

  Kept-more :
      (status : String) (before after : List Call)
      → Kept status before
      → Kept status (before ++ after)
  Kept-more status before after (inl same) = inl same
  Kept-more status before after (inr (stopped, (n, answered))) =
      inr (stopped, (n, Answered-more n _ before after answered))

  erased-none :
      (id : String) (db : Database)
      → lookup r.id db.sandboxes ≡ none
      → lookup r.id (delete id db).sandboxes ≡ none
  unfolding delete
  erased-none id db gone = ground (arith, gone, lookup-erase id r.id db.sandboxes)

  updated-none :
      (id status : String) (db : Database)
      → lookup r.id db.sandboxes ≡ none
      → lookup r.id (update_status id status db).sandboxes ≡ none
  unfolding update_status
  updated-none id status db gone =
      lookup-update_row id r.id (λ x. record x { status = status }) db.sandboxes
      ∙ elim (Bool-cases (str_eq id r.id)) [
        | inl same ↦ rw (same, gone) refl
        | inr other ↦ rw (other, gone) refl
      ]

  -- The record that a run reads under an id has it, so it is the sandbox's own if the ids agree.
  own_record :
      (fresh : SandboxRecord) (id status : String) (db : Database)
      → IsValid db
      → lookup id db.sandboxes ≡ some fresh
      → lookup r.id db.sandboxes ≡ some (record r { status = status })
      → fresh.id ≡ r.id
      → fresh ≡ record r { status = status }
  own_record fresh id status db v found there same =
      let under : id ≡ r.id = sym (v.sandbox_id id fresh found) ∙ same in
      some_inj (sym found ∙ ap (λ j. lookup j db.sandboxes) under ∙ there)

  Accounted-update :
      (n : ℕ) (fresh : SandboxRecord) (id : String) (db : Database) (before calls : List Call)
      → IsValid db
      → lookup id db.sandboxes ≡ some fresh
      → Answered env cfg nanos n fresh (λ addr. call_stop addr fresh.id) calls
      → Accounted db before
      → Accounted (update_status fresh.id "stopped" db) (before ++ calls)
  unfolding update_status
  Accounted-update n fresh id db before calls v found why (inr (gone, (k, earlier))) =
      inr (updated-none fresh.id "stopped" db gone, (k, Reason-more k before calls earlier))
  Accounted-update n fresh id db before calls v found why (inl (status, there, kind)) =
      let step =
        lookup-update_row fresh.id r.id (λ x. record x { status = "stopped" }) db.sandboxes in
      elim (Bool-cases (str_eq fresh.id r.id)) [
        | inl same ↦
            let it = own_record fresh id status db v found there ((eq_iff fresh.id r.id).0 same) in
            let mine =
              subst
                (λ (x : SandboxRecord).
                  Answered env cfg nanos n x (λ addr. call_stop addr x.id) calls)
                it why in
            inl (
              "stopped",
              step ∙ rw (same, there) refl,
              inr (refl, (n, Answered-later n (λ addr. call_stop addr r.id) before calls mine)),
            )
        | inr other ↦
            inl (status, step ∙ rw (other, there) refl, Kept-more status before calls kind)
      ]

  Accounted-delete :
      (n : ℕ) (fresh : SandboxRecord) (id : String) (db : Database) (before calls : List Call)
      → IsValid db
      → lookup id db.sandboxes ≡ some fresh
      → Reason env cfg nanos n fresh calls
      → Accounted db before
      → Accounted (delete fresh.id db) (before ++ calls)
  unfolding delete
  Accounted-delete n fresh id db before calls v found why (inr (gone, (k, earlier))) =
      inr (erased-none fresh.id db gone, (k, Reason-more k before calls earlier))
  Accounted-delete n fresh id db before calls v found why (inl (status, there, kind)) =
      let step = lookup-erase fresh.id r.id db.sandboxes in
      elim (Bool-cases (str_eq fresh.id r.id)) [
        | inl same ↦ inr (
          step ∙ rw same refl,
          (
            n,
            Reason-later n before calls (
                subst (λ (x : SandboxRecord). Reason env cfg nanos n x calls)
                  (own_record fresh id status db v found there ((eq_iff fresh.id r.id).0 same))
                  why),
          ),
        )
        | inr other ↦
            inl (status, step ∙ rw (other, there) refl, Kept-more status before calls kind)
      ]

  pub Accounted-more :
      (db : Database) (before after : List Call)
      → Accounted db before
      → Accounted db (before ++ after)
  Accounted-more db before after (inl (status, there, kind)) =
      inl (status, there, Kept-more status before after kind)
  Accounted-more db before after (inr (gone, (n, why))) =
      inr (gone, (n, Reason-more n before after why))

  pub effect-Good :
      (n : ℕ) (fresh : SandboxRecord) (id : String) (db : Database) (e : Effect)
      (before : List Call)
      → lookup id db.sandboxes ≡ some fresh
      → Explained env cfg nanos n fresh db e
      → IsValid db
      → Accounted db before
      → IsValid e.db × Accounted e.db (before ++ e.calls)
  unfolding update_status
  effect-Good n fresh id db e before found (inl same) v a = (
    subst IsValid (sym same) v,
    subst (λ x. Accounted x (before ++ e.calls)) (sym same) (Accounted-more db before e.calls a),
  )
  effect-Good n fresh id db e before found (inr (inl (stopped, why))) v a = (
    subst IsValid (sym stopped) (update_sandbox-IsValid fresh.id _ db (λ x. (refl, refl)) v),
    subst (λ x. Accounted x (before ++ e.calls)) (sym stopped)
        (Accounted-update n fresh id db before e.calls v found why a),
  )
  effect-Good n fresh id db e before found (inr (inr (gone, why))) v a = (
    subst IsValid (sym gone) (delete-IsValid fresh.id db v),
    subst (λ x. Accounted x (before ++ e.calls)) (sym gone)
        (Accounted-delete n fresh id db before e.calls v found why a),
  )
