-- ===== src/Api/CreateSandbox/Handling.antt =====
-- What `handleCreateSandbox` of internal/api/handlers.go answers, for every request and fault.
use n8n_sandbox_service.Base.{
  ◌⊎◌, eq_iff, inl, inr, Bool-cases, ℕ, ◌+◌, ◌≡◌, ◌∙◌, refl, sym, ap, inl, inr, Bool, true, false,
  String, Option, none, some, [], ◌∷◌, not, ◌&&◌, ◌||◌, eq_refl, arith, is_some, if◌then◌else◌,
  lookup, Option-cases, some_inj,
}
use n8n_sandbox_service.Api.Store as Store
use n8n_sandbox_service.Api.Store.{
  SandboxRecord, Database, Result, ok, insert_row, insert_sandbox, is_admin_tenant_id,
}
use n8n_sandbox_service.Api.IdleSweep.{is_past_idle_delete_window}
use n8n_sandbox_service.Api.CreateSandbox.{
  Role, Identity, Request, error, created, runner_delete, Outcome, Reservation, granted, full,
  count_failed, Surroundings, answer, can_access, existing_reply, record_of, reserved_at,
  reserve_and_place, replace_expired, create_named, create_for, handle_create_sandbox, parse_egress,
  egress_field, is_admin, is_tenant,
}
use n8n_sandbox_service.Api.CreateSandbox.Answers.{
  creates, rollbacks, is_created, shown, created_answer, saved_answer, saved-created, is_as_named,
  named-egress,
}
use n8n_sandbox_service.Api.CreateSandbox.Placing.{
  IsRight, error-IsRight, existing-IsModest, modest-IsRight, choose-IsRight, then_release-IsRight,
  placed_at,
}

module _ (s : Surroundings) (who : Identity) (req : Request) (egress : String) where
  module _ (allowed_role : (is_admin who.role || is_tenant who.role) ≡ true)
      (proper : is_tenant who.role ≡ true → is_admin_tenant_id who.tenant_id ≡ false) where
    tenant_may :
        is_tenant who.role ≡ true
        → (id runner_id : String)
        → can_access who (record_of s who req egress id who.tenant_id runner_id) ≡ true
    unfolding can_access
    tenant_may role id runner_id = ground (arith, proper role, eq_refl who.tenant_id)

    admin_may :
        is_tenant who.role ≡ false
        → (id runner_id : String)
        → can_access who (record_of s who req egress id "__admin__" runner_id) ≡ true
    unfolding can_access
    admin_may role id runner_id = ground arith

    granted_at :
        (q : Reservation) (id : String) (db : Database)
        → is_tenant who.role ≡ true
        → IsRight s who req egress (reserved_at s who req egress id db q)
    unfolding reserved_at
    granted_at granted id db role =
        then_release-IsRight s who req egress _
          (placed_at s who req egress id who.tenant_id (tenant_may role id) s.placement db)
    granted_at full id db role = error-IsRight s who req egress db _ _
    granted_at count_failed id db role = error-IsRight s who req egress db _ _

    reserve_and_place-IsRight :
        (id : String) (db : Database)
        → IsRight s who req egress (reserve_and_place s who req egress id db)
    unfolding reserve_and_place
    reserve_and_place-IsRight id db =
        choose-IsRight s who req egress (not (is_tenant who.role)) _ _
          (λ other. then_release-IsRight s who req egress _ (
            placed_at s who req egress id "__admin__" (admin_may (ground arith) id) s.placement db))
          λ role.
            choose-IsRight s who req egress s.get_tenant_fails _ _
              (λ bad. error-IsRight s who req egress db _ _)
              λ good. elim (Option-cases (lookup who.tenant_id db.tenants)) [
                | inl absent ↦ rw absent (error-IsRight s who req egress db _ _)
                | inr (t, there) ↦ rw there (granted_at s.quota id db (ground (arith)))
              ]

    with_delete-IsRight :
        (a id : String) (o : Outcome)
        → IsRight s who req egress o
        → IsRight s who req egress (record o { effects = runner_delete a id ∷ o.effects })
    with_delete-IsRight a id o r = record {
      balance = r.balance;
      saved = r.saved;
      allowed = r.allowed;
      sealed = r.sealed;
    }

    replace_expired-IsRight :
        (id : String) (existing : SandboxRecord) (db : Database)
        → IsRight s who req egress (replace_expired s who req egress id existing db)
    unfolding replace_expired
    replace_expired-IsRight id existing db =
        choose-IsRight s who req egress s.runner_delete_fails _ _
          (λ bad. error-IsRight s who req egress db _ _)
          λ good.
            choose-IsRight s who req egress s.delete_fails _ _
              (λ bad.
                with_delete-IsRight _ _ _ (error-IsRight s who req egress db 500 "delete sandbox"))
              (λ gone.
                with_delete-IsRight _ _ _
                  (reserve_and_place-IsRight id (Store.delete existing.id db)))

    found-IsRight :
        (id : String) (existing : SandboxRecord) (db : Database)
        → IsRight s who req egress (
            if not (can_access who existing)
            then answer db (error 409 "sandbox id unavailable")
            else if is_past_idle_delete_window existing s.config s.now
            then replace_expired s who req egress id existing db
            else answer db (existing_reply existing egress req.egress))
    found-IsRight id existing db =
        choose-IsRight s who req egress (not (can_access who existing)) _ _
          (λ bad. error-IsRight s who req egress db _ _)
          λ mine.
            choose-IsRight s who req egress (is_past_idle_delete_window existing s.config s.now) _ _
              (λ past. replace_expired-IsRight id existing db)
              (λ there.
                modest-IsRight s who req egress db _ [] refl
                  (existing-IsModest s who req egress existing (ground (arith))))

    create_named-IsRight :
        (id : String) (db : Database)
        → IsRight s who req egress (create_named s who req egress id db)
    unfolding create_named
    create_named-IsRight id db =
        choose-IsRight s who req egress (not (s.is_valid_uuid id)) _ _
          (λ bad. error-IsRight s who req egress db _ _)
          λ good.
            choose-IsRight s who req egress s.lock_fails _ _
              (λ bad. error-IsRight s who req egress db _ _)
              λ locked.
                choose-IsRight s who req egress s.get_fails _ _
                  (λ bad. error-IsRight s who req egress db _ _)
                  λ read. elim (Option-cases (lookup id db.sandboxes)) [
                    | inl absent ↦ rw absent (reserve_and_place-IsRight id db)
                    | inr (existing, there) ↦ rw there (found-IsRight id existing db)
                  ]

    create_for-IsRight :
        (id : Option String) (db : Database)
        → IsRight s who req egress (create_for s who req egress id db)
    unfolding create_for
    create_for-IsRight none db = reserve_and_place-IsRight s.uuid db
    create_for-IsRight (some id) db = create_named-IsRight id db

-- What the handler's answer has for the caller and for the runner.
record IsAnswered (who : Identity) (req : Option Request) (o : Outcome) : Type 0 where
  balance : creates o.effects ≡ rollbacks o.effects + is_created o.reply
  saved : (r : SandboxRecord) → o.reply ≡ created r → lookup r.id o.db.sandboxes ≡ some r
  allowed : (r : SandboxRecord) → shown o.reply ≡ some r → can_access who r ≡ true
  sealed :
      (r : SandboxRecord) (q : Request) (given : String)
      → shown o.reply ≡ some r
      → req ≡ some q
      → q.egress ≡ some given
      → parse_egress given ≡ some r.egress

refused-IsAnswered :
    (who : Identity) (req : Option Request) (db : Database) (n : ℕ) (t : String)
    → IsAnswered who req (answer db (error n t))
refused-IsAnswered who req db n t = record {
  balance = refl;
  saved = λ r e. absurd cc;
  allowed = λ r e. absurd cc;
  sealed = λ r q given e. absurd cc;
}

choose-IsAnswered :
    (who : Identity) (req : Option Request) (b : Bool) (o p : Outcome)
    → (b ≡ true → IsAnswered who req o)
    → (b ≡ false → IsAnswered who req p)
    → IsAnswered who req (if b then o else p)
choose-IsAnswered who req true o p f g = f refl
choose-IsAnswered who req false o p f g = g refl

is_admin-admin : (role : Role) → is_admin role ≡ true → role ≡ Role.admin
is_admin-admin role h = ground arith

can_access-tenant_id :
    (who : Identity) (r : SandboxRecord)
    → can_access who r ≡ true
    → (who.role ≡ Role.admin) ⊎ (r.tenant_id ≡ who.tenant_id)
unfolding can_access
can_access-tenant_id who r h = elim (Bool-cases (is_admin who.role)) [
  | inl all ↦ inl (is_admin-admin who.role all)
  | inr own ↦ inr (ground (arith, own, eq_iff r.tenant_id who.tenant_id))
]

module _ (s : Surroundings) (who : Identity)
    (proper : is_tenant who.role ≡ true → is_admin_tenant_id who.tenant_id ≡ false) where
  right-IsAnswered :
      (r : Request) (egress : String) (o : Outcome)
      → parse_egress (egress_field r.egress) ≡ some egress
      → IsRight s who r egress o
      → IsAnswered who (some r) o
  right-IsAnswered r egress o parsed right = record {
    balance = right.balance;
    saved = right.saved;
    allowed = right.allowed;
    sealed = λ rec q given e same named.
        let field : r.egress ≡ some given =
          ap (λ (x : Request). x.egress) (some_inj same) ∙ named in
        let as_asked : rec.egress ≡ egress = right.sealed rec e (ap is_some field) in
        ap parse_egress (sym (ap egress_field field)) ∙ parsed ∙ ap some (sym as_asked);
  }

  handled :
      (req : Option Request) (db : Database)
      → IsAnswered who req (handle_create_sandbox s (some who) req db)
  unfolding handle_create_sandbox
  handled none db =
      choose-IsAnswered who none (not (is_admin who.role) && not (is_tenant who.role)) _ _
        (λ bad. refused-IsAnswered who none db _ _) (λ may. refused-IsAnswered who none db _ _)
  handled (some r) db =
      choose-IsAnswered who (some r) (not (is_admin who.role) && not (is_tenant who.role)) _ _
        (λ bad. refused-IsAnswered who (some r) db _ _)
        λ may. elim (Option-cases (parse_egress (egress_field r.egress))) [
          | inl bad ↦ rw bad (refused-IsAnswered who (some r) db _ _)
          | inr (egress, parsed) ↦ rw parsed (
              right-IsAnswered r egress _ parsed
                (create_for-IsRight s who r egress (ground arith) proper r.id db))
        ]

  -- Answering a create request of an admin, or of a tenant with another id than the admin's, whatever
  -- the request and the faults: the creates that a runner confirms are as many as the handler rolls
  -- back and answers with 201 together, and a sandbox answered with 201 is saved as it is answered.
  pub handle_create_sandbox-tracked :
      (req : Option Request) (db : Database)
      → let o = handle_create_sandbox s (some who) req db in
        (creates o.effects ≡ rollbacks o.effects + is_created o.reply)
        × (saved_answer o.reply o.db ≡ created_answer o.reply)
  handle_create_sandbox-tracked req db =
      let a = handled req db in (a.balance, saved-created _ _ a.saved)

  -- A sandbox that the answer of a create request shows, new or there before, is a sandbox of the
  -- caller's tenant, or the caller is an admin; and it has the egress that the request names, if it
  -- names one. The caller is an admin, or a tenant with another id than the admin's.
  pub handle_create_sandbox-tenant_id :
      (req : Option Request) (db : Database) (r : SandboxRecord)
      → shown (handle_create_sandbox s (some who) req db).reply ≡ some r
      → ((who.role ≡ Role.admin) ⊎ (r.tenant_id ≡ who.tenant_id)) × (is_as_named req r ≡ true)
  handle_create_sandbox-tenant_id req db r e =
      let a = handled req db in
      (
        can_access-tenant_id who r (a.allowed r e),
        named-egress req r (λ q given. a.sealed r q given e),
      )
