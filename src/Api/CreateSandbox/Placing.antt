-- ===== src/Api/CreateSandbox/Placing.antt =====
-- `handleCreateSandbox` of internal/api/handlers.go from the placement on: the clean-up on each error.
use n8n_sandbox_service.Base.{
  ℕ, ◌+◌, ◌≡◌, refl, sym, ap, subst, inl, inr, Bool, true, false, String, none, some, List, ◌∷◌,
  eq_iff, eq_refl, arith, is_some, if◌then◌else◌, lookup, lookup-insert, Bool-cases, Option-cases,
  some_inj,
}
use n8n_sandbox_service.Api.Placement.{
  Placement, placed, no_runner, pick_error, create_error, at_capacity,
}
use n8n_sandbox_service.Api.Store as Store
use n8n_sandbox_service.Api.Store.{
  SandboxRecord, Database, Result, ok, insert_row, insert_sandbox, is_admin_tenant_id,
}
use n8n_sandbox_service.Api.CreateSandbox.{
  Identity, Request, Reply, error, created, Effect, runner_create, Outcome, Surroundings, answer,
  can_access, existing_reply, applies, record_of, save_error, after_failed_save, save_record,
  saved_outcome, track, place_at, then_release,
}
use n8n_sandbox_service.Api.CreateSandbox.Answers.{
  creates, rollbacks, is_created, shown, creates-append, rollbacks-append,
}

module _ (s : Surroundings) (who : Identity) (req : Request) (egress : String) where
  -- A sandbox that a runner created is rolled back, or answered with and saved; and one that is
  -- answered with is the caller's, with the egress that the request names.
  pub record IsRight (o : Outcome) : Type 0 where
    pub balance : creates o.effects ≡ rollbacks o.effects + is_created o.reply
    pub saved : (r : SandboxRecord) → o.reply ≡ created r → lookup r.id o.db.sandboxes ≡ some r
    pub allowed : (r : SandboxRecord) → shown o.reply ≡ some r → can_access who r ≡ true
    pub sealed :
        (r : SandboxRecord) → shown o.reply ≡ some r → is_some req.egress ≡ true → r.egress ≡ egress

  pub error-IsRight : (db : Database) (n : ℕ) (t : String) → IsRight (answer db (error n t))
  error-IsRight db n t = record {
    balance = refl;
    saved = λ r e. absurd (cc);
    allowed = λ r e. absurd (cc);
    sealed = λ r e. absurd (cc);
  }

  created_row :
      (r : SandboxRecord) (db db' : Database)
      → Store.create r db ≡ (db', ok)
      → lookup r.id db'.sandboxes ≡ some r
  unfolding Store.create insert_sandbox insert_row lookup
  created_row r db db' h = ground (arith, lookup-insert r.id r.id r db.sandboxes, eq_refl r.id)

  saved_row :
      (r : SandboxRecord) (db db' : Database)
      → save_record s who req egress r db ≡ (db', ok)
      → lookup r.id db'.sandboxes ≡ some r
  unfolding save_record
  saved_row r db db' h = ground (arith, created_row r db db')

  -- What is shown of a sandbox that is there already.
  existing-shown :
      (existing r : SandboxRecord)
      → shown (existing_reply existing egress req.egress) ≡ some r
      → (existing ≡ r) × (is_some req.egress ≡ true → r.egress ≡ egress)
  unfolding existing_reply
  existing-shown existing r h = ground (arith, eq_iff egress existing.egress)

  existing-created :
      (existing : SandboxRecord) → is_created (existing_reply existing egress req.egress) ≡ 0
  unfolding existing_reply
  existing-created existing = ground (arith)

  save_error-shown :
      (r : Result)
      → (shown (save_error s who req egress r) ≡ none)
        × (is_created (save_error s who req egress r) ≡ 0)
  unfolding save_error
  save_error-shown r = ground arith

  -- An answer that shows nothing that the caller may not see, and creates nothing.
  pub record IsModest (reply : Reply) : Type 0 where
    none_created : is_created reply ≡ 0
    allowed : (r : SandboxRecord) → shown reply ≡ some r → can_access who r ≡ true
    sealed :
        (r : SandboxRecord) → shown reply ≡ some r → is_some req.egress ≡ true → r.egress ≡ egress

  silent-IsModest : (reply : Reply) → shown reply ≡ none → is_created reply ≡ 0 → IsModest reply
  silent-IsModest reply quiet zero_created = record {
    none_created = zero_created;
    allowed = λ r e. absurd (cc);
    sealed = λ r e. absurd (cc);
  }

  pub existing-IsModest :
      (existing : SandboxRecord)
      → can_access who existing ≡ true
      → IsModest (existing_reply existing egress req.egress)
  existing-IsModest existing mine = record {
    none_created = existing-created existing;
    allowed = λ r e.
        subst (λ (x : SandboxRecord). can_access who x ≡ true) (existing-shown existing r e).0 mine;
    sealed = λ r e. (existing-shown existing r e).1;
  }

  failed_save-IsModest :
      (id : String) (db : Database) (r : Result)
      → IsModest (after_failed_save s who req egress id db r)
  unfolding after_failed_save
  failed_save-IsModest id db r =
      elim (Option-cases (if s.get_again_fails then none else lookup id db.sandboxes)) [
        | inl absent ↦
            rw (after_failed_save, absent)
              (silent-IsModest _ (save_error-shown r).0 (save_error-shown r).1)
        | inr (existing, found) ↦ elim (Bool-cases (can_access who existing)) [
          | inl mine ↦ rw (after_failed_save, found, mine) (existing-IsModest existing mine)
          | inr other ↦ rw (after_failed_save, found, other) (silent-IsModest _ refl refl)
        ]
      ]

  pub modest-IsRight :
      (db : Database) (reply : Reply) (effects : List Effect)
      → creates effects ≡ rollbacks effects
      → IsModest reply
      → IsRight (record { db = db; reply = reply; effects = effects })
  modest-IsRight db reply effects even m = record {
    balance = ground (arith, m.none_created);
    saved = λ r e. absurd (ground (arith, m.none_created));
    allowed = m.allowed;
    sealed = m.sealed;
  }

  -- On the runner, for a record that is the caller's.
  module _ (id tenant_id runner_id : String)
      (mine : can_access who (record_of s who req egress id tenant_id runner_id) ≡ true) where
    abbrev rec : SandboxRecord
    rec = record_of s who req egress id tenant_id runner_id

    abbrev addr : String
    addr = (s.runner runner_id).control_grpc_addr

    after_save :
        (db : Database) (r : Database × Result)
        → save_record s who req egress rec db ≡ r
        → IsRight (
            let o = saved_outcome s who req egress addr rec r in
            record o { effects = runner_create runner_id id ∷ o.effects })
    after_save db (db', ok) h = record {
      balance = refl;
      saved = λ r e.
          subst (λ (x : SandboxRecord). lookup x.id db'.sandboxes ≡ some x) (some_inj (ap shown e))
            (saved_row rec db db' h);
      allowed = λ r e. subst (λ (x : SandboxRecord). can_access who x ≡ true) (some_inj e) mine;
      sealed = λ r e given. sym (ap (λ (x : SandboxRecord). x.egress) (some_inj e));
    }
    after_save db (db', r) h =
        modest-IsRight db' (after_failed_save s who req egress id db' r) _ refl
          (failed_save-IsModest id db' r)

    track-IsRight : (db : Database) → IsRight (track s who req egress id tenant_id runner_id db)
    unfolding track
    track-IsRight db = elim (Bool-cases (applies egress s.applied)) [
      | inl same ↦ rw (track, same) (after_save db _ refl)
      | inr differs ↦
          rw (track, differs)
            (modest-IsRight db (error 502 "runner did not apply the requested egress") _ refl
              (silent-IsModest _ refl refl))
    ]

  pub choose-IsRight :
      (b : Bool) (o p : Outcome)
      → (b ≡ true → IsRight o)
      → (b ≡ false → IsRight p)
      → IsRight (if b then o else p)
  choose-IsRight true o p f g = f refl
  choose-IsRight false o p f g = g refl

  pub then_release-IsRight : (o : Outcome) → IsRight o → IsRight (then_release s who req egress o)
  then_release-IsRight o r = record {
    balance =
        ground (arith, r.balance, creates-append o.effects false, rollbacks-append o.effects false);
    saved = r.saved;
    allowed = r.allowed;
    sealed = r.sealed;
  }

  module _ (id tenant_id : String)
      (mine : (runner_id : String)
        → can_access who (record_of s who req egress id tenant_id runner_id) ≡ true) where
    pub placed_at :
        (p : Placement) (db : Database) → IsRight (place_at s who req egress id tenant_id db p)
    unfolding place_at
    placed_at (placed runner_id) db =
        track-IsRight id tenant_id runner_id (mine runner_id) (s.meanwhile db)
    placed_at no_runner db = error-IsRight db _ _
    placed_at at_capacity db = error-IsRight db _ _
    placed_at pick_error db = error-IsRight db _ _
    placed_at (create_error runner_id) db = error-IsRight db _ _
