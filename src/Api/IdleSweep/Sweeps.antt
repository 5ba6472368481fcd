-- ===== src/Api/IdleSweep/Sweeps.antt =====
-- What a whole sweep of internal/api/ttl.go leaves of a sandbox's row.
use n8n_sandbox_service.Base.{
  ℕ, ◌+◌, ◌≡◌, refl, sym, subst, inl, inr, String, Bool, true, false, some, List, [], ◌∷◌, ◌++◌,
  append_assoc, append-nil, if◌then◌else◌, pos, ltb_ℤ, lookup, contains, Bool-cases, Option-cases,
}
use n8n_sandbox_service.Api.Store.{
  Database, SandboxRecord, get, list_for_idle_reap_delete, list_for_idle_reap_stop,
}
use n8n_sandbox_service.Api.Store.Integrity.{IsValid}
use n8n_sandbox_service.Api.IdleSweep.{
  Config, ephemeral_idle_window, Call, Env, Acted, skipped, acted, call_failed, store_failed, done,
  unavailable, rpc_failed, Effect, act_delete, act_ephemeral, act_stop, with_locked_sandbox,
  SweepPool, new_sweep_pool, runner_key, count_result, run, submit_rest, submit_runner, submit,
  group_by_runner_from, sweep_concurrently, phase, delete_cutoff, ephemeral_cutoff, stop_cutoff,
  sweep_idle_delete_sandboxes, sweep_ephemeral_sandboxes, sweep_idle_stop_sandboxes,
  sweep_idle_sandboxes,
}
use n8n_sandbox_service.Api.IdleSweep.Reasons.{
  Explained, act_delete-Explained, act_ephemeral-Explained, act_stop-Explained,
}
use n8n_sandbox_service.Api.IdleSweep.Accounts.{Accounted, Accounted-more, effect-Good}

count_result-db : (key : String) (a : Acted) (p : SweepPool) → (count_result key a p).db ≡ p.db
count_result-db key skipped p = refl
count_result-db key acted p = refl
count_result-db key store_failed p = refl
count_result-db key (call_failed done) p = refl
count_result-db key (call_failed unavailable) p = refl
count_result-db key (call_failed rpc_failed) p = refl

count_result-calls :
    (key : String) (a : Acted) (p : SweepPool) → (count_result key a p).calls ≡ p.calls
count_result-calls key skipped p = refl
count_result-calls key acted p = refl
count_result-calls key store_failed p = refl
count_result-calls key (call_failed done) p = refl
count_result-calls key (call_failed unavailable) p = refl
count_result-calls key (call_failed rpc_failed) p = refl

module _ (env : Env) (cfg : Config) (nanos : ℕ) (r : SandboxRecord) where
  -- The calls of earlier phases stand before those of the pool.
  abbrev Good : List Call → SweepPool → Type 0
  Good before p = IsValid p.db × Accounted env cfg nanos r p.db (before ++ p.calls)

  same-Good :
      (before : List Call) (p : SweepPool) (db : Database) (calls : List Call)
      → p.db ≡ db
      → p.calls ≡ calls
      → IsValid db
      → Accounted env cfg nanos r db (before ++ calls)
      → Good before p
  same-Good before p db calls same_db same_calls v a = (
    subst IsValid (sym same_db) v,
    subst (λ x. Accounted env cfg nanos r x (before ++ p.calls)) (sym same_db)
        (subst (λ x. Accounted env cfg nanos r db (before ++ x)) (sym same_calls) a),
  )

  module _ (act : ℕ → SandboxRecord → Database → Effect)
      (explained : (n : ℕ) (rec : SandboxRecord) (db : Database)
        → Explained env cfg nanos n rec db (act n rec db)) where
    locked-Good :
        (n : ℕ) (id : String) (db : Database) (before : List Call)
        → IsValid db
        → Accounted env cfg nanos r db before
        → let e = with_locked_sandbox id (act n) db in
          IsValid e.db × Accounted env cfg nanos r e.db (before ++ e.calls)
    unfolding with_locked_sandbox get
    locked-Good n id db before v a = elim (Option-cases (lookup id db.sandboxes)) [
      | inl missing ↦
          rw (with_locked_sandbox, missing) (v, Accounted-more env cfg nanos r db before [] a)
      | inr (fresh, found) ↦
          rw (with_locked_sandbox, found)
            (effect-Good env cfg nanos r n fresh id db (act n fresh db) before found
              (explained n fresh db) v a)
    ]

    run-Good :
        (before : List Call) (rec : SandboxRecord) (p : SweepPool)
        → Good before p
        → Good before (run env act rec p)
    unfolding run
    run-Good before rec p (v, a) = elim (Bool-cases (env.lock_fails p.runs)) [
      | inl locked_out ↦ rw (run, locked_out) (v, a)
      | inr locked ↦
          let e = with_locked_sandbox rec.id (act p.runs) p.db in
          let q : SweepPool = record p {
            db = e.db;
            calls = p.calls ++ e.calls;
            runs = p.runs + 1;
          } in
          let (v', a') = locked-Good p.runs rec.id p.db (before ++ p.calls) v a in
          rw (run, locked)
            (same-Good before (count_result (runner_key rec) e.result q) e.db (p.calls ++ e.calls)
              (count_result-db (runner_key rec) e.result q)
              (count_result-calls (runner_key rec) e.result q) v'
              (subst (Accounted env cfg nanos r e.db) (append_assoc before p.calls e.calls) a'))
    ]

    submit_rest-Good :
        (before : List Call) (key : String) (l : List SandboxRecord) (p : SweepPool)
        → Good before p
        → Good before (submit_rest env act key l p)
    unfolding submit_rest
    submit_rest-Good before key [] p good = good
    submit_rest-Good before key (rec ∷ l) p good =
        let rest = submit_rest-Good before key l (run env act rec p) (run-Good before rec p good) in
        elim (Bool-cases (env.cancelled p.runs)) [
          | inl stopped ↦ rw (submit_rest, stopped) good
          | inr on ↦ elim (Bool-cases (contains key p.unreachable)) [
            | inl dead ↦ rw (submit_rest, on, dead) good
            | inr alive ↦ rw (submit_rest, on, alive) rest
          ]
        ]

    submit_runner-Good :
        (before : List Call) (key : String) (l : List SandboxRecord) (p : SweepPool)
        → Good before p
        → Good before (submit_runner env act key l p)
    unfolding submit_runner
    submit_runner-Good before key [] p good = good
    submit_runner-Good before key (rec ∷ l) p good =
        submit_rest-Good before key l (run env act rec p) (run-Good before rec p good)

    submit-Good :
        (before : List Call) (groups : List (String × List SandboxRecord)) (p : SweepPool)
        → Good before p
        → Good before (submit env act groups p)
    unfolding submit
    submit-Good before [] p good = good
    submit-Good before ((key, group) ∷ groups) p good =
        submit-Good before groups (submit_runner env act key group p)
          (submit_runner-Good before key group p good)

    concurrently-Good :
        (before : List Call) (records : List SandboxRecord) (runs : ℕ) (db : Database)
        → IsValid db
        → Accounted env cfg nanos r db before
        → Good before (sweep_concurrently env records act runs db)
    unfolding sweep_concurrently
    concurrently-Good before records runs db v a =
        submit-Good before (group_by_runner_from [] records) (new_sweep_pool runs db)
          (v, subst (Accounted env cfg nanos r db) (sym (append-nil before)) a)

  phase-Good :
      (on : Bool) (sweep : ℕ → Database → SweepPool) (p : SweepPool)
      → ((before : List Call) (runs : ℕ) (db : Database)
          → IsValid db
          → Accounted env cfg nanos r db before
          → Good before (sweep runs db))
      → Good [] p
      → Good [] (phase env cfg nanos on sweep p)
  phase-Good false sweep p each good = good
  phase-Good true sweep p each (v, a) = each p.calls p.runs p.db v a

  stops :
      (before : List Call) (runs : ℕ) (db : Database)
      → IsValid db
      → Accounted env cfg nanos r db before
      → Good before (sweep_idle_stop_sandboxes env cfg nanos runs db)
  unfolding sweep_idle_stop_sandboxes
  stops before runs db =
      concurrently-Good (λ n. act_stop env cfg nanos n (stop_cutoff env cfg nanos))
        (act_stop-Explained env cfg nanos (stop_cutoff env cfg nanos)) before
        (list_for_idle_reap_stop (stop_cutoff env cfg nanos) false db) runs db

  deletes :
      (before : List Call) (runs : ℕ) (db : Database)
      → IsValid db
      → Accounted env cfg nanos r db before
      → Good before (sweep_idle_delete_sandboxes env cfg nanos runs db)
  unfolding sweep_idle_delete_sandboxes
  deletes before runs db =
      concurrently-Good (λ n. act_delete env cfg nanos n (delete_cutoff env cfg nanos))
        (act_delete-Explained env cfg nanos (delete_cutoff env cfg nanos)) before
        (list_for_idle_reap_delete (delete_cutoff env cfg nanos) db) runs db

  ephemerals :
      (before : List Call) (runs : ℕ) (db : Database)
      → IsValid db
      → Accounted env cfg nanos r db before
      → Good before (sweep_ephemeral_sandboxes env cfg nanos runs db)
  unfolding sweep_ephemeral_sandboxes
  ephemerals before runs db =
      concurrently-Good (λ n. act_ephemeral env cfg nanos n (ephemeral_cutoff env cfg nanos))
        (act_ephemeral-Explained env cfg nanos (ephemeral_cutoff env cfg nanos)) before
        (list_for_idle_reap_stop (ephemeral_cutoff env cfg nanos) true db) runs db

  choose-Good : (b : Bool) (p q : SweepPool) → Good [] p → Good [] q → Good [] (if b then p else q)
  choose-Good true p q good other = good
  choose-Good false p q other good = good

  -- After a sweep of a valid store, whatever the runners answer and whichever reads and writes of a
  -- run fail, a sandbox's row is as it was; or only its status is now "stopped", and in some run its
  -- runner was called to stop it and answered that it has. Or the row is gone: then in some run the
  -- runner was called to delete the sandbox and answered that it has, or the runner was not
  -- registered and had been removed the orphan buffer ago or longer. A call goes to the address that
  -- the runner is registered with, or else to the recorded one.
  pub sweep_idle_sandboxes-Accounted :
      (db : Database)
      → IsValid db
      → lookup r.id db.sandboxes ≡ some r
      → let swept = sweep_idle_sandboxes env cfg nanos db in
        Accounted env cfg nanos r swept.db swept.calls
  unfolding sweep_idle_sandboxes
  sweep_idle_sandboxes-Accounted db v there =
      let p1 =
        phase env cfg nanos (ltb_ℤ (pos 0) cfg.idle_stop_after)
          (sweep_idle_stop_sandboxes env cfg nanos) (new_sweep_pool 0 db) in
      let p2 =
        phase env cfg nanos (ltb_ℤ (pos 0) cfg.idle_delete_after)
          (sweep_idle_delete_sandboxes env cfg nanos) p1 in
      let p3 =
        phase env cfg nanos (ltb_ℤ (pos 0) (ephemeral_idle_window cfg))
          (sweep_ephemeral_sandboxes env cfg nanos) p2 in
      let good : Good [] (new_sweep_pool 0 db) = (v, inl (r.status, there, inl refl)) in
      let good1 : Good [] p1 =
        phase-Good _ (sweep_idle_stop_sandboxes env cfg nanos) _ stops good in
      let good2 : Good [] p2 =
        phase-Good _ (sweep_idle_delete_sandboxes env cfg nanos) _ deletes good1 in
      let good3 : Good [] p3 =
        phase-Good _ (sweep_ephemeral_sandboxes env cfg nanos) _ ephemerals good2 in
      (choose-Good (env.cancelled p1.runs) p1 _ good1
        (choose-Good (env.cancelled p2.runs) p2 p3 good2 good3)).1
