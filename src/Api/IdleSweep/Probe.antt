-- ===== src/Api/IdleSweep/Probe.antt =====
-- A runner that cannot be reached costs one call in each phase of a sweep.
use n8n_sandbox_service.Base.{
  ℕ, ◌+◌, ◌≡◌, refl, ap, String, true, false, some, List, [], ◌∷◌, eq_refl, arith, length, contains,
}
use n8n_sandbox_service.Api.Store.{Database, SandboxRecord, get}
use n8n_sandbox_service.Api.IdleSweep.{
  unavailable, Env, call_failed, Effect, with_locked_sandbox, SweepPool, runner_key, run,
  submit_rest, submit_runner,
}

module _ (env : Env) (act : ℕ → SandboxRecord → Database → Effect) where
  -- The run of a candidate of which the runner cannot be reached marks the runner.
  run-unreachable :
      (rec fresh : SandboxRecord) (p : SweepPool)
      → env.lock_fails p.runs ≡ false
      → get rec.id p.db ≡ some fresh
      → (act p.runs fresh p.db).result ≡ call_failed unavailable
      → contains (runner_key rec) (run env act rec p).unreachable ≡ true
  unfolding run with_locked_sandbox contains
  run-unreachable rec fresh p locked found dead =
      rw (run, with_locked_sandbox, locked, found, dead) (ground (arith, eq_refl (runner_key rec)))

  submit_rest-dead :
      (key : String) (l : List SandboxRecord) (p : SweepPool)
      → env.cancelled p.runs ≡ false
      → contains key p.unreachable ≡ true
      → submit_rest env act key l p
        ≡ record p { skipped_unreachable = p.skipped_unreachable + length l }
  unfolding submit_rest
  submit_rest-dead key [] p on dead =
      ap (λ k. record p { skipped_unreachable = k }) {y = p.skipped_unreachable + 0} (omega arith)
  submit_rest-dead key (rec ∷ l) p on dead = rw (submit_rest, on, dead) refl

  -- If the call for the first of a runner's candidates finds the runner unavailable, then no other
  -- candidate of that runner is run in this phase: the store and the calls are as the first run
  -- left them, and all the others are counted as skipped. The sweep is not cancelled meanwhile.
  pub submit_runner-dead :
      (rec fresh : SandboxRecord) (l : List SandboxRecord) (p : SweepPool)
      → env.lock_fails p.runs ≡ false
      → env.cancelled (run env act rec p).runs ≡ false
      → get rec.id p.db ≡ some fresh
      → (act p.runs fresh p.db).result ≡ call_failed unavailable
      → submit_runner env act (runner_key rec) (rec ∷ l) p ≡ record (run env act rec p) {
        skipped_unreachable = (run env act rec p).skipped_unreachable + length l;
      }
  unfolding submit_runner
  submit_runner-dead rec fresh l p locked on found dead =
      submit_rest-dead (runner_key rec) l (run env act rec p) on
        (run-unreachable rec fresh p locked found dead)
