-- ===== src/Api/IdleSweep/Fence.antt =====
-- Nothing is deleted before requests refuse it: the fence is up before the irreversible step.
use n8n_sandbox_service.Base.{
  ℕ, ◌≡◌, refl, ◌⊎◌, inl, inr, Bool, true, false, not, ◌||◌, [], str_eq, arith, ℤ, pos, negsuc,
  ltb_ℤ, ◌≤ℤ◌, ◌+ℤ◌, ◌-ℤ◌, +ℤ_parts, -ℤ_parts, Bool-cases,
}
use n8n_sandbox_service.Api.Store.{Database, SandboxRecord}
use n8n_sandbox_service.Api.IdleSweep.{
  Config, idle_seconds, ephemeral_idle_window, is_past_idle_delete_window, Env, Effect, act_delete,
  act_ephemeral, unix, delete_cutoff, ephemeral_cutoff,
}

idle_seconds-positive : (d : ℤ) → ltb_ℤ (pos 0) d ≡ true → pos 1 ≤ℤ idle_seconds d
unfolding idle_seconds
idle_seconds-positive (pos n) h = ground arith
idle_seconds-positive (negsuc n) h = absurd (ground arith)

-- The cutoff of a phase, for an idle window and a buffer in seconds.
abbrev before_cutoff : ℤ → ℤ → ℤ → ℤ → Bool
before_cutoff last now window buffer = ltb_ℤ ((now -ℤ window) -ℤ buffer) last

fence_up :
    (last now window buffer : ℤ)
    → pos 1 ≤ℤ buffer
    → before_cutoff last now window buffer ≡ false
    → ltb_ℤ (last +ℤ window) now ≡ true
fence_up last now window buffer positive past =
    ground (arith, +ℤ_parts last window, -ℤ_parts now window, -ℤ_parts (now -ℤ window) buffer)

-- A run that leaves the store as it is and calls no runner.
abbrev pub DoesNothing : Effect → Database → Type 0
DoesNothing e db = (e.db ≡ db) × (e.calls ≡ [])

module _ (env : Env) (cfg : Config) (nanos n : ℕ) (rec : SandboxRecord) (db : Database) where
  abbrev deletes : Effect
  deletes = act_delete env cfg nanos n (delete_cutoff env cfg nanos) rec db

  abbrev ephemerals : Effect
  ephemerals = act_ephemeral env cfg nanos n (ephemeral_cutoff env cfg nanos) rec db

  -- With a safety buffer and idle deletion on, a run of the idle-delete sweep calls the runner of a sandbox that is not
  -- ephemeral, or drops its row, only if requests refuse the sandbox at that time; otherwise it
  -- does nothing. This holds for whatever record the run reads under the lock.
  pub act_delete-fenced :
      rec.ephemeral ≡ false
      → ltb_ℤ (pos 0) cfg.idle_delete_after ≡ true
      → ltb_ℤ (pos 0) cfg.idle_delete_safety_buffer ≡ true
      → DoesNothing deletes db ⊎ (is_past_idle_delete_window rec cfg (unix env cfg nanos) ≡ true)
  unfolding act_delete delete_cutoff is_past_idle_delete_window
  act_delete-fenced kind on buffered =
      elim (Bool-cases (
        not (str_eq rec.status "stopped")
        || ltb_ℤ (delete_cutoff env cfg nanos) rec.last_active_at)) [
          | inl fresh ↦ inl (rw (act_delete, fresh) (refl, refl))
          | inr idle ↦
              let past : before_cutoff rec.last_active_at (unix env cfg nanos)
                    (idle_seconds cfg.idle_delete_after)
                    (idle_seconds cfg.idle_delete_safety_buffer)
                  ≡ false =
                ground (arith, idle) in
              let up =
                fence_up rec.last_active_at (unix env cfg nanos)
                  (idle_seconds cfg.idle_delete_after) (idle_seconds cfg.idle_delete_safety_buffer)
                  (idle_seconds-positive cfg.idle_delete_safety_buffer buffered) past in
              inr (rw (is_past_idle_delete_window, kind, on, up) refl)
        ]

  -- With a safety buffer and an idle window, a run of the ephemeral sweep calls the runner of an
  -- ephemeral sandbox, or drops its row, only if requests refuse the sandbox at that time; otherwise
  -- it does nothing. This holds for whatever record the run reads under the lock.
  pub act_ephemeral-fenced :
      rec.ephemeral ≡ true
      → ltb_ℤ (pos 0) (ephemeral_idle_window cfg) ≡ true
      → ltb_ℤ (pos 0) cfg.idle_delete_safety_buffer ≡ true
      → DoesNothing ephemerals db ⊎ (is_past_idle_delete_window rec cfg (unix env cfg nanos) ≡ true)
  unfolding act_ephemeral ephemeral_cutoff is_past_idle_delete_window
  act_ephemeral-fenced kind on buffered =
      elim (Bool-cases (
        not (str_eq rec.status "running")
        || ltb_ℤ (ephemeral_cutoff env cfg nanos) rec.last_active_at)) [
          | inl fresh ↦ inl (rw (act_ephemeral, fresh) (refl, refl))
          | inr idle ↦
              let past : before_cutoff rec.last_active_at (unix env cfg nanos)
                    (idle_seconds (ephemeral_idle_window cfg))
                    (idle_seconds cfg.idle_delete_safety_buffer)
                  ≡ false =
                ground (arith, idle) in
              let up =
                fence_up rec.last_active_at (unix env cfg nanos)
                  (idle_seconds (ephemeral_idle_window cfg))
                  (idle_seconds cfg.idle_delete_safety_buffer)
                  (idle_seconds-positive cfg.idle_delete_safety_buffer buffered) past in
              inr (rw (is_past_idle_delete_window, kind, on, up) refl)
        ]
