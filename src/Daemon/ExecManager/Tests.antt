-- ===== src/Daemon/ExecManager/Tests.antt =====
-- Runs of internal/daemon/exec_manager.go, and the theorems at concrete inputs.
use n8n_sandbox_service.Base.{
  ℕ, ◌≡◌, refl, ◌⊎◌, keep_entries, List, [], ◌∷◌, none, some, arith, pos, lookup, insert, eq_iff,
  ◌≢◌, String,
}
use n8n_sandbox_service.Daemon.Execution.{
  Response, ResponseType, Execution, blank_response, new_execution, new_started_response, append,
}
use n8n_sandbox_service.Daemon.ExecManager.{ExecManager, get, gc, get_or_create, create, emit}
use n8n_sandbox_service.Daemon.ExecManager.Lifetime.{
  IsValid, empty, Reach, here, later, requests, Reach-IsValid, get_or_create_again, get-gc,
  emit_all, emits, CompletedBefore,
}

abbrev marshal : Response → List ℕ
marshal r = elim r.seq [ none ↦ [] | some n ↦ n ∷ 7 ∷ [] ]

abbrev unused : Execution
unused = new_execution "" (pos 0)

abbrev start : ExecManager
start = empty (pos 100) (pos 600) unused

abbrev one_running : ExecManager
one_running = (get_or_create marshal "u1" "e1" "ls" [] "" (pos 5) 10 start).0

one_running-Reach : Reach marshal start one_running
one_running-Reach = later here (requests "u1" "e1" "ls" [] "" (pos 5) 10)

Reach-IsValid_example : IsValid one_running
Reach-IsValid_example = Reach-IsValid marshal (pos 100) (pos 600) unused one_running-Reach

e1_named : ◌≢◌ {A = String} "e1" ""
e1_named = ground (arith, eq_iff "e1" "")

abbrev exit_report : List (ℕ × (Response × ℕ))
exit_report = (0, (blank_response ResponseType.exit, 20)) ∷ []

get_or_create_again_example :
    get_or_create marshal "u2" "e1" "rm" [] "" (pos 5) 30 (emit_all marshal exit_report one_running)
    ≡ (emit_all marshal exit_report one_running, 0)
unfolding get_or_create create lookup
get_or_create_again_example =
    get_or_create_again marshal "u1" "u2" "e1" "ls" "rm" [] [] "" "" (pos 5) (pos 5) 10 30
      exit_report start e1_named

-- The command ends at 20, and the retain period is 600.
abbrev one_ended : ExecManager
one_ended = emit marshal 0 (blank_response ResponseType.exit) 20 one_running

one_ended-Reach : Reach marshal start one_ended
one_ended-Reach = later one_running-Reach (emits 0 (blank_response ResponseType.exit) 20)

ended_collected : get "e1" (gc 621 one_ended) ≡ none
unfolding get_or_create create lookup get append new_execution new_started_response blank_response
    insert gc emit keep_entries
ended_collected = refl

ended_kept : get "e1" (gc 620 one_ended) ≡ some 0
unfolding get_or_create create lookup get append new_execution new_started_response blank_response
    insert gc emit keep_entries
ended_kept = refl

get-gc_example :
    ((get "e1" one_ended ≡ none) × (get "e1" (gc 621 one_ended) ≡ none))
    ⊎ ((a : ℕ) × (get "e1" one_ended ≡ some a)
        × (((get "e1" (gc 621 one_ended) ≡ none)
              × CompletedBefore 621 one_ended.exec_retain_period (one_ended.heap a))
            ⊎ ((get "e1" (gc 621 one_ended) ≡ some a)
                × (¬ (CompletedBefore 621 one_ended.exec_retain_period (one_ended.heap a))))))
get-gc_example =
    get-gc 621 one_ended "e1" (Reach-IsValid marshal (pos 100) (pos 600) unused one_ended-Reach)
