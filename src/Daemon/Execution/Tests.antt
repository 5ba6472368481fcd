-- ===== src/Daemon/Execution/Tests.antt =====
-- Runs of internal/daemon/execution.go on small histories, and the theorems at concrete inputs.
use n8n_sandbox_service.Base.{
  ℕ, ◌≡◌, refl, true, false, none, some, List, [], ◌∷◌, ◌++◌, arith, pos, ltb_ℤ, ◌⊎◌, ◌≤◌, ◌<◌,
  Option, drop,
}
use n8n_sandbox_service.Daemon.Execution.{
  Response, ResponseType, Execution, blank_response, new_execution, append, snapshot, returns,
  panics, follow_turn, gone, delivers,
}
use n8n_sandbox_service.Daemon.Execution.History.{
  Holds, append_all, extend_log, append_all-Holds, append_fits,
}
use n8n_sandbox_service.Daemon.Execution.Requests.{
  answer, position, overflows, snapshot-answer, snapshot_panics,
}
use n8n_sandbox_service.Daemon.Execution.Sessions.{
  Session, Reach, here, later, appends, sends, begin, Faithful, Reach-Faithful, sends_all,
}

-- Three bytes an event: the sequence number, and two more.
abbrev marshal : Response → List ℕ
marshal r = elim r.seq [ none ↦ [] | some n ↦ n ∷ 7 ∷ 7 ∷ [] ]

abbrev line : Response
line = blank_response ResponseType.stdout

abbrev three_lines : List (Response × ℕ)
three_lines = (line, 10) ∷ (line, 11) ∷ (blank_response ResponseType.exit, 12) ∷ []

abbrev trimmed : Execution
trimmed = append_all marshal three_lines (new_execution "e1" (pos 6))

abbrev trimmed_log : List (List ℕ)
trimmed_log = extend_log marshal three_lines []

trimmed_min_seq : (trimmed.min_seq ≡ 1) × (trimmed.size ≡ 6) × (trimmed.completed ≡ true)
unfolding append_all append new_execution blank_response
trimmed_min_seq = (refl, refl, refl)

snapshot-trimmed :
    snapshot trimmed (some 0) ≡ returns (some ((1 ∷ 7 ∷ 7 ∷ []) ∷ (2 ∷ 7 ∷ 7 ∷ []) ∷ []))
unfolding append_all append new_execution snapshot blank_response
snapshot-trimmed = refl

trimmed_gone : snapshot trimmed none ≡ returns none
unfolding append_all append new_execution snapshot blank_response
trimmed_gone = refl

trimmed-Holds : Holds trimmed trimmed_log
trimmed-Holds = append_all-Holds marshal "e1" (pos 6) three_lines (omega arith)

append_all-Holds_example : Holds trimmed trimmed_log
append_all-Holds_example = append_all-Holds marshal "e1" (pos 6) three_lines (omega arith)

append_fits_example :
    (ltb_ℤ (pos 6) (pos (append marshal line 13 trimmed).size) ≡ false)
    ⊎ ((append marshal line 13 trimmed).min_seq ≡ 3)
unfolding append_all extend_log append new_execution blank_response
append_fits_example =
    (append_fits marshal line 13 trimmed trimmed_log (omega arith) trimmed-Holds).0

snapshot-answer_example : snapshot trimmed (some 1) ≡ returns (answer 1 trimmed_log (some 1))
unfolding append_all append new_execution blank_response extend_log
snapshot-answer_example =
    snapshot-answer trimmed trimmed_log trimmed-Holds (some 1) (omega arith) (omega arith)

snapshot_panics_example : snapshot trimmed (some 9223372036854775808) ≡ panics
unfolding append_all append new_execution blank_response
snapshot_panics_example =
    snapshot_panics trimmed trimmed_log trimmed-Holds 9223372036854775808 (omega arith)
      (omega arith)

abbrev followed : Session
followed = record (begin "e1" (pos 100) none) {
  ex = append marshal line 10 (new_execution "e1" (pos 100));
  log = (0 ∷ 7 ∷ 7 ∷ []) ∷ [];
  after = some 0;
  delivered = (0 ∷ 7 ∷ 7 ∷ []) ∷ [];
}

followed-Reach : Reach marshal (begin "e1" (pos 100) none) followed
unfolding append new_execution blank_response follow_turn
followed-Reach =
    later (later here (appends line 10)) (sends ((0 ∷ 7 ∷ 7 ∷ []) ∷ []) (some 0) false refl refl)

Reach-Faithful_example : Faithful marshal none followed
Reach-Faithful_example = Reach-Faithful marshal "e1" (pos 100) none tt followed-Reach (omega arith)

-- A follower that has the first line when the second comes.
abbrev behind : Session
behind = record followed {
  ex = append marshal line 11 followed.ex;
  log = followed.log ++ (1 ∷ 7 ∷ 7 ∷ []) ∷ [];
}

behind-Reach : Reach marshal (begin "e1" (pos 100) none) behind
unfolding append new_execution blank_response
behind-Reach = later followed-Reach (appends line 11)

behind_turn :
    follow_turn behind.ex (some 0) ≡ returns (delivers ((1 ∷ 7 ∷ 7 ∷ []) ∷ []) (some 1) false)
unfolding append new_execution blank_response follow_turn
behind_turn = refl

sends_all_example :
    ((overflows behind.ex.min_seq (some 0) ≡ true) × (follow_turn behind.ex (some 0) ≡ panics))
    ⊎ ((1 < behind.ex.min_seq) × (follow_turn behind.ex (some 0) ≡ returns gone))
    ⊎ ((sent : List (List ℕ)) × (next : Option ℕ) × (behind.ex.min_seq ≤ 1)
        × (follow_turn behind.ex (some 0) ≡ returns (delivers sent next behind.ex.completed))
        × (followed.delivered ++ sent ≡ behind.log)
        × (drop (position next) behind.log ≡ []))
sends_all_example =
    sends_all marshal none
      (Reach-Faithful marshal "e1" (pos 100) none tt behind-Reach (omega arith)) (omega arith)
