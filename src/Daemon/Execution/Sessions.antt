-- ===== src/Daemon/Execution/Sessions.antt =====
-- `Follow` of internal/daemon/execution.go beside the command that appends: turns of the follower's
-- loop and appends come in any order, each under the execution's lock. A wait on `notify` may end
-- early or late, so a turn may come at any time while the follower has not returned.
use n8n_sandbox_service.Base.{
  ℕ, ◌≤◌, ◌<◌, ◌≡◌, refl, ap, sym, subst, String, Bool, true, false, Option, none, some, List, [],
  ◌∷◌, ◌++◌, append-nil, append_assoc, ◌⊎◌, inl, inr, arith, length, drop, drop-append, drop_all,
  length-append, ℤ,
}
use n8n_sandbox_service.Daemon.Execution.{
  Response, Execution, new_execution, append, returns, panics, gone, delivers, follow_turn,
  max_uint64,
}
use n8n_sandbox_service.Daemon.Execution.History.{Holds, entry, append-Holds, new_execution-Holds}
use n8n_sandbox_service.Daemon.Execution.Requests.{position, IsUint64, overflows}
use n8n_sandbox_service.Daemon.Execution.Following.{
  Served, batch, Advance, follow_turn-Served, follow_turn-cases,
}

-- One follower, with the log of what was appended and all that it has passed to its callback.
pub record Session : Type 0 where
  pub ex : Execution
  pub log : List (List ℕ)
  pub after : Option ℕ
  pub delivered : List (List ℕ)
  pub returned : Bool

abbrev pub begin : String → ℤ → Option ℕ → Session
begin id max after = record {
  ex = new_execution id max;
  log = [];
  after = after;
  delivered = [];
  returned = false;
}

module _ (marshal : Response → List ℕ) where
  pub data Step (s : Session) : Session → Type 0 where
    appends :
        (resp : Response) (now : ℕ)
        → Step s (record s {
          ex = append marshal resp now s.ex;
          log = s.log ++ entry marshal resp (length s.log) ∷ [];
        })
    gives_up :
        s.returned ≡ false
        → follow_turn s.ex s.after ≡ returns gone
        → Step s (record s { returned = true })
    sends :
        (sent : List (List ℕ)) (next : Option ℕ) (completed : Bool)
        → s.returned ≡ false
        → follow_turn s.ex s.after ≡ returns (delivers sent next completed)
        → Step s (record s { after = next; delivered = s.delivered ++ sent; returned = completed })

  pub data Reach (s : Session) : Session → Type 0 where
    here : Reach s s
    later : {t u : Session} → Reach s t → Step t u → Reach s u

  -- What has been delivered is the log from the start position up to the follower's own.
  pub record Faithful (start : Option ℕ) (s : Session) : Type 0 where
    pub holds : Holds s.ex s.log
    pub valid : IsUint64 s.after
    pub sent :
        ((s.delivered ≡ []) × (s.after ≡ start))
        ⊎ ((s.delivered ++ drop (position s.after) s.log ≡ drop (position start) s.log)
            × (position start ≤ position s.after)
            × (position s.after ≤ length s.log))

  abbrev Progress : Option ℕ → List (List ℕ) → Option ℕ → List (List ℕ) → Type 0
  Progress start log after delivered =
      ((delivered ≡ []) × (after ≡ start))
      ⊎ ((delivered ++ drop (position after) log ≡ drop (position start) log)
          × (position start ≤ position after)
          × (position after ≤ length log))

  Progress-append :
      (start after : Option ℕ) (log delivered : List (List ℕ)) (b : List ℕ)
      → Progress start log after delivered
      → Progress start (log ++ b ∷ []) after delivered
  Progress-append start after log delivered b (inl idle) = inl idle
  Progress-append start after log delivered b (inr (e, low, high)) = inr (
    rw (
      drop-append (position after) log (b ∷ []) high,
      drop-append (position start) log (b ∷ []) (omega arith),
      ← append_assoc,
      e,
    ),
    low,
    omega (arith, length-append log (b ∷ [])),
  )

  Progress-send :
      (start after next : Option ℕ) (log delivered sent : List (List ℕ))
      → sent ≡ drop (position after) log
      → Advance log after sent next
      → Progress start log after delivered
      → Progress start log next (delivered ++ sent)
  Progress-send start after next log delivered sent e (inl (none_new, same)) p =
      rw (none_new, same, append-nil) p
  Progress-send start after next log delivered sent e (inr (more, at_end)) (inl (fresh, same)) =
      inr (
        rw (fresh, drop_all (position next) log (omega arith), append-nil, e, same),
        omega (arith, ap position same),
        omega arith,
      )
  Progress-send start after next log delivered sent e (inr (more, at_end)) (inr (eq, low, high)) =
      inr (
        rw (drop_all (position next) log (omega arith), append-nil, e) eq,
        omega arith,
        omega arith,
      )

  Served-batch :
      {log : List (List ℕ)} {after next : Option ℕ} {sent : List (List ℕ)} {completed : Bool}
      → Served log after (delivers sent next completed)
      → (sent ≡ drop (position after) log) × Advance log after sent next
  Served-batch (batch sent next completed e a) = (e, a)

  Advance-IsUint64 :
      (log sent : List (List ℕ)) (after next : Option ℕ)
      → length log < max_uint64
      → IsUint64 after
      → Advance log after sent next
      → IsUint64 next
  Advance-IsUint64 log sent after next short valid (inl (_, same)) = subst IsUint64 (sym same) valid
  Advance-IsUint64 log sent after none short valid (inr (more, at_end)) = tt
  Advance-IsUint64 log sent after (some n) short valid (inr (more, at_end)) = omega arith

  Step-Faithful :
      {s t : Session} (start : Option ℕ)
      → Step s t
      → length t.log < max_uint64
      → Faithful start s
      → Faithful start t
  Step-Faithful {s} start (appends resp now) short f = record {
    holds =
        append-Holds marshal resp now s.ex s.log
          (omega (arith, length-append s.log (entry marshal resp (length s.log) ∷ []))) f.holds;
    valid = f.valid;
    sent = Progress-append start s.after s.log s.delivered _ f.sent;
  }
  Step-Faithful {s} start (gives_up going r) short f = record {
    holds = f.holds;
    valid = f.valid;
    sent = f.sent;
  }
  Step-Faithful {s} start (sends sent next completed going r) short f =
      let served = Served-batch (follow_turn-Served s.ex s.log f.holds s.after f.valid short _ r) in
      record {
        holds = f.holds;
        valid = Advance-IsUint64 s.log sent s.after next short f.valid served.1;
        sent = Progress-send start s.after next s.log s.delivered sent served.0 served.1 f.sent;
      }

  Step-log : {s t : Session} → Step s t → length s.log ≤ length t.log
  Step-log {s} (appends resp now) =
      omega (arith, length-append s.log (entry marshal resp (length s.log) ∷ []))
  Step-log (gives_up going r) = omega arith
  Step-log (sends sent next completed going r) = omega arith

  -- However turns and appends interleave, a follower that asked for the events after `start` has
  -- been sent nothing yet, or just the log from there on up to its own position: no event twice,
  -- none left out, in order. The log stays shorter than 2^64 - 1 events, `start` is none or a
  -- uint64, and the execution is new at the beginning.
  pub Reach-Faithful :
      (id : String) (max : ℤ) (start : Option ℕ) {t : Session}
      → IsUint64 start
      → Reach (begin id max start) t
      → length t.log < max_uint64
      → Faithful start t
  Reach-Faithful id max start valid here short = record {
    holds = new_execution-Holds id max;
    valid = valid;
    sent = inl (refl, refl);
  }
  Reach-Faithful id max start valid (later r st) short =
      Step-Faithful start st short
        (Reach-Faithful id max start valid r (omega (arith, Step-log st)))

  -- What a follower has been sent and the rest of the log from its own position on are together the
  -- log from its start on.
  sent_and_rest :
      (start after : Option ℕ) (log delivered : List (List ℕ))
      → Progress start log after delivered
      → delivered ++ drop (position after) log ≡ drop (position start) log
  sent_and_rest start after log delivered (inl (fresh, same)) = rw (fresh, same)
  sent_and_rest start after log delivered (inr (e, low, high)) = e

  -- A turn of a follower that asked for the events after `start` panics where the index of its
  -- request overflows an `int`, and finds its history gone where an event that it has not been sent
  -- is trimmed. Any other turn leaves it with the whole log from `start` on and with nothing of it
  -- still to be sent, and reports whether the execution is completed. The log is shorter than
  -- 2^64 - 1 events, and what the follower was sent before is faithful to it.
  pub sends_all :
      {s : Session} (start : Option ℕ)
      → Faithful start s
      → length s.log < max_uint64
      → ((overflows s.ex.min_seq s.after ≡ true) × (follow_turn s.ex s.after ≡ panics))
        ⊎ ((position s.after < s.ex.min_seq) × (follow_turn s.ex s.after ≡ returns gone))
        ⊎ ((sent : List (List ℕ)) × (next : Option ℕ) × (s.ex.min_seq ≤ position s.after)
            × (follow_turn s.ex s.after ≡ returns (delivers sent next s.ex.completed))
            × (s.delivered ++ sent ≡ drop (position start) s.log)
            × (drop (position next) s.log ≡ []))
  sends_all {s} start f short = elim (follow_turn-cases s.ex s.log f.holds s.after f.valid short) [
    | inl boom ↦ inl boom
    | inr (inl lost) ↦ inr (inl lost)
    | inr (inr (next, low, turn, done)) ↦ inr (
        inr (
          drop (position s.after) s.log,
          next,
          low,
          turn,
          sent_and_rest start s.after s.log s.delivered f.sent,
          done,
        ))
  ]
