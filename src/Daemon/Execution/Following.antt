-- ===== src/Daemon/Execution/Following.antt =====
-- One turn of the loop of `Follow` in internal/daemon/execution.go, answered from the log.
use n8n_sandbox_service.Base.{
  ℕ, ◌-◌, ◌≤◌, ◌<◌, ◌≡◌, refl, ap, subst, ◌∙◌, Bool, true, false, Option, none, some, List, [], ◌∷◌,
  ◌⊎◌, inl, inr, arith, length, drop, drop_all, length-drop, Bool-cases,
}
use n8n_sandbox_service.Daemon.Execution.{
  Execution, returns, panics, Turn, gone, delivers, follow_turn, has_history_after, last_seq,
  next_after, max_uint64,
}
use n8n_sandbox_service.Daemon.Execution.Log.{last_seq-number}
use n8n_sandbox_service.Daemon.Execution.History.{Holds}
use n8n_sandbox_service.Daemon.Execution.Requests.{
  position, IsUint64, overflows, events_after-cases, has_history_after-le,
}

-- Nothing was new, or the follower is now at the end of the log.
abbrev pub Advance : List (List ℕ) → Option ℕ → List (List ℕ) → Option ℕ → Type 0
Advance log after sent next =
    ((sent ≡ []) × (next ≡ after)) ⊎ ((position after < length log) × (position next ≡ length log))

-- The batch of a turn is the rest of the log, and the next turn goes on behind it.
pub data Served (log : List (List ℕ)) (after : Option ℕ) : Turn → Type 0 where
  trimmed : Served log after gone
  batch :
      (sent : List (List ℕ)) (next : Option ℕ) (completed : Bool)
      → sent ≡ drop (position after) log
      → Advance log after sent next
      → Served log after (delivers sent next completed)

nothing_left :
    (log : List (List ℕ)) (after next : Option ℕ)
    → Advance log after (drop (position after) log) next
    → drop (position next) log ≡ []
nothing_left log after next (inl (none_new, same)) = ap (λ n. drop (position n) log) same ∙ none_new
nothing_left log after next (inr (more, at_end)) = drop_all (position next) log (omega arith)

module _ (ex : Execution) (log : List (List ℕ)) (h : Holds ex log) where
  next_after-position :
      (after : Option ℕ) (sent : List (List ℕ))
      → sent ≡ drop (position after) log
      → ex.min_seq ≤ position after
      → Advance log after sent (next_after sent ex after)
  next_after-position after [] e low = inl (refl, refl)
  next_after-position after (b ∷ bs) e low =
      let long : position after < length log =
        omega (arith, ap length e, length-drop (position after) log) in
      let last : last_seq ex.events after ≡ some (length log - 1) =
        ap (λ es. last_seq es after) h.events_lem
        ∙ last_seq-number ex.min_seq (drop ex.min_seq log) after
            (omega (arith, length-drop ex.min_seq log))
        ∙ ap some {y = length log - 1} (omega (arith, length-drop ex.min_seq log)) in
      inr (long, ap position last ∙ omega arith)

  -- A turn that returns either finds its history trimmed or serves the rest of the log.
  pub follow_turn-Served :
      (after : Option ℕ)
      → IsUint64 after
      → length log < max_uint64
      → (t : Turn) → follow_turn ex after ≡ returns t
      → Served log after t
  unfolding follow_turn
  follow_turn-Served after valid short t r = elim (Bool-cases (has_history_after ex after)) [
    | inr lost ↦ let e : gone ≡ t = ground arith in subst (Served log after) e trimmed
    | inl kept ↦ elim (events_after-cases ex log h after valid short kept) [
      | inl (far, boom) ↦ absurd (ground arith)
      | inr sent ↦
          let rest : List (List ℕ) = drop (position after) log in
          let e : delivers rest (next_after rest ex after) ex.completed ≡ t = ground arith in
          let low = has_history_after-le ex log h after valid short kept in
          subst (Served log after) e (
            batch rest (next_after rest ex after) ex.completed refl
              (next_after-position after rest refl low))
    ]
  ]

  no_history-position :
      (after : Option ℕ)
      → IsUint64 after
      → has_history_after ex after ≡ false
      → position after < ex.min_seq
  unfolding has_history_after
  no_history-position none valid lost = ground arith
  no_history-position (some after) valid lost = ground arith

  -- The three ends of a turn: a panic where the index overflows, `gone` where an event after the
  -- request's is trimmed, and else the rest of the log, after which nothing of it is left.
  pub follow_turn-cases :
      (after : Option ℕ)
      → IsUint64 after
      → length log < max_uint64
      → ((overflows ex.min_seq after ≡ true) × (follow_turn ex after ≡ panics))
        ⊎ ((position after < ex.min_seq) × (follow_turn ex after ≡ returns gone))
        ⊎ ((next : Option ℕ) × (ex.min_seq ≤ position after)
            × (follow_turn ex after
                ≡ returns (delivers (drop (position after) log) next ex.completed))
            × (drop (position next) log ≡ []))
  unfolding follow_turn
  follow_turn-cases after valid short = elim (Bool-cases (has_history_after ex after)) [
    | inr lost ↦ inr (inl (no_history-position after valid lost, rw (follow_turn, lost) refl))
    | inl kept ↦ elim (events_after-cases ex log h after valid short kept) [
      | inl (far, boom) ↦ inl (far, rw (follow_turn, kept, boom) refl)
      | inr sent ↦
          let low = has_history_after-le ex log h after valid short kept in
          let rest : List (List ℕ) = drop (position after) log in
          let next = next_after rest ex after in
          inr (
            inr (
              next,
              low,
              rw (follow_turn, kept, sent) refl,
              nothing_left log after next (next_after-position after rest refl low),
            ))
    ]
  ]
