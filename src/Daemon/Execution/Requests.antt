-- ===== src/Daemon/Execution/Requests.antt =====
-- `Snapshot`, `HasHistory` and `eventsAfter` of internal/daemon/execution.go, answered from the log.
use n8n_sandbox_service.Base.{
  ℕ, suc, ◌+◌, ◌-◌, ◌%◌, ◌≤◌, ◌<◌, ◌≡◌, refl, ap, sym, subst, ◌∙◌, Bool, not, ◌&&◌, true, false,
  Option, none, some, List, [], arith, leb, ◌==◌, if◌then◌else◌, length, drop, drop-drop, drop_all,
  drop-map, ◌⊎◌, ==_iff, Bool-cases, inl, inr,
}
use n8n_sandbox_service.Daemon.Execution.{
  Execution, StoredEvent, returns, panics, max_uint64, tail_from, events_after, has_history_after,
  snapshot,
}
use n8n_sandbox_service.Daemon.Execution.Log.{number, length-number, bytes-number}
use n8n_sandbox_service.Daemon.Execution.History.{Holds}

-- Where in the log a request that names the last event it has seen goes on.
abbrev pub position : Option ℕ → ℕ
position none = 0
position (some after) = suc after

-- The answer that the log gives: what is trimmed is gone, and the rest is sent.
unfoldable pub answer : ℕ → List (List ℕ) → Option ℕ → Option (List (List ℕ))
answer min_seq log after =
    if leb min_seq (position after) then some (drop (position after) log) else none

-- The requests, but for the largest number, whose index is 2^63 or more.
abbrev pub overflows : ℕ → Option ℕ → Bool
overflows min_seq none = false
overflows min_seq (some after) =
    not (after == max_uint64) && leb (9223372036854775808 + min_seq) (suc after)

tail_from-number :
    (n start : ℕ) (bs : List (List ℕ))
    → start < 9223372036854775808
    → tail_from start (number n bs) ≡ returns (drop start bs)
tail_from-number n start bs h = ground (
  arith,
  length-number n bs,
  drop_all start bs,
  ap returns (sym (drop-map (λ (e : StoredEvent). e.bytes) start (number n bs))),
  ap (λ l. returns (drop start l)) (bytes-number n bs),
)

-- Where the tail of the retained events starts for a request inside their range.
start_of :
    (min_seq after : ℕ)
    → min_seq ≤ suc after
    → suc after < 9223372036854775808 + min_seq
    → after < 18446744073709551615
    → (if leb min_seq after
        then (((after + 18446744073709551616 - min_seq) % 18446744073709551616) + 1)
          % 18446744073709551616
        else 0)
      ≡ suc after - min_seq
start_of min_seq after low high small = ground arith

-- A request names no event or a `uint64`.
abbrev pub IsUint64 : Option ℕ → Type 0
IsUint64 none = Unit {0}
IsUint64 (some after) = after ≤ max_uint64

module _ (ex : Execution) (log : List (List ℕ)) (h : Holds ex log) where
  tail_from-log :
      (start : ℕ)
      → start < 9223372036854775808
      → tail_from start ex.events ≡ returns (drop (ex.min_seq + start) log)
  tail_from-log start small =
      ap (tail_from start) h.events_lem
      ∙ tail_from-number ex.min_seq start (drop ex.min_seq log) small
      ∙ ap returns (drop-drop start ex.min_seq log)

  -- A request whose history is retained is served the rest of the log.
  events_after_lem :
      (after : ℕ)
      → after < max_uint64
      → ex.min_seq ≤ suc after
      → suc after < 9223372036854775808 + ex.min_seq
      → events_after ex (some after) ≡ returns (drop (suc after) log)
  unfolding events_after
  events_after_lem after small low high =
      let other : (after == max_uint64) ≡ false = ground arith in
      rw other (
        ap (λ k. tail_from k ex.events) (start_of ex.min_seq after low high small)
        ∙ tail_from-log (suc after - ex.min_seq) (omega arith)
        ∙ ap (λ i. returns (drop i log)) {y = suc after} (omega arith))

  events_after-none : ex.min_seq ≡ 0 → events_after ex none ≡ returns log
  unfolding events_after
  events_after-none e =
      tail_from-log 0 (omega arith) ∙ ap (λ i. returns (drop i log)) {y = 0} (omega arith)

  after-answer :
      (after : ℕ)
      → after < max_uint64
      → suc after < 9223372036854775808 + ex.min_seq
      → snapshot ex (some after) ≡ returns (answer ex.min_seq log (some after))
  unfolding snapshot answer has_history_after
  after-answer after small high = elim (Bool-cases (leb ex.min_seq (suc after))) [
    | inl kept ↦ ground (arith, events_after_lem after)
    | inr trimmed ↦ ground arith
  ]

  snapshot-none-answer : snapshot ex none ≡ returns (answer ex.min_seq log none)
  unfolding snapshot answer has_history_after
  snapshot-none-answer = ground (arith, events_after-none)

  -- The largest number asks for nothing and gets nothing.
  snapshot_max : snapshot ex (some max_uint64) ≡ returns (some [])
  unfolding snapshot events_after has_history_after
  snapshot_max = refl

  -- Where the history is the end of the log, a request after a number below 2^64 - 1 that is 2^63 or
  -- more beyond the oldest event makes `Snapshot` panic.
  pub snapshot_panics :
      (after : ℕ)
      → after < max_uint64
      → 9223372036854775808 + ex.min_seq ≤ suc after
      → snapshot ex (some after) ≡ panics
  unfolding snapshot events_after has_history_after
  snapshot_panics after small high = ground arith

  max-answer :
      length log < max_uint64
      → snapshot ex (some max_uint64) ≡ returns (answer ex.min_seq log (some max_uint64))
  unfolding answer
  max-answer short =
      let kept : leb ex.min_seq (suc max_uint64) ≡ true = ground (arith, h.room) in
      let rest : drop (suc max_uint64) log ≡ [] = drop_all (suc max_uint64) log (omega arith) in
      snapshot_max ∙ sym (rw (kept, rest) refl)

  -- Where the history is the end of a log of fewer than 2^64 - 1 events, `Snapshot` panics on a
  -- request whose index overflows an `int`, and otherwise gets exactly what the log says: that the
  -- history is gone if an event after the one that the request names is trimmed, and else all the
  -- events after it, in order. The request names no event, and asks for all, or any `uint64`.
  pub snapshot-answer :
      (after : Option ℕ)
      → IsUint64 after
      → length log < max_uint64
      → snapshot ex after
        ≡ (if overflows ex.min_seq after then panics else returns (answer ex.min_seq log after))
  snapshot-answer none valid short = snapshot-none-answer
  snapshot-answer (some after) valid short = elim (Bool-cases (after == max_uint64)) [
    | inl top ↦
        let e : after ≡ max_uint64 = (==_iff _ _).0 top in
        subst
          (λ n. snapshot ex (some n) ≡ (
            if overflows ex.min_seq (some n)
            then panics
            else returns (answer ex.min_seq log (some n))))
          (sym e) (max-answer short)
    | inr other ↦ elim (Bool-cases (leb (9223372036854775808 + ex.min_seq) (suc after))) [
      | inl far ↦ rw (other, far) (snapshot_panics after (ground arith) (ground arith))
      | inr near ↦ rw (other, near) (after-answer after (ground arith) (ground arith))
    ]
  ]

  -- With the history retained, the events are the rest of the log, unless the index overflows.
  pub events_after-cases :
      (after : Option ℕ)
      → IsUint64 after
      → length log < max_uint64
      → has_history_after ex after ≡ true
      → ((overflows ex.min_seq after ≡ true) × (events_after ex after ≡ panics))
        ⊎ (events_after ex after ≡ returns (drop (position after) log))
  unfolding events_after has_history_after
  events_after-cases none valid short kept =
      let start : ex.min_seq ≡ 0 = (==_iff _ _).0 kept in inr (events_after-none start)
  events_after-cases (some after) valid short kept = elim (Bool-cases (after == max_uint64)) [
    | inl top ↦
        let e : after ≡ max_uint64 = (==_iff _ _).0 top in
        inr (rw top (ap returns (sym (drop_all (suc after) log (omega arith)))))
    | inr other ↦ elim (Bool-cases (leb (9223372036854775808 + ex.min_seq) (suc after))) [
      | inl far ↦ inl (rw (other, far) refl, ground arith)
      | inr near ↦ inr (events_after_lem after (ground arith) (ground arith) (ground arith))
    ]
  ]

  pub has_history_after-le :
      (after : Option ℕ)
      → IsUint64 after
      → length log < max_uint64
      → has_history_after ex after ≡ true
      → ex.min_seq ≤ position after
  unfolding has_history_after
  has_history_after-le none valid short kept = ground arith
  has_history_after-le (some after) valid short kept = ground (arith, h.room)
