-- ===== src/Daemon/Execution/History.antt =====
-- The history of internal/daemon/execution.go against the log of all that was ever appended.
use n8n_sandbox_service.Base.{
  ℕ, ◌+◌, ◌-◌, ◌^◌, ◌≤◌, ◌<◌, ◌≡◌, refl, ap, sym, ◌∙◌, String, true, false, some, List, [], ◌∷◌,
  ◌++◌, ◌⊎◌, inl, inr, arith, length, drop, length-append, length-drop, drop-append, drop-drop, ℤ,
  pos, ltb_ℤ,
}
use n8n_sandbox_service.Daemon.Execution.{Response, Execution, new_execution, trim, append}
use n8n_sandbox_service.Daemon.Execution.Log.{
  number, total_bytes, excess, excess-le, excess_fits, excess_least, kept, trim-number,
}

-- The execution `ex` holds the end of the log, from `min_seq` on.
pub record Holds (ex : Execution) (log : List (List ℕ)) : Type 0 where
  pub next : ex.next_seq ≡ length log
  pub events_lem : ex.events ≡ number ex.min_seq (drop ex.min_seq log)
  pub size_lem : ex.size ≡ total_bytes (drop ex.min_seq log)
  pub room : ex.min_seq ≤ length log - 1

number-append :
    (n : ℕ) (bs : List (List ℕ)) (b : List ℕ) (m : ℕ)
    → m ≡ n + length bs
    → number n (bs ++ b ∷ []) ≡ number n bs ++ record { seq = m; bytes = b } ∷ []
unfolding number
number-append n [] b m h = let e : m ≡ n = omega arith in rw e
number-append n (c ∷ bs) b m h = rw (number-append (n + 1) bs b m (omega arith))

length-grown : (log : List (List ℕ)) (b : List ℕ) → length (log ++ b ∷ []) ≡ length log + 1
length-grown log b = omega (arith, length-append log (b ∷ []))

total_bytes-append :
    (bs : List (List ℕ)) (b : List ℕ) → total_bytes (bs ++ b ∷ []) ≡ total_bytes bs + length b
unfolding total_bytes
total_bytes-append [] b = omega arith
total_bytes-append (c ∷ bs) b = omega (arith, total_bytes-append bs b)

trim-number_next :
    (max : ℤ) (n : ℕ) (log : List (List ℕ)) (b : List ℕ)
    → n ≤ length log
    → trim max
        (number n (drop n log) ++ record { seq = length log; bytes = b } ∷ [])
        (total_bytes (drop n log) + length b)
        n
      ≡ kept max n (drop n (log ++ b ∷ [])) (excess max (drop n (log ++ b ∷ [])))
trim-number_next max n log b h =
    rw
      (
        drop-append n log (b ∷ []) h,
        ← number-append n (drop n log) b (length log) (omega (arith, length-drop n log)),
        ← total_bytes-append (drop n log) b,
      )
      (trim-number max n (drop n log ++ b ∷ []))

module _ (marshal : Response → List ℕ) where
  -- The log grows by the event as it is sent.
  abbrev pub entry : Response → ℕ → List ℕ
  entry resp n = marshal (record resp { seq = some n })

  module _ (resp : Response) (now : ℕ) (ex : Execution) (log : List (List ℕ)) where
    abbrev grown : List (List ℕ)
    grown = log ++ entry resp (length log) ∷ []

    trim_input :
        Holds ex log
        → trim ex.max_event_bytes
            (ex.events ++ record { seq = ex.next_seq; bytes = entry resp ex.next_seq } ∷ [])
            (ex.size + length (entry resp ex.next_seq))
            ex.min_seq
          ≡ kept ex.max_event_bytes ex.min_seq
              (drop ex.min_seq grown)
              (excess ex.max_event_bytes (drop ex.min_seq grown))
    trim_input h =
        (λ i.
          trim ex.max_event_bytes
            (h.events_lem i ++ record { seq = h.next i; bytes = entry resp (h.next i) } ∷ [])
            (h.size_lem i + length (entry resp (h.next i))) ex.min_seq)
        ∙ trim-number_next ex.max_event_bytes ex.min_seq log (entry resp (length log))
            (omega (arith, h.room))

    -- `append` keeps the end of the grown log, dropping no more than it has to.
    append-kept :
        Holds ex log
        → let k = excess ex.max_event_bytes (drop ex.min_seq grown) in
          ((append marshal resp now ex).events
            ≡ number (ex.min_seq + k) (drop k (drop ex.min_seq grown)))
          × ((append marshal resp now ex).size ≡ total_bytes (drop k (drop ex.min_seq grown)))
          × ((append marshal resp now ex).min_seq ≡ ex.min_seq + k)
    unfolding append
    append-kept h = (
      ap (λ r. r.events) (trim_input h),
      ap (λ r. r.size) (trim_input h),
      ap (λ r. r.min_seq) (trim_input h),
    )

    abbrev dropped_by : Holds ex log → ℕ
    dropped_by h = excess ex.max_event_bytes (drop ex.min_seq grown)

    dropped_by-le : (h : Holds ex log) → dropped_by h ≤ length (drop ex.min_seq grown) - 1
    dropped_by-le h = excess-le ex.max_event_bytes (drop ex.min_seq grown)

    append-next :
        length log + 1 < 2 ^ 64
        → Holds ex log
        → (append marshal resp now ex).next_seq ≡ length grown
    unfolding append
    append-next small h = omega (arith, h.next, length-grown log (entry resp (length log)))

    pub append-Holds :
        length log + 1 < 2 ^ 64 → Holds ex log → Holds (append marshal resp now ex) grown
    append-Holds small h = record {
      next = append-next small h;
      events_lem =
          (append-kept h).0
          ∙ ap (number _) (drop-drop (dropped_by h) ex.min_seq grown)
          ∙ ap (λ j. number j (drop j grown)) (sym (append-kept h).2);
      size_lem =
          (append-kept h).1
          ∙ ap total_bytes (drop-drop (dropped_by h) ex.min_seq grown)
          ∙ ap (λ j. total_bytes (drop j grown)) (sym (append-kept h).2);
      room = omega (
        arith,
        (append-kept h).2,
        dropped_by-le h,
        length-drop ex.min_seq grown,
        length-grown log (entry resp (length log)),
        h.room,
      );
    }

    -- An append to a history that is the end of its log, of fewer than 2^64 - 1 events, leaves at
    -- most `max_event_bytes` or only the new event; and each start from the old oldest event up to
    -- the new one would leave more than `max_event_bytes`, so no event is dropped without need.
    pub append_fits :
        length log + 1 < 2 ^ 64
        → Holds ex log
        → let ex' = append marshal resp now ex in
          ((ltb_ℤ ex.max_event_bytes (pos ex'.size) ≡ false) ⊎ (ex'.min_seq ≡ length log))
          × ((j : ℕ)
              → ex.min_seq ≤ j
              → j < ex'.min_seq
              → ltb_ℤ ex.max_event_bytes (pos (total_bytes (drop j grown))) ≡ true)
    append_fits small h = (fits, λ j low high. least j low (omega (arith, (append-kept h).2)))
      where
        log_long : length grown ≡ length log + 1
        log_long = length-grown log (entry resp (length log))

        fits :
            (ltb_ℤ ex.max_event_bytes (pos (append marshal resp now ex).size) ≡ false)
            ⊎ ((append marshal resp now ex).min_seq ≡ length log)
        fits = elim (excess_fits ex.max_event_bytes (drop ex.min_seq grown)) [
          | inl small ↦ inl (ap (λ s. ltb_ℤ ex.max_event_bytes (pos s)) (append-kept h).1 ∙ small)
          | inr one ↦ inr (
              omega (
                arith,
                (append-kept h).2,
                dropped_by-le h,
                one,
                length-drop ex.min_seq grown,
                length-drop (dropped_by h) (drop ex.min_seq grown),
                log_long,
                h.room,
              ))
        ]

        least :
            (j : ℕ)
            → ex.min_seq ≤ j
            → j < ex.min_seq + dropped_by h
            → ltb_ℤ ex.max_event_bytes (pos (total_bytes (drop j grown))) ≡ true
        least j low high =
            ap (λ l. ltb_ℤ ex.max_event_bytes (pos (total_bytes l)))
              (ap (λ i. drop i grown) (omega arith)
                ∙ sym (drop-drop (j - ex.min_seq) ex.min_seq grown))
            ∙ excess_least ex.max_event_bytes (drop ex.min_seq grown) (j - ex.min_seq) (omega arith)

pub new_execution-Holds : (id : String) (max : ℤ) → Holds (new_execution id max) []
unfolding new_execution number total_bytes
new_execution-Holds id max = record {
  next = refl;
  events_lem = refl;
  size_lem = refl;
  room = omega arith;
}

module _ (marshal : Response → List ℕ) where
  -- A history of appends, each with the time that it reads.
  unfoldable pub append_all : List (Response × ℕ) → Execution → Execution
  append_all [] ex = ex
  append_all ((resp, now) ∷ rest) ex = append_all rest (append marshal resp now ex)

  -- All that was ever appended, as it was sent.
  unfoldable pub extend_log : List (Response × ℕ) → List (List ℕ) → List (List ℕ)
  extend_log [] log = log
  extend_log ((resp, now) ∷ rest) log =
      extend_log rest (log ++ entry marshal resp (length log) ∷ [])

  append_all-Holds_from :
      (rest : List (Response × ℕ)) (ex : Execution) (log : List (List ℕ))
      → length log + length rest < 2 ^ 64
      → Holds ex log
      → Holds (append_all rest ex) (extend_log rest log)
  unfolding append_all extend_log
  append_all-Holds_from [] ex log small h = h
  append_all-Holds_from ((resp, now) ∷ rest) ex log small h =
      append_all-Holds_from rest (append marshal resp now ex) (grown marshal resp now ex log)
        (omega (arith, length-grown log (entry marshal resp (length log))))
        (append-Holds marshal resp now ex log (omega arith) h)

  -- After fewer than 2^64 appends to a new execution its history is the end of the log of all of
  -- them: the events from `min_seq` on, under consecutive sequence numbers, with their size counted
  -- right.
  pub append_all-Holds :
      (id : String) (max : ℤ) (rest : List (Response × ℕ))
      → length rest < 2 ^ 64
      → Holds (append_all rest (new_execution id max)) (extend_log rest [])
  append_all-Holds id max rest small =
      append_all-Holds_from rest (new_execution id max) [] (omega arith)
        (new_execution-Holds id max)
