-- ===== src/Daemon/Execution/Log.antt =====
-- Numbered events and their bytes, and what the trimming loop keeps of them.
use n8n_sandbox_service.Base.{
  ℕ, zero, suc, ◌+◌, ◌-◌, ◌≤◌, ◌<◌, ◌≡◌, refl, ap, ◌∙◌, true, false, Option, some, List, map, [],
  ◌∷◌, ◌⊎◌, inl, inr, arith, if◌then◌else◌, length, drop, Bool-cases, ℤ, pos, ltb_ℤ,
}
use n8n_sandbox_service.Daemon.Execution.{StoredEvent, Retained, last_seq, trim}

-- Consecutive events from a sequence number on.
unfoldable pub number : ℕ → List (List ℕ) → List StoredEvent
number n [] = []
number n (b ∷ bs) = record { seq = n; bytes = b } ∷ number (n + 1) bs

pub length-number : (n : ℕ) (bs : List (List ℕ)) → length (number n bs) ≡ length bs
unfolding number
length-number n [] = refl
length-number n (b ∷ bs) = ap suc (length-number (n + 1) bs)

pub bytes-number :
    (n : ℕ) (bs : List (List ℕ)) → map (λ (e : StoredEvent). e.bytes) (number n bs) ≡ bs
unfolding number
bytes-number n [] = refl
bytes-number n (b ∷ bs) = ap (◌∷◌ b) (bytes-number (n + 1) bs)

pub last_seq-number :
    (n : ℕ) (bs : List (List ℕ)) (after : Option ℕ)
    → 0 < length bs
    → last_seq (number n bs) after ≡ some (n + length bs - 1)
unfolding number
last_seq-number n [] after h = absurd (omega arith)
last_seq-number n (b ∷ []) after h = ap some (omega arith)
last_seq-number n (b ∷ c ∷ bs) after h =
    last_seq-number (n + 1) (c ∷ bs) after (omega arith) ∙ ap some (omega arith)

unfoldable pub total_bytes : List (List ℕ) → ℕ
total_bytes [] = 0
total_bytes (b ∷ bs) = length b + total_bytes bs

-- How many of the oldest entries have to go: as few as make the rest fit, and never the last one.
pub excess : ℤ → List (List ℕ) → ℕ
unfolding total_bytes
excess max [] = 0
excess max (b ∷ []) = 0
excess max (b ∷ c ∷ bs) =
    let more = suc (excess max (c ∷ bs)) in
    if ltb_ℤ max (pos (total_bytes (b ∷ c ∷ bs))) then more else 0

pub excess-le : (max : ℤ) (bs : List (List ℕ)) → excess max bs ≤ length bs - 1
unfolding excess
excess-le max [] = omega arith
excess-le max (b ∷ []) = omega arith
excess-le max (b ∷ c ∷ bs) = ground (arith, excess-le max (c ∷ bs))

-- What is kept fits, or is a single entry.
pub excess_fits :
    (max : ℤ) (bs : List (List ℕ))
    → (ltb_ℤ max (pos (total_bytes (drop (excess max bs) bs))) ≡ false)
      ⊎ (length (drop (excess max bs) bs) ≤ 1)
unfolding excess
excess_fits max [] = inr (omega arith)
excess_fits max (b ∷ []) = inr (omega arith)
excess_fits max (b ∷ c ∷ bs) = elim (Bool-cases (ltb_ℤ max (pos (total_bytes (b ∷ c ∷ bs))))) [
  | inl over ↦ rw (over, excess) (excess_fits max (c ∷ bs))
  | inr fits ↦ rw (fits, excess) (inl fits)
]

pub add_sub_cancel : (a b : ℕ) → a + b - a ≡ b
add_sub_cancel a b = omega arith

-- With one entry less gone, the rest does not fit.
pub excess_least :
    (max : ℤ) (bs : List (List ℕ)) (j : ℕ)
    → j < excess max bs
    → ltb_ℤ max (pos (total_bytes (drop j bs))) ≡ true
unfolding excess
excess_least max [] j h = absurd (omega arith)
excess_least max (b ∷ []) j h = absurd (omega arith)
excess_least max (b ∷ c ∷ bs) zero h = ground arith
excess_least max (b ∷ c ∷ bs) (suc j) h = ground (arith, excess_least max (c ∷ bs) j)

module _ (max : ℤ) where
  abbrev pub kept : ℕ → List (List ℕ) → ℕ → Retained
  kept n bs k = record {
    events = number (n + k) (drop k bs);
    size = total_bytes (drop k bs);
    min_seq = n + k;
  }

  pub kept_none :
      (n : ℕ) (bs : List (List ℕ))
      → record { events = number n bs; size = total_bytes bs; min_seq = n } ≡ kept n bs 0
  kept_none n bs =
      let e : n ≡ n + 0 = omega arith in
      ap (λ m. record { events = number m bs; size = total_bytes bs; min_seq = m }) e

  pub kept_more :
      (n : ℕ) (b : List ℕ) (bs : List (List ℕ)) (k : ℕ)
      → kept (n + 1) bs k ≡ kept n (b ∷ bs) (suc k)
  kept_more n b bs k =
      let e : n + 1 + k ≡ n + suc k = omega arith in
      ap
        (λ m. record { events = number m (drop k bs); size = total_bytes (drop k bs); min_seq = m })
        e

  pub trim-number :
      (n : ℕ) (bs : List (List ℕ))
      → trim max (number n bs) (total_bytes bs) n ≡ kept n bs (excess max bs)
  unfolding trim number excess
  trim-number n [] = kept_none n []
  trim-number n (b ∷ []) = kept_none n (b ∷ [])
  trim-number n (b ∷ c ∷ bs) = elim (Bool-cases (ltb_ℤ max (pos (total_bytes (b ∷ c ∷ bs))))) [
    | inl over ↦
        rw (over, trim, excess)
          (ap (λ s. trim max (number (n + 1) (c ∷ bs)) s (n + 1)) (add_sub_cancel (length b) _)
            ∙ trim-number (n + 1) (c ∷ bs)
            ∙ kept_more n b (c ∷ bs) (excess max (c ∷ bs)))
    | inr fits ↦ rw (fits, trim, excess) (kept_none n (b ∷ c ∷ bs))
  ]
