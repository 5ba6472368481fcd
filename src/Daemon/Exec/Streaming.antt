-- ===== src/Daemon/Exec/Streaming.antt =====
-- internal/daemon/exec.go: what `streamLines` emits, put together, is what was read.
use n8n_sandbox_service.Base.{
  ℕ, zero, suc, ◌≡◌, refl, sym, ap, subst, ◌∙◌, ◌≤◌, ◌<◌, inl, inr, Bool-cases, arith, Bool, true,
  false, not, ◌||◌, List, [], ◌∷◌, ◌++◌, append_assoc, append-nil, if◌then◌else◌, length, drop, ltb,
  length-drop, ◌-◌,
}
use n8n_sandbox_service.Daemon.Exec.{
  newline, take, is_empty, byte_at, find_rune_start, incomplete_rune_start, stream_lines,
}

-- The emitted texts one after the other.
abbrev pub join : List (List ℕ) → List ℕ
join [] = []
join (t ∷ l) = t ++ join l

-- What the reads say: the chunks in order, a newline where a line ends, and one more where the
-- output ends inside a line; `started` tells that the line has text already.
abbrev pub text_of : List (List ℕ × Bool) → Bool → List ℕ
text_of [] started = if started then newline ∷ [] else []
text_of ((chunk, false) ∷ reads) started = chunk ++ (newline ∷ text_of reads false)
text_of ((chunk, true) ∷ reads) started = chunk ++ text_of reads (started || not (is_empty chunk))

take-append-drop : (n : ℕ) (s : List ℕ) → take n s ++ drop n s ≡ s
take-append-drop zero s = refl
take-append-drop (suc n) [] = refl
take-append-drop (suc n) (c ∷ s) = ap (λ (t : List ℕ). c ∷ t) (take-append-drop n s)

is_empty-append : (s t : List ℕ) → not (is_empty (s ++ t)) ≡ (not (is_empty s) || not (is_empty t))
is_empty-append [] t = refl
is_empty-append (c ∷ s) t = refl

module _ (rune_start : ℕ → Bool) (full_rune : List ℕ → Bool) where
  cut_zero :
      (text : List ℕ) → is_empty text ≡ true → incomplete_rune_start rune_start full_rune text ≡ 0
  unfolding incomplete_rune_start find_rune_start
  cut_zero [] e = refl
  cut_zero (c ∷ s) e = absurd (cc)

  module _ (carry chunk : List ℕ) (mid_line : Bool) where
    abbrev cut : ℕ
    cut = incomplete_rune_start rune_start full_rune (carry ++ chunk)

    -- The line has text after a read, whichever way.
    started_then :
        ltb 0 cut ≡ true
        → (not (is_empty (drop cut (carry ++ chunk))) || true)
          ≡ ((not (is_empty carry) || mid_line) || not (is_empty chunk))
    started_then some_cut = elim (Bool-cases (is_empty (carry ++ chunk))) [
      | inl nothing ↦ absurd (ground (arith, cut_zero (carry ++ chunk) nothing))
      | inr text ↦ ground (arith, is_empty-append carry chunk)
    ]

    started_else :
        (not (is_empty (carry ++ chunk)) || mid_line)
        ≡ ((not (is_empty carry) || mid_line) || not (is_empty chunk))
    started_else = ground (arith, is_empty-append carry chunk)

    cut_none : ltb 0 cut ≡ false → cut ≡ 0
    cut_none e = ground arith

  emitted :
      (reads : List (List ℕ × Bool)) (carry : List ℕ) (mid_line : Bool)
      → join (stream_lines rune_start full_rune reads carry mid_line)
        ≡ carry ++ text_of reads (not (is_empty carry) || mid_line)
  unfolding stream_lines
  emitted [] [] true = refl
  emitted [] [] false = refl
  emitted [] (c ∷ s) mid_line = append-nil ((c ∷ s) ++ (newline ∷ []))
  emitted ((chunk, false) ∷ reads) carry mid_line =
      ap (λ (t : List ℕ). ((carry ++ chunk) ++ (newline ∷ [])) ++ t) (emitted reads [] false)
      ∙ (append_assoc (carry ++ chunk) (newline ∷ []) (text_of reads false)
          ∙ append_assoc carry chunk (newline ∷ text_of reads false))
  emitted ((chunk, true) ∷ reads) carry mid_line =
      elim (Bool-cases (ltb 0 (cut carry chunk mid_line))) [
        | inl some_cut ↦
            let text = carry ++ chunk in
            let left = drop (cut carry chunk mid_line) text in
            let after = text_of reads (not (is_empty left) || true) in
            rw some_cut (
              ap (λ (t : List ℕ). take (cut carry chunk mid_line) text ++ t)
                (emitted reads left true)
              ∙ (sym (append_assoc (take (cut carry chunk mid_line) text) left after)
                  ∙ (ap (λ (t : List ℕ). t ++ after)
                        (take-append-drop (cut carry chunk mid_line) text)
                      ∙ (append_assoc carry chunk after
                          ∙ ap (λ (b : Bool). carry ++ (chunk ++ text_of reads b))
                              (started_then carry chunk mid_line some_cut)))))
        | inr no_cut ↦
            let text = carry ++ chunk in
            rw (no_cut, cut_none carry chunk mid_line no_cut)
              (emitted reads text mid_line
                ∙ (append_assoc carry chunk (text_of reads (not (is_empty text) || mid_line))
                    ∙ ap (λ (b : Bool). carry ++ (chunk ++ text_of reads b))
                        (started_else carry chunk mid_line)))
      ]

  -- What is emitted, put together, is the chunks that were read, in order, with a newline where a
  -- line ends and where the output ends inside a line: no byte is lost, added or moved.
  pub stream_lines-text :
      (reads : List (List ℕ × Bool))
      → join (stream_lines rune_start full_rune reads [] false) ≡ text_of reads false
  stream_lines-text reads = emitted reads [] false

  abbrev Held : List ℕ → ℕ → ℕ → Type 0
  Held b i r = (rune_start (byte_at r b) ≡ true) × (full_rune (drop r b) ≡ false) × (i ≤ r)

  found :
      (rounds i : ℕ) (b : List ℕ)
      → find_rune_start rune_start full_rune rounds i b < length b
      → Held b (i - rounds) (find_rune_start rune_start full_rune rounds i b)
  unfolding find_rune_start
  found zero zero b h = absurd (omega arith)
  found (suc rounds) zero b h = absurd (omega arith)
  found zero (suc i) b h = absurd (omega arith)
  found (suc rounds) (suc i) b h = elim (Bool-cases (rune_start (byte_at i b))) [
    | inr inside ↦
        let e : find_rune_start rune_start full_rune (suc rounds) (suc i) b
            ≡ find_rune_start rune_start full_rune rounds i b =
          rw (find_rune_start, inside) in
        let (starts, part, near) = found rounds i b (subst (λ (r : ℕ). r < length b) e h) in
        subst (Held b (suc i - suc rounds)) (sym e) (starts, part, omega (arith))
    | inl starts ↦ elim (Bool-cases (full_rune (drop i b))) [
      | inl whole ↦
          let e : find_rune_start rune_start full_rune (suc rounds) (suc i) b ≡ length b =
            rw (find_rune_start, starts, whole) in
          absurd (omega (arith, e))
      | inr part ↦
          let e : find_rune_start rune_start full_rune (suc rounds) (suc i) b ≡ i =
            rw (find_rune_start, starts, part) in
          subst (Held b (suc i - suc rounds)) (sym e) (starts, part, omega (arith))
    ]
  ]

  -- Where part of a chunk is held back, it starts like a character, is no full character, and has at
  -- most four bytes.
  incomplete_rune_start-held :
      (b : List ℕ)
      → incomplete_rune_start rune_start full_rune b < length b
      → (rune_start (byte_at (incomplete_rune_start rune_start full_rune b) b) ≡ true)
        × (full_rune (drop (incomplete_rune_start rune_start full_rune b) b) ≡ false)
        × (length (drop (incomplete_rune_start rune_start full_rune b) b) ≤ 4)
  unfolding incomplete_rune_start
  incomplete_rune_start-held b h =
      let (starts, part, near) = found 4 (length b) b h in
      (
        starts,
        part,
        omega (arith, length-drop (find_rune_start rune_start full_rune 4 (length b) b) b),
      )
