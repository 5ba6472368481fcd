-- ===== src/Daemon/Exec.antt =====
-- internal/daemon/exec.go: `streamLines`, which sends a command's output line by line. What
-- `bufio.Reader.ReadLine` returns until its error, a chunk and whether the line goes on, is the
-- argument `reads`; `unicode/utf8` is the arguments `rune_start` and `full_rune`.
pub mod Streaming
mod Tests
use n8n_sandbox_service.Base.{
  ℕ, zero, suc, ◌-◌, ◌==◌, Bool, true, false, not, ◌||◌, List, [], ◌∷◌, ◌++◌, if◌then◌else◌, length,
  drop, ltb, leb,
}

abbrev pub newline : ℕ
newline = b'\n'

abbrev pub take : ℕ → List ℕ → List ℕ
take zero s = []
take (suc n) [] = []
take (suc n) (c ∷ s) = c ∷ take n s

abbrev pub is_empty : List ℕ → Bool
is_empty [] = true
is_empty (c ∷ s) = false

-- The byte at an index; the loop asks for indices in range only.
abbrev pub byte_at : ℕ → List ℕ → ℕ
byte_at i [] = 0
byte_at zero (c ∷ s) = c
byte_at (suc i) (c ∷ s) = byte_at i s

module _ (rune_start : ℕ → Bool) (full_rune : List ℕ → Bool) where
  -- The loop with `todo` bytes left, of which the last is at todo - 1, and `rounds` rounds left.
  unfoldable pub find_rune_start : ℕ → ℕ → List ℕ → ℕ
  find_rune_start rounds zero b = length b
  find_rune_start zero (suc i) b = length b
  find_rune_start (suc rounds) (suc i) b =
      let rest = find_rune_start rounds i b in
      if not (rune_start (byte_at i b)) then rest else if full_rune (drop i b) then length b else i

  -- `utf8.UTFMax` is 4.
  unfoldable pub incomplete_rune_start : List ℕ → ℕ
  unfolding find_rune_start
  incomplete_rune_start b = find_rune_start 4 (length b) b

  -- What is emitted, from the carried bytes and whether part of the line has been emitted.
  unfoldable pub stream_lines : List (List ℕ × Bool) → List ℕ → Bool → List (List ℕ)
  unfolding incomplete_rune_start
  stream_lines [] carry mid_line =
      if not (is_empty carry) || mid_line then (carry ++ (newline ∷ [])) ∷ [] else []
  stream_lines ((chunk, false) ∷ reads) carry mid_line =
      ((carry ++ chunk) ++ (newline ∷ [])) ∷ stream_lines reads [] false
  stream_lines ((chunk, true) ∷ reads) carry mid_line =
      let text = carry ++ chunk in
      let cut = incomplete_rune_start text in
      let rest = stream_lines reads (drop cut text) (ltb 0 cut || mid_line) in
      if ltb 0 cut then take cut text ∷ rest else rest
