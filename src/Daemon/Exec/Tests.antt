-- ===== src/Daemon/Exec/Tests.antt =====
-- Runs of internal/daemon/exec.go, and the theorems at concrete inputs.
use n8n_sandbox_service.Base.{ℕ, ◌≡◌, refl, Bool, true, false, not, ◌&&◌, List, [], ◌∷◌, ltb, leb}
use n8n_sandbox_service.Daemon.Exec.{find_rune_start, incomplete_rune_start, stream_lines}
use n8n_sandbox_service.Daemon.Exec.Streaming.{join, text_of, stream_lines-text}

-- `utf8.RuneStart`, and `utf8.FullRune` for characters of at most two bytes.
abbrev rune_start : ℕ → Bool
rune_start b = not (leb 128 b && ltb b 192)

abbrev full_rune : List ℕ → Bool
full_rune [] = false
full_rune (b ∷ []) = ltb b 128
full_rune (b ∷ (c ∷ s)) = true

-- A line in two chunks, cut inside é, and a line that does not end.
abbrev reads : List (List ℕ × Bool)
reads = (b'a' ∷ (195 ∷ []), true) ∷ ((169 ∷ []), false) ∷ ((b'z' ∷ []), true) ∷ []

abbrev split_char : List ℕ
split_char = b'a' ∷ (195 ∷ [])

stream_lines-test :
    stream_lines rune_start full_rune reads [] false
    ≡ (b'a' ∷ []) ∷ ((195 ∷ (169 ∷ (b'\n' ∷ []))) ∷ ((b'z' ∷ []) ∷ ((b'\n' ∷ []) ∷ [])))
unfolding stream_lines incomplete_rune_start find_rune_start
stream_lines-test = refl

stream_lines-text_example :
    join (stream_lines rune_start full_rune reads [] false) ≡ text_of reads false
stream_lines-text_example = stream_lines-text rune_start full_rune reads
