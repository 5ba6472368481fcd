-- ===== src/Shellquote.antt =====
-- internal/shellquote/quote.go: POSIX single-quoting. A Go string is the list of its bytes.
pub mod Words
mod Tests
use n8n_sandbox_service.Base.{ℕ, ◌==◌, List, [], ◌∷◌, ◌++◌, if◌then◌else◌}

abbrev pub single_quote : ℕ
single_quote = b'\''

-- `strings.ReplaceAll(s, "'", ...)`: a quote becomes the five bytes '"'"'.
unfoldable pub replace_quotes : List ℕ → List ℕ
replace_quotes [] = []
replace_quotes (c ∷ s) =
    let rest = replace_quotes s in
    if c == b'\'' then b'\'' ∷ (b'"' ∷ (b'\'' ∷ (b'"' ∷ (b'\'' ∷ rest)))) else c ∷ rest

unfoldable pub quote : List ℕ → List ℕ
quote [] = b'\'' ∷ (b'\'' ∷ [])
quote (c ∷ s) = b'\'' ∷ (replace_quotes (c ∷ s) ++ (b'\'' ∷ []))
