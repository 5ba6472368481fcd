-- ===== src/Shellquote/Tests.antt =====
-- Runs of internal/shellquote/quote.go, and the theorem at a concrete input.
use n8n_sandbox_service.Base.{ℕ, ◌≡◌, refl, List, [], ◌∷◌, some}
use n8n_sandbox_service.Shellquote.{quote, replace_quotes}
use n8n_sandbox_service.Shellquote.Words.{
  between, read_words, command_line, command_line-read_words,
}

abbrev its : List ℕ
its = b'i' ∷ (b't' ∷ (b'\'' ∷ (b's' ∷ [])))

-- 'it'"'"'s'
quote-test :
    quote its
    ≡ b'\''
      ∷ (b'i' ∷ (b't' ∷ (b'\'' ∷ (b'"' ∷ (b'\'' ∷ (b'"' ∷ (b'\'' ∷ (b's' ∷ (b'\'' ∷ [])))))))))
unfolding quote replace_quotes
quote-test = refl

command_line-read_words_example :
    read_words between [] (command_line (its ∷ ([] ∷ ((b' ' ∷ (b';' ∷ [])) ∷ []))))
    ≡ some (its ∷ ([] ∷ ((b' ' ∷ (b';' ∷ [])) ∷ [])))
command_line-read_words_example = command_line-read_words (its ∷ ([] ∷ ((b' ' ∷ (b';' ∷ [])) ∷ [])))
