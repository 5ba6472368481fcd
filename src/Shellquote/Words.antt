-- ===== src/Shellquote/Words.antt =====
-- The words that a POSIX shell reads from quoted text, and that quoting is read back
-- (internal/shellquote/quote.go).
use n8n_sandbox_service.Base.{
  ℕ, ◌≡◌, refl, sym, ap, ◌∙◌, inl, inr, Bool-cases, arith, ==_iff, ◌==◌, ◌||◌, false, Option, none,
  some, List, [], ◌∷◌, ◌++◌, append_assoc, append-nil, if◌then◌else◌,
}
use n8n_sandbox_service.Shellquote.{quote, replace_quotes}

pub data Kind : Type 0 where
  single double blank special other : Kind

-- The bytes that matter to the quoting; the special ones are those that "..." does not protect.
kind : ℕ → Kind
kind c =
    if c == b'\''
    then single
    else if c == b'"'
    then double
    else if c == b' '
    then blank
    else if c == b'$' || c == b'`' || c == b'\\'
    then special
    else other

-- Where a shell is in the text: between words, in a word, in '...' or in "...".
pub data Mode : Type 0 where
  between in_word in_single in_double : Mode

abbrev with_word : List ℕ → Option (List (List ℕ)) → Option (List (List ℕ))
with_word w none = none
with_word w (some ws) = some (w ∷ ws)

-- The words of a text whose unquoted bytes are blanks (POSIX Shell Command Language, 2.2). Any other
-- unquoted byte, and one that is special in double quotes, is refused, and so is an open quote.
unfoldable pub read_words : Mode → List ℕ → List ℕ → Option (List (List ℕ))
unfolding kind
read_words between word [] = some []
read_words in_word word [] = some (word ∷ [])
read_words in_single word [] = none
read_words in_double word [] = none
read_words between word (c ∷ s) = elim (kind c) [
  | single ↦ read_words in_single [] s
  | double ↦ read_words in_double [] s
  | blank ↦ read_words between [] s
  | special ↦ none
  | other ↦ none
]
read_words in_word word (c ∷ s) = elim (kind c) [
  | single ↦ read_words in_single word s
  | double ↦ read_words in_double word s
  | blank ↦ with_word word (read_words between [] s)
  | special ↦ none
  | other ↦ none
]
read_words in_single word (c ∷ s) = elim (kind c) [
  | single ↦ read_words in_word word s
  | _ ↦ read_words in_single (word ++ (c ∷ [])) s
]
read_words in_double word (c ∷ s) = elim (kind c) [
  | double ↦ read_words in_word word s
  | special ↦ none
  | _ ↦ read_words in_double (word ++ (c ∷ [])) s
]

-- A byte other than a quote stands for itself in single quotes.
kept :
    (c : ℕ) (word s : List ℕ)
    → (c == b'\'') ≡ false
    → read_words in_single word (c ∷ s) ≡ read_words in_single (word ++ (c ∷ [])) s
unfolding read_words kind
kept c word s h = ground arith

replaced :
    (word s rest : List ℕ)
    → read_words in_single word (replace_quotes s ++ (b'\'' ∷ rest))
      ≡ read_words in_word (word ++ s) rest
unfolding read_words replace_quotes kind
replaced word [] rest = ap (λ (w : List ℕ). read_words in_word w rest) (sym (append-nil word))
replaced word (c ∷ s) rest = elim (Bool-cases (c == b'\'')) [
  | inl quoted ↦ rw quoted (
      rw (replaced (word ++ (b'\'' ∷ [])) s rest) (
        ap (λ (w : List ℕ). read_words in_word w rest)
          (append_assoc word (b'\'' ∷ []) s
            ∙ ap (λ (d : ℕ). word ++ (d ∷ s)) (sym ((==_iff c b'\'').0 quoted)))))
  | inr plain ↦ rw plain (
      kept c word (replace_quotes s ++ (b'\'' ∷ rest)) plain
      ∙ (replaced (word ++ (c ∷ [])) s rest
          ∙ ap (λ (w : List ℕ). read_words in_word w rest) (append_assoc word (c ∷ []) s)))
]

quoted-read_words :
    (w rest : List ℕ) → read_words between [] (quote w ++ rest) ≡ read_words in_word w rest
unfolding read_words quote kind
quoted-read_words [] rest = refl
quoted-read_words (c ∷ s) rest =
    ap (λ (t : List ℕ). read_words in_single [] t)
      (append_assoc (replace_quotes (c ∷ s)) (b'\'' ∷ []) rest)
    ∙ replaced [] (c ∷ s) rest

-- Quoted texts with blanks between them.
unfoldable pub command_line : List (List ℕ) → List ℕ
command_line [] = []
command_line (w ∷ ws) = quote w ++ (b' ' ∷ command_line ws)

-- A shell reads quoted texts with blanks between them back as just these texts: whatever bytes
-- they have, none is split, joined or interpreted.
pub command_line-read_words :
    (ws : List (List ℕ)) → read_words between [] (command_line ws) ≡ some ws
unfolding command_line read_words kind
command_line-read_words [] = refl
command_line-read_words (w ∷ ws) =
    quoted-read_words w (b' ' ∷ command_line ws)
    ∙ ap (λ (r : Option (List (List ℕ))). with_word w r) (command_line-read_words ws)
