-- ===== src/Base/Slices.antt =====
-- The parts of a text, whose bytes are its characters.
use Prim.Native.Char.{Char}
use Prim.Native.String.{String, [], ◌∷◌}
use Prim.Native.Nat.{ℕ, zero, suc, ◌+◌}
use mathlib.Core.Bool.{Bool}
use text.Mathlib.Text.{◌==◌ as str_eq}
use n8n_sandbox_service.Base.Tests.{if◌then◌else◌}

unfoldable pub text_length : String → ℕ
text_length [] = 0
text_length (c ∷ s) = text_length s + 1

unfoldable pub take_text : ℕ → String → String
take_text zero s = ""
take_text (suc n) [] = ""
take_text (suc n) (c ∷ s) = c ∷ take_text n s

unfoldable pub drop_text : ℕ → String → String
drop_text zero s = s
drop_text (suc n) [] = ""
drop_text (suc n) (c ∷ s) = drop_text n s

-- `strings.HasPrefix`.
unfoldable pub has_prefix : String → String → Bool
unfolding take_text text_length
has_prefix s prefix = str_eq (take_text (text_length prefix) s) prefix

-- The text from the first character on that passes the test.
unfoldable pub drop_until : (Char → Bool) → String → String
drop_until p [] = ""
drop_until p (c ∷ s) = if p c then c ∷ s else drop_until p s
