-- ===== src/Limits.antt =====
-- internal/limits/limits.go: how many holders each key has right now, at most `max`.
pub mod Holders
mod Tests
use n8n_sandbox_service.Base.{
  ℕ, ◌+◌, ◌-◌, String, Bool, true, false, Option, none, some, List, [], leb, ltb, if◌then◌else◌,
  lookup, insert, erase, ℤ, pos, leb_ℤ,
}

pub record KeyedLimiter : Type 0 where
  pub max : ℤ
  pub counts : List (String × ℕ)

unfoldable pub new_keyed_limiter : ℤ → KeyedLimiter
new_keyed_limiter max = record { max = max; counts = [] }

-- A missing key reads as 0.
abbrev count_or_zero : Option ℕ → ℕ
count_or_zero none = 0
count_or_zero (some n) = n

abbrev pub count : KeyedLimiter → String → ℕ
count k key = count_or_zero (lookup key k.counts)

unfoldable pub try_acquire : String → KeyedLimiter → KeyedLimiter × Bool
try_acquire key k =
    if leb_ℤ k.max (pos 0)
    then (k, true)
    else if leb_ℤ k.max (pos (count k key))
    then (k, false)
    else (record k { counts = insert key (count k key + 1) k.counts }, true)

unfoldable pub release : String → KeyedLimiter → KeyedLimiter
release key k =
    if leb_ℤ k.max (pos 0)
    then k
    else if ltb 1 (count k key)
    then record k { counts = insert key (count k key - 1) k.counts }
    else record k { counts = erase key k.counts }
