-- ===== src/Limits/Tests.antt =====
-- The theorems on internal/limits/limits.go at concrete inputs.
use n8n_sandbox_service.Base.{refl, pos, str_eq, if◌then◌else◌, lookup}
use n8n_sandbox_service.Limits.{KeyedLimiter, new_keyed_limiter, try_acquire}
use n8n_sandbox_service.Limits.Holders.{Reach, start, later, admitted, Counts, Reach-Counts}

abbrev one_held : KeyedLimiter
one_held = (try_acquire "a" (new_keyed_limiter (pos 1))).0

one_held-Reach : Reach (pos 1) one_held (λ j. if str_eq "a" j then 1 else 0)
unfolding try_acquire new_keyed_limiter lookup
one_held-Reach = later start (admitted "a" refl)

Reach-Counts_example : Counts (pos 1) one_held (λ j. if str_eq "a" j then 1 else 0)
Reach-Counts_example = Reach-Counts refl one_held-Reach
