-- ===== src/Base/Families.antt =====
-- Processes as a family indexed by number: an update at one index, and weighted sums over the first
-- `n` of them.
use n8n_sandbox_service.Base.Tests.{◌==◌, if◌then◌else◌}
use native.Mathlib.Omega.{arith}
use native.Mathlib.Decide.{dec_lt}
use mathlib.Core.Path.{◌≡◌, refl}
use Prim.Native.Nat.{ℕ, zero, suc, ◌+◌, ◌≤◌, ◌<◌}

abbrev pub replace {ℓ} : {A : Type ℓ} → (ℕ → A) → ℕ → A → ℕ → A
replace f i a j = if i == j then a else f j

module _ {ℓ} {A : Type ℓ} (weight : A → ℕ) where
  pub sum_over : ℕ → (ℕ → A) → ℕ
  sum_over zero f = 0
  sum_over (suc n) f = sum_over n f + weight (f n)

  sum_over-replace_above :
      (n : ℕ) (f : ℕ → A) (i : ℕ) (a : A) → n ≤ i → sum_over n (replace f i a) ≡ sum_over n f
  unfolding sum_over
  sum_over-replace_above zero f i a h = refl
  sum_over-replace_above (suc n) f i a h = ground (arith, sum_over-replace_above n f i a)

  pub sum_over-replace :
      (n : ℕ) (f : ℕ → A) (i : ℕ) (a : A)
      → i < n
      → sum_over n (replace f i a) + weight (f i) ≡ sum_over n f + weight a
  unfolding sum_over
  sum_over-replace zero f i a h = absurd (omega arith)
  sum_over-replace (suc n) f i a h = elim (dec_lt i n) [
    | yes below ↦ ground (arith, sum_over-replace n f i a below)
    | no last ↦ ground (arith, sum_over-replace_above n f i a)
  ]

  pub sum_over-ge : (n : ℕ) (f : ℕ → A) (i : ℕ) → i < n → weight (f i) ≤ sum_over n f
  unfolding sum_over
  sum_over-ge zero f i h = absurd (omega arith)
  sum_over-ge (suc n) f i h = elim (dec_lt i n) [
    | yes below ↦ omega (arith, sum_over-ge n f i below)
    | no last ↦ let e : i ≡ n = omega arith in rw e (omega arith)
  ]

  pub sum_over-zero : (n : ℕ) (a : A) → weight a ≡ 0 → sum_over n (λ _. a) ≡ 0
  unfolding sum_over
  sum_over-zero zero a h = refl
  sum_over-zero (suc n) a h = omega (arith, sum_over-zero n a h)
