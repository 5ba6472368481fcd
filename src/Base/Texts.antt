-- ===== src/Base/Texts.antt =====
-- Lists of texts, used as sets (`slices.Contains`).
use Prim.Native.String.{String}
use mathlib.Core.Path.{◌≡◌, refl}
use mathlib.Core.Bool.{Bool, true, false, ◌||◌}
use mathlib.Core.List.{List, [], ◌∷◌, ◌++◌}
use native.Mathlib.Omega.{arith}
use text.Mathlib.Text.{◌==◌ as str_eq}
use text.Mathlib.TextEquality.{eq_iff}
use n8n_sandbox_service.Base.Tests.{if◌then◌else◌}

unfoldable pub contains : String → List String → Bool
contains x [] = false
contains x (y ∷ l) = if str_eq y x then true else contains x l

unfoldable pub remove : String → List String → List String
remove x [] = []
remove x (y ∷ l) = if str_eq y x then remove x l else y ∷ remove x l

-- No text stands twice.
abbrev pub IsDistinct : List String → Type 0
IsDistinct [] = Unit
IsDistinct (x ∷ l) = (contains x l ≡ false) × IsDistinct l

pub contains-append :
    (x : String) (l m : List String) → contains x (l ++ m) ≡ (contains x l || contains x m)
unfolding contains
contains-append x [] m = refl
contains-append x (y ∷ l) m = ground (arith, contains-append x l m)

pub contains-one : (x y : String) → contains x (y ∷ []) ≡ str_eq y x
unfolding contains
contains-one x y = ground arith

pub contains-remove :
    (x y : String) (l : List String)
    → contains y (remove x l) ≡ (if str_eq x y then false else contains y l)
unfolding contains remove
contains-remove x y [] = ground arith
contains-remove x y (z ∷ l) =
    ground (arith, eq_iff x y, eq_iff z x, eq_iff z y, contains-remove x y l)

pub append-IsDistinct :
    (l : List String) (x : String)
    → IsDistinct l
    → contains x l ≡ false
    → IsDistinct (l ++ (x ∷ []))
unfolding contains
append-IsDistinct [] x d h = (refl, tt)
append-IsDistinct (y ∷ l) x d h = ground (
  arith,
  eq_iff x y,
  eq_iff y x,
  contains-append y l (x ∷ []),
  contains-one y x,
  append-IsDistinct l x d.1,
)

pub remove-IsDistinct : (x : String) (l : List String) → IsDistinct l → IsDistinct (remove x l)
unfolding contains remove
remove-IsDistinct x [] d = tt
remove-IsDistinct x (y ∷ l) d = ground (arith, contains-remove x y l, remove-IsDistinct x l d.1)
