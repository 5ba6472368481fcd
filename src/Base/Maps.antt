-- ===== src/Base/Maps.antt =====
-- A Go map with string keys, as an association list.
use Prim.Native.Nat.{suc, ◌≤◌}
use Prim.Native.String.{String}
use mathlib.Core.Path.{◌≡◌, refl, sym, ap, ◌∙◌, subst}
use mathlib.Core.Logic.{inl, inr}
use mathlib.Core.Bool.{Bool, true, false}
use mathlib.Core.List.{List, [], ◌∷◌}
use mathlib.Core.Option.{Option, none, some}
use native.Mathlib.Omega.{arith}
use text.Mathlib.Text.{◌==◌ as str_eq}
use text.Mathlib.TextEquality.{eq_iff}
use text.Mathlib.TextPositions.{eq_refl}
use n8n_sandbox_service.Base.Tests.{if◌then◌else◌, is_some, some_inj, Bool-cases}
use n8n_sandbox_service.Base.Lists.{length}

module _ {ℓ} {V : Type ℓ} where
  unfoldable pub lookup : String → List (String × V) → Option V
  lookup k [] = none
  lookup k ((j, v) ∷ m) = if str_eq j k then some v else lookup k m

  unfoldable pub insert : String → V → List (String × V) → List (String × V)
  insert k v [] = (k, v) ∷ []
  insert k v ((other, w) ∷ rest) =
      if str_eq other k then (k, v) ∷ rest else (other, w) ∷ insert k v rest

  unfoldable pub erase : String → List (String × V) → List (String × V)
  erase k [] = []
  erase k ((j, w) ∷ m) = if str_eq j k then erase k m else (j, w) ∷ erase k m

  pub lookup-nil : (k : String) → lookup k [] ≡ none
  unfolding lookup
  lookup-nil k = refl

  pub lookup-insert :
      (k j : String) (v : V) (m : List (String × V))
      → lookup j (insert k v m) ≡ (if str_eq k j then some v else lookup j m)
  unfolding lookup insert
  lookup-insert k j v [] = refl
  lookup-insert k j v ((first, old) ∷ others) =
      ground (lookup-insert k j v others, eq_iff first j, eq_iff first k, eq_iff k j, arith)

  pub lookup-erase :
      (k j : String) (m : List (String × V))
      → lookup j (erase k m) ≡ (if str_eq k j then none else lookup j m)
  unfolding lookup erase
  lookup-erase k j [] = ground arith
  lookup-erase k j ((first, old) ∷ others) =
      ground (lookup-erase k j others, eq_iff first j, eq_iff first k, eq_iff k j, arith)

  -- No key stands twice, as in a Go map.
  abbrev pub IsUnique : List (String × V) → Type ℓ
  IsUnique [] = Unit
  IsUnique ((k, v) ∷ m) = (lookup k m ≡ none) × IsUnique m

  pub insert-IsUnique :
      (k : String) (v : V) (m : List (String × V)) → IsUnique m → IsUnique (insert k v m)
  unfolding insert lookup
  insert-IsUnique k v [] u = (refl, tt)
  insert-IsUnique k v ((j, w) ∷ m) u =
      ground (arith, eq_iff j k, eq_iff k j, lookup-insert k j v m, insert-IsUnique k v m u.1)

  pub erase-IsUnique : (k : String) (m : List (String × V)) → IsUnique m → IsUnique (erase k m)
  unfolding erase lookup
  erase-IsUnique k [] u = tt
  erase-IsUnique k ((j, w) ∷ m) u =
      ground (arith, eq_iff j k, eq_iff k j, lookup-erase k j m, erase-IsUnique k m u.1)

  -- The entries that pass a test: `maps.DeleteFunc` with the opposite test.
  unfoldable pub keep_entries : (String → V → Bool) → List (String × V) → List (String × V)
  keep_entries p [] = []
  keep_entries p ((k, v) ∷ m) = if p k v then (k, v) ∷ keep_entries p m else keep_entries p m

  abbrev keep_value : Bool → V → Option V
  keep_value true v = some v
  keep_value false v = none

  abbrev pub kept_value : (String → V → Bool) → String → Option V → Option V
  kept_value p k none = none
  kept_value p k (some v) = keep_value (p k v) v

  pub lookup-keep_entries :
      (p : String → V → Bool) (k : String) (m : List (String × V))
      → IsUnique m
      → lookup k (keep_entries p m) ≡ kept_value p k (lookup k m)
  unfolding lookup keep_entries
  lookup-keep_entries p k [] u = refl
  lookup-keep_entries p k ((j, w) ∷ m) u = elim (Bool-cases (str_eq j k)) [
    | inl same ↦
        subst (λ i. lookup i (keep_entries p ((j, w) ∷ m)) ≡ kept_value p i (lookup i ((j, w) ∷ m)))
          ((eq_iff j k).0 same) (ground (arith, eq_refl j, u.0, lookup-keep_entries p j m u.1))
    | inr other ↦ ground (arith, lookup-keep_entries p k m u.1)
  ]

  kept_value_of :
      (p : String → V → Bool) (k : String) (o : Option V) {v : V}
      → kept_value p k o ≡ some v
      → o ≡ some v
  kept_value_of p k none h = h
  kept_value_of p k (some w) h = ground arith

  pub lookup_of-keep_entries :
      (p : String → V → Bool) (k : String) (m : List (String × V)) {v : V}
      → IsUnique m
      → lookup k (keep_entries p m) ≡ some v
      → lookup k m ≡ some v
  lookup_of-keep_entries p k m u h =
      kept_value_of p k (lookup k m) (sym (lookup-keep_entries p k m u) ∙ h)

  pub keep_entries-IsUnique :
      (p : String → V → Bool) (m : List (String × V)) → IsUnique m → IsUnique (keep_entries p m)
  unfolding keep_entries
  keep_entries-IsUnique p [] u = tt
  keep_entries-IsUnique p ((j, w) ∷ m) u =
      ground (arith, u.0, lookup-keep_entries p j m u.1, keep_entries-IsUnique p m u.1)

  pub length-keep_entries-le :
      (p : String → V → Bool) (m : List (String × V)) → length (keep_entries p m) ≤ length m
  unfolding keep_entries
  length-keep_entries-le p [] = omega arith
  length-keep_entries-le p ((j, w) ∷ m) = ground (arith, length-keep_entries-le p m)

  pub length-insert :
      (k : String) (v : V) (m : List (String × V))
      → length (insert k v m) ≡ (if is_some (lookup k m) then length m else suc (length m))
  unfolding lookup insert
  length-insert k v [] = refl
  length-insert k v ((i, w) ∷ m) = ground (arith, length-insert k v m)

  pub length-erase-le : (k : String) (m : List (String × V)) → length (erase k m) ≤ length m
  unfolding erase
  length-erase-le k [] = omega arith
  length-erase-le k ((i, w) ∷ m) = ground (arith, length-erase-le k m)

  kept_of : (b : Bool) (w : V) {v : V} → keep_value b w ≡ some v → (b ≡ true) × (w ≡ v)
  kept_of true w h = (refl, some_inj h)
  kept_of false w h = absurd (cc)

  kept_before :
      (p : V → Bool) (id : String) (o : Option V) {v : V}
      → kept_value (λ j w. p w) id o ≡ some v
      → (p v ≡ true) × (o ≡ some v)
  kept_before p id none h = absurd (cc)
  kept_before p id (some w) h =
      let (passes, same) = kept_of (p w) w h in (subst (λ x. p x ≡ true) same passes, ap some same)

  -- A row that a DELETE left.
  pub kept_row :
      (p : V → Bool) (id : String) (table : List (String × V)) {v : V}
      → IsUnique table
      → lookup id (keep_entries (λ j w. p w) table) ≡ some v
      → (p v ≡ true) × (lookup id table ≡ some v)
  kept_row p id table u h =
      kept_before p id (lookup id table) (sym (lookup-keep_entries (λ j w. p w) id table u) ∙ h)
