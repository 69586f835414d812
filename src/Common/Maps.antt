-- ===== src/Common/Maps.antt =====
-- Go maps from strings, as association lists with one pair for each key.
use Prim.Native.String.{String}
use text.Mathlib.Text.{◌==◌ as str_eq}
use text.Mathlib.TextEquality.{eq_iff}
use text.Mathlib.TextPositions.{eq_refl}
use mathlib.Core.Path.{◌≡◌, refl}
use mathlib.Core.Option.{Option, none, some}
use mathlib.Core.List.{List, [], ◌∷◌}
use native.Mathlib.Omega.{arith}
use aegis_log.Common.Tests.{if◌then◌else◌, Bool-cases}
use mathlib.Core.Bool.{false}
use mathlib.Core.Logic.{inl, inr}
use mathlib.Core.Path.{subst}

abbrev pub Map {ℓ} : Type ℓ → Type ℓ
Map V = List (String × V)

module _ {ℓ} {V : Type ℓ} where
  unfoldable pub find : String → Map V → Option V
  find k [] = none
  find k ((j, v) ∷ m) = if str_eq j k then some v else find k m

  unfoldable pub put : String → V → Map V → Map V
  put k v [] = (k, v) ∷ []
  put k v ((j, w) ∷ m) = if str_eq j k then (k, v) ∷ m else (j, w) ∷ put k v m

  unfoldable pub remove : String → Map V → Map V
  remove k [] = []
  remove k ((j, w) ∷ m) = if str_eq j k then remove k m else (j, w) ∷ remove k m

  abbrev pub keys : Map V → List String
  keys [] = []
  keys ((j, v) ∷ m) = j ∷ keys m

  pub find-put :
      (k j : String) (v : V) (m : Map V)
      → find j (put k v m) ≡ (if str_eq k j then some v else find j m)
  unfolding find put
  find-put k j v [] = refl
  find-put k j v ((i, w) ∷ m) = ground (arith, eq_iff k j, eq_iff i k, eq_iff i j, find-put k j v m)

  pub find-put_self : (k : String) (v : V) (m : Map V) → find k (put k v m) ≡ some v
  find-put_self k v m = simp (find-put, eq_refl)

-- A write to a Go map with a value for every key.
module _ {ℓ} {A : Type ℓ} where
  unfoldable pub set : (String → A) → String → A → String → A
  set f k x j = if str_eq k j then x else f j

  -- What holds of the new value and of the old ones at the other keys holds of all.
  pub set-each {κ} :
      (P : String → A → Type κ) (f : String → A) (k : String) (x : A)
      → P k x
      → ((j : String) → str_eq k j ≡ false → P j (f j))
      → (j : String) → P j (set f k x j)
  unfolding set
  set-each P f k x new old j = elim (Bool-cases (str_eq k j)) [
    | inl same ↦ rw (same) (subst (λ i. P i x) ((eq_iff k j).0 same) new)
    | inr other ↦ rw (other) (old j other)
  ]
