-- ===== src/Prelude/Dict.antt =====
-- A Go map (or sync.Map) with numbers for keys, as an association list.
use Prim.Native.Nat.{ℕ}
use mathlib.Core.Path.{◌≡◌, refl}
use mathlib.Core.List.{List, [], ◌∷◌}
use mathlib.Core.Option.{Option, none, some}
use native.Mathlib.Omega.{arith}
use kaia_load_tester.Prelude.Tests.{◌==◌, if◌then◌else◌}

abbrev pub Dict {ℓ} : Type ℓ → Type ℓ
Dict X = List (ℕ × X)

module _ {ℓ} {X : Type ℓ} where
  abbrev pub lookup : ℕ → Dict X → Option X
  lookup key [] = none
  lookup key ((other, x) ∷ rest) = if key == other then some x else lookup key rest

  abbrev pub insert : ℕ → X → Dict X → Dict X
  insert key x [] = (key, x) ∷ []
  insert key x ((other, y) ∷ rest) =
      if key == other then (key, x) ∷ rest else (other, y) ∷ insert key x rest

  pub lookup-insert :
      (asked key : ℕ) (x : X) (m : Dict X)
      → lookup asked (insert key x m) ≡ (if asked == key then some x else lookup asked m)
  lookup-insert asked key x [] = refl
  lookup-insert asked key x ((other, y) ∷ rest) = ground (arith, lookup-insert asked key x rest)

-- A map whose keys are told apart by a code.
module _ {ℓ κ} {K : Type ℓ} {X : Type κ} (code : K → ℕ) where
  abbrev pub lookup_by : K → List (K × X) → Option X
  lookup_by key [] = none
  lookup_by key ((other, x) ∷ rest) = if code key == code other then some x else lookup_by key rest

  abbrev pub insert_by : K → X → List (K × X) → List (K × X)
  insert_by key x [] = (key, x) ∷ []
  insert_by key x ((other, y) ∷ rest) =
      if code key == code other then (key, x) ∷ rest else (other, y) ∷ insert_by key x rest

  pub lookup_by-insert_by :
      (asked key : K) (x : X) (m : List (K × X))
      → lookup_by asked (insert_by key x m)
        ≡ (if code asked == code key then some x else lookup_by asked m)
  lookup_by-insert_by asked key x [] = refl
  lookup_by-insert_by asked key x ((other, y) ∷ rest) =
      ground (arith, lookup_by-insert_by asked key x rest)
