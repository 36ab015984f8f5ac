-- ===== src/Prelude/Count.antt =====
-- How often a number stands in a list: two lists with the same counts hold the same items.
use Prim.Native.Nat.{ℕ, ◌+◌}
use mathlib.Core.Path.{◌≡◌}
use mathlib.Core.List.{List, [], ◌∷◌, ◌++◌}
use native.Mathlib.Omega.{arith}
use kaia_load_tester.Prelude.Tests.{◌==◌, if◌then◌else◌}

abbrev pub count : ℕ → List ℕ → ℕ
count n [] = 0
count n (m ∷ rest) = (if n == m then 1 else 0) + count n rest

pub count-append :
    (n : ℕ) (front back : List ℕ) → count n (front ++ back) ≡ count n front + count n back
count-append n [] back = omega arith
count-append n (m ∷ front) back = let here = count-append n front back in omega (arith, here)
