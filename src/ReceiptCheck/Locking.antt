-- ===== src/ReceiptCheck/Locking.antt =====
-- `doubleLock` and `doubleUnlock` of testcase/run_receipt_check.go, for several goroutines at once.
-- The addresses' texts are only compared, so they are numbers.
pub mod Laws
use kaia_load_tester.Prelude.{ℕ, ◌≡◌, ◌⊎◌, List, [], ◌∷◌, ◌++◌, map, if◌then◌else◌, ◌==◌, ltb}

-- The mutexes that `doubleLock` takes, in its order.
unfoldable pub double_lock : ℕ → ℕ → List ℕ
double_lock to from =
    if from == to then from ∷ [] else (if ltb to from then from ∷ to ∷ [] else to ∷ from ∷ [])

-- The mutexes that `doubleUnlock` gives back, in its order.
unfoldable pub double_unlock : ℕ → ℕ → List ℕ
double_unlock to from =
    if from == to then from ∷ [] else (if ltb to from then from ∷ to ∷ [] else to ∷ from ∷ [])

-- A goroutine: the mutexes that it holds, and those that it has yet to take.
pub record Locker : Type 0 where
  pub held : List ℕ
  pub wanted : List ℕ

abbrev pub In : {A : Type 0} → A → List A → Type 0
In a [] = ⊥
In a (x ∷ xs) = (x ≡ a) ⊎ In a xs

abbrev pub starts : ℕ × ℕ → Locker
starts (to, from) = record { held = []; wanted = double_lock to from }

-- No goroutine holds the mutex.
abbrev pub Free : ℕ → List Locker → Type 0
Free m s = (l : Locker) → In l s → ¬ In m l.held

-- A goroutine takes the next mutex that it wants if nobody holds it, and, once it wants no more,
-- gives back what it holds, in any order.
pub data Step : List Locker → List Locker → Type 0 where
  takes :
      (before after : List Locker) (m : ℕ) (held rest : List ℕ)
      → Free m (before ++ record { held = held; wanted = m ∷ rest } ∷ after)
      → Step
          (before ++ record { held = held; wanted = m ∷ rest } ∷ after)
          (before ++ record { held = m ∷ held; wanted = rest } ∷ after)
  gives_back :
      (before after : List Locker) (front back : List ℕ) (m : ℕ)
      → Step
          (before ++ record { held = front ++ m ∷ back; wanted = [] } ∷ after)
          (before ++ record { held = front ++ back; wanted = [] } ∷ after)

pub data Reach (pairs : List (ℕ × ℕ)) : List Locker → Type 0 where
  here : Reach pairs (map starts pairs)
  next : {s t : List Locker} → Reach pairs s → Step s t → Reach pairs t
