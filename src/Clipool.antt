-- ===== src/Clipool.antt =====
-- klayslave/clipool/clipool.go: the pool of node clients that the test cases share.
-- Each method runs under the pool's mutex, so it is one step. `alloc_func k` is the client that the
-- callback returns at its k-th call; `cnt` counts those calls.
pub mod Sessions
pub mod Returned
mod Tests
use kaia_load_tester.Prelude.{ℕ, zero, suc, List, [], ◌∷◌, ◌++◌}

pub record ClientPool {ℓ} (A : Type ℓ) : Type ℓ where
  pub max : ℕ
  pub init : ℕ
  pub cnt : ℕ
  pub free_list : List A
  pub alloc_func : ℕ → A

module _ {ℓ} {A : Type ℓ} where
  -- One call of the callback, and the count of it.
  abbrev called : ClientPool A → ClientPool A
  called p = record p { cnt = suc p.cnt }

  fill : ℕ → ClientPool A → ClientPool A
  fill zero p = p
  fill (suc i) p =
      fill i (record p { free_list = p.free_list ++ p.alloc_func p.cnt ∷ []; cnt = suc p.cnt })

  -- `Init` on the pool that a zero `ClientPool` is.
  pub init_pool : ℕ → ℕ → (ℕ → A) → ClientPool A
  unfolding fill
  init_pool init max alloc_func =
      fill init
        (record { max = max; init = init; cnt = 0; free_list = []; alloc_func = alloc_func })

  alloc_from : List A → ClientPool A → A × ClientPool A
  alloc_from [] p = (p.alloc_func p.cnt, called p)
  alloc_from (v ∷ rest) p = (v, record p { free_list = rest })

  pub alloc : ClientPool A → A × ClientPool A
  unfolding alloc_from
  alloc p = alloc_from p.free_list p

  pub free : A → ClientPool A → ClientPool A
  free v p = record p { free_list = p.free_list ++ v ∷ [] }
