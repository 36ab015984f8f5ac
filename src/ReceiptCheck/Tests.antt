-- ===== src/ReceiptCheck/Tests.antt =====
-- Runs of a pool of two hashes, and of the schedule.
use kaia_load_tester.Prelude.{
  ℕ, ◌≡◌, refl, subst, inl, inr, map, true, false, some, List, [], ◌∷◌, arith,
}
use kaia_load_tester.ReceiptCheck.{add_hash, get_hash, run_receipt_check}
use kaia_load_tester.ReceiptCheck.Locking.{
  double_lock, double_unlock, Locker, In, starts, Free, Step, takes, Reach, here, next,
}
use kaia_load_tester.ReceiptCheck.Locking.Laws.{no_deadlock}
use kaia_load_tester.ReceiptCheck.Laws.{added, StandsIn, get_hash-added}

wrapped : get_hash 4 (added 2 (13 ∷ 12 ∷ 11 ∷ [])) ≡ some 13
unfolding get_hash add_hash
wrapped = refl

get_hash-added_example :
    (h : ℕ) × (get_hash 5 (added 2 (13 ∷ 12 ∷ 11 ∷ [])) ≡ some h) × StandsIn h (13 ∷ 12 ∷ 11 ∷ [])
get_hash-added_example = get_hash-added 2 5 13 (12 ∷ 11 ∷ []) (omega arith)

-- The first task sends; once the initial ones are over, one in ten does.
first_task :
    run_receipt_check (record { cnt = 0; init_flag = false })
    ≡ (true, record { cnt = 1; init_flag = false })
unfolding run_receipt_check
first_task = refl

later_task :
    run_receipt_check (record { cnt = 10_010; init_flag = true })
    ≡ (false, record { cnt = 10_011; init_flag = true })
unfolding run_receipt_check
later_task = refl

-- Two goroutines lock the accounts 1 and 2 in both roles; the first has taken one mutex.
abbrev one_taken : List Locker
one_taken =
    record { held = 2 ∷ []; wanted = 1 ∷ [] } ∷ record { held = []; wanted = 2 ∷ 1 ∷ [] } ∷ []

nobody : Free 2 (map starts ((1, 2) ∷ (2, 1) ∷ []))
unfolding double_lock
nobody l (inl e) = subst (λ (x : Locker). ¬ In 2 x.held) e λ i. i
nobody l (inr (inl e)) = subst (λ (x : Locker). ¬ In 2 x.held) e λ i. i
nobody l (inr (inr i)) = absurd i

one_taken-Reach : Reach ((1, 2) ∷ (2, 1) ∷ []) one_taken
unfolding double_lock
one_taken-Reach = next here (takes [] (starts (2, 1) ∷ []) 2 [] (1 ∷ []) nobody)

no_deadlock_example : (t : List Locker) × Step one_taken t
no_deadlock_example =
    no_deadlock ((1, 2) ∷ (2, 1) ∷ []) {s = one_taken} [] (1 ∷ []) 2 one_taken-Reach
      (inr (inl refl))

unlocks : double_unlock 1 2 ≡ 2 ∷ 1 ∷ []
unfolding double_unlock
unlocks = refl
