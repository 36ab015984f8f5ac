-- ===== src/Concurrent/Tests.antt =====
-- Three accounts with room for two at once.
use mathlib.Core.List.{Perm}
use kaia_load_tester.Prelude.{ℕ, ◌+◌, ◌≡◌, ◌⊎◌, refl, List, [], ◌∷◌, arith}
use kaia_load_tester.Concurrent.{
  Sending, Step, launches, returns, releases, ends, Reach, here, next, Finished, capacity,
}
use kaia_load_tester.Concurrent.Laws.{left, ends_after_left, all_sent}

abbrev accs : List ℕ
accs = 1 ∷ 2 ∷ 3 ∷ []

-- The first two start, the second returns and gives its place back, and then the third starts,
-- before the second has ended.
abbrev two_run : Sending ℕ
two_run = record { waiting = []; running = 3 ∷ 1 ∷ []; sent = 2 ∷ []; returned = 0; released = 1 }

two_run-Reach : Reach (capacity 8 2) accs two_run
two_run-Reach =
    next
      (next
        (next
          (next (next here (launches 1 (2 ∷ 3 ∷ []) refl (omega arith)))
            (launches 2 (3 ∷ []) refl (omega arith)))
          (returns [] 2 (1 ∷ []) refl))
        (releases 0 refl))
      (launches 3 [] refl (omega arith))

abbrev all_done : Sending ℕ
all_done = record { waiting = []; running = []; sent = 1 ∷ 3 ∷ 2 ∷ []; returned = 0; released = 0 }

all_done-Reach : Reach (capacity 8 2) accs all_done
all_done-Reach =
    next
      (next
        (next
          (next
            (next (next (next two_run-Reach (returns [] 3 (1 ∷ []) refl)) (returns [] 1 [] refl))
              (releases 1 refl))
            (releases 0 refl))
          (ends 2 refl))
        (ends 1 refl))
      (ends 0 refl)

ends_after_left_example :
    (Finished two_run ⊎ ((t : Sending ℕ) × Step (capacity 8 2) two_run t))
    × ((t : Sending ℕ) → Step (capacity 8 2) two_run t → left t + 1 ≡ 7)
ends_after_left_example = ends_after_left (capacity 8 2) two_run (omega arith)

all_sent_example : Perm (1 ∷ 3 ∷ 2 ∷ []) accs
all_sent_example =
    all_sent (capacity 8 2) accs {s = all_done} all_done-Reach (refl, refl, refl, refl)
