-- ===== src/Clipool/Tests.antt =====
-- Runs of the client pool: the callback's k-th client is the number k.
use Prim.Native.Nat.{max}
use mathlib.Core.List.{Perm}
use kaia_load_tester.Prelude.{ℕ, ◌+◌, ◌≤◌, ◌≡◌, refl, [], ◌∷◌, ◌++◌}
use kaia_load_tester.Clipool.{ClientPool, init_pool, alloc, free}
use kaia_load_tester.Clipool.Sessions.{
  Session, Reach, here, next, allocs, frees, start, after_alloc, created, Reach-owned, cnt-le-peak,
}

abbrev numbered : ℕ → ℕ
numbered k = k + 10

abbrev two : ClientPool ℕ
two = init_pool 2 300 numbered

alloc-two : (alloc (alloc (alloc two).1).1).0 ≡ 12
unfolding alloc init_pool
alloc-two = refl

free-alloc-two : (alloc (free 10 (alloc two).1)).0 ≡ 11
unfolding alloc init_pool free
free-alloc-two = refl

abbrev held_three : Session ℕ
held_three = after_alloc (after_alloc (after_alloc (start 2 300 numbered)))

held_three-lent : held_three.lent ≡ (12 ∷ []) ++ 11 ∷ 10 ∷ []
unfolding alloc init_pool
held_three-lent = refl

abbrev given_back : Session ℕ
given_back = record {
  pool = free 11 held_three.pool;
  lent = (12 ∷ []) ++ 10 ∷ [];
  peak = held_three.peak;
}

given_back-Reach : Reach (start 2 300 numbered) given_back
given_back-Reach =
    next (next (next (next here allocs) allocs) allocs)
      (frees (12 ∷ []) (10 ∷ []) 11 held_three-lent)

Reach-owned_example :
    Perm (given_back.pool.free_list ++ given_back.lent) (created given_back.pool.cnt numbered)
Reach-owned_example = Reach-owned {t = given_back} 2 300 numbered given_back-Reach

cnt-le-peak_example : given_back.pool.cnt ≤ max 2 given_back.peak
cnt-le-peak_example = cnt-le-peak {t = given_back} 2 300 numbered given_back-Reach
