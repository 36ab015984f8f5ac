-- ===== src/Clipool/Returned.antt =====
-- A client that is taken and given back: `Alloc` with a deferred `Free`.
use kaia_load_tester.Prelude.{suc, ◌≡◌, refl, List, [], ◌∷◌, ◌++◌}
use kaia_load_tester.Clipool.{ClientPool, alloc, alloc_from, free}

-- The first free client goes to the end of the list; from an empty list a new one goes there.
abbrev pub ReturnedTo {ℓ} : {A : Type ℓ} → List A → ClientPool A → ClientPool A → Type ℓ
ReturnedTo [] p q = (q.free_list ≡ p.alloc_func p.cnt ∷ []) × (q.cnt ≡ suc p.cnt)
ReturnedTo (v ∷ rest) p q = (q.free_list ≡ rest ++ v ∷ []) × (q.cnt ≡ p.cnt)

abbrev pub Returned {ℓ} : {A : Type ℓ} → ClientPool A → ClientPool A → Type ℓ
Returned p q = ReturnedTo p.free_list p q

module _ {ℓ} {A : Type ℓ} where
  alloc_from-free :
      (l : List A) (p : ClientPool A)
      → p.free_list ≡ l
      → ReturnedTo l p (free (alloc_from l p).0 (alloc_from l p).1)
  unfolding alloc_from free
  alloc_from-free [] p e = (rw e refl, refl)
  alloc_from-free (v ∷ rest) p e = (refl, refl)

  pub alloc-free : (p : ClientPool A) → Returned p (free (alloc p).0 (alloc p).1)
  unfolding alloc
  alloc-free p = alloc_from-free p.free_list p refl
