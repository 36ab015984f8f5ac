-- ===== src/Clipool/Sessions.antt =====
-- The pool together with the clients that test cases hold, over every order of Alloc and Free.
use Prim.Native.Nat.{max}
use mathlib.Core.List.{perm_middle, Perm, append_assoc}
use mathlib.Core.List.Perm
use kaia_load_tester.Prelude.{
  ℕ, zero, suc, ◌+◌, ◌≤◌, ◌≡◌, refl, ap, List, [], ◌∷◌, ◌++◌, arith, length, length-append,
}
use kaia_load_tester.Clipool.{ClientPool, fill, init_pool, alloc, free}

pub record Session {ℓ} (A : Type ℓ) : Type ℓ where
  pub pool : ClientPool A
  pub lent : List A
  -- the largest number of clients that were out at once
  pub peak : ℕ

module _ {ℓ} {A : Type ℓ} where
  abbrev pub start : ℕ → ℕ → (ℕ → A) → Session A
  start init max f = record { pool = init_pool init max f; lent = []; peak = 0 }

  abbrev pub after_alloc : Session A → Session A
  after_alloc s = record {
    pool = (alloc s.pool).1;
    lent = (alloc s.pool).0 ∷ s.lent;
    peak = max s.peak (suc (length s.lent));
  }

  -- Any holder may give its client back at any time.
  pub data Step (s : Session A) : Session A → Type ℓ where
    allocs : Step s (after_alloc s)
    frees :
        (xs ys : List A) (v : A)
        → s.lent ≡ xs ++ v ∷ ys
        → Step s (record { pool = free v s.pool; lent = xs ++ ys; peak = s.peak })

  pub data Reach (s : Session A) : Session A → Type ℓ where
    here : Reach s s
    next : {t u : Session A} → Reach s t → Step t u → Reach s u

  -- The clients that the callback's first calls made, the latest first.
  pub created : ℕ → (ℕ → A) → List A
  created zero f = []
  created (suc n) f = f n ∷ created n f

  length-created : (n : ℕ) (f : ℕ → A) → length (created n f) ≡ n
  unfolding created
  length-created zero f = refl
  length-created (suc n) f = ap suc (length-created n f)

  record Inv (i : ℕ) (f : ℕ → A) (s : Session A) : Type ℓ where
    callback : s.pool.alloc_func ≡ f
    owned : Perm (s.pool.free_list ++ s.lent) (created s.pool.cnt f)
    counted : s.pool.cnt ≡ length s.pool.free_list + length s.lent
    peaked : length s.lent ≤ s.peak
    bounded : s.pool.cnt ≤ max i s.peak

  snoc-perm : (xs ys : List A) (a : A) → Perm ((xs ++ a ∷ []) ++ ys) (a ∷ xs ++ ys)
  snoc-perm xs ys a = rw (append_assoc xs (a ∷ []) ys) (perm_middle xs ys)

  -- One more client of the callback joins those that exist.
  grown-perm :
      (p : ClientPool A) (f : ℕ → A) (xs : List A)
      → p.alloc_func ≡ f
      → Perm xs (created p.cnt f)
      → Perm (p.alloc_func p.cnt ∷ xs) (created (suc p.cnt) f)
  unfolding created
  grown-perm p f xs e h = rw e (Perm.cons (f p.cnt) h)

  fill-Inv :
      (n i : ℕ) (f : ℕ → A) (p : ClientPool A)
      → Inv i f (record { pool = p; lent = []; peak = 0 })
      → p.cnt + n ≤ i
      → Inv i f (record { pool = fill n p; lent = []; peak = 0 })
  unfolding fill
  fill-Inv zero i f p v h = v
  fill-Inv (suc n) i f p v h =
      fill-Inv n i f _
        (record {
          callback = v.callback;
          owned =
              Perm.trans (snoc-perm p.free_list [] (p.alloc_func p.cnt))
                (grown-perm p f (p.free_list ++ []) v.callback v.owned);
          counted = omega (arith, v.counted, length-append p.free_list (p.alloc_func p.cnt ∷ []));
          peaked = omega arith;
          bounded = omega arith;
        })
        (omega arith)

  start-Inv : (i m : ℕ) (f : ℕ → A) → Inv i f (start i m f)
  unfolding init_pool created
  start-Inv i m f =
      fill-Inv i i f _
        (record {
          callback = refl;
          owned = Perm.refl [];
          counted = refl;
          peaked = omega arith;
          bounded = omega arith;
        })
        (omega arith)

  alloc-Inv :
      (i : ℕ) (f : ℕ → A) (s : Session A) (free_list : List A)
      → s.pool.free_list ≡ free_list
      → Inv i f s
      → Inv i f (after_alloc s)
  unfolding alloc
  alloc-Inv i f s [] e v = record {
    callback = rw e v.callback;
    owned = rw (e, ◌++◌) (grown-perm s.pool f s.lent v.callback (rw e at v.owned));
    counted = rw e (omega (arith, ap length e, v.counted));
    peaked = omega arith;
    bounded = rw e (omega (arith, ap length e, v.counted, v.peaked));
  }
  alloc-Inv i f s (c ∷ rest) e v = record {
    callback = rw e v.callback;
    owned = rw e (Perm.trans (perm_middle rest s.lent) (rw e at v.owned));
    counted = rw e (omega (arith, ap length e, v.counted));
    peaked = omega arith;
    bounded = rw e (omega (arith, v.bounded));
  }

  Step-Inv : {s t : Session A} (i : ℕ) (f : ℕ → A) → Step s t → Inv i f s → Inv i f t
  unfolding free
  Step-Inv {s} i f allocs v = alloc-Inv i f s s.pool.free_list refl v
  Step-Inv {s} i f (frees xs ys w e) v = record {
    callback = v.callback;
    owned =
        Perm.trans (snoc-perm s.pool.free_list (xs ++ ys) w) (Perm.trans (Perm.symm moved) v.owned);
    counted = omega (
      arith,
      v.counted,
      ap length e,
      length-append xs (w ∷ ys),
      length-append xs ys,
      length-append s.pool.free_list (w ∷ []),
    );
    peaked = omega (arith, v.peaked, ap length e, length-append xs (w ∷ ys), length-append xs ys);
    bounded = v.bounded;
  }
    where
      moved : Perm (s.pool.free_list ++ s.lent) (w ∷ s.pool.free_list ++ (xs ++ ys))
      moved =
          rw (e, ← append_assoc s.pool.free_list xs (w ∷ ys), ← append_assoc s.pool.free_list xs ys)
            (perm_middle (s.pool.free_list ++ xs) ys)

  Reach-Inv : {s t : Session A} (i : ℕ) (f : ℕ → A) → Inv i f s → Reach s t → Inv i f t
  Reach-Inv i f v here = v
  Reach-Inv i f v (next r st) = Step-Inv i f st (Reach-Inv i f v r)

  -- In every history of Init, Alloc and Free, the clients in the pool and those that are lent are,
  -- together and each once, the clients that the callback has made: none is lost and none is lent
  -- to two holders.
  pub Reach-owned :
      {t : Session A} (i m : ℕ) (f : ℕ → A)
      → Reach (start i m f) t
      → Perm (t.pool.free_list ++ t.lent) (created t.pool.cnt f)
  Reach-owned i m f r = (Reach-Inv i f (start-Inv i m f) r).owned

  -- In every history the callback has been called at most as often as the larger of the initial
  -- size and the largest number of clients that were ever lent at once.
  pub cnt-le-peak :
      {t : Session A} (i m : ℕ) (f : ℕ → A) → Reach (start i m f) t → t.pool.cnt ≤ max i t.peak
  cnt-le-peak i m f r = (Reach-Inv i f (start-Inv i m f) r).bounded
