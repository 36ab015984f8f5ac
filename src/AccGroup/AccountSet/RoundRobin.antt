-- ===== src/AccGroup/AccountSet/RoundRobin.antt =====
-- `GetAccountRoundRobin` of klayslave/account/accgroup.go, called several times.
use mathlib.Core.List.{append_assoc, append-nil, map-append}
use kaia_load_tester.Prelude.{
  ℕ, zero, suc, ◌+◌, ◌<◌, ◌≤◌, ◌≡◌, refl, Option, some, List, [], ◌∷◌, ◌++◌, map, length, get_elem?,
  length-append, arith, ◌==◌, leb, if◌then◌else◌, false, true,
}
use kaia_load_tester.AccGroup.AccountSet.{AccountSet, get_account_round_robin}

==-positive : (n : ℕ) → 0 < n → (n == 0) ≡ false
==-positive n h = ground arith

zero_add : (n : ℕ) → zero + n ≡ n
zero_add n = omega arith

suc_add : (m n : ℕ) → suc m + n ≡ suc (m + n)
suc_add m n = omega arith

leb-above : (m n : ℕ) → n < m → leb m n ≡ false
leb-above m n h = ground arith

leb-below : (m n : ℕ) → m ≤ n → leb m n ≡ true
leb-below m n h = ground arith

module _ {ℓ} {A : Type ℓ} where
  -- What the next calls return, and the set after them.
  unfoldable pub taken : ℕ → AccountSet A → List (Option A) × AccountSet A
  taken zero s = ([], s)
  taken (suc n) s =
      let r = get_account_round_robin s in let rest = taken n r.1 in (r.0 ∷ rest.0, rest.1)

  taken-suc :
      (n : ℕ) (s : AccountSet A)
      → taken (suc n) s ≡ (
        (get_account_round_robin s).0 ∷ (taken n (get_account_round_robin s).1).0,
        (taken n (get_account_round_robin s).1).1,
      )
  unfolding taken
  taken-suc n s = refl

  taken-zero : (s : AccountSet A) → taken zero s ≡ ([], s)
  unfolding taken
  taken-zero s = refl

  abbrev pub at : List A → ℕ → AccountSet A
  at accounts i = record { accounts = accounts; round_robin_index = i }

  get_elem?-middle :
      (front : List A) (a : A) (back : List A)
      → get_elem? (front ++ a ∷ back) (length front) ≡ some a
  get_elem?-middle [] a back = refl
  get_elem?-middle (x ∷ front) a back = get_elem?-middle front a back

  get_account_round_robin-at :
      (front : List A) (a : A) (back : List A)
      → get_account_round_robin (at (front ++ a ∷ back) (length front)) ≡ (
        some a,
        at
            (front ++ a ∷ back)
            (if leb (length (front ++ a ∷ back)) (length front + 1) then 0 else length front + 1),
      )
  unfolding get_account_round_robin
  get_account_round_robin-at front a back =
      rw
        (
          ==-positive (length (front ++ a ∷ back)) (omega (arith, length-append front (a ∷ back))),
          get_elem?-middle front a back,
        )
        refl

  -- One call, with more accounts after the current one, or with none.
  get_account_round_robin-more :
      (front : List A) (a b : A) (back : List A)
      → get_account_round_robin (at (front ++ a ∷ b ∷ back) (length front))
        ≡ (some a, at (front ++ a ∷ b ∷ back) (length (front ++ a ∷ [])))
  get_account_round_robin-more front a b back =
      rw
        (
          get_account_round_robin-at front a (b ∷ back),
          leb-above (length (front ++ a ∷ b ∷ back)) (length front + 1)
              (omega (arith, length-append front (a ∷ b ∷ back))),
          length-append front (a ∷ []),
        )
        refl

  get_account_round_robin-last :
      (front : List A) (a : A)
      → get_account_round_robin (at (front ++ a ∷ []) (length front))
        ≡ (some a, at (front ++ a ∷ []) 0)
  get_account_round_robin-last front a =
      rw
        (
          get_account_round_robin-at front a [],
          leb-below (length (front ++ a ∷ [])) (length front + 1)
              (omega (arith, length-append front (a ∷ []))),
        )
        refl

  -- The calls up to the end of the list, from an account on.
  taken-back :
      (front : List A) (a : A) (back : List A)
      → taken (length (a ∷ back)) (at (front ++ a ∷ back) (length front))
        ≡ (map some (a ∷ back), at (front ++ a ∷ back) 0)
  taken-back front a [] =
      rw
        (
          taken-suc zero (at (front ++ a ∷ []) (length front)),
          get_account_round_robin-last front a,
          taken-zero (at (front ++ a ∷ []) 0),
        )
        refl
  taken-back front a (b ∷ back) =
      rw
        (
          taken-suc (length (b ∷ back)) (at (front ++ a ∷ b ∷ back) (length front)),
          get_account_round_robin-more front a b back,
          ← append_assoc front (a ∷ []) (b ∷ back),
          taken-back (front ++ a ∷ []) b back,
        )
        refl

  next_of :
      (done : List A) (x : A) (front : List A) (a : A) (back : List A)
      → get_account_round_robin (at (done ++ x ∷ (front ++ a ∷ back)) (length done))
        ≡ (some x, at (done ++ x ∷ (front ++ a ∷ back)) (length (done ++ x ∷ [])))
  next_of done x [] a back = get_account_round_robin-more done x a back
  next_of done x (y ∷ front) a back = get_account_round_robin-more done x y (front ++ a ∷ back)

  -- The calls over accounts that others follow.
  taken-front :
      (done front : List A) (a : A) (back : List A)
      → taken (length front) (at (done ++ (front ++ a ∷ back)) (length done))
        ≡ (map some front, at (done ++ (front ++ a ∷ back)) (length (done ++ front)))
  taken-front done [] a back =
      rw (append-nil done) (taken-zero (at (done ++ a ∷ back) (length done)))
  taken-front done (x ∷ front) a back =
      rw
        (
          taken-suc (length front) (at (done ++ x ∷ (front ++ a ∷ back)) (length done)),
          next_of done x front a back,
          ← append_assoc done (x ∷ []) (front ++ a ∷ back),
          taken-front (done ++ x ∷ []) front a back,
          append_assoc done (x ∷ []) front,
        )
        refl

  taken-add :
      (m n : ℕ) (s : AccountSet A)
      → taken (m + n) s ≡ ((taken m s).0 ++ (taken n (taken m s).1).0, (taken n (taken m s).1).1)
  taken-add zero n s = rw (zero_add n, taken-zero s) refl
  taken-add (suc m) n s =
      rw
        (
          suc_add m n,
          taken-suc (m + n) s,
          taken-suc m s,
          taken-add m n (get_account_round_robin s).1,
        )
        refl

  -- From any place in the list on, as many calls as there are accounts return each account once, in
  -- the list's order from that place on and around its end, and the set is then as before.
  pub round_robin_rotates :
      (front : List A) (a : A) (back : List A)
      → taken (length (a ∷ back) + length front) (at (front ++ a ∷ back) (length front))
        ≡ (map some (a ∷ back ++ front), at (front ++ a ∷ back) (length front))
  round_robin_rotates front a back =
      rw
        (
          taken-add (length (a ∷ back)) (length front) (at (front ++ a ∷ back) (length front)),
          taken-back front a back,
          taken-front [] front a back,
        )
        (rw (map-append some (a ∷ back) front) refl)
