-- ===== src/Concurrent/Laws.antt =====
-- The accounts and the end of a run of `ConcurrentTransactionSend` of
-- klayslave/account/account.go.
use mathlib.Core.List.{Perm, perm_middle, append-nil}
use mathlib.Core.List.Perm
use kaia_load_tester.Prelude.{
  ℕ, zero, suc, ◌+◌, ◌*◌, ◌<◌, ◌≡◌, refl, ap, subst, ◌⊎◌, inl, inr, List, [], ◌∷◌, ◌++◌, length,
  length-append, arith,
}
use kaia_load_tester.Concurrent.{
  Sending, Step, launches, returns, releases, ends, Reach, here, next, Finished,
}

zero_or_next : (n : ℕ) → (n ≡ 0) ⊎ ((k : ℕ) × (n ≡ k + 1))
zero_or_next zero = inl refl
zero_or_next (suc k) = inr (k, omega arith)

module _ {ℓ} {A : Type ℓ} where
  -- The steps that are left: four for an account that waits, three for one whose function runs.
  abbrev pub left : Sending A → ℕ
  left s = 4 * length s.waiting + 3 * length s.running + 2 * s.returned + s.released

  Step-left : {s t : Sending A} (limit : ℕ) → Step limit s t → left t + 1 ≡ left s
  Step-left {s} limit (launches acc rest q full) = omega (arith, ap length q)
  Step-left {s} limit (returns front acc back q) =
      omega (arith, ap length q, length-append front (acc ∷ back), length-append front back)
  Step-left {s} limit (releases k q) = omega (arith, q)
  Step-left {s} limit (ends k q) = omega (arith, q)

  nil_or_cons : (xs : List A) → (xs ≡ []) ⊎ ((a : A) × (rest : List A) × (xs ≡ a ∷ rest))
  nil_or_cons [] = inl refl
  nil_or_cons (a ∷ rest) = inr (a, rest, refl)

  goes_on :
      (limit : ℕ) (s : Sending A) → 0 < limit → Finished s ⊎ ((t : Sending A) × Step limit s t)
  goes_on limit s h = elim (zero_or_next s.released) [
    | inr (k, q) ↦ inr (_, ends k q)
    | inl ended ↦ elim (zero_or_next s.returned) [
      | inr (k, q) ↦ inr (_, releases k q)
      | inl given ↦ elim (nil_or_cons s.running) [
        | inr (acc, back, q) ↦ inr (_, returns [] acc back q)
        | inl idle ↦ elim (nil_or_cons s.waiting) [
          | inl over ↦ inl (over, idle, given, ended)
          | inr (acc, rest, q) ↦ inr (_, launches acc rest q (omega (arith, given, ap length idle)))
        ]
      ]
    ]
  ]

  -- With room for a goroutine, the sending goes on until every account's goroutine has ended, and
  -- every step brings it nearer: `left` goes down by one.
  pub ends_after_left :
      (limit : ℕ) (s : Sending A)
      → 0 < limit
      → (Finished s ⊎ ((t : Sending A) × Step limit s t))
        × ((t : Sending A) → Step limit s t → left t + 1 ≡ left s)
  ends_after_left limit s h = (goes_on limit s h, λ t. Step-left limit)

  returned-Perm :
      (waiting front : List A) (acc : A) (back sent : List A)
      → Perm
          (waiting ++ ((front ++ back) ++ (acc ∷ sent)))
          (waiting ++ ((front ++ acc ∷ back) ++ sent))
  returned-Perm [] [] acc back sent = perm_middle back sent
  returned-Perm [] (f ∷ front) acc back sent = Perm.cons f (returned-Perm [] front acc back sent)
  returned-Perm (w ∷ waiting) front acc back sent =
      Perm.cons w (returned-Perm waiting front acc back sent)

  Reach-Perm :
      (limit : ℕ) (accs : List A) {s : Sending A}
      → Reach limit accs s
      → Perm (s.waiting ++ (s.running ++ s.sent)) accs
  Reach-Perm limit accs here = rw (append-nil accs) (Perm.refl accs)
  Reach-Perm limit accs (next {s} r (launches acc rest q full)) =
      Perm.trans (perm_middle rest (s.running ++ s.sent)) (rw q at (Reach-Perm limit accs r))
  Reach-Perm limit accs (next {s} r (returns front acc back q)) =
      Perm.trans (returned-Perm s.waiting front acc back s.sent) (rw q at (Reach-Perm limit accs r))
  Reach-Perm limit accs (next {s} r (releases k q)) = Reach-Perm limit accs r
  Reach-Perm limit accs (next {s} r (ends k q)) = Reach-Perm limit accs r

  -- When `wg.Wait` returns, the function has been called for each account of the list exactly as
  -- often as it stands there, in whatever order the goroutines ran.
  pub all_sent :
      (limit : ℕ) (accs : List A) {s : Sending A}
      → Reach limit accs s
      → Finished s
      → Perm s.sent accs
  all_sent limit accs {s} r (over, idle, given, ended) =
      subst (λ xs. Perm (xs ++ s.sent) accs) idle
        (subst (λ xs. Perm (xs ++ (s.running ++ s.sent)) accs) over (Reach-Perm limit accs r))
