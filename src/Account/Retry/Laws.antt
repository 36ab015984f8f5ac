-- ===== src/Account/Retry/Laws.antt =====
-- When `RunWithRetry` of klayslave/account/account.go returns, and with what.
use mathlib.Core.Option.{some-injective}
use kaia_load_tester.Prelude.{
  sym, subst, ◌∙◌, ◌==◌, ==_iff, ℕ, zero, suc, ◌+◌, ◌<◌, ◌≤◌, ◌≡◌, refl, ◌⊎◌, inl, inr, true, false,
  Option, none, some, Bool-cases, arith,
}
use kaia_load_tester.Account.Types.{Tx, TxError, Outcome, done, fatal, World, M, ◌>>=◌}
use kaia_load_tester.Account.Direct.{SignedResult}
use kaia_load_tester.Account.Retry.{Retry, after_attempt, run_with_retry}

-- An attempt that ends the loop: sent and mined, or refused with an error that is skipped.
abbrev pub Decides : Retry → ℕ → SignedResult → Type 0
Decides c k r =
    ((r.error ≡ none) × (c.mined k ≡ true))
    ⊎ ((err : TxError) × (r.error ≡ some err) × (c.should_skip err ≡ true))

-- Sending does not end the process.
abbrev pub Total : Retry → Type 0
Total c = (k : ℕ) (w : World) → (r : SignedResult) × (v : World) × (c.send_tx k w ≡ done r v)

-- The loop, from the attempt `k` on, returned the transaction of a deciding attempt up to `j`.
abbrev pub Returned : Retry → ℕ → ℕ → Outcome (Option Tx) → Type 0
Returned c k j fatal = ⊥
Returned c k j (done none w) = ⊥
Returned c k j (done (some tx) w) =
    (i : ℕ) × (r : SignedResult) × ((k ≤ i) × (i ≤ j))
    × ((v : World) × (v' : World) × (c.send_tx i v ≡ done r v'))
    × Decides c i r
    × (tx ≡ r.tx)

Returned-later :
    (c : Retry) (k j : ℕ) (o : Outcome (Option Tx)) → Returned c (k + 1) j o → Returned c k j o
Returned-later c k j fatal p = p
Returned-later c k j (done none w) p = p
Returned-later c k j (done (some tx) w) (i, r, (low, high), sent, decided, same) =
    (i, r, (omega arith, high), sent, decided, same)

none_left : (k j : ℕ) → k ≤ j → j < k + 0 → ⊥
none_left k j low high = omega arith

-- An attempt that does not decide is not the last one.
not_last :
    (c : Retry) (k j : ℕ) (r : SignedResult) (again : M (Option Tx)) (u : World)
    → ¬ Decides c k r
    → Decides c k r ⊎ ((u : World) → Returned c (k + 1) j (again u))
    → Returned c k j (again u)
not_last c k j r again u h (inl decided) = absurd (h decided)
not_last c k j r again u h (inr later) = Returned-later c k j (again u) (later u)

unmined :
    (c : Retry) (k : ℕ) (r : SignedResult) → r.error ≡ none → c.mined k ≡ false → ¬ Decides c k r
unmined c k r e m (inl (q, yes_mined)) = cc
unmined c k r e m (inr (err, q, skipped)) = cc

unskipped :
    (c : Retry) (k : ℕ) (r : SignedResult) (err : TxError)
    → r.error ≡ some err
    → c.should_skip err ≡ false
    → ¬ Decides c k r
unskipped c k r err e m (inl (q, yes_mined)) = cc
unskipped c k r err e m (inr (other, q, skipped)) = let same = some-injective _ _ (sym e ∙ q) in cc

module _ (c : Retry) (j : ℕ) where
  -- One attempt, which decides or has a later one after it.
  attempted :
      (k : ℕ) (again : M (Option Tx)) (w v : World) (r : SignedResult)
      → k ≤ j
      → c.send_tx k w ≡ done r v
      → Decides c k r ⊎ ((u : World) → Returned c (k + 1) j (again u))
      → (err : Option TxError) → r.error ≡ err
      → Returned c k j (after_attempt c k again r err v)
  unfolding after_attempt
  attempted k again w v r h sent d none e = elim (Bool-cases (c.mined k)) [
    | inl mined ↦ rw mined (k, r, (omega arith, h), (w, v, sent), inl (e, mined), refl)
    | inr missing ↦ rw missing (not_last c k j r again _ (unmined c k r e missing) d)
  ]
  attempted k again w v r h sent d (some err) e = elim (Bool-cases (c.should_skip err)) [
    | inl skipped ↦ rw skipped (k, r, (omega arith, h), (w, v, sent), inr (err, e, skipped), refl)
    | inr kept ↦ rw kept (not_last c k j r again v (unskipped c k r err e kept) d)
  ]

  -- If sending never ends the process and the attempt `j` decides, whatever went before it, then the
  -- loop returns once it is given attempts up to `j`: it returns the transaction of an
  -- attempt up to `j` that was taken and mined, or that was refused with an error that is skipped.
  pub run_with_retry-Returned :
      (left k : ℕ) (w : World)
      → Total c
      → k ≤ j
      → j < k + left
      → ((v v' : World) (r : SignedResult) → c.send_tx j v ≡ done r v' → Decides c j r)
      → Returned c k j (run_with_retry c left k w)
  unfolding run_with_retry
  run_with_retry-Returned zero k w total low high decides = absurd (none_left k j low high)
  run_with_retry-Returned (suc left) k w total low high decides =
      let (r, v, sent) = total k w in
      rw (sent, ◌>>=◌)
        (attempted k (run_with_retry c left (k + 1)) w v r low sent
          (elim (Bool-cases (k == j)) [
            | inl last ↦ inl (
                subst (λ i. Decides c i r) (sym ((==_iff k j).0 last))
                  (decides w v r
                    (subst (λ i. c.send_tx i w ≡ done r v) ((==_iff k j).0 last) sent)))
            | inr before ↦ inr λ u.
                run_with_retry-Returned left (k + 1) u total (ground arith) (omega arith) decides
          ])
          r.error refl)
