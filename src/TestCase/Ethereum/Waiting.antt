-- ===== src/TestCase/Ethereum/Waiting.antt =====
-- How `getReceipt` of testcase/run_ethereum.go ends.
use kaia_load_tester.Prelude.{
  ℕ, zero, suc, ◌+◌, ◌<◌, ◌≤◌, ◌≡◌, ◌≢◌, refl, ◌⊎◌, inl, inr, Option, none, some, ltb, arith,
  Bool-cases,
}
use kaia_load_tester.TestCase.Ethereum.{
  Receipt, Poll, got, not_found, other_error, nothing, get_receipt,
}

-- What the loop returns: the receipt of the first poll that is no `NotFound`, if it brings one, and
-- nil if that poll brings an error or the retries are used up.
abbrev pub Waited : (ℕ → Poll) → ℕ → ℕ → ℕ → Option (Option Receipt) → Type 0
Waited polls k retry_count max_retry none = ⊥
Waited polls k retry_count max_retry (some (some r)) =
    (j : ℕ) × (j + retry_count ≤ max_retry)
    × (polls (k + j) ≡ got r)
    × ((i : ℕ) → i < j → polls (k + i) ≡ not_found)
Waited polls k retry_count max_retry (some none) =
    (j : ℕ) × (j + retry_count ≤ max_retry)
    × ((polls (k + j) ≡ other_error)
        ⊎ ((polls (k + j) ≡ not_found) × (j + retry_count ≡ max_retry)))
    × ((i : ℕ) → i < j → polls (k + i) ≡ not_found)

Poll-cases :
    (p : Poll) → p ≢ nothing → ((r : Receipt) × (p ≡ got r)) ⊎ ((p ≡ not_found) ⊎ (p ≡ other_error))
Poll-cases (got r) h = inl (r, refl)
Poll-cases not_found h = inr (inl refl)
Poll-cases other_error h = inr (inr refl)
Poll-cases nothing h = absurd (h refl)

before :
    (polls : ℕ → Poll) (k j : ℕ)
    → polls k ≡ not_found
    → ((i : ℕ) → i < j → polls (k + 1 + i) ≡ not_found)
    → (i : ℕ) → i < j + 1
    → polls (k + i) ≡ not_found
before polls k j h earlier zero below = let e : k + 0 ≡ k = omega arith in rw e h
before polls k j h earlier (suc i) below =
    let e : k + suc i ≡ k + 1 + i = omega arith in rw e (earlier i (omega arith))

later :
    (polls : ℕ → Poll) (k retry_count max_retry : ℕ) (o : Option (Option Receipt))
    → polls k ≡ not_found
    → Waited polls (k + 1) (retry_count + 1) max_retry o
    → Waited polls k retry_count max_retry o
later polls k retry_count max_retry none h w = w
later polls k retry_count max_retry (some (some r)) h (j, up, at, earlier) =
    let e : k + (j + 1) ≡ k + 1 + j = omega arith in
    (j + 1, omega arith, rw e at, before polls k j h earlier)
later polls k retry_count max_retry (some none) h (j, up, at, earlier) =
    let e : k + (j + 1) ≡ k + 1 + j = omega arith in
    (
      j + 1,
      omega arith,
      rw e (elim at [ inl err ↦ inl err | inr (missing, last) ↦ inr (missing, omega arith) ]),
      before polls k j h earlier,
    )

-- If every poll brings a receipt or an error, the wait ends within one poll more than the retries
-- that are left: with the receipt of the first poll that is not `NotFound`, or with nil if that poll
-- brings another error or the retries are used up.
pub get_receipt-Waited :
    (polls : ℕ → Poll) (max_retry left k retry_count : ℕ)
    → ((i : ℕ) → polls i ≢ nothing)
    → retry_count ≤ max_retry
    → max_retry < left + retry_count
    → Waited polls k retry_count max_retry (get_receipt polls max_retry left k retry_count)
unfolding get_receipt
get_receipt-Waited polls max_retry zero k retry_count says up enough = absurd (omega arith)
get_receipt-Waited polls max_retry (suc left) k retry_count says up enough =
    let zero_on : k + 0 ≡ k = omega arith in
    elim (Poll-cases (polls k) (says k)) [
      | inl (r, e) ↦
          rw (e, get_receipt) (0, omega arith, rw zero_on e, λ i below. absurd (omega arith))
      | inr (inl e) ↦
          rw (e, get_receipt)
            (elim (Bool-cases (ltb retry_count max_retry)) [
              | inl more ↦ rw more (
                  later polls k retry_count max_retry _ e (
                    get_receipt-Waited polls max_retry left (k + 1) (retry_count + 1) says
                      (ground arith) (omega arith)))
              | inr over ↦ rw over (
                0,
                omega arith,
                inr (rw zero_on e, ground arith),
                λ i below. absurd (omega arith),
              )
            ])
      | inr (inr e) ↦
          rw (e, get_receipt) (0, omega arith, inl (rw zero_on e), λ i below. absurd (omega arith))
    ]
