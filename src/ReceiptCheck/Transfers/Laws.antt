-- ===== src/ReceiptCheck/Transfers/Laws.antt =====
-- A transfer with its check ends, and what the balances are when it passes.
use kaia_load_tester.Prelude.{
  ℕ, zero, suc, ◌+◌, ◌*◌, ◌<◌, ◌≤◌, ◌≡◌, ◌≢◌, refl, ◌⊎◌, inl, inr, Bool, true, false, Option, none,
  some, [], ◌∷◌, ◌++◌, if◌then◌else◌, ◌==◌, ℤ, pos, negsuc, sub_ℕ, sub_ℕ-eq-pos, arith, Bool-cases,
  Option-cases,
}
use kaia_load_tester.Account.Types.{
  Account, legacy, Tx, Env, TxError, World, Outcome, done, fatal, ◌>>=◌,
}
use kaia_load_tester.Account.Direct.{
  transfer_signed_tx_without_lock, transfer_signed_tx_return_tx, signed_tx,
}
use kaia_load_tester.Account.Direct.Laws.{send_raw_tx-settled}
use kaia_load_tester.Account.Send.{to_error}
use kaia_load_tester.Account.Send.Laws.{next_nonce, get_nonce-next}
use kaia_load_tester.Account.Transfers.Contracts.{first_key}
use kaia_load_tester.ReceiptCheck.Transfers.{
  Polls, Verdict, passed, panics, refused, await_receipt, check_balance, await_balance, check_to,
  check_both, after_receipt, after_transfer, transfer_and_check, time_out_from, time_out_to,
}

-- A wait that starts before its time is over, with fuel for every poll until then, ends: with a
-- receipt of some poll, or late.
abbrev pub AwaitedReceipt : (ℕ → Option ℕ) → Option (Option ℕ) → Type 0
AwaitedReceipt receipt none = ⊥
AwaitedReceipt receipt (some none) = Unit
AwaitedReceipt receipt (some (some gas)) = (i : ℕ) × (receipt i ≡ some gas)

await_receipt-Awaited :
    (receipt : ℕ → Option ℕ) (late : ℕ → Bool) (n left k : ℕ)
    → late n ≡ true
    → k ≤ n
    → n < left + k
    → AwaitedReceipt receipt (await_receipt receipt late left k)
unfolding await_receipt
await_receipt-Awaited receipt late n zero k over from enough = absurd (omega arith)
await_receipt-Awaited receipt late n (suc left) k over from enough =
    elim (Option-cases (receipt k)) [
      | inr (gas, e) ↦ rw (e, await_receipt) (k, e)
      | inl e ↦ elim (Bool-cases (late k)) [
        | inl t ↦ rw (e, t, await_receipt) tt
        | inr f ↦
            let before : k ≢ n = λ q. let r = rw q at f in cc in
            rw (e, f, await_receipt)
              (await_receipt-Awaited receipt late n left (k + 1) over (omega arith) (omega arith))
      ]
    ]

abbrev pub AwaitedBalance : (ℕ → Option ℕ) → ℤ → Option Verdict → Type 0
AwaitedBalance balance expected none = ⊥
AwaitedBalance balance expected (some passed) =
    (i : ℕ) × (b : ℕ) × (balance i ≡ some b) × (expected ≡ pos b)
AwaitedBalance balance expected (some panics) = (i : ℕ) × (balance i ≡ none)
AwaitedBalance balance expected (some (refused err)) = Unit

check_balance-eq : (b : ℕ) (z : ℤ) → check_balance b z ≡ true → z ≡ pos b
check_balance-eq b (pos n) h = ground arith
check_balance-eq b (negsuc n) h = absurd (ground arith)

await_balance-Awaited :
    (balance : ℕ → Option ℕ) (late : ℕ → Bool) (expected : ℤ) (err : TxError) (n left k : ℕ)
    → late n ≡ true
    → k ≤ n
    → n < left + k
    → AwaitedBalance balance expected (await_balance balance late expected err left k)
unfolding await_balance
await_balance-Awaited balance late expected err n zero k over from enough = absurd (omega arith)
await_balance-Awaited balance late expected err n (suc left) k over from enough =
    elim (Option-cases (balance k)) [
      | inl e ↦ rw (e, await_balance) (k, e)
      | inr (b, e) ↦ elim (Bool-cases (check_balance b expected)) [
        | inl right ↦ rw (e, right, await_balance) (k, b, e, check_balance-eq b expected right)
        | inr wrong ↦ elim (Bool-cases (late k)) [
          | inl t ↦ rw (e, wrong, t, await_balance) tt
          | inr f ↦
              let before : k ≢ n = λ q. let r = rw q at f in cc in
              rw (e, wrong, f, await_balance)
                (await_balance-Awaited balance late expected err n left (k + 1) over (omega arith)
                  (omega arith))
        ]
      ]
    ]

-- The clocks of the three loops are over at the poll `n`.
abbrev pub Over : Polls → ℕ → Type 0
Over c n = (c.receipt_late n ≡ true) × (c.from_late n ≡ true) × (c.to_late n ≡ true)

-- The receiver has the value more than before.
abbrev pub Received : Polls → ℕ → Type 0
Received c value =
    (former : ℕ) × (l : ℕ) × (c.to_former_balance ≡ some former)
    × (c.to_balance l ≡ some (former + value))

-- What the verdict says: on success the sender paid the fee, and the value too unless it is the
-- receiver; and a panic is a balance that could not be read.
abbrev pub Judged : Polls → Bool → ℕ → ℕ → Option TxError → Option Verdict → Type 0
Judged c same value price answer none = ⊥
Judged c same value price answer (some (refused err)) = (answer ≡ some err) ⊎ (answer ≡ none)
Judged c same value price answer (some panics) =
    (answer ≡ none)
    × ((c.from_former_balance ≡ none)
        ⊎ ((c.to_former_balance ≡ none)
            ⊎ ((i : ℕ) × ((c.from_balance i ≡ none) ⊎ (c.to_balance i ≡ none)))))
Judged c same value price answer (some passed) =
    (answer ≡ none)
    × ((gas : ℕ) × (former : ℕ) × (b : ℕ) × (i : ℕ) × (j : ℕ) × (c.receipt i ≡ some gas)
        × (c.from_former_balance ≡ some former)
        × (c.from_balance j ≡ some b)
        × (((same ≡ true) × (b + gas * price ≡ former))
            ⊎ ((same ≡ false) × (b + (value + gas * price) ≡ former) × Received c value)))

module _ (c : Polls) (n fuel : ℕ) (over : Over c n) (enough : n < fuel) (value price gas i : ℕ)
    (receipt : c.receipt i ≡ some gas) where
  check_to-Judged_other :
      (former to b j : ℕ) (v : Option Verdict)
      → c.from_former_balance ≡ some former
      → c.to_former_balance ≡ some to
      → c.from_balance j ≡ some b
      → b + (value + gas * price) ≡ former
      → AwaitedBalance c.to_balance (pos (to + value)) v
      → Judged c false value price none v
  check_to-Judged_other former to b j none f t at sum h = absurd h
  check_to-Judged_other former to b j (some (refused err)) f t at sum h = inr refl
  check_to-Judged_other former to b j (some panics) f t at sum (l, e) = (refl, inr (inr (l, inr e)))
  check_to-Judged_other former to b j (some passed) f t at sum (l, b', e, same) =
      let q : to + value ≡ b' = ground arith in
      (refl, (gas, former, b, i, j, receipt, f, at, inr (refl, sum, (to, l, t, rw q e))))

  check_to-Judged :
      (same : Bool) (former to : ℕ) (v : Option Verdict)
      → c.from_former_balance ≡ some former
      → c.to_former_balance ≡ some to
      → AwaitedBalance c.from_balance (sub_ℕ former ((if same then 0 else value) + gas * price)) v
      → Judged c same value price none (check_to c fuel same (to + (if same then 0 else value)) v)
  check_to-Judged same former to none f t h = absurd h
  check_to-Judged same former to (some (refused err)) f t h = inr refl
  check_to-Judged same former to (some panics) f t (j, e) = (refl, inr (inr (j, inl e)))
  check_to-Judged true former to (some passed) f t (j, b, at, sum) =
      let paid = sub_ℕ-eq-pos former (0 + gas * price) b sum in
      (refl, (gas, former, b, i, j, receipt, f, at, inl (refl, omega arith)))
  check_to-Judged false former to (some passed) f t (j, b, at, sum) =
      let paid = sub_ℕ-eq-pos former (value + gas * price) b sum in
      check_to-Judged_other former to b j _ f t at (omega arith) (
        await_balance-Awaited c.to_balance c.to_late (pos (to + value)) time_out_to n fuel 0 over.2
          (omega arith) (omega arith))

  check_both-Judged :
      (same : Bool) (from to : Option ℕ)
      → c.from_former_balance ≡ from
      → c.to_former_balance ≡ to
      → Judged c same value price none
          (check_both c fuel same (if same then 0 else value) (gas * price) from to)
  check_both-Judged same none to f t = (refl, inl f)
  check_both-Judged same (some from) none f t = (refl, inr (inl t))
  check_both-Judged same (some from) (some to) f t = check_to-Judged same from to _ f t (
      await_balance-Awaited c.from_balance c.from_late _ time_out_from n fuel 0 over.1 (omega arith)
        (omega arith))

after_transfer-Judged :
    (c : Polls) (n fuel : ℕ) (same : Bool) (value price : ℕ) (answer : Option TxError)
    → Over c n
    → n < fuel
    → Judged c same value price answer (after_transfer c fuel same value price answer)
after_transfer-Judged c n fuel same value price (some err) over enough = inl refl
after_transfer-Judged c n fuel same value price none over enough =
    waited (await_receipt c.receipt c.receipt_late fuel 0)
      (await_receipt-Awaited c.receipt c.receipt_late n fuel 0 over.0 (omega arith) (omega arith))
  where
    waited :
        (o : Option (Option ℕ))
        → AwaitedReceipt c.receipt o
        → Judged c same value price none (after_receipt c fuel same value price o)
    waited none h = absurd h
    waited (some none) h = inr refl
    waited (some (some gas)) (i, e) =
        check_both-Judged c n fuel over enough value price gas i e same c.from_former_balance
          c.to_former_balance refl refl

-- The transfer: the next nonce, the usual gas and price, no input, and the first key.
abbrev pub transfer_tx : Env → Account → Account → ℕ → Tx
transfer_tx e from to value =
    signed_tx (legacy (next_nonce e from) to.address value 21_000 e.default_gas_price [])
      (first_key from ∷ [])

abbrev pub Checked : Env → Polls → Account → ℕ → World → Outcome (Option Verdict) → Type 0
Checked e c to value w fatal =
    e.sign_ok (transfer_tx e w.self to value).body (first_key w.self ∷ []) ≡ false
Checked e c to value w (done v w') =
    (w'.sent ≡ w.sent ++ transfer_tx e w.self to value ∷ [])
    × Judged c (to.address == w.self.address) value e.default_gas_price
        (to_error (e.send_raw_transaction (transfer_tx e w.self to value))) v

-- If the time of each loop is over at some poll and the fuel is enough for it, a transfer with its
-- check ends: unless signing fails, one transfer with the next nonce goes out. It passes only if
-- the node took it, a poll brought a receipt, and the balances read are the former ones, less the
-- value and the fee for the sender, and with the value for another receiver; an account that sends
-- to itself pays the fee. It panics only where a balance cannot be read.
pub transfer_and_check-Checked :
    (e : Env) (c : Polls) (n fuel : ℕ) (to : Account) (value : ℕ) (w : World)
    → Over c n
    → n < fuel
    → Checked e c to value w (transfer_and_check e c fuel to value w)
unfolding transfer_and_check transfer_signed_tx_without_lock transfer_signed_tx_return_tx
transfer_and_check-Checked e c n fuel to value w over enough =
    let tx = transfer_tx e w.self to value in
    rw (get_nonce-next e w, ◌>>=◌)
      (elim (Bool-cases (e.sign_ok tx.body (first_key w.self ∷ []))) [
        | inl signs ↦
            rw (signs, send_raw_tx-settled e tx _)
              (
                refl,
                after_transfer-Judged c n fuel (to.address == w.self.address) value
                    e.default_gas_price (to_error (e.send_raw_transaction tx)) over enough,
              )
        | inr bad ↦ rw bad bad
      ])
