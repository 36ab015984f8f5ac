-- ===== src/ReceiptCheck/Transfers.antt =====
-- `transferAndCheck` of testcase/run_receipt_check.go: a transfer, the wait for its receipt, and the
-- comparison of the balances.
pub mod Laws
use kaia_load_tester.Prelude.{
  ℕ, zero, suc, ◌+◌, ◌*◌, Bool, true, false, Option, none, some, if◌then◌else◌, ◌==◌, ℤ, pos,
  negsuc, sub_ℕ,
}
use kaia_load_tester.Account.Types.{Account, Env, TxError, failed, M, ◌>>=◌, pure, get_self}
use kaia_load_tester.Account.Transfers.{Reply}
use kaia_load_tester.Account.Direct.{transfer_signed_tx_without_lock}

-- What the node answers: the two balances before the transfer, then at each poll of a loop the gas
-- used, if there is a receipt, and the balances, where `none` is nil. A clock says whether the
-- loop's time is over after a poll.
pub record Polls : Type 0 where
  pub from_former_balance : Option ℕ
  pub to_former_balance : Option ℕ
  pub receipt : ℕ → Option ℕ
  pub receipt_late : ℕ → Bool
  pub from_balance : ℕ → Option ℕ
  pub from_late : ℕ → Bool
  pub to_balance : ℕ → Option ℕ
  pub to_late : ℕ → Bool

-- The error that is returned, if any; or a panic, on a balance that is nil.
pub data Verdict : Type 0 where
  passed panics : Verdict
  refused : TxError → Verdict

-- `none` where the fuel does not suffice; the inner `none` is the time-out.
unfoldable pub await_receipt : (ℕ → Option ℕ) → (ℕ → Bool) → ℕ → ℕ → Option (Option ℕ)
await_receipt receipt late zero k = none
await_receipt receipt late (suc left) k = elim (receipt k) [
  | some gas_used ↦ some (some gas_used)
  | none ↦ elim (late k) [ true ↦ some none | false ↦ await_receipt receipt late left (k + 1) ]
]

-- `CheckBalance` returns nil.
abbrev pub check_balance : ℕ → ℤ → Bool
check_balance balance (pos expected) = balance == expected
check_balance balance (negsuc expected) = false

unfoldable pub await_balance : (ℕ → Option ℕ) → (ℕ → Bool) → ℤ → TxError → ℕ → ℕ → Option Verdict
await_balance balance late expected err zero k = none
await_balance balance late expected err (suc left) k = elim (balance k) [
  | none ↦ some panics
  | some b ↦ elim (check_balance b expected) [
    | true ↦ some passed
    | false ↦ elim (late k) [
      | true ↦ some (refused err)
      | false ↦ await_balance balance late expected err left (k + 1)
    ]
  ]
]

abbrev pub time_out : TxError
time_out = failed "Time out : It took more than 100 seconds to make a block "

abbrev pub time_out_from : TxError
time_out_from =
    failed "Time out (from) : It took more than 10 seconds to retrieve the correct receipt "

abbrev pub time_out_to : TxError
time_out_to = failed "Time out (to) : It took more than 10 seconds to retrieve the correct receipt "

module _ (c : Polls) (fuel : ℕ) (same : Bool) where
  -- The receiver is another account and has the balance expected.
  abbrev pub check_to : ℕ → Option Verdict → Option Verdict
  check_to expected none = none
  check_to expected (some panics) = some panics
  check_to expected (some (refused err)) = some (refused err)
  check_to expected (some passed) =
      if same
      then some passed
      else await_balance c.to_balance c.to_late (pos expected) time_out_to fuel 0

  abbrev pub check_both : ℕ → ℕ → Option ℕ → Option ℕ → Option Verdict
  check_both value fee none to = some panics
  check_both value fee (some from) none = some panics
  check_both value fee (some from) (some to) =
      check_to (to + value)
        (await_balance c.from_balance c.from_late (sub_ℕ from (value + fee)) time_out_from fuel 0)

  -- A transfer to the account itself moves nothing.
  abbrev pub after_receipt : ℕ → ℕ → Option (Option ℕ) → Option Verdict
  after_receipt value price none = none
  after_receipt value price (some none) = some (refused time_out)
  after_receipt value price (some (some gas_used)) =
      check_both (if same then 0 else value) (gas_used * price) c.from_former_balance
        c.to_former_balance

  abbrev pub after_transfer : ℕ → ℕ → Option TxError → Option Verdict
  after_transfer value price (some err) = some (refused err)
  after_transfer value price none =
      after_receipt value price (await_receipt c.receipt c.receipt_late fuel 0)

-- Each loop has the same fuel.
unfoldable pub transfer_and_check : Env → Polls → ℕ → Account → ℕ → M (Option Verdict)
transfer_and_check e c fuel to value = do
  from ← get_self
  r ← transfer_signed_tx_without_lock e to value none
  pure (after_transfer c fuel (to.address == from.address) value r.price r.error)
