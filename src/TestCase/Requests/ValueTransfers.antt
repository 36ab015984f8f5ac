-- ===== src/TestCase/Requests/ValueTransfers.antt =====
-- testcase/run_value_transfer.go: `RunBaseValueTransfer` and the functions that it is run with.
use kaia_load_tester.Prelude.{ℕ, ◌%◌, false, Option, none, some, List}
use kaia_load_tester.Account.Types.{Account, Env, SendError, TxError, M, ◌>>=◌, pure}
use kaia_load_tester.Account.Send.{to_error}
use kaia_load_tester.Account.Transfers.{
  Reply, transfer_new_value_transfer_tx, transfer_new_fee_delegated_value_transfer_tx,
  transfer_new_fee_delegated_value_transfer_with_ratio_tx, transfer_new_value_transfer_memo_tx,
  transfer_new_value_transfer_small_memo_tx, transfer_new_value_transfer_large_memo_tx,
  transfer_new_fee_delegated_value_transfer_memo_tx,
  transfer_new_fee_delegated_value_transfer_memo_with_ratio_tx,
}
use kaia_load_tester.Account.Transfers.Contracts.{
  transfer_new_account_update_tx, transfer_new_fee_delegated_account_update_tx,
  transfer_new_fee_delegated_account_update_with_ratio_tx,
  transfer_new_fee_delegated_smart_contract_deploy_tx,
  transfer_new_fee_delegated_smart_contract_deploy_with_ratio_tx, transfer_new_cancel_tx,
  transfer_new_fee_delegated_cancel_tx, transfer_new_fee_delegated_cancel_with_ratio_tx,
}
use kaia_load_tester.Account.Direct.{
  transfer_signed_tx, transfer_new_value_transfer_with_cancel_tx,
  transfer_new_smart_contract_deploy_tx,
}
use kaia_load_tester.AccGroup.AccountSet.{get_account_randomly}
use kaia_load_tester.TestCase.TcList
use kaia_load_tester.TestCase.TcList.{ValueTransfer}
use kaia_load_tester.TestCase.Requests.{Task, Ran, panicked, with_client, by_drawn, Draws}

-- What the build files and the node give: the bytecodes of the general contract and of the fee
-- delegated deployments, a new account, and the node's answer to a transfer that it signs itself:
-- from, to and amount.
pub record Given : Type 0 where
  pub bytecode : List ℕ
  pub fee_delegated_code : List ℕ
  pub new_account : Account
  pub send_unsigned : ℕ → ℕ → ℕ → Option SendError

abbrev pub error_of : M Reply → M (Option TxError)
error_of m = do r ← m; pure r.error

module _ (e : Env) (g : Given) where
  -- `TransferUnsignedTx`: the node signs, and counts the nonce itself.
  unfoldable pub transfer_unsigned_tx : Account → Account → ℕ → M (Option TxError)
  transfer_unsigned_tx from to value =
      pure (to_error (g.send_unsigned from.address to.address value))

  -- The `txFunc` of each test case.
  unfoldable pub tx_func : ValueTransfer → (ℕ → ℕ) → Account → ℕ → Account → M (Option TxError)
  tx_func TcList.run_new_value_transfer more to value from =
      error_of (transfer_new_value_transfer_tx e to value)
  tx_func TcList.run_new_fee_delegated_value_transfer more to value from =
      error_of (transfer_new_fee_delegated_value_transfer_tx e to value)
  tx_func TcList.run_new_fee_delegated_value_transfer_with_ratio more to value from =
      error_of (transfer_new_fee_delegated_value_transfer_with_ratio_tx e to value)
  tx_func TcList.run_new_cancel more to value from = error_of (transfer_new_cancel_tx e to value)
  tx_func TcList.run_new_value_transfer_with_cancel more to value from =
      error_of (transfer_new_value_transfer_with_cancel_tx e to value)
  tx_func TcList.run_new_fee_delegated_cancel more to value from =
      error_of (transfer_new_fee_delegated_cancel_tx e to value)
  tx_func TcList.run_new_fee_delegated_cancel_with_ratio more to value from =
      error_of (transfer_new_fee_delegated_cancel_with_ratio_tx e to value)
  tx_func TcList.run_new_smart_contract_deploy more to value from = do
    r ← transfer_new_smart_contract_deploy_tx e g.new_account value g.bytecode false
    pure r.error
  tx_func TcList.run_new_fee_delegated_smart_contract_deploy more to value from =
      error_of (transfer_new_fee_delegated_smart_contract_deploy_tx e g.fee_delegated_code to value)
  tx_func TcList.run_new_fee_delegated_smart_contract_deploy_with_ratio more to value from =
      error_of (
        transfer_new_fee_delegated_smart_contract_deploy_with_ratio_tx e g.fee_delegated_code to
          value)
  tx_func TcList.run_new_value_transfer_memo more to value from =
      error_of (transfer_new_value_transfer_memo_tx e to value)
  tx_func TcList.run_new_fee_delegated_value_transfer_memo more to value from =
      error_of (transfer_new_fee_delegated_value_transfer_memo_tx e to value)
  tx_func TcList.run_new_fee_delegated_value_transfer_memo_with_ratio more to value from =
      error_of (transfer_new_fee_delegated_value_transfer_memo_with_ratio_tx e to value)
  tx_func TcList.run_new_value_transfer_large_memo more to value from =
      error_of (transfer_new_value_transfer_large_memo_tx e more to value)
  tx_func TcList.run_new_value_transfer_small_memo more to value from =
      error_of (transfer_new_value_transfer_small_memo_tx e more to value)
  tx_func TcList.run_new_account_update more to value from =
      error_of (transfer_new_account_update_tx e to value)
  tx_func TcList.run_new_fee_delegated_account_update more to value from =
      error_of (transfer_new_fee_delegated_account_update_tx e to value)
  tx_func TcList.run_new_fee_delegated_account_update_with_ratio more to value from =
      error_of (transfer_new_fee_delegated_account_update_with_ratio_tx e to value)
  tx_func TcList.run_transfer_signed more to value from =
      error_of (transfer_signed_tx e to value none)
  tx_func TcList.run_transfer_unsigned more to value from = transfer_unsigned_tx from to value

  -- Both accounts are drawn; from an empty set both are nil.
  abbrev pub to_drawn : ValueTransfer → Draws → Task → Option Account → Ran
  to_drawn tc d t none = panicked t
  to_drawn tc d t (some to) = by_drawn t.config.name d.from (tx_func tc d.more to (d.value % 3)) t

  -- `RunBaseValueTransfer` with the function of the test case.
  unfoldable pub run_base_value_transfer : ValueTransfer → Draws → Task → Ran
  run_base_value_transfer tc d =
      with_client (λ t. to_drawn tc d t (get_account_randomly d.to t.config.acc_grp))
