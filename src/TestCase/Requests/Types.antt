-- ===== src/TestCase/Requests/Types.antt =====
-- The type of transaction that each test case is named for, and that its requests send.
use kaia_load_tester.Prelude.{
  ℕ, ◌%◌, ◌≡◌, refl, subst, inl, inr, Option, none, some, [], Option-cases,
}
use kaia_load_tester.Account.Types.{
  Account, TxType, value_transfer, fee_delegated_value_transfer,
  fee_delegated_value_transfer_with_ratio, value_transfer_memo, fee_delegated_value_transfer_memo,
  fee_delegated_value_transfer_memo_with_ratio, account_update, fee_delegated_account_update,
  fee_delegated_account_update_with_ratio, fee_delegated_smart_contract_deploy,
  fee_delegated_smart_contract_deploy_with_ratio, cancel, fee_delegated_cancel,
  fee_delegated_cancel_with_ratio, Env, TxError, World, M,
}
use kaia_load_tester.Account.Transfers.{
  create_memo_transfer_tx, transfer_new_value_transfer_tx,
  transfer_new_fee_delegated_value_transfer_tx,
  transfer_new_fee_delegated_value_transfer_with_ratio_tx, transfer_new_value_transfer_memo_tx,
  transfer_new_value_transfer_small_memo_tx, transfer_new_value_transfer_large_memo_tx,
  transfer_new_fee_delegated_value_transfer_memo_tx,
  transfer_new_fee_delegated_value_transfer_memo_with_ratio_tx,
}
use kaia_load_tester.Account.Transfers.Contracts.{
  transfer_new_account_update_tx, transfer_new_fee_delegated_account_update_tx,
  transfer_new_fee_delegated_account_update_with_ratio_tx,
  transfer_new_fee_delegated_smart_contract_deploy_tx,
  transfer_new_fee_delegated_smart_contract_deploy_with_ratio_tx, transfer_new_cancel_tx,
  transfer_new_fee_delegated_cancel_tx, transfer_new_fee_delegated_cancel_with_ratio_tx,
}
use kaia_load_tester.AccGroup.AccountSet.{len, get_account_randomly}
use kaia_load_tester.Clipool.{alloc}
use kaia_load_tester.TestCase.TcList
use kaia_load_tester.TestCase.TcList.{ValueTransfer, ContractCall}
use kaia_load_tester.TestCase.Requests.{Task, put_pool, Draws}
use kaia_load_tester.TestCase.Requests.ValueTransfers.{
  Given, tx_func, to_drawn, run_base_value_transfer,
}
use kaia_load_tester.TestCase.Requests.Laws.{
  SendsType, undrawn, send_reply-SendsType, InRequest, Requested, by_drawn-InRequest,
  with_client-Requested,
}

-- The others sign and submit by themselves, or send two transactions.
abbrev pub type_of : ValueTransfer → Option TxType
type_of TcList.run_new_value_transfer = some value_transfer
type_of TcList.run_new_fee_delegated_value_transfer = some fee_delegated_value_transfer
type_of TcList.run_new_fee_delegated_value_transfer_with_ratio =
    some fee_delegated_value_transfer_with_ratio
type_of TcList.run_new_cancel = some cancel
type_of TcList.run_new_value_transfer_with_cancel = none
type_of TcList.run_new_fee_delegated_cancel = some fee_delegated_cancel
type_of TcList.run_new_fee_delegated_cancel_with_ratio = some fee_delegated_cancel_with_ratio
type_of TcList.run_new_smart_contract_deploy = none
type_of TcList.run_new_fee_delegated_smart_contract_deploy =
    some fee_delegated_smart_contract_deploy
type_of TcList.run_new_fee_delegated_smart_contract_deploy_with_ratio =
    some fee_delegated_smart_contract_deploy_with_ratio
type_of TcList.run_new_value_transfer_memo = some value_transfer_memo
type_of TcList.run_new_fee_delegated_value_transfer_memo = some fee_delegated_value_transfer_memo
type_of TcList.run_new_fee_delegated_value_transfer_memo_with_ratio =
    some fee_delegated_value_transfer_memo_with_ratio
type_of TcList.run_new_value_transfer_large_memo = some value_transfer_memo
type_of TcList.run_new_value_transfer_small_memo = some value_transfer_memo
type_of TcList.run_new_account_update = some account_update
type_of TcList.run_new_fee_delegated_account_update = some fee_delegated_account_update
type_of TcList.run_new_fee_delegated_account_update_with_ratio =
    some fee_delegated_account_update_with_ratio
type_of TcList.run_transfer_signed = none
type_of TcList.run_transfer_unsigned = none

abbrev pub SendsIts : Env → Option TxType → World → M (Option TxError) → Type 0
SendsIts e none w m = Unit
SendsIts e (some type) w m = SendsType e type w (m w)

module _ (e : Env) (g : Given) where
  tx_func-SendsIts :
      (tc : ValueTransfer) (more : ℕ → ℕ) (to : Account) (value : ℕ) (from : Account) (w : World)
      → SendsIts e (type_of tc) w (tx_func e g tc more to value from)
  unfolding tx_func transfer_new_value_transfer_tx transfer_new_fee_delegated_value_transfer_tx
      transfer_new_fee_delegated_value_transfer_with_ratio_tx create_memo_transfer_tx
      transfer_new_value_transfer_memo_tx transfer_new_value_transfer_small_memo_tx
      transfer_new_value_transfer_large_memo_tx transfer_new_fee_delegated_value_transfer_memo_tx
      transfer_new_fee_delegated_value_transfer_memo_with_ratio_tx transfer_new_account_update_tx
      transfer_new_fee_delegated_account_update_tx
      transfer_new_fee_delegated_account_update_with_ratio_tx
      transfer_new_fee_delegated_smart_contract_deploy_tx
      transfer_new_fee_delegated_smart_contract_deploy_with_ratio_tx transfer_new_cancel_tx
      transfer_new_fee_delegated_cancel_tx transfer_new_fee_delegated_cancel_with_ratio_tx
  tx_func-SendsIts TcList.run_new_value_transfer_with_cancel more to value from w = tt
  tx_func-SendsIts TcList.run_new_smart_contract_deploy more to value from w = tt
  tx_func-SendsIts TcList.run_transfer_signed more to value from w = tt
  tx_func-SendsIts TcList.run_transfer_unsigned more to value from w = tt
  tx_func-SendsIts _ more to value from w = send_reply-SendsType e _ _ _ w

  to_drawn-InRequest :
      (tc : ValueTransfer) (type : TxType) (d : Draws) (t : Task)
      → type_of tc ≡ some type
      → InRequest e type
          (t.config.acc_grp.accounts ≡ [])
          t.config.name
          (d.from % len t.config.acc_grp)
          t
          (to_drawn e g tc d t (get_account_randomly d.to t.config.acc_grp))
  to_drawn-InRequest tc type d t known =
      elim (Option-cases (get_account_randomly d.to t.config.acc_grp)) [
        | inl nobody ↦ rw nobody (undrawn d.to _ _ nobody, (refl, refl, refl), refl)
        | inr (to, found) ↦ rw found (
            by_drawn-InRequest e type (t.config.acc_grp.accounts ≡ []) t.config.name d.from _ t
              (λ empty. empty)
              (λ from w.
                subst (λ o. SendsIts e o w (tx_func e g tc d.more to (d.value % 3) from)) known
                  (tx_func-SendsIts tc d.more to (d.value % 3) from w)))
      ]

  -- A request of a value transfer test case with a type gives the client back, and it panics only
  -- where the set of accounts is empty, and then leaves the rest. If it neither panics nor ends the
  -- process, at most one transaction is sent, by the drawn account, of the type of the test case, one
  -- event is published, a success just if the transaction was sent and taken, and no other account
  -- changes. The process ends only where call data cannot be packed.
  pub run_base_value_transfer-Requested :
      (tc : ValueTransfer) (type : TxType) (d : Draws) (t : Task)
      → type_of tc ≡ some type
      → Requested e type
          (t.config.acc_grp.accounts ≡ [])
          t.config.name
          (d.from % len t.config.acc_grp)
          t
          (run_base_value_transfer e g tc d t)
  unfolding run_base_value_transfer
  run_base_value_transfer-Requested tc type d t known =
      with_client-Requested e type (t.config.acc_grp.accounts ≡ []) t.config.name
        (d.from % len t.config.acc_grp) _ t
        (to_drawn-InRequest tc type d (put_pool (alloc t.config.cli_pool).1 t) known)
