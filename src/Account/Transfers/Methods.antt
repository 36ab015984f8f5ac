-- ===== src/Account/Transfers/Methods.antt =====
-- The methods that send through `sendTransaction`, as data.
use kaia_load_tester.Prelude.{ℕ, Option, List}
use kaia_load_tester.Account.Types.{Account, Env, M, ◌>>=◌, pure}
use kaia_load_tester.Account.Transfers.{
  Reply, reply, transfer_new_value_transfer_tx, transfer_new_fee_delegated_value_transfer_tx,
  transfer_new_fee_delegated_value_transfer_with_ratio_tx, transfer_new_value_transfer_memo_tx,
  transfer_new_value_transfer_big_random_string_memo_tx, transfer_new_value_transfer_small_memo_tx,
  transfer_new_value_transfer_large_memo_tx, transfer_new_fee_delegated_value_transfer_memo_tx,
  transfer_new_fee_delegated_value_transfer_memo_with_ratio_tx,
}
use kaia_load_tester.Account.Transfers.Contracts.{
  transfer_new_account_creation_tx, transfer_new_account_update_tx,
  transfer_new_fee_delegated_account_update_tx,
  transfer_new_fee_delegated_account_update_with_ratio_tx,
  transfer_new_fee_delegated_smart_contract_deploy_tx,
  transfer_new_fee_delegated_smart_contract_deploy_with_ratio_tx, execute_storage_trie_store,
  transfer_new_smart_contract_execution_tx, transfer_new_fee_delegated_smart_contract_execution_tx,
  transfer_new_fee_delegated_smart_contract_execution_with_ratio_tx, transfer_new_cancel_tx,
  transfer_new_fee_delegated_cancel_tx, transfer_new_fee_delegated_cancel_with_ratio_tx,
}

-- The methods, with their arguments.
pub data Method : Type 0 where
  value_transfer_tx : Account → ℕ → Method
  fee_delegated_value_transfer_tx : Account → ℕ → Method
  fee_delegated_value_transfer_with_ratio_tx : Account → ℕ → Method
  memo_tx : Account → ℕ → Method
  big_random_string_memo_tx small_memo_tx large_memo_tx : (ℕ → ℕ) → Account → ℕ → Method
  fee_delegated_memo_tx : Account → ℕ → Method
  fee_delegated_memo_with_ratio_tx : Account → ℕ → Method
  account_creation_tx : Account → ℕ → Method
  account_update_tx : Account → ℕ → Method
  fee_delegated_account_update_tx : Account → ℕ → Method
  fee_delegated_account_update_with_ratio_tx : Account → ℕ → Method
  fee_delegated_deploy_tx : List ℕ → Account → ℕ → Method
  fee_delegated_deploy_with_ratio_tx : List ℕ → Account → ℕ → Method
  storage_trie_store : (ℕ → ℕ) → (ℕ → ℕ) → (ℕ → ℕ) → Account → ℕ → Method
  execution_tx : Account → Option ℕ → List ℕ → Method
  fee_delegated_execution_tx : Account → ℕ → Method
  fee_delegated_execution_with_ratio_tx : Account → ℕ → Method
  cancel_tx : Account → ℕ → Method
  fee_delegated_cancel_tx : Account → ℕ → Method
  fee_delegated_cancel_with_ratio_tx : Account → ℕ → Method

-- The one that returns the transaction itself is read as the others are, by its hash and error.
abbrev pub call : Env → Method → M Reply
call e (value_transfer_tx to v) = transfer_new_value_transfer_tx e to v
call e (fee_delegated_value_transfer_tx to v) = transfer_new_fee_delegated_value_transfer_tx e to v
call e (fee_delegated_value_transfer_with_ratio_tx to v) =
    transfer_new_fee_delegated_value_transfer_with_ratio_tx e to v
call e (memo_tx to v) = transfer_new_value_transfer_memo_tx e to v
call e (big_random_string_memo_tx draws to v) =
    transfer_new_value_transfer_big_random_string_memo_tx e draws to v
call e (small_memo_tx draws to v) = transfer_new_value_transfer_small_memo_tx e draws to v
call e (large_memo_tx draws to v) = transfer_new_value_transfer_large_memo_tx e draws to v
call e (fee_delegated_memo_tx to v) = transfer_new_fee_delegated_value_transfer_memo_tx e to v
call e (fee_delegated_memo_with_ratio_tx to v) =
    transfer_new_fee_delegated_value_transfer_memo_with_ratio_tx e to v
call e (account_creation_tx to v) = transfer_new_account_creation_tx e to v
call e (account_update_tx to v) = transfer_new_account_update_tx e to v
call e (fee_delegated_account_update_tx to v) = transfer_new_fee_delegated_account_update_tx e to v
call e (fee_delegated_account_update_with_ratio_tx to v) =
    transfer_new_fee_delegated_account_update_with_ratio_tx e to v
call e (fee_delegated_deploy_tx code to v) =
    transfer_new_fee_delegated_smart_contract_deploy_tx e code to v
call e (fee_delegated_deploy_with_ratio_tx code to v) =
    transfer_new_fee_delegated_smart_contract_deploy_with_ratio_tx e code to v
call e (storage_trie_store serial key hash to v) = execute_storage_trie_store e serial key hash to v
call e (execution_tx to value input) = do
  r ← transfer_new_smart_contract_execution_tx e to value input
  pure (reply e r)
call e (fee_delegated_execution_tx to v) =
    transfer_new_fee_delegated_smart_contract_execution_tx e to v
call e (fee_delegated_execution_with_ratio_tx to v) =
    transfer_new_fee_delegated_smart_contract_execution_with_ratio_tx e to v
call e (cancel_tx to v) = transfer_new_cancel_tx e to v
call e (fee_delegated_cancel_tx to v) = transfer_new_fee_delegated_cancel_tx e to v
call e (fee_delegated_cancel_with_ratio_tx to v) =
    transfer_new_fee_delegated_cancel_with_ratio_tx e to v
