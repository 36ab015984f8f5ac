-- ===== src/TestCase/Requests/ContractCalls.antt =====
-- testcase/run_execute_contract.go: `RunBaseWithContract` and the functions that it is run with, and
-- `RunUserStorageSetGetTC`. `RunErc721TransferTC` is in Erc721Ledger/Transfer.
use kaia_load_tester.Prelude.{ℕ, suc, ◌+◌, ◌%◌, Option, none, some, List, [], ◌∷◌, String}
use kaia_load_tester.Account.Types.{Account, Env, TxError, M, ◌>>=◌, pure}
use kaia_load_tester.Account.Transfers.Contracts.{
  execute_storage_trie_store, transfer_new_smart_contract_execution_tx,
  transfer_new_fee_delegated_smart_contract_execution_tx,
  transfer_new_fee_delegated_smart_contract_execution_with_ratio_tx,
}
use kaia_load_tester.Account.Gasless.{transfer_new_gasless_tx, transfer_new_gasless_approve_tx}
use kaia_load_tester.AccGroup.AccountSet.{get_account_randomly}
use kaia_load_tester.Contracts.Names.{
  contract_gasless_token, contract_gasless_swap_router, contract_storage_trie,
  contract_user_storage, contract_internal_tx_kip17, contract_internal_tx_main,
}
use kaia_load_tester.Contracts.GenData.{
  gen_general, gen_erc20, gen_tether_proxy, gen_cpu_heavy, gen_large_memo, gen_user_storage,
  gen_internal_tx_kip17, gen_internal_tx_main,
}
use kaia_load_tester.TestCase.Config.{TcConfig, contract_account}
use kaia_load_tester.TestCase.TcList
use kaia_load_tester.TestCase.TcList.{ContractCall}
use kaia_load_tester.TestCase.Requests.{Task, Ran, panicked, with_client, by_drawn, Draws}
use kaia_load_tester.TestCase.Requests.ValueTransfers.{error_of}

-- The account that a function calls, and the swap router of the gasless ones. Most take the first
-- contract of the list, an index that panics where the list is empty; the result is `none` there,
-- and where a contract is nil, whose address the code then reads.
abbrev pub with_same : Option Account → Option (Account × Account)
with_same none = none
with_same (some to) = some (to, to)

abbrev pub both : Option Account → Option Account → Option (Account × Account)
both none _ = none
both (some to) none = none
both (some to) (some other) = some (to, other)

abbrev pub first_contract : TcConfig Account ℕ → List ℕ → Option (Account × Account)
first_contract c [] = none
first_contract c (t ∷ types) = with_same (contract_account t c)

abbrev pub token_and_router : TcConfig Account ℕ → Option (Account × Account)
token_and_router c =
    both (contract_account contract_gasless_token c)
      (contract_account contract_gasless_swap_router c)

unfoldable pub callee : ContractCall → TcConfig Account ℕ → Option (Account × Account)
callee TcList.run_gasless_transaction c = token_and_router c
callee TcList.run_gasless_revert_transaction c = token_and_router c
callee TcList.run_gasless_only_approve c = token_and_router c
callee TcList.run_internal_tx c = with_same (contract_account contract_internal_tx_main c)
callee TcList.run_mint_nft c = with_same (contract_account contract_internal_tx_kip17 c)
callee TcList.run_storage_trie_write c = with_same (contract_account contract_storage_trie c)
callee TcList.run_user_storage_set_get c = with_same (contract_account contract_user_storage c)
callee _ c = first_contract c c.test_contracts

module _ (e : Env) where
  abbrev pub execute : Account → Option ℕ → M (List ℕ) → M (Option TxError)
  execute to value gen_data = do
    call ← gen_data
    r ← transfer_new_smart_contract_execution_tx e to value call
    pure r.error

  -- The second call of `RunUserStorageSetGetTC` is made only if the first was taken.
  abbrev pub unless_error : M (Option TxError) → Option TxError → M (Option TxError)
  unless_error next none = next
  unless_error next (some err) = pure (some err)

  -- The `txFunc` of each test case; `receiver` is a second account of the set.
  unfoldable pub contract_func :
      ContractCall → Draws → Account × Account → Account → Account → M (Option TxError)
  contract_func TcList.run_new_smart_contract_execution d (to, other) receiver from =
      execute to none (gen_general e from.address)
  contract_func TcList.run_new_fee_delegated_smart_contract_execution d (to, other) receiver from =
      error_of (transfer_new_fee_delegated_smart_contract_execution_tx e to 0)
  contract_func TcList.run_new_fee_delegated_smart_contract_execution_with_ratio d (to, other)
        receiver from =
      error_of (transfer_new_fee_delegated_smart_contract_execution_with_ratio_tx e to 0)
  contract_func TcList.run_cpu_heavy d (to, other) receiver from =
      execute to (some 0) (gen_cpu_heavy e 100)
  contract_func TcList.run_large_memo d (to, other) receiver from =
      execute to (some 0) (gen_large_memo e (50 + d.value % 1951))
  contract_func TcList.run_erc20_transfer d (to, other) receiver from =
      execute to none (gen_erc20 e receiver.address (d.value % 3))
  contract_func TcList.run_erc20_transfer_with_blocked_list d (to, other) receiver from =
      execute to none (gen_tether_proxy e receiver.address (d.value % 3))
  contract_func TcList.run_gasless_transaction d (token, gsr) receiver from = do
    r ← transfer_new_gasless_tx e token gsr
    pure r.error
  contract_func TcList.run_gasless_revert_transaction d (token, gsr) receiver from = do
    r ← transfer_new_gasless_tx e token gsr
    pure r.error
  contract_func TcList.run_gasless_only_approve d (token, gsr) receiver from =
      error_of (transfer_new_gasless_approve_tx e token gsr)
  contract_func TcList.run_internal_tx d (to, other) receiver from =
      execute to (some 100) (gen_internal_tx_main e (d.more 0) (d.more 1))
  contract_func TcList.run_mint_nft d (to, other) receiver from =
      execute to none (gen_internal_tx_kip17 e)
  contract_func TcList.run_storage_trie_write d (to, other) receiver from = error_of (
      execute_storage_trie_store e d.more (λ i. d.more (suc i)) (λ i. d.more (suc (suc i))) to
        (d.value % 3))
  contract_func TcList.run_user_storage_set d (to, other) receiver from =
      execute to none (gen_user_storage e from.address 1 (d.more 0))
  contract_func TcList.run_user_storage_set_get d (to, other) receiver from = do
    err ← execute to none (gen_user_storage e from.address 1 (d.more 0))
    unless_error (execute to none (gen_user_storage e from.address 0 (d.more 1))) err

  -- The second account is drawn where the function draws one; the set is the same.
  abbrev pub name_of : ContractCall → Task → String
  name_of TcList.run_user_storage_set_get t = "userStorageSetGet"
  name_of _ t = t.config.name

  abbrev pub with_receiver : ContractCall → Draws → Task → Account × Account → Option Account → Ran
  with_receiver tc d t to none = panicked t
  with_receiver tc d t to (some receiver) =
      by_drawn (name_of tc t) d.from (contract_func tc d to receiver) t

  abbrev pub to_callee : ContractCall → Draws → Task → Option (Account × Account) → Ran
  to_callee tc d t none = panicked t
  to_callee tc d t (some to) = with_receiver tc d t to (get_account_randomly d.to t.config.acc_grp)

  -- `RunBaseWithContract` with the function of the test case, and `RunUserStorageSetGetTC`.
  unfoldable pub run_base_with_contract : ContractCall → Draws → Task → Ran
  run_base_with_contract tc d = with_client (λ t. to_callee tc d t (callee tc t.config))
