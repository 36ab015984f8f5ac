-- ===== src/TestCase/TcList.antt =====
-- testcase/tclist.go: the test cases that a slave can run. Every entry has the same `Init`.
use kaia_load_tester.Prelude.{
  ℕ, Option, none, some, List, [], ◌∷◌, String, str_eq, if◌then◌else◌, ℤ, pos,
}
use kaia_load_tester.AccGroup.Deploy.{contract_general}
use kaia_load_tester.Contracts.Names.{
  contract_erc20, contract_erc721, contract_storage_trie, contract_gasless_token,
  contract_gasless_swap_router, contract_counter_for_test_auction, contract_auction_entry_point,
  contract_cpu_heavy, contract_large_memo, contract_read_api_call_contract, contract_user_storage,
  contract_internal_tx_kip17, contract_internal_tx_main, contract_tether_logic,
  contract_tether_proxy,
}

-- The functions of testcase/run_value_transfer.go.
pub data ValueTransfer : Type 0 where
  run_new_value_transfer run_new_value_transfer_memo run_new_fee_delegated_value_transfer
        run_new_fee_delegated_value_transfer_with_ratio run_new_fee_delegated_value_transfer_memo
        run_new_fee_delegated_value_transfer_memo_with_ratio
        run_new_fee_delegated_smart_contract_deploy
        run_new_fee_delegated_smart_contract_deploy_with_ratio run_new_value_transfer_with_cancel
        run_new_value_transfer_large_memo run_new_value_transfer_small_memo run_new_cancel
        run_new_fee_delegated_cancel run_new_fee_delegated_cancel_with_ratio
        run_new_smart_contract_deploy run_new_account_update run_new_fee_delegated_account_update
        run_new_fee_delegated_account_update_with_ratio run_transfer_signed run_transfer_unsigned :
      ValueTransfer

-- The functions of testcase/run_execute_contract.go, less the one with the ledger of tokens.
pub data ContractCall : Type 0 where
  run_new_smart_contract_execution run_erc20_transfer run_erc20_transfer_with_blocked_list
        run_cpu_heavy run_new_fee_delegated_smart_contract_execution
        run_new_fee_delegated_smart_contract_execution_with_ratio run_large_memo
        run_gasless_transaction run_gasless_revert_transaction run_gasless_only_approve
        run_internal_tx run_mint_nft run_storage_trie_write run_user_storage_set
        run_user_storage_set_get :
      ContractCall

-- The functions of testcase/run_ethereum.go.
pub data Ethereum : Type 0 where
  run_ethereum_tx_legacy run_ethereum_tx_access_list run_ethereum_tx_dynamic_fee
        run_new_ethereum_access_list run_new_ethereum_dynamic_fee :
      Ethereum

-- The functions of testcase/run_read_api_call.go.
pub data ReadApi : Type 0 where
  run_gas_price run_block_number run_get_block_by_number run_get_account
        run_get_block_with_consensus_info_by_number run_get_storage_at run_call run_estimate_gas :
      ReadApi

-- The functions of testcase/run_auction.go.
pub data Auction : Type 0 where
  run_auction_bid run_auction_reverted_bid : Auction

-- The functions of testcase/run_receipt_check.go.
pub data Receipt : Type 0 where
  run_receipt_check run_transfer_signed_with_check : Receipt

-- The functions that an entry names as `Run`.
pub data Run : Type 0 where
  run_erc721_transfer : Run
  value_transfer : ValueTransfer → Run
  contract_call : ContractCall → Run
  ethereum : Ethereum → Run
  read_api : ReadApi → Run
  auction : Auction → Run
  receipt : Receipt → Run

-- `ExtendedTask`; a weight from the flags may be negative.
pub record ExtendedTask : Type 0 where
  pub name : String
  pub weight : ℤ
  pub run : Run
  pub test_contracts : List ℕ

abbrev pub task : String → ℕ → Run → List ℕ → ExtendedTask
task name weight run contracts = record {
  name = name;
  weight = pos weight;
  run = run;
  test_contracts = contracts;
}

-- `TcList`: the keys and the entries.
abbrev pub tc_list : List (String × ExtendedTask)
tc_list =
    (
      "newValueTransferTC",
      task "newValueTransferTC" 10 (value_transfer run_new_value_transfer) ([]),
    )
    ∷ (
      "newValueTransferMemoTC",
      task "newValueTransferMemoTC" 10 (value_transfer run_new_value_transfer_memo) ([]),
    )
    ∷ (
      "newSmartContractExecutionTC",
      task "newSmartContractExecutionTC" 10 (contract_call run_new_smart_contract_execution)
          (contract_general ∷ []),
    )
    ∷ (
      "erc20TransferTC",
      task "erc20TransferTC" 10 (contract_call run_erc20_transfer) (contract_erc20 ∷ []),
    )
    ∷ (
      "erc20TransferWithBlockedListTC",
      task "erc20TransferWithBlockedListTC" 10 (contract_call run_erc20_transfer_with_blocked_list)
          (contract_tether_proxy ∷ contract_tether_logic ∷ []),
    )
    ∷ ("cpuHeavyTC", task "cpuHeavyTC" 10 (contract_call run_cpu_heavy) (contract_cpu_heavy ∷ []))
    ∷ (
      "newFeeDelegatedValueTransferTC",
      task "newFeeDelegatedValueTransferTC" 10 (value_transfer run_new_fee_delegated_value_transfer)
          ([]),
    )
    ∷ (
      "newFeeDelegatedValueTransferWithRatioTC",
      task "newFeeDelegatedValueTransferWithRatioTC" 10
          (value_transfer run_new_fee_delegated_value_transfer_with_ratio) ([]),
    )
    ∷ (
      "newFeeDelegatedValueTransferMemoTC",
      task "newFeeDelegatedValueTransferMemoTC" 10
          (value_transfer run_new_fee_delegated_value_transfer_memo) ([]),
    )
    ∷ (
      "newFeeDelegatedValueTransferMemoWithRatioTC",
      task "newFeeDelegatedValueTransferMemoWithRatioTC" 10
          (value_transfer run_new_fee_delegated_value_transfer_memo_with_ratio) ([]),
    )
    ∷ (
      "newFeeDelegatedSmartContractDeployTC",
      task "newFeeDelegatedSmartContractDeployTC" 10
          (value_transfer run_new_fee_delegated_smart_contract_deploy) ([]),
    )
    ∷ (
      "newFeeDelegatedSmartContractDeployWithRatioTC",
      task "newFeeDelegatedSmartContractDeployWithRatioTC" 10
          (value_transfer run_new_fee_delegated_smart_contract_deploy_with_ratio) ([]),
    )
    ∷ (
      "newFeeDelegatedSmartContractExecutionTC",
      task "newFeeDelegatedSmartContractExecutionTC" 10
          (contract_call run_new_fee_delegated_smart_contract_execution) (contract_general ∷ []),
    )
    ∷ (
      "newFeeDelegatedSmartContractExecutionWithRatioTC",
      task "newFeeDelegatedSmartContractExecutionWithRatioTC" 10
          (contract_call run_new_fee_delegated_smart_contract_execution_with_ratio)
          (contract_general ∷ []),
    )
    ∷ (
      "newValueTransferWithCancelTC",
      task "newValueTransferWithCancelTC" 10 (value_transfer run_new_value_transfer_with_cancel)
          ([]),
    )
    ∷ (
      "newValueTransferLargeMemoTC",
      task "newValueTransferLargeMemoTC" 10 (value_transfer run_new_value_transfer_large_memo) ([]),
    )
    ∷ (
      "newValueTransferSmallMemoTC",
      task "newValueTransferSmallMemoTC" 10 (value_transfer run_new_value_transfer_small_memo) ([]),
    )
    ∷ ("newCancelTC", task "newCancelTC" 10 (value_transfer run_new_cancel) ([]))
    ∷ (
      "newFeeDelegatedCancelTC",
      task "newFeeDelegatedCancelTC" 10 (value_transfer run_new_fee_delegated_cancel) ([]),
    )
    ∷ (
      "newFeeDelegatedCancelWithRatioTC",
      task "newFeeDelegatedCancelWithRatioTC" 10
          (value_transfer run_new_fee_delegated_cancel_with_ratio) ([]),
    )
    ∷ (
      "newSmartContractDeployTC",
      task "newSmartContractDeployTC" 10 (value_transfer run_new_smart_contract_deploy) ([]),
    )
    ∷ (
      "largeMemoTC",
      task "largeMemoTC" 10 (contract_call run_large_memo) (contract_large_memo ∷ []),
    )
    ∷ ("erc721TransferTC", task "erc721TransferTC" 10 run_erc721_transfer (contract_erc721 ∷ []))
    ∷ (
      "auctionBidTC",
      task "auctionBidTC" 10 (auction run_auction_bid)
          (contract_auction_entry_point ∷ contract_counter_for_test_auction ∷ []),
    )
    ∷ (
      "auctionRevertedBidTC",
      task "auctionRevertedBidTC" 10 (auction run_auction_reverted_bid)
          (contract_auction_entry_point ∷ contract_counter_for_test_auction ∷ []),
    )
    ∷ (
      "gaslessTransactionTC",
      task "gaslessTransactionTC" 10 (contract_call run_gasless_transaction)
          (contract_gasless_token ∷ contract_gasless_swap_router ∷ []),
    )
    ∷ (
      "gaslessRevertTransactionTC",
      task "gaslessRevertTransactionTC" 10 (contract_call run_gasless_revert_transaction)
          (contract_gasless_token ∷ contract_gasless_swap_router ∷ []),
    )
    ∷ (
      "gaslessOnlyApproveTC",
      task "gaslessOnlyApproveTC" 10 (contract_call run_gasless_only_approve)
          (contract_gasless_token ∷ contract_gasless_swap_router ∷ []),
    )
    ∷ ("readGasPrice", task "readGasPrice" 10 (read_api run_gas_price) ([]))
    ∷ ("readBlockNumber", task "readBlockNumber" 10 (read_api run_block_number) ([]))
    ∷ (
      "readGetBlockByNumber",
      task "readGetBlockByNumber" 10 (read_api run_get_block_by_number) ([]),
    )
    ∷ ("readGetAccount", task "readGetAccount" 10 (read_api run_get_account) ([]))
    ∷ (
      "readGetBlockWithConsensusInfoByNumber",
      task "readGetBlockWithConsensusInfoByNumber" 10
          (read_api run_get_block_with_consensus_info_by_number) ([]),
    )
    ∷ (
      "readGetStorageAt",
      task "readGetStorageAt" 10 (read_api run_get_storage_at)
          (contract_read_api_call_contract ∷ []),
    )
    ∷ ("readCall", task "readCall" 10 (read_api run_call) (contract_read_api_call_contract ∷ []))
    ∷ (
      "readEstimateGas",
      task "readEstimateGas" 10 (read_api run_estimate_gas) (contract_read_api_call_contract ∷ []),
    )
    ∷ (
      "internalTxTC",
      task "internalTxTC" 10 (contract_call run_internal_tx) (contract_internal_tx_main ∷ []),
    )
    ∷ (
      "mintNFTTC",
      task "mintNFTTC" 10 (contract_call run_mint_nft) (contract_internal_tx_kip17 ∷ []),
    )
    ∷ (
      "storageTrieWriteTC",
      task "storageTrieWriteTC" 10 (contract_call run_storage_trie_write)
          (contract_storage_trie ∷ []),
    )
    ∷ (
      "userStorageSetTC",
      task "userStorageSetTC" 10 (contract_call run_user_storage_set) (contract_user_storage ∷ []),
    )
    ∷ (
      "userStorageSetGetTC",
      task "userStorageSetGetTC" 10 (contract_call run_user_storage_set_get)
          (contract_user_storage ∷ []),
    )
    ∷ (
      "newAccountUpdateTC",
      task "newAccountUpdateTC" 10 (value_transfer run_new_account_update) ([]),
    )
    ∷ (
      "newFeeDelegatedAccountUpdateTC",
      task "newFeeDelegatedAccountUpdateTC" 10 (value_transfer run_new_fee_delegated_account_update)
          ([]),
    )
    ∷ (
      "newFeeDelegatedAccountUpdateWithRatioTC",
      task "newFeeDelegatedAccountUpdateWithRatioTC" 10
          (value_transfer run_new_fee_delegated_account_update_with_ratio) ([]),
    )
    ∷ ("transferSignedTx", task "transferSignedTx" 10 (value_transfer run_transfer_signed) ([]))
    ∷ (
      "transferUnsignedTx",
      task "transferUnsignedTx" 10 (value_transfer run_transfer_unsigned) ([]),
    )
    ∷ ("receiptCheckTx", task "receiptCheckTx" 10 (receipt run_receipt_check) ([]))
    ∷ (
      "transferSignedWithCheckTx",
      task "transferSignedWithCheckTx" 10 (receipt run_transfer_signed_with_check) ([]),
    )
    ∷ (
      "ethereumTxLegacyTC",
      task "ethereumTxLegacyTC" 10 (ethereum run_ethereum_tx_legacy) (contract_general ∷ []),
    )
    ∷ (
      "ethereumTxAccessListTC",
      task "ethereumTxAccessListTC" 10 (ethereum run_ethereum_tx_access_list)
          (contract_general ∷ []),
    )
    ∷ (
      "ethereumTxDynamicFeeTC",
      task "ethereumTxDynamicFeeTC" 10 (ethereum run_ethereum_tx_dynamic_fee)
          (contract_general ∷ []),
    )
    ∷ (
      "newEthereumAccessListTC",
      task "newEthereumAccessListTC" 10 (ethereum run_new_ethereum_access_list)
          (contract_general ∷ []),
    )
    ∷ (
      "newEthereumDynamicFeeTC",
      task "newEthereumDynamicFeeTC" 10 (ethereum run_new_ethereum_dynamic_fee)
          (contract_general ∷ []),
    )
    ∷ []

abbrev pub find_task : List (String × ExtendedTask) → String → Option ExtendedTask
find_task [] name = none
find_task ((key, entry) ∷ rest) name = if str_eq name key then some entry else find_task rest name

-- `TcList[name]`; `none` is nil.
unfoldable pub find_tc : String → Option ExtendedTask
find_tc name = find_task tc_list name
