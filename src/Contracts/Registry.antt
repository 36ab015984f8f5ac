-- ===== src/Contracts/Registry.antt =====
-- `TestContractInfos` of klayslave/account/contract.go: which test cases and target types ask for
-- each contract, and which contracts' addresses go into its constructor.
use kaia_load_tester.Prelude.{ℕ, Bool, true, false, List, [], ◌∷◌, String}
use kaia_load_tester.AccGroup.Deploy.{TestContractInfo}
use kaia_load_tester.Contracts.Names.{
  contract_w_kaia, contract_uniswap_v2_factory, contract_uniswap_v2_router,
  contract_gasless_swap_router, contract_auction_fee_vault, contract_auction_deposit_vault,
  contract_auction_entry_point, contract_internal_tx_kip17, contract_internal_tx_main,
  contract_tether_logic, contract_tether_proxy,
}

abbrev pub info : List String → List String → Bool → Bool → TestContractInfo
info tests targets has_setup_work has_charging_work = record {
  test_names = tests;
  auction_target_tx_type_list = targets;
  has_setup_work = has_setup_work;
  has_charging_work = has_charging_work;
}

unfoldable pub test_contract_infos : List TestContractInfo
test_contract_infos =
    info ("erc20TransferTC" ∷ []) ([]) false true
    ∷ info ("erc721TransferTC" ∷ []) ([]) false true
    ∷ info ("storageTrieWriteTC" ∷ []) ([]) false false
    ∷ info
        ("newSmartContractExecutionTC" ∷ " newFeeDelegatedSmartContractExecutionTC"
          ∷ "newFeeDelegatedSmartContractExecutionWithRatioTC" ∷ "ethereumTxLegacyTC"
          ∷ "ethereumTxAccessListTC" ∷ "newEthereumAccessListTC" ∷ "newEthereumDynamicFeeTC" ∷ [])
        ([]) false false
    ∷ info ("gaslessTransactionTC" ∷ "gaslessRevertTransactionTC" ∷ "gaslessOnlyApproveTC" ∷ [])
        ("GAA" ∷ "GAS" ∷ "rGAA" ∷ "rGAS" ∷ []) false true
    ∷ info ("gaslessTransactionTC" ∷ "gaslessRevertTransactionTC" ∷ "gaslessOnlyApproveTC" ∷ [])
        ("GAA" ∷ "GAS" ∷ "rGAA" ∷ "rGAS" ∷ []) false false
    ∷ info ("gaslessTransactionTC" ∷ "gaslessRevertTransactionTC" ∷ "gaslessOnlyApproveTC" ∷ [])
        ("GAA" ∷ "GAS" ∷ "rGAA" ∷ "rGAS" ∷ []) false false
    ∷ info ("gaslessTransactionTC" ∷ "gaslessRevertTransactionTC" ∷ "gaslessOnlyApproveTC" ∷ [])
        ("GAA" ∷ "GAS" ∷ "rGAA" ∷ "rGAS" ∷ []) false false
    ∷ info ("gaslessTransactionTC" ∷ "gaslessRevertTransactionTC" ∷ "gaslessOnlyApproveTC" ∷ [])
        ("GAA" ∷ "GAS" ∷ "rGAA" ∷ "rGAS" ∷ []) true false
    ∷ info ("auctionBidTC" ∷ "auctionRevertedBidTC" ∷ []) ([]) false false
    ∷ info ("auctionBidTC" ∷ "auctionRevertedBidTC" ∷ []) ([]) false false
    ∷ info ("auctionBidTC" ∷ "auctionRevertedBidTC" ∷ []) ([]) false false
    ∷ info ("auctionBidTC" ∷ "auctionRevertedBidTC" ∷ []) ([]) true true
    ∷ info ("cpuHeavyTC" ∷ []) ([]) false false
    ∷ info ("largeMemoTC" ∷ []) ([]) false false
    ∷ info ("readCall" ∷ "readGetStorageAt" ∷ "readEstimateGas" ∷ []) ([]) false false
    ∷ info ("userStorageSetTC" ∷ "userStorageSetGetTC" ∷ []) ([]) false false
    ∷ info ("internalTxTC" ∷ "mintNFTTC" ∷ []) ([]) false false
    ∷ info ("internalTxTC" ∷ "mintNFTTC" ∷ []) ([]) false false
    ∷ info ("erc20TransferWithBlockedListTC" ∷ []) ([]) false false
    ∷ info ("erc20TransferWithBlockedListTC" ∷ []) ([]) false true
    ∷ []

-- `GetBytecodeWithConstructorParam`: a contract, and one whose address its constructor gets.
abbrev pub constructor_reads : List (ℕ × ℕ)
constructor_reads =
    (contract_uniswap_v2_router, contract_uniswap_v2_factory)
    ∷ (contract_uniswap_v2_router, contract_w_kaia)
    ∷ (contract_gasless_swap_router, contract_w_kaia)
    ∷ (contract_auction_deposit_vault, contract_auction_fee_vault)
    ∷ (contract_auction_entry_point, contract_auction_deposit_vault)
    ∷ (contract_internal_tx_main, contract_internal_tx_kip17)
    ∷ (contract_tether_proxy, contract_tether_logic)
    ∷ []
