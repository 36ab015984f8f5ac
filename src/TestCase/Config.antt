-- ===== src/TestCase/Config.antt =====
-- testcase/tcconfig.go: what a test case is given. Dialling an endpoint ends the process where it
-- fails, so `dial` and the others give the client of their k-th call in a process that goes on.
pub mod Laws
use kaia_load_tester.Prelude.{
  ℕ, Bool, true, false, ◌||◌, Option, none, some, List, [], ◌∷◌, String, str_eq, if◌then◌else◌,
  get_or,
}
use kaia_load_tester.Prelude.Dict.{Dict, lookup, insert}
use kaia_load_tester.Clipool.{ClientPool, init_pool}
use kaia_load_tester.AccGroup.{
  AccGroup, get_acc_list_by_name, acc_list_for_signed_tx, acc_list_for_unsigned_tx,
}
use kaia_load_tester.AccGroup.AccountSet.{AccountSet, new_account_set}

-- `AccListForGaslessRevertTx` and `AccListForGaslessApproveTx`.
abbrev pub acc_list_for_gasless_revert_tx : ℕ
acc_list_for_gasless_revert_tx = 3

abbrev pub acc_list_for_gasless_approve_tx : ℕ
acc_list_for_gasless_approve_tx = 4

-- `TCConfig`; the pool of Ethereum clients stays a zero pool unless the test case needs it.
pub record TcConfig (A C : Type 0) : Type 0 where
  pub name : String
  pub end_point : String
  pub acc_grp : AccountSet A
  pub cli_pool : ClientPool C
  pub rpc_cli_pool : ClientPool C
  pub eth_cli_pool : Option (ClientPool C)
  pub smart_contract_accounts : Dict (Option A)
  pub test_contracts : List ℕ
  pub auction_target_tx_type_list : List String

-- Which of the group's lists a test case draws its accounts from.
unfoldable pub accounts_list_of : String → ℕ
accounts_list_of tc_name =
    if str_eq tc_name "transferUnsignedTx"
    then acc_list_for_unsigned_tx
    else (if str_eq tc_name "gaslessRevertTransactionTC"
        then acc_list_for_gasless_revert_tx
        else (if str_eq tc_name "gaslessOnlyApproveTC"
            then acc_list_for_gasless_approve_tx
            else acc_list_for_signed_tx))

abbrev pub is_auction : String → Bool
is_auction tc_name = str_eq tc_name "auctionBidTC" || str_eq tc_name "auctionRevertedBidTC"

abbrev pub is_ethereum : String → Bool
is_ethereum tc_name =
    str_eq tc_name "ethereumTxLegacyTC"
    || (str_eq tc_name "ethereumTxAccessListTC"
        || (str_eq tc_name "ethereumTxDynamicFeeTC"
            || (str_eq tc_name "newEthereumAccessListTC"
                || str_eq tc_name "newEthereumDynamicFeeTC")))

module _ {A : Type 0} where
  -- `contractsParam[contractType]` for each type; the list of contracts has one for each.
  unfoldable pub contract_accounts : List (Option A) → List ℕ → Dict (Option A) → Dict (Option A)
  contract_accounts contracts [] accounts = accounts
  contract_accounts contracts (t ∷ types) accounts =
      contract_accounts contracts types (insert t (get_or contracts t none) accounts)

  -- `config.SmartContractAccounts[t]`: nil where there is none.
  abbrev pub found : Option (Option A) → Option A
  found none = none
  found (some account) = account

module _ {A C : Type 0} where
  abbrev pub contract_account : ℕ → TcConfig A C → Option A
  contract_account t config = found (lookup t config.smart_contract_accounts)

  unfoldable pub init :
      (dial rpc_dial eth_dial : ℕ → C)
      → AccGroup A
      → String
      → List ℕ
      → String
      → List String
      → TcConfig A C
  init dial rpc_dial eth_dial g endpoint test_contracts tc_name targets = record {
    name = tc_name;
    end_point = endpoint;
    acc_grp = new_account_set (get_acc_list_by_name (accounts_list_of tc_name) g);
    cli_pool = init_pool 20 300 dial;
    rpc_cli_pool = init_pool 20 300 rpc_dial;
    eth_cli_pool = if is_ethereum tc_name then some (init_pool 20 300 eth_dial) else none;
    smart_contract_accounts = contract_accounts g.contracts test_contracts [];
    test_contracts = test_contracts;
    auction_target_tx_type_list = if is_auction tc_name then targets else [];
  }
