-- ===== src/TestCase/Tests.antt =====
-- Runs of the test cases of testcase/ on a small group of accounts.
use kaia_load_tester.Prelude.{
  arith, ℕ, ◌*◌, ◌+◌, ◌==◌, ◌≢◌, ◌≡◌, ◌↔◌, refl, inl, inr, true, false, Bool, none, some, Option,
  [], ◌∷◌, str_eq, if◌then◌else◌, Bool-cases, pos,
}
use kaia_load_tester.Account.Types.{Account, Env, failed, value_transfer, smart_contract_execution}
use kaia_load_tester.AccGroup.{AccGroup}
use kaia_load_tester.AccGroup.AccountSet.{get_account_round_robin}
use kaia_load_tester.AccGroup.Deploy.{Chain, deploy_test_contracts}
use kaia_load_tester.Contracts.Registry.{test_contract_infos}
use kaia_load_tester.Contracts.Laws.{undeployed}
use kaia_load_tester.TestCase.TcList.{run_new_value_transfer, run_erc20_transfer, run_auction_bid}
use kaia_load_tester.TestCase.Config.{TcConfig, init, accounts_list_of, contract_accounts}
use kaia_load_tester.TestCase.Requests.{Task, Ran, panicked, with_client, Draws}
use kaia_load_tester.TestCase.Requests.Auctions.{target_of, drawn_target, run_base_with_auction}
use kaia_load_tester.TestCase.Requests.Bidding.{AllTargets, Bidding, run_base_with_auction-Bidding}
use kaia_load_tester.Account.TargetTx.{vt}
use kaia_load_tester.TestCase.Requests.ValueTransfers.{Given, run_base_value_transfer}
use kaia_load_tester.TestCase.Requests.ContractCalls.{run_base_with_contract}
use kaia_load_tester.TestCase.Requests.Laws.{Requested}
use kaia_load_tester.TestCase.Requests.Types.{run_base_value_transfer-Requested}
use kaia_load_tester.TestCase.Requests.CallTypes.{NoneToCall, run_base_with_contract-Requested}
use kaia_load_tester.TestCase.Ethereum.{
  Receipt, Poll, got, not_found, get_receipt, EthGiven, check_result,
}
use kaia_load_tester.TestCase.Ethereum.Waiting.{Waited}
use kaia_load_tester.TestCase.Ethereum.Laws.{Passes, check_result-Waited}

-- A node that takes every transaction, and packs every call.
abbrev node : Env
node = record {
  nonce_at = λ a. some 7;
  send_raw_transaction = λ tx. none;
  rejected_hash = λ tx. 0;
  suggest_gas_price = λ u. some 25;
  block_number = λ u. some 1000;
  create_access_list = λ from to value input. some (1 ∷ []);
  new_transaction_ok = λ type values. true;
  sign_ok = λ body keys. true;
  tx_hash = λ tx. 1;
  create_address = λ address nonce. address * 100 + nonce;
  abi_pack = λ method args. some (1 ∷ 2 ∷ []);
  built_hash = λ body. 2;
  bid_hash = λ b. b.block_number;
  send_auction_tx = λ b. record { call_failed = false; submit_error = none };
  sign_bid_ok = λ b entry. true;
  entrypoint_nonce = λ a. 4;
  now = λ u. 1_700_000_000;
  token_address = λ u. 50;
  gsr_address = λ u. 51;
  counter_address = λ u. 52;
  default_gas_price = 250;
  send_nil_transaction = λ u. none;
}

abbrev account_of : ℕ → Account
account_of i = record {
  private_key = i ∷ [];
  address = 90 + i;
  nonce = 0;
  last_blocknum_sent_tx = 0;
}

-- The leader deploys every contract that its test case needs, to the account of the same number.
abbrev fresh : Chain Account
fresh = record {
  is_deployed = λ i. false;
  account_at = λ i. account_of (100 + i);
  deploys_to = λ i. account_of (100 + i);
  ready = λ i k. true;
}

abbrev group : AccGroup Account
group = record {
  contains_unsigned_acc_grp = false;
  acc_lists = (account_of 1 ∷ account_of 2 ∷ []) ∷ [] ∷ [] ∷ [] ∷ [] ∷ [] ∷ [];
  contracts =
      (deploy_test_contracts fresh true ("erc20TransferTC" ∷ []) [] test_contract_infos
        undeployed).contracts;
}

abbrev erc20_config : TcConfig Account ℕ
erc20_config =
    init (λ k. k) (λ k. 20 + k) (λ k. 40 + k) group "http://localhost:8551" (0 ∷ [])
      "erc20TransferTC" []

abbrev begun : Task
begun = record { config = erc20_config; sent = []; bids = []; events = [] }

abbrev draws : Draws
draws = record { from = 7; to = 8; value = 2; more = λ i. i }

abbrev request : Given
request = record {
  bytecode = 96 ∷ [];
  fee_delegated_code = 97 ∷ [];
  new_account = account_of 9;
  send_unsigned = λ from to value. none;
}

run_base_value_transfer-Requested_example :
    Requested node value_transfer
      (begun.config.acc_grp.accounts ≡ [])
      "erc20TransferTC"
      1
      begun
      (run_base_value_transfer node request run_new_value_transfer draws begun)
unfolding init accounts_list_of
run_base_value_transfer-Requested_example =
    run_base_value_transfer-Requested node request run_new_value_transfer value_transfer draws begun
      refl

run_base_with_contract-Requested_example :
    Requested node smart_contract_execution
      (NoneToCall run_erc20_transfer begun)
      "erc20TransferTC"
      1
      begun
      (run_base_with_contract node run_erc20_transfer draws begun)
unfolding init accounts_list_of
run_base_with_contract-Requested_example =
    run_base_with_contract-Requested node run_erc20_transfer smart_contract_execution draws begun
      refl

-- A bid whose targets are plain transfers, and one with no target.
abbrev bidding : Task
bidding = record begun {
  config = record erc20_config {
    smart_contract_accounts = (12, some (account_of 112)) ∷ (9, some (account_of 109)) ∷ [];
    auction_target_tx_type_list = "VT" ∷ [];
  };
}

abbrev untargeted : Task
untargeted = record bidding { config = record bidding.config { auction_target_tx_type_list = [] } }

both_target : AllTargets ("VT" ∷ [])
unfolding target_of
both_target = ((vt, refl), tt)

run_base_with_auction-Bidding_example :
    (r : Ran) × (run_base_with_auction node true (account_of 99) run_auction_bid 5 bidding ≡ some r)
    × Bidding node true (account_of 99) run_auction_bid 5 bidding r
run_base_with_auction-Bidding_example =
    run_base_with_auction-Bidding node true (account_of 99) run_auction_bid 5 bidding
      (account_of 112, account_of 109) refl both_target

abbrev panics : Option Ran → Bool
panics (some (panicked t)) = true
panics _ = false

no_target :
    panics (run_base_with_auction node true (account_of 99) run_auction_bid 5 untargeted) ≡ true
unfolding run_base_with_auction with_client drawn_target init accounts_list_of
    get_account_round_robin contract_accounts
no_target = refl

abbrev given_texts : EthGiven
given_texts = record {
  legacy_type = 30720;
  access_list_type = 30721;
  dynamic_fee_type = 30722;
  success_status = "0x1";
  address_text = λ a. "0xAB";
  to_lower = λ s. if str_eq s "0xAB" then "0xab" else s;
  parse_int =
      λ s. if str_eq s "0x1" then some (pos 1) else (if str_eq s "0x2" then some (pos 2) else none);
}

abbrev called : Receipt
called = record {
  status = some "0x1";
  contract_address = none;
  to = some "0xab";
  type = some "0x1";
}

abbrev third : ℕ → Poll
third k = if k == 2 then got called else not_found

says_something : (i : ℕ) → third i ≢ Poll.nothing
says_something i h = elim (Bool-cases (i == 2)) [
  | inl same ↦ let q = rw same at h in absurd (ground arith)
  | inr other ↦ let q = rw other at h in absurd (ground arith)
]

received : get_receipt third 5 6 0 0 ≡ some (some called)
unfolding get_receipt
received = refl

check_result-Waited_example :
    (o : Option Receipt) × (get_receipt third 30 31 0 0 ≡ some o)
    × Waited third 0 0 30 (some o)
    × ((check_result given_texts 3 2 30721 o ≡ none) ↔ Passes given_texts 3 2 30721 o)
check_result-Waited_example = check_result-Waited given_texts 3 2 30721 third says_something

-- Another type is refused.
other_type :
    check_result given_texts 3 2 30722 (some called)
    ≡ some (failed "type mismatched in transaction receipt")
unfolding check_result
other_type = refl
