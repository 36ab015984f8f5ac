-- ===== src/TestCase/ReadApi/Tests.antt =====
-- Read API requests on a small configuration.
use kaia_load_tester.Prelude.{◌+◌, ◌*◌, ◌≡◌, refl, true, false, none, some, [], ◌∷◌}
use kaia_load_tester.Account.Types.{Env, failed}
use kaia_load_tester.Clipool.{init_pool}
use kaia_load_tester.TestCase.TcList.{
  run_get_block_with_consensus_info_by_number, run_call, run_get_storage_at,
}
use kaia_load_tester.TestCase.Requests.{Task}
use kaia_load_tester.TestCase.ReadApi.Hex.{names_block, hex_text}
use kaia_load_tester.TestCase.ReadApi.{
  answered, Node, get_random_block_number, read_error, run_read_api,
}
use kaia_load_tester.TestCase.ReadApi.Requests.{Reads, run_read_api-Reads}

abbrev packing : Env
packing = record {
  nonce_at = λ a. some 7;
  send_raw_transaction = λ tx. none;
  rejected_hash = λ tx. 0;
  suggest_gas_price = λ u. some 25;
  block_number = λ u. some 1000;
  create_access_list = λ from to value input. some (1 ∷ []);
  new_transaction_ok = λ type values. true;
  sign_ok = λ body keys. true;
  tx_hash = λ tx. 1;
  create_address = λ address nonce. address * 100 + nonce;
  abi_pack = λ method args. some (1 ∷ 2 ∷ []);
  built_hash = λ body. 2;
  bid_hash = λ b. b.block_number;
  send_auction_tx = λ b. record { call_failed = false; submit_error = none };
  sign_bid_ok = λ b entry. true;
  entrypoint_nonce = λ a. 4;
  now = λ u. 1_700_000_000;
  token_address = λ u. 50;
  gsr_address = λ u. 51;
  counter_address = λ u. 52;
  default_gas_price = 250;
  send_nil_transaction = λ u. none;
}

-- The stored number and the call's result are wrong.
abbrev node : Node
node = record {
  suggest_gas_price = answered 25;
  block_number = answered 300;
  block_by_number = λ number. answered number;
  account_type = λ address. answered "1";
  consensus_info = λ number. answered "0xff";
  storage_at = λ address. answered (1 ∷ 4 ∷ []);
  call_contract = λ from to call. answered (some 5);
  estimate_gas = λ from to call. answered 21_000;
}

abbrev begun : Task
begun = record {
  config = record {
    name = "readGetBlockWithConsensusInfoByNumber";
    end_point = "http://localhost:8551";
    acc_grp = record { accounts = []; round_robin_index = 0 };
    cli_pool = init_pool 20 300 (λ k. k);
    rpc_cli_pool = init_pool 20 300 (λ k. 20 + k);
    eth_cli_pool = none;
    smart_contract_accounts = [];
    test_contracts = [];
    auction_target_tx_type_list = [];
  };
  sent = [];
  bids = [];
  events = [];
}

run_read_api-Reads_example :
    Reads packing node run_get_block_with_consensus_info_by_number 3 255 begun
      (run_read_api packing node run_get_block_with_consensus_info_by_number 3 255 begun)
run_read_api-Reads_example =
    run_read_api-Reads packing node 3 255 begun run_get_block_with_consensus_info_by_number

named : names_block "0xff" 255 ≡ true
unfolding names_block hex_text
named = refl

wrong_storage : read_error node run_get_storage_at 0 1 2 [] ≡ some (failed "wrong storage value")
unfolding read_error
wrong_storage = refl

-- A wrong result of a call is no error.
wrong_call : read_error node run_call 0 1 2 [] ≡ none
unfolding read_error
wrong_call = refl

-- At the first call the latest block is fetched, and a block below it is drawn.
first_number :
    get_random_block_number node 1000 (record { latest_block_number = 0; count = 0 })
    ≡ (100, record { latest_block_number = 300; count = 1 })
unfolding get_random_block_number
first_number = refl
