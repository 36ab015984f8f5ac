-- ===== src/ReceiptCheck/Runs/Tests.antt =====
-- A transfer with its check against a node that takes it, and the first run of the receipt check.
use kaia_load_tester.Prelude.{
  ◌+◌, ◌*◌, refl, inr, true, false, none, some, [], ◌∷◌, arith, ltb, if◌then◌else◌, leb,
}
use kaia_load_tester.Account.Types.{Account, Env, World}
use kaia_load_tester.Clipool.{init_pool}
use kaia_load_tester.TestCase.Requests.{Draws}
use kaia_load_tester.ReceiptCheck.{new_hash_pool}
use kaia_load_tester.ReceiptCheck.Transfers.{Polls, transfer_and_check}
use kaia_load_tester.ReceiptCheck.Transfers.Laws.{Checked, transfer_and_check-Checked}
use kaia_load_tester.ReceiptCheck.Runs.{Session, run_receipt_check_tc}
use kaia_load_tester.ReceiptCheck.Runs.Laws.{Sound, SoundEnd, Unsigned, run_receipt_check_tc-Sound}

abbrev node : Env
node = record {
  nonce_at = λ a. some 7;
  send_raw_transaction = λ tx. none;
  rejected_hash = λ tx. 0;
  suggest_gas_price = λ u. some 25;
  block_number = λ u. some 1000;
  create_access_list = λ from to value input. some (1 ∷ []);
  new_transaction_ok = λ type values. true;
  sign_ok = λ body keys. true;
  tx_hash = λ tx. 1;
  create_address = λ address nonce. address * 100 + nonce;
  abi_pack = λ method args. some (1 ∷ 2 ∷ []);
  built_hash = λ body. 2;
  bid_hash = λ b. b.block_number;
  send_auction_tx = λ b. record { call_failed = false; submit_error = none };
  sign_bid_ok = λ b entry. true;
  entrypoint_nonce = λ a. 4;
  now = λ u. 1_700_000_000;
  token_address = λ u. 50;
  gsr_address = λ u. 51;
  counter_address = λ u. 52;
  default_gas_price = 250;
  send_nil_transaction = λ u. none;
}

abbrev sender : Account
sender = record { private_key = 5 ∷ []; address = 90; nonce = 3; last_blocknum_sent_tx = 0 }

abbrev receiver : Account
receiver = record { private_key = 7 ∷ []; address = 91; nonce = 0; last_blocknum_sent_tx = 0 }

abbrev before : World
before = record { self = sender; sent = []; bids = [] }

-- The receipt comes at the third poll, and the receiver's balance is right at the second.
abbrev polls : Polls
polls = record {
  from_former_balance = some 9_000_000;
  to_former_balance = some 100;
  receipt = λ k. if ltb k 2 then none else some 21_000;
  receipt_late = λ k. leb 50 k;
  from_balance = λ k. some 3_749_998;
  from_late = λ k. leb 50 k;
  to_balance = λ k. if ltb k 1 then some 100 else some 102;
  to_late = λ k. leb 50 k;
}

transfer_and_check-Checked_example :
    Checked node polls receiver 2 before (transfer_and_check node polls 51 receiver 2 before)
transfer_and_check-Checked_example =
    transfer_and_check-Checked node polls 50 51 receiver 2 before (refl, refl, refl) (omega arith)

abbrev session : Session
session = record {
  task = record {
    config = record {
      name = "receiptCheckTC";
      end_point = "http://localhost:8551";
      acc_grp = record { accounts = sender ∷ receiver ∷ []; round_robin_index = 0 };
      cli_pool = init_pool 20 300 (λ k. k);
      rpc_cli_pool = init_pool 20 300 (λ k. 20 + k);
      eth_cli_pool = none;
      smart_contract_accounts = [];
      test_contracts = [];
      auction_target_tx_type_list = [];
    };
    sent = [];
    bids = [];
    events = [];
  };
  pool = new_hash_pool 4;
  schedule = record { cnt = 0; init_flag = false };
}

abbrev draws : Draws
draws = record { from = 0; to = 1; value = 2; more = λ i. i }

session-Sound : Sound 4 session
session-Sound = record {
  hashes = [];
  pooled = refl;
  begun = inr (refl, omega arith, omega arith);
  staffed = omega arith;
}

run_receipt_check_tc-Sound_example :
    SoundEnd 4
      (Unsigned node draws session.task.config.acc_grp)
      (run_receipt_check_tc node (λ hash. none) draws session)
run_receipt_check_tc-Sound_example =
    run_receipt_check_tc-Sound node (λ hash. none) 4 draws session (omega arith) session-Sound
