-- ===== src/Erc721Ledger/Tests.antt =====
-- Runs of the token ledger: two accounts, of which the second holds two tokens.
use kaia_load_tester.Prelude.{ℕ, ◌+◌, ◌*◌, ◌≡◌, refl, true, false, none, some, [], ◌∷◌, arith}
use kaia_load_tester.Account.Types.{Account, Env}
use kaia_load_tester.Clipool.{init_pool}
use kaia_load_tester.TestCase.Requests.{Task}
use kaia_load_tester.AccGroup.AccountSet.{AccountSet, new_account_set}
use kaia_load_tester.Erc721Ledger.{
  Erc721TokenLedger, new_erc721_token_ledger, get_account_mutex, load_or_store, put_token,
  remove_token, initialize_account,
}
use kaia_load_tester.Erc721Ledger.Mutexes.{
  Calls, no_calls, missed, stored, Reach, start, next, misses, stores, one_mutex,
}
use kaia_load_tester.Erc721Ledger.Transfer.{run_erc721_transfer}
use kaia_load_tester.Erc721Ledger.Transfer.Laws.{Transferred, run_erc721_transfer-Transferred}

abbrev account_at : ℕ → Account
account_at a = record { private_key = []; address = a; nonce = 0; last_blocknum_sent_tx = 0 }

abbrev both : AccountSet Account
both = new_account_set (account_at 8 ∷ account_at 9 ∷ [])

abbrev filled : Erc721TokenLedger
filled = put_token 9 71 (put_token 9 70 (initialize_account 8 new_erc721_token_ledger))

first_out : (remove_token 9 filled).0 ≡ some 70
unfolding put_token remove_token initialize_account get_account_mutex load_or_store
first_out = refl

-- A node that takes every transaction, and packs every call.
abbrev node : Env
node = record {
  nonce_at = λ a. some 7;
  send_raw_transaction = λ tx. none;
  rejected_hash = λ tx. 0;
  suggest_gas_price = λ u. some 25;
  block_number = λ u. some 1000;
  create_access_list = λ from to value input. some (1 ∷ []);
  new_transaction_ok = λ type values. true;
  sign_ok = λ body keys. true;
  tx_hash = λ tx. 1;
  create_address = λ address nonce. address * 100 + nonce;
  abi_pack = λ method args. some (1 ∷ 2 ∷ []);
  built_hash = λ body. 2;
  bid_hash = λ b. b.block_number;
  send_auction_tx = λ b. record { call_failed = false; submit_error = none };
  sign_bid_ok = λ b entry. true;
  entrypoint_nonce = λ a. 4;
  now = λ u. 1_700_000_000;
  token_address = λ u. 50;
  gsr_address = λ u. 51;
  counter_address = λ u. 52;
  default_gas_price = 250;
  send_nil_transaction = λ u. none;
}

abbrev begun : Task
begun = record {
  config = record {
    name = "erc721TransferTC";
    end_point = "http://localhost:8551";
    acc_grp = both;
    cli_pool = init_pool 20 300 (λ k. k);
    rpc_cli_pool = init_pool 20 300 (λ k. 20 + k);
    eth_cli_pool = none;
    smart_contract_accounts = (1, some (account_at 101)) ∷ [];
    test_contracts = 1 ∷ [];
    auction_target_tx_type_list = [];
  };
  sent = [];
  bids = [];
  events = [];
}

run_erc721_transfer-Transferred_example :
    Transferred node 0 begun filled (run_erc721_transfer node 0 0 begun filled)
run_erc721_transfer-Transferred_example =
    run_erc721_transfer-Transferred node 0 begun filled 0 (omega arith)

-- Two calls for one account both miss, and the one that stores second gets the other's mutex.
abbrev raced : Calls
raced = stored 9 1 [] (stored 9 0 ((9, 1) ∷ []) (missed 9 (missed 9 no_calls)))

raced-Reach : Reach raced
raced-Reach =
    next
      (next (next (next start (misses 9 refl)) (misses 9 refl)) (stores ((9, 1) ∷ []) [] 9 0 refl))
      (stores [] [] 9 1 refl)

-- The mutex of each of the two calls.
abbrev first_mutex : ℕ
first_mutex = (load_or_store 9 0 (missed 9 (missed 9 no_calls)).ledger).0

abbrev second_mutex : ℕ
second_mutex =
    (load_or_store 9 1 (stored 9 0 ((9, 1) ∷ []) (missed 9 (missed 9 no_calls))).ledger).0

one_mutex_example : second_mutex ≡ first_mutex
one_mutex_example = one_mutex {s = raced} 9 second_mutex first_mutex 0 1 raced-Reach refl refl
