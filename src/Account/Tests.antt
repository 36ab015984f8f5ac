-- ===== src/Account/Tests.antt =====
-- Runs of the account's methods against a node that takes everything, and one that does not.
use kaia_load_tester.Prelude.{
  List, Option, inl, inr, subst, suc, zero, arith, ℕ, ◌+◌, ◌*◌, ◌≡◌, ◌↔◌, ◌⊎◌, refl, Bool, true,
  false, Option, none, some, [], ◌∷◌,
}
use kaia_load_tester.Account.Types.{
  known_transaction, Body, Outcome, fatal, Account, value_transfer, TxValues, Key, num, addr, Bid,
  Env, World, SendError, nonce_too_low, incr, done,
}
use kaia_load_tester.Account.Send.{send_transaction}
use kaia_load_tester.Account.Send.Laws.{Delivers, tx_nonce, send_transaction-Delivers}
use kaia_load_tester.Account.Transfers.Methods
use kaia_load_tester.Account.Transfers.{Reply}
use kaia_load_tester.Account.Nonce.{get_nonce, update_nonce, is_nonce_used}
use kaia_load_tester.Account.Direct.{
  SignedResult, transfer_signed_tx_return_tx, build_and_sign, send_list, on_answer,
  transfer_new_value_transfer_with_cancel_tx, transfer_new_smart_contract_deploy_tx,
}
use kaia_load_tester.Account.Direct.Laws.{
  CancelEnds, with_cancel_settles, DeployEnds, deploy_ends, deploy_tx, transfer_part, cancel_part,
}
use kaia_load_tester.Account.Ethereum.Laws.{
  SubmitsOne, call-SubmitsOne, dynamic_fee_with_eth, keys_of,
}
use kaia_load_tester.Account.Ethereum.Laws
use kaia_load_tester.Account.Gasless.{transfer_new_gasless_tx, transfer_new_gasless_approve_tx}
use kaia_load_tester.Account.Gasless.Laws.{
  GaslessEnds, approve_tx, swap_tx, gasless_ends, gasless_approve_keeps_nonce,
}
use kaia_load_tester.Account.Retry.{Retry, run_with_retry, skip_nothing}
use kaia_load_tester.Account.Retry.Laws.{Decides, Total, Returned, run_with_retry-Returned}
use kaia_load_tester.Account.TargetTx.{gaa, gas, vt, post_send_bid}
use kaia_load_tester.Account.TargetTx.Before.{Ends}
use kaia_load_tester.Account.TargetTx.Laws.{Posted, post_send_bid-Posted}
use kaia_load_tester.Account.Auction.{auction_bid, auction_reverted_bid, bid_of, handle_results}
use kaia_load_tester.Account.Auction.Laws.{BidsOf}
use kaia_load_tester.Account.Auction.Rounds.{
  next_one, next_two, auction_bid-Bids, auction_reverted_bid-Bids,
}
use kaia_load_tester.Account.Auction.Verdict.{used, handle_results-both_failed}

abbrev sender : Account
sender = record { private_key = 5 ∷ 6 ∷ []; address = 90; nonce = 3; last_blocknum_sent_tx = 0 }

abbrev receiver : Account
receiver = record { private_key = 7 ∷ []; address = 91; nonce = 0; last_blocknum_sent_tx = 0 }

abbrev before : World
before = record { self = sender; sent = []; bids = [] }

-- A node whose answers are the arguments.
abbrev node : Option SendError → Bool → Option SendError → Env
node answer call_failed bid_error = record {
  nonce_at = λ a. some 7;
  send_raw_transaction = λ tx. answer;
  rejected_hash = λ tx. 0;
  suggest_gas_price = λ u. some 25;
  block_number = λ u. some 1000;
  create_access_list = λ from to value input. some (1 ∷ []);
  new_transaction_ok = λ type values. true;
  sign_ok = λ body keys. true;
  tx_hash = λ tx. 1;
  create_address = λ address nonce. address * 100 + nonce;
  abi_pack = λ method args. some (1 ∷ 2 ∷ []);
  built_hash = λ body. 2;
  bid_hash = λ b. b.block_number;
  send_auction_tx = λ b. record { call_failed = call_failed; submit_error = bid_error };
  sign_bid_ok = λ b entry. true;
  entrypoint_nonce = λ a. 4;
  now = λ u. 1_700_000_000;
  token_address = λ u. 50;
  gsr_address = λ u. 51;
  counter_address = λ u. 52;
  default_gas_price = 250;
  send_nil_transaction = λ u. none;
}

abbrev open_node : Env
open_node = node none false none

abbrev given : TxValues
given = (Key.to, addr 91) ∷ (Key.amount, num 10) ∷ []

send_transaction-Delivers_example :
    Delivers open_node before value_transfer given none
      (send_transaction open_node value_transfer given none before)
send_transaction-Delivers_example =
    send_transaction-Delivers open_node value_transfer given none before

call-SubmitsOne_example :
    SubmitsOne open_node sender.private_key before
      (Laws.call open_node (dynamic_fee_with_eth (some receiver) 10 (1 ∷ [])) before)
call-SubmitsOne_example =
    call-SubmitsOne open_node (dynamic_fee_with_eth (some receiver) 10 (1 ∷ [])) before

with_cancel_settles_example :
    CancelEnds open_node before
      (transfer_part open_node sender 3 receiver 10)
      (cancel_part open_node sender 3)
      none
      none
      (transfer_new_value_transfer_with_cancel_tx open_node receiver 10 before)
    × (tx_nonce (transfer_part open_node sender 3 receiver 10).body ≡ some 3)
    × (tx_nonce (cancel_part open_node sender 3).body ≡ some 3)
with_cancel_settles_example =
    with_cancel_settles open_node receiver 10 before (refl, refl, refl, refl)

deploy_ends_example :
    DeployEnds open_node before true
      (deploy_tx open_node sender 0 0 (96 ∷ []))
      none
      (transfer_new_smart_contract_deploy_tx open_node receiver 0 (96 ∷ []) true before)
    × (tx_nonce (deploy_tx open_node sender 0 0 (96 ∷ [])).body ≡ some 0)
deploy_ends_example = deploy_ends open_node receiver 0 (96 ∷ []) true before refl refl

gasless_ends_example :
    GaslessEnds before 3
      (approve_tx sender 3 receiver 25 (1 ∷ 2 ∷ []))
      (swap_tx sender 4 receiver 25 (1 ∷ 2 ∷ []))
      none
      none
      (transfer_new_gasless_tx open_node receiver receiver before)
    × (tx_nonce (approve_tx sender 3 receiver 25 (1 ∷ 2 ∷ [])).body ≡ some 3)
    × (tx_nonce (swap_tx sender 4 receiver 25 (1 ∷ 2 ∷ [])).body ≡ some 4)
unfolding incr
gasless_ends_example =
    gasless_ends open_node receiver receiver before 25 (1 ∷ 2 ∷ []) (1 ∷ 2 ∷ []) (record {
      priced = refl;
      approve_packs = refl;
      swap_packs = refl;
      approve_signs = refl;
      swap_signs = refl;
    })

gasless_approve_keeps_nonce_example :
    (r : Reply) × (w' : World) × (transfer_new_gasless_approve_tx open_node receiver receiver before
      ≡ done r w')
    × (w'.sent ≡ approve_tx sender 3 receiver 25 (1 ∷ 2 ∷ []) ∷ [])
    × (w'.self.nonce ≡ 3)
    × (r.error ≡ none)
gasless_approve_keeps_nonce_example =
    gasless_approve_keeps_nonce open_node receiver receiver before 25 (1 ∷ 2 ∷ []) refl refl refl

post_send_bid-Posted_example :
    Ends open_node
      (λ u v. Posted open_node before gaa receiver 3 25 1000 u v × (v.bids ≡ []))
      (post_send_bid open_node gaa receiver 3 25 1000 before)
post_send_bid-Posted_example = post_send_bid-Posted open_node gaa receiver 3 25 1000 before

auction_bid-Bids_example :
    Ends open_node
      (BidsOf open_node before next_two)
      (auction_bid open_node true receiver receiver vt receiver before)
auction_bid-Bids_example = auction_bid-Bids open_node true receiver receiver vt receiver before

auction_reverted_bid-Bids_example :
    Ends open_node
      (BidsOf open_node before next_one)
      (auction_reverted_bid open_node receiver receiver gas receiver before)
auction_reverted_bid-Bids_example =
    auction_reverted_bid-Bids open_node receiver receiver gas receiver before

-- One bid of the account on a plain transfer.
abbrev example_bid : ℕ → Bid
example_bid block = bid_of sender 52 4 block (deploy_tx open_node sender 3 0 []) (1 ∷ [])

abbrev late_node : Env
late_node = node none false (some nonce_too_low)

handle_results-both_failed_example :
    ((handle_results late_node (example_bid 1001 ∷ example_bid 1002 ∷ []) none 0).1 ≡ 2) ↔ (
      (used (some nonce_too_low) ≡ true)
      × ((used (some nonce_too_low) ≡ true) ⊎ (some nonce_too_low ≡ none)))
handle_results-both_failed_example =
    handle_results-both_failed late_node (example_bid 1001) (example_bid 1002) refl refl

-- A refused bid whose text says that the nonce was used, and then one without a text.
stale_error : (handle_results late_node (example_bid 1001 ∷ example_bid 1002 ∷ []) none 0).1 ≡ 2
unfolding handle_results is_nonce_used
stale_error = refl

-- A transfer that the node takes uses up the nonce.
sent_nonce :
    transfer_new_value_transfer_with_cancel_tx open_node receiver 10 before
    ≡ done
        (record { hash = 0; price = 250; error = none })
        (record {
          self = record sender { nonce = 4 };
          sent = transfer_part open_node sender 3 receiver 10 ∷ cancel_part open_node sender 3 ∷ [];
          bids = [];
        })
unfolding transfer_new_value_transfer_with_cancel_tx get_nonce build_and_sign send_list on_answer
    update_nonce incr
sent_nonce = refl

-- The first attempt is refused, the second is taken and mined.
abbrev attempts : ℕ → Env
attempts zero = node (some known_transaction) false none
attempts (suc k) = open_node

abbrev paying : Retry
paying = record {
  send_tx = λ k. transfer_signed_tx_return_tx (attempts k) true receiver 10 none;
  should_skip = skip_nothing;
  mined = λ k. true;
}

-- A node at which signing works does not end the process.
submits-Total :
    (e : Env) (keys : List ℕ) (w : World) (o : Outcome SignedResult)
    → ((body : Body) → e.sign_ok body keys ≡ true)
    → ((from : ℕ) (to : Option ℕ) (v : ℕ) (i : List ℕ)
        → e.create_access_list from to v i ≡ some (1 ∷ []))
    → SubmitsOne e keys w o
    → (r : SignedResult) × (v : World) × (o ≡ done r v)
submits-Total e keys w (done r v) signs lists s = (r, v, refl)
submits-Total e keys w fatal signs lists (inl (body, refused)) = let t = signs body in cc
submits-Total e keys w fatal signs lists (inr (to, v, i, missing)) =
    let t = lists w.self.address to v i in cc

submits-taken :
    (keys : List ℕ) (w v : World) (r : SignedResult)
    → SubmitsOne open_node keys w (done r v)
    → r.error ≡ none
submits-taken keys w v r (inl (out, number, signer, taken, count)) = taken
submits-taken keys w v r (inr (refused, failed, unsent, count)) = cc

paying-Total : Total paying
paying-Total zero w =
    submits-Total (attempts zero) _ w _ (λ body. refl) (λ f t v i. refl)
      (call-SubmitsOne (attempts zero) (Laws.signed true receiver 10 none) w)
paying-Total (suc k) w =
    submits-Total open_node _ w _ (λ body. refl) (λ f t v i. refl)
      (call-SubmitsOne open_node (Laws.signed true receiver 10 none) w)

paying-second :
    (v v' : World) (r : SignedResult) → paying.send_tx 1 v ≡ done r v' → Decides paying 1 r
paying-second v v' r h = inl (
  submits-taken _ v v' r (
      subst (SubmitsOne open_node _ v) h
        (call-SubmitsOne open_node (Laws.signed true receiver 10 none) v)),
  refl,
)

run_with_retry-Returned_example : Returned paying 0 1 (run_with_retry paying 5 0 before)
run_with_retry-Returned_example =
    run_with_retry-Returned paying 1 5 0 before paying-Total (omega arith) (omega arith)
      paying-second
