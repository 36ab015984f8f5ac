-- ===== src/Account/Auction.antt =====
-- `AuctionBid` and `AuctionRevertedBid` of klayslave/account/account.go: the bundle of a target
-- transaction and a call of the counter contract, bid for in the next blocks.
pub mod Laws
pub mod Rounds
pub mod Verdict
use kaia_load_tester.Prelude.{
  ℕ, zero, ◌+◌, ◌-◌, ◌%◌, ◌^◌, ◌==◌, Bool, true, false, not, Option, none, some, List, [], ◌∷◌,
  ◌++◌, if◌then◌else◌, is_some, length,
}
use kaia_load_tester.Account.Types.{
  Account, Tx, Bid, BidAnswer, Env, SendError, other, TxError, sign_failed, rejected, failed, M,
  ◌>>=◌, ◌>>◌, pure, done, or_fatal, get_self,
}
use kaia_load_tester.Account.Nonce.{get_nonce, update_nonce, is_nonce_used}
use kaia_load_tester.Account.Send.{settle}
use kaia_load_tester.Account.Transfers.{zero_hash}
use kaia_load_tester.Account.Gasless.{no_price}
use kaia_load_tester.Account.TargetTx.{Target, generate_tx, pre_send_bid, post_send_bid}

-- `targetTx.Hash(), bid.Hash(), suggestedGasPrice, err`
pub record BidReply : Type 0 where
  pub target_hash : ℕ
  pub bid_hash : ℕ
  pub price : ℕ
  pub error : Option TxError

-- A reply with no hash.
abbrev pub no_hash : ℕ → TxError → BidReply
no_hash price err = record {
  target_hash = zero_hash;
  bid_hash = zero_hash;
  price = price;
  error = some err;
}

-- The errors that the code words itself; the last one goes on with the last error of a bid.
abbrev pub no_target : TxError
no_target = failed "failed to generate target tx"

abbrev pub no_block : TxError
no_block = failed "Failed to fetch block number"

abbrev pub already_sent : TxError
already_sent = failed "this account has already sent a tx for the block"

abbrev pub bid_refused : TxError
bid_refused = failed "failed to send auction bid"

abbrev pub bid_call_failed : TxError
bid_call_failed = failed "Failed to call SendAuctionTx"

-- What a method does once the target is out: of the target, the price, the block and the call.
abbrev pub Then : Type 0
Then = Tx → ℕ → ℕ → List ℕ → M BidReply

abbrev pub bid_of : Account → ℕ → ℕ → ℕ → Tx → List ℕ → Bid
bid_of self to nonce block tx call = record {
  target = tx;
  block_number = block % 2 ^ 64;
  sender = self.address;
  to = to;
  nonce = nonce;
  bid = 2;
  call_gas_limit = 5_000_000;
  payload = call;
}

-- The bids reach the auctioneer's node.
unfoldable pub place : List Bid → M (Unit {0})
place bids w = done tt (record w { bids = w.bids ++ bids })

-- The loop over the results, in the order in which they arrive: the first success ends it.
-- `submitErr` is declared outside, so a result without a text keeps the one before.
abbrev pub succeeded : BidAnswer → Bool
succeeded a = if a.call_failed then false else not (is_some a.submit_error)

abbrev pub latest : Option SendError → Option SendError → Option SendError
latest before none = before
latest before (some err) = some err

-- `submitErr` of one answer: the empty text is no error.
abbrev pub said : Option SendError → Option SendError
said none = none
said (some (other zero)) = none
said (some err) = some err

abbrev pub counted : Option SendError → ℕ
counted none = 0
counted (some err) = if is_nonce_used err then 1 else 0

module _ (e : Env) where
  -- The part that both methods begin with.
  unfoldable pub at_block : Then → ℕ → Tx → List ℕ → Option ℕ → M BidReply
  at_block next price tx call none = pure (no_hash price no_block)
  at_block next price tx call (some block) = do
    self ← get_self
    if self.last_blocknum_sent_tx == (block % 2 ^ 64)
        then pure (no_hash price already_sent)
        else next tx price block call

  unfoldable pub after_pre : Then → ℕ → Tx → Option TxError → M BidReply
  after_pre next price tx (some err) = pure (no_hash price err)
  after_pre next price tx none = do
    call ← or_fatal (e.abi_pack "incForAuction" [])
    at_block next price tx call (e.block_number tt)

  unfoldable pub with_target : Then → Target → Account → ℕ → ℕ → Option Tx → M BidReply
  with_target next type tmp nonce price none = pure (no_hash price no_target)
  with_target next type tmp nonce price (some tx) = do
    err ← pre_send_bid e type tmp nonce price
    after_pre next price tx err

  unfoldable pub at_price : Then → Target → Account → ℕ → Option ℕ → M BidReply
  at_price next type tmp nonce none = pure (no_hash e.default_gas_price no_price)
  at_price next type tmp nonce (some price) = do
    tx ← generate_tx e type tmp nonce price
    with_target next type tmp nonce price tx

  unfoldable pub prepare : (ℕ → Then) → Target → Account → M BidReply
  prepare next type tmp = do
    nonce ← get_nonce e
    at_price (next nonce) type tmp nonce (e.suggest_gas_price tt)

  -- The successful bid, and the number of errors that say that the nonce was used.
  unfoldable pub handle_results : List Bid → Option SendError → ℕ → Option Bid × ℕ
  handle_results [] err n = (none, n)
  handle_results (b ∷ bs) err n =
      let a = e.send_auction_tx b in
      let now = latest err a.submit_error in
      let rest = handle_results bs now (n + counted now) in
      if succeeded a then (some b, n) else rest

  unfoldable pub after_bids : Target → Account → ℕ → Tx → ℕ → ℕ → Option Bid × ℕ → M BidReply
  after_bids type tmp nonce tx price block (none, n) = do
    if n == 2 then update_nonce else pure tt
    pure (record {
      target_hash = e.tx_hash tx;
      bid_hash = zero_hash;
      price = price;
      error = some bid_refused;
    })
  after_bids type tmp nonce tx price block (some b, n) = do
    post_send_bid e type tmp nonce price block
    pure (record {
      target_hash = e.tx_hash tx;
      bid_hash = e.bid_hash b;
      price = price;
      error = none;
    })

  -- Both goroutines send; whose result arrives first is not fixed.
  abbrev pub arrival : Bool → Bid → Bid → List Bid
  arrival first_first b c = if first_first then b ∷ c ∷ [] else c ∷ b ∷ []

  unfoldable pub bid_twice : Bool → Account → Account → Target → Account → ℕ → Then
  bid_twice order entry to type tmp nonce tx price block call = do
    self ← get_self
    let app = e.entrypoint_nonce self.address
    let b = bid_of self to.address app (block + 1) tx call
    let c = bid_of self to.address app (block + 2) tx call
    if e.sign_bid_ok b entry.address
        then (if e.sign_bid_ok c entry.address
            then (do
              place (b ∷ c ∷ [])
              after_bids type tmp nonce tx price block (handle_results (arrival order b c) none 0))
            else pure (no_hash price sign_failed))
        else pure (no_hash price sign_failed)

  unfoldable pub auction_bid : Bool → Account → Account → Target → Account → M BidReply
  auction_bid order entry to type tmp = prepare (bid_twice order entry to type tmp) type tmp

  -- The answer to the one bid of `AuctionRevertedBid`.
  unfoldable pub after_answer :
      Target → Account → ℕ → Tx → Bid → ℕ → ℕ → Bool → Option SendError → M BidReply
  after_answer type tmp nonce tx b price block true submit_error = pure (record {
    target_hash = e.tx_hash tx;
    bid_hash = e.bid_hash b;
    price = price;
    error = some bid_call_failed;
  })
  after_answer type tmp nonce tx b price block false (some err) = do
    settle (some err)
    pure (record {
      target_hash = e.tx_hash tx;
      bid_hash = e.bid_hash b;
      price = price;
      error = some (rejected err);
    })
  after_answer type tmp nonce tx b price block false none = do
    post_send_bid e type tmp nonce price block
    pure (record {
      target_hash = e.tx_hash tx;
      bid_hash = e.bid_hash b;
      price = price;
      error = none;
    })

  -- The bid's nonce is the largest int64, which makes it revert.
  unfoldable pub bid_once : Account → Account → Target → Account → ℕ → Then
  bid_once entry to type tmp nonce tx price block call = do
    self ← get_self
    let b = bid_of self to.address (2 ^ 63 - 1) (block + 1) tx call
    if e.sign_bid_ok b entry.address
        then (do
          place (b ∷ [])
          after_answer type tmp nonce tx b price block (e.send_auction_tx b).call_failed
              (said (e.send_auction_tx b).submit_error))
        else pure (no_hash price sign_failed)

  unfoldable pub auction_reverted_bid : Account → Account → Target → Account → M BidReply
  auction_reverted_bid entry to type tmp = prepare (bid_once entry to type tmp) type tmp
