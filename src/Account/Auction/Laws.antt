-- ===== src/Account/Auction/Laws.antt =====
-- The part that `AuctionBid` and `AuctionRevertedBid` of klayslave/account/account.go begin with.
use kaia_load_tester.Prelude.{
  ℕ, ◌%◌, ◌^◌, ◌==◌, ◌≡◌, ◌≢◌, refl, ◌⊎◌, inl, inr, Bool, true, false, Option, none, some, List, [],
  ◌++◌, Option-cases, Bool-cases, map,
}
use kaia_load_tester.Account.Types.{Account, Tx, Bid, Env, SendError, TxError, World, ◌>>=◌}
use kaia_load_tester.Account.Nonce.{update_nonce}
use kaia_load_tester.Account.Send.Laws.{settle-settled}
use kaia_load_tester.Account.TargetTx.{Target, generate_tx, pre_send_bid, post_send_bid}
use kaia_load_tester.Account.TargetTx.Before.{
  Ends, Same, continued, Prepared, generate_tx-Ends, pre_send_bid-Ends,
}
use kaia_load_tester.Account.TargetTx.Laws.{Posted, post_send_bid-Posted}
use kaia_load_tester.Account.Auction.{
  BidReply, Then, at_block, after_pre, with_target, at_price, after_bids, after_answer,
}

-- The bids that a run adds, by the blocks they are for: none and an error, or one for each
-- block of `blocks`, all for one target and from the account, and only where the account has not
-- sent for the current block.
abbrev pub Placed : Env → List Bid → ℕ → ℕ → (ℕ → List ℕ) → ℕ → List Bid → Type 0
Placed e before last address blocks block bids =
    (e.block_number tt ≡ some block)
    × ((last == (block % 2 ^ 64)) ≡ false)
    × (map (λ (b : Bid). b.block_number) bids ≡ map (λ n. n % 2 ^ 64) (blocks block))
    × ((tx : Tx) × (map (λ (b : Bid). b.target) bids ≡ map (λ n. tx) (blocks block)))
    × (map (λ (b : Bid). b.sender) bids ≡ map (λ n. address) (blocks block))

abbrev pub Bids : Env → List Bid → ℕ → ℕ → (ℕ → List ℕ) → BidReply → World → Type 0
Bids e before last address blocks r v =
    ((v.bids ≡ before) × (r.error ≢ none))
    ⊎ ((block : ℕ) × (bids : List Bid) × (v.bids ≡ before ++ bids)
        × Placed e before last address blocks block bids)

abbrev pub BidsOf : Env → World → (ℕ → List ℕ) → BidReply → World → Type 0
BidsOf e w blocks = Bids e w.bids w.self.last_blocknum_sent_tx w.self.address blocks

-- What the rest of a method may do once nothing is in its way.
abbrev pub Continues : Env → (ℕ → List ℕ) → Then → Type 0
Continues e blocks next =
    (w : World) (tx : Tx) (price block : ℕ) (call : List ℕ)
    → e.block_number tt ≡ some block
    → (w.self.last_blocknum_sent_tx == (block % 2 ^ 64)) ≡ false
    → Ends e (BidsOf e w blocks) (next tx price block call w)

module _ (e : Env) (blocks : ℕ → List ℕ) (next : Then) (k : Continues e blocks next) where
  at_block-Bids :
      (w : World) (price : ℕ) (tx : Tx) (call : List ℕ) (block : Option ℕ)
      → e.block_number tt ≡ block
      → Ends e (BidsOf e w blocks) (at_block e next price tx call block w)
  unfolding at_block
  at_block-Bids w price tx call none h = inl (refl, λ r. cc)
  at_block-Bids w price tx call (some block) h =
      elim (Bool-cases (w.self.last_blocknum_sent_tx == (block % 2 ^ 64))) [
        | inl again ↦ rw again (inl (refl, λ r. cc))
        | inr first ↦ rw first (k w tx price block call h first)
      ]

  after_pre-Bids :
      (w : World) (price : ℕ) (tx : Tx) (err : Option TxError)
      → Ends e (BidsOf e w blocks) (after_pre e next price tx err w)
  unfolding after_pre
  after_pre-Bids w price tx none = elim (Option-cases (e.abi_pack "incForAuction" [])) [
    | inl failed ↦ rw failed ("incForAuction", [], failed)
    | inr (call, packed) ↦ rw packed (at_block-Bids w price tx call (e.block_number tt) refl)
  ]
  after_pre-Bids w price tx (some err) = inl (refl, λ r. cc)

  with_target-Bids :
      (w : World) (t : Target) (tmp : Account) (n price : ℕ) (tx : Option Tx)
      → Ends e (BidsOf e w blocks) (with_target e next t tmp n price tx w)
  unfolding with_target
  with_target-Bids w t tmp n price none = inl (refl, λ r. cc)
  with_target-Bids w t tmp n price (some tx) =
      continued e (Prepared w) (BidsOf e w blocks) (after_pre e next price tx)
        (pre_send_bid e t tmp n price w) (pre_send_bid-Ends e w t tmp n price)
        λ err v (bids, last, address, nonce).
          rw (← bids, ← last, ← address) (after_pre-Bids v price tx err)

  pub at_price-Bids :
      (w : World) (t : Target) (tmp : Account) (n : ℕ) (price : Option ℕ)
      → Ends e (BidsOf e w blocks) (at_price e next t tmp n price w)
  unfolding at_price
  at_price-Bids w t tmp n none = inl (refl, λ r. cc)
  at_price-Bids w t tmp n (some price) =
      continued e (Same w) (BidsOf e w blocks) (with_target e next t tmp n price)
        (generate_tx e t tmp n price w) (generate_tx-Ends e w t tmp n price)
        λ tx v same. rw (same) (with_target-Bids w t tmp n price tx)

module _ (e : Env) (t : Target) (tmp : Account) (n price block : ℕ) (tx : Tx) where
  -- After the bids are placed no more are.
  pub after_bids-Same :
      (w : World) (res : Option Bid × ℕ)
      → Ends e (λ r v. v.bids ≡ w.bids) (after_bids e t tmp n tx price block res w)
  unfolding after_bids update_nonce
  after_bids-Same w (none, k) = elim (Bool-cases (k == 2)) [
    | inl all ↦ rw all refl
    | inr some_other ↦ rw some_other refl
  ]
  after_bids-Same w (some b, k) =
      continued e (λ u v. Posted e w t tmp n price block u v × (v.bids ≡ w.bids)) _ _
        (post_send_bid e t tmp n price block w) (post_send_bid-Posted e t tmp n price block w)
        λ u v h. h.1

  pub after_answer-Same :
      (w : World) (b : Bid) (failed : Bool) (err : Option SendError)
      → Ends e (λ r v. v.bids ≡ w.bids) (after_answer e t tmp n tx b price block failed err w)
  unfolding after_answer
  after_answer-Same w b true err = refl
  after_answer-Same w b false none =
      continued e (λ u v. Posted e w t tmp n price block u v × (v.bids ≡ w.bids)) _ _
        (post_send_bid e t tmp n price block w) (post_send_bid-Posted e t tmp n price block w)
        λ u v h. h.1
  after_answer-Same w b false (some err) = rw (settle-settled (some err), ◌>>=◌) refl
