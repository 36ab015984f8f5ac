-- ===== src/Account/Auction/Rounds.antt =====
-- The bids of `AuctionBid` and `AuctionRevertedBid`: which blocks they are for, and when there
-- are none.
use kaia_load_tester.Prelude.{
  ℕ, ◌+◌, ◌-◌, ◌^◌, ◌≡◌, refl, inl, inr, Bool, none, List, [], ◌∷◌, ◌++◌, Bool-cases,
}
use kaia_load_tester.Account.Types.{Account, Env, World, ◌>>=◌}
use kaia_load_tester.Account.Send.Laws.{get_nonce-next, next_nonce}
use kaia_load_tester.Account.TargetTx.{Target}
use kaia_load_tester.Account.TargetTx.Before.{Ends, weaken}
use kaia_load_tester.Account.Auction.{
  bid_of, place, prepare, Then, arrival, handle_results, bid_twice, auction_bid, bid_once,
  auction_reverted_bid,
}
use kaia_load_tester.Account.Auction.Laws.{
  BidsOf, Continues, at_price-Bids, after_bids-Same, after_answer-Same,
}

-- The blocks that a bid may be mined in, by the current one.
abbrev pub next_two : ℕ → List ℕ
next_two m = (m + 1) ∷ (m + 2) ∷ []

abbrev pub next_one : ℕ → List ℕ
next_one m = (m + 1) ∷ []

module _ (e : Env) (t : Target) (tmp entry to : Account) (n : ℕ) where
  bid_twice-Bids : (order : Bool) → Continues e next_two (bid_twice e order entry to t tmp n)
  unfolding bid_twice place
  bid_twice-Bids order w tx price m call h last =
      let app = e.entrypoint_nonce w.self.address in
      let b = bid_of w.self to.address app (m + 1) tx call in
      let c = bid_of w.self to.address app (m + 2) tx call in
      elim (Bool-cases (e.sign_bid_ok b entry.address)) [
        | inl ok ↦ rw ok (elim (Bool-cases (e.sign_bid_ok c entry.address)) [
          | inl both ↦ rw both (
              weaken e (λ r v. v.bids ≡ w.bids ++ b ∷ c ∷ []) (BidsOf e w next_two) _
                (after_bids-Same e t tmp n price m tx (record w { bids = w.bids ++ b ∷ c ∷ [] })
                  (handle_results e (arrival e order b c) none 0))
                λ r v same. inr (m, b ∷ c ∷ [], same, (h, last, refl, (tx, refl), refl)))
          | inr refused ↦ rw refused (inl (refl, λ q. cc))
        ])
        | inr refused ↦ rw refused (inl (refl, λ q. cc))
      ]

  bid_once-Bids : Continues e next_one (bid_once e entry to t tmp n)
  unfolding bid_once place
  bid_once-Bids w tx price m call h last =
      let b = bid_of w.self to.address (2 ^ 63 - 1) (m + 1) tx call in
      elim (Bool-cases (e.sign_bid_ok b entry.address)) [
        | inl ok ↦ rw ok (
            weaken e (λ r v. v.bids ≡ w.bids ++ b ∷ []) (BidsOf e w next_one) _
              (after_answer-Same e t tmp n price m tx (record w { bids = w.bids ++ b ∷ [] }) b _ _)
              λ r v same. inr (m, b ∷ [], same, (h, last, refl, (tx, refl), refl)))
        | inr refused ↦ rw refused (inl (refl, λ q. cc))
      ]

prepare-Bids :
    (e : Env) (blocks : ℕ → List ℕ) (next : ℕ → Then) (t : Target) (tmp : Account) (w : World)
    → ((n : ℕ) → Continues e blocks (next n))
    → Ends e (BidsOf e w blocks) (prepare e next t tmp w)
unfolding prepare
prepare-Bids e blocks next t tmp w k =
    rw (get_nonce-next e w, ◌>>=◌)
      (at_price-Bids e blocks (next (next_nonce e w.self)) (k (next_nonce e w.self))
        (record w { self = record w.self { nonce = next_nonce e w.self } }) t tmp
        (next_nonce e w.self) (e.suggest_gas_price tt))

-- `AuctionBid`, whatever the node and the libraries answer and in whichever order the two results
-- arrive: it places two bids or none, and where it places none it returns an error. The two are for
-- the two blocks after the current one, for the same target transaction, and from the account; and
-- they are placed only if the account has not yet sent for the current block. The process ends only
-- where call data cannot be packed.
pub auction_bid-Bids :
    (e : Env) (order : Bool) (entry to : Account) (t : Target) (tmp : Account) (w : World)
    → Ends e (BidsOf e w next_two) (auction_bid e order entry to t tmp w)
unfolding auction_bid
auction_bid-Bids e order entry to t tmp w =
    prepare-Bids e next_two _ t tmp w λ n. bid_twice-Bids e t tmp entry to n order

-- `AuctionRevertedBid`, whatever the node and the libraries answer: it places one bid or none, and
-- where it places none it returns an error. The bid is for the block after the current one and from
-- the account, and it is placed only if the account has not yet sent for the current block. The
-- process ends only where call data cannot be packed.
pub auction_reverted_bid-Bids :
    (e : Env) (entry to : Account) (t : Target) (tmp : Account) (w : World)
    → Ends e (BidsOf e w next_one) (auction_reverted_bid e entry to t tmp w)
unfolding auction_reverted_bid
auction_reverted_bid-Bids e entry to t tmp w =
    prepare-Bids e next_one _ t tmp w (bid_once-Bids e t tmp entry to)
