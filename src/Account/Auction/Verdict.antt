-- ===== src/Account/Auction/Verdict.antt =====
-- How `AuctionBid` of klayslave/account/account.go reads the results of its two bids.
use kaia_load_tester.Prelude.{
  ◌+◌, ◌≡◌, ◌⊎◌, ◌↔◌, Bool, true, false, Option, none, some, [], ◌∷◌, arith,
}
use kaia_load_tester.Account.Types.{Bid, Env, SendError}
use kaia_load_tester.Account.Nonce.{is_nonce_used}
use kaia_load_tester.Account.Auction.{succeeded, latest, counted, handle_results}

-- An error text that says that the nonce was used.
abbrev pub used : Option SendError → Bool
used none = false
used (some err) = is_nonce_used err

abbrev Reads : (x y : Option SendError) → Type 0
Reads x y =
    (0 + counted (latest none x) + counted (latest (latest none x) y) ≡ 2)
    ↔ ((used x ≡ true) × ((used y ≡ true) ⊎ (y ≡ none)))

Reads-all : (x y : Option SendError) → Reads x y
unfolding is_nonce_used
Reads-all none none = ground arith
Reads-all none (some b) = ground arith
Reads-all (some a) none = ground arith
Reads-all (some a) (some b) = ground arith

-- If both bids fail, the nonce is counted as used just if the first result to arrive says that it
-- was used and the second says so or has no error text at all: a result without a text is
-- read with the text of the one before.
pub handle_results-both_failed :
    (e : Env) (b c : Bid)
    → succeeded (e.send_auction_tx b) ≡ false
    → succeeded (e.send_auction_tx c) ≡ false
    → ((handle_results e (b ∷ c ∷ []) none 0).1 ≡ 2) ↔ (
        (used (e.send_auction_tx b).submit_error ≡ true)
        × ((used (e.send_auction_tx c).submit_error ≡ true)
            ⊎ ((e.send_auction_tx c).submit_error ≡ none)))
unfolding handle_results
handle_results-both_failed e b c hb hc = rw (hb, hc) (Reads-all _ _)
