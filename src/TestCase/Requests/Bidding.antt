-- ===== src/TestCase/Requests/Bidding.antt =====
-- What a request of an auction test case does, and why one panics.
use kaia_load_tester.Prelude.{
  ℕ, zero, suc, ◌%◌, ◌<◌, ◌≡◌, refl, ap, subst, ◌⊎◌, inl, inr, Bool, false, Option, none, some,
  List, [], ◌∷◌, ◌++◌, String, length, get_elem?, Option-cases, ◌==◌, arith,
}
use kaia_load_tester.Account.Types.{Account, Env, TxError, World, Outcome, done, fatal}
use kaia_load_tester.Account.TargetTx.{Target, vt, sc, rsc, gaa, gas, rgaa, rgas}
use kaia_load_tester.Clipool.{ClientPool, alloc}
use kaia_load_tester.Clipool.Returned.{Returned, alloc-free}
use kaia_load_tester.AccGroup.AccountSet.{get_account_round_robin}
use kaia_load_tester.AccGroup.Laws.{Stands}
use kaia_load_tester.Contracts.Names.{
  contract_auction_entry_point, contract_counter_for_test_auction,
}
use kaia_load_tester.TestCase.Config.{contract_account}
use kaia_load_tester.TestCase.TcList.{Auction}
use kaia_load_tester.TestCase.Requests.{
  Task, Ran, ended, panicked, exited, put_pool, release, with_client, published, after_call,
}
use kaia_load_tester.TestCase.Requests.ContractCalls.{both}
use kaia_load_tester.TestCase.Requests.Auctions.{
  target_of, known_target, drawn_target, auction_tx_func, moved, bid_as, to_contracts,
  run_base_with_auction,
}

-- Each key of the list names a target.
abbrev pub AllTargets : List String → Type 0
AllTargets [] = Unit
AllTargets (key ∷ keys) = ((target : Target) × (target_of key ≡ some target)) × AllTargets keys

pub listed_target :
    (key : String)
    → Stands key ("VT" ∷ "SC" ∷ "rSC" ∷ "GAA" ∷ "GAS" ∷ "rGAA" ∷ "rGAS" ∷ [])
    → (target : Target) × (target_of key ≡ some target)
unfolding target_of
listed_target key (inl e) = subst (λ k. (x : Target) × (target_of k ≡ some x)) e (vt, refl)
listed_target key (inr (inl e)) = subst (λ k. (x : Target) × (target_of k ≡ some x)) e (sc, refl)
listed_target key (inr (inr (inl e))) =
    subst (λ k. (x : Target) × (target_of k ≡ some x)) e (rsc, refl)
listed_target key (inr (inr (inr (inl e)))) =
    subst (λ k. (x : Target) × (target_of k ≡ some x)) e (gaa, refl)
listed_target key (inr (inr (inr (inr (inl e))))) =
    subst (λ k. (x : Target) × (target_of k ≡ some x)) e (gas, refl)
listed_target key (inr (inr (inr (inr (inr (inl e)))))) =
    subst (λ k. (x : Target) × (target_of k ≡ some x)) e (rgaa, refl)
listed_target key (inr (inr (inr (inr (inr (inr (inl e))))))) =
    subst (λ k. (x : Target) × (target_of k ≡ some x)) e (rgas, refl)
listed_target key (inr (inr (inr (inr (inr (inr (inr h))))))) = absurd h

all_drawn :
    (keys : List String) (i : ℕ)
    → AllTargets keys
    → i < length keys
    → (target : Target) × (known_target (get_elem? keys i) ≡ some target)
all_drawn [] i all below = absurd (omega arith)
all_drawn (key ∷ keys) zero (one, all) below = one
all_drawn (key ∷ keys) (suc i) (one, all) below = all_drawn keys i all (omega arith)

-- Of a list of keys that name targets, a draw fails only if the list is empty.
drawn_target-cases :
    (draw : ℕ) (keys : List String)
    → AllTargets keys
    → ((keys ≡ []) × (drawn_target draw keys ≡ none))
      ⊎ ((target : Target) × (drawn_target draw keys ≡ some target))
unfolding drawn_target
drawn_target-cases draw [] all = inl (refl, refl)
drawn_target-cases draw (key ∷ keys) all =
    let n : ℕ = length (key ∷ keys) in
    let some_key : (n == 0) ≡ false = ground arith in
    let (target, e) = all_drawn (key ∷ keys) (draw % n) all (ground arith) in
    inr (target, rw (some_key, e) refl)

-- Nothing of what the task has sent and published changes.
abbrev pub Wasted : Task → Task → Type 0
Wasted t t' = (t'.sent ≡ t.sent) × (t'.bids ≡ t.bids) × (t'.events ≡ t.events)

abbrev pub to_of : Task → Option (Account × Account)
to_of t =
    both (contract_account contract_auction_entry_point t.config)
      (contract_account contract_counter_for_test_auction t.config)

-- Without an account or a key, a panic that leaves what was sent and published. Else the account whose turn it is runs the method with the drawn target, and the outcome is published.
abbrev pub BiddingWith :
    (ClientPool ℕ → Type 0) → Env → Bool → Account → Auction → ℕ → Task → Ran → Type 0
BiddingWith pooled e order tmp tc draw t (panicked t') =
    (((get_account_round_robin t.config.acc_grp).0 ≡ none)
      ⊎ (t.config.auction_target_tx_type_list ≡ []))
    × Wasted t t'
    × pooled t'.config.cli_pool
BiddingWith pooled e order tmp tc draw t exited =
    (from : Account) × (to : Account × Account) × (target : Target) × ((get_account_round_robin
        t.config.acc_grp).0
      ≡ some from)
    × (to_of t ≡ some to)
    × (drawn_target draw t.config.auction_target_tx_type_list ≡ some target)
    × (auction_tx_func e order tmp tc to target from
          (record { self = from; sent = t.sent; bids = t.bids })
        ≡ fatal)
BiddingWith pooled e order tmp tc draw t (ended t') =
    (from : Account) × (to : Account × Account) × (target : Target) × (err : Option TxError)
    × (w : World) × ((get_account_round_robin t.config.acc_grp).0 ≡ some from)
    × (to_of t ≡ some to)
    × (drawn_target draw t.config.auction_target_tx_type_list ≡ some target)
    × (auction_tx_func e order tmp tc to target from
          (record { self = from; sent = t.sent; bids = t.bids })
        ≡ done err w)
    × (t'.sent ≡ w.sent)
    × (t'.bids ≡ w.bids)
    × (t'.events ≡ t.events ++ published t.config.name err ∷ [])
    × pooled t'.config.cli_pool

abbrev pub Bidding : Env → Bool → Account → Auction → ℕ → Task → Ran → Type 0
Bidding e order tmp tc draw t = BiddingWith (Returned t.config.cli_pool) e order tmp tc draw t

module _ (e : Env) (order : Bool) (tmp : Account) (tc : Auction) (draw : ℕ) (t : Task) where
  -- Before the client is given back the pool is the one without it.
  abbrev Before : Ran → Type 0
  Before r = BiddingWith (λ p. p ≡ (alloc t.config.cli_pool).1) e order tmp tc draw t r

  abbrev taken : Task
  taken = put_pool (alloc t.config.cli_pool).1 t

  after_call-Before :
      (from : Account) (to : Account × Account) (target : Target) (out : Outcome (Option TxError))
      → (get_account_round_robin t.config.acc_grp).0 ≡ some from
      → to_of t ≡ some to
      → drawn_target draw t.config.auction_target_tx_type_list ≡ some target
      → auction_tx_func e order tmp tc to target from
          (record { self = from; sent = t.sent; bids = t.bids })
        ≡ out
      → Before (
          after_call t.config.name t.config.acc_grp.round_robin_index
            (moved (get_account_round_robin t.config.acc_grp).1 taken)
            out)
  after_call-Before from to target fatal turn at drawn ran =
      (from, to, target, turn, at, drawn, ran)
  after_call-Before from to target (done err w) turn at drawn ran =
      (from, to, target, err, w, turn, at, drawn, ran, refl, refl, refl, refl)

  bid_as-Before :
      (to : Account × Account)
      → AllTargets t.config.auction_target_tx_type_list
      → to_of t ≡ some to
      → Before
          (bid_as e order tmp tc taken to (drawn_target draw t.config.auction_target_tx_type_list))
  bid_as-Before to all at =
      elim (drawn_target-cases draw t.config.auction_target_tx_type_list all) [
        | inl (empty, undrawn) ↦ rw undrawn (inr empty, (refl, refl, refl), refl)
        | inr (target, drawn) ↦
            rw drawn (elim (Option-cases (get_account_round_robin t.config.acc_grp).0) [
              | inl nobody ↦ rw nobody (inl nobody, (refl, refl, refl), refl)
              | inr (from, turn) ↦ rw turn (after_call-Before from to target _ turn at drawn refl)
            ])
      ]

  release-Bidding :
      (r : Ran) → Before r → Bidding e order tmp tc draw t (release (alloc t.config.cli_pool).0 r)
  release-Bidding exited h = h
  release-Bidding (panicked t') (why, wasted, same) =
      (why, wasted, rw same (alloc-free t.config.cli_pool))
  release-Bidding (ended t')
        (from, to, target, err, w, turn, at, drawn, ran, sent, bids, said, same) =
      (
        from,
        to,
        target,
        err,
        w,
        turn,
        at,
        drawn,
        ran,
        sent,
        bids,
        said,
        rw same (alloc-free t.config.cli_pool),
      )

  -- If both contracts are there and every key of the target list names a target, a request of an
  -- auction test case panics only for want of an account or of any key, and then sends and publishes
  -- nothing. If it neither panics nor ends the process, the account whose turn it is has run the
  -- method with the drawn target, and one event is published, a success just if the method returned
  -- no error. The client is given back, unless the process ends, which happens only in the method.
  pub run_base_with_auction-Bidding :
      (to : Account × Account)
      → to_of t ≡ some to
      → AllTargets t.config.auction_target_tx_type_list
      → (r : Ran) × (run_base_with_auction e order tmp tc draw t ≡ some r)
        × Bidding e order tmp tc draw t r
  unfolding run_base_with_auction with_client
  run_base_with_auction-Bidding to at all =
      let drawn : Option Target = drawn_target draw t.config.auction_target_tx_type_list in
      (
        release (alloc t.config.cli_pool).0 (bid_as e order tmp tc taken to drawn),
        ap (to_contracts e order tmp tc draw t) at,
        release-Bidding (bid_as e order tmp tc taken to drawn) (bid_as-Before to all at),
      )
