-- ===== src/TestCase/Requests/Auctions.antt =====
-- testcase/run_auction.go: `RunBaseWithAuction` and its two functions.
use kaia_load_tester.Prelude.{
  ℕ, ◌%◌, Bool, Option, none, some, List, String, str_eq, if◌then◌else◌, ◌==◌, length, get_elem?,
}
use kaia_load_tester.Account.Types.{Account, Env, TxError, M, ◌>>=◌, pure}
use kaia_load_tester.Account.TargetTx.{Target, vt, sc, rsc, gaa, gas, rgaa, rgas}
use kaia_load_tester.Account.Auction.{auction_bid, auction_reverted_bid}
use kaia_load_tester.AccGroup.AccountSet.{AccountSet, get_account_round_robin}
use kaia_load_tester.Contracts.Names.{
  contract_auction_entry_point, contract_counter_for_test_auction,
}
use kaia_load_tester.TestCase.Config.{contract_account}
use kaia_load_tester.TestCase.TcList.{Auction, run_auction_bid, run_auction_reverted_bid}
use kaia_load_tester.TestCase.Requests.{Task, Ran, panicked, with_client, call_by}
use kaia_load_tester.TestCase.Requests.ContractCalls.{both}

-- `TargetTxTypeList[key]`; nil for another key.
unfoldable pub target_of : String → Option Target
target_of key =
    if str_eq key "VT"
    then some vt
    else (if str_eq key "SC"
        then some sc
        else (if str_eq key "rSC"
            then some rsc
            else (if str_eq key "GAA"
                then some gaa
                else (if str_eq key "GAS"
                    then some gas
                    else (if str_eq key "rGAA"
                        then some rgaa
                        else (if str_eq key "rGAS" then some rgas else none))))))

-- A random key of the list: a division by zero, so a panic, where the list is empty; and nil, whose
-- function the code then calls, where the key is not in the map.
abbrev pub known_target : Option String → Option Target
known_target none = none
known_target (some key) = target_of key

unfoldable pub drawn_target : ℕ → List String → Option Target
drawn_target draw keys =
    if length keys == 0 then none else known_target (get_elem? keys (draw % length keys))

-- The account comes round robin, which moves the index.
abbrev pub moved : AccountSet Account → Task → Task
moved s t = record t { config = record t.config { acc_grp = s } }

module _ (e : Env) (order : Bool) (tmp : Account) where
  unfoldable pub auction_tx_func :
      Auction → Account × Account → Target → Account → M (Option TxError)
  auction_tx_func run_auction_bid (entry, to) target from = do
    r ← auction_bid e order entry to target tmp
    pure r.error
  auction_tx_func run_auction_reverted_bid (entry, to) target from = do
    r ← auction_reverted_bid e entry to target tmp
    pure r.error

  abbrev pub bid_as : Auction → Task → Account × Account → Option Target → Ran
  bid_as tc t to none = panicked (moved (get_account_round_robin t.config.acc_grp).1 t)
  bid_as tc t to (some target) =
      let (from, s) = get_account_round_robin t.config.acc_grp in
      call_by t.config.name t.config.acc_grp.round_robin_index (auction_tx_func tc to target)
        (moved s t) from

  -- `RunBaseWithAuction` with the function of the test case, for the contracts of the entry point and
  -- of the counter. A missing one is nil, and the code goes on with it until it reads the address,
  -- which is not followed here: `none`.
  abbrev pub to_contracts : Auction → ℕ → Task → Option (Account × Account) → Option Ran
  to_contracts tc draw t none = none
  to_contracts tc draw t (some to) =
      some (
        with_client (λ t. bid_as tc t to (drawn_target draw t.config.auction_target_tx_type_list))
          t)

  unfoldable pub run_base_with_auction : Auction → ℕ → Task → Option Ran
  run_base_with_auction tc draw t = to_contracts tc draw t (
      both (contract_account contract_auction_entry_point t.config)
        (contract_account contract_counter_for_test_auction t.config))
