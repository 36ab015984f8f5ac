-- ===== src/Slave/Tests.antt =====
-- Flags of a slave.
use kaia_load_tester.Prelude.{
  arith, ℕ, ◌≤◌, ◌+◌, ◌*◌, inr, ◌≡◌, refl, true, false, none, some, List, [], ◌∷◌, String, pos,
  negsuc,
}
use kaia_load_tester.TestCase.TcList.{find_tc}
use kaia_load_tester.Contracts.Laws.{undeployed}
use kaia_load_tester.Slave.Tasks.{initialize_tasks}
use kaia_load_tester.Slave.Tasks.Laws.{AllSupplied, initialize_tasks-AllSupplied}
use kaia_load_tester.AccGroup.{
  AccGroup, contains_any_in_list, contains_in_list, get_valid_acc_grp,
  set_acc_grp_by_active_percent, create_accounts_per_acc_grp, create_lists, create_accounts,
}
use kaia_load_tester.Slave.Flags.{
  Flags, config_of, known_tcs, known_targets, parse_weights, check_tcs, read_targets,
  set_configs_from_flag, get_extended_tasks,
}
use kaia_load_tester.AccGroup.Deploy.{
  Chain, deploy_test_contracts, first_phase, second_phase, is_needed, set_up_if, deploy_contract,
  await_leader, charge_if,
}
use kaia_load_tester.Contracts.Registry.{test_contract_infos}
use kaia_load_tester.Slave.Reservoir.{
  Amounts, paid_out, log_value, charged_accounts, total_charge_value, test_accounts,
}
use kaia_load_tester.Slave.Reservoir.Laws.{paid_out-le-total_charge_value}
use kaia_load_tester.Slave.Flags.Laws.{AllKnown, IsValid, set_configs_from_flag-IsValid}
use kaia_load_tester.Slave.Flags.RoundTrip.{Chosen, get_extended_tasks-Chosen}

abbrev flags : Flags
flags = record {
  endpoint = "http://localhost:8551";
  vusigned = pos 5;
  vuunsigned = pos 5;
  n_user_for_tc = pos 0;
  active_user_percent = pos 100;
  charge = pos 1000;
  charge_parallel = pos 0;
  key = "2ef0";
  leader = true;
  tc = "readCall,erc20TransferTC";
  weights = "3,-1";
  auction_target_tx_type_list = "";
  max_rps = pos 100;
}

accepted :
    set_configs_from_flag flags ≡ some (config_of flags ("readCall" ∷ "erc20TransferTC" ∷ []) [])
unfolding set_configs_from_flag read_targets check_tcs known_tcs find_tc contains_any_in_list
    contains_in_list
accepted = refl

-- An unknown name is skipped, and then the weights do not match and are dropped.
skipped :
    set_configs_from_flag (record flags { tc = "readCall,nothing" })
    ≡ some (record (config_of flags ("readCall" ∷ []) []) { tc_weights = [] })
unfolding set_configs_from_flag read_targets check_tcs known_tcs find_tc contains_any_in_list
    contains_in_list parse_weights
skipped = refl

-- Target types of which none is known are accepted, and no target is left.
no_targets_left :
    set_configs_from_flag
      (record flags { tc = "auctionBidTC"; auction_target_tx_type_list = "vt"; max_rps = pos 5 })
    ≡ some (record (config_of flags ("auctionBidTC" ∷ []) []) { tc_weights = [] })
unfolding set_configs_from_flag read_targets check_tcs known_tcs find_tc contains_any_in_list
    contains_in_list known_targets parse_weights
no_targets_left = refl

-- More requests a second than accounts, with an auction.
short_of_accounts :
    set_configs_from_flag (record flags { tc = "auctionBidTC"; auction_target_tx_type_list = "VT" })
    ≡ none
unfolding set_configs_from_flag read_targets check_tcs known_tcs find_tc contains_any_in_list
    contains_in_list
short_of_accounts = refl

set_configs_from_flag-IsValid_example :
    IsValid flags (config_of flags ("readCall" ∷ "erc20TransferTC" ∷ []) [])
set_configs_from_flag-IsValid_example = set_configs_from_flag-IsValid flags accepted

both_known : AllKnown ("readCall" ∷ "erc20TransferTC" ∷ [])
unfolding find_tc
both_known = ((_, refl), ((_, refl), tt))

get_extended_tasks-Chosen_example :
    Chosen
      (pos 3 ∷ negsuc 0 ∷ [])
      ("readCall" ∷ "erc20TransferTC" ∷ [])
      (get_extended_tasks (config_of flags ("readCall" ∷ "erc20TransferTC" ∷ []) []))
get_extended_tasks-Chosen_example =
    get_extended_tasks-Chosen flags "readCall" "3" ("erc20TransferTC" ∷ []) ("-1" ∷ [])
      (pos 3 ∷ negsuc 0 ∷ []) accepted both_known refl refl (refl, (refl, tt)) refl

abbrev fresh : Chain ℕ
fresh = record {
  is_deployed = λ i. false;
  account_at = λ i. i;
  deploys_to = λ i. i;
  ready = λ i k. true;
}

abbrev erc20_group : AccGroup ℕ
erc20_group = record {
  contains_unsigned_acc_grp = false;
  acc_lists = (1 ∷ 2 ∷ []) ∷ [] ∷ [] ∷ [] ∷ [] ∷ [] ∷ [];
  contracts =
      (deploy_test_contracts fresh true ("readCall" ∷ "erc20TransferTC" ∷ []) [] test_contract_infos
        undeployed).contracts;
}

initialize_tasks-AllSupplied_example : AllSupplied (
    initialize_tasks
      (λ i k. i)
      (λ i k. k)
      (λ i k. i + k)
      erc20_group
      "http://localhost:8551"
      0
      []
      (get_extended_tasks (config_of flags ("readCall" ∷ "erc20TransferTC" ∷ []) [])))
initialize_tasks-AllSupplied_example =
    initialize_tasks-AllSupplied fresh true
      (config_of flags ("readCall" ∷ "erc20TransferTC" ∷ []) []) (λ i k. i) (λ i k. k)
      (λ i k. i + k) erc20_group refl

-- Three accounts for signed transactions, four for unsigned ones, and the auction.
abbrev amounts : Amounts
amounts = record {
  n_user_for_unsigned = 4;
  n_user_for_signed = 3;
  n_user_for_new_accounts = 5;
  n_user_for_tc = 0;
  charge_value = 10;
  initial_liquidity = 7;
}

abbrev both : List String
both = "auctionBidTC" ∷ "transferUnsignedTx" ∷ []

paid_out-le-total_charge_value_example :
    paid_out amounts false fresh true both [] 100 (test_accounts amounts (λ t i. 100 * t + i) both)
    ≤ total_charge_value amounts false (test_accounts amounts (λ t i. 100 * t + i) both)
paid_out-le-total_charge_value_example =
    paid_out-le-total_charge_value amounts false fresh true both [] 100 (λ t i. 100 * t + i) refl
      (omega arith) (inr (omega arith))

-- With 22 accounts for unsigned transactions the deposits are no longer covered.
abbrev many : Amounts
many = record amounts { n_user_for_unsigned = 22 }

many_paid :
    paid_out many false fresh true both [] 100 (test_accounts many (λ t i. 100 * t + i) both) ≡ 550
unfolding paid_out test_accounts log_value charged_accounts get_valid_acc_grp
    set_acc_grp_by_active_percent create_accounts_per_acc_grp create_lists create_accounts
    deploy_test_contracts first_phase second_phase is_needed set_up_if deploy_contract await_leader
    charge_if contains_any_in_list contains_in_list test_contract_infos
many_paid = refl

many_given : total_charge_value many false (test_accounts many (λ t i. 100 * t + i) both) ≡ 547
unfolding total_charge_value test_accounts create_accounts_per_acc_grp create_lists create_accounts
    contains_any_in_list contains_in_list
many_given = refl
