-- ===== src/AccGroup/Tests.antt =====
-- Runs of the account groups and of an account set, with numbers for accounts.
use kaia_load_tester.Prelude.{
  none, ◌++◌, ℕ, ◌+◌, ◌*◌, ◌<◌, ◌≡◌, refl, ◌↔◌, Bool, true, false, some, List, String, [], ◌∷◌, map,
  length, get_elem?, arith, ◌==◌,
}
use kaia_load_tester.AccGroup.{
  AccGroup, new_acc_group, get_acc_list_by_name, create_accounts, create_lists,
  create_accounts_per_acc_grp, unlock_for, set_acc_grp_by_active_percent, get_valid_acc_grp,
  contains_any_in_list, contains_in_list, wait_for_setup_completion,
}
use kaia_load_tester.AccGroup.Creation.{made_lists, create_accounts_per_acc_grp-made}
use kaia_load_tester.AccGroup.Deploy.{
  TestContractInfo, Event, charged, deployed, set_up, charging, Deployment, Chain, is_needed,
  set_up_if, deploy_contract, first_phase, await_leader, charge_if, second_phase,
  deploy_test_contracts,
}
use kaia_load_tester.AccGroup.Deploy.Laws.{Every, Prepares, Charges, deploy_test_contracts-ordered}
use kaia_load_tester.AccGroup.Laws.{
  Stands, Common, contains_any_in_list-Common, Polled, wait_for_setup_completion-Polled,
  set_acc_grp_by_active_percent-front,
}
use kaia_load_tester.AccGroup.AccountSet.RoundRobin.{taken, at, round_robin_rotates}

abbrev numbered : ℕ → ℕ → ℕ
numbered t i = 100 * t + i

abbrev tasks : List String
tasks = "transferSignedTx" ∷ "transferUnsignedTx" ∷ []

abbrev created : List ℕ × AccGroup ℕ
created =
    create_accounts_per_acc_grp numbered (3 ∷ 2 ∷ 0 ∷ 0 ∷ 0 ∷ 4 ∷ []) tasks (new_acc_group true)

created_unlocked : created.0 ≡ 100 ∷ 101 ∷ []
unfolding create_accounts_per_acc_grp create_lists create_accounts unlock_for
created_unlocked = refl

created_valid : get_valid_acc_grp created.1 ≡ 0 ∷ 1 ∷ 2 ∷ 100 ∷ 101 ∷ []
unfolding create_accounts_per_acc_grp create_lists create_accounts get_valid_acc_grp
created_valid = refl

abbrev three : AccGroup ℕ
three = record {
  contains_unsigned_acc_grp = false;
  acc_lists = (1 ∷ 2 ∷ 3 ∷ []) ∷ [];
  contracts = [];
}

set_acc_grp_by_active_percent-front_example :
    (length (get_acc_list_by_name 0 (set_acc_grp_by_active_percent 70 three)) ≡ 2)
    × ((i : ℕ)
        → i < length (get_acc_list_by_name 0 (set_acc_grp_by_active_percent 70 three))
        → get_elem? (get_acc_list_by_name 0 (set_acc_grp_by_active_percent 70 three)) i
          ≡ get_elem? (1 ∷ 2 ∷ 3 ∷ []) i)
set_acc_grp_by_active_percent-front_example =
    set_acc_grp_by_active_percent-front 70 0 three (omega arith)

contains_any_in_list-Common_example :
    (contains_any_in_list ("a" ∷ "b" ∷ []) ("c" ∷ "b" ∷ []) ≡ true)
    ↔ Common ("a" ∷ "b" ∷ []) ("c" ∷ "b" ∷ [])
contains_any_in_list-Common_example = contains_any_in_list-Common ("a" ∷ "b" ∷ []) ("c" ∷ "b" ∷ [])

abbrev fifth : ℕ → Bool
fifth k = k == 4

wait_for_setup_completion-Polled_example : Polled fifth 60 0 (wait_for_setup_completion fifth)
wait_for_setup_completion-Polled_example = wait_for_setup_completion-Polled fifth

round_robin_rotates_example :
    taken {A = ℕ} 3 (at (1 ∷ 2 ∷ 3 ∷ []) 1) ≡ (map some (2 ∷ 3 ∷ 1 ∷ []), at (1 ∷ 2 ∷ 3 ∷ []) 1)
round_robin_rotates_example = round_robin_rotates {A = ℕ} (1 ∷ []) 2 (3 ∷ [])

-- A leader that finds the general contract deployed and the other one not.
abbrev chain : Chain ℕ
chain = record {
  is_deployed = λ i. i == 3;
  account_at = λ i. 200 + i;
  deploys_to = λ i. 300 + i;
  ready = λ i k. k == 2;
}

-- A contract for a test case, and one for none.
abbrev tested : TestContractInfo
tested = record {
  test_names = "erc20TransferTC" ∷ [];
  auction_target_tx_type_list = [];
  has_setup_work = true;
  has_charging_work = true;
}

abbrev untested : TestContractInfo
untested = record {
  test_names = [];
  auction_target_tx_type_list = [];
  has_setup_work = false;
  has_charging_work = false;
}

abbrev infos : List TestContractInfo
infos = tested ∷ untested ∷ untested ∷ untested ∷ []

abbrev undeployed : Deployment ℕ
undeployed = record { contracts = none ∷ none ∷ none ∷ none ∷ []; log = [] }

deploy_test_contracts-ordered_example :
    (xs : List Event) × (ys : List Event) × ((deploy_test_contracts chain true
        ("erc20TransferTC" ∷ [])
        []
        infos
        undeployed).log
      ≡ ([] ++ xs) ++ ys)
    × Every (Prepares true) xs
    × Every (Charges true) ys
deploy_test_contracts-ordered_example =
    deploy_test_contracts-ordered chain true ("erc20TransferTC" ∷ []) [] infos undeployed

leader_run :
    deploy_test_contracts chain true ("erc20TransferTC" ∷ []) [] infos undeployed ≡ record {
      contracts = some 300 ∷ none ∷ none ∷ some 203 ∷ [];
      log = charged 0 ∷ deployed 0 ∷ set_up 0 ∷ charging 0 ∷ [];
    }
unfolding deploy_test_contracts first_phase second_phase is_needed contains_any_in_list
    contains_in_list set_up_if deploy_contract await_leader charge_if
leader_run = refl

create_accounts_per_acc_grp-made_example :
    (created.1.acc_lists ≡ made_lists numbered 0 (3 ∷ 2 ∷ 0 ∷ 0 ∷ 0 ∷ 4 ∷ []))
    × (Stands "transferUnsignedTx" tasks → created.0 ≡ 100 ∷ 101 ∷ [])
    × (¬ Stands "transferUnsignedTx" tasks → created.0 ≡ [])
create_accounts_per_acc_grp-made_example =
    create_accounts_per_acc_grp-made numbered (3 ∷ 2 ∷ 0 ∷ 0 ∷ 0 ∷ 4 ∷ []) tasks true refl
