-- ===== src/AccGroup/Deploy.antt =====
-- `DeployTestContracts` of klayslave/account/accgroup.go, as the sequence of what it does on the
-- chain. What the contracts' own functions answer are arguments.
pub mod Laws
pub mod Contracts
use kaia_load_tester.Prelude.{
  ℕ, ◌+◌, Bool, true, false, ◌||◌, Option, none, some, List, [], ◌∷◌, ◌++◌, if◌then◌else◌, ◌==◌,
  String, set,
}
use kaia_load_tester.AccGroup.{contains_any_in_list, wait_for_setup_completion}

-- `TestContractInfo`, as far as the deployment reads it.
pub record TestContractInfo : Type 0 where
  pub test_names : List String
  pub auction_target_tx_type_list : List String
  pub has_setup_work : Bool
  pub has_charging_work : Bool

-- What happens for the contract of a number: the deployer gets its charge, the contract is
-- deployed, its setup work is done; a slave polls so often for the setup; its charging work is done.
pub data Event : Type 0 where
  charged deployed set_up : ℕ → Event
  polled : ℕ → ℕ → Event
  charging : ℕ → Event

pub record Deployment (A : Type 0) : Type 0 where
  pub contracts : List (Option A)
  pub log : List Event

abbrev pub contract_general : ℕ
contract_general = 3

module _ {A : Type 0} where
  abbrev pub note : Event → Deployment A → Deployment A
  note x d = record d { log = d.log ++ x ∷ [] }

  abbrev pub set_contract : ℕ → A → Deployment A → Deployment A
  set_contract idx c d = record d { contracts = set d.contracts idx (some c) }

-- What the code asks: `IsDeployed`, the account at `GetAddress`, the account that the deployment
-- returns, and what the polls for the setup say.
pub record Chain (A : Type 0) : Type 0 where
  pub is_deployed : ℕ → Bool
  pub account_at : ℕ → A
  pub deploys_to : ℕ → A
  pub ready : ℕ → ℕ → Bool

module _ {A : Type 0} (h : Chain A) (is_leader : Bool) (tc_list target_tx_types : List String) where
  -- The condition under which neither phase skips a contract.
  unfoldable pub is_needed : ℕ → TestContractInfo → Bool
  is_needed idx info =
      (idx == contract_general)
      || (contains_any_in_list tc_list info.test_names
          || contains_any_in_list target_tx_types info.auction_target_tx_type_list)

  unfoldable pub set_up_if : Bool → ℕ → Deployment A → Deployment A
  set_up_if true idx d = note (set_up idx) d
  set_up_if false idx d = d

  unfoldable pub deploy_contract : ℕ → Bool → Deployment A → Deployment A
  deploy_contract idx true d = set_contract idx (h.account_at idx) d
  deploy_contract idx false d =
      set_contract idx (h.deploys_to idx) (note (deployed idx) (note (charged idx) d))

  unfoldable pub first_phase : ℕ → List TestContractInfo → Deployment A → Deployment A
  first_phase idx [] d = d
  first_phase idx (info ∷ infos) d = first_phase (idx + 1) infos (
      if is_needed idx info
      then (if is_leader
          then set_up_if info.has_setup_work idx (deploy_contract idx (h.is_deployed idx) d)
          else d)
      else d)

  unfoldable pub await_leader : Bool → ℕ → Deployment A → Deployment A
  await_leader true idx d = d
  await_leader false idx d =
      set_contract idx (h.account_at idx)
        (note (polled idx (wait_for_setup_completion (h.ready idx))) d)

  unfoldable pub charge_if : Bool → ℕ → Deployment A → Deployment A
  charge_if true idx d = note (charging idx) d
  charge_if false idx d = d

  unfoldable pub second_phase : ℕ → List TestContractInfo → Deployment A → Deployment A
  second_phase idx [] d = d
  second_phase idx (info ∷ infos) d = second_phase (idx + 1) infos (
      if is_needed idx info
      then charge_if info.has_charging_work idx (await_leader is_leader idx d)
      else d)

  unfoldable pub deploy_test_contracts : List TestContractInfo → Deployment A → Deployment A
  deploy_test_contracts infos d = second_phase 0 infos (first_phase 0 infos d)
