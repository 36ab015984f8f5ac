-- ===== src/Slave/Reservoir.antt =====
-- `createTestAccGroupsAndPrepareContracts` of klayslave/main.go: what goes into the slave's own
-- reservoir account, and what goes out of it. Fees are left out; amounts are not negative.
pub mod Payments
pub mod Laws
use kaia_load_tester.Prelude.{
  ℕ, ◌+◌, ◌*◌, Bool, true, false, Option, none, some, List, [], ◌∷◌, ◌++◌, String, if◌then◌else◌,
  ◌==◌, length,
}
use kaia_load_tester.AccGroup.{
  AccGroup, new_acc_group, create_accounts_per_acc_grp, contains_any_in_list, get_acc_list_by_name,
  acc_list_for_signed_tx, contract_end, get_valid_acc_grp, set_acc_grp_by_active_percent,
}
use kaia_load_tester.AccGroup.Deploy.{
  Event, charged, deployed, set_up, polled, charging, Deployment, Chain, deploy_test_contracts,
}
use kaia_load_tester.Contracts.Names.{contract_gasless_swap_router, contract_auction_entry_point}
use kaia_load_tester.Contracts.Registry.{test_contract_infos}
use kaia_load_tester.Contracts.Laws.{undeployed}
use kaia_load_tester.TestCase.Config.{
  acc_list_for_gasless_revert_tx, acc_list_for_gasless_approve_tx,
}

-- The numbers of accounts from the flags, and the amounts `GetChargeValue()` and
-- `GetInitialLiquidity()`.
pub record Amounts : Type 0 where
  pub n_user_for_unsigned : ℕ
  pub n_user_for_signed : ℕ
  pub n_user_for_new_accounts : ℕ
  pub n_user_for_tc : ℕ
  pub charge_value : ℕ
  pub initial_liquidity : ℕ

module _ (m : Amounts) (gsr_exists : Bool) where
  -- What the reservoir pays for the setup work: only the swap router's takes from it, and that only
  -- if the router is not yet registered.
  abbrev pub set_up_value : ℕ → ℕ
  set_up_value idx =
      if idx == contract_gasless_swap_router
      then (if gsr_exists then 0 else m.charge_value + m.initial_liquidity)
      else 0

  -- What it pays for the charging work: the deposits for the auction, one for each valid account.
  abbrev pub charging_value : ℕ → ℕ → ℕ
  charging_value valid idx =
      if idx == contract_auction_entry_point then m.charge_value * valid else 0

  abbrev pub event_value : ℕ → Event → ℕ
  event_value valid (charged idx) = m.charge_value
  event_value valid (deployed idx) = 0
  event_value valid (set_up idx) = set_up_value idx
  event_value valid (polled idx n) = 0
  event_value valid (charging idx) = charging_value valid idx

  unfoldable pub log_value : ℕ → List Event → ℕ
  log_value valid [] = 0
  log_value valid (x ∷ log) = event_value valid x + log_value valid log

module _ (m : Amounts) where
  -- `GetTotalChargeValue`
  abbrev pub get_total_charge_value : ℕ
  get_total_charge_value =
      m.charge_value
      * (m.n_user_for_unsigned + m.n_user_for_signed + m.n_user_for_new_accounts + contract_end)

module _ {A : Type 0} where
  abbrev pub listed : ℕ → AccGroup A → ℕ
  listed t g = length (get_acc_list_by_name t g)

  -- The accounts that are charged first.
  unfoldable pub charged_accounts : AccGroup A → List A
  charged_accounts g =
      (get_valid_acc_grp g ++ get_acc_list_by_name acc_list_for_gasless_revert_tx g)
      ++ get_acc_list_by_name acc_list_for_gasless_approve_tx g

module _ {A : Type 0} (m : Amounts) (gsr_exists : Bool) where
  -- `totalChargeValue`: what the global reservoir pays in.
  unfoldable pub total_charge_value : AccGroup A → ℕ
  total_charge_value g =
      get_total_charge_value m
      + ((if gsr_exists then 0 else m.initial_liquidity)
          + (m.charge_value * listed acc_list_for_signed_tx g
              + (m.charge_value * listed acc_list_for_gasless_revert_tx g
                  + m.charge_value * listed acc_list_for_gasless_approve_tx g)))

  -- What goes out: the charges of the accounts, then, with the active accounts only, what the
  -- deployment pays.
  unfoldable pub paid_out : Chain A → Bool → List String → List String → ℕ → AccGroup A → ℕ
  paid_out h is_leader tcs targets percent g =
      let active = set_acc_grp_by_active_percent percent g in
      m.charge_value * length (charged_accounts g)
      + log_value m gsr_exists (length (get_valid_acc_grp active))
          (deploy_test_contracts h is_leader tcs targets test_contract_infos undeployed).log

-- The first part of `RunAction`: the two gasless test cases get as many accounts of their own as
-- there are for signed transactions.
abbrev pub users_if : List String → String → ℕ → ℕ
users_if tcs name n = if contains_any_in_list tcs (name ∷ []) then n else 0

unfoldable pub test_accounts : {A : Type 0} → Amounts → (ℕ → ℕ → A) → List String → AccGroup A
test_accounts m new_account tcs =
    let unsigned = contains_any_in_list tcs ("transferUnsignedTx" ∷ []) in
    (create_accounts_per_acc_grp new_account
      (m.n_user_for_signed
        ∷ m.n_user_for_unsigned
        ∷ m.n_user_for_new_accounts
        ∷ users_if tcs "gaslessRevertTransactionTC" m.n_user_for_signed
        ∷ users_if tcs "gaslessOnlyApproveTC" m.n_user_for_signed
        ∷ m.n_user_for_tc
        ∷ [])
      tcs (new_acc_group unsigned)).1
