-- ===== src/Slave/Reservoir/Payments.antt =====
-- What the deployment makes the reservoir pay at most.
use kaia_load_tester.Prelude.{
  ℕ, ◌+◌, ◌*◌, ◌≤◌, ◌≡◌, Bool, true, false, List, [], ◌∷◌, ◌++◌, String, if◌then◌else◌, arith,
}
use kaia_load_tester.AccGroup.Deploy.{
  TestContractInfo, Event, charged, deployed, set_up, polled, charging, Deployment, Chain,
  is_needed, set_up_if, deploy_contract, first_phase, await_leader, charge_if, second_phase,
  deploy_test_contracts,
}
use kaia_load_tester.Contracts.Registry.{test_contract_infos}
use kaia_load_tester.Contracts.Laws.{undeployed}
use kaia_load_tester.Slave.Reservoir.{Amounts, set_up_value, charging_value, event_value, log_value}

module _ (m : Amounts) (gsr_exists : Bool) (valid : ℕ) where
  abbrev pub value : List Event → ℕ
  value = log_value m gsr_exists valid

  value-note :
      (log : List Event) (x : Event)
      → value (log ++ x ∷ []) ≡ value log + event_value m gsr_exists valid x
  unfolding log_value
  value-note [] x = omega arith
  value-note (y ∷ log) x = omega (arith, value-note log x)

  -- What the loops of the two phases can pay at most, from the number `idx` on.
  abbrev first_bound : ℕ → List TestContractInfo → ℕ
  first_bound idx [] = 0
  first_bound idx (info ∷ infos) =
      m.charge_value + set_up_value m gsr_exists idx + first_bound (idx + 1) infos

  abbrev second_bound : ℕ → List TestContractInfo → ℕ
  second_bound idx [] = 0
  second_bound idx (info ∷ infos) =
      charging_value m gsr_exists valid idx + second_bound (idx + 1) infos

  module _ {A : Type 0} (h : Chain A) (leader : Bool) (tcs targets : List String) where
    set_up_if-value :
        (b : Bool) (idx : ℕ) (d : Deployment A)
        → value (set_up_if h leader tcs targets b idx d).log
          ≤ value d.log + set_up_value m gsr_exists idx
    unfolding set_up_if
    set_up_if-value true idx d = omega (arith, value-note d.log (set_up idx))
    set_up_if-value false idx d = omega arith

    deploy_contract-value :
        (idx : ℕ) (b : Bool) (d : Deployment A)
        → value (deploy_contract h leader tcs targets idx b d).log ≤ value d.log + m.charge_value
    unfolding deploy_contract
    deploy_contract-value idx true d = omega arith
    deploy_contract-value idx false d = omega (
      arith,
      value-note d.log (charged idx),
      value-note (d.log ++ charged idx ∷ []) (deployed idx),
    )

    first_by-value :
        (needed by_leader : Bool) (idx : ℕ) (info : TestContractInfo) (d : Deployment A)
        → value
            (if needed
              then (if by_leader
                  then set_up_if h leader tcs targets info.has_setup_work idx
                      (deploy_contract h leader tcs targets idx (h.is_deployed idx) d)
                  else d)
              else d).log
          ≤ value d.log + (m.charge_value + set_up_value m gsr_exists idx)
    first_by-value true true idx info d = omega (
      arith,
      set_up_if-value info.has_setup_work idx
          (deploy_contract h leader tcs targets idx (h.is_deployed idx) d),
      deploy_contract-value idx (h.is_deployed idx) d,
    )
    first_by-value true false idx info d = omega arith
    first_by-value false by_leader idx info d = omega arith

    first_phase-value :
        (infos : List TestContractInfo) (idx : ℕ) (d : Deployment A)
        → value (first_phase h leader tcs targets idx infos d).log
          ≤ value d.log + first_bound idx infos
    unfolding first_phase
    first_phase-value [] idx d = omega arith
    first_phase-value (info ∷ infos) idx d = omega (
      arith,
      first_phase-value infos (idx + 1) _,
      first_by-value (is_needed h leader tcs targets idx info) leader idx info d,
    )

    await_leader-value :
        (b : Bool) (idx : ℕ) (d : Deployment A)
        → value (await_leader h leader tcs targets b idx d).log ≤ value d.log
    unfolding await_leader
    await_leader-value true idx d = omega arith
    await_leader-value false idx d = omega (arith, value-note d.log (polled idx _))

    charge_if-value :
        (b : Bool) (idx : ℕ) (d : Deployment A)
        → value (charge_if h leader tcs targets b idx d).log
          ≤ value d.log + charging_value m gsr_exists valid idx
    unfolding charge_if
    charge_if-value true idx d = omega (arith, value-note d.log (charging idx))
    charge_if-value false idx d = omega arith

    second_by-value :
        (needed : Bool) (idx : ℕ) (info : TestContractInfo) (d : Deployment A)
        → value
            (if needed
              then charge_if h leader tcs targets info.has_charging_work idx
                  (await_leader h leader tcs targets leader idx d)
              else d).log
          ≤ value d.log + charging_value m gsr_exists valid idx
    second_by-value true idx info d = omega (
      arith,
      charge_if-value info.has_charging_work idx (await_leader h leader tcs targets leader idx d),
      await_leader-value leader idx d,
    )
    second_by-value false idx info d = omega arith

    second_phase-value :
        (infos : List TestContractInfo) (idx : ℕ) (d : Deployment A)
        → value (second_phase h leader tcs targets idx infos d).log
          ≤ value d.log + second_bound idx infos
    unfolding second_phase
    second_phase-value [] idx d = omega arith
    second_phase-value (info ∷ infos) idx d = omega (
      arith,
      second_phase-value infos (idx + 1) _,
      second_by-value (is_needed h leader tcs targets idx info) idx info d,
    )

    -- The deployment pays at most a charge for each of the 21 contracts, the swap router's setup,
    -- and a deposit for each valid account.
    pub deploy_test_contracts-value :
        value (deploy_test_contracts h leader tcs targets test_contract_infos undeployed).log
        ≤ m.charge_value * 21
          + ((if gsr_exists then 0 else m.charge_value + m.initial_liquidity)
              + m.charge_value * valid)
    unfolding deploy_test_contracts test_contract_infos log_value
    deploy_test_contracts-value = omega (
      arith,
      second_phase-value test_contract_infos 0
          (first_phase h leader tcs targets 0 test_contract_infos undeployed),
      first_phase-value test_contract_infos 0 undeployed,
    )
