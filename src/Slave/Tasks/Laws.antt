-- ===== src/Slave/Tasks/Laws.antt =====
-- From the flags to the tasks: no task lacks a contract.
use kaia_load_tester.Prelude.{
  ℕ, ◌+◌, ◌≡◌, refl, inl, inr, Bool, List, [], ◌∷◌, String, ℤ, Option-cases,
}
use kaia_load_tester.AccGroup.{AccGroup}
use kaia_load_tester.AccGroup.Laws.{Stands}
use kaia_load_tester.AccGroup.Deploy.{Chain, deploy_test_contracts}
use kaia_load_tester.Contracts.Registry.{test_contract_infos}
use kaia_load_tester.Contracts.Laws.{undeployed}
use kaia_load_tester.TestCase.TcList.{find_tc}
use kaia_load_tester.TestCase.Config.{init}
use kaia_load_tester.TestCase.Config.Laws.{AllFound, init-AllFound}
use kaia_load_tester.Slave.Flags.{Config, tasks_from, get_extended_tasks}
use kaia_load_tester.Slave.Tasks.{BoomerTask, initialize_tasks}

-- Each task's configuration has an account for each contract that the task names.
abbrev pub AllSupplied : {A C : Type 0} → List (BoomerTask A C) → Type 0
AllSupplied [] = Unit
AllSupplied (b ∷ bs) = AllFound b.config b.config.test_contracts × AllSupplied bs

module _ {A C : Type 0} (h : Chain A) (leader : Bool) (tcs targets : List String)
    (dial rpc_dial eth_dial : ℕ → ℕ → C) (g : AccGroup A) (endpoint : String)
    (deployed : g.contracts
      ≡ (deploy_test_contracts h leader tcs targets test_contract_infos undeployed).contracts) where
  tasks_from-AllSupplied :
      (weights : List ℤ) (k i : ℕ) (names : List String)
      → ((name : String) → Stands name names → Stands name tcs)
      → AllSupplied (
          initialize_tasks dial rpc_dial eth_dial g endpoint i targets (tasks_from weights k names))
  unfolding tasks_from initialize_tasks init
  tasks_from-AllSupplied weights k i [] among = tt
  tasks_from-AllSupplied weights k i (name ∷ names) among = elim (Option-cases (find_tc name)) [
    | inl unknown ↦
        rw (unknown, tasks_from)
          (tasks_from-AllSupplied weights (k + 1) i names
            (λ other stands. among other (inr stands)))
    | inr (entry, known) ↦
        rw (known, tasks_from)
          (
            init-AllFound h leader tcs targets (dial i) (rpc_dial i) (eth_dial i) g endpoint name
                entry.name entry deployed known (among name (inl refl)),
            tasks_from-AllSupplied weights (k + 1) (i + 1) names
                (λ other stands. among other (inr stands)),
          )
  ]

-- After the deployment for a configuration's test cases and targets, by the leader or by another
-- slave, every task that the slave initialises has in its configuration an account for each contract
-- that it names.
pub initialize_tasks-AllSupplied :
    {A C : Type 0} (h : Chain A) (leader : Bool) (c : Config)
    → (dial rpc_dial eth_dial : ℕ → ℕ → C) → (g : AccGroup A)
    → g.contracts
      ≡ (deploy_test_contracts h leader c.tc_name_list c.auction_target_tx_type_list
          test_contract_infos undeployed).contracts
    → AllSupplied (
        initialize_tasks dial rpc_dial eth_dial g c.g_endpoint 0 c.auction_target_tx_type_list
          (get_extended_tasks c))
unfolding get_extended_tasks
initialize_tasks-AllSupplied h leader c dial rpc_dial eth_dial g deployed =
    tasks_from-AllSupplied h leader c.tc_name_list c.auction_target_tx_type_list dial rpc_dial
      eth_dial g c.g_endpoint deployed c.tc_weights 0 0 c.tc_name_list (λ name stands. stands)
