-- ===== src/Slave/Tasks.antt =====
-- `initializeTasks` of klayslave/main.go.
pub mod Laws
use kaia_load_tester.Prelude.{ℕ, ◌+◌, List, [], ◌∷◌, String, ℤ}
use kaia_load_tester.AccGroup.{AccGroup}
use kaia_load_tester.TestCase.TcList.{ExtendedTask, Run}
use kaia_load_tester.TestCase.Config.{TcConfig, init}

-- `boomer.Task`: the function is the entry's `Run` with the configuration.
pub record BoomerTask (A C : Type 0) : Type 0 where
  pub name : String
  pub weight : ℤ
  pub run : Run
  pub config : TcConfig A C

-- The pools of the task with the number `i` dial on their own.
module _ {A C : Type 0} (dial rpc_dial eth_dial : ℕ → ℕ → C) (g : AccGroup A)
    (endpoint : String) where
  abbrev pub initialize_task : ℕ → List String → ExtendedTask → BoomerTask A C
  initialize_task i targets task = record {
    name = task.name;
    weight = task.weight;
    run = task.run;
    config =
        init (dial i) (rpc_dial i) (eth_dial i) g endpoint task.test_contracts task.name targets;
  }

  unfoldable pub initialize_tasks : ℕ → List String → List ExtendedTask → List (BoomerTask A C)
  initialize_tasks i targets [] = []
  initialize_tasks i targets (task ∷ tasks) =
      initialize_task i targets task ∷ initialize_tasks (i + 1) targets tasks
