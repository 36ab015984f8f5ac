-- ===== src/TestCase/Requests.antt =====
-- The requests of testcase/run_value_transfer.go, testcase/run_execute_contract.go and
-- testcase/run_auction.go: one run of a task's function, as a function of what it draws.
pub mod ValueTransfers
pub mod ContractCalls
pub mod Auctions
pub mod Laws
pub mod Types
pub mod CallTypes
pub mod Bidding
use kaia_load_tester.Prelude.{ℕ, ◌%◌, Bool, Option, none, some, List, [], ◌∷◌, ◌++◌, String, set}
use kaia_load_tester.Account.Types.{Account, Tx, Bid, Env, TxError, World, Outcome, done, fatal, M}
use kaia_load_tester.Clipool.{ClientPool, alloc, free}
use kaia_load_tester.AccGroup.AccountSet.{AccountSet, len, get_account_randomly}
use kaia_load_tester.TestCase.Config.{TcConfig}

-- What is published to boomer, by the name before the endpoint.
pub data Event : Type 0 where
  request_success : String → Event
  request_failure : String → TxError → Event

-- A task with what it has sent and published so far. A client is a number.
pub record Task : Type 0 where
  pub config : TcConfig Account ℕ
  pub sent : List Tx
  pub bids : List Bid
  pub events : List Event

-- A run ends, or panics (the deferred return of the client is still made), or ends the process.
pub data Ran : Type 0 where
  ended : Task → Ran
  panicked : Task → Ran
  exited : Ran

abbrev pub put_pool : ClientPool ℕ → Task → Task
put_pool pool t = record t { config = record t.config { cli_pool = pool } }

abbrev pub put_account : ℕ → Account → Task → Task
put_account i account t = record t {
  config = record t.config {
    acc_grp = record t.config.acc_grp { accounts = set t.config.acc_grp.accounts i account };
  };
}

-- `config.CliPool.Alloc()` and the deferred `Free`.
abbrev pub release : ℕ → Ran → Ran
release cli (ended t) = ended (put_pool (free cli t.config.cli_pool) t)
release cli (panicked t) = panicked (put_pool (free cli t.config.cli_pool) t)
release cli exited = exited

unfoldable pub with_client : (Task → Ran) → Task → Ran
with_client body t =
    let (cli, pool) = alloc t.config.cli_pool in release cli (body (put_pool pool t))

-- What is published after the call, by its error.
abbrev pub published : String → Option TxError → Event
published name none = request_success name
published name (some err) = request_failure name err

-- The account at a place has run a method.
abbrev pub after_call : String → ℕ → Task → Outcome (Option TxError) → Ran
after_call name i t fatal = exited
after_call name i t (done err w) = ended (
    put_account i w.self
      (record t { sent = w.sent; bids = w.bids; events = t.events ++ published name err ∷ [] }))

-- `txFunc` on the drawn account; on a nil account the method panics.
abbrev pub call_by : String → ℕ → (Account → M (Option TxError)) → Task → Option Account → Ran
call_by name i tx_func t none = panicked t
call_by name i tx_func t (some from) =
    after_call name i t (tx_func from (record { self = from; sent = t.sent; bids = t.bids }))

-- An account chosen by a random number, and its place in the list.
unfoldable pub by_drawn : String → ℕ → (Account → M (Option TxError)) → Task → Ran
by_drawn name draw tx_func t =
    call_by name (draw % len t.config.acc_grp) tx_func t
      (get_account_randomly draw t.config.acc_grp)

-- The random numbers of one run.
pub record Draws : Type 0 where
  pub from : ℕ
  pub to : ℕ
  pub value : ℕ
  pub more : ℕ → ℕ
