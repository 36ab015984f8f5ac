-- ===== src/ReceiptCheck/Runs.antt =====
-- The runs of testcase/run_receipt_check.go: sending, reading, and the choice between them.
pub mod Laws
mod Tests
use kaia_load_tester.Prelude.{
  ℕ, ◌%◌, Bool, true, false, Option, none, some, List, [], ◌∷◌, ◌++◌, if◌then◌else◌,
}
use kaia_load_tester.Account.Types.{Account, Env, TxError, World, Outcome, done, fatal}
use kaia_load_tester.Account.Transfers.{Reply}
use kaia_load_tester.Account.Direct.{transfer_signed_tx}
use kaia_load_tester.Clipool.{alloc}
use kaia_load_tester.AccGroup.AccountSet.{len, get_account_randomly}
use kaia_load_tester.TestCase.Requests.{
  Task, Ran, ended, panicked, exited, put_pool, put_account, release, published, Draws,
}
use kaia_load_tester.ReceiptCheck.Transfers.{
  Polls, Verdict, passed, panics, refused, transfer_and_check,
}
use kaia_load_tester.ReceiptCheck.{HashPool, add_hash, get_hash, Schedule, run_receipt_check}

-- The globals of the file, with the task.
pub record Session : Type 0 where
  pub task : Task
  pub pool : HashPool
  pub schedule : Schedule

-- A run ends with the session after it, or panics, or ends the process.
pub data Ended : Type 0 where
  going : Session → Ended
  down : Ended
  over : Ended

-- The client is given back, and the globals are kept.
abbrev pub resumed : ℕ → HashPool → Schedule → Ran → Ended
resumed cli pool schedule (ended t) =
    going (record { task = put_pool t.config.cli_pool t; pool = pool; schedule = schedule })
resumed cli pool schedule (panicked t) = down
resumed cli pool schedule exited = over

-- The hash goes to the pool whatever the error is.
abbrev pub after_send : ℕ → ℕ → Session → Outcome Reply → Ended
after_send cli i s fatal = over
after_send cli i s (done r w) = resumed cli (add_hash r.hash s.pool) s.schedule (
    release cli (
      ended (
        put_account i w.self (record s.task {
          sent = w.sent;
          bids = w.bids;
          events = s.task.events ++ published "send tx" r.error ∷ [];
        }))))

abbrev pub send_from : Env → ℕ → ℕ → Draws → Session → Option Account → Option Account → Ended
send_from e cli i d s none to = down
send_from e cli i d s (some from) none = down
send_from e cli i d s (some from) (some to) = after_send cli i s (
    transfer_signed_tx e to (d.value % 3) none
      (record { self = from; sent = s.task.sent; bids = s.task.bids }))

abbrev pub take_client : (ℕ → Session → Ended) → Session → Ended
take_client body s =
    let (cli, pool) = alloc s.task.config.cli_pool in
    body cli (record s { task = put_pool pool s.task })

unfoldable pub run_receipt_check_send_tx : Env → Draws → Session → Ended
run_receipt_check_send_tx e d = take_client (λ cli s.
    send_from e cli (d.from % len s.task.config.acc_grp) d s
      (get_account_randomly d.from s.task.config.acc_grp)
      (get_account_randomly d.to s.task.config.acc_grp))

-- What is read is the receipt of a drawn hash; the answer of the node is its error.
abbrev pub after_hash : (ℕ → Option TxError) → ℕ → Session → Option ℕ → Ended
after_hash receipt_error cli s none = down
after_hash receipt_error cli s (some hash) = resumed cli s.pool s.schedule (
    release cli (
      ended (record s.task {
        events = s.task.events ++ published "read tx" (receipt_error hash) ∷ [];
      })))

unfoldable pub run_receipt_check_read_tx : (ℕ → Option TxError) → ℕ → Session → Ended
run_receipt_check_read_tx receipt_error draw =
    take_client (λ cli s. after_hash receipt_error cli s (get_hash draw s.pool))

-- The closure of `RunReceiptCheckTC`, with the numbers that it draws.
unfoldable pub run_receipt_check_tc : Env → (ℕ → Option TxError) → Draws → Session → Ended
run_receipt_check_tc e receipt_error d s =
    let (sends, schedule) = run_receipt_check s.schedule in
    if sends
    then run_receipt_check_send_tx e d (record s { schedule = schedule })
    else run_receipt_check_read_tx receipt_error (d.more 0) (record s { schedule = schedule })

-- The event of a transfer with its check.
abbrev pub judged : ℕ → ℕ → Session → World → Option TxError → Ended
judged cli i s w err = resumed cli s.pool s.schedule (
    release cli (
      ended (
        put_account i w.self (record s.task {
          sent = w.sent;
          bids = w.bids;
          events = s.task.events ++ published "signedtransfer_with_check" err ∷ [];
        }))))

-- `none` where the fuel of the loops does not suffice.
abbrev pub after_check : ℕ → ℕ → Session → Outcome (Option Verdict) → Option Ended
after_check cli i s fatal = some over
after_check cli i s (done none w) = none
after_check cli i s (done (some panics) w) = some down
after_check cli i s (done (some passed) w) = some (judged cli i s w none)
after_check cli i s (done (some (refused err)) w) = some (judged cli i s w (some err))

abbrev pub check_from :
    Env → Polls → ℕ → ℕ → ℕ → Draws → Session → Option Account → Option Account → Option Ended
check_from e c fuel cli i d s none to = some down
check_from e c fuel cli i d s (some from) none = some down
check_from e c fuel cli i d s (some from) (some to) = after_check cli i s (
    transfer_and_check e c fuel to (d.value % 3)
      (record { self = from; sent = s.task.sent; bids = s.task.bids }))

unfoldable pub run_transfer_signed_with_check : Env → Polls → ℕ → Draws → Session → Option Ended
run_transfer_signed_with_check e c fuel d s =
    let (cli, pool) = alloc s.task.config.cli_pool in
    check_from e c fuel cli (d.from % len s.task.config.acc_grp) d
      (record s { task = put_pool pool s.task }) (get_account_randomly d.from s.task.config.acc_grp)
      (get_account_randomly d.to s.task.config.acc_grp)
