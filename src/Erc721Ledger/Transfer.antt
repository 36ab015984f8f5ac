-- ===== src/Erc721Ledger/Transfer.antt =====
-- `RunErc721TransferTC` of testcase/run_execute_contract.go: the search for an account with a
-- token, the transaction that transfers it, and where the token goes afterwards.
pub mod Search
pub mod Laws
use kaia_load_tester.Prelude.{
  ℕ, zero, suc, ◌+◌, ◌%◌, Option, none, some, List, [], ◌∷◌, ◌++◌, ◌==◌, if◌then◌else◌,
}
use kaia_load_tester.Account.Types.{
  Account, num, addr, Value, Env, TxError, failed, Outcome, done, fatal,
}
use kaia_load_tester.Account.Send.{SendResult}
use kaia_load_tester.Account.Transfers.Contracts.{transfer_new_smart_contract_execution_tx}
use kaia_load_tester.Clipool.{alloc, free}
use kaia_load_tester.AccGroup.AccountSet.{AccountSet, len, get_account_index, get_account_randomly}
use kaia_load_tester.Contracts.Names.{contract_erc721}
use kaia_load_tester.TestCase.Config.{contract_account}
use kaia_load_tester.TestCase.Requests.{Task, request_failure, put_pool, put_account, published}
use kaia_load_tester.Erc721Ledger.{Erc721TokenLedger, put_token, remove_token}

-- An account of the set, its index, and the token that it gave up.
pub record Holder : Type 0 where
  pub from : Account
  pub index : ℕ
  pub token : ℕ

-- A run ends, with the holder that was found and the recipient, if any; or panics, where the
-- deferred return of the client is still made; or ends the process.
pub data Ran : Type 0 where
  ended : Option (Holder × Account) → Task → Erc721TokenLedger → Ran
  panicked : Task → Erc721TokenLedger → Ran
  exited : Ran

-- What the search found, and the ledger after it; `none` is the panic of an index out of range.
abbrev pub Found : Type 0
Found = Option (Option Holder × Erc721TokenLedger)

-- The token that the candidate gave up, or the next attempt.
abbrev pub found_or_next :
    (Erc721TokenLedger → Found) → ℕ → Account → Option ℕ × Erc721TokenLedger → Found
found_or_next next c from (some token, l) =
    some (some (record { from = from; index = c; token = token }), l)
found_or_next next c from (none, l) = next l

abbrev pub try_candidate :
    (Erc721TokenLedger → Found) → ℕ → Erc721TokenLedger → Option Account → Found
try_candidate next c l none = none
try_candidate next c l (some from) = found_or_next next c from (remove_token from.address l)

-- The search goes on at `candidateIdx` with so many attempts left.
unfoldable pub find_token : AccountSet Account → ℕ → ℕ → Erc721TokenLedger → Found
find_token accs zero c l = some (none, l)
find_token accs (suc k) c l =
    try_candidate (find_token accs k ((c + 1) % len accs)) c l (get_account_index c accs)

-- The token goes to the recipient where the method returned no error, and back where it did.
abbrev pub put_back : Account → Account → ℕ → Option TxError → Erc721TokenLedger → Erc721TokenLedger
put_back from to token none l = put_token to.address token l
put_back from to token (some err) l = put_token from.address token l

-- What the method returned, or the end of the process in it.
abbrev pub after_execution : Holder → Account → Task → Erc721TokenLedger → Outcome SendResult → Ran
after_execution h to t l fatal = exited
after_execution h to t l (done r w) =
    ended (some (h, to))
      (put_account h.index w.self (record t {
        sent = w.sent;
        bids = w.bids;
        events = t.events ++ published t.config.name r.error ∷ [];
      }))
      (put_back h.from to h.token r.error l)

abbrev pub transfer_args : Account → Account → ℕ → List Value
transfer_args from to token = addr from.address ∷ addr to.address ∷ num token ∷ []

module _ (e : Env) where
  -- A nil contract panics, and the token is in nobody's queue.
  abbrev pub transfer_by :
      Holder → Account → Task → Erc721TokenLedger → List ℕ → Option Account → Ran
  transfer_by h to t l call none = panicked t l
  transfer_by h to t l call (some contract) = after_execution h to t l (
      transfer_new_smart_contract_execution_tx e contract none call
        (record { self = h.from; sent = t.sent; bids = t.bids }))

  -- `PackContractCall`, which ends the process where the call cannot be packed.
  abbrev pub pack_transfer : Holder → Account → Task → Erc721TokenLedger → Option (List ℕ) → Ran
  pack_transfer h to t l none = exited
  pack_transfer h to t l (some call) =
      transfer_by h to t l call (contract_account contract_erc721 t.config)

  abbrev pub with_holder : Task → Account → Erc721TokenLedger → Option Holder → Ran
  with_holder t to l none =
      ended none
        (record t {
          events = t.events ++ request_failure t.config.name (failed "No tokens available") ∷ [];
        })
        l
  with_holder t to l (some h) =
      pack_transfer h to t l (e.abi_pack "transferFrom" (transfer_args h.from to h.token))

  abbrev pub after_search : Task → Erc721TokenLedger → Account → Found → Ran
  after_search t l to none = panicked t l
  after_search t l to (some (h, l')) = with_holder t to l' h

  abbrev pub to_recipient : Task → Erc721TokenLedger → Found → Option Account → Ran
  to_recipient t l found none = panicked t l
  to_recipient t l found (some to) = after_search t l to found

  -- The two random numbers come first; `rand.Intn` panics at 0.
  unfoldable pub search_and_transfer : ℕ → ℕ → Task → Erc721TokenLedger → Ran
  search_and_transfer draw start t l =
      let accs = t.config.acc_grp in
      if len accs == 0
      then panicked t l
      else to_recipient t l (find_token accs (len accs) (start % len accs) l)
          (get_account_randomly draw accs)

  -- The deferred return of the client.
  abbrev pub after_run : ℕ → Ran → Ran
  after_run cli (ended h t l) = ended h (put_pool (free cli t.config.cli_pool) t) l
  after_run cli (panicked t l) = panicked (put_pool (free cli t.config.cli_pool) t) l
  after_run cli exited = exited

  unfoldable pub run_erc721_transfer : ℕ → ℕ → Task → Erc721TokenLedger → Ran
  run_erc721_transfer draw start t l =
      let (cli, pool) = alloc t.config.cli_pool in
      after_run cli (search_and_transfer draw start (put_pool pool t) l)
