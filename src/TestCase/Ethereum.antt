-- ===== src/TestCase/Ethereum.antt =====
-- testcase/run_ethereum.go: the arguments of a request, the wait for its receipt, the checks of the
-- receipt, and the requests.
pub mod Waiting
pub mod Laws
use kaia_load_tester.Prelude.{
  ℕ, zero, suc, ◌+◌, ◌%◌, Bool, true, false, not, Option, none, some, List, [], ◌∷◌, ◌++◌, String,
  str_eq, if◌then◌else◌, ◌==◌, ltb, ℤ, pos,
}
use kaia_load_tester.Account.Types.{
  Account, Env, TxError, failed, World, Outcome, done, fatal, M, Tx,
}
use kaia_load_tester.Account.Direct.{SignedResult}
use kaia_load_tester.Account.Ethereum.{
  transfer_new_legacy_tx_with_eth, transfer_new_eth_access_list_tx_with_eth,
  transfer_new_eth_dynamic_fee_tx_with_eth, transfer_new_ethereum_access_list_tx,
  transfer_new_ethereum_dynamic_fee_tx,
}
use kaia_load_tester.Clipool.{ClientPool, alloc, free}
use kaia_load_tester.AccGroup.AccountSet.{len, get_account_randomly}
use kaia_load_tester.AccGroup.Deploy.{contract_general}
use kaia_load_tester.TestCase.Config.{TcConfig, contract_account}
use kaia_load_tester.TestCase.TcList
use kaia_load_tester.TestCase.TcList.{Ethereum}
use kaia_load_tester.TestCase.Requests.{
  Event, request_success, request_failure, published, Task, Ran, ended, panicked, exited,
  put_account, Draws,
}

-- A receipt, as far as the checks read it: a field that is missing or no string is `none`.
pub record Receipt : Type 0 where
  pub status : Option String
  pub contract_address : Option String
  pub to : Option String
  pub type : Option String

-- What one poll brings: a receipt, the error `NotFound`, another error, or neither.
pub data Poll : Type 0 where
  got : Receipt → Poll
  not_found other_error nothing : Poll

-- From the poll `k` on, after so many retries; `none` where the polls given do not suffice, and the
-- inner `none` is nil.
unfoldable pub get_receipt : (ℕ → Poll) → ℕ → ℕ → ℕ → ℕ → Option (Option Receipt)
get_receipt polls max_retry zero k retry_count = none
get_receipt polls max_retry (suc left) k retry_count = elim (polls k) [
  | got r ↦ some (some r)
  | not_found ↦ elim (ltb retry_count max_retry) [
    | true ↦ get_receipt polls max_retry left (k + 1) (retry_count + 1)
    | false ↦ some none
  ]
  | other_error ↦ some none
  | nothing ↦ get_receipt polls max_retry left (k + 1) retry_count
]

abbrev pub max_retry_count : ℕ
max_retry_count = 30

-- The Kaia library's numbers of the three transaction types, and what the checks compute with: the
-- text of a successful status, of an address, lower case, and the number that a text stands for.
pub record EthGiven : Type 0 where
  pub legacy_type : ℕ
  pub access_list_type : ℕ
  pub dynamic_fee_type : ℕ
  pub success_status : String
  pub address_text : ℕ → String
  pub to_lower : String → String
  pub parse_int : String → Option ℤ

abbrev pub is_text : Option String → String → Bool
is_text none s = false
is_text (some t) s = str_eq t s

abbrev pub same_number : Option ℤ → ℕ → Option TxError
same_number none n = some (failed "failed to parse type from the receipt")
same_number (some (pos m)) n =
    if m == n then none else some (failed "type mismatched in transaction receipt")
same_number (some negative) n = some (failed "type mismatched in transaction receipt")

-- The type of the receipt, whose last byte is the expected one's.
abbrev pub check_type : EthGiven → ℕ → Option String → Option TxError
check_type g expected none = some (failed "failed to get type from the receipt")
check_type g expected (some text) = same_number (g.parse_int text) (expected % 256)

abbrev pub unless_legacy : EthGiven → ℕ → Receipt → Option TxError
unless_legacy g expected r =
    if expected == g.legacy_type then none else check_type g expected r.type

abbrev pub check_created : EthGiven → ℕ → Receipt → Option String → Option TxError
check_created g expected r none = some (failed "failed to get contract address from the receipt")
check_created g expected r (some text) = unless_legacy g expected r

abbrev pub check_called : EthGiven → ℕ → ℕ → Receipt → Option String → Option TxError
check_called g contract expected r none =
    some (failed "mismatched to address in the receipt and smart contract address")
check_called g contract expected r (some text) =
    if str_eq (g.to_lower text) (g.to_lower (g.address_text contract))
    then unless_legacy g expected r
    else some (failed "mismatched to address in the receipt and smart contract address")

-- `none` is true with a nil error; `contract` is the address of the general contract.
unfoldable pub check_result : EthGiven → ℕ → ℕ → ℕ → Option Receipt → Option TxError
check_result g contract req_type expected none = some (failed "failed to get transaction receipt")
check_result g contract req_type expected (some r) =
    if is_text r.status g.success_status
    then (if req_type == 1
        then check_created g expected r r.contract_address
        else (if req_type == 2
            then check_called g contract expected r r.to
            else unless_legacy g expected r))
    else some (failed "transaction status in receipt is fail")

-- `createRandomArguments`: recipient, value, input and kind of request. The kind is the first random
-- number; the code of the contract and the packed call are given; where packing fails `makeFunctionCall` ends the process.
pub record Arguments : Type 0 where
  pub to : Option Account
  pub value : ℕ
  pub input : List ℕ
  pub req_type : ℕ

abbrev pub calling : TcConfig Account ℕ → Option (List ℕ) → Option Arguments
calling c none = none
calling c (some call) =
    some
      (record { to = contract_account contract_general c; value = 0; input = call; req_type = 2 })

unfoldable pub create_random_arguments :
    List ℕ → Option (List ℕ) → TcConfig Account ℕ → ℕ → Draws → Option Arguments
create_random_arguments code call c kind d =
    if kind % 3 == 0
    then some (record {
      to = get_account_randomly d.to c.acc_grp;
      value = d.value % 3;
      input = [];
      req_type = 0;
    })
    else (if kind % 3 == 1
        then some (record { to = none; value = 0; input = code; req_type = 1 })
        else calling c call)

-- The method of each test case.
unfoldable pub eth_method : Env → Ethereum → Option Account → ℕ → List ℕ → M SignedResult
eth_method e TcList.run_ethereum_tx_legacy to value input =
    transfer_new_legacy_tx_with_eth e to value input
eth_method e TcList.run_ethereum_tx_access_list to value input =
    transfer_new_eth_access_list_tx_with_eth e to value input
eth_method e TcList.run_ethereum_tx_dynamic_fee to value input =
    transfer_new_eth_dynamic_fee_tx_with_eth e to value input
eth_method e TcList.run_new_ethereum_access_list to value input =
    transfer_new_ethereum_access_list_tx e to value input
eth_method e TcList.run_new_ethereum_dynamic_fee to value input =
    transfer_new_ethereum_dynamic_fee_tx e to value input

-- The name that is published.
abbrev pub eth_name : Ethereum → String
eth_name TcList.run_ethereum_tx_legacy = "TransferNewLegacyTx"
eth_name TcList.run_ethereum_tx_access_list = "TransferNewEthAccessListTx"
eth_name TcList.run_ethereum_tx_dynamic_fee = "TransferNewEthDynamicFeeTx"
eth_name TcList.run_new_ethereum_access_list = "transferNewEthereumAccessListTx"
eth_name TcList.run_new_ethereum_dynamic_fee = "transferNewEthereumDynamicFeeTx"

-- The type that the check expects: without a recipient, a legacy transaction.
abbrev pub or_legacy : EthGiven → ℕ → Option Account → ℕ
or_legacy g type none = g.legacy_type
or_legacy g type (some to) = type

unfoldable pub expected_type : EthGiven → Ethereum → Option Account → ℕ
expected_type g TcList.run_ethereum_tx_legacy to = g.legacy_type
expected_type g TcList.run_ethereum_tx_access_list to = or_legacy g g.access_list_type to
expected_type g TcList.run_ethereum_tx_dynamic_fee to = or_legacy g g.dynamic_fee_type to
expected_type g TcList.run_new_ethereum_access_list to = or_legacy g g.access_list_type to
expected_type g TcList.run_new_ethereum_dynamic_fee to = or_legacy g g.dynamic_fee_type to

-- The pool of Ethereum clients, which only their test cases have.
abbrev pub put_eth_pool : Option (ClientPool ℕ) → Task → Task
put_eth_pool pool t = record t { config = record t.config { eth_cli_pool = pool } }

abbrev pub freed : ℕ → Option (ClientPool ℕ) → Option (ClientPool ℕ)
freed cli none = none
freed cli (some pool) = some (free cli pool)

abbrev pub release_eth : ℕ → Ran → Ran
release_eth cli (ended t) = ended (put_eth_pool (freed cli t.config.eth_cli_pool) t)
release_eth cli (panicked t) = panicked (put_eth_pool (freed cli t.config.eth_cli_pool) t)
release_eth cli exited = exited

-- Without a pool its zero value is asked for a client, which panics.
abbrev pub with_eth_client : (Task → Ran) → Task → Option (ClientPool ℕ) → Ran
with_eth_client body t none = panicked t
with_eth_client body t (some p) =
    let (cli, pool) = alloc p in release_eth cli (body (put_eth_pool (some pool) t))

module _ (e : Env) (g : EthGiven) (code : List ℕ) (call : Option (List ℕ))
    (receipt_of : Tx → Option Receipt) where
  -- The outcome of the goroutine that checks the receipt, or the error of the method at once.
  abbrev pub verdict : ℕ → Ethereum → Arguments → SignedResult → Option TxError → Option TxError
  verdict contract tc a r (some err) = some err
  verdict contract tc a r none =
      check_result g contract a.req_type (expected_type g tc a.to) (receipt_of r.tx)

  abbrev pub after_eth : ℕ → Ethereum → Arguments → ℕ → Task → Outcome SignedResult → Ran
  after_eth contract tc a i t fatal = exited
  after_eth contract tc a i t (done r w) = ended (
      put_account i w.self (record t {
        sent = w.sent;
        bids = w.bids;
        events = t.events ++ published (eth_name tc) (verdict contract tc a r r.error) ∷ [];
      }))

  abbrev pub eth_with : ℕ → Ethereum → ℕ → Task → Account → Option Arguments → Ran
  eth_with contract tc i t from none = exited
  eth_with contract tc i t from (some a) =
      after_eth contract tc a i t (
        eth_method e tc a.to a.value a.input (record { self = from; sent = t.sent; bids = t.bids }))

  abbrev pub eth_as : ℕ → Ethereum → Option Arguments → ℕ → Task → Option Account → Ran
  eth_as contract tc a i t none = panicked t
  eth_as contract tc a i t (some from) = eth_with contract tc i t from a

  -- One run with its check; `contract` is the general contract's address.
  unfoldable pub run_ethereum : ℕ → Ethereum → ℕ → Draws → Task → Ran
  run_ethereum contract tc kind d t =
      with_eth_client
        (λ t'.
          eth_as contract tc (create_random_arguments code call t'.config kind d)
            (d.from % len t'.config.acc_grp) t' (get_account_randomly d.from t'.config.acc_grp))
        t t.config.eth_cli_pool
