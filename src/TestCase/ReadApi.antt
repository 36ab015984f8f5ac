-- ===== src/TestCase/ReadApi.antt =====
-- testcase/run_read_api_call.go: requests that only read. An error's text leaves out the values that
-- the code writes into it.
pub mod Hex
pub mod Laws
pub mod Requests
mod Tests
use kaia_load_tester.Prelude.{
  ℕ, zero, suc, ◌+◌, ◌*◌, ◌%◌, Bool, true, false, not, Option, none, some, List, [], ◌∷◌, ◌++◌,
  String, str_eq, if◌then◌else◌, ◌==◌,
}
use kaia_load_tester.Account.Types.{Account, Env, TxError, failed}
use kaia_load_tester.Clipool.{ClientPool, alloc, free}
use kaia_load_tester.AccGroup.AccountSet.{get_account_randomly}
use kaia_load_tester.Contracts.Names.{contract_read_api_call_contract}
use kaia_load_tester.TestCase.Config.{contract_account}
use kaia_load_tester.TestCase.ReadApi.Hex.{names_block}
use kaia_load_tester.TestCase.TcList.{
  ReadApi, run_gas_price, run_block_number, run_get_block_by_number, run_get_account,
  run_get_block_with_consensus_info_by_number, run_get_storage_at, run_call, run_estimate_gas,
}
use kaia_load_tester.TestCase.Requests.{Task, Ran, ended, panicked, exited, with_client, published}

-- A call of the node.
pub data Answer (A : Type 0) : Type 0 where
  refused : TxError → Answer A
  answered : A → Answer A

-- What the node answers: the gas price, the number of the latest block, the number of the header of
-- a block, the type of an account and the number of a block as the JSON text has them, the bytes in
-- a contract's storage, the result of a call (`none` if it cannot be unpacked), and the gas.
pub record Node : Type 0 where
  pub suggest_gas_price : Answer ℕ
  pub block_number : Answer ℕ
  pub block_by_number : ℕ → Answer ℕ
  pub account_type : ℕ → Answer String
  pub consensus_info : ℕ → Answer String
  pub storage_at : ℕ → Answer (List ℕ)
  pub call_contract : ℕ → ℕ → List ℕ → Answer (Option ℕ)
  pub estimate_gas : ℕ → ℕ → List ℕ → Answer ℕ

-- `latestBlockNumber` and `count`, which stays below ten million.
pub record Counter : Type 0 where
  pub latest_block_number : ℕ
  pub count : ℕ

abbrev pub updated : Answer ℕ → ℕ → ℕ
updated (refused err) latest = latest
updated (answered bn) latest = bn

-- A random number below the latest block's, or zero if that is zero.
abbrev pub random_below : ℕ → ℕ → ℕ
random_below draw latest = if latest == 0 then 0 else draw % latest

-- `getRandomBlockNumber`
unfoldable pub get_random_block_number : Node → ℕ → Counter → ℕ × Counter
get_random_block_number n draw c =
    let count = c.count % 10_000_000 in
    let latest =
      if count % 10_000 == 0
      then updated n.block_number c.latest_block_number
      else c.latest_block_number in
    (random_below draw latest, record { latest_block_number = latest; count = count + 1 })

-- `SetBytes`
abbrev pub set_bytes : ℕ → List ℕ → ℕ
set_bytes n [] = n
set_bytes n (b ∷ bytes) = set_bytes (n * 256 + b) bytes

abbrev pub ret_val_of_storage_at : ℕ
ret_val_of_storage_at = 4

abbrev pub error_if : {A : Type 0} → String → (A → Bool) → Answer A → Option TxError
error_if text wrong (refused err) = some err
error_if text wrong (answered a) = if wrong a then some (failed text) else none

abbrev pub not_equal : ℕ → ℕ → Bool
not_equal a b = if a == b then false else true

abbrev pub not_text : String → String → Bool
not_text a b = if str_eq a b then false else true

-- The error that each test case publishes; `from` and `contract` are addresses, and `call` the call data.
-- The checks of a call's result assign to an `err` of an inner block, so they are not seen.
unfoldable pub read_error : Node → ReadApi → ℕ → ℕ → ℕ → List ℕ → Option TxError
read_error n run_gas_price number from contract call =
    error_if "" (λ price. false) n.suggest_gas_price
read_error n run_block_number number from contract call =
    error_if "wrong block number" (λ bn. bn == 0) n.block_number
read_error n run_get_block_by_number number from contract call =
    error_if "wrong block" (λ header. not_equal header number) (n.block_by_number number)
read_error n run_get_account number from contract call =
    error_if "wrong account type" (λ ret. not_text ret "1") (n.account_type from)
read_error n run_get_block_with_consensus_info_by_number number from contract call =
    error_if "wrong block" (λ ret. not (names_block ret number)) (n.consensus_info number)
read_error n run_get_storage_at number from contract call =
    error_if "wrong storage value" (λ ret. not_equal (set_bytes 0 ret) ret_val_of_storage_at)
      (n.storage_at contract)
read_error n run_call number from contract call =
    error_if "" (λ result. false) (n.call_contract from contract call)
read_error n run_estimate_gas number from contract call =
    error_if "wrong estimate gas" (λ gas. gas == 0) (n.estimate_gas from contract call)

abbrev pub read_name : ReadApi → String
read_name run_gas_price = "readGasPrice"
read_name run_block_number = "readBlockNumber"
read_name run_get_block_by_number = "readGetBlockByNumber"
read_name run_get_account = "readGetAccount"
read_name run_get_block_with_consensus_info_by_number = "readGetBlockWithConsensusInfoByNumber"
read_name run_get_storage_at = "readGetStorageAt"
read_name run_call = "readCall"
read_name run_estimate_gas = "readEstimateGas"

-- What a test case needs before it asks: an account, the contract, and the method that its
-- call data is packed for.
abbrev pub needs_account : ReadApi → Bool
needs_account run_get_account = true
needs_account run_call = true
needs_account run_estimate_gas = true
needs_account _ = false

abbrev pub needs_contract : ReadApi → Bool
needs_contract run_get_storage_at = true
needs_contract run_call = true
needs_contract run_estimate_gas = true
needs_contract _ = false

abbrev pub packed : Env → ReadApi → Option (List ℕ)
packed e run_call = e.abi_pack "get" []
packed e run_estimate_gas = e.abi_pack "set" []
packed e _ = some []

abbrev pub needs_block : ReadApi → Bool
needs_block run_get_block_by_number = true
needs_block run_get_block_with_consensus_info_by_number = true
needs_block _ = false

-- The address of an account that is needed; of a nil one it cannot be asked, which panics.
abbrev pub address_if : Bool → Option Account → Option ℕ
address_if false account = some 0
address_if true none = none
address_if true (some account) = some account.address

-- The pool of rpc clients.
abbrev pub put_rpc_pool : ClientPool ℕ → Task → Task
put_rpc_pool pool t = record t { config = record t.config { rpc_cli_pool = pool } }

abbrev pub release_rpc : ℕ → Ran → Ran
release_rpc cli (ended t) = ended (put_rpc_pool (free cli t.config.rpc_cli_pool) t)
release_rpc cli (panicked t) = panicked (put_rpc_pool (free cli t.config.rpc_cli_pool) t)
release_rpc cli exited = exited

abbrev pub with_rpc_client : (Task → Ran) → Task → Ran
with_rpc_client body t =
    let (cli, pool) = alloc t.config.rpc_cli_pool in release_rpc cli (body (put_rpc_pool pool t))

-- `klay_getAccount` is asked by the rpc client alone, the consensus information by it too.
abbrev pub with_clients : ReadApi → (Task → Ran) → Task → Ran
with_clients run_get_account body = with_rpc_client body
with_clients run_get_block_with_consensus_info_by_number body =
    with_client (λ t. with_rpc_client body t)
with_clients _ body = with_client body

abbrev pub answered_with : Node → ReadApi → ℕ → Task → Option ℕ → Option ℕ → Option (List ℕ) → Ran
answered_with n tc number t none contract call = panicked t
answered_with n tc number t (some from) none call = panicked t
answered_with n tc number t (some from) (some contract) none = exited
answered_with n tc number t (some from) (some contract) (some call) = ended (record t {
  events = t.events ++ published (read_name tc) (read_error n tc number from contract call) ∷ [];
})

-- The account is drawn and the contract looked up.
abbrev pub read_body : Env → Node → ReadApi → ℕ → ℕ → Task → Ran
read_body e n tc draw number t =
    answered_with n tc number t
      (address_if (needs_account tc) (get_account_randomly draw t.config.acc_grp))
      (address_if (needs_contract tc) (contract_account contract_read_api_call_contract t.config))
      (packed e tc)

-- One run, with the random number of the account and the number of the block that is asked for.
unfoldable pub run_read_api : Env → Node → ReadApi → ℕ → ℕ → Task → Ran
run_read_api e n tc draw number = with_clients tc (read_body e n tc draw number)

-- The run with the number drawn, and the counter after it.
unfoldable pub run_read_api_call : Env → Node → ReadApi → ℕ → ℕ → Counter → Task → Ran × Counter
run_read_api_call e n tc draw block_draw c t =
    let (number, after) = get_random_block_number n block_draw c in
    if needs_block tc
    then (run_read_api e n tc draw number t, after)
    else (run_read_api e n tc draw 0 t, c)
