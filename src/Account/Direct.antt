-- ===== src/Account/Direct.antt =====
-- The methods of klayslave/account/account.go that build and submit a transaction themselves:
-- the plain signed transfer, the transfer with its cancellation and the deployment of a contract.
pub mod Laws
use kaia_load_tester.Prelude.{
  ℕ, zero, suc, ◌+◌, Bool, true, false, not, ◌&&◌, Option, none, some, List, [], ◌∷◌, ◌++◌,
  if◌then◌else◌,
}
use kaia_load_tester.Account.Types.{
  Account, TxType, value_transfer, smart_contract_deploy, cancel, TxValues, Key, num, addr, no_addr,
  bytes, flag, evm, Body, with_map, legacy, creation, access_list, dynamic_fee, Tx, Env, SendError,
  TxError, rejected, sign_failed, M, ◌>>=◌, ◌>>◌, pure, or_fatal, guard_fatal, get_self, set_nonce,
  done, fatal, World,
}
use kaia_load_tester.Account.Nonce.{get_nonce, update_nonce, is_nonce_used}
use kaia_load_tester.Account.Send.{SendResult, send_raw_tx, submit, settle, to_error}
use kaia_load_tester.Account.Transfers.{Reply, zero_hash}
use kaia_load_tester.Account.Transfers.Contracts.{first_key}

-- `signTx, tx.GasPrice(), err`
pub record SignedResult : Type 0 where
  pub tx : Tx
  pub price : ℕ
  pub error : Option TxError

abbrev pub input_of : Option (List ℕ) → List ℕ
input_of none = []
input_of (some input) = input

abbrev pub gas_of : Option (List ℕ) → ℕ
gas_of none = 21_000
gas_of (some input) = 10_000_000

-- A transaction that one key or several sign, with no fee payer.
abbrev pub signed_tx : Body → List ℕ → Tx
signed_tx body keys = record { body = body; signed_by = keys; fee_payer_signed_by = [] }

-- `contractAddr, tx, gasPrice, err`
pub record DeployResult : Type 0 where
  pub address : ℕ
  pub tx : Tx
  pub price : ℕ
  pub error : Option TxError

-- `common.Address{}`
abbrev pub zero_address : ℕ
zero_address = 0

module _ (e : Env) where
  -- The lock is taken or not; either way the method is one step here.
  unfoldable pub transfer_signed_tx_return_tx :
      Bool → Account → ℕ → Option (List ℕ) → M SignedResult
  transfer_signed_tx_return_tx with_lock to value input = do
    nonce ← get_nonce e
    self ← get_self
    let body = legacy nonce to.address value (gas_of input) e.default_gas_price (input_of input)
    let tx = signed_tx body (first_key self ∷ [])
    guard_fatal (e.sign_ok body (first_key self ∷ []))
    err ← send_raw_tx e tx
    pure (record { tx = tx; price = e.default_gas_price; error = err })

  unfoldable pub transfer_signed_tx : Account → ℕ → Option (List ℕ) → M Reply
  transfer_signed_tx to value input = do
    r ← transfer_signed_tx_return_tx true to value input
    pure (record { hash = e.tx_hash r.tx; price = r.price; error = r.error })

  unfoldable pub transfer_signed_tx_without_lock : Account → ℕ → Option (List ℕ) → M Reply
  transfer_signed_tx_without_lock to value input = do
    r ← transfer_signed_tx_return_tx false to value input
    pure (record { hash = e.tx_hash r.tx; price = r.price; error = r.error })

  -- The value transfer and the cancellation of the same nonce.
  abbrev pub transfer_values : Account → ℕ → Account → ℕ → TxValues
  transfer_values self nonce to value =
      (Key.nonce, num nonce)
      ∷ (Key.to, addr to.address)
      ∷ (Key.amount, num value)
      ∷ (Key.gas_limit, num 100_000)
      ∷ (Key.gas_price, num e.default_gas_price)
      ∷ (Key.from, addr self.address)
      ∷ []

  abbrev pub cancel_values : Account → ℕ → TxValues
  cancel_values self nonce =
      (Key.nonce, num nonce)
      ∷ (Key.from, addr self.address)
      ∷ (Key.gas_limit, num 100_000_000)
      ∷ (Key.gas_price, num e.default_gas_price)
      ∷ []

  -- `NewTransactionWithMap` and `SignWithKeys`, each fatal where it fails.
  unfoldable pub build_and_sign : TxType → TxValues → List ℕ → M Tx
  build_and_sign type values keys = do
    guard_fatal (e.new_transaction_ok type values)
    guard_fatal (e.sign_ok (with_map type values) keys)
    pure (signed_tx (with_map type values) keys)

  -- The loop over `txList`: an error ends it, and the method with it.
  unfoldable pub on_answer : Tx → Option SendError → M Reply → M Reply
  on_answer tx none next = next
  on_answer tx (some err) next = do
    settle (some err)
    pure (record {
      hash = e.rejected_hash tx;
      price = e.default_gas_price;
      error = some (rejected err);
    })

  -- At the end the outer `hash` is returned, which the loop's own `hash` hides and never sets.
  unfoldable pub send_list : List Tx → M Reply
  send_list [] = do
    update_nonce
    pure (record { hash = zero_hash; price = e.default_gas_price; error = none })
  send_list (tx ∷ rest) = do answer ← submit e tx; on_answer tx answer (send_list rest)

  unfoldable pub transfer_new_value_transfer_with_cancel_tx : Account → ℕ → M Reply
  transfer_new_value_transfer_with_cancel_tx to value = do
    nonce ← get_nonce e
    self ← get_self
    tx ← build_and_sign value_transfer (transfer_values self nonce to value) self.private_key
    cancel_tx ← build_and_sign cancel (cancel_values self nonce) self.private_key
    send_list (tx ∷ cancel_tx ∷ [])

  abbrev pub deploy_values : Account → ℕ → ℕ → List ℕ → TxValues
  deploy_values self nonce value program =
      (Key.nonce, num nonce)
      ∷ (Key.from, addr self.address)
      ∷ (Key.to, no_addr)
      ∷ (Key.amount, num value)
      ∷ (Key.gas_limit, num 10_000_000)
      ∷ (Key.gas_price, num e.default_gas_price)
      ∷ (Key.human_readable, flag false)
      ∷ (Key.code_format, evm)
      ∷ (Key.payload, bytes program)
      ∷ []

  -- What follows the node's answer to a deployment: the address is that of the account's own
  -- nonce, and an error moves the nonce only where it was not fixed to zero.
  unfoldable pub settle_deploy : Bool → Tx → Option SendError → M DeployResult
  settle_deploy fix_nonce_zero tx none = do
    self ← get_self
    update_nonce
    pure (record {
      address = e.create_address self.address self.nonce;
      tx = tx;
      price = e.default_gas_price;
      error = none;
    })
  settle_deploy fix_nonce_zero tx (some err) = do
    if not fix_nonce_zero && is_nonce_used err then update_nonce else pure tt
    pure (record {
      address = zero_address;
      tx = tx;
      price = e.default_gas_price;
      error = some (rejected err);
    })

  unfoldable pub transfer_new_smart_contract_deploy_tx :
      Account → ℕ → List ℕ → Bool → M DeployResult
  transfer_new_smart_contract_deploy_tx to value program fix_nonce_zero = do
    own ← get_nonce e
    self ← get_self
    let nonce = if fix_nonce_zero then 0 else own
    tx ←
        build_and_sign smart_contract_deploy (deploy_values self nonce value program)
          self.private_key
    answer ← submit e tx
    settle_deploy fix_nonce_zero tx answer
