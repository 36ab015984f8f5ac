-- ===== src/Account/Transfers/Contracts.antt =====
-- Account creation and update, deployment and execution of contracts, and cancellation, in
-- klayslave/account/account.go. `program` stands for the fixed byte code in the text of the two
-- deployments.
use kaia_load_tester.Prelude.{ℕ, false, Option, none, some, List, [], ◌∷◌, get_or}
use kaia_load_tester.Account.Types.{
  Account, account_creation, account_update, fee_delegated_account_update,
  fee_delegated_account_update_with_ratio, fee_delegated_smart_contract_deploy,
  fee_delegated_smart_contract_deploy_with_ratio, smart_contract_execution,
  fee_delegated_smart_contract_execution, fee_delegated_smart_contract_execution_with_ratio, cancel,
  fee_delegated_cancel, fee_delegated_cancel_with_ratio, Key, num, addr, no_addr, bytes, flag,
  public_of, evm, Env, M, ◌>>=◌, or_fatal, get_self,
}
use kaia_load_tester.Account.Send.{SendResult, send_transaction}
use kaia_load_tester.Account.Transfers.{Reply, paid_by, unpaid, thirty, random_string, send_reply}

-- `privateKey[0]`
abbrev pub first_key : Account → ℕ
first_key a = get_or a.private_key 0 0

abbrev pub value_or_zero : Option ℕ → ℕ
value_or_zero none = 0
value_or_zero (some v) = v

module _ (e : Env) where
  unfoldable pub transfer_new_account_creation_tx : Account → ℕ → M Reply
  transfer_new_account_creation_tx to value =
      send_reply e account_creation
        ((Key.to, addr to.address)
          ∷ (Key.amount, num value)
          ∷ (Key.gas_limit, num 1_000_000)
          ∷ (Key.human_readable, flag false)
          ∷ (Key.account_key, public_of (first_key to))
          ∷ [])
        unpaid

  unfoldable pub transfer_new_account_update_tx : Account → ℕ → M Reply
  transfer_new_account_update_tx to value = do
    self ← get_self
    send_reply e account_update
        ((Key.gas_limit, num 100_000) ∷ (Key.account_key, public_of (first_key self)) ∷ []) unpaid

  unfoldable pub transfer_new_fee_delegated_account_update_tx : Account → ℕ → M Reply
  transfer_new_fee_delegated_account_update_tx to value = do
    self ← get_self
    send_reply e fee_delegated_account_update
        ((Key.gas_limit, num 100_000)
          ∷ (Key.account_key, public_of (first_key self))
          ∷ (Key.fee_payer, addr to.address)
          ∷ [])
        (paid_by to)

  unfoldable pub transfer_new_fee_delegated_account_update_with_ratio_tx : Account → ℕ → M Reply
  transfer_new_fee_delegated_account_update_with_ratio_tx to value = do
    self ← get_self
    send_reply e fee_delegated_account_update_with_ratio
        ((Key.gas_limit, num 100_000)
          ∷ (Key.account_key, public_of (first_key self))
          ∷ (Key.fee_payer, addr to.address)
          ∷ (Key.fee_ratio, num thirty)
          ∷ [])
        (paid_by to)

  unfoldable pub transfer_new_fee_delegated_smart_contract_deploy_tx :
      List ℕ → Account → ℕ → M Reply
  transfer_new_fee_delegated_smart_contract_deploy_tx program to value = do
    self ← get_self
    send_reply e fee_delegated_smart_contract_deploy
        ((Key.to, no_addr)
          ∷ (Key.amount, num 0)
          ∷ (Key.gas_limit, num 10_000_000)
          ∷ (Key.human_readable, flag false)
          ∷ (Key.payload, bytes program)
          ∷ (Key.code_format, evm)
          ∷ (Key.fee_payer, addr self.address)
          ∷ [])
        (paid_by self)

  unfoldable pub transfer_new_fee_delegated_smart_contract_deploy_with_ratio_tx :
      List ℕ → Account → ℕ → M Reply
  transfer_new_fee_delegated_smart_contract_deploy_with_ratio_tx program to value = do
    self ← get_self
    send_reply e fee_delegated_smart_contract_deploy_with_ratio
        ((Key.to, no_addr)
          ∷ (Key.amount, num 0)
          ∷ (Key.gas_limit, num 10_000_000)
          ∷ (Key.human_readable, flag false)
          ∷ (Key.payload, bytes program)
          ∷ (Key.fee_payer, addr self.address)
          ∷ (Key.code_format, evm)
          ∷ (Key.fee_ratio, num thirty)
          ∷ [])
        (paid_by self)

  -- Three seeded streams of letters, one for each call of `randomString`.
  unfoldable pub execute_storage_trie_store : (ℕ → ℕ) → (ℕ → ℕ) → (ℕ → ℕ) → Account → ℕ → M Reply
  execute_storage_trie_store serial key hash to value = do
    call ← or_fatal (
        e.abi_pack "insertIdentity" (
          bytes (random_string 39 serial)
          ∷ bytes (random_string 814 key)
          ∷ bytes (random_string 40 hash)
          ∷ []))
    send_reply e smart_contract_execution
        ((Key.gas_limit, num 5_000_000)
          ∷ (Key.amount, num 0)
          ∷ (Key.to, addr to.address)
          ∷ (Key.payload, bytes call)
          ∷ [])
        unpaid

  -- A nil value counts as zero; the transaction itself is returned.
  unfoldable pub transfer_new_smart_contract_execution_tx :
      Account → Option ℕ → List ℕ → M SendResult
  transfer_new_smart_contract_execution_tx to value call =
      send_transaction e smart_contract_execution
        ((Key.gas_limit, num 5_000_000)
          ∷ (Key.amount, num (value_or_zero value))
          ∷ (Key.to, addr to.address)
          ∷ (Key.payload, bytes call)
          ∷ [])
        unpaid

  unfoldable pub transfer_new_fee_delegated_smart_contract_execution_tx : Account → ℕ → M Reply
  transfer_new_fee_delegated_smart_contract_execution_tx to value = do
    self ← get_self
    call ← or_fatal (e.abi_pack "reward" (addr self.address ∷ []))
    send_reply e fee_delegated_smart_contract_execution
        ((Key.gas_limit, num 5_000_000)
          ∷ (Key.amount, num value)
          ∷ (Key.to, addr to.address)
          ∷ (Key.payload, bytes call)
          ∷ (Key.fee_payer, addr self.address)
          ∷ [])
        (paid_by self)

  unfoldable pub transfer_new_fee_delegated_smart_contract_execution_with_ratio_tx :
      Account → ℕ → M Reply
  transfer_new_fee_delegated_smart_contract_execution_with_ratio_tx to value = do
    self ← get_self
    call ← or_fatal (e.abi_pack "reward" (addr self.address ∷ []))
    send_reply e fee_delegated_smart_contract_execution_with_ratio
        ((Key.gas_limit, num 5_000_000)
          ∷ (Key.amount, num value)
          ∷ (Key.to, addr to.address)
          ∷ (Key.payload, bytes call)
          ∷ (Key.fee_payer, addr self.address)
          ∷ (Key.fee_ratio, num thirty)
          ∷ [])
        (paid_by self)

  unfoldable pub transfer_new_cancel_tx : Account → ℕ → M Reply
  transfer_new_cancel_tx to value =
      send_reply e cancel ((Key.gas_limit, num 100_000_000) ∷ []) unpaid

  unfoldable pub transfer_new_fee_delegated_cancel_tx : Account → ℕ → M Reply
  transfer_new_fee_delegated_cancel_tx to value =
      send_reply e fee_delegated_cancel
        ((Key.gas_limit, num 100_000_000) ∷ (Key.fee_payer, addr to.address) ∷ []) (paid_by to)

  unfoldable pub transfer_new_fee_delegated_cancel_with_ratio_tx : Account → ℕ → M Reply
  transfer_new_fee_delegated_cancel_with_ratio_tx to value =
      send_reply e fee_delegated_cancel_with_ratio
        ((Key.gas_limit, num 100_000_000)
          ∷ (Key.fee_payer, addr to.address)
          ∷ (Key.fee_ratio, num thirty)
          ∷ [])
        (paid_by to)
