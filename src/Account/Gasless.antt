-- ===== src/Account/Gasless.antt =====
-- The gasless transactions of klayslave/account/account.go, and the call data of
-- klayslave/account/contract.go that they carry.
pub mod Laws
use kaia_load_tester.Prelude.{ℕ, ◌+◌, ◌-◌, ◌*◌, ◌%◌, ◌^◌, Option, none, some, List, [], ◌∷◌}
use kaia_load_tester.Account.Types.{
  Value, Account, num, addr, Body, legacy, Tx, Env, SendError, TxError, rejected, incr, M, ◌>>=◌,
  ◌>>◌, pure, or_fatal, guard_fatal, get_self, done, failed,
}
use kaia_load_tester.Account.Nonce.{get_nonce}
use kaia_load_tester.Account.Send.{submit, settle, to_error}
use kaia_load_tester.Account.Transfers.{Reply, zero_hash}
use kaia_load_tester.Account.Transfers.Contracts.{first_key}
use kaia_load_tester.Account.Direct.{signed_tx}

-- `approveTx.Hash(), swapTx.Hash(), suggestedGasPrice, err`
pub record GaslessResult : Type 0 where
  pub approve_hash : ℕ
  pub swap_hash : ℕ
  pub price : ℕ
  pub error : Option TxError

-- `self.nonce += 2`
unfoldable pub add_two : M (Unit {0})
add_two w = done tt (record w { self = record w.self { nonce = (w.self.nonce + 2) % 2 ^ 64 } })

-- `abi.MaxUint256`
abbrev pub max_uint256 : ℕ
max_uint256 = 2 ^ 256 - 1

-- What the swap repays: the fees of a lending, an approving and a swapping transaction.
abbrev pub amount_repay : ℕ → ℕ
amount_repay price = 21_000 * price + (100_000 * price + 500_000 * price)

-- `common.Hash{0}` with the error of `SuggestGasPrice`
abbrev pub no_price : TxError
no_price = failed "Failed to fetch suggest gas price"

abbrev pub approve_args : ℕ → ℕ → List Value
approve_args gsr amount = addr gsr ∷ num amount ∷ []

abbrev pub swap_args : Env → ℕ → ℕ → List Value
swap_args e token price =
    addr token
    ∷ num (amount_repay price * 10)
    ∷ num (amount_repay price)
    ∷ num (amount_repay price)
    ∷ num (e.now tt + 3600)
    ∷ []

module _ (e : Env) where
  -- `GenData` of the gasless token: `approve(gsr, amount)`.
  unfoldable pub approve_data : ℕ → ℕ → M (List ℕ)
  approve_data gsr amount = or_fatal (e.abi_pack "approve" (approve_args gsr amount))

  -- `GenData` of the swap router: `swapForGas(token, in, min out, repay, deadline)`.
  unfoldable pub swap_data : ℕ → ℕ → M (List ℕ)
  swap_data token price = or_fatal (e.abi_pack "swapForGas" (swap_args e token price))

  unfoldable pub approve_body : ℕ → ℕ → ℕ → ℕ → M Body
  approve_body nonce token gsr price = do
    call ← approve_data gsr max_uint256
    pure (legacy nonce token 0 100_000 price call)

  unfoldable pub swap_body : ℕ → ℕ → ℕ → ℕ → M Body
  swap_body nonce token gsr price = do
    call ← swap_data token price
    pure (legacy nonce gsr 0 500_000 price call)

  unfoldable pub after_swap : Body → Body → ℕ → Option SendError → M GaslessResult
  after_swap approve swap price none = do
    add_two
    pure (record {
      approve_hash = e.built_hash approve;
      swap_hash = e.built_hash swap;
      price = price;
      error = none;
    })
  after_swap approve swap price (some err) = do
    settle (some err)
    pure (record {
      approve_hash = e.built_hash approve;
      swap_hash = e.built_hash swap;
      price = price;
      error = some (rejected err);
    })

  unfoldable pub after_approve : Body → Body → List ℕ → ℕ → Option SendError → M GaslessResult
  after_approve approve swap keys price none = do
    answer ← submit e (signed_tx swap keys)
    after_swap approve swap price answer
  after_approve approve swap keys price (some err) = do
    settle (some err)
    pure (record {
      approve_hash = e.built_hash approve;
      swap_hash = e.built_hash swap;
      price = price;
      error = some (rejected err);
    })

  unfoldable pub gasless_at : Account → Account → ℕ → Option ℕ → M GaslessResult
  gasless_at token gsr nonce none = pure (record {
    approve_hash = zero_hash;
    swap_hash = zero_hash;
    price = e.default_gas_price;
    error = some no_price;
  })
  gasless_at token gsr nonce (some price) = do
    self ← get_self
    approve ← approve_body nonce token.address gsr.address price
    guard_fatal (e.sign_ok approve (first_key self ∷ []))
    swap ← swap_body (incr nonce) token.address gsr.address price
    guard_fatal (e.sign_ok swap (first_key self ∷ []))
    answer ← submit e (signed_tx approve (first_key self ∷ []))
    after_approve approve swap (first_key self ∷ []) price answer

  unfoldable pub transfer_new_gasless_tx : Account → Account → M GaslessResult
  transfer_new_gasless_tx token gsr = do
    nonce ← get_nonce e
    gasless_at token gsr nonce (e.suggest_gas_price tt)

  -- `TransferNewGaslessApproveTx`: only the approval, and the nonce stays whatever the node says.
  unfoldable pub gasless_approve_at : Account → Account → ℕ → Option ℕ → M Reply
  gasless_approve_at token gsr nonce none =
      pure (record { hash = zero_hash; price = e.default_gas_price; error = some no_price })
  gasless_approve_at token gsr nonce (some price) = do
    self ← get_self
    approve ← approve_body nonce token.address gsr.address price
    guard_fatal (e.sign_ok approve (first_key self ∷ []))
    answer ← submit e (signed_tx approve (first_key self ∷ []))
    pure (record { hash = e.built_hash approve; price = price; error = to_error answer })

  unfoldable pub transfer_new_gasless_approve_tx : Account → Account → M Reply
  transfer_new_gasless_approve_tx token gsr = do
    nonce ← get_nonce e
    gasless_approve_at token gsr nonce (e.suggest_gas_price tt)
