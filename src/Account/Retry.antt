-- ===== src/Account/Retry.antt =====
-- The retry loop of klayslave/account/account.go and the methods that run it. The node may answer
-- each attempt differently, so attempts are numbered and each has its own environment.
pub mod Laws
use kaia_load_tester.Prelude.{
  ℕ, zero, suc, ◌+◌, Bool, true, false, ◌&&◌, ◌||◌, Option, none, some, List, [], ◌∷◌,
  if◌then◌else◌,
}
use kaia_load_tester.Account.Types.{
  Account, Tx, Env, SendError, TxError, rejected, known_transaction, nonce_too_low, M, ◌>>=◌, ◌>>◌,
  pure, get_self, set_nonce,
}
use kaia_load_tester.Account.Nonce.{get_nonce}
use kaia_load_tester.Account.Direct.{SignedResult, transfer_signed_tx_return_tx}
use kaia_load_tester.Account.Ethereum.{transfer_new_legacy_tx_with_eth}

-- The send function and `RetryConfig.ShouldSkip`, with what the waiting for the receipt says of each
-- attempt: whether there is one and its status is 1.
pub record Retry : Type 0 where
  pub send_tx : ℕ → M SignedResult
  pub should_skip : TxError → Bool
  pub mined : ℕ → Bool

module _ (c : Retry) where
  -- What follows an attempt: the error ends the loop or is skipped over, or the receipt decides.
  unfoldable pub after_attempt : ℕ → M (Option Tx) → SignedResult → Option TxError → M (Option Tx)
  after_attempt k again r none = if c.mined k then pure (some r.tx) else (do set_nonce 0; again)
  after_attempt k again r (some err) = if c.should_skip err then pure (some r.tx) else again

  -- From the attempt `k` on, with so many attempts left; `none` if they do not suffice.
  unfoldable pub run_with_retry : ℕ → ℕ → M (Option Tx)
  run_with_retry zero k = pure none
  run_with_retry (suc left) k = do
    r ← c.send_tx k
    after_attempt k (run_with_retry left (k + 1)) r r.error

-- `ShouldSkip` where none is given, in the deployment, and for a list of allowed errors.
abbrev pub skip_nothing : TxError → Bool
skip_nothing err = false

unfoldable pub skip_deployed : Bool → TxError → Bool
skip_deployed fix_nonce_zero (rejected known_transaction) = true
skip_deployed fix_nonce_zero (rejected nonce_too_low) = fix_nonce_zero
skip_deployed fix_nonce_zero _ = false

module _ (e : ℕ → Env) (mined : ℕ → Bool) (attempts : ℕ) where
  unfoldable pub transfer_signed_tx_with_guarantee_retry :
      Account → ℕ → Option (List ℕ) → M (Option Tx)
  transfer_signed_tx_with_guarantee_retry to value input =
      run_with_retry
        (record {
          send_tx = λ k. transfer_signed_tx_return_tx (e k) true to value input;
          should_skip = skip_nothing;
          mined = mined;
        })
        attempts 0

  -- The address of the contract, or `none` while the attempts do not suffice.
  abbrev pub deployed_at : Account → ℕ → Option Tx → Option ℕ
  deployed_at self nonce none = none
  deployed_at self nonce (some tx) = some ((e 0).create_address self.address nonce)

  unfoldable pub smart_contract_deploy_with_guarantee_retry : List ℕ → Bool → M (Option ℕ)
  smart_contract_deploy_with_guarantee_retry byte_code fix_nonce_zero = do
    own ← get_nonce (e 0)
    self ← get_self
    tx ←
        run_with_retry
          (record {
            send_tx = λ k. transfer_new_legacy_tx_with_eth (e k) none 0 byte_code;
            should_skip = skip_deployed fix_nonce_zero;
            mined = mined;
          })
          attempts 0
    pure (deployed_at self (if fix_nonce_zero then 0 else own) tx)

  -- `TryRunTxSendFunctionWithGuaranteeRetry`, by the test on the allowed errors.
  unfoldable pub try_run_tx_send_function_with_guarantee_retry :
      (TxError → Bool) → (Env → M SignedResult) → M (Option Tx)
  try_run_tx_send_function_with_guarantee_retry allowed tx_send_func =
      run_with_retry
        (record { send_tx = λ k. tx_send_func (e k); should_skip = allowed; mined = mined })
        attempts 0
