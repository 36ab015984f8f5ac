-- ===== src/Account/Send.antt =====
-- `sendRawTx` and `sendTransaction` of klayslave/account/account.go.
pub mod Laws
use kaia_load_tester.Prelude.{
  ℕ, Bool, true, Option, none, some, List, [], ◌∷◌, ◌++◌, if◌then◌else◌, is_some,
}
use kaia_load_tester.Account.Types.{
  Account, TxType, TxValues, Key, num, addr, get_value, put_value, with_map, Body, Tx, Env,
  SendError, TxError, create_failed, sign_failed, fee_payer_sign_failed, rejected, M, done, ◌>>=◌,
  ◌>>◌, pure, get_self,
}
use kaia_load_tester.Account.Nonce.{get_nonce, update_nonce, is_nonce_used}

-- `TxOption`; locking is the step itself.
pub record TxOption : Type 0 where
  pub fee_payer : Option Account

abbrev pub no_option : Option TxOption
no_option = none

abbrev pub payer_of : Option TxOption → Option Account
payer_of none = none
payer_of (some o) = o.fee_payer

pub record SendResult : Type 0 where
  pub tx : Option Tx
  pub error : Option TxError

-- `c.SendRawTransaction`: the node gets the transaction and answers.
abbrev pub submit : Env → Tx → M (Option SendError)
submit e tx w = done (e.send_raw_transaction tx) (record w { sent = w.sent ++ tx ∷ [] })

-- What both functions do with the answer: `self.nonce++`, or not.
unfoldable pub settle : Option SendError → M (Unit {0})
unfolding update_nonce is_nonce_used
settle none = update_nonce
settle (some err) = if is_nonce_used err then update_nonce else pure tt

abbrev pub to_error : Option SendError → Option TxError
to_error none = none
to_error (some err) = some (rejected err)

-- `values` with the sender's nonce and address.
abbrev pub signed : ℕ → ℕ → TxValues → TxValues
signed nonce address values =
    put_value Key.from (addr address) (put_value Key.nonce (num nonce) values)

abbrev pub payer_keys : Option Account → List ℕ
payer_keys none = []
payer_keys (some payer) = payer.private_key

abbrev pub built : TxType → TxValues → Account → Option Account → Tx
built type values self payer = record {
  body = with_map type values;
  signed_by = self.private_key;
  fee_payer_signed_by = payer_keys payer;
}

module _ (e : Env) where
  unfoldable pub send_raw_tx : Tx → M (Option TxError)
  send_raw_tx tx = do answer ← submit e tx; settle answer; pure (to_error answer)

  -- `SignFeePayerWithKeys`, if there is a fee payer.
  abbrev pub payer_signs : Body → Option Account → Bool
  payer_signs b none = true
  payer_signs b (some payer) = e.sign_ok b payer.private_key

  -- The values that the code completes: the price only if the caller gave none.
  abbrev pub complete : ℕ → ℕ → TxValues → TxValues
  complete nonce address values =
      if is_some (get_value Key.gas_price (signed nonce address values))
      then signed nonce address values
      else put_value Key.gas_price (num e.default_gas_price) (signed nonce address values)

  -- The last part of `sendTransaction`: submit, settle the nonce, return the transaction.
  unfoldable pub send_built : Tx → M SendResult
  send_built tx = do
    answer ← submit e tx
    settle answer
    pure (record { tx = some tx; error = to_error answer })

  unfoldable pub send_transaction : TxType → TxValues → Option TxOption → M SendResult
  send_transaction type values opt = do
    nonce ← get_nonce e
    self ← get_self
    let full = complete nonce self.address values
    let body = with_map type full
    if e.new_transaction_ok type full
        then (if e.sign_ok body self.private_key
            then (if payer_signs body (payer_of opt)
                then send_built (built type full self (payer_of opt))
                else pure (record { tx = none; error = some fee_payer_sign_failed }))
            else pure (record { tx = none; error = some sign_failed }))
        else pure (record { tx = none; error = some create_failed })
