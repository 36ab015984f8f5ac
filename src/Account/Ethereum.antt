-- ===== src/Account/Ethereum.antt =====
-- The Ethereum-style methods of klayslave/account/account.go.
pub mod Laws
use kaia_load_tester.Prelude.{ℕ, ◌*◌, Option, none, some, List, [], ◌∷◌, if◌then◌else◌}
use kaia_load_tester.Account.Types.{
  Account, Body, legacy, creation, access_list, dynamic_fee, Tx, Env, TxError, sign_failed, M,
  ◌>>=◌, ◌>>◌, pure, or_fatal, guard_fatal, get_self, fatal,
}
use kaia_load_tester.Account.Nonce.{get_nonce}
use kaia_load_tester.Account.Send.{send_raw_tx}
use kaia_load_tester.Account.Direct.{SignedResult, signed_tx}

pub data EthTxType : Type 0 where
  eth_legacy eth_access_list eth_dynamic_fee : EthTxType

abbrev pub address_of : Option Account → Option ℕ
address_of none = none
address_of (some to) = some to.address

module _ (e : Env) where
  -- The body that `transferNewEthereumTxWithAccessList` builds; no other type is handed to it, and
  -- signing the nil transaction that another type leaves would panic.
  abbrev pub with_list : EthTxType → ℕ → Option ℕ → ℕ → List ℕ → List ℕ → Option Body
  with_list eth_legacy nonce to value list input = none
  with_list eth_access_list nonce to value list input =
      some (access_list nonce to 5_000_000 e.default_gas_price value list input)
  with_list eth_dynamic_fee nonce to value list input =
      some (dynamic_fee nonce to 5_000_000 e.default_gas_price e.default_gas_price value list input)

  unfoldable pub transfer_new_ethereum_tx_with_access_list :
      Option Account → ℕ → List ℕ → EthTxType → M SignedResult
  transfer_new_ethereum_tx_with_access_list to value input type = do
    nonce ← get_nonce e
    self ← get_self
    list ← or_fatal (e.create_access_list self.address (address_of to) value input)
    body ← or_fatal (with_list type nonce (address_of to) value list input)
    guard_fatal (e.sign_ok body self.private_key)
    let tx = signed_tx body self.private_key
    err ← send_raw_tx e tx
    pure (record { tx = tx; price = e.default_gas_price; error = err })

  unfoldable pub transfer_new_ethereum_access_list_tx : Option Account → ℕ → List ℕ → M SignedResult
  transfer_new_ethereum_access_list_tx to value input =
      transfer_new_ethereum_tx_with_access_list to value input eth_access_list

  unfoldable pub transfer_new_ethereum_dynamic_fee_tx : Option Account → ℕ → List ℕ → M SignedResult
  transfer_new_ethereum_dynamic_fee_tx to value input =
      transfer_new_ethereum_tx_with_access_list to value input eth_dynamic_fee

  -- The body that `transferNewEthStyleTx` builds: a contract creation where there is no recipient.
  abbrev pub eth_body : EthTxType → ℕ → Option Account → ℕ → List ℕ → Body
  eth_body type nonce none value input =
      creation nonce value (10_000_000 * 2) e.default_gas_price input
  eth_body eth_legacy nonce (some to) value input =
      legacy nonce to.address value 10_000_000 e.default_gas_price input
  eth_body eth_access_list nonce (some to) value input =
      access_list nonce (some to.address) 10_000_000 e.default_gas_price value [] input
  eth_body eth_dynamic_fee nonce (some to) value input =
      dynamic_fee nonce (some to.address) 10_000_000 e.default_gas_price e.default_gas_price value
        [] input

  unfoldable pub transfer_new_eth_style_tx :
      Option Account → ℕ → List ℕ → EthTxType → M SignedResult
  transfer_new_eth_style_tx to value input type = do
    nonce ← get_nonce e
    self ← get_self
    let body = eth_body type nonce to value input
    let tx = signed_tx body self.private_key
    if e.sign_ok body self.private_key
        then send_raw_tx e tx
          >>= (λ err. pure (record { tx = tx; price = e.default_gas_price; error = err }))
        else pure (record {
          tx = signed_tx body [];
          price = e.default_gas_price;
          error = some sign_failed;
        })

  unfoldable pub transfer_new_legacy_tx_with_eth : Option Account → ℕ → List ℕ → M SignedResult
  transfer_new_legacy_tx_with_eth to value input =
      transfer_new_eth_style_tx to value input eth_legacy

  unfoldable pub transfer_new_eth_access_list_tx_with_eth :
      Option Account → ℕ → List ℕ → M SignedResult
  transfer_new_eth_access_list_tx_with_eth to value input =
      transfer_new_eth_style_tx to value input eth_access_list

  unfoldable pub transfer_new_eth_dynamic_fee_tx_with_eth :
      Option Account → ℕ → List ℕ → M SignedResult
  transfer_new_eth_dynamic_fee_tx_with_eth to value input =
      transfer_new_eth_style_tx to value input eth_dynamic_fee
