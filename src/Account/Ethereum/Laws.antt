-- ===== src/Account/Ethereum/Laws.antt =====
-- Every method that signs and submits one transaction with `sendRawTx`, on every branch.
use kaia_load_tester.Prelude.{
  ℕ, ◌≡◌, refl, ◌⊎◌, inl, inr, Bool, false, Option, none, some, List, [], ◌∷◌, ◌++◌, Bool-cases,
  Option-cases,
}
use kaia_load_tester.Account.Types.{
  Account, Body, legacy, Tx, Env, sign_failed, Outcome, done, fatal, M, World, ◌>>=◌, pure,
}
use kaia_load_tester.Account.Send.{to_error, send_raw_tx}
use kaia_load_tester.Account.Send.Laws.{next_nonce, settled, get_nonce-next, tx_nonce}
use kaia_load_tester.Account.Direct.{
  SignedResult, transfer_signed_tx_return_tx, signed_tx, gas_of, input_of,
}
use kaia_load_tester.Account.Direct.Laws.{send_raw_tx-settled}
use kaia_load_tester.Account.Transfers.Contracts.{first_key}
use kaia_load_tester.Account.Ethereum.{
  EthTxType, eth_legacy, eth_access_list, eth_dynamic_fee, eth_body, with_list, address_of,
  transfer_new_eth_style_tx, transfer_new_ethereum_tx_with_access_list,
  transfer_new_ethereum_access_list_tx, transfer_new_ethereum_dynamic_fee_tx,
  transfer_new_legacy_tx_with_eth, transfer_new_eth_access_list_tx_with_eth,
  transfer_new_eth_dynamic_fee_tx_with_eth,
}

pub data Method : Type 0 where
  signed : Bool → Account → ℕ → Option (List ℕ) → Method
  legacy_with_eth access_list_with_eth dynamic_fee_with_eth : Option Account → ℕ → List ℕ → Method
  fetched_access_list fetched_dynamic_fee : Option Account → ℕ → List ℕ → Method

abbrev pub call : Env → Method → M SignedResult
call e (signed lock to value input) = transfer_signed_tx_return_tx e lock to value input
call e (legacy_with_eth to value input) = transfer_new_legacy_tx_with_eth e to value input
call e (access_list_with_eth to value input) =
    transfer_new_eth_access_list_tx_with_eth e to value input
call e (dynamic_fee_with_eth to value input) =
    transfer_new_eth_dynamic_fee_tx_with_eth e to value input
call e (fetched_access_list to value input) = transfer_new_ethereum_access_list_tx e to value input
call e (fetched_dynamic_fee to value input) = transfer_new_ethereum_dynamic_fee_tx e to value input

-- The keys that sign: a plain transfer signs with the first key only.
abbrev pub keys_of : Method → Account → List ℕ
keys_of (signed lock to value input) self = first_key self ∷ []
keys_of _ self = self.private_key

-- One transaction went out, with the next nonce, and the account follows the node's answer.
abbrev Submitted : Env → List ℕ → World → SignedResult → World → Type 0
Submitted e keys w r w' =
    (w'.sent ≡ w.sent ++ r.tx ∷ [])
    × (tx_nonce r.tx.body ≡ some (next_nonce e w.self))
    × (r.tx.signed_by ≡ keys)
    × (r.error ≡ to_error (e.send_raw_transaction r.tx))
    × (w'.self.nonce ≡ settled (e.send_raw_transaction r.tx) (next_nonce e w.self))

-- Signing failed, and nothing went out.
abbrev Unsigned : Env → List ℕ → World → SignedResult → World → Type 0
Unsigned e keys w r w' =
    (e.sign_ok r.tx.body keys ≡ false)
    × (r.error ≡ some sign_failed)
    × (w'.sent ≡ w.sent)
    × (w'.self.nonce ≡ next_nonce e w.self)

abbrev pub SubmitsOne : Env → List ℕ → World → Outcome SignedResult → Type 0
SubmitsOne e keys w fatal =
    ((body : Body) × (e.sign_ok body keys ≡ false))
    ⊎ ((to : Option ℕ) × (value : ℕ) × (input : List ℕ) × (e.create_access_list w.self.address to
            value input
          ≡ none))
SubmitsOne e keys w (done r w') = Submitted e keys w r w' ⊎ Unsigned e keys w r w'

-- The next nonce is in place, and the transaction goes out with it.
submitted :
    (e : Env) (tx : Tx) (w : World) (price : ℕ)
    → tx_nonce tx.body ≡ some (next_nonce e w.self)
    → SubmitsOne e tx.signed_by w (
        (send_raw_tx e tx >>= (λ err. pure (record { tx = tx; price = price; error = err })))
          (record w { self = record w.self { nonce = next_nonce e w.self } }))
submitted e tx w price h = rw (send_raw_tx-settled e tx _, ◌>>=◌) (inl (refl, h, refl, refl, refl))

signed-SubmitsOne :
    (e : Env) (lock : Bool) (to : Account) (value : ℕ) (input : Option (List ℕ)) (w : World)
    → SubmitsOne e (first_key w.self ∷ []) w (transfer_signed_tx_return_tx e lock to value input w)
unfolding transfer_signed_tx_return_tx
signed-SubmitsOne e lock to value input w =
    let body =
      legacy (next_nonce e w.self) to.address value (gas_of input) e.default_gas_price
        (input_of input) in
    rw (get_nonce-next e w, ◌>>=◌)
      (elim (Bool-cases (e.sign_ok body (first_key w.self ∷ []))) [
        | inl signs ↦
            rw signs
              (submitted e (signed_tx body (first_key w.self ∷ [])) w e.default_gas_price refl)
        | inr refused ↦ rw refused (inl (body, refused))
      ])

eth_body-nonce :
    (e : Env) (type : EthTxType) (n : ℕ) (to : Option Account) (value : ℕ) (input : List ℕ)
    → tx_nonce (eth_body e type n to value input) ≡ some n
eth_body-nonce e eth_legacy n none value input = refl
eth_body-nonce e eth_access_list n none value input = refl
eth_body-nonce e eth_dynamic_fee n none value input = refl
eth_body-nonce e eth_legacy n (some to) value input = refl
eth_body-nonce e eth_access_list n (some to) value input = refl
eth_body-nonce e eth_dynamic_fee n (some to) value input = refl

eth_style-SubmitsOne :
    (e : Env) (to : Option Account) (value : ℕ) (input : List ℕ) (type : EthTxType) (w : World)
    → SubmitsOne e w.self.private_key w (transfer_new_eth_style_tx e to value input type w)
unfolding transfer_new_eth_style_tx
eth_style-SubmitsOne e to value input type w =
    let body = eth_body e type (next_nonce e w.self) to value input in
    rw (get_nonce-next e w, ◌>>=◌)
      (elim (Bool-cases (e.sign_ok body w.self.private_key)) [
        | inl signs ↦ rw signs (
            submitted e (signed_tx body w.self.private_key) w e.default_gas_price
              (eth_body-nonce e type (next_nonce e w.self) to value input))
        | inr refused ↦ rw refused (inr (refused, refl, refl, refl))
      ])

fetched-SubmitsOne :
    (e : Env) (type : EthTxType) (to : Option Account) (value : ℕ) (input list : List ℕ)
    (body : Body) (w : World)
    → e.create_access_list w.self.address (address_of to) value input ≡ some list
    → with_list e type (next_nonce e w.self) (address_of to) value list input ≡ some body
    → tx_nonce body ≡ some (next_nonce e w.self)
    → SubmitsOne e w.self.private_key w
        (transfer_new_ethereum_tx_with_access_list e to value input type w)
unfolding transfer_new_ethereum_tx_with_access_list
fetched-SubmitsOne e type to value input list body w found made n =
    rw (get_nonce-next e w, ◌>>=◌)
      (rw found (
        rw made (elim (Bool-cases (e.sign_ok body w.self.private_key)) [
          | inl signs ↦
              rw signs (submitted e (signed_tx body w.self.private_key) w e.default_gas_price n)
          | inr refused ↦ rw refused (inl (body, refused))
        ])))

unfetched-SubmitsOne :
    (e : Env) (type : EthTxType) (to : Option Account) (value : ℕ) (input : List ℕ) (w : World)
    → e.create_access_list w.self.address (address_of to) value input ≡ none
    → SubmitsOne e w.self.private_key w
        (transfer_new_ethereum_tx_with_access_list e to value input type w)
unfolding transfer_new_ethereum_tx_with_access_list
unfetched-SubmitsOne e type to value input w missing =
    rw (get_nonce-next e w, ◌>>=◌) (rw missing (inr (address_of to, value, input, missing)))

-- Each of TransferSignedTxReturnTx, TransferNewEthereumAccessListTx, TransferNewEthereumDynamicFeeTx,
-- TransferNewLegacyTxWithEth, TransferNewEthAccessListTxWithEth and TransferNewEthDynamicFeeTxWithEth
-- either sends exactly one transaction, with the account's next nonce, signed with the keys of the
-- method, reports the node's error and moves the nonce as the node's answer says; or it sends
-- nothing, because the keys cannot sign, and keeps the next nonce. The process ends only where
-- signing or fetching the access list fails.
pub call-SubmitsOne :
    (e : Env) (m : Method) (w : World) → SubmitsOne e (keys_of m w.self) w (call e m w)
unfolding transfer_new_ethereum_access_list_tx transfer_new_ethereum_dynamic_fee_tx
    transfer_new_legacy_tx_with_eth transfer_new_eth_access_list_tx_with_eth
    transfer_new_eth_dynamic_fee_tx_with_eth
call-SubmitsOne e (signed lock to value input) w = signed-SubmitsOne e lock to value input w
call-SubmitsOne e (legacy_with_eth to value input) w =
    eth_style-SubmitsOne e to value input eth_legacy w
call-SubmitsOne e (access_list_with_eth to value input) w =
    eth_style-SubmitsOne e to value input eth_access_list w
call-SubmitsOne e (dynamic_fee_with_eth to value input) w =
    eth_style-SubmitsOne e to value input eth_dynamic_fee w
call-SubmitsOne e (fetched_access_list to value input) w =
    elim (Option-cases (e.create_access_list w.self.address (address_of to) value input)) [
      | inl missing ↦ unfetched-SubmitsOne e eth_access_list to value input w missing
      | inr (list, found) ↦
          fetched-SubmitsOne e eth_access_list to value input list _ w found refl refl
    ]
call-SubmitsOne e (fetched_dynamic_fee to value input) w =
    elim (Option-cases (e.create_access_list w.self.address (address_of to) value input)) [
      | inl missing ↦ unfetched-SubmitsOne e eth_dynamic_fee to value input w missing
      | inr (list, found) ↦
          fetched-SubmitsOne e eth_dynamic_fee to value input list _ w found refl refl
    ]
