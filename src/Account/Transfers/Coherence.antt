-- ===== src/Account/Transfers/Coherence.antt =====
-- The fee payer and the fee ratio of every method that sends through `sendTransaction`.
use kaia_load_tester.Prelude.{
  ℕ, ◌≡◌, ◌⊎◌, Bool, true, false, none, some, List, [], ◌∷◌, ◌++◌, String,
}
use kaia_load_tester.Account.Types.{
  Account, TxType, value_transfer, fee_delegated_value_transfer_with_ratio, value_transfer_memo,
  fee_delegated_value_transfer_memo_with_ratio, account_creation, account_update,
  fee_delegated_account_update_with_ratio, smart_contract_deploy,
  fee_delegated_smart_contract_deploy_with_ratio, smart_contract_execution,
  fee_delegated_smart_contract_execution_with_ratio, cancel, fee_delegated_cancel_with_ratio,
  TxValues, Key, Value, num, addr, get_value, with_map, Tx, Env, Outcome, done, fatal, World,
}
use kaia_load_tester.Account.Transfers.{Reply, thirty}

-- Whether another account than the sender's may pay for a transaction of the type, and whether the
-- type has a ratio.
abbrev pub is_fee_delegated : TxType → Bool
is_fee_delegated value_transfer = false
is_fee_delegated value_transfer_memo = false
is_fee_delegated account_creation = false
is_fee_delegated account_update = false
is_fee_delegated smart_contract_deploy = false
is_fee_delegated smart_contract_execution = false
is_fee_delegated cancel = false
is_fee_delegated _ = true

abbrev pub has_ratio : TxType → Bool
has_ratio fee_delegated_value_transfer_with_ratio = true
has_ratio fee_delegated_value_transfer_memo_with_ratio = true
has_ratio fee_delegated_account_update_with_ratio = true
has_ratio fee_delegated_smart_contract_deploy_with_ratio = true
has_ratio fee_delegated_smart_contract_execution_with_ratio = true
has_ratio fee_delegated_cancel_with_ratio = true
has_ratio _ = false

-- The account that the values name as the fee payer is the one whose keys sign; a type without
-- delegation names none, and no fee payer signs.
abbrev PayerSigns : Bool → TxValues → List ℕ → Type 0
PayerSigns true values keys =
    (payer : Account) × (get_value Key.fee_payer values ≡ some (addr payer.address))
    × (keys ≡ payer.private_key)
PayerSigns false values keys = (get_value Key.fee_payer values ≡ none) × (keys ≡ [])

abbrev RatioFits : Bool → TxValues → Type 0
RatioFits true values = get_value Key.fee_ratio values ≡ some (num thirty)
RatioFits false values = get_value Key.fee_ratio values ≡ none

abbrev pub Coherent : Tx → Type 0
Coherent tx =
    (type : TxType) × (values : TxValues) × (tx.body ≡ with_map type values)
    × PayerSigns (is_fee_delegated type) values tx.fee_payer_signed_by
    × RatioFits (has_ratio type) values

-- At most one transaction reaches the node, and it is coherent; the process ends only where a call
-- cannot be packed.
abbrev pub SendsCoherent : Env → World → Outcome Reply → Type 0
SendsCoherent e w fatal = (method : String) × (args : List Value) × (e.abi_pack method args ≡ none)
SendsCoherent e w (done r w') =
    (w'.sent ≡ w.sent) ⊎ ((tx : Tx) × (w'.sent ≡ w.sent ++ tx ∷ []) × Coherent tx)
