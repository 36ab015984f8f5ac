-- ===== src/Account/Types.antt =====
-- The data of klayslave/account/account.go: an account, a transaction as the call of the library
-- that built it, and what the libraries and the node answer.
-- Addresses, keys, hashes and amounts are only passed on and compared, so they are numbers.
use kaia_load_tester.Prelude.{ℕ, ◌%◌, ◌+◌, ◌^◌, Bool, true, false, Option, none, some, List, String}
use kaia_load_tester.Prelude.Dict.{lookup_by, insert_by}

pub record Account : Type 0 where
  pub private_key : List ℕ
  pub address : ℕ
  pub nonce : ℕ
  pub last_blocknum_sent_tx : ℕ

-- `types.TxType`, as far as the methods name it.
pub data TxType : Type 0 where
  value_transfer : TxType
  fee_delegated_value_transfer : TxType
  fee_delegated_value_transfer_with_ratio : TxType
  value_transfer_memo : TxType
  fee_delegated_value_transfer_memo : TxType
  fee_delegated_value_transfer_memo_with_ratio : TxType
  account_creation : TxType
  account_update : TxType
  fee_delegated_account_update : TxType
  fee_delegated_account_update_with_ratio : TxType
  smart_contract_deploy : TxType
  fee_delegated_smart_contract_deploy : TxType
  fee_delegated_smart_contract_deploy_with_ratio : TxType
  smart_contract_execution : TxType
  fee_delegated_smart_contract_execution : TxType
  fee_delegated_smart_contract_execution_with_ratio : TxType
  cancel : TxType
  fee_delegated_cancel : TxType
  fee_delegated_cancel_with_ratio : TxType

-- `types.TxValueKeyType`.
pub data Key : Type 0 where
  nonce : Key
  from : Key
  to : Key
  amount : Key
  gas_limit : Key
  gas_price : Key
  payload : Key
  fee_payer : Key
  fee_ratio : Key
  account_key : Key
  human_readable : Key
  code_format : Key

abbrev pub key_code : Key → ℕ
key_code Key.nonce = 0
key_code Key.from = 1
key_code Key.to = 2
key_code Key.amount = 3
key_code Key.gas_limit = 4
key_code Key.gas_price = 5
key_code Key.payload = 6
key_code Key.fee_payer = 7
key_code Key.fee_ratio = 8
key_code Key.account_key = 9
key_code Key.human_readable = 10
key_code Key.code_format = 11

pub data Value : Type 0 where
  num : ℕ → Value
  addr : ℕ → Value
  -- `(*common.Address)(nil)`
  no_addr : Value
  bytes : List ℕ → Value
  flag : Bool → Value
  -- `accountkey.NewAccountKeyPublicWithValue` of the public half of a private key
  public_of : ℕ → Value
  -- `params.CodeFormatEVM`
  evm : Value

abbrev pub TxValues : Type 0
TxValues = List (Key × Value)

-- `values[k]`
abbrev pub get_value : Key → TxValues → Option Value
get_value = lookup_by key_code

-- `values[k] = v`
abbrev pub put_value : Key → Value → TxValues → TxValues
put_value = insert_by key_code

-- A transaction by the call that built it.
pub data Body : Type 0 where
  -- `types.NewTransactionWithMap`
  with_map : TxType → TxValues → Body
  -- `types.NewTransaction(nonce, to, amount, gas, price, input)`
  legacy : ℕ → ℕ → ℕ → ℕ → ℕ → List ℕ → Body
  -- `types.NewContractCreation(nonce, amount, gas, price, input)`
  creation : ℕ → ℕ → ℕ → ℕ → List ℕ → Body
  -- `types.NewTx` of an access list transaction: nonce, recipient, gas, price, amount, list, input
  access_list : ℕ → Option ℕ → ℕ → ℕ → ℕ → List ℕ → List ℕ → Body
  -- `types.NewTx` of a dynamic fee transaction: nonce, recipient, gas, fee cap, tip cap, amount,
  -- list, input
  dynamic_fee : ℕ → Option ℕ → ℕ → ℕ → ℕ → ℕ → List ℕ → List ℕ → Body

pub record Tx : Type 0 where
  pub body : Body
  pub signed_by : List ℕ
  pub fee_payer_signed_by : List ℕ

-- `auction.Bid`: the bundle of a target transaction and a call, for one block.
pub record Bid : Type 0 where
  pub target : Tx
  pub block_number : ℕ
  pub sender : ℕ
  pub to : ℕ
  pub nonce : ℕ
  pub bid : ℕ
  pub call_gas_limit : ℕ
  pub payload : List ℕ

-- The texts that the code compares an error of the node with, and any other text, by a number; 0
-- stands for the empty text.
pub data SendError : Type 0 where
  nonce_too_low replace_underpriced known_transaction : SendError
  other : ℕ → SendError

pub data TxError : Type 0 where
  create_failed sign_failed fee_payer_sign_failed : TxError
  rejected : SendError → TxError
  -- any other error of a method, by its text
  failed : String → TxError

-- What `SendAuctionTx` answers: whether the call failed, and the error text of its output.
pub record BidAnswer : Type 0 where
  pub call_failed : Bool
  pub submit_error : Option SendError

-- What the code does not implement: the node's answers during one call of a method, and the
-- functions of the Kaia libraries. `none` is an error, and for `send_raw_transaction` it is none.
pub record Env : Type 0 where
  pub nonce_at : ℕ → Option ℕ
  pub send_raw_transaction : Tx → Option SendError
  -- the hash that the client returns beside an error
  pub rejected_hash : Tx → ℕ
  pub suggest_gas_price : Unit {0} → Option ℕ
  pub block_number : Unit {0} → Option ℕ
  -- of the sender, the recipient, the amount and the input of a call
  pub create_access_list : ℕ → Option ℕ → ℕ → List ℕ → Option (List ℕ)
  pub new_transaction_ok : TxType → TxValues → Bool
  pub sign_ok : Body → List ℕ → Bool
  pub tx_hash : Tx → ℕ
  pub create_address : ℕ → ℕ → ℕ
  pub abi_pack : String → List Value → Option (List ℕ)
  -- the hash of a transaction from which a signed copy was made
  pub built_hash : Body → ℕ
  pub bid_hash : Bid → ℕ
  pub send_auction_tx : Bid → BidAnswer
  pub sign_bid_ok : Bid → ℕ → Bool
  -- the entry point's nonce of an account, zero where it cannot be read
  pub entrypoint_nonce : ℕ → ℕ
  -- `time.Now().Unix()`
  pub now : Unit {0} → ℕ
  -- the addresses of the gasless token, the swap router and the counter contract
  pub token_address : Unit {0} → ℕ
  pub gsr_address : Unit {0} → ℕ
  pub counter_address : Unit {0} → ℕ
  -- the package variable `gasPrice`
  pub default_gas_price : ℕ
  -- The client's answer to a nil transaction, of which nothing reaches the node.
  pub send_nil_transaction : Unit {0} → Option SendError

-- `n++` on a uint64.
unfoldable pub incr : ℕ → ℕ
incr n = (n + 1) % 2 ^ 64

-- A method runs on its account, under the account's mutex, and the node gets transactions.
pub record World : Type 0 where
  pub self : Account
  pub sent : List Tx
  pub bids : List Bid

-- `fatal` is `log.Fatalf`, which ends the process.
pub data Outcome (A : Type 0) : Type 0 where
  done : A → World → Outcome A
  fatal : Outcome A

abbrev pub M : Type 0 → Type 0
M A = World → Outcome A

infixl 5 ◌>>=◌ ◌>>◌
abbrev pub ◌>>=◌ : {A B : Type 0} → M A → (A → M B) → M B
◌>>=◌ m f w = elim (m w) [ done a w' ↦ f a w' | fatal ↦ fatal ]

abbrev pub ◌>>◌ : {B : Type 0} → M (Unit {0}) → M B → M B
m >> k = m >>= λ _. k

abbrev pub pure : {A : Type 0} → A → M A
pure a w = done a w

abbrev pub or_fatal : {A : Type 0} → Option A → M A
or_fatal none w = fatal
or_fatal (some a) w = done a w

abbrev pub guard_fatal : Bool → M (Unit {0})
guard_fatal true w = done tt w
guard_fatal false w = fatal

abbrev pub get_self : M Account
get_self w = done w.self w

-- `self.nonce = n`
abbrev pub set_nonce : ℕ → M (Unit {0})
set_nonce n w = done tt (record w { self = record w.self { nonce = n } })
