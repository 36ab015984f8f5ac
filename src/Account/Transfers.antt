-- ===== src/Account/Transfers.antt =====
-- The methods of klayslave/account/account.go that send one transaction through `sendTransaction`:
-- value transfers, memos, account creation and updates, cancellations.
pub mod Contracts
pub mod Methods
pub mod Coherence
use Prim.Native.Char.{code}
use Prim.Native.String
use kaia_load_tester.Prelude.{
  ℕ, zero, suc, ◌+◌, ◌-◌, ◌%◌, false, Option, none, some, List, [], ◌∷◌, String, get_or,
}
use kaia_load_tester.Account.Types.{
  Account, TxType, value_transfer, fee_delegated_value_transfer,
  fee_delegated_value_transfer_with_ratio, value_transfer_memo, fee_delegated_value_transfer_memo,
  fee_delegated_value_transfer_memo_with_ratio, account_creation, account_update,
  fee_delegated_account_update, fee_delegated_account_update_with_ratio, cancel,
  fee_delegated_cancel, fee_delegated_cancel_with_ratio, TxValues, Key, num, addr, bytes, flag,
  public_of, Tx, Env, TxError, M, ◌>>=◌, pure, get_self,
}
use kaia_load_tester.Account.Send.{TxOption, SendResult, send_transaction}

-- What these methods return: a hash, the price variable, an error.
pub record Reply : Type 0 where
  pub hash : ℕ
  pub price : ℕ
  pub error : Option TxError

-- `common.Hash{}`
abbrev pub zero_hash : ℕ
zero_hash = 0

abbrev pub paid_by : Account → Option TxOption
paid_by payer = some (record { fee_payer = some payer })

abbrev pub unpaid : Option TxOption
unpaid = none

abbrev pub hash_or_zero : Env → Option Tx → ℕ
hash_or_zero e none = zero_hash
hash_or_zero e (some tx) = e.tx_hash tx

abbrev pub reply : Env → SendResult → Reply
reply e r = record { hash = hash_or_zero e r.tx; price = e.default_gas_price; error = r.error }

-- `types.FeeRatio(30)`
abbrev pub thirty : ℕ
thirty = 30

abbrev hello : List ℕ
hello = b'h' ∷ b'e' ∷ b'l' ∷ b'l' ∷ b'o' ∷ []

abbrev codes : String → List ℕ
codes String.[] = []
codes (String.◌∷◌ c s) = code c ∷ codes s

abbrev letters : List ℕ
letters = codes "0123456789ABCDEFGHIJKLMNOPQRSTUVWXYZabcdefghijklmnopqrstuvwxyz"

-- `draws i` is the i-th number of the source `r`; `r.Intn(n)` is that modulo n.
unfoldable pub random_string : ℕ → (ℕ → ℕ) → List ℕ
random_string zero draws = []
random_string (suc n) draws = get_or letters (draws 0 % 62) 0 ∷ random_string n (λ i. draws (suc i))

unfoldable pub rand_int : ℕ → ℕ → ℕ → ℕ
rand_int min max draw = min + draw % (max - min)

module _ (e : Env) where
  abbrev pub send_reply : TxType → TxValues → Option TxOption → M Reply
  send_reply type values opt = do r ← send_transaction e type values opt; pure (reply e r)

  unfoldable pub transfer_new_value_transfer_tx : Account → ℕ → M Reply
  transfer_new_value_transfer_tx to value =
      send_reply value_transfer
        ((Key.to, addr to.address) ∷ (Key.amount, num value) ∷ (Key.gas_limit, num 100_000) ∷ [])
        unpaid

  unfoldable pub transfer_new_fee_delegated_value_transfer_tx : Account → ℕ → M Reply
  transfer_new_fee_delegated_value_transfer_tx to value =
      send_reply fee_delegated_value_transfer
        ((Key.to, addr to.address)
          ∷ (Key.amount, num value)
          ∷ (Key.gas_limit, num 100_000)
          ∷ (Key.fee_payer, addr to.address)
          ∷ [])
        (paid_by to)

  unfoldable pub transfer_new_fee_delegated_value_transfer_with_ratio_tx : Account → ℕ → M Reply
  transfer_new_fee_delegated_value_transfer_with_ratio_tx to value =
      send_reply fee_delegated_value_transfer_with_ratio
        ((Key.to, addr to.address)
          ∷ (Key.amount, num value)
          ∷ (Key.gas_limit, num 100_000)
          ∷ (Key.fee_payer, addr to.address)
          ∷ (Key.fee_ratio, num thirty)
          ∷ [])
        (paid_by to)

  unfoldable pub create_memo_transfer_tx : Account → ℕ → List ℕ → ℕ → M Reply
  create_memo_transfer_tx to value memo gas_limit =
      send_reply value_transfer_memo
        ((Key.to, addr to.address)
          ∷ (Key.amount, num value)
          ∷ (Key.gas_limit, num gas_limit)
          ∷ (Key.payload, bytes memo)
          ∷ [])
        unpaid

  unfoldable pub transfer_new_value_transfer_memo_tx : Account → ℕ → M Reply
  transfer_new_value_transfer_memo_tx to value = create_memo_transfer_tx to value hello 150_000

  -- The first draw chooses the length, the others the letters.
  unfoldable pub transfer_new_value_transfer_big_random_string_memo_tx :
      (ℕ → ℕ) → Account → ℕ → M Reply
  transfer_new_value_transfer_big_random_string_memo_tx draws to value =
      create_memo_transfer_tx to value
        (random_string (rand_int 50 2000 (draws 0)) (λ i. draws (suc i))) 200_000

  unfoldable pub transfer_new_value_transfer_small_memo_tx : (ℕ → ℕ) → Account → ℕ → M Reply
  transfer_new_value_transfer_small_memo_tx draws to value =
      create_memo_transfer_tx to value (random_string 200 draws) 150_000

  unfoldable pub transfer_new_value_transfer_large_memo_tx : (ℕ → ℕ) → Account → ℕ → M Reply
  transfer_new_value_transfer_large_memo_tx draws to value =
      create_memo_transfer_tx to value (random_string 2000 draws) 200_000

  unfoldable pub transfer_new_fee_delegated_value_transfer_memo_tx : Account → ℕ → M Reply
  transfer_new_fee_delegated_value_transfer_memo_tx to value =
      send_reply fee_delegated_value_transfer_memo
        ((Key.to, addr to.address)
          ∷ (Key.amount, num value)
          ∷ (Key.gas_limit, num 100_000)
          ∷ (Key.payload, bytes hello)
          ∷ (Key.fee_payer, addr to.address)
          ∷ [])
        (paid_by to)

  unfoldable pub transfer_new_fee_delegated_value_transfer_memo_with_ratio_tx :
      Account → ℕ → M Reply
  transfer_new_fee_delegated_value_transfer_memo_with_ratio_tx to value =
      send_reply fee_delegated_value_transfer_memo_with_ratio
        ((Key.to, addr to.address)
          ∷ (Key.amount, num value)
          ∷ (Key.gas_limit, num 100_000)
          ∷ (Key.payload, bytes hello)
          ∷ (Key.fee_payer, addr to.address)
          ∷ (Key.fee_ratio, num thirty)
          ∷ [])
        (paid_by to)
