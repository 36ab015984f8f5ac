-- ===== src/Account/TargetTx.antt =====
-- klayslave/account/targetTxTypeLIst.go: the target transactions of an auction, by the keys of
-- `TargetTxTypeList`: how one is built, what goes out before its bids and what after them.
pub mod Before
pub mod Laws
use kaia_load_tester.Prelude.{
  ℕ, ◌+◌, ◌%◌, ◌^◌, Option, none, some, List, [], ◌∷◌, String, if◌then◌else◌,
}
use kaia_load_tester.Account.Types.{
  Account, TxType, value_transfer, smart_contract_execution, TxValues, Key, num, addr, bytes, Body,
  with_map, Tx, Env, SendError, TxError, sign_failed, rejected, incr, M, ◌>>=◌, ◌>>◌, pure, done,
  or_fatal, get_self,
}
use kaia_load_tester.Account.Nonce.{update_nonce}
use kaia_load_tester.Account.Send.{submit, settle, to_error}
use kaia_load_tester.Account.Transfers.Contracts.{first_key}
use kaia_load_tester.Account.Direct.{signed_tx}
use kaia_load_tester.Account.Gasless.{approve_body, swap_body, add_two}

-- The keys of the list: "VT", "SC", "rSC", "GAA", "GAS", "rGAA" and "rGAS".
pub data Target : Type 0 where
  vt sc rsc gaa gas rgaa rgas : Target

-- `account.updateLastBlocknumSentTx`
unfoldable pub update_last_blocknum_sent_tx : ℕ → M (Unit {0})
update_last_blocknum_sent_tx block w =
    done tt (record w { self = record w.self { last_blocknum_sent_tx = block } })

-- `account.nonce++` and the block's number.
unfoldable pub one_sent : ℕ → M (Unit {0})
one_sent block = do update_nonce; update_last_blocknum_sent_tx (block % 2 ^ 64)

-- `account.nonce += 2` and the block's number.
unfoldable pub two_sent : ℕ → M (Unit {0})
two_sent block = do add_two; update_last_blocknum_sent_tx (block % 2 ^ 64)

module _ (e : Env) where
  abbrev pub vt_values : Account → ℕ → ℕ → TxValues
  vt_values self nonce price =
      (Key.nonce, num nonce)
      ∷ (Key.to, addr self.address)
      ∷ (Key.amount, num 1)
      ∷ (Key.gas_limit, num 100_000)
      ∷ (Key.gas_price, num price)
      ∷ (Key.from, addr self.address)
      ∷ []

  abbrev pub sc_values : Account → ℕ → ℕ → List ℕ → TxValues
  sc_values self nonce price call =
      (Key.nonce, num nonce)
      ∷ (Key.to, addr (e.counter_address tt))
      ∷ (Key.payload, bytes call)
      ∷ (Key.amount, num 0)
      ∷ (Key.gas_limit, num 5_000_000)
      ∷ (Key.gas_price, num price)
      ∷ (Key.from, addr self.address)
      ∷ []

  -- `NewTransactionWithMap` and `SignWithKeys`: nil where one of them fails.
  abbrev pub build_or_nil : TxType → TxValues → List ℕ → Option Tx
  build_or_nil type values keys =
      if e.new_transaction_ok type values
      then (if e.sign_ok (with_map type values) keys
          then some (signed_tx (with_map type values) keys)
          else none)
      else none

  -- `SignTx` with the first key: nil where it fails.
  abbrev pub sign_or_nil : Body → Account → Option Tx
  sign_or_nil body by =
      if e.sign_ok body (first_key by ∷ []) then some (signed_tx body (first_key by ∷ [])) else none

  -- The approval and the swap of the gasless token on the deployed contracts.
  abbrev pub approve_at : ℕ → ℕ → M Body
  approve_at nonce price = approve_body e nonce (e.token_address tt) (e.gsr_address tt) price

  abbrev pub swap_at : ℕ → ℕ → M Body
  swap_at nonce price = swap_body e nonce (e.token_address tt) (e.gsr_address tt) price

  unfoldable pub counter_call : String → Account → ℕ → ℕ → M (Option Tx)
  counter_call method self nonce price = do
    call ← or_fatal (e.abi_pack method [])
    pure (build_or_nil smart_contract_execution (sc_values self nonce price call) self.private_key)

  unfoldable pub approve_target : ℕ → ℕ → Account → M (Option Tx)
  approve_target nonce price by = do body ← approve_at nonce price; pure (sign_or_nil body by)

  unfoldable pub swap_target : ℕ → ℕ → Account → M (Option Tx)
  swap_target nonce price by = do body ← swap_at nonce price; pure (sign_or_nil body by)

  unfoldable pub generate_tx : Target → Account → ℕ → ℕ → M (Option Tx)
  generate_tx vt tmp nonce price = do
    self ← get_self
    pure (build_or_nil value_transfer (vt_values self nonce price) self.private_key)
  generate_tx sc tmp nonce price = do self ← get_self; counter_call "incForSC" self nonce price
  generate_tx rsc tmp nonce price = do
    self ← get_self
    counter_call "intendedRevert" self nonce price
  generate_tx gaa tmp nonce price = do self ← get_self; approve_target nonce price self
  generate_tx gas tmp nonce price = do self ← get_self; swap_target (incr nonce) price self
  generate_tx rgaa tmp nonce price = approve_target 0 price tmp
  generate_tx rgas tmp nonce price = swap_target 1 price tmp

  -- The node's answer to GAS's approval.
  unfoldable pub after_approval : Option SendError → M (Option TxError)
  after_approval none = pure none
  after_approval (some err) = do settle (some err); pure (some (rejected err))

  unfoldable pub pre_approve : Option Tx → M (Option TxError)
  pre_approve none = pure (some sign_failed)
  pre_approve (some tx) = do answer ← submit e tx; after_approval answer

  -- rGAS's approval is the temporary account's, whose nonce nobody counts.
  unfoldable pub pre_approve_tmp : Option Tx → M (Option TxError)
  pre_approve_tmp none = pure (some sign_failed)
  pre_approve_tmp (some tx) = do answer ← submit e tx; pure (to_error answer)

  unfoldable pub pre_send_bid : Target → Account → ℕ → ℕ → M (Option TxError)
  pre_send_bid vt tmp nonce price = pure none
  pre_send_bid sc tmp nonce price = pure none
  pre_send_bid rsc tmp nonce price = pure none
  pre_send_bid gaa tmp nonce price = pure none
  pre_send_bid gas tmp nonce price = do
    self ← get_self
    tx ← approve_target nonce price self
    pre_approve tx
  pre_send_bid rgaa tmp nonce price = pure none
  pre_send_bid rgas tmp nonce price = do tx ← approve_target 0 price tmp; pre_approve_tmp tx

  -- The node's answer to GAA's swap.
  unfoldable pub after_swap_sent : ℕ → Option SendError → M (Unit {0})
  after_swap_sent block none = two_sent block
  after_swap_sent block (some err) = settle (some err)

  -- `SendRawTransaction` of a transaction or of nil.
  unfoldable pub submit_or_nil : Option Tx → M (Option SendError)
  submit_or_nil none = pure (e.send_nil_transaction tt)
  submit_or_nil (some tx) = submit e tx

  -- The error of signing the swap is dropped, and the result submitted, nil where signing failed.
  unfoldable pub post_send_bid : Target → Account → ℕ → ℕ → ℕ → M (Unit {0})
  post_send_bid vt tmp nonce price block = one_sent block
  post_send_bid sc tmp nonce price block = one_sent block
  post_send_bid rsc tmp nonce price block = one_sent block
  post_send_bid gaa tmp nonce price block = do
    self ← get_self
    body ← swap_at (incr nonce) price
    answer ← submit_or_nil (sign_or_nil body self)
    after_swap_sent block answer
  post_send_bid gas tmp nonce price block = two_sent block
  post_send_bid rgaa tmp nonce price block = do
    body ← swap_at 1 price
    answer ← submit_or_nil (sign_or_nil body tmp)
    pure tt
  post_send_bid rgas tmp nonce price block = pure tt
