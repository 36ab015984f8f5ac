-- ===== src/Account/Direct/Laws.antt =====
-- What the transfer with its cancellation does, and what one raw submission does.
use mathlib.Core.List.{append_assoc}
use kaia_load_tester.Prelude.{
  ℕ, ◌≡◌, refl, ap, Bool, true, false, Option, none, some, List, [], ◌∷◌, ◌++◌,
}
use kaia_load_tester.Account.Types.{
  Account, value_transfer, cancel, smart_contract_deploy, nonce_too_low, replace_underpriced,
  known_transaction, with_map, Tx, Env, SendError, other, Outcome, done, fatal, World, incr, ◌>>=◌,
  rejected,
}
use kaia_load_tester.Account.Nonce.{update_nonce, is_nonce_used}
use kaia_load_tester.Account.Send.{send_raw_tx, to_error}
use kaia_load_tester.Account.Send.Laws.{
  next_nonce, settled, settle-settled, get_nonce-next, tx_nonce,
}
use kaia_load_tester.Account.Transfers.{Reply, zero_hash}
use kaia_load_tester.Account.Direct.{
  DeployResult, zero_address, deploy_values, settle_deploy, transfer_new_smart_contract_deploy_tx,
  signed_tx, transfer_values, cancel_values, build_and_sign, on_answer, send_list,
  transfer_new_value_transfer_with_cancel_tx,
}

abbrev pub after_send : World → Tx → ℕ → World
after_send w tx n = record w { self = record w.self { nonce = n }; sent = w.sent ++ tx ∷ [] }

pub send_raw_tx-settled :
    (e : Env) (tx : Tx) (w : World)
    → send_raw_tx e tx w
      ≡ done
          (to_error (e.send_raw_transaction tx))
          (after_send w tx (settled (e.send_raw_transaction tx) w.self.nonce))
unfolding send_raw_tx
send_raw_tx-settled e tx w = rw (settle-settled (e.send_raw_transaction tx), ◌>>=◌)

-- The two transactions of `TransferNewValueTransferWithCancelTx`.
abbrev pub transfer_part : Env → Account → ℕ → Account → ℕ → Tx
transfer_part e self n to value =
    signed_tx (with_map value_transfer (transfer_values e self n to value)) self.private_key

abbrev pub cancel_part : Env → Account → ℕ → Tx
cancel_part e self n = signed_tx (with_map cancel (cancel_values e self n)) self.private_key

-- The libraries build and sign both of them.
abbrev pub Builds : Env → Account → ℕ → Account → ℕ → Type 0
Builds e self n to value =
    (e.new_transaction_ok value_transfer (transfer_values e self n to value) ≡ true)
    × (e.sign_ok (transfer_part e self n to value).body self.private_key ≡ true)
    × (e.new_transaction_ok cancel (cancel_values e self n) ≡ true)
    × (e.sign_ok (cancel_part e self n).body self.private_key ≡ true)

-- What the node's answers to the transfer and to the cancellation make of the account and the
-- reply.
abbrev pub CancelEnds :
    Env → World → Tx → Tx → Option SendError → Option SendError → Outcome Reply → Type 0
CancelEnds e w first second a b fatal = ⊥
CancelEnds e w first second none none (done r w') =
    (r.error ≡ none)
    × (r.hash ≡ zero_hash)
    × (w'.sent ≡ w.sent ++ first ∷ second ∷ [])
    × (w'.self.nonce ≡ incr (next_nonce e w.self))
CancelEnds e w first second none (some err) (done r w') =
    (r.error ≡ some (rejected err))
    × (r.hash ≡ e.rejected_hash second)
    × (w'.sent ≡ w.sent ++ first ∷ second ∷ [])
    × (w'.self.nonce ≡ settled (some err) (next_nonce e w.self))
CancelEnds e w first second (some err) b (done r w') =
    (r.error ≡ some (rejected err))
    × (r.hash ≡ e.rejected_hash first)
    × (w'.sent ≡ w.sent ++ first ∷ [])
    × (w'.self.nonce ≡ settled (some err) (next_nonce e w.self))

built-lem :
    (e : Env) (to : Account) (value : ℕ) (w : World)
    → Builds e w.self (next_nonce e w.self) to value
    → transfer_new_value_transfer_with_cancel_tx e to value w
      ≡ send_list e
          (transfer_part e w.self (next_nonce e w.self) to value
            ∷ cancel_part e w.self (next_nonce e w.self)
            ∷ [])
          (record w { self = record w.self { nonce = next_nonce e w.self } })
unfolding transfer_new_value_transfer_with_cancel_tx build_and_sign
built-lem e to value w (a, b, c, d) = rw (get_nonce-next e w, ◌>>=◌) (rw (a, b, c, d))

send_two :
    (e : Env) (first second : Tx) (n : ℕ) (w : World) (a b : Option SendError)
    → n ≡ next_nonce e w.self
    → e.send_raw_transaction first ≡ a
    → e.send_raw_transaction second ≡ b
    → CancelEnds e w first second a b
        (send_list e (first ∷ second ∷ []) (record w { self = record w.self { nonce = n } }))
unfolding send_list on_answer update_nonce
send_two e first second n w none none h ha hb =
    rw (ha, on_answer)
      (rw (hb, on_answer) (refl, refl, append_assoc w.sent (first ∷ []) (second ∷ []), ap incr h))
send_two e first second n w none (some err) h ha hb =
    rw (ha, on_answer)
      (rw (hb, on_answer)
        (rw (settle-settled (some err), ◌>>=◌)
          (refl, refl, append_assoc w.sent (first ∷ []) (second ∷ []), ap (settled (some err)) h)))
send_two e first second n w (some err) b h ha hb =
    rw (ha, on_answer)
      (rw (settle-settled (some err), ◌>>=◌) (refl, refl, refl, ap (settled (some err)) h))

-- Where the libraries build and sign both transactions, the value transfer goes out first and its
-- cancellation after it, only if the node took the transfer, and both carry the account's next
-- nonce. If the node takes both, the nonce goes up by one and the method returns no error, but the
-- zero hash in place of a transaction's; otherwise it returns the first error, with the nonce one
-- higher only if that error says that the nonce was used.
pub with_cancel_settles :
    (e : Env) (to : Account) (value : ℕ) (w : World)
    → Builds e w.self (next_nonce e w.self) to value
    → let n = next_nonce e w.self in
      let first = transfer_part e w.self n to value in
      let second = cancel_part e w.self n in
      CancelEnds e w first second
        (e.send_raw_transaction first)
        (e.send_raw_transaction second)
        (transfer_new_value_transfer_with_cancel_tx e to value w)
      × (tx_nonce first.body ≡ some n)
      × (tx_nonce second.body ≡ some n)
with_cancel_settles e to value w h = (
  rw (built-lem e to value w h) (
      send_two e (transfer_part e w.self (next_nonce e w.self) to value)
        (cancel_part e w.self (next_nonce e w.self)) (next_nonce e w.self) w _ _ refl refl refl),
  refl,
  refl,
)

abbrev pub deploy_tx : Env → Account → ℕ → ℕ → List ℕ → Tx
deploy_tx e self n value program =
    signed_tx (with_map smart_contract_deploy (deploy_values e self n value program))
      self.private_key

abbrev pub fixed : Bool → ℕ → ℕ
fixed true n = 0
fixed false n = n

-- What the answer to a deployment makes of the account and the result.
abbrev pub DeployEnds : Env → World → Bool → Tx → Option SendError → Outcome DeployResult → Type 0
DeployEnds e w fix tx answer fatal = ⊥
DeployEnds e w fix tx none (done r w') =
    (r.error ≡ none)
    × (r.address ≡ e.create_address w.self.address (next_nonce e w.self))
    × (w'.sent ≡ w.sent ++ tx ∷ [])
    × (w'.self.nonce ≡ incr (next_nonce e w.self))
DeployEnds e w true tx (some err) (done r w') =
    (r.error ≡ some (rejected err))
    × (r.address ≡ zero_address)
    × (w'.sent ≡ w.sent ++ tx ∷ [])
    × (w'.self.nonce ≡ next_nonce e w.self)
DeployEnds e w false tx (some err) (done r w') =
    (r.error ≡ some (rejected err))
    × (r.address ≡ zero_address)
    × (w'.sent ≡ w.sent ++ tx ∷ [])
    × (w'.self.nonce ≡ settled (some err) (next_nonce e w.self))

settle_deploy-DeployEnds :
    (e : Env) (w : World) (n : ℕ) (fix : Bool) (tx : Tx) (answer : Option SendError)
    → n ≡ next_nonce e w.self
    → DeployEnds e w fix tx answer (settle_deploy e fix tx answer (after_send w tx n))
unfolding settle_deploy update_nonce is_nonce_used
settle_deploy-DeployEnds e w n fix tx none h =
    (refl, ap (e.create_address w.self.address) h, refl, ap incr h)
settle_deploy-DeployEnds e w n true tx (some err) h = (refl, refl, refl, h)
settle_deploy-DeployEnds e w n false tx (some nonce_too_low) h = (refl, refl, refl, ap incr h)
settle_deploy-DeployEnds e w n false tx (some replace_underpriced) h = (refl, refl, refl, ap incr h)
settle_deploy-DeployEnds e w n false tx (some known_transaction) h = (refl, refl, refl, h)
settle_deploy-DeployEnds e w n false tx (some (other m)) h = (refl, refl, refl, h)

-- Where the libraries build and sign the deployment, it carries nonce zero if that was asked for
-- and the account's next nonce otherwise. If the node takes it, the result has the address that
-- belongs to the account's next nonce, in both cases, and the nonce goes up by one; on an error
-- the nonce goes up only if the nonce was not fixed and the error says that it was used.
pub deploy_ends :
    (e : Env) (to : Account) (value : ℕ) (program : List ℕ) (fix : Bool) (w : World)
    → let tx = deploy_tx e w.self (fixed fix (next_nonce e w.self)) value program in
      (e.new_transaction_ok smart_contract_deploy
          (deploy_values e w.self (fixed fix (next_nonce e w.self)) value program)
        ≡ true)
      → (e.sign_ok tx.body w.self.private_key ≡ true)
      → DeployEnds e w fix tx
          (e.send_raw_transaction tx)
          (transfer_new_smart_contract_deploy_tx e to value program fix w)
        × (tx_nonce tx.body ≡ some (fixed fix (next_nonce e w.self)))
unfolding transfer_new_smart_contract_deploy_tx build_and_sign
deploy_ends e to value program true w a b = (
  rw (get_nonce-next e w, ◌>>=◌)
      (rw (a, b) (settle_deploy-DeployEnds e w (next_nonce e w.self) true _ _ refl)),
  refl,
)
deploy_ends e to value program false w a b = (
  rw (get_nonce-next e w, ◌>>=◌)
      (rw (a, b) (settle_deploy-DeployEnds e w (next_nonce e w.self) false _ _ refl)),
  refl,
)
