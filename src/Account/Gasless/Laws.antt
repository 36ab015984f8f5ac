-- ===== src/Account/Gasless/Laws.antt =====
-- What the gasless methods send, and what becomes of the nonce.
use mathlib.Core.List.{append_assoc}
use kaia_load_tester.Prelude.{
  ℕ, ◌+◌, ◌*◌, ◌%◌, ◌^◌, ◌≡◌, refl, true, Option, none, some, List, [], ◌∷◌, ◌++◌,
}
use kaia_load_tester.Account.Types.{
  Account, Body, legacy, num, addr, Tx, Env, SendError, rejected, Outcome, done, fatal, World, incr,
  ◌>>=◌,
}
use kaia_load_tester.Account.Send.{to_error}
use kaia_load_tester.Account.Send.Laws.{
  next_nonce, settled, settle-settled, get_nonce-next, tx_nonce,
}
use kaia_load_tester.Account.Transfers.{Reply}
use kaia_load_tester.Account.Transfers.Contracts.{first_key}
use kaia_load_tester.Account.Direct.{signed_tx}
use kaia_load_tester.Account.Direct.Laws.{after_send}
use kaia_load_tester.Account.Gasless.{
  GaslessResult, max_uint256, amount_repay, approve_data, swap_data, approve_body, swap_body,
  after_swap, after_approve, gasless_at, transfer_new_gasless_tx, gasless_approve_at,
  transfer_new_gasless_approve_tx, add_two,
}

abbrev pub approve_tx : Account → ℕ → Account → ℕ → List ℕ → Tx
approve_tx self n token price call =
    signed_tx (legacy n token.address 0 100_000 price call) (first_key self ∷ [])

abbrev pub swap_tx : Account → ℕ → Account → ℕ → List ℕ → Tx
swap_tx self n gsr price call =
    signed_tx (legacy n gsr.address 0 500_000 price call) (first_key self ∷ [])

-- The node names a price, both calls can be packed and both transactions can be signed.
pub record Ready (e : Env) (self token gsr : Account) (n price : ℕ) (a s : List ℕ) : Type 0 where
  pub priced : e.suggest_gas_price tt ≡ some price
  pub approve_packs : e.abi_pack "approve" (addr gsr.address ∷ num max_uint256 ∷ []) ≡ some a
  pub swap_packs :
      e.abi_pack "swapForGas" (
        addr token.address
        ∷ num (amount_repay price * 10)
        ∷ num (amount_repay price)
        ∷ num (amount_repay price)
        ∷ num (e.now tt + 3600)
        ∷ [])
      ≡ some s
  pub approve_signs : e.sign_ok (approve_tx self n token price a).body (first_key self ∷ []) ≡ true
  pub swap_signs : e.sign_ok (swap_tx self (incr n) gsr price s).body (first_key self ∷ []) ≡ true

-- How the method ends, by the node's answers to the approval and to the swap.
abbrev pub GaslessEnds :
    World → ℕ → Tx → Tx → Option SendError → Option SendError → Outcome GaslessResult → Type 0
GaslessEnds w n approve swap a b fatal = ⊥
GaslessEnds w n approve swap none none (done r w') =
    (r.error ≡ none)
    × (w'.sent ≡ w.sent ++ approve ∷ swap ∷ [])
    × (w'.self.nonce ≡ (n + 2) % 2 ^ 64)
GaslessEnds w n approve swap none (some err) (done r w') =
    (r.error ≡ some (rejected err))
    × (w'.sent ≡ w.sent ++ approve ∷ swap ∷ [])
    × (w'.self.nonce ≡ settled (some err) n)
GaslessEnds w n approve swap (some err) b (done r w') =
    (r.error ≡ some (rejected err))
    × (w'.sent ≡ w.sent ++ approve ∷ [])
    × (w'.self.nonce ≡ settled (some err) n)

after_approve-GaslessEnds :
    (e : Env) (w : World) (n price : ℕ) (approve swap : Body) (keys : List ℕ)
    (a b : Option SendError)
    → e.send_raw_transaction (signed_tx swap keys) ≡ b
    → GaslessEnds w n
        (signed_tx approve keys)
        (signed_tx swap keys)
        a
        b
        (after_approve e approve swap keys price a (after_send w (signed_tx approve keys) n))
unfolding after_approve after_swap add_two
after_approve-GaslessEnds e w n price approve swap keys none none h =
    rw (h, after_swap) (refl, append_assoc w.sent _ _, refl)
after_approve-GaslessEnds e w n price approve swap keys none (some err) h =
    rw (h, after_swap) (rw (settle-settled (some err), ◌>>=◌) (refl, append_assoc w.sent _ _, refl))
after_approve-GaslessEnds e w n price approve swap keys (some err) b h =
    rw (settle-settled (some err), ◌>>=◌) (refl, refl, refl)

-- Where everything can be prepared, the approval goes out with the account's next nonce, and then,
-- if the node took it, the swap with the nonce after that. If the node takes both, the nonce goes
-- up by two; if it refuses the approval, or takes the approval and refuses the swap, the method
-- returns the error and the nonce goes up by one if that error says that it was used, and else not
-- at all.
pub gasless_ends :
    (e : Env) (token gsr : Account) (w : World) (price : ℕ) (a s : List ℕ)
    → Ready e w.self token gsr (next_nonce e w.self) price a s
    → let n = next_nonce e w.self in
      let approve = approve_tx w.self n token price a in
      let swap = swap_tx w.self (incr n) gsr price s in
      GaslessEnds w n approve swap
        (e.send_raw_transaction approve)
        (e.send_raw_transaction swap)
        (transfer_new_gasless_tx e token gsr w)
      × (tx_nonce approve.body ≡ some n)
      × (tx_nonce swap.body ≡ some (incr n))
unfolding transfer_new_gasless_tx gasless_at approve_body swap_body approve_data swap_data
gasless_ends e token gsr w price a s r = (
  rw (get_nonce-next e w, ◌>>=◌)
      (rw (r.priced, gasless_at)
        (rw r.approve_packs (
          rw r.approve_signs (
            rw r.swap_packs (
              rw r.swap_signs
                (after_approve-GaslessEnds e w (next_nonce e w.self) price _ _ _ _ _ refl)))))),
  refl,
  refl,
)

-- `TransferNewGaslessApproveTx` leaves the nonce at the cached or fetched one, whatever the node
-- answers to the approval that it sends.
pub gasless_approve_keeps_nonce :
    (e : Env) (token gsr : Account) (w : World) (price : ℕ) (a : List ℕ)
    → e.suggest_gas_price tt ≡ some price
    → e.abi_pack "approve" (addr gsr.address ∷ num max_uint256 ∷ []) ≡ some a
    → let approve = approve_tx w.self (next_nonce e w.self) token price a in
      e.sign_ok approve.body (first_key w.self ∷ []) ≡ true
      → (r : Reply) × (w' : World) × (transfer_new_gasless_approve_tx e token gsr w ≡ done r w')
        × (w'.sent ≡ w.sent ++ approve ∷ [])
        × (w'.self.nonce ≡ next_nonce e w.self)
        × (r.error ≡ to_error (e.send_raw_transaction approve))
unfolding transfer_new_gasless_approve_tx gasless_approve_at approve_body approve_data
gasless_approve_keeps_nonce e token gsr w price a p q s =
    let approve = approve_tx w.self (next_nonce e w.self) token price a in
    (
      record {
        hash = e.built_hash approve.body;
        price = price;
        error = to_error (e.send_raw_transaction approve);
      },
      after_send w approve (next_nonce e w.self),
      rw (get_nonce-next e w, ◌>>=◌) (rw (p, gasless_approve_at) (rw q (rw s refl))),
      refl,
      refl,
      refl,
    )
