-- ===== src/Account/TargetTx/Before.antt =====
-- How the functions of a target type end, and what making a target and preparing the bids change.
use kaia_load_tester.Prelude.{
  ℕ, ◌≡◌, refl, Option, none, some, List, [], ◌∷◌, ◌++◌, String, Option-cases, inl, inr,
}
use kaia_load_tester.Account.Types.{
  Account, Value, Tx, Env, SendError, TxError, Outcome, done, fatal, M, World, incr, ◌>>=◌,
}
use kaia_load_tester.Account.Send.Laws.{settle-settled}
use kaia_load_tester.Account.Gasless.{
  approve_args, swap_args, max_uint256, approve_data, swap_data, approve_body, swap_body,
}
use kaia_load_tester.Account.TargetTx.{
  Target, vt, sc, rsc, gaa, gas, rgaa, rgas, counter_call, approve_target, swap_target, generate_tx,
  after_approval, pre_approve, pre_approve_tmp, pre_send_bid,
}

-- A run that ends as `Q` says; the process ends only where call data cannot be packed.
abbrev pub Ends : {A : Type 0} → Env → (A → World → Type 0) → Outcome A → Type 0
Ends e Q fatal = (method : String) × (args : List Value) × (e.abi_pack method args ≡ none)
Ends e Q (done a w) = Q a w

pub continued :
    {A B : Type 0} (e : Env) (Q : A → World → Type 0) (R : B → World → Type 0) (f : A → M B)
    (o : Outcome A)
    → Ends e Q o
    → ((a : A) (v : World) → Q a v → Ends e R (f a v))
    → Ends e R (elim o [ done a v ↦ f a v | fatal ↦ fatal ])
continued e Q R f fatal p k = p
continued e Q R f (done a v) p k = k a v p

pub weaken :
    {A : Type 0} (e : Env) (Q R : A → World → Type 0) (o : Outcome A)
    → Ends e Q o
    → ((a : A) (v : World) → Q a v → R a v)
    → Ends e R o
weaken e Q R fatal p k = p
weaken e Q R (done a v) p k = k a v p

abbrev pub Same : {A : Type 0} → World → A → World → Type 0
Same w a v = v ≡ w

module _ (e : Env) (w : World) where
  approve_target-Ends :
      (n price : ℕ) (by : Account) → Ends e (Same w) (approve_target e n price by w)
  unfolding approve_target approve_body approve_data
  approve_target-Ends n price by =
      elim (Option-cases (e.abi_pack "approve" (approve_args (e.gsr_address tt) max_uint256))) [
        | inl failed ↦ rw failed (_, _, failed)
        | inr (call, packed) ↦ rw packed refl
      ]

  swap_target-Ends : (n price : ℕ) (by : Account) → Ends e (Same w) (swap_target e n price by w)
  unfolding swap_target swap_body swap_data
  swap_target-Ends n price by =
      elim (Option-cases (e.abi_pack "swapForGas" (swap_args e (e.token_address tt) price))) [
        | inl failed ↦ rw failed (_, _, failed)
        | inr (call, packed) ↦ rw packed refl
      ]

  counter_call-Ends :
      (method : String) (self : Account) (n price : ℕ)
      → Ends e (Same w) (counter_call e method self n price w)
  unfolding counter_call
  counter_call-Ends method self n price = elim (Option-cases (e.abi_pack method [])) [
    | inl failed ↦ rw failed (_, _, failed)
    | inr (call, packed) ↦ rw packed refl
  ]

  -- Making a target sends nothing and changes nothing.
  pub generate_tx-Ends :
      (t : Target) (tmp : Account) (n price : ℕ) → Ends e (Same w) (generate_tx e t tmp n price w)
  unfolding generate_tx
  generate_tx-Ends vt tmp n price = refl
  generate_tx-Ends sc tmp n price = counter_call-Ends _ w.self n price
  generate_tx-Ends rsc tmp n price = counter_call-Ends _ w.self n price
  generate_tx-Ends gaa tmp n price = approve_target-Ends n price w.self
  generate_tx-Ends gas tmp n price = swap_target-Ends (incr n) price w.self
  generate_tx-Ends rgaa tmp n price = approve_target-Ends 0 price tmp
  generate_tx-Ends rgas tmp n price = swap_target-Ends 1 price tmp

-- Before the bids: no bid is placed, and the nonce stays unless an error ends the method.
abbrev pub Prepared : World → Option TxError → World → Type 0
Prepared w err v =
    (v.bids ≡ w.bids)
    × (v.self.last_blocknum_sent_tx ≡ w.self.last_blocknum_sent_tx)
    × (v.self.address ≡ w.self.address)
    × (err ≡ none → v.self.nonce ≡ w.self.nonce)

after_approval-Prepared :
    (e : Env) (w : World) (answer : Option SendError)
    → Ends e (Prepared w) (after_approval e answer w)
unfolding after_approval
after_approval-Prepared e w none = (refl, refl, refl, λ q. refl)
after_approval-Prepared e w (some err) =
    rw (settle-settled (some err), ◌>>=◌) (refl, refl, refl, λ q. cc)

module _ (e : Env) (w : World) where
  pre_approve-Prepared : (tx : Option Tx) → Ends e (Prepared w) (pre_approve e tx w)
  unfolding pre_approve
  pre_approve-Prepared none = (refl, refl, refl, λ q. cc)
  pre_approve-Prepared (some tx) =
      after_approval-Prepared e (record w { sent = w.sent ++ tx ∷ [] }) (e.send_raw_transaction tx)

  pre_approve_tmp-Prepared : (tx : Option Tx) → Ends e (Prepared w) (pre_approve_tmp e tx w)
  unfolding pre_approve_tmp
  pre_approve_tmp-Prepared none = (refl, refl, refl, λ q. cc)
  pre_approve_tmp-Prepared (some tx) = (refl, refl, refl, λ q. refl)

  pub pre_send_bid-Ends :
      (t : Target) (tmp : Account) (n price : ℕ)
      → Ends e (Prepared w) (pre_send_bid e t tmp n price w)
  unfolding pre_send_bid approve_target approve_body approve_data
  pre_send_bid-Ends vt tmp n price = (refl, refl, refl, λ q. refl)
  pre_send_bid-Ends sc tmp n price = (refl, refl, refl, λ q. refl)
  pre_send_bid-Ends rsc tmp n price = (refl, refl, refl, λ q. refl)
  pre_send_bid-Ends gaa tmp n price = (refl, refl, refl, λ q. refl)
  pre_send_bid-Ends gas tmp n price =
      elim (Option-cases (e.abi_pack "approve" (approve_args (e.gsr_address tt) max_uint256))) [
        | inl failed ↦ rw failed (_, _, failed)
        | inr (call, packed) ↦ rw packed (pre_approve-Prepared _)
      ]
  pre_send_bid-Ends rgaa tmp n price = (refl, refl, refl, λ q. refl)
  pre_send_bid-Ends rgas tmp n price =
      elim (Option-cases (e.abi_pack "approve" (approve_args (e.gsr_address tt) max_uint256))) [
        | inl failed ↦ rw failed (_, _, failed)
        | inr (call, packed) ↦ rw packed (pre_approve_tmp-Prepared _)
      ]
