-- ===== src/Account/TargetTx/Laws.antt =====
-- What the functions of a target type send and change after a successful bid.
use kaia_load_tester.Prelude.{
  ℕ, ◌+◌, ◌%◌, ◌^◌, ◌≡◌, refl, Option, none, some, List, [], ◌∷◌, ◌++◌, inl, inr, ◌⊎◌, Bool, true,
  false, if◌then◌else◌,
}
use kaia_load_tester.Account.Types.{
  Account, legacy, Tx, Env, SendError, M, World, incr, ◌>>=◌, Body, or_fatal, pure,
}
use kaia_load_tester.Account.Nonce.{update_nonce}
use kaia_load_tester.Account.Send.Laws.{settled, settle-settled}
use kaia_load_tester.Account.Transfers.Contracts.{first_key}
use kaia_load_tester.Account.Direct.{signed_tx}
use kaia_load_tester.Account.Gasless.{swap_args, swap_data, swap_body, add_two}
use kaia_load_tester.Account.TargetTx.{
  Target, vt, sc, rsc, gaa, gas, rgaa, rgas, update_last_blocknum_sent_tx, one_sent, two_sent,
  after_swap_sent, submit_or_nil, sign_or_nil, swap_at, post_send_bid,
}
use kaia_load_tester.Account.TargetTx.Before.{Ends, continued}

-- The account after the bids: what is counted, and the block that is kept.
abbrev Counted : Account → Account → ℕ → ℕ → Type 0
Counted before after nonce block =
    (after.nonce ≡ nonce) × (after.last_blocknum_sent_tx ≡ block) × (after.address ≡ before.address)

-- GAA's swap, by the node's answer to it.
abbrev SwapCounted : World → ℕ → Option SendError → World → Type 0
SwapCounted w block none v = Counted w.self v.self ((w.self.nonce + 2) % 2 ^ 64) (block % 2 ^ 64)
SwapCounted w block (some err) v =
    Counted w.self v.self (settled (some err) w.self.nonce) w.self.last_blocknum_sent_tx

abbrev swap_by : Env → Account → ℕ → ℕ → List ℕ → Tx
swap_by e by n price call =
    signed_tx (legacy n (e.gsr_address tt) 0 500_000 price call) (first_key by ∷ [])

-- The swap signed by the account with the nonce: it reaches the node, or, where it cannot be signed,
-- nothing does. `answer` is what the submission gives.
abbrev pub Submitted : Env → Account → ℕ → ℕ → World → Option SendError → List Tx → Type 0
Submitted e by n price w answer sent =
    (call : List ℕ) × (e.abi_pack "swapForGas" (swap_args e (e.token_address tt) price) ≡ some call)
    × (((e.sign_ok (swap_by e by n price call).body (first_key by ∷ []) ≡ true)
          × (sent ≡ w.sent ++ swap_by e by n price call ∷ [])
          × (answer ≡ e.send_raw_transaction (swap_by e by n price call)))
        ⊎ ((e.sign_ok (swap_by e by n price call).body (first_key by ∷ []) ≡ false)
            × (sent ≡ w.sent)
            × (answer ≡ e.send_nil_transaction tt)))

abbrev pub Posted : Env → World → Target → Account → ℕ → ℕ → ℕ → Unit {0} → World → Type 0
Posted e w vt tmp n price block u v =
    (v.sent ≡ w.sent) × Counted w.self v.self (incr w.self.nonce) (block % 2 ^ 64)
Posted e w sc tmp n price block u v =
    (v.sent ≡ w.sent) × Counted w.self v.self (incr w.self.nonce) (block % 2 ^ 64)
Posted e w rsc tmp n price block u v =
    (v.sent ≡ w.sent) × Counted w.self v.self (incr w.self.nonce) (block % 2 ^ 64)
Posted e w gaa tmp n price block u v =
    (answer : Option SendError) × Submitted e w.self (incr n) price w answer v.sent
    × SwapCounted w block answer v
Posted e w gas tmp n price block u v =
    (v.sent ≡ w.sent) × Counted w.self v.self ((w.self.nonce + 2) % 2 ^ 64) (block % 2 ^ 64)
Posted e w rgaa tmp n price block u v =
    (v.self ≡ w.self) × ((answer : Option SendError) × Submitted e tmp 1 price w answer v.sent)
Posted e w rgas tmp n price block u v = v ≡ w

-- The swap of GAA is counted by the answer to its submission.
after_swap_sent-Posted :
    (e : Env) (w u : World) (n price block : ℕ) (tmp : Account) (answer : Option SendError)
    → u.self ≡ w.self
    → u.bids ≡ w.bids
    → Submitted e w.self (incr n) price w answer u.sent
    → Ends e
        (λ x v. Posted e w gaa tmp n price block x v × (v.bids ≡ w.bids))
        (after_swap_sent e block answer u)
unfolding after_swap_sent two_sent add_two update_last_blocknum_sent_tx
after_swap_sent-Posted e w u n price block tmp none same bids swap =
    rw same ((none, swap, (refl, refl, refl)), bids)
after_swap_sent-Posted e w u n price block tmp (some err) same bids swap =
    rw (settle-settled (some err), same) ((some err, swap, (refl, refl, refl)), bids)

-- The swap is made of the packed call.
abbrev SwapMade : Env → ℕ → ℕ → World → Body → World → Type 0
SwapMade e n price w body v =
    (v ≡ w)
    × ((call : List ℕ) × (e.abi_pack "swapForGas" (swap_args e (e.token_address tt) price)
          ≡ some call)
        × (body ≡ legacy n (e.gsr_address tt) 0 500_000 price call))

swap_at-SwapMade :
    (e : Env) (n price : ℕ) (w : World) → Ends e (SwapMade e n price w) (swap_at e n price w)
unfolding swap_body swap_data
swap_at-SwapMade e n price w = go _ refl
  where
    go :
        (o : Option (List ℕ))
        → e.abi_pack "swapForGas" (swap_args e (e.token_address tt) price) ≡ o
        → Ends e
            (SwapMade e n price w)
            ((or_fatal o >>= λ call. pure (legacy n (e.gsr_address tt) 0 500_000 price call)) w)
    go none failed = (_, _, failed)
    go (some call) packed = (refl, (call, packed, refl))

-- It is submitted, or nil is, and neither changes the account or the bids.
abbrev SwapOut : Env → Account → ℕ → ℕ → World → Option SendError → World → Type 0
SwapOut e by n price w answer v =
    (v.self ≡ w.self) × (v.bids ≡ w.bids) × Submitted e by n price w answer v.sent

submit_or_nil-SwapOut :
    (e : Env) (by : Account) (n price : ℕ) (w : World) (call : List ℕ)
    → e.abi_pack "swapForGas" (swap_args e (e.token_address tt) price) ≡ some call
    → Ends e
        (SwapOut e by n price w)
        (submit_or_nil e (sign_or_nil e (swap_by e by n price call).body by) w)
unfolding submit_or_nil
submit_or_nil-SwapOut e by n price w call packed =
    go (e.sign_ok (swap_by e by n price call).body (first_key by ∷ [])) refl
  where
    go :
        (signs : Bool)
        → e.sign_ok (swap_by e by n price call).body (first_key by ∷ []) ≡ signs
        → Ends e
            (SwapOut e by n price w)
            (submit_or_nil e (if signs then some (swap_by e by n price call) else none) w)
    go true good = (refl, refl, (call, packed, inl (good, refl, refl)))
    go false bad = (refl, refl, (call, packed, inr (bad, refl, refl)))

-- Making and submitting the swap, and what follows.
swap-continued :
    (e : Env) (by : Account) (n price : ℕ) (w : World) (R : Unit {0} → World → Type 0)
    (next : Option SendError → M (Unit {0}))
    → ((answer : Option SendError) (v : World)
        → SwapOut e by n price w answer v
        → Ends e R (next answer v))
    → Ends e R ((swap_at e n price >>= λ body. submit_or_nil e (sign_or_nil e body by) >>= next) w)
swap-continued e by n price w R next h =
    continued e (SwapMade e n price w) R (λ body. submit_or_nil e (sign_or_nil e body by) >>= next)
      (swap_at e n price w) (swap_at-SwapMade e n price w)
      (λ body v (same, (call, packed, made)).
        rw (same, made)
          (continued e (SwapOut e by n price w) R next _
            (submit_or_nil-SwapOut e by n price w call packed) h))

-- What follows a successful bid, by the type of its target; the block that is kept is its number in
-- 64 bits. For a value transfer and for a call of
-- the counter contract, reverted or not, the nonce goes up by one and the block is kept; for a
-- gasless swap the nonce goes up by two and the block is kept. After a gasless approval the swap of
-- the suggested price with the next nonce goes out, or, if it cannot be signed, a nil transaction is
-- submitted and nothing goes out: without an error of the submission the nonce goes up by two and
-- the block is kept, and with an error the nonce goes up by one where the error says that it was
-- used and the block is not kept. For the two reverted gasless types, the account stays as it was, and
-- for the approval the temporary account's swap goes out if it can be signed. No bid is placed. The
-- process ends only where call data cannot be packed.
pub post_send_bid-Posted :
    (e : Env) (t : Target) (tmp : Account) (n price block : ℕ) (w : World)
    → Ends e
        (λ u v. Posted e w t tmp n price block u v × (v.bids ≡ w.bids))
        (post_send_bid e t tmp n price block w)
unfolding post_send_bid one_sent two_sent add_two update_nonce update_last_blocknum_sent_tx
post_send_bid-Posted e vt tmp n price block w = ((refl, (refl, refl, refl)), refl)
post_send_bid-Posted e sc tmp n price block w = ((refl, (refl, refl, refl)), refl)
post_send_bid-Posted e rsc tmp n price block w = ((refl, (refl, refl, refl)), refl)
post_send_bid-Posted e gaa tmp n price block w =
    swap-continued e w.self (incr n) price w _ (after_swap_sent e block)
      (λ answer v (self, bids, swap).
        after_swap_sent-Posted e w v n price block tmp answer self bids swap)
post_send_bid-Posted e gas tmp n price block w = ((refl, (refl, refl, refl)), refl)
post_send_bid-Posted e rgaa tmp n price block w =
    swap-continued e tmp 1 price w _ (λ answer. pure tt)
      (λ answer v (self, bids, swap). ((self, (answer, swap)), bids))
post_send_bid-Posted e rgas tmp n price block w = (refl, refl)
