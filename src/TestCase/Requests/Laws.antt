-- ===== src/TestCase/Requests/Laws.antt =====
-- What a request leaves behind: one transaction at most, one event, and the client.
use kaia_load_tester.Prelude.{
  ℕ, ◌%◌, ◌≡◌, ◌≢◌, refl, ◌⊎◌, inl, inr, Option, none, some, List, [], ◌∷◌, ◌++◌, String, get_elem?,
  set, arith, false, length, get_elem?-some, Option-cases, Bool-cases, ◌==◌,
}
use kaia_load_tester.Account.Types.{
  Account, TxType, TxValues, Value, with_map, Tx, Env, TxError, World, Outcome, done, fatal, M,
  ◌>>=◌, pure, or_fatal,
}
use kaia_load_tester.Account.Send.{TxOption, payer_of, SendResult, to_error, send_transaction}
use kaia_load_tester.Account.Send.Laws.{Delivers, send_transaction-Delivers}
use kaia_load_tester.Account.Transfers.{Reply, reply, send_reply}
use kaia_load_tester.Clipool.{alloc}
use kaia_load_tester.Clipool.Returned.{Returned, alloc-free}
use kaia_load_tester.AccGroup.AccountSet.{AccountSet, len, get_account_randomly}
use kaia_load_tester.TestCase.Requests.{
  request_failure, Task, Ran, ended, panicked, exited, put_pool, release, with_client, published,
  after_call, by_drawn,
}
use kaia_load_tester.TestCase.Requests.ValueTransfers.{error_of}

-- One transaction of the type, signed by the account, with the node's answer as the error; or none,
-- and an error. The process ends only where call data cannot be packed.
abbrev pub SendsType : Env → TxType → World → Outcome (Option TxError) → Type 0
SendsType e type w fatal = (method : String) × (args : List Value) × (e.abi_pack method args ≡ none)
SendsType e type w (done err w') =
    (w'.self.address ≡ w.self.address)
    × (((err ≢ none) × (w'.sent ≡ w.sent))
        ⊎ ((tx : Tx) × (values : TxValues) × (w'.sent ≡ w.sent ++ tx ∷ [])
            × (tx.body ≡ with_map type values)
            × (tx.signed_by ≡ w.self.private_key)
            × (err ≡ to_error (e.send_raw_transaction tx))))

module _ (e : Env) (type : TxType) where
  pub delivered :
      (values : TxValues) (payer : Option Account) (w w' : World) (r : SendResult)
      → Delivers e w type values payer (done r w')
      → SendsType e type w (done r.error w')
  delivered values fee_payer w w' r (same, inl unsent) = (same.0, inl (unsent.1, unsent.2))
  delivered values fee_payer w w' r (same, inr (tx, sent, carries)) =
      let (nonce, signs, payer_signs, carried) = carries in
      let (full, made, sender, payer, ratio) = carried in
      (same.0, inr (tx, full, sent.2, made, signs, sent.1))

  pub send_transaction-SendsType :
      (values : TxValues) (opt : Option TxOption) (w : World)
      → SendsType e type w ((send_transaction e type values opt >>= λ r. pure r.error) w)
  send_transaction-SendsType values opt w =
      go (send_transaction e type values opt w) (send_transaction-Delivers e type values opt w)
    where
      go :
          (out : Outcome SendResult)
          → Delivers e w type values (payer_of opt) out
          → SendsType e type w (elim out [ done r w' ↦ done r.error w' | fatal ↦ fatal ])
      go fatal h = absurd h
      go (done r w') h = delivered values (payer_of opt) w w' r h

  pub send_reply-SendsType :
      (values : TxValues) (opt : Option TxOption) (w : World)
      → SendsType e type w (error_of (send_reply e type values opt) w)
  send_reply-SendsType values opt w =
      go (send_transaction e type values opt w) (send_transaction-Delivers e type values opt w)
    where
      go :
          (out : Outcome SendResult)
          → Delivers e w type values (payer_of opt) out
          → SendsType e type w (error_of ((λ (v : World). out) >>= λ r. pure (reply e r)) w)
      go fatal h = absurd h
      go (done r w') h = delivered values (payer_of opt) w w' r h

  -- After the call data is packed.
  pub packed-SendsType :
      (method : String) (args : List Value) (next : List ℕ → M (Option TxError)) (w : World)
      → ((call : List ℕ) → SendsType e type w (next call w))
      → SendsType e type w ((or_fatal (e.abi_pack method args) >>= next) w)
  packed-SendsType method args next w h = elim (Option-cases (e.abi_pack method args)) [
    | inl refused ↦ rw refused (method, args, refused)
    | inr (call, packed) ↦ rw packed (h call)
  ]

  pub packed_reply-SendsType :
      (method : String) (args : List Value) (next : List ℕ → M Reply) (w : World)
      → ((call : List ℕ) → SendsType e type w (error_of (next call) w))
      → SendsType e type w (error_of (or_fatal (e.abi_pack method args) >>= next) w)
  packed_reply-SendsType method args next w h = elim (Option-cases (e.abi_pack method args)) [
    | inl refused ↦ rw refused (method, args, refused)
    | inr (call, packed) ↦ rw packed (h call)
  ]

-- What a request leaves, of the account at the place `i`: nothing sent, if there is no account or
-- no contract; else the account may have changed in place, one event more is published, and it is a
-- success just if one transaction of the type was sent and taken. The client is given back.
abbrev pub Leaves : Env → TxType → String → ℕ → Task → Task → Type 0
Leaves e type name i t t' =
    (from : Account) × (self : Account) × (get_elem? t.config.acc_grp.accounts i ≡ some from)
    × (t'.config.acc_grp.accounts ≡ set t.config.acc_grp.accounts i self)
    × (self.address ≡ from.address)
    × (((err : TxError) × (t'.sent ≡ t.sent)
          × (t'.events ≡ t.events ++ request_failure name err ∷ []))
        ⊎ ((tx : Tx) × (values : TxValues) × (t'.sent ≡ t.sent ++ tx ∷ [])
            × (tx.body ≡ with_map type values)
            × (tx.signed_by ≡ from.private_key)
            × (t'.events ≡ t.events ++ published name (to_error (e.send_raw_transaction tx)) ∷ [])))

abbrev pub Untouched : Task → Task → Type 0
Untouched t t' =
    (t'.sent ≡ t.sent)
    × (t'.events ≡ t.events)
    × (t'.config.acc_grp.accounts ≡ t.config.acc_grp.accounts)

-- A panic has its cause.
abbrev pub InRequest : Env → TxType → Type 0 → String → ℕ → Task → Ran → Type 0
InRequest e type Missing name i t exited =
    (method : String) × (args : List Value) × (e.abi_pack method args ≡ none)
InRequest e type Missing name i t (panicked t') =
    Missing × Untouched t t' × (t'.config.cli_pool ≡ t.config.cli_pool)
InRequest e type Missing name i t (ended t') =
    Leaves e type name i t t' × (t'.config.cli_pool ≡ t.config.cli_pool)

abbrev pub Requested : Env → TxType → Type 0 → String → ℕ → Task → Ran → Type 0
Requested e type Missing name i t exited =
    (method : String) × (args : List Value) × (e.abi_pack method args ≡ none)
Requested e type Missing name i t (panicked t') =
    Missing × Untouched t t' × Returned t.config.cli_pool t'.config.cli_pool
Requested e type Missing name i t (ended t') =
    Leaves e type name i t t' × Returned t.config.cli_pool t'.config.cli_pool

-- A draw gives no account only where there is none.
pub undrawn :
    (draw : ℕ) (accounts : List Account) (i : ℕ)
    → get_account_randomly draw (record { accounts = accounts; round_robin_index = i }) ≡ none
    → accounts ≡ []
unfolding get_account_randomly
undrawn draw [] i h = refl
undrawn draw (a ∷ rest) i h =
    let full : (length (a ∷ rest) == 0) ≡ false = ground arith in
    let (x, found) = get_elem?-some (a ∷ rest) (draw % length (a ∷ rest)) (ground arith) in
    let q = rw (full, found) at h in cc

module _ (e : Env) (type : TxType) (Missing : Type 0) (name : String) where
  after_call-InRequest :
      (i : ℕ) (t : Task) (from : Account) (out : Outcome (Option TxError))
      → get_elem? t.config.acc_grp.accounts i ≡ some from
      → SendsType e type (record { self = from; sent = t.sent; bids = t.bids }) out
      → InRequest e type Missing name i t (after_call name i t out)
  after_call-InRequest i t from fatal at h = h
  after_call-InRequest i t from (done none w) at (same, inl (failed, kept)) = absurd (failed refl)
  after_call-InRequest i t from (done (some err) w) at (same, inl (failed, kept)) =
      ((from, w.self, at, refl, same, inl (err, kept, refl)), refl)
  after_call-InRequest i t from (done err w) at
        (same, inr (tx, values, sent, body, signed, answer)) =
      ((from, w.self, at, refl, same, inr (tx, values, sent, body, signed, rw answer refl)), refl)

  -- The place of the drawn account.
  drawn_at :
      (draw : ℕ) (s : AccountSet Account) (from : Account)
      → get_account_randomly draw s ≡ some from
      → get_elem? s.accounts (draw % len s) ≡ some from
  unfolding get_account_randomly
  drawn_at draw s from h = elim (Bool-cases (len s == 0)) [
    | inl empty ↦ let q = rw empty at h in cc
    | inr some_left ↦ rw some_left at h
  ]

  pub by_drawn-InRequest :
      (draw : ℕ) (tx_func : Account → M (Option TxError)) (t : Task)
      → (t.config.acc_grp.accounts ≡ [] → Missing)
      → ((from : Account) (w : World) → SendsType e type w (tx_func from w))
      → InRequest e type Missing name (draw % len t.config.acc_grp) t (by_drawn name draw tx_func t)
  unfolding by_drawn
  by_drawn-InRequest draw tx_func t lost h =
      elim (Option-cases (get_account_randomly draw t.config.acc_grp)) [
        | inl nobody ↦ rw nobody (lost (undrawn draw _ _ nobody), (refl, refl, refl), refl)
        | inr (from, found) ↦ rw found (
            after_call-InRequest (draw % len t.config.acc_grp) t from _
              (drawn_at draw t.config.acc_grp from found) (h from _))
      ]

  -- Taking the client before and giving it back after.
  release-Requested :
      (i : ℕ) (t : Task) (r : Ran)
      → InRequest e type Missing name i (put_pool (alloc t.config.cli_pool).1 t) r
      → Requested e type Missing name i t (release (alloc t.config.cli_pool).0 r)
  release-Requested i t exited h = h
  release-Requested i t (panicked t') (why, kept, same) =
      (why, kept, rw same (alloc-free t.config.cli_pool))
  release-Requested i t (ended t') (left, same) = (left, rw same (alloc-free t.config.cli_pool))

  pub with_client-Requested :
      (i : ℕ) (body : Task → Ran) (t : Task)
      → InRequest e type Missing name i
          (put_pool (alloc t.config.cli_pool).1 t)
          (body (put_pool (alloc t.config.cli_pool).1 t))
      → Requested e type Missing name i t (with_client body t)
  unfolding with_client
  with_client-Requested i body t h =
      release-Requested i t (body (put_pool (alloc t.config.cli_pool).1 t)) h
