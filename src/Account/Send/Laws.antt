-- ===== src/Account/Send/Laws.antt =====
-- What `sendTransaction` and `sendRawTx` do on every branch.
use kaia_load_tester.Prelude.{
  ℕ, ◌≡◌, ◌≢◌, refl, ◌⊎◌, inl, inr, Option, none, some, [], ◌∷◌, ◌++◌, arith, ◌==◌, if◌then◌else◌,
  Bool-cases, is_some, false,
}
use kaia_load_tester.Prelude.Dict.{lookup_by-insert_by}
use kaia_load_tester.Account.Types.{
  Account, TxType, TxValues, Key, Value, num, addr, get_value, put_value, key_code, with_map,
  legacy, creation, access_list, dynamic_fee, Body, Tx, Env, SendError, nonce_too_low,
  replace_underpriced, known_transaction, other, Outcome, done, fatal, World, incr, ◌>>=◌,
}
use kaia_load_tester.Account.Nonce.{get_nonce}
use kaia_load_tester.Account.Send.{
  TxOption, payer_of, SendResult, to_error, signed, complete, built, send_built, send_transaction,
  payer_keys, payer_signs, settle,
}

-- The nonce that a transaction carries, however it was built.
abbrev pub value_num : Option Value → Option ℕ
value_num (some (num n)) = some n
value_num _ = none

abbrev pub tx_nonce : Body → Option ℕ
tx_nonce (with_map type values) = value_num (get_value Key.nonce values)
tx_nonce (legacy n to amount gas price input) = some n
tx_nonce (creation n amount gas price input) = some n
tx_nonce (access_list n to gas price amount list input) = some n
tx_nonce (dynamic_fee n to gas fee tip amount list input) = some n

-- The nonce that the next transaction of an account uses: the cached one, else the node's.
abbrev pub or_else : Option ℕ → ℕ → ℕ
or_else none d = d
or_else (some n) d = n

abbrev pub next_nonce : Env → Account → ℕ
next_nonce e a = if a.nonce == 0 then or_else (e.nonce_at a.address) a.nonce else a.nonce

-- The nonce after the node's answer: the nonce counts as used if the node took the transaction or
-- says that the nonce was used before.
abbrev pub settled : Option SendError → ℕ → ℕ
settled none n = incr n
settled (some nonce_too_low) n = incr n
settled (some replace_underpriced) n = incr n
settled (some known_transaction) n = n
settled (some (other m)) n = n

pub get_value-put_value :
    (j k : Key) (v : Value) (m : TxValues)
    → get_value j (put_value k v m) ≡ (if key_code j == key_code k then some v else get_value j m)
get_value-put_value j k v m = lookup_by-insert_by key_code j k v m

-- What a completed map holds under each key.
module _ (e : Env) (n a : ℕ) (values : TxValues) where
  complete-nonce : get_value Key.nonce (complete e n a values) ≡ some (num n)
  complete-nonce = elim (Bool-cases (is_some (get_value Key.gas_price (signed n a values)))) [
    | inl given ↦ rw given (simp get_value-put_value)
    | inr missing ↦ rw missing (simp get_value-put_value)
  ]

  complete-from : get_value Key.from (complete e n a values) ≡ some (addr a)
  complete-from = elim (Bool-cases (is_some (get_value Key.gas_price (signed n a values)))) [
    | inl given ↦ rw given (simp get_value-put_value)
    | inr missing ↦ rw missing (simp get_value-put_value)
  ]

  complete-other :
      (k : Key)
      → (key_code k == 0) ≡ false
      → (key_code k == 1) ≡ false
      → (key_code k == 5) ≡ false
      → get_value k (complete e n a values) ≡ get_value k values
  complete-other k hn hf hp =
      elim (Bool-cases (is_some (get_value Key.gas_price (signed n a values)))) [
        | inl given ↦ rw given (simp (get_value-put_value, hn, hf))
        | inr missing ↦ rw missing (simp (get_value-put_value, hn, hf, hp))
      ]

pub get_nonce-next :
    (e : Env) (w : World)
    → get_nonce e w
      ≡ done
          (next_nonce e w.self)
          (record w { self = record w.self { nonce = next_nonce e w.self } })
unfolding get_nonce
get_nonce-next e w = ground arith

-- A method that failed before the node got anything.
abbrev Unsent : World → ℕ → SendResult → World → Type 0
Unsent w n r w' = (r.tx ≡ none) × (r.error ≢ none) × (w'.sent ≡ w.sent) × (w'.self.nonce ≡ n)

-- A method that sent one transaction, and took over the node's answer.
abbrev Sent : Env → World → ℕ → SendResult → World → Tx → Type 0
Sent e w n r w' tx =
    (r.tx ≡ some tx)
    × (r.error ≡ to_error (e.send_raw_transaction tx))
    × (w'.sent ≡ w.sent ++ tx ∷ [])
    × (w'.self.nonce ≡ settled (e.send_raw_transaction tx) n)

-- The transaction of `sendTransaction`: its nonce, its sender and its signatures.
abbrev Carries : Account → ℕ → TxType → TxValues → Option Account → Tx → Type 0
Carries self n type given payer tx =
    (tx_nonce tx.body ≡ some n)
    × (tx.signed_by ≡ self.private_key)
    × (tx.fee_payer_signed_by ≡ payer_keys payer)
    × ((values : TxValues) × (tx.body ≡ with_map type values)
        × (get_value Key.from values ≡ some (addr self.address))
        × (get_value Key.fee_payer values ≡ get_value Key.fee_payer given)
        × (get_value Key.fee_ratio values ≡ get_value Key.fee_ratio given))

-- The accounts' other fields stay.
abbrev SameBut : Account → Account → Type 0
SameBut a b =
    (b.address ≡ a.address)
    × (b.private_key ≡ a.private_key)
    × (b.last_blocknum_sent_tx ≡ a.last_blocknum_sent_tx)

abbrev pub Delivers : Env → World → TxType → TxValues → Option Account → Outcome SendResult → Type 0
Delivers e w type values payer fatal = ⊥
Delivers e w type values payer (done r w') =
    SameBut w.self w'.self
    × (Unsent w (next_nonce e w.self) r w'
        ⊎ ((tx : Tx) × Sent e w (next_nonce e w.self) r w' tx
            × Carries w.self (next_nonce e w.self) type values payer tx))

pub settle-settled :
    (answer : Option SendError) (w : World)
    → settle answer w
      ≡ done tt (record w { self = record w.self { nonce = settled answer w.self.nonce } })
unfolding settle
settle-settled none w = refl
settle-settled (some nonce_too_low) w = refl
settle-settled (some replace_underpriced) w = refl
settle-settled (some known_transaction) w = refl
settle-settled (some (other m)) w = refl

send_built-Delivers :
    (e : Env) (w : World) (n : ℕ) (type : TxType) (values : TxValues) (payer : Option Account)
    → n ≡ next_nonce e w.self
    → Delivers e w type values payer (
        send_built e
          (built type (complete e n w.self.address values) w.self payer)
          (record w { self = record w.self { nonce = n } }))
unfolding send_built
send_built-Delivers e w n type values payer h =
    let tx = built type (complete e n w.self.address values) w.self payer in
    rw (settle-settled (e.send_raw_transaction tx), ◌>>=◌, ← h)
      (
        (refl, refl, refl),
        inr (
          tx,
          (refl, refl, refl, refl),
          (
            rw (complete-nonce e n w.self.address values) refl,
            refl,
            refl,
            (
              complete e n w.self.address values,
              refl,
              complete-from e n w.self.address values,
              complete-other e n w.self.address values Key.fee_payer refl refl refl,
              complete-other e n w.self.address values Key.fee_ratio refl refl refl,
            ),
          ),
        ),
      )

-- `sendTransaction`, whatever the node and the libraries answer, changes no field of the account
-- but the nonce. Either nothing is sent, an error is returned and the nonce is the cached or
-- fetched one; or exactly one transaction is sent, of the given type, with that nonce, from the
-- account, with the given fee payer and ratio, signed with all its keys and with those of the fee
-- payer if there is one, and then the
-- nonce goes up by one if the node took the transaction, called its nonce too low or called it an
-- underpriced replacement, and stays on any other error.
pub send_transaction-Delivers :
    (e : Env) (type : TxType) (values : TxValues) (opt : Option TxOption) (w : World)
    → Delivers e w type values (payer_of opt) (send_transaction e type values opt w)
unfolding send_transaction
send_transaction-Delivers e type values opt w =
    let full = complete e (next_nonce e w.self) w.self.address values in
    rw (get_nonce-next e w, ◌>>=◌)
      (elim (Bool-cases (e.new_transaction_ok type full)) [
        | inl created ↦
            rw created (elim (Bool-cases (e.sign_ok (with_map type full) w.self.private_key)) [
              | inl signs ↦
                  rw signs (elim (Bool-cases (payer_signs e (with_map type full) (payer_of opt))) [
                    | inl pays ↦ rw pays (
                        send_built-Delivers e w (next_nonce e w.self) type values (payer_of opt)
                          refl)
                    | inr refused ↦ rw refused ((refl, refl, refl), inl (refl, λ q. cc, refl, refl))
                  ])
              | inr refused ↦ rw refused ((refl, refl, refl), inl (refl, λ q. cc, refl, refl))
            ])
        | inr refused ↦ rw refused ((refl, refl, refl), inl (refl, λ q. cc, refl, refl))
      ])
