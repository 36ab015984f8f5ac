-- ===== src/Account/Nonce.antt =====
-- The nonce of an account: fetched once, then counted by the client.
-- `GetNonce`, `GetNonceFromBlock`, `UpdateNonce` of klayslave/account/account.go.
use kaia_load_tester.Prelude.{ℕ, Bool, true, false, Option, none, some, ◌==◌, if◌then◌else◌}
use kaia_load_tester.Account.Types.{
  Env, SendError, nonce_too_low, replace_underpriced, known_transaction, other, incr, M, done,
}

abbrev keep_or_set : Option ℕ → M ℕ
keep_or_set none w = done w.self.nonce w
keep_or_set (some n) w = done n (record w { self = record w.self { nonce = n } })

module _ (e : Env) where
  unfoldable pub get_nonce : M ℕ
  get_nonce w =
      if w.self.nonce == 0 then keep_or_set (e.nonce_at w.self.address) w else done w.self.nonce w

  unfoldable pub get_nonce_from_block : M ℕ
  get_nonce_from_block w = keep_or_set (e.nonce_at w.self.address) w

-- `self.nonce++`
unfoldable pub update_nonce : M (Unit {0})
update_nonce w = done tt (record w { self = record w.self { nonce = incr w.self.nonce } })

-- The errors after which the code takes the nonce for used.
unfoldable pub is_nonce_used : SendError → Bool
is_nonce_used nonce_too_low = true
is_nonce_used replace_underpriced = true
is_nonce_used known_transaction = false
is_nonce_used (other m) = false
