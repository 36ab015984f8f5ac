-- ===== src/AccGroup/AccountSet.antt =====
-- `AccountSet` of klayslave/account/accgroup.go. Its mutex is held over each method, so each is one
-- step.
pub mod RoundRobin
use kaia_load_tester.Prelude.{
  ℕ, ◌+◌, ◌%◌, Option, none, some, List, [], ◌∷◌, ◌++◌, if◌then◌else◌, ◌==◌, leb, length, get_elem?,
}

pub record AccountSet {ℓ} (A : Type ℓ) : Type ℓ where
  pub accounts : List A
  pub round_robin_index : ℕ

module _ {ℓ} {A : Type ℓ} where
  abbrev pub new_account_set : List A → AccountSet A
  new_account_set accounts = record { accounts = accounts; round_robin_index = 0 }

  abbrev pub len : AccountSet A → ℕ
  len s = length s.accounts

  unfoldable pub add : A → AccountSet A → AccountSet A
  add acc s = record s { accounts = s.accounts ++ acc ∷ [] }

  -- The random number is the argument; `none` is nil.
  unfoldable pub get_account_randomly : ℕ → AccountSet A → Option A
  get_account_randomly draw s = if len s == 0 then none else get_elem? s.accounts (draw % len s)

  -- `none` is the panic of an index out of range.
  unfoldable pub get_account_index : ℕ → AccountSet A → Option A
  get_account_index index s = get_elem? s.accounts index

  -- `none` is nil where the set is empty.
  unfoldable pub get_account_round_robin : AccountSet A → Option A × AccountSet A
  get_account_round_robin s = if len s == 0 then (none, s) else (
    get_elem? s.accounts s.round_robin_index,
    record s {
      round_robin_index =
          if leb (len s) (s.round_robin_index + 1) then 0 else s.round_robin_index + 1;
    },
  )
