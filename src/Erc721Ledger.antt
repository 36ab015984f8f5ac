-- ===== src/Erc721Ledger.antt =====
-- klayslave/account/erc721_ledger.go: which token each account holds, as a queue per account, and
-- a mutex per account.
pub mod Mutexes
pub mod Tokens
pub mod Transfer
mod Tests
use kaia_load_tester.Prelude.{ℕ, ◌+◌, Option, none, some, List, [], ◌∷◌, ◌++◌}
use kaia_load_tester.Prelude.Dict.{Dict, lookup, insert}

-- A mutex is the number it was made with.
pub record Erc721TokenLedger : Type 0 where
  pub token_queues : Dict (List ℕ)
  pub account_mutexes : Dict ℕ
  pub mutexes_made : ℕ

abbrev pub new_erc721_token_ledger : Erc721TokenLedger
new_erc721_token_ledger = record { token_queues = []; account_mutexes = []; mutexes_made = 0 }

-- `accountMutexes.Store(addr, mutex)`
abbrev pub store_mutex : ℕ → ℕ → Erc721TokenLedger → Erc721TokenLedger
store_mutex addr m l = record l { account_mutexes = insert addr m l.account_mutexes }

-- `&sync.Mutex{}`
abbrev pub made_mutex : Erc721TokenLedger → Erc721TokenLedger
made_mutex l = record l { mutexes_made = l.mutexes_made + 1 }

-- `accountMutexes.LoadOrStore(addr, mutex)`, which another goroutine may have run before: the value
-- that stands there stays.
abbrev kept_or_stored : ℕ → ℕ → Erc721TokenLedger → Option ℕ → ℕ × Erc721TokenLedger
kept_or_stored addr m l (some actual) = (actual, l)
kept_or_stored addr m l none = (m, store_mutex addr m l)

unfoldable pub load_or_store : ℕ → ℕ → Erc721TokenLedger → ℕ × Erc721TokenLedger
load_or_store addr m l = kept_or_stored addr m l (lookup addr l.account_mutexes)

abbrev found_or_made : ℕ → Erc721TokenLedger → Option ℕ → ℕ × Erc721TokenLedger
found_or_made addr l (some m) = (m, l)
found_or_made addr l none = load_or_store addr l.mutexes_made (made_mutex l)

unfoldable pub get_account_mutex : ℕ → Erc721TokenLedger → ℕ × Erc721TokenLedger
get_account_mutex addr l = found_or_made addr l (lookup addr l.account_mutexes)

-- `tokenQueues.Store(addr, tokens)`
abbrev store_tokens : ℕ → List ℕ → Erc721TokenLedger → Erc721TokenLedger
store_tokens addr tokens l = record l { token_queues = insert addr tokens l.token_queues }

abbrev pub or_empty : Option (List ℕ) → List ℕ
or_empty none = []
or_empty (some tokens) = tokens

-- The account's mutex is held over the rest of each operation, so each is one step.
unfoldable pub put_token : ℕ → ℕ → Erc721TokenLedger → Erc721TokenLedger
put_token addr token l =
    let held = (get_account_mutex addr l).1 in
    store_tokens addr (or_empty (lookup addr held.token_queues) ++ token ∷ []) held

abbrev pop : ℕ → Erc721TokenLedger → Option (List ℕ) → Option ℕ × Erc721TokenLedger
pop addr l none = (none, l)
pop addr l (some []) = (none, l)
pop addr l (some (token ∷ tokens)) = (some token, store_tokens addr tokens l)

unfoldable pub remove_token : ℕ → Erc721TokenLedger → Option ℕ × Erc721TokenLedger
remove_token addr l =
    let held = (get_account_mutex addr l).1 in pop addr held (lookup addr held.token_queues)

abbrev init_queue : ℕ → Erc721TokenLedger → Option (List ℕ) → Erc721TokenLedger
init_queue addr l none = store_tokens addr [] l
init_queue addr l (some tokens) = l

unfoldable pub initialize_account : ℕ → Erc721TokenLedger → Erc721TokenLedger
initialize_account addr l =
    let held = (get_account_mutex addr l).1 in init_queue addr held (lookup addr held.token_queues)
