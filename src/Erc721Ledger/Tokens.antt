-- ===== src/Erc721Ledger/Tokens.antt =====
-- The queues: what each operation does to the tokens of each account, and to all of them together.
use kaia_load_tester.Prelude.{
  ℕ, ◌+◌, ◌≡◌, refl, ap, Option, none, some, List, [], ◌∷◌, ◌++◌, Option-cases, inl, inr, ◌==◌,
  false, Bool-cases, subst, if◌then◌else◌, count, count-append, arith,
}
use kaia_load_tester.Prelude.Dict.{Dict, lookup, insert, lookup-insert}
use kaia_load_tester.Erc721Ledger.{
  Erc721TokenLedger, load_or_store, get_account_mutex, or_empty, put_token, pop, remove_token,
}

abbrev pub tokens_of : ℕ → Erc721TokenLedger → List ℕ
tokens_of addr l = or_empty (lookup addr l.token_queues)

-- How often a token stands in the queues of all accounts.
abbrev pub held_in : ℕ → Dict (List ℕ) → ℕ
held_in token [] = 0
held_in token ((addr, tokens) ∷ d) = count token tokens + held_in token d

abbrev pub held : ℕ → Erc721TokenLedger → ℕ
held token l = held_in token l.token_queues

held_in-insert :
    (token addr : ℕ) (tokens : List ℕ) (d : Dict (List ℕ))
    → held_in token (insert addr tokens d) + count token (or_empty (lookup addr d))
      ≡ held_in token d + count token tokens
held_in-insert token addr tokens [] = omega arith
held_in-insert token addr tokens ((a, q) ∷ d) = ground (arith, held_in-insert token addr tokens d)

pub get_account_mutex-queues :
    (addr : ℕ) (l : Erc721TokenLedger) → (get_account_mutex addr l).1.token_queues ≡ l.token_queues
unfolding get_account_mutex load_or_store
get_account_mutex-queues addr l = elim (Option-cases (lookup addr l.account_mutexes)) [
  | inl free ↦ rw (free, free) refl
  | inr (m, taken) ↦ rw taken refl
]

pub put_token-tokens :
    (a addr token : ℕ) (l : Erc721TokenLedger)
    → tokens_of a (put_token addr token l)
      ≡ (if a == addr then tokens_of addr l ++ token ∷ [] else tokens_of a l)
unfolding put_token
put_token-tokens a addr token l =
    rw
      (
        get_account_mutex-queues addr l,
        lookup-insert a addr (tokens_of addr l ++ token ∷ []) l.token_queues,
      )
      (elim (Bool-cases (a == addr)) [ inl same ↦ rw same refl | inr other ↦ rw other refl ])

pub put_token-held :
    (t addr token : ℕ) (l : Erc721TokenLedger)
    → held t (put_token addr token l) ≡ held t l + (if t == token then 1 else 0)
unfolding put_token
put_token-held t addr token l = rw (get_account_mutex-queues addr l) (
    omega (
      arith,
      held_in-insert t addr (tokens_of addr l ++ token ∷ []) l.token_queues,
      count-append t (tokens_of addr l) (token ∷ []),
    ))

-- What removing does to the queues: the head goes, or there is none and the queues stay.
abbrev pub Removed : ℕ → Dict (List ℕ) → Option ℕ → Dict (List ℕ) → Type 0
Removed addr d none d' = (or_empty (lookup addr d) ≡ []) × (d' ≡ d)
Removed addr d (some token) d' =
    (or_empty (lookup addr d) ≡ token ∷ or_empty (lookup addr d'))
    × ((a : ℕ) → (a == addr) ≡ false → or_empty (lookup a d') ≡ or_empty (lookup a d))
    × ((t : ℕ) → held_in t d ≡ held_in t d' + (if t == token then 1 else 0))

tail-Removed :
    (addr token : ℕ) (tokens : List ℕ) (d : Dict (List ℕ))
    → lookup addr d ≡ some (token ∷ tokens)
    → Removed addr d (some token) (insert addr tokens d)
tail-Removed addr token tokens d h = (
  rw (h, lookup-insert addr addr tokens d) (ground arith),
  (λ a other. rw (lookup-insert a addr tokens d, other) refl),
  λ t. omega (arith, held_in-insert t addr tokens d, ap (λ q. count t (or_empty q)) h),
)

pop-Removed :
    (addr : ℕ) (l : Erc721TokenLedger) (q : Option (List ℕ))
    → lookup addr l.token_queues ≡ q
    → Removed addr l.token_queues (pop addr l q).0 (pop addr l q).1.token_queues
pop-Removed addr l none h = (rw h refl, refl)
pop-Removed addr l (some []) h = (rw h refl, refl)
pop-Removed addr l (some (token ∷ tokens)) h = tail-Removed addr token tokens l.token_queues h

pub remove_token-Removed :
    (addr : ℕ) (l : Erc721TokenLedger)
    → Removed addr l.token_queues (remove_token addr l).0 (remove_token addr l).1.token_queues
unfolding remove_token
remove_token-Removed addr l =
    subst (λ d. Removed addr d (remove_token addr l).0 (remove_token addr l).1.token_queues)
      (get_account_mutex-queues addr l) (pop-Removed addr (get_account_mutex addr l).1 _ refl)
