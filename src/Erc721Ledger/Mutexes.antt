-- ===== src/Erc721Ledger/Mutexes.antt =====
-- `getAccountMutex` from several goroutines at once: the look-up and the `LoadOrStore` of one call
-- are two steps, and other calls may come between them.
use mathlib.Core.Option.{some-injective}
use kaia_load_tester.Prelude.{
  ℕ, zero, suc, get_elem?, subst, inl, inr, ◌≡◌, sym, ◌∙◌, Option, none, some, List, [], ◌∷◌, ◌++◌,
  Option-cases, arith,
}
use kaia_load_tester.Prelude.Dict.{Dict, lookup, lookup-insert}
use kaia_load_tester.Erc721Ledger.{
  Erc721TokenLedger, new_erc721_token_ledger, made_mutex, load_or_store,
}

-- The ledger, the calls that missed and hold a new mutex, and the calls that returned one.
pub record Calls : Type 0 where
  pub ledger : Erc721TokenLedger
  pub waiting : List (ℕ × ℕ)
  pub returned : List (ℕ × ℕ)

abbrev pub no_calls : Calls
no_calls = record { ledger = new_erc721_token_ledger; waiting = []; returned = [] }

abbrev pub missed : ℕ → Calls → Calls
missed addr s = record {
  ledger = made_mutex s.ledger;
  waiting = (addr, s.ledger.mutexes_made) ∷ s.waiting;
  returned = s.returned;
}

abbrev pub stored : ℕ → ℕ → List (ℕ × ℕ) → Calls → Calls
stored addr m rest s =
    let r = load_or_store addr m s.ledger in
    record { ledger = r.1; waiting = rest; returned = (addr, r.0) ∷ s.returned }

pub data Step : Calls → Calls → Type 0 where
  hits :
      {s : Calls} (addr m : ℕ)
      → lookup addr s.ledger.account_mutexes ≡ some m
      → Step s (record s { returned = (addr, m) ∷ s.returned })
  misses :
      {s : Calls} (addr : ℕ) → lookup addr s.ledger.account_mutexes ≡ none → Step s (missed addr s)
  stores :
      {s : Calls} (before after : List (ℕ × ℕ)) (addr m : ℕ)
      → s.waiting ≡ before ++ (addr, m) ∷ after
      → Step s (stored addr m (before ++ after) s)

pub data Reach : Calls → Type 0 where
  start : Reach no_calls
  next : {s t : Calls} → Reach s → Step s t → Reach t

-- Every call that returned has the mutex that stands in the map.
abbrev Registered : Calls → Type 0
Registered s =
    (i addr m : ℕ)
    → get_elem? s.returned i ≡ some (addr, m)
    → lookup addr s.ledger.account_mutexes ≡ some m

-- A map that keeps what another holds.
abbrev Keeps : Dict ℕ → Dict ℕ → Type 0
Keeps d d' = (addr m : ℕ) → lookup addr d ≡ some m → lookup addr d' ≡ some m

Registered-returned :
    (s : Calls) (l : Erc721TokenLedger) (waiting : List (ℕ × ℕ)) (addr m : ℕ)
    → Registered s
    → Keeps s.ledger.account_mutexes l.account_mutexes
    → lookup addr l.account_mutexes ≡ some m
    → Registered (record { ledger = l; waiting = waiting; returned = (addr, m) ∷ s.returned })
Registered-returned s l waiting addr m h k here zero a n q =
    subst (λ (p : ℕ × ℕ). lookup p.0 l.account_mutexes ≡ some p.1) (some-injective _ _ q) here
Registered-returned s l waiting addr m h k here (suc i) a n q = k a n (h i a n q)

load_or_store-Keeps :
    (addr m : ℕ) (l : Erc721TokenLedger)
    → Keeps l.account_mutexes (load_or_store addr m l).1.account_mutexes
      × (lookup addr (load_or_store addr m l).1.account_mutexes ≡ some (load_or_store addr m l).0)
unfolding load_or_store
load_or_store-Keeps addr m l = elim (Option-cases (lookup addr l.account_mutexes)) [
  | inl free ↦ rw free (
    (λ a n h. rw (lookup-insert a addr m l.account_mutexes) (ground arith)),
    rw (lookup-insert addr addr m l.account_mutexes) (ground arith),
  )
  | inr (actual, taken) ↦ rw taken ((λ a n h. h), taken)
]

no_entry : (i : ℕ) (p : ℕ × ℕ) → ¬ (Path (Option (ℕ × ℕ)) (get_elem? [] i) (some p))
no_entry zero p q = cc
no_entry (suc i) p q = cc

Step-Registered : {s t : Calls} → Step s t → Registered s → Registered t
Step-Registered {s} (hits addr m q) h =
    Registered-returned s s.ledger s.waiting addr m h (λ a n k. k) q
Step-Registered (misses addr q) h = h
Step-Registered {s} (stores before after addr m q) h =
    let (kept, here) = load_or_store-Keeps addr m s.ledger in
    Registered-returned s (load_or_store addr m s.ledger).1 (before ++ after) addr _ h kept here

Reach-Registered : {s : Calls} → Reach s → Registered s
Reach-Registered start = λ i a n q. absurd (no_entry i (a, n) q)
Reach-Registered (next r t) = Step-Registered t (Reach-Registered r)

-- In every interleaving of the steps of any number of calls of `getAccountMutex`, all calls for one
-- account that returned have returned the same mutex.
pub one_mutex :
    {s : Calls} (addr m n i j : ℕ)
    → Reach s
    → get_elem? s.returned i ≡ some (addr, m)
    → get_elem? s.returned j ≡ some (addr, n)
    → m ≡ n
one_mutex addr m n i j r p q =
    some-injective _ _ (sym (Reach-Registered r i addr m p) ∙ Reach-Registered r j addr n q)
