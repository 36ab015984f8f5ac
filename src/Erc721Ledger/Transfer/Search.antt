-- ===== src/Erc721Ledger/Transfer/Search.antt =====
-- The search for a token of `RunErc721TransferTC` of testcase/run_execute_contract.go: which
-- candidates it reaches, and what it takes out of the queues.
use native.Mathlib.Nat.{mod-eq_of_lt, mod_self, mod-lt}
use mathlib.Core.Option.{some-injective}
use kaia_load_tester.Prelude.{
  ℕ, zero, suc, ◌+◌, ◌%◌, ◌<◌, ◌≤◌, ◌≡◌, ◌≢◌, refl, sym, ap, subst, ◌∙◌, ◌⊎◌, inl, inr, false,
  Option, none, some, List, [], ◌∷◌, ◌==◌, ==_iff, leb, get_elem?, if◌then◌else◌, length,
  get_elem?-some, arith, Bool-cases,
}
use kaia_load_tester.Prelude.Dict.{Dict, lookup}
use kaia_load_tester.Account.Types.{Account}
use kaia_load_tester.AccGroup.AccountSet.{AccountSet, len, get_account_index}
use kaia_load_tester.Erc721Ledger.{Erc721TokenLedger, or_empty, remove_token}
use kaia_load_tester.Erc721Ledger.Tokens.{held, held_in, Removed, remove_token-Removed}
use kaia_load_tester.Erc721Ledger.Transfer.{Found, Holder, found_or_next, find_token}

-- The indices of the next `k` candidates from `c` on, around the end of the list.
abbrev Ahead : ℕ → ℕ → ℕ → ℕ → Type 0
Ahead n c k i = ((c ≤ i) × (i < c + k)) ⊎ (i + n < c + k)

skipped_index :
    (n c k i m : ℕ)
    → c < n
    → i < n
    → i ≢ c
    → ((m ≡ c + 1) × (c + 1 < n)) ⊎ ((m ≡ 0) × (c + 1 ≡ n))
    → Ahead n c (suc k) i
    → Ahead n m k i
skipped_index n c k i m p q r (inl (h, s)) a = ground arith
skipped_index n c k i m p q r (inr (h, s)) a = ground arith

pub ==-positive : (n : ℕ) → 0 < n → (n == 0) ≡ false
==-positive n h = ground arith

below_of : (n c : ℕ) → c < n → (c + 1 == n) ≡ false → c + 1 < n
below_of n c h less = ground arith

nothing_left : (n c i : ℕ) → c < n → ¬ Ahead n c 0 i
nothing_left n c i h a = ground arith

pub every_index : (n c i : ℕ) → i < n → Ahead n c n i
every_index n c i h = elim (Bool-cases (leb c i)) [
  | inl after ↦ inl (ground arith)
  | inr before ↦ inr (ground arith)
]

pub get_elem?-below :
    {A : Type 0} (xs : List A) (i : ℕ) (a : A) → get_elem? xs i ≡ some a → i < length xs
get_elem?-below [] zero a h = cc
get_elem?-below [] (suc i) a h = cc
get_elem?-below (x ∷ xs) zero a h = omega arith
get_elem?-below (x ∷ xs) (suc i) a h = omega (arith, get_elem?-below xs i a h)

not_same : (i c : ℕ) → (i == c) ≡ false → i ≢ c
not_same i c h = ground arith

next_index :
    (n c : ℕ) → c < n → (((c + 1) % n ≡ c + 1) × (c + 1 < n)) ⊎ (((c + 1) % n ≡ 0) × (c + 1 ≡ n))
next_index n c h = elim (Bool-cases (c + 1 == n)) [
  | inl full ↦
      inr (ap (λ m. m % n) ((==_iff (c + 1) n).0 full) ∙ mod_self n, (==_iff (c + 1) n).0 full)
  | inr less ↦ inl (mod-eq_of_lt (below_of n c h less), below_of n c h less)
]

module _ (accs : AccountSet Account) where
  -- Nothing gets lost or doubled while an account's token is out.
  abbrev pub Kept : Dict (List ℕ) → Holder → Erc721TokenLedger → Type 0
  Kept d h l' =
      ((t : ℕ) → held_in t d ≡ held t l' + (if t == h.token then 1 else 0))
      × ((ts : List ℕ) × (or_empty (lookup h.from.address d) ≡ h.token ∷ ts))
      × (get_account_index h.index accs ≡ some h.from)

  -- What a search of `k` attempts from `c` on says.
  abbrev pub Searched : ℕ → ℕ → Dict (List ℕ) → Found → Type 0
  Searched k c d none = ⊥
  Searched k c d (some (none, l')) =
      (l'.token_queues ≡ d)
      × ((i : ℕ) (a : Account)
          → i < len accs
          → get_account_index i accs ≡ some a
          → Ahead (len accs) c k i
          → or_empty (lookup a.address d) ≡ [])
  Searched k c d (some (some out, l')) = Kept d out l'

  Searched-suc :
      (k c : ℕ) (from : Account) (d : Dict (List ℕ)) (o : Found)
      → c < len accs
      → get_account_index c accs ≡ some from
      → or_empty (lookup from.address d) ≡ []
      → Searched k ((c + 1) % len accs) d o
      → Searched (suc k) c d o
  Searched-suc k c from d none h at empty s = s
  Searched-suc k c from d (some (none, l')) h at empty (same, all) = (
    same,
    λ i a below here ahead. elim (Bool-cases (i == c)) [
      | inl equal ↦
          subst (λ b. or_empty (lookup b.address d) ≡ [])
            (some-injective _ _
              (sym at ∙ ap (λ j. get_account_index j accs) (sym ((==_iff i c).0 equal)) ∙ here))
            empty
      | inr other ↦ all i a below here (
          skipped_index (len accs) c k i _ h below (not_same i c other) (next_index (len accs) c h)
            ahead)
    ],
  )
  Searched-suc k c from d (some (some out, l')) h at empty s = s

  found-Searched :
      (k c : ℕ) (l : Erc721TokenLedger) (from : Account) (r : Option ℕ × Erc721TokenLedger)
      → c < len accs
      → get_account_index c accs ≡ some from
      → Removed from.address l.token_queues r.0 r.1.token_queues
      → ((m : Erc721TokenLedger)
          → Searched k
              ((c + 1) % len accs)
              m.token_queues
              (find_token accs k ((c + 1) % len accs) m))
      → Searched
          (suc k)
          c
          l.token_queues
          (found_or_next (find_token accs k ((c + 1) % len accs)) c from r)
  found-Searched k c l from (some token, m) h at (head, others, total) rest = (total, (_, head), at)
  found-Searched k c l from (none, m) h at (empty, same) rest =
      Searched-suc k c from l.token_queues _ h at empty (
        subst (λ d. Searched k ((c + 1) % len accs) d (find_token accs k ((c + 1) % len accs) m))
          same (rest m))

  pub find_token-Searched :
      (k c : ℕ) (l : Erc721TokenLedger)
      → c < len accs
      → Searched k c l.token_queues (find_token accs k c l)
  unfolding find_token get_account_index
  find_token-Searched zero c l h =
      (refl, λ i a below here ahead. absurd (nothing_left (len accs) c i h ahead))
  find_token-Searched (suc k) c l h =
      let (from, at) = get_elem?-some accs.accounts c h in
      rw at (
        found-Searched k c l from (remove_token from.address l) h at
          (remove_token-Removed from.address l)
          λ m. find_token-Searched k ((c + 1) % len accs) m (mod-lt (c + 1) (omega arith)))
