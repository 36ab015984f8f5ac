-- ===== src/TestCase/Ethereum/Laws.antt =====
-- What the checks of a receipt in testcase/run_ethereum.go let pass.
use kaia_load_tester.Prelude.{
  ℕ, ◌+◌, ◌%◌, ◌≡◌, ◌≢◌, refl, ◌⊎◌, inl, inr, ◌↔◌, true, Option, none, some, String, str_eq,
  str_eq_iff, str_eq_refl, ap, negsuc, subst, if◌then◌else◌, ◌==◌, ==_iff, ℤ, pos, arith,
  Bool-cases,
}
use kaia_load_tester.Account.Types.{TxError}
use kaia_load_tester.TestCase.Ethereum.{
  Receipt, Poll, nothing, max_retry_count, get_receipt, EthGiven, check_result, check_type,
  unless_legacy, check_created, check_called, same_number, is_text,
}
use kaia_load_tester.TestCase.Ethereum.Waiting.{Waited, get_receipt-Waited}

-- What the checks ask of a receipt's type, and of the receipt of each kind of request.
abbrev pub HasType : EthGiven → ℕ → Receipt → Type 0
HasType g expected r =
    (expected ≡ g.legacy_type)
    ⊎ ((text : String) × (r.type ≡ some text) × (g.parse_int text ≡ some (pos (expected % 256))))

abbrev pub Created : ℕ → Receipt → Type 0
Created req_type r = req_type ≡ 1 → (text : String) × (r.contract_address ≡ some text)

abbrev pub Called : EthGiven → ℕ → ℕ → Receipt → Type 0
Called g contract req_type r =
    req_type ≡ 2
    → (text : String) × (r.to ≡ some text)
      × (g.to_lower text ≡ g.to_lower (g.address_text contract))

abbrev pub Passes : EthGiven → ℕ → ℕ → ℕ → Option Receipt → Type 0
Passes g contract req_type expected none = ⊥
Passes g contract req_type expected (some r) =
    (r.status ≡ some g.success_status)
    × Created req_type r
    × Called g contract req_type r
    × HasType g expected r

is_text-eq : (o : Option String) (s : String) → is_text o s ≡ true → o ≡ some s
is_text-eq none s h = absurd (ground arith)
is_text-eq (some t) s h = ap some ((str_eq_iff t s).0 h)

is_text_refl : (o : Option String) (s : String) → o ≡ some s → is_text o s ≡ true
is_text_refl o s e = rw e (str_eq_refl s)

same_number-eq : (o : Option ℤ) (n : ℕ) → same_number o n ≡ none → o ≡ some (pos n)
same_number-eq none n h = absurd (ground arith)
same_number-eq (some (pos m)) n h = ground arith
same_number-eq (some (negsuc m)) n h = absurd (ground arith)

check_type-HasType :
    (g : EthGiven) (expected : ℕ) (r : Receipt) (o : Option String)
    → r.type ≡ o
    → check_type g expected o ≡ none
    → HasType g expected r
check_type-HasType g expected r none e h = absurd (ground arith)
check_type-HasType g expected r (some text) e h =
    inr (text, e, same_number-eq (g.parse_int text) (expected % 256) h)

unless_legacy-HasType :
    (g : EthGiven) (expected : ℕ) (r : Receipt)
    → unless_legacy g expected r ≡ none
    → HasType g expected r
unless_legacy-HasType g expected r h = elim (Bool-cases (expected == g.legacy_type)) [
  | inl same ↦ inl ((==_iff expected g.legacy_type).0 same)
  | inr other ↦
      check_type-HasType g expected r r.type refl
        (subst (λ b. (if b then none else check_type g expected r.type) ≡ none) other h)
]

HasType-unless_legacy :
    (g : EthGiven) (expected : ℕ) (r : Receipt)
    → HasType g expected r
    → unless_legacy g expected r ≡ none
HasType-unless_legacy g expected r (inl same) = ground arith
HasType-unless_legacy g expected r (inr (text, read, parsed)) =
    elim (Bool-cases (expected == g.legacy_type)) [
      | inl same ↦ rw same refl
      | inr other ↦ rw (other, read, parsed, (==_iff (expected % 256) (expected % 256)).1 refl) refl
    ]

unless_legacy_iff :
    (g : EthGiven) (expected : ℕ) (r : Receipt)
    → (unless_legacy g expected r ≡ none) ↔ HasType g expected r
unless_legacy_iff g expected r =
    (unless_legacy-HasType g expected r, HasType-unless_legacy g expected r)

check_created_iff :
    (g : EthGiven) (expected : ℕ) (r : Receipt) (o : Option String)
    → (check_created g expected r o ≡ none)
      ↔ (((text : String) × (o ≡ some text)) × HasType g expected r)
check_created_iff g expected r none =
    (λ h. absurd (ground arith), λ h. absurd (let (_, e) = h.0 in ground arith))
check_created_iff g expected r (some text) = (
  λ h. ((text, refl), unless_legacy-HasType g expected r h),
  λ h. HasType-unless_legacy g expected r h.1,
)

check_called_iff :
    (g : EthGiven) (contract expected : ℕ) (r : Receipt) (o : Option String)
    → (check_called g contract expected r o ≡ none) ↔ (
        ((text : String) × (o ≡ some text)
          × (g.to_lower text ≡ g.to_lower (g.address_text contract)))
        × HasType g expected r)
check_called_iff g contract expected r none =
    (λ h. absurd (ground arith), λ h. absurd (let (_, e, _) = h.0 in ground arith))
check_called_iff g contract expected r (some text) =
    elim (Bool-cases (str_eq (g.to_lower text) (g.to_lower (g.address_text contract)))) [
      | inl same ↦ rw same (
        λ h. ((text, refl, (str_eq_iff _ _).0 same), unless_legacy-HasType g expected r h),
        λ h. HasType-unless_legacy g expected r h.1,
      )
      | inr other ↦ rw other (
        λ h. absurd (ground arith),
        λ h.
            let (t, e, lower) = h.0 in
            absurd (
              let same : g.to_lower text ≡ g.to_lower (g.address_text contract) = cc in
              let both = (str_eq_iff _ _).1 same in ground arith),
      )
    ]

abbrev by_kind : EthGiven → ℕ → ℕ → ℕ → Receipt → Option TxError
by_kind g contract req_type expected r =
    if req_type == 1
    then check_created g expected r r.contract_address
    else (if req_type == 2
        then check_called g contract expected r r.to
        else unless_legacy g expected r)

by_kind_iff :
    (g : EthGiven) (contract req_type expected : ℕ) (r : Receipt)
    → (by_kind g contract req_type expected r ≡ none)
      ↔ (Created req_type r × Called g contract req_type r × HasType g expected r)
by_kind_iff g contract req_type expected r = elim (Bool-cases (req_type == 1)) [
  | inl one ↦ rw one (
    λ h.
        let (made, type) = (check_created_iff g expected r r.contract_address).0 h in
        (λ _. made, λ two. absurd (ground arith), type),
    λ (made, _, type).
        (check_created_iff g expected r r.contract_address).1 (made (ground arith), type),
  )
  | inr not_one ↦ elim (Bool-cases (req_type == 2)) [
    | inl two ↦
        rw (not_one, two)
          (
            λ h.
                let (called, type) = (check_called_iff g contract expected r r.to).0 h in
                (λ one. absurd (ground arith), λ _. called, type),
            λ (_, called, type).
                (check_called_iff g contract expected r r.to).1 (called (ground arith), type),
          )
    | inr not_two ↦
        rw (not_one, not_two)
          (
            λ h. (
              λ one. absurd (ground arith),
              λ two. absurd (ground arith),
              unless_legacy-HasType g expected r h,
            ),
            λ (_, _, type). HasType-unless_legacy g expected r type,
          )
  ]
]

-- The check passes just if the receipt is there with a successful status; for a
-- deployment it has a contract address, for a call its recipient is the general contract's address
-- in lower case; and unless a legacy transaction is expected, its type is the number expected.
check_result-Passes :
    (g : EthGiven) (contract req_type expected : ℕ) (o : Option Receipt)
    → (check_result g contract req_type expected o ≡ none) ↔ Passes g contract req_type expected o
unfolding check_result
check_result-Passes g contract req_type expected none = (λ h. absurd (ground arith), λ h. absurd h)
check_result-Passes g contract req_type expected (some r) =
    elim (Bool-cases (is_text r.status g.success_status)) [
      | inl ok ↦ rw ok (
        λ h.
            let (made, called, type) = (by_kind_iff g contract req_type expected r).0 h in
            (is_text-eq r.status g.success_status ok, made, called, type),
        λ (_, made, called, type).
            (by_kind_iff g contract req_type expected r).1 (made, called, type),
      )
      | inr bad ↦ rw bad (
        λ h. absurd (ground arith),
        λ h. absurd (let e = is_text_refl r.status g.success_status h.0 in ground arith),
      )
    ]

-- If every poll brings a receipt or an error, the wait of a check ends within the polls of its
-- retries: with the receipt of the first poll that is not `NotFound`, or with nil if that poll brings
-- another error or the retries are used up. What it ends with passes just if it is a receipt with a
-- successful status; for a deployment it has a contract address, for a call its recipient is the
-- general contract's address in lower case; and unless a legacy transaction is expected, its type is
-- the number expected.
pub check_result-Waited :
    (g : EthGiven) (contract req_type expected : ℕ) (polls : ℕ → Poll)
    → ((i : ℕ) → polls i ≢ nothing)
    → (o : Option Receipt) × (get_receipt polls max_retry_count (max_retry_count + 1) 0 0 ≡ some o)
      × Waited polls 0 0 max_retry_count (some o)
      × ((check_result g contract req_type expected o ≡ none)
          ↔ Passes g contract req_type expected o)
check_result-Waited g contract req_type expected polls says =
    ended (get_receipt polls max_retry_count (max_retry_count + 1) 0 0) refl (
      get_receipt-Waited polls max_retry_count (max_retry_count + 1) 0 0 says (omega arith)
        (omega arith))
  where
    ended :
        (o : Option (Option Receipt))
        → get_receipt polls max_retry_count (max_retry_count + 1) 0 0 ≡ o
        → Waited polls 0 0 max_retry_count o
        → (r : Option Receipt) × (get_receipt polls max_retry_count (max_retry_count + 1) 0 0
            ≡ some r)
          × Waited polls 0 0 max_retry_count (some r)
          × ((check_result g contract req_type expected r ≡ none)
              ↔ Passes g contract req_type expected r)
    ended none e w = absurd w
    ended (some r) e w = (r, e, w, check_result-Passes g contract req_type expected r)
