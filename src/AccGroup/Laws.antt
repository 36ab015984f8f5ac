-- ===== src/AccGroup/Laws.antt =====
-- The accounts that stay active, the test on names, and the wait, of
-- klayslave/account/accgroup.go.
use Prim.Native.Nat.{min}
use native.Mathlib.Nat.{mul-le-mul_left}
use kaia_load_tester.Prelude.{
  get_elem?-take, ℕ, zero, suc, ◌+◌, ◌*◌, ◌/◌, ◌<◌, ◌≤◌, ◌≡◌, refl, sym, subst, ◌∙◌, ◌⊎◌, inl, inr,
  ◌↔◌, Bool, true, false, List, [], ◌∷◌, map, ◌==◌, String, str_eq, str_eq_iff, ==_iff, length,
  get_elem?, get_or, length-take, arith, Bool-cases,
}
use kaia_load_tester.AccGroup.{
  AccGroup, get_acc_list_by_name, active, set_acc_grp_by_active_percent, contains_in_list,
  contains_any_in_list, polls_from, wait_for_setup_completion,
}

abbrev pub Stands : String → List String → Type 0
Stands a [] = ⊥
Stands a (x ∷ xs) = (x ≡ a) ⊎ Stands a xs

abbrev pub Common : List String → List String → Type 0
Common list targets = (a : String) × Stands a list × Stands a targets

pub contains_in_list-Stands :
    (list : List String) (a : String) → (contains_in_list list a ≡ true) ↔ Stands a list
unfolding contains_in_list
contains_in_list-Stands [] a = ((λ h. cc), λ h. absurd h)
contains_in_list-Stands (x ∷ list) a =
    let (there, back) = contains_in_list-Stands list a in
    elim (Bool-cases (str_eq x a)) [
      | inl same ↦ rw same ((λ h. inl ((str_eq_iff x a).0 same)), λ h. refl)
      | inr other ↦ rw other (
        (λ h. inr (there h)),
        λ q. elim q [ inl same ↦ let t = (str_eq_iff x a).1 same in cc | inr later ↦ back later ],
      )
    ]

-- The test finds a name just if one stands in both lists.
pub contains_any_in_list-Common :
    (list targets : List String) → (contains_any_in_list list targets ≡ true) ↔ Common list targets
unfolding contains_any_in_list
contains_any_in_list-Common list [] = ((λ h. cc), λ (a, s, t). absurd t)
contains_any_in_list-Common list (target ∷ targets) =
    let (there, back) = contains_any_in_list-Common list targets in
    let (stands, back_in) = contains_in_list-Stands list target in
    elim (Bool-cases (contains_in_list list target)) [
      | inl found ↦ rw found ((λ h. (target, stands found, inl refl)), λ h. refl)
      | inr missing ↦ rw missing (
        (λ h. let (a, s, t) = there h in (a, s, inr t)),
        λ (a, s, q). elim q [
          | inl same ↦ let q = back_in (subst (λ b. Stands b list) (sym same) s) in cc
          | inr later ↦ back (a, s, later)
        ],
      )
    ]

-- Polls from the number `k` on, with `left` left.
abbrev pub Polled : (ℕ → Bool) → ℕ → ℕ → ℕ → Type 0
Polled ready left k n =
    ((n ≡ k + left) × ((i : ℕ) → k ≤ i → i < k + left → ready i ≡ false))
    ⊎ ((j : ℕ) × (n ≡ j + 1)
        × (j < k + left)
        × (ready j ≡ true)
        × ((i : ℕ) → k ≤ i → i < j → ready i ≡ false))

Polled-later :
    (ready : ℕ → Bool) (left k n : ℕ)
    → ready k ≡ false
    → Polled ready left (k + 1) n
    → Polled ready (suc left) k n
Polled-later ready left k n missing (inl (all, silent)) = inl (
  omega arith,
  λ i h below. elim (Bool-cases (i == k)) [
    | inl same ↦ subst (λ j. ready j ≡ false) (sym ((==_iff i k).0 same)) missing
    | inr other ↦ silent i (ground arith) (omega arith)
  ],
)
Polled-later ready left k n missing (inr (j, end, below, found, silent)) = inr (
  j,
  end,
  omega arith,
  found,
  λ i h before. elim (Bool-cases (i == k)) [
    | inl same ↦ subst (λ m. ready m ≡ false) (sym ((==_iff i k).0 same)) missing
    | inr other ↦ silent i (ground arith) before
  ],
)

between : (i k : ℕ) → k ≤ i → i < k + 0 → ⊥
between i k h b = omega arith

ordered : (i k : ℕ) → k ≤ i → i < k → ⊥
ordered i k h b = omega arith

polls_from-Polled : (ready : ℕ → Bool) (left k : ℕ) → Polled ready left k (polls_from ready left k)
unfolding polls_from
polls_from-Polled ready zero k = inl (omega arith, λ i h below. absurd (between i k h below))
polls_from-Polled ready (suc left) k = elim (Bool-cases (ready k)) [
  | inl found ↦
      rw found (inr (k, refl, omega arith, found, λ i h below. absurd (ordered i k h below)))
  | inr missing ↦
      rw missing (Polled-later ready left k _ missing (polls_from-Polled ready left (k + 1)))
]

-- The wait polls 60 times if none of these polls says that the setup is complete; otherwise the
-- last poll is the first that says so, and it is one of the 60.
pub wait_for_setup_completion-Polled :
    (ready : ℕ → Bool) → Polled ready 60 0 (wait_for_setup_completion ready)
unfolding wait_for_setup_completion
wait_for_setup_completion-Polled ready = polls_from-Polled ready 60 0

min_part : (n p : ℕ) → p ≤ 100 → min (n * p / 100) n ≡ n * p / 100
min_part n p h = omega (arith, mul-le-mul_left {m = p} {n = 100} n h)

zero_part : (p : ℕ) → 0 * p / 100 ≡ 0
zero_part p = omega arith

module _ {ℓ} {A : Type ℓ} where
  -- The front of one list.
  active-front :
      (p : ℕ) (accs : List A)
      → p ≤ 100
      → (length (active p accs) ≡ length accs * p / 100)
        × ((i : ℕ) → i < length (active p accs) → get_elem? (active p accs) i ≡ get_elem? accs i)
  active-front p accs h = elim (Bool-cases (length accs * p / 100 == 0)) [
    | inl nobody ↦
        rw nobody (sym ((==_iff _ 0).0 nobody), λ i below. absurd (ordered i 0 (omega arith) below))
    | inr some_left ↦ rw some_left (
      length-take (length accs * p / 100) accs ∙ min_part (length accs) p h,
      λ i below.
          get_elem?-take (length accs * p / 100) i accs
            (omega (arith, below, length-take (length accs * p / 100) accs)),
    )
  ]

  -- The list at a place, after all are cut.
  get_or-active :
      (p t : ℕ) (lists : List (List A))
      → get_or (map (active p) lists) t [] ≡ active p (get_or lists t [])
  get_or-active p zero [] = rw (zero_part p) refl
  get_or-active p (suc t) [] = rw (zero_part p) refl
  get_or-active p zero (l ∷ lists) = refl
  get_or-active p (suc t) (l ∷ lists) = get_or-active p t lists

-- Up to 100 percent, what stays of a list is its front, as long as the list's percentage, rounded
-- down.
pub set_acc_grp_by_active_percent-front {ℓ} :
    {A : Type ℓ} (p t : ℕ) (g : AccGroup A)
    → p ≤ 100
    → let before = get_acc_list_by_name t g in
      let after = get_acc_list_by_name t (set_acc_grp_by_active_percent p g) in
      (length after ≡ length before * p / 100)
      × ((i : ℕ) → i < length after → get_elem? after i ≡ get_elem? before i)
unfolding set_acc_grp_by_active_percent
set_acc_grp_by_active_percent-front p t g h =
    rw (get_or-active p t g.acc_lists) (active-front p (get_acc_list_by_name t g) h)
