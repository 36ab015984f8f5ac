-- ===== src/Slave/Reservoir/Laws.antt =====
-- The reservoir is given enough for what it pays.
use native.Mathlib.Nat.{mul-le-mul_left, mul-add}
use kaia_load_tester.Prelude.{
  get_or, ℕ, zero, suc, ◌+◌, ◌*◌, ◌≤◌, ◌<◌, ◌⊎◌, ◌≡◌, refl, ap, ◌∙◌, inl, inr, Bool, true, false,
  List, [], ◌∷◌, ◌++◌, String, if◌then◌else◌, length, length-append, Bool-cases, arith,
}
use kaia_load_tester.AccGroup.{
  AccGroup, new_acc_group, create_accounts, create_lists, create_accounts_per_acc_grp,
  contains_any_in_list, get_acc_list_by_name, get_valid_acc_grp, set_acc_grp_by_active_percent,
}
use kaia_load_tester.AccGroup.Laws.{set_acc_grp_by_active_percent-front}
use kaia_load_tester.AccGroup.Deploy.{Chain}
use kaia_load_tester.AccGroup.Creation.{made, create_accounts_per_acc_grp-made}
use kaia_load_tester.Slave.Reservoir.Payments.{deploy_test_contracts-value}
use kaia_load_tester.Slave.Reservoir.{
  test_accounts, Amounts, listed, total_charge_value, charged_accounts, paid_out,
}

-- No more accounts are active than there are.
listed-active :
    {A : Type 0} (p t : ℕ) (g : AccGroup A)
    → p ≤ 100
    → listed t (set_acc_grp_by_active_percent p g) ≤ listed t g
listed-active p t g h =
    let kept = (set_acc_grp_by_active_percent-front p t g h).0 in
    omega (arith, kept, mul-le-mul_left {m = p} {n = 100} (listed t g) h)

valid_with_unsigned :
    {A : Type 0} (g : AccGroup A)
    → g.contains_unsigned_acc_grp ≡ true
    → length (get_valid_acc_grp g) ≡ listed 0 g + listed 1 g
unfolding get_valid_acc_grp
valid_with_unsigned g u = rw u (length-append (get_acc_list_by_name 0 g) (get_acc_list_by_name 1 g))

valid_signed :
    {A : Type 0} (g : AccGroup A)
    → g.contains_unsigned_acc_grp ≡ false
    → length (get_valid_acc_grp g) ≡ listed 0 g
unfolding get_valid_acc_grp
valid_signed g n = rw n refl

length-charged_accounts :
    {A : Type 0} (g : AccGroup A)
    → length (charged_accounts g) ≡ length (get_valid_acc_grp g) + listed 3 g + listed 4 g
unfolding charged_accounts
length-charged_accounts g = omega (
  arith,
  length-append (get_valid_acc_grp g ++ get_acc_list_by_name 3 g) (get_acc_list_by_name 4 g),
  length-append (get_valid_acc_grp g) (get_acc_list_by_name 3 g),
)

active-contains :
    {A : Type 0} (p : ℕ) (g : AccGroup A)
    → (set_acc_grp_by_active_percent p g).contains_unsigned_acc_grp ≡ g.contains_unsigned_acc_grp
unfolding set_acc_grp_by_active_percent
active-contains p g = refl

-- The valid accounts are at most all that are listed, and the deposits leave a charge over.
valid-le :
    {A : Type 0} (m : Amounts) (p : ℕ) (g : AccGroup A)
    → p ≤ 100
    → listed 0 g ≡ m.n_user_for_signed
    → listed 1 g ≡ m.n_user_for_unsigned
    → (g.contains_unsigned_acc_grp ≡ false) ⊎ (m.n_user_for_unsigned < m.n_user_for_new_accounts)
    → 0 < m.n_user_for_new_accounts
    → (length (get_valid_acc_grp g) ≤ m.n_user_for_signed + m.n_user_for_unsigned)
      × (length (get_valid_acc_grp (set_acc_grp_by_active_percent p g)) + 1
          ≤ m.n_user_for_signed + m.n_user_for_new_accounts)
valid-le m p g h signed unsigned spare new =
    let active = set_acc_grp_by_active_percent p g in
    let a = listed-active p 0 g h in
    let b = listed-active p 1 g h in
    elim (Bool-cases g.contains_unsigned_acc_grp) [
      | inl u ↦
          let few : m.n_user_for_unsigned < m.n_user_for_new_accounts = elim spare [
            | inl e ↦ absurd (cc)
            | inr few ↦ few
          ] in
          let all = valid_with_unsigned g u in
          let fewer = valid_with_unsigned active (active-contains p g ∙ u) in
          (omega arith, omega arith)
      | inr n ↦
          let all = valid_signed g n in
          let fewer = valid_signed active (active-contains p g ∙ n) in (omega arith, omega arith)
    ]

-- The sums of the two sides, for a charge `c` and the numbers of accounts.
sums :
    (c s u n r a valid log first liquidity extra : ℕ)
    → first ≤ c * (s + u + r + a)
    → log ≤ c * 21 + (extra + c * valid)
    → extra ≤ c + liquidity
    → c * (valid + 1) ≤ c * (s + n)
    → first + log ≤ c * (u + s + n + 21) + (liquidity + (c * s + (c * r + c * a)))
sums c s u n r a valid log first liquidity extra p q x t = omega (
  arith,
  mul-add c (s + u + r) a,
  mul-add c (s + u) r,
  mul-add c s u,
  mul-add c valid 1,
  mul-add c s n,
  mul-add c (u + s + n) 21,
  mul-add c (u + s) n,
  mul-add c u s,
)

extra-le :
    (m : Amounts) (gsr_exists : Bool)
    → (if gsr_exists then 0 else m.charge_value + m.initial_liquidity)
      ≤ m.charge_value + (if gsr_exists then 0 else m.initial_liquidity)
extra-le m true = omega arith
extra-le m false = omega arith

paid_out-le :
    {A : Type 0} (m : Amounts) (gsr_exists : Bool) (h : Chain A) (is_leader : Bool)
    → (tcs targets : List String) (p : ℕ) (g : AccGroup A) → p ≤ 100
    → listed 0 g ≡ m.n_user_for_signed
    → listed 1 g ≡ m.n_user_for_unsigned
    → (g.contains_unsigned_acc_grp ≡ false) ⊎ (m.n_user_for_unsigned < m.n_user_for_new_accounts)
    → 0 < m.n_user_for_new_accounts
    → paid_out m gsr_exists h is_leader tcs targets p g ≤ total_charge_value m gsr_exists g
unfolding paid_out total_charge_value
paid_out-le m gsr_exists h is_leader tcs targets p g up signed unsigned spare new =
    let c = m.charge_value in
    let active = set_acc_grp_by_active_percent p g in
    let valid = length (get_valid_acc_grp active) in
    let (all, fewer) = valid-le m p g up signed unsigned spare new in
    let paid = deploy_test_contracts-value m gsr_exists valid h is_leader tcs targets in
    let charged = length-charged_accounts g in
    rw signed (
      sums c m.n_user_for_signed m.n_user_for_unsigned m.n_user_for_new_accounts (listed 3 g)
        (listed 4 g) valid _ _ (if gsr_exists then 0 else m.initial_liquidity)
        (if gsr_exists then 0 else c + m.initial_liquidity) (mul-le-mul_left c (omega arith)) paid
        (extra-le m gsr_exists) (mul-le-mul_left c fewer))

length-made : {A : Type 0} (new : ℕ → ℕ → A) (t n i : ℕ) → length (made new t n i) ≡ n
length-made new t zero i = refl
length-made new t (suc n) i = ap suc (length-made new t n (i + 1))

create_accounts-contains :
    {A : Type 0} (new : ℕ → ℕ → A) (t n i : ℕ) (g : AccGroup A)
    → (create_accounts new t n i g).contains_unsigned_acc_grp ≡ g.contains_unsigned_acc_grp
unfolding create_accounts
create_accounts-contains new t zero i g = refl
create_accounts-contains new t (suc n) i g = create_accounts-contains new t n (i + 1) _

create_lists-contains :
    {A : Type 0} (new : ℕ → ℕ → A) (t : ℕ) (ns : List ℕ) (g : AccGroup A)
    → (create_lists new t ns g).contains_unsigned_acc_grp ≡ g.contains_unsigned_acc_grp
unfolding create_lists
create_lists-contains new t [] g = refl
create_lists-contains new t (n ∷ ns) g =
    create_lists-contains new (t + 1) ns (create_accounts new t n 0 g)
    ∙ create_accounts-contains new t n 0 g

-- With the accounts that a slave makes, up to 100 percent of them active, and either no test case
-- of unsigned transactions or fewer than five accounts for it, the slave's reservoir is paid at
-- least what it pays out for charges, setup and deposits, fees left aside.
pub paid_out-le-total_charge_value :
    {A : Type 0} (m : Amounts) (gsr_exists : Bool) (h : Chain A) (is_leader : Bool)
    → (tcs targets : List String) (p : ℕ) (new : ℕ → ℕ → A) → m.n_user_for_new_accounts ≡ 5
    → p ≤ 100
    → (contains_any_in_list tcs ("transferUnsignedTx" ∷ []) ≡ false) ⊎ (m.n_user_for_unsigned < 5)
    → paid_out m gsr_exists h is_leader tcs targets p (test_accounts m new tcs)
      ≤ total_charge_value m gsr_exists (test_accounts m new tcs)
unfolding test_accounts create_accounts_per_acc_grp
paid_out-le-total_charge_value m gsr_exists h is_leader tcs targets p new five up spare =
    let unsigned = contains_any_in_list tcs ("transferUnsignedTx" ∷ []) in
    let g = test_accounts m new tcs in
    let lists = (create_accounts_per_acc_grp-made new _ tcs unsigned refl).0 in
    paid_out-le m gsr_exists h is_leader tcs targets p g up
      (ap (λ (ls : List (List _)). length (get_or ls 0 [])) lists
        ∙ length-made new 0 m.n_user_for_signed 0)
      (ap (λ (ls : List (List _)). length (get_or ls 1 [])) lists
        ∙ length-made new 1 m.n_user_for_unsigned 0)
      (elim spare [
        | inl none_unsigned ↦
            inl (create_lists-contains new 0 _ (new_acc_group unsigned) ∙ none_unsigned)
        | inr few ↦ inr (omega arith)
      ])
      (omega arith)
