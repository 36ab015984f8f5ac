-- ===== src/TestCase/Config/Laws.antt =====
-- The contracts that a test case asks for are in its configuration after the deployment.
use kaia_load_tester.Prelude.{
  ℕ, zero, suc, ◌⊎◌, ◌<◌, ◌≡◌, refl, inl, inr, Bool, true, false, ◌&&◌, ◌||◌, Option, none, some,
  List, [], ◌∷◌, String, str_eq, str_eq_iff, ◌==◌, ==_iff, ltb, ltb→lt, length, get_or,
  get_elem?-get_or, Bool-cases,
}
use kaia_load_tester.Prelude.Dict.{Dict, lookup, insert, lookup-insert}
use kaia_load_tester.AccGroup.{AccGroup, contract_end, contains_in_list, contains_any_in_list}
use kaia_load_tester.AccGroup.Laws.{Stands, contains_in_list-Stands, contains_any_in_list-Common}
use kaia_load_tester.AccGroup.Deploy.{Chain, is_needed, contract_general, deploy_test_contracts}
use kaia_load_tester.AccGroup.Deploy.Contracts.{HasAccount, deploy_test_contracts-HasAccount}
use kaia_load_tester.Contracts.Registry.{test_contract_infos}
use kaia_load_tester.Contracts.Laws.{info_at, undeployed}
use kaia_load_tester.TestCase.TcList.{ExtendedTask, tc_list, find_task, find_tc}
use kaia_load_tester.TestCase.Config.{TcConfig, contract_accounts, contract_account, init}

-- The contract is deployed for this name of a test case.
abbrev covers : String → ℕ → Bool
covers key t =
    ltb t contract_end && ((t == contract_general) || contains_in_list (info_at t).test_names key)

abbrev all_covered : String → List ℕ → Bool
all_covered key [] = true
all_covered key (t ∷ types) = covers key t && all_covered key types

abbrev list_covered : List (String × ExtendedTask) → Bool
list_covered [] = true
list_covered ((key, entry) ∷ rest) = all_covered key entry.test_contracts && list_covered rest

tc_list_covered : list_covered tc_list ≡ true
unfolding test_contract_infos contains_in_list
tc_list_covered = refl

and-left : (a b : Bool) → (a && b) ≡ true → a ≡ true
and-left true b h = refl
and-left false b h = cc

and-right : (a b : Bool) → (a && b) ≡ true → b ≡ true
and-right true b h = h
and-right false b h = cc

or-right : (a b : Bool) → b ≡ true → (a || b) ≡ true
or-right true b h = refl
or-right false b h = h

or-left : (a b : Bool) → a ≡ true → (a || b) ≡ true
or-left true b h = refl
or-left false b h = cc

find_task-covered :
    (entries : List (String × ExtendedTask)) (name : String) (entry : ExtendedTask)
    → list_covered entries ≡ true
    → find_task entries name ≡ some entry
    → all_covered name entry.test_contracts ≡ true
find_task-covered [] name entry h e = cc
find_task-covered ((key, first) ∷ rest) name entry h e = elim (Bool-cases (str_eq name key)) [
  | inl same ↦
      let here : first ≡ entry = let q = rw same at e in cc in
      rw ((str_eq_iff name key).0 same, ← here)
        (and-left (all_covered key first.test_contracts) (list_covered rest) h)
  | inr other ↦
      find_task-covered rest name entry
        (and-right (all_covered key first.test_contracts) (list_covered rest) h) (rw other at e)
]

module _ {A : Type 0} where
  -- The map has an account for the contract.
  abbrev Has : ℕ → Dict (Option A) → Type 0
  Has t m = (a : A) × (lookup t m ≡ some (some a))

  get_or-HasAccount :
      (cs : List (Option A)) (t : ℕ) → HasAccount t cs → (a : A) × (get_or cs t none ≡ some a)
  get_or-HasAccount [] t (a, h) = cc
  get_or-HasAccount (c ∷ cs) zero (a, h) = (a, cc)
  get_or-HasAccount (c ∷ cs) (suc t) h = get_or-HasAccount cs t h

  abbrev AllSet : List (Option A) → List ℕ → Type 0
  AllSet cs [] = Unit
  AllSet cs (t ∷ types) = HasAccount t cs × AllSet cs types

  abbrev AllHave : Dict (Option A) → List ℕ → Type 0
  AllHave m [] = Unit
  AllHave m (t ∷ types) = Has t m × AllHave m types

  insert-Has :
      (j t : ℕ) (a : A) (m : Dict (Option A)) → (j ≡ t) ⊎ Has j m → Has j (insert t (some a) m)
  insert-Has j t a m (inl e) = (a, rw (lookup-insert j t (some a) m, (==_iff j t).1 e) refl)
  insert-Has j t a m (inr (b, h)) = elim (Bool-cases (j == t)) [
    | inl e ↦ (a, rw (lookup-insert j t (some a) m, e) refl)
    | inr n ↦ (b, rw (lookup-insert j t (some a) m, n) h)
  ]

  contract_accounts-Has :
      (cs : List (Option A)) (types : List ℕ) (j : ℕ) (m : Dict (Option A))
      → AllSet cs types
      → Has j m
      → Has j (contract_accounts cs types m)
  unfolding contract_accounts
  contract_accounts-Has cs [] j m all h = h
  contract_accounts-Has cs (t ∷ types) j m all h =
      let (a, e) = get_or-HasAccount cs t all.0 in
      contract_accounts-Has cs types j (insert t (get_or cs t none) m) all.1
        (rw e (insert-Has j t a m (inr h)))

  contract_accounts-AllHave :
      (cs : List (Option A)) (types : List ℕ) (m : Dict (Option A))
      → AllSet cs types
      → AllHave (contract_accounts cs types m) types
  unfolding contract_accounts
  contract_accounts-AllHave cs [] m all = tt
  contract_accounts-AllHave cs (t ∷ types) m all =
      let (a, e) = get_or-HasAccount cs t all.0 in
      (
        contract_accounts-Has cs types t (insert t (get_or cs t none) m) all.1
            (rw e (insert-Has t t a m (inl refl))),
        contract_accounts-AllHave cs types (insert t (get_or cs t none) m) all.1,
      )

-- Every contract of the list has an account in the configuration.
abbrev pub AllFound : {A C : Type 0} → TcConfig A C → List ℕ → Type 0
AllFound {A} config [] = Unit
AllFound {A} config (t ∷ types) =
    ((a : A) × (contract_account t config ≡ some a)) × AllFound config types

-- There is one entry for each contract.
length-test_contract_infos : length test_contract_infos ≡ contract_end
unfolding test_contract_infos
length-test_contract_infos = refl

module _ {A : Type 0} (h : Chain A) (leader : Bool) (tcs targets : List String) where
  covers-is_needed :
      (key : String) (t : ℕ)
      → Stands key tcs
      → covers key t ≡ true
      → is_needed h leader tcs targets t (info_at t) ≡ true
  unfolding is_needed
  covers-is_needed key t stands c =
      let names = (info_at t).test_names in
      elim (Bool-cases (t == contract_general)) [
        | inl e ↦ rw e refl
        | inr n ↦
            let named : contains_in_list names key ≡ true =
              rw n at (and-right (ltb t contract_end) _ c) in
            or-right (t == contract_general) _ (
              or-left (contains_any_in_list tcs names) _ (
                (contains_any_in_list-Common tcs names).1
                  (key, stands, (contains_in_list-Stands names key).0 named)))
      ]

  covers-HasAccount :
      (key : String) (t : ℕ)
      → Stands key tcs
      → covers key t ≡ true
      → HasAccount t
          (deploy_test_contracts h leader tcs targets test_contract_infos undeployed).contracts
  covers-HasAccount key t stands c =
      let below : t < contract_end = ltb→lt t contract_end (and-left (ltb t contract_end) _ c) in
      deploy_test_contracts-HasAccount h leader tcs targets test_contract_infos t undeployed
        (info_at t) (get_elem?-get_or test_contract_infos t _ (rw length-test_contract_infos below))
        (covers-is_needed key t stands c) below

  all_covered-AllSet :
      (key : String) (types : List ℕ)
      → Stands key tcs
      → all_covered key types ≡ true
      → AllSet
          (deploy_test_contracts h leader tcs targets test_contract_infos undeployed).contracts
          types
  all_covered-AllSet key [] stands c = tt
  all_covered-AllSet key (t ∷ types) stands c = (
    covers-HasAccount key t stands (and-left (covers key t) _ c),
    all_covered-AllSet key types stands (and-right (covers key t) _ c),
  )

AllHave-AllFound :
    {A C : Type 0} (config : TcConfig A C) (types : List ℕ)
    → AllHave config.smart_contract_accounts types
    → AllFound config types
AllHave-AllFound config [] all = tt
AllHave-AllFound config (t ∷ types) ((a, e), all) =
    ((a, rw e refl), AllHave-AllFound config types all)

-- If a test case of the list is among the slave's test cases, then after the deployment, by the
-- leader or by another slave, a configuration with its contracts has an account for each of them.
pub init-AllFound :
    {A C : Type 0} (h : Chain A) (leader : Bool) (tcs targets : List String)
    → (dial rpc_dial eth_dial : ℕ → C)
    → (g : AccGroup A) (endpoint name tc_name : String) (entry : ExtendedTask)
    → g.contracts
      ≡ (deploy_test_contracts h leader tcs targets test_contract_infos undeployed).contracts
    → find_tc name ≡ some entry
    → Stands name tcs
    → AllFound
        (init dial rpc_dial eth_dial g endpoint entry.test_contracts tc_name targets)
        entry.test_contracts
unfolding init find_tc
init-AllFound h leader tcs targets dial rpc_dial eth_dial g endpoint name tc_name entry deployed
      known stands =
    let types = entry.test_contracts in
    AllHave-AllFound (init dial rpc_dial eth_dial g endpoint types tc_name targets) types (
      contract_accounts-AllHave g.contracts types [] (
        rw deployed (
          all_covered-AllSet h leader tcs targets name types stands
            (find_task-covered tc_list name entry tc_list_covered known))))
