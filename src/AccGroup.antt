-- ===== src/AccGroup.antt =====
-- klayslave/account/accgroup.go: the groups of test accounts, and the set that a test case draws
-- its accounts from.
pub mod AccountSet
pub mod Creation
pub mod Deploy
pub mod Laws
mod Tests
use kaia_load_tester.Prelude.{
  ℕ, zero, suc, ◌+◌, ◌*◌, ◌/◌, Bool, true, false, ◌||◌, Option, none, some, List, [], ◌∷◌, ◌++◌,
  map, if◌then◌else◌, String, str_eq, ◌==◌, length, get_or, set, take, replicate,
}

-- The account lists stand in the order of `AccList`, the contracts in that of `TestContract`.
pub record AccGroup {ℓ} (A : Type ℓ) : Type ℓ where
  pub contains_unsigned_acc_grp : Bool
  pub acc_lists : List (List A)
  pub contracts : List (Option A)

-- `AccListForSignedTx`, `AccListForUnsignedTx`, `AccListEnd` and `ContractEnd`.
abbrev pub acc_list_for_signed_tx : ℕ
acc_list_for_signed_tx = 0

abbrev pub acc_list_for_unsigned_tx : ℕ
acc_list_for_unsigned_tx = 1

abbrev pub acc_list_end : ℕ
acc_list_end = 6

abbrev pub contract_end : ℕ
contract_end = 21

unfoldable pub contains_in_list : List String → String → Bool
contains_in_list [] target = false
contains_in_list (item ∷ list) target = str_eq item target || contains_in_list list target

unfoldable pub contains_any_in_list : List String → List String → Bool
contains_any_in_list list [] = false
contains_any_in_list list (target ∷ targets) =
    contains_in_list list target || contains_any_in_list list targets

module _ {ℓ} {A : Type ℓ} where
  abbrev pub new_acc_group : Bool → AccGroup A
  new_acc_group contains = record {
    contains_unsigned_acc_grp = contains;
    acc_lists = replicate acc_list_end [];
    contracts = replicate contract_end none;
  }

  abbrev pub get_acc_list_by_name : ℕ → AccGroup A → List A
  get_acc_list_by_name t g = get_or g.acc_lists t []

  abbrev pub add_acc_to_list_by_name : A → ℕ → AccGroup A → AccGroup A
  add_acc_to_list_by_name acc t g = record g {
    acc_lists = set g.acc_lists t (get_acc_list_by_name t g ++ acc ∷ []);
  }

  -- The loop over `accs`.
  unfoldable pub set_acc_list_by_name : List A → ℕ → AccGroup A → AccGroup A
  set_acc_list_by_name [] t g = g
  set_acc_list_by_name (acc ∷ accs) t g =
      set_acc_list_by_name accs t (add_acc_to_list_by_name acc t g)

  -- The accounts that the loop over the test cases unlocks at the endpoint.
  unfoldable pub unlock_for : List String → AccGroup A → List A
  unlock_for [] g = []
  unlock_for (tc_name ∷ tc_str_list) g =
      if str_eq tc_name "transferUnsignedTx"
      then get_acc_list_by_name acc_list_for_unsigned_tx g
      else unlock_for tc_str_list g

  -- `NewAccount` makes the account with the number `i` of the list `t`.
  module _ (new_account : ℕ → ℕ → A) where
    -- The inner loop: `left` accounts from the number `i` on.
    unfoldable pub create_accounts : ℕ → ℕ → ℕ → AccGroup A → AccGroup A
    create_accounts t zero i g = g
    create_accounts t (suc left) i g =
        create_accounts t left (i + 1) (add_acc_to_list_by_name (new_account t i) t g)

    -- The outer loop, from the list `t` on.
    unfoldable pub create_lists : ℕ → List ℕ → AccGroup A → AccGroup A
    create_lists t [] g = g
    create_lists t (n_user ∷ n_users) g =
        create_lists (t + 1) n_users (create_accounts t n_user 0 g)

    -- The accounts that are unlocked, and the group.
    unfoldable pub create_accounts_per_acc_grp :
        List ℕ → List String → AccGroup A → List A × AccGroup A
    create_accounts_per_acc_grp n_users tc_str_list g =
        let made = create_lists 0 n_users g in (unlock_for tc_str_list made, made)

  -- For percentages up to 100, as the flags' check demands: then no slice is out of range.
  abbrev pub active : ℕ → List A → List A
  active percent acc_grp =
      if length acc_grp * percent / 100 == 0
      then []
      else take (length acc_grp * percent / 100) acc_grp

  unfoldable pub set_acc_grp_by_active_percent : ℕ → AccGroup A → AccGroup A
  set_acc_grp_by_active_percent percent g = record g {
    acc_lists = map (active percent) g.acc_lists;
  }

  unfoldable pub get_valid_acc_grp : AccGroup A → List A
  get_valid_acc_grp g =
      if g.contains_unsigned_acc_grp
      then get_acc_list_by_name acc_list_for_signed_tx g
        ++ get_acc_list_by_name acc_list_for_unsigned_tx g
      else get_acc_list_by_name acc_list_for_signed_tx g

-- `WaitForSetupCompletion`: the number of polls, by what the k-th one says, with `left` of the 60
-- left.
unfoldable pub polls_from : (ℕ → Bool) → ℕ → ℕ → ℕ
polls_from ready zero k = k
polls_from ready (suc left) k = if ready k then k + 1 else polls_from ready left (k + 1)

unfoldable pub wait_for_setup_completion : (ℕ → Bool) → ℕ
wait_for_setup_completion ready = polls_from ready 60 0
