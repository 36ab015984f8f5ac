-- ===== src/Slave/Flags.antt =====
-- `setConfigsFromFlag` and `GetExtendedTasks` of klayslave/config/config.go. A message that the code
-- only prints is left out; `log.Fatal` ends the process.
pub mod Laws
pub mod Parts
pub mod RoundTrip
use kaia_load_tester.Prelude.{
  ℕ, ◌+◌, Bool, true, false, not, ◌&&◌, ◌||◌, Option, none, some, List, [], ◌∷◌, ◌++◌, String,
  str_eq, if◌then◌else◌, ◌==◌, ltb, length, get_or, is_some, split, atoi, ℤ, pos, ltb_ℤ, leb_ℤ,
}
use kaia_load_tester.AccGroup.{contains_any_in_list, contains_in_list}
use kaia_load_tester.TestCase.TcList.{ExtendedTask, find_tc}

-- The flags' values, with `max-rps` of boomer's flags.
pub record Flags : Type 0 where
  pub endpoint : String
  pub vusigned : ℤ
  pub vuunsigned : ℤ
  pub n_user_for_tc : ℤ
  pub active_user_percent : ℤ
  pub charge : ℤ
  pub charge_parallel : ℤ
  pub key : String
  pub leader : Bool
  pub tc : String
  pub weights : String
  pub auction_target_tx_type_list : String
  pub max_rps : ℤ

-- `Config`, less what is read from the node.
pub record Config : Type 0 where
  pub n_user_for_unsigned : ℤ
  pub n_user_for_signed : ℤ
  pub n_user_for_new_accounts : ℤ
  pub n_user_for_tc : ℤ
  pub active_user_percent : ℤ
  pub rich_wallet_private_key : String
  pub tc_name_list : List String
  pub tc_weights : List ℤ
  pub auction_target_tx_type_list : List String
  pub charge_klay_amount : ℤ
  pub charge_parallel_num : ℤ
  pub g_endpoint : String
  pub is_leader_slave : Bool

-- The loop over the parts of `--tc`: unknown names are skipped.
unfoldable pub known_tcs : List String → List String
known_tcs [] = []
known_tcs (name ∷ names) =
    if is_some (find_tc name) then name ∷ known_tcs names else known_tcs names

-- The loop over the parts of `--weights`: one that is no number empties the list and ends the loop.
unfoldable pub parse_weights : List ℤ → List String → List ℤ
parse_weights weights [] = weights
parse_weights weights (s ∷ parts) = elim (atoi s) [
  | none ↦ []
  | some weight ↦ parse_weights (weights ++ weight ∷ []) parts
]

-- The keys of `account.TargetTxTypeList`.
abbrev pub target_tx_types : List String
target_tx_types = "VT" ∷ "SC" ∷ "rSC" ∷ "GAA" ∷ "GAS" ∷ "rGAA" ∷ "rGAS" ∷ []

unfoldable pub known_targets : List String → List String
known_targets [] = []
known_targets (s ∷ parts) =
    if contains_in_list target_tx_types s then s ∷ known_targets parts else known_targets parts

abbrev pub auction_tcs : List String
auction_tcs = "auctionBidTC" ∷ "auctionRevertedBidTC" ∷ []

-- Weights that do not match the names are dropped.
abbrev pub matching : List String → List ℤ → List ℤ
matching names weights =
    if not (length weights == 0) && not (length weights == length names) then [] else weights

abbrev pub config_of : Flags → List String → List String → Config
config_of f names targets = record {
  n_user_for_unsigned = f.vuunsigned;
  n_user_for_signed = f.vusigned;
  n_user_for_new_accounts = pos 5;
  n_user_for_tc = f.n_user_for_tc;
  active_user_percent = f.active_user_percent;
  rich_wallet_private_key = f.key;
  tc_name_list = names;
  tc_weights = matching names (parse_weights [] (split f.weights));
  auction_target_tx_type_list = targets;
  charge_klay_amount = f.charge;
  charge_parallel_num = f.charge_parallel;
  g_endpoint = f.endpoint;
  is_leader_slave = f.leader;
}

-- The last two checks: there is a test case, and an auction has accounts for each request.
unfoldable pub check_tcs : Flags → List String → List String → Option Config
check_tcs f [] targets = none
check_tcs f (name ∷ names) targets =
    if contains_any_in_list (name ∷ names) auction_tcs && ltb_ℤ f.vusigned f.max_rps
    then none
    else some (config_of f (name ∷ names) targets)

-- The target types are read if there is an auction among the test cases.
unfoldable pub read_targets : Flags → List String → Option Config
read_targets f names =
    if contains_any_in_list names auction_tcs
    then (if str_eq f.auction_target_tx_type_list ""
        then none
        else check_tcs f names (known_targets (split f.auction_target_tx_type_list)))
    else check_tcs f names []

-- `none` is the end of the process.
unfoldable pub set_configs_from_flag : Flags → Option Config
set_configs_from_flag f =
    if str_eq f.key ""
    then none
    else (if ltb_ℤ (pos 100) f.active_user_percent || leb_ℤ f.active_user_percent (pos 0)
        then none
        else read_targets f (known_tcs (split f.tc)))

-- The weight of the test case with the number `i`.
abbrev pub weight_at : List ℤ → ℕ → ℤ → ℤ
weight_at weights i usual = if ltb i (length weights) then get_or weights i usual else usual

unfoldable pub tasks_from : List ℤ → ℕ → List String → List ExtendedTask
tasks_from weights i [] = []
tasks_from weights i (name ∷ names) = elim (find_tc name) [
  | none ↦ tasks_from weights (i + 1) names
  | some task ↦
      record task { weight = weight_at weights i task.weight } ∷ tasks_from weights (i + 1) names
]

unfoldable pub get_extended_tasks : Config → List ExtendedTask
get_extended_tasks c = tasks_from c.tc_weights 0 c.tc_name_list
