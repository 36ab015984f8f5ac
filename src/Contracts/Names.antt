-- ===== src/Contracts/Names.antt =====
-- The test contracts of klayslave/account/accgroup.go, by their place in the list of contracts.
use kaia_load_tester.Prelude.{ℕ}

abbrev pub contract_erc20 : ℕ
contract_erc20 = 0

abbrev pub contract_erc721 : ℕ
contract_erc721 = 1

abbrev pub contract_storage_trie : ℕ
contract_storage_trie = 2

abbrev pub contract_gasless_token : ℕ
contract_gasless_token = 4

abbrev pub contract_w_kaia : ℕ
contract_w_kaia = 5

abbrev pub contract_uniswap_v2_factory : ℕ
contract_uniswap_v2_factory = 6

abbrev pub contract_uniswap_v2_router : ℕ
contract_uniswap_v2_router = 7

abbrev pub contract_gasless_swap_router : ℕ
contract_gasless_swap_router = 8

abbrev pub contract_counter_for_test_auction : ℕ
contract_counter_for_test_auction = 9

abbrev pub contract_auction_fee_vault : ℕ
contract_auction_fee_vault = 10

abbrev pub contract_auction_deposit_vault : ℕ
contract_auction_deposit_vault = 11

abbrev pub contract_auction_entry_point : ℕ
contract_auction_entry_point = 12

abbrev pub contract_cpu_heavy : ℕ
contract_cpu_heavy = 13

abbrev pub contract_large_memo : ℕ
contract_large_memo = 14

abbrev pub contract_read_api_call_contract : ℕ
contract_read_api_call_contract = 15

abbrev pub contract_user_storage : ℕ
contract_user_storage = 16

abbrev pub contract_internal_tx_kip17 : ℕ
contract_internal_tx_kip17 = 17

abbrev pub contract_internal_tx_main : ℕ
contract_internal_tx_main = 18

abbrev pub contract_tether_logic : ℕ
contract_tether_logic = 19

abbrev pub contract_tether_proxy : ℕ
contract_tether_proxy = 20
