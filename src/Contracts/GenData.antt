-- ===== src/Contracts/GenData.antt =====
-- `GenData` of the contracts of klayslave/account/contract.go: the call data that test cases send.
-- `PackContractCall` ends the process where the arguments cannot be packed.
use Prim.Native.Char.{code}
use kaia_load_tester.Prelude.{
  ℕ, zero, suc, ◌+◌, ◌/◌, ◌%◌, ◌^◌, List, [], ◌∷◌, ◌++◌, String, if◌then◌else◌, ◌==◌, ltb,
}
use kaia_load_tester.Account.Types.{Env, Value, num, addr, bytes, M, or_fatal}

-- `value.String()` of a number below ten to the power of `fuel`.
unfoldable pub decimal : ℕ → ℕ → List ℕ
decimal zero n = []
decimal (suc fuel) n =
    let front = decimal fuel (n / 10) in
    let digit = b'0' + n % 10 in if ltb n 10 then digit ∷ [] else front ++ digit ∷ []

abbrev codes : String → List ℕ
codes String.[] = []
codes (String.◌∷◌ c s) = code c ∷ codes s

module _ (e : Env) where
  unfoldable pub pack_contract_call : String → List Value → M (List ℕ)
  pack_contract_call method args = or_fatal (e.abi_pack method args)

  abbrev pub gen_general : ℕ → M (List ℕ)
  gen_general from = pack_contract_call "reward" (addr from ∷ [])

  abbrev pub gen_erc20 : ℕ → ℕ → M (List ℕ)
  gen_erc20 recipient value =
      if value == 10 ^ 11
      then pack_contract_call "mint" (addr recipient ∷ num value ∷ [])
      else pack_contract_call "transfer" (addr recipient ∷ num value ∷ [])

  abbrev pub gen_tether_proxy : ℕ → ℕ → M (List ℕ)
  gen_tether_proxy recipient value = pack_contract_call "transfer" (addr recipient ∷ num value ∷ [])

  abbrev pub gen_cpu_heavy : ℕ → M (List ℕ)
  gen_cpu_heavy value = pack_contract_call "sort" (num value ∷ num 1 ∷ [])

  abbrev pub gen_large_memo : ℕ → M (List ℕ)
  gen_large_memo value =
      pack_contract_call "setName" (bytes (codes "test_memo_" ++ decimal 20 value) ∷ [])

  abbrev pub gen_read_api : ℕ → M (List ℕ)
  gen_read_api value =
      if value == 0 then pack_contract_call "get" [] else pack_contract_call "set" []

  -- The last argument is the random number.
  abbrev pub gen_user_storage : ℕ → ℕ → ℕ → M (List ℕ)
  gen_user_storage address value draw =
      if value == 0
      then pack_contract_call "get" []
      else (if value == 1
          then pack_contract_call "set" (num (draw % 1000) ∷ [])
          else pack_contract_call "getUserData" (addr address ∷ []))

  abbrev pub gen_internal_tx_kip17 : M (List ℕ)
  gen_internal_tx_kip17 = pack_contract_call "mintCard" []

  -- Two random addresses.
  abbrev pub gen_internal_tx_main : ℕ → ℕ → M (List ℕ)
  gen_internal_tx_main invitee host =
      pack_contract_call "sendRewards" (addr invitee ∷ addr host ∷ [])
