-- ===== src/Contracts/Laws.antt =====
-- The contracts that others need stand in the group when they are needed.
use kaia_load_tester.Prelude.{
  ℕ, ◌<◌, ◌≡◌, refl, true, none, some, List, [], ◌∷◌, String, get_elem?, get_or, ◌∙◌, false,
  replicate, take, arith,
}
use kaia_load_tester.AccGroup.{contract_end}
use kaia_load_tester.AccGroup.Deploy.{TestContractInfo, Deployment, Chain, is_needed, first_phase}
use kaia_load_tester.AccGroup.Deploy.Contracts.{HasAccount, first_phase-HasAccount}
use kaia_load_tester.Contracts.Registry.{info, test_contract_infos, constructor_reads}

-- A deployment that begins with the group's new list of contracts.
abbrev pub undeployed : {A : Type 0} → Deployment A
undeployed = record { contracts = replicate contract_end none; log = [] }

-- `TestContractInfos[idx]`, with a contract that nothing asks for beyond the list.
abbrev pub info_at : ℕ → TestContractInfo
info_at idx = get_or test_contract_infos idx (info [] [] false false)

module _ {A : Type 0} (h : Chain A) (tcs targets : List String) where
  -- If the contract `idx` is deployed, the contract `dep` has an account by then.
  abbrev pub AllReady : List (ℕ × ℕ) → Type 0
  AllReady [] = Unit
  AllReady ((idx, dep) ∷ reads) =
      (is_needed h true tcs targets idx (info_at idx) ≡ true
        → HasAccount dep
            (first_phase h true tcs targets 0 (take idx test_contract_infos) undeployed).contracts)
      × AllReady reads

  ready :
      (idx dep : ℕ)
      → get_elem? (take idx test_contract_infos) dep ≡ some (info_at dep)
      → is_needed h true tcs targets dep (info_at dep)
        ≡ is_needed h true tcs targets idx (info_at idx)
      → dep < contract_end
      → is_needed h true tcs targets idx (info_at idx) ≡ true
      → HasAccount dep
          (first_phase h true tcs targets 0 (take idx test_contract_infos) undeployed).contracts
  ready idx dep at same below needed =
      first_phase-HasAccount h true tcs targets (take idx test_contract_infos) dep undeployed
        (info_at dep) refl at (same ∙ needed) (omega arith)

  -- Whenever the leader comes to a contract that it needs, every contract whose address goes into
  -- that contract's constructor has its account.
  pub constructor_reads-AllReady : AllReady constructor_reads
  unfolding test_contract_infos is_needed
  constructor_reads-AllReady = (
    ready 7 6 refl refl (omega arith),
    (
      ready 7 5 refl refl (omega arith),
      (
        ready 8 5 refl refl (omega arith),
        (
          ready 11 10 refl refl (omega arith),
          (
            ready 12 11 refl refl (omega arith),
            (ready 18 17 refl refl (omega arith), (ready 20 19 refl refl (omega arith), tt)),
          ),
        ),
      ),
    ),
  )
