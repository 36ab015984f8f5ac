-- ===== src/TestCase/ReadApi/Laws.antt =====
-- What a read API request leaves, and which answers count as a success.
use kaia_load_tester.Prelude.{
  ℕ, ◌<◌, ◌≡◌, refl, ◌↔◌, inl, inr, Bool, true, false, none, List, String, str_eq, str_eq_iff,
  arith, Bool-cases,
}
use kaia_load_tester.TestCase.TcList.{
  ReadApi, run_gas_price, run_block_number, run_get_block_by_number, run_get_account,
  run_get_block_with_consensus_info_by_number, run_get_storage_at, run_call, run_estimate_gas,
}
use kaia_load_tester.TestCase.ReadApi.Hex.{names_block}
use kaia_load_tester.TestCase.ReadApi.{
  Answer, refused, answered, Node, set_bytes, error_if, not_text, read_error,
}

-- The answer that the node owes.
abbrev pub Answers : {A : Type 0} → (A → Type 0) → Answer A → Type 0
Answers Right (refused err) = ⊥
Answers Right (answered a) = Right a

abbrev pub Right : Node → ReadApi → ℕ → ℕ → ℕ → List ℕ → Type 0
Right n run_gas_price number from contract call = Answers (λ price. Unit) n.suggest_gas_price
Right n run_block_number number from contract call = Answers (λ bn. 0 < bn) n.block_number
Right n run_get_block_by_number number from contract call =
    Answers (λ header. header ≡ number) (n.block_by_number number)
Right n run_get_account number from contract call = Answers (λ ret. ret ≡ "1") (n.account_type from)
Right n run_get_block_with_consensus_info_by_number number from contract call =
    Answers (λ ret. names_block ret number ≡ true) (n.consensus_info number)
Right n run_get_storage_at number from contract call =
    Answers (λ ret. set_bytes 0 ret ≡ 4) (n.storage_at contract)
Right n run_call number from contract call =
    Answers (λ result. Unit) (n.call_contract from contract call)
Right n run_estimate_gas number from contract call =
    Answers (λ gas. 0 < gas) (n.estimate_gas from contract call)

error_if-Answers :
    {A : Type 0} (text : String) (wrong : A → Bool) (P : A → Type 0)
    → ((a : A) → (wrong a ≡ false) ↔ P a)
    → (answer : Answer A) → (error_if text wrong answer ≡ none) ↔ Answers P answer
error_if-Answers text wrong P decides (refused err) = (λ h. absurd (ground arith), λ h. absurd h)
error_if-Answers text wrong P decides (answered a) = elim (Bool-cases (wrong a)) [
  | inl bad ↦ rw bad (λ h. absurd (ground arith), λ h. absurd (let q = (decides a).1 h in cc))
  | inr good ↦ rw good (λ h. (decides a).0 good, λ h. refl)
]

not_text-eq : (a b : String) → (not_text a b ≡ false) ↔ (a ≡ b)
not_text-eq a b = elim (Bool-cases (str_eq a b)) [
  | inl same ↦ rw same (λ h. (str_eq_iff a b).0 same, λ h. refl)
  | inr other ↦
      rw other (λ h. absurd (ground arith), λ h. absurd (let q = (str_eq_iff a b).1 h in cc))
]

-- A read API request publishes no error just if the node answers without one, and the answer is the
-- one expected: a block number above zero, the block asked for, an account of type 1, four in the
-- contract's storage, gas above zero. Of a call's result nothing is asked.
pub read_error-Right :
    (n : Node) (tc : ReadApi) (number from contract : ℕ) (call : List ℕ)
    → (read_error n tc number from contract call ≡ none) ↔ Right n tc number from contract call
unfolding read_error
read_error-Right n run_gas_price number from contract call =
    error_if-Answers "" _ _ (λ a. (λ h. tt, λ h. refl)) n.suggest_gas_price
read_error-Right n run_block_number number from contract call =
    error_if-Answers "wrong block number" _ _ (λ a. (λ h. ground arith, λ h. ground arith))
      n.block_number
read_error-Right n run_get_block_by_number number from contract call =
    error_if-Answers "wrong block" _ _ (λ a. (λ h. ground arith, λ h. ground arith))
      (n.block_by_number number)
read_error-Right n run_get_account number from contract call =
    error_if-Answers "wrong account type" _ _ (λ a. not_text-eq a "1") (n.account_type from)
read_error-Right n run_get_block_with_consensus_info_by_number number from contract call =
    error_if-Answers "wrong block" _ _ (λ a. (λ h. ground arith, λ h. ground arith))
      (n.consensus_info number)
read_error-Right n run_get_storage_at number from contract call =
    error_if-Answers "wrong storage value" _ _ (λ a. (λ h. ground arith, λ h. ground arith))
      (n.storage_at contract)
read_error-Right n run_call number from contract call =
    error_if-Answers "" _ _ (λ a. (λ h. tt, λ h. refl)) (n.call_contract from contract call)
read_error-Right n run_estimate_gas number from contract call =
    error_if-Answers "wrong estimate gas" _ _ (λ a. (λ h. ground arith, λ h. ground arith))
      (n.estimate_gas from contract call)
