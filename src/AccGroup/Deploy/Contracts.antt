-- ===== src/AccGroup/Deploy/Contracts.antt =====
-- Which contracts stand in the group after the phases of a deployment.
use kaia_load_tester.Prelude.{
  ℕ, zero, suc, ◌+◌, ◌<◌, ◌≡◌, refl, ◌∙◌, subst, inl, inr, Bool, true, false, not, ◌&&◌, Option,
  some, List, [], ◌∷◌, String, ◌==◌, ==_iff, length, get_elem?, set, length-set, get_elem?-set_self,
  get_elem?-set_ne, Bool-cases, arith, if◌then◌else◌,
}
use kaia_load_tester.AccGroup.Deploy.{
  TestContractInfo, Deployment, Chain, is_needed, set_up_if, deploy_contract, first_phase,
  await_leader, charge_if, second_phase, deploy_test_contracts,
}

module _ {A : Type 0} where
  -- The contract of this number has an account.
  abbrev pub HasAccount : ℕ → List (Option A) → Type 0
  HasAccount j cs = (a : A) × (get_elem? cs j ≡ some (some a))

  HasAccount-below : (j : ℕ) (cs : List (Option A)) → HasAccount j cs → j < length cs
  HasAccount-below j [] (a, h) = cc
  HasAccount-below zero (c ∷ cs) h = omega arith
  HasAccount-below (suc j) (c ∷ cs) h = omega (arith, HasAccount-below j cs h)

  HasAccount-set :
      (j idx : ℕ) (a : A) (cs : List (Option A))
      → HasAccount j cs
      → HasAccount j (set cs idx (some a))
  HasAccount-set j idx a cs h = elim (Bool-cases (idx == j)) [
    | inl e ↦
        let same = (==_iff idx j).0 e in
        (
          a,
          subst (λ k. get_elem? (set cs idx (some a)) k ≡ some (some a)) same
              (get_elem?-set_self cs idx (some a) (rw same (HasAccount-below j cs h))),
        )
    | inr n ↦ (h.0, get_elem?-set_ne cs idx j (some a) (λ e. ground arith) ∙ h.1)
  ]

  -- What a phase does to the contracts at one number: nothing, or a write of an account.
  data Writes (idx : ℕ) (cs : List (Option A)) : List (Option A) → Bool → Type 0 where
    leaves : Writes idx cs cs false
    writes : (a : A) → Writes idx cs (set cs idx (some a)) true

  length-Writes :
      {idx : ℕ} {cs cs' : List (Option A)} {b : Bool} → Writes idx cs cs' b → length cs' ≡ length cs
  length-Writes leaves = refl
  length-Writes {idx} {cs} (writes a) = length-set cs idx (some a)

  Writes-HasAccount :
      {idx : ℕ} {cs cs' : List (Option A)} {b : Bool} (j : ℕ)
      → Writes idx cs cs' b
      → HasAccount j cs
      → HasAccount j cs'
  Writes-HasAccount j leaves h = h
  Writes-HasAccount {idx} {cs} j (writes a) h = HasAccount-set j idx a cs h

  HasAccount-Writes :
      {idx : ℕ} {cs cs' : List (Option A)} {b : Bool}
      → Writes idx cs cs' b
      → b ≡ true
      → idx < length cs
      → HasAccount idx cs'
  HasAccount-Writes leaves e h = cc
  HasAccount-Writes {idx} {cs} (writes a) e h = (a, get_elem?-set_self cs idx (some a) h)

module _ {A : Type 0} (h : Chain A) (leader : Bool) (tcs targets : List String) where
  abbrev first_step : ℕ → TestContractInfo → Deployment A → Deployment A
  first_step idx info d =
      if is_needed h leader tcs targets idx info
      then (if leader
          then set_up_if h leader tcs targets info.has_setup_work idx
              (deploy_contract h leader tcs targets idx (h.is_deployed idx) d)
          else d)
      else d

  set_up_if-contracts :
      (b : Bool) (idx : ℕ) (d : Deployment A)
      → (set_up_if h leader tcs targets b idx d).contracts ≡ d.contracts
  unfolding set_up_if
  set_up_if-contracts true idx d = refl
  set_up_if-contracts false idx d = refl

  deploy_contract-Writes :
      (idx : ℕ) (b : Bool) (d : Deployment A)
      → Writes idx d.contracts (deploy_contract h leader tcs targets idx b d).contracts true
  unfolding deploy_contract
  deploy_contract-Writes idx true d = writes (h.account_at idx)
  deploy_contract-Writes idx false d = writes (h.deploys_to idx)

  first_by :
      (needed by_leader : Bool) (idx : ℕ) (info : TestContractInfo) (d : Deployment A)
      → Writes idx d.contracts
          (if needed
            then (if by_leader
                then set_up_if h leader tcs targets info.has_setup_work idx
                    (deploy_contract h leader tcs targets idx (h.is_deployed idx) d)
                else d)
            else d).contracts
          (needed && by_leader)
  first_by true true idx info d =
      rw (set_up_if-contracts info.has_setup_work idx _)
        (deploy_contract-Writes idx (h.is_deployed idx) d)
  first_by true false idx info d = leaves
  first_by false true idx info d = leaves
  first_by false false idx info d = leaves

  abbrev second_step : ℕ → TestContractInfo → Deployment A → Deployment A
  second_step idx info d =
      if is_needed h leader tcs targets idx info
      then charge_if h leader tcs targets info.has_charging_work idx
          (await_leader h leader tcs targets leader idx d)
      else d

  charge_if-contracts :
      (b : Bool) (idx : ℕ) (d : Deployment A)
      → (charge_if h leader tcs targets b idx d).contracts ≡ d.contracts
  unfolding charge_if
  charge_if-contracts true idx d = refl
  charge_if-contracts false idx d = refl

  second_by :
      (needed by_leader : Bool) (idx : ℕ) (info : TestContractInfo) (d : Deployment A)
      → Writes idx d.contracts
          (if needed
            then charge_if h leader tcs targets info.has_charging_work idx
                (await_leader h leader tcs targets by_leader idx d)
            else d).contracts
          (needed && not by_leader)
  unfolding await_leader
  second_by true true idx info d = rw (charge_if-contracts info.has_charging_work idx _) leaves
  second_by true false idx info d =
      rw (charge_if-contracts info.has_charging_work idx _) (writes (h.account_at idx))
  second_by false true idx info d = leaves
  second_by false false idx info d = leaves

  -- A loop over the contracts, each step of which may write at its own number.
  record Phase : Type 0 where
    run : ℕ → List TestContractInfo → Deployment A → Deployment A
    step : ℕ → TestContractInfo → Deployment A → Deployment A
    written : ℕ → TestContractInfo → Bool
    run-nil : (idx : ℕ) (d : Deployment A) → run idx [] d ≡ d
    run-cons :
        (idx : ℕ) (info : TestContractInfo) (infos : List TestContractInfo) (d : Deployment A)
        → run idx (info ∷ infos) d ≡ run (idx + 1) infos (step idx info d)
    step-Writes :
        (idx : ℕ) (info : TestContractInfo) (d : Deployment A)
        → Writes idx d.contracts (step idx info d).contracts (written idx info)

  module _ (phase : Phase) where
    run-HasAccount :
        (infos : List TestContractInfo) (idx j : ℕ) (d : Deployment A)
        → HasAccount j d.contracts
        → HasAccount j (phase.run idx infos d).contracts
    run-HasAccount [] idx j d q = rw (phase.run-nil idx d) q
    run-HasAccount (info ∷ infos) idx j d q = rw (phase.run-cons idx info infos d) (
        run-HasAccount infos (idx + 1) j (phase.step idx info d)
          (Writes-HasAccount j (phase.step-Writes idx info d) q))

    run-sets :
        (infos : List TestContractInfo) (idx p : ℕ) (d : Deployment A) (info : TestContractInfo)
        → get_elem? infos p ≡ some info
        → phase.written (idx + p) info ≡ true
        → idx + p < length d.contracts
        → HasAccount (idx + p) (phase.run idx infos d).contracts
    run-sets [] idx p d info at w b = cc
    run-sets (first ∷ infos) idx zero d info at w b =
        let same : first ≡ info = cc in
        let here : idx + 0 ≡ idx = omega arith in
        rw (phase.run-cons idx first infos d, here)
          (run-HasAccount infos (idx + 1) idx (phase.step idx first d)
            (HasAccount-Writes (phase.step-Writes idx first d) (rw (same, ← here) w) (omega arith)))
    run-sets (first ∷ infos) idx (suc p) d info at w b =
        let there : idx + suc p ≡ idx + 1 + p = omega arith in
        rw (phase.run-cons idx first infos d, there)
          (run-sets infos (idx + 1) p (phase.step idx first d) info at (rw (← there) w)
            (rw (length-Writes (phase.step-Writes idx first d)) (omega arith)))

    length-run :
        (infos : List TestContractInfo) (idx : ℕ) (d : Deployment A)
        → length (phase.run idx infos d).contracts ≡ length d.contracts
    length-run [] idx d = rw (phase.run-nil idx d) refl
    length-run (info ∷ infos) idx d = rw (phase.run-cons idx info infos d) (
        length-run infos (idx + 1) (phase.step idx info d)
        ∙ length-Writes (phase.step-Writes idx info d))

  first : Phase
  unfolding first_phase
  first = record {
    run = first_phase h leader tcs targets;
    step = first_step;
    written = λ i info. is_needed h leader tcs targets i info && leader;
    run-nil = λ i d. refl;
    run-cons = λ i info infos d. refl;
    step-Writes = λ i info d. first_by (is_needed h leader tcs targets i info) leader i info d;
  }

  second : Phase
  unfolding second_phase
  second = record {
    run = second_phase h leader tcs targets;
    step = second_step;
    written = λ i info. is_needed h leader tcs targets i info && not leader;
    run-nil = λ i d. refl;
    run-cons = λ i info infos d. refl;
    step-Writes = λ i info d. second_by (is_needed h leader tcs targets i info) leader i info d;
  }

  -- The first phase of the leader sets every contract that is needed.
  pub first_phase-HasAccount :
      (infos : List TestContractInfo) (j : ℕ) (d : Deployment A) (info : TestContractInfo)
      → leader ≡ true
      → get_elem? infos j ≡ some info
      → is_needed h leader tcs targets j info ≡ true
      → j < length d.contracts
      → HasAccount j (first_phase h leader tcs targets 0 infos d).contracts
  unfolding first
  first_phase-HasAccount infos j d info l at needed below =
      let zero_add : 0 + j ≡ j = omega arith in
      subst (λ k. HasAccount k (first_phase h leader tcs targets 0 infos d).contracts) zero_add
        (run-sets first infos 0 j d info at (rw (zero_add, needed, l) refl) (omega arith))

  -- Both phases together set every contract that is needed, whoever the slave is.
  pub deploy_test_contracts-HasAccount :
      (infos : List TestContractInfo) (j : ℕ) (d : Deployment A) (info : TestContractInfo)
      → get_elem? infos j ≡ some info
      → is_needed h leader tcs targets j info ≡ true
      → j < length d.contracts
      → HasAccount j (deploy_test_contracts h leader tcs targets infos d).contracts
  unfolding first second deploy_test_contracts
  deploy_test_contracts-HasAccount infos j d info at needed below = elim (Bool-cases leader) [
    | inl l ↦
        run-HasAccount second infos 0 j (first_phase h leader tcs targets 0 infos d)
          (first_phase-HasAccount infos j d info l at needed below)
    | inr l ↦
        let zero_add : 0 + j ≡ j = omega arith in
        let after = first_phase h leader tcs targets 0 infos d in
        let kept = length-run first infos 0 d in
        subst (λ k. HasAccount k (second_phase h leader tcs targets 0 infos after).contracts)
          zero_add
          (run-sets second infos 0 j after info at (rw (zero_add, needed, l) refl)
            (rw kept (omega arith)))
  ]
