-- ===== src/AccGroup/Deploy/Laws.antt =====
-- The order of a deployment: what the leader does first, and what each slave does after that.
use mathlib.Core.List.{append_assoc, append-nil}
use kaia_load_tester.Prelude.{
  ℕ, ◌+◌, ◌≡◌, refl, sym, ap, ◌∙◌, inl, inr, Bool, true, false, List, [], ◌∷◌, ◌++◌, Bool-cases,
  if◌then◌else◌, String,
}
use kaia_load_tester.AccGroup.Deploy.{
  TestContractInfo, Event, charged, deployed, set_up, polled, charging, Deployment, Chain,
  is_needed, set_up_if, deploy_contract, first_phase, await_leader, charge_if, second_phase,
  deploy_test_contracts,
}

-- The events of the leader's preparation, and those of the second phase.
abbrev pub Prepares : Bool → Event → Type 0
Prepares leader (charged i) = leader ≡ true
Prepares leader (deployed i) = leader ≡ true
Prepares leader (set_up i) = leader ≡ true
Prepares leader (polled i n) = ⊥
Prepares leader (charging i) = ⊥

abbrev pub Charges : Bool → Event → Type 0
Charges leader (charged i) = ⊥
Charges leader (deployed i) = ⊥
Charges leader (set_up i) = ⊥
Charges leader (polled i n) = leader ≡ false
Charges leader (charging i) = Unit {0}

abbrev pub Every : (Event → Type 0) → List Event → Type 0
Every P [] = Unit {0}
Every P (x ∷ xs) = P x × Every P xs

-- A step that adds only events of one kind to the log.
abbrev pub Adds : {A : Type 0} → (Event → Type 0) → Deployment A → Deployment A → Type 0
Adds P d d' = (xs : List Event) × (d'.log ≡ d.log ++ xs) × Every P xs

Every-append :
    (P : Event → Type 0) (xs ys : List Event) → Every P xs → Every P ys → Every P (xs ++ ys)
Every-append P [] ys p q = q
Every-append P (x ∷ xs) ys (h, p) q = (h, Every-append P xs ys p q)

three : (x y z : Event) (l : List Event) → ((l ++ x ∷ []) ++ y ∷ []) ++ z ∷ [] ≡ l ++ x ∷ y ∷ z ∷ []
three x y z l = append_assoc (l ++ x ∷ []) (y ∷ []) (z ∷ []) ∙ append_assoc l (x ∷ []) (y ∷ z ∷ [])

module _ {A : Type 0} (P : Event → Type 0) where
  Adds-nothing : (d : Deployment A) → Adds P d d
  Adds-nothing d = ([], sym (append-nil d.log), tt)

  Adds-then : (a b c : Deployment A) → Adds P a b → Adds P b c → Adds P a c
  Adds-then a b c (xs, p, every) (ys, q, rest) = (
    xs ++ ys,
    q ∙ ap (λ (l : List Event). l ++ ys) p ∙ append_assoc a.log xs ys,
    Every-append P xs ys every rest,
  )

module _ {A : Type 0} (h : Chain A) (leader : Bool) (tcs targets : List String) where
  prepared :
      (idx : ℕ) (info : TestContractInfo) (d : Deployment A)
      → leader ≡ true
      → (setup there : Bool)
      → Adds (Prepares leader) d (
          set_up_if h leader tcs targets setup idx
            (deploy_contract h leader tcs targets idx there d))
  unfolding set_up_if deploy_contract
  prepared idx info d l false true = Adds-nothing _ d
  prepared idx info d l true true = (set_up idx ∷ [], refl, (l, tt))
  prepared idx info d l false false =
      (charged idx ∷ deployed idx ∷ [], append_assoc d.log _ _, (l, (l, tt)))
  prepared idx info d l true false = (
    charged idx ∷ deployed idx ∷ set_up idx ∷ [],
    three (charged idx) (deployed idx) (set_up idx) d.log,
    (l, (l, (l, tt))),
  )

  -- What each phase does for one contract.
  abbrev led : ℕ → TestContractInfo → Deployment A → Bool → Deployment A
  led idx info d leads =
      if leads
      then set_up_if h leader tcs targets info.has_setup_work idx
          (deploy_contract h leader tcs targets idx (h.is_deployed idx) d)
      else d

  abbrev first_of : ℕ → TestContractInfo → Deployment A → Deployment A
  first_of idx info d = if is_needed h leader tcs targets idx info then led idx info d leader else d

  abbrev second_of : ℕ → TestContractInfo → Deployment A → Deployment A
  second_of idx info d =
      if is_needed h leader tcs targets idx info
      then charge_if h leader tcs targets info.has_charging_work idx
          (await_leader h leader tcs targets leader idx d)
      else d

  led-Adds :
      (idx : ℕ) (info : TestContractInfo) (d : Deployment A) (leads : Bool)
      → leader ≡ leads
      → Adds (Prepares leader) d (led idx info d leads)
  led-Adds idx info d true l = prepared idx info d l info.has_setup_work (h.is_deployed idx)
  led-Adds idx info d false l = Adds-nothing (Prepares leader) d

  first_of-Adds :
      (idx : ℕ) (info : TestContractInfo) (d : Deployment A)
      → Adds (Prepares leader) d (first_of idx info d)
  first_of-Adds idx info d = elim (Bool-cases (is_needed h leader tcs targets idx info)) [
    | inl needed ↦ rw needed (led-Adds idx info d leader refl)
    | inr skipped ↦ rw skipped (Adds-nothing (Prepares leader) d)
  ]

  first_phase-Adds :
      (idx : ℕ) (infos : List TestContractInfo) (d : Deployment A)
      → Adds (Prepares leader) d (first_phase h leader tcs targets idx infos d)
  unfolding first_phase
  first_phase-Adds idx [] d = Adds-nothing (Prepares leader) d
  first_phase-Adds idx (info ∷ infos) d =
      Adds-then (Prepares leader) d (first_of idx info d)
        (first_phase h leader tcs targets (idx + 1) infos (first_of idx info d))
        (first_of-Adds idx info d) (first_phase-Adds (idx + 1) infos (first_of idx info d))

  waited :
      (idx : ℕ) (d : Deployment A) (charges leads : Bool)
      → leader ≡ leads
      → Adds (Charges leader) d (
          charge_if h leader tcs targets charges idx
            (await_leader h leader tcs targets leads idx d))
  unfolding charge_if await_leader
  waited idx d true true l = (charging idx ∷ [], refl, (tt, tt))
  waited idx d false true l = Adds-nothing (Charges leader) d
  waited idx d true false l =
      (polled idx _ ∷ charging idx ∷ [], append_assoc d.log _ _, (l, (tt, tt)))
  waited idx d false false l = (polled idx _ ∷ [], refl, (l, tt))

  second_of-Adds :
      (idx : ℕ) (info : TestContractInfo) (d : Deployment A)
      → Adds (Charges leader) d (second_of idx info d)
  second_of-Adds idx info d = elim (Bool-cases (is_needed h leader tcs targets idx info)) [
    | inl needed ↦ rw needed (waited idx d info.has_charging_work leader refl)
    | inr skipped ↦ rw skipped (Adds-nothing (Charges leader) d)
  ]

  second_phase-Adds :
      (idx : ℕ) (infos : List TestContractInfo) (d : Deployment A)
      → Adds (Charges leader) d (second_phase h leader tcs targets idx infos d)
  unfolding second_phase
  second_phase-Adds idx [] d = Adds-nothing (Charges leader) d
  second_phase-Adds idx (info ∷ infos) d =
      Adds-then (Charges leader) d (second_of idx info d)
        (second_phase h leader tcs targets (idx + 1) infos (second_of idx info d))
        (second_of-Adds idx info d) (second_phase-Adds (idx + 1) infos (second_of idx info d))

  -- What `DeployTestContracts` does falls into two parts. In the first there are only charges of
  -- deployers, deployments and setup work, and none of them unless the slave is the leader; in the
  -- second there is only charging work, and polls for the setup, and no polls if it is the leader.
  -- So all of a slave's own deployments and setup work come before its first charging work.
  pub deploy_test_contracts-ordered :
      (infos : List TestContractInfo) (d : Deployment A)
      → (xs : List Event) × (ys : List Event) × ((deploy_test_contracts h leader tcs targets infos
            d).log
          ≡ (d.log ++ xs) ++ ys)
        × Every (Prepares leader) xs
        × Every (Charges leader) ys
  unfolding deploy_test_contracts
  deploy_test_contracts-ordered infos d =
      let (xs, p, first) = first_phase-Adds 0 infos d in
      let (ys, q, second) =
        second_phase-Adds 0 infos (first_phase h leader tcs targets 0 infos d) in
      (xs, ys, q ∙ ap (λ (l : List Event). l ++ ys) p, first, second)
