-- ===== src/Slave/Flags/Laws.antt =====
-- What a configuration from the flags satisfies, and that the flags say which tasks run.
use kaia_load_tester.Prelude.{
  ℕ, suc, ◌<◌, ◌≤◌, ◌≡◌, ◌≢◌, refl, subst, ◌⊎◌, inl, inr, true, false, ◌&&◌, ◌||◌, some, List, [],
  ◌∷◌, String, str_eq, str_eq_iff, ◌==◌, length, split, ℤ, pos, negsuc, ltb_ℤ, leb_ℤ, arith,
  Bool-cases, Option-cases,
}
use kaia_load_tester.AccGroup.{contains_any_in_list, contains_in_list}
use kaia_load_tester.AccGroup.Laws.{contains_in_list-Stands}
use kaia_load_tester.TestCase.Requests.Bidding.{AllTargets, listed_target}
use kaia_load_tester.TestCase.TcList.{ExtendedTask, find_tc}
use kaia_load_tester.Slave.Flags.{
  Flags, Config, known_tcs, parse_weights, auction_tcs, matching, config_of, check_tcs,
  read_targets, set_configs_from_flag, known_targets, target_tx_types,
}

abbrev pub AllKnown : List String → Type 0
AllKnown [] = Unit
AllKnown (name ∷ names) = ((task : ExtendedTask) × (find_tc name ≡ some task)) × AllKnown names

-- What the checks promise of a configuration.
pub record IsValid (f : Flags) (c : Config) : Type 0 where
  pub keyed : c.rich_wallet_private_key ≢ ""
  pub percent : (p : ℕ) × (c.active_user_percent ≡ pos p) × (0 < p) × (p ≤ 100)
  pub named : 0 < length c.tc_name_list
  pub known : AllKnown c.tc_name_list
  pub weighted : (c.tc_weights ≡ []) ⊎ (length c.tc_weights ≡ length c.tc_name_list)
  pub staffed :
      contains_any_in_list c.tc_name_list auction_tcs ≡ true
      → ltb_ℤ c.n_user_for_signed f.max_rps ≡ false
  pub targeted : AllTargets c.auction_target_tx_type_list

known_tcs-AllKnown : (names : List String) → AllKnown (known_tcs names)
unfolding known_tcs
known_tcs-AllKnown [] = tt
known_tcs-AllKnown (name ∷ names) = elim (Option-cases (find_tc name)) [
  | inl e ↦ rw e (known_tcs-AllKnown names)
  | inr (task, e) ↦ rw e ((task, e), known_tcs-AllKnown names)
]

known_targets-AllTargets : (keys : List String) → AllTargets (known_targets keys)
unfolding known_targets
known_targets-AllTargets [] = tt
known_targets-AllTargets (key ∷ keys) = elim (Bool-cases (contains_in_list target_tx_types key)) [
  | inl known ↦ rw known (
    listed_target key ((contains_in_list-Stands target_tx_types key).0 known),
    known_targets-AllTargets keys,
  )
  | inr unknown ↦ rw unknown (known_targets-AllTargets keys)
]

matching-weighted :
    (names : List String) (weights : List ℤ)
    → (matching names weights ≡ []) ⊎ (length (matching names weights) ≡ length names)
matching-weighted names [] = inl refl
matching-weighted names (z ∷ zs) = elim (Bool-cases (suc (length zs) == length names)) [
  | inl same ↦ inr (rw same (ground arith))
  | inr other ↦
      let some_weight : (suc (length zs) == 0) ≡ false = ground arith in
      inl (rw (some_weight, other) refl)
]

percent_range :
    (a : ℤ)
    → (ltb_ℤ (pos 100) a || leb_ℤ a (pos 0)) ≡ false
    → (p : ℕ) × (a ≡ pos p) × (0 < p) × (p ≤ 100)
percent_range (pos n) h = (n, refl, ground arith, ground arith)
percent_range (negsuc n) h = absurd (ground arith)

check_tcs-IsValid :
    (f : Flags) (names targets : List String) (c : Config)
    → AllKnown names
    → AllTargets targets
    → f.key ≢ ""
    → (p : ℕ) × (f.active_user_percent ≡ pos p) × (0 < p) × (p ≤ 100)
    → check_tcs f names targets ≡ some c
    → IsValid f c
unfolding check_tcs
check_tcs-IsValid f [] targets c known targeted keyed percent e = cc
check_tcs-IsValid f (name ∷ names) targets c known targeted keyed percent e =
    let short = contains_any_in_list (name ∷ names) auction_tcs && ltb_ℤ f.vusigned f.max_rps in
    elim (Bool-cases short) [
      | inl none_left ↦ let q = rw none_left at e in cc
      | inr kept ↦
          let made : config_of f (name ∷ names) targets ≡ c = let q = rw kept at e in cc in
          subst (IsValid f) made (record {
            keyed = keyed;
            percent = percent;
            named = omega arith;
            known = known;
            weighted = matching-weighted (name ∷ names) (parse_weights [] (split f.weights));
            staffed = λ auction. rw auction at kept;
            targeted = targeted;
          })
    ]

read_targets-IsValid :
    (f : Flags) (names : List String) (c : Config)
    → AllKnown names
    → f.key ≢ ""
    → (p : ℕ) × (f.active_user_percent ≡ pos p) × (0 < p) × (p ≤ 100)
    → read_targets f names ≡ some c
    → IsValid f c
unfolding read_targets
read_targets-IsValid f names c known keyed percent e =
    elim (Bool-cases (contains_any_in_list names auction_tcs)) [
      | inl auction ↦ elim (Bool-cases (str_eq f.auction_target_tx_type_list "")) [
        | inl empty ↦ let q = rw (auction, empty) at e in cc
        | inr given ↦
            check_tcs-IsValid f names (known_targets (split f.auction_target_tx_type_list)) c known
              (known_targets-AllTargets (split f.auction_target_tx_type_list)) keyed percent
              (rw (auction, given) at e)
      ]
      | inr plain ↦ check_tcs-IsValid f names [] c known tt keyed percent (rw plain at e)
    ]

-- If the flags are accepted, the configuration has a key, a percentage from 1 to 100, at least one
-- test case and only known ones, no weights or one for each of them, and, with an auction among
-- them, at least as many accounts for signed transactions as requests a second; and each of its
-- target types names a target.
pub set_configs_from_flag-IsValid :
    (f : Flags) {c : Config} → set_configs_from_flag f ≡ some c → IsValid f c
unfolding set_configs_from_flag
set_configs_from_flag-IsValid f {c} e = elim (Bool-cases (str_eq f.key "")) [
  | inl empty ↦ let q = rw empty at e in cc
  | inr given ↦
      let out = ltb_ℤ (pos 100) f.active_user_percent || leb_ℤ f.active_user_percent (pos 0) in
      elim (Bool-cases out) [
        | inl bad ↦ let q = rw (given, bad) at e in cc
        | inr good ↦
            read_targets-IsValid f (known_tcs (split f.tc)) c (known_tcs-AllKnown (split f.tc))
              (λ same. let q = (str_eq_iff f.key "").1 same in cc)
              (percent_range f.active_user_percent good) (rw (given, good) at e)
      ]
]
