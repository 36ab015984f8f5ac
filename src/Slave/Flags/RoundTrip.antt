-- ===== src/Slave/Flags/RoundTrip.antt =====
-- Names and weights that are written into the flags are those of the tasks that run.
use mathlib.Core.List.{append_assoc}
use kaia_load_tester.Prelude.{
  suc, ◌+◌, ◌≡◌, refl, sym, ap, ◌∙◌, subst, inl, inr, true, ◌&&◌, ◌||◌, some, List, [], ◌∷◌, ◌++◌,
  String, str_eq, ◌==◌, ==_iff, ltb, length, length-append, split, join, split-join, ℤ, pos, ltb_ℤ,
  leb_ℤ, arith, Bool-cases,
}
use kaia_load_tester.AccGroup.{contains_any_in_list}
use kaia_load_tester.TestCase.TcList.{ExtendedTask, find_tc}
use kaia_load_tester.Slave.Flags.{
  Flags, Config, known_tcs, known_targets, parse_weights, auction_tcs, matching, config_of,
  check_tcs, read_targets, set_configs_from_flag, weight_at, tasks_from, get_extended_tasks,
}
use kaia_load_tester.Slave.Flags.Laws.{AllKnown}
use kaia_load_tester.Slave.Flags.Parts.{
  AllRead, AllKnown-NoCommas, known_tcs-AllKnown_self, AllRead-NoCommas, parse_weights-AllRead,
}

-- The tasks are those of the list under these names, with these weights, in this order.
abbrev pub Chosen : List ℤ → List String → List ExtendedTask → Type 0
Chosen [] [] [] = Unit
Chosen (z ∷ zs) (name ∷ names) (t ∷ tasks) =
    ((entry : ExtendedTask) × (find_tc name ≡ some entry) × (t ≡ record entry { weight = z }))
    × Chosen zs names tasks
Chosen _ _ _ = ⊥

-- What an accepted configuration takes from the flags.
check_tcs-fields :
    (f : Flags) (names targets : List String) (c : Config)
    → check_tcs f names targets ≡ some c
    → (c.tc_name_list ≡ names)
      × (c.tc_weights ≡ matching names (parse_weights [] (split f.weights)))
unfolding check_tcs
check_tcs-fields f [] targets c e = cc
check_tcs-fields f (name ∷ names) targets c e =
    elim (Bool-cases
      (contains_any_in_list (name ∷ names) auction_tcs && ltb_ℤ f.vusigned f.max_rps)) [
        | inl none_left ↦ let q = rw none_left at e in cc
        | inr kept ↦
            let made : config_of f (name ∷ names) targets ≡ c = let q = rw kept at e in cc in
            (
              ap (λ (x : Config). x.tc_name_list) (sym made),
              ap (λ (x : Config). x.tc_weights) (sym made),
            )
      ]

set_configs_from_flag-fields :
    (f : Flags) (c : Config)
    → set_configs_from_flag f ≡ some c
    → (c.tc_name_list ≡ known_tcs (split f.tc))
      × (c.tc_weights ≡ matching (known_tcs (split f.tc)) (parse_weights [] (split f.weights)))
unfolding set_configs_from_flag read_targets
set_configs_from_flag-fields f c e =
    let names = known_tcs (split f.tc) in
    let out = ltb_ℤ (pos 100) f.active_user_percent || leb_ℤ f.active_user_percent (pos 0) in
    elim (Bool-cases (str_eq f.key "")) [
      | inl empty ↦ let q = rw empty at e in cc
      | inr given ↦ elim (Bool-cases out) [
        | inl bad ↦ let q = rw (given, bad) at e in cc
        | inr good ↦ elim (Bool-cases (contains_any_in_list names auction_tcs)) [
          | inl auction ↦ elim (Bool-cases (str_eq f.auction_target_tx_type_list "")) [
            | inl none_given ↦ let q = rw (given, good, auction, none_given) at e in cc
            | inr targets ↦
                check_tcs-fields f names (known_targets (split f.auction_target_tx_type_list)) c
                  (rw (given, good, auction, targets) at e)
          ]
          | inr plain ↦ check_tcs-fields f names [] c (rw (given, good, plain) at e)
        ]
      ]
    ]

matching-same :
    (names : List String) (zs : List ℤ) → length zs ≡ length names → matching names zs ≡ zs
matching-same names zs same =
    let t = (==_iff (length zs) (length names)).1 same in
    elim (Bool-cases (length zs == 0)) [ inl e ↦ rw (t, e) refl | inr n ↦ rw (t, n) refl ]

weight_at-append :
    (front : List ℤ) (z : ℤ) (zs : List ℤ) (usual : ℤ)
    → weight_at (front ++ z ∷ zs) (length front) usual ≡ z
weight_at-append [] z zs usual =
    let below : ltb 0 (suc (length zs)) ≡ true = ground arith in rw below refl
weight_at-append (y ∷ front) z zs usual =
    let step : ltb (suc (length front)) (suc (length (front ++ z ∷ zs)))
        ≡ ltb (length front) (length (front ++ z ∷ zs)) =
      ground arith in
    rw step (weight_at-append front z zs usual)

tasks_from-Chosen :
    (names : List String) (front zs : List ℤ)
    → AllKnown names
    → length zs ≡ length names
    → Chosen zs names (tasks_from (front ++ zs) (length front) names)
unfolding tasks_from
tasks_from-Chosen [] front [] known same = tt
tasks_from-Chosen [] front (z ∷ zs) known same = absurd (omega arith)
tasks_from-Chosen (name ∷ names) front [] known same = absurd (omega arith)
tasks_from-Chosen (name ∷ names) front (z ∷ zs) ((entry, e), known) same =
    let longer : length (front ++ z ∷ []) ≡ length front + 1 = length-append front (z ∷ []) in
    let later : Chosen zs names (tasks_from (front ++ z ∷ zs) (length front + 1) names) =
      subst (λ ws. Chosen zs names (tasks_from ws (length front + 1) names))
        (append_assoc front (z ∷ []) zs)
        (subst (λ k. Chosen zs names (tasks_from ((front ++ z ∷ []) ++ zs) k names)) longer
          (tasks_from-Chosen names (front ++ z ∷ []) zs known (omega arith))) in
    rw (e, tasks_from)
      (
        (
          entry,
          e,
          ap (λ (w : ℤ). record entry { weight = w }) (weight_at-append front z zs entry.weight),
        ),
        later,
      )

-- If known test cases, joined by commas, are given as `--tc` and as many numbers as `--weights`,
-- and the flags are accepted, then the tasks are the entries of the list under these names, in this
-- order, with these weights.
pub get_extended_tasks-Chosen :
    (f : Flags) {c : Config} (name part : String) (names parts : List String) (zs : List ℤ)
    → set_configs_from_flag f ≡ some c
    → AllKnown (name ∷ names)
    → f.tc ≡ join (name ∷ names)
    → f.weights ≡ join (part ∷ parts)
    → AllRead (part ∷ parts) zs
    → length zs ≡ length (name ∷ names)
    → Chosen zs (name ∷ names) (get_extended_tasks c)
unfolding get_extended_tasks
get_extended_tasks-Chosen f {c} name part names parts zs e known tc weights read same =
    let (listed, weighed) = set_configs_from_flag-fields f c e in
    let split_tc : split f.tc ≡ name ∷ names =
      rw tc (split-join name names (AllKnown-NoCommas (name ∷ names) known)) in
    let split_weights : split f.weights ≡ part ∷ parts =
      rw weights (split-join part parts (AllRead-NoCommas (part ∷ parts) zs read)) in
    let all_names : c.tc_name_list ≡ name ∷ names =
      listed ∙ ap known_tcs split_tc ∙ known_tcs-AllKnown_self (name ∷ names) known in
    let all_weights : c.tc_weights ≡ zs =
      weighed
      ∙ ap (λ (ns : List String). matching ns (parse_weights [] (split f.weights)))
          (ap known_tcs split_tc ∙ known_tcs-AllKnown_self (name ∷ names) known)
      ∙ ap (λ (ps : List String). matching (name ∷ names) (parse_weights [] ps)) split_weights
      ∙ ap (matching (name ∷ names)) (parse_weights-AllRead (part ∷ parts) zs [] read)
      ∙ matching-same (name ∷ names) zs same in
    rw (all_names, all_weights) (tasks_from-Chosen (name ∷ names) [] zs known same)
