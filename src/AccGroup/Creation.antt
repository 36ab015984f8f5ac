-- ===== src/AccGroup/Creation.antt =====
-- The accounts that `CreateAccountsPerAccGrp` puts into the lists.
use mathlib.Core.List.{append_assoc, append-nil}
use kaia_load_tester.Prelude.{
  ℕ, zero, suc, ◌+◌, ◌≡◌, refl, sym, ap, subst, ◌∙◌, Bool, List, [], ◌∷◌, ◌++◌, length, inl, inr,
  String, str_eq, str_eq_iff, Bool-cases, length-append, get_or, set, replicate,
}
use kaia_load_tester.AccGroup.{
  AccGroup, new_acc_group, get_acc_list_by_name, unlock_for, acc_list_for_unsigned_tx,
  create_accounts, create_lists, create_accounts_per_acc_grp,
}
use kaia_load_tester.AccGroup.Laws.{Stands}

-- The loop unlocks the list just if it meets the name.
unlock_for-Stands {ℓ} :
    {A : Type ℓ} (tcs : List String) (g : AccGroup A)
    → (Stands "transferUnsignedTx" tcs
        → unlock_for tcs g ≡ get_acc_list_by_name acc_list_for_unsigned_tx g)
      × (¬ Stands "transferUnsignedTx" tcs → unlock_for tcs g ≡ [])
unfolding unlock_for
unlock_for-Stands [] g = ((λ h. absurd h), λ h. refl)
unlock_for-Stands (tc ∷ tcs) g =
    let (all, nobody) = unlock_for-Stands tcs g in
    elim (Bool-cases (str_eq tc "transferUnsignedTx")) [
      | inl same ↦
          rw same ((λ h. refl), λ h. absurd (h (inl ((str_eq_iff tc "transferUnsignedTx").0 same))))
      | inr other ↦ rw other (
        (λ h. elim h [
          | inl named ↦ let q = (str_eq_iff tc "transferUnsignedTx").1 named in cc
          | inr later ↦ all later
        ]),
        λ h. nobody (λ later. h (inr later)),
      )
    ]

module _ {ℓ} {A : Type ℓ} (new_account : ℕ → ℕ → A) where
  -- The accounts with the numbers from `i` on, and the lists of them from the list `t` on.
  abbrev pub made : ℕ → ℕ → ℕ → List A
  made t zero i = []
  made t (suc n) i = new_account t i ∷ made t n (i + 1)

  abbrev pub made_lists : ℕ → List ℕ → List (List A)
  made_lists t [] = []
  made_lists t (n ∷ ns) = made t n 0 ∷ made_lists (t + 1) ns

  set-middle :
      (front : List (List A)) (l v : List A) (back : List (List A))
      → set (front ++ l ∷ back) (length front) v ≡ front ++ v ∷ back
  set-middle [] l v back = refl
  set-middle (f ∷ front) l v back = ap (λ ls. f ∷ ls) (set-middle front l v back)

  get_or-middle :
      (front : List (List A)) (l : List A) (back : List (List A))
      → get_or (front ++ l ∷ back) (length front) [] ≡ l
  get_or-middle [] l back = refl
  get_or-middle (f ∷ front) l back = get_or-middle front l back

  create_accounts-made :
      (n i : ℕ) (front : List (List A)) (l : List A) (back : List (List A)) (g : AccGroup A)
      → g.acc_lists ≡ front ++ l ∷ back
      → (create_accounts new_account (length front) n i g).acc_lists
        ≡ front ++ (l ++ made (length front) n i) ∷ back
  unfolding create_accounts
  create_accounts-made zero i front l back g h = rw (append-nil l) h
  create_accounts-made (suc n) i front l back g h =
      create_accounts-made n (i + 1) front (l ++ new_account (length front) i ∷ []) back _
        (rw (h, get_or-middle front l back) (set-middle front l _ back))
      ∙ ap (λ (x : List A). front ++ x ∷ back)
          (append_assoc l (new_account (length front) i ∷ []) (made (length front) n (i + 1)))

  create_lists-made :
      (ns : List ℕ) (front : List (List A)) (g : AccGroup A)
      → g.acc_lists ≡ front ++ replicate (length ns) []
      → (create_lists new_account (length front) ns g).acc_lists
        ≡ front ++ made_lists (length front) ns
  unfolding create_lists
  create_lists-made [] front g h = h
  create_lists-made (n ∷ ns) front g h =
      let filled = made (length front) n 0 in
      let g' = create_accounts new_account (length front) n 0 g in
      let rest = replicate {A = List A} (length ns) [] in
      subst
        (λ k.
          (create_lists new_account k ns g').acc_lists ≡ (front ++ filled ∷ []) ++ made_lists k ns)
        (length-append front (filled ∷ []))
        (create_lists-made ns (front ++ filled ∷ []) g' (
          create_accounts-made n 0 front [] rest g h ∙ sym (append_assoc front (filled ∷ []) rest)))
      ∙ append_assoc front (filled ∷ []) (made_lists (length front + 1) ns)

  -- From a new group and a number for each of the six lists, each list holds as many accounts as
  -- asked for, made with the numbers from zero up. The accounts that are unlocked are all of the
  -- list for unsigned transactions if the test case of such transactions stands among the tasks,
  -- and none if it does not.
  pub create_accounts_per_acc_grp-made :
      (ns : List ℕ) (tcs : List String) (contains : Bool)
      → length ns ≡ 6
      → let result = create_accounts_per_acc_grp new_account ns tcs (new_acc_group contains) in
        (result.1.acc_lists ≡ made_lists 0 ns)
        × (Stands "transferUnsignedTx" tcs → result.0 ≡ get_or (made_lists 0 ns) 1 [])
        × (¬ Stands "transferUnsignedTx" tcs → result.0 ≡ [])
  unfolding create_accounts_per_acc_grp
  create_accounts_per_acc_grp-made ns tcs contains h =
      let made = create_lists new_account 0 ns (new_acc_group contains) in
      let lists =
        create_lists-made ns [] (new_acc_group contains)
          (ap (λ k. replicate {A = List A} k []) (sym h)) in
      let (all, nobody) = unlock_for-Stands tcs made in
      (
        lists,
        λ named.
            all named ∙ ap (λ (ls : List (List A)). get_or ls acc_list_for_unsigned_tx []) lists,
        nobody,
      )
