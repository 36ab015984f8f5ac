-- ===== src/Slave/Flags/Parts.antt =====
-- The parts of `--tc` and `--weights` hold no commas, and are read as they were written.
use Prim.Native.Char.{code}
use mathlib.Core.List.{append_assoc, append-nil}
use kaia_load_tester.Prelude.{
  ℕ, ◌+◌, ◌-◌, ◌*◌, ◌≡◌, refl, sym, ◌∙◌, inl, inr, Bool, true, false, ◌&&◌, Option, none, some,
  List, [], ◌∷◌, ◌++◌, String, str_eq, str_eq_iff, if◌then◌else◌, ◌==◌, leb, has_comma, is_comma,
  NoCommas, digits, unsigned_number, fit, atoi, ℤ, arith, Bool-cases,
}
use kaia_load_tester.TestCase.TcList.{ExtendedTask, tc_list, find_task, find_tc}
use kaia_load_tester.Slave.Flags.{known_tcs, parse_weights}
use kaia_load_tester.Slave.Flags.Laws.{AllKnown}

-- The parts are numbers, these.
abbrev pub AllRead : List String → List ℤ → Type 0
AllRead [] [] = Unit
AllRead (part ∷ parts) (z ∷ zs) = (atoi part ≡ some z) × AllRead parts zs
AllRead _ _ = ⊥

abbrev no_commas : List (String × ExtendedTask) → Bool
no_commas [] = true
no_commas ((key, entry) ∷ rest) = if has_comma key then false else no_commas rest

tc_list-no_commas : no_commas tc_list ≡ true
tc_list-no_commas = refl

find_task-has_comma :
    (entries : List (String × ExtendedTask)) (name : String) (entry : ExtendedTask)
    → no_commas entries ≡ true
    → find_task entries name ≡ some entry
    → has_comma name ≡ false
find_task-has_comma [] name entry h e = cc
find_task-has_comma ((key, first) ∷ rest) name entry h e = elim (Bool-cases (has_comma key)) [
  | inl comma ↦ let q = rw comma at h in cc
  | inr clean ↦ elim (Bool-cases (str_eq name key)) [
    | inl same ↦ rw ((str_eq_iff name key).0 same) clean
    | inr other ↦ find_task-has_comma rest name entry (rw clean at h) (rw other at e)
  ]
]

pub AllKnown-NoCommas : (names : List String) → AllKnown names → NoCommas names
unfolding find_tc
AllKnown-NoCommas [] known = tt
AllKnown-NoCommas (name ∷ names) ((entry, e), known) =
    (find_task-has_comma tc_list name entry tc_list-no_commas e, AllKnown-NoCommas names known)

pub known_tcs-AllKnown_self : (names : List String) → AllKnown names → known_tcs names ≡ names
unfolding known_tcs
known_tcs-AllKnown_self [] known = refl
known_tcs-AllKnown_self (name ∷ names) ((entry, e), known) =
    rw (e, known_tcs-AllKnown_self names known) refl

digits-has_comma : (n : ℕ) (s : String) (m : ℕ) → digits n s ≡ some m → has_comma s ≡ false
digits-has_comma n String.[] m h = refl
digits-has_comma n (String.◌∷◌ c s) m h =
    elim (Bool-cases (leb b'0' (code c) && leb (code c) b'9')) [
      | inl digit ↦
          let not_comma : is_comma c ≡ false = ground arith in
          rw not_comma (digits-has_comma (n * 10 + (code c - b'0')) s m (rw digit at h))
      | inr other ↦ let q = rw other at h in cc
    ]

fit-some :
    (negative : Bool) (o : Option ℕ) (z : ℤ) → fit negative o ≡ some z → (n : ℕ) × (o ≡ some n)
fit-some negative none z h = cc
fit-some negative (some n) z h = (n, refl)

unsigned-has_comma : (s : String) (n : ℕ) → unsigned_number s ≡ some n → has_comma s ≡ false
unsigned-has_comma String.[] n h = refl
unsigned-has_comma (String.◌∷◌ c s) n h = digits-has_comma 0 (String.◌∷◌ c s) n h

atoi-has_comma : (s : String) (z : ℤ) → atoi s ≡ some z → has_comma s ≡ false
atoi-has_comma String.[] z h = refl
atoi-has_comma (String.◌∷◌ c s) z h = elim (Bool-cases (code c == b'-')) [
  | inl minus ↦
      let (n, e) = fit-some true (unsigned_number s) z (rw minus at h) in
      let not_comma : is_comma c ≡ false = ground arith in rw not_comma (unsigned-has_comma s n e)
  | inr other ↦ elim (Bool-cases (code c == b'+')) [
    | inl plus ↦
        let (n, e) = fit-some false (unsigned_number s) z (rw (other, plus) at h) in
        let not_comma : is_comma c ≡ false = ground arith in rw not_comma (unsigned-has_comma s n e)
    | inr digit ↦
        let (n, e) = fit-some false (unsigned_number (String.◌∷◌ c s)) z (rw (other, digit) at h) in
        unsigned-has_comma (String.◌∷◌ c s) n e
  ]
]

pub AllRead-NoCommas : (parts : List String) (zs : List ℤ) → AllRead parts zs → NoCommas parts
AllRead-NoCommas [] [] read = tt
AllRead-NoCommas [] (z ∷ zs) read = absurd read
AllRead-NoCommas (part ∷ parts) [] read = absurd read
AllRead-NoCommas (part ∷ parts) (z ∷ zs) (e, read) =
    (atoi-has_comma part z e, AllRead-NoCommas parts zs read)

pub parse_weights-AllRead :
    (parts : List String) (zs front : List ℤ)
    → AllRead parts zs
    → parse_weights front parts ≡ front ++ zs
unfolding parse_weights
parse_weights-AllRead [] [] front read = sym (append-nil front)
parse_weights-AllRead [] (z ∷ zs) front read = absurd read
parse_weights-AllRead (part ∷ parts) [] front read = absurd read
parse_weights-AllRead (part ∷ parts) (z ∷ zs) front (e, read) =
    rw (e, parse_weights)
      (parse_weights-AllRead parts zs (front ++ z ∷ []) read ∙ append_assoc front (z ∷ []) zs)
