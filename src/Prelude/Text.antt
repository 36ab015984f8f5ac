-- ===== src/Prelude/Text.antt =====
-- Go strings: comparison, `strings.Split` and `strings.Join` at a comma, and `strconv.Atoi`.
use Prim.Native.Nat.{ℕ, ◌+◌, ◌*◌, ◌-◌, ◌^◌}
use Prim.Native.Char.{Char, code}
use Prim.Native.String.{String}
use mathlib.Core.Path.{◌≡◌, refl, ap, ◌∙◌}
use mathlib.Core.Bool.{Bool, true, false, ◌&&◌}
use mathlib.Core.List.{List, [], ◌∷◌}
use mathlib.Core.Option.{Option, none, some}
use mathlib.Core.Logic.{inl, inr}
use kaia_load_tester.Prelude.Tests.{◌==◌, if◌then◌else◌, leb, ltb, Bool-cases}
use kaia_load_tester.Prelude.Int.{ℤ, pos, sub_ℕ}
pub use text.Mathlib.Text.{◌==◌ as str_eq}
pub use text.Mathlib.TextEquality.{eq_iff as str_eq_iff}
pub use text.Mathlib.TextPositions.{eq_refl as str_eq_refl}

abbrev pub is_comma : Char → Bool
is_comma c = code c == b','

-- The first part gets one more character; a split has a first part.
abbrev pub add_front : Char → List String → List String
add_front c [] = String.◌∷◌ c String.[] ∷ []
add_front c (part ∷ parts) = String.◌∷◌ c part ∷ parts

abbrev pub split : String → List String
split String.[] = String.[] ∷ []
split (String.◌∷◌ c s) =
    let parts = split s in if is_comma c then String.[] ∷ parts else add_front c parts

abbrev pub append_text : String → String → String
append_text String.[] t = t
append_text (String.◌∷◌ c s) t = String.◌∷◌ c (append_text s t)

abbrev pub join : List String → String
join [] = String.[]
join (part ∷ []) = part
join (part ∷ next ∷ parts) = append_text part (append_text "," (join (next ∷ parts)))

abbrev pub has_comma : String → Bool
has_comma String.[] = false
has_comma (String.◌∷◌ c s) = if is_comma c then true else has_comma s

split-alone : (s : String) → has_comma s ≡ false → split s ≡ s ∷ []
split-alone String.[] h = refl
split-alone (String.◌∷◌ c s) h = elim (Bool-cases (is_comma c)) [
  | inl comma ↦ let q = rw comma at h in cc
  | inr other ↦ rw (other, split-alone s (rw other at h)) refl
]

split-front :
    (s t : String) → has_comma s ≡ false → split (append_text s (append_text "," t)) ≡ s ∷ split t
split-front String.[] t h = refl
split-front (String.◌∷◌ c s) t h = elim (Bool-cases (is_comma c)) [
  | inl comma ↦ let q = rw comma at h in cc
  | inr other ↦ rw (other, split-front s t (rw other at h)) refl
]

abbrev pub NoCommas : List String → Type 0
NoCommas [] = Unit
NoCommas (part ∷ parts) = (has_comma part ≡ false) × NoCommas parts

-- What was joined is what is split, if no part holds a comma and there is a part.
pub split-join :
    (part : String) (parts : List String)
    → NoCommas (part ∷ parts)
    → split (join (part ∷ parts)) ≡ part ∷ parts
split-join part [] h = split-alone part h.0
split-join part (next ∷ parts) h =
    split-front part (join (next ∷ parts)) h.0 ∙ ap (λ ps. part ∷ ps) (split-join next parts h.1)

-- Digits, read on from the number so far; any other character is an error.
abbrev pub digits : ℕ → String → Option ℕ
digits n String.[] = some n
digits n (String.◌∷◌ c s) =
    let rest = digits (n * 10 + (code c - b'0')) s in
    if leb b'0' (code c) && leb (code c) b'9' then rest else none

-- The digits that follow a sign: at least one.
abbrev pub unsigned_number : String → Option ℕ
unsigned_number String.[] = none
unsigned_number (String.◌∷◌ c s) = digits 0 (String.◌∷◌ c s)

-- `none` where the number does not fit in an int64.
abbrev pub fit : Bool → Option ℕ → Option ℤ
fit negative none = none
fit false (some n) = if ltb n (2 ^ 63) then some (pos n) else none
fit true (some n) = if leb n (2 ^ 63) then some (sub_ℕ 0 n) else none

abbrev pub atoi : String → Option ℤ
atoi String.[] = none
atoi (String.◌∷◌ c s) =
    if code c == b'-'
    then fit true (unsigned_number s)
    else (if code c == b'+'
        then fit false (unsigned_number s)
        else fit false (unsigned_number (String.◌∷◌ c s)))
