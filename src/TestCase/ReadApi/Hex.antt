-- ===== src/TestCase/ReadApi/Hex.antt =====
-- `strings.Contains(ret, "0x"+number.Text(16))`, on the codes of the characters.
use Prim.Native.Char.{code}
use kaia_load_tester.Prelude.{
  ℕ, zero, suc, ◌+◌, ◌/◌, ◌%◌, Bool, true, false, ◌&&◌, ◌||◌, List, [], ◌∷◌, ◌++◌, String,
  if◌then◌else◌, ◌==◌, ltb,
}

abbrev codes : String → List ℕ
codes String.[] = []
codes (String.◌∷◌ c s) = code c ∷ codes s

abbrev hex_digit : ℕ → ℕ
hex_digit d = if ltb d 10 then 48 + d else 87 + d

-- The digits of a number below sixteen to the power of `fuel`.
unfoldable pub hex_text : ℕ → ℕ → List ℕ
hex_text zero n = []
hex_text (suc fuel) n =
    let front = hex_text fuel (n / 16) in
    if ltb n 16 then hex_digit n ∷ [] else front ++ hex_digit (n % 16) ∷ []

abbrev starts_with : List ℕ → List ℕ → Bool
starts_with [] t = true
starts_with (c ∷ s) [] = false
starts_with (c ∷ s) (d ∷ t) = (c == d) && starts_with s t

abbrev contains : List ℕ → List ℕ → Bool
contains s [] = starts_with s []
contains s (d ∷ t) = starts_with s (d ∷ t) || contains s t

-- A block number has 64 bits at most, so 16 digits.
unfoldable pub names_block : String → ℕ → Bool
names_block ret number = contains (codes "0x" ++ hex_text 16 number) (codes ret)
