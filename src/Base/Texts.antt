-- ===== src/Base/Texts.antt =====
-- Template literals: pieces joined, and numbers printed in decimal.
use Prim.Native.Nat.{ℕ, zero, suc, ◌+◌, ◌/◌, ◌%◌}
use Prim.Native.String
use Prim.Native.Char.{code}
use Prim.Native.String.{String}
use mathlib.Core.Bool.{Bool, ◌&&◌, ◌||◌, true, false}
use mathlib.Core.List.{List, [], ◌∷◌}
use project.Base.Tests.{ltb, leb, nat_eq, if◌then◌else◌}

unfoldable pub concat : List String → String
concat [] = ""
concat (s ∷ ss) = String.◌++◌ s (concat ss)

digit : ℕ → String
digit n = pick n ("0" ∷ "1" ∷ "2" ∷ "3" ∷ "4" ∷ "5" ∷ "6" ∷ "7" ∷ "8" ∷ "9" ∷ [])
  where
    pick : ℕ → List String → String
    pick i [] = ""
    pick zero (d ∷ ds) = d
    pick (suc i) (d ∷ ds) = pick i ds

digits : ℕ → ℕ → String → String
digits zero n rest = rest
digits (suc fuel) n rest = elim (ltb n 10) [
  | true ↦ String.◌++◌ (digit n) rest
  | false ↦ digits fuel (n / 10) (String.◌++◌ (digit (n % 10)) rest)
]

-- `String(n)`; a number has no more digits than it has units, so the fuel is enough.
unfoldable pub to_string : ℕ → String
unfolding digit digits
to_string n = digits (suc n) n ""

-- `s.length`: UTF-16 units, two for a character outside the basic plane.
unfoldable pub utf16_length : String → ℕ
utf16_length String.[] = 0
utf16_length (String.◌∷◌ c s) = (if ltb (code c) 65536 then 1 else 2) + utf16_length s

unfoldable pub between : ℕ → ℕ → ℕ → Bool
between lo hi n = leb lo n && leb n hi

-- The characters that `trim` removes.
unfoldable pub is_space : ℕ → Bool
unfolding between
is_space n =
    between 9 13 n
    || nat_eq n 32
    || nat_eq n 160
    || nat_eq n 5760
    || between 8192 8202 n
    || between 8232 8233 n
    || nat_eq n 8239
    || nat_eq n 8287
    || nat_eq n 12288
    || nat_eq n 65279

unfoldable pub trim_start : String → String
trim_start String.[] = ""
trim_start (String.◌∷◌ c s) =
    let rest = trim_start s in if is_space (code c) then rest else String.◌∷◌ c s

unfoldable pub drop_space : ℕ → String → String → String
drop_space n kept String.[] = if is_space n then "" else kept
drop_space n kept (String.◌∷◌ c s) = kept

unfoldable pub trim_end : String → String
unfolding drop_space
trim_end String.[] = ""
trim_end (String.◌∷◌ c s) = let rest = trim_end s in drop_space (code c) (String.◌∷◌ c rest) rest

-- `s.trim()`.
unfoldable pub trim : String → String
unfolding trim_start trim_end is_space drop_space
trim s = trim_end (trim_start s)
