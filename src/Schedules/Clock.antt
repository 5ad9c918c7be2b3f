-- ===== src/Schedules/Clock.antt =====
-- packages/contracts/src/schedule.ts: the time of day as the dashboard and the hub write it.
use Prim.Native.Char.{code}
use project.Base.{
  ==_iff, Bool, Bool-cases, List, Option, String, [], ap, arith, concat, eq_option, eq_string, eq_ℕ,
  if◌then◌else◌, inl, inr, leb, ltb, none, option_eq, option_eq_iff, refl, some, suc, to_string,
  trim, true, zero, ℕ, ◌%◌, ◌&&◌, ◌*◌, ◌+◌, ◌-◌, ◌/◌, ◌<◌, ◌==◌, ◌||◌, ◌∙◌, ◌∷◌, ◌≡◌,
}
use project.Schedules.Editing.{minutes_per_day}

-- `s.padStart(2, '0')` of a number's text.
abbrev pad2 : ℕ → String
pad2 n = if ltb n 10 then concat ("0" ∷ to_string n ∷ []) else to_string n

unfoldable pub format_start_minute : ℕ → String
unfolding to_string concat
format_start_minute n = concat (pad2 (n / 60) ∷ ":" ∷ pad2 (n % 60) ∷ [])

-- `\d`.
abbrev is_digit : ℕ → Bool
is_digit c = leb 48 c && leb c 57

abbrev in_day : ℕ → ℕ → Option ℕ
in_day hours minutes = if ltb 23 hours || ltb 59 minutes then none else some (hours * 60 + minutes)

-- The match of `^(\d{1,2}):(\d{2})$`, on the codes of the characters.
abbrev matched : List ℕ → Option ℕ
matched (a ∷ b ∷ c ∷ d ∷ e ∷ []) =
    if is_digit a && (is_digit b && (c == 58 && (is_digit d && is_digit e)))
    then in_day ((a - 48) * 10 + (b - 48)) ((d - 48) * 10 + (e - 48))
    else none
matched (a ∷ b ∷ c ∷ d ∷ []) =
    if is_digit a && (b == 58 && (is_digit c && is_digit d))
    then in_day (a - 48) ((c - 48) * 10 + (d - 48))
    else none
matched _ = none

unfoldable pub codes : String → List ℕ
codes String.[] = []
codes (String.◌∷◌ c s) = code c ∷ codes s

unfoldable pub parse_start_minute : String → Option ℕ
unfolding codes trim
parse_start_minute s = matched (codes (trim s))

-- Whether a minute is read back, and whether all below a bound pass a test.
is_read_back : ℕ → Bool
unfolding parse_start_minute format_start_minute
is_read_back n = option_eq (parse_start_minute (format_start_minute n)) (some n)

all_below : ℕ → (ℕ → Bool) → Bool
all_below zero p = true
all_below (suc n) p = p n && all_below n p

every_minute : all_below minutes_per_day is_read_back ≡ true
unfolding all_below is_read_back parse_start_minute format_start_minute codes trim to_string concat
every_minute = refl

all_below_lem : (k : ℕ) (p : ℕ → Bool) → all_below k p ≡ true → (n : ℕ) → n < k → p n ≡ true
unfolding all_below
all_below_lem zero p h n lt = absurd (omega arith)
all_below_lem (suc k) p h n lt = elim (Bool-cases (n == k)) [
  | inl e ↦ ap p ((==_iff n k).0 e) ∙ ground (arith, h)
  | inr e ↦ all_below_lem k p (ground (arith, h)) n (ground (arith, ==_iff n k))
]

-- Every minute of a day is read back from the text that is printed for it.
parse_start_minute-format_start_minute :
    (n : ℕ) → n < minutes_per_day → parse_start_minute (format_start_minute n) ≡ some n
parse_start_minute-format_start_minute n lt =
    (option_eq_iff (parse_start_minute (format_start_minute n)) (some n)).0
      (unfold is_read_back in all_below_lem minutes_per_day is_read_back every_minute n lt)
