-- ===== src/Dashboard/AgentCommandQuoted.antt =====
-- What a shell makes of the quoted text.
use Prim.Native.String
use Prim.Native.Char.{Char, code}
use text.Mathlib.TextLemmas.{cons-append}
use project.Base.{
  Bool, Bool-cases, Option, String, ap, arith, eq_option, eq_string, eq_ℕ, false, if◌then◌else◌,
  inl, inr, leb, none, not, refl, some, true, ℕ, ◌&&◌, ◌==◌, ◌||◌, ◌∙◌, ◌≡◌,
}
use project.Dashboard.AgentCommand.{Shell, all_codes, bash, escape, powershell, quote}

-- Where a shell is in a word of single-quoted pieces and escaped characters.
pub data Reading : Type 0 where
  outside inside escaped : Reading

abbrev with_char : Char → Option String → Option String
with_char c none = none
with_char c (some s) = some (String.◌∷◌ c s)

-- The word that bash reads: all is literal between quotes, a backslash outside them makes the next
-- character literal, and any other character outside them is left to the shell, here an error.
unfoldable pub read_bash : Reading → String → Option String
read_bash outside String.[] = some ""
read_bash inside String.[] = none
read_bash escaped String.[] = none
read_bash outside (String.◌∷◌ c s) =
    let quoted = read_bash inside s in
    let literal = read_bash escaped s in
    if code c == 39 then quoted else if code c == 92 then literal else none
read_bash inside (String.◌∷◌ c s) =
    let rest = read_bash outside s in
    let more = read_bash inside s in if code c == 39 then rest else with_char c more
read_bash escaped (String.◌∷◌ c s) = with_char c (read_bash outside s)

-- The typographic single quotes, which PowerShell takes for single quotes.
abbrev pub is_curly : ℕ → Bool
is_curly n = leb 8216 n && leb n 8219

-- The word that PowerShell reads: two quotes between quotes are one.
unfoldable pub read_powershell : Reading → String → Option String
read_powershell outside String.[] = none
read_powershell inside String.[] = none
read_powershell escaped String.[] = some ""
read_powershell outside (String.◌∷◌ c s) =
    let quoted = read_powershell inside s in
    if code c == 39 || is_curly (code c) then quoted else none
read_powershell inside (String.◌∷◌ c s) =
    let rest = read_powershell escaped s in
    let more = read_powershell inside s in
    if code c == 39 || is_curly (code c) then rest else with_char c more
read_powershell escaped (String.◌∷◌ c s) =
    let more = read_powershell inside s in
    if code c == 39 || is_curly (code c) then with_char c more else none

-- Whether a text has none of the quotes that are not escaped.
unfoldable pub is_plain : Shell → String → Bool
is_plain powershell v = all_codes (λ n. not (is_curly n)) v
is_plain bash v = true

unfoldable pub read_word : Shell → String → Option String
unfolding read_bash read_powershell
read_word powershell s = read_powershell outside s
read_word bash s = read_bash outside s

module _ (c : Char) where
  cons2-append :
      (d : Char) (x y : String)
      → String.◌++◌ (String.◌∷◌ c (String.◌∷◌ d x)) y
        ≡ String.◌∷◌ c (String.◌∷◌ d (String.◌++◌ x y))
  cons2-append d x y =
      cons-append c (String.◌∷◌ d x) y ∙ ap (λ t. String.◌∷◌ c t) (cons-append d x y)

  cons4-append :
      (d e f : Char) (x y : String)
      → String.◌++◌ (String.◌∷◌ c (String.◌∷◌ d (String.◌∷◌ e (String.◌∷◌ f x)))) y
        ≡ String.◌∷◌ c (String.◌∷◌ d (String.◌∷◌ e (String.◌∷◌ f (String.◌++◌ x y))))
  cons4-append d e f x y =
      cons2-append d (String.◌∷◌ e (String.◌∷◌ f x)) y
      ∙ ap (λ t. String.◌∷◌ c (String.◌∷◌ d t))
          (cons-append e (String.◌∷◌ f x) y ∙ ap (λ t. String.◌∷◌ e t) (cons-append f x y))

  bash_quote :
      (x : String)
      → (code c == 39) ≡ true
      → read_bash inside (String.◌∷◌ c (String.◌∷◌ "\\" (String.◌∷◌ c (String.◌∷◌ c x))))
        ≡ with_char c (read_bash inside x)
  unfolding read_bash
  bash_quote x e = rw e refl

  bash_other :
      (x : String)
      → (code c == 39) ≡ false
      → read_bash inside (String.◌∷◌ c x) ≡ with_char c (read_bash inside x)
  unfolding read_bash
  bash_other x e = rw e refl

  powershell_quote :
      (x : String)
      → (code c == 39) ≡ true
      → read_powershell inside (String.◌∷◌ c (String.◌∷◌ c x))
        ≡ with_char c (read_powershell inside x)
  unfolding read_powershell
  powershell_quote x e = rw e refl

  powershell_other :
      (x : String)
      → (code c == 39) ≡ false
      → is_curly (code c) ≡ false
      → read_powershell inside (String.◌∷◌ c x) ≡ with_char c (read_powershell inside x)
  unfolding read_powershell
  powershell_other x e f = rw (e, f) refl

bash_inside : (v : String) → read_bash inside (String.◌++◌ (escape bash v) "'") ≡ some v
unfolding read_bash escape
bash_inside String.[] = refl
bash_inside (String.◌∷◌ c v) = elim (Bool-cases (code c == 39)) [
  | inl e ↦
      ap
        (λ b. read_bash inside (
          String.◌++◌
            (if b
              then String.◌∷◌ c (String.◌∷◌ "\\" (String.◌∷◌ c (String.◌∷◌ c (escape bash v))))
              else String.◌∷◌ c (escape bash v))
            "'"))
        e
      ∙ ap (read_bash inside) (cons4-append c "\\" c c (escape bash v) "'")
      ∙ bash_quote c (String.◌++◌ (escape bash v) "'") e
      ∙ ap (with_char c) (bash_inside v)
  | inr e ↦
      ap
        (λ b. read_bash inside (
          String.◌++◌
            (if b
              then String.◌∷◌ c (String.◌∷◌ "\\" (String.◌∷◌ c (String.◌∷◌ c (escape bash v))))
              else String.◌∷◌ c (escape bash v))
            "'"))
        e
      ∙ ap (read_bash inside) (cons-append c (escape bash v) "'")
      ∙ bash_other c (String.◌++◌ (escape bash v) "'") e
      ∙ ap (with_char c) (bash_inside v)
]

powershell_inside :
    (v : String)
    → all_codes (λ n. not (is_curly n)) v ≡ true
    → read_powershell inside (String.◌++◌ (escape powershell v) "'") ≡ some v
unfolding read_powershell escape all_codes
powershell_inside String.[] plain = refl
powershell_inside (String.◌∷◌ c v) plain = elim (Bool-cases (code c == 39)) [
  | inl e ↦
      ap
        (λ b. read_powershell inside (
          String.◌++◌
            (if b
              then String.◌∷◌ c (String.◌∷◌ c (escape powershell v))
              else String.◌∷◌ c (escape powershell v))
            "'"))
        e
      ∙ ap (read_powershell inside) (cons2-append c c (escape powershell v) "'")
      ∙ powershell_quote c (String.◌++◌ (escape powershell v) "'") e
      ∙ ap (with_char c) (powershell_inside v (ground arith))
  | inr e ↦
      ap
        (λ b. read_powershell inside (
          String.◌++◌
            (if b
              then String.◌∷◌ c (String.◌∷◌ c (escape powershell v))
              else String.◌∷◌ c (escape powershell v))
            "'"))
        e
      ∙ ap (read_powershell inside) (cons-append c (escape powershell v) "'")
      ∙ powershell_other c (String.◌++◌ (escape powershell v) "'") e (ground arith)
      ∙ ap (with_char c) (powershell_inside v (ground arith))
]

-- Each shell reads the quoted form of a text as one word, which is the text itself, provided that for
-- PowerShell the text has no typographic single quote.
pub read_word-quote :
    (shell : Shell) (v : String)
    → is_plain shell v ≡ true
    → read_word shell (quote shell v) ≡ some v
unfolding read_word quote read_bash read_powershell is_plain
read_word-quote powershell v plain = powershell_inside v plain
read_word-quote bash v plain = bash_inside v

-- With one, PowerShell ends the word early.
curly_quote_ends : read_word powershell (quote powershell "a’b") ≡ none
unfolding read_word read_powershell quote escape
curly_quote_ends = refl
