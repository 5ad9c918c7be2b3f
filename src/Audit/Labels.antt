-- ===== src/Audit/Labels.antt =====
-- hub/src/audit/audit.service.ts, lines 41-67, and dashboard/src/lib/api.ts, labelHeader: the name
-- that an operator claims. A header holds one byte for a character, so `slice` counts characters.
use Prim.Native.Char.{code}
use project.Base.{
  Bool, Option, String, eq_option, eq_string, eq_ℕ, if◌then◌else◌, ltb, none, some, suc, trim, zero,
  ℕ, ◌==◌, ◌||◌,
}

abbrev pub max_operator_label_length : ℕ
max_operator_label_length = 64

abbrev pub is_control : ℕ → Bool
is_control code = ltb code 32 || code == 127

unfoldable pub blank_controls : String → String
blank_controls String.[] = ""
blank_controls (String.◌∷◌ c s) =
    String.◌∷◌ (if is_control (code c) then " " else c) (blank_controls s)

unfoldable pub slice : ℕ → String → String
slice zero s = ""
slice (suc n) String.[] = ""
slice (suc n) (String.◌∷◌ c s) = String.◌∷◌ c (slice n s)

-- A header that is not one text is none.
unfoldable pub sanitize_label : Option String → Option String
unfolding blank_controls slice trim
sanitize_label none = none
sanitize_label (some raw) =
    let cleaned = trim (blank_controls raw) in
    if cleaned == "" then none else some (slice max_operator_label_length cleaned)

unfoldable pub drop_controls : String → String
drop_controls String.[] = ""
drop_controls (String.◌∷◌ c s) =
    let rest = drop_controls s in if is_control (code c) then rest else String.◌∷◌ c rest

-- The header that the dashboard sends, where one is sent.
unfoldable pub label_header : String → Option String
unfolding drop_controls trim
label_header current =
    let label = trim (drop_controls current) in if label == "" then none else some label
