-- ===== src/Dashboard/AgentCommandValid.antt =====
-- The suggested identifier is a valid one.
use Prim.Native.String
use Prim.Native.Char.{Char, code}
use text.Mathlib.TextLemmas.{cons-append, cons-ne-nil, nil-append}
use project.Base.{
  ==_iff, Bool, Bool-cases, String, ap, arith, between, drop_space, eq_option, eq_string, eq_ℕ,
  false, if_holds, if◌then◌else◌, inl, inr, is_space, ltb, none, refl, suc, sym, trim, trim_end,
  trim_start, true, utf16_length, zero, ℕ, ◌+◌, ◌==◌, ◌∙◌, ◌≡◌, ◌≤◌,
}
use project.Dashboard.AgentCommand.{
  agent_id_max_length, all_codes, collapse, dash, drop_dash, is_id_code, is_slug_code, slice_chars,
  slugify, suggest_agent_id, trim_end_dashes, trim_start_dashes, validate_agent_id,
}

module _ (p : ℕ → Bool) where
  all_codes-trim_start_dashes :
      (s : String) → all_codes p s ≡ true → all_codes p (trim_start_dashes s) ≡ true
  unfolding all_codes trim_start_dashes
  all_codes-trim_start_dashes String.[] e = refl
  all_codes-trim_start_dashes (String.◌∷◌ c s) e = elim (Bool-cases (code c == dash)) [
    | inl f ↦ rw f (all_codes-trim_start_dashes s (ground arith))
    | inr f ↦ rw f e
  ]

  all_codes-drop_dash :
      (c : Char) (s : String)
      → p (code c) ≡ true
      → all_codes p s ≡ true
      → all_codes p (drop_dash c s) ≡ true
  unfolding all_codes drop_dash
  all_codes-drop_dash c String.[] f e =
      if_holds (λ t. all_codes p t ≡ true) (code c == dash) "" (String.◌∷◌ c "") (λ _. refl)
        (λ _. ground arith)
  all_codes-drop_dash c (String.◌∷◌ d s) f e = ground arith

  all_codes-trim_end_dashes :
      (s : String) → all_codes p s ≡ true → all_codes p (trim_end_dashes s) ≡ true
  unfolding all_codes trim_end_dashes
  all_codes-trim_end_dashes String.[] e = refl
  all_codes-trim_end_dashes (String.◌∷◌ c s) e =
      all_codes-drop_dash c (trim_end_dashes s) (ground arith)
        (all_codes-trim_end_dashes s (ground arith))

  all_codes-slice_chars :
      (n : ℕ) (s : String) → all_codes p s ≡ true → all_codes p (slice_chars n s) ≡ true
  unfolding all_codes slice_chars
  all_codes-slice_chars zero s e = refl
  all_codes-slice_chars (suc n) String.[] e = refl
  all_codes-slice_chars (suc n) (String.◌∷◌ c s) e =
      ground (arith, all_codes-slice_chars n s (ground arith))

slug_code : (n : ℕ) → is_slug_code n ≡ true → is_id_code n ≡ true
slug_code n e = ground arith

all_codes-collapse :
    (replaced : Bool) (s : String) → all_codes is_id_code (collapse replaced s) ≡ true
unfolding all_codes collapse
all_codes-collapse replaced String.[] = refl
all_codes-collapse replaced (String.◌∷◌ c s) = elim (Bool-cases (is_slug_code (code c))) [
  | inl e ↦ rw e (rw (slug_code (code c) e) (all_codes-collapse false s))
  | inr e ↦ rw e (
      if_holds (λ t. all_codes is_id_code t ≡ true) replaced _ _ (λ _. all_codes-collapse true s)
        (λ _. all_codes-collapse true s))
]

one_unit : (n : ℕ) → is_id_code n ≡ true → ltb n 65536 ≡ true
one_unit n e = ground arith

utf16_length-slice_chars :
    (n : ℕ) (s : String) → all_codes is_id_code s ≡ true → utf16_length (slice_chars n s) ≤ n
unfolding all_codes slice_chars utf16_length
utf16_length-slice_chars zero s e = omega arith
utf16_length-slice_chars (suc n) String.[] e = omega arith
utf16_length-slice_chars (suc n) (String.◌∷◌ c s) e =
    let allowed : is_id_code (code c) ≡ true = ground arith in
    rw (one_unit (code c) allowed) (omega (arith, utf16_length-slice_chars n s (ground arith)))

nonempty : (c : Char) (s : String) → (String.◌∷◌ c s == "") ≡ false
nonempty c s = elim (Bool-cases (String.◌∷◌ c s == "")) [
  | inl e ↦ absurd (cons-ne-nil c s ((==_iff (String.◌∷◌ c s) "").0 e))
  | inr e ↦ e
]

drop_space_kept : (n : ℕ) (kept rest : String) → is_space n ≡ false → drop_space n kept rest ≡ kept
unfolding drop_space
drop_space_kept n kept String.[] e = rw e refl
drop_space_kept n kept (String.◌∷◌ c s) e = refl

trim_nonempty :
    (c : Char) (s : String) → is_space (code c) ≡ false → (trim (String.◌∷◌ c s) == "") ≡ false
unfolding trim trim_start trim_end
trim_nonempty c s e =
    ap (λ b. trim_end (if b then trim_start s else String.◌∷◌ c s) == "") e
    ∙ ap (λ t. t == "") (drop_space_kept (code c) (String.◌∷◌ c (trim_end s)) (trim_end s) e)
    ∙ nonempty c (trim_end s)

validate_lem :
    (c : Char) (s : String)
    → is_space (code c) ≡ false
    → all_codes is_id_code (String.◌∷◌ c s) ≡ true
    → utf16_length (String.◌∷◌ c s) ≤ agent_id_max_length
    → validate_agent_id (String.◌∷◌ c s) ≡ none
unfolding validate_agent_id
validate_lem c s e allowed short =
    let fits : ltb agent_id_max_length (utf16_length (String.◌∷◌ c s)) ≡ false = ground arith in
    rw (trim_nonempty c s e, fits, nonempty c s, allowed) refl

all_codes-append :
    (p : ℕ → Bool) (x y : String)
    → all_codes p x ≡ true
    → all_codes p y ≡ true
    → all_codes p (String.◌++◌ x y) ≡ true
unfolding all_codes
all_codes-append p String.[] y e f = ap (all_codes p) (nil-append y) ∙ f
all_codes-append p (String.◌∷◌ c x) y e f =
    ap (all_codes p) (cons-append c x y) ∙ ground (arith, all_codes-append p x y (ground arith) f)

utf16_length-append :
    (x y : String) → utf16_length (String.◌++◌ x y) ≡ utf16_length x + utf16_length y
unfolding utf16_length
utf16_length-append String.[] y = ap utf16_length (nil-append y) ∙ omega arith
utf16_length-append (String.◌∷◌ c x) y =
    ap utf16_length (cons-append c x y) ∙ omega (arith, utf16_length-append x y)

module _ (lower : String → String) (location : String) where
  slug_allowed : all_codes is_id_code (slugify lower location) ≡ true
  unfolding slugify
  slug_allowed = all_codes-slice_chars is_id_code 40 _ (
      all_codes-trim_end_dashes is_id_code _
        (all_codes-trim_start_dashes is_id_code _ (all_codes-collapse false (lower location))))

  slug_short : utf16_length (slugify lower location) ≤ 40
  unfolding slugify
  slug_short = utf16_length-slice_chars 40 _ (
      all_codes-trim_end_dashes is_id_code _
        (all_codes-trim_start_dashes is_id_code _ (all_codes-collapse false (lower location))))

  prefixed_valid :
      (slug : String)
      → all_codes is_id_code slug ≡ true
      → utf16_length slug ≤ 40
      → validate_agent_id (String.◌++◌ "camera-" slug) ≡ none
  prefixed_valid slug allowed short =
      let seven : utf16_length "camera-" ≡ 7 = unfold utf16_length in refl in
      let same = cons-append "c" "amera-" slug in
      ap validate_agent_id same
      ∙ validate_lem "c" (String.◌++◌ "amera-" slug) (unfold is_space between in refl)
          (ap (all_codes is_id_code) (sym same)
            ∙ all_codes-append is_id_code "camera-" slug (unfold all_codes in refl) allowed)
          (omega (arith, ap utf16_length same, utf16_length-append "camera-" slug, short, seven))

  -- Whatever the location, the identifier that is suggested for its camera passes the check that is
  -- made of an identifier.
  pub validate-suggest : validate_agent_id (suggest_agent_id lower location) ≡ none
  unfolding suggest_agent_id
  validate-suggest =
      if_holds (λ t. validate_agent_id t ≡ none) (slugify lower location == "") "camera-1"
        (String.◌++◌ "camera-" (slugify lower location))
        (λ _. unfold validate_agent_id trim utf16_length all_codes in refl)
        (λ _. prefixed_valid (slugify lower location) slug_allowed slug_short)
