-- ===== src/Audit/Labelled.antt =====
-- What the trail can hold as a claimed name.
use Prim.Native.Char.{code}
use project.Audit.Labels.{
  blank_controls, is_control, max_operator_label_length, sanitize_label, slice,
}
use project.Base.{
  Bool, Bool-cases, String, arith, drop_space, eq_string, eq_ℕ, false, if_holds, inl, inr, is_space,
  refl, some, suc, trim, trim_end, trim_start, zero, ℕ, ◌==◌, ◌||◌, ◌≡◌, ◌≤◌,
}

unfoldable has_control : String → Bool
has_control String.[] = false
has_control (String.◌∷◌ c s) = is_control (code c) || has_control s

unfoldable count_chars : String → ℕ
count_chars String.[] = 0
count_chars (String.◌∷◌ c s) = suc (count_chars s)

blank_controls-clear : (s : String) → has_control (blank_controls s) ≡ false
unfolding has_control blank_controls
blank_controls-clear String.[] = refl
blank_controls-clear (String.◌∷◌ c s) = elim (Bool-cases (is_control (code c))) [
  | inl e ↦ rw e (blank_controls-clear s)
  | inr e ↦ rw (e, e) (blank_controls-clear s)
]

trim_start-clear : (s : String) → has_control s ≡ false → has_control (trim_start s) ≡ false
unfolding has_control trim_start
trim_start-clear String.[] h = refl
trim_start-clear (String.◌∷◌ c s) h = ground (arith, h, trim_start-clear s)

drop_space-clear :
    (n : ℕ) (kept rest : String)
    → has_control kept ≡ false
    → has_control (drop_space n kept rest) ≡ false
unfolding has_control drop_space
drop_space-clear n kept String.[] h =
    if_holds (λ t. has_control t ≡ false) (is_space n) "" kept (λ e. refl) (λ e. h)
drop_space-clear n kept (String.◌∷◌ c s) h = h

trim_end-clear : (s : String) → has_control s ≡ false → has_control (trim_end s) ≡ false
unfolding has_control trim_end
trim_end-clear String.[] h = refl
trim_end-clear (String.◌∷◌ c s) h =
    drop_space-clear (code c) (String.◌∷◌ c (trim_end s)) (trim_end s)
      (ground (arith, h, trim_end-clear s))

slice-clear : (n : ℕ) (s : String) → has_control s ≡ false → has_control (slice n s) ≡ false
unfolding has_control slice
slice-clear zero s h = refl
slice-clear (suc n) String.[] h = refl
slice-clear (suc n) (String.◌∷◌ c s) h = ground (arith, h, slice-clear n s)

count_chars-slice : (n : ℕ) (s : String) → count_chars (slice n s) ≤ n
unfolding count_chars slice
count_chars-slice zero s = omega arith
count_chars-slice (suc n) String.[] = omega arith
count_chars-slice (suc n) (String.◌∷◌ c s) = omega (arith, count_chars-slice n s)

-- A name that the trail records, whatever the header held, has no control character and at most 64
-- characters.
sanitize_label_lem :
    (header l : String)
    → sanitize_label (some header) ≡ some l
    → (has_control l ≡ false) × (count_chars l ≤ max_operator_label_length)
unfolding sanitize_label trim blank_controls slice
sanitize_label_lem header l e =
    let cleaned = trim (blank_controls header) in
    let clear =
      trim_end-clear (trim_start (blank_controls header))
        (trim_start-clear (blank_controls header) (blank_controls-clear header)) in
    elim (Bool-cases (cleaned == "")) [
      | inl h ↦ absurd (ground (arith, h, e))
      | inr h ↦
          let same : slice 64 cleaned ≡ l = ground (arith, h, e) in
          rw (← same) (slice-clear 64 cleaned clear, count_chars-slice 64 cleaned)
    ]
