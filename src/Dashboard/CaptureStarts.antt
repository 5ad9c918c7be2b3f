-- ===== src/Dashboard/CaptureStarts.antt =====
-- The starts in flight, where there is at most one.
use project.Base.{
  ==_iff, ==_refl, Bool, List, [], ap, arith, eq_string, eq_ℕ, not, refl, true, ℕ, ◌∙◌, ◌∷◌, ◌≡◌,
}
use project.Dashboard.Capture.{
  Awaiting, creation, drop_start, is_at, is_same, revocation, user_media,
}
use project.Dashboard.CaptureSteps.{in_flight}

abbrev pub is_single : List (ℕ × Awaiting) → Bool
is_single [] = true
is_single (call ∷ calls) = not (in_flight calls)

is_same_sound : (a b : Awaiting) → is_same a b ≡ true → a ≡ b
is_same_sound revocation revocation e = refl
is_same_sound revocation user_media e = absurd (ground arith)
is_same_sound revocation creation e = absurd (ground arith)
is_same_sound user_media revocation e = absurd (ground arith)
is_same_sound user_media user_media e = refl
is_same_sound user_media creation e = absurd (ground arith)
is_same_sound creation revocation e = absurd (ground arith)
is_same_sound creation user_media e = absurd (ground arith)
is_same_sound creation creation e = refl

is_same_refl : (a : Awaiting) → is_same a a ≡ true
is_same_refl revocation = refl
is_same_refl user_media = refl
is_same_refl creation = refl

-- The one start in flight.
pub lone_start :
    (fps : ℕ) (at : Awaiting) (calls : List (ℕ × Awaiting))
    → is_single calls ≡ true
    → is_at fps at calls ≡ true
    → calls ≡ (fps, at) ∷ []
unfolding is_at
lone_start fps at [] e h = absurd (ground arith)
lone_start fps at ((f, a) ∷ []) e h =
    let same_fps = (==_iff f fps).0 (ground (arith, h)) in
    let same_at = is_same_sound a at (ground (arith, h)) in rw (same_fps, same_at) refl
lone_start fps at ((f, a) ∷ (call ∷ calls)) e h = absurd (ground arith)

pub drop_lone : (fps : ℕ) (at : Awaiting) → drop_start fps at ((fps, at) ∷ []) ≡ []
unfolding drop_start
drop_lone fps at = rw (==_refl fps, is_same_refl at) refl

pub dropped :
    (fps : ℕ) (at : Awaiting) (calls : List (ℕ × Awaiting))
    → is_single calls ≡ true
    → is_at fps at calls ≡ true
    → drop_start fps at calls ≡ []
dropped fps at calls e h = ap (drop_start fps at) (lone_start fps at calls e h) ∙ drop_lone fps at
