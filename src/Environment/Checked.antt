-- ===== src/Environment/Checked.antt =====
-- What the start-up checks let through.
use project.Base.{
  ==_iff, Bool, Bool-cases, List, String, [], ap, arith, eq_string, eq_ℕ, false, if◌then◌else◌, inl,
  inr, leb, ltb, refl, true, ℕ, ◌&&◌, ◌<◌, ◌==◌, ◌↔◌, ◌∙◌, ◌≡◌, ◌≢◌, ◌≤◌, ◌⊎◌,
}
use project.Environment.{
  ClassValidator, EnvError, EnvVars, Value, check_env, clean, configured, has_duplicate, has_sample,
  invalid, is_shorter, numbers_hold, page_too_long, same_value, sample_value, texts_hold,
  timeout_too_short, validate_env, value, window_too_short,
}
use project.Environment.Credentials.{
  IsApart, IsSecret, apart-nil, has_duplicate-apart, has_sample-IsSecret, is_distinct,
  is_distinct-IsApart,
}
use project.Schedules.Editing.{Number}

-- What a hub may run with.
pub record IsConfigured (min_length : String → ℕ → Bool) (c : EnvVars) : Type 0 where
  pub constraints : (texts_hold min_length c && numbers_hold c) ≡ true
  pub secret :
      c.node_env ≡ "production"
      → IsSecret c.agent_bootstrap_key c.operator_key c.viewer_key c.admin_key
  pub distinct : IsApart c.agent_bootstrap_key c.operator_key c.viewer_key c.admin_key
  pub beats : value c.heartbeat_interval_ms < value c.heartbeat_timeout_ms
  pub pages : value c.events_page_limit ≤ value c.events_page_max
  -- A record of delivery outlives its alert; a window of 0 is for ever.
  pub windows :
      value c.retention_notification_days ≢ 0
      → (value c.retention_alert_days ≢ 0)
        × (value c.retention_alert_days ≤ value c.retention_notification_days)

is_shorter_iff : (n a : ℕ) → (is_shorter n a ≡ false) ↔ (n ≢ 0 → (a ≢ 0) × (a ≤ n))
unfolding is_shorter
is_shorter_iff n a = (
  λ e z. (λ q. absurd (ground (arith)), ground arith),
  λ h. elim (Bool-cases (n == 0)) [
    | inl e ↦ ground arith
    | inr e ↦ let (apart_zero, le) = h (λ z. absurd (ground arith)) in ground arith
  ],
)

-- A check that was passed.
passed-eq-inr :
    (b : Bool) (e : EnvError) (rest : EnvError ⊎ EnvVars) (c : EnvVars)
    → (if b then inl e else rest) ≡ inr c
    → (b ≡ false) × (rest ≡ inr c)
passed-eq-inr true e rest c h = absurd (ground arith)
passed-eq-inr false e rest c h = (refl, h)

abbrev Answer : Type 0
Answer = EnvError ⊎ EnvVars

abbrev accepted : EnvVars → Answer
accepted c = inr c

inr-injective : (c d : EnvVars) → accepted c ≡ accepted d → c ≡ d
inr-injective c d h = ground arith

no_error : (n : ℕ) → ltb 0 n ≡ false → n ≡ 0
no_error n h = ground arith

below : (a b : ℕ) → leb b a ≡ false → a < b
below a b h = ground arith

at_most : (a b : ℕ) → ltb b a ≡ false → a ≤ b
at_most a b h = ground arith

distinct_keys : (keys : List String) → has_duplicate [] keys ≡ false → is_distinct keys ≡ true
distinct_keys keys h = ground (arith, has_duplicate-apart [] keys)

no_sample : (b s : Bool) → (b && s) ≡ false → b ≡ true → s ≡ false
no_sample b s h e = ground arith

check_env_sound :
    (min_length : String → ℕ → Bool) (c d : EnvVars)
    → (texts_hold min_length c && numbers_hold c) ≡ true
    → check_env c ≡ inr d
    → (c ≡ d) × IsConfigured min_length c
unfolding check_env configured
check_env_sound min_length c d h e =
    let (secret, e1) = passed-eq-inr _ sample_value _ d e in
    let (distinct, e2) = passed-eq-inr _ same_value _ d e1 in
    let (beats, e3) = passed-eq-inr _ timeout_too_short _ d e2 in
    let (pages, e4) = passed-eq-inr _ page_too_long _ d e3 in
    let (windows, e5) = passed-eq-inr _ window_too_short _ d e4 in
    (
      inr-injective c d e5,
      record {
        constraints = h;
        secret = λ p.
            (has_sample-IsSecret c.agent_bootstrap_key c.operator_key c.viewer_key c.admin_key).0
              (no_sample _ _ secret ((==_iff c.node_env "production").1 p));
        distinct =
            (is_distinct-IsApart c.agent_bootstrap_key c.operator_key c.viewer_key c.admin_key).0
              (distinct_keys _ distinct);
        beats = below _ _ beats;
        pages = at_most _ _ pages;
        windows = (is_shorter_iff _ _).0 windows;
      },
    )

check_env_complete :
    (min_length : String → ℕ → Bool) (c : EnvVars) → IsConfigured min_length c → check_env c ≡ inr c
unfolding check_env configured
check_env_complete min_length c i =
    let no_sample : (c.node_env == "production" && has_sample (configured c)) ≡ false =
      elim (Bool-cases (c.node_env == "production")) [
        | inl p ↦
            rw
              ((has_sample-IsSecret c.agent_bootstrap_key c.operator_key c.viewer_key c.admin_key).1
                (i.secret ((==_iff c.node_env "production").0 p)))
              (ground arith)
        | inr p ↦ ground arith
      ] in
    let distinct : has_duplicate [] (configured c) ≡ false =
      has_duplicate-apart [] (configured c)
      ∙ rw
          (
            apart-nil (configured c),
            (is_distinct-IsApart c.agent_bootstrap_key c.operator_key c.viewer_key c.admin_key).1
                i.distinct,
          )
          refl in
    let beats : leb (value c.heartbeat_timeout_ms) (value c.heartbeat_interval_ms) ≡ false =
      ground (arith, i.beats) in
    let pages : ltb (value c.events_page_max) (value c.events_page_limit) ≡ false =
      ground (arith, i.pages) in
    let windows =
      (is_shorter_iff (value c.retention_notification_days) (value c.retention_alert_days)).1
        i.windows in
    rw (no_sample, distinct, beats, pages, windows) refl

module _ (to_number : String → Number) (lower : String → String)
    (plain_to_instance : List (String × Value) → EnvVars) (validator : ClassValidator) where
  -- The hub starts exactly with an environment whose instance keeps every constraint of its fields,
  -- has no sample credential in production, no two of the bootstrap, operator, viewer and admin
  -- credentials that are given and equal, a silence timeout above the
  -- heartbeat interval, a page limit within its maximum, and delivery records that are kept at least
  -- as long as the alerts they explain; and it then runs with that instance.
  pub validate_env_iff :
      (raw : List (String × String)) (c : EnvVars)
      → (validate_env to_number lower plain_to_instance validator raw ≡ inr c) ↔ (
          (plain_to_instance (clean to_number lower raw) ≡ c)
          × IsConfigured validator.min_length (plain_to_instance (clean to_number lower raw)))
  unfolding validate_env
  validate_env_iff raw c =
      let config = plain_to_instance (clean to_number lower raw) in
      (
        λ e.
            let (valid, e1) = passed-eq-inr _ invalid _ c e in
            check_env_sound validator.min_length config c
              ((validator.errors_lem config).0 (no_error _ valid)) e1,
        λ (same, i).
            rw ((validator.errors_lem config).1 i.constraints)
              (check_env_complete validator.min_length config i)
            ∙ ap accepted same,
      )
