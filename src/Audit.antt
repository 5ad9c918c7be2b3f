-- ===== src/Audit.antt =====
-- hub/src/audit/audit.service.ts: the trail, and the collapse of repeats. A failed insert, which the
-- service logs and swallows, is outside the model.
pub mod Dedupe
pub mod Labels
pub mod Labelled
use project.Base.{
  Bool, List, Option, String, [], eq_option, eq_string, eq_ℕ, false, get_key, if◌then◌else◌, length,
  ltb, none, select, set_key, some, true, ℕ, ◌++◌, ◌+◌, ◌==◌, ◌∷◌,
}
use project.Contracts.Auth.{AuthRole}

pub data AuditActor : Type 0 where
  of_role : AuthRole → AuditActor
  system : AuditActor

pub data AuditAction : Type 0 where
  mode_changed alert_acknowledged agent_enrolled agent_token_rotated camera_viewed schedule_fired
        browser_camera_provisioned browser_camera_revoked :
      AuditAction

pub data AuditOutcome : Type 0 where
  allowed denied : AuditOutcome

-- A row of the AuditLog table; `detail` is its JSON text.
pub record AuditRow : Type 0 where
  pub at : ℕ
  pub action : AuditAction
  pub outcome : AuditOutcome
  pub actor : AuditActor
  pub actor_agent_id : Option String
  pub actor_label : Option String
  pub reason : Option String
  pub target_type : Option String
  pub target_id : Option String
  pub detail : String
  pub ip : Option String

-- `AuditEntry`: the row to write, and how its repeats collapse.
pub record AuditEntry : Type 0 where
  pub row : AuditRow
  pub dedupe_key : Option String
  pub dedupe_window_ms : Option ℕ

-- `recent` is the in-memory map from a key to the time of its last row.
pub record Audit : Type 0 where
  pub log : List AuditRow
  pub recent : List (String × ℕ)

-- `DEFAULT_DEDUPE_WINDOW_MS`.
abbrev pub default_dedupe_window_ms : ℕ
default_dedupe_window_ms = 300000

-- The opportunistic sweep of a map that grew past 512 keys.
unfoldable pub forget_old : ℕ → ℕ → List (String × ℕ) → List (String × ℕ)
unfolding select
forget_old now window m = if ltb 512 (length m) then select (λ e. ltb now (e.1 + window)) m else m

abbrev pub is_within : ℕ → ℕ → Option ℕ → Bool
is_within now window none = false
is_within now window (some last) = ltb now (last + window)

-- `suppress`: true when the key was recorded recently; otherwise the map with the key noted.
unfoldable pub suppress : ℕ → String → ℕ → List (String × ℕ) → Bool × List (String × ℕ)
unfolding forget_old
suppress now key window m =
    if is_within now window (get_key key m)
    then (true, m)
    else (false, forget_old now window (set_key key now m))

abbrev window_of : Option ℕ → ℕ
window_of none = default_dedupe_window_ms
window_of (some w) = w

abbrev append_row : AuditRow → Audit → Audit
append_row row a = record a { log = a.log ++ row ∷ [] }

record_keyed : ℕ → AuditEntry → Audit → Option String → Audit
record_keyed now e a none = append_row e.row a
record_keyed now e a (some key) =
    if key == ""
    then append_row e.row a
    else (let s = suppress now key (window_of e.dedupe_window_ms) a.recent in
        if s.0 then a else append_row e.row (record a { recent = s.1 }))

unfoldable pub record_entry : ℕ → AuditEntry → Audit → Audit
unfolding record_keyed suppress
record_entry now e a = record_keyed now e a e.dedupe_key
